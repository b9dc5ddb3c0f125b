-- ===== src/Record/Write/Length.antt =====
-- The Content-Length of a written record, whose payload is as long as its content length says.
use chatnoir_resiliparse.Prelude.{
  ℕ, ◌<◌, ◌≡◌, refl, sym, ap, ◌∙◌, Bool, true, false, Option, none, some, [], ◌++◌, if◌then◌else◌,
  length, length-append, append_assoc, suc, arith,
}
use chatnoir_resiliparse.Prelude.Int.{u64_mod, add_u64, add_u64_exact}
use chatnoir_resiliparse.Bytes.{Bytes, bytes_eq}
use chatnoir_resiliparse.Io.{ok, Write}
use chatnoir_resiliparse.Io.Laws.{IsRead, IsWrite}
use chatnoir_resiliparse.Io.Cursor.{vec, vec-IsWrite}
use chatnoir_resiliparse.Header.{HeaderMap}
use chatnoir_resiliparse.Header.Map.{get_bytes, set_bytes}
use chatnoir_resiliparse.Header.Write.Render.{write_renders, rendered}
use chatnoir_resiliparse.Header.Write.Total.{write-Always}
use chatnoir_resiliparse.StreamIo.{WarcRead}
use chatnoir_resiliparse.StreamIo.Limited.Laws.{limited_content}
use chatnoir_resiliparse.Record.{WarcRecord, ReaderType, inner_reader}
use chatnoir_resiliparse.Record.Boxes.{Boxes}
use chatnoir_resiliparse.Record.Digest.{Hashing}
use chatnoir_resiliparse.Record.Names.{header_name}
use chatnoir_resiliparse.Record.Number.{parse_u64}
use chatnoir_resiliparse.Record.Kind.RoundTrip.{bytes_eq-same}
use chatnoir_resiliparse.Record.Decimal.{to_string}
use chatnoir_resiliparse.Record.Decimal.RoundTrip.{parse_u64-to_string}
use chatnoir_resiliparse.Record.Decimal.Stored.{content_length_key, get-set-to_string}
use chatnoir_resiliparse.Record.Write.{
  parsed_http, http_header_len, ensure_content_length, says, two_lines,
  write_with_block_size_checksum,
}
use chatnoir_resiliparse.Record.Write.Emits.{http_text, write-record_text}

-- The length of the HTTP headers is that of their text.
http_header_len_lem : (http : Option HeaderMap) → http_header_len http ≡ length (http_text http)
unfolding http_header_len
http_header_len_lem none = refl
http_header_len_lem (some h) =
    let (n, w, e) = write-Always vec (λ b w. (tt, w ++ b, refl)) h [] in
    let (out, size) = write_renders vec (λ w. w) vec-IsWrite h n [] w e in rw e (sym size)

ensure-gets :
    (n : ℕ) (h : HeaderMap)
    → get_bytes content_length_key (ensure_content_length n h) ≡ some (to_string n)
unfolding ensure_content_length header_name
ensure-gets n h = go (get_bytes content_length_key h) refl
  where
    stays : (b : Bool) → HeaderMap
    stays b = if b then h else set_bytes content_length_key (to_string n) h

    same :
        (v : Bytes) (b : Bool)
        → get_bytes content_length_key h ≡ some v
        → bytes_eq v (to_string n) ≡ b
        → get_bytes content_length_key (stays b) ≡ some (to_string n)
    same v true e i = e ∙ ap some (bytes_eq-same v (to_string n) i)
    same v false e i = get-set-to_string n h

    go :
        (o : Option Bytes)
        → get_bytes content_length_key h ≡ o
        → get_bytes content_length_key (ensure_content_length n h) ≡ some (to_string n)
    go none e =
        ap (λ o. get_bytes content_length_key (stays (says o (to_string n)))) e
        ∙ get-set-to_string n h
    go (some v) e =
        ap (λ o. get_bytes content_length_key (stays (says o (to_string n)))) e
        ∙ same v (bytes_eq v (to_string n)) e refl

module _ {S W : Type 0} (reader : WarcRead S) (boxes : Boxes S) (hashing : Hashing) (len fuel : ℕ)
    (content : S → Bytes) (laws : IsRead reader.read content) (writer : Write W)
    (emitted : W → Bytes) (out_laws : IsWrite writer emitted) (chunk : ℕ) where
  -- A record whose payload, up to the limit of its reader, is as long as its content length says is
  -- written without checksums and with a chunk size above 0, and no error is met. Its block, which is
  -- the HTTP headers, where they have been parsed, and the payload, has fewer than 2 ^ 64 bytes. Then
  -- what has been appended is the headers, the block and two line ends, and the Content-Length of those
  -- headers is read back as the length of the block.
  pub content_length-block :
      (rec rec' : WarcRecord S) (t : ReaderType S) (w w' : W) (k : ℕ)
      → rec.reader ≡ some t
      → length (limited_content content (inner_reader t)) ≡ rec.content_length
      → length (http_text (parsed_http rec) ++ limited_content content (inner_reader t)) < u64_mod
      → write_with_block_size_checksum reader boxes hashing len fuel writer
          (suc chunk)
          false
          (rec, w)
        ≡ (ok k, (rec', w'))
      → let block = http_text (parsed_http rec) ++ limited_content content (inner_reader t) in
        let h = ensure_content_length (length block) rec.headers in
        (emitted w' ≡ emitted w ++ (rendered h ++ (block ++ two_lines)))
        × ((v : Bytes) × (get_bytes content_length_key h ≡ some v)
            × (parse_u64 v ≡ some (length block)))
  content_length-block rec rec' t w w' k e whole small run =
      let payload = limited_content content (inner_reader t) in
      let http = http_text (parsed_http rec) in
      let n = add_u64 rec.content_length (http_header_len (parsed_http rec)) in
      let parts = length-append http payload in
      let http_size = http_header_len_lem (parsed_http rec) in
      let size : n ≡ length (http ++ payload) =
        add_u64_exact rec.content_length (http_header_len (parsed_http rec)) (omega arith)
        ∙ omega arith in
      let (out, count) =
        write-record_text reader boxes hashing len fuel content laws writer emitted out_laws chunk
          rec rec' t w w' k e run in
      (
        out
            ∙ ap
                (λ j.
                  emitted w
                  ++ (rendered (ensure_content_length j rec.headers)
                      ++ (http ++ (payload ++ two_lines))))
                size
            ∙ ap
                (λ v.
                  emitted w
                  ++ (rendered (ensure_content_length (length (http ++ payload)) rec.headers) ++ v))
                (sym (append_assoc http payload two_lines)),
        (
          to_string (length (http ++ payload)),
          ensure-gets (length (http ++ payload)) rec.headers,
          parse_u64-to_string (length (http ++ payload)) small,
        ),
      )
