-- ===== src/Record/Write/Emits.antt =====
-- What a record is written as.
use chatnoir_resiliparse.Prelude.{
  ℕ, suc, ◌+◌, ◌≡◌, refl, sym, ap, ◌∙◌, false, Option, none, some, [], ◌++◌, arith, length,
  length-append, append_assoc, append-nil,
}
use chatnoir_resiliparse.Prelude.Int.{add_u64}
use chatnoir_resiliparse.Bytes.{Bytes}
use chatnoir_resiliparse.Io.{Result, ok, err, Write}
use chatnoir_resiliparse.Io.Laws.{IsRead, IsWrite}
use chatnoir_resiliparse.Io.Writes.{Writes, Writes-pure, Writes-bind, Writes-cast}
use chatnoir_resiliparse.Io.ReadLoop.{read_each, read_each-WhenOk, WhenOk}
use chatnoir_resiliparse.Header.{HeaderMap}
use chatnoir_resiliparse.Header.Write.Render.{rendered, write-Writes}
use chatnoir_resiliparse.StreamIo.{WarcRead}
use chatnoir_resiliparse.StreamIo.Limited.{LimitedBufReader}
use chatnoir_resiliparse.StreamIo.Limited as L
use chatnoir_resiliparse.StreamIo.Limited.Laws.{limited_content}
use chatnoir_resiliparse.StreamIo.Limited.Read.{limited-IsRead}
use chatnoir_resiliparse.Record.{WarcRecord, ReaderType, inner_reader, put_reader}
use chatnoir_resiliparse.Record.Boxes.{Boxes}
use chatnoir_resiliparse.Record.Digest.{Hashing}
use chatnoir_resiliparse.Record.Write.{
  parsed_http, http_header_len, ensure_content_length, two_lines, write_chunk, write_http,
  write_heads, separated, after_content, after_heads, write_from, add_checksums,
  write_with_block_size_checksum,
}

abbrev pub http_text : Option HeaderMap → Bytes
http_text none = []
http_text (some h) = rendered h

-- The record as text: its headers with the content length and the length of the HTTP headers together
-- as the Content-Length, the HTTP headers, the payload, and two line ends.
abbrev pub record_text : {S : Type 0} → WarcRecord S → Bytes → Bytes
record_text rec payload =
    rendered (
      ensure_content_length (add_u64 rec.content_length (http_header_len (parsed_http rec)))
        rec.headers)
    ++ (http_text (parsed_http rec) ++ (payload ++ two_lines))

module _ {S W : Type 0} (reader : WarcRead S) (boxes : Boxes S) (hashing : Hashing) (len fuel : ℕ)
    (content : S → Bytes) (laws : IsRead reader.read content) (writer : Write W)
    (emitted : W → Bytes) (out_laws : IsWrite writer emitted) (chunk : ℕ) where
  write_http-Writes :
      (http : Option HeaderMap) (n : ℕ)
      → Writes writer emitted out_laws
          (write_http reader boxes hashing len fuel writer (suc chunk) http n)
          (http_text http)
          (n + length (http_text http))
  write_http-Writes none n =
      Writes-cast writer emitted out_laws (Writes-pure writer emitted out_laws n) refl (omega arith)
  write_http-Writes (some h) n =
      Writes-cast writer emitted out_laws
        (Writes-bind writer emitted out_laws _ (rendered h) [] (length (rendered h))
          (n + length (rendered h)) (write-Writes writer emitted out_laws h)
          (Writes-pure writer emitted out_laws (n + length (rendered h))))
        (append-nil (rendered h)) refl

  write_heads-Writes :
      (h : HeaderMap) (http : Option HeaderMap)
      → Writes writer emitted out_laws
          (write_heads reader boxes hashing len fuel writer (suc chunk) h http)
          (rendered h ++ http_text http)
          (length (rendered h) + length (http_text http))
  unfolding write_heads
  write_heads-Writes h http =
      Writes-bind writer emitted out_laws _ (rendered h) (http_text http) (length (rendered h))
        (length (rendered h) + length (http_text http)) (write-Writes writer emitted out_laws h)
        (write_http-Writes http (length (rendered h)))

  -- The count goes with what has been written since `w`.
  abbrev Counted : W → ℕ → Bytes → W × ℕ → Type 0
  Counted w n d (w', n') = (emitted w' ≡ emitted w ++ d) × (n' ≡ n + length d)

  Counted-chunk :
      (w : W) (n : ℕ) (d b : Bytes) (t t' : W × ℕ)
      → Counted w n d t
      → write_chunk reader boxes hashing len fuel writer (suc chunk) b t ≡ (ok tt, t')
      → Counted w n (d ++ b) t'
  unfolding write_chunk
  Counted-chunk w n d b (u, m) (u', m') (p, q) e =
      let i : writer.write_all b u ≡ (ok tt, u') = cc in
      let j : m' ≡ m + length b = cc in
      (
        out_laws.write_appends u u' b i ∙ ap (λ x. x ++ b) p ∙ append_assoc (emitted w) d b,
        omega (arith, length-append d b),
      )

  module _ (w : W) (text : Bytes) (n : ℕ) where
    finish :
        (rec rec' : WarcRecord S) (t : ReaderType S) (w0 w' : W) (k : ℕ) (payload : Bytes)
        (x : Result (Unit {0}) × (LimitedBufReader S × (W × ℕ)))
        → emitted w0 ≡ emitted w ++ text
        → n ≡ length text
        → WhenOk
            (L.read reader)
            chunk
            (write_chunk reader boxes hashing len fuel writer (suc chunk))
            (limited_content content)
            (limited-IsRead reader content laws)
            (Counted w0 n)
            (Counted-chunk w0 n)
            ([] ++ payload)
            x
        → after_content reader boxes hashing len fuel writer (suc chunk) t rec x
          ≡ (ok k, (rec', w'))
        → (emitted w' ≡ emitted w ++ (text ++ (payload ++ two_lines)))
          × (k ≡ length (text ++ (payload ++ two_lines)))
    finish rec rec' t w0 w' k payload (err e, (r, (u, m))) p q held e' = cc
    finish rec rec' t w0 w' k payload (ok done, (r, (u, m))) p q ((i, j), ends) e' =
        let (last, count) = tail (writer.write_all two_lines u) refl e' in
        let size = length-append payload two_lines in
        let all = length-append text (payload ++ two_lines) in
        (
          last
              ∙ ap (λ x. x ++ two_lines) (i ∙ ap (λ x. x ++ payload) p)
              ∙ append_assoc (emitted w ++ text) payload two_lines
              ∙ append_assoc (emitted w) text (payload ++ two_lines),
          omega arith,
        )
      where
        tail :
            (y : Result (Unit {0}) × W)
            → writer.write_all two_lines u ≡ y
            → separated reader boxes hashing len fuel writer
                (suc chunk)
                m
                (record rec { reader = some (put_reader r t) })
                y
              ≡ (ok k, (rec', w'))
            → (emitted w' ≡ emitted u ++ two_lines) × (k ≡ m + 4)
        tail (err e, v) f g = cc
        tail (ok done, v) f g =
            let a : v ≡ w' = cc in (ap emitted (sym a) ∙ out_laws.write_appends u v two_lines f, cc)

  write_from-emits :
      (n : ℕ) (rec rec' : WarcRecord S) (t : ReaderType S) (w w' : W) (k : ℕ)
      → write_from reader boxes hashing len fuel writer (suc chunk) n (some t) (rec, w)
        ≡ (ok k, (rec', w'))
      → let text = rendered (ensure_content_length n rec.headers) ++ http_text (parsed_http rec) in
        let all = text ++ (limited_content content (inner_reader t) ++ two_lines) in
        (emitted w' ≡ emitted w ++ all) × (k ≡ length all)
  unfolding write_from
  write_from-emits n rec rec' t w w' k e =
      heads (write_heads reader boxes hashing len fuel writer (suc chunk) h http w) refl e
    where
      h : HeaderMap
      h = ensure_content_length n rec.headers

      http : Option HeaderMap
      http = parsed_http rec

      text : Bytes
      text = rendered h ++ http_text http

      heads :
          (x : Result ℕ × W)
          → write_heads reader boxes hashing len fuel writer (suc chunk) h http w ≡ x
          → after_heads reader boxes hashing len fuel writer
              (suc chunk)
              t
              (record rec { headers = h })
              x
            ≡ (ok k, (rec', w'))
          → (emitted w'
              ≡ emitted w ++ (text ++ (limited_content content (inner_reader t) ++ two_lines)))
            × (k ≡ length (text ++ (limited_content content (inner_reader t) ++ two_lines)))
      heads (err f, u) i j = cc
      heads (ok m, u) i j =
          let (p, q) = (write_heads-Writes h http).when_ok w u m i in
          finish w text m (record rec { headers = h }) rec' t u w' k
            (limited_content content (inner_reader t))
            (read_each (L.read reader) (suc chunk)
              (write_chunk reader boxes hashing len fuel writer (suc chunk)) fuel
              (inner_reader t, (u, m)))
            p (q ∙ sym (length-append (rendered h) (http_text http)))
            (read_each-WhenOk (L.read reader) chunk
              (write_chunk reader boxes hashing len fuel writer (suc chunk))
              (limited_content content) (limited-IsRead reader content laws) (Counted u m)
              (Counted-chunk u m) fuel [] (inner_reader t) (u, m)
              (sym (append-nil (emitted u)), omega arith))
            j

  -- Where a record is written without checksums and with a chunk size above 0, and no error is met,
  -- what has been appended is its headers, with its content length and the length of its parsed HTTP
  -- headers added up as the Content-Length, those HTTP headers, its payload up to the limit and two
  -- line ends; the result is the count of those bytes.
  pub write-record_text :
      (rec rec' : WarcRecord S) (t : ReaderType S) (w w' : W) (k : ℕ)
      → rec.reader ≡ some t
      → write_with_block_size_checksum reader boxes hashing len fuel writer
          (suc chunk)
          false
          (rec, w)
        ≡ (ok k, (rec', w'))
      → (emitted w' ≡ emitted w ++ record_text rec (limited_content content (inner_reader t)))
        × (k ≡ length (record_text rec (limited_content content (inner_reader t))))
  unfolding write_with_block_size_checksum add_checksums
  write-record_text rec rec' t w w' k e run =
      let n = add_u64 rec.content_length (http_header_len (parsed_http rec)) in
      let h = rendered (ensure_content_length n rec.headers) in
      let (out, count) = write_from-emits n rec rec' t w w' k (
        ap (λ o. write_from reader boxes hashing len fuel writer (suc chunk) n o (rec, w)) (sym e)
        ∙ run) in
      let flat =
        append_assoc h (http_text (parsed_http rec))
          (limited_content content (inner_reader t) ++ two_lines) in
      (out ∙ ap (λ x. emitted w ++ x) flat, count ∙ ap length flat)
