-- ===== src/Record/Write/Total.antt =====
-- Writing a record does not fail by itself.
use chatnoir_resiliparse.Prelude.{
  ℕ, suc, ◌+◌, ◌<◌, ◌≡◌, ap, ◌∙◌, false, Option, none, some, length, ◌++◌,
}
use chatnoir_resiliparse.Prelude.Int.{add_u64}
use chatnoir_resiliparse.Bytes.{Bytes}
use chatnoir_resiliparse.Io.{Result, ok, Write}
use chatnoir_resiliparse.Io.Laws.{IsRead, ReadsAlways, IsWrite}
use chatnoir_resiliparse.Io.ReadLoop.{read_each-Succeeds}
use chatnoir_resiliparse.Header.{HeaderMap}
use chatnoir_resiliparse.Header.Write as H
use chatnoir_resiliparse.Header.Write.Total.{Always, Always-bind, Always-pure, write-Always}
use chatnoir_resiliparse.StreamIo.{WarcRead}
use chatnoir_resiliparse.StreamIo.Limited.{LimitedBufReader}
use chatnoir_resiliparse.StreamIo.Limited as L
use chatnoir_resiliparse.StreamIo.Limited.Laws.{limited_content}
use chatnoir_resiliparse.StreamIo.Limited.Read.{limited-IsRead, limited-ReadsAlways}
use chatnoir_resiliparse.Record.{WarcRecord, ReaderType, inner_reader, put_reader}
use chatnoir_resiliparse.Record.Boxes.{Boxes}
use chatnoir_resiliparse.Record.Digest.{Hashing}
use chatnoir_resiliparse.Record.Write.{
  parsed_http, http_header_len, ensure_content_length, two_lines, write_chunk, write_http,
  write_heads, separated, after_content, after_heads, write_from, add_checksums,
  write_with_block_size_checksum,
}
use chatnoir_resiliparse.Record.Write.Emits.{record_text, write-record_text}

module _ {S W : Type 0} (reader : WarcRead S) (boxes : Boxes S) (hashing : Hashing) (len fuel : ℕ)
    (content : S → Bytes) (laws : IsRead reader.read content) (always : ReadsAlways reader.read)
    (writer : Write W) (emitted : W → Bytes) (out_laws : IsWrite writer emitted)
    (calm : (b : Bytes) → Always (writer.write_all b)) (chunk : ℕ) where
  heads-Always :
      (h : HeaderMap) (http : Option HeaderMap)
      → Always (write_heads reader boxes hashing len fuel writer (suc chunk) h http)
  unfolding write_heads
  heads-Always h http =
      Always-bind (H.write writer h) _ (write-Always writer calm h) (λ n. rest http n)
    where
      rest :
          (http : Option HeaderMap) (n : ℕ)
          → Always (write_http reader boxes hashing len fuel writer (suc chunk) http n)
      rest none n = Always-pure n
      rest (some h) n =
          Always-bind (H.write writer h) _ (write-Always writer calm h) (λ m. Always-pure (n + m))

  chunk-succeeds :
      (b : Bytes) (t : W × ℕ)
      → (t' : W × ℕ) × (write_chunk reader boxes hashing len fuel writer (suc chunk) b t
          ≡ (ok tt, t'))
  unfolding write_chunk
  chunk-succeeds b (w, n) =
      let (u, w', e) = calm b w in
      ((w', n + length b), ap (λ (x : Result (Unit {0}) × W). (x.0, (x.1, n + length b))) e)

  -- On a reader whose read always succeeds and a writer that does not fail, with more fuel than
  -- payload bytes, a record with a reader is written without checksums and with a chunk size above
  -- 0: its text has been appended, and the result is the length of it.
  pub write_succeeds :
      (rec : WarcRecord S) (t : ReaderType S) (w : W)
      → rec.reader ≡ some t
      → length (limited_content content (inner_reader t)) < fuel
      → let text = record_text rec (limited_content content (inner_reader t)) in
        (rec' : WarcRecord S) × (w' : W) × (write_with_block_size_checksum reader boxes hashing len
            fuel writer
            (suc chunk)
            false
            (rec, w)
          ≡ (ok (length text), (rec', w')))
        × (emitted w' ≡ emitted w ++ text)
  unfolding write_with_block_size_checksum add_checksums write_from
  write_succeeds rec t w e enough =
      let n = add_u64 rec.content_length (http_header_len (parsed_http rec)) in
      let h = ensure_content_length n rec.headers in
      let (m, u, run) = heads-Always h (parsed_http rec) w in
      let ((r, (v, k)), loop) =
        read_each-Succeeds (L.read reader) chunk
          (write_chunk reader boxes hashing len fuel writer (suc chunk)) (limited_content content)
          (limited-IsRead reader content laws) (limited-ReadsAlways reader always) chunk-succeeds
          fuel (inner_reader t) (u, m) enough in
      let (x, w', last) = calm two_lines v in
      let rec' = record rec { headers = h; reader = some (put_reader r t) } in
      let all : write_with_block_size_checksum reader boxes hashing len fuel writer (suc chunk)
            false (rec, w)
          ≡ (ok (k + 4), (rec', w')) =
        ap (λ o. write_from reader boxes hashing len fuel writer (suc chunk) n o (rec, w)) e
        ∙ ap
            (after_heads reader boxes hashing len fuel writer (suc chunk) t
              (record rec { headers = h }))
            run
        ∙ ap
            (after_content reader boxes hashing len fuel writer (suc chunk) t
              (record rec { headers = h }))
            loop
        ∙ ap (separated reader boxes hashing len fuel writer (suc chunk) k rec') last in
      let (out, count) =
        write-record_text reader boxes hashing len fuel content laws writer emitted out_laws chunk
          rec rec' t w w' (k + 4) e all in
      (rec', w', all ∙ ap (λ j. (ok j, (rec', w'))) count, out)
