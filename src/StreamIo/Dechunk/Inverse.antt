-- ===== src/StreamIo/Dechunk/Inverse.antt =====
-- `ChunkedReader` reads back what `ChunkedWriter` has written.
use chatnoir_resiliparse.Prelude.{
  ℕ, suc, ◌≤◌, ◌<◌, ◌≡◌, refl, sym, ap, ◌∙◌, subst, List, [], ◌∷◌, ◌++◌, arith, length, drop,
  length-append, append_assoc, append-nil, drop-length,
}
use chatnoir_resiliparse.Prelude.Int.{u64_mod}
use chatnoir_resiliparse.Bytes.{Bytes, codes}
use chatnoir_resiliparse.Io.{ok, ◌>>◌, Write}
use chatnoir_resiliparse.Io.Laws.{IsBufRead, NeverFails, IsWrite}
use chatnoir_resiliparse.Io.Cursor.{concat}
use chatnoir_resiliparse.Io.ReadLoop.{read_to_end}
use chatnoir_resiliparse.StreamIo.Tracking.{BufReadSeek}
use chatnoir_resiliparse.StreamIo.Chunked.{to_hex, crlf, ChunkedWriter, finish}
use chatnoir_resiliparse.StreamIo.Chunked.Correct.{
  chunk, Chunks, Closed, write_pieces, finish_encodes,
}
use chatnoir_resiliparse.StreamIo.Dechunk.{ChunkedReader, with_options, read}
use chatnoir_resiliparse.StreamIo.Dechunk.Spec.{Decodes, Holds}
use chatnoir_resiliparse.StreamIo.Dechunk.Hex.{to_hex-IsHeader}
use chatnoir_resiliparse.StreamIo.Dechunk.ReadAll.{chunked_reads_all}

abbrev last : Bytes
last = codes "0\r\n\r\n"

last-Decodes : Decodes last []
unfolding to_hex
last-Decodes =
    Decodes.ends (to_hex 0 ++ crlf) crlf [] (to_hex-IsHeader 0 (omega arith)) refl Decodes.over

-- A chunk in front of an encoding, which may be empty where nothing but empty chunks follows.
chunk-Decodes :
    (bytes enc body : Bytes)
    → length bytes < u64_mod
    → (bytes ≡ [] → body ≡ [])
    → Decodes enc body
    → Decodes (chunk bytes ++ enc) (bytes ++ body)
chunk-Decodes [] enc body fits none code = subst (Decodes (chunk [] ++ enc)) (sym (none refl)) (
    subst (λ v. Decodes v []) (sym (append_assoc (to_hex 0 ++ crlf) crlf enc))
      (Decodes.ends (to_hex 0 ++ crlf) crlf enc (to_hex-IsHeader 0 fits) refl
        (subst (Decodes enc) (none refl) code)))
chunk-Decodes (c ∷ cs) enc body fits none code =
    let header = to_hex (length (c ∷ cs)) ++ crlf in
    let place =
      append_assoc header ((c ∷ cs) ++ crlf) enc
      ∙ ap (λ v. header ++ v) (append_assoc (c ∷ cs) crlf enc) in
    subst (λ v. Decodes v ((c ∷ cs) ++ body)) (sym place)
      (Decodes.chunk header (c ∷ cs) crlf enc body (length cs)
        (to_hex-IsHeader (length (c ∷ cs)) fits) refl refl code)

Chunks-Decodes :
    (least : ℕ) (enc done rest body : Bytes)
    → 1 ≤ least
    → length done < u64_mod
    → Chunks least enc done
    → Decodes rest body
    → Decodes (enc ++ rest) (done ++ body)
Chunks-Decodes least enc done rest body some_bytes fits Chunks.none_yet code = code
Chunks-Decodes least enc done rest body some_bytes fits (Chunks.next enc' done' bytes full chunks)
      code =
    let size = length-append done' bytes in
    let place = append_assoc enc' (chunk bytes) rest in
    let joined = append_assoc done' bytes body in
    subst (λ v. Decodes v ((done' ++ bytes) ++ body)) (sym place)
      (subst (Decodes (enc' ++ (chunk bytes ++ rest))) (sym joined) (
        Chunks-Decodes least enc' done' (chunk bytes ++ rest) (bytes ++ body) some_bytes
          (omega arith) chunks
          (chunk-Decodes bytes rest body (omega arith)
            (λ e. let k = ap length e in absurd (omega arith)) code)))

module _ {W : Type 0} (out : Write W) (emitted : W → Bytes) (appends : IsWrite out emitted)
    {S : Type 0} (reader : BufReadSeek S) (content : S → Bytes)
    (laws : IsBufRead reader.buffered content) (calm : NeverFails reader.buffered) (fuel : ℕ) where
  closed-Decodes :
      (before bytes : Bytes) (least : ℕ) (c : ChunkedWriter W) (v : Bytes)
      → 1 ≤ least
      → length bytes < u64_mod
      → Closed out emitted appends before bytes least c
      → emitted c.inner ≡ before ++ v
      → Decodes v bytes
  closed-Decodes before bytes least c v some_bytes fits (enc, done, tail, e, chunks, d) f =
      let size = ap length d in
      let parts = length-append done tail in
      let whole = enc ++ (chunk tail ++ last) in
      let same : whole ≡ v =
        sym (drop-length before whole)
        ∙ ap (drop (length before)) (sym e ∙ f)
        ∙ drop-length before v in
      subst (λ v. Decodes v bytes) same
        (subst (Decodes whole) (ap (λ t. done ++ t) (append-nil tail) ∙ d) (
          Chunks-Decodes least enc done (chunk tail ++ last) (tail ++ []) some_bytes (omega arith)
            chunks (chunk-Decodes tail last [] (omega arith) (λ q. refl) last-Decodes)))

  -- A chunked writer with an empty buffer, whose least size of a chunk is not 0, takes one piece or more
  -- and is then finished, all with success, on a writer that appends what it is given. A chunked reader on
  -- a stream with what was appended, which does not fail, is then read to its end without an error and
  -- gives the pieces joined together. They have fewer than 2 ^ 64 bytes, the fuel is more than the bytes
  -- of the stream, and the passes of the reading loop are more than the bytes of the pieces.
  pub written_reads_back :
      (b : Bytes) (bs : List Bytes) (c c' : ChunkedWriter W) (s : S) (passes len n : ℕ)
      → c.chunk_buffer ≡ []
      → 1 ≤ c.min_chunk_size
      → (write_pieces out emitted appends (b ∷ bs) >> finish out) c ≡ (ok tt, c')
      → emitted c'.inner ≡ emitted c.inner ++ content s
      → length (concat (b ∷ bs)) < u64_mod
      → length (content s) < fuel
      → length (concat (b ∷ bs)) < n
      → (r : ChunkedReader S) × (read_to_end
            (read reader fuel (suc passes))
            (suc len)
            n
            (with_options s, [])
          ≡ (ok tt, (r, concat (b ∷ bs))))
        × Holds content fuel r []
  written_reads_back b bs c c' s passes len n empty some_bytes run stored fits enough more =
      let closed = finish_encodes out emitted appends b bs c c' empty run in
      chunked_reads_all reader content laws calm fuel s (concat (b ∷ bs)) passes len n
        (closed-Decodes (emitted c.inner) (concat (b ∷ bs)) c.min_chunk_size c' (content s)
          some_bytes fits closed stored)
        enough more
