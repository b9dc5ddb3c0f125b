-- ===== src/StreamIo/Chunked/Correct.antt =====
-- What has been written through a chunked writer is the chunked encoding of the data.
use chatnoir_resiliparse.Prelude.{
  ℕ, ◌≤◌, ◌≡◌, refl, subst, arith, sym, ap, ◌∙◌, Bool, true, false, not, ◌&&◌, List, [], ◌∷◌, ◌++◌,
  if◌then◌else◌, leb, length, append-nil, append_assoc,
}
use chatnoir_resiliparse.Bytes.{Bytes, codes, is_empty}
use chatnoir_resiliparse.Io.{Result, ok, err, Io, continue, ◌>>◌, pure, Write}
use chatnoir_resiliparse.Io.Laws.{IsWrite}
use chatnoir_resiliparse.Io.Cursor.{concat}
use chatnoir_resiliparse.StreamIo.Chunked.{
  to_hex, ChunkedWriter, crlf, write_inner, add_line_end, write_buffer, clear_buffer,
  write_chunk_buffer, stop, finish, write,
}

abbrev pub chunk : Bytes → Bytes
chunk bytes = (to_hex (length bytes) ++ crlf) ++ (bytes ++ crlf)

-- The first text is a sequence of chunks of `least` bytes or more, of which the second is the data.
pub data Chunks (least : ℕ) : Bytes → Bytes → Type 0 where
  none_yet : Chunks least [] []
  next :
      (enc done bytes : Bytes)
      → least ≤ length bytes
      → Chunks least enc done
      → Chunks least (enc ++ chunk bytes) (done ++ bytes)

pub is_begun : (v : Bytes) (started : Bool) → started ≡ true → is_empty v && not started ≡ false
is_begun [] true e = refl
is_begun (x ∷ xs) true e = refl
is_begun v false e = cc

pub continue-ok :
    {S A B : Type 0} (f : A → Io S B) (r : Result A × S) (b : B) (s' : S)
    → continue f r ≡ (ok b, s')
    → (a : A) × (s : S) × (r ≡ (ok a, s)) × (f a s ≡ (ok b, s'))
continue-ok f (err e, s) b s' h = cc
continue-ok f (ok a, s) b s' h = (a, s, refl, h)

module _ {W : Type 0} (out : Write W) (emitted : W → Bytes) (laws : IsWrite out emitted) where
  pub write_inner-ok :
      (bytes : Bytes) (c c' : ChunkedWriter W)
      → write_inner out bytes c ≡ (ok tt, c')
      → (emitted c'.inner ≡ emitted c.inner ++ bytes)
        × (c'.chunk_buffer ≡ c.chunk_buffer)
        × (c'.stream_started ≡ c.stream_started)
        × (c'.min_chunk_size ≡ c.min_chunk_size)
  unfolding write_inner
  write_inner-ok bytes c c' h = (laws.write_appends c.inner c'.inner bytes cc, cc, cc, cc)

  pub write_chunk_buffer-ok :
      (c c' : ChunkedWriter W) (n : ℕ)
      → write_chunk_buffer out c ≡ (ok n, c')
      → (emitted c'.inner ≡ emitted c.inner ++ chunk c.chunk_buffer)
        × (c'.chunk_buffer ≡ [])
        × (c'.stream_started ≡ c.stream_started)
        × (c'.min_chunk_size ≡ c.min_chunk_size)
  unfolding write_chunk_buffer add_line_end write_buffer clear_buffer
  write_chunk_buffer-ok c c' n h =
      let header = to_hex (length c.chunk_buffer) ++ crlf in
      let (u3, c3, e3, f3) =
        continue-ok (λ _. clear_buffer out header)
          ((write_inner out header >> add_line_end out >> write_buffer out) c) n c' h in
      let (u2, c2, e2, f2) =
        continue-ok (λ _. write_buffer out) ((write_inner out header >> add_line_end out) c) u3 c3
          e3 in
      let (u1, c1, e1, f1) =
        continue-ok (λ _. add_line_end out) (write_inner out header c) u2 c2 e2 in
      let (o1, b1, s1, m1) = write_inner-ok header c c1 e1 in
      let (o3, b3, s3, m3) = write_inner-ok c2.chunk_buffer c2 c3 f2 in
      let i2 : emitted c1.inner ≡ emitted c2.inner = ap (λ x. emitted x.1.inner) f1 in
      let b2 : c1.chunk_buffer ++ crlf ≡ c2.chunk_buffer = ap (λ x. x.1.chunk_buffer) f1 in
      let s2 : c1.stream_started ≡ c2.stream_started = ap (λ x. x.1.stream_started) f1 in
      let m2 : c1.min_chunk_size ≡ c2.min_chunk_size = ap (λ x. x.1.min_chunk_size) f1 in
      let m4 : c3.min_chunk_size ≡ c'.min_chunk_size = ap (λ x. x.1.min_chunk_size) f3 in
      let i4 : emitted c3.inner ≡ emitted c'.inner = ap (λ x. emitted x.1.inner) f3 in
      let b4 : [] ≡ c'.chunk_buffer = ap (λ x. x.1.chunk_buffer) f3 in
      let s4 : c3.stream_started ≡ c'.stream_started = ap (λ x. x.1.stream_started) f3 in
      (
        sym i4
            ∙ o3
            ∙ ap (λ x. x ++ c2.chunk_buffer) (sym i2 ∙ o1)
            ∙ ap (λ x. (emitted c.inner ++ header) ++ x) (sym b2 ∙ ap (λ x. x ++ crlf) b1)
            ∙ append_assoc (emitted c.inner) header (c.chunk_buffer ++ crlf),
        sym b4,
        sym s4 ∙ s3 ∙ sym s2 ∙ s1,
        sym m4 ∙ m3 ∙ sym m2 ∙ m1,
      )

  -- Behind `before`, chunks have been written that hold `bytes` but for what is in the buffer.
  abbrev pub Open : Bytes → Bytes → ChunkedWriter W → Type 0
  Open before bytes c =
      (enc : Bytes) × (done : Bytes) × (emitted c.inner ≡ before ++ enc)
      × Chunks c.min_chunk_size enc done
      × (done ++ c.chunk_buffer ≡ bytes)

  -- The buffer becomes a chunk.
  flush-Open :
      (before bytes : Bytes) (c c' : ChunkedWriter W) (n : ℕ)
      → write_chunk_buffer out c ≡ (ok n, c')
      → c.min_chunk_size ≤ length c.chunk_buffer
      → Open before bytes c
      → (enc : Bytes) × (emitted c'.inner ≡ before ++ enc) × Chunks c.min_chunk_size enc bytes
  flush-Open before bytes c c' n h full (enc, done, e, chunks, d) =
      let (o, b, s, m) = write_chunk_buffer-ok c c' n h in
      (
        enc ++ chunk c.chunk_buffer,
        o ∙ ap (λ x. x ++ chunk c.chunk_buffer) e ∙ append_assoc before enc (chunk c.chunk_buffer),
        rw (← d) (Chunks.next enc done c.chunk_buffer full chunks),
      )

  -- Behind `before` there are full chunks, one chunk with the rest of the data, and the last chunk.
  abbrev pub Closed : Bytes → Bytes → ℕ → ChunkedWriter W → Type 0
  Closed before bytes least c =
      (enc : Bytes) × (done : Bytes) × (tail : Bytes) × (emitted c.inner
        ≡ before ++ (enc ++ (chunk tail ++ codes "0\r\n\r\n")))
      × Chunks least enc done
      × (done ++ tail ≡ bytes)

  finish-Open :
      (before bytes : Bytes) (c c' : ChunkedWriter W)
      → (write_chunk_buffer out >> write_inner out (codes "0\r\n\r\n") >> stop out) c ≡ (ok tt, c')
      → Open before bytes c
      → Closed before bytes c.min_chunk_size c'
  unfolding stop
  finish-Open before bytes c c' h (enc, done, e, chunks, d) =
      let last = codes "0\r\n\r\n" in
      let (u2, c2, e2, f2) =
        continue-ok (λ _. stop out) ((write_chunk_buffer out >> write_inner out last) c) tt c' h in
      let (n, c1, e1, f1) =
        continue-ok (λ _. write_inner out last) (write_chunk_buffer out c) u2 c2 e2 in
      let (o1, b1, s1, m1) = write_chunk_buffer-ok c c1 n e1 in
      let (o, b, s, m) = write_inner-ok last c1 c2 f1 in
      let i : emitted c2.inner ≡ emitted c'.inner = ap (λ x. emitted x.1.inner) f2 in
      (
        enc,
        done,
        c.chunk_buffer,
        sym i
            ∙ o
            ∙ ap (λ x. x ++ last) (o1 ∙ ap (λ x. x ++ chunk c.chunk_buffer) e)
            ∙ append_assoc (before ++ enc) (chunk c.chunk_buffer) last
            ∙ append_assoc before enc (chunk c.chunk_buffer ++ last),
        chunks,
        d,
      )

  write-Open :
      (before bytes buf : Bytes) (c c' : ChunkedWriter W) (n : ℕ)
      → write out buf c ≡ (ok n, c')
      → Open before bytes c
      → Open before (bytes ++ buf) c'
        × (n ≡ length buf)
        × (c'.stream_started ≡ true)
        × (c'.min_chunk_size ≡ c.min_chunk_size)
  unfolding write
  write-Open before bytes buf c c' n h (enc, done, e, chunks, d) =
      go (leb c.min_chunk_size (length (c.chunk_buffer ++ buf))) refl h
    where
      grown : ChunkedWriter W
      grown = record c { stream_started = true; chunk_buffer = c.chunk_buffer ++ buf }

      joined : done ++ (c.chunk_buffer ++ buf) ≡ bytes ++ buf
      joined = sym (append_assoc done c.chunk_buffer buf) ∙ ap (λ x. x ++ buf) d

      go :
          (full : Bool)
          → leb c.min_chunk_size (length (c.chunk_buffer ++ buf)) ≡ full
          → ◌≡◌ {A = Result ℕ × ChunkedWriter W}
              (if full
                then (write_chunk_buffer out >> pure (length buf)) grown
                else (ok (length buf), grown))
              (ok n, c')
          → Open before (bytes ++ buf) c'
            × (n ≡ length buf)
            × (c'.stream_started ≡ true)
            × (c'.min_chunk_size ≡ c.min_chunk_size)
      go true big g =
          let (k, c1, e1, f1) =
            continue-ok (λ _. pure (length buf)) (write_chunk_buffer out grown) n c' g in
          let (enc', e', chunks') =
            flush-Open before (bytes ++ buf) grown c1 k e1 (ground arith)
              (enc, done, e, chunks, joined) in
          let (o, b, s, m) = write_chunk_buffer-ok grown c1 k e1 in
          let i : c1 ≡ c' = ap (λ x. x.1) f1 in
          let j : length buf ≡ n = cc in
          (
            (
              enc',
              bytes ++ buf,
              ap (λ x. emitted x.inner) (sym i) ∙ e',
              subst (λ k. Chunks k enc' (bytes ++ buf)) (sym m ∙ ap (λ x. x.min_chunk_size) i)
                  chunks',
              ap (λ x. (bytes ++ buf) ++ x.chunk_buffer) (sym i)
                  ∙ ap (λ x. (bytes ++ buf) ++ x) b
                  ∙ append-nil (bytes ++ buf),
            ),
            sym j,
            ap (λ x. x.stream_started) (sym i) ∙ s,
            ap (λ x. x.min_chunk_size) (sym i) ∙ m,
          )
      go false big g =
          let i : grown ≡ c' = ap (λ x. x.1) g in
          let j : length buf ≡ n = cc in
          rw (← i) ((enc, done, e, chunks, joined), sym j, refl, refl)

  -- A write for each piece.
  abbrev pub write_pieces : List Bytes → Io (ChunkedWriter W) (Unit {0})
  write_pieces [] = pure tt
  write_pieces (b ∷ bs) = write out b >> write_pieces bs

  pieces-Open :
      (before bytes : Bytes) (bs : List Bytes) (c c' : ChunkedWriter W)
      → write_pieces bs c ≡ (ok tt, c')
      → Open before bytes c
      → c.stream_started ≡ true
      → Open before (bytes ++ concat bs) c'
        × (c'.stream_started ≡ true)
        × (c'.min_chunk_size ≡ c.min_chunk_size)
  pieces-Open before bytes [] c c' h begun started =
      let i : c ≡ c' = ap (λ x. x.1) h in rw (← i, append-nil bytes) (begun, started, refl)
  pieces-Open before bytes (b ∷ bs) c c' h begun started =
      let (n, c1, e1, f1) = continue-ok (λ _. write_pieces bs) (write out b c) tt c' h in
      let (begun', size, started', m) = write-Open before bytes b c c1 n e1 begun in
      let (begun2, started2, m2) = pieces-Open before (bytes ++ b) bs c1 c' f1 begun' started' in
      (rw (← append_assoc bytes b (concat bs)) begun2, started2, m2 ∙ m)

  -- On a writer that appends what it is given, if a chunked writer with an empty buffer takes one
  -- piece or more and is then finished, all with success, it has appended chunks that hold the pieces
  -- joined together, all but the last of them with the least size or more, and the end of the encoding.
  pub finish_encodes :
      (b : Bytes) (bs : List Bytes) (c c' : ChunkedWriter W)
      → c.chunk_buffer ≡ []
      → (write_pieces (b ∷ bs) >> finish out) c ≡ (ok tt, c')
      → Closed (emitted c.inner) (concat (b ∷ bs)) c.min_chunk_size c'
  unfolding finish
  finish_encodes b bs c c' empty h =
      let (u1, c1, e1, f1) = continue-ok (λ _. finish out) (write_pieces (b ∷ bs) c) tt c' h in
      let (n, c0, e0, f0) = continue-ok (λ _. write_pieces bs) (write out b c) u1 c1 e1 in
      let fresh : Open (emitted c.inner) [] c =
        ([], [], sym (append-nil (emitted c.inner)), Chunks.none_yet, empty) in
      let (begun, size, started, m) = write-Open (emitted c.inner) [] b c c0 n e0 fresh in
      let (begun', started', m') = pieces-Open (emitted c.inner) b bs c0 c1 f0 begun started in
      let skip : finish out c1
          ≡ (write_chunk_buffer out >> write_inner out (codes "0\r\n\r\n") >> stop out) c1 =
        rw (is_begun c1.chunk_buffer c1.stream_started started') refl in
      subst (λ k. Closed (emitted c.inner) (b ++ concat bs) k c') (m' ∙ m)
        (finish-Open (emitted c.inner) (b ++ concat bs) c1 c' (sym skip ∙ f1) begun')
