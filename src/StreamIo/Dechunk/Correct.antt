-- ===== src/StreamIo/Dechunk/Correct.antt =====
-- `ChunkedReader` delivers what its stream is the encoding of.
use chatnoir_resiliparse.Prelude.{
  ℕ, suc, ◌-◌, ◌≤◌, ◌≡◌, refl, sym, ap, ◌∙◌, subst, Bool, true, false, [], ◌∷◌, ◌++◌, ◌==◌,
  if◌then◌else◌, arith, ltb, length, drop, drop-append_left, drop-drop,
}
use chatnoir_resiliparse.Bytes.{Bytes, is_empty}
use chatnoir_resiliparse.Io.{ok}
use chatnoir_resiliparse.Io.Laws.{IsBufRead, NeverFails}
use chatnoir_resiliparse.StreamIo.Tracking.{BufReadSeek}
use chatnoir_resiliparse.StreamIo.ReadLine.{read_line_loop}
use chatnoir_resiliparse.StreamIo.Dechunk.{
  ChunkedReader, pending, on_chunk_data, within_chunk, on_header, fill_loop, fill_buf, consume,
}
use chatnoir_resiliparse.StreamIo.Dechunk.Spec.{Decodes, Missing, Within, Holds, Shows}
use chatnoir_resiliparse.StreamIo.Dechunk.Data.{chunk_data}
use chatnoir_resiliparse.StreamIo.Dechunk.Boundary.{at_boundary}

module _ {S : Type 0} (reader : BufReadSeek S) (content : S → Bytes)
    (laws : IsBufRead reader.buffered content) (calm : NeverFails reader.buffered) (fuel : ℕ) where
  -- Where the stream holds the encoding of `d`, a buffer is shown, and what is left is still the encoding
  -- of the rest.
  pub fill_buf_decodes :
      (r : ChunkedReader S) (d : Bytes) (passes : ℕ)
      → Holds content fuel r d
      → Shows content fuel d (fill_buf reader fuel (suc passes) r)
  unfolding fill_buf fill_loop
  fill_buf_decodes r d passes h = shows (pending r) refl
    where
      empty : pending r ≡ [] → h.rest ≡ d
      empty q = ap (λ b. b ++ h.rest) (sym q) ∙ h.joined

      loops :
          (b : Bool)
          → (r.chunk_read == r.chunk_size) ≡ b
          → pending r ≡ []
          → Shows content fuel d (
              if b
              then on_header reader fuel
                  (fill_loop reader fuel passes)
                  r
                  (read_line_loop reader.buffered 0 fuel fuel ([], r.inner))
              else within_chunk reader fuel (fill_loop reader fuel passes) r)
      loops true e q =
          let same : r.chunk_read ≡ r.chunk_size = ground arith in
          let begun = h.boundary same in
          let whole : r.chunk_size - r.chunk_read ≡ 0 = omega arith in
          at_boundary reader content laws calm fuel r (fill_loop reader fuel passes)
            (content r.inner) d q begun (sym same ∙ begun) refl
            (subst (Decodes (content r.inner)) (empty q)
              (subst (λ j. Within j (content r.inner) h.rest) whole h.within))
            h.enough
      loops false e q =
          let behind = h.behind in
          let differ : r.chunk_read ≡ r.chunk_size → ⊥ = λ k. ground arith in
          let missing : r.chunk_size - r.chunk_read ≡ suc (r.chunk_size - r.chunk_read - 1) =
            omega arith in
          let inside : ltb r.chunk_read r.chunk_size ≡ true = ground arith in
          subst
            (λ b. Shows content fuel d (
              if b
              then on_chunk_data reader fuel r (reader.fill_buf r.inner)
              else fill_loop reader fuel passes r))
            (sym inside)
            (chunk_data reader content laws calm fuel r (r.chunk_size - r.chunk_read - 1) d missing
              (subst (Missing (suc (r.chunk_size - r.chunk_read - 1)) (content r.inner)) (empty q)
                (subst (λ j. Within j (content r.inner) h.rest) missing h.within))
              h.enough)

      shows :
          (b : Bytes)
          → pending r ≡ b
          → Shows content fuel d
              (if is_empty b then fill_loop reader fuel (suc passes) r else (ok b, r))
      shows [] e = loops (r.chunk_read == r.chunk_size) refl e
      shows (c ∷ cs) e = record {
        buf = c ∷ cs;
        after = r;
        succeeds = refl;
        shown = e;
        holds = h;
        at_end = λ q. cc;
      }

  -- What is consumed is no longer to be delivered.
  pub consume_delivers :
      (r : ChunkedReader S) (d : Bytes) (n : ℕ)
      → Holds content fuel r d
      → n ≤ length (pending r)
      → Holds content fuel (consume reader fuel n r) (drop n d)
  unfolding consume
  consume_delivers r d n h fits = record {
    rest = h.rest;
    joined =
        ap (λ v. v ++ h.rest) (sym (drop-drop n r.out_buf_pos r.out_buf))
        ∙ sym (drop-append_left n (pending r) h.rest fits)
        ∙ ap (drop n) h.joined;
    behind = h.behind;
    boundary = h.boundary;
    within = h.within;
    enough = h.enough;
  }
