-- ===== src/StreamIo/ReadLine/Limit.antt =====
-- Reading a line leaves the limit of the reader as it is.
use chatnoir_resiliparse.Prelude.{
  ℕ, zero, suc, ◌-◌, ◌≡◌, refl, ◌∙◌, [], ◌∷◌, ◌++◌, ltb, length, take, min, Bool-cases,
  Option-cases, inl, inr,
}
use chatnoir_resiliparse.Bytes.{Bytes, memchr}
use chatnoir_resiliparse.Io.{Result, ok, err, Io, BufRead}
use chatnoir_resiliparse.StreamIo.{WarcRead}
use chatnoir_resiliparse.StreamIo.Limited.{LimitedBufReader, limited, fill_buf, consume, limit_buf}
use chatnoir_resiliparse.StreamIo.ReadLine.{take_line, on_line_chunk, read_line_loop, read_line}

module _ {S : Type 0} (reader : BufRead S) (start max : ℕ) (f : S → ℕ)
    (fill_keeps : (s : S) → f (reader.fill_buf s).1 ≡ f s)
    (consume_keeps : (n : ℕ) (s : S) → f (reader.consume n s) ≡ f s) where
  module _ (next : Io (Bytes × S) ℕ)
      (ih : (buf : Bytes) (s : S) → f (next (buf, s)).1.1 ≡ f s) where
    take_line_keeps :
        (buf chunk : Bytes) (s : S) → f (take_line reader start max next buf chunk s).1.1 ≡ f s
    unfolding take_line
    take_line_keeps buf chunk s =
        let k = min (length chunk) (max - (length buf - start)) in
        elim (Option-cases (memchr b'\n' (take k chunk))) [
          | inl q ↦
              rw (take_line, q) (ih (buf ++ take k chunk) (reader.consume k s) ∙ consume_keeps k s)
          | inr (p, q) ↦ rw (take_line, q) (consume_keeps (suc p) s)
        ]

    on_line_chunk_keeps :
        (buf : Bytes) (r : Result Bytes × S)
        → f (on_line_chunk reader start max next buf r).1.1 ≡ f r.1
    unfolding on_line_chunk
    on_line_chunk_keeps buf (err e, s) = refl
    on_line_chunk_keeps buf (ok [], s) = refl
    on_line_chunk_keeps buf (ok (c ∷ cs), s) = take_line_keeps buf (c ∷ cs) s

  pub read_line_loop_keeps :
      (fuel : ℕ) (buf : Bytes) (s : S) → f (read_line_loop reader start max fuel (buf, s)).1.1 ≡ f s
  unfolding read_line_loop
  read_line_loop_keeps zero buf s = refl
  read_line_loop_keeps (suc fuel) buf s = elim (Bool-cases (ltb (length buf - start) max)) [
    | inl q ↦ rw q (
        on_line_chunk_keeps (read_line_loop reader start max fuel) (read_line_loop_keeps fuel) buf
          (reader.fill_buf s)
        ∙ fill_keeps s)
    | inr q ↦ rw q refl
  ]

pub read_line_keeps_limit :
    {S : Type 0} (reader : WarcRead S) (fuel max : ℕ) (buf : Bytes) (r : LimitedBufReader S)
    → (read_line reader fuel max (buf, r)).1.1.limit ≡ r.limit
unfolding read_line fill_buf consume
read_line_keeps_limit {S} reader fuel max buf r =
    read_line_loop_keeps (limited reader).buffered (length buf) (min max r.limit) (λ t. t.limit)
      (λ t. filled t (reader.fill_buf t.inner)) (λ n t. refl) fuel buf r
  where
    filled :
        (t : LimitedBufReader S) (x : Result Bytes × S) → (limit_buf reader t x).1.limit ≡ t.limit
    filled t (ok b, s) = refl
    filled t (err e, s) = refl
