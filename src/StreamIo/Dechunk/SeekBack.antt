-- ===== src/StreamIo/Dechunk/SeekBack.antt =====
-- `ChunkedReader::inner_seek` from within a chunk.
use chatnoir_resiliparse.Prelude.{
  ℕ, zero, suc, ◌+◌, ◌<◌, ◌≡◌, refl, ap, ◌==◌, false, arith, ltb, length, drop_all,
}
use chatnoir_resiliparse.Io.{Result, ok, err, other}
use chatnoir_resiliparse.StreamIo.{SeekFrom}
use chatnoir_resiliparse.StreamIo.Tracking.{BufReadSeek}
use chatnoir_resiliparse.StreamIo.Dechunk.{
  ChunkedReader, pending, sought, fill_loop, fill_buf, consume, inner_seek,
}

module _ {S : Type 0} (reader : BufReadSeek S) (fuel : ℕ) where
  -- Where more than the chunk has been read, no number of passes of the loop is enough.
  fill_loop_stuck :
      (n : ℕ) (r : ChunkedReader S)
      → r.chunk_size < r.chunk_read
      → fill_loop reader fuel n r ≡ (err other, r)
  unfolding fill_loop
  fill_loop_stuck zero r h = refl
  fill_loop_stuck (suc n) r h =
      let differ : (r.chunk_read == r.chunk_size) ≡ false = ground arith in
      let behind : ltb r.chunk_read r.chunk_size ≡ false = ground arith in
      rw (differ, behind) (fill_loop_stuck n r h)

  -- After a seek that succeeds from within a chunk, the old buffer is shown again, and when it has been
  -- consumed the loop of `fill_buf` does not end.
  pub inner_seek_stuck :
      (p : SeekFrom) (r r' : ChunkedReader S) (q n : ℕ)
      → 0 < r.chunk_read
      → inner_seek reader fuel p r ≡ (ok q, r')
      → (pending r' ≡ r.out_buf)
        × (fill_buf reader fuel n (consume reader fuel (length r.out_buf) r')
            ≡ (err other, consume reader fuel (length r.out_buf) r'))
  unfolding inner_seek fill_buf consume
  inner_seek_stuck p r r' q n h e = go (reader.seek p r.inner) e
    where
      go :
          (x : Result ℕ × S)
          → sought reader fuel r x ≡ (ok q, r')
          → (pending r' ≡ r.out_buf)
            × (fill_buf reader fuel n (consume reader fuel (length r.out_buf) r')
                ≡ (err other, consume reader fuel (length r.out_buf) r'))
      go (err k, s) e = cc
      go (ok k, s) e =
          let i = ap (λ x. x.1) e in
          rw (← i) (
            refl,
            rw (drop_all (0 + length r.out_buf) r.out_buf (omega arith)) (
                fill_loop_stuck n
                  (consume reader fuel (length r.out_buf)
                    (record r { inner = s; stream_pos = 0; chunk_size = 0; out_buf_pos = 0 }))
                  h),
          )
