-- ===== src/StreamIo/Skip.antt =====
-- fastwarc-rs/src/stream_io/mod.rs: `_forward_seek`, the seek of the decoding readers.
pub mod Correct
use chatnoir_resiliparse.Prelude.{
  ℕ, zero, suc, ◌+◌, ◌-◌, none, some, if◌then◌else◌, ltb, length, min,
}
use chatnoir_resiliparse.Prelude.Int.{ℤ, pos, negsuc, u64_mod}
use chatnoir_resiliparse.Bytes.{Bytes}
use chatnoir_resiliparse.Io.{
  Result, ok, err, unsupported, invalid_input, other, Io, BufRead, continue,
}
use chatnoir_resiliparse.StreamIo.{SeekFrom, WarcRead}

-- `-p + q` in `i128`.
unfoldable pub diff : ℕ → ℕ → ℤ
diff p q = if ltb q p then negsuc (p - q - 1) else pos (q - p)

module _ {S : Type 0} (reader : WarcRead S) where
  -- A pass of the loop drops `n` bytes, where 0 ends it; `next` is the rest of the loop.
  unfoldable pub drop_chunk : (ℕ → Io S ℕ) → ℕ → ℕ → Io S ℕ
  drop_chunk next remaining zero s = reader.stream_position s
  drop_chunk next remaining (suc n) s = next (remaining - suc n) (reader.consume (suc n) s)

  unfoldable pub on_skip_chunk : (ℕ → Io S ℕ) → ℕ → Result Bytes × S → Result ℕ × S
  unfolding drop_chunk
  on_skip_chunk next remaining (err e, s) = (err e, s)
  on_skip_chunk next remaining (ok chunk, s) =
      drop_chunk next remaining (min (length chunk) remaining) s

  unfoldable pub skip_loop : ℕ → ℕ → Io S ℕ
  unfolding on_skip_chunk
  skip_loop zero remaining s = (err other, s)
  skip_loop (suc fuel) zero s = reader.stream_position s
  skip_loop (suc fuel) (suc remaining) s =
      on_skip_chunk (skip_loop fuel) (suc remaining) (reader.fill_buf s)

  -- The seek by a difference.
  unfoldable pub skip_by : ℕ → ℤ → Io S ℕ
  unfolding skip_loop
  skip_by fuel (negsuc n) s = (err unsupported, s)
  skip_by fuel (pos n) s = if ltb n u64_mod then skip_loop fuel n s else (err invalid_input, s)

  unfoldable pub forward_seek : ℕ → SeekFrom → Io S ℕ
  unfolding skip_by diff
  forward_seek fuel (SeekFrom.start p) s =
      continue (λ here. skip_by fuel (diff here p)) (reader.stream_position s)
  forward_seek fuel (SeekFrom.current p) s = skip_by fuel p s
  forward_seek fuel (SeekFrom.end p) s = (err unsupported, s)
