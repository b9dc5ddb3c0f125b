-- ===== src/StreamIo/Tracking.antt =====
-- fastwarc-rs/src/stream_io/bufread.rs: `TrackingBufReader` and `RawReaderAdapter`, which cache the
-- position of a stream. Both are one macro over a buffered reader that can seek.
pub mod Correct
pub mod Runs
use chatnoir_resiliparse.Prelude.{
  ℕ, zero, suc, false, none, if◌then◌else◌, leb, ◌==◌, length, take, min,
}
use chatnoir_resiliparse.Prelude.Int.{pos, negsuc, add_u64}
use chatnoir_resiliparse.Bytes.{Bytes}
use chatnoir_resiliparse.Io.{Result, ok, err, Io, BufRead}
use chatnoir_resiliparse.StreamIo.{SeekFrom, WarcRead}

-- The trait `BufReadSeek`.
pub record BufReadSeek (S : Type 0) : Type 0 where
  pub buffered : BufRead S
  pub open buffered use *
  pub seek : SeekFrom → Io S ℕ
  pub stream_position : Io S ℕ

pub record RawReaderAdapter (S : Type 0) : Type 0 where
  pub inner : S
  pub pos : ℕ

abbrev pub with_inner {ℓ} :
    {A : Type ℓ} {S : Type 0} → RawReaderAdapter S → Result A × S → Result A × RawReaderAdapter S
with_inner r (a, s) = (a, record r { inner = s })

module _ {S : Type 0} (reader : BufReadSeek S) where
  abbrev adapt : Result ℕ × S → RawReaderAdapter S
  adapt (ok p, s) = record { inner = s; pos = p }
  adapt (err e, s) = record { inner = s; pos = 0 }

  unfoldable pub new : S → RawReaderAdapter S
  new s = adapt (reader.stream_position s)

  unfoldable pub fill_buf : Io (RawReaderAdapter S) Bytes
  fill_buf r = with_inner r (reader.fill_buf r.inner)

  unfoldable pub consume : ℕ → RawReaderAdapter S → RawReaderAdapter S
  consume amount r = record { inner = reader.consume amount r.inner; pos = add_u64 r.pos amount }

  abbrev copy : ℕ → Result Bytes × RawReaderAdapter S → Result Bytes × RawReaderAdapter S
  copy len (ok b, r) = let n = min len (length b) in (ok (take n b), consume n r)
  copy len (err e, r) = (err e, r)

  -- `Read::read` into a buffer of `len` bytes.
  unfoldable pub read : ℕ → Io (RawReaderAdapter S) Bytes
  unfolding fill_buf
  read len r = copy len (fill_buf r)

  abbrev moved : RawReaderAdapter S → Result ℕ × S → Result ℕ × RawReaderAdapter S
  moved r (ok p, s) = (ok p, record { inner = s; pos = p })
  moved r (err e, s) = (err e, record r { inner = s })

  unfoldable pub inner_seek : SeekFrom → Io (RawReaderAdapter S) ℕ
  inner_seek p r = moved r (reader.seek p r.inner)

  -- A seek by `n` > 0, on what `fill_buf` has returned: within the buffer it only consumes.
  unfoldable pub seek_ahead : ℕ → Result Bytes × RawReaderAdapter S → Result ℕ × RawReaderAdapter S
  unfolding inner_seek consume
  seek_ahead n (ok b, r) =
      if leb n (length b)
      then (let r' = consume n r in (ok r'.pos, r'))
      else inner_seek (SeekFrom.current (pos n)) r
  seek_ahead n (err e, r) = (err e, r)

  unfoldable pub seek : SeekFrom → Io (RawReaderAdapter S) ℕ
  unfolding seek_ahead inner_seek fill_buf
  seek (SeekFrom.current (pos zero)) r = (ok r.pos, r)
  seek (SeekFrom.current (pos (suc n))) r = seek_ahead (suc n) (fill_buf r)
  seek (SeekFrom.current (negsuc n)) r = inner_seek (SeekFrom.current (negsuc n)) r
  seek (SeekFrom.start p) r = if p == r.pos then (ok r.pos, r) else inner_seek (SeekFrom.start p) r
  seek (SeekFrom.end p) r = inner_seek (SeekFrom.end p) r

  -- The adapter as a `WarcRead`, where the inner position is the position.
  abbrev pub adapter : WarcRead (RawReaderAdapter S)
  adapter = record {
    buffered = record { fill_buf = fill_buf; consume = consume };
    read = read;
    seek = seek;
    stream_position = seek (SeekFrom.current (pos 0));
    inner_seek = seek;
    inner_stream_position = seek (SeekFrom.current (pos 0));
    frame_start_position = λ r. (ok none, r);
    is_stream_decoder = λ r. false;
  }
