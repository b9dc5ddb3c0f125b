-- ===== src/StreamIo/Limited.antt =====
-- fastwarc-rs/src/stream_io/bufread.rs: `LimitedBufReader`, a reader that ends after a number of
-- bytes.
pub mod Laws
pub mod Read
use chatnoir_resiliparse.Prelude.{
  ℕ, ◌-◌, ◌<◌, Bool, true, false, ◌||◌, Option, none, some, List, [], ◌∷◌, if◌then◌else◌, ltb, ◌==◌,
  length, take, min,
}
use chatnoir_resiliparse.Prelude.Int.{
  ℤ, pos, negsuc, u64_mod, i64_max, sub_u64, add_u64, as_i64, add_int,
}
use chatnoir_resiliparse.Bytes.{Bytes}
use chatnoir_resiliparse.Io.{Result, ok, err, invalid_input, Io, BufRead}
use chatnoir_resiliparse.StreamIo.{SeekFrom, WarcRead}

pub record LimitedBufReader (S : Type 0) : Type 0 where
  pub inner : S
  pub limit : ℕ
  pub pos : ℕ

-- The result of the inner reader, with the inner state put back.
abbrev pub lift {ℓ} :
    {A : Type ℓ} {S : Type 0} → LimitedBufReader S → Result A × S → Result A × LimitedBufReader S
lift r (a, s) = (a, record r { inner = s })

-- `self.limit - self.pos`.
abbrev pub remaining : {S : Type 0} → LimitedBufReader S → ℕ
remaining r = sub_u64 r.limit r.pos

abbrev pub unwrap_or_zero : Result ℕ → ℕ
unwrap_or_zero (ok n) = n
unwrap_or_zero (err e) = 0

module _ {S : Type 0} (reader : WarcRead S) where
  unfoldable pub new : S → Option ℕ → LimitedBufReader S
  new s limit =
      let (p, s') = reader.stream_position s in
      record {
        inner = s';
        limit = elim limit [ none ↦ u64_mod - 1 | some l ↦ l ];
        pos = unwrap_or_zero p;
      }

  unfoldable pub reset_limit : LimitedBufReader S → LimitedBufReader S
  reset_limit r =
      let (p, s') = reader.stream_position r.inner in
      record { inner = s'; limit = u64_mod - 1; pos = unwrap_or_zero p }

  unfoldable pub real_stream_position : Io (LimitedBufReader S) ℕ
  real_stream_position r = lift r (reader.stream_position r.inner)

  abbrev pub limit_buf : LimitedBufReader S → Result Bytes × S → Result Bytes × LimitedBufReader S
  limit_buf r (ok buf, s) = (ok (take (min (length buf) (remaining r)) buf), record r { inner = s })
  limit_buf r (err e, s) = (err e, record r { inner = s })

  unfoldable pub fill_buf : Io (LimitedBufReader S) Bytes
  fill_buf r = limit_buf r (reader.fill_buf r.inner)

  unfoldable pub consume : ℕ → LimitedBufReader S → LimitedBufReader S
  consume amount r =
      let n = min amount (remaining r) in
      record r { inner = reader.consume n r.inner; pos = add_u64 r.pos n }

  abbrev pub count_read : LimitedBufReader S → Result Bytes × S → Result Bytes × LimitedBufReader S
  count_read r (ok b, s) = (ok b, record r { inner = s; pos = add_u64 r.pos (length b) })
  count_read r (err e, s) = (err e, record r { inner = s })

  -- `Read::read` into a buffer of `len` bytes.
  unfoldable pub read : ℕ → Io (LimitedBufReader S) Bytes
  read len r = count_read r (reader.read (min len (remaining r)) r.inner)

  -- The position that a seek asks for, in `i128`.
  unfoldable pub new_position : LimitedBufReader S → SeekFrom → ℤ
  new_position r (SeekFrom.start p) = pos p
  new_position r (SeekFrom.end p) = add_int r.limit p
  new_position r (SeekFrom.current p) = add_int r.pos p

  abbrev move : LimitedBufReader S → ℕ → Result ℕ × S → Result ℕ × LimitedBufReader S
  move r p (ok n, s) = (ok p, record r { inner = s; pos = p })
  move r p (err e, s) = (err e, record r { inner = s })

  unfoldable pub seek_to : LimitedBufReader S → ℤ → Result ℕ × LimitedBufReader S
  seek_to r (negsuc n) = (err invalid_input, r)
  seek_to r (pos p) =
      if ltb i64_max p
      then (err invalid_input, r)
      else (let p' = if ltb r.limit p then r.limit else p in
          move r p' (reader.seek (SeekFrom.current (as_i64 (sub_u64 p' r.pos))) r.inner))

  abbrev is_current_zero : SeekFrom → Bool
  is_current_zero (SeekFrom.current (pos n)) = n == 0
  is_current_zero (SeekFrom.current (negsuc n)) = false
  is_current_zero (SeekFrom.start n) = false
  is_current_zero (SeekFrom.end n) = false

  unfoldable pub seek : SeekFrom → Io (LimitedBufReader S) ℕ
  unfolding new_position seek_to
  seek p r = if is_current_zero p then (ok r.pos, r) else seek_to r (new_position r p)

  -- `LimitedBufReader` as a reader of its own.
  abbrev pub limited : WarcRead (LimitedBufReader S)
  limited = record {
    buffered = record { fill_buf = fill_buf; consume = consume };
    read = read;
    seek = seek;
    stream_position = λ r. (ok r.pos, r);
    inner_seek = λ p r. lift r (reader.inner_seek p r.inner);
    inner_stream_position = λ r. lift r (reader.inner_stream_position r.inner);
    frame_start_position = λ r. lift r (reader.frame_start_position r.inner);
    is_stream_decoder = λ r. reader.is_stream_decoder r.inner;
  }

unfoldable pub set_limit : {S : Type 0} → ℕ → LimitedBufReader S → LimitedBufReader S
set_limit limit r = record r { limit = limit; pos = 0 }
