-- ===== src/StreamIo/Dechunk.antt =====
-- fastwarc-rs/src/stream_io/chunked.rs: `ChunkedReader`, which reads the chunked transfer encoding.
pub mod Spec
pub mod Data
pub mod Boundary
pub mod Correct
pub mod ReadAll
pub mod Hex
pub mod Inverse
pub mod SeekBack
mod Examples
use chatnoir_resiliparse.Prelude.{
  ℕ, zero, suc, ◌+◌, ◌-◌, ◌*◌, Bool, true, false, not, ◌&&◌, ◌||◌, Option, none, some, [], ◌∷◌,
  ◌++◌, ◌==◌, if◌then◌else◌, ltb, leb, length, take, drop, min,
}
use chatnoir_resiliparse.Prelude.Int.{pos, u64_mod, add_u64}
use chatnoir_resiliparse.Bytes.{Bytes, is_empty, trim_ascii}
use chatnoir_resiliparse.Bytes.Utf8.{from_utf8_lossy}
use chatnoir_resiliparse.Io.{
  Result, ok, err, ErrorKind, other, invalid_data, unexpected_eof, Io, BufRead,
}
use chatnoir_resiliparse.StreamIo.{SeekFrom, WarcRead}
use chatnoir_resiliparse.StreamIo.Tracking.{BufReadSeek}
use chatnoir_resiliparse.StreamIo.ReadLine.{read_line_loop}
use chatnoir_resiliparse.StreamIo.Skip.{forward_seek}
use chatnoir_resiliparse.Record.Consume.{consume_loop}

-- The digits of `usize::from_str_radix(_, 16)`, which fails where the number does not fit.
unfoldable pub hex_value : ℕ → Option ℕ
hex_value c =
    if leb b'0' c && leb c b'9'
    then some (c - b'0')
    else if leb b'a' c && leb c b'f'
    then some (c - b'a' + 10)
    else if leb b'A' c && leb c b'F'
    then some (c - b'A' + 10)
    else none

unfoldable pub checked_hex : Bytes → ℕ → Option ℕ
unfolding hex_value
checked_hex [] n = some n
checked_hex (b ∷ bs) n = elim (hex_value b) [
  | none ↦ none
  | some d ↦
      let rest = checked_hex bs (n * 16 + d) in if ltb (n * 16 + d) u64_mod then rest else none
]

unfoldable pub from_hex : Bytes → Option ℕ
unfolding checked_hex
from_hex [] = none
from_hex (b ∷ []) = checked_hex (b ∷ []) 0
from_hex (b ∷ c ∷ bs) = if b == b'+' then checked_hex (c ∷ bs) 0 else checked_hex (b ∷ c ∷ bs) 0

-- The size in a chunk header.
unfoldable pub header_size : Bytes → Option ℕ
unfolding from_hex
header_size header = from_hex (trim_ascii (from_utf8_lossy header))

-- `S` is the state of the `TrackingBufReader` inside.
pub record ChunkedReader (S : Type 0) : Type 0 where
  pub inner : S
  pub out_buf : Bytes
  pub out_buf_pos : ℕ
  pub stream_pos : ℕ
  pub chunk_size : ℕ
  pub chunk_read : ℕ

-- `ChunkedReader::with_options`, on a reader that has been made to track its position.
abbrev pub with_options : {S : Type 0} → S → ChunkedReader S
with_options s = record {
  inner = s;
  out_buf = [];
  out_buf_pos = 0;
  stream_pos = 0;
  chunk_size = 0;
  chunk_read = 0;
}

abbrev pub pending : {S : Type 0} → ChunkedReader S → Bytes
pending r = drop r.out_buf_pos r.out_buf

module _ {S : Type 0} (reader : BufReadSeek S) (fuel : ℕ) where
  -- `read_exact` of two bytes, which are dropped. Any failure is an end of the stream.
  abbrev pub at_chunk_end : ChunkedReader S → Result ℕ × S → Result (Unit {0}) × ChunkedReader S
  at_chunk_end r (err e, s) = (err unexpected_eof, record r { inner = s })
  at_chunk_end r (ok n, s) =
      if n == 2
      then (ok tt, record r { inner = s; chunk_read = 0; chunk_size = 0 })
      else (err unexpected_eof, record r { inner = s })

  unfoldable pub consume_chunk_end : ChunkedReader S → Result (Unit {0}) × ChunkedReader S
  consume_chunk_end r = at_chunk_end r (consume_loop reader.buffered 2 fuel 0 r.inner)

  abbrev pub answer : Bytes → Result (Unit {0}) × ChunkedReader S → Result Bytes × ChunkedReader S
  answer buf (err e, r) = (err e, r)
  answer buf (ok u, r) = (ok buf, r)

  -- Within a chunk: what the inner reader shows of it is copied.
  abbrev pub copied : ChunkedReader S → ℕ → Bytes → S → ChunkedReader S
  copied r n buf s = record r {
    inner = reader.consume n s;
    out_buf = take n buf;
    out_buf_pos = 0;
    chunk_read = r.chunk_read + n;
  }

  unfoldable pub on_chunk_data : ChunkedReader S → Result Bytes × S → Result Bytes × ChunkedReader S
  unfolding consume_chunk_end
  on_chunk_data r (err e, s) = (err e, record r { inner = s })
  on_chunk_data r (ok buf, s) =
      let n = min (length buf) (r.chunk_size - r.chunk_read) in
      let r' = copied r n buf s in
      if n == 0
      then (err unexpected_eof, record r { inner = s })
      else if r'.chunk_read == r'.chunk_size
      then answer r'.out_buf (consume_chunk_end r')
      else (ok r'.out_buf, r')

  -- The second half of the loop; `loop` is its next pass.
  abbrev pub within_chunk :
      (ChunkedReader S → Result Bytes × ChunkedReader S)
      → ChunkedReader S
      → Result Bytes × ChunkedReader S
  within_chunk loop r =
      let again = loop r in
      if ltb r.chunk_read r.chunk_size then on_chunk_data r (reader.fill_buf r.inner) else again

  abbrev pub on_size :
      (ChunkedReader S → Result Bytes × ChunkedReader S)
      → ChunkedReader S
      → Option ℕ
      → Result Bytes × ChunkedReader S
  on_size loop r none = (err invalid_data, r)
  on_size loop r (some zero) = answer [] (consume_chunk_end (record r { chunk_size = 0 }))
  on_size loop r (some (suc n)) = within_chunk loop (record r { chunk_size = suc n })

  unfoldable pub on_header :
      (ChunkedReader S → Result Bytes × ChunkedReader S)
      → ChunkedReader S
      → Result ℕ × (Bytes × S)
      → Result Bytes × ChunkedReader S
  unfolding on_chunk_data header_size
  on_header loop r (err e, (header, s)) = (err e, record r { inner = s })
  on_header loop r (ok n, ([], s)) = (ok [], record r { inner = s })
  on_header loop r (ok n, (c ∷ cs, s)) =
      on_size loop (record r { inner = s }) (header_size (c ∷ cs))

  -- `read_until(b'\n')` is the reading of a line with no limit: `fuel` bytes are more than there are.
  unfoldable pub fill_loop : ℕ → ChunkedReader S → Result Bytes × ChunkedReader S
  unfolding on_header
  fill_loop zero r = (err other, r)
  fill_loop (suc n) r =
      if r.chunk_read == r.chunk_size
      then on_header (fill_loop n) r (read_line_loop reader.buffered 0 fuel fuel ([], r.inner))
      else within_chunk (fill_loop n) r

  unfoldable pub fill_buf : ℕ → Io (ChunkedReader S) Bytes
  unfolding fill_loop
  fill_buf n r = if is_empty (pending r) then fill_loop n r else (ok (pending r), r)

  unfoldable pub consume : ℕ → ChunkedReader S → ChunkedReader S
  consume amount r = record r {
    stream_pos = add_u64 r.stream_pos amount;
    out_buf_pos = r.out_buf_pos + amount;
  }

  abbrev pub copy_out : ℕ → Result Bytes × ChunkedReader S → Result Bytes × ChunkedReader S
  copy_out len (err e, r) = (err e, r)
  copy_out len (ok buf, r) = let n = min len (length buf) in (ok (take n buf), consume n r)

  unfoldable pub read : ℕ → ℕ → Io (ChunkedReader S) Bytes
  read n len r = copy_out len (fill_buf n r)

  abbrev pub sought : ChunkedReader S → Result ℕ × S → Result ℕ × ChunkedReader S
  sought r (err e, s) = (err e, record r { inner = s })
  sought r (ok p, s) =
      (ok p, record r { inner = s; stream_pos = 0; chunk_size = 0; out_buf_pos = 0 })

  -- It keeps `chunk_read` and `out_buf`.
  unfoldable pub inner_seek : SeekFrom → Io (ChunkedReader S) ℕ
  inner_seek p r = sought r (reader.seek p r.inner)

  abbrev told : ChunkedReader S → Result ℕ × S → Result ℕ × ChunkedReader S
  told r (a, s) = (a, record r { inner = s })

  abbrev seeks_nowhere : SeekFrom → Bool
  seeks_nowhere (SeekFrom.current (pos zero)) = true
  seeks_nowhere _ = false

  -- The reader, with `n` passes of its loop at most. `seek` is the forward seek over itself.
  abbrev pub unseekable : ℕ → WarcRead (ChunkedReader S)
  unseekable n = record {
    buffered = record { fill_buf = fill_buf n; consume = consume };
    read = read n;
    seek = λ p r. (err other, r);
    stream_position = λ r. (ok r.stream_pos, r);
    inner_seek = inner_seek;
    inner_stream_position = λ r. told r (reader.stream_position r.inner);
    frame_start_position = λ r. (ok none, r);
    is_stream_decoder = λ r. true;
  }

  unfoldable pub seek : ℕ → SeekFrom → Io (ChunkedReader S) ℕ
  seek n p r =
      if seeks_nowhere p then (ok r.stream_pos, r) else forward_seek (unseekable n) fuel p r

  abbrev pub chunked : ℕ → WarcRead (ChunkedReader S)
  chunked n = record (unseekable n) { seek = seek n }
