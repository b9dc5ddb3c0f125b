-- ===== src/StreamIo/Chunked.antt =====
-- fastwarc-rs/src/stream_io/chunked.rs: `ChunkedWriter`, which writes the chunked transfer encoding.
pub mod Correct
pub mod Close
mod Tests
use chatnoir_resiliparse.Prelude.{
  ℕ, zero, suc, ◌+◌, ◌-◌, ◌/◌, ◌%◌, Bool, true, false, not, ◌&&◌, [], ◌∷◌, ◌++◌, if◌then◌else◌, ltb,
  leb, length,
}
use chatnoir_resiliparse.Bytes.{Bytes, codes, is_empty}
use chatnoir_resiliparse.Io.{Result, ok, err, Io, ◌>>◌, pure, Write}

-- A digit of `{:x}`.
unfoldable pub hex_digit : ℕ → ℕ
hex_digit d = if ltb d 10 then b'0' + d else b'a' + d - 10

-- `format!("{:x}", n)`, of at most `fuel` digits.
unfoldable pub hex_digits : ℕ → ℕ → Bytes
unfolding hex_digit
hex_digits zero n = []
hex_digits (suc fuel) n =
    let more = hex_digits fuel (n / 16) in
    if ltb n 16 then hex_digit n ∷ [] else more ++ (hex_digit (n % 16) ∷ [])

-- A length is below 2 ^ 64, which has 16 digits.
unfoldable pub to_hex : ℕ → Bytes
unfolding hex_digits
to_hex n = hex_digits 16 n

pub record ChunkedWriter (W : Type 0) : Type 0 where
  pub inner : W
  pub chunk_buffer : Bytes
  pub min_chunk_size : ℕ
  pub stream_started : Bool

abbrev pub with_chunk_size : {W : Type 0} → W → ℕ → ChunkedWriter W
with_chunk_size inner size = record {
  inner = inner;
  chunk_buffer = [];
  min_chunk_size = size;
  stream_started = false;
}

abbrev pub crlf : Bytes
crlf = b'\r' ∷ b'\n' ∷ []

module _ {W : Type 0} (out : Write W) where
  abbrev pub back {ℓ} : {A : Type ℓ} → ChunkedWriter W → Result A × W → Result A × ChunkedWriter W
  back c (a, w) = (a, record c { inner = w })

  -- `inner.write_all(bytes)`.
  unfoldable pub write_inner : Bytes → Io (ChunkedWriter W) (Unit {0})
  write_inner bytes c = back c (out.write_all bytes c.inner)

  unfoldable pub add_line_end : Io (ChunkedWriter W) (Unit {0})
  add_line_end c = (ok tt, record c { chunk_buffer = c.chunk_buffer ++ crlf })

  unfoldable pub write_buffer : Io (ChunkedWriter W) (Unit {0})
  unfolding write_inner
  write_buffer c = write_inner c.chunk_buffer c

  unfoldable pub clear_buffer : Bytes → Io (ChunkedWriter W) ℕ
  clear_buffer header c =
      (ok (length header + length c.chunk_buffer), record c { chunk_buffer = [] })

  unfoldable pub write_chunk_buffer : Io (ChunkedWriter W) ℕ
  unfolding write_inner add_line_end write_buffer clear_buffer
  write_chunk_buffer c =
      let header = to_hex (length c.chunk_buffer) ++ crlf in
      (write_inner header >> add_line_end >> write_buffer >> clear_buffer header) c

  unfoldable pub stop : Io (ChunkedWriter W) (Unit {0})
  stop c = (ok tt, record c { stream_started = false })

  unfoldable pub finish : Io (ChunkedWriter W) (Unit {0})
  unfolding write_chunk_buffer stop
  finish c =
      if is_empty c.chunk_buffer && not c.stream_started
      then (ok tt, c)
      else (write_chunk_buffer >> write_inner (codes "0\r\n\r\n") >> stop) c

  -- `Write::write`.
  unfoldable pub write : Bytes → Io (ChunkedWriter W) ℕ
  unfolding write_chunk_buffer
  write buf c =
      let c' = record c { stream_started = true; chunk_buffer = c.chunk_buffer ++ buf } in
      if leb c'.min_chunk_size (length c'.chunk_buffer)
      then (write_chunk_buffer >> pure (length buf)) c'
      else (ok (length buf), c')

  -- The flush of the writer inside is a parameter.
  module _ (inner_flush : Io W (Unit {0})) where
    unfoldable pub flush : Io (ChunkedWriter W) (Unit {0})
    flush c = back c (inner_flush c.inner)

    -- `Drop::drop`, which ignores all failures, and the writer it leaves.
    abbrev pub after_finish : Result (Unit {0}) × ChunkedWriter W → W
    after_finish (a, c) = (flush c).1.inner

    unfoldable pub drop_writer : ChunkedWriter W → W
    unfolding flush
    drop_writer c = after_finish (finish c)

    -- Where `into_inner` fails, the chunked writer is dropped.
    abbrev pub taken_out : Result (Unit {0}) × ChunkedWriter W → Result (Unit {0}) × W
    taken_out (ok u, c) = (ok tt, c.inner)
    taken_out (err e, c) = (err e, drop_writer c)

    unfoldable pub into_inner : ChunkedWriter W → Result (Unit {0}) × W
    unfolding flush finish drop_writer
    into_inner c = taken_out ((finish >> flush) c)
