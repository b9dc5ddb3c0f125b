-- ===== src/StreamIo.antt =====
-- fastwarc-rs/src/stream_io: the readers that FastWARC puts on top of a stream.
pub mod Limited
pub mod ReadLine
pub mod Skip
pub mod Chunked
pub mod Dechunk
pub mod Tracking
pub mod Seek
pub mod Memory
mod Tests
use chatnoir_resiliparse.Prelude.{ℕ, Bool, Option}
use chatnoir_resiliparse.Prelude.Int.{ℤ}
use chatnoir_resiliparse.Bytes.{Bytes}
use chatnoir_resiliparse.Io.{Io, BufRead}

-- `io::SeekFrom`.
pub data SeekFrom : Type 0 where
  start : ℕ → SeekFrom
  end : ℤ → SeekFrom
  current : ℤ → SeekFrom

-- The trait `WarcRead` with its supertraits `BufRead`, `Read` and `Seek`. `read` is given the length
-- of the caller's buffer.
pub record WarcRead (S : Type 0) : Type 0 where
  pub buffered : BufRead S
  pub open buffered use *
  pub read : ℕ → Io S Bytes
  pub seek : SeekFrom → Io S ℕ
  pub stream_position : Io S ℕ
  pub inner_seek : SeekFrom → Io S ℕ
  pub inner_stream_position : Io S ℕ
  pub frame_start_position : Io S (Option ℕ)
  pub is_stream_decoder : S → Bool
