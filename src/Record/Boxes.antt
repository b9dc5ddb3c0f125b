-- ===== src/Record/Boxes.antt =====
-- What the record code does with a `Box<dyn WarcRead>`: it makes readers of its own on top of
-- another, asks for the type behind a box, and takes a reader out of its wrappers.
pub mod Memory
use chatnoir_resiliparse.Prelude.{ℕ, ◌≡◌, ◌≢◌, Option, none, some}
use chatnoir_resiliparse.Bytes.{Bytes}
use chatnoir_resiliparse.Io.{Result, ok, Io}
use chatnoir_resiliparse.StreamIo.{WarcRead}
use chatnoir_resiliparse.StreamIo.Limited.{LimitedBufReader}

-- The decoding readers. `deflate` is the gzip reader with the window bits of zlib.
pub data Decoder : Type 0 where
  gzip deflate brotli zstd lz4 chunked : Decoder

-- `S` stands for every state that a box can hold.
pub record Boxes (S : Type 0) : Type 0 where
  -- `RawReaderAdapter` over `io::Cursor<Vec<u8>>`, and `downcast_ref` to it.
  pub cursor : Bytes → S
  pub cursor_bytes : S → Option Bytes
  -- A `LimitedBufReader` in a box, and `downcast` to it.
  pub boxed : LimitedBufReader S → S
  pub unboxed : S → Option (LimitedBufReader S)
  -- A decoding reader on top of another, and `into_inner` of one that is a gzip, brotli, zstd or
  -- chunked reader.
  pub decode : Decoder → S → S
  pub undecode : S → Option S

-- What a type tells of the reader that it was made with.
pub record IsBoxes {S : Type 0} (boxes : Boxes S) : Type 0 where
  pub unboxed-boxed : (r : LimitedBufReader S) → boxes.unboxed (boxes.boxed r) ≡ some r
  pub undecode-boxed : (r : LimitedBufReader S) → boxes.undecode (boxes.boxed r) ≡ none
  pub undecode-decode :
      (d : Decoder) (s : S) → d ≢ Decoder.lz4 → boxes.undecode (boxes.decode d s) ≡ some s
  pub unboxed-decode : (d : Decoder) (s : S) → boxes.unboxed (boxes.decode d s) ≡ none

-- A cursor keeps its bytes when it is asked for its position, which starts at 0.
pub record IsCursor {S : Type 0} (reader : WarcRead S) (boxes : Boxes S) (content : S → Bytes)
    : Type 0 where
  pub cursor_tells :
      (b : Bytes)
      → (s : S) × (reader.stream_position (boxes.cursor b) ≡ (ok 0, s))
        × (boxes.cursor_bytes s ≡ some b)
        × (content s ≡ b)

-- A stream that is asked for its position does not move, nor change in any other way.
abbrev pub IsStill : {S : Type 0} → WarcRead S → Type 0
IsStill {S} reader = (s : S) → (reader.stream_position s).1 ≡ s
