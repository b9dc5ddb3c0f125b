-- ===== src/Record.antt =====
-- fastwarc-rs/src/warc/record.rs: a WARC record and its reader.
pub mod Kind
pub mod Names
pub mod Number
pub mod Parse
pub mod Consume
pub mod Boxes
pub mod Decimal
pub mod Payload
pub mod Http
pub mod Digest
pub mod Write
pub mod Fields
mod Tests
mod Examples
use chatnoir_resiliparse.Prelude.{ℕ, Bool, Option, none, some}
use chatnoir_resiliparse.Bytes.{Bytes}
use chatnoir_resiliparse.Io.{Result, ok, err, other, Io}
use chatnoir_resiliparse.Header.{HeaderMap}
use chatnoir_resiliparse.StreamIo.Limited.{LimitedBufReader}

pub data WarcRecordType : Type 0 where
  warc_info response resource request metadata revisit conversion continuation : WarcRecordType
  unknown any_type no_type : WarcRecordType

pub data ReaderType (S : Type 0) : Type 0 where
  original : LimitedBufReader S → ReaderType S
  frozen : LimitedBufReader S → Option (LimitedBufReader S) → ReaderType S
  wrapped : LimitedBufReader S → ReaderType S

-- `S` is the state of the stream, whatever its type behind `Box<dyn WarcRead>`.
pub record WarcRecord (S : Type 0) : Type 0 where
  pub record_type : WarcRecordType
  pub headers : HeaderMap
  pub quirks_mode : Bool
  pub content_length : ℕ
  pub is_http : Bool
  pub http_parsed : Bool
  pub http_charset : Option Bytes
  pub http_headers : Option HeaderMap
  pub reader : Option (ReaderType S)
  pub stream_pos : ℕ

-- The reader that `get_reader_mut!` borrows, and where a change of it goes.
abbrev pub inner_reader : {S : Type 0} → ReaderType S → LimitedBufReader S
inner_reader (ReaderType.original r) = r
inner_reader (ReaderType.frozen r o) = r
inner_reader (ReaderType.wrapped r) = r

abbrev pub put_reader : {S : Type 0} → LimitedBufReader S → ReaderType S → ReaderType S
put_reader r (ReaderType.original _) = ReaderType.original r
put_reader r (ReaderType.frozen _ o) = ReaderType.frozen r o
put_reader r (ReaderType.wrapped _) = ReaderType.wrapped r

-- An operation on the record and its reader.
abbrev pub store :
    {S : Type 0}
    → ReaderType S
    → Result ℕ × (WarcRecord S × LimitedBufReader S)
    → Result ℕ × WarcRecord S
store t (a, (rec, r)) = (a, record rec { reader = some (put_reader r t) })

unfoldable pub with_reader :
    {S : Type 0}
    → Io (WarcRecord S × LimitedBufReader S) ℕ
    → Option (ReaderType S)
    → Io (WarcRecord S) ℕ
with_reader f none rec = (err other, rec)
with_reader f (some t) rec = store t (f (rec, inner_reader t))
