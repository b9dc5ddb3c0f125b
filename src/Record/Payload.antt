-- ===== src/Record/Payload.antt =====
-- fastwarc-rs/src/warc/record.rs: making a record from a reader or from bytes, its payload, and
-- giving the reader back.
pub mod Freeze
use chatnoir_resiliparse.Prelude.{
  ℕ, zero, suc, ◌-◌, ◌==◌, Bool, true, false, not, ◌&&◌, Option, none, some, [], if◌then◌else◌, ltb,
  length,
}
use chatnoir_resiliparse.Prelude.Int.{u64_mod}
use chatnoir_resiliparse.Bytes.{Bytes, codes}
use chatnoir_resiliparse.Io.{Result, ok, err, ErrorKind, other, unexpected_eof, panicked, Io}
use chatnoir_resiliparse.Io.ReadLoop.{read_to_end}
use chatnoir_resiliparse.Header.{HeaderMap, HeaderEncoding}
use chatnoir_resiliparse.Header as H
use chatnoir_resiliparse.Header.Map.{set_bytes}
use chatnoir_resiliparse.StreamIo.{WarcRead}
use chatnoir_resiliparse.StreamIo.Limited.{LimitedBufReader}
use chatnoir_resiliparse.StreamIo.Limited as L
use chatnoir_resiliparse.Record.{WarcRecordType, WarcRecord, ReaderType}
use chatnoir_resiliparse.Record.Boxes.{Boxes}
use chatnoir_resiliparse.Record.Decimal.{to_string}
use chatnoir_resiliparse.Record.Parse.{parse_warc_headers_with_opts}
use chatnoir_resiliparse.Record.Consume.{consume}

-- `WarcRecord::new`.
abbrev pub empty_record : {S : Type 0} → WarcRecord S
empty_record = record {
  record_type = WarcRecordType.no_type;
  headers = H.new HeaderEncoding.unicode;
  quirks_mode = false;
  content_length = 0;
  is_http = false;
  http_parsed = false;
  http_charset = none;
  http_headers = none;
  reader = none;
  stream_pos = 0;
}

unfoldable pub is_frozen : {S : Type 0} → WarcRecord S → Bool
is_frozen rec = elim rec.reader [
  | none ↦ false
  | some (ReaderType.original r) ↦ false
  | some (ReaderType.frozen r o) ↦ true
  | some (ReaderType.wrapped r) ↦ false
]

-- `len` is the size of the buffers of `read_to_end`, less one.
module _ {S : Type 0} (reader : WarcRead S) (boxes : Boxes S) (len fuel : ℕ) where
  abbrev attach_at : S → WarcRecord S → WarcRecord S
  attach_at s rec = record rec { reader = some (ReaderType.original (L.new reader s none)) }

  abbrev attach_told : WarcRecord S → Result ℕ × S → Result (Unit {0}) × WarcRecord S
  attach_told rec (ok p, s) = (ok tt, attach_at s (record rec { stream_pos = p }))
  attach_told rec (err e, s) = (err panicked, rec)

  unfoldable pub attach_reader : S → Io (WarcRecord S) (Unit {0})
  attach_reader s rec =
      if rec.stream_pos == 0
      then attach_told rec (reader.inner_stream_position s)
      else (ok tt, attach_at s rec)

  abbrev pub cursor_reader : Bytes → LimitedBufReader S
  cursor_reader payload = L.new reader (boxes.cursor payload) none

  -- The reader that is kept when the payload is replaced.
  abbrev retained : Option (ReaderType S) → Option (LimitedBufReader S)
  retained (some (ReaderType.original r)) = some (L.new reader r.inner none)
  retained (some (ReaderType.frozen r o)) = none
  retained (some (ReaderType.wrapped r)) = none
  retained none = none

  unfoldable pub set_bytes_payload : Bytes → WarcRecord S → WarcRecord S
  set_bytes_payload payload rec = record rec {
    content_length = length payload;
    reader = some (ReaderType.frozen (cursor_reader payload) (retained rec.reader));
    headers = set_bytes (codes "Content-Length") (to_string (length payload)) rec.headers;
  }

  unfoldable pub frozen_payload_bytes : WarcRecord S → Option Bytes
  frozen_payload_bytes rec = elim rec.reader [
    | none ↦ none
    | some (ReaderType.original r) ↦ none
    | some (ReaderType.frozen r o) ↦ boxes.cursor_bytes r.inner
    | some (ReaderType.wrapped r) ↦ none
  ]

  -- The reader has been taken out of the record, and an error drops it.
  abbrev pub on_frozen :
      WarcRecord S
      → Result (Unit {0}) × (LimitedBufReader S × Bytes)
      → Result (Unit {0}) × WarcRecord S
  on_frozen rec (err e, (r, buf)) = (err e, record rec { reader = none })
  on_frozen rec (ok u, (r, buf)) = (
    ok tt,
    record rec {
      content_length = length buf;
      reader = some (ReaderType.frozen (cursor_reader buf) (some r));
    },
  )

  abbrev pub freeze_from : Option (ReaderType S) → Io (WarcRecord S) (Unit {0})
  freeze_from (some (ReaderType.frozen r o)) rec = (ok tt, rec)
  freeze_from (some (ReaderType.original r)) rec =
      on_frozen rec (read_to_end (L.read reader) (suc len) fuel (r, []))
  freeze_from (some (ReaderType.wrapped r)) rec = (err other, record rec { reader = none })
  freeze_from none rec = (err other, record rec { reader = none })

  unfoldable pub freeze : Io (WarcRecord S) (Unit {0})
  freeze rec = freeze_from rec.reader rec

  -- `loop` over the decoders in `detach_reader`, which takes fuel for each and for what is left.
  unfoldable pub undecode_all : ℕ → S → Result S
  undecode_all zero s = err other
  undecode_all (suc n) s = elim (boxes.undecode s) [ none ↦ ok s | some s' ↦ undecode_all n s' ]

  abbrev pub innermost : S → Option (LimitedBufReader S) → Result (Option S)
  innermost s none = err panicked
  innermost s (some r) = ok (some r.inner)

  abbrev pub unboxed_inner : Result S → Result (Option S)
  unboxed_inner (err e) = err e
  unboxed_inner (ok s) = innermost s (boxes.unboxed s)

  abbrev inner_of : Option (LimitedBufReader S) → Option S
  inner_of none = none
  inner_of (some r) = some r.inner

  unfoldable pub detach_from : Option (ReaderType S) → Io (WarcRecord S) (Option S)
  unfolding undecode_all
  detach_from none rec = (ok none, rec)
  detach_from (some (ReaderType.wrapped r)) rec =
      (unboxed_inner (undecode_all fuel r.inner), record rec { reader = none })
  detach_from (some (ReaderType.original r)) rec = (ok (some r.inner), record rec { reader = none })
  detach_from (some (ReaderType.frozen r o)) rec =
      (ok (inner_of o), record rec { reader = some (ReaderType.frozen r none) })

  unfoldable pub detach_reader : Io (WarcRecord S) (Option S)
  unfolding detach_from
  detach_reader rec = detach_from rec.reader rec

  -- The record is none at the end of the stream.
  abbrev record_read : Result ℕ × WarcRecord S → Result (Option (WarcRecord S))
  record_read (err e, rec) = err e
  record_read (ok zero, rec) = ok none
  record_read (ok (suc n), rec) = ok (some rec)

  abbrev after_attach : Bool → ℕ → Result (Unit {0}) × WarcRecord S → Result (Option (WarcRecord S))
  after_attach quirks max (err e, rec) = err e
  after_attach quirks max (ok u, rec) =
      record_read
        (parse_warc_headers_with_opts reader fuel quirks max (record rec { quirks_mode = quirks }))

  unfoldable pub from_reader_internal : S → Bool → ℕ → Result (Option (WarcRecord S))
  from_reader_internal s quirks max = after_attach quirks max (attach_reader s empty_record)

  abbrev found : Result (Option (WarcRecord S)) → Result (WarcRecord S)
  found (err e) = err e
  found (ok none) = err unexpected_eof
  found (ok (some rec)) = ok rec

  unfoldable pub from_reader_with_opts : S → Bool → ℕ → Result (WarcRecord S)
  from_reader_with_opts s quirks max = found (from_reader_internal s quirks max)

  abbrev pub forget_original : WarcRecord S → Option (ReaderType S) → Result (WarcRecord S)
  forget_original rec (some (ReaderType.frozen r o)) =
      ok (record rec { reader = some (ReaderType.frozen r none) })
  forget_original rec (some (ReaderType.original r)) = err panicked
  forget_original rec (some (ReaderType.wrapped r)) = err panicked
  forget_original rec none = err panicked

  abbrev after_freeze : Result (Unit {0}) × WarcRecord S → Result (WarcRecord S)
  after_freeze (err e, rec) = err e
  after_freeze (ok u, rec) = forget_original rec rec.reader

  abbrev after_parse : Result (WarcRecord S) → Result (WarcRecord S)
  after_parse (err e) = err e
  after_parse (ok rec) = after_freeze (freeze rec)

  unfoldable pub from_bytes : Bytes → Result (WarcRecord S)
  from_bytes payload =
      after_parse (from_reader_with_opts (boxes.cursor payload) false (u64_mod - 1))

  -- `Result<Option<_>>::transpose`.
  abbrev transpose : Result (Option (WarcRecord S)) → Option (Result (WarcRecord S))
  transpose (err e) = some (err e)
  transpose (ok none) = none
  transpose (ok (some rec)) = some (ok rec)

  abbrev pub next_record :
      ℕ → Bool → Result (Option S) × WarcRecord S → Option (Result (WarcRecord S)) × WarcRecord S
  next_record max quirks (err e, rec) = (some (err e), rec)
  next_record max quirks (ok none, rec) = (none, rec)
  next_record max quirks (ok (some s), rec) = (transpose (from_reader_internal s quirks max), rec)

  abbrev pub after_payload :
      ℕ → Result ℕ × WarcRecord S → Option (Result (WarcRecord S)) × WarcRecord S
  after_payload max (err e, rec) = (some (err e), rec)
  after_payload max (ok n, rec) = next_record max rec.quirks_mode (detach_reader rec)

  unfoldable pub next_impl : ℕ → WarcRecord S → Option (Result (WarcRecord S)) × WarcRecord S
  next_impl max rec =
      if not (is_frozen rec) && ltb 0 rec.content_length
      then after_payload max (consume reader fuel rec)
      else next_record max rec.quirks_mode (detach_reader rec)
