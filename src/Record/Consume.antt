-- ===== src/Record/Consume.antt =====
-- fastwarc-rs/src/warc/record.rs: `consume_n`, `consume` and `next_inplace_impl`.
pub mod Correct
use chatnoir_resiliparse.Prelude.{
  ℕ, zero, suc, ◌+◌, ◌-◌, Bool, true, false, not, ◌&&◌, Option, none, some, [], ◌∷◌, if◌then◌else◌,
  ltb, ◌==◌, length, min,
}
use chatnoir_resiliparse.Bytes.{Bytes}
use chatnoir_resiliparse.Io.{Result, ok, err, ErrorKind, other, Io, BufRead}
use chatnoir_resiliparse.StreamIo.{WarcRead}
use chatnoir_resiliparse.StreamIo.Limited.{LimitedBufReader, limited, reset_limit}
use chatnoir_resiliparse.Record.{WarcRecordType, WarcRecord, ReaderType, with_reader}
use chatnoir_resiliparse.Record.Parse.{parse_warc_headers_with_opts}

module _ {S : Type 0} (reader : BufRead S) (n : ℕ) where
  -- The body of the loop on what `fill_buf` has returned; `next` is the rest of the loop.
  unfoldable pub on_consume_chunk : (ℕ → Io S ℕ) → ℕ → Result Bytes × S → Result ℕ × S
  on_consume_chunk next consumed (err e, s) = (err e, s)
  on_consume_chunk next consumed (ok [], s) = (ok consumed, s)
  on_consume_chunk next consumed (ok (c ∷ cs), s) =
      let k = min (length (c ∷ cs)) (n - consumed) in next (consumed + k) (reader.consume k s)

  unfoldable pub consume_loop : ℕ → ℕ → Io S ℕ
  unfolding on_consume_chunk
  consume_loop zero consumed s = (err other, s)
  consume_loop (suc fuel) consumed s =
      if ltb consumed n
      then on_consume_chunk (consume_loop fuel) consumed (reader.fill_buf s)
      else (ok consumed, s)

module _ {S : Type 0} (reader : WarcRead S) (fuel : ℕ) where
  abbrev pub beside :
      WarcRecord S → Result ℕ × LimitedBufReader S → Result ℕ × (WarcRecord S × LimitedBufReader S)
  beside rec (a, r) = (a, (rec, r))

  unfoldable pub consume_n : ℕ → Io (WarcRecord S) ℕ
  unfolding consume_loop with_reader
  consume_n n rec =
      if n == 0
      then (ok 0, rec)
      else with_reader (λ (q, r). beside q (consume_loop (limited reader).buffered n fuel 0 r))
          rec.reader rec

  -- `WarcRecord::consume`.
  unfoldable pub consume : Io (WarcRecord S) ℕ
  unfolding consume_n
  consume rec = consume_n rec.content_length rec

  abbrev is_frozen : Option (ReaderType S) → Bool
  is_frozen (some (ReaderType.frozen r o)) = true
  is_frozen _ = false

  -- The reader without its limit, where it is not frozen.
  abbrev pub unlimited : Option (ReaderType S) → Option (ReaderType S)
  unlimited (some (ReaderType.original r)) = some (ReaderType.original (reset_limit reader r))
  unlimited (some (ReaderType.wrapped r)) = some (ReaderType.wrapped (reset_limit reader r))
  unlimited (some (ReaderType.frozen r o)) = none
  unlimited none = none

  abbrev pub fresh : WarcRecord S → ReaderType S → WarcRecord S
  fresh rec t = record rec {
    reader = some t;
    record_type = WarcRecordType.no_type;
    is_http = false;
    http_parsed = false;
    http_charset = none;
    http_headers = none;
  }

  -- The result of `next_inplace`: none at the end of the stream.
  abbrev pub next_result : Result ℕ × WarcRecord S → Option (Result (Unit {0})) × WarcRecord S
  next_result (err e, rec) = (some (err e), rec)
  next_result (ok zero, rec) = (none, rec)
  next_result (ok (suc n), rec) = (some (ok tt), rec)

  unfoldable pub next_from :
      ℕ → Option (ReaderType S) → WarcRecord S → Option (Result (Unit {0})) × WarcRecord S
  next_from max none rec = (none, rec)
  next_from max (some t) rec =
      next_result (parse_warc_headers_with_opts reader fuel rec.quirks_mode max (fresh rec t))

  abbrev pub after_consume : ℕ → Result ℕ × WarcRecord S → Option (Result (Unit {0})) × WarcRecord S
  after_consume max (err e, rec) = (some (err e), rec)
  after_consume max (ok n, rec) = next_from max (unlimited rec.reader) rec

  unfoldable pub next_inplace_impl : ℕ → WarcRecord S → Option (Result (Unit {0})) × WarcRecord S
  unfolding consume next_from
  next_inplace_impl max rec =
      if not (is_frozen rec.reader) && ltb 0 rec.content_length
      then after_consume max (consume rec)
      else next_from max (unlimited rec.reader) rec
