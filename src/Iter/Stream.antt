-- ===== src/Iter/Stream.antt =====
-- fastwarc-rs/src/warc/iter.rs: `detect_stream_compression_type`, and `next` of the iterator.
use chatnoir_resiliparse.Prelude.{
  ℕ, zero, suc, Bool, true, false, not, ◌&&◌, ◌||◌, Option, none, some, [], ◌∷◌, if◌then◌else◌, ltb,
  length, take,
}
use chatnoir_resiliparse.Bytes.{Bytes, bytes_eq}
use chatnoir_resiliparse.Io.{Result, ok, err, other, panicked, Io}
use chatnoir_resiliparse.Header.Text.{Codec}
use chatnoir_resiliparse.StreamIo.{WarcRead}
use chatnoir_resiliparse.StreamIo.Limited.{LimitedBufReader, limited}
use chatnoir_resiliparse.StreamIo.Limited as L
use chatnoir_resiliparse.Record.{WarcRecord, ReaderType, inner_reader, put_reader}
use chatnoir_resiliparse.Record.Boxes.{Boxes, Decoder}
use chatnoir_resiliparse.Record.Consume.{next_inplace_impl}
use chatnoir_resiliparse.Record.Payload.{next_impl}
use chatnoir_resiliparse.Record.Http.{parse_http_with_opts}
use chatnoir_resiliparse.Record.Digest.{Hashing, Verdict, verify_block_digest}
use chatnoir_resiliparse.Iter.{ArchiveIterator, ArchiveIteratorOptions}

abbrev pub first_four : Bytes → Option Bytes
first_four buf = if ltb (length buf) 4 then none else some (take 4 buf)

-- The decoder that the first bytes of a stream ask for.
unfoldable pub decoder_of : Option Bytes → Option Decoder
decoder_of none = none
decoder_of (some b) =
    if bytes_eq (take 3 b) (31 ∷ 139 ∷ 8 ∷ [])
    then some Decoder.gzip
    else if bytes_eq b (40 ∷ 181 ∷ 47 ∷ 253 ∷ []) || bytes_eq b (93 ∷ 42 ∷ 77 ∷ 24 ∷ [])
    then some Decoder.zstd
    else if bytes_eq b (4 ∷ 34 ∷ 77 ∷ 24 ∷ [])
    then some Decoder.lz4
    else none

module _ {S : Type 0} (reader : WarcRead S) (boxes : Boxes S) (codec : Codec) (hashing : Hashing)
    (len fuel : ℕ) where
  abbrev decoded_by : Option Decoder → LimitedBufReader S → LimitedBufReader S
  decoded_by none r = r
  decoded_by (some d) r = L.new reader (boxes.decode d (boxes.boxed r)) none

  abbrev on_magic :
      ReaderType S
      → WarcRecord S
      → Result Bytes × LimitedBufReader S
      → Result (Unit {0}) × WarcRecord S
  on_magic t rec (err e, r) = (err e, record rec { reader = some (put_reader r t) })
  on_magic (ReaderType.original _) rec (ok buf, r) = (
    ok tt,
    record rec { reader = some (ReaderType.original (decoded_by (decoder_of (first_four buf)) r)) },
  )
  on_magic (ReaderType.frozen _ o) rec (ok buf, r) = (err other, record rec { reader = none })
  on_magic (ReaderType.wrapped _) rec (ok buf, r) = (err other, record rec { reader = none })

  abbrev detect_in : Option (ReaderType S) → WarcRecord S → Result (Unit {0}) × WarcRecord S
  detect_in none rec = (err panicked, rec)
  detect_in (some t) rec =
      if (limited reader).is_stream_decoder (inner_reader t)
      then (ok tt, rec)
      else on_magic t rec ((limited reader).fill_buf (inner_reader t))

  unfoldable pub detect_stream_compression_type : WarcRecord S → Result (Unit {0}) × WarcRecord S
  unfolding decoder_of
  detect_stream_compression_type rec = detect_in rec.reader rec

  -- `unwrap_or(false)`.
  abbrev pub holds_true : Verdict → Bool
  holds_true (Verdict.verdict b) = b
  holds_true (Verdict.undecided e) = false

  abbrev pub parsed_result : Result (Unit {0}) × WarcRecord S → Result Bool × WarcRecord S
  parsed_result (err e, rec) = (err e, rec)
  parsed_result (ok u, rec) = (ok true, rec)

  unfoldable pub parse_if_http : ArchiveIteratorOptions → Io (WarcRecord S) Bool
  parse_if_http o rec =
      if o.parse_http && rec.is_http
      then parsed_result (
          parse_http_with_opts reader boxes codec len fuel o.decode_http_payload o.max_header_len
            o.quirks_mode rec)
      else (ok true, rec)

  abbrev pub after_verify :
      ArchiveIteratorOptions → Verdict × WarcRecord S → Result Bool × WarcRecord S
  after_verify o (v, rec) = if not (holds_true v) then (ok false, rec) else parse_if_http o rec

  -- The closure that decides whether the record is kept.
  unfoldable pub keep_record : ArchiveIteratorOptions → Io (WarcRecord S) Bool
  unfolding parse_if_http
  keep_record o rec =
      if o.verify_digests
      then after_verify o (verify_block_digest reader boxes codec hashing len fuel false rec)
      else parse_if_http o rec

  -- The record is the one that `cur` holds afterwards.
  abbrev pub Next : Type 0
  Next = Option (Result (WarcRecord S)) × ArchiveIterator S

  abbrev pub with_cur : ArchiveIterator S → WarcRecord S → ArchiveIterator S
  with_cur it rec = record it { cur = rec }

  unfoldable pub on_kept :
      (ArchiveIterator S → Next) → ArchiveIterator S → Result Bool × WarcRecord S → Next
  on_kept loop it (err e, rec) = (some (err e), with_cur it rec)
  on_kept loop it (ok true, rec) = (some (ok rec), with_cur it rec)
  on_kept loop it (ok false, rec) = loop (with_cur it rec)

  unfoldable pub on_inplace :
      (ArchiveIterator S → Next)
      → ArchiveIterator S
      → Option (Result (Unit {0})) × WarcRecord S
      → Next
  unfolding on_kept keep_record
  on_inplace loop it (none, rec) = (none, with_cur it rec)
  on_inplace loop it (some (err e), rec) = (some (err e), with_cur it rec)
  on_inplace loop it (some (ok u), rec) = on_kept loop it (keep_record it.options rec)

  -- A new record goes behind a new handle.
  unfoldable pub on_next :
      (ArchiveIterator S → Next)
      → ArchiveIterator S
      → Option (Result (WarcRecord S)) × WarcRecord S
      → Next
  unfolding on_kept keep_record
  on_next loop it (none, rec) = (none, with_cur it rec)
  on_next loop it (some (err e), rec) = (some (err e), with_cur it rec)
  on_next loop it (some (ok n), rec) = on_kept loop it (keep_record it.options n)

  unfoldable pub next_loop : ℕ → ArchiveIterator S → Next
  unfolding on_inplace on_next
  next_loop zero it = (some (err other), it)
  next_loop (suc n) it =
      if it.options.inplace
      then on_inplace (next_loop n) it
          (next_inplace_impl reader fuel it.options.max_header_len it.cur)
      else on_next (next_loop n) it
          (next_impl reader boxes len fuel it.options.max_header_len it.cur)

  abbrev pub started : ℕ → ArchiveIterator S → Result (Unit {0}) × WarcRecord S → Next
  started n it (err e, rec) = (some (err e), with_cur it rec)
  started n it (ok u, rec) = next_loop n (record it { cur = rec; stream_started = true })

  unfoldable pub next : ℕ → ArchiveIterator S → Next
  unfolding detect_stream_compression_type next_loop
  next n it =
      if not it.stream_started && it.options.stream_detect
      then started n it (detect_stream_compression_type it.cur)
      else next_loop n (record it { stream_started = true })
