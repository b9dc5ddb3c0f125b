-- ===== src/Record/Parse.antt =====
-- fastwarc-rs/src/warc/record.rs: `parse_warc_headers_with_opts` and `next_inplace_impl`.
pub mod Find
pub mod Correct
use chatnoir_resiliparse.Prelude.{
  ℕ, zero, suc, ◌+◌, ◌≤◌, Bool, true, false, not, ◌&&◌, ◌||◌, Option, none, some, List, [], ◌∷◌,
  ◌++◌, if◌then◌else◌, ltb, leb, ◌==◌, length,
}
use chatnoir_resiliparse.Bytes.{Bytes, codes, is_empty, trim_ascii_end, bytes_eq, starts_with}
use chatnoir_resiliparse.Io.{Result, ok, err, invalid_data, other, Io}
use chatnoir_resiliparse.Header.{HeaderMap, CowHeaderValue, clear, trim_ascii_offsets}
use chatnoir_resiliparse.Header.Map.{items_bytes}
use chatnoir_resiliparse.Header.Parse.{parse_with_opts}
use chatnoir_resiliparse.StreamIo.{WarcRead}
use chatnoir_resiliparse.StreamIo.Limited.{LimitedBufReader, limited, set_limit}
use chatnoir_resiliparse.StreamIo.ReadLine.{read_line}
use chatnoir_resiliparse.Record.{WarcRecordType, WarcRecord, with_reader}
use chatnoir_resiliparse.Record.Kind.{try_from_bytes}
use chatnoir_resiliparse.Record.Names.{WarcHeader, header_name}
use chatnoir_resiliparse.Record.Number.{parse_u64}

-- The test for a version line.
unfoldable pub is_version : Bytes → Bool
is_version trimmed =
    bytes_eq trimmed (codes "WARC/1.1")
    || bytes_eq trimmed (codes "WARC/1.0")
    || (starts_with trimmed (codes "WARC/0.") && leb (length trimmed) 9)

-- The header map seeded with a version line.
unfoldable pub seed : Bytes → HeaderMap → HeaderMap
unfolding clear trim_ascii_offsets
seed line h =
    let c = clear h in
    record c {
      raw_header_block = c.raw_header_block ++ line;
      status_line = some (CowHeaderValue.offsets (trim_ascii_offsets line));
    }

abbrev pub frame_start : ℕ → Option ℕ → ℕ
frame_start here none = here
frame_start here (some p) = if ltb 0 p then p else here

-- The loop over the headers, which ends after three that it knows.
abbrev pub content_type_is_http : Bytes → Bool
content_type_is_http v =
    bytes_eq v (codes "application/http") || starts_with v (codes "application/http;")

abbrev pub or_unknown : Option WarcRecordType → WarcRecordType
or_unknown none = WarcRecordType.unknown
or_unknown (some t) = t

abbrev pub or_zero : Option ℕ → ℕ
or_zero none = 0
or_zero (some n) = n

unfoldable pub scan_item : {S : Type 0} → Bytes → Bytes → WarcRecord S → Option (WarcRecord S)
scan_item k v rec =
    if bytes_eq k (codes (header_name WarcHeader.warc_type))
    then some (record rec { record_type = or_unknown (try_from_bytes v) })
    else if bytes_eq k (codes (header_name WarcHeader.content_type))
    then some (record rec { is_http = content_type_is_http v })
    else if bytes_eq k (codes (header_name WarcHeader.content_length))
    then some (record rec { content_length = or_zero (parse_u64 v) })
    else none

unfoldable pub scan_items : {S : Type 0} → List (Bytes × Bytes) → ℕ → WarcRecord S → WarcRecord S
scan_items [] parse_count rec = rec
scan_items ((k, v) ∷ items) parse_count rec = elim (scan_item k v rec) [
  | none ↦ if parse_count == 3 then rec else scan_items items parse_count rec
  | some rec' ↦ if parse_count + 1 == 3 then rec' else scan_items items (parse_count + 1) rec'
]

module _ {S : Type 0} (reader : WarcRead S) (fuel : ℕ) (quirks : Bool) where
  abbrev pub State : Type 0
  State = WarcRecord S × LimitedBufReader S

  -- The passes of the loop that looks for a version line. The result is the number of bytes read, or
  -- none at the end of the stream; `next` is the rest of the loop.
  unfoldable pub on_version :
      ℕ → WarcRecord S → Result (Option ℕ) × LimitedBufReader S → Result (Option ℕ) × State
  on_version k rec (err e, r) = (err e, (rec, r))
  on_version k rec (ok p, r) =
      (ok (some k), (record rec { stream_pos = frame_start rec.stream_pos p }, r))

  unfoldable pub on_line :
      (ℕ → Io State (Option ℕ))
      → ℕ
      → WarcRecord S
      → Result ℕ × (Bytes × LimitedBufReader S)
      → Result (Option ℕ) × State
  unfolding on_version
  on_line next k rec (err e, (line, r)) = (err e, (rec, r))
  on_line next k rec (ok zero, (line, r)) = (ok none, (rec, r))
  on_line next k rec (ok (suc n), (line, r)) =
      let trimmed = trim_ascii_end line in
      if is_empty trimmed
      then next (k + suc n) (rec, r)
      else if is_version trimmed
      then on_version (k + suc n) (record rec { headers = seed line rec.headers })
          ((limited reader).frame_start_position r)
      else if quirks
      then next (k + suc n) (rec, r)
      else (err invalid_data, (rec, r))

  unfoldable pub on_position :
      (ℕ → Io State (Option ℕ))
      → ℕ
      → WarcRecord S
      → Result ℕ × LimitedBufReader S
      → Result (Option ℕ) × State
  unfolding on_line
  on_position next k rec (err e, r) = (err e, (rec, r))
  on_position next k rec (ok p, r) =
      on_line next k (record rec { stream_pos = p }) (read_line reader fuel 256 ([], r))

  unfoldable pub find_version : ℕ → ℕ → Io State (Option ℕ)
  unfolding on_position
  find_version zero k st = (err other, st)
  find_version (suc n) k (rec, r) =
      on_position (find_version n) k rec ((limited reader).inner_stream_position r)

  -- After the version line: the header block, what the record takes from it, and the limit.
  unfoldable pub on_block :
      ℕ → WarcRecord S → (Result ℕ × HeaderMap) × LimitedBufReader S → Result ℕ × State
  on_block k rec ((err e, h), r) = (err e, (record rec { headers = h }, r))
  on_block k rec ((ok n, h), r) =
      let rec' = scan_items (items_bytes h) 0 (record rec { headers = h }) in
      (ok (k + n), (rec', set_limit rec'.content_length r))

  unfoldable pub parse_block : ℕ → Result (Option ℕ) × State → Result ℕ × State
  unfolding on_block
  parse_block max (err e, st) = (err e, st)
  parse_block max (ok none, st) = (ok 0, st)
  parse_block max (ok (some k), (rec, r)) =
      on_block k rec (parse_with_opts (limited reader).buffered fuel false max quirks rec.headers r)

  unfoldable pub parse_warc_headers_with_opts : ℕ → Io (WarcRecord S) ℕ
  unfolding parse_block find_version
  parse_warc_headers_with_opts max rec =
      with_reader (λ st. parse_block max (find_version fuel 0 st)) rec.reader rec
