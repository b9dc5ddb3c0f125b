-- ===== src/Record/Examples.antt =====
-- The theorems on payloads, HTTP, digests and writing, applied to a record in memory.
use chatnoir_resiliparse.Prelude.{
  ℕ, ◌-◌, ◌≡◌, refl, ap, true, false, none, some, [], ◌∷◌, ◌++◌, arith, length,
}
use chatnoir_resiliparse.Prelude.Int.{u64_mod, sub_u64, add_u64, as_i64}
use chatnoir_resiliparse.Bytes.{
  Bytes, codes, bytes_eq, trim_ascii, trim_ascii_start, trim_ascii_end, is_ascii_whitespace,
  to_ascii_lowercase, to_lower,
}
use chatnoir_resiliparse.Io.{Result, ok, err, other}
use chatnoir_resiliparse.Io.Cursor.{vec, vec-IsWrite}
use chatnoir_resiliparse.Io.Laws.{IsRead}
use chatnoir_resiliparse.Header.{tuple_key, tuple_value}
use chatnoir_resiliparse.Header.Write as W
use chatnoir_resiliparse.Header.Write.Render.{rendered}
use chatnoir_resiliparse.Header.Sanitize.{sanitize_header_value}
use chatnoir_resiliparse.Io.ReadLoop.{read_each, read_to_end}
use chatnoir_resiliparse.Record.Decimal.{to_string}
use chatnoir_resiliparse.Record.Names.{header_name}
use chatnoir_resiliparse.Header.Text.{Codec}
use chatnoir_resiliparse.Header.Map.{get_bytes, set_bytes, retain_set}
use chatnoir_resiliparse.StreamIo.Limited.{LimitedBufReader}
use chatnoir_resiliparse.StreamIo.Limited as L
use chatnoir_resiliparse.StreamIo.Limited.Laws.{limited_content}
use chatnoir_resiliparse.StreamIo.Limited.Read.{limited-IsRead}
use chatnoir_resiliparse.Record.{WarcRecordType, WarcRecord, ReaderType}
use chatnoir_resiliparse.Record.Number.{parse_u64}
use chatnoir_resiliparse.Record.Boxes.{Decoder}
use chatnoir_resiliparse.Record.Boxes.Memory.{
  Box, raw, decoder, left, box_read, in_memory, in_memory-IsBoxes, in_memory-IsCursor,
  box_read-IsStill, box_read-IsRead, box_read-IsBufRead, box_read-NeverFails, box_read-ReadsAlways,
}
use chatnoir_resiliparse.Record.Payload.{
  empty_record, freeze, frozen_payload_bytes, is_frozen, next_impl, detach_reader,
}
use chatnoir_resiliparse.Record.Payload.Freeze.{IsFrozen, freeze_lem, freeze_failure}
use chatnoir_resiliparse.Record.Http.{
  AutoDecode, parse_http_with_opts, wrap_reader_in_payload_decoders, codings_of, coding_of, wrap_in,
  split_on,
}
use chatnoir_resiliparse.Record.Http.Wrap.{detach-wrap}
use chatnoir_resiliparse.Record.Http.Head.{IsComplete, Split, parse_http_succeeds}
use chatnoir_resiliparse.Record.Digest.{Hashing, Verdict, get_digest, check_digest}
use chatnoir_resiliparse.Record.Digest.Correct.{check_digest-Judges, check_digest_decides}
use chatnoir_resiliparse.Record.Write.{
  write_with_block_size_checksum, write_from, write_heads, write_chunk, add_checksums,
  ensure_content_length, parsed_http, http_header_len, two_lines,
}
use chatnoir_resiliparse.Record.Write.Emits.{http_text, record_text, write-record_text}
use chatnoir_resiliparse.Record.Write.Total.{write_succeeds}
use chatnoir_resiliparse.Record.Kind.{try_from_bytes}
use chatnoir_resiliparse.Record.Fields.{set_record_type}
use chatnoir_resiliparse.Record.Fields.Stored.{type_key, set_record_type_lem}
use chatnoir_resiliparse.Record.Write.Length.{content_length-block}
use chatnoir_resiliparse.Record.Decimal.Stored.{content_length_key}

abbrev payload : Bytes
payload = codes "HTTP/1.1 200 OK" ++ (13 ∷ 10 ∷ 13 ∷ 10 ∷ codes "body")

-- The payload has 23 bytes, and more of the stream follows it.
abbrev payload_reader : LimitedBufReader Box
payload_reader = record { inner = raw (payload ++ codes "WARC") 0; limit = 23; pos = 0 }

abbrev http_record : WarcRecord Box
http_record = record empty_record {
  is_http = true;
  content_length = 23;
  reader = some (ReaderType.original payload_reader);
}

abbrev wrapped_record : WarcRecord Box
wrapped_record = record http_record { reader = some (ReaderType.wrapped payload_reader) }

abbrev same_codec : Codec
same_codec = record { windows_1252_encode = λ b. b; windows_1252_decode = λ b. b }

abbrev toy_hashing : Hashing
toy_hashing = record {
  md5 = λ b. b;
  sha1 = λ b. b;
  sha256 = λ b. b;
  sha512 = λ b. b;
  base32_encode = λ b. b;
  base32_decode = λ b. some b;
  hex_decode = λ b. none;
}

limited-IsRead_example : IsRead (L.read box_read) (limited_content left)
limited-IsRead_example = limited-IsRead box_read left box_read-IsRead

payload_size : length (limited_content left payload_reader) ≡ 23
unfolding sub_u64
payload_size = refl

freeze_lem_example :
    (rec' : WarcRecord Box) × (freeze box_read in_memory 31 100 http_record ≡ (ok tt, rec'))
    × IsFrozen box_read in_memory left in_memory-IsCursor rec' (limited_content left payload_reader)
    × (frozen_payload_bytes box_read in_memory 31 100 rec'
        ≡ some (limited_content left payload_reader))
    × (record rec' { reader = http_record.reader; content_length = 23 } ≡ http_record)
freeze_lem_example =
    freeze_lem box_read in_memory left in_memory-IsCursor box_read-IsRead box_read-ReadsAlways 31
      100 http_record payload_reader refl (omega (arith, payload_size))
      (omega (arith, payload_size))

abbrev lost_record : WarcRecord Box
lost_record = record wrapped_record { reader = none }

wrapped_fails : freeze box_read in_memory 31 100 wrapped_record ≡ (err other, lost_record)
unfolding freeze
wrapped_fails = refl

freeze_failure_example :
    (is_frozen wrapped_record ≡ false)
    × (lost_record ≡ record wrapped_record { reader = none })
    × (next_impl box_read in_memory 31 100 1000 lost_record ≡ (some (err other), lost_record))
    × (detach_reader box_read in_memory 31 100 lost_record ≡ (ok none, lost_record))
freeze_failure_example =
    freeze_failure box_read in_memory 31 100 1000 wrapped_record lost_record other wrapped_fails

abbrev decoded_record : WarcRecord Box
decoded_record = record http_record {
  reader = some (
      ReaderType.wrapped (record {
        inner = decoder Decoder.brotli (decoder Decoder.gzip (in_memory.boxed payload_reader));
        limit = u64_mod - 1;
        pos = 0;
      }));
}

decodes :
    wrap_reader_in_payload_decoders box_read in_memory same_codec 31 100
      (codes "br, gzip")
      true
      http_record
    ≡ (ok tt, decoded_record)
unfolding wrap_reader_in_payload_decoders codings_of coding_of wrap_in split_on L.new bytes_eq
    trim_ascii trim_ascii_start trim_ascii_end is_ascii_whitespace to_ascii_lowercase to_lower
decodes = refl

few_codings : length (codings_of true (codes "br, gzip")) ≡ 2
unfolding codings_of split_on
few_codings = refl

detach-wrap_example :
    detach_reader box_read in_memory 31 100 decoded_record
    ≡ (ok (some payload_reader.inner), record decoded_record { reader = none })
detach-wrap_example =
    detach-wrap box_read in_memory same_codec 31 100 in_memory-IsBoxes box_read-IsStill
      (codes "br, gzip") true http_record decoded_record (ReaderType.original payload_reader) refl
      tt (omega (arith, few_codings)) decodes

http_record-IsComplete :
    IsComplete box_read in_memory same_codec 31 100 left box_read-IsBufRead http_record
      (ReaderType.original payload_reader)
unfolding sub_u64
http_record-IsComplete = record {
  reader_is = refl;
  limit_is = refl;
  fits = omega arith;
  whole = omega arith;
}

-- A verdict is given, and it is that the digest is the expected one.
check_digest-Judges_example :
    (hash : Bytes → Bytes) × (get_digest toy_hashing (codes "sha1") ≡ some hash)
    × (true ≡ bytes_eq (hash (limited_content left payload_reader)) payload)
unfolding check_digest is_frozen freeze read_to_end L.read sub_u64 add_u64 get_digest bytes_eq
    to_ascii_lowercase to_lower L.new L.seek as_i64
check_digest-Judges_example =
    check_digest-Judges box_read in_memory same_codec toy_hashing left box_read-IsRead 31 100
      box_read-ReadsAlways in_memory-IsCursor false (codes "sha1") payload http_record
      (ReaderType.original payload_reader) refl (omega (arith, payload_size))
      (omega (arith, payload_size))

abbrev written : Result ℕ × (WarcRecord Box × Bytes)
written =
    write_with_block_size_checksum box_read in_memory toy_hashing 31 100 vec 16 false
      (http_record, [])

written_count : written.0 ≡ ok 49
unfolding write_with_block_size_checksum write_from write_heads write_chunk add_checksums
    ensure_content_length http_header_len W.write L.read sub_u64 add_u64 get_bytes set_bytes
    retain_set sanitize_header_value to_string bytes_eq header_name read_each trim_ascii_end
    trim_ascii_start trim_ascii is_ascii_whitespace to_ascii_lowercase to_lower tuple_key
    tuple_value
written_count = refl

write-record_text_example :
    (written.1.1 ≡ [] ++ record_text http_record (limited_content left payload_reader))
    × (49 ≡ length (record_text http_record (limited_content left payload_reader)))
write-record_text_example =
    write-record_text box_read in_memory toy_hashing 31 100 left box_read-IsRead vec (λ w. w)
      vec-IsWrite 15 http_record written.1.0 (ReaderType.original payload_reader) [] written.1.1 49
      refl (ap (λ x. (x, written.1)) written_count)

content_length-block_example :
    let block = http_text (parsed_http http_record) ++ limited_content left payload_reader in
    let h = ensure_content_length (length block) http_record.headers in
    (written.1.1 ≡ [] ++ (rendered h ++ (block ++ two_lines)))
    × ((v : Bytes) × (get_bytes content_length_key h ≡ some v)
        × (parse_u64 v ≡ some (length block)))
content_length-block_example =
    content_length-block box_read in_memory toy_hashing 31 100 left box_read-IsRead vec (λ w. w)
      vec-IsWrite 15 http_record written.1.0 (ReaderType.original payload_reader) [] written.1.1 49
      refl payload_size (omega (arith, payload_size)) (ap (λ x. (x, written.1)) written_count)

write_succeeds_example :
    (rec' : WarcRecord Box) × (w' : Bytes) × (write_with_block_size_checksum box_read in_memory
        toy_hashing 31 100 vec 16 false
        (http_record, [])
      ≡ (ok (length (record_text http_record (limited_content left payload_reader))), (rec', w')))
    × (w' ≡ [] ++ record_text http_record (limited_content left payload_reader))
write_succeeds_example =
    write_succeeds box_read in_memory toy_hashing 31 100 left box_read-IsRead box_read-ReadsAlways
      vec (λ w. w) vec-IsWrite (λ b w. (tt, w ++ b, refl)) 15 http_record
      (ReaderType.original payload_reader) [] refl (omega (arith, payload_size))

parse_http_succeeds_example :
    (rec' : WarcRecord Box) × (parse_http_with_opts box_read in_memory same_codec 31 100
        AutoDecode.no_decode 1000 false http_record
      ≡ (ok tt, rec'))
    × Split box_read in_memory same_codec 31 100 left box_read-IsBufRead false http_record
        (ReaderType.original payload_reader)
        rec'
parse_http_succeeds_example =
    parse_http_succeeds box_read in_memory same_codec 31 100 left box_read-IsBufRead
      box_read-NeverFails 1000 false http_record (ReaderType.original payload_reader)
      http_record-IsComplete refl refl (omega arith) (omega arith)

sha1_known : get_digest toy_hashing (codes "sha1") ≡ some toy_hashing.sha1
unfolding get_digest to_ascii_lowercase to_lower bytes_eq
sha1_known = refl

check_digest_decides_example :
    (check_digest box_read in_memory same_codec toy_hashing 31 100 true
      (codes "sha1")
      payload
      http_record).0
    ≡ Verdict.verdict (bytes_eq (limited_content left payload_reader) payload)
check_digest_decides_example =
    check_digest_decides box_read in_memory same_codec toy_hashing left box_read-IsRead
      box_read-ReadsAlways 31 100 (codes "sha1") payload toy_hashing.sha1 http_record
      (ReaderType.original payload_reader) refl sha1_known (omega (arith, payload_size))

set_record_type_lem_example :
    ((set_record_type WarcRecordType.resource http_record).record_type ≡ WarcRecordType.resource)
    × (v : Bytes) × (get_bytes type_key
          (set_record_type WarcRecordType.resource http_record).headers
        ≡ some v)
    × (try_from_bytes v ≡ some WarcRecordType.resource)
set_record_type_lem_example = set_record_type_lem WarcRecordType.resource http_record
