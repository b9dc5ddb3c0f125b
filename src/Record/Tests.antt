-- ===== src/Record/Tests.antt =====
-- Records read from a stream in memory, and the theorems about them at that stream.
use chatnoir_resiliparse.Prelude.{
  ℕ, ◌≡◌, ◌<◌, min, drop, refl, true, false, none, some, arith, length,
}
use chatnoir_resiliparse.Prelude.Int.{u64_mod, sub_u64, add_u64}
use chatnoir_resiliparse.Bytes.{
  Bytes, codes, is_ascii_whitespace, trim_ascii, trim_ascii_start, trim_ascii_end, to_lower,
  to_ascii_lowercase, bytes_eq, eq_ignore_ascii_case, starts_with, memchr, find_crlf, slice,
}
use chatnoir_resiliparse.Io.{Result, ok}
use chatnoir_resiliparse.Header.{unicode, new, clear, tuple_key, tuple_value, trim_ascii_offsets}
use chatnoir_resiliparse.Header.Map.{items_bytes}
use chatnoir_resiliparse.Header.Parse.{
  parse_with_opts, ends_block, next_line, split_and_push_parsed_line, continue_last,
}
use chatnoir_resiliparse.StreamIo.Limited.{
  LimitedBufReader, fill_buf, consume, set_limit, reset_limit,
}
use chatnoir_resiliparse.StreamIo.ReadLine.{read_line}
use chatnoir_resiliparse.StreamIo.Limited.Laws.{limited_content}
use chatnoir_resiliparse.StreamIo.Memory.{rest, memory_read, memory-IsBufRead, memory-NeverFails}
use chatnoir_resiliparse.Record.{WarcRecordType, WarcRecord, ReaderType, store, with_reader}
use chatnoir_resiliparse.Record.Consume.{consume_n, next_inplace_impl}
use chatnoir_resiliparse.Record.Consume.Correct.{consume_n_drops}
use chatnoir_resiliparse.Record.Kind.{as_str, try_from_bytes, try_from_u16, as_u16}
use chatnoir_resiliparse.Record.Kind.RoundTrip.{try_from-as_str}
use chatnoir_resiliparse.Record.Names.{header_name}
use chatnoir_resiliparse.Record.Number.{parse_content_length_bytes, parse_u64, is_ascii_digit}
use chatnoir_resiliparse.Record.Number.Agree.{content_length_agrees}
use chatnoir_resiliparse.Record.Parse.{
  State, is_version, seed, scan_item, scan_items, parse_warc_headers_with_opts,
}
use chatnoir_resiliparse.Record.Parse.Correct.{Ends, parse_warc_headers_reads}

abbrev text : Bytes
text = codes "\r\nWARC/1.1\r\nContent-Length: 3\r\n\r\nabc\r\n\r\n"

abbrev whole : LimitedBufReader ℕ
whole = record { inner = 0; limit = 1000; pos = 0 }

abbrev empty : WarcRecord ℕ
empty = record {
  record_type = WarcRecordType.no_type;
  headers = new unicode;
  quirks_mode = false;
  content_length = 0;
  is_http = false;
  http_parsed = false;
  http_charset = none;
  http_headers = none;
  reader = some (ReaderType.original whole);
  stream_pos = 0;
}

abbrev first : Result ℕ × WarcRecord ℕ
first = parse_warc_headers_with_opts (memory_read text) 200 false 32768 empty

first_count : first.0 ≡ ok 33
unfolding parse_warc_headers_with_opts with_reader read_line fill_buf consume set_limit sub_u64
    add_u64 memchr trim_ascii_end trim_ascii_start trim_ascii is_ascii_whitespace is_version
    bytes_eq starts_with seed trim_ascii_offsets clear parse_with_opts find_crlf ends_block
    next_line split_and_push_parsed_line slice tuple_key tuple_value items_bytes continue_last
    scan_item scan_items parse_u64 is_ascii_digit header_name
first_count = refl

first_length : first.1.content_length ≡ 3
unfolding parse_warc_headers_with_opts with_reader read_line fill_buf consume set_limit sub_u64
    add_u64 memchr trim_ascii_end trim_ascii_start trim_ascii is_ascii_whitespace is_version
    bytes_eq starts_with seed trim_ascii_offsets clear parse_with_opts find_crlf ends_block
    next_line split_and_push_parsed_line slice tuple_key tuple_value items_bytes continue_last
    scan_item scan_items parse_u64 is_ascii_digit header_name
first_length = refl

-- At the end of the stream, next_inplace finds no record behind the payload and the blank lines.
next_is_none : (next_inplace_impl (memory_read text) 200 32768 first.1).0 ≡ none
unfolding next_inplace_impl reset_limit parse_warc_headers_with_opts with_reader read_line fill_buf
    consume consume_n set_limit sub_u64 add_u64 memchr trim_ascii_end trim_ascii_start trim_ascii
    is_ascii_whitespace is_version bytes_eq starts_with seed trim_ascii_offsets clear
    parse_with_opts find_crlf ends_block next_line split_and_push_parsed_line slice tuple_key
    tuple_value items_bytes continue_last scan_item scan_items parse_u64 is_ascii_digit header_name
next_is_none = refl

content_fits : length (limited_content (rest text) whole) < 200
unfolding sub_u64
content_fits = omega arith

parse_warc_headers_reads_example :
    (x : Result ℕ × State (memory_read text) 200 false) × (first
      ≡ store (ReaderType.original whole) x)
    × Ends
        (memory_read text)
        (rest text)
        (memory-IsBufRead text)
        (memory-NeverFails text)
        (λ s. (min s (length text), s, refl, refl))
        (λ s. (none, s, refl, refl))
        200
        32768
        false
        1000
        (limited_content (rest text) whole)
        empty
        x
parse_warc_headers_reads_example =
    parse_warc_headers_reads (memory_read text) (rest text) (memory-IsBufRead text)
      (memory-NeverFails text) (λ s. (min s (length text), s, refl, refl))
      (λ s. (none, s, refl, refl)) 200 32768 false empty (ReaderType.original whole) refl
      content_fits

consume_n_drops_example :
    (r : LimitedBufReader ℕ) × (consume_n (memory_read text) 200 3 empty ≡ (
      ok (min 3 (length (limited_content (rest text) whole))),
      record empty { reader = some (ReaderType.original r) },
    ))
    × (limited_content (rest text) r ≡ drop 3 (limited_content (rest text) whole))
consume_n_drops_example =
    consume_n_drops (memory_read text) (rest text) (memory-IsBufRead text) (memory-NeverFails text)
      200 3 empty (ReaderType.original whole) refl content_fits

same_name : eq_ignore_ascii_case (codes "Response") (codes (as_str WarcRecordType.response)) ≡ true
unfolding eq_ignore_ascii_case bytes_eq to_lower to_ascii_lowercase as_str
same_name = refl

try_from-as_str_example :
    (try_from_bytes (codes "Response") ≡ some WarcRecordType.response)
    × (try_from_u16 (as_u16 WarcRecordType.response) ≡ some WarcRecordType.response)
try_from-as_str_example = try_from-as_str WarcRecordType.response (codes "Response") same_name

forty_two : parse_u64 (codes "42") ≡ some 42
unfolding parse_u64 is_ascii_digit
forty_two = refl

unsigned : starts_with (codes "42") (codes "+") ≡ false
unfolding starts_with
unsigned = refl

content_length_agrees_example : (parse_content_length_bytes (codes "42") ≡ 42) × (42 < u64_mod)
content_length_agrees_example = content_length_agrees (codes "42") 42 forty_two unsigned
