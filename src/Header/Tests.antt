-- ===== src/Header/Tests.antt =====
-- The header map on concrete blocks, and the theorems about it at inputs that meet their conditions.
use chatnoir_resiliparse.Prelude.{
  ℕ, ◌≡◌, refl, true, false, none, some, List, [], ◌∷◌, ◌++◌, arith, length,
}
use chatnoir_resiliparse.Bytes.{
  Bytes, codes, is_ascii_whitespace, trim_ascii, trim_ascii_start, trim_ascii_end, to_lower,
  to_ascii_lowercase, bytes_eq, memchr, find_crlf, slice,
}
use chatnoir_resiliparse.Io.{ok, err, invalid_data}
use chatnoir_resiliparse.Io.Cursor.{
  concat, pieces, pieces-IsBufRead, pieces-NeverFails, first_piece, drop_pieces, vec, vec-IsWrite,
}
use chatnoir_resiliparse.Header.{
  HeaderMap, CowHeaderValue, CowHeaderTuple, unicode, latin1, new, as_slice, tuple_key, tuple_value,
  trim_ascii_offsets,
}
use chatnoir_resiliparse.Header.Correct.{Parsed, parse_reads, parse_succeeds}
use chatnoir_resiliparse.Header.Map.{set_bytes}
use chatnoir_resiliparse.Header.Parse.{
  parse_with_opts, preserve_prefix, split_and_push_parsed_line, next_line, ends_block,
}
use chatnoir_resiliparse.Header.Sanitize.{sanitize_header_value}
use chatnoir_resiliparse.Header.View.{Block, view}
use chatnoir_resiliparse.Header.Write.{write}
use chatnoir_resiliparse.Header.Write.Render.{rendered, render, write_renders}
use chatnoir_resiliparse.Header.Write.Items.{IsWritable, has_status}
use chatnoir_resiliparse.Header.Write.RoundTrip.{parse-write}

abbrev text : List Bytes
text =
    codes "HTTP/1.1 200 OK\r"
    ∷ codes "\nContent-Type: text/html \r\nX: a\r\n"
    ∷ codes " b\r\nNo colon\r\n\r"
    ∷ codes "\nbody"
    ∷ []

abbrev parsed_block : Block
parsed_block = record {
  status = some (codes "HTTP/1.1 200 OK");
  items = (codes "Content-Type", codes "text/html") ∷ (codes "X", codes "a b") ∷ [];
}

parse-text : view (parse_with_opts pieces 10 true 32768 false (new latin1) text).0.1 ≡ parsed_block
unfolding parse_with_opts first_piece drop_pieces split_and_push_parsed_line next_line ends_block
    find_crlf memchr trim_ascii_offsets trim_ascii_start trim_ascii_end trim_ascii
    is_ascii_whitespace slice view as_slice tuple_key tuple_value
parse-text = refl

-- A block that is not in the view of a map is split at once, or byte by byte, with one result.
abbrev quirky : List Bytes
quirky = codes "A: 1\nB:2\r" ∷ codes "\n \t\nrest" ∷ []

parse_quirks :
    view (parse_with_opts pieces 10 false 32768 true (new unicode) quirky).0.1
    ≡ record { status = none; items = (codes "A", codes "1") ∷ (codes "B", codes "2") ∷ [] }
unfolding parse_with_opts first_piece drop_pieces split_and_push_parsed_line next_line ends_block
    find_crlf memchr trim_ascii_offsets trim_ascii_start trim_ascii_end trim_ascii
    is_ascii_whitespace slice view as_slice tuple_key tuple_value
parse_quirks = refl

-- The limit test adds the whole chunk, so a block that would fit is refused.
over_limit :
    (parse_with_opts pieces 10 false 16 false (new unicode) (codes "A: 1\r\nB: 2\r" ∷ [])).0.0
    ≡ err invalid_data
unfolding parse_with_opts first_piece drop_pieces split_and_push_parsed_line next_line ends_block
    find_crlf memchr trim_ascii_offsets trim_ascii_start trim_ascii_end trim_ascii
    is_ascii_whitespace slice
over_limit = refl

parse_reads_example :
    Parsed false true
      (new latin1)
      (concat text)
      65
      (parse_with_opts pieces 10 true 32768 false (new latin1) text).0.1
      (codes "body")
unfolding parse_with_opts first_piece drop_pieces split_and_push_parsed_line next_line ends_block
    find_crlf memchr trim_ascii_offsets trim_ascii_start trim_ascii_end trim_ascii
    is_ascii_whitespace slice preserve_prefix
parse_reads_example =
    parse_reads pieces concat pieces-IsBufRead 10 32768 true false (new latin1) text (λ keep. cc) 65
      (parse_with_opts pieces 10 true 32768 false (new latin1) text).0.1
      (parse_with_opts pieces 10 true 32768 false (new latin1) text).1 refl

parse_succeeds_example :
    (n : ℕ) × (h' : HeaderMap) × (s' : List Bytes) × (parse_with_opts pieces 100 true 32768 false
        (new latin1)
        text
      ≡ ((ok n, h'), s'))
unfolding preserve_prefix
parse_succeeds_example =
    parse_succeeds pieces concat pieces-IsBufRead 100 32768 true false (new latin1) text
      (λ keep. cc) pieces-NeverFails (omega arith) (omega arith)

-- A map as it is built from scratch.
abbrev pub sample : HeaderMap
sample = record {
  encoding = unicode;
  dirty = true;
  raw_header_block = [];
  status_line = some (CowHeaderValue.owned (codes "WARC/1.1"));
  headers =
      CowHeaderTuple.owned (codes "WARC-Type") (codes "response")
      ∷ CowHeaderTuple.owned (codes "Content-Length") (codes "12")
      ∷ [];
}

abbrev sample_text : List Bytes
sample_text =
    codes "WARC/1.1\r"
    ∷ codes "\nWARC-Type: response\r\nContent-Le"
    ∷ codes "ngth: 12\r\n\r\n"
    ∷ codes "rest"
    ∷ []

sample_set : view (set_bytes (codes "warc-type") (codes " request\n") sample) ≡ record {
  status = some (codes "WARC/1.1");
  items = (codes "warc-type", codes "request") ∷ (codes "Content-Length", codes "12") ∷ [];
}
unfolding set_bytes sanitize_header_value trim_ascii trim_ascii_start trim_ascii_end
    is_ascii_whitespace to_lower to_ascii_lowercase bytes_eq view as_slice tuple_key tuple_value
sample_set = refl

sample-IsWritable : IsWritable (view sample)
unfolding view as_slice tuple_key tuple_value trim_ascii_start trim_ascii_end is_ascii_whitespace
sample-IsWritable = record {
  status_plain = (
    refl,
    record { trimmed = record { start_stays = refl; end_stays = refl }; one_line = ground arith },
  );
  items_plain = (
    record {
      key_present = refl;
      key_plain = record {
        trimmed = record { start_stays = refl; end_stays = refl };
        one_line = ground arith;
      };
      no_colon = ground arith;
      value_plain = record {
        trimmed = record { start_stays = refl; end_stays = refl };
        one_line = ground arith;
      };
    },
    (
      record {
        key_present = refl;
        key_plain = record {
          trimmed = record { start_stays = refl; end_stays = refl };
          one_line = ground arith;
        };
        no_colon = ground arith;
        value_plain = record {
          trimmed = record { start_stays = refl; end_stays = refl };
          one_line = ground arith;
        };
      },
      tt,
    ),
  );
}

parse-write_example :
    (h' : HeaderMap) × (s' : List Bytes) × (parse_with_opts pieces 100
        (has_status (view sample))
        32768
        false
        (new unicode)
        sample_text
      ≡ ((ok 53, h'), s'))
    × (view h' ≡ view sample)
    × (concat s' ≡ codes "rest")
unfolding write rendered render view as_slice tuple_key tuple_value
parse-write_example =
    parse-write pieces concat pieces-IsBufRead pieces-NeverFails 100 32768 false unicode vec
      (λ w. w) vec-IsWrite sample 53 (codes "x") (codes "x" ++ rendered sample) (codes "rest")
      sample_text sample-IsWritable refl refl refl (omega arith) (omega arith)

write_renders_example :
    (codes "x" ++ rendered sample ≡ codes "x" ++ rendered sample) × (length (rendered sample) ≡ 53)
unfolding write rendered render view as_slice tuple_key tuple_value
write_renders_example =
    write_renders vec (λ w. w) vec-IsWrite sample 53 (codes "x") (codes "x" ++ rendered sample) refl
