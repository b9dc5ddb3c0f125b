-- ===== src/Record/Fields.antt =====
-- fastwarc-rs/src/warc/record.rs: the parts of a record that a caller sets, and equality of records.
pub mod Stored
use chatnoir_resiliparse.Prelude.{
  ℕ, zero, suc, ◌+◌, Bool, true, false, not, ◌&&◌, ◌||◌, Option, none, some, [], ◌∷◌, ◌++◌, ◌==◌,
  if◌then◌else◌, ltb, length, take, drop,
}
use mathlib.Core.Option as O
use chatnoir_resiliparse.Bytes.{Bytes, codes, bytes_eq, trim_ascii, memchr}
use chatnoir_resiliparse.Bytes.Utf8.{from_utf8_lossy}
use chatnoir_resiliparse.Header.{HeaderMap, clear}
use chatnoir_resiliparse.Header.Map.{set_bytes, append_bytes_no_sanitize, set_status_line_bytes}
use chatnoir_resiliparse.Header.Text.{Codec, get, set, same_map}
use chatnoir_resiliparse.StreamIo.{WarcRead}
use chatnoir_resiliparse.Record.{WarcRecordType, WarcRecord}
use chatnoir_resiliparse.Record.Kind.{as_str, as_u16}
use chatnoir_resiliparse.Record.Names.{WarcHeader, header_name}
use chatnoir_resiliparse.Record.Boxes.{Boxes}
use chatnoir_resiliparse.Record.Payload.{is_frozen, frozen_payload_bytes}

abbrev key_of : WarcHeader → Bytes
key_of h = codes (header_name h)

-- The Content-Type of an HTTP record.
unfoldable pub http_media_type : WarcRecordType → Bytes
http_media_type WarcRecordType.request = codes "application/http; msgtype=request"
http_media_type WarcRecordType.response = codes "application/http; msgtype=response"
http_media_type _ = codes "application/http"

-- `_clean_iso_datetime`: none where `split_at` panics, since there are fewer than nine digits.
abbrev cleaned : Bytes → Bytes → Option Bytes
cleaned datetime rest =
    let trimmed = take 6 rest in
    let offset = drop 9 rest in
    if ltb (length rest) 9
    then none
    else if bytes_eq trimmed (codes "000000")
    then some (datetime ++ offset)
    else some (datetime ++ (b'.' ∷ (trimmed ++ offset)))

unfoldable pub clean_iso_datetime : Bytes → Option Bytes
clean_iso_datetime date = elim (memchr b'.' date) [
  | none ↦ some date
  | some at ↦ cleaned (take at date) (drop (at + 1) date)
]

abbrev initial_type : WarcRecordType → WarcRecordType
initial_type WarcRecordType.any_type = WarcRecordType.unknown
initial_type t = t

abbrev urn_or_new : Option Bytes → Bytes → Bytes
urn_or_new (some urn) uuid = urn
urn_or_new none uuid = codes "uuid:" ++ uuid

abbrev initial_headers : WarcRecordType → Bytes → Bytes → HeaderMap → HeaderMap
initial_headers t date urn h =
    append_bytes_no_sanitize (key_of WarcHeader.content_length) (codes "0") (
      append_bytes_no_sanitize (key_of WarcHeader.warc_record_id)
        (codes "<urn:" ++ (from_utf8_lossy urn ++ codes ">"))
        (append_bytes_no_sanitize (key_of WarcHeader.warc_date) date (
          append_bytes_no_sanitize (key_of WarcHeader.warc_type) (codes (as_str t))
            (set_status_line_bytes (codes "WARC/1.1") (clear h)))))

module _ {S : Type 0} where
  unfoldable pub set_record_type : WarcRecordType → WarcRecord S → WarcRecord S
  set_record_type t rec = record rec {
    record_type = t;
    headers = set_bytes (key_of WarcHeader.warc_type) (codes (as_str t)) rec.headers;
  }

  unfoldable pub set_is_http : Bool → WarcRecord S → WarcRecord S
  unfolding http_media_type
  set_is_http b rec =
      if b
      then record rec {
        is_http = true;
        headers =
            set_bytes (key_of WarcHeader.content_type) (http_media_type rec.record_type)
              rec.headers;
      }
      else record rec { is_http = false }

  -- The date is given as it is formatted.
  abbrev with_date : WarcRecord S → Option Bytes → Option (WarcRecord S)
  with_date rec none = none
  with_date rec (some date) =
      some (record rec { headers = set_bytes (key_of WarcHeader.warc_date) date rec.headers })

  unfoldable pub set_record_date : Bytes → WarcRecord S → Option (WarcRecord S)
  unfolding clean_iso_datetime
  set_record_date formatted rec = with_date rec (clean_iso_datetime formatted)

  abbrev with_initial : WarcRecordType → Bytes → WarcRecord S → Option Bytes → Option (WarcRecord S)
  with_initial t urn rec none = none
  with_initial t urn rec (some date) =
      some (record rec { record_type = t; headers = initial_headers t date urn rec.headers })

  -- `now` is the time as it is formatted, and `uuid` a new random one.
  unfoldable pub init_headers :
      Bytes → Bytes → WarcRecordType → Option Bytes → WarcRecord S → Option (WarcRecord S)
  unfolding clean_iso_datetime
  init_headers now uuid t urn rec =
      with_initial (initial_type t) (urn_or_new urn uuid) rec (clean_iso_datetime now)

  module _ (codec : Codec) where
    unfoldable pub record_id : WarcRecord S → Option Bytes
    record_id rec = get codec (key_of WarcHeader.warc_record_id) rec.headers

    unfoldable pub set_record_id : Bytes → WarcRecord S → WarcRecord S
    set_record_id id rec = record rec {
      headers = set codec (key_of WarcHeader.warc_record_id) id rec.headers;
    }

abbrev same_bool : Bool → Bool → Bool
same_bool true b = b
same_bool false b = not b

abbrev same_text : Option Bytes → Option Bytes → Bool
same_text none none = true
same_text (some a) (some b) = bytes_eq a b
same_text _ _ = false

abbrev same_headers : Option HeaderMap → Option HeaderMap → Bool
same_headers none none = true
same_headers (some a) (some b) = same_map a b
same_headers _ _ = false

-- `PartialEq`: records that are not frozen are never equal. Record types are compared by their
-- numbers, which are distinct.
unfoldable pub same_record :
    {S : Type 0} → WarcRead S → Boxes S → ℕ → ℕ → WarcRecord S → WarcRecord S → Bool
same_record reader boxes len fuel a b =
    if not (is_frozen a) || not (is_frozen b)
    then false
    else (as_u16 a.record_type == as_u16 b.record_type
        && same_map a.headers b.headers
        && a.content_length == b.content_length
        && same_bool a.is_http b.is_http
        && same_bool a.http_parsed b.http_parsed
        && same_text a.http_charset b.http_charset
        && same_headers a.http_headers b.http_headers
        && same_text (frozen_payload_bytes reader boxes len fuel a)
            (frozen_payload_bytes reader boxes len fuel b))
