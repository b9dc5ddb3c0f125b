-- ===== src/Record/Names.antt =====
-- fastwarc-rs/src/warc/header.rs: `WarcHeader`, the names of the headers of the WARC standard.
use chatnoir_resiliparse.Prelude.{
  ◌≡◌, refl, sym, ap, ◌∙◌, true, String, Option, some, List, [], ◌∷◌, find?,
}
use chatnoir_resiliparse.Bytes.{
  Bytes, codes, bytes_eq, to_lower, to_ascii_lowercase, eq_ignore_ascii_case,
}
use chatnoir_resiliparse.Record.Kind.RoundTrip.{bytes_eq-same}

pub data WarcHeader : Type 0 where
  warc_type warc_record_id warc_date content_length content_type warc_concurrent_to : WarcHeader
  warc_block_digest warc_payload_digest warc_ip_address warc_refers_to : WarcHeader
  warc_refers_to_target_uri warc_refers_to_date warc_target_uri warc_truncated : WarcHeader
  warc_warcinfo_id warc_filename warc_profile warc_identified_payload_type : WarcHeader
  warc_segment_origin_id warc_segment_number warc_segment_total_length : WarcHeader

-- `WarcHeader::as_str`.
unfoldable pub header_name : WarcHeader → String
header_name WarcHeader.warc_type = "WARC-Type"
header_name WarcHeader.warc_record_id = "WARC-Record-ID"
header_name WarcHeader.warc_date = "WARC-Date"
header_name WarcHeader.content_length = "Content-Length"
header_name WarcHeader.content_type = "Content-Type"
header_name WarcHeader.warc_concurrent_to = "WARC-Concurrent-To"
header_name WarcHeader.warc_block_digest = "WARC-Block-Digest"
header_name WarcHeader.warc_payload_digest = "WARC-Payload-Digest"
header_name WarcHeader.warc_ip_address = "WARC-IP-Address"
header_name WarcHeader.warc_refers_to = "WARC-Refers-To"
header_name WarcHeader.warc_refers_to_target_uri = "WARC-Refers-To-Target-URI"
header_name WarcHeader.warc_refers_to_date = "WARC-Refers-To-Date"
header_name WarcHeader.warc_target_uri = "WARC-Target-URI"
header_name WarcHeader.warc_truncated = "WARC-Truncated"
header_name WarcHeader.warc_warcinfo_id = "WARC-Warcinfo-ID"
header_name WarcHeader.warc_filename = "WARC-Filename"
header_name WarcHeader.warc_profile = "WARC-Profile"
header_name WarcHeader.warc_identified_payload_type = "WARC-Identified-Payload-Type"
header_name WarcHeader.warc_segment_origin_id = "WARC-Segment-Origin-ID"
header_name WarcHeader.warc_segment_number = "WARC-Segment-Number"
header_name WarcHeader.warc_segment_total_length = "WARC-Segment-Total-Length"

abbrev all_headers : List WarcHeader
all_headers =
    WarcHeader.warc_type ∷ WarcHeader.warc_record_id ∷ WarcHeader.warc_date
    ∷ WarcHeader.content_length ∷ WarcHeader.content_type ∷ WarcHeader.warc_concurrent_to
    ∷ WarcHeader.warc_block_digest ∷ WarcHeader.warc_payload_digest ∷ WarcHeader.warc_ip_address
    ∷ WarcHeader.warc_refers_to ∷ WarcHeader.warc_refers_to_target_uri
    ∷ WarcHeader.warc_refers_to_date ∷ WarcHeader.warc_target_uri ∷ WarcHeader.warc_truncated
    ∷ WarcHeader.warc_warcinfo_id ∷ WarcHeader.warc_filename ∷ WarcHeader.warc_profile
    ∷ WarcHeader.warc_identified_payload_type ∷ WarcHeader.warc_segment_origin_id
    ∷ WarcHeader.warc_segment_number ∷ WarcHeader.warc_segment_total_length ∷ []

-- The header of a name in lower case.
abbrev with_name : Bytes → Option WarcHeader
with_name v = find? (λ h. bytes_eq v (to_ascii_lowercase (codes (header_name h)))) all_headers

with_name-header_name :
    (h : WarcHeader) → with_name (to_ascii_lowercase (codes (header_name h))) ≡ some h
unfolding header_name bytes_eq to_ascii_lowercase to_lower
with_name-header_name WarcHeader.warc_type = refl
with_name-header_name WarcHeader.warc_record_id = refl
with_name-header_name WarcHeader.warc_date = refl
with_name-header_name WarcHeader.content_length = refl
with_name-header_name WarcHeader.content_type = refl
with_name-header_name WarcHeader.warc_concurrent_to = refl
with_name-header_name WarcHeader.warc_block_digest = refl
with_name-header_name WarcHeader.warc_payload_digest = refl
with_name-header_name WarcHeader.warc_ip_address = refl
with_name-header_name WarcHeader.warc_refers_to = refl
with_name-header_name WarcHeader.warc_refers_to_target_uri = refl
with_name-header_name WarcHeader.warc_refers_to_date = refl
with_name-header_name WarcHeader.warc_target_uri = refl
with_name-header_name WarcHeader.warc_truncated = refl
with_name-header_name WarcHeader.warc_warcinfo_id = refl
with_name-header_name WarcHeader.warc_filename = refl
with_name-header_name WarcHeader.warc_profile = refl
with_name-header_name WarcHeader.warc_identified_payload_type = refl
with_name-header_name WarcHeader.warc_segment_origin_id = refl
with_name-header_name WarcHeader.warc_segment_number = refl
with_name-header_name WarcHeader.warc_segment_total_length = refl

-- Two headers of the WARC standard whose names differ at most in the case of their letters are the
-- same header, so that a header map, which ignores case, keeps the headers apart.
header_name_distinct :
    (a b : WarcHeader)
    → eq_ignore_ascii_case (codes (header_name a)) (codes (header_name b)) ≡ true
    → a ≡ b
unfolding eq_ignore_ascii_case
header_name_distinct a b e =
    let same =
      bytes_eq-same (to_ascii_lowercase (codes (header_name a)))
        (to_ascii_lowercase (codes (header_name b))) e in
    let found : some a ≡ some b =
      sym (with_name-header_name a) ∙ ap with_name same ∙ with_name-header_name b in
    cc
