-- ===== src/Iter/Filter.antt =====
-- fastwarc-rs/src/warc/iter.rs: `FilteredArchiveIterator` and the predicates to filter by.
pub mod Finds
use Prim.Native.Nat.{bit_and, bit_or, bit_xor}
use chatnoir_resiliparse.Prelude.{
  ℕ, zero, suc, ◌-◌, Bool, true, false, not, Option, none, some, ◌==◌, if◌then◌else◌, leb,
}
use mathlib.Core.Option as O
use chatnoir_resiliparse.Bytes.{Bytes, codes, bytes_eq}
use chatnoir_resiliparse.Io.{Result, ok, err, other}
use chatnoir_resiliparse.Header.Map.{status_line_bytes, contains_key_bytes}
use chatnoir_resiliparse.Header.Text.{Codec}
use chatnoir_resiliparse.StreamIo.{WarcRead}
use chatnoir_resiliparse.Record.{WarcRecordType, WarcRecord}
use chatnoir_resiliparse.Record.Kind.{as_u16}
use chatnoir_resiliparse.Record.Names.{WarcHeader, header_name}
use chatnoir_resiliparse.Record.Boxes.{Boxes}
use chatnoir_resiliparse.Record.Digest.{
  Hashing, Verdict, verify_block_digest, verify_payload_digest,
}
use chatnoir_resiliparse.Iter.{ArchiveIterator}

-- `WarcRecordType::matches_bitmask`, and the operators on types.
unfoldable pub matches_bitmask : WarcRecordType → ℕ → Bool
matches_bitmask t mask = not (bit_and (as_u16 t) mask == 0)

unfoldable pub type_or : WarcRecordType → WarcRecordType → ℕ
type_or a b = bit_or (as_u16 a) (as_u16 b)

unfoldable pub type_and : WarcRecordType → WarcRecordType → ℕ
type_and a b = bit_and (as_u16 a) (as_u16 b)

unfoldable pub type_xor : WarcRecordType → WarcRecordType → ℕ
type_xor a b = bit_xor (as_u16 a) (as_u16 b)

unfoldable pub type_not : WarcRecordType → ℕ
type_not a = 65535 - as_u16 a

abbrev line_is : Bytes → Option Bytes → Bool
line_is v none = false
line_is v (some s) = bytes_eq s v

module _ {S : Type 0} where
  unfoldable pub is_warc_10 : WarcRecord S → Bool
  is_warc_10 rec = line_is (codes "WARC/1.0") (status_line_bytes rec.headers)

  unfoldable pub is_warc_11 : WarcRecord S → Bool
  is_warc_11 rec = line_is (codes "WARC/1.1") (status_line_bytes rec.headers)

  unfoldable pub has_block_digest : WarcRecord S → Bool
  has_block_digest rec =
      contains_key_bytes (codes (header_name WarcHeader.warc_block_digest)) rec.headers

  unfoldable pub has_payload_digest : WarcRecord S → Bool
  has_payload_digest rec =
      contains_key_bytes (codes (header_name WarcHeader.warc_payload_digest)) rec.headers

  unfoldable pub is_concurrent : WarcRecord S → Bool
  is_concurrent rec =
      contains_key_bytes (codes (header_name WarcHeader.warc_concurrent_to)) rec.headers

  unfoldable pub has_record_type : ℕ → WarcRecord S → Bool
  has_record_type mask rec = not (bit_and (as_u16 rec.record_type) mask == 0)

  unfoldable pub has_content_length_lte : ℕ → WarcRecord S → Bool
  has_content_length_lte max rec = leb rec.content_length max

  unfoldable pub has_content_length_gte : ℕ → WarcRecord S → Bool
  has_content_length_gte min rec = leb min rec.content_length

module _ {S : Type 0} (reader : WarcRead S) (boxes : Boxes S) (codec : Codec) (hashing : Hashing)
    (len fuel : ℕ) where
  -- `unwrap_or(false)`, with the record that the filter has changed.
  abbrev decided : Verdict × WarcRecord S → Bool × WarcRecord S
  decided (Verdict.verdict b, rec) = (b, rec)
  decided (Verdict.undecided e, rec) = (false, rec)

  unfoldable pub has_valid_block_digest : WarcRecord S → Bool × WarcRecord S
  has_valid_block_digest rec =
      decided (verify_block_digest reader boxes codec hashing len fuel false rec)

  unfoldable pub has_valid_payload_digest : WarcRecord S → Bool × WarcRecord S
  has_valid_payload_digest rec =
      decided (verify_payload_digest reader boxes codec hashing len fuel false rec)

-- `next` of the filtered iterator, over `next` of the iterator inside and a predicate that may
-- change the record.
module _ {S : Type 0}
    (inner_next : ArchiveIterator S → Option (Result (WarcRecord S)) × ArchiveIterator S)
    (pred : WarcRecord S → Bool × WarcRecord S) where
  abbrev pub on_pred :
      (ArchiveIterator S → Option (Result (WarcRecord S)) × ArchiveIterator S)
      → ArchiveIterator S
      → Bool × WarcRecord S
      → Option (Result (WarcRecord S)) × ArchiveIterator S
  on_pred loop it (false, rec) = loop (record it { cur = rec })
  on_pred loop it (true, rec) = (some (ok rec), record it { cur = rec })

  unfoldable pub on_inner :
      (ArchiveIterator S → Option (Result (WarcRecord S)) × ArchiveIterator S)
      → Option (Result (WarcRecord S)) × ArchiveIterator S
      → Option (Result (WarcRecord S)) × ArchiveIterator S
  on_inner loop (none, it) = (none, it)
  on_inner loop (some (err e), it) = (some (err e), it)
  on_inner loop (some (ok rec), it) = on_pred loop it (pred it.cur)

  unfoldable pub filtered_next :
      ℕ → ArchiveIterator S → Option (Result (WarcRecord S)) × ArchiveIterator S
  unfolding on_inner
  filtered_next zero it = (some (err other), it)
  filtered_next (suc n) it = on_inner (filtered_next n) (inner_next it)
