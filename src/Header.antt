-- ===== src/Header.antt =====
-- fastwarc-rs/src/warc/header.rs: the header map. A key or a value is a pair of offsets into the raw
-- header block, or bytes of its own.
pub mod Sanitize
pub mod Map
pub mod Parse
pub mod Write
pub mod View
pub mod Text
pub mod Correct
mod Tests
use chatnoir_resiliparse.Prelude.{
  ℕ, ◌+◌, ◌-◌, Bool, true, false, not, ◌&&◌, Option, none, some, List, [], ◌∷◌, ◌++◌, ◌==◌,
  if◌then◌else◌, length, take,
}
use chatnoir_resiliparse.Bytes.{Bytes, slice, trim_ascii, trim_ascii_start, trim_ascii_end}

pub data HeaderEncoding : Type 0 where
  unicode latin1 : HeaderEncoding

abbrev pub HeaderOffset : Type 0
HeaderOffset = ℕ × ℕ

pub data CowHeaderValue : Type 0 where
  offsets : HeaderOffset → CowHeaderValue
  owned : Bytes → CowHeaderValue

pub data CowHeaderTuple : Type 0 where
  offsets : HeaderOffset → HeaderOffset → CowHeaderTuple
  owned : Bytes → Bytes → CowHeaderTuple

abbrev pub offset_slice : Bytes → HeaderOffset → Bytes
offset_slice buf o = slice buf o.0 o.1

unfoldable pub as_slice : Bytes → CowHeaderValue → Bytes
as_slice raw (CowHeaderValue.offsets o) = offset_slice raw o
as_slice raw (CowHeaderValue.owned v) = v

unfoldable pub tuple_key : Bytes → CowHeaderTuple → Bytes
tuple_key raw (CowHeaderTuple.offsets k v) = offset_slice raw k
tuple_key raw (CowHeaderTuple.owned k v) = k

unfoldable pub tuple_value : Bytes → CowHeaderTuple → Bytes
tuple_value raw (CowHeaderTuple.offsets k v) = offset_slice raw v
tuple_value raw (CowHeaderTuple.owned k v) = v

-- `_trim_ascii_offsets`.
unfoldable pub trim_ascii_offsets : Bytes → HeaderOffset
trim_ascii_offsets value =
    let end = length (trim_ascii_end value) in
    let kept = take end value in (length kept - length (trim_ascii_start kept), end)

pub record HeaderMap : Type 0 where
  pub encoding : HeaderEncoding
  pub dirty : Bool
  pub raw_header_block : Bytes
  pub status_line : Option CowHeaderValue
  pub headers : List CowHeaderTuple

-- `HeaderMap::new`.
abbrev pub new : HeaderEncoding → HeaderMap
new e = record {
  encoding = e;
  dirty = false;
  raw_header_block = [];
  status_line = none;
  headers = [];
}

-- `HeaderMap::clear`.
unfoldable pub clear : HeaderMap → HeaderMap
clear h = record h { dirty = false; raw_header_block = []; headers = []; status_line = none }
