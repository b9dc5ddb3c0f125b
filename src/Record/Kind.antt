-- ===== src/Record/Kind.antt =====
-- fastwarc-rs/src/warc/record.rs: `WarcRecordType` as text and as a bit mask.
pub mod RoundTrip
use chatnoir_resiliparse.Prelude.{ℕ, Bool, not, String, Option, none, some, ◌==◌, if◌then◌else◌}
use chatnoir_resiliparse.Bytes.{Bytes, codes, bytes_eq, to_ascii_lowercase}
use chatnoir_resiliparse.Record.{WarcRecordType}

unfoldable pub as_str : WarcRecordType → String
as_str WarcRecordType.warc_info = "warcinfo"
as_str WarcRecordType.response = "response"
as_str WarcRecordType.resource = "resource"
as_str WarcRecordType.request = "request"
as_str WarcRecordType.metadata = "metadata"
as_str WarcRecordType.revisit = "revisit"
as_str WarcRecordType.conversion = "conversion"
as_str WarcRecordType.continuation = "continuation"
as_str _ = "unknown"

-- `TryFrom<&[u8]>`.
unfoldable pub try_from_bytes : Bytes → Option WarcRecordType
try_from_bytes value =
    let v = to_ascii_lowercase value in
    if bytes_eq v (codes "warcinfo")
    then some WarcRecordType.warc_info
    else if bytes_eq v (codes "response")
    then some WarcRecordType.response
    else if bytes_eq v (codes "resource")
    then some WarcRecordType.resource
    else if bytes_eq v (codes "request")
    then some WarcRecordType.request
    else if bytes_eq v (codes "metadata")
    then some WarcRecordType.metadata
    else if bytes_eq v (codes "revisit")
    then some WarcRecordType.revisit
    else if bytes_eq v (codes "conversion")
    then some WarcRecordType.conversion
    else if bytes_eq v (codes "continuation")
    then some WarcRecordType.continuation
    else if bytes_eq v (codes "unknown")
    then some WarcRecordType.unknown
    else none

-- `as u16`.
unfoldable pub as_u16 : WarcRecordType → ℕ
as_u16 WarcRecordType.warc_info = 2
as_u16 WarcRecordType.response = 4
as_u16 WarcRecordType.resource = 8
as_u16 WarcRecordType.request = 16
as_u16 WarcRecordType.metadata = 32
as_u16 WarcRecordType.revisit = 64
as_u16 WarcRecordType.conversion = 128
as_u16 WarcRecordType.continuation = 256
as_u16 WarcRecordType.unknown = 32768
as_u16 WarcRecordType.any_type = 65535
as_u16 WarcRecordType.no_type = 0

-- `TryFrom<u16>`.
unfoldable pub try_from_u16 : ℕ → Option WarcRecordType
try_from_u16 value =
    if value == 2
    then some WarcRecordType.warc_info
    else if value == 4
    then some WarcRecordType.response
    else if value == 8
    then some WarcRecordType.resource
    else if value == 16
    then some WarcRecordType.request
    else if value == 32
    then some WarcRecordType.metadata
    else if value == 64
    then some WarcRecordType.revisit
    else if value == 128
    then some WarcRecordType.conversion
    else if value == 256
    then some WarcRecordType.continuation
    else if value == 65535
    then some WarcRecordType.any_type
    else if value == 0
    then some WarcRecordType.no_type
    else none
