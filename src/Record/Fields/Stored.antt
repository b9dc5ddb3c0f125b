-- ===== src/Record/Fields/Stored.antt =====
-- What a caller sets is what the headers of the record say.
use chatnoir_resiliparse.Prelude.{◌≡◌, refl, ap, ◌∙◌, true, false, some, [], ◌∷◌, if◌then◌else◌}
use chatnoir_resiliparse.Bytes.{
  Bytes, codes, eq_ignore_ascii_case, to_ascii_lowercase, to_lower, bytes_eq, trim_ascii,
  trim_ascii_start, trim_ascii_end, is_ascii_whitespace,
}
use chatnoir_resiliparse.Header.Sanitize.{sanitize_header_value, sanitize_bytes}
use chatnoir_resiliparse.Header.Map.{get_bytes, get_bytes_multiple, set_bytes}
use chatnoir_resiliparse.Header.Map.Laws.{get_bytes-eq-head, get_multiple-set, head_or_none}
use chatnoir_resiliparse.Record.{WarcRecordType, WarcRecord}
use chatnoir_resiliparse.Record.Kind.{as_str, try_from_bytes}
use chatnoir_resiliparse.Record.Kind.RoundTrip.{named, try_from-as_str}
use chatnoir_resiliparse.Record.Names.{WarcHeader, header_name}
use chatnoir_resiliparse.Record.Fields.{set_record_type}

abbrev pub type_key : Bytes
type_key = codes (header_name WarcHeader.warc_type)

key_stays : eq_ignore_ascii_case (sanitize_header_value type_key true) type_key ≡ true
unfolding header_name eq_ignore_ascii_case sanitize_header_value sanitize_bytes trim_ascii
    trim_ascii_start trim_ascii_end is_ascii_whitespace bytes_eq to_ascii_lowercase to_lower
key_stays = refl

-- The names of types are clean header values.
name_stays :
    (t : WarcRecordType)
    → eq_ignore_ascii_case (sanitize_header_value (codes (as_str t)) false) (codes (as_str t))
      ≡ true
unfolding as_str eq_ignore_ascii_case sanitize_header_value sanitize_bytes trim_ascii
    trim_ascii_start trim_ascii_end is_ascii_whitespace bytes_eq to_ascii_lowercase to_lower
name_stays WarcRecordType.warc_info = refl
name_stays WarcRecordType.response = refl
name_stays WarcRecordType.resource = refl
name_stays WarcRecordType.request = refl
name_stays WarcRecordType.metadata = refl
name_stays WarcRecordType.revisit = refl
name_stays WarcRecordType.conversion = refl
name_stays WarcRecordType.continuation = refl
name_stays WarcRecordType.unknown = refl
name_stays WarcRecordType.any_type = refl
name_stays WarcRecordType.no_type = refl

-- The type that is set is read back from the header, where the two types without a name are read as
-- unknown.
pub set_record_type_lem :
    {S : Type 0} (t : WarcRecordType) (rec : WarcRecord S)
    → ((set_record_type t rec).record_type ≡ t)
      × (v : Bytes) × (get_bytes type_key (set_record_type t rec).headers ≡ some v)
      × (try_from_bytes v ≡ some (named t))
unfolding set_record_type
set_record_type_lem t rec =
    let name = codes (as_str t) in
    let h = set_bytes type_key name rec.headers in
    (
      refl,
      sanitize_header_value name false,
      (get_bytes-eq-head type_key h).1
          ∙ ap head_or_none (get_multiple-set type_key name type_key rec.headers)
          ∙ ap
              (λ b. head_or_none (
                if b
                then sanitize_header_value name false ∷ []
                else get_bytes_multiple type_key rec.headers))
              key_stays,
      (try_from-as_str t (sanitize_header_value name false) (name_stays t)).0,
    )
