-- ===== src/Header/Text/Examples.antt =====
-- The theorems on text, applied to a small header map.
use chatnoir_resiliparse.Prelude.{◌≡◌, ◌↔◌, true, false, none, [], ◌∷◌, if◌then◌else◌}
use chatnoir_resiliparse.Bytes.{codes, eq_ignore_ascii_case}
use chatnoir_resiliparse.Header.{HeaderMap, HeaderEncoding, CowHeaderTuple, new}
use chatnoir_resiliparse.Header.Sanitize.{sanitize_header_value}
use chatnoir_resiliparse.Header.View.{view}
use chatnoir_resiliparse.Header.Text.{
  Codec, encode, decode, get_multiple, set, items, to_map, same_map,
}
use chatnoir_resiliparse.Header.Text.Laws.{
  get_multiple-set_text, lookup, joined, values_of, lookup-to_map, same_map_iff,
}

-- In windows-1252 an umlaut is one byte.
abbrev one_byte : Codec
one_byte = record { windows_1252_encode = λ b. 252 ∷ []; windows_1252_decode = λ b. b }

abbrev headers : HeaderMap
headers = record (new HeaderEncoding.latin1) {
  headers =
      CowHeaderTuple.owned (codes "Via") (codes "a")
      ∷ CowHeaderTuple.owned (codes "Age") (codes "1")
      ∷ CowHeaderTuple.owned (codes "VIA") (codes "b")
      ∷ [];
}

get_multiple-set_text_example :
    get_multiple one_byte (195 ∷ 188 ∷ []) (set one_byte (195 ∷ 188 ∷ []) (codes "v") headers) ≡ (
      if eq_ignore_ascii_case
        (sanitize_header_value (encode one_byte HeaderEncoding.latin1 (195 ∷ 188 ∷ [])) true)
        (195 ∷ 188 ∷ [])
      then decode one_byte HeaderEncoding.latin1
          (sanitize_header_value (encode one_byte HeaderEncoding.latin1 (codes "v")) false)
        ∷ []
      else get_multiple one_byte (195 ∷ 188 ∷ []) headers)
get_multiple-set_text_example =
    get_multiple-set_text one_byte (195 ∷ 188 ∷ []) (codes "v") (195 ∷ 188 ∷ []) headers

lookup-to_map_example :
    lookup (codes "via") (to_map one_byte headers)
    ≡ joined none (values_of (codes "via") (items one_byte headers))
lookup-to_map_example = lookup-to_map one_byte (codes "via") headers

same_map_iff_example :
    (same_map headers headers ≡ true)
    ↔ ((headers.encoding ≡ headers.encoding) × (view headers ≡ view headers))
same_map_iff_example = same_map_iff headers headers
