-- ===== src/Header/Map/Tests.antt =====
-- The theorems on the operations of the header map, at concrete inputs.
use chatnoir_resiliparse.Prelude.{◌≡◌, true, false, [], ◌∷◌, ◌++◌, not, ◌||◌, length, is_nil, ◌==◌}
use chatnoir_resiliparse.Bytes.{
  codes, is_ascii_whitespace, trim_ascii, trim_ascii_start, trim_ascii_end, to_lower,
  to_ascii_lowercase, bytes_eq, eq_ignore_ascii_case,
}
use chatnoir_resiliparse.Header.{HeaderMap}
use chatnoir_resiliparse.Header.Text.{Codec, remove}
use chatnoir_resiliparse.Header.Map.{
  get_bytes, get_bytes_multiple, contains_key_bytes, set_bytes, append_bytes, remove_bytes,
  items_bytes,
}
use chatnoir_resiliparse.Header.Map.Laws.{
  ValuesOf, head_or_none, get_bytes-eq-head, get_multiple-set, get_multiple-append,
  get_multiple-remove,
}
use chatnoir_resiliparse.Header.Map.Valid.{Edit, Edits, operations-IsValid}
use chatnoir_resiliparse.Header.Sanitize.{sanitize_header_value}
use chatnoir_resiliparse.Header.Sanitize.Laws.{Lacks}
use chatnoir_resiliparse.Header.Sanitize.Normal.{sanitize_value_normal}
use chatnoir_resiliparse.Header.View.{IsValid}
use chatnoir_resiliparse.Header.Tests.{sample}

get_bytes-eq-head_example :
    ValuesOf (codes "x") (items_bytes sample) (get_bytes_multiple (codes "x") sample)
    × (get_bytes (codes "x") sample ≡ head_or_none (get_bytes_multiple (codes "x") sample))
    × (contains_key_bytes (codes "x") sample ≡ not (is_nil (get_bytes_multiple (codes "x") sample)))
get_bytes-eq-head_example = get_bytes-eq-head (codes "x") sample

get_multiple-set_example :
    get_bytes_multiple
      (codes "WARC-TYPE")
      (set_bytes (codes " warc-type") (codes "request\r\n") sample)
    ≡ codes "request" ∷ []
unfolding sanitize_header_value trim_ascii trim_ascii_start trim_ascii_end is_ascii_whitespace
    to_lower to_ascii_lowercase bytes_eq eq_ignore_ascii_case
get_multiple-set_example =
    get_multiple-set (codes " warc-type") (codes "request\r\n") (codes "WARC-TYPE") sample

get_multiple-append_example :
    get_bytes_multiple (codes "Via") (append_bytes (codes "via") (codes "a") sample)
    ≡ get_bytes_multiple (codes "Via") sample ++ (codes "a" ∷ [])
unfolding sanitize_header_value trim_ascii trim_ascii_start trim_ascii_end is_ascii_whitespace
    to_lower to_ascii_lowercase bytes_eq eq_ignore_ascii_case
get_multiple-append_example = get_multiple-append (codes "via") (codes "a") (codes "Via") sample

get_multiple-remove_example :
    (get_bytes_multiple (codes "WARC-Type") (remove_bytes (codes "warc-type") sample) ≡ [])
    × ((remove_bytes (codes "warc-type") sample).dirty
        ≡ (true || not (length (remove_bytes (codes "warc-type") sample).headers == 2)))
unfolding sanitize_header_value trim_ascii trim_ascii_start trim_ascii_end is_ascii_whitespace
    to_lower to_ascii_lowercase bytes_eq eq_ignore_ascii_case
get_multiple-remove_example = get_multiple-remove (codes "warc-type") (codes "WARC-Type") sample

abbrev same_codec : Codec
same_codec = record { windows_1252_encode = λ b. b; windows_1252_decode = λ b. b }

abbrev edited : HeaderMap
edited = remove same_codec (codes "b") (set_bytes (codes "a") (codes "b") sample)

operations-IsValid_example : IsValid edited
operations-IsValid_example =
    operations-IsValid same_codec sample edited
      (Edits.then_edit sample (set_bytes (codes "a") (codes "b") sample) edited
        (Edits.then_edit sample sample (set_bytes (codes "a") (codes "b") sample)
          (Edits.unedited sample) (Edit.set_raw (codes "a") (codes "b") sample))
        (Edit.remove_text (codes "b") (set_bytes (codes "a") (codes "b") sample)))
      (record { status_in_block = tt; headers_in_block = (tt, (tt, tt)) })

sanitize_value_normal_example :
    (trim_ascii (sanitize_header_value (codes " a\r\nb ") false)
      ≡ sanitize_header_value (codes " a\r\nb ") false)
    × Lacks b'\r' (sanitize_header_value (codes " a\r\nb ") false)
    × Lacks b'\n' (sanitize_header_value (codes " a\r\nb ") false)
    × (sanitize_header_value (sanitize_header_value (codes " a\r\nb ") false) false
        ≡ sanitize_header_value (codes " a\r\nb ") false)
sanitize_value_normal_example = sanitize_value_normal (codes " a\r\nb ")
