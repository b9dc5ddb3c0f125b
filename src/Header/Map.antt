-- ===== src/Header/Map.antt =====
-- fastwarc-rs/src/warc/header.rs: the operations of `HeaderMap` on keys and values given as bytes.
pub mod Lists
pub mod Laws
pub mod Valid
mod Tests
use chatnoir_resiliparse.Prelude.{
  ℕ, Bool, true, false, not, ◌&&◌, ◌||◌, Option, none, some, List, [], ◌∷◌, ◌++◌, ◌==◌,
  if◌then◌else◌, length, filter, find?, any, is_nil,
}
use mathlib.Core.List.{map}
use mathlib.Core.Option as O
use chatnoir_resiliparse.Bytes.{
  Bytes, bytes_eq, eq_ignore_ascii_case, to_ascii_lowercase, trim_ascii,
}
use chatnoir_resiliparse.Header.{
  HeaderMap, CowHeaderTuple, CowHeaderValue, as_slice, tuple_key, tuple_value,
}
use chatnoir_resiliparse.Header.Sanitize.{sanitize_header_value}

-- The predicate that the closures of `find`, `filter` and `any` compute.
unfoldable pub key_matches : Bytes → Bytes → CowHeaderTuple → Bool
key_matches raw key t = eq_ignore_ascii_case (tuple_key raw t) key

unfoldable pub get_bytes : Bytes → HeaderMap → Option Bytes
get_bytes key h =
    O.map (tuple_value h.raw_header_block) (find? (key_matches h.raw_header_block key) h.headers)

unfoldable pub get_bytes_multiple : Bytes → HeaderMap → List Bytes
get_bytes_multiple key h =
    map (tuple_value h.raw_header_block) (filter (key_matches h.raw_header_block key) h.headers)

unfoldable pub contains_key_bytes : Bytes → HeaderMap → Bool
contains_key_bytes key h = any (key_matches h.raw_header_block key) h.headers

-- The closure of `retain_mut`, run over the list with its flag `found`.
unfoldable pub retain_set :
    Bytes → Bytes → CowHeaderTuple → Bool → List CowHeaderTuple → List CowHeaderTuple × Bool
retain_set raw key_lower new found [] = ([], found)
retain_set raw key_lower new found (t ∷ ts) =
    let matched = bytes_eq (to_ascii_lowercase (tuple_key raw t)) key_lower in
    let (rest, found') = retain_set raw key_lower new (found || matched) ts in
    if not matched
    then (t ∷ rest, found')
    else if not found
    then (new ∷ rest, found')
    else (rest, found')

unfoldable pub set_bytes : Bytes → Bytes → HeaderMap → HeaderMap
unfolding retain_set
set_bytes key value h =
    let key_lower = sanitize_header_value (to_ascii_lowercase key) true in
    let new =
      CowHeaderTuple.owned (sanitize_header_value key true) (sanitize_header_value value false) in
    let (kept, found) = retain_set h.raw_header_block key_lower new false h.headers in
    record h { dirty = true; headers = if found then kept else kept ++ (new ∷ []) }

unfoldable pub append_bytes : Bytes → Bytes → HeaderMap → HeaderMap
append_bytes key value h = record h {
  dirty = true;
  headers =
      h.headers
      ++ (CowHeaderTuple.owned (sanitize_header_value key true) (sanitize_header_value value false)
          ∷ []);
}

unfoldable pub append_bytes_no_sanitize : Bytes → Bytes → HeaderMap → HeaderMap
append_bytes_no_sanitize key value h = record h {
  dirty = true;
  headers = h.headers ++ (CowHeaderTuple.owned (trim_ascii key) (trim_ascii value) ∷ []);
}

unfoldable pub remove_bytes : Bytes → HeaderMap → HeaderMap
remove_bytes key h =
    let key' = sanitize_header_value key true in
    let kept = filter (λ t. not (key_matches h.raw_header_block key' t)) h.headers in
    record h { headers = kept; dirty = if length kept == length h.headers then h.dirty else true }

unfoldable pub set_status_line_bytes : Bytes → HeaderMap → HeaderMap
set_status_line_bytes status_line h = record h {
  dirty = true;
  status_line = some (CowHeaderValue.owned (sanitize_header_value status_line true));
}

unfoldable pub status_line_bytes : HeaderMap → Option Bytes
status_line_bytes h = O.map (as_slice h.raw_header_block) h.status_line

unfoldable pub items_bytes : HeaderMap → List (Bytes × Bytes)
items_bytes h =
    map (λ t. (tuple_key h.raw_header_block t, tuple_value h.raw_header_block t)) h.headers

unfoldable pub keys_bytes : HeaderMap → List Bytes
keys_bytes h = map (tuple_key h.raw_header_block) h.headers

unfoldable pub values_bytes : HeaderMap → List Bytes
values_bytes h = map (tuple_value h.raw_header_block) h.headers

unfoldable pub len : HeaderMap → ℕ
len h = length h.headers

unfoldable pub is_empty : HeaderMap → Bool
is_empty h = is_nil h.headers
