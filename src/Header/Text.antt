-- ===== src/Header/Text.antt =====
-- fastwarc-rs/src/warc/header.rs: the operations of `HeaderMap` on keys and values given as text.
-- A `str` is its bytes in UTF-8.
pub mod Laws
mod Examples
use chatnoir_resiliparse.Prelude.{
  ℕ, Bool, true, false, not, ◌&&◌, Option, none, some, List, [], ◌∷◌, ◌++◌, ◌+◌, ltb, ◌==◌,
  if◌then◌else◌, length, take, drop,
}
use mathlib.Core.List.{map}
use mathlib.Core.Option as O
use chatnoir_resiliparse.Bytes.{Bytes, codes, bytes_eq, eq_ignore_ascii_case, starts_with, memchr}
use chatnoir_resiliparse.Bytes.Utf8.{from_utf8_lossy}
use chatnoir_resiliparse.Header.{HeaderEncoding, HeaderMap, CowHeaderValue, as_slice}
use chatnoir_resiliparse.Header.Map.{
  get_bytes, get_bytes_multiple, contains_key_bytes, set_bytes, append_bytes, remove_bytes,
  items_bytes, keys_bytes, values_bytes, status_line_bytes, set_status_line_bytes,
}
use chatnoir_resiliparse.Record.Number.{parse_u64}

-- The codec of the encoding crate, `WINDOWS_1252`, with both traps set to `Ignore`.
pub record Codec : Type 0 where
  pub windows_1252_encode : Bytes → Bytes
  pub windows_1252_decode : Bytes → Bytes

-- `splitn(3, |&b| b == b' ')`: the second and the third part.
abbrev pub after_space : Bytes → Option Bytes
after_space v = O.map (λ i. drop (i + 1) v) (memchr b' ' v)

abbrev pub before_space : Bytes → Bytes
before_space v = elim (memchr b' ' v) [ none ↦ v | some i ↦ take i v ]

abbrev pub second_part : Bytes → Option Bytes
second_part v = O.map before_space (after_space v)

abbrev pub third_part : Bytes → Option Bytes
third_part v = elim (after_space v) [ none ↦ none | some w ↦ after_space w ]

-- `parse::<u16>().ok()`.
abbrev pub fits_u16 : Option ℕ → Option ℕ
fits_u16 none = none
fits_u16 (some n) = if ltb n 65536 then some n else none

-- An entry of the map of `to_map`, which is a list of its entries.
unfoldable pub insert_entry : Bytes → Bytes → List (Bytes × Bytes) → List (Bytes × Bytes)
insert_entry k v [] = (k, v) ∷ []
insert_entry k v ((j, w) ∷ m) =
    let rest = insert_entry k v m in
    if eq_ignore_ascii_case j k then (j, w ++ (b',' ∷ v)) ∷ m else (j, w) ∷ rest

unfoldable pub collect_entries : List (Bytes × Bytes) → List (Bytes × Bytes) → List (Bytes × Bytes)
unfolding insert_entry
collect_entries [] m = m
collect_entries ((k, v) ∷ items) m = collect_entries items (insert_entry k v m)

module _ (codec : Codec) where
  unfoldable pub encode : HeaderEncoding → Bytes → Bytes
  encode HeaderEncoding.unicode s = s
  encode HeaderEncoding.latin1 s = codec.windows_1252_encode s

  unfoldable pub decode : HeaderEncoding → Bytes → Bytes
  decode HeaderEncoding.unicode b = from_utf8_lossy b
  decode HeaderEncoding.latin1 b = codec.windows_1252_decode b

  -- `get` and `get_multiple` compare with the bytes of the key as it is given.
  unfoldable pub get : Bytes → HeaderMap → Option Bytes
  get key h = O.map (decode h.encoding) (get_bytes key h)

  unfoldable pub get_multiple : Bytes → HeaderMap → List Bytes
  get_multiple key h = map (decode h.encoding) (get_bytes_multiple key h)

  unfoldable pub contains_key : Bytes → HeaderMap → Bool
  contains_key key h = contains_key_bytes (encode h.encoding key) h

  unfoldable pub set : Bytes → Bytes → HeaderMap → HeaderMap
  set key value h = set_bytes (encode h.encoding key) (encode h.encoding value) h

  unfoldable pub append : Bytes → Bytes → HeaderMap → HeaderMap
  append key value h = append_bytes (encode h.encoding key) (encode h.encoding value) h

  unfoldable pub remove : Bytes → HeaderMap → HeaderMap
  remove key h = remove_bytes (encode h.encoding key) h

  unfoldable pub items : HeaderMap → List (Bytes × Bytes)
  items h = map (λ (k, v). (decode h.encoding k, decode h.encoding v)) (items_bytes h)

  unfoldable pub keys : HeaderMap → List Bytes
  keys h = map (decode h.encoding) (keys_bytes h)

  unfoldable pub values : HeaderMap → List Bytes
  values h = map (decode h.encoding) (values_bytes h)

  unfoldable pub to_map : HeaderMap → List (Bytes × Bytes)
  unfolding collect_entries
  to_map h = collect_entries (items h) []

  unfoldable pub status_line : HeaderMap → Option Bytes
  status_line h = O.map (decode h.encoding) (status_line_bytes h)

  unfoldable pub set_status_line : Bytes → HeaderMap → HeaderMap
  set_status_line line h = set_status_line_bytes (encode h.encoding line) h

  -- The rest of a status line that is one of HTTP.
  abbrev http_line : Option Bytes → Option Bytes
  http_line none = none
  http_line (some s) = if starts_with s (codes "HTTP/") then some s else none

  abbrev bind_part : (Bytes → Option Bytes) → Option Bytes → Option Bytes
  bind_part f none = none
  bind_part f (some s) = f s

  unfoldable pub status_code : HeaderMap → Option ℕ
  unfolding decode
  status_code h = elim (bind_part second_part (http_line (status_line_bytes h))) [
    | none ↦ none
    | some part ↦ fits_u16 (parse_u64 (decode h.encoding part))
  ]

  unfoldable pub reason_phrase : HeaderMap → Option Bytes
  reason_phrase h =
      O.map (decode h.encoding) (bind_part third_part (http_line (status_line_bytes h)))

abbrev same_encoding : HeaderEncoding → HeaderEncoding → Bool
same_encoding HeaderEncoding.unicode HeaderEncoding.unicode = true
same_encoding HeaderEncoding.latin1 HeaderEncoding.latin1 = true
same_encoding _ _ = false

abbrev same_line : Option Bytes → Option Bytes → Bool
same_line none none = true
same_line (some a) (some b) = bytes_eq a b
same_line _ _ = false

-- The lengths are compared first, and then the pairs.
unfoldable pub same_items : List (Bytes × Bytes) → List (Bytes × Bytes) → Bool
same_items [] [] = true
same_items ((k, v) ∷ xs) ((k', v') ∷ ys) = bytes_eq k k' && (bytes_eq v v' && same_items xs ys)
same_items _ _ = false

-- `PartialEq`.
unfoldable pub same_map : HeaderMap → HeaderMap → Bool
unfolding same_items
same_map h h' =
    same_encoding h.encoding h'.encoding
    && (same_line (status_line_bytes h) (status_line_bytes h')
        && same_items (items_bytes h) (items_bytes h'))
