-- ===== src/Header/Map/Laws.antt =====
-- What a reader of the header map sees after each operation on it.
use mathlib.Core.Bool.{false≢true}
use mathlib.Core.List.{map, map-append}
use mathlib.Core.Option as O
use chatnoir_resiliparse.Prelude.{
  ◌≡◌, ◌≢◌, refl, Bool, ap, ◌∙◌, sym, true, false, not, ◌||◌, Option, none, some, List, [], ◌∷◌,
  ◌++◌, ◌==◌, append-nil, if◌then◌else◌, Bool-cases, arith, filter, is_nil, inl, inr, length,
}
use chatnoir_resiliparse.Bytes.{Bytes, bytes_eq, eq_ignore_ascii_case, to_ascii_lowercase}
use chatnoir_resiliparse.Bytes.Trim.{bytes_eq_iff}
use chatnoir_resiliparse.Header.{HeaderMap, CowHeaderTuple, tuple_key, tuple_value}
use chatnoir_resiliparse.Header.Sanitize.{sanitize_header_value}
use chatnoir_resiliparse.Header.Sanitize.Laws.{sanitize-lowercase}
use chatnoir_resiliparse.Header.Map.{
  key_matches, get_bytes, get_bytes_multiple, contains_key_bytes, retain_set, set_bytes,
  items_bytes, append_bytes, remove_bytes,
}
use chatnoir_resiliparse.Header.Map.Lists.{
  filter-retain_set, find?-filter, any-filter, filter-append, filter-remove,
}

-- The first of some values.
abbrev pub head_or_none : List Bytes → Option Bytes
head_or_none [] = none
head_or_none (v ∷ vs) = some v

map_head :
    (raw : Bytes) (ts : List CowHeaderTuple)
    → O.map (tuple_value raw) (elim ts [ [] ↦ none | t ∷ r ↦ some t ])
      ≡ head_or_none (map (tuple_value raw) ts)
map_head raw [] = refl
map_head raw (t ∷ ts) = refl

is_nil-map :
    (raw : Bytes) (ts : List CowHeaderTuple) → is_nil (map (tuple_value raw) ts) ≡ is_nil ts
is_nil-map raw [] = refl
is_nil-map raw (t ∷ ts) = refl

-- The second list holds the values of the headers in the first one whose names are the key but for the
-- case of ASCII letters, in their order.
pub data ValuesOf (key : Bytes) : List (Bytes × Bytes) → List Bytes → Type 0 where
  no_more : ValuesOf key [] []
  hit :
      (k v : Bytes) (items : List (Bytes × Bytes)) (vs : List Bytes)
      → to_ascii_lowercase k ≡ to_ascii_lowercase key
      → ValuesOf key items vs
      → ValuesOf key ((k, v) ∷ items) (v ∷ vs)
  miss :
      (k v : Bytes) (items : List (Bytes × Bytes)) (vs : List Bytes)
      → to_ascii_lowercase k ≢ to_ascii_lowercase key
      → ValuesOf key items vs
      → ValuesOf key ((k, v) ∷ items) vs

-- A header and its value.
abbrev pair : Bytes → CowHeaderTuple → Bytes × Bytes
pair raw t = (tuple_key raw t, tuple_value raw t)

ValuesOf-step :
    (raw key : Bytes) (t : CowHeaderTuple) (items : List (Bytes × Bytes)) (ts : List CowHeaderTuple)
    (b : Bool)
    → bytes_eq (to_ascii_lowercase (tuple_key raw t)) (to_ascii_lowercase key) ≡ b
    → ValuesOf key items (map (tuple_value raw) ts)
    → ValuesOf key (pair raw t ∷ items) (map (tuple_value raw) (if b then t ∷ ts else ts))
ValuesOf-step raw key t items ts true e later =
    ValuesOf.hit (tuple_key raw t) (tuple_value raw t) items (map (tuple_value raw) ts)
      ((bytes_eq_iff (to_ascii_lowercase (tuple_key raw t)) (to_ascii_lowercase key)).0 e) later
ValuesOf-step raw key t items ts false e later =
    ValuesOf.miss (tuple_key raw t) (tuple_value raw t) items (map (tuple_value raw) ts)
      (λ q. false≢true (
        sym e ∙ (bytes_eq_iff (to_ascii_lowercase (tuple_key raw t)) (to_ascii_lowercase key)).1 q))
      later

values-ValuesOf :
    (raw key : Bytes) (ts : List CowHeaderTuple)
    → ValuesOf key (map (pair raw) ts) (map (tuple_value raw) (filter (key_matches raw key) ts))
unfolding key_matches eq_ignore_ascii_case
values-ValuesOf raw key [] = ValuesOf.no_more
values-ValuesOf raw key (t ∷ ts) =
    ValuesOf-step raw key t (map (pair raw) ts) (filter (key_matches raw key) ts)
      (bytes_eq (to_ascii_lowercase (tuple_key raw t)) (to_ascii_lowercase key)) refl
      (values-ValuesOf raw key ts)

-- `get_bytes_multiple` returns the values of the headers whose names are the key but for the case of
-- letters, in order; `get_bytes` is the first of them, and `contains_key_bytes` says whether there is
-- one.
pub get_bytes-eq-head :
    (key : Bytes) (h : HeaderMap)
    → ValuesOf key (items_bytes h) (get_bytes_multiple key h)
      × (get_bytes key h ≡ head_or_none (get_bytes_multiple key h))
      × (contains_key_bytes key h ≡ not (is_nil (get_bytes_multiple key h)))
unfolding get_bytes get_bytes_multiple contains_key_bytes items_bytes
get_bytes-eq-head key h =
    let raw = h.raw_header_block in
    let p = key_matches raw key in
    (
      values-ValuesOf raw key h.headers,
      ap (O.map (tuple_value raw)) (find?-filter p h.headers) ∙ map_head raw (filter p h.headers),
      any-filter p h.headers ∙ ap not (sym (is_nil-map raw (filter p h.headers))),
    )

-- One owned header under `filter`.
filter-owned :
    (raw k v j : Bytes)
    → filter (key_matches raw j) (CowHeaderTuple.owned k v ∷ [])
      ≡ (if eq_ignore_ascii_case k j then CowHeaderTuple.owned k v ∷ [] else [])
unfolding key_matches tuple_key
filter-owned raw k v j = refl

lowercase_owned :
    (raw key v : Bytes)
    → to_ascii_lowercase (tuple_key raw (CowHeaderTuple.owned (sanitize_header_value key true) v))
      ≡ sanitize_header_value (to_ascii_lowercase key) true
unfolding tuple_key
lowercase_owned raw key v = sym (sanitize-lowercase key true)

eq_lowercase :
    (key j : Bytes)
    → bytes_eq (sanitize_header_value (to_ascii_lowercase key) true) (to_ascii_lowercase j)
      ≡ eq_ignore_ascii_case (sanitize_header_value key true) j
unfolding eq_ignore_ascii_case
eq_lowercase key j = ap (λ x. bytes_eq x (to_ascii_lowercase j)) (sanitize-lowercase key true)

filter-set_bytes :
    (key value j : Bytes) (h : HeaderMap)
    → filter (key_matches h.raw_header_block j) (set_bytes key value h).headers ≡ (
        if eq_ignore_ascii_case (sanitize_header_value key true) j
        then CowHeaderTuple.owned
            (sanitize_header_value key true)
            (sanitize_header_value value false)
          ∷ []
        else filter (key_matches h.raw_header_block j) h.headers)
unfolding set_bytes
filter-set_bytes key value j h =
    let raw = h.raw_header_block in
    let k = sanitize_header_value key true in
    let v = sanitize_header_value value false in
    let kl = sanitize_header_value (to_ascii_lowercase key) true in
    let new = CowHeaderTuple.owned k v in
    let kept = (retain_set raw kl new false h.headers).0 in
    ground (
      arith,
      eq_lowercase key j,
      filter-retain_set raw kl new (lowercase_owned raw key v) j false h.headers,
      filter-append (key_matches raw j) kept (new ∷ []),
      append-nil (filter (key_matches raw j) h.headers),
      filter-owned raw k v j,
    )

raw-set_bytes :
    (key value : Bytes) (h : HeaderMap)
    → (set_bytes key value h).raw_header_block ≡ h.raw_header_block
unfolding set_bytes
raw-set_bytes key value h = refl

-- After `set_bytes` the sanitized key, in any case of its letters, has the sanitized value as its
-- only value. Every other key has the values that it had.
pub get_multiple-set :
    (key value j : Bytes) (h : HeaderMap)
    → get_bytes_multiple j (set_bytes key value h) ≡ (
        if eq_ignore_ascii_case (sanitize_header_value key true) j
        then sanitize_header_value value false ∷ []
        else get_bytes_multiple j h)
unfolding get_bytes_multiple tuple_value
get_multiple-set key value j h =
    rw (raw-set_bytes key value h, filter-set_bytes key value j h)
      (elim (Bool-cases (eq_ignore_ascii_case (sanitize_header_value key true) j)) [
        | inl e ↦ rw e
        | inr e ↦ rw e
      ])

-- After `append_bytes` the sanitized key has one value more, the last one, and every other key has
-- the values that it had.
pub get_multiple-append :
    (key value j : Bytes) (h : HeaderMap)
    → get_bytes_multiple j (append_bytes key value h)
      ≡ get_bytes_multiple j h
        ++ (if eq_ignore_ascii_case (sanitize_header_value key true) j
            then sanitize_header_value value false ∷ []
            else [])
unfolding get_bytes_multiple append_bytes tuple_value
get_multiple-append key value j h =
    let raw = h.raw_header_block in
    let k = sanitize_header_value key true in
    let v = sanitize_header_value value false in
    rw
      (
        filter-append (key_matches raw j) h.headers (CowHeaderTuple.owned k v ∷ []),
        filter-owned raw k v j,
      )
      (elim (Bool-cases (eq_ignore_ascii_case k j)) [
        | inl e ↦ rw (e, map-append)
        | inr e ↦ simp (e, append-nil)
      ])

-- After `remove_bytes` the sanitized key has no value, every other key has the values that it had,
-- and the map is dirty exactly when it was dirty or a header is gone.
pub get_multiple-remove :
    (key j : Bytes) (h : HeaderMap)
    → (get_bytes_multiple j (remove_bytes key h) ≡ (
        if eq_ignore_ascii_case (sanitize_header_value key true) j
        then []
        else get_bytes_multiple j h))
      × ((remove_bytes key h).dirty
          ≡ (h.dirty || not (length (remove_bytes key h).headers == length h.headers)))
unfolding get_bytes_multiple remove_bytes
get_multiple-remove key j h =
    let raw = h.raw_header_block in
    let k = sanitize_header_value key true in
    (
      rw (filter-remove raw k j h.headers)
          (elim (Bool-cases (eq_ignore_ascii_case k j)) [ inl e ↦ rw e | inr e ↦ rw e ]),
      ground arith,
    )
