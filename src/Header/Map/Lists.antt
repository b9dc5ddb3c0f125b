-- ===== src/Header/Map/Lists.antt =====
-- The loops of the header map's operations, over a list of headers.
use chatnoir_resiliparse.Prelude.{
  ◌≡◌, refl, ap, Bool, not, ◌&&◌, ◌||◌, none, some, List, [], ◌∷◌, ◌++◌, if◌then◌else◌, Bool-cases,
  arith, filter, find?, any, is_nil, inl, inr,
}
use chatnoir_resiliparse.Bytes.{Bytes, bytes_eq, eq_ignore_ascii_case, to_ascii_lowercase}
use chatnoir_resiliparse.Bytes.Trim.{bytes_eq_iff}
use chatnoir_resiliparse.Header.{CowHeaderTuple, tuple_key}
use chatnoir_resiliparse.Header.Map.{key_matches, retain_set}

module _ (raw key_lower : Bytes) (new : CowHeaderTuple)
    (is_new : to_ascii_lowercase (tuple_key raw new) ≡ key_lower) where
  -- The flag says whether a header of the key was met.
  pub retain_set_found :
      (found : Bool) (ts : List CowHeaderTuple)
      → (retain_set raw key_lower new found ts).1
        ≡ (found || any (λ t. bytes_eq (to_ascii_lowercase (tuple_key raw t)) key_lower) ts)
  unfolding retain_set
  retain_set_found found [] = ground arith
  retain_set_found found (t ∷ ts) = ground (
    arith,
    retain_set_found (found || bytes_eq (to_ascii_lowercase (tuple_key raw t)) key_lower) ts,
  )

  -- What the loop keeps for a key.
  pub filter-retain_set :
      (j : Bytes) (found : Bool) (ts : List CowHeaderTuple)
      → filter (key_matches raw j) (retain_set raw key_lower new found ts).0 ≡ (
          if bytes_eq key_lower (to_ascii_lowercase j)
          then (if not found && (retain_set raw key_lower new found ts).1 then new ∷ [] else [])
          else filter (key_matches raw j) ts)
  unfolding retain_set key_matches eq_ignore_ascii_case
  filter-retain_set j found [] = ground arith
  filter-retain_set j found (t ∷ ts) = ground (
    arith,
    is_new,
    retain_set_found (found || bytes_eq (to_ascii_lowercase (tuple_key raw t)) key_lower) ts,
    filter-retain_set j (found || bytes_eq (to_ascii_lowercase (tuple_key raw t)) key_lower) ts,
    bytes_eq_iff key_lower (to_ascii_lowercase j),
    bytes_eq_iff (to_ascii_lowercase (tuple_key raw t)) key_lower,
    bytes_eq_iff (to_ascii_lowercase (tuple_key raw t)) (to_ascii_lowercase j),
  )

-- `find` is the head of `filter`, and `any` says whether `filter` keeps something.
pub find?-filter {ℓ} :
    {A : Type ℓ} (p : A → Bool) (xs : List A)
    → find? p xs ≡ elim (filter p xs) [ [] ↦ none | x ∷ r ↦ some x ]
find?-filter p [] = refl
find?-filter p (x ∷ xs) = elim (Bool-cases (p x)) [
  | inl h ↦ rw h
  | inr h ↦ rw h (find?-filter p xs)
]

pub any-filter {ℓ} :
    {A : Type ℓ} (p : A → Bool) (xs : List A) → any p xs ≡ not (is_nil (filter p xs))
any-filter p [] = refl
any-filter p (x ∷ xs) = elim (Bool-cases (p x)) [ inl h ↦ rw h | inr h ↦ rw h (any-filter p xs) ]

pub filter-append {ℓ} :
    {A : Type ℓ} (p : A → Bool) (xs ys : List A) → filter p (xs ++ ys) ≡ filter p xs ++ filter p ys
filter-append p [] ys = refl
filter-append p (x ∷ xs) ys = elim (Bool-cases (p x)) [
  | inl h ↦ rw h (ap (◌∷◌ x) (filter-append p xs ys))
  | inr h ↦ rw h (filter-append p xs ys)
]

-- Removing one key leaves the others as they are.
pub filter-remove :
    (raw key j : Bytes) (ts : List CowHeaderTuple)
    → filter (key_matches raw j) (filter (λ t. not (key_matches raw key t)) ts)
      ≡ (if eq_ignore_ascii_case key j then [] else filter (key_matches raw j) ts)
unfolding key_matches eq_ignore_ascii_case
filter-remove raw key j [] = ground arith
filter-remove raw key j (t ∷ ts) = ground (
  arith,
  filter-remove raw key j ts,
  bytes_eq_iff (to_ascii_lowercase key) (to_ascii_lowercase j),
  bytes_eq_iff (to_ascii_lowercase (tuple_key raw t)) (to_ascii_lowercase key),
  bytes_eq_iff (to_ascii_lowercase (tuple_key raw t)) (to_ascii_lowercase j),
)
