-- ===== src/Header/Text/Laws.antt =====
-- The text operations of a header map against each other.
use chatnoir_resiliparse.Prelude.{
  ℕ, zero, suc, ◌≤◌, ◌≡◌, ◌↔◌, refl, sym, ap, ◌∙◌, Bool, true, false, ◌&&◌, Option, none, some,
  List, [], ◌∷◌, ◌++◌, arith, if◌then◌else◌, length, ltb,
}
use mathlib.Core.List.{map}
use chatnoir_resiliparse.Bytes.{Bytes, bytes_eq, to_ascii_lowercase, eq_ignore_ascii_case}
use chatnoir_resiliparse.Bytes.Trim.{bytes_eq_refl}
use chatnoir_resiliparse.Bytes.Utf8.{from_utf8_lossy, lossy, utf8_step, is_ascii}
use chatnoir_resiliparse.Record.Kind.RoundTrip.{bytes_eq-same}
use chatnoir_resiliparse.Header.{HeaderEncoding, HeaderMap}
use chatnoir_resiliparse.Header.Sanitize.{sanitize_header_value}
use chatnoir_resiliparse.Header.Map.{get_bytes_multiple, set_bytes, items_bytes, status_line_bytes}
use chatnoir_resiliparse.Header.Map.Laws.{get_multiple-set}
use chatnoir_resiliparse.Header.View.{Block, view}
use chatnoir_resiliparse.Header.Text.{
  Codec, encode, decode, get_multiple, set, items, to_map, insert_entry, collect_entries,
  same_encoding, same_line, same_items, same_map,
}

if-map :
    {A B : Type 0} (f : A → B) (b : Bool) (x y : List A)
    → map f (if b then x else y) ≡ (if b then map f x else map f y)
if-map f true x y = refl
if-map f false x y = refl

encoding-set :
    (codec : Codec) (key value : Bytes) (h : HeaderMap)
    → (set codec key value h).encoding ≡ h.encoding
unfolding set set_bytes
encoding-set codec key value h = refl

-- After set, the values under a key j, which is compared as it is given, are the text that the
-- sanitized encoded value decodes to, if j is the sanitized encoded key up to case, and else what
-- they were.
pub get_multiple-set_text :
    (codec : Codec) (key value j : Bytes) (h : HeaderMap)
    → get_multiple codec j (set codec key value h) ≡ (
        if eq_ignore_ascii_case (sanitize_header_value (encode codec h.encoding key) true) j
        then decode codec h.encoding (sanitize_header_value (encode codec h.encoding value) false)
          ∷ []
        else get_multiple codec j h)
unfolding get_multiple set
get_multiple-set_text codec key value j h =
    let k = encode codec h.encoding key in
    let v = encode codec h.encoding value in
    ap (λ e. map (decode codec e) (get_bytes_multiple j (set_bytes k v h)))
      (encoding-set codec key value h)
    ∙ ap (map (decode codec h.encoding)) (get_multiple-set k v j h)
    ∙ if-map (decode codec h.encoding) (eq_ignore_ascii_case (sanitize_header_value k true) j)
        (sanitize_header_value v false ∷ []) (get_bytes_multiple j h)

-- The entry of a key in a map.
abbrev pub lookup : Bytes → List (Bytes × Bytes) → Option Bytes
lookup j [] = none
lookup j ((k, v) ∷ m) = let rest = lookup j m in if eq_ignore_ascii_case k j then some v else rest

-- The values of a key, one after the other.
abbrev pub values_of : Bytes → List (Bytes × Bytes) → List Bytes
values_of j [] = []
values_of j ((k, v) ∷ items) =
    let rest = values_of j items in if eq_ignore_ascii_case k j then v ∷ rest else rest

abbrev pub join : Bytes → List Bytes → Bytes
join x [] = x
join x (v ∷ vs) = join (x ++ (b',' ∷ v)) vs

abbrev pub joined : Option Bytes → List Bytes → Option Bytes
joined none [] = none
joined none (v ∷ vs) = some (join v vs)
joined (some x) vs = some (join x vs)

same_lower :
    (j k : Bytes) → eq_ignore_ascii_case j k ≡ true → to_ascii_lowercase j ≡ to_ascii_lowercase k
unfolding eq_ignore_ascii_case
same_lower j k e = bytes_eq-same (to_ascii_lowercase j) (to_ascii_lowercase k) e

same_key :
    (i j k : Bytes)
    → eq_ignore_ascii_case i k ≡ true
    → eq_ignore_ascii_case i j ≡ eq_ignore_ascii_case k j
unfolding eq_ignore_ascii_case
same_key i j k e =
    ap (λ x. bytes_eq x (to_ascii_lowercase j))
      (bytes_eq-same (to_ascii_lowercase i) (to_ascii_lowercase k) e)

common_key :
    (i j k : Bytes)
    → eq_ignore_ascii_case i j ≡ true
    → eq_ignore_ascii_case k j ≡ true
    → eq_ignore_ascii_case i k ≡ true
unfolding eq_ignore_ascii_case
common_key i j k e f =
    let same =
      bytes_eq-same (to_ascii_lowercase i) (to_ascii_lowercase j) e
      ∙ sym (bytes_eq-same (to_ascii_lowercase k) (to_ascii_lowercase j) f) in
    ap (λ x. bytes_eq x (to_ascii_lowercase k)) same ∙ bytes_eq_refl (to_ascii_lowercase k)

lookup-insert :
    (j k v : Bytes) (m : List (Bytes × Bytes))
    → lookup j (insert_entry k v m)
      ≡ (if eq_ignore_ascii_case k j then joined (lookup j m) (v ∷ []) else lookup j m)
unfolding insert_entry
lookup-insert j k v [] = refl
lookup-insert j k v ((i, w) ∷ m) =
    if-lookup (eq_ignore_ascii_case i k) ((i, w ++ (b',' ∷ v)) ∷ m) ((i, w) ∷ insert_entry k v m)
    ∙ go (eq_ignore_ascii_case i k) (eq_ignore_ascii_case i j) (eq_ignore_ascii_case k j)
        (same_key i j k) (common_key i j k) (lookup-insert j k v m)
  where
    if-lookup :
        (b : Bool) (x y : List (Bytes × Bytes))
        → lookup j (if b then x else y) ≡ (if b then lookup j x else lookup j y)
    if-lookup true x y = refl
    if-lookup false x y = refl

    go :
        (ik ij kj : Bool)
        → (ik ≡ true → ij ≡ kj)
        → (ij ≡ true → kj ≡ true → ik ≡ true)
        → lookup j (insert_entry k v m) ≡ (if kj then joined (lookup j m) (v ∷ []) else lookup j m)
        → (if ik
            then (if ij then some (w ++ (b',' ∷ v)) else lookup j m)
            else (if ij then some w else lookup j (insert_entry k v m)))
          ≡ (if kj
              then joined (if ij then some w else lookup j m) (v ∷ [])
              else (if ij then some w else lookup j m))
    go true true true s c h = refl
    go true true false s c h = let e = s refl in cc
    go true false true s c h = let e = s refl in cc
    go true false false s c h = refl
    go false true true s c h = let e = c refl refl in cc
    go false true false s c h = refl
    go false false kj s c h = h

joined-joined :
    (x : Option Bytes) (v : Bytes) (vs : List Bytes)
    → joined (joined x (v ∷ [])) vs ≡ joined x (v ∷ vs)
joined-joined none v vs = refl
joined-joined (some x) v vs = refl

collect-joined :
    (j : Bytes) (items m : List (Bytes × Bytes))
    → lookup j (collect_entries items m) ≡ joined (lookup j m) (values_of j items)
unfolding collect_entries
collect-joined j [] m = go (lookup j m)
  where
    go : (o : Option Bytes) → o ≡ joined o []
    go none = refl
    go (some x) = refl
collect-joined j ((k, v) ∷ items) m =
    collect-joined j items (insert_entry k v m)
    ∙ ap (λ o. joined o (values_of j items)) (lookup-insert j k v m)
    ∙ go (eq_ignore_ascii_case k j)
  where
    go :
        (b : Bool)
        → joined (if b then joined (lookup j m) (v ∷ []) else lookup j m) (values_of j items)
          ≡ joined (lookup j m) (if b then v ∷ values_of j items else values_of j items)
    go true = joined-joined (lookup j m) v (values_of j items)
    go false = refl

-- The entry of a key in the map that to_map collects is made of all values of the headers with that
-- key, up to case, in their order and with commas between them.
pub lookup-to_map :
    (codec : Codec) (j : Bytes) (h : HeaderMap)
    → lookup j (to_map codec h) ≡ joined none (values_of j (items codec h))
unfolding to_map
lookup-to_map codec j h = collect-joined j (items codec h) []

and-both : (a b : Bool) → a && b ≡ true → (a ≡ true) × (b ≡ true)
and-both true b e = (refl, e)
and-both false b e = cc

same_encoding-same : (a b : HeaderEncoding) → same_encoding a b ≡ true → a ≡ b
same_encoding-same HeaderEncoding.unicode HeaderEncoding.unicode e = refl
same_encoding-same HeaderEncoding.latin1 HeaderEncoding.latin1 e = refl
same_encoding-same HeaderEncoding.unicode HeaderEncoding.latin1 e = cc
same_encoding-same HeaderEncoding.latin1 HeaderEncoding.unicode e = cc

same_encoding_refl : (a : HeaderEncoding) → same_encoding a a ≡ true
same_encoding_refl HeaderEncoding.unicode = refl
same_encoding_refl HeaderEncoding.latin1 = refl

same_line-same : (a b : Option Bytes) → same_line a b ≡ true → a ≡ b
same_line-same none none e = refl
same_line-same (some a) (some b) e = ap some (bytes_eq-same a b e)
same_line-same none (some b) e = cc
same_line-same (some a) none e = cc

same_line_refl : (a : Option Bytes) → same_line a a ≡ true
same_line_refl none = refl
same_line_refl (some a) = bytes_eq_refl a

same_items-same : (xs ys : List (Bytes × Bytes)) → same_items xs ys ≡ true → xs ≡ ys
unfolding same_items
same_items-same [] [] e = refl
same_items-same [] (y ∷ ys) e = cc
same_items-same (x ∷ xs) [] e = cc
same_items-same ((k, v) ∷ xs) ((k', v') ∷ ys) e =
    let (key, e') = and-both (bytes_eq k k') (bytes_eq v v' && same_items xs ys) e in
    let (value, rest) = and-both (bytes_eq v v') (same_items xs ys) e' in
    let i = bytes_eq-same k k' key in
    let j = bytes_eq-same v v' value in
    ap (λ a. (a, v) ∷ xs) i
    ∙ ap (λ b. (k', b) ∷ xs) j
    ∙ ap (◌∷◌ (k', v')) (same_items-same xs ys rest)

same_items_refl : (xs : List (Bytes × Bytes)) → same_items xs xs ≡ true
unfolding same_items
same_items_refl [] = refl
same_items_refl ((k, v) ∷ xs) = rw (bytes_eq_refl k, bytes_eq_refl v) (same_items_refl xs)

abbrev shown : Option Bytes → List (Bytes × Bytes) → Block
shown s xs = record { status = s; items = xs }

-- Two maps are equal as the code compares them just where they have the same encoding and show the
-- same status line and the same headers, whether or not their offsets and blocks differ.
pub same_map_iff :
    (h h' : HeaderMap) → (same_map h h' ≡ true) ↔ ((h.encoding ≡ h'.encoding) × (view h ≡ view h'))
unfolding same_map view
same_map_iff h h' = (
  (λ e.
      let (enc, e') =
        and-both (same_encoding h.encoding h'.encoding)
          (same_line (status_line_bytes h) (status_line_bytes h')
            && same_items (items_bytes h) (items_bytes h'))
          e in
      let (line, rest) =
        and-both (same_line (status_line_bytes h) (status_line_bytes h'))
          (same_items (items_bytes h) (items_bytes h')) e' in
      let i = same_line-same (status_line_bytes h) (status_line_bytes h') line in
      let j = same_items-same (items_bytes h) (items_bytes h') rest in
      (
        same_encoding-same h.encoding h'.encoding enc,
        ap (λ x. shown x (items_bytes h)) i ∙ ap (shown (status_line_bytes h')) j,
      )),
  (λ (enc, e).
      let i : status_line_bytes h ≡ status_line_bytes h' = ap (λ b. b.status) e in
      let j : items_bytes h ≡ items_bytes h' = ap (λ b. b.items) e in
      rw (enc, i, j)
        (rw (same_encoding_refl h'.encoding, same_line_refl (status_line_bytes h'))
          (same_items_refl (items_bytes h')))),
)

-- ASCII text is valid UTF-8.
lossy_ascii : (fuel : ℕ) (v : Bytes) → is_ascii v ≡ true → length v ≤ fuel → lossy fuel v ≡ v
unfolding lossy utf8_step
lossy_ascii fuel [] a h = refl
lossy_ascii zero (c ∷ cs) a h = absurd (omega arith)
lossy_ascii (suc fuel) (c ∷ cs) a h =
    let (head, tail) = and-both (ltb c 128) (is_ascii cs) a in
    rw head (ap (λ x. c ∷ x) (lossy_ascii fuel cs tail (omega arith)))

pub from_utf8_lossy_ascii : (v : Bytes) → is_ascii v ≡ true → from_utf8_lossy v ≡ v
unfolding from_utf8_lossy
from_utf8_lossy_ascii v a = lossy_ascii (length v) v a (omega arith)
