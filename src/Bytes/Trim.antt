-- ===== src/Bytes/Trim.antt =====
-- Laws of trimming, case folding and comparison.
use chatnoir_resiliparse.Prelude.{
  ℕ, suc, ◌+◌, ◌-◌, ◌≤◌, ◌≡◌, refl, ap, ◌∙◌, ◌↔◌, true, [], ◌∷◌, ◌++◌, arith, length, take, drop,
  take-append_left, take-add_length, drop-add_length,
}
use chatnoir_resiliparse.Bytes.{
  Bytes, trim_ascii_start, trim_ascii_end, trim_ascii, bytes_eq, slice, to_lower,
  to_ascii_lowercase,
}

pub length-trim_ascii_end-le : (v : Bytes) → length (trim_ascii_end v) ≤ length v
unfolding trim_ascii_end
length-trim_ascii_end-le [] = omega arith
length-trim_ascii_end-le (c ∷ cs) = ground (arith, length-trim_ascii_end-le cs)

pub length-trim_ascii_start-le : (v : Bytes) → length (trim_ascii_start v) ≤ length v
unfolding trim_ascii_start
length-trim_ascii_start-le [] = omega arith
length-trim_ascii_start-le (c ∷ cs) = ground (arith, length-trim_ascii_start-le cs)

-- What `trim_ascii_end` keeps is a prefix.
pub take-trim_ascii_end : (v : Bytes) → take (length (trim_ascii_end v)) v ≡ trim_ascii_end v
unfolding trim_ascii_end
take-trim_ascii_end [] = refl
take-trim_ascii_end (c ∷ cs) = ground (arith, take-trim_ascii_end cs)

drop_none : (n : ℕ) (v : Bytes) → drop (n - n) v ≡ v
drop_none n v = let e : n - n ≡ 0 = omega arith in ap (λ k. drop k v) e

drop_more : (n m c : ℕ) (v : Bytes) → m ≤ n → drop (n + 1 - m) (c ∷ v) ≡ drop (n - m) v
drop_more n m c v h = let e : n + 1 - m ≡ suc (n - m) = omega arith in ap (λ k. drop k (c ∷ v)) e

-- What `trim_ascii_start` keeps is a suffix.
pub drop-trim_ascii_start :
    (v : Bytes) → drop (length v - length (trim_ascii_start v)) v ≡ trim_ascii_start v
unfolding trim_ascii_start
drop-trim_ascii_start [] = refl
drop-trim_ascii_start (c ∷ cs) = ground (
  arith,
  drop-trim_ascii_start cs,
  drop_none (length (c ∷ cs)) (c ∷ cs),
  drop_more (length cs) (length (trim_ascii_start cs)) c cs,
  length-trim_ascii_start-le cs,
)

-- The two ends are trimmed independently.
pub trim_ascii_comm : (v : Bytes) → trim_ascii_start (trim_ascii_end v) ≡ trim_ascii v
unfolding trim_ascii_start trim_ascii_end trim_ascii
trim_ascii_comm [] = refl
trim_ascii_comm (c ∷ cs) = ground (arith, trim_ascii_comm cs)

pub bytes_eq_iff : (a b : Bytes) → (bytes_eq a b ≡ true) ↔ (a ≡ b)
unfolding bytes_eq
bytes_eq_iff (x ∷ a) (y ∷ b) = ground (arith, bytes_eq_iff a b)
bytes_eq_iff _ _ = ground arith

pub bytes_eq_refl : (a : Bytes) → bytes_eq a a ≡ true
bytes_eq_refl a = (bytes_eq_iff a a).1 refl

pub to_lower_idem : (c : ℕ) → to_lower (to_lower c) ≡ to_lower c
unfolding to_lower
to_lower_idem c = ground arith

pub to_ascii_lowercase_idem :
    (v : Bytes) → to_ascii_lowercase (to_ascii_lowercase v) ≡ to_ascii_lowercase v
unfolding to_ascii_lowercase
to_ascii_lowercase_idem [] = refl
to_ascii_lowercase_idem (c ∷ cs) = cc (to_lower_idem c, to_ascii_lowercase_idem cs)

-- A slice inside a buffer does not change when the buffer grows.
pub slice-append :
    (buf more : Bytes) (i j : ℕ) → j ≤ length buf → slice (buf ++ more) i j ≡ slice buf i j
unfolding slice
slice-append buf more i j h = ap (drop i) (take-append_left j buf more h)

-- A slice behind a prefix is a slice of what follows the prefix.
pub slice-shift :
    (before line : Bytes) (i j : ℕ)
    → slice (before ++ line) (length before + i) (length before + j) ≡ slice line i j
unfolding slice
slice-shift before line i j =
    ap (drop (length before + i)) (take-add_length j before line)
    ∙ drop-add_length i before (take j line)
