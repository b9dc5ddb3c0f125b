-- ===== src/StreamIo/ReadLine/Line.antt =====
-- The first line of a text, piece by piece.
use chatnoir_resiliparse.Prelude.{
  ◌⊎◌, length, ℕ, zero, suc, ◌-◌, ◌≤◌, ◌≡◌, refl, sym, ap, none, some, [], ◌∷◌, ◌++◌, arith, length,
  take, drop, Option-cases, inl, inr,
}
use chatnoir_resiliparse.Bytes.{Bytes, memchr}
use chatnoir_resiliparse.StreamIo.ReadLine.{first_line}

-- A chunk that has a line feed within the limit holds all of the line.
pub line_ends :
    (max k : ℕ) (c rest : Bytes) (p : ℕ)
    → k ≤ max
    → memchr b'\n' (take k c) ≡ some p
    → (first_line max (c ++ rest) ≡ take (suc p) c) × (suc p ≤ length c)
unfolding first_line memchr
line_ends max zero c rest p h e = cc
line_ends max (suc k) [] rest p h e = cc
line_ends zero (suc k) (x ∷ c) rest p h e = absurd (omega arith)
line_ends (suc max) (suc k) (x ∷ c) rest p h e = elim (Option-cases (memchr b'\n' (take k c))) [
  | inl q ↦ ground arith
  | inr (j, q) ↦ ground (arith, line_ends max k c rest j (omega arith) q)
]

pub first_line-nil : (n : ℕ) → first_line n [] ≡ []
unfolding first_line
first_line-nil zero = refl
first_line-nil (suc n) = refl

-- A part of the text without one is a part of the line.
pub line_goes_on :
    (max k : ℕ) (c : Bytes)
    → k ≤ max
    → memchr b'\n' (take k c) ≡ none
    → first_line max c ≡ take k c ++ first_line (max - k) (drop k c)
unfolding first_line memchr
line_goes_on max zero c h e =
    let z : max - 0 ≡ max = omega arith in ap (λ n. first_line n c) (sym z)
line_goes_on zero (suc k) c h e = absurd (omega arith)
line_goes_on (suc max) (suc k) [] h e = sym (first_line-nil (suc max - suc k))
line_goes_on (suc max) (suc k) (x ∷ c) h e = elim (Option-cases (memchr b'\n' (take k c))) [
  | inl q ↦
      let z : suc max - suc k ≡ max - k = omega arith in
      rw z (ground (arith, line_goes_on max k c (omega arith) q))
  | inr (j, q) ↦ ground arith
]

pub first_line-prefix :
    (max : ℕ) (v : Bytes) → first_line max v ++ drop (length (first_line max v)) v ≡ v
unfolding first_line
first_line-prefix zero v = refl
first_line-prefix (suc max) [] = refl
first_line-prefix (suc max) (c ∷ cs) = ground (arith, first_line-prefix max cs)

-- Only an empty text or a limit of 0 has an empty first line.
pub first_line_empty : (max : ℕ) (v : Bytes) → first_line max v ≡ [] → (v ≡ []) ⊎ (max ≡ 0)
unfolding first_line
first_line_empty zero v e = inr refl
first_line_empty (suc max) [] e = inl refl
first_line_empty (suc max) (c ∷ cs) e = ground arith
