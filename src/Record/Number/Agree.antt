-- ===== src/Record/Number/Agree.antt =====
-- The two readings of a Content-Length agree.
use chatnoir_resiliparse.Prelude.{
  ℕ, ◌+◌, ◌-◌, ◌*◌, ◌<◌, ◌≡◌, refl, sym, ap, ◌∙◌, Bool, true, false, ◌&&◌, none, some, [], ◌∷◌,
  if◌then◌else◌, ltb, ◌==◌, min, arith, ltb→lt,
}
use chatnoir_resiliparse.Prelude.Int.{u64_mod}
use chatnoir_resiliparse.Bytes.{Bytes, codes, starts_with}
use chatnoir_resiliparse.Record.Number.{
  is_ascii_digit, parse_digits, parse_content_length_bytes, checked_digits, parse_u64,
}

saturates_not :
    (m d : ℕ)
    → m * 10 + d < u64_mod
    → min (u64_mod - 1) (min (u64_mod - 1) (m * 10) + d) ≡ m * 10 + d
saturates_not m d h = omega arith

digits_agree :
    (v : Bytes) (m n : ℕ)
    → m < u64_mod
    → checked_digits v m ≡ some n
    → (parse_digits v m ≡ n) × (n < u64_mod)
unfolding checked_digits parse_digits
digits_agree [] m n h e = let i : m ≡ n = cc in (i, omega arith)
digits_agree (b ∷ bs) m n h e =
    go (is_ascii_digit b) (ltb (m * 10 + (b - b'0')) u64_mod) refl
      (digits_agree bs (m * 10 + (b - b'0')) n) e
  where
    next : ℕ
    next = min (u64_mod - 1) (min (u64_mod - 1) (m * 10) + (b - b'0'))

    go :
        (digit fits : Bool)
        → ltb (m * 10 + (b - b'0')) u64_mod ≡ fits
        → (m * 10 + (b - b'0') < u64_mod
            → checked_digits bs (m * 10 + (b - b'0')) ≡ some n
            → (parse_digits bs (m * 10 + (b - b'0')) ≡ n) × (n < u64_mod))
        → (if digit && fits then checked_digits bs (m * 10 + (b - b'0')) else none) ≡ some n
        → ((if digit then parse_digits bs next else 0) ≡ n) × (n < u64_mod)
    go true true f ih g =
        let small = ltb→lt (m * 10 + (b - b'0')) u64_mod f in
        let (same, bound) = ih small g in
        (ap (parse_digits bs) (saturates_not m (b - b'0') small) ∙ same, bound)
    go true false f ih g = cc
    go false fits f ih g = cc

-- Where parse::<u64> reads a text with no sign, _parse_content_length_bytes reads the same number,
-- and it fits in a u64.
pub content_length_agrees :
    (v : Bytes) (n : ℕ)
    → parse_u64 v ≡ some n
    → starts_with v (codes "+") ≡ false
    → (parse_content_length_bytes v ≡ n) × (n < u64_mod)
unfolding parse_u64 parse_content_length_bytes starts_with
content_length_agrees [] n e h = cc
content_length_agrees (b ∷ []) n e h = digits_agree (b ∷ []) 0 n (omega arith) e
content_length_agrees (b ∷ c ∷ bs) n e h =
    let unsigned : (b == b'+') ≡ false = ground (arith, h) in
    let skip : parse_u64 (b ∷ c ∷ bs) ≡ checked_digits (b ∷ c ∷ bs) 0 = rw unsigned refl in
    digits_agree (b ∷ c ∷ bs) 0 n (omega arith) (sym skip ∙ e)
