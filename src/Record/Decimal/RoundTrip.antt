-- ===== src/Record/Decimal/RoundTrip.antt =====
-- A number that is printed is read back.
use chatnoir_resiliparse.Prelude.{
  ℕ, zero, suc, ◌+◌, ◌-◌, ◌*◌, ◌/◌, ◌%◌, ◌^◌, ◌<◌, ◌≡◌, refl, sym, ap, ◌∙◌, Bool, true, false, some,
  [], ◌∷◌, ◌++◌, if◌then◌else◌, arith, ltb, ◌==◌, append_assoc, subst, append-nil, Bool-cases, inl,
  inr, ltb→lt,
}
use chatnoir_resiliparse.Prelude.Int.{u64_mod}
use chatnoir_resiliparse.Bytes.{Bytes}
use chatnoir_resiliparse.Record.Number.{is_ascii_digit, checked_digits, parse_u64}
use chatnoir_resiliparse.Record.Decimal.{dec_digits, to_string}

is_digit : (d : ℕ) → d < 10 → is_ascii_digit (b'0' + d) ≡ true
unfolding is_ascii_digit
is_digit d h = ground arith

-- The last digit of a number is read behind the others.
last_digit :
    (n : ℕ) (rest : Bytes)
    → n < u64_mod
    → checked_digits ((b'0' + n % 10) ∷ rest) (n / 10) ≡ checked_digits rest n
unfolding checked_digits
last_digit n rest small =
    let back : n / 10 * 10 + (b'0' + n % 10 - b'0') ≡ n = omega arith in
    let fits : ltb n u64_mod ≡ true = ground arith in
    rw (is_digit (n % 10) (omega arith), back, fits) refl

digits-read :
    (fuel n : ℕ) (rest : Bytes)
    → n < 10 ^ fuel
    → n < u64_mod
    → checked_digits (dec_digits fuel n ++ rest) 0 ≡ checked_digits rest n
unfolding dec_digits
digits-read zero n rest h small = let e : 0 ≡ n = omega arith in ap (checked_digits rest) e
digits-read (suc fuel) n rest h small = elim (Bool-cases (ltb n 10)) [
  | inl one ↦
      let k = ltb→lt n 10 one in
      let none_before : n / 10 ≡ 0 = omega arith in
      rw one
        (ap (checked_digits ((b'0' + n % 10) ∷ rest)) (sym none_before) ∙ last_digit n rest small)
  | inr more ↦ rw more (
      ap (λ v. checked_digits v 0)
        (append_assoc (dec_digits fuel (n / 10)) ((b'0' + n % 10) ∷ []) rest)
      ∙ digits-read fuel (n / 10) ((b'0' + n % 10) ∷ rest)
          (let p : 10 ^ suc fuel ≡ 10 ^ fuel * 10 = omega arith in omega arith) (omega arith)
      ∙ last_digit n rest small)
]

-- A printed number begins with a digit.
record Leads (v : Bytes) : Type 0 where
  first : ℕ
  others : Bytes
  splits : v ≡ (b'0' + first) ∷ others
  small : first < 10

Leads-append : (v w : Bytes) → Leads v → Leads (v ++ w)
Leads-append v w l = record {
  first = l.first;
  others = l.others ++ w;
  splits = ap (λ x. x ++ w) l.splits;
  small = l.small;
}

digits-Leads : (fuel n : ℕ) → Leads (dec_digits (suc fuel) n)
unfolding dec_digits
digits-Leads zero n =
    subst Leads (go (ltb n 10))
      (record { first = n % 10; others = []; splits = refl; small = omega arith })
  where
    go :
        (b : Bool)
        → (b'0' + n % 10) ∷ [] ≡ (if b then (b'0' + n % 10) ∷ [] else (b'0' + n % 10) ∷ [])
    go true = refl
    go false = refl
digits-Leads (suc fuel) n = elim (Bool-cases (ltb n 10)) [
  | inl one ↦ rw one (record { first = n % 10; others = []; splits = refl; small = omega arith })
  | inr more ↦ rw more (
      Leads-append (dec_digits (suc fuel) (n / 10)) ((b'0' + n % 10) ∷ [])
        (digits-Leads fuel (n / 10)))
]

parse-digits : (v : Bytes) → Leads v → parse_u64 v ≡ checked_digits v 0
unfolding parse_u64
parse-digits v l = rw l.splits (go l.others)
  where
    go : (ds : Bytes) → parse_u64 ((b'0' + l.first) ∷ ds) ≡ checked_digits ((b'0' + l.first) ∷ ds) 0
    go [] = refl
    go (d ∷ ds) =
        let other : (b'0' + l.first == b'+') ≡ false = let k = l.small in ground arith in
        rw other refl

-- A number of 64 bits that is printed in decimal is read back.
pub parse_u64-to_string : (n : ℕ) → n < u64_mod → parse_u64 (to_string n) ≡ some n
unfolding to_string checked_digits
parse_u64-to_string n h =
    parse-digits (dec_digits 20 n) (digits-Leads 19 n)
    ∙ ap (λ v. checked_digits v 0) (sym (append-nil (dec_digits 20 n)))
    ∙ digits-read 20 n [] (omega arith) h
