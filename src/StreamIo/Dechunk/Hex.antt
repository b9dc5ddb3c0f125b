-- ===== src/StreamIo/Dechunk/Hex.antt =====
-- The header that `ChunkedWriter` gives a chunk is the one that `ChunkedReader` reads.
use chatnoir_resiliparse.Prelude.{
  ℕ, zero, suc, ◌+◌, ◌*◌, ◌/◌, ◌%◌, ◌^◌, ◌<◌, ◌≡◌, refl, sym, ap, ◌∙◌, true, false, some, [], ◌∷◌,
  ◌++◌, arith, ltb, ◌==◌, append_assoc, append-nil, Bool-cases, inl, inr, ltb→lt, length,
  length-append,
}
use chatnoir_resiliparse.Prelude.Int.{u64_mod}
use chatnoir_resiliparse.Bytes.{
  Bytes, memchr, is_ascii_whitespace, trim_ascii, trim_ascii_end, trim_ascii_start,
}
use chatnoir_resiliparse.Bytes.Utf8.{is_ascii}
use chatnoir_resiliparse.Header.Text.Laws.{from_utf8_lossy_ascii}
use chatnoir_resiliparse.StreamIo.Chunked.{hex_digit, hex_digits, to_hex, crlf}
use chatnoir_resiliparse.StreamIo.Dechunk.{hex_value, checked_hex, from_hex, header_size}
use chatnoir_resiliparse.StreamIo.Dechunk.Spec.{IsHeader}

-- Text of bytes among which are all hexadecimal digits.
data Plain : Bytes → Type 0 where
  empty : Plain []
  more : (c : ℕ) (cs : Bytes) → 47 < c → c < 103 → Plain cs → Plain (c ∷ cs)

Plain-append : (v w : Bytes) → Plain v → Plain w → Plain (v ++ w)
Plain-append v w Plain.empty q = q
Plain-append v w (Plain.more c cs low high p) q =
    Plain.more c (cs ++ w) low high (Plain-append cs w p q)

digit-Plain : (d : ℕ) → d < 16 → Plain (hex_digit d ∷ [])
unfolding hex_digit
digit-Plain d h = Plain.more (hex_digit d) [] (ground arith) (ground arith) Plain.empty

digits-Plain : (fuel n : ℕ) → Plain (hex_digits fuel n)
unfolding hex_digits
digits-Plain zero n = Plain.empty
digits-Plain (suc fuel) n = elim (Bool-cases (ltb n 16)) [
  | inl one ↦ let k = ltb→lt n 16 one in rw one (digit-Plain n k)
  | inr two ↦ rw two (
      Plain-append (hex_digits fuel (n / 16)) (hex_digit (n % 16) ∷ []) (digits-Plain fuel (n / 16))
        (digit-Plain (n % 16) (omega arith)))
]

digit_value : (d : ℕ) → d < 16 → hex_value (hex_digit d) ≡ some d
unfolding hex_value hex_digit
digit_value d h = ground arith

-- The last digit of a number is read behind the others.
last_digit :
    (n : ℕ) (rest : Bytes)
    → n < u64_mod
    → checked_hex (hex_digit (n % 16) ∷ rest) (n / 16) ≡ checked_hex rest n
unfolding checked_hex
last_digit n rest small =
    let back : n / 16 * 16 + n % 16 ≡ n = omega arith in
    let fits : ltb n u64_mod ≡ true = ground arith in
    rw (checked_hex, digit_value (n % 16) (omega arith), back, fits) refl

digits-read :
    (fuel n : ℕ) (rest : Bytes)
    → n < 16 ^ fuel
    → n < u64_mod
    → checked_hex (hex_digits fuel n ++ rest) 0 ≡ checked_hex rest n
unfolding hex_digits
digits-read zero n rest h small = let e : 0 ≡ n = omega arith in ap (checked_hex rest) e
digits-read (suc fuel) n rest h small = elim (Bool-cases (ltb n 16)) [
  | inl one ↦
      let k = ltb→lt n 16 one in
      let none_before : n / 16 ≡ 0 = omega arith in
      let itself : n % 16 ≡ n = omega arith in
      rw one (
        ap (λ d. checked_hex (hex_digit d ∷ rest) 0) (sym itself)
        ∙ ap (checked_hex (hex_digit (n % 16) ∷ rest)) (sym none_before)
        ∙ last_digit n rest small)
  | inr two ↦ rw two (
      ap (λ v. checked_hex v 0)
        (append_assoc (hex_digits fuel (n / 16)) (hex_digit (n % 16) ∷ []) rest)
      ∙ digits-read fuel (n / 16) (hex_digit (n % 16) ∷ rest)
          (let p : 16 ^ suc fuel ≡ 16 ^ fuel * 16 = omega arith in omega arith) (omega arith)
      ∙ last_digit n rest small)
]

-- Text that begins with a byte of a digit, which is not a sign.
record Leads (v : Bytes) : Type 0 where
  first : ℕ
  others : Bytes
  splits : v ≡ first ∷ others
  low : 47 < first
  high : first < 103

length-hex_digits-pos : (fuel n : ℕ) → 0 < length (hex_digits (suc fuel) n)
unfolding hex_digits
length-hex_digits-pos fuel n = elim (Bool-cases (ltb n 16)) [
  | inl one ↦ rw one (omega arith)
  | inr two ↦
      rw two (
        let size = length-append (hex_digits fuel (n / 16)) (hex_digit (n % 16) ∷ []) in
        omega arith)
]

Plain-Leads : (v : Bytes) → Plain v → 0 < length v → Leads v
Plain-Leads v Plain.empty h = absurd (omega arith)
Plain-Leads v (Plain.more c cs low high p) h = record {
  first = c;
  others = cs;
  splits = refl;
  low = low;
  high = high;
}

from_hex-Leads : (v : Bytes) → Leads v → from_hex v ≡ checked_hex v 0
unfolding from_hex
from_hex-Leads v l = rw l.splits (go l.others)
  where
    go : (ds : Bytes) → from_hex (l.first ∷ ds) ≡ checked_hex (l.first ∷ ds) 0
    go [] = refl
    go (d ∷ ds) =
        let other : (l.first == b'+') ≡ false = let k = l.low in ground arith in rw other refl

to_hex-Leads : (n : ℕ) → Leads (to_hex n)
unfolding to_hex
to_hex-Leads n = Plain-Leads (hex_digits 16 n) (digits-Plain 16 n) (length-hex_digits-pos 15 n)

from_hex-to_hex : (n : ℕ) → n < u64_mod → from_hex (to_hex n) ≡ some n
unfolding to_hex checked_hex
from_hex-to_hex n h =
    from_hex-Leads (hex_digits 16 n) (to_hex-Leads n)
    ∙ ap (λ v. checked_hex v 0) (sym (append-nil (hex_digits 16 n)))
    ∙ digits-read 16 n [] (omega arith) h

Plain-is_ascii : (v : Bytes) → Plain v → is_ascii (v ++ crlf) ≡ true
Plain-is_ascii v Plain.empty = refl
Plain-is_ascii v (Plain.more c cs low high p) =
    let small : ltb c 128 ≡ true = ground arith in rw (small, Plain-is_ascii cs p) refl

not_white : (c : ℕ) → 47 < c → is_ascii_whitespace c ≡ false
unfolding is_ascii_whitespace
not_white c low = ground arith

trim_ascii_end-crlf : (v : Bytes) → Plain v → trim_ascii_end (v ++ crlf) ≡ v
unfolding trim_ascii_end is_ascii_whitespace
trim_ascii_end-crlf v Plain.empty = refl
trim_ascii_end-crlf v (Plain.more c cs low high p) =
    rw (not_white c low, trim_ascii_end-crlf cs p) refl

trim_ascii-crlf : (v : Bytes) → Plain v → 0 < length v → trim_ascii (v ++ crlf) ≡ v
unfolding trim_ascii trim_ascii_start
trim_ascii-crlf v Plain.empty h = absurd (omega arith)
trim_ascii-crlf v (Plain.more c cs low high p) h =
    rw (not_white c low) (trim_ascii_end-crlf (c ∷ cs) (Plain.more c cs low high p))

memchr-crlf : (v : Bytes) → Plain v → memchr b'\n' (v ++ crlf) ≡ some (suc (length v))
unfolding memchr
memchr-crlf v Plain.empty = refl
memchr-crlf v (Plain.more c cs low high p) =
    let other : (c == b'\n') ≡ false = ground arith in rw (other, memchr-crlf cs p) refl

-- The header of a chunk of `n` bytes.
pub to_hex-IsHeader : (n : ℕ) → n < u64_mod → IsHeader (to_hex n ++ crlf) n
unfolding header_size to_hex
to_hex-IsHeader n h =
    let digits = to_hex n in
    let p = digits-Plain 16 n in
    record {
      line_feed = suc (length digits);
      found = memchr-crlf digits p;
      last = let size = length-append digits crlf in omega arith;
      size =
          ap (λ v. from_hex (trim_ascii v))
            (from_utf8_lossy_ascii (digits ++ crlf) (Plain-is_ascii digits p))
          ∙ ap from_hex (trim_ascii-crlf digits p (length-hex_digits-pos 15 n))
          ∙ from_hex-to_hex n h;
    }
