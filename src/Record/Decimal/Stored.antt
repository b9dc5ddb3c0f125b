-- ===== src/Record/Decimal/Stored.antt =====
-- A number that is stored as a header is found there.
use chatnoir_resiliparse.Prelude.{
  ℕ, zero, suc, ◌+◌, ◌%◌, ◌/◌, ◌<◌, ◌≡◌, refl, ap, ◌∙◌, Bool, true, false, ◌&&◌, some, [], ◌∷◌,
  ◌++◌, if◌then◌else◌, arith, ltb, Bool-cases, inl, inr, ◌==◌,
}
use chatnoir_resiliparse.Bytes.{
  Bytes, codes, trim_ascii, trim_ascii_start, trim_ascii_end, is_ascii_whitespace,
  eq_ignore_ascii_case, to_ascii_lowercase, bytes_eq, to_lower,
}
use chatnoir_resiliparse.Header.{HeaderMap}
use chatnoir_resiliparse.Header.Sanitize.{sanitize_header_value, sanitize_bytes}
use chatnoir_resiliparse.Header.Map.{get_bytes, get_bytes_multiple, set_bytes}
use chatnoir_resiliparse.Header.Map.Laws.{get_bytes-eq-head, get_multiple-set, head_or_none}
use chatnoir_resiliparse.Record.Number.{is_ascii_digit}
use chatnoir_resiliparse.Record.Decimal.{dec_digits, to_string}

abbrev pub AreDigits : Bytes → Type 0
AreDigits [] = Unit
AreDigits (c ∷ cs) = (is_ascii_digit c ≡ true) × AreDigits cs

AreDigits-append :
    (v : Bytes) (d : ℕ) → AreDigits v → is_ascii_digit d ≡ true → AreDigits (v ++ (d ∷ []))
AreDigits-append [] d k e = (e, tt)
AreDigits-append (c ∷ cs) d (h, k) e = (h, AreDigits-append cs d k e)

is_digit : (d : ℕ) → d < 10 → is_ascii_digit (b'0' + d) ≡ true
unfolding is_ascii_digit
is_digit d h = ground arith

digits-AreDigits : (fuel n : ℕ) → AreDigits (dec_digits fuel n)
unfolding dec_digits
digits-AreDigits zero n = tt
digits-AreDigits (suc fuel) n = elim (Bool-cases (ltb n 10)) [
  | inl one ↦ rw one (is_digit (n % 10) (omega arith), tt)
  | inr more ↦ rw more (
      AreDigits-append (dec_digits fuel (n / 10)) (b'0' + n % 10) (digits-AreDigits fuel (n / 10))
        (is_digit (n % 10) (omega arith)))
]

digit_stays :
    (c : ℕ)
    → is_ascii_digit c ≡ true
    → (is_ascii_whitespace c ≡ false) × ((c == b'\r') ≡ false) × ((c == b'\n') ≡ false)
unfolding is_ascii_digit is_ascii_whitespace
digit_stays c h = ground arith

trim_end-digits : (v : Bytes) → AreDigits v → trim_ascii_end v ≡ v
unfolding trim_ascii_end
trim_end-digits [] k = refl
trim_end-digits (c ∷ cs) (h, k) =
    let (w, r, n) = digit_stays c h in rw (w) (ap (◌∷◌ c) (trim_end-digits cs k))

trim_start-digits : (v : Bytes) → AreDigits v → trim_ascii_start v ≡ v
unfolding trim_ascii_start
trim_start-digits [] k = refl
trim_start-digits (c ∷ cs) (h, k) = let (w, r, n) = digit_stays c h in rw w refl

and_false : (b : Bool) → (b && false) ≡ false
and_false true = refl
and_false false = refl

sanitize_bytes-digits : (v : Bytes) → AreDigits v → sanitize_bytes false v ≡ v
unfolding sanitize_bytes
sanitize_bytes-digits [] k = refl
sanitize_bytes-digits (c ∷ cs) (h, k) =
    let (w, r, n) = digit_stays c h in
    rw (r, n, and_false (c == b':')) (ap (◌∷◌ c) (sanitize_bytes-digits cs k))

sanitize-digits : (v : Bytes) → AreDigits v → sanitize_header_value v false ≡ v
unfolding sanitize_header_value trim_ascii
sanitize-digits v k =
    ap (λ t. sanitize_bytes false (trim_ascii_end t)) (trim_start-digits v k)
    ∙ ap (sanitize_bytes false) (trim_end-digits v k)
    ∙ sanitize_bytes-digits v k

abbrev pub content_length_key : Bytes
content_length_key = codes "Content-Length"

key_stays :
    eq_ignore_ascii_case (sanitize_header_value content_length_key true) content_length_key ≡ true
unfolding eq_ignore_ascii_case sanitize_header_value trim_ascii trim_ascii_start trim_ascii_end
    is_ascii_whitespace sanitize_bytes bytes_eq to_ascii_lowercase to_lower
key_stays = refl

pub get-set-to_string :
    (n : ℕ) (h : HeaderMap)
    → get_bytes content_length_key (set_bytes content_length_key (to_string n) h)
      ≡ some (to_string n)
unfolding to_string
get-set-to_string n h =
    let v = to_string n in
    (get_bytes-eq-head content_length_key (set_bytes content_length_key v h)).1
    ∙ ap head_or_none (get_multiple-set content_length_key v content_length_key h)
    ∙ ap
        (λ b. head_or_none (
          if b
          then sanitize_header_value v false ∷ []
          else get_bytes_multiple content_length_key h))
        key_stays
    ∙ ap some (sanitize-digits v (digits-AreDigits 20 n))
