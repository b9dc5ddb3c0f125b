-- ===== src/Record/Number.antt =====
-- fastwarc-rs/src/warc/record.rs: numbers in headers. `_parse_content_length_bytes`, and Rust's
-- `str::parse::<u64>`, which the header parser calls.
pub mod Agree
use chatnoir_resiliparse.Prelude.{
  ℕ, ◌+◌, ◌-◌, ◌*◌, ◌&&◌, Bool, Option, none, some, [], ◌∷◌, if◌then◌else◌, leb, ltb, ◌==◌, min,
}
use chatnoir_resiliparse.Prelude.Int.{u64_mod}
use chatnoir_resiliparse.Bytes.{Bytes}

unfoldable pub is_ascii_digit : ℕ → Bool
is_ascii_digit b = leb b'0' b && leb b b'9'

-- The loop over the bytes, on the number so far.
unfoldable pub parse_digits : Bytes → ℕ → ℕ
parse_digits [] parsed = parsed
parse_digits (b ∷ bs) parsed =
    let rest = parse_digits bs (min (u64_mod - 1) (min (u64_mod - 1) (parsed * 10) + (b - b'0'))) in
    if is_ascii_digit b then rest else 0

unfoldable pub parse_content_length_bytes : Bytes → ℕ
unfolding parse_digits
parse_content_length_bytes value = parse_digits value 0

-- The digits of `str::parse::<u64>`, which fails where the number does not fit.
unfoldable pub checked_digits : Bytes → ℕ → Option ℕ
checked_digits [] n = some n
checked_digits (b ∷ bs) n =
    let m = n * 10 + (b - b'0') in
    let rest = checked_digits bs m in if is_ascii_digit b && ltb m u64_mod then rest else none

unfoldable pub parse_u64 : Bytes → Option ℕ
unfolding checked_digits
parse_u64 [] = none
parse_u64 (b ∷ []) = checked_digits (b ∷ []) 0
parse_u64 (b ∷ c ∷ bs) =
    if b == b'+' then checked_digits (c ∷ bs) 0 else checked_digits (b ∷ c ∷ bs) 0
