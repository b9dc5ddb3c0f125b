-- ===== src/Record/Decimal.antt =====
-- `to_string` of a number, which the record code writes into Content-Length.
pub mod RoundTrip
pub mod Stored
use chatnoir_resiliparse.Prelude.{ℕ, zero, suc, ◌+◌, ◌/◌, ◌%◌, [], ◌∷◌, ◌++◌, if◌then◌else◌, ltb}
use chatnoir_resiliparse.Bytes.{Bytes}

-- The digits of a number below 10 ^ `fuel`.
unfoldable pub dec_digits : ℕ → ℕ → Bytes
dec_digits zero n = []
dec_digits (suc fuel) n =
    let more = dec_digits fuel (n / 10) in
    let digit = b'0' + n % 10 in if ltb n 10 then digit ∷ [] else more ++ (digit ∷ [])

-- A `u64` is below 10 ^ 20.
unfoldable pub to_string : ℕ → Bytes
unfolding dec_digits
to_string n = dec_digits 20 n
