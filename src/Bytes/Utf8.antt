-- ===== src/Bytes/Utf8.antt =====
-- `String::from_utf8_lossy` of Rust's standard library: what is not UTF-8 becomes U+FFFD.
use chatnoir_resiliparse.Prelude.{
  ℕ, zero, suc, ◌+◌, Bool, true, false, ◌&&◌, [], ◌∷◌, ◌++◌, leb, ltb, ◌==◌, if◌then◌else◌, length,
  take, drop, all,
}
use chatnoir_resiliparse.Bytes.{Bytes}

abbrev pub within : ℕ → ℕ → ℕ → Bool
within low high c = leb low c && leb c high

-- The next byte, if there is one in a range.
abbrev head_within : ℕ → ℕ → Bytes → Bool
head_within low high [] = false
head_within low high (c ∷ cs) = within low high c

abbrev is_continuation_byte : Bytes → Bool
is_continuation_byte v = head_within 128 191 v

-- The continuation bytes after the second one: how many of the `n` wanted are there.
abbrev continuations : ℕ → Bytes → ℕ
continuations zero v = 0
continuations (suc n) v = if is_continuation_byte v then suc (continuations n (drop 1 v)) else 0

-- The length of the sequence that a lead byte begins, or of its longest valid part, and whether it
-- is whole. `low` and `high` bound the second byte and `more` bytes follow that.
abbrev sequence : ℕ → ℕ → ℕ → Bytes → ℕ × Bool
sequence low high more v =
    let n = continuations more (drop 1 v) in
    if head_within low high v then (n + 2, n == more) else (1, false)

unfoldable pub utf8_step : ℕ → Bytes → ℕ × Bool
utf8_step c v =
    if ltb c 128
    then (1, true)
    else if within 194 223 c
    then sequence 128 191 0 v
    else if c == 224
    then sequence 160 191 1 v
    else if c == 237
    then sequence 128 159 1 v
    else if within 225 239 c
    then sequence 128 191 1 v
    else if c == 240
    then sequence 144 191 2 v
    else if within 241 243 c
    then sequence 128 191 2 v
    else if c == 244
    then sequence 128 143 2 v
    else (1, false)

abbrev replacement : Bytes
replacement = 239 ∷ 191 ∷ 189 ∷ []

-- Each pass takes a byte at least, so the length is enough fuel.
unfoldable pub lossy : ℕ → Bytes → Bytes
unfolding utf8_step
lossy fuel [] = []
lossy zero (c ∷ cs) = []
lossy (suc fuel) (c ∷ cs) =
    let (n, whole) = utf8_step c cs in
    let rest = lossy fuel (drop n (c ∷ cs)) in
    (if whole then take n (c ∷ cs) else replacement) ++ rest

unfoldable pub from_utf8_lossy : Bytes → Bytes
unfolding lossy
from_utf8_lossy v = lossy (length v) v

-- ASCII text is kept.
abbrev pub is_ascii : Bytes → Bool
is_ascii v = all (λ c. ltb c 128) v
