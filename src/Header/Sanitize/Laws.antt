-- ===== src/Header/Sanitize/Laws.antt =====
-- What `_sanitize_header_value` leaves of a key or a value.
use chatnoir_resiliparse.Prelude.{ℕ, ◌≡◌, refl, ap, ◌∙◌, Bool, true, false, [], ◌∷◌, ◌==◌, arith}
use chatnoir_resiliparse.Bytes.{
  Bytes, is_ascii_whitespace, is_empty, to_lower, to_ascii_lowercase, trim_ascii, trim_ascii_start,
  trim_ascii_end,
}
use chatnoir_resiliparse.Header.Sanitize.{sanitize_bytes, sanitize_header_value}

-- No byte of the list is `b`.
abbrev pub Lacks : ℕ → Bytes → Type 0
Lacks b [] = Unit
Lacks b (c ∷ cs) = ((c == b) ≡ false) × Lacks b cs

pub sanitize_bytes-Lacks :
    (k : Bool) (v : Bytes) → Lacks b'\r' (sanitize_bytes k v) × Lacks b'\n' (sanitize_bytes k v)
unfolding sanitize_bytes
sanitize_bytes-Lacks k [] = (tt, tt)
sanitize_bytes-Lacks k (b ∷ bs) = ground (arith, sanitize_bytes-Lacks k bs)

pub sanitize_bytes-Lacks_colon : (v : Bytes) → Lacks b':' (sanitize_bytes true v)
unfolding sanitize_bytes
sanitize_bytes-Lacks_colon [] = tt
sanitize_bytes-Lacks_colon (b ∷ bs) = ground (arith, sanitize_bytes-Lacks_colon bs)

whitespace-to_lower : (c : ℕ) → is_ascii_whitespace (to_lower c) ≡ is_ascii_whitespace c
unfolding is_ascii_whitespace to_lower
whitespace-to_lower c = ground arith

trim_ascii_start-lowercase :
    (v : Bytes) → trim_ascii_start (to_ascii_lowercase v) ≡ to_ascii_lowercase (trim_ascii_start v)
unfolding trim_ascii_start to_ascii_lowercase
trim_ascii_start-lowercase [] = refl
trim_ascii_start-lowercase (c ∷ cs) =
    ground (arith, whitespace-to_lower c, trim_ascii_start-lowercase cs)

is_empty-lowercase : (v : Bytes) → is_empty (to_ascii_lowercase v) ≡ is_empty v
unfolding to_ascii_lowercase
is_empty-lowercase [] = refl
is_empty-lowercase (c ∷ cs) = refl

trim_ascii_end-lowercase :
    (v : Bytes) → trim_ascii_end (to_ascii_lowercase v) ≡ to_ascii_lowercase (trim_ascii_end v)
unfolding trim_ascii_end to_ascii_lowercase
trim_ascii_end-lowercase [] = refl
trim_ascii_end-lowercase (c ∷ cs) = ground (
  arith,
  whitespace-to_lower c,
  is_empty-lowercase (trim_ascii_end cs),
  trim_ascii_end-lowercase cs,
)

sanitize_bytes-lowercase :
    (k : Bool) (v : Bytes)
    → sanitize_bytes k (to_ascii_lowercase v) ≡ to_ascii_lowercase (sanitize_bytes k v)
unfolding sanitize_bytes to_ascii_lowercase to_lower
sanitize_bytes-lowercase k [] = refl
sanitize_bytes-lowercase k (b ∷ bs) = ground (arith, sanitize_bytes-lowercase k bs)

-- Folding the case of a key before or after it is sanitized makes no difference.
pub sanitize-lowercase :
    (v : Bytes) (k : Bool)
    → sanitize_header_value (to_ascii_lowercase v) k
      ≡ to_ascii_lowercase (sanitize_header_value v k)
unfolding sanitize_header_value trim_ascii
sanitize-lowercase v k =
    ap (λ t. sanitize_bytes k (trim_ascii_end t)) (trim_ascii_start-lowercase v)
    ∙ ap (sanitize_bytes k) (trim_ascii_end-lowercase (trim_ascii_start v))
    ∙ sanitize_bytes-lowercase k (trim_ascii_end (trim_ascii_start v))
