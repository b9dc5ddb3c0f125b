-- ===== src/Header/Sanitize.antt =====
-- fastwarc-rs/src/warc/header.rs: `_sanitize_header_value`.
pub mod Laws
pub mod Normal
use chatnoir_resiliparse.Prelude.{
  ℕ, ◌≡◌, refl, Bool, true, false, ◌&&◌, List, [], ◌∷◌, ◌==◌, if◌then◌else◌, arith, Bool-cases, inl,
  inr,
}
use chatnoir_resiliparse.Bytes.{Bytes, trim_ascii}

-- The closure of `flat_map`, over what is left of the value.
unfoldable pub sanitize_bytes : Bool → Bytes → Bytes
sanitize_bytes is_key [] = []
sanitize_bytes is_key (b ∷ bs) =
    let rest = sanitize_bytes is_key bs in
    if b == b'\r'
    then rest
    else if b == b'\n'
    then b' ' ∷ rest
    else if b == b':' && is_key
    then rest
    else b ∷ rest

unfoldable pub sanitize_header_value : Bytes → Bool → Bytes
unfolding sanitize_bytes
sanitize_header_value value is_key = sanitize_bytes is_key (trim_ascii value)
