-- ===== src/Header/Sanitize/Normal.antt =====
-- A sanitized value is in a normal form: trimmed, on one line, and left alone by a second pass.
use chatnoir_resiliparse.Prelude.{
  ℕ, ◌≡◌, refl, ap, ◌∙◌, false, ◌&&◌, [], ◌∷◌, arith, Bool-cases, inl, inr, length,
}
use chatnoir_resiliparse.Bytes.{
  Bytes, is_ascii_whitespace, is_empty, trim_ascii, trim_ascii_start, trim_ascii_end,
}
use chatnoir_resiliparse.Bytes.Trim.{trim_ascii_comm, length-trim_ascii_start-le}
use chatnoir_resiliparse.Header.Sanitize.{sanitize_bytes, sanitize_header_value}
use chatnoir_resiliparse.Header.Sanitize.Laws.{Lacks, sanitize_bytes-Lacks}

-- Neither end is white space.
pub record IsTrimmed (v : Bytes) : Type 0 where
  pub start_stays : trim_ascii_start v ≡ v
  pub end_stays : trim_ascii_end v ≡ v

pub trim_ascii_end-cons :
    (c : ℕ) (cs : Bytes)
    → trim_ascii_end (c ∷ cs) ≡ c ∷ cs
    → (trim_ascii_end cs ≡ cs) × ((is_ascii_whitespace c && is_empty cs) ≡ false)
unfolding trim_ascii_end
trim_ascii_end-cons c cs h = ground arith

pub trim_ascii_start-cons :
    (c : ℕ) (cs : Bytes) → trim_ascii_start (c ∷ cs) ≡ c ∷ cs → is_ascii_whitespace c ≡ false
unfolding trim_ascii_start
trim_ascii_start-cons c cs h = elim (Bool-cases (is_ascii_whitespace c)) [
  | inr k ↦ k
  | inl w ↦
      let e : trim_ascii_start cs ≡ c ∷ cs = rw w at h in
      absurd (omega (arith, ap length e, length-trim_ascii_start-le cs))
]

trim_ascii_start_idem : (v : Bytes) → trim_ascii_start (trim_ascii_start v) ≡ trim_ascii_start v
unfolding trim_ascii_start
trim_ascii_start_idem [] = refl
trim_ascii_start_idem (c ∷ cs) = ground (arith, trim_ascii_start_idem cs)

trim_ascii_end_idem : (v : Bytes) → trim_ascii_end (trim_ascii_end v) ≡ trim_ascii_end v
unfolding trim_ascii_end
trim_ascii_end_idem [] = refl
trim_ascii_end_idem (c ∷ cs) = ground (arith, trim_ascii_end_idem cs)

pub trim_ascii-IsTrimmed : (v : Bytes) → IsTrimmed (trim_ascii v)
trim_ascii-IsTrimmed v = record {
  start_stays = rw (← trim_ascii_comm v) (trim_ascii_start_idem (trim_ascii_end v));
  end_stays = unfold trim_ascii in trim_ascii_end_idem (trim_ascii_start v);
}

pub IsTrimmed-trim_ascii : {v : Bytes} → IsTrimmed v → trim_ascii v ≡ v
unfolding trim_ascii
IsTrimmed-trim_ascii t = ap trim_ascii_end t.start_stays ∙ t.end_stays

-- The byte at the end is kept, so what is not empty stays so.
is_empty-sanitize_bytes :
    (v : Bytes) → trim_ascii_end v ≡ v → is_empty (sanitize_bytes false v) ≡ is_empty v
unfolding sanitize_bytes is_ascii_whitespace
is_empty-sanitize_bytes [] h = refl
is_empty-sanitize_bytes (c ∷ cs) h =
    ground
      (arith, trim_ascii_end-cons c cs h, is_empty-sanitize_bytes cs (trim_ascii_end-cons c cs h).0)

end-sanitize_bytes :
    (v : Bytes)
    → trim_ascii_end v ≡ v
    → trim_ascii_end (sanitize_bytes false v) ≡ sanitize_bytes false v
unfolding sanitize_bytes trim_ascii_end is_ascii_whitespace
end-sanitize_bytes [] h = refl
end-sanitize_bytes (c ∷ cs) h = ground (
  arith,
  trim_ascii_end-cons c cs h,
  is_empty-sanitize_bytes cs (trim_ascii_end-cons c cs h).0,
  end-sanitize_bytes cs (trim_ascii_end-cons c cs h).0,
)

start-sanitize_bytes :
    (v : Bytes)
    → trim_ascii_start v ≡ v
    → trim_ascii_start (sanitize_bytes false v) ≡ sanitize_bytes false v
unfolding sanitize_bytes trim_ascii_start
start-sanitize_bytes [] h = refl
start-sanitize_bytes (c ∷ cs) h =
    unfold is_ascii_whitespace in ground (arith, trim_ascii_start-cons c cs h)

pub sanitize_bytes_id : (v : Bytes) → Lacks b'\r' v → Lacks b'\n' v → sanitize_bytes false v ≡ v
unfolding sanitize_bytes
sanitize_bytes_id [] r n = refl
sanitize_bytes_id (c ∷ cs) r n = ground (arith, sanitize_bytes_id cs)

pub sanitize-IsTrimmed : (v : Bytes) → IsTrimmed (sanitize_header_value v false)
unfolding sanitize_header_value
sanitize-IsTrimmed v =
    let t = trim_ascii-IsTrimmed v in
    record {
      start_stays = start-sanitize_bytes (trim_ascii v) t.start_stays;
      end_stays = end-sanitize_bytes (trim_ascii v) t.end_stays;
    }

-- A sanitized value is trimmed, holds no CR and no LF, and is left as it is when sanitized again.
pub sanitize_value_normal :
    (v : Bytes)
    → (trim_ascii (sanitize_header_value v false) ≡ sanitize_header_value v false)
      × Lacks b'\r' (sanitize_header_value v false)
      × Lacks b'\n' (sanitize_header_value v false)
      × (sanitize_header_value (sanitize_header_value v false) false
          ≡ sanitize_header_value v false)
unfolding sanitize_header_value
sanitize_value_normal v =
    let s = sanitize_header_value v false in
    let t = IsTrimmed-trim_ascii (sanitize-IsTrimmed v) in
    let (no_cr, no_lf) = sanitize_bytes-Lacks false (trim_ascii v) in
    (t, no_cr, no_lf, ap (sanitize_bytes false) t ∙ sanitize_bytes_id s no_cr no_lf)
