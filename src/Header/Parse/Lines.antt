-- ===== src/Header/Parse/Lines.antt =====
-- Reading up to a line's end at once is reading its bytes one by one.
use chatnoir_resiliparse.Prelude.{
  ℕ, zero, suc, ◌+◌, ◌≡◌, refl, sym, ap, Bool, true, false, ◌&&◌, none, some, [], ◌∷◌, ◌++◌, ◌≤◌,
  if◌then◌else◌, length, take, drop, last?, arith, Option-cases, inl, inr,
}
use chatnoir_resiliparse.Bytes.{Bytes, memchr, find_crlf, starts_lf}
use chatnoir_resiliparse.Header.Parse.{
  Parser, raw, push, next_line, current_line, ends_with_cr, find_eol, sep_len,
}
use chatnoir_resiliparse.Header.Parse.Reference.{
  is_last_line, run, push-nil, push-push, ends_with_cr-push,
}

-- The chunk does not begin with the line feed of a CR LF that the block has begun.
abbrev pub IsFresh : Parser → Bytes → Type 0
IsFresh p chunk = (ends_with_cr (raw p) && starts_lf chunk) ≡ false

pub run_no_eol :
    (quirks : Bool) (chunk tail : Bytes) (p : Parser)
    → find_eol quirks chunk ≡ none
    → IsFresh p chunk
    → run quirks (chunk ++ tail) p ≡ run quirks tail (push chunk p)
unfolding run find_eol memchr find_crlf
run_no_eol quirks [] tail p h f = ap (run quirks tail) (sym (push-nil p))
run_no_eol true (c ∷ cs) tail p h f = ground (
  arith,
  run_no_eol true cs tail (push (c ∷ []) p),
  push-push (c ∷ []) cs p,
  ends_with_cr-push c p,
)
run_no_eol false (c ∷ cs) tail p h f = ground (
  arith,
  run_no_eol false cs tail (push (c ∷ []) p),
  push-push (c ∷ []) cs p,
  ends_with_cr-push c p,
)

-- A line of `n` bytes is read, and what follows it.
abbrev pub after_line : Bool → ℕ → Bytes → Bytes → Parser → Parser × Bytes
after_line quirks n chunk tail p =
    let p' = push (take n chunk) p in
    if is_last_line quirks (current_line p')
    then (p', drop n chunk ++ tail)
    else run quirks (drop n chunk ++ tail) (next_line p')

run_lf :
    (chunk tail : Bytes) (p : Parser) (n eol : ℕ)
    → find_eol true chunk ≡ some eol
    → n ≡ eol + 1
    → run true (chunk ++ tail) p ≡ after_line true n chunk tail p
unfolding run find_eol memchr
run_lf [] tail p n eol h e = cc
run_lf (c ∷ cs) tail p zero eol h e = absurd (omega arith)
run_lf (c ∷ cs) tail p (suc zero) eol h e = ground arith
run_lf (c ∷ cs) tail p (suc (suc m)) eol h e = elim (Option-cases (memchr b'\n' cs)) [
  | inl q ↦ ground arith
  | inr (i, q) ↦
      ground (
        arith,
        run_lf cs tail (push (c ∷ []) p) (suc m) i q,
        push-push (c ∷ []) (take (suc m) cs) p,
      )
]

run_crlf :
    (chunk tail : Bytes) (p : Parser) (n eol : ℕ)
    → find_eol false chunk ≡ some eol
    → IsFresh p chunk
    → n ≡ eol + 2
    → run false (chunk ++ tail) p ≡ after_line false n chunk tail p
unfolding run find_eol find_crlf
run_crlf [] tail p n eol h f e = cc
run_crlf (c ∷ []) tail p n eol h f e = ground arith
run_crlf (c ∷ d ∷ cs) tail p zero eol h f e = absurd (omega arith)
run_crlf (c ∷ d ∷ cs) tail p (suc zero) eol h f e = absurd (omega arith)
run_crlf (c ∷ d ∷ cs) tail p (suc (suc zero)) eol h f e =
    ground (arith, ends_with_cr-push c p, push-push (c ∷ []) (d ∷ []) p)
run_crlf (c ∷ d ∷ cs) tail p (suc (suc (suc m))) eol h f e =
    elim (Option-cases (find_crlf (d ∷ cs))) [
      | inl q ↦ ground arith
      | inr (i, q) ↦ ground (
        arith,
        run_crlf (d ∷ cs) tail (push (c ∷ []) p) (suc (suc m)) i q,
        ends_with_cr-push c p,
        push-push (c ∷ []) (take (suc (suc m)) (d ∷ cs)) p,
      )
    ]

pub run_eol :
    (quirks : Bool) (chunk tail : Bytes) (p : Parser) (eol : ℕ)
    → find_eol quirks chunk ≡ some eol
    → IsFresh p chunk
    → run quirks (chunk ++ tail) p ≡ after_line quirks (eol + sep_len quirks) chunk tail p
run_eol true chunk tail p eol h f = run_lf chunk tail p (eol + 1) eol h refl
run_eol false chunk tail p eol h f = run_crlf chunk tail p (eol + 2) eol h f refl

-- The line found lies within the chunk, and a line feed is its last byte.
abbrev EndsIn : ℕ → Bytes → Type 0
EndsIn n chunk = (n ≤ length chunk) × (last? (take n chunk) ≡ some b'\n')

lf_ends :
    (chunk : Bytes) (n eol : ℕ) → find_eol true chunk ≡ some eol → n ≡ eol + 1 → EndsIn n chunk
unfolding find_eol memchr
lf_ends [] n eol h e = cc
lf_ends (c ∷ cs) zero eol h e = absurd (omega arith)
lf_ends (c ∷ cs) (suc zero) eol h e = ground arith
lf_ends (c ∷ []) (suc (suc m)) eol h e = ground arith
lf_ends (c ∷ d ∷ cs) (suc (suc m)) eol h e = elim (Option-cases (memchr b'\n' (d ∷ cs))) [
  | inl q ↦ ground arith
  | inr (i, q) ↦ ground (arith, lf_ends (d ∷ cs) (suc m) i q)
]

crlf_ends :
    (chunk : Bytes) (n eol : ℕ) → find_eol false chunk ≡ some eol → n ≡ eol + 2 → EndsIn n chunk
unfolding find_eol find_crlf
crlf_ends [] n eol h e = cc
crlf_ends (c ∷ []) n eol h e = ground arith
crlf_ends (c ∷ d ∷ cs) zero eol h e = absurd (omega arith)
crlf_ends (c ∷ d ∷ cs) (suc zero) eol h e = absurd (omega arith)
crlf_ends (c ∷ d ∷ cs) (suc (suc zero)) eol h e = ground arith
crlf_ends (c ∷ d ∷ cs) (suc (suc (suc m))) eol h e = elim (Option-cases (find_crlf (d ∷ cs))) [
  | inl q ↦ ground arith
  | inr (i, q) ↦ ground (arith, crlf_ends (d ∷ cs) (suc (suc m)) i q)
]

pub eol_ends :
    (quirks : Bool) (chunk : Bytes) (eol : ℕ)
    → find_eol quirks chunk ≡ some eol
    → (eol + sep_len quirks ≤ length chunk)
      × (last? (take (eol + sep_len quirks) chunk) ≡ some b'\n')
eol_ends true chunk eol h = lf_ends chunk (eol + 1) eol h refl
eol_ends false chunk eol h = crlf_ends chunk (eol + 2) eol h refl
