-- ===== src/Header/Parse/Reference.antt =====
-- The header parser as it would read one byte at a time: no chunks, no search, no length limit.
use chatnoir_resiliparse.Prelude.{
  ℕ, ◌≡◌, refl, ap, Bool, true, false, ◌&&◌, ◌||◌, List, [], ◌∷◌, ◌++◌, ◌==◌, if◌then◌else◌, length,
  append-nil, append_assoc, length-append, last?, is_nil, arith,
}
use chatnoir_resiliparse.Bytes.{Bytes, is_empty, trim_ascii_end}
use chatnoir_resiliparse.Header.Parse.{
  Parser, raw, push, split_line, next_line, current_line, ends_with_cr, is_cr,
}

-- The byte `c`, read in state `p`, ends a line: a line feed, behind a CR unless in quirks mode.
abbrev pub completes : Bool → Parser → ℕ → Bool
completes quirks p c = c == b'\n' && (quirks || ends_with_cr (raw p))

-- The line ends the block: CR LF alone, or in quirks mode any blank line.
abbrev pub is_last_line : Bool → Bytes → Bool
is_last_line true line = is_empty (trim_ascii_end line)
is_last_line false line = length line == 2

abbrev pub finish : Parser → Parser
finish p = if is_nil (current_line p) then p else split_line p

-- The final state, and the bytes left.
unfoldable pub run : Bool → Bytes → Parser → Parser × Bytes
run quirks [] p = (finish p, [])
run quirks (c ∷ cs) p =
    let p' = push (c ∷ []) p in
    let within = run quirks cs p' in
    let next = run quirks cs (next_line p') in
    if completes quirks p c
    then (if is_last_line quirks (current_line p') then (p', cs) else next)
    else within

pub push-nil : (p : Parser) → push [] p ≡ p
push-nil p = ground (arith, append-nil (raw p))

pub push-push : (a b : Bytes) (p : Parser) → push b (push a p) ≡ push (a ++ b) p
push-push a b p = ground (arith, append_assoc (raw p) a b, length-append a b)

pub last?-append_cons {ℓ} :
    {A : Type ℓ} (xs : List A) (y : A) (ys : List A) → last? (xs ++ (y ∷ ys)) ≡ last? (y ∷ ys)
last?-append_cons [] y ys = refl
last?-append_cons (x ∷ []) y ys = refl
last?-append_cons (x ∷ z ∷ xs) y ys = last?-append_cons (z ∷ xs) y ys

pub ends_with_cr-push : (c : ℕ) (p : Parser) → ends_with_cr (raw (push (c ∷ []) p)) ≡ (c == b'\r')
ends_with_cr-push c p = ap is_cr (last?-append_cons (raw p) c [])
