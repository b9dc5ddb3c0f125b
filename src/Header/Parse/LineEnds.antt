-- ===== src/Header/Parse/LineEnds.antt =====
-- Where the current line stands in the block, and the tests that end a line or the block.
use chatnoir_resiliparse.Prelude.{
  ℕ, zero, suc, ◌+◌, ◌≡◌, refl, ap, ◌∙◌, Bool, true, false, some, [], ◌∷◌, ◌++◌, ◌≤◌, length, take,
  drop, last?, arith, Option-cases, inl, inr, length-append, length-take, drop-append_left,
}
use chatnoir_resiliparse.Bytes.{Bytes, is_empty, trim_ascii_end, is_ascii_whitespace}
use chatnoir_resiliparse.Header.{HeaderMap}
use chatnoir_resiliparse.Header.Parse.{
  Parser, raw, push, next_line, current_line, ends_with_cr, sep_len, ends_block,
  split_and_push_parsed_line,
}
use chatnoir_resiliparse.Header.Parse.Reference.{is_last_line, last?-append_cons}
use chatnoir_resiliparse.Header.Parse.Lines.{IsFresh}

-- The current line starts inside the block.
abbrev pub IsParser : Parser → Type 0
IsParser p = p.line_start ≤ length (raw p)

last?-append : (xs ys : Bytes) (a : ℕ) → last? ys ≡ some a → last? (xs ++ ys) ≡ some a
last?-append xs [] a h = cc
last?-append xs (y ∷ ys) a h = last?-append_cons xs y ys ∙ h

last?-drop : (n : ℕ) (xs : Bytes) (x y : ℕ) → drop n xs ≡ x ∷ [] → last? xs ≡ some y → x ≡ y
last?-drop zero xs x y h l = ground arith
last?-drop (suc n) [] x y h l = cc
last?-drop (suc zero) (z ∷ []) x y h l = cc
last?-drop (suc (suc n)) (z ∷ []) x y h l = cc
last?-drop (suc n) (z ∷ w ∷ xs) x y h l = last?-drop n (w ∷ xs) x y h l

-- In quirks mode a line of one byte is a line feed, so it is blank.
pub short_is_blank :
    (line : Bytes)
    → last? line ≡ some b'\n'
    → length line ≡ 1
    → is_empty (trim_ascii_end line) ≡ true
unfolding trim_ascii_end is_ascii_whitespace
short_is_blank [] l h = cc
short_is_blank (x ∷ []) l h = ground arith
short_is_blank (x ∷ y ∷ zs) l h = absurd (omega arith)

-- The test of the loop is the test of the byte-wise parser, on a line that ends in a line feed.
ends_block-eq :
    (quirks : Bool) (line : Bytes)
    → last? line ≡ some b'\n'
    → ends_block quirks (sep_len quirks) line ≡ is_last_line quirks line
unfolding ends_block
ends_block-eq true line l = ground (arith, short_is_blank line l)
ends_block-eq false line l = ground arith

-- So does a CR LF that is split between two chunks.
two_are_blank :
    (before : Bytes)
    → ((x : ℕ) → before ≡ x ∷ [] → x ≡ b'\r')
    → length (before ++ (b'\n' ∷ [])) ≡ 2
    → is_empty (trim_ascii_end (before ++ (b'\n' ∷ []))) ≡ true
unfolding trim_ascii_end is_ascii_whitespace
two_are_blank [] cr h = absurd (omega arith)
two_are_blank (x ∷ []) cr h = ground (arith, cr x refl)
two_are_blank (x ∷ y ∷ zs) cr h = absurd (omega (arith, length-append zs (b'\n' ∷ [])))

pub split_ends_block :
    (quirks : Bool) (p : Parser)
    → IsParser p
    → ends_with_cr (raw p) ≡ true
    → ends_block quirks 2 (current_line (push (b'\n' ∷ []) p))
      ≡ is_last_line quirks (current_line (push (b'\n' ∷ []) p))
unfolding ends_block
split_ends_block false p v cr = ground arith
split_ends_block true p v cr =
    let e = drop-append_left p.line_start (raw p) (b'\n' ∷ []) v in
    rw e (elim (Option-cases (last? (raw p))) [
      | inl none_last ↦ ground arith
      | inr (y, last) ↦ ground (
        arith,
        two_are_blank (drop p.line_start (raw p))
            (λ x one. last?-drop p.line_start (raw p) x y one last ∙ cr_of y last),
      )
    ])
  where
    cr_of : (y : ℕ) → last? (raw p) ≡ some y → y ≡ b'\r'
    cr_of y last = ground arith

pub raw-split_line :
    (n : ℕ) (h : HeaderMap) (expect : Bool)
    → (split_and_push_parsed_line n h expect).0.raw_header_block ≡ h.raw_header_block
unfolding split_and_push_parsed_line
raw-split_line n h true = refl
raw-split_line n h false = ground arith

pub next_line-IsParser : (p : Parser) → IsParser (next_line p) × (raw (next_line p) ≡ raw p)
unfolding next_line
next_line-IsParser p =
    let e = raw-split_line p.line_start p.map p.expect_status_line in
    (omega (arith, ap length e), e)

-- Behind a line feed a chunk is fresh, whatever it begins with.
pub next_line-IsFresh :
    (p : Parser) (b rest : Bytes) → last? b ≡ some b'\n' → IsFresh (next_line (push b p)) rest
next_line-IsFresh p b rest l =
    ground (arith, (next_line-IsParser (push b p)).1, last?-append (raw p) b b'\n' l)

pub length-push-take :
    (n : ℕ) (rest : Bytes) (p : Parser)
    → n ≤ length rest
    → length (raw (next_line (push (take n rest) p))) ≡ length (raw p) + n
length-push-take n rest p h = omega (
  arith,
  ap length (next_line-IsParser (push (take n rest) p)).1,
  length-append (raw p) (take n rest),
  length-take n rest,
)

-- The test that the loop makes on the line just pushed.
pub ends_block-push :
    (quirks : Bool) (p : Parser) (b : Bytes)
    → IsParser p
    → last? b ≡ some b'\n'
    → ends_block quirks (sep_len quirks) (current_line (push b p))
      ≡ is_last_line quirks (current_line (push b p))
ends_block-push quirks p b v l =
    let e = drop-append_left p.line_start (raw p) b v in
    ends_block-eq quirks (current_line (push b p))
      (ap last? e ∙ last?-append (drop p.line_start (raw p)) b b'\n' l)
