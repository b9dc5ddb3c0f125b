-- ===== src/Header/Write/Lines.antt =====
-- One written line, read back.
use chatnoir_resiliparse.Prelude.{
  ◌≡◌, refl, sym, ap, ◌∙◌, Bool, true, false, some, [], ◌∷◌, ◌++◌, if◌then◌else◌, length,
  length-append, append_assoc, append-nil, arith,
}
use chatnoir_resiliparse.Bytes.{
  Bytes, is_empty, is_ascii_whitespace, trim_ascii, trim_ascii_start, trim_ascii_end, memchr,
}
use chatnoir_resiliparse.Bytes.Trim.{trim_ascii_comm}
use chatnoir_resiliparse.Header.Sanitize.Laws.{Lacks}
use chatnoir_resiliparse.Header.Sanitize.Normal.{IsTrimmed, trim_ascii_start-cons}
use chatnoir_resiliparse.Header.Parse.{ends_with_cr, is_cr}
use chatnoir_resiliparse.Header.Parse.Reference.{is_last_line, last?-append_cons}
use chatnoir_resiliparse.Header.View.{Block, add_line, read_block}
use chatnoir_resiliparse.Header.Write.{crlf}

read_within :
    (quirks : Bool) (t rest line : Bytes) (expect : Bool) (b : Block)
    → Lacks b'\n' t
    → read_block quirks (t ++ rest) line expect b ≡ read_block quirks rest (line ++ t) expect b
unfolding read_block
read_within quirks [] rest line expect b l =
    ap (λ x. read_block quirks rest x expect b) (sym (append-nil line))
read_within quirks (c ∷ cs) rest line expect b (n, l) = rw n (
    read_within quirks cs rest (line ++ (c ∷ [])) expect b l
    ∙ ap (λ x. read_block quirks rest x expect b) (append_assoc line (c ∷ []) cs))

-- A CR LF behind some bytes without a line feed ends their line.
read_crlf :
    (quirks : Bool) (t rest : Bytes) (expect : Bool) (b : Block)
    → read_block quirks (crlf ++ rest) t expect b ≡ (
        if is_last_line quirks (t ++ crlf)
        then (b, rest)
        else read_block quirks rest [] false (add_line expect (t ++ crlf) b))
unfolding read_block
read_crlf quirks t rest expect b =
    let e = append_assoc t (b'\r' ∷ []) (b'\n' ∷ []) in
    let cr : ends_with_cr (t ++ (b'\r' ∷ [])) ≡ true = ap is_cr (last?-append_cons t b'\r' []) in
    ground arith

pub read_line :
    (quirks : Bool) (t rest : Bytes) (expect : Bool) (b : Block)
    → Lacks b'\n' t
    → read_block quirks (t ++ (crlf ++ rest)) [] expect b ≡ (
        if is_last_line quirks (t ++ crlf)
        then (b, rest)
        else read_block quirks rest [] false (add_line expect (t ++ crlf) b))
read_line quirks t rest expect b l =
    read_within quirks t (crlf ++ rest) [] expect b l ∙ read_crlf quirks t rest expect b

-- The empty line ends the block.
pub read_end :
    (quirks : Bool) (rest : Bytes) (expect : Bool) (b : Block)
    → read_block quirks (crlf ++ rest) [] expect b ≡ (b, rest)
unfolding trim_ascii_end is_ascii_whitespace
read_end true rest expect b = read_crlf true [] rest expect b
read_end false rest expect b = read_crlf false [] rest expect b

-- The bytes begin with one that is not white space.
abbrev pub IsSolid : Bytes → Type 0
IsSolid [] = ⊥
IsSolid (c ∷ cs) = is_ascii_whitespace c ≡ false

pub IsTrimmed-IsSolid : (v : Bytes) → IsTrimmed v → is_empty v ≡ false → IsSolid v
IsTrimmed-IsSolid [] t e = cc
IsTrimmed-IsSolid (c ∷ cs) t e = trim_ascii_start-cons c cs t.start_stays

pub IsSolid-not_last :
    (quirks : Bool) (t : Bytes) → IsSolid t → is_last_line quirks (t ++ crlf) ≡ false
unfolding trim_ascii_end
IsSolid-not_last quirks [] s = absurd s
IsSolid-not_last true (c ∷ cs) s = rw s refl
IsSolid-not_last false (c ∷ cs) s = let e = length-append cs crlf in ground arith

trim_ascii_end-crlf : (v : Bytes) → trim_ascii_end (v ++ crlf) ≡ trim_ascii_end v
unfolding trim_ascii_end is_ascii_whitespace
trim_ascii_end-crlf [] = refl
trim_ascii_end-crlf (c ∷ cs) = ground (arith, trim_ascii_end-crlf cs)

-- A trimmed text is what is left of it with its line end, and with a space in front.
pub trim-crlf : (v : Bytes) → IsTrimmed v → trim_ascii (v ++ crlf) ≡ v
trim-crlf v t =
    sym (trim_ascii_comm (v ++ crlf))
    ∙ ap trim_ascii_start (trim_ascii_end-crlf v ∙ t.end_stays)
    ∙ t.start_stays

trim_ascii_space : (v : Bytes) → IsTrimmed v → trim_ascii_start (trim_ascii_end (b' ' ∷ v)) ≡ v
unfolding trim_ascii_end trim_ascii_start is_ascii_whitespace
trim_ascii_space [] t = refl
trim_ascii_space (c ∷ cs) t = rw t.end_stays t.start_stays

pub trim-space_crlf : (v : Bytes) → IsTrimmed v → trim_ascii ((b' ' ∷ v) ++ crlf) ≡ v
trim-space_crlf v t =
    sym (trim_ascii_comm ((b' ' ∷ v) ++ crlf))
    ∙ ap trim_ascii_start (trim_ascii_end-crlf (b' ' ∷ v))
    ∙ trim_ascii_space v t

-- The first colon stands behind a key that has none.
pub memchr-colon :
    (k more : Bytes) → Lacks b':' k → memchr b':' (k ++ (b':' ∷ more)) ≡ some (length k)
unfolding memchr
memchr-colon [] more l = refl
memchr-colon (c ∷ cs) more (n, l) = ground (arith, memchr-colon cs more l)
