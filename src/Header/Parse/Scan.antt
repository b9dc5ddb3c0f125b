-- ===== src/Header/Parse/Scan.antt =====
-- One chunk of the loop agrees with the byte-wise parser.
use chatnoir_resiliparse.Prelude.{
  ℕ, zero, suc, ◌+◌, ◌-◌, ◌<◌, ◌≡◌, refl, sym, ap, ◌∙◌, Bool, true, false, ◌&&◌, none, some, [],
  ◌∷◌, ◌++◌, ◌==◌, ◌≤◌, if◌then◌else◌, ltb, ltb→lt, length, take, drop, arith, Option-cases,
  Bool-cases, inl, inr, length-append, length-drop, drop-drop,
}
use chatnoir_resiliparse.Bytes.{Bytes}
use chatnoir_resiliparse.Io.{invalid_data}
use chatnoir_resiliparse.Header.Parse.{
  Parser, raw, push, next_line, current_line, ends_with_cr, find_eol, sep_len, ends_block, Outcome,
  finished, more, failed, scan, read_chunk,
}
use chatnoir_resiliparse.Header.Parse.Reference.{is_last_line, run}
use chatnoir_resiliparse.Header.Parse.Lines.{IsFresh, run_no_eol, run_eol, eol_ends}
use chatnoir_resiliparse.Header.Parse.LineEnds.{
  IsParser, split_ends_block, next_line-IsParser, next_line-IsFresh, length-push-take,
  ends_block-push,
}

-- The result of a scan of `rest` with `tail` still unread, against the byte-wise parser. A failure
-- means that the limit may be passed.
abbrev pub Agrees : Bool → ℕ → ℕ → Bytes → Bytes → ℕ → Parser → Outcome × ℕ × Parser → Type 0
Agrees quirks max chunk_len rest tail consumed p (finished, k, q) =
    (run quirks (rest ++ tail) p ≡ (q, drop (k - consumed) rest ++ tail))
    × (consumed ≤ k)
    × (k ≤ consumed + length rest)
Agrees quirks max chunk_len rest tail consumed p (more, k, q) =
    (run quirks (rest ++ tail) p ≡ run quirks tail q)
    × (k ≡ consumed + length rest)
    × IsParser q
    × (length (raw q) ≡ length (raw p) + length rest)
Agrees quirks max chunk_len rest tail consumed p (failed e, k, q) =
    (e ≡ invalid_data) × (max < length (raw p) + length rest + chunk_len)

module _ (quirks : Bool) (max chunk_len n : ℕ) (rest tail : Bytes) (consumed : ℕ) (p q : Parser)
    (fits : n ≤ length rest)
    (step : run quirks (rest ++ tail) p ≡ run quirks (drop n rest ++ tail) q)
    (grown : length (raw q) ≡ length (raw p) + n) where
  -- A scan of what is left after a line is a scan of the whole.
  Agrees-line :
      (r : Outcome × ℕ × Parser)
      → Agrees quirks max chunk_len (drop n rest) tail (consumed + n) q r
      → Agrees quirks max chunk_len rest tail consumed p r
  Agrees-line (finished, k, q') (e, lo, hi) =
      let i : n + (k - (consumed + n)) ≡ k - consumed = omega arith in
      (
        step
            ∙ e
            ∙ ap (λ (x : Bytes). (q', x ++ tail)) (drop-drop (k - (consumed + n)) n rest)
            ∙ ap (λ (j : ℕ). (q', drop j rest ++ tail)) i,
        omega arith,
        omega (arith, length-drop n rest),
      )
  Agrees-line (more, k, q') (e, full, v, size) =
      (step ∙ e, omega (arith, length-drop n rest), v, omega (arith, length-drop n rest))
  Agrees-line (failed e, k, q') (kind, over) = (kind, omega (arith, length-drop n rest))

module _ (quirks : Bool) (max chunk_len : ℕ) (rest tail : Bytes) (consumed : ℕ) (p : Parser)
    (fresh : IsFresh p rest) (v : IsParser p) where
  -- No line ends in what is left of the chunk.
  Agrees-no_eol :
      find_eol quirks rest ≡ none
      → chunk_len ≡ consumed + length rest
      → Agrees quirks max chunk_len rest tail consumed p (
          if ltb max (length (raw p) + chunk_len)
          then (failed invalid_data, consumed, p)
          else (more, chunk_len, push rest p))
  Agrees-no_eol q l = elim (Bool-cases (ltb max (length (raw p) + chunk_len))) [
    | inl over ↦ rw over (refl, omega (arith, ltb→lt _ _ over))
    | inr within ↦ rw within (
      run_no_eol quirks rest tail p q fresh,
      l,
      omega (arith, length-append (raw p) rest),
      length-append (raw p) rest,
    )
  ]

  -- A line ends at `eol`, and the scan goes on behind it with the result `later`.
  Agrees-eol :
      (eol : ℕ) (later : Outcome × ℕ × Parser)
      → find_eol quirks rest ≡ some eol
      → (let n = eol + sep_len quirks in
          let p' = push (take n rest) p in
          Agrees quirks max chunk_len (drop n rest) tail (consumed + n) (next_line p') later
          → Agrees quirks max chunk_len rest tail consumed p (
              if ltb max (length (raw p) + n)
              then (failed invalid_data, consumed, p)
              else if ends_block quirks (sep_len quirks) (current_line p')
              then (finished, consumed + n, p')
              else later))
  Agrees-eol eol later q ih =
      let n = eol + sep_len quirks in
      let p' = push (take n rest) p in
      let (fits, lf) = eol_ends quirks rest eol q in
      let line = run_eol quirks rest tail p eol q fresh in
      let i : consumed + n - consumed ≡ n = omega arith in
      elim (Bool-cases (ltb max (length (raw p) + n))) [
        | inl over ↦ rw over (refl, omega (arith, ltb→lt _ _ over))
        | inr within ↦
            rw (within, ends_block-push quirks p (take n rest) v lf)
              (elim (Bool-cases (is_last_line quirks (current_line p'))) [
                | inl done ↦ rw done (
                  (rw done at line) ∙ ap (λ (j : ℕ). (p', drop j rest ++ tail)) (sym i),
                  omega arith,
                  omega arith,
                )
                | inr open_block ↦ rw open_block (
                    Agrees-line quirks max chunk_len n rest tail consumed p (next_line p') fits
                      (rw open_block at line) (length-push-take n rest p fits) later ih)
              ])
      ]

sep_len_pos : (quirks : Bool) → 0 < sep_len quirks
sep_len_pos true = omega arith
sep_len_pos false = omega arith

scan-Agrees :
    (quirks : Bool) (max chunk_len fuel : ℕ) (rest tail : Bytes) (consumed : ℕ) (p : Parser)
    → length rest ≤ fuel
    → chunk_len ≡ consumed + length rest
    → IsFresh p rest
    → IsParser p
    → Agrees quirks max chunk_len rest tail consumed p
        (scan quirks max chunk_len fuel rest consumed p)
unfolding scan
scan-Agrees quirks max chunk_len fuel [] tail consumed p f l fresh v =
    (refl, omega arith, v, omega arith)
scan-Agrees quirks max chunk_len zero (c ∷ cs) tail consumed p f l fresh v = absurd (omega arith)
scan-Agrees quirks max chunk_len (suc fuel) (c ∷ cs) tail consumed p f l fresh v =
    elim (Option-cases (find_eol quirks (c ∷ cs))) [
      | inl q ↦
          rw (q, scan) (Agrees-no_eol quirks max chunk_len (c ∷ cs) tail consumed p fresh v q l)
      | inr (eol, q) ↦
          let n = eol + sep_len quirks in
          let p' = next_line (push (take n (c ∷ cs)) p) in
          let (fits, lf) = eol_ends quirks (c ∷ cs) eol q in
          rw (q, scan)
            (Agrees-eol quirks max chunk_len (c ∷ cs) tail consumed p fresh v eol
              (scan quirks max chunk_len fuel (drop n (c ∷ cs)) (consumed + n) p') q
              (scan-Agrees quirks max chunk_len fuel (drop n (c ∷ cs)) tail (consumed + n) p'
                (omega (arith, length-drop n (c ∷ cs), sep_len_pos quirks))
                (omega (arith, length-drop n (c ∷ cs)))
                (next_line-IsFresh p (take n (c ∷ cs)) (drop n (c ∷ cs)) lf)
                (next_line-IsParser (push (take n (c ∷ cs)) p)).0))
    ]

-- The byte-wise parser at a line feed that completes a CR LF of two chunks.
run_split :
    (quirks : Bool) (c : ℕ) (cs tail : Bytes) (p : Parser)
    → (ends_with_cr (raw p) && c == b'\n') ≡ true
    → (c ≡ b'\n')
      × (ends_with_cr (raw p) ≡ true)
      × (run quirks ((c ∷ cs) ++ tail) p ≡ (
          let p' = push (b'\n' ∷ []) p in
          if is_last_line quirks (current_line p')
          then (p', cs ++ tail)
          else run quirks (cs ++ tail) (next_line p')))
unfolding run
run_split quirks c cs tail p h =
    let e : c ≡ b'\n' = ground arith in
    let cr : ends_with_cr (raw p) ≡ true = ground arith in (e, cr, rw e (ground arith))

read_split-Agrees :
    (quirks : Bool) (max c : ℕ) (cs tail : Bytes) (p : Parser)
    → (ends_with_cr (raw p) && c == b'\n') ≡ true
    → IsParser p
    → (let p' = push (b'\n' ∷ []) p in
        Agrees quirks max (suc (length cs)) (c ∷ cs) tail 0 p (
          if ends_block quirks 2 (current_line p')
          then (finished, 1, p')
          else scan quirks max (suc (length cs)) (length cs) cs 1 (next_line p')))
read_split-Agrees quirks max c cs tail p h v =
    let p' = push (b'\n' ∷ []) p in
    let (e, cr, line) = run_split quirks c cs tail p h in
    rw (split_ends_block quirks p v cr) (elim (Bool-cases (is_last_line quirks (current_line p'))) [
      | inl done ↦ rw done (rw done at line, omega arith, omega arith)
      | inr open_block ↦ rw open_block (
          Agrees-line quirks max (suc (length cs)) 1 (c ∷ cs) tail 0 p (next_line p') (omega arith)
            (rw open_block at line) (length-push-take 1 (b'\n' ∷ []) p (omega arith))
            (scan quirks max (suc (length cs)) (length cs) cs 1 (next_line p'))
            (scan-Agrees quirks max (suc (length cs)) (length cs) cs tail 1 (next_line p')
              (omega arith) (omega arith) (next_line-IsFresh p (b'\n' ∷ []) cs refl)
              (next_line-IsParser p').0))
    ])

pub read_chunk-Agrees :
    (quirks : Bool) (max c : ℕ) (cs tail : Bytes) (p : Parser)
    → IsParser p
    → Agrees quirks max (suc (length cs)) (c ∷ cs) tail 0 p (read_chunk quirks max c cs p)
unfolding read_chunk
read_chunk-Agrees quirks max c cs tail p v =
    elim (Bool-cases (ends_with_cr (raw p) && c == b'\n')) [
      | inl split ↦ rw (split, read_chunk) (read_split-Agrees quirks max c cs tail p split v)
      | inr fresh ↦
          rw (fresh, read_chunk)
            (scan-Agrees quirks max (suc (length cs)) (suc (length cs)) (c ∷ cs) tail 0 p
              (omega arith) (omega arith) fresh v)
    ]
