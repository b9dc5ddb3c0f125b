-- ===== src/Header/Parse/Loop.antt =====
-- The loop over the chunks of a reader agrees with the byte-wise parser on the reader's content.
use chatnoir_resiliparse.Prelude.{
  ℕ, zero, suc, ◌-◌, ◌≡◌, refl, sym, ap, ◌∙◌, Bool, [], ◌∷◌, ◌++◌, length, drop, drop-append_left,
  arith,
}
use chatnoir_resiliparse.Bytes.{Bytes}
use chatnoir_resiliparse.Io.{Result, ok, err, BufRead}
use chatnoir_resiliparse.Io.Laws.{IsBufRead}
use chatnoir_resiliparse.Header.Parse.{
  Parser, Outcome, finished, more, failed, read_chunk, on_chunk, on_fill, parse_loop,
}
use chatnoir_resiliparse.Header.Parse.Reference.{run, finish}
use chatnoir_resiliparse.Header.Parse.LineEnds.{IsParser}
use chatnoir_resiliparse.Header.Parse.Scan.{Agrees, read_chunk-Agrees}

consumed-finish : (p : Parser) → p.bytes_consumed ≡ (finish p).bytes_consumed
consumed-finish p = ground arith

module _ {S : Type 0} (reader : BufRead S) (content : S → Bytes) (laws : IsBufRead reader content)
    (quirks : Bool) (max : ℕ) where
  -- A successful end in `q`, with the reader in `s'`, is the end of the byte-wise parser.
  abbrev pub Returns : Parser → S → (Result ℕ × Parser) × S → Type 0
  Returns p s ((ok n, q), s') =
      (run quirks (content s) p ≡ (q, content s')) × (n ≡ q.bytes_consumed)
  Returns p s ((err e, q), s') = Unit

  module _ (loop : Parser → S → (Result ℕ × Parser) × S)
      (ih : (p : Parser) (s : S) → IsParser p → Returns p s (loop p s)) where
    Returns-move :
        (p q : Parser) (s t : S) (r : (Result ℕ × Parser) × S)
        → run quirks (content s) p ≡ run quirks (content t) q
        → Returns q t r
        → Returns p s r
    Returns-move p q s t ((ok n, q'), s') e (h, k) = (e ∙ h, k)
    Returns-move p q s t ((err e', q'), s') e h = tt

    on_chunk-Returns :
        (p : Parser) (s s' : S) (c : ℕ) (cs : Bytes) (r : Outcome × ℕ × Parser)
        → reader.fill_buf s ≡ (ok (c ∷ cs), s')
        → Agrees quirks max (suc (length cs)) (c ∷ cs) (drop (suc (length cs)) (content s)) 0 p r
        → Returns p s (on_chunk reader quirks max loop r s')
    unfolding on_chunk
    on_chunk-Returns p s s' c cs (finished, k, q) e (h, lo, hi) =
        let tail = drop (suc (length cs)) (content s) in
        let shown = laws.fill_shows s s' (c ∷ cs) e in
        let rest = laws.consume_drops s s' (c ∷ cs) k e (omega arith) in
        let i : k - 0 ≡ k = omega arith in
        (
          ap (λ x. run quirks x p) shown
              ∙ h
              ∙ ap (λ j. (q, drop j (c ∷ cs) ++ tail)) i
              ∙ ap (λ x. (q, x))
                  (sym (drop-append_left k (c ∷ cs) tail (omega arith))
                    ∙ ap (drop k) (sym shown)
                    ∙ sym rest),
          refl,
        )
    on_chunk-Returns p s s' c cs (more, k, q) e (h, full, v, size) =
        let shown = laws.fill_shows s s' (c ∷ cs) e in
        let rest = laws.consume_drops s s' (c ∷ cs) k e (omega arith) in
        let i : k ≡ suc (length cs) = omega arith in
        Returns-move p q s (reader.consume k s') (loop q (reader.consume k s'))
          (ap (λ x. run quirks x p) shown
            ∙ h
            ∙ ap (λ x. run quirks x q) (ap (λ j. drop j (content s)) (sym i) ∙ sym rest))
          (ih q (reader.consume k s') v)
    on_chunk-Returns p s s' c cs (failed e', k, q) e h = tt

    on_fill-Returns :
        (p : Parser) (s : S) (r : Result Bytes × S)
        → reader.fill_buf s ≡ r
        → IsParser p
        → Returns p s (on_fill reader quirks max loop p r)
    unfolding on_fill run
    on_fill-Returns p s (err e', s') e v = tt
    on_fill-Returns p s (ok [], s') e v =
        let none_left = laws.fill_ends s s' e in
        (
          ap (λ x. run quirks x p) none_left
              ∙ ap (λ x. (finish p, x)) (sym (laws.fill_keeps s s' [] e ∙ none_left)),
          consumed-finish p,
        )
    on_fill-Returns p s (ok (c ∷ cs), s') e v =
        on_chunk-Returns p s s' c cs (read_chunk quirks max c cs p) e
          (read_chunk-Agrees quirks max c cs (drop (suc (length cs)) (content s)) p v)

  pub parse_loop-Returns :
      (fuel : ℕ) (p : Parser) (s : S)
      → IsParser p
      → Returns p s (parse_loop reader quirks max fuel p s)
  unfolding parse_loop
  parse_loop-Returns zero p s v = tt
  parse_loop-Returns (suc fuel) p s v =
      on_fill-Returns (parse_loop reader quirks max fuel) (parse_loop-Returns fuel) p s
        (reader.fill_buf s) refl v
