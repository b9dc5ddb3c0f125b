-- ===== src/Header/Parse/Total.antt =====
-- Enough fuel and a block within the limit make the parser succeed.
use chatnoir_resiliparse.Prelude.{
  ℕ, zero, suc, ◌+◌, ◌*◌, ◌<◌, ◌≤◌, ◌≡◌, refl, ap, ◌∙◌, Bool, [], ◌∷◌, length, drop, length-drop,
  length-append, arith,
}
use chatnoir_resiliparse.Bytes.{Bytes}
use chatnoir_resiliparse.Io.{Result, ok, err, BufRead}
use chatnoir_resiliparse.Io.Laws.{IsBufRead, NeverFails}
use chatnoir_resiliparse.Header.Parse.{
  Parser, raw, Outcome, finished, more, failed, read_chunk, on_chunk, on_fill, parse_loop,
}
use chatnoir_resiliparse.Header.Parse.LineEnds.{IsParser}
use chatnoir_resiliparse.Header.Parse.Scan.{Agrees, read_chunk-Agrees}

abbrev pub Succeeds {ℓ} : {A S : Type ℓ} → (Result ℕ × A) × S → Type 0
Succeeds ((ok n, q), s') = Unit
Succeeds ((err e, q), s') = ⊥

module _ {S : Type 0} (reader : BufRead S) (content : S → Bytes) (laws : IsBufRead reader content)
    (calm : NeverFails reader) (quirks : Bool) (max : ℕ) where
  -- The block and twice the bytes to come fit the limit, and the fuel exceeds those bytes.
  abbrev pub Fits : ℕ → Parser → S → Type 0
  Fits fuel p s =
      IsParser p × (length (content s) < fuel) × (length (raw p) + 2 * length (content s) ≤ max)

  module _ (fuel : ℕ) (loop : Parser → S → (Result ℕ × Parser) × S)
      (ih : (p : Parser) (s : S) → Fits fuel p s → Succeeds (loop p s)) where
    on_chunk-Succeeds :
        (p : Parser) (s s' : S) (c : ℕ) (cs : Bytes) (r : Outcome × ℕ × Parser)
        → reader.fill_buf s ≡ (ok (c ∷ cs), s')
        → Fits (suc fuel) p s
        → Agrees quirks max (suc (length cs)) (c ∷ cs) (drop (suc (length cs)) (content s)) 0 p r
        → Succeeds (on_chunk reader quirks max loop r s')
    unfolding on_chunk
    on_chunk-Succeeds p s s' c cs (finished, k, q) e f h = tt
    on_chunk-Succeeds p s s' c cs (more, k, q) e (v, enough, limit) (h, full, v', size) =
        let shown = laws.fill_shows s s' (c ∷ cs) e in
        let rest = laws.consume_drops s s' (c ∷ cs) k e (omega arith) in
        let total = ap length shown ∙ length-append (c ∷ cs) (drop (suc (length cs)) (content s)) in
        let left = ap length rest ∙ length-drop k (content s) in
        ih q (reader.consume k s') (v', omega arith, omega arith)
    on_chunk-Succeeds p s s' c cs (failed e', k, q) e (v, enough, limit) (kind, over) =
        let shown = laws.fill_shows s s' (c ∷ cs) e in
        let total = ap length shown ∙ length-append (c ∷ cs) (drop (suc (length cs)) (content s)) in
        absurd (omega arith)

    on_fill-Succeeds :
        (p : Parser) (s : S) (r : Result Bytes × S)
        → reader.fill_buf s ≡ r
        → Fits (suc fuel) p s
        → Succeeds (on_fill reader quirks max loop p r)
    unfolding on_fill
    on_fill-Succeeds p s (err e', s') e f = let (buf, s'', good) = calm s in cc
    on_fill-Succeeds p s (ok [], s') e f = tt
    on_fill-Succeeds p s (ok (c ∷ cs), s') e f =
        on_chunk-Succeeds p s s' c cs (read_chunk quirks max c cs p) e f
          (read_chunk-Agrees quirks max c cs (drop (suc (length cs)) (content s)) p f.0)

  pub parse_loop-Succeeds :
      (fuel : ℕ) (p : Parser) (s : S)
      → Fits fuel p s
      → Succeeds (parse_loop reader quirks max fuel p s)
  unfolding parse_loop
  parse_loop-Succeeds zero p s f = absurd (omega arith)
  parse_loop-Succeeds (suc fuel) p s f =
      on_fill-Succeeds fuel (parse_loop reader quirks max fuel) (parse_loop-Succeeds fuel) p s
        (reader.fill_buf s) refl f
