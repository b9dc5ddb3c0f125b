-- ===== src/Record/Consume/Correct.antt =====
-- Consuming the payload of a record drops bytes from its reader.
use chatnoir_resiliparse.Prelude.{
  ℕ, zero, suc, ◌+◌, ◌-◌, ◌<◌, ◌≤◌, ◌≡◌, refl, sym, ap, ◌∙◌, false, ◌==◌, some, [], ◌∷◌, arith, ltb,
  ltb→lt, ltb→le, length, drop, min, length-append, length-drop, drop-drop, drop_all, Bool-cases,
  inl, inr,
}
use chatnoir_resiliparse.Bytes.{Bytes}
use chatnoir_resiliparse.Io.{Result, ok, err, Io, BufRead}
use chatnoir_resiliparse.Io.Laws.{IsBufRead, NeverFails}
use chatnoir_resiliparse.StreamIo.{WarcRead}
use chatnoir_resiliparse.StreamIo.Limited.{LimitedBufReader, limited}
use chatnoir_resiliparse.StreamIo.Limited.Laws.{
  limited_content, limited-IsBufRead, limited-NeverFails,
}
use chatnoir_resiliparse.Record.{
  WarcRecord, ReaderType, inner_reader, put_reader, with_reader, store,
}
use chatnoir_resiliparse.Record.Consume.{on_consume_chunk, consume_loop, consume_n, beside}

module _ {S : Type 0} (reader : BufRead S) (content : S → Bytes) (laws : IsBufRead reader content)
    (calm : NeverFails reader) (n : ℕ) where
  -- What was missing to `n` bytes has been dropped, or all there was.
  abbrev pub Consumes : ℕ → S → Result ℕ × S → Type 0
  Consumes consumed s r =
      (s' : S) × (r ≡ (ok (consumed + min (n - consumed) (length (content s))), s'))
      × (content s' ≡ drop (n - consumed) (content s))

  on_consume_chunk-Consumes :
      (fuel : ℕ) (next : ℕ → Io S ℕ) (consumed : ℕ) (s : S) (r : Result Bytes × S)
      → ((k : ℕ) (t : S) → k ≤ n → length (content t) < fuel → Consumes k t (next k t))
      → reader.fill_buf s ≡ r
      → consumed < n
      → length (content s) < suc fuel
      → Consumes consumed s (on_consume_chunk reader n next consumed r)
  unfolding on_consume_chunk
  on_consume_chunk-Consumes fuel next consumed s (err e, s') ih f h enough =
      let (b, s'', good) = calm s in cc
  on_consume_chunk-Consumes fuel next consumed s (ok [], s') ih f h enough =
      let none_left = laws.fill_ends s s' f in
      let gone : consumed ≡ consumed + min (n - consumed) (length (content s)) =
        let size = ap length none_left in omega arith in
      (
        s',
        ap (λ k. (ok k, s')) gone,
        laws.fill_keeps s s' [] f
            ∙ none_left
            ∙ sym (ap (drop (n - consumed)) none_left ∙ drop_all (n - consumed) [] (omega arith)),
      )
  on_consume_chunk-Consumes fuel next consumed s (ok (c ∷ cs), s') ih f h enough =
      let k = min (length (c ∷ cs)) (n - consumed) in
      let t = reader.consume k s' in
      let rest = laws.consume_drops s s' (c ∷ cs) k f (omega arith) in
      let shown =
        ap length (laws.fill_shows s s' (c ∷ cs) f)
        ∙ length-append (c ∷ cs) (drop (length (c ∷ cs)) (content s)) in
      let left = ap length rest ∙ length-drop k (content s) in
      let (s'', result, content') = ih (consumed + k) t (omega arith) (omega arith) in
      let total : consumed + k + min (n - (consumed + k)) (length (content t))
          ≡ consumed + min (n - consumed) (length (content s)) =
        omega arith in
      let both : k + (n - (consumed + k)) ≡ n - consumed = omega arith in
      (
        s'',
        result ∙ ap (λ j. (ok j, s'')) total,
        content'
            ∙ ap (drop (n - (consumed + k))) rest
            ∙ drop-drop (n - (consumed + k)) k (content s)
            ∙ ap (λ j. drop j (content s)) both,
      )

  pub consume_loop-Consumes :
      (fuel consumed : ℕ) (s : S)
      → consumed ≤ n
      → length (content s) < fuel
      → Consumes consumed s (consume_loop reader n fuel consumed s)
  unfolding consume_loop
  consume_loop-Consumes zero consumed s h enough = absurd (omega arith)
  consume_loop-Consumes (suc fuel) consumed s h enough = elim (Bool-cases (ltb consumed n)) [
    | inl more ↦ rw more (
        on_consume_chunk-Consumes fuel (consume_loop reader n fuel) consumed s (reader.fill_buf s)
          (consume_loop-Consumes fuel) refl (ltb→lt consumed n more) enough)
    | inr full ↦
        let none_more : n - consumed ≡ 0 = let over = ltb→le consumed n full in omega arith in
        let gone : consumed ≡ consumed + min (n - consumed) (length (content s)) = omega arith in
        rw full (s, ap (λ k. (ok k, s)) gone, ap (λ k. drop k (content s)) (sym none_more))
  ]

put_reader-inner_reader : {S : Type 0} (t : ReaderType S) → put_reader (inner_reader t) t ≡ t
put_reader-inner_reader (ReaderType.original r) = refl
put_reader-inner_reader (ReaderType.frozen r o) = refl
put_reader-inner_reader (ReaderType.wrapped r) = refl

-- With a reader that does not fail and more fuel than bytes, consume_n drops the next n bytes that
-- the limit of the record's reader lets pass, or all there are, returns how many, and changes
-- nothing else of the record.
pub consume_n_drops :
    {S : Type 0} (reader : WarcRead S) (content : S → Bytes)
    → IsBufRead reader.buffered content
    → NeverFails reader.buffered
    → (fuel n : ℕ) (rec : WarcRecord S) (t : ReaderType S) → rec.reader ≡ some t
    → length (limited_content content (inner_reader t)) < fuel
    → (r : LimitedBufReader S) × (consume_n reader fuel n rec ≡ (
      ok (min n (length (limited_content content (inner_reader t)))),
      record rec { reader = some (put_reader r t) },
    ))
      × (limited_content content r ≡ drop n (limited_content content (inner_reader t)))
unfolding consume_n with_reader
consume_n_drops reader content laws calm fuel zero rec t e enough =
    let size : 0 ≡ min 0 (length (limited_content content (inner_reader t))) = omega arith in
    (
      inner_reader t,
      ap (λ x. (ok 0, record rec { reader = x })) (e ∙ ap some (sym (put_reader-inner_reader t)))
          ∙ ap (λ k. (ok k, record rec { reader = some (put_reader (inner_reader t) t) })) size,
      refl,
    )
consume_n_drops reader content laws calm fuel (suc n) rec t e enough =
    let r = inner_reader t in
    let (r', result, left) =
      consume_loop-Consumes (limited reader).buffered (limited_content content)
        (limited-IsBufRead reader content laws) (limited-NeverFails reader content laws calm)
        (suc n) fuel 0 r (omega arith) enough in
    let positive : (suc n == 0) ≡ false = ground arith in
    let all : 0 + min (suc n - 0) (length (limited_content content r))
        ≡ min (suc n) (length (limited_content content r)) =
      omega arith in
    let whole : suc n - 0 ≡ suc n = omega arith in
    (
      r',
      rw (positive, e)
          (ap (λ x. store t (beside reader fuel rec x)) (result ∙ ap (λ k. (ok k, r')) all)),
      left ∙ ap (λ k. drop k (limited_content content r)) whole,
    )
