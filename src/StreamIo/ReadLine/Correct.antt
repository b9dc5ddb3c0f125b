-- ===== src/StreamIo/ReadLine/Correct.antt =====
-- `read_line` reads the first line of what the limit lets pass.
use chatnoir_resiliparse.Prelude.{
  ℕ, zero, suc, ◌+◌, ◌-◌, ◌≤◌, ◌<◌, ◌≡◌, refl, sym, ap, ◌∙◌, none, some, [], ◌∷◌, ◌++◌, arith, ltb,
  length, take, drop, min, append-nil, append_assoc, Option-cases, Bool-cases, ltb→lt, ltb→le,
  take-append_left, inl, inr, length-append, length-drop, length-take, drop-drop,
}
use chatnoir_resiliparse.Bytes.{Bytes, memchr}
use chatnoir_resiliparse.Io.{Result, ok, err, Io, BufRead}
use chatnoir_resiliparse.Io.Laws.{IsBufRead, NeverFails}
use chatnoir_resiliparse.StreamIo.{WarcRead}
use chatnoir_resiliparse.StreamIo.Limited.{LimitedBufReader, limited}
use chatnoir_resiliparse.StreamIo.Limited.Laws.{
  limited_content, limited-IsBufRead, limited-NeverFails,
}
use chatnoir_resiliparse.StreamIo.ReadLine.{
  take_line, on_line_chunk, read_line_loop, read_line, first_line,
}
use chatnoir_resiliparse.StreamIo.ReadLine.Line.{line_ends, line_goes_on, first_line-nil}

module _ {S : Type 0} (reader : BufRead S) (content : S → Bytes) (laws : IsBufRead reader content)
    (start max : ℕ) where
  -- `line` has gone from the content to the end of the buffer, and the length added is returned.
  abbrev Moves : Bytes → Bytes → S → Result ℕ × (Bytes × S) → Type 0
  Moves line buf s r =
      (s' : S) × (r ≡ (ok (length (buf ++ line) - start), (buf ++ line, s')))
      × (content s' ≡ drop (length line) (content s))

  abbrev line_from : Bytes → S → Bytes
  line_from buf s = first_line (max - (length buf - start)) (content s)

  module _ (buf : Bytes) (s s' : S) (chunk : Bytes) (e : reader.fill_buf s ≡ (ok chunk, s'))
      (h : start ≤ length buf) where
    abbrev cut : ℕ
    cut = min (length chunk) (max - (length buf - start))

    ends_here :
        (p : ℕ)
        → memchr b'\n' (take cut chunk) ≡ some p
        → Moves (line_from buf s) buf s (
          ok (length (buf ++ take (suc p) chunk) - start),
          (buf ++ take (suc p) chunk, reader.consume (suc p) s'),
        )
    ends_here p q =
        let (line, fits) =
          line_ends (max - (length buf - start)) cut chunk (drop (length chunk) (content s)) p
            (omega arith) q in
        let same : line_from buf s ≡ take (suc p) chunk =
          ap (first_line (max - (length buf - start))) (laws.fill_shows s s' chunk e) ∙ line in
        let size : length (take (suc p) chunk) ≡ suc p = omega (arith, length-take (suc p) chunk) in
        rw (same, size)
          (reader.consume (suc p) s', refl, laws.consume_drops s s' chunk (suc p) e fits)

    taken : take cut (content s) ≡ take cut chunk
    taken =
        ap (take cut) (laws.fill_shows s s' chunk e)
        ∙ take-append_left cut chunk (drop (length chunk) (content s)) (omega arith)

    cut_size : length (take cut chunk) ≡ cut
    cut_size = omega (arith, length-take cut chunk)

    room_left : max - (length buf - start) - cut ≡ max - (length (buf ++ take cut chunk) - start)
    room_left = omega (arith, length-append buf (take cut chunk), cut_size)

    longer :
        memchr b'\n' (take cut chunk) ≡ none
        → line_from buf s
          ≡ take cut chunk ++ line_from (buf ++ take cut chunk) (reader.consume cut s')
    longer q =
        let rest = laws.consume_drops s s' chunk cut e (omega arith) in
        line_goes_on (max - (length buf - start)) cut (content s) (omega arith)
          (ap (memchr b'\n') taken ∙ q)
        ∙ ap (λ v. v ++ first_line (max - (length buf - start) - cut) (drop cut (content s))) taken
        ∙ ap (λ n. take cut chunk ++ first_line n (drop cut (content s))) room_left
        ∙ ap (λ v. take cut chunk ++ first_line (max - (length (buf ++ take cut chunk) - start)) v)
            (sym rest)

    goes_on :
        (r : Result ℕ × (Bytes × S))
        → memchr b'\n' (take cut chunk) ≡ none
        → Moves
            (line_from (buf ++ take cut chunk) (reader.consume cut s'))
            (buf ++ take cut chunk)
            (reader.consume cut s')
            r
        → Moves (line_from buf s) buf s r
    goes_on r q (t, result, left) =
        let l = line_from (buf ++ take cut chunk) (reader.consume cut s') in
        let rest = laws.consume_drops s s' chunk cut e (omega arith) in
        let size : length (take cut chunk ++ l) ≡ cut + length l =
          omega (arith, length-append (take cut chunk) l, cut_size) in
        let joined = append_assoc buf (take cut chunk) l in
        (
          t,
          result
              ∙ ap (λ v. (ok (length v - start), (v, t)))
                  (joined ∙ ap (λ v. buf ++ v) (sym (longer q))),
          left
              ∙ ap (drop (length l)) rest
              ∙ drop-drop (length l) cut (content s)
              ∙ ap (λ n. drop n (content s)) (sym size)
              ∙ ap (λ v. drop (length v) (content s)) (sym (longer q)),
        )

  module _ (calm : NeverFails reader) (fuel : ℕ) (next : Io (Bytes × S) ℕ)
      (ih : (buf : Bytes) (s : S)
        → start ≤ length buf
        → length (content s) < fuel
        → Moves (line_from buf s) buf s (next (buf, s))) where
    take_line-Moves :
        (buf : Bytes) (s s' : S) (c : ℕ) (cs : Bytes)
        → reader.fill_buf s ≡ (ok (c ∷ cs), s')
        → start ≤ length buf
        → length buf - start < max
        → length (content s) < suc fuel
        → Moves (line_from buf s) buf s (take_line reader start max next buf (c ∷ cs) s')
    unfolding take_line
    take_line-Moves buf s s' c cs e h room enough =
        elim (Option-cases (memchr b'\n' (take (cut buf s s' (c ∷ cs) e h) (c ∷ cs)))) [
          | inl q ↦
              let k = cut buf s s' (c ∷ cs) e h in
              let buf' = buf ++ take k (c ∷ cs) in
              let t = reader.consume k s' in
              let rest = laws.consume_drops s s' (c ∷ cs) k e (omega arith) in
              let shown =
                ap length (laws.fill_shows s s' (c ∷ cs) e)
                ∙ length-append (c ∷ cs) (drop (length (c ∷ cs)) (content s)) in
              let left = ap length rest ∙ length-drop k (content s) in
              let grown = length-append buf (take k (c ∷ cs)) in
              rw (take_line, q)
                (goes_on buf s s' (c ∷ cs) e h (next (buf', t)) q
                  (ih buf' t (omega arith) (omega arith)))
          | inr (p, q) ↦ rw (take_line, q) (ends_here buf s s' (c ∷ cs) e h p q)
        ]

    on_line_chunk-Moves :
        (buf : Bytes) (s : S) (r : Result Bytes × S)
        → reader.fill_buf s ≡ r
        → start ≤ length buf
        → length buf - start < max
        → length (content s) < suc fuel
        → Moves (line_from buf s) buf s (on_line_chunk reader start max next buf r)
    unfolding on_line_chunk
    on_line_chunk-Moves buf s (err x, s') e h room enough = let (b, s'', good) = calm s in cc
    on_line_chunk-Moves buf s (ok [], s') e h room enough =
        let none_left = laws.fill_ends s s' e in
        let no_line =
          ap (first_line (max - (length buf - start))) none_left
          ∙ first_line-nil (max - (length buf - start)) in
        rw (no_line, append-nil buf) (s', refl, laws.fill_keeps s s' [] e)
    on_line_chunk-Moves buf s (ok (c ∷ cs), s') e h room enough =
        take_line-Moves buf s s' c cs e h room enough

  module _ (calm : NeverFails reader) where
    pub read_line_loop-Moves :
        (fuel : ℕ) (buf : Bytes) (s : S)
        → start ≤ length buf
        → length (content s) < fuel
        → Moves (line_from buf s) buf s (read_line_loop reader start max fuel (buf, s))
    unfolding read_line_loop first_line
    read_line_loop-Moves zero buf s h enough = absurd (omega arith)
    read_line_loop-Moves (suc fuel) buf s h enough =
        elim (Bool-cases (ltb (length buf - start) max)) [
          | inl q ↦ rw q (
              on_line_chunk-Moves calm fuel (λ (b, t). read_line_loop reader start max fuel (b, t))
                (read_line_loop-Moves fuel) buf s (reader.fill_buf s) refl h
                (ltb→lt (length buf - start) max q) enough)
          | inr q ↦
              let full : max - (length buf - start) ≡ 0 =
                let below = ltb→le (length buf - start) max q in omega arith in
              rw (q, full, append-nil buf) (s, refl, refl)
        ]

-- With a reader that does not fail and more fuel than bytes, read_line appends the first line of
-- what can be read through the limit to the buffer, with its line feed and cut at the smaller of
-- max_line_len and the limit, returns the length of the line, and leaves the reader after it.
pub read_line_reads :
    {S : Type 0} (reader : WarcRead S) (content : S → Bytes)
    → IsBufRead reader.buffered content
    → NeverFails reader.buffered
    → (fuel max_line_len : ℕ) (buf : Bytes) (r : LimitedBufReader S)
    → length (limited_content content r) < fuel
    → (r' : LimitedBufReader S) × (read_line reader fuel max_line_len (buf, r) ≡ (
      ok (length (first_line (min max_line_len r.limit) (limited_content content r))),
      (buf ++ first_line (min max_line_len r.limit) (limited_content content r), r'),
    ))
      × (limited_content content r'
          ≡ drop
              (length (first_line (min max_line_len r.limit) (limited_content content r)))
              (limited_content content r))
unfolding read_line
read_line_reads reader content laws calm fuel max_line_len buf r enough =
    let m = min max_line_len r.limit in
    let line = first_line m (limited_content content r) in
    let (r', result, left) =
      read_line_loop-Moves (limited reader).buffered (limited_content content)
        (limited-IsBufRead reader content laws) (length buf) m
        (limited-NeverFails reader content laws calm) fuel buf r (omega arith) enough in
    let same : m - (length buf - length buf) ≡ m = omega arith in
    let e = ap (λ k. first_line k (limited_content content r)) same in
    let size : length (buf ++ line) - length buf ≡ length line =
      omega (arith, length-append buf line) in
    (
      r',
      result
          ∙ ap (λ v. (ok (length (buf ++ v) - length buf), (buf ++ v, r'))) e
          ∙ ap (λ k. (ok k, (buf ++ line, r'))) size,
      left ∙ ap (λ v. drop (length v) (limited_content content r)) e,
    )
