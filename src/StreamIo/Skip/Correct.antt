-- ===== src/StreamIo/Skip/Correct.antt =====
-- A seek forward drops bytes of the content.
use chatnoir_resiliparse.Prelude.{
  ℕ, zero, suc, ◌+◌, ◌-◌, ◌<◌, ◌≤◌, ◌≡◌, refl, sym, ap, ◌⊎◌, inl, inr, ◌∙◌, [], ◌∷◌, arith, ltb,
  length, drop, min, length-append, Bool-cases, ltb→lt, ltb→le, true, false, length-drop, drop-drop,
  drop_all,
}
use chatnoir_resiliparse.Prelude.Int.{ℤ, pos, negsuc, u64_mod}
use chatnoir_resiliparse.Bytes.{Bytes}
use chatnoir_resiliparse.Io.{Result, ok, err, unsupported, Io}
use chatnoir_resiliparse.Io.Laws.{IsBufRead, NeverFails}
use chatnoir_resiliparse.StreamIo.{SeekFrom, WarcRead}
use chatnoir_resiliparse.StreamIo.Seek.{IsPositioned}
use chatnoir_resiliparse.StreamIo.Skip.{
  diff, drop_chunk, on_skip_chunk, skip_loop, skip_by, forward_seek,
}

diff_behind : (p q : ℕ) → ltb q p ≡ true → diff p q ≡ negsuc (p - q - 1)
unfolding diff
diff_behind p q h = rw h refl

diff_ahead : (p q : ℕ) → ltb q p ≡ false → diff p q ≡ pos (q - p)
unfolding diff
diff_ahead p q h = rw h refl

module _ {S : Type 0} (reader : WarcRead S) (content : S → Bytes) (at : S → ℕ)
    (laws : IsBufRead reader.buffered content)
    (position : IsPositioned reader.buffered reader.stream_position content at)
    (calm : NeverFails reader.buffered) where
  -- `n` bytes have been dropped, or all there were, and the new position is returned.
  abbrev pub Skipped : ℕ → S → Result ℕ × S → Type 0
  Skipped n s r =
      (s' : S) × (r ≡ (ok (at s + min n (length (content s))), s'))
      × (content s' ≡ drop n (content s))
      × (at s' ≡ at s + min n (length (content s)))

  ended : {v : Bytes} (n : ℕ) → v ≡ [] → v ≡ drop n v
  ended {v} n e = rw e (sym (drop_all n [] (omega arith)))

  stays :
      (s t : S) (n : ℕ)
      → content t ≡ drop n (content s)
      → at t ≡ at s + min n (length (content s))
      → Skipped n s (reader.stream_position t)
  stays s t n c p =
      let (s', told, same, here) = position.tells t in
      (s', told ∙ ap (λ k. (ok k, s')) p, same ∙ c, here ∙ p)

  module _ (fuel : ℕ) (next : ℕ → Io S ℕ)
      (ih : (n : ℕ) (s : S) → length (content s) < fuel → Skipped n s (next n s)) where
    on_skip_chunk-Skipped :
        (n : ℕ) (s : S) (r : Result Bytes × S)
        → reader.fill_buf s ≡ r
        → length (content s) < suc fuel
        → Skipped (suc n) s (on_skip_chunk reader next (suc n) r)
    unfolding on_skip_chunk drop_chunk
    on_skip_chunk-Skipped n s (err x, s') e enough = let (b, s'', good) = calm s in cc
    on_skip_chunk-Skipped n s (ok [], s') e enough =
        let none_left = laws.fill_ends s s' e in
        let stop : min 0 (suc n) ≡ 0 = omega arith in
        rw stop (
          stays s s' (suc n) (laws.fill_keeps s s' [] e ∙ ended (suc n) none_left) (
            let gone = ap length none_left in
            let same = position.fill_stays s s' [] e in omega arith))
    on_skip_chunk-Skipped n s (ok (c ∷ cs), s') e enough =
        let k = min (length cs) n in
        let size : min (suc (length cs)) (suc n) ≡ suc k = omega arith in
        let t = reader.consume (suc k) s' in
        let rest = laws.consume_drops s s' (c ∷ cs) (suc k) e (omega arith) in
        let moved = position.consume_moves s s' (c ∷ cs) (suc k) e (omega arith) in
        let shown =
          ap length (laws.fill_shows s s' (c ∷ cs) e)
          ∙ length-append (c ∷ cs) (drop (length (c ∷ cs)) (content s)) in
        let left = ap length rest ∙ length-drop (suc k) (content s) in
        let (s'', result, content', at') = ih (n - k) t (omega arith) in
        let steps : suc n - suc k ≡ n - k = omega arith in
        let total : suc k + (n - k) ≡ suc n = omega arith in
        let joined : at t + min (n - k) (length (content t))
            ≡ at s + min (suc n) (length (content s)) =
          omega arith in
        rw (size, steps)
          (
            s'',
            result ∙ ap (λ j. (ok j, s'')) joined,
            content'
                ∙ ap (drop (n - k)) rest
                ∙ drop-drop (n - k) (suc k) (content s)
                ∙ ap (λ j. drop j (content s)) total,
            at' ∙ joined,
          )

  skip_loop-Skipped :
      (fuel n : ℕ) (s : S) → length (content s) < fuel → Skipped n s (skip_loop reader fuel n s)
  unfolding skip_loop
  skip_loop-Skipped zero n s enough = absurd (omega arith)
  skip_loop-Skipped (suc fuel) zero s enough = stays s s 0 refl (omega arith)
  skip_loop-Skipped (suc fuel) (suc n) s enough =
      on_skip_chunk-Skipped fuel (skip_loop reader fuel) (skip_loop-Skipped fuel) n s
        (reader.fill_buf s) refl enough

  skip_by-Skipped :
      (fuel n : ℕ) (s : S)
      → length (content s) < fuel
      → n < u64_mod
      → Skipped n s (skip_by reader fuel (pos n) s)
  unfolding skip_by
  skip_by-Skipped fuel n s enough small =
      let fits : ltb n u64_mod ≡ true = ground arith in rw fits (skip_loop-Skipped fuel n s enough)

  -- A seek to `p` has skipped to it where it is not behind, and fails where it is.
  abbrev pub SeeksTo : ℕ → S → Result ℕ × S → Type 0
  SeeksTo p s r =
      ((at s ≤ p) × Skipped (p - at s) s r) ⊎ ((p < at s) × (s' : S) × (r ≡ (err unsupported, s')))

  start-SeeksTo :
      (fuel p : ℕ) (s : S)
      → length (content s) < fuel
      → p < u64_mod
      → SeeksTo p s (forward_seek reader fuel (SeekFrom.start p) s)
  unfolding forward_seek skip_by
  start-SeeksTo fuel p s enough small =
      let (s', told, same, here) = position.tells s in
      let size = ap length same in
      rw told (elim (Bool-cases (ltb p (at s))) [
        | inl behind ↦ rw (diff_behind (at s) p behind) (inr (ltb→lt p (at s) behind, s', refl))
        | inr ahead ↦
            let (t, result, rest, at') =
              skip_by-Skipped fuel (p - at s) s' (omega arith) (omega arith) in
            let moved : at s' + min (p - at s) (length (content s'))
                ≡ at s + min (p - at s) (length (content s)) =
              omega arith in
            rw (diff_ahead (at s) p ahead) (
              inl (
                ltb→le p (at s) ahead,
                (
                  t,
                  result ∙ ap (λ k. (ok k, t)) moved,
                  rest ∙ ap (drop (p - at s)) same,
                  at' ∙ moved,
                ),
              ))
      ])

  -- On a reader that does not fail and reports its position, with more fuel than bytes, a forward
  -- seek to a u64 position drops the bytes up to it or up to the end of the stream and returns the
  -- position reached; it fails as unsupported where the position lies behind. A seek by a
  -- distance that is not negative drops that many bytes or all there are; a seek backward and a
  -- seek from the end fail as unsupported and leave the reader alone.
  pub forward_seek_skips :
      (fuel p n : ℕ) (z : ℤ) (s : S)
      → length (content s) < fuel
      → p < u64_mod
      → n < u64_mod
      → SeeksTo p s (forward_seek reader fuel (SeekFrom.start p) s)
        × Skipped n s (forward_seek reader fuel (SeekFrom.current (pos n)) s)
        × (forward_seek reader fuel (SeekFrom.current (negsuc n)) s ≡ (err unsupported, s))
        × (forward_seek reader fuel (SeekFrom.end z) s ≡ (err unsupported, s))
  unfolding forward_seek skip_by
  forward_seek_skips fuel p n z s enough p_small n_small =
      (start-SeeksTo fuel p s enough p_small, skip_by-Skipped fuel n s enough n_small, refl, refl)
