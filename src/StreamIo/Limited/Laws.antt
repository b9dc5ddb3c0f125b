-- ===== src/StreamIo/Limited/Laws.antt =====
-- A limited reader shows a prefix of what its inner reader shows, and its position follows the
-- inner one.
pub mod Position
use chatnoir_resiliparse.Prelude.{
  ℕ, zero, suc, ◌+◌, ◌-◌, ◌≤◌, ◌≡◌, refl, sym, ap, ◌∙◌, List, [], ◌∷◌, ◌++◌, arith, min, length,
  take, drop, length-take, take-append-drop, take-append_left, inl, inr,
}
use chatnoir_resiliparse.Prelude.Int.{sub_u64, add_u64, sub-add_u64}
use chatnoir_resiliparse.Bytes.{Bytes}
use chatnoir_resiliparse.Io.{Result, ok, err, BufRead}
use chatnoir_resiliparse.Io.Laws.{IsBufRead, NeverFails}
use chatnoir_resiliparse.StreamIo.{WarcRead}
use chatnoir_resiliparse.StreamIo.Limited.{
  LimitedBufReader, remaining, fill_buf, consume, limit_buf, limited,
}

pub take-take : (k m : ℕ) (xs : Bytes) → k ≤ m → take k (take m xs) ≡ take k xs
take-take zero m xs h = refl
take-take (suc k) zero xs h = absurd (omega arith)
take-take (suc k) (suc m) [] h = refl
take-take (suc k) (suc m) (x ∷ xs) h = ap (◌∷◌ x) (take-take k m xs (omega arith))

take-nil : (m : ℕ) → take {A = ℕ} m [] ≡ []
take-nil zero = refl
take-nil (suc m) = refl

take-drop : (m n : ℕ) (xs : Bytes) → n ≤ m → take (m - n) (drop n xs) ≡ drop n (take m xs)
take-drop m zero xs h = let e : m - 0 ≡ m = omega arith in ap (λ k. take k xs) e
take-drop zero (suc n) xs h = absurd (omega arith)
take-drop (suc m) (suc n) [] h = take-nil (suc m - suc n)
take-drop (suc m) (suc n) (x ∷ xs) h =
    let e : suc m - suc n ≡ m - n = omega arith in
    ap (λ k. take k (drop n xs)) e ∙ take-drop m n xs (omega arith)

-- What can still be read through the limit.
abbrev pub limited_content : {S : Type 0} → (S → Bytes) → LimitedBufReader S → Bytes
limited_content content r = take (remaining r) (content r.inner)

module _ {S : Type 0} (reader : WarcRead S) (content : S → Bytes)
    (laws : IsBufRead reader.buffered content) where
  -- A buffer shown through the limit is a part of one that the inner reader has shown.
  record Shown (r r' : LimitedBufReader S) (buf : Bytes) : Type 0 where
    inner_buf : Bytes
    inner_state : S
    filled : reader.fill_buf r.inner ≡ (ok inner_buf, inner_state)
    cut : take (min (length inner_buf) (remaining r)) inner_buf ≡ buf
    same : record r { inner = inner_state } ≡ r'

  Shown-of :
      (r r' : LimitedBufReader S) (buf : Bytes) (x : Result Bytes × S)
      → reader.fill_buf r.inner ≡ x
      → limit_buf reader r x ≡ (ok buf, r')
      → Shown r r' buf
  Shown-of r r' buf (err e, s) f h = cc
  Shown-of r r' buf (ok b, s) f h = record {
    inner_buf = b;
    inner_state = s;
    filled = f;
    cut = cc;
    same = cc;
  }

  fill-Shown :
      (r r' : LimitedBufReader S) (buf : Bytes) → fill_buf reader r ≡ (ok buf, r') → Shown r r' buf
  unfolding fill_buf
  fill-Shown r r' buf h = Shown-of r r' buf (reader.fill_buf r.inner) refl h

  limited_keeps :
      (r r' : LimitedBufReader S) (buf : Bytes)
      → Shown r r' buf
      → limited_content content r' ≡ limited_content content r
  limited_keeps r r' buf s =
      ap (limited_content content) (sym s.same)
      ∙ ap (take (remaining r)) (laws.fill_keeps r.inner s.inner_state s.inner_buf s.filled)

  limited_shows :
      (r r' : LimitedBufReader S) (buf : Bytes)
      → Shown r r' buf
      → (take (length buf) (limited_content content r) ≡ buf) × (length buf ≤ remaining r)
  limited_shows r r' buf s =
      let b = s.inner_buf in
      let rest = drop (length b) (content r.inner) in
      let m = min (length b) (remaining r) in
      let size = sym (ap length s.cut) ∙ length-take m b in
      let k : length buf ≡ m = omega arith in
      (
        take-take (length buf) (remaining r) (content r.inner) (omega arith)
            ∙ ap (take (length buf)) (laws.fill_shows r.inner s.inner_state b s.filled)
            ∙ take-append_left (length buf) b rest (omega arith)
            ∙ ap (λ j. take j b) k
            ∙ s.cut,
        omega arith,
      )

  limited_ends : (r r' : LimitedBufReader S) → Shown r r' [] → limited_content content r ≡ []
  limited_ends r r' s =
      let size =
        sym (ap length s.cut) ∙ length-take (min (length s.inner_buf) (remaining r)) s.inner_buf in
      ends (remaining r) s.inner_buf s.filled (omega arith)
    where
      ends :
          (m : ℕ) (b : Bytes)
          → reader.fill_buf r.inner ≡ (ok b, s.inner_state)
          → min (length b) m ≡ 0
          → take m (content r.inner) ≡ []
      ends zero b f e = refl
      ends (suc m) [] f e = ap (take (suc m)) (laws.fill_ends r.inner s.inner_state f)
      ends (suc m) (c ∷ cs) f e = absurd (omega arith)

  limited_drops :
      (r r' : LimitedBufReader S) (buf : Bytes) (n : ℕ)
      → Shown r r' buf
      → n ≤ length buf
      → limited_content content (consume reader n r') ≡ drop n (limited_content content r)
  unfolding consume
  limited_drops r r' buf n s h =
      let b = s.inner_buf in
      let t = record r { inner = s.inner_state } in
      let fits = (limited_shows r r' buf s).1 in
      let size = sym (ap length s.cut) ∙ length-take (min (length b) (remaining r)) b in
      let exact : min n (remaining r) ≡ n = omega arith in
      rw (← s.same, exact)
        (ap (take (sub_u64 r.limit (add_u64 r.pos n)))
            (laws.consume_drops r.inner s.inner_state b n s.filled (omega arith))
          ∙ ap (λ k. take k (drop n (content r.inner))) (sub-add_u64 r.limit r.pos n (omega arith))
          ∙ take-drop (remaining r) n (content r.inner) (omega arith))

  -- A limit on a reader of some content gives a reader of the part of it that the limit lets pass.
  pub limited-IsBufRead : IsBufRead (limited reader).buffered (limited_content content)
  limited-IsBufRead = record {
    fill_keeps = λ r r' buf h. limited_keeps r r' buf (fill-Shown r r' buf h);
    fill_shows = λ r r' buf h.
        let s = fill-Shown r r' buf h in
        sym (take-append-drop (length buf) (limited_content content r))
        ∙ ap (λ x. x ++ drop (length buf) (limited_content content r)) (limited_shows r r' buf s).0;
    fill_ends = λ r r' h. limited_ends r r' (fill-Shown r r' [] h);
    consume_drops = λ r r' buf n h k. limited_drops r r' buf n (fill-Shown r r' buf h) k;
  }

  pub limited-NeverFails : NeverFails reader.buffered → NeverFails (limited reader).buffered
  unfolding fill_buf
  limited-NeverFails calm r =
      let (buf, s, e) = calm r.inner in
      (take (min (length buf) (remaining r)) buf, record r { inner = s }, ap (limit_buf reader r) e)
