-- ===== src/StreamIo/Limited/Laws/Position.antt =====
-- A seek on a limited reader moves its inner reader by the same distance, within the limit.
use chatnoir_resiliparse.Prelude.{
  ℕ, zero, suc, ◌+◌, ◌-◌, ◌%◌, ◌<◌, ◌≤◌, ◌≡◌, refl, ap, ◌∙◌, ◌⊎◌, inl, inr, true, false, arith, min,
  if◌then◌else◌, ltb, leb, ◌==◌, ltb→lt, ltb→le, Bool-cases,
}
use chatnoir_resiliparse.Prelude.Int.{ℤ, pos, negsuc, i64_max, u64_mod, sub_u64, as_i64, add_int}
use chatnoir_resiliparse.Bytes.{Bytes}
use chatnoir_resiliparse.Io.{Result, ok, err, invalid_input}
use chatnoir_resiliparse.StreamIo.{SeekFrom, WarcRead}
use chatnoir_resiliparse.StreamIo.Seek.{IsSeek}
use chatnoir_resiliparse.StreamIo.Limited.{LimitedBufReader, move, new_position, seek_to, seek}

as_i64_forward : (p q : ℕ) → p ≤ q → q ≤ i64_max → as_i64 (sub_u64 q p) ≡ pos (q - p)
unfolding as_i64 sub_u64
as_i64_forward p q h k =
    let d : (q + u64_mod - p % u64_mod) % u64_mod ≡ q - p = omega arith in
    let small : leb (q - p) i64_max ≡ true = ground arith in rw (d, small) refl

as_i64_back : (p q : ℕ) → q < p → p ≤ i64_max → as_i64 (sub_u64 q p) ≡ negsuc (p - q - 1)
unfolding as_i64 sub_u64
as_i64_back p q h k =
    let d : (q + u64_mod - p % u64_mod) % u64_mod ≡ u64_mod - (p - q) = omega arith in
    let big : leb (u64_mod - (p - q)) i64_max ≡ false = ground arith in
    let n : u64_mod - (u64_mod - (p - q)) - 1 ≡ p - q - 1 = omega arith in rw (d, big, n) refl

add_int_pos : (a n k : ℕ) → pos k ≡ add_int a (pos n) → k ≡ a + n
unfolding add_int
add_int_pos a n k e = cc

add_int_negsuc : (a n k : ℕ) → pos k ≡ add_int a (negsuc n) → k + n + 1 ≡ a
unfolding add_int
add_int_negsuc a n k e = ground arith

-- The signed difference of two positions takes the one to the other.
add_int-as_i64 :
    (a p q k : ℕ)
    → p ≤ i64_max
    → q ≤ i64_max
    → pos k ≡ add_int a (as_i64 (sub_u64 q p))
    → k + p ≡ a + q
add_int-as_i64 a p q k hp hq e = elim (Bool-cases (ltb q p)) [
  | inl below ↦
      let h = ltb→lt q p below in
      let same = add_int_negsuc a (p - q - 1) k (e ∙ ap (add_int a) (as_i64_back p q h hp)) in
      omega arith
  | inr above ↦
      let h = ltb→le q p above in
      let same = add_int_pos a (q - p) k (e ∙ ap (add_int a) (as_i64_forward p q h hq)) in
      omega arith
]

module _ {S : Type 0} (reader : WarcRead S) (whole : S → Bytes) (at : S → ℕ)
    (seeks : IsSeek reader.seek whole at) where
  -- The logical position is now `q`, and the inner reader has moved by the same distance.
  abbrev pub MovesTo : LimitedBufReader S → ℕ → LimitedBufReader S → Type 0
  MovesTo r q r' =
      (r'.pos ≡ q)
      × (r'.limit ≡ r.limit)
      × (at r'.inner + r.pos ≡ at r.inner + q)
      × (whole r'.inner ≡ whole r.inner)

  -- A position that the source refuses.
  abbrev pub IsOutOfRange : ℤ → Type 0
  IsOutOfRange (negsuc n) = Unit
  IsOutOfRange (pos n) = i64_max < n

  -- How a seek to the position `z` ends.
  abbrev pub Seeks : LimitedBufReader S → ℤ → Result ℕ × LimitedBufReader S → Type 0
  Seeks r z (ok q, r') =
      MovesTo r q r' × ((n : ℕ) × (z ≡ pos n) × (n ≤ i64_max) × (q ≡ min n r.limit))
  Seeks r z (err e, r') =
      (IsOutOfRange z × (e ≡ invalid_input) × (r' ≡ r))
      ⊎ ((d : ℤ) × (reader.seek (SeekFrom.current d) r.inner ≡ (err e, r'.inner))
          × (r'.pos ≡ r.pos))

  move-Seeks :
      (r : LimitedBufReader S) (n p : ℕ) (x : Result ℕ × S)
      → r.pos ≤ i64_max
      → n ≤ i64_max
      → p ≡ min n r.limit
      → reader.seek (SeekFrom.current (as_i64 (sub_u64 p r.pos))) r.inner ≡ x
      → Seeks r (pos n) (move reader r p x)
  move-Seeks r n p (err y, s) hr hn m f = inr (as_i64 (sub_u64 p r.pos), f, refl)
  move-Seeks r n p (ok k, s) hr hn m f =
      let (to, here, same) =
        seeks.seek_moves (SeekFrom.current (as_i64 (sub_u64 p r.pos))) r.inner s k f in
      let went = add_int-as_i64 (at r.inner) r.pos p k hr (omega arith) to in
      ((refl, refl, omega arith, same), (n, refl, hn, m))

  seek_to-Seeks :
      (r : LimitedBufReader S) (z : ℤ) → r.pos ≤ i64_max → Seeks r z (seek_to reader r z)
  unfolding seek_to
  seek_to-Seeks r (negsuc n) h = inl (tt, refl, refl)
  seek_to-Seeks r (pos n) h = elim (Bool-cases (ltb i64_max n)) [
    | inl far ↦ rw far (inl (ltb→lt i64_max n far, refl, refl))
    | inr near ↦
        let p = if ltb r.limit n then r.limit else n in
        let m : p ≡ min n r.limit = ground arith in
        rw near (
          move-Seeks r n p (reader.seek (SeekFrom.current (as_i64 (sub_u64 p r.pos))) r.inner) h
            (ltb→le i64_max n near) m refl)
  ]

  -- Over a stream that can seek, a seek of a limited reader within its limit either succeeds, and
  -- then returns the position asked for or the limit, whichever is smaller, keeps the limit, and
  -- has moved the stream by as much as the logical position; or it fails as invalid input and
  -- changes nothing, where the position asked for is negative or more than i64::MAX; or it passes
  -- on a failure of the stream's seek, and the logical position stays.
  pub seek_limited :
      (r : LimitedBufReader S) (p : SeekFrom)
      → r.pos ≤ i64_max
      → r.pos ≤ r.limit
      → Seeks r (new_position reader r p) (seek reader p r)
  unfolding seek add_int new_position
  seek_limited r (SeekFrom.current (pos zero)) h k =
      ((refl, refl, refl, refl), (r.pos, ap pos (omega arith), h, omega arith))
  seek_limited r (SeekFrom.current (pos (suc n))) h k =
      let other : (suc n == 0) ≡ false = ground arith in
      rw other (seek_to-Seeks r (pos (r.pos + suc n)) h)
  seek_limited r (SeekFrom.current (negsuc n)) h k = seek_to-Seeks r (add_int r.pos (negsuc n)) h
  seek_limited r (SeekFrom.start n) h k = seek_to-Seeks r (pos n) h
  seek_limited r (SeekFrom.end z) h k = seek_to-Seeks r (add_int r.limit z) h
