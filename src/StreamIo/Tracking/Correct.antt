-- ===== src/StreamIo/Tracking/Correct.antt =====
-- The cached position is the position of the inner reader.
use chatnoir_resiliparse.Prelude.{
  ℕ, zero, suc, ◌+◌, ◌<◌, ◌≤◌, ◌≡◌, refl, sym, ap, ◌∙◌, true, false, arith, leb, length, drop,
  length-append, length-drop, leb→le, ◌==◌, Bool, if◌then◌else◌,
}
use chatnoir_resiliparse.Prelude.Int.{pos, negsuc, add_int, add_u64_exact, u64_mod}
use chatnoir_resiliparse.Bytes.{Bytes}
use chatnoir_resiliparse.Io.{Result, ok, err}
use chatnoir_resiliparse.StreamIo.{SeekFrom}
use chatnoir_resiliparse.StreamIo.Seek.{target, IsPositioned, IsSeek, IsStream}
use chatnoir_resiliparse.StreamIo.Tracking.{
  BufReadSeek, moved, RawReaderAdapter, fill_buf, consume, inner_seek, seek_ahead, seek,
}

same_number : (a b : ℕ) → (a == b) ≡ true → a ≡ b
same_number a b h = ground arith

module _ {S : Type 0} (reader : BufReadSeek S) (whole : S → Bytes) (at : S → ℕ)
    (stream : IsStream reader.buffered whole at)
    (position : IsPositioned reader.buffered reader.stream_position (λ s. drop (at s) (whole s)) at)
    (seeks : IsSeek reader.seek whole at) where
  -- The cache is right, and the stream is of the bytes `v`.
  abbrev pub Synced : Bytes → RawReaderAdapter S → Type 0
  Synced v r = (r.pos ≡ at r.inner) × (whole r.inner ≡ v)

  pub filled :
      (r r' : RawReaderAdapter S) (buf : Bytes)
      → fill_buf reader r ≡ (ok buf, r')
      → (reader.fill_buf r.inner ≡ (ok buf, r'.inner)) × (r'.pos ≡ r.pos)
  unfolding fill_buf
  filled r r' buf e = (cc, cc)

  -- What `fill_buf` has shown fits the rest of the stream, and a position past it fits in a u64.
  pub shown_fits :
      (s s' : S) (buf : Bytes) (n : ℕ)
      → reader.fill_buf s ≡ (ok buf, s')
      → n ≤ length buf
      → at s + n < u64_mod
  shown_fits s s' buf n e h =
      let shown =
        ap length (stream.reads.fill_shows s s' buf e)
        ∙ length-append buf (drop (length buf) (drop (at s) (whole s))) in
      let size = length-drop (at s) (whole s) in
      let small = stream.fits s in let here = stream.at_fits s in omega arith

  pub fill_buf-Synced :
      (v : Bytes) (r r' : RawReaderAdapter S) (buf : Bytes)
      → fill_buf reader r ≡ (ok buf, r')
      → Synced v r
      → Synced v r'
  fill_buf-Synced v r r' buf e (p, w) =
      let (f, same) = filled r r' buf e in
      (
        same ∙ p ∙ sym (position.fill_stays r.inner r'.inner buf f),
        stream.fill_same r.inner r'.inner buf f ∙ w,
      )

  pub consume-Synced :
      (v : Bytes) (r r' : RawReaderAdapter S) (buf : Bytes) (n : ℕ)
      → fill_buf reader r ≡ (ok buf, r')
      → n ≤ length buf
      → Synced v r
      → Synced v (consume reader n r') × ((consume reader n r').pos ≡ r.pos + n)
  unfolding consume
  consume-Synced v r r' buf n e h (p, w) =
      let (f, same) = filled r r' buf e in
      let moved = position.consume_moves r.inner r'.inner buf n f h in
      let fits : r'.pos + n < u64_mod =
        let small = shown_fits r.inner r'.inner buf n f h in omega arith in
      let added = add_u64_exact r'.pos n fits in
      (
        (omega arith, stream.consume_same n r'.inner ∙ stream.fill_same r.inner r'.inner buf f ∙ w),
        omega arith,
      )

  -- A successful `seek` of the adapter is one of the stream.
  abbrev pub Sought : Bytes → SeekFrom → RawReaderAdapter S → ℕ → RawReaderAdapter S → Type 0
  Sought v p r q r' = Synced v r' × (r'.pos ≡ q) × (pos q ≡ target r.pos (length v) p)

  inner_seek-Sought :
      (v : Bytes) (p : SeekFrom) (r r' : RawReaderAdapter S) (q : ℕ)
      → inner_seek reader p r ≡ (ok q, r')
      → Synced v r
      → Sought v p r q r'
  unfolding inner_seek
  inner_seek-Sought v p r r' q e (c, w) = go (reader.seek p r.inner) refl e
    where
      go :
          (x : Result ℕ × S)
          → reader.seek p r.inner ≡ x
          → moved reader r x ≡ (ok q, r')
          → Sought v p r q r'
      go (err y, s) f g = cc
      go (ok n, s) f g =
          let (to, here, same) = seeks.seek_moves p r.inner s n f in
          let i = ap (λ x. x.1.inner) g in
          let j : n ≡ r'.pos = ap (λ x. x.1.pos) g in
          let k : n ≡ q = cc in
          (
            (sym j ∙ sym here ∙ ap at i, sym (ap whole i) ∙ same ∙ w),
            sym j ∙ k,
            ap pos (sym k)
                ∙ to
                ∙ ap (λ a. target a (length (whole r.inner)) p) (sym c)
                ∙ ap (λ b. target r.pos (length b) p) w,
          )

  seek_ahead-Sought :
      (v : Bytes) (n : ℕ) (r r' : RawReaderAdapter S) (q : ℕ)
      → seek_ahead reader n (fill_buf reader r) ≡ (ok q, r')
      → Synced v r
      → Sought v (SeekFrom.current (pos n)) r q r'
  unfolding seek_ahead add_int
  seek_ahead-Sought v n r r' q e c = go (fill_buf reader r) refl e
    where
      within :
          (b : Bytes) (t : RawReaderAdapter S)
          → fill_buf reader r ≡ (ok b, t)
          → (inside : Bool) → leb n (length b) ≡ inside
          → (if inside
              then (ok (consume reader n t).pos, consume reader n t)
              else inner_seek reader (SeekFrom.current (pos n)) t)
            ≡ (ok q, r')
          → Sought v (SeekFrom.current (pos n)) r q r'
      within b t f true i g =
          let (synced, moved) = consume-Synced v r t b n f (leb→le n (length b) i) c in
          let same : consume reader n t ≡ r' = ap (λ x. x.1) g in
          let k : (consume reader n t).pos ≡ q = cc in
          rw (← same) (synced, k, ap pos (sym k ∙ moved))
      within b t f false i g =
          let (synced, to, at_target) =
            inner_seek-Sought v (SeekFrom.current (pos n)) t r' q g (fill_buf-Synced v r t b f c) in
          (synced, to, at_target ∙ ap (λ a. pos (a + n)) (filled r t b f).1)

      go :
          (x : Result Bytes × RawReaderAdapter S)
          → fill_buf reader r ≡ x
          → seek_ahead reader n x ≡ (ok q, r')
          → Sought v (SeekFrom.current (pos n)) r q r'
      go (err y, t) f g = cc
      go (ok b, t) f g = within b t f (leb n (length b)) refl g

  pub seek-Sought :
      (v : Bytes) (p : SeekFrom) (r r' : RawReaderAdapter S) (q : ℕ)
      → seek reader p r ≡ (ok q, r')
      → Synced v r
      → Sought v p r q r'
  unfolding seek add_int
  seek-Sought v (SeekFrom.current (pos zero)) r r' q e c =
      let same : r ≡ r' = ap (λ x. x.1) e in
      let k : r.pos ≡ q = cc in rw (← same) (c, k, ap pos (sym k ∙ (omega arith)))
  seek-Sought v (SeekFrom.current (pos (suc n))) r r' q e c = seek_ahead-Sought v (suc n) r r' q e c
  seek-Sought v (SeekFrom.current (negsuc n)) r r' q e c =
      inner_seek-Sought v (SeekFrom.current (negsuc n)) r r' q e c
  seek-Sought v (SeekFrom.end z) r r' q e c = inner_seek-Sought v (SeekFrom.end z) r r' q e c
  seek-Sought v (SeekFrom.start p) r r' q e c = here (p == r.pos) refl e
    where
      here :
          (b : Bool)
          → (p == r.pos) ≡ b
          → (if b then (ok r.pos, r) else inner_seek reader (SeekFrom.start p) r) ≡ (ok q, r')
          → Sought v (SeekFrom.start p) r q r'
      here true i g =
          let same : r ≡ r' = ap (λ x. x.1) g in
          let k : r.pos ≡ q = cc in rw (← same) (c, k, ap pos (sym k ∙ sym (same_number p r.pos i)))
      here false i g = inner_seek-Sought v (SeekFrom.start p) r r' q g c
