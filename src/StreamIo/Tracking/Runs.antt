-- ===== src/StreamIo/Tracking/Runs.antt =====
-- What an adapter reads, and every run of its operations.
use chatnoir_resiliparse.Prelude.{
  ℕ, ◌+◌, ◌≤◌, ◌≡◌, refl, sym, ap, ◌∙◌, arith, length, drop, take, min, length-take,
  take-append_left,
}
use chatnoir_resiliparse.Prelude.Int.{pos}
use chatnoir_resiliparse.Bytes.{Bytes}
use chatnoir_resiliparse.Io.{Result, ok, err}
use chatnoir_resiliparse.StreamIo.{SeekFrom}
use chatnoir_resiliparse.StreamIo.Seek.{target, IsPositioned, IsSeek, IsStream}
use chatnoir_resiliparse.StreamIo.Tracking.{
  BufReadSeek, RawReaderAdapter, copy, new, fill_buf, consume, read, seek,
}
use chatnoir_resiliparse.StreamIo.Tracking.Correct.{
  Synced, filled, fill_buf-Synced, consume-Synced, seek-Sought,
}

module _ {S : Type 0} (reader : BufReadSeek S) where
  -- The operations that change an adapter, where they succeed.
  pub data Operation (r : RawReaderAdapter S) : RawReaderAdapter S → Type 0 where
    filled_buf :
        (buf : Bytes) (r' : RawReaderAdapter S) → fill_buf reader r ≡ (ok buf, r') → Operation r r'
    consumed :
        (buf : Bytes) (r' : RawReaderAdapter S) (n : ℕ)
        → fill_buf reader r ≡ (ok buf, r')
        → n ≤ length buf
        → Operation r (consume reader n r')
    has_read :
        (len : ℕ) (b : Bytes) (r' : RawReaderAdapter S)
        → read reader len r ≡ (ok b, r')
        → Operation r r'
    sought :
        (p : SeekFrom) (q : ℕ) (r' : RawReaderAdapter S)
        → seek reader p r ≡ (ok q, r')
        → Operation r r'

  pub data History (r : RawReaderAdapter S) : RawReaderAdapter S → Type 0 where
    idle : History r r
    then : (r' r'' : RawReaderAdapter S) → History r r' → Operation r' r'' → History r r''

module _ {S : Type 0} (reader : BufReadSeek S) (whole : S → Bytes) (at : S → ℕ)
    (stream : IsStream reader.buffered whole at)
    (position : IsPositioned reader.buffered reader.stream_position (λ s. drop (at s) (whole s)) at)
    (seeks : IsSeek reader.seek whole at) where
  -- `b` stands at the position of the stream, which moves past it.
  abbrev pub ReadFrom : Bytes → ℕ → RawReaderAdapter S → Bytes → RawReaderAdapter S → Type 0
  ReadFrom v len r b r' =
      Synced reader whole at stream position seeks v r'
      × (r'.pos ≡ r.pos + length b)
      × (take (length b) (drop r.pos v) ≡ b)
      × (length b ≤ len)

  pub read-ReadFrom :
      (v : Bytes) (len : ℕ) (r r' : RawReaderAdapter S) (b : Bytes)
      → read reader len r ≡ (ok b, r')
      → Synced reader whole at stream position seeks v r
      → ReadFrom v len r b r'
  unfolding read
  read-ReadFrom v len r r' b e c = go (fill_buf reader r) refl e
    where
      go :
          (x : Result Bytes × RawReaderAdapter S)
          → fill_buf reader r ≡ x
          → copy reader len x ≡ (ok b, r')
          → ReadFrom v len r b r'
      go (err y, t) f g = cc
      go (ok buf, t) f g =
          let n = min len (length buf) in
          let size : length (take n buf) ≡ n = omega (arith, length-take n buf) in
          let (synced, moved) =
            consume-Synced reader whole at stream position seeks v r t buf n f (omega arith) c in
          let i : take n buf ≡ b = cc in
          let j : consume reader n t ≡ r' = ap (λ x. x.1) g in
          let shown =
            stream.reads.fill_shows r.inner t.inner buf
              (filled reader whole at stream position seeks r t buf f).0 in
          rw (← i, ← j, size)
            (
              synced,
              moved,
              ap (λ k. take n (drop k v)) c.0
                  ∙ ap (λ w. take n (drop (at r.inner) w)) (sym c.1)
                  ∙ ap (take n) shown
                  ∙ take-append_left n buf (drop (length buf) (drop (at r.inner) (whole r.inner)))
                      (omega arith),
              omega arith,
            )

  new-Synced :
      (s : S)
      → Synced reader whole at stream position seeks (whole (new reader s).inner) (new reader s)
  unfolding new
  new-Synced s = let (s', told, same, here) = position.tells s in rw told (sym here, refl)

  Operation-Synced :
      (v : Bytes) (r r' : RawReaderAdapter S)
      → Operation reader r r'
      → Synced reader whole at stream position seeks v r
      → Synced reader whole at stream position seeks v r'
  Operation-Synced v r _ (Operation.filled_buf buf r' e) c =
      fill_buf-Synced reader whole at stream position seeks v r r' buf e c
  Operation-Synced v r _ (Operation.consumed buf r' n e h) c =
      (consume-Synced reader whole at stream position seeks v r r' buf n e h c).0
  Operation-Synced v r _ (Operation.has_read len b r' e) c = (read-ReadFrom v len r r' b e c).0
  Operation-Synced v r _ (Operation.sought p q r' e) c =
      (seek-Sought reader whole at stream position seeks v p r r' q e c).0

  History-Synced :
      (s : S) (r : RawReaderAdapter S)
      → History reader (new reader s) r
      → Synced reader whole at stream position seeks (whole (new reader s).inner) r
  History-Synced s _ History.idle = new-Synced s
  History-Synced s _ (History.then r' r run step) =
      Operation-Synced (whole (new reader s).inner) r' r step (History-Synced s r' run)

  -- Over a seekable stream, after any run of successful operations on a new adapter, the cached
  -- position is the position of the stream, stream_position returns it with no other effect, and
  -- the stream still has its bytes.
  pub run_position :
      (s : S) (r : RawReaderAdapter S)
      → History reader (new reader s) r
      → (r.pos ≡ at r.inner)
        × (seek reader (SeekFrom.current (pos 0)) r ≡ (ok (at r.inner), r))
        × (whole r.inner ≡ whole (new reader s).inner)
  unfolding seek
  run_position s r run = let (p, w) = History-Synced s r run in (p, ap (λ k. (ok k, r)) p, w)

  -- Over a seekable stream, a seek that succeeds after any run of successful operations on a new
  -- adapter returns the position asked for, counted from the start, the current position or the
  -- end, and leaves cache and stream there, whether it used the buffer or the stream's seek.
  pub run_seek :
      (s : S) (r r' : RawReaderAdapter S) (p : SeekFrom) (q : ℕ)
      → History reader (new reader s) r
      → seek reader p r ≡ (ok q, r')
      → (pos q ≡ target (at r.inner) (length (whole r.inner)) p) × (at r'.inner ≡ q) × (r'.pos ≡ q)
  run_seek s r r' p q run e =
      let (c, w) = History-Synced s r run in
      let ((c', w'), here, to) =
        seek-Sought reader whole at stream position seeks (whole r.inner) p r r' q e (c, refl) in
      (to ∙ ap (λ a. target a (length (whole r.inner)) p) c, sym c' ∙ here, here)

  -- Over a seekable stream, a read that succeeds after any run of successful operations on a new
  -- adapter returns bytes that stand at the position of the stream, at most as many as asked for,
  -- and moves the cache and the stream past them.
  pub run_read :
      (s : S) (r r' : RawReaderAdapter S) (len : ℕ) (b : Bytes)
      → History reader (new reader s) r
      → read reader len r ≡ (ok b, r')
      → (take (length b) (drop (at r.inner) (whole r.inner)) ≡ b)
        × (length b ≤ len)
        × (at r'.inner ≡ at r.inner + length b)
        × (r'.pos ≡ at r'.inner)
  run_read s r r' len b run e =
      let (c, w) = History-Synced s r run in
      let ((c', w'), moved, there, short) = read-ReadFrom (whole r.inner) len r r' b e (c, refl) in
      (ap (λ a. take (length b) (drop a (whole r.inner))) (sym c) ∙ there, short, omega arith, c')
