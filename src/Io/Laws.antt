-- ===== src/Io/Laws.antt =====
-- What the code relies on of a buffered reader and of a writer.
use chatnoir_resiliparse.Prelude.{ℕ, suc, ◌≤◌, ◌≡◌, [], ◌++◌, length, drop}
use chatnoir_resiliparse.Bytes.{Bytes}
use chatnoir_resiliparse.Io.{ok, Io, BufRead, Write}

-- `content s` is all that can still be read from `s`.
pub record IsBufRead {S : Type 0} (r : BufRead S) (content : S → Bytes) : Type 0 where
  pub fill_keeps : (s s' : S) (buf : Bytes) → r.fill_buf s ≡ (ok buf, s') → content s' ≡ content s
  pub fill_shows :
      (s s' : S) (buf : Bytes)
      → r.fill_buf s ≡ (ok buf, s')
      → content s ≡ buf ++ drop (length buf) (content s)
  pub fill_ends : (s s' : S) → r.fill_buf s ≡ (ok [], s') → content s ≡ []
  pub consume_drops :
      (s s' : S) (buf : Bytes) (n : ℕ)
      → r.fill_buf s ≡ (ok buf, s')
      → n ≤ length buf
      → content (r.consume n s') ≡ drop n (content s)

-- A reader whose `fill_buf` always succeeds.
abbrev pub NeverFails : {S : Type 0} → BufRead S → Type 0
NeverFails {S} r = (s : S) → (buf : Bytes) × (s' : S) × (r.fill_buf s ≡ (ok buf, s'))

-- `emitted w` is all that has been written to `w`.
pub record IsWrite {W : Type 0} (out : Write W) (emitted : W → Bytes) : Type 0 where
  pub write_appends :
      (w w' : W) (b : Bytes) → out.write_all b w ≡ (ok tt, w') → emitted w' ≡ emitted w ++ b

-- A `read` into a buffer of `len` bytes takes bytes off the content, and none of a buffer that is
-- not empty only at its end.
pub record IsRead {S : Type 0} (read : ℕ → Io S Bytes) (content : S → Bytes) : Type 0 where
  pub read_takes :
      (len : ℕ) (s s' : S) (b : Bytes) → read len s ≡ (ok b, s') → content s ≡ b ++ content s'
  pub read_short : (len : ℕ) (s s' : S) (b : Bytes) → read len s ≡ (ok b, s') → length b ≤ len
  pub read_ends : (len : ℕ) (s s' : S) → read (suc len) s ≡ (ok [], s') → content s ≡ []

-- A `read` that always succeeds.
abbrev pub ReadsAlways : {S : Type 0} → (ℕ → Io S Bytes) → Type 0
ReadsAlways {S} read = (len : ℕ) (s : S) → (b : Bytes) × (s' : S) × (read len s ≡ (ok b, s'))
