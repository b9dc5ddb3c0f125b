-- ===== src/StreamIo/Seek.antt =====
-- What `io::Seek` promises of a stream of known bytes.
use chatnoir_resiliparse.Prelude.{ℕ, ◌+◌, ◌≤◌, ◌<◌, ◌≡◌, length, drop}
use chatnoir_resiliparse.Prelude.Int.{ℤ, pos, add_int, u64_mod}
use chatnoir_resiliparse.Bytes.{Bytes}
use chatnoir_resiliparse.Io.{ok, Io, BufRead}
use chatnoir_resiliparse.Io.Laws.{IsBufRead}
use chatnoir_resiliparse.StreamIo.{SeekFrom}

-- The position that a seek asks for, from the current position and the size of the stream.
abbrev pub target : ℕ → ℕ → SeekFrom → ℤ
target at size (SeekFrom.start p) = pos p
target at size (SeekFrom.current p) = add_int at p
target at size (SeekFrom.end p) = add_int size p

-- `tell` reports the position `at`, which moves by what is consumed.
pub record IsPositioned {S : Type 0} (reader : BufRead S) (tell : Io S ℕ) (content : S → Bytes)
    (at : S → ℕ) : Type 0 where
  pub tells :
      (s : S) → (s' : S) × (tell s ≡ (ok (at s), s')) × (content s' ≡ content s) × (at s' ≡ at s)
  pub fill_stays : (s s' : S) (buf : Bytes) → reader.fill_buf s ≡ (ok buf, s') → at s' ≡ at s
  pub consume_moves :
      (s s' : S) (buf : Bytes) (n : ℕ)
      → reader.fill_buf s ≡ (ok buf, s')
      → n ≤ length buf
      → at (reader.consume n s') ≡ at s + n

-- A seek that succeeds moves to the position asked for and returns it.
pub record IsSeek {S : Type 0} (seek : SeekFrom → Io S ℕ) (whole : S → Bytes) (at : S → ℕ)
    : Type 0 where
  pub seek_moves :
      (p : SeekFrom) (s s' : S) (q : ℕ)
      → seek p s ≡ (ok q, s')
      → (pos q ≡ target (at s) (length (whole s)) p) × (at s' ≡ q) × (whole s' ≡ whole s)

-- A buffered reader of the bytes `whole`, of which those from `at` on are still to come.
pub record IsStream {S : Type 0} (reader : BufRead S) (whole : S → Bytes) (at : S → ℕ)
    : Type 0 where
  pub reads : IsBufRead reader (λ s. drop (at s) (whole s))
  pub fits : (s : S) → length (whole s) < u64_mod
  pub at_fits : (s : S) → at s < u64_mod
  pub fill_same : (s s' : S) (buf : Bytes) → reader.fill_buf s ≡ (ok buf, s') → whole s' ≡ whole s
  pub consume_same : (n : ℕ) (s : S) → whole (reader.consume n s) ≡ whole s
