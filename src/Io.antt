-- ===== src/Io.antt =====
-- `io::Result`, and the `BufRead` and `Write` traits as records of operations on a state. An
-- operation that fails keeps the state that it has reached.
pub mod Laws
pub mod Cursor
pub mod Writes
pub mod ReadLoop
use chatnoir_resiliparse.Prelude.{ℕ}
use chatnoir_resiliparse.Bytes.{Bytes}

-- The `io::ErrorKind`s that the code raises, without their messages, and a panic (`unwrap`).
pub data ErrorKind : Type 0 where
  invalid_data invalid_input unexpected_eof unsupported other panicked : ErrorKind

pub data Result {ℓ} (A : Type ℓ) : Type ℓ where
  ok : A → Result A
  err : ErrorKind → Result A

-- A computation that changes a state and may fail.
abbrev pub Io {ℓ} : Type ℓ → Type ℓ → Type ℓ
Io S A = S → Result A × S

abbrev pub continue {ℓ} : {S A B : Type ℓ} → (A → Io S B) → Result A × S → Result B × S
continue f (ok a, s) = f a s
continue f (err e, s) = (err e, s)

infixl 5 ◌>>=◌ ◌>>◌
abbrev pub ◌>>=◌ {ℓ} : {S A B : Type ℓ} → Io S A → (A → Io S B) → Io S B
◌>>=◌ m f s = continue f (m s)

abbrev pub ◌>>◌ {ℓ} : {S A B : Type ℓ} → Io S A → Io S B → Io S B
m >> n = m >>= λ _. n

abbrev pub pure {ℓ} : {S A : Type ℓ} → A → Io S A
pure a s = (ok a, s)

-- `io::BufRead`: `fill_buf` shows bytes, `consume` drops some of those shown.
pub record BufRead (S : Type 0) : Type 0 where
  pub fill_buf : Io S Bytes
  pub consume : ℕ → S → S

-- `io::Write`, through `write_all`.
pub record Write (W : Type 0) : Type 0 where
  pub write_all : Bytes → Io W (Unit {0})
