-- ===== src/StreamIo/Dechunk/Spec.antt =====
-- What the chunked reader delivers of a chunked encoding, and the state it is in while it does.
use chatnoir_resiliparse.Prelude.{
  ℕ, zero, suc, ◌-◌, ◌≤◌, ◌<◌, ◌≡◌, ap, ◌∙◌, some, [], ◌++◌, arith, length, take, take_all,
}
use chatnoir_resiliparse.Bytes.{Bytes, memchr}
use chatnoir_resiliparse.Io.{Result, ok}
use chatnoir_resiliparse.StreamIo.ReadLine.{first_line}
use chatnoir_resiliparse.StreamIo.ReadLine.Line.{line_ends}
use chatnoir_resiliparse.StreamIo.Dechunk.{ChunkedReader, header_size, pending}

-- A line that holds the size of a chunk.
pub record IsHeader (header : Bytes) (n : ℕ) : Type 0 where
  pub line_feed : ℕ
  pub found : memchr b'\n' header ≡ some line_feed
  pub last : suc line_feed ≡ length header
  pub size : header_size header ≡ some n

-- The first text is a chunked encoding of the second. Two bytes follow each chunk and each header of size
-- 0. The encoding may stop before any header, and chunks of size 0 may follow the last one.
pub data Decodes : Bytes → Bytes → Type 0 where
  over : Decodes [] []
  ends :
      (header end enc : Bytes)
      → IsHeader header 0
      → length end ≡ 2
      → Decodes enc []
      → Decodes (header ++ (end ++ enc)) []
  chunk :
      (header part end enc body : Bytes) (n : ℕ)
      → IsHeader header (suc n)
      → length part ≡ suc n
      → length end ≡ 2
      → Decodes enc body
      → Decodes (header ++ (part ++ (end ++ enc))) (part ++ body)

-- The same, where bytes of a chunk are still missing.
pub record Missing (m : ℕ) (v d : Bytes) : Type 0 where
  pub part : Bytes
  pub end : Bytes
  pub enc : Bytes
  pub body : Bytes
  pub text : v ≡ part ++ (end ++ enc)
  pub result : d ≡ part ++ body
  pub part_size : length part ≡ m
  pub end_size : length end ≡ 2
  pub others : Decodes enc body

abbrev pub Within : ℕ → Bytes → Bytes → Type 0
Within zero v d = Decodes v d
Within (suc m) v d = Missing (suc m) v d

pub header_first :
    (header rest : Bytes) (n max : ℕ)
    → IsHeader header n
    → length header ≤ max
    → first_line max (header ++ rest) ≡ header
header_first header rest n max h fits =
    let whole = take_all (length header) header (omega arith) in
    let (line, k) =
      line_ends max (length header) header rest h.line_feed fits
        (ap (memchr b'\n') whole ∙ h.found) in
    line ∙ ap (λ j. take j header) h.last ∙ whole

module _ {S : Type 0} (content : S → Bytes) (fuel : ℕ) where
  -- What the reader is still to deliver is `d`.
  pub record Holds (r : ChunkedReader S) (d : Bytes) : Type 0 where
    pub rest : Bytes
    pub joined : pending r ++ rest ≡ d
    pub behind : r.chunk_read ≤ r.chunk_size
    pub boundary : r.chunk_read ≡ r.chunk_size → r.chunk_read ≡ 0
    pub within : Within (r.chunk_size - r.chunk_read) (content r.inner) rest
    pub enough : length (content r.inner) < fuel

  -- A buffer has been shown, and it is empty only where nothing is left to deliver.
  pub record Shows (d : Bytes) (x : Result Bytes × ChunkedReader S) : Type 0 where
    pub buf : Bytes
    pub after : ChunkedReader S
    pub succeeds : x ≡ (ok buf, after)
    pub shown : pending after ≡ buf
    pub holds : Holds after d
    pub at_end : buf ≡ [] → d ≡ []
