-- ===== src/StreamIo/ReadLine.antt =====
-- fastwarc-rs/src/stream_io/bufread.rs: `LimitedBufReader::read_line`.
pub mod Line
pub mod Correct
pub mod Limit
use chatnoir_resiliparse.Prelude.{
  ℕ, zero, suc, ◌+◌, ◌-◌, ◌≤◌, ◌<◌, ◌≡◌, refl, sym, ap, ◌∙◌, Bool, true, false, none, some, [], ◌∷◌,
  ◌++◌, arith, if◌then◌else◌, ltb, ◌==◌, length, take, drop, min, append-nil, append_assoc,
  Option-cases, Bool-cases, ltb→lt, ltb→le, take-append_left, inl, inr, length-append, length-drop,
  length-take, drop-drop,
}
use chatnoir_resiliparse.Bytes.{Bytes, is_empty, memchr}
use chatnoir_resiliparse.Io.{Result, ok, err, other, Io, BufRead}
use chatnoir_resiliparse.Io.Laws.{IsBufRead, NeverFails}
use chatnoir_resiliparse.StreamIo.{WarcRead}
use chatnoir_resiliparse.StreamIo.Limited.{LimitedBufReader, limited}
use chatnoir_resiliparse.StreamIo.Limited.Laws.{
  limited_content, limited-IsBufRead, limited-NeverFails,
}

module _ {S : Type 0} (reader : BufRead S) (start max : ℕ) where
  -- What the loop does with a chunk that is not empty; `next` is the rest of the loop. The state
  -- is the caller's buffer and the reader.
  unfoldable pub take_line : Io (Bytes × S) ℕ → Bytes → Bytes → S → Result ℕ × (Bytes × S)
  take_line next buf chunk s =
      let limit = min (length chunk) (max - (length buf - start)) in
      elim (memchr b'\n' (take limit chunk)) [
        | some p ↦
            let buf' = buf ++ take (suc p) chunk in
            (ok (length buf' - start), (buf', reader.consume (suc p) s))
        | none ↦ next (buf ++ take limit chunk, reader.consume limit s)
      ]

  unfoldable pub on_line_chunk :
      Io (Bytes × S) ℕ → Bytes → Result Bytes × S → Result ℕ × (Bytes × S)
  unfolding take_line
  on_line_chunk next buf (err e, s) = (err e, (buf, s))
  on_line_chunk next buf (ok [], s) = (ok (length buf - start), (buf, s))
  on_line_chunk next buf (ok (c ∷ cs), s) = take_line next buf (c ∷ cs) s

  unfoldable pub read_line_loop : ℕ → Io (Bytes × S) ℕ
  unfolding on_line_chunk
  read_line_loop zero (buf, s) = (err other, (buf, s))
  read_line_loop (suc fuel) (buf, s) =
      if ltb (length buf - start) max
      then on_line_chunk (read_line_loop fuel) buf (reader.fill_buf s)
      else (ok (length buf - start), (buf, s))

unfoldable pub read_line : {S : Type 0} → WarcRead S → ℕ → ℕ → Io (Bytes × LimitedBufReader S) ℕ
unfolding read_line_loop
read_line reader fuel max_line_len (buf, r) =
    read_line_loop (limited reader).buffered (length buf) (min max_line_len r.limit) fuel (buf, r)

-- The first line of a text with its line feed, cut at `max` bytes.
unfoldable pub first_line : ℕ → Bytes → Bytes
first_line zero v = []
first_line (suc max) [] = []
first_line (suc max) (c ∷ cs) =
    let rest = first_line max cs in if c == b'\n' then c ∷ [] else c ∷ rest
