-- ===== src/Header/Parse.antt =====
-- fastwarc-rs/src/warc/header.rs: `HeaderMap::parse_with_opts` and the splitting of lines. The
-- locals of the function and `self` are the record `Parser`.
pub mod Reference
pub mod Lines
pub mod LineEnds
pub mod Scan
pub mod Loop
pub mod Total
use chatnoir_resiliparse.Prelude.{
  ℕ, zero, suc, ◌+◌, ◌*◌, Bool, true, false, not, ◌&&◌, ◌||◌, Option, none, some, List, [], ◌∷◌,
  ◌++◌, ◌==◌, ltb, if◌then◌else◌, length, take, drop, last?, is_nil,
}
use mathlib.Core.Option as O
use chatnoir_resiliparse.Bytes.{Bytes, is_empty, trim_ascii, trim_ascii_end, memchr, find_crlf}
use chatnoir_resiliparse.Io.{ErrorKind, invalid_data, other, Result, ok, err, Io, BufRead}
use chatnoir_resiliparse.Header.{
  HeaderMap, CowHeaderValue, CowHeaderTuple, HeaderOffset, offset_slice, trim_ascii_offsets, clear,
}

pub record Parser : Type 0 where
  pub map : HeaderMap
  pub line_start : ℕ
  pub expect_status_line : Bool
  pub bytes_consumed : ℕ

abbrev pub raw : Parser → Bytes
raw p = p.map.raw_header_block

abbrev pub shift : ℕ → HeaderOffset → HeaderOffset
shift n o = (n + o.0, n + o.1)

-- A continuation line is added to the last header. With no header there is one with an empty key.
unfoldable pub continue_last : Bytes → Bytes → List CowHeaderTuple → List CowHeaderTuple
continue_last block trimmed [] = CowHeaderTuple.owned [] trimmed ∷ []
continue_last block trimmed (CowHeaderTuple.offsets k v ∷ []) =
    CowHeaderTuple.owned (offset_slice block k) (offset_slice block v ++ (b' ' ∷ trimmed)) ∷ []
continue_last block trimmed (CowHeaderTuple.owned k v ∷ []) =
    CowHeaderTuple.owned k (v ++ (b' ' ∷ trimmed)) ∷ []
continue_last block trimmed (t ∷ u ∷ ts) = t ∷ continue_last block trimmed (u ∷ ts)

abbrev pub is_continuation : Bytes → Bool
is_continuation [] = false
is_continuation (c ∷ cs) = c == b' ' || c == b'\t'

abbrev pub header_at : ℕ → Bytes → ℕ → CowHeaderTuple
header_at start line colon =
    CowHeaderTuple.offsets (shift start (trim_ascii_offsets (take colon line)))
      (shift (start + colon + 1) (trim_ascii_offsets (drop (colon + 1) line)))

-- `split_and_push_parsed_line`: the map, and the flag that a status line is expected.
unfoldable pub split_and_push_parsed_line : ℕ → HeaderMap → Bool → HeaderMap × Bool
unfolding continue_last
split_and_push_parsed_line line_start h expect =
    let block = h.raw_header_block in
    let line = drop line_start block in
    if expect
    then (
      record h {
        status_line = some (CowHeaderValue.offsets (shift line_start (trim_ascii_offsets line)));
      },
      false,
    )
    else if is_continuation line
    then (record h { headers = continue_last block (trim_ascii line) h.headers }, false)
    else elim (memchr b':' line) [
      | none ↦ (h, false)
      | some colon ↦
          (record h { headers = h.headers ++ (header_at line_start line colon ∷ []) }, false)
    ]

-- `raw_header_block.extend_from_slice`, with the count of bytes consumed.
abbrev pub push : Bytes → Parser → Parser
push b p = record p {
  map = record p.map { raw_header_block = raw p ++ b };
  bytes_consumed = p.bytes_consumed + length b;
}

abbrev pub split_line : Parser → Parser
split_line p =
    let (h, expect) = split_and_push_parsed_line p.line_start p.map p.expect_status_line in
    record p { map = h; expect_status_line = expect }

-- A line has ended: it is split, and the next one starts behind it.
unfoldable pub next_line : Parser → Parser
next_line p = record (split_line p) { line_start = length (raw p) }

abbrev pub current_line : Parser → Bytes
current_line p = drop p.line_start (raw p)

-- The line just read ends the header block.
unfoldable pub ends_block : Bool → ℕ → Bytes → Bool
ends_block quirks sep_len line = length line == sep_len || quirks && is_empty (trim_ascii_end line)

unfoldable pub find_eol : Bool → Bytes → Option ℕ
find_eol true chunk = memchr b'\n' chunk
find_eol false chunk = find_crlf chunk

abbrev pub sep_len : Bool → ℕ
sep_len true = 1
sep_len false = 2

pub data Outcome : Type 0 where
  finished more : Outcome
  failed : ErrorKind → Outcome

-- `while consumed < chunk.len()`, on what is left of a chunk of `chunk_len` bytes. The middle
-- component is `consumed`. Each round takes a byte at least, so the bytes left are enough fuel.
unfoldable pub scan : Bool → ℕ → ℕ → ℕ → Bytes → ℕ → Parser → Outcome × ℕ × Parser
unfolding find_eol
scan quirks max chunk_len fuel [] consumed p = (more, consumed, p)
scan quirks max chunk_len zero (c ∷ cs) consumed p = (failed other, consumed, p)
scan quirks max chunk_len (suc fuel) (c ∷ cs) consumed p = elim (find_eol quirks (c ∷ cs)) [
  | none ↦
      if ltb max (length (raw p) + chunk_len)
      then (failed invalid_data, consumed, p)
      else (more, chunk_len, push (c ∷ cs) p)
  | some eol ↦
      let n = eol + sep_len quirks in
      let p' = push (take n (c ∷ cs)) p in
      let rest = scan quirks max chunk_len fuel (drop n (c ∷ cs)) (consumed + n) (next_line p') in
      if ltb max (length (raw p) + n)
      then (failed invalid_data, consumed, p)
      else if ends_block quirks (sep_len quirks) (current_line p')
      then (finished, consumed + n, p')
      else rest
]

abbrev pub is_cr : Option ℕ → Bool
is_cr none = false
is_cr (some c) = c == b'\r'

abbrev pub ends_with_cr : Bytes → Bool
ends_with_cr v = is_cr (last? v)

-- One chunk of the reader: a line feed that completes a CR LF split between two chunks, then the
-- lines of the chunk.
unfoldable pub read_chunk : Bool → ℕ → ℕ → Bytes → Parser → Outcome × ℕ × Parser
unfolding scan
read_chunk quirks max c cs p =
    if ends_with_cr (raw p) && c == b'\n'
    then (let p' = push (b'\n' ∷ []) p in
        if ends_block quirks 2 (current_line p')
        then (finished, 1, p')
        else scan quirks max (suc (length cs)) (length cs) cs 1 (next_line p'))
    else scan quirks max (suc (length cs)) (suc (length cs)) (c ∷ cs) 0 p

module _ {S : Type 0} (reader : BufRead S) (quirks : Bool) (max : ℕ) where
  -- What follows a chunk: the reader consumes what was taken of it, unless the limit was passed.
  unfoldable pub on_chunk :
      (Parser → S → (Result ℕ × Parser) × S) → Outcome × ℕ × Parser → S → (Result ℕ × Parser) × S
  on_chunk loop (finished, consumed, q) s = ((ok q.bytes_consumed, q), reader.consume consumed s)
  on_chunk loop (more, consumed, q) s = loop q (reader.consume consumed s)
  on_chunk loop (failed e, consumed, q) s = ((err e, q), s)

  -- The body of `loop`, on what `fill_buf` returned.
  unfoldable pub on_fill :
      (Parser → S → (Result ℕ × Parser) × S) → Parser → Result Bytes × S → (Result ℕ × Parser) × S
  unfolding on_chunk
  on_fill loop p (err e, s) = ((err e, p), s)
  on_fill loop p (ok [], s) =
      ((ok p.bytes_consumed, if is_nil (current_line p) then p else split_line p), s)
  on_fill loop p (ok (c ∷ cs), s) = on_chunk loop (read_chunk quirks max c cs p) s

  -- `loop`: the fuel bounds the calls of `fill_buf`.
  unfoldable pub parse_loop : ℕ → Parser → S → (Result ℕ × Parser) × S
  unfolding on_fill read_chunk
  parse_loop zero p s = ((err other, p), s)
  parse_loop (suc fuel) p s = on_fill (parse_loop fuel) p (reader.fill_buf s)

-- `preserve_prefix`: the record parser has seeded the block with a status line.
unfoldable pub preserve_prefix : Bool → HeaderMap → Bool
preserve_prefix has_status_line h =
    not has_status_line
    && elim h.status_line [ none ↦ false | some v ↦ true ]
    && is_nil h.headers
    && not (is_empty h.raw_header_block)

-- The state in which `parse_with_opts` enters its loop.
unfoldable pub start : Bool → HeaderMap → Parser
unfolding clear
start has_status_line h =
    let keep = preserve_prefix has_status_line h in
    let h' = if keep then h else clear h in
    record {
      map = record h' { dirty = false };
      line_start = if keep then length h'.raw_header_block else 0;
      expect_status_line = has_status_line;
      bytes_consumed = 0;
    }

unfoldable pub parse_with_opts :
    {S : Type 0} → BufRead S → ℕ → Bool → ℕ → Bool → HeaderMap → S → (Result ℕ × HeaderMap) × S
unfolding parse_loop start preserve_prefix
parse_with_opts reader fuel has_status_line max quirks h s =
    let ((r, p), s') = parse_loop reader quirks max fuel (start has_status_line h) s in
    ((r, p.map), s')
