-- ===== src/Header/View.antt =====
-- The header map without its representation: a status line, and keys with values as bytes. The
-- parser is described over this view, with no offsets and no block.
pub mod Offsets
pub mod Line
pub mod Refine
use chatnoir_resiliparse.Prelude.{
  ℕ, ◌+◌, ◌≤◌, ◌≡◌, Bool, true, false, ◌&&◌, ◌||◌, Option, none, some, List, [], ◌∷◌, ◌++◌, ◌==◌,
  if◌then◌else◌, length, take, drop, is_nil,
}
use chatnoir_resiliparse.Bytes.{Bytes, memchr, trim_ascii}
use chatnoir_resiliparse.Header.{HeaderMap, HeaderOffset, CowHeaderValue, CowHeaderTuple}
use chatnoir_resiliparse.Header.Map.{status_line_bytes, items_bytes}
use chatnoir_resiliparse.Header.Parse.{is_continuation, ends_with_cr}
use chatnoir_resiliparse.Header.Parse.Reference.{is_last_line}

pub record Block : Type 0 where
  pub status : Option Bytes
  pub items : List (Bytes × Bytes)

unfoldable pub view : HeaderMap → Block
unfolding status_line_bytes items_bytes
view h = record { status = status_line_bytes h; items = items_bytes h }

-- A continuation line goes to the last value, behind a space.
unfoldable pub continue_item : Bytes → List (Bytes × Bytes) → List (Bytes × Bytes)
continue_item trimmed [] = ([], trimmed) ∷ []
continue_item trimmed ((k, v) ∷ []) = (k, v ++ (b' ' ∷ trimmed)) ∷ []
continue_item trimmed (t ∷ u ∷ ts) = t ∷ continue_item trimmed (u ∷ ts)

unfoldable pub add_line : Bool → Bytes → Block → Block
unfolding continue_item
add_line expect line b =
    if expect
    then record b { status = some (trim_ascii line) }
    else if is_continuation line
    then record b { items = continue_item (trim_ascii line) b.items }
    else elim (memchr b':' line) [
      | none ↦ b
      | some colon ↦ record b {
        items =
            b.items ++ ((trim_ascii (take colon line), trim_ascii (drop (colon + 1) line)) ∷ []);
      }
    ]

-- The lines of some bytes, added one by one up to the end of the block, and the bytes left. `line`
-- is the line begun.
unfoldable pub read_block : Bool → Bytes → Bytes → Bool → Block → Block × Bytes
unfolding add_line
read_block quirks [] line expect b = (if is_nil line then b else add_line expect line b, [])
read_block quirks (c ∷ cs) line expect b =
    let line' = line ++ (c ∷ []) in
    let within = read_block quirks cs line' expect b in
    let next = read_block quirks cs [] false (add_line expect line' b) in
    if c == b'\n' && (quirks || ends_with_cr line)
    then (if is_last_line quirks line' then (b, cs) else next)
    else within

abbrev pub InBlock : Bytes → HeaderOffset → Type 0
InBlock raw o = (o.0 ≤ o.1) × (o.1 ≤ length raw)

abbrev pub ValueInBlock : Bytes → Option CowHeaderValue → Type 0
ValueInBlock raw none = Unit
ValueInBlock raw (some (CowHeaderValue.offsets o)) = InBlock raw o
ValueInBlock raw (some (CowHeaderValue.owned v)) = Unit

abbrev pub TupleInBlock : Bytes → CowHeaderTuple → Type 0
TupleInBlock raw (CowHeaderTuple.offsets k v) = InBlock raw k × InBlock raw v
TupleInBlock raw (CowHeaderTuple.owned k v) = Unit

abbrev pub AllInBlock : Bytes → List CowHeaderTuple → Type 0
AllInBlock raw [] = Unit
AllInBlock raw (t ∷ ts) = TupleInBlock raw t × AllInBlock raw ts

-- Every offset names a range of the raw block, so that no slice is out of bounds.
pub record IsValid (h : HeaderMap) : Type 0 where
  pub status_in_block : ValueInBlock h.raw_header_block h.status_line
  pub headers_in_block : AllInBlock h.raw_header_block h.headers
