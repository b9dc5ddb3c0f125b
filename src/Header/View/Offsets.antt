-- ===== src/Header/View/Offsets.antt =====
-- What the offsets that the parser stores stand for, and that they stay in the block.
use mathlib.Core.List.{map}
use mathlib.Core.Option as O
use chatnoir_resiliparse.Prelude.{
  ℕ, ◌+◌, ◌≡◌, refl, ap, ◌∙◌, Option, none, some, List, [], ◌∷◌, ◌++◌, arith, length, length-append,
}
use chatnoir_resiliparse.Bytes.{Bytes, slice, trim_ascii, trim_ascii_end}
use chatnoir_resiliparse.Bytes.Trim.{
  slice-append, slice-shift, take-trim_ascii_end, drop-trim_ascii_start, trim_ascii_comm,
  length-trim_ascii_end-le,
}
use chatnoir_resiliparse.Header.{
  HeaderMap, HeaderOffset, CowHeaderValue, CowHeaderTuple, offset_slice, trim_ascii_offsets,
  as_slice, tuple_key, tuple_value,
}
use chatnoir_resiliparse.Header.Parse.{shift}
use chatnoir_resiliparse.Header.View.{
  InBlock, ValueInBlock, TupleInBlock, AllInBlock, IsValid, view,
}

pub trim_offsets_InBlock : (v : Bytes) → InBlock v (trim_ascii_offsets v)
unfolding trim_ascii_offsets
trim_offsets_InBlock v =
    let e = trim_ascii_end v in
    let kept = take-trim_ascii_end v in rw kept (omega arith, length-trim_ascii_end-le v)

-- `_trim_ascii_offsets` names the trimmed part of its argument.
pub slice-trim_offsets : (v : Bytes) → offset_slice v (trim_ascii_offsets v) ≡ trim_ascii v
unfolding trim_ascii_offsets slice
slice-trim_offsets v =
    rw (take-trim_ascii_end v) (drop-trim_ascii_start (trim_ascii_end v) ∙ trim_ascii_comm v)

module _ (raw before part after : Bytes) (n : ℕ) (splits : raw ≡ before ++ (part ++ after))
    (at : n ≡ length before) where
  -- Offsets of a part, moved to where the part stands in the block.
  pub slice-shift_trim : offset_slice raw (shift n (trim_ascii_offsets part)) ≡ trim_ascii part
  slice-shift_trim =
      let o = trim_ascii_offsets part in
      rw (splits, at)
        (slice-shift before (part ++ after) o.0 o.1
          ∙ slice-append part after o.0 o.1 (trim_offsets_InBlock part).1
          ∙ slice-trim_offsets part)

  pub shift_trim-InBlock : InBlock raw (shift n (trim_ascii_offsets part))
  shift_trim-InBlock =
      let (lo, hi) = trim_offsets_InBlock part in
      let size =
        ap length splits
        ∙ length-append before (part ++ after)
        ∙ ap (λ k. length before + k) (length-append part after) in
      (omega arith, omega arith)

abbrev pub grow : Bytes → HeaderMap → HeaderMap
grow b h = record h { raw_header_block = h.raw_header_block ++ b }

InBlock-append : (raw b : Bytes) (o : HeaderOffset) → InBlock raw o → InBlock (raw ++ b) o
InBlock-append raw b o (lo, hi) = (lo, omega (arith, length-append raw b))

AllInBlock-append :
    (raw b : Bytes) (ts : List CowHeaderTuple) → AllInBlock raw ts → AllInBlock (raw ++ b) ts
AllInBlock-append raw b [] h = tt
AllInBlock-append raw b (CowHeaderTuple.offsets k v ∷ ts) ((hk, hv), h) =
    ((InBlock-append raw b k hk, InBlock-append raw b v hv), AllInBlock-append raw b ts h)
AllInBlock-append raw b (CowHeaderTuple.owned k v ∷ ts) (_, h) = (tt, AllInBlock-append raw b ts h)

ValueInBlock-append :
    (raw b : Bytes) (s : Option CowHeaderValue) → ValueInBlock raw s → ValueInBlock (raw ++ b) s
ValueInBlock-append raw b none h = tt
ValueInBlock-append raw b (some (CowHeaderValue.offsets o)) h = InBlock-append raw b o h
ValueInBlock-append raw b (some (CowHeaderValue.owned v)) h = tt

pub grow-IsValid : (h : HeaderMap) (b : Bytes) → IsValid h → IsValid (grow b h)
grow-IsValid h b v = record {
  status_in_block = ValueInBlock-append h.raw_header_block b h.status_line v.status_in_block;
  headers_in_block = AllInBlock-append h.raw_header_block b h.headers v.headers_in_block;
}

abbrev pub item : Bytes → CowHeaderTuple → Bytes × Bytes
item raw t = (tuple_key raw t, tuple_value raw t)

item-append :
    (raw b : Bytes) (t : CowHeaderTuple) → TupleInBlock raw t → item (raw ++ b) t ≡ item raw t
unfolding tuple_key tuple_value
item-append raw b (CowHeaderTuple.offsets k v) (hk, hv) =
    λ i. (slice-append raw b k.0 k.1 hk.1 i, slice-append raw b v.0 v.1 hv.1 i)
item-append raw b (CowHeaderTuple.owned k v) h = refl

items-append :
    (raw b : Bytes) (ts : List CowHeaderTuple)
    → AllInBlock raw ts
    → map (item (raw ++ b)) ts ≡ map (item raw) ts
items-append raw b [] h = refl
items-append raw b (t ∷ ts) (ht, h) = λ i. item-append raw b t ht i ∷ items-append raw b ts h i

status-append :
    (raw b : Bytes) (s : Option CowHeaderValue)
    → ValueInBlock raw s
    → O.map (as_slice (raw ++ b)) s ≡ O.map (as_slice raw) s
unfolding as_slice
status-append raw b none h = refl
status-append raw b (some (CowHeaderValue.offsets o)) h = ap some (slice-append raw b o.0 o.1 h.1)
status-append raw b (some (CowHeaderValue.owned v)) h = refl

-- More bytes in the block change nothing that can be seen.
pub view-grow : (h : HeaderMap) (b : Bytes) → IsValid h → view (grow b h) ≡ view h
unfolding view
view-grow h b v = λ i. record {
  status = status-append h.raw_header_block b h.status_line v.status_in_block i;
  items = items-append h.raw_header_block b h.headers v.headers_in_block i;
}
