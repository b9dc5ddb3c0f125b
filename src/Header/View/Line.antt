-- ===== src/Header/View/Line.antt =====
-- `split_and_push_parsed_line` adds the line to the view, and keeps the offsets in the block.
use mathlib.Core.List.{map, map-append}
use chatnoir_resiliparse.Prelude.{
  ℕ, ◌+◌, ◌≤◌, ◌≡◌, refl, sym, ap, ◌∙◌, Bool, true, false, some, List, [], ◌∷◌, ◌++◌, arith, length,
  take, drop, length-take, length-drop, take-append-drop, drop-drop, append-nil, Bool-cases,
  Option-cases, inl, inr,
}
use chatnoir_resiliparse.Bytes.{Bytes, memchr, trim_ascii}
use chatnoir_resiliparse.Header.{
  HeaderMap, CowHeaderTuple, offset_slice, trim_ascii_offsets, as_slice, tuple_key, tuple_value,
}
use chatnoir_resiliparse.Header.Parse.{
  shift, continue_last, is_continuation, header_at, split_and_push_parsed_line,
}
use chatnoir_resiliparse.Header.View.{
  InBlock, TupleInBlock, AllInBlock, IsValid, view, continue_item, add_line,
}
use chatnoir_resiliparse.Header.View.Offsets.{item, slice-shift_trim, shift_trim-InBlock}

memchr-lt : (b : ℕ) (v : Bytes) (i : ℕ) → memchr b v ≡ some i → i + 1 ≤ length v
unfolding memchr
memchr-lt b [] i h = cc
memchr-lt b (c ∷ cs) i h = elim (Option-cases (memchr b cs)) [
  | inl q ↦ ground arith
  | inr (j, q) ↦ ground (arith, memchr-lt b cs j q)
]

continue_last-item :
    (raw trimmed : Bytes) (ts : List CowHeaderTuple)
    → map (item raw) (continue_last raw trimmed ts) ≡ continue_item trimmed (map (item raw) ts)
unfolding continue_last continue_item tuple_key tuple_value
continue_last-item raw trimmed [] = refl
continue_last-item raw trimmed (CowHeaderTuple.offsets k v ∷ []) = refl
continue_last-item raw trimmed (CowHeaderTuple.owned k v ∷ []) = refl
continue_last-item raw trimmed (CowHeaderTuple.offsets k v ∷ u ∷ ts) =
    ap (λ r. item raw (CowHeaderTuple.offsets k v) ∷ r) (continue_last-item raw trimmed (u ∷ ts))
continue_last-item raw trimmed (CowHeaderTuple.owned k v ∷ u ∷ ts) =
    ap (λ r. item raw (CowHeaderTuple.owned k v) ∷ r) (continue_last-item raw trimmed (u ∷ ts))

continue_last-InBlock :
    (raw trimmed : Bytes) (ts : List CowHeaderTuple)
    → AllInBlock raw ts
    → AllInBlock raw (continue_last raw trimmed ts)
unfolding continue_last
continue_last-InBlock raw trimmed [] h = (tt, tt)
continue_last-InBlock raw trimmed (CowHeaderTuple.offsets k v ∷ []) h = (tt, tt)
continue_last-InBlock raw trimmed (CowHeaderTuple.owned k v ∷ []) h = (tt, tt)
continue_last-InBlock raw trimmed (CowHeaderTuple.offsets k v ∷ u ∷ ts) (a, h) =
    (a, continue_last-InBlock raw trimmed (u ∷ ts) h)
continue_last-InBlock raw trimmed (CowHeaderTuple.owned k v ∷ u ∷ ts) (a, h) =
    (tt, continue_last-InBlock raw trimmed (u ∷ ts) h)

AllInBlock-concat :
    (raw : Bytes) (ts : List CowHeaderTuple) (t : CowHeaderTuple)
    → AllInBlock raw ts
    → TupleInBlock raw t
    → AllInBlock raw (ts ++ (t ∷ []))
AllInBlock-concat raw [] t h a = (a, tt)
AllInBlock-concat raw (x ∷ xs) t (hx, h) a = (hx, AllInBlock-concat raw xs t h a)

prefix_length : (raw : Bytes) (n : ℕ) → n ≤ length raw → n ≡ length (take n raw)
prefix_length raw n fits = omega (arith, length-take n raw)

whole_splits : (raw : Bytes) (n : ℕ) → raw ≡ take n raw ++ (drop n raw ++ [])
whole_splits raw n = rw append-nil (sym (take-append-drop n raw))

part_splits :
    (raw : Bytes) (n i : ℕ) → raw ≡ take n raw ++ (take i (drop n raw) ++ drop i (drop n raw))
part_splits raw n i = rw (take-append-drop i (drop n raw)) (sym (take-append-drop n raw))

module _ (raw : Bytes) (n : ℕ) (fits : n ≤ length raw) where
  status_slice :
      offset_slice raw (shift n (trim_ascii_offsets (drop n raw))) ≡ trim_ascii (drop n raw)
  status_slice =
      slice-shift_trim raw (take n raw) (drop n raw) [] n (whole_splits raw n)
        (prefix_length raw n fits)

  status_InBlock : InBlock raw (shift n (trim_ascii_offsets (drop n raw)))
  status_InBlock =
      shift_trim-InBlock raw (take n raw) (drop n raw) [] n (whole_splits raw n)
        (prefix_length raw n fits)

  module _ (i : ℕ) (colon : i + 1 ≤ length (drop n raw)) where
    value_fits : n + i + 1 ≤ length raw
    value_fits = omega (arith, length-drop n raw)

    value_line : drop (n + i + 1) raw ≡ drop (i + 1) (drop n raw)
    value_line =
        let e : n + (i + 1) ≡ n + i + 1 = omega arith in
        ap (λ k. drop k raw) (sym e) ∙ sym (drop-drop (i + 1) n raw)

    value_splits : raw ≡ take (n + i + 1) raw ++ (drop (i + 1) (drop n raw) ++ [])
    value_splits =
        whole_splits raw (n + i + 1) ∙ ap (λ x. take (n + i + 1) raw ++ (x ++ [])) value_line

    header_at-item :
        item raw (header_at n (drop n raw) i)
        ≡ (trim_ascii (take i (drop n raw)), trim_ascii (drop (i + 1) (drop n raw)))
    unfolding tuple_key tuple_value
    header_at-item = λ j. (
      slice-shift_trim raw (take n raw) (take i (drop n raw)) (drop i (drop n raw)) n
          (part_splits raw n i) (prefix_length raw n fits) j,
      slice-shift_trim raw (take (n + i + 1) raw) (drop (i + 1) (drop n raw)) [] (n + i + 1)
          value_splits (prefix_length raw (n + i + 1) value_fits) j,
    )

    header_at-InBlock : TupleInBlock raw (header_at n (drop n raw) i)
    header_at-InBlock = (
      shift_trim-InBlock raw (take n raw) (take i (drop n raw)) (drop i (drop n raw)) n
          (part_splits raw n i) (prefix_length raw n fits),
      shift_trim-InBlock raw (take (n + i + 1) raw) (drop (i + 1) (drop n raw)) [] (n + i + 1)
          value_splits (prefix_length raw (n + i + 1) value_fits),
    )

module _ (n : ℕ) (h : HeaderMap) (fits : n ≤ length h.raw_header_block) where
  -- Splitting a line off the block adds that line to the view.
  pub view-split :
      (expect : Bool)
      → view (split_and_push_parsed_line n h expect).0
        ≡ add_line expect (drop n h.raw_header_block) (view h)
  unfolding split_and_push_parsed_line view add_line as_slice
  view-split true = λ i. record {
    status = some (status_slice h.raw_header_block n fits i);
    items = (view h).items;
  }
  view-split false = elim (Bool-cases (is_continuation (drop n h.raw_header_block))) [
    | inl c ↦ rw c λ i. record {
      status = (view h).status;
      items =
          continue_last-item h.raw_header_block (trim_ascii (drop n h.raw_header_block)) h.headers
            i;
    }
    | inr c ↦ rw c (elim (Option-cases (memchr b':' (drop n h.raw_header_block))) [
      | inl q ↦ rw q
      | inr (colon, q) ↦ rw q λ i. record {
        status = (view h).status;
        items =
            (map-append (item h.raw_header_block) h.headers
                  (header_at n (drop n h.raw_header_block) colon ∷ [])
                ∙ ap (λ t. (view h).items ++ (t ∷ []))
                    (header_at-item h.raw_header_block n fits colon
                      (memchr-lt b':' (drop n h.raw_header_block) colon q)))
              i;
      }
    ])
  ]

  pub split-IsValid :
      (expect : Bool) → IsValid h → IsValid (split_and_push_parsed_line n h expect).0
  unfolding split_and_push_parsed_line
  split-IsValid true v = record {
    status_in_block = status_InBlock h.raw_header_block n fits;
    headers_in_block = v.headers_in_block;
  }
  split-IsValid false v = elim (Bool-cases (is_continuation (drop n h.raw_header_block))) [
    | inl c ↦ rw c (record {
      status_in_block = v.status_in_block;
      headers_in_block =
          continue_last-InBlock h.raw_header_block (trim_ascii (drop n h.raw_header_block))
            h.headers v.headers_in_block;
    })
    | inr c ↦ rw c (elim (Option-cases (memchr b':' (drop n h.raw_header_block))) [
      | inl q ↦ rw q v
      | inr (colon, q) ↦ rw q (record {
        status_in_block = v.status_in_block;
        headers_in_block =
            AllInBlock-concat h.raw_header_block h.headers
              (header_at n (drop n h.raw_header_block) colon) v.headers_in_block
              (header_at-InBlock h.raw_header_block n fits colon
                (memchr-lt b':' (drop n h.raw_header_block) colon q));
      })
    ])
  ]
