-- ===== src/Record/Boxes/Memory.antt =====
-- Boxes over bytes in memory, which the theorems on records are applied to. What a wrapper gives to
-- read is left out: it is at its end.
use chatnoir_resiliparse.Prelude.{
  ℕ, suc, ◌+◌, ◌-◌, ltb, if◌then◌else◌, ◌≡◌, ◌≢◌, refl, sym, ap, ◌∙◌, false, Option, none, some, [],
  ◌∷◌, ◌++◌, arith, min, length, take, drop, take-append-drop, length-take, drop-drop, drop_all,
  append-nil,
}
use chatnoir_resiliparse.Prelude.Int.{pos, negsuc}
use chatnoir_resiliparse.Bytes.{Bytes}
use chatnoir_resiliparse.Io.{ok, err, invalid_input, Io}
use chatnoir_resiliparse.Io.Laws.{IsBufRead, IsRead, ReadsAlways, NeverFails}
use chatnoir_resiliparse.StreamIo.{SeekFrom, WarcRead}
use chatnoir_resiliparse.StreamIo.Limited.{LimitedBufReader}
use chatnoir_resiliparse.Record.Boxes.{Decoder, Boxes, IsBoxes, IsCursor, IsStill}

pub data Box : Type 0 where
  raw : Bytes → ℕ → Box
  limited_box : Box → ℕ → ℕ → Box
  decoder : Decoder → Box → Box

abbrev pub left : Box → Bytes
left (raw b n) = drop n b
left (limited_box s l p) = []
left (decoder d s) = []

abbrev pub advance : ℕ → Box → Box
advance k (raw b n) = raw b (n + k)
advance k (limited_box s l p) = limited_box s l p
advance k (decoder d s) = decoder d s

abbrev pub told : Box → ℕ
told (raw b n) = n
told (limited_box s l p) = 0
told (decoder d s) = 0

abbrev seek_box : SeekFrom → Io Box ℕ
seek_box (SeekFrom.start p) (raw b n) = (ok p, raw b p)
seek_box (SeekFrom.current (pos k)) (raw b n) = (ok (n + k), raw b (n + k))
seek_box (SeekFrom.current (negsuc k)) (raw b n) =
    if ltb k n then (ok (n - suc k), raw b (n - suc k)) else (err invalid_input, raw b n)
seek_box _ s = (err invalid_input, s)

abbrev shown : ℕ → Box → Bytes
shown len s = take (min len (length (left s))) (left s)

abbrev pub box_read : WarcRead Box
box_read = record {
  buffered = record { fill_buf = λ s. (ok (left s), s); consume = advance };
  read = λ len s. (ok (shown len s), advance (length (shown len s)) s);
  seek = seek_box;
  stream_position = λ s. (ok (told s), s);
  inner_seek = seek_box;
  inner_stream_position = λ s. (ok (told s), s);
  frame_start_position = λ s. (ok none, s);
  is_stream_decoder = λ s. false;
}

abbrev box_undecode : Box → Option Box
box_undecode (raw b n) = none
box_undecode (limited_box s l p) = none
box_undecode (decoder Decoder.lz4 s) = none
box_undecode (decoder d s) = some s

abbrev box_unbox : Box → Option (LimitedBufReader Box)
box_unbox (raw b n) = none
box_unbox (limited_box s l p) = some (record { inner = s; limit = l; pos = p })
box_unbox (decoder d s) = none

abbrev box_bytes : Box → Option Bytes
box_bytes (raw b n) = some b
box_bytes (limited_box s l p) = none
box_bytes (decoder d s) = none

abbrev pub in_memory : Boxes Box
in_memory = record {
  cursor = λ b. raw b 0;
  cursor_bytes = box_bytes;
  boxed = λ r. limited_box r.inner r.limit r.pos;
  unboxed = box_unbox;
  decode = decoder;
  undecode = box_undecode;
}

pub in_memory-IsBoxes : IsBoxes in_memory
in_memory-IsBoxes = record {
  unboxed-boxed = λ r. refl;
  undecode-boxed = λ r. refl;
  undecode-decode = undone;
  unboxed-decode = λ d s. refl;
}
  where
    undone : (d : Decoder) (s : Box) → d ≢ Decoder.lz4 → box_undecode (decoder d s) ≡ some s
    undone Decoder.gzip s h = refl
    undone Decoder.deflate s h = refl
    undone Decoder.brotli s h = refl
    undone Decoder.zstd s h = refl
    undone Decoder.chunked s h = refl
    undone Decoder.lz4 s h = absurd (h refl)

pub in_memory-IsCursor : IsCursor box_read in_memory left
in_memory-IsCursor = record { cursor_tells = λ b. (raw b 0, refl, refl, refl) }

pub box_read-IsStill : IsStill box_read
box_read-IsStill s = refl

left-advance : (k : ℕ) (s : Box) → left (advance k s) ≡ drop k (left s)
left-advance k (raw b n) = sym (drop-drop k n b)
left-advance k (limited_box s l p) = sym (drop_all k [] (omega arith))
left-advance k (decoder d s) = sym (drop_all k [] (omega arith))

pub box_read-ReadsAlways : ReadsAlways box_read.read
box_read-ReadsAlways len s = (shown len s, advance (length (shown len s)) s, refl)

shown-length : (len : ℕ) (s : Box) → length (shown len s) ≡ min len (length (left s))
shown-length len s = let size = length-take (min len (length (left s))) (left s) in omega arith

none_shown : (len : ℕ) (v : Bytes) → length (take (min (suc len) (length v)) v) ≡ 0 → v ≡ []
none_shown len [] h = refl
none_shown len (c ∷ cs) h =
    let size = length-take (min (suc len) (length (c ∷ cs))) (c ∷ cs) in absurd (omega arith)

pub box_read-IsRead : IsRead box_read.read left
box_read-IsRead = record {
  read_takes = λ len s s' b e.
      let i : shown len s ≡ b = cc in
      let j : advance (length (shown len s)) s ≡ s' = cc in
      rw (← i, ← j, left-advance (length (shown len s)) s, shown-length len s)
        (sym (take-append-drop (min len (length (left s))) (left s)));
  read_short = λ len s s' b e.
      let i : shown len s ≡ b = cc in
      let size = ap length (sym i) ∙ shown-length len s in omega arith;
  read_ends =
      λ len s s' e. let i : shown (suc len) s ≡ [] = cc in none_shown len (left s) (ap length i);
}

pub box_read-IsBufRead : IsBufRead box_read.buffered left
box_read-IsBufRead = record {
  fill_keeps = λ s s' buf e. let i : s ≡ s' = cc in ap left (sym i);
  fill_shows = λ s s' buf e.
      let i : left s ≡ buf = cc in
      rw (← i) (
        sym (
          ap (λ v. left s ++ v) (drop_all (length (left s)) (left s) (omega arith))
          ∙ append-nil (left s)));
  fill_ends = λ s s' e. cc;
  consume_drops = λ s s' buf n e h. let j : s ≡ s' = cc in rw (← j) (left-advance n s);
}

pub box_read-NeverFails : NeverFails box_read.buffered
box_read-NeverFails s = (left s, s, refl)
