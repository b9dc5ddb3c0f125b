-- ===== src/StreamIo/Memory.antt =====
-- A stream of fixed bytes, which the theorems on streams are applied to. Its state is the position;
-- it refuses to seek past the end.
use chatnoir_resiliparse.Prelude.{
  ℕ, ◌+◌, ◌<◌, ◌≤◌, ◌≡◌, refl, sym, ap, ◌∙◌, Bool, true, false, none, ◌++◌, arith, if◌then◌else◌,
  leb, length, drop, take, min, length-drop, drop-drop, drop_all, append-nil,
}
use chatnoir_resiliparse.Prelude.Int.{ℤ, pos, negsuc, u64_mod}
use chatnoir_resiliparse.Bytes.{Bytes}
use chatnoir_resiliparse.Io.{Result, ok, err, invalid_input, Io, BufRead}
use chatnoir_resiliparse.Io.Laws.{IsBufRead, NeverFails}
use chatnoir_resiliparse.StreamIo.{SeekFrom, WarcRead}
use chatnoir_resiliparse.StreamIo.Seek.{target, IsPositioned, IsSeek, IsStream}
use chatnoir_resiliparse.StreamIo.Tracking.{BufReadSeek}

module _ (text : Bytes) where
  abbrev pub at : ℕ → ℕ
  at s = min s (length text)

  abbrev pub rest : ℕ → Bytes
  rest s = drop (at s) text

  abbrev pub memory : BufRead ℕ
  memory = record { fill_buf = λ s. (ok (rest s), s); consume = λ n s. at s + n }

  abbrev pub tell : Io ℕ ℕ
  tell s = (ok (at s), s)

  unfoldable pub seek_to : ℤ → Io ℕ ℕ
  seek_to (pos p) s = if leb p (length text) then (ok p, p) else (err invalid_input, s)
  seek_to (negsuc p) s = (err invalid_input, s)

  abbrev pub seek : SeekFrom → Io ℕ ℕ
  seek p s = seek_to (target (at s) (length text) p) s

  abbrev pub memory_seek : BufReadSeek ℕ
  memory_seek = record { buffered = memory; seek = seek; stream_position = tell }

  abbrev pub memory_read : WarcRead ℕ
  memory_read = record {
    buffered = memory;
    read = λ len s. let b = take len (rest s) in (ok b, at s + length b);
    seek = seek;
    stream_position = tell;
    inner_seek = seek;
    inner_stream_position = tell;
    frame_start_position = λ s. (ok none, s);
    is_stream_decoder = λ s. false;
  }

  pub memory-NeverFails : NeverFails memory
  memory-NeverFails s = (rest s, s, refl)

  at_add : (s n : ℕ) → n ≤ length (rest s) → at (at s + n) ≡ at s + n
  at_add s n h = let size = length-drop (at s) text in omega arith

  pub memory-IsBufRead : IsBufRead memory rest
  memory-IsBufRead = record {
    fill_keeps = λ s s' buf e. let i : s ≡ s' = cc in ap rest (sym i);
    fill_shows = λ s s' buf e.
        let i : rest s ≡ buf = cc in
        rw (← i) (
          sym (
            ap (λ v. rest s ++ v) (drop_all (length (rest s)) (rest s) (omega arith))
            ∙ append-nil (rest s)));
    fill_ends = λ s s' e. cc;
    consume_drops = λ s s' buf n e h.
        let i : rest s ≡ buf = cc in
        let j : s ≡ s' = cc in rw (← j, at_add s n (rw i h)) (sym (drop-drop n (at s) text));
  }

  pub memory-IsPositioned : IsPositioned memory tell rest at
  memory-IsPositioned = record {
    tells = λ s. (s, refl, refl, refl);
    fill_stays = λ s s' buf e. let j : s ≡ s' = cc in ap at (sym j);
    consume_moves = λ s s' buf n e h.
        let i : rest s ≡ buf = cc in let j : s ≡ s' = cc in rw (← j) (at_add s n (rw i h));
  }

  seek_to_moves : (z : ℤ) (s s' q : ℕ) → seek_to z s ≡ (ok q, s') → (pos q ≡ z) × (at s' ≡ q)
  unfolding seek_to
  seek_to_moves (negsuc p) s s' q e = cc
  seek_to_moves (pos p) s s' q e = go (leb p (length text)) refl e
    where
      go :
          (b : Bool)
          → leb p (length text) ≡ b
          → ◌≡◌ {A = Result ℕ × ℕ} (if b then (ok p, p) else (err invalid_input, s)) (ok q, s')
          → (pos q ≡ pos p) × (at s' ≡ q)
      go true i g = let k : p ≡ q = cc in let j : p ≡ s' = cc in (ap pos (sym k), ground arith)
      go false i g = cc

  pub memory-IsSeek : IsSeek seek (λ s. text) at
  memory-IsSeek = record {
    seek_moves = λ p s s' q e.
        let (to, here) = seek_to_moves (target (at s) (length text) p) s s' q e in (to, here, refl);
  }

  pub memory-IsStream : length text < u64_mod → IsStream memory (λ s. text) at
  memory-IsStream small = record {
    reads = memory-IsBufRead;
    fits = λ s. small;
    at_fits = λ s. omega arith;
    fill_same = λ s s' buf e. refl;
    consume_same = λ n s. refl;
  }
