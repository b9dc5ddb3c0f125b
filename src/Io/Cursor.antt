-- ===== src/Io/Cursor.antt =====
-- A reader that delivers its bytes in the given pieces, and `Vec<u8>` as a writer.
use chatnoir_resiliparse.Prelude.{
  ℕ, zero, suc, ◌≤◌, ◌≡◌, refl, sym, ap, List, [], ◌∷◌, ◌++◌, length, drop, drop-length,
  drop-append_left,
}
use chatnoir_resiliparse.Bytes.{Bytes}
use chatnoir_resiliparse.Io.{ok, BufRead, Write}
use chatnoir_resiliparse.Io.Laws.{IsBufRead, NeverFails, IsWrite}

abbrev pub concat : List Bytes → Bytes
concat [] = []
concat (b ∷ bs) = b ++ concat bs

-- The buffer shown first, skipping empty pieces.
unfoldable pub first_piece : List Bytes → Bytes
first_piece [] = []
first_piece ([] ∷ bs) = first_piece bs
first_piece ((c ∷ cs) ∷ bs) = c ∷ cs

unfoldable pub drop_pieces : ℕ → List Bytes → List Bytes
drop_pieces n [] = []
drop_pieces n ([] ∷ bs) = drop_pieces n bs
drop_pieces n ((c ∷ cs) ∷ bs) = drop n (c ∷ cs) ∷ bs

abbrev pub pieces : BufRead (List Bytes)
pieces = record { fill_buf = λ s. (ok (first_piece s), s); consume = drop_pieces }

-- `Vec<u8>` takes every write.
abbrev pub vec : Write Bytes
vec = record { write_all = λ b w. (ok tt, w ++ b) }

pub vec-IsWrite : IsWrite vec (λ w. w)
vec-IsWrite = record { write_appends = λ w w' b h. cc }

pub pieces-NeverFails : NeverFails pieces
pieces-NeverFails s = (first_piece s, s, refl)

shows : (s : List Bytes) → concat s ≡ first_piece s ++ drop (length (first_piece s)) (concat s)
unfolding first_piece
shows [] = refl
shows ([] ∷ bs) = shows bs
shows ((c ∷ cs) ∷ bs) = ap (λ r. (c ∷ cs) ++ r) (sym (drop-length (c ∷ cs) (concat bs)))

ends : (s : List Bytes) → first_piece s ≡ [] → concat s ≡ []
unfolding first_piece
ends [] h = refl
ends ([] ∷ bs) h = ends bs h
ends ((c ∷ cs) ∷ bs) h = cc

drops :
    (s : List Bytes) (n : ℕ)
    → n ≤ length (first_piece s)
    → concat (drop_pieces n s) ≡ drop n (concat s)
unfolding first_piece drop_pieces
drops [] zero h = refl
drops [] (suc n) h = refl
drops ([] ∷ bs) n h = drops bs n h
drops ((c ∷ cs) ∷ bs) n h = sym (drop-append_left n (c ∷ cs) (concat bs) h)

-- A reader of pieces meets the interface, whatever the pieces.
pub pieces-IsBufRead : IsBufRead pieces concat
pieces-IsBufRead = record {
  fill_keeps = λ s s' buf h. let e : s' ≡ s = cc in rw e refl;
  fill_shows = λ s s' buf h. let e : first_piece s ≡ buf = cc in rw (← e) (shows s);
  fill_ends = λ s s' h. ends s cc;
  consume_drops = λ s s' buf n h k.
      let e : first_piece s ≡ buf = cc in let e' : s' ≡ s = cc in rw e' (drops s n (rw e k));
}
