-- ===== src/Iter/Filter/Finds.antt =====
-- The filtered iterator returns the first record that passes.
use chatnoir_resiliparse.Prelude.{ℕ, zero, suc, ◌≡◌, refl, Bool, true, false, Option, none, some}
use chatnoir_resiliparse.Io.{Result, ok, err}
use chatnoir_resiliparse.Record.{WarcRecord}
use chatnoir_resiliparse.Iter.{ArchiveIterator}
use chatnoir_resiliparse.Iter.Filter.{filtered_next, on_inner, on_pred}

module _ {S : Type 0}
    (inner_next : ArchiveIterator S → Option (Result (WarcRecord S)) × ArchiveIterator S)
    (pred : WarcRecord S → Bool × WarcRecord S) where
  -- The records between two states of the iterator have all been refused.
  pub data Refused : ArchiveIterator S → ArchiveIterator S → Type 0 where
    nothing : (it : ArchiveIterator S) → Refused it it
    one_more :
        (it it1 it' : ArchiveIterator S) (rec refused : WarcRecord S)
        → inner_next it ≡ (some (ok rec), it1)
        → pred it1.cur ≡ (false, refused)
        → Refused (record it1 { cur = refused }) it'
        → Refused it it'

  -- How the filtered iterator ends, once some records have been refused.
  abbrev pub Ends : ArchiveIterator S → Option (Result (WarcRecord S)) × ArchiveIterator S → Type 0
  Ends it (none, it') = (it1 : ArchiveIterator S) × Refused it it1 × (inner_next it1 ≡ (none, it'))
  Ends it (some (err e), it') = Unit
  Ends it (some (ok rec), it') =
      (it1 : ArchiveIterator S) × (it2 : ArchiveIterator S) × (found : WarcRecord S) × Refused it
        it1
      × (inner_next it1 ≡ (some (ok found), it2))
      × (pred it2.cur ≡ (true, rec))
      × (record it2 { cur = rec } ≡ it')

  Ends-one_more :
      (it it1 : ArchiveIterator S) (rec refused : WarcRecord S)
      (r : Option (Result (WarcRecord S)) × ArchiveIterator S)
      → inner_next it ≡ (some (ok rec), it1)
      → pred it1.cur ≡ (false, refused)
      → Ends (record it1 { cur = refused }) r
      → Ends it r
  Ends-one_more it it1 rec refused (none, it') e p (a, b, c) =
      (a, one_more it it1 a rec refused e p b, c)
  Ends-one_more it it1 rec refused (some (err f), it') e p h = tt
  Ends-one_more it it1 rec refused (some (ok r), it') e p (a, b, c, d, f, g, h) =
      (a, b, c, one_more it it1 a rec refused e p d, f, g, h)

  -- A record that the filtered iterator returns has passed, after records that have all been refused;
  -- where it ends, the iterator inside has ended after records that have all been refused.
  pub filtered_next-Ends :
      (n : ℕ) (it : ArchiveIterator S) → Ends it (filtered_next inner_next pred n it)
  unfolding filtered_next on_inner
  filtered_next-Ends zero it = tt
  filtered_next-Ends (suc n) it = go (inner_next it) refl (filtered_next-Ends n)
    where
      decide :
          (it1 : ArchiveIterator S) (rec : WarcRecord S)
          → inner_next it ≡ (some (ok rec), it1)
          → ((j : ArchiveIterator S) → Ends j (filtered_next inner_next pred n j))
          → (x : Bool × WarcRecord S) → pred it1.cur ≡ x
          → Ends it (on_pred inner_next pred (filtered_next inner_next pred n) it1 x)
      decide it1 rec e loop (false, r) p =
          Ends-one_more it it1 rec r _ e p (loop (record it1 { cur = r }))
      decide it1 rec e loop (true, r) p = (it, it1, rec, nothing it, e, p, refl)

      go :
          (x : Option (Result (WarcRecord S)) × ArchiveIterator S)
          → inner_next it ≡ x
          → ((j : ArchiveIterator S) → Ends j (filtered_next inner_next pred n j))
          → Ends it (on_inner inner_next pred (filtered_next inner_next pred n) x)
      go (none, it') e loop = (it, nothing it, e)
      go (some (err f), it') e loop = tt
      go (some (ok rec), it1) e loop = decide it1 rec e loop (pred it1.cur) refl
