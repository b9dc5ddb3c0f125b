-- ===== src/Io/ReadLoop.antt =====
-- The loop `loop { let n = reader.read(&mut buf)?; if n == 0 { break; } … }`, which the record code
-- runs over a payload, and `Read::read_to_end`.
use chatnoir_resiliparse.Prelude.{
  ℕ, zero, suc, ◌<◌, ◌≡◌, refl, sym, ap, ◌∙◌, [], ◌∷◌, ◌++◌, arith, length, length-append,
  append-nil, append_assoc, subst,
}
use chatnoir_resiliparse.Bytes.{Bytes}
use chatnoir_resiliparse.Io.{Result, ok, err, other, Io}
use chatnoir_resiliparse.Io.Laws.{IsRead, ReadsAlways}

-- The body is an action on a state `T` of its own; `len` is the size of the buffer.
module _ {S T : Type 0} (read : ℕ → Io S Bytes) (len : ℕ) (body : Bytes → Io T (Unit {0})) where
  abbrev pub and_then :
      Io (S × T) (Unit {0}) → S → Result (Unit {0}) × T → Result (Unit {0}) × (S × T)
  and_then next s (ok u, t) = next (s, t)
  and_then next s (err e, t) = (err e, (s, t))

  unfoldable pub on_read :
      Io (S × T) (Unit {0}) → T → Result Bytes × S → Result (Unit {0}) × (S × T)
  on_read next t (err e, s) = (err e, (s, t))
  on_read next t (ok [], s) = (ok tt, (s, t))
  on_read next t (ok (c ∷ cs), s) = and_then next s (body (c ∷ cs) t)

  unfoldable pub read_each : ℕ → Io (S × T) (Unit {0})
  unfolding on_read
  read_each zero st = (err other, st)
  read_each (suc fuel) (s, t) = on_read (read_each fuel) t (read len s)

-- A body that appends to a vector.
abbrev pub extend : Bytes → Io Bytes (Unit {0})
extend b v = (ok tt, v ++ b)

-- `read_to_end`, with buffers of `len` bytes.
unfoldable pub read_to_end : {S : Type 0} → (ℕ → Io S Bytes) → ℕ → ℕ → Io (S × Bytes) (Unit {0})
unfolding read_each
read_to_end read len fuel = read_each read len extend fuel

module _ {S T : Type 0} (read : ℕ → Io S Bytes) (len : ℕ) (body : Bytes → Io T (Unit {0}))
    (content : S → Bytes) (laws : IsRead read content) (P : Bytes → T → Type 0)
    (keep : (d b : Bytes) (t t' : T) → P d t → body b t ≡ (ok tt, t') → P (d ++ b) t') where
  -- Everything has been read and handed to the body.
  abbrev pub Drained : Bytes → S × T → Type 0
  Drained d (s, t) = P d t × (content s ≡ [])

  -- Where the loop succeeds, its invariant holds of all that there was to read.
  abbrev pub WhenOk : Bytes → Result (Unit {0}) × (S × T) → Type 0
  WhenOk d (ok u, st) = Drained d st
  WhenOk d (err e, st) = Unit

  -- The rest of the loop, from what the body has left.
  after_body :
      (next : Io (S × T) (Unit {0})) (d b rest : Bytes) (s : S) (r : Result (Unit {0}) × T)
      → ((t : T) → P (d ++ b) t → WhenOk ((d ++ b) ++ rest) (next (s, t)))
      → ((t : T) → r ≡ (ok tt, t) → P (d ++ b) t)
      → WhenOk (d ++ (b ++ rest)) (and_then read (suc len) body next s r)
  after_body next d b rest s (err e, t) loop kept = tt
  after_body next d b rest s (ok u, t) loop kept =
      subst (λ x. WhenOk x (next (s, t))) (append_assoc d b rest) (loop t (kept t refl))

  pub read_each-WhenOk :
      (fuel : ℕ) (d : Bytes) (s : S) (t : T)
      → P d t
      → WhenOk (d ++ content s) (read_each read (suc len) body fuel (s, t))
  unfolding read_each on_read
  read_each-WhenOk zero d s t p = tt
  read_each-WhenOk (suc fuel) d s t p =
      go (read (suc len) s) refl (λ b s' t' q. read_each-WhenOk fuel (d ++ b) s' t' q)
    where
      go :
          (r : Result Bytes × S)
          → read (suc len) s ≡ r
          → ((b : Bytes) (s' : S) (t' : T)
              → P (d ++ b) t'
              → WhenOk ((d ++ b) ++ content s') (read_each read (suc len) body fuel (s', t')))
          → WhenOk
              (d ++ content s)
              (on_read read (suc len) body (read_each read (suc len) body fuel) t r)
      go (err e, s') f loop = tt
      go (ok [], s') f loop = (
        subst (λ x. P x t) (sym (ap (λ x. d ++ x) (laws.read_ends len s s' f) ∙ append-nil d)) p,
        sym (laws.read_takes (suc len) s s' [] f) ∙ laws.read_ends len s s' f,
      )
      go (ok (c ∷ cs), s') f loop =
          subst
            (λ x. WhenOk (d ++ x) (
              and_then read (suc len) body (read_each read (suc len) body fuel) s'
                (body (c ∷ cs) t)))
            (sym (laws.read_takes (suc len) s s' (c ∷ cs) f))
            (after_body (read_each read (suc len) body fuel) d (c ∷ cs) (content s') s'
              (body (c ∷ cs) t) (loop (c ∷ cs) s') (λ t' e. keep d (c ∷ cs) t t' p e))

-- A body that always succeeds, on a reader that always does: fuel for each byte and one pass more.
module _ {S T : Type 0} (read : ℕ → Io S Bytes) (len : ℕ) (body : Bytes → Io T (Unit {0}))
    (content : S → Bytes) (laws : IsRead read content) (always : ReadsAlways read)
    (total : (b : Bytes) (t : T) → (t' : T) × (body b t ≡ (ok tt, t'))) where
  abbrev pub Succeeds : Result (Unit {0}) × (S × T) → Type 0
  Succeeds r = (st : S × T) × (r ≡ (ok tt, st))

  pub read_each-Succeeds :
      (fuel : ℕ) (s : S) (t : T)
      → length (content s) < fuel
      → Succeeds (read_each read (suc len) body fuel (s, t))
  unfolding read_each on_read
  read_each-Succeeds zero s t h = absurd (omega arith)
  read_each-Succeeds (suc fuel) s t h =
      let (b, s', f) = always (suc len) s in
      subst (λ r. Succeeds (on_read read (suc len) body (read_each read (suc len) body fuel) t r))
        (sym f) (go b s' f (λ t'. read_each-Succeeds fuel s' t'))
    where
      go :
          (b : Bytes) (s' : S)
          → read (suc len) s ≡ (ok b, s')
          → ((t' : T)
              → length (content s') < fuel
              → Succeeds (read_each read (suc len) body fuel (s', t')))
          → Succeeds (on_read read (suc len) body (read_each read (suc len) body fuel) t (ok b, s'))
      go [] s' f loop = ((s', t), refl)
      go (c ∷ cs) s' f loop =
          let (t', e) = total (c ∷ cs) t in
          let size =
            ap length (laws.read_takes (suc len) s s' (c ∷ cs) f)
            ∙ length-append (c ∷ cs) (content s') in
          subst
            (λ r. Succeeds (and_then read (suc len) body (read_each read (suc len) body fuel) s' r))
            (sym e) (loop t' (omega arith))

-- Reading to the end appends all that there was to read.
module _ {S : Type 0} (read : ℕ → Io S Bytes) (len : ℕ) (content : S → Bytes)
    (laws : IsRead read content) (always : ReadsAlways read) where
  pub read_to_end_lem :
      (fuel : ℕ) (s : S) (v : Bytes)
      → length (content s) < fuel
      → (s' : S) × (read_to_end read (suc len) fuel (s, v) ≡ (ok tt, (s', v ++ content s)))
        × (content s' ≡ [])
  unfolding read_to_end
  read_to_end_lem fuel s v h =
      let ((s', v'), e) =
        read_each-Succeeds read len extend content laws always (λ b t. (t ++ b, refl)) fuel s v h in
      let held =
        read_each-WhenOk read len extend content laws (λ d t. t ≡ v ++ d)
          (λ d b t t' p q. let i : t' ≡ t ++ b = cc in i ∙ ap (λ x. x ++ b) p ∙ append_assoc v d b)
          fuel [] s v (sym (append-nil v)) in
      let (all, ends) =
        subst
          (λ r.
            WhenOk read len extend content laws (λ d t. t ≡ v ++ d)
              (λ d b t t' p q.
                let i : t' ≡ t ++ b = cc in i ∙ ap (λ x. x ++ b) p ∙ append_assoc v d b)
              ([] ++ content s) r)
          e held in
      (s', e ∙ ap (λ x. (ok tt, (s', x))) all, ends)
