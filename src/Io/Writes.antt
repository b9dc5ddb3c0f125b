-- ===== src/Io/Writes.antt =====
-- Actions on a writer whose output and result are known, with one rule for each way to build one.
use chatnoir_resiliparse.Prelude.{◌≡◌, refl, sym, ap, ◌∙◌, [], ◌++◌, append-nil, append_assoc}
use chatnoir_resiliparse.Bytes.{Bytes}
use chatnoir_resiliparse.Io.{Result, ok, err, Io, continue, ◌>>=◌, pure, Write}
use chatnoir_resiliparse.Io.Laws.{IsWrite}

module _ {W : Type 0} (writer : Write W) (emitted : W → Bytes) (laws : IsWrite writer emitted) where
  -- If `m` succeeds, it has written `out` and returns `value`.
  pub record Writes {A : Type 0} (m : Io W A) (out : Bytes) (value : A) : Type 0 where
    pub when_ok :
        (w w' : W) (a : A) → m w ≡ (ok a, w') → (emitted w' ≡ emitted w ++ out) × (a ≡ value)

  pub Writes-pure : {A : Type 0} (a : A) → Writes (pure a) [] a
  Writes-pure a = record {
    when_ok = λ w w' b h.
        let e : w ≡ w' = cc in
        let e' : a ≡ b = cc in (ap emitted (sym e) ∙ sym (append-nil (emitted w)), sym e');
  }

  pub Writes-all : (b : Bytes) → Writes (writer.write_all b) b tt
  Writes-all b = record { when_ok = λ w w' a h. (laws.write_appends w w' b h, refl) }

  module _ {A B : Type 0} (f : A → Io W B) (o o' : Bytes) (v : A) (v' : B) where
    after_ok :
        (kf : Writes (f v) o' v') (w : W) (r : Result A × W)
        → ((a : A) (u : W) → r ≡ (ok a, u) → (emitted u ≡ emitted w ++ o) × (a ≡ v))
        → (w' : W) (b : B) → continue f r ≡ (ok b, w')
        → (emitted w' ≡ emitted w ++ (o ++ o')) × (b ≡ v')
    after_ok kf w (err e, u) first w' b h = cc
    after_ok kf w (ok a, u) first w' b h =
        let (out, value) = first a u refl in
        let (out', value') = kf.when_ok u w' b (rw (← value) h) in
        (out' ∙ ap (λ x. x ++ o') out ∙ append_assoc (emitted w) o o', value')

    pub Writes-bind :
        {m : Io W A} → Writes m o v → Writes (f v) o' v' → Writes (m >>= f) (o ++ o') v'
    Writes-bind {m} km kf = record {
      when_ok = λ w w' b h. after_ok kf w (m w) (λ a u e. km.when_ok w u a e) w' b h;
    }

  pub Writes-cast :
      {A : Type 0} {m : Io W A} {o o' : Bytes} {v v' : A}
      → Writes m o v
      → o ≡ o'
      → v ≡ v'
      → Writes m o' v'
  Writes-cast {m} k e e' = record {
    when_ok = λ w w' a h.
        let (out, value) = k.when_ok w w' a h in (out ∙ ap (λ x. emitted w ++ x) e, value ∙ e');
  }
