-- ===== src/StreamIo/Limited/Read.antt =====
-- `Read::read` of a limited reader takes bytes off the part of the stream before the limit.
use chatnoir_resiliparse.Prelude.{
  ℕ, zero, suc, ◌+◌, ◌-◌, ◌≤◌, ◌≡◌, refl, sym, ap, ◌∙◌, [], ◌++◌, arith, min, length, take,
  take-add_length, subst,
}
use chatnoir_resiliparse.Prelude.Int.{add_u64, sub-add_u64}
use chatnoir_resiliparse.Bytes.{Bytes}
use chatnoir_resiliparse.Io.{Result, ok, err}
use chatnoir_resiliparse.Io.Laws.{IsRead, ReadsAlways}
use chatnoir_resiliparse.StreamIo.{WarcRead}
use chatnoir_resiliparse.StreamIo.Limited.{LimitedBufReader, remaining, read, count_read}
use chatnoir_resiliparse.StreamIo.Limited.Laws.{limited_content}

module _ {S : Type 0} (reader : WarcRead S) (content : S → Bytes)
    (laws : IsRead reader.read content) where
  -- What the inner reader has been asked, and what came of it.
  record Fetch (len : ℕ) (r r' : LimitedBufReader S) (b : Bytes) : Type 0 where
    inner_state : S
    got : reader.read (min len (remaining r)) r.inner ≡ (ok b, inner_state)
    counted : record r { inner = inner_state; pos = add_u64 r.pos (length b) } ≡ r'

  read-Fetch :
      (len : ℕ) (r r' : LimitedBufReader S) (b : Bytes)
      → read reader len r ≡ (ok b, r')
      → Fetch len r r' b
  unfolding read
  read-Fetch len r r' b h = go (reader.read (min len (remaining r)) r.inner) refl h
    where
      go :
          (x : Result Bytes × S)
          → reader.read (min len (remaining r)) r.inner ≡ x
          → count_read reader r x ≡ (ok b, r')
          → Fetch len r r' b
      go (err e, s) f g = cc
      go (ok c, s) f g =
          let i : c ≡ b = cc in
          record {
            inner_state = s;
            got = subst (λ v. reader.read (min len (remaining r)) r.inner ≡ (ok v, s)) i f;
            counted = cc;
          }

  taken_fits :
      (len : ℕ) (r r' : LimitedBufReader S) (b : Bytes)
      → Fetch len r r' b
      → length b ≤ min len (remaining r)
  taken_fits len r r' b t = laws.read_short (min len (remaining r)) r.inner t.inner_state b t.got

  taken_splits :
      (len : ℕ) (r r' : LimitedBufReader S) (b : Bytes)
      → Fetch len r r' b
      → limited_content content r ≡ b ++ limited_content content r'
  taken_splits len r r' b t =
      let fits = taken_fits len r r' b t in
      let n : remaining r ≡ length b + (remaining r - length b) = omega arith in
      ap (take (remaining r))
        (laws.read_takes (min len (remaining r)) r.inner t.inner_state b t.got)
      ∙ ap (λ k. take k (b ++ content t.inner_state)) n
      ∙ take-add_length (remaining r - length b) b (content t.inner_state)
      ∙ ap (λ k. b ++ take k (content t.inner_state))
          (sym (sub-add_u64 r.limit r.pos (length b) (omega arith)))
      ∙ ap (λ x. b ++ limited_content content x) t.counted

  taken_ends :
      (len : ℕ) (r r' : LimitedBufReader S)
      → Fetch (suc len) r r' []
      → limited_content content r ≡ []
  taken_ends len r r' t = go (remaining r) t.got
    where
      go :
          (m : ℕ)
          → reader.read (min (suc len) m) r.inner ≡ (ok [], t.inner_state)
          → take m (content r.inner) ≡ []
      go zero f = refl
      go (suc m) f =
          let n : min (suc len) (suc m) ≡ suc (min len m) = omega arith in
          ap (take (suc m)) (
            laws.read_ends (min len m) r.inner t.inner_state
              (subst (λ k. reader.read k r.inner ≡ (ok [], t.inner_state)) n f))

  pub limited-IsRead : IsRead (read reader) (limited_content content)
  limited-IsRead = record {
    read_takes = λ len r r' b h. taken_splits len r r' b (read-Fetch len r r' b h);
    read_short =
        λ len r r' b h. let k = taken_fits len r r' b (read-Fetch len r r' b h) in omega arith;
    read_ends = λ len r r' h. taken_ends len r r' (read-Fetch (suc len) r r' [] h);
  }

pub limited-ReadsAlways :
    {S : Type 0} (reader : WarcRead S) → ReadsAlways reader.read → ReadsAlways (read reader)
unfolding read
limited-ReadsAlways reader always len r =
    let (b, s, e) = always (min len (remaining r)) r.inner in
    (b, record r { inner = s; pos = add_u64 r.pos (length b) }, ap (count_read reader r) e)
