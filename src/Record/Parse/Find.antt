-- ===== src/Record/Parse/Find.antt =====
-- The search for the version line of a record.
use chatnoir_resiliparse.Prelude.{
  ℕ, zero, suc, ◌+◌, ◌<◌, ◌≤◌, ◌≡◌, refl, sym, subst, ap, ◌∙◌, ◌⊎◌, inl, inr, Bool, true, false,
  Option, none, some, [], ◌∷◌, ◌++◌, arith, length, take, drop, min, if◌then◌else◌, Bool-cases,
  length-append,
}
use chatnoir_resiliparse.Bytes.{Bytes, is_empty, trim_ascii_end}
use chatnoir_resiliparse.Io.{Result, ok, err, invalid_data, Io}
use chatnoir_resiliparse.Io.Laws.{IsBufRead, NeverFails}
use chatnoir_resiliparse.StreamIo.{WarcRead}
use chatnoir_resiliparse.StreamIo.Limited.{LimitedBufReader, limited, remaining}
use chatnoir_resiliparse.StreamIo.Limited.Laws.{limited_content}
use chatnoir_resiliparse.StreamIo.ReadLine.{first_line}
use chatnoir_resiliparse.StreamIo.ReadLine.Line.{first_line-prefix, first_line_empty}
use chatnoir_resiliparse.StreamIo.ReadLine.Correct.{read_line_reads}
use chatnoir_resiliparse.StreamIo.ReadLine.Limit.{read_line_keeps_limit}
use chatnoir_resiliparse.Record.{WarcRecord}
use chatnoir_resiliparse.Record.Parse.{
  State, is_version, seed, on_version, on_line, on_position, find_version,
}

-- A line that the search passes over: a blank one, or in quirks mode any but a version line.
abbrev pub IsSkipped : Bool → Bytes → Type 0
IsSkipped quirks line =
    (is_empty (trim_ascii_end line) ≡ true)
    ⊎ ((quirks ≡ true) × (is_version (trim_ascii_end line) ≡ false))

-- What a read of at most `max` bytes gives of a text: the bytes up to its first line feed, or `max`.
abbrev pub IsLine : ℕ → Bytes → Bytes → Type 0
IsLine max line rest = first_line max (line ++ rest) ≡ line

-- The second text is the first without some lines that are passed over, each as it is read.
pub data Skips (max : ℕ) (quirks : Bool) : Bytes → Bytes → Type 0 where
  here : (v : Bytes) → Skips max quirks v v
  past :
      (line rest v : Bytes)
      → IsLine max line rest
      → IsSkipped quirks line
      → Skips max quirks rest v
      → Skips max quirks (line ++ rest) v

pub length-Skips :
    (max : ℕ) (quirks : Bool) (v w : Bytes) → Skips max quirks v w → length w ≤ length v
length-Skips max quirks v _ (Skips.here _) = omega arith
length-Skips max quirks _ w (Skips.past line rest _ whole skip s) =
    let shorter = length-Skips max quirks rest w s in omega (arith, length-append line rest)

-- A query of the stream that succeeds and leaves what is to be read.
abbrev pub Answers : {A S : Type 0} → (S → Bytes) → Io S A → Type 0
Answers {A} {S} content ask =
    (s : S) → (a : A) × (s' : S) × (ask s ≡ (ok a, s')) × (content s' ≡ content s)

module _ {S : Type 0} (reader : WarcRead S) (content : S → Bytes)
    (laws : IsBufRead reader.buffered content) (calm : NeverFails reader.buffered)
    (position : Answers content reader.inner_stream_position)
    (frames : Answers content reader.frame_start_position) (fuel : ℕ) (quirks : Bool) where
  -- How the search ends, from the text `v` with `k` bytes read before it: at a version line, of which
  -- the headers are seeded; at the end of the stream; or at a line that is refused.
  abbrev pub Finds :
      ℕ → Bytes → WarcRecord S → ℕ → Result (Option ℕ) × State reader fuel quirks → Type 0
  Finds limit v rec k (ok (some k'), (rec', r')) =
      (line : Bytes) × Skips (min 256 limit) quirks v (line ++ limited_content content r')
      × IsLine (min 256 limit) line (limited_content content r')
      × (is_version (trim_ascii_end line) ≡ true)
      × (rec'.headers ≡ seed line rec.headers)
      × (k' + length (limited_content content r') ≡ k + length v)
  Finds limit v rec k (ok none, (rec', r')) =
      Skips (min 256 limit) quirks v (limited_content content r')
      × ((limited_content content r' ≡ []) ⊎ (limit ≡ 0))
  Finds limit v rec k (err e, (rec', r')) =
      (e ≡ invalid_data)
      × (quirks ≡ false)
      × ((line : Bytes) × Skips (min 256 limit) quirks v (line ++ limited_content content r')
          × IsLine (min 256 limit) line (limited_content content r')
          × (is_empty (trim_ascii_end line) ≡ false)
          × (is_version (trim_ascii_end line) ≡ false))

  -- A line that is passed over goes before whatever is skipped next.
  Finds-past :
      (limit : ℕ) (line v : Bytes) (rec rec' : WarcRecord S) (k : ℕ)
      (x : Result (Option ℕ) × State reader fuel quirks)
      → IsLine (min 256 limit) line v
      → IsSkipped quirks line
      → rec'.headers ≡ rec.headers
      → Finds limit v rec' (k + length line) x
      → Finds limit (line ++ v) rec k x
  Finds-past limit line v rec rec' k (ok (some k'), (rec2, r2)) whole skip h
        (l, s, one, version, seeded, count) =
      let size = length-append line v in
      (
        l,
        Skips.past line v (l ++ limited_content content r2) whole skip s,
        one,
        version,
        seeded ∙ ap (seed l) h,
        omega arith,
      )
  Finds-past limit line v rec rec' k (ok none, (rec2, r2)) whole skip h (s, end) =
      (Skips.past line v (limited_content content r2) whole skip s, end)
  Finds-past limit line v rec rec' k (err e, (rec2, r2)) whole skip h
        (i, q, (l, s, one, solid, other)) =
      (
        i,
        q,
        (l, Skips.past line v (l ++ limited_content content r2) whole skip s, one, solid, other),
      )

  Finds-same :
      (limit : ℕ) (v : Bytes) (rec rec' : WarcRecord S) (k : ℕ)
      (x : Result (Option ℕ) × State reader fuel quirks)
      → rec'.headers ≡ rec.headers
      → Finds limit v rec' k x
      → Finds limit v rec k x
  Finds-same limit v rec rec' k (ok (some k'), (rec2, r2)) h (l, s, one, version, seeded, count) =
      (l, s, one, version, seeded ∙ ap (seed l) h, count)
  Finds-same limit v rec rec' k (ok none, (rec2, r2)) h f = f
  Finds-same limit v rec rec' k (err e, (rec2, r2)) h f = f

  on_version-Finds :
      (limit k : ℕ) (line v : Bytes) (rec : WarcRecord S) (r : LimitedBufReader S)
      → limited_content content r ≡ v
      → IsLine (min 256 limit) line v
      → is_version (trim_ascii_end line) ≡ true
      → Finds limit (line ++ v) rec k (
          on_version reader fuel quirks
            (k + length line)
            (record rec { headers = seed line rec.headers })
            ((limited reader).frame_start_position r))
  unfolding on_version
  on_version-Finds limit k line v rec r c one version =
      let (p, s', e, same) = frames r.inner in
      let r' = record r { inner = s' } in
      let left : limited_content content r' ≡ v = ap (take (remaining r)) same ∙ c in
      let size = length-append line v in
      rw e
        (line, rw left (Skips.here (line ++ v)), rw left one, version, refl, rw left (omega arith))

  module _ (limit n : ℕ) (next : ℕ → Io (State reader fuel quirks) (Option ℕ))
      (ih : (k : ℕ) (rec : WarcRecord S) (r : LimitedBufReader S)
        → r.limit ≡ limit
        → length (limited_content content r) < fuel
        → length (limited_content content r) < n
        → Finds limit (limited_content content r) rec k (next k (rec, r))) where
    on_line-Finds :
        (k : ℕ) (line v : Bytes) (rec : WarcRecord S) (r : LimitedBufReader S)
        → limited_content content r ≡ v
        → r.limit ≡ limit
        → IsLine (min 256 limit) line v
        → length (line ++ v) < fuel
        → length (line ++ v) < suc n
        → (line ≡ [] → (v ≡ []) ⊎ (limit ≡ 0))
        → Finds limit
            (line ++ v)
            rec
            k
            (on_line reader fuel quirks next k rec (ok (length line), (line, r)))
    unfolding on_line
    on_line-Finds k [] v rec r c same one enough rounds end = rw c (Skips.here v, end refl)
    on_line-Finds k (x ∷ xs) v rec r c same one enough rounds end =
        let line = x ∷ xs in
        let size = length-append line v in
        let shorter = ap length c in
        let goes_on = ih (k + length line) rec r same (omega arith) (omega arith) in
        let rest : Finds limit v rec (k + length line) (next (k + length line) (rec, r)) =
          rw (← c) goes_on in
        elim (Bool-cases (is_empty (trim_ascii_end line))) [
          | inl blank ↦ rw blank (
              Finds-past limit line v rec rec k (next (k + length line) (rec, r)) one (inl blank)
                refl rest)
          | inr solid ↦ rw solid (elim (Bool-cases (is_version (trim_ascii_end line))) [
            | inl version ↦ rw version (on_version-Finds limit k line v rec r c one version)
            | inr other ↦ rw other (by_mode solid other quirks refl)
          ])
        ]
      where
        by_mode :
            is_empty (trim_ascii_end (x ∷ xs)) ≡ false
            → is_version (trim_ascii_end (x ∷ xs)) ≡ false
            → (b : Bool) → quirks ≡ b
            → Finds limit
                ((x ∷ xs) ++ v)
                rec
                k
                (if b then next (k + length (x ∷ xs)) (rec, r) else (err invalid_data, (rec, r)))
        by_mode solid other true q =
            let size = length-append (x ∷ xs) v in
            let shorter = ap length c in
            let rest = ih (k + length (x ∷ xs)) rec r same (omega arith) (omega arith) in
            Finds-past limit (x ∷ xs) v rec rec k (next (k + length (x ∷ xs)) (rec, r)) one
              (inr (q, other)) refl (rw (← c) rest)
        by_mode solid other false q =
            (refl, q, (x ∷ xs, rw c (Skips.here ((x ∷ xs) ++ v)), rw c one, solid, other))

  pub find_version-Finds :
      (limit n k : ℕ) (rec : WarcRecord S) (r : LimitedBufReader S)
      → r.limit ≡ limit
      → length (limited_content content r) < fuel
      → length (limited_content content r) < n
      → Finds limit (limited_content content r) rec k (find_version reader fuel quirks n k (rec, r))
  unfolding find_version on_position
  find_version-Finds limit zero k rec r same enough rounds = absurd (omega arith)
  find_version-Finds limit (suc n) k rec r same enough rounds =
      let (p, s', e, kept) = position r.inner in
      let t = record r { inner = s' } in
      let c : limited_content content t ≡ limited_content content r =
        ap (take (remaining r)) kept in
      let size = ap length c in
      let (r', result, left) =
        read_line_reads reader content laws calm fuel 256 [] t (omega arith) in
      let line = first_line (min 256 r.limit) (limited_content content t) in
      let v = drop (length line) (limited_content content t) in
      let whole : line ++ v ≡ limited_content content r =
        first_line-prefix (min 256 r.limit) (limited_content content t) ∙ c in
      let total = ap length whole in
      let one : IsLine (min 256 limit) line v =
        ap (first_line (min 256 limit))
          (first_line-prefix (min 256 r.limit) (limited_content content t))
        ∙ ap (λ m. first_line (min 256 m) (limited_content content t)) (sym same) in
      let kept_limit : r'.limit ≡ limit =
        ap (λ x. x.1.1.limit) (sym result) ∙ read_line_keeps_limit reader fuel 256 [] t ∙ same in
      let rec' = record rec { stream_pos = p } in
      let next = find_version reader fuel quirks n in
      let step = on_line reader fuel quirks next k rec' (ok (length line), (line, r')) in
      let found : find_version reader fuel quirks (suc n) k (rec, r) ≡ step = rw (e, result) refl in
      let found_line =
        on_line-Finds limit n next (find_version-Finds limit n) k line v rec' r' left kept_limit one
          (omega arith) (omega arith) (λ none_read. ends t same none_read) in
      rw found (
        Finds-same limit (limited_content content r) rec rec' k step refl
          (subst (λ w. Finds limit w rec' k step) whole found_line))
    where
      ends :
          (t : LimitedBufReader S)
          → t.limit ≡ limit
          → first_line (min 256 t.limit) (limited_content content t) ≡ []
          → (drop
                (length (first_line (min 256 t.limit) (limited_content content t)))
                (limited_content content t)
              ≡ [])
            ⊎ (limit ≡ 0)
      ends t l e = elim (first_line_empty (min 256 t.limit) (limited_content content t) e) [
        | inl nothing ↦ inl (ap (λ w. drop (length w) (limited_content content t)) e ∙ nothing)
        | inr closed ↦ inr (omega arith)
      ]
