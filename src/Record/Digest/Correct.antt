-- ===== src/Record/Digest/Correct.antt =====
-- A verified digest is that of the payload.
use chatnoir_resiliparse.Prelude.{
  ℕ, suc, ◌<◌, ◌≡◌, refl, sym, ap, ◌∙◌, subst, Bool, true, false, not, Option, none, some, [], ◌++◌,
  if◌then◌else◌, length,
}
use chatnoir_resiliparse.Prelude.Int.{u64_mod}
use chatnoir_resiliparse.Bytes.{Bytes, bytes_eq}
use chatnoir_resiliparse.Io.{Result, ok, err}
use chatnoir_resiliparse.Io.Laws.{IsRead, ReadsAlways}
use chatnoir_resiliparse.Io.ReadLoop.{
  read_each, extend, read_each-WhenOk, WhenOk, read_to_end_lem, read_to_end,
}
use chatnoir_resiliparse.Header.Text.{Codec}
use chatnoir_resiliparse.StreamIo.{SeekFrom, WarcRead}
use chatnoir_resiliparse.StreamIo.Limited.{LimitedBufReader}
use chatnoir_resiliparse.StreamIo.Limited as L
use chatnoir_resiliparse.StreamIo.Limited.Laws.{limited_content}
use chatnoir_resiliparse.StreamIo.Limited.Read.{limited-IsRead, limited-ReadsAlways}
use chatnoir_resiliparse.Record.{WarcRecord, ReaderType, inner_reader}
use chatnoir_resiliparse.Record.Boxes.{Boxes, IsCursor}
use chatnoir_resiliparse.Record.Payload.{is_frozen, freeze}
use chatnoir_resiliparse.Record.Payload.Freeze.{freeze_lem}
use chatnoir_resiliparse.Record.Digest.{
  Hashing, Verdict, get_digest, check_digest, hash_payload, hash_with, on_digest_read, restore,
  on_restored, after_digest_freeze,
}

module _ {S : Type 0} (reader : WarcRead S) (boxes : Boxes S) (codec : Codec) (hashing : Hashing)
    (content : S → Bytes) (laws : IsRead reader.read content) (len fuel : ℕ) where
  -- A verdict, if there is one, compares the hash of the payload.
  abbrev pub Judges : Bytes → Bytes → Bytes → Verdict → Type 0
  Judges algorithm expected payload (Verdict.undecided e) = Unit
  Judges algorithm expected payload (Verdict.verdict b) =
      (hash : Bytes → Bytes) × (get_digest hashing algorithm ≡ some hash)
      × (b ≡ bytes_eq (hash payload) expected)

  keeps : (d b v v' : Bytes) → v ≡ d → extend b v ≡ (ok tt, v') → v' ≡ d ++ b
  keeps d b v v' p q = let i : v' ≡ v ++ b = cc in i ∙ ap (λ x. x ++ b) p

  hash_payload-Judges :
      (consume : Bool) (algorithm expected : Bytes) (rec : WarcRecord S) (t : ReaderType S)
      → Judges algorithm expected
          (limited_content content (inner_reader t))
          (hash_payload reader boxes codec hashing len fuel consume algorithm expected
            (some t)
            rec).0
  hash_payload-Judges consume algorithm expected rec t = go (get_digest hashing algorithm) refl
    where
      r : LimitedBufReader S
      r = inner_reader t

      payload : Bytes
      payload = limited_content content r

      restored :
          (hash : Bytes → Bytes) (s : LimitedBufReader S)
          → (x : Result ℕ × LimitedBufReader S) → get_digest hashing algorithm ≡ some hash
          → Judges algorithm expected payload
              (on_restored reader boxes codec hashing len fuel t rec
                (bytes_eq (hash payload) expected)
                x).0
      restored hash s (err e, q) i = tt
      restored hash s (ok p, q) i = (hash, i, refl)

      compared :
          (c : Bool) (hash : Bytes → Bytes) (s : LimitedBufReader S)
          → get_digest hashing algorithm ≡ some hash
          → Judges algorithm expected payload
              (restore reader boxes codec hashing len fuel c r.pos t rec
                (bytes_eq (hash payload) expected)
                s).0
      compared true hash s i = (hash, i, refl)
      compared false hash s i = restored hash s (L.seek reader (SeekFrom.start r.pos) s) i

      read :
          (hash : Bytes → Bytes) (x : Result (Unit {0}) × (LimitedBufReader S × Bytes))
          → get_digest hashing algorithm ≡ some hash
          → WhenOk
              (L.read reader)
              4095
              extend
              (limited_content content)
              (limited-IsRead reader content laws)
              (λ d v. v ≡ d)
              keeps
              ([] ++ payload)
              x
          → Judges algorithm expected payload
              (on_digest_read reader boxes codec hashing len fuel consume r.pos hash expected t rec
                x).0
      read hash (err e, (s, v)) i held = tt
      read hash (ok u, (s, v)) i (all, ends) =
          subst
            (λ b.
              Judges algorithm expected payload
                (restore reader boxes codec hashing len fuel consume r.pos t rec
                  (bytes_eq (hash b) expected) s).0)
            (sym all) (compared consume hash s i)

      go :
          (o : Option (Bytes → Bytes))
          → get_digest hashing algorithm ≡ o
          → Judges algorithm expected payload
              (hash_with reader boxes codec hashing len fuel consume expected t rec o).0
      go none i = tt
      go (some hash) i = read hash (read_each (L.read reader) (suc 4095) extend fuel (r, [])) i (
          read_each-WhenOk (L.read reader) 4095 extend (limited_content content)
            (limited-IsRead reader content laws) (λ d v. v ≡ d) keeps fuel [] r [] refl)

  direct :
      (consume : Bool) (algorithm expected : Bytes) (rec : WarcRecord S) (t : ReaderType S)
      → rec.reader ≡ some t
      → Judges algorithm expected
          (limited_content content (inner_reader t))
          (hash_payload reader boxes codec hashing len fuel consume algorithm expected rec.reader
            rec).0
  direct consume algorithm expected rec t e =
      subst
        (λ o.
          Judges algorithm expected (limited_content content (inner_reader t))
            (hash_payload reader boxes codec hashing len fuel consume algorithm expected o rec).0)
        (sym e) (hash_payload-Judges consume algorithm expected rec t)

  frozen_is :
      (rec : WarcRecord S) (r : LimitedBufReader S) (o : Option (LimitedBufReader S))
      → rec.reader ≡ some (ReaderType.frozen r o)
      → is_frozen rec ≡ true
  unfolding is_frozen
  frozen_is rec r o e = rw (is_frozen, e) refl

  original_is :
      (rec : WarcRecord S) (r : LimitedBufReader S)
      → rec.reader ≡ some (ReaderType.original r)
      → is_frozen rec ≡ false
  unfolding is_frozen
  original_is rec r e = rw (is_frozen, e) refl

  -- Where the read of the stream always succeeds, a cursor delivers its bytes, and the payload before
  -- the limit has fewer bytes than the fuel and than 2 ^ 64, any verdict that check_digest gives of a
  -- record with a reader, whether it consumes the payload or not, says whether the hash that the
  -- algorithm names of all that payload is the expected digest.
  pub check_digest-Judges :
      (always : ReadsAlways reader.read) (cursors : IsCursor reader boxes content) (consume : Bool)
      (algorithm expected : Bytes) (rec : WarcRecord S) (t : ReaderType S)
      → rec.reader ≡ some t
      → length (limited_content content (inner_reader t)) < fuel
      → length (limited_content content (inner_reader t)) < u64_mod
      → Judges algorithm expected
          (limited_content content (inner_reader t))
          (check_digest reader boxes codec hashing len fuel consume algorithm expected rec).0
  unfolding check_digest is_frozen freeze
  check_digest-Judges always cursors true algorithm expected rec t e enough small =
      direct true algorithm expected rec t e
  check_digest-Judges always cursors false algorithm expected rec (ReaderType.frozen r o) e enough
        small =
      subst
        (λ b.
          Judges algorithm expected (limited_content content r)
            (if not b
              then after_digest_freeze reader boxes codec hashing len fuel false algorithm expected
                  (freeze reader boxes len fuel rec)
              else hash_payload reader boxes codec hashing len fuel false algorithm expected
                  rec.reader rec).0)
        (sym (frozen_is rec r o e)) (direct false algorithm expected rec (ReaderType.frozen r o) e)
  check_digest-Judges always cursors false algorithm expected rec (ReaderType.wrapped r) e enough
        small =
      subst
        (λ (x : Option (ReaderType S)).
          Judges algorithm expected (limited_content content r)
            (check_digest reader boxes codec hashing len fuel false algorithm expected
              (record rec { reader = x })).0)
        (sym e) tt
  check_digest-Judges always cursors false algorithm expected rec (ReaderType.original r) e enough
        small =
      let (rec', run, f, bytes, same) =
        freeze_lem reader boxes content cursors laws always len fuel rec r e enough small in
      subst
        (λ b.
          Judges algorithm expected (limited_content content r)
            (if not b
              then after_digest_freeze reader boxes codec hashing len fuel false algorithm expected
                  (freeze reader boxes len fuel rec)
              else hash_payload reader boxes codec hashing len fuel false algorithm expected
                  rec.reader rec).0)
        (sym (original_is rec r e))
        (subst
          (λ x.
            Judges algorithm expected (limited_content content r)
              (after_digest_freeze reader boxes codec hashing len fuel false algorithm expected
                x).0)
          (sym run)
          (subst
            (λ v.
              Judges algorithm expected v
                (hash_payload reader boxes codec hashing len fuel false algorithm expected
                  rec'.reader rec').0)
            f.holds.readable
            (direct false algorithm expected rec' (ReaderType.frozen f.held (some f.original))
              f.reader_is)))

-- With a reader whose read always succeeds and more fuel than bytes, a payload that may be consumed is
-- judged: the verdict is whether the hash that the algorithm names of all of it is the expected one.
pub check_digest_decides :
    {S : Type 0} (reader : WarcRead S) (boxes : Boxes S) (codec : Codec) (hashing : Hashing)
    (content : S → Bytes)
    → IsRead reader.read content
    → ReadsAlways reader.read
    → (len fuel : ℕ) (algorithm expected : Bytes) (hash : Bytes → Bytes) (rec : WarcRecord S)
      (t : ReaderType S)
    → rec.reader ≡ some t
    → get_digest hashing algorithm ≡ some hash
    → length (limited_content content (inner_reader t)) < fuel
    → (check_digest reader boxes codec hashing len fuel true algorithm expected rec).0
      ≡ Verdict.verdict (bytes_eq (hash (limited_content content (inner_reader t))) expected)
unfolding check_digest read_to_end
check_digest_decides {S} reader boxes codec hashing content laws always len fuel algorithm expected
      hash rec t e named enough =
    let r = inner_reader t in
    let payload = limited_content content r in
    let (s, run, ends) =
      read_to_end_lem (L.read reader) 4095 (limited_content content)
        (limited-IsRead reader content laws) (limited-ReadsAlways reader always) fuel r [] enough in
    let read_end_to_end : read_each (L.read reader) (suc 4095) extend fuel (r, [])
        ≡ read_to_end (L.read reader) (suc 4095) fuel (r, []) =
      refl in
    let answer : Verdict × WarcRecord S → Verdict = λ x. x.0 in
    ap
      (λ o. answer (hash_payload reader boxes codec hashing len fuel true algorithm expected o rec))
      e
    ∙ ap (λ o. answer (hash_with reader boxes codec hashing len fuel true expected t rec o)) named
    ∙ ap
        (λ x.
          answer
            (on_digest_read reader boxes codec hashing len fuel true r.pos hash expected t rec x))
        (read_end_to_end ∙ run)
