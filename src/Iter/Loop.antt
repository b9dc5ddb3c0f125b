-- ===== src/Iter/Loop.antt =====
-- What holds of a record that the iterator returns.
use chatnoir_resiliparse.Prelude.{
  ℕ, zero, suc, ◌≡◌, refl, sym, ap, ◌∙◌, subst, Bool, true, false, not, ◌&&◌, Option, none, some,
  if◌then◌else◌,
}
use chatnoir_resiliparse.Io.{Result, ok, err}
use chatnoir_resiliparse.Header.Text.{Codec}
use chatnoir_resiliparse.StreamIo.{WarcRead}
use chatnoir_resiliparse.Record.{WarcRecord}
use chatnoir_resiliparse.Record.Boxes.{Boxes}
use chatnoir_resiliparse.Record.Consume.{next_inplace_impl}
use chatnoir_resiliparse.Record.Payload.{next_impl}
use chatnoir_resiliparse.Record.Http.{parse_http_with_opts}
use chatnoir_resiliparse.Record.Http.Flags.{parse_http-parsed}
use chatnoir_resiliparse.Record.Digest.{Hashing, Verdict, verify_block_digest}
use chatnoir_resiliparse.Iter.{ArchiveIterator, ArchiveIteratorOptions}
use chatnoir_resiliparse.Iter.Stream.{
  keep_record, parse_if_http, after_verify, parsed_result, Next, with_cur, on_kept, on_inplace,
  on_next, next_loop, next, started, detect_stream_compression_type,
}

module _ {S : Type 0} (reader : WarcRead S) (boxes : Boxes S) (codec : Codec) (hashing : Hashing)
    (len fuel : ℕ) where
  -- What the options ask of a record.
  pub record Meets (o : ArchiveIteratorOptions) (rec : WarcRecord S) : Type 0 where
    pub parsed : o.parse_http ≡ true → rec.is_http ≡ true → rec.http_parsed ≡ true
    pub verified :
        o.verify_digests ≡ true
        → (before : WarcRecord S) × (after : WarcRecord S) × (verify_block_digest reader boxes codec
              hashing len fuel false before
            ≡ (Verdict.verdict true, after))
          × (parse_if_http reader boxes codec hashing len fuel o after ≡ (ok true, rec))

  parse_if_http-parsed :
      (o : ArchiveIteratorOptions) (rec rec' : WarcRecord S) (b : Bool)
      → parse_if_http reader boxes codec hashing len fuel o rec ≡ (ok b, rec')
      → (b ≡ true) × (o.parse_http ≡ true → rec'.is_http ≡ true → rec'.http_parsed ≡ true)
  unfolding parse_if_http
  parse_if_http-parsed o rec rec' b e = go o.parse_http rec.is_http refl e
    where
      done :
          (x : Result (Unit {0}) × WarcRecord S)
          → parse_http_with_opts reader boxes codec len fuel o.decode_http_payload o.max_header_len
              o.quirks_mode rec
            ≡ x
          → parsed_result reader boxes codec hashing len fuel x ≡ (ok b, rec')
          → (b ≡ true) × (rec'.is_http ≡ true → rec'.http_parsed ≡ true)
      done (err f, r) i j = cc
      done (ok u, r) i j =
          let same : r ≡ rec' = cc in
          let kept : true ≡ b = cc in
          (
            sym kept,
            subst (λ (q : WarcRecord S). q.is_http ≡ true → q.http_parsed ≡ true) same
                (parse_http-parsed reader boxes codec len fuel o.decode_http_payload
                  o.max_header_len o.quirks_mode rec r i),
          )

      go :
          (p h : Bool)
          → rec.is_http ≡ h
          → (if p && h
              then parsed_result reader boxes codec hashing len fuel (
                  parse_http_with_opts reader boxes codec len fuel o.decode_http_payload
                    o.max_header_len o.quirks_mode rec)
              else (ok true, rec))
            ≡ (ok b, rec')
          → (b ≡ true) × (p ≡ true → rec'.is_http ≡ true → rec'.http_parsed ≡ true)
      go true true i e =
          let (kept, p) =
            done
              (parse_http_with_opts reader boxes codec len fuel o.decode_http_payload
                o.max_header_len o.quirks_mode rec)
              refl e in
          (kept, λ q. p)
      go true false i e =
          let same : rec ≡ rec' = cc in
          (
            cc,
            λ q h.
                let no : rec'.is_http ≡ false =
                  ap (λ (r : WarcRecord S). r.is_http) (sym same) ∙ i in
                cc,
          )
      go false h i e = (cc, λ q. cc)

  keep_record-Meets :
      (o : ArchiveIteratorOptions) (rec rec' : WarcRecord S)
      → keep_record reader boxes codec hashing len fuel o rec ≡ (ok true, rec')
      → Meets o rec'
  unfolding keep_record
  keep_record-Meets o rec rec' e = go o.verify_digests refl e
    where
      judged :
          (x : Verdict × WarcRecord S)
          → verify_block_digest reader boxes codec hashing len fuel false rec ≡ x
          → after_verify reader boxes codec hashing len fuel o x ≡ (ok true, rec')
          → Meets o rec'
      judged (Verdict.verdict true, r) i e = record {
        parsed = (parse_if_http-parsed o r rec' true e).1;
        verified = λ v. (rec, r, i, e);
      }
      judged (Verdict.verdict false, r) i e = cc
      judged (Verdict.undecided f, r) i e = cc

      go :
          (v : Bool)
          → o.verify_digests ≡ v
          → (if v
              then after_verify reader boxes codec hashing len fuel o
                  (verify_block_digest reader boxes codec hashing len fuel false rec)
              else parse_if_http reader boxes codec hashing len fuel o rec)
            ≡ (ok true, rec')
          → Meets o rec'
      go true i e =
          judged (verify_block_digest reader boxes codec hashing len fuel false rec) refl e
      go false i e = record {
        parsed = (parse_if_http-parsed o rec rec' true e).1;
        verified = λ v. cc;
      }

  -- The record returned is the one that the iterator holds, and the options are as they were.
  abbrev pub Returned : ArchiveIteratorOptions → Next reader boxes codec hashing len fuel → Type 0
  Returned o (none, it') = it'.options ≡ o
  Returned o (some (err e), it') = it'.options ≡ o
  Returned o (some (ok rec), it') = (it'.options ≡ o) × (it'.cur ≡ rec) × Meets o rec

  module _ (loop : ArchiveIterator S → Next reader boxes codec hashing len fuel)
      (again : (it : ArchiveIterator S) → Returned it.options (loop it))
      (it : ArchiveIterator S) where
    on_kept-Returned :
        (rec : WarcRecord S) (x : Result Bool × WarcRecord S)
        → keep_record reader boxes codec hashing len fuel it.options rec ≡ x
        → Returned it.options (on_kept reader boxes codec hashing len fuel loop it x)
    unfolding on_kept
    on_kept-Returned rec (err e, r) i = refl
    on_kept-Returned rec (ok true, r) i = (refl, refl, keep_record-Meets it.options rec r i)
    on_kept-Returned rec (ok false, r) i = again (with_cur reader boxes codec hashing len fuel it r)

    on_inplace-Returned :
        (x : Option (Result (Unit {0})) × WarcRecord S)
        → Returned it.options (on_inplace reader boxes codec hashing len fuel loop it x)
    unfolding on_inplace
    on_inplace-Returned (none, r) = refl
    on_inplace-Returned (some (err e), r) = refl
    on_inplace-Returned (some (ok u), r) =
        on_kept-Returned r (keep_record reader boxes codec hashing len fuel it.options r) refl

    on_next-Returned :
        (x : Option (Result (WarcRecord S)) × WarcRecord S)
        → Returned it.options (on_next reader boxes codec hashing len fuel loop it x)
    unfolding on_next
    on_next-Returned (none, r) = refl
    on_next-Returned (some (err e), r) = refl
    on_next-Returned (some (ok n), r) =
        on_kept-Returned n (keep_record reader boxes codec hashing len fuel it.options n) refl

  next_loop-Returned :
      (n : ℕ) (it : ArchiveIterator S)
      → Returned it.options (next_loop reader boxes codec hashing len fuel n it)
  unfolding next_loop
  next_loop-Returned zero it = refl
  next_loop-Returned (suc n) it = go it.options.inplace (λ j. next_loop-Returned n j)
    where
      go :
          (b : Bool)
          → ((j : ArchiveIterator S)
              → Returned j.options (next_loop reader boxes codec hashing len fuel n j))
          → Returned it.options (
              if b
              then on_inplace reader boxes codec hashing len fuel
                  (next_loop reader boxes codec hashing len fuel n)
                  it
                  (next_inplace_impl reader fuel it.options.max_header_len it.cur)
              else on_next reader boxes codec hashing len fuel
                  (next_loop reader boxes codec hashing len fuel n)
                  it
                  (next_impl reader boxes len fuel it.options.max_header_len it.cur))
      go true again =
          on_inplace-Returned (next_loop reader boxes codec hashing len fuel n) again it
            (next_inplace_impl reader fuel it.options.max_header_len it.cur)
      go false again =
          on_next-Returned (next_loop reader boxes codec hashing len fuel n) again it
            (next_impl reader boxes len fuel it.options.max_header_len it.cur)

  -- Whatever the stream holds, a record that the iterator returns is the one it goes on from, it has
  -- its HTTP headers parsed, if that is asked for and it is an HTTP record, and its block digest has
  -- been verified before that, if that is asked for; the options do not change.
  pub next-Returned :
      (n : ℕ) (it : ArchiveIterator S)
      → Returned it.options (next reader boxes codec hashing len fuel n it)
  unfolding next
  next-Returned n it =
      go (not it.stream_started && it.options.stream_detect)
        (detect_stream_compression_type reader boxes codec hashing len fuel it.cur)
    where
      on_started :
          (x : Result (Unit {0}) × WarcRecord S)
          → Returned it.options (started reader boxes codec hashing len fuel n it x)
      on_started (err e, r) = refl
      on_started (ok u, r) = next_loop-Returned n (record it { cur = r; stream_started = true })

      go :
          (b : Bool) (x : Result (Unit {0}) × WarcRecord S)
          → Returned it.options (
              if b
              then started reader boxes codec hashing len fuel n it x
              else next_loop reader boxes codec hashing len fuel n
                  (record it { stream_started = true }))
      go true x = on_started x
      go false x = next_loop-Returned n (record it { stream_started = true })
