-- ===== src/StreamIo/Dechunk/Data.antt =====
-- `ChunkedReader::fill_buf` within a chunk.
use chatnoir_resiliparse.Prelude.{
  ℕ, suc, ◌+◌, ◌-◌, ◌<◌, ◌≡◌, refl, sym, ap, ◌∙◌, subst, Bool, true, false, [], ◌∷◌, ◌++◌, ◌==◌,
  if◌then◌else◌, arith, length, take, drop, min, length-append, length-take, length-drop,
  append_assoc, take_all, take-append_left, drop-append_left, drop-length, take-append-drop,
  drop_all,
}
use chatnoir_resiliparse.Bytes.{Bytes}
use chatnoir_resiliparse.Io.{ok, err, unexpected_eof}
use chatnoir_resiliparse.Io.Laws.{IsBufRead, NeverFails}
use chatnoir_resiliparse.StreamIo.Tracking.{BufReadSeek}
use chatnoir_resiliparse.Record.Consume.Correct.{consume_loop-Consumes}
use chatnoir_resiliparse.StreamIo.Dechunk.{
  ChunkedReader, consume_chunk_end, at_chunk_end, answer, copied, on_chunk_data,
}
use chatnoir_resiliparse.StreamIo.Dechunk.Spec.{Decodes, Missing, Within, Shows}

module _ {S : Type 0} (reader : BufReadSeek S) (content : S → Bytes)
    (laws : IsBufRead reader.buffered content) (calm : NeverFails reader.buffered) (fuel : ℕ) where
  -- The two bytes behind a chunk.
  pub chunk_end :
      (r : ChunkedReader S) (end enc : Bytes)
      → content r.inner ≡ end ++ enc
      → length end ≡ 2
      → length (content r.inner) < fuel
      → (s : S) × (consume_chunk_end reader fuel r
          ≡ (ok tt, record r { inner = s; chunk_read = 0; chunk_size = 0 }))
        × (content s ≡ enc)
        × (length (content s) < fuel)
  unfolding consume_chunk_end
  chunk_end r end enc e two enough =
      let (s, run, left) =
        consume_loop-Consumes reader.buffered content laws calm 2 fuel 0 r.inner (omega arith)
          enough in
      let size = ap length e ∙ length-append end enc in
      let all : 0 + min (2 - 0) (length (content r.inner)) ≡ 2 = omega arith in
      let none_before : 2 - 0 ≡ length end = omega arith in
      let done =
        left
        ∙ ap (drop (2 - 0)) e
        ∙ ap (λ k. drop k (end ++ enc)) none_before
        ∙ drop-length end enc in
      let fewer = ap length done in
      (s, ap (at_chunk_end reader fuel r) (run ∙ ap (λ k. (ok k, s)) all), done, omega arith)

  module _ (r : ChunkedReader S) (m : ℕ) (d : Bytes) (size : r.chunk_size - r.chunk_read ≡ suc m)
      (w : Missing (suc m) (content r.inner) d) (enough : length (content r.inner) < fuel)
      (buf : Bytes) (s : S) (f : reader.fill_buf r.inner ≡ (ok buf, s)) (n : ℕ)
      (n_is : n ≡ min (length buf) (r.chunk_size - r.chunk_read)) (some_shown : 0 < n) where
    -- What is copied is the begin of what is missing.
    taken : take n buf ≡ take n w.part
    taken =
        let part_size = w.part_size in
        sym (take-append_left n buf (drop (length buf) (content r.inner)) (omega arith))
        ∙ ap (take n) (sym (laws.fill_shows r.inner s buf f) ∙ w.text)
        ∙ take-append_left n w.part (w.end ++ w.enc) (omega arith)

    left : content (reader.consume n s) ≡ drop n w.part ++ (w.end ++ w.enc)
    left =
        let part_size = w.part_size in
        laws.consume_drops r.inner s buf n f (omega arith)
        ∙ ap (drop n) w.text
        ∙ drop-append_left n w.part (w.end ++ w.enc) (omega arith)

    not_empty : take n buf ≡ [] → d ≡ []
    not_empty e = let size = ap length e in let k = length-take n buf in absurd (omega arith)

    shorter : length (content (reader.consume n s)) < fuel
    shorter =
        let k =
          ap length (laws.consume_drops r.inner s buf n f (omega arith))
          ∙ length-drop n (content r.inner) in
        omega arith

    whole_chunk :
        r.chunk_read + n ≡ r.chunk_size
        → Shows content fuel d (
            answer reader fuel
              (take n buf)
              (consume_chunk_end reader fuel (copied reader fuel r n buf s)))
    whole_chunk e =
        let part_size = w.part_size in
        let gone = ap (λ v. v ++ (w.end ++ w.enc)) (drop_all n w.part (omega arith)) in
        let r' = copied reader fuel r n buf s in
        let (t, run, rest, fewer) = chunk_end r' w.end w.enc (left ∙ gone) w.end_size shorter in
        record {
          buf = take n buf;
          after = record r' { inner = t; chunk_read = 0; chunk_size = 0 };
          succeeds = ap (answer reader fuel (take n buf)) run;
          shown = refl;
          holds = record {
            rest = w.body;
            joined = ap (λ v. v ++ w.body) (taken ∙ take_all n w.part (omega arith)) ∙ sym w.result;
            behind = omega arith;
            boundary = λ q. refl;
            within = subst (λ v. Decodes v w.body) (sym rest) w.others;
            enough = fewer;
          };
          at_end = not_empty;
        }

    part_of_chunk :
        (r.chunk_read + n == r.chunk_size) ≡ false
        → Shows content fuel d (ok (take n buf), copied reader fuel r n buf s)
    part_of_chunk e =
        let part_size = w.part_size in
        let more : r.chunk_size - (r.chunk_read + n) ≡ suc (m - n) = ground arith in
        record {
          buf = take n buf;
          after = copied reader fuel r n buf s;
          succeeds = refl;
          shown = refl;
          holds = record {
            rest = drop n w.part ++ w.body;
            joined =
                ap (λ v. v ++ (drop n w.part ++ w.body)) taken
                ∙ sym (append_assoc (take n w.part) (drop n w.part) w.body)
                ∙ ap (λ v. v ++ w.body) (take-append-drop n w.part)
                ∙ sym w.result;
            behind = omega arith;
            boundary = λ q. absurd (ground arith);
            within =
                subst (λ j. Within j (content (reader.consume n s)) (drop n w.part ++ w.body))
                  (sym more)
                  (record {
                    part = drop n w.part;
                    end = w.end;
                    enc = w.enc;
                    body = w.body;
                    text = left;
                    result = refl;
                    part_size = let k = length-drop n w.part in omega arith;
                    end_size = w.end_size;
                    others = w.others;
                  });
            enough = shorter;
          };
          at_end = not_empty;
        }

    on_chunk_data-Shows : Shows content fuel d (on_chunk_data reader fuel r (ok buf, s))
    unfolding on_chunk_data
    on_chunk_data-Shows =
        subst
          (λ k. Shows content fuel d (
            if k == 0
            then (err unexpected_eof, record r { inner = s })
            else if r.chunk_read + k == r.chunk_size
            then answer reader fuel (take k buf)
                (consume_chunk_end reader fuel (copied reader fuel r k buf s))
            else (ok (take k buf), copied reader fuel r k buf s)))
          n_is (go (n == 0) (r.chunk_read + n == r.chunk_size) (ground arith) refl)
      where
        go :
            (z e : Bool)
            → z ≡ false
            → (r.chunk_read + n == r.chunk_size) ≡ e
            → Shows content fuel d (
                if z
                then (err unexpected_eof, record r { inner = s })
                else if e
                then answer reader fuel
                    (take n buf)
                    (consume_chunk_end reader fuel (copied reader fuel r n buf s))
                else (ok (take n buf), copied reader fuel r n buf s))
        go true e i j = cc
        go false true i j = whole_chunk (ground arith)
        go false false i j = part_of_chunk j

  pub chunk_data :
      (r : ChunkedReader S) (m : ℕ) (d : Bytes)
      → r.chunk_size - r.chunk_read ≡ suc m
      → Missing (suc m) (content r.inner) d
      → length (content r.inner) < fuel
      → Shows content fuel d (on_chunk_data reader fuel r (reader.fill_buf r.inner))
  chunk_data r m d size w enough =
      let (buf, s, f) = calm r.inner in
      subst (λ x. Shows content fuel d (on_chunk_data reader fuel r x)) (sym f) (go buf s f)
    where
      go :
          (buf : Bytes) (s : S)
          → reader.fill_buf r.inner ≡ (ok buf, s)
          → Shows content fuel d (on_chunk_data reader fuel r (ok buf, s))
      go [] s f =
          let none_left =
            ap length (sym (laws.fill_ends r.inner s f) ∙ w.text)
            ∙ length-append w.part (w.end ++ w.enc) in
          let part_size = w.part_size in absurd (omega arith)
      go (c ∷ cs) s f =
          on_chunk_data-Shows r m d size w enough (c ∷ cs) s f
            (min (length (c ∷ cs)) (r.chunk_size - r.chunk_read)) refl (omega arith)
