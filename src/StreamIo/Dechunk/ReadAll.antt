-- ===== src/StreamIo/Dechunk/ReadAll.antt =====
-- Reading a `ChunkedReader` to its end.
use chatnoir_resiliparse.Prelude.{
  ℕ, zero, suc, ◌<◌, ◌≡◌, refl, sym, ap, ◌∙◌, subst, [], ◌∷◌, ◌++◌, arith, length, take, drop, min,
  length-append, length-take, append_assoc, append-nil, take-append_left, take-append-drop,
}
use chatnoir_resiliparse.Bytes.{Bytes}
use chatnoir_resiliparse.Io.{Result, ok}
use chatnoir_resiliparse.Io.Laws.{IsBufRead, NeverFails}
use chatnoir_resiliparse.Io.ReadLoop.{extend, read_each, on_read, read_to_end}
use chatnoir_resiliparse.StreamIo.Tracking.{BufReadSeek}
use chatnoir_resiliparse.StreamIo.Dechunk.{ChunkedReader, with_options, consume, copy_out, read}
use chatnoir_resiliparse.StreamIo.Dechunk.Spec.{Decodes, Holds}
use chatnoir_resiliparse.StreamIo.Dechunk.Correct.{fill_buf_decodes, consume_delivers}

module _ {S : Type 0} (reader : BufReadSeek S) (content : S → Bytes)
    (laws : IsBufRead reader.buffered content) (calm : NeverFails reader.buffered) (fuel : ℕ) where
  -- Some bytes have been read of those to deliver, and none only where there are none.
  record Gives (d : Bytes) (x : Result Bytes × ChunkedReader S) : Type 0 where
    got : Bytes
    after : ChunkedReader S
    rest : Bytes
    succeeds : x ≡ (ok got, after)
    joined : got ++ rest ≡ d
    holds : Holds content fuel after rest
    at_end : got ≡ [] → d ≡ []

  read_decodes :
      (r : ChunkedReader S) (d : Bytes) (passes len : ℕ)
      → Holds content fuel r d
      → Gives d (read reader fuel (suc passes) (suc len) r)
  unfolding read
  read_decodes r d passes len h =
      let x = fill_buf_decodes reader content laws calm fuel r d passes h in
      let n = min (suc len) (length x.buf) in
      let begin : take n x.buf ≡ take n d =
        sym (take-append_left n x.buf x.holds.rest (omega arith))
        ∙ ap (λ b. take n (b ++ x.holds.rest)) (sym x.shown)
        ∙ ap (take n) x.holds.joined in
      let shown = ap length x.shown in
      record {
        got = take n x.buf;
        after = consume reader fuel n x.after;
        rest = drop n d;
        succeeds = ap (copy_out reader fuel (suc len)) x.succeeds;
        joined = ap (λ b. b ++ drop n d) begin ∙ take-append-drop n d;
        holds = consume_delivers reader content laws calm fuel x.after d n x.holds (omega arith);
        at_end = λ e. none x.buf x.at_end e;
      }
    where
      none :
          (buf : Bytes) → (buf ≡ [] → d ≡ []) → take (min (suc len) (length buf)) buf ≡ [] → d ≡ []
      none [] f e = f refl
      none (c ∷ cs) f e =
          let size = ap length e in
          let k = length-take (min (suc len) (length (c ∷ cs))) (c ∷ cs) in absurd (omega arith)

  read_to_end_decodes :
      (passes len n : ℕ) (r : ChunkedReader S) (d v : Bytes)
      → Holds content fuel r d
      → length d < n
      → (r' : ChunkedReader S) × (read_to_end (read reader fuel (suc passes)) (suc len) n (r, v)
          ≡ (ok tt, (r', v ++ d)))
        × Holds content fuel r' []
  unfolding read_to_end read_each on_read
  read_to_end_decodes passes len zero r d v h k = absurd (omega arith)
  read_to_end_decodes passes len (suc n) r d v h k =
      let x = read_decodes r d passes len h in
      subst
        (λ y.
          (r' : ChunkedReader S) × (on_read (read reader fuel (suc passes)) (suc len) extend
              (read_each (read reader fuel (suc passes)) (suc len) extend n) v y
            ≡ (ok tt, (r', v ++ d)))
          × Holds content fuel r' [])
        (sym x.succeeds)
        (go x.got x.after x.rest x.joined x.holds x.at_end
          (λ w. read_to_end_decodes passes len n x.after x.rest w x.holds))
    where
      go :
          (got : Bytes) (after : ChunkedReader S) (rest : Bytes)
          → got ++ rest ≡ d
          → Holds content fuel after rest
          → (got ≡ [] → d ≡ [])
          → ((w : Bytes)
              → length rest < n
              → (r' : ChunkedReader S) × (read_each
                    (read reader fuel (suc passes))
                    (suc len)
                    extend
                    n
                    (after, w)
                  ≡ (ok tt, (r', w ++ rest)))
                × Holds content fuel r' [])
          → (r' : ChunkedReader S) × (on_read
                (read reader fuel (suc passes))
                (suc len)
                extend
                (read_each (read reader fuel (suc passes)) (suc len) extend n)
                v
                (ok got, after)
              ≡ (ok tt, (r', v ++ d)))
            × Holds content fuel r' []
      go [] after rest e held stop loop =
          let nothing = stop refl in
          (
            after,
            ap (λ x. (ok tt, (after, x))) (sym (append-nil v) ∙ ap (λ x. v ++ x) (sym nothing)),
            subst (Holds content fuel after) (e ∙ nothing) held,
          )
      go (c ∷ cs) after rest e held stop loop =
          let size = ap length e in
          let parts = length-append (c ∷ cs) rest in
          let (r', run, ended) = loop (v ++ (c ∷ cs)) (omega arith) in
          (
            r',
            run ∙ ap (λ x. (ok tt, (r', x))) (append_assoc v (c ∷ cs) rest ∙ ap (λ x. v ++ x) e),
            ended,
          )

  -- Where the stream holds a chunked encoding, a fresh reader on it is read to its end without an error,
  -- and gives the text that was encoded, whatever the sizes of the buffers are. The fuel is more than the
  -- bytes of the stream, and the passes of the reading loop are more than the bytes of the text.
  pub chunked_reads_all :
      (s : S) (d : Bytes) (passes len n : ℕ)
      → Decodes (content s) d
      → length (content s) < fuel
      → length d < n
      → (r : ChunkedReader S) × (read_to_end
            (read reader fuel (suc passes))
            (suc len)
            n
            (with_options s, [])
          ≡ (ok tt, (r, d)))
        × Holds content fuel r []
  chunked_reads_all s d passes len n code enough more =
      read_to_end_decodes passes len n (with_options s) d []
        (record {
          rest = d;
          joined = refl;
          behind = omega arith;
          boundary = λ q. refl;
          within = code;
          enough = enough;
        })
        more
