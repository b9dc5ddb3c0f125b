-- ===== src/StreamIo/Dechunk/Boundary.antt =====
-- `ChunkedReader::fill_buf` at the boundary of two chunks.
use chatnoir_resiliparse.Prelude.{
  ℕ, suc, ◌-◌, ◌<◌, ◌≡◌, refl, sym, ap, ◌∙◌, subst, true, some, [], ◌∷◌, ◌++◌, if◌then◌else◌, arith,
  ltb, length, drop, length-append, length-drop, append-nil, drop-length,
}
use chatnoir_resiliparse.Bytes.{Bytes}
use chatnoir_resiliparse.Io.{Result, ok}
use chatnoir_resiliparse.Io.Laws.{IsBufRead, NeverFails}
use chatnoir_resiliparse.StreamIo.Tracking.{BufReadSeek}
use chatnoir_resiliparse.StreamIo.ReadLine.{read_line_loop, first_line}
use chatnoir_resiliparse.StreamIo.ReadLine.Line.{first_line-nil}
use chatnoir_resiliparse.StreamIo.ReadLine.Correct.{read_line_loop-Moves}
use chatnoir_resiliparse.StreamIo.Dechunk.{
  ChunkedReader, pending, answer, on_chunk_data, on_size, on_header,
}
use chatnoir_resiliparse.StreamIo.Dechunk.Spec.{
  IsHeader, Decodes, Missing, Within, header_first, Shows,
}
use chatnoir_resiliparse.StreamIo.Dechunk.Data.{chunk_end, chunk_data}

module _ {S : Type 0} (reader : BufReadSeek S) (content : S → Bytes)
    (laws : IsBufRead reader.buffered content) (calm : NeverFails reader.buffered) (fuel : ℕ) where
  -- The state in which a header has been read.
  abbrev at_data : ChunkedReader S → S → ℕ → ChunkedReader S
  at_data r s n = record r { inner = s; chunk_size = n }

  module _ (r : ChunkedReader S) (drained : pending r ≡ []) (begun : r.chunk_read ≡ 0)
      (loop : ChunkedReader S → Result Bytes × ChunkedReader S) (s : S) where
    last_header :
        (end enc : Bytes)
        → content s ≡ end ++ enc
        → length end ≡ 2
        → Decodes enc []
        → length (content s) < fuel
        → Shows content fuel [] (on_size reader fuel loop (record r { inner = s }) (some 0))
    last_header end enc e two others enough =
        let (t, run, rest, fewer) =
          chunk_end reader content laws calm fuel (at_data r s 0) end enc e two enough in
        record {
          buf = [];
          after = record r { inner = t; chunk_read = 0; chunk_size = 0 };
          succeeds = ap (answer reader fuel []) run;
          shown = drained;
          holds = record {
            rest = [];
            joined = append-nil (pending r) ∙ drained;
            behind = omega arith;
            boundary = λ q. refl;
            within = subst (λ v. Decodes v []) (sym rest) others;
            enough = fewer;
          };
          at_end = λ q. refl;
        }

    chunk_header :
        (n : ℕ) (d : Bytes)
        → Missing (suc n) (content s) d
        → length (content s) < fuel
        → Shows content fuel d (on_size reader fuel loop (record r { inner = s }) (some (suc n)))
    chunk_header n d w enough =
        let inside : ltb r.chunk_read (suc n) ≡ true = ground arith in
        let left : suc n - r.chunk_read ≡ suc n = omega arith in
        subst (λ b. Shows content fuel d (if b then on_data else loop (at_data r s (suc n))))
          (sym inside)
          (chunk_data reader content laws calm fuel (at_data r s (suc n)) n d left w enough)
      where
        on_data : Result Bytes × ChunkedReader S
        on_data = on_chunk_data reader fuel (at_data r s (suc n)) (reader.fill_buf s)

  -- A pass of the loop at the boundary of a chunk.
  pub at_boundary :
      (r : ChunkedReader S) (loop : ChunkedReader S → Result Bytes × ChunkedReader S) (v d : Bytes)
      → pending r ≡ []
      → r.chunk_read ≡ 0
      → r.chunk_size ≡ 0
      → content r.inner ≡ v
      → Decodes v d
      → length (content r.inner) < fuel
      → Shows content fuel d
          (on_header reader fuel loop r (read_line_loop reader.buffered 0 fuel fuel ([], r.inner)))
  unfolding on_header
  at_boundary r loop v d drained begun sized e code enough =
      let (s, run, left) =
        read_line_loop-Moves reader.buffered content laws 0 fuel calm fuel [] r.inner (omega arith)
          enough in
      let m : fuel - (0 - 0) ≡ fuel = omega arith in
      subst (λ x. Shows content fuel d (on_header reader fuel loop r x)) (sym run)
        (go v d code e s (first_line (fuel - (0 - 0)) (content r.inner))
          (ap (λ k. first_line k (content r.inner)) m) left)
    where
      lined :
          (header rest : Bytes) (n : ℕ) (line : Bytes)
          → IsHeader header n
          → content r.inner ≡ header ++ rest
          → line ≡ first_line fuel (content r.inner)
          → line ≡ header
      lined header rest n line h e l =
          let size = ap length e ∙ length-append header rest in
          l ∙ ap (first_line fuel) e ∙ header_first header rest n fuel h (omega arith)

      nothing_missing : 0 ≡ r.chunk_size - r.chunk_read
      nothing_missing = omega arith

      split :
          (header rest : Bytes) (n : ℕ) (line : Bytes) (s : S)
          → IsHeader header n
          → content r.inner ≡ header ++ rest
          → line ≡ first_line fuel (content r.inner)
          → content s ≡ drop (length line) (content r.inner)
          → (line ≡ header) × (content s ≡ rest) × (length (content s) < fuel)
      split header rest n line s h e l left =
          let same = lined header rest n line h e l in
          let size = ap length left ∙ length-drop (length line) (content r.inner) in
          (
            same,
            left
                ∙ ap (λ h. drop (length h) (content r.inner)) same
                ∙ ap (drop (length header)) e
                ∙ drop-length header rest,
            omega arith,
          )

      with_header :
          (d : Bytes) (header : Bytes) (n : ℕ) (s : S) (k : ℕ)
          → IsHeader header n
          → Shows content fuel d (on_size reader fuel loop (record r { inner = s }) (some n))
          → Shows content fuel d (on_header reader fuel loop r (ok k, (header, s)))
      with_header d [] n s k h x = let f = h.last in absurd (omega arith)
      with_header d (c ∷ cs) n s k h x =
          subst (λ o. Shows content fuel d (on_size reader fuel loop (record r { inner = s }) o))
            (sym h.size) x

      go :
          (v d : Bytes)
          → Decodes v d
          → content r.inner ≡ v
          → (s : S) (line : Bytes) → line ≡ first_line fuel (content r.inner)
          → content s ≡ drop (length line) (content r.inner)
          → Shows content fuel d
              (on_header reader fuel loop r (ok (length ([] ++ line) - 0), ([] ++ line, s)))
      go v d Decodes.over e s line l left =
          let empty = l ∙ ap (first_line fuel) e ∙ first_line-nil fuel in
          let rest = left ∙ ap (λ h. drop (length h) (content r.inner)) empty ∙ e in
          subst
            (λ h.
              Shows content fuel []
                (on_header reader fuel loop r (ok (length ([] ++ line) - 0), (h, s))))
            (sym empty)
            (record {
              buf = [];
              after = record r { inner = s };
              succeeds = refl;
              shown = drained;
              holds = record {
                rest = [];
                joined = append-nil (pending r) ∙ drained;
                behind = omega arith;
                boundary = λ q. begun;
                within =
                    subst (λ j. Within j (content s) []) (nothing_missing)
                      (subst (λ v. Decodes v []) (sym rest) Decodes.over);
                enough = let size = ap length rest in omega arith;
              };
              at_end = λ q. refl;
            })
      go v d (Decodes.ends header end enc h two others) e s line l left =
          let (same, rest, fewer) = split header (end ++ enc) 0 line s h e l left in
          subst
            (λ h.
              Shows content fuel []
                (on_header reader fuel loop r (ok (length ([] ++ line) - 0), (h, s))))
            (sym same)
            (with_header [] header 0 s (length ([] ++ line) - 0) h
              (last_header r drained begun loop s end enc rest two others fewer))
      go v d (Decodes.chunk header part end enc body n h ps es others) e s line l left =
          let (same, rest, fewer) = split header (part ++ (end ++ enc)) (suc n) line s h e l left in
          subst
            (λ h.
              Shows content fuel (part ++ body)
                (on_header reader fuel loop r (ok (length ([] ++ line) - 0), (h, s))))
            (sym same)
            (with_header (part ++ body) header (suc n) s (length ([] ++ line) - 0) h (
              chunk_header r drained begun loop s n (part ++ body)
                (record {
                  part = part;
                  end = end;
                  enc = enc;
                  body = body;
                  text = rest;
                  result = refl;
                  part_size = ps;
                  end_size = es;
                  others = others;
                })
                fewer))
