-- ===== src/Header/View/Refine.antt =====
-- The byte-wise parser, with its offsets, refines the reading of a block line by line.
use chatnoir_resiliparse.Prelude.{
  ℕ, ◌≡◌, sym, ap, ◌∙◌, Bool, false, ◌&&◌, ◌||◌, [], ◌∷◌, ◌++◌, arith, ◌==◌, length, drop_all,
  drop-append_left, length-append, Bool-cases, inl, inr, if◌then◌else◌, is_nil,
}
use chatnoir_resiliparse.Bytes.{Bytes}
use chatnoir_resiliparse.Header.Parse.{
  Parser, raw, push, next_line, current_line, ends_with_cr, is_cr, split_and_push_parsed_line,
}
use chatnoir_resiliparse.Header.Parse.Reference.{
  completes, is_last_line, finish, run, ends_with_cr-push, last?-append_cons,
}
use chatnoir_resiliparse.Header.Parse.LineEnds.{IsParser, next_line-IsParser}
use chatnoir_resiliparse.Header.View.{IsValid, Block, view, add_line, read_block}
use chatnoir_resiliparse.Header.View.Offsets.{grow-IsValid, view-grow}
use chatnoir_resiliparse.Header.View.Line.{view-split, split-IsValid}

pub record IsRunning (p : Parser) : Type 0 where
  pub in_line : IsParser p
  pub valid : IsValid p.map
  -- A CR at the end of the block belongs to the current line.
  pub own_cr : ends_with_cr (raw p) ≡ ends_with_cr (current_line p)

current_line-push :
    (b : Bytes) (p : Parser) → IsParser p → current_line (push b p) ≡ current_line p ++ b
current_line-push b p v = drop-append_left p.line_start (raw p) b v

push-IsRunning : (c : ℕ) (p : Parser) → IsRunning p → IsRunning (push (c ∷ []) p)
push-IsRunning c p r = record {
  in_line = omega (arith, r.in_line, length-append (raw p) (c ∷ []));
  valid = grow-IsValid p.map (c ∷ []) r.valid;
  own_cr =
      ends_with_cr-push c p
      ∙ sym (ap is_cr (last?-append_cons (current_line p) c []))
      ∙ ap ends_with_cr (sym (current_line-push (c ∷ []) p r.in_line));
}

expect-split_line : (p : Parser) → (next_line p).expect_status_line ≡ false
unfolding next_line split_and_push_parsed_line
expect-split_line p = ground arith

current_line-next_line : (p : Parser) → current_line (next_line p) ≡ []
current_line-next_line p =
    let (v, e) = next_line-IsParser p in
    drop_all (next_line p).line_start (raw (next_line p))
      (unfold next_line in omega (arith, ap length e))

view-next_line :
    (p : Parser)
    → IsRunning p
    → view (next_line p).map ≡ add_line p.expect_status_line (current_line p) (view p.map)
unfolding next_line
view-next_line p r = view-split p.line_start p.map r.in_line p.expect_status_line

next_line-IsRunning :
    (p : Parser) → IsRunning p → ends_with_cr (raw p) ≡ false → IsRunning (next_line p)
next_line-IsRunning p r f =
    let (v, e) = next_line-IsParser p in
    record {
      in_line = v;
      valid =
          unfold next_line in
          split-IsValid p.line_start p.map r.in_line p.expect_status_line r.valid;
      own_cr = ap ends_with_cr e ∙ f ∙ ap ends_with_cr (sym (current_line-next_line p));
    }

-- The view of the byte-wise parser's result, and the bytes that it leaves.
abbrev pub seen : Parser × Bytes → Block × Bytes
seen (p, rest) = (view p.map, rest)

finish-view :
    (p : Parser)
    → IsRunning p
    → view (finish p).map ≡ (
        if is_nil (current_line p)
        then view p.map
        else add_line p.expect_status_line (current_line p) (view p.map))
finish-view p r = ground (arith, view-split p.line_start p.map r.in_line p.expect_status_line)

-- One byte of both readers, from what they do behind it.
step-view :
    (quirks : Bool) (c : ℕ) (cs : Bytes) (p : Parser)
    → IsRunning p
    → (let p' = push (c ∷ []) p in
        let line = current_line p ++ (c ∷ []) in
        let b = view p.map in
        seen (run quirks cs p') ≡ read_block quirks cs line p.expect_status_line b
        → ((c == b'\r') ≡ false
            → seen (run quirks cs (next_line p'))
              ≡ read_block quirks cs [] false (add_line p.expect_status_line line b))
        → seen (run quirks (c ∷ cs) p)
          ≡ read_block quirks (c ∷ cs) (current_line p) p.expect_status_line b)
unfolding run read_block
step-view quirks c cs p r within next =
    let p' = push (c ∷ []) p in
    let line = current_line-push (c ∷ []) p r.in_line in
    let same = view-grow p.map (c ∷ []) r.valid in
    elim (Bool-cases (c == b'\n' && (quirks || ends_with_cr (current_line p)))) [
      | inr no_end ↦ rw (r.own_cr, no_end) within
      | inl ended ↦
          let not_cr : (c == b'\r') ≡ false = ground arith in
          rw (r.own_cr, ended, line)
            (elim (Bool-cases (is_last_line quirks (current_line p ++ (c ∷ [])))) [
              | inl closed ↦ rw closed (λ i. (same i, cs))
              | inr going ↦ rw going (next not_cr)
            ])
    ]

-- What the byte-wise parser makes of some bytes, seen without offsets, is what reading them line by
-- line makes of them.
pub run-view :
    (quirks : Bool) (bs : Bytes) (p : Parser)
    → IsRunning p
    → seen (run quirks bs p)
      ≡ read_block quirks bs (current_line p) p.expect_status_line (view p.map)
unfolding run read_block
run-view quirks [] p r = λ i. (finish-view p r i, [])
run-view quirks (c ∷ cs) p r =
    let p' = push (c ∷ []) p in
    let r' = push-IsRunning c p r in
    let line = current_line-push (c ∷ []) p r.in_line in
    let same = view-grow p.map (c ∷ []) r.valid in
    step-view quirks c cs p r
      (run-view quirks cs p' r' ∙ λ i. read_block quirks cs (line i) p.expect_status_line (same i))
      (λ not_cr.
        run-view quirks cs (next_line p')
          (next_line-IsRunning p' r' (ends_with_cr-push c p ∙ not_cr))
        ∙ (λ i.
            read_block quirks cs (current_line-next_line p' i) (expect-split_line p' i)
              (view-next_line p' r' i))
        ∙ λ i. read_block quirks cs [] false (add_line p.expect_status_line (line i) (same i)))

-- The offsets stay in the block.
pub run-IsValid :
    (quirks : Bool) (bs : Bytes) (p : Parser) → IsRunning p → IsValid (run quirks bs p).0.map
unfolding run
run-IsValid quirks [] p r = elim (Bool-cases (is_nil (current_line p))) [
  | inl e ↦ rw e r.valid
  | inr e ↦ rw e (split-IsValid p.line_start p.map r.in_line p.expect_status_line r.valid)
]
run-IsValid quirks (c ∷ cs) p r =
    let p' = push (c ∷ []) p in
    let r' = push-IsRunning c p r in
    elim (Bool-cases (completes quirks p c)) [
      | inr no_end ↦ rw no_end (run-IsValid quirks cs p' r')
      | inl ended ↦
          let not_cr : (c == b'\r') ≡ false = ground arith in
          rw ended (elim (Bool-cases (is_last_line quirks (current_line p'))) [
            | inl closed ↦ rw closed r'.valid
            | inr going ↦ rw going (
                run-IsValid quirks cs (next_line p')
                  (next_line-IsRunning p' r' (ends_with_cr-push c p ∙ not_cr)))
          ])
    ]
