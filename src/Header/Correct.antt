-- ===== src/Header/Correct.antt =====
-- `HeaderMap::parse_with_opts` over any buffered reader: what it reads, and when it succeeds.
use chatnoir_resiliparse.Prelude.{
  ℕ, ◌+◌, ◌*◌, ◌<◌, ◌≤◌, ◌≡◌, refl, sym, subst, ap, ◌∙◌, Bool, true, false, none, [], ◌∷◌, ◌++◌,
  arith, is_nil, length, drop_all, append_assoc, Bool-cases, inl, inr, if◌then◌else◌,
}
use chatnoir_resiliparse.Bytes.{Bytes}
use chatnoir_resiliparse.Io.{Result, ok, err, BufRead}
use chatnoir_resiliparse.Io.Laws.{IsBufRead, NeverFails}
use chatnoir_resiliparse.Header.{HeaderMap}
use chatnoir_resiliparse.Header.Parse.{
  Parser, raw, push, next_line, current_line, ends_with_cr, preserve_prefix, start, parse_loop,
  parse_with_opts,
}
use chatnoir_resiliparse.Header.Parse.Reference.{run, completes, is_last_line}
use chatnoir_resiliparse.Header.Parse.LineEnds.{next_line-IsParser, raw-split_line}
use chatnoir_resiliparse.Header.Parse.Loop.{Returns, parse_loop-Returns}
use chatnoir_resiliparse.Header.Parse.Total.{Succeeds, parse_loop-Succeeds}
use chatnoir_resiliparse.Header.View.{IsValid, Block, view, read_block}
use chatnoir_resiliparse.Header.View.Refine.{IsRunning, seen, run-view, run-IsValid}

abbrev pub empty_block : Block
empty_block = record { status = none; items = [] }

-- A map with a seeded block has its offsets in it, and the block does not end inside a CR LF.
abbrev pub IsReady : Bool → HeaderMap → Type 0
IsReady has_status_line h =
    preserve_prefix has_status_line h ≡ true → IsValid h × (ends_with_cr h.raw_header_block ≡ false)

-- What the parser keeps of the map that it starts from.
abbrev pub kept_block : Bool → HeaderMap → Block
kept_block has_status_line h = if preserve_prefix has_status_line h then view h else empty_block

abbrev pub kept_bytes : Bool → HeaderMap → Bytes
kept_bytes has_status_line h = if preserve_prefix has_status_line h then h.raw_header_block else []

start-IsRunning :
    (status : Bool) (h : HeaderMap)
    → IsReady status h
    → IsRunning (start status h)
      × (current_line (start status h) ≡ [])
      × (view (start status h).map ≡ kept_block status h)
      × (raw (start status h) ≡ kept_bytes status h)
unfolding start view
start-IsRunning status h ready = elim (Bool-cases (preserve_prefix status h)) [
  | inl keep ↦
      let (v, f) = ready keep in
      let none_left = drop_all (length h.raw_header_block) h.raw_header_block (omega arith) in
      rw keep (
        record {
          in_line = omega arith;
          valid = record {
            status_in_block = v.status_in_block;
            headers_in_block = v.headers_in_block;
          };
          own_cr = f ∙ ap ends_with_cr (sym none_left);
        },
        none_left,
        refl,
        refl,
      )
  | inr fresh ↦ rw fresh (
    record {
      in_line = omega arith;
      valid = record { status_in_block = tt; headers_in_block = tt };
      own_cr = refl;
    },
    refl,
    refl,
    refl,
  )
]

-- The bytes of a result are those of a state and its input, and the count goes with them.
abbrev KeepsBytes : Parser → Bytes → Parser × Bytes → Type 0
KeepsBytes p bs r =
    (raw r.0 ++ r.1 ≡ raw p ++ bs)
    × (r.0.bytes_consumed + length r.1 ≡ p.bytes_consumed + length bs)

KeepsBytes-push :
    (c : ℕ) (cs : Bytes) (p : Parser) (r : Parser × Bytes)
    → KeepsBytes (push (c ∷ []) p) cs r
    → KeepsBytes p (c ∷ cs) r
KeepsBytes-push c cs p r (e, n) = (e ∙ append_assoc (raw p) (c ∷ []) cs, omega arith)

KeepsBytes-next_line :
    (bs : Bytes) (p : Parser) (r : Parser × Bytes)
    → KeepsBytes (next_line p) bs r
    → KeepsBytes p bs r
KeepsBytes-next_line bs p r (e, n) =
    (e ∙ ap (λ x. x ++ bs) (next_line-IsParser p).1, unfold next_line in n)

run-KeepsBytes : (quirks : Bool) (bs : Bytes) (p : Parser) → KeepsBytes p bs (run quirks bs p)
unfolding run
run-KeepsBytes quirks [] p = elim (Bool-cases (is_nil (current_line p))) [
  | inl e ↦ rw e (refl, refl)
  | inr e ↦ rw e (ap (λ x. x ++ []) (raw-split_line p.line_start p.map p.expect_status_line), refl)
]
run-KeepsBytes quirks (c ∷ cs) p =
    let p' = push (c ∷ []) p in
    KeepsBytes-push c cs p (run quirks (c ∷ cs) p) (elim (Bool-cases (completes quirks p c)) [
      | inr no_end ↦ rw no_end (run-KeepsBytes quirks cs p')
      | inl ended ↦ rw ended (elim (Bool-cases (is_last_line quirks (current_line p'))) [
        | inl closed ↦ rw closed (refl, refl)
        | inr going ↦ rw going (
            KeepsBytes-next_line cs p' (run quirks cs (next_line p'))
              (run-KeepsBytes quirks cs (next_line p')))
      ])
    ])

-- A success of `parse_with_opts`, from the map `h` and the reader's state `s`.
pub record Parsed (quirks status : Bool) (h : HeaderMap) (before : Bytes) (n : ℕ) (h' : HeaderMap)
    (after : Bytes) : Type 0 where
  -- The lines of the input up to the end of the block, one by one.
  pub reads : (view h', after) ≡ read_block quirks before [] status (kept_block status h)
  -- No offset leaves the raw block.
  pub valid : IsValid h'
  -- The raw block is what was kept and what was read, and the count is of what was read.
  pub bytes : h'.raw_header_block ++ after ≡ kept_bytes status h ++ before
  pub count : n + length after ≡ length before

module _ {S : Type 0} (reader : BufRead S) (content : S → Bytes) (laws : IsBufRead reader content)
    (fuel max : ℕ) (status quirks : Bool) (h : HeaderMap) (s : S) (ready : IsReady status h) where
  abbrev IsParsed : (Result ℕ × HeaderMap) × S → Type 0
  IsParsed ((ok n, h'), s') = Parsed quirks status h (content s) n h' (content s')
  IsParsed ((err e, h'), s') = Unit

  Returns-IsParsed :
      (r : (Result ℕ × Parser) × S)
      → Returns reader content laws quirks max (start status h) s r
      → IsParsed ((r.0.0, r.0.1.map), r.1)
  unfolding start
  Returns-IsParsed ((err e, q), s') _ = tt
  Returns-IsParsed ((ok n, q), s') (e, k) =
      let p = start status h in
      let (running, line, kept, block) = start-IsRunning status h ready in
      let (bytes, count) = run-KeepsBytes quirks (content s) p in
      record {
        reads =
            ap seen (sym e)
            ∙ run-view quirks (content s) p running
            ∙ (λ i. read_block quirks (content s) (line i) status (kept i));
        valid =
            rw (← ap (λ (x : Parser × Bytes). x.0) e) (run-IsValid quirks (content s) p running);
        bytes =
            ap (λ (x : Parser × Bytes). raw x.0 ++ x.1) (sym e)
            ∙ bytes
            ∙ ap (λ x. x ++ content s) block;
        count =
            omega (arith, count, ap (λ (x : Parser × Bytes). x.0.bytes_consumed + length x.1) e);
      }

  -- However the reader cuts its bytes into chunks, a success reads the block line by line from the
  -- reader's content and leaves the rest in the reader.
  pub parse_reads :
      (n : ℕ) (h' : HeaderMap) (s' : S)
      → parse_with_opts reader fuel status max quirks h s ≡ ((ok n, h'), s')
      → Parsed quirks status h (content s) n h' (content s')
  unfolding parse_with_opts
  parse_reads n h' s' e = subst IsParsed e (
      Returns-IsParsed (parse_loop reader quirks max fuel (start status h) s) (
        parse_loop-Returns reader content laws quirks max fuel (start status h) s
          (start-IsRunning status h ready).0.in_line))

  -- With a reader that does not fail, more fuel than bytes, and a limit of at least the bytes that the
  -- map keeps (a seeded status line) and twice the bytes of the content, the parser succeeds. A map
  -- that keeps bytes is valid, and they do not end in a CR.
  pub parse_succeeds :
      NeverFails reader
      → length (content s) < fuel
      → length (kept_bytes status h) + 2 * length (content s) ≤ max
      → (n : ℕ) × (h' : HeaderMap) × (s' : S) × (parse_with_opts reader fuel status max quirks h s
          ≡ ((ok n, h'), s'))
  unfolding parse_with_opts
  parse_succeeds calm enough limit =
      let (running, line, kept, block) = start-IsRunning status h ready in
      outcome (parse_loop reader quirks max fuel (start status h) s) (
        parse_loop-Succeeds reader content laws calm quirks max fuel (start status h) s
          (running.in_line, enough, omega (arith, ap length block)))
    where
      outcome :
          (r : (Result ℕ × Parser) × S)
          → Succeeds r
          → (n : ℕ) × (h' : HeaderMap) × (s' : S) × (◌≡◌ {A = (Result ℕ × HeaderMap) × S}
              ((r.0.0, r.0.1.map), r.1)
              ((ok n, h'), s'))
      outcome ((ok n, q), s') good = (n, q.map, s', refl)
      outcome ((err e, q), s') bad = absurd bad
