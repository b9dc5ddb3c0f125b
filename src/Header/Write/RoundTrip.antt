-- ===== src/Header/Write/RoundTrip.antt =====
-- A written header block, parsed again.
use mathlib.Core.Bool.{false≢true}
use chatnoir_resiliparse.Prelude.{
  ℕ, ◌*◌, ◌<◌, ◌≤◌, ◌≡◌, refl, sym, ap, ◌∙◌, Bool, true, false, Option, none, some, List, [], ◌∷◌,
  ◌++◌, length, length-append, append_assoc, append-nil, arith, drop, drop-length,
}
use chatnoir_resiliparse.Bytes.{Bytes, is_empty}
use chatnoir_resiliparse.Io.{ok, BufRead}
use chatnoir_resiliparse.Io as I
use chatnoir_resiliparse.Io.Laws.{IsBufRead, NeverFails, IsWrite}
use chatnoir_resiliparse.Header.{HeaderMap, HeaderEncoding, new}
use chatnoir_resiliparse.Header.Correct.{empty_block, kept_block, parse_reads, parse_succeeds}
use chatnoir_resiliparse.Header.Parse.{parse_with_opts, preserve_prefix}
use chatnoir_resiliparse.Header.View.{Block, view, add_line, read_block}
use chatnoir_resiliparse.Header.Write.{crlf, write}
use chatnoir_resiliparse.Header.Write.Lines.{
  read_line, read_end, IsTrimmed-IsSolid, IsSolid-not_last, trim-crlf,
}
use chatnoir_resiliparse.Header.Write.Items.{
  IsPlain, AllItems, IsStatus, IsWritable, has_status, read_header_line,
}
use chatnoir_resiliparse.Header.Write.Render.{
  render_status, render_key, render_items, render, rendered, write_renders,
}

read_items :
    (quirks : Bool) (ts : List (Bytes × Bytes)) (rest : Bytes) (b : Block)
    → AllItems ts
    → read_block quirks (render_items ts ++ (crlf ++ rest)) [] false b
      ≡ (record b { items = b.items ++ ts }, rest)
unfolding render_items
read_items quirks [] rest b h = read_end quirks rest false b ∙ λ i.
    (record { status = b.status; items = sym (append-nil b.items) i }, rest)
read_items quirks ((k, v) ∷ ts) rest b (it, h) =
    let later = render_items ts in
    let b' = record b { items = b.items ++ ((k, v) ∷ []) } in
    ap (λ x. read_block quirks x [] false b)
      (append_assoc (render_key k) (v ++ (crlf ++ later)) (crlf ++ rest)
        ∙ ap (λ x. render_key k ++ x) (append_assoc v (crlf ++ later) (crlf ++ rest)))
    ∙ read_header_line quirks k v (later ++ (crlf ++ rest)) b it
    ∙ read_items quirks ts rest b' h
    ∙ λ i. (record { status = b.status; items = append_assoc b.items ((k, v) ∷ []) ts i }, rest)

-- The status line of the text.
read_status :
    (quirks : Bool) (s rest : Bytes) (b : Block)
    → is_empty s ≡ false
    → IsPlain s
    → read_block quirks (s ++ (crlf ++ rest)) [] true b
      ≡ read_block quirks rest [] false (record b { status = some s })
unfolding add_line
read_status quirks s rest b e h =
    read_line quirks s rest true b h.one_line
    ∙ rw (IsSolid-not_last quirks s (IsTrimmed-IsSolid s h.trimmed e)) (
        ap (λ (x : Bytes). read_block quirks rest [] false (record b { status = some x }))
          (trim-crlf s h.trimmed))

-- Whatever follows it, the text of a block reads back as that block.
pub read-render :
    (quirks : Bool) (b : Block) (rest : Bytes)
    → IsWritable b
    → read_block quirks (render b ++ rest) [] (has_status b) empty_block ≡ (b, rest)
unfolding render render_status
read-render quirks b rest w = go b.status w.status_plain
  where
    text : (r i : Bytes) → (r ++ (i ++ crlf)) ++ rest ≡ r ++ (i ++ (crlf ++ rest))
    text r i = append_assoc r (i ++ crlf) rest ∙ ap (λ x. r ++ x) (append_assoc i crlf rest)

    go :
        (o : Option Bytes)
        → IsStatus o
        → read_block quirks
            ((render_status o ++ (render_items b.items ++ crlf)) ++ rest)
            []
            (has_status (record { status = o; items = b.items }))
            empty_block
          ≡ (record { status = o; items = b.items }, rest)
    go none _ =
        ap (λ x. read_block quirks x [] false empty_block) (text [] (render_items b.items))
        ∙ read_items quirks b.items rest empty_block w.items_plain
    go (some s) (e, h) =
        let i = render_items b.items in
        rw e (
          ap (λ x. read_block quirks x [] true empty_block)
            (text (s ++ crlf) i ∙ append_assoc s crlf (i ++ (crlf ++ rest)))
          ∙ read_status quirks s (i ++ (crlf ++ rest)) empty_block e h
          ∙ read_items quirks b.items rest (record { status = some s; items = [] }) w.items_plain)

rendered_dirty : (h : HeaderMap) → h.dirty ≡ true → rendered h ≡ render (view h)
unfolding rendered
rendered_dirty h d = rw d refl

new_fresh : (status : Bool) (e : HeaderEncoding) → preserve_prefix status (new e) ≡ false
unfolding preserve_prefix
new_fresh status e = ground arith

module _ {S : Type 0} (reader : BufRead S) (content : S → Bytes) (laws : IsBufRead reader content)
    (calm : NeverFails reader) (fuel max : ℕ) (quirks : Bool) (e : HeaderEncoding) where
  -- The text of a changed map is parsed into a map with the same view.
  parse-rendered :
      (h : HeaderMap) (rest : Bytes) (s : S)
      → IsWritable (view h)
      → h.dirty ≡ true
      → content s ≡ rendered h ++ rest
      → length (content s) < fuel
      → 2 * length (content s) ≤ max
      → (n : ℕ) × (h' : HeaderMap) × (s' : S) × (parse_with_opts reader fuel
            (has_status (view h))
            max
            quirks
            (new e)
            s
          ≡ ((ok n, h'), s'))
        × (view h' ≡ view h)
        × (content s' ≡ rest)
        × (n ≡ length (rendered h))
  parse-rendered h rest s w dirty text enough limit =
      let status = has_status (view h) in
      let fresh = new_fresh status e in
      let ready =
        λ (keep : preserve_prefix status (new e) ≡ true). absurd (false≢true (sym fresh ∙ keep)) in
      let (n, h', s', parsed) =
        parse_succeeds reader content laws fuel max status quirks (new e) s ready calm enough
          (rw fresh (omega arith)) in
      let p =
        parse_reads reader content laws fuel max status quirks (new e) s ready n h' s' parsed in
      let blank : kept_block status (new e) ≡ empty_block = rw fresh refl in
      let written = text ∙ ap (λ x. x ++ rest) (rendered_dirty h dirty) in
      let both =
        p.reads
        ∙ (λ i. read_block quirks (written i) [] status (blank i))
        ∙ read-render quirks (view h) rest w in
      let left = ap (λ (x : Block × Bytes). x.1) both in
      (
        n,
        h',
        s',
        parsed,
        ap (λ (x : Block × Bytes). x.0) both,
        left,
        omega (arith, p.count, ap length left, ap length text, length-append (rendered h) rest),
      )

  -- A changed map whose block is writable is written with success, by a writer that appends what it
  -- is given. A reader that does not fail, on what was appended with anything behind it, is parsed
  -- into a map with the same status line and the same headers in order, and left at what follows; the
  -- count of the parser is that of the writer. The reader may cut the bytes into any chunks, the fuel
  -- is more than its bytes, and the limit at least twice as many.
  pub parse-write :
      {W : Type 0} (writer : I.Write W) (emitted : W → Bytes)
      → IsWrite writer emitted
      → (h : HeaderMap) (k : ℕ) (w w' : W) (rest : Bytes) (s : S) → IsWritable (view h)
      → h.dirty ≡ true
      → write writer h w ≡ (ok k, w')
      → emitted w' ++ rest ≡ emitted w ++ content s
      → length (content s) < fuel
      → 2 * length (content s) ≤ max
      → (h' : HeaderMap) × (s' : S) × (parse_with_opts reader fuel
            (has_status (view h))
            max
            quirks
            (new e)
            s
          ≡ ((ok k, h'), s'))
        × (view h' ≡ view h)
        × (content s' ≡ rest)
  parse-write writer emitted out h k w w' rest s plain dirty written stored enough limit =
      let (appended, count) = write_renders writer emitted out h k w w' written in
      let begin = emitted w in
      let whole : begin ++ content s ≡ begin ++ (rendered h ++ rest) =
        sym stored ∙ ap (λ v. v ++ rest) appended ∙ append_assoc begin (rendered h) rest in
      let text : content s ≡ rendered h ++ rest =
        sym (drop-length begin (content s))
        ∙ ap (drop (length begin)) whole
        ∙ drop-length begin (rendered h ++ rest) in
      let (n, h', s', parsed, same, left, size) =
        parse-rendered h rest s plain dirty text enough limit in
      (h', s', parsed ∙ ap (λ j. ((ok j, h'), s')) (size ∙ count), same, left)
