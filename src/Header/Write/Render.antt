-- ===== src/Header/Write/Render.antt =====
-- `HeaderMap::write` against a rendering of the view.
use mathlib.Core.List.{map}
use mathlib.Core.Option as O
use chatnoir_resiliparse.Prelude.{
  ℕ, ◌+◌, ◌≡◌, refl, sym, not, ◌&&◌, Option, none, some, List, [], ◌∷◌, ◌++◌, if◌then◌else◌, length,
  length-append, append-nil, Bool-cases, inl, inr, arith,
}
use chatnoir_resiliparse.Bytes.{Bytes, is_empty}
use chatnoir_resiliparse.Io.{Io, ok, pure, ◌>>=◌}
use chatnoir_resiliparse.Io as I
use chatnoir_resiliparse.Io.Laws.{IsWrite}
use chatnoir_resiliparse.Io.Writes.{Writes, Writes-pure, Writes-all, Writes-bind, Writes-cast}
use chatnoir_resiliparse.Header.{
  HeaderMap, CowHeaderValue, CowHeaderTuple, as_slice, tuple_key, tuple_value,
}
use chatnoir_resiliparse.Header.Map.{status_line_bytes, items_bytes}
use chatnoir_resiliparse.Header.View.{Block, view}
use chatnoir_resiliparse.Header.View.Offsets.{item}
use chatnoir_resiliparse.Header.Write.{
  crlf, colon_space, write_status, write_key, write_headers, write,
}

unfoldable pub render_status : Option Bytes → Bytes
render_status none = []
render_status (some s) = if is_empty s then [] else s ++ crlf

unfoldable pub render_key : Bytes → Bytes
render_key k = if is_empty k then [] else k ++ colon_space

unfoldable pub render_items : List (Bytes × Bytes) → Bytes
unfolding render_key
render_items [] = []
render_items ((k, v) ∷ ts) = render_key k ++ (v ++ (crlf ++ render_items ts))

-- The status line, one line for each header, and an empty line.
unfoldable pub render : Block → Bytes
unfolding render_status render_items
render b = render_status b.status ++ (render_items b.items ++ crlf)

-- A map that has not been changed since it was parsed is written as it was read.
unfoldable pub rendered : HeaderMap → Bytes
rendered h =
    if not h.dirty && not (is_empty h.raw_header_block) then h.raw_header_block else render (view h)

module _ {W : Type 0} (writer : I.Write W) (emitted : W → Bytes)
    (laws : IsWrite writer emitted) where
  write_key-Writes :
      (k : Bytes)
      → Writes writer emitted laws (write_key writer k) (render_key k) (length (render_key k))
  unfolding write_key render_key
  write_key-Writes k = elim (Bool-cases (is_empty k)) [
    | inl e ↦ rw e (Writes-pure writer emitted laws 0)
    | inr e ↦ rw e (
        Writes-cast writer emitted laws
          (Writes-bind writer emitted laws _ k (colon_space ++ []) tt (length k + 2)
            (Writes-all writer emitted laws k)
            (Writes-bind writer emitted laws _ colon_space [] tt (length k + 2)
              (Writes-all writer emitted laws colon_space)
              (Writes-pure writer emitted laws (length k + 2))))
          refl (sym (length-append k colon_space)))
  ]

  write_status-Writes :
      (raw : Bytes) (s : Option CowHeaderValue)
      → Writes writer emitted laws
          (write_status writer raw s)
          (render_status (O.map (as_slice raw) s))
          (length (render_status (O.map (as_slice raw) s)))
  unfolding write_status render_status
  write_status-Writes raw none = Writes-pure writer emitted laws 0
  write_status-Writes raw (some v) = elim (Bool-cases (is_empty (as_slice raw v))) [
    | inl e ↦ rw e (Writes-pure writer emitted laws 0)
    | inr e ↦ rw e (
        let s = as_slice raw v in
        Writes-cast writer emitted laws
          (Writes-bind writer emitted laws _ s (crlf ++ []) tt (length s + 2)
            (Writes-all writer emitted laws s)
            (Writes-bind writer emitted laws _ crlf [] tt (length s + 2)
              (Writes-all writer emitted laws crlf)
              (Writes-pure writer emitted laws (length s + 2))))
          refl (sym (length-append s crlf)))
  ]

  write_headers-Writes :
      (raw : Bytes) (ts : List CowHeaderTuple) (n : ℕ)
      → Writes writer emitted laws
          (write_headers writer raw ts n)
          (render_items (map (item raw) ts))
          (n + length (render_items (map (item raw) ts)))
  unfolding write_headers render_items
  write_headers-Writes raw [] n =
      Writes-cast writer emitted laws (Writes-pure writer emitted laws n) refl (omega arith)
  write_headers-Writes raw (t ∷ ts) n =
      let k = render_key (tuple_key raw t) in
      let v = tuple_value raw t in
      let m = n + length k + (length v + 2) in
      let later = render_items (map (item raw) ts) in
      Writes-cast writer emitted laws
        (Writes-bind writer emitted laws _ k (v ++ (crlf ++ later)) (length k) (m + length later)
          (write_key-Writes (tuple_key raw t))
          (Writes-bind writer emitted laws _ v (crlf ++ later) tt (m + length later)
            (Writes-all writer emitted laws v)
            (Writes-bind writer emitted laws _ crlf later tt (m + length later)
              (Writes-all writer emitted laws crlf) (write_headers-Writes raw ts m))))
        refl
        (omega (arith, length-append k (v ++ (crlf ++ later)), length-append v (crlf ++ later)))

  pub write-Writes :
      (h : HeaderMap)
      → Writes writer emitted laws (write writer h) (rendered h) (length (rendered h))
  unfolding write rendered render view status_line_bytes items_bytes
  write-Writes h =
      let raw = h.raw_header_block in
      let s = render_status (O.map (as_slice raw) h.status_line) in
      let i = render_items (map (item raw) h.headers) in
      elim (Bool-cases (not h.dirty && not (is_empty raw))) [
        | inl same ↦ rw same (
            Writes-cast writer emitted laws
              (Writes-bind writer emitted laws _ raw [] tt (length raw)
                (Writes-all writer emitted laws raw) (Writes-pure writer emitted laws (length raw)))
              (append-nil raw) refl)
        | inr changed ↦ rw changed (
            Writes-cast writer emitted laws
              (Writes-bind writer emitted laws _ s (i ++ (crlf ++ [])) (length s)
                (length s + length i + 2) (write_status-Writes raw h.status_line)
                (Writes-bind writer emitted laws _ i (crlf ++ []) (length s + length i)
                  (length s + length i + 2) (write_headers-Writes raw h.headers (length s))
                  (Writes-bind writer emitted laws _ crlf [] tt (length s + length i + 2)
                    (Writes-all writer emitted laws crlf)
                    (Writes-pure writer emitted laws (length s + length i + 2)))))
              refl (omega (arith, length-append s (i ++ crlf), length-append i crlf)))
      ]

  -- A success of `write` has written the rendering of the map, and returns its length.
  pub write_renders :
      (h : HeaderMap) (n : ℕ) (w w' : W)
      → write writer h w ≡ (ok n, w')
      → (emitted w' ≡ emitted w ++ rendered h) × (length (rendered h) ≡ n)
  write_renders h n w w' e =
      let (out, value) = (write-Writes h).when_ok w w' n e in (out, sym value)
