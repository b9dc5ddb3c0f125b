-- ===== src/Header/Write/Total.antt =====
-- Writing a header map to a writer that does not fail does not fail.
use chatnoir_resiliparse.Prelude.{
  ℕ, ◌+◌, ◌≡◌, refl, ap, ◌∙◌, Bool, true, false, not, ◌&&◌, Option, none, some, List, [], ◌∷◌,
  if◌then◌else◌, length,
}
use chatnoir_resiliparse.Bytes.{Bytes, is_empty}
use chatnoir_resiliparse.Io.{Result, ok, err, Io, ◌>>=◌, continue, pure}
use chatnoir_resiliparse.Io as I
use chatnoir_resiliparse.Header.{
  HeaderMap, CowHeaderValue, CowHeaderTuple, as_slice, tuple_key, tuple_value,
}
use chatnoir_resiliparse.Header.Write.{
  crlf, colon_space, write_status, write_key, write_headers, write,
}

-- An action that always succeeds.
abbrev pub Always : {W A : Type 0} → Io W A → Type 0
Always {W} {A} m = (w : W) → (a : A) × (w' : W) × (m w ≡ (ok a, w'))

pub Always-pure : {W A : Type 0} (a : A) → Always {W = W} (pure a)
Always-pure a w = (a, w, refl)

pub Always-bind :
    {W A B : Type 0} (m : Io W A) (f : A → Io W B)
    → Always m
    → ((a : A) → Always (f a))
    → Always (m >>= f)
Always-bind m f p q w =
    let (a, w', e) = p w in let (b, w'', e') = q a w' in (b, w'', ap (continue f) e ∙ e')

Always-if :
    {W A : Type 0} (b : Bool) (m n : Io W A) → Always m → Always n → Always (if b then m else n)
Always-if true m n p q = p
Always-if false m n p q = q

module _ {W : Type 0} (writer : I.Write W) (calm : (b : Bytes) → Always (writer.write_all b)) where
  status-Always : (raw : Bytes) (s : Option CowHeaderValue) → Always (write_status writer raw s)
  unfolding write_status
  status-Always raw none = Always-pure 0
  status-Always raw (some v) = Always-if (is_empty (as_slice raw v)) _ _ (Always-pure 0) (
      Always-bind (writer.write_all (as_slice raw v)) _ (calm (as_slice raw v)) (λ u.
        Always-bind (writer.write_all crlf) _ (calm crlf)
          (λ u. Always-pure (length (as_slice raw v) + 2))))

  key-Always : (k : Bytes) → Always (write_key writer k)
  unfolding write_key
  key-Always k = Always-if (is_empty k) _ _ (Always-pure 0) (
      Always-bind (writer.write_all k) _ (calm k) (λ u.
        Always-bind (writer.write_all colon_space) _ (calm colon_space)
          (λ u. Always-pure (length k + 2))))

  headers-Always :
      (raw : Bytes) (ts : List CowHeaderTuple) (n : ℕ) → Always (write_headers writer raw ts n)
  unfolding write_headers
  headers-Always raw [] n = Always-pure n
  headers-Always raw (t ∷ ts) n =
      Always-bind (write_key writer (tuple_key raw t)) _ (key-Always (tuple_key raw t)) (λ k.
        Always-bind (writer.write_all (tuple_value raw t)) _ (calm (tuple_value raw t)) (λ u.
          Always-bind (writer.write_all crlf) _ (calm crlf)
            (λ u. headers-Always raw ts (n + k + (length (tuple_value raw t) + 2)))))

  pub write-Always : (h : HeaderMap) → Always (write writer h)
  unfolding write
  write-Always h =
      Always-if (not h.dirty && not (is_empty h.raw_header_block)) _ _
        (Always-bind (writer.write_all h.raw_header_block) _ (calm h.raw_header_block)
          (λ u. Always-pure (length h.raw_header_block)))
        (Always-bind (write_status writer h.raw_header_block h.status_line) _
          (status-Always h.raw_header_block h.status_line)
          (λ n.
            Always-bind (write_headers writer h.raw_header_block h.headers n) _
              (headers-Always h.raw_header_block h.headers n)
              (λ m. Always-bind (writer.write_all crlf) _ (calm crlf) (λ u. Always-pure (m + 2)))))
