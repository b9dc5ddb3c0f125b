-- ===== src/Header/Write.antt =====
-- fastwarc-rs/src/warc/header.rs: `HeaderMap::write`.
pub mod Render
pub mod Total
pub mod Lines
pub mod Items
pub mod RoundTrip
use chatnoir_resiliparse.Prelude.{
  ℕ, ◌+◌, Bool, true, false, not, ◌&&◌, Option, none, some, List, [], ◌∷◌, ◌++◌, if◌then◌else◌,
  length,
}
use chatnoir_resiliparse.Bytes.{Bytes, is_empty}
use chatnoir_resiliparse.Io.{Io, ◌>>=◌, ◌>>◌, pure}
use chatnoir_resiliparse.Io as I
use chatnoir_resiliparse.Header.{
  HeaderMap, CowHeaderValue, CowHeaderTuple, as_slice, tuple_key, tuple_value,
}

abbrev pub crlf : Bytes
crlf = b'\r' ∷ b'\n' ∷ []

abbrev pub colon_space : Bytes
colon_space = b':' ∷ b' ' ∷ []

module _ {W : Type 0} (writer : I.Write W) where
  -- The status line, if there is one that is not empty. The result is the count of bytes.
  unfoldable pub write_status : Bytes → Option CowHeaderValue → Io W ℕ
  write_status raw none = pure 0
  write_status raw (some v) = if is_empty (as_slice raw v) then pure 0 else do
    writer.write_all (as_slice raw v)
    writer.write_all crlf
    pure (length (as_slice raw v) + 2)

  unfoldable pub write_key : Bytes → Io W ℕ
  write_key key =
      if is_empty key
      then pure 0
      else do writer.write_all key; writer.write_all colon_space; pure (length key + 2)

  -- `for header in &self.headers`, with the count so far.
  unfoldable pub write_headers : Bytes → List CowHeaderTuple → ℕ → Io W ℕ
  unfolding write_key
  write_headers raw [] n = pure n
  write_headers raw (t ∷ ts) n = do
    k ← write_key (tuple_key raw t)
    writer.write_all (tuple_value raw t)
    writer.write_all crlf
    write_headers raw ts (n + k + (length (tuple_value raw t) + 2))

  unfoldable pub write : HeaderMap → Io W ℕ
  unfolding write_status write_headers
  write h =
      if not h.dirty && not (is_empty h.raw_header_block)
      then (do writer.write_all h.raw_header_block; pure (length h.raw_header_block))
      else (do
        n ← write_status h.raw_header_block h.status_line
        m ← write_headers h.raw_header_block h.headers n
        writer.write_all crlf
        pure (m + 2))
