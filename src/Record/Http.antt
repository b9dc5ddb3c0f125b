-- ===== src/Record/Http.antt =====
-- fastwarc-rs/src/warc/record.rs: `parse_http_with_opts` and the decoders that it puts around the
-- payload.
pub mod Wrap
pub mod Head
pub mod Flags
use chatnoir_resiliparse.Prelude.{
  ℕ, zero, suc, ◌+◌, Bool, true, false, not, ◌&&◌, ◌||◌, Option, none, some, List, [], ◌∷◌, ◌++◌,
  ◌==◌, if◌then◌else◌, length, take, drop,
}
use chatnoir_resiliparse.Prelude.Int.{sub_u64}
use mathlib.Core.Option as O
use chatnoir_resiliparse.Bytes.{
  Bytes, codes, bytes_eq, trim_ascii, to_ascii_lowercase, starts_with, memchr, bump,
}
use chatnoir_resiliparse.Io.{Result, ok, err, other, Io}
use chatnoir_resiliparse.Io.ReadLoop.{read_to_end}
use chatnoir_resiliparse.Header.{HeaderMap, HeaderEncoding}
use chatnoir_resiliparse.Header as H
use chatnoir_resiliparse.Header.Map.{get_bytes}
use chatnoir_resiliparse.Header.Text.{Codec, get}
use chatnoir_resiliparse.Header.Parse.{parse_with_opts}
use chatnoir_resiliparse.StreamIo.{WarcRead}
use chatnoir_resiliparse.StreamIo.Limited.{LimitedBufReader, limited, set_limit}
use chatnoir_resiliparse.StreamIo.Limited as L
use chatnoir_resiliparse.Record.{WarcRecord, ReaderType, inner_reader, put_reader}
use chatnoir_resiliparse.Record.Names.{WarcHeader, header_name}
use chatnoir_resiliparse.Record.Boxes.{Boxes, Decoder}
use chatnoir_resiliparse.Record.Payload.{cursor_reader}

pub data AutoDecode : Type 0 where
  no_decode transfer_encoding content_encoding both : AutoDecode

abbrev pub decodes_transfer : AutoDecode → Bool
decodes_transfer AutoDecode.both = true
decodes_transfer AutoDecode.transfer_encoding = true
decodes_transfer _ = false

abbrev pub decodes_content : AutoDecode → Bool
decodes_content AutoDecode.both = true
decodes_content AutoDecode.content_encoding = true
decodes_content _ = false

-- `split(|c| *c == b)`, which gives one part at least: the part begun, and the others.
abbrev onto_head : ℕ → List Bytes → List Bytes
onto_head c [] = (c ∷ []) ∷ []
onto_head c (p ∷ ps) = (c ∷ p) ∷ ps

unfoldable pub split_on : ℕ → Bytes → List Bytes
split_on b [] = [] ∷ []
split_on b (c ∷ cs) = let parts = split_on b cs in if c == b then [] ∷ parts else onto_head c parts

abbrev pub first_part : ℕ → Bytes → Bytes
first_part b v = elim (memchr b v) [ none ↦ v | some i ↦ take i v ]

-- `str::find`.
unfoldable pub find_text : Bytes → Bytes → Option ℕ
find_text pat [] = if starts_with [] pat then some 0 else none
find_text pat (c ∷ cs) =
    let rest = find_text pat cs in if starts_with (c ∷ cs) pat then some 0 else bump rest

-- The charset of a Content-Type.
unfoldable pub charset_of : Bytes → Option Bytes
unfolding find_text
charset_of content_type =
    let v = to_ascii_lowercase content_type in
    let key = codes "charset=" in
    O.map (λ at. trim_ascii (first_part b';' (drop (at + length key) v))) (find_text key v)

-- What an encoding asks for: a decoder, nothing, or what is not supported.
pub data Coding : Type 0 where
  with_decoder : Decoder → Coding
  identity unsupported_coding : Coding

unfoldable pub coding_of : Bool → Bytes → Coding
coding_of transfer enc =
    if bytes_eq enc (codes "gzip")
    then Coding.with_decoder Decoder.gzip
    else if bytes_eq enc (codes "deflate")
    then Coding.with_decoder Decoder.deflate
    else if bytes_eq enc (codes "br")
    then Coding.with_decoder Decoder.brotli
    else if bytes_eq enc (codes "zstd")
    then Coding.with_decoder Decoder.zstd
    else if bytes_eq enc (codes "chunked") && transfer
    then Coding.with_decoder Decoder.chunked
    else if bytes_eq enc (codes "identity") || bytes_eq enc []
    then Coding.identity
    else Coding.unsupported_coding

abbrev reverse_onto : List Bytes → List Bytes → List Bytes
reverse_onto [] acc = acc
reverse_onto (x ∷ xs) acc = reverse_onto xs (x ∷ acc)

abbrev map_codings : Bool → List Bytes → List Coding
map_codings transfer [] = []
map_codings transfer (e ∷ es) =
    coding_of transfer (to_ascii_lowercase (trim_ascii e)) ∷ map_codings transfer es

-- The encodings of a header, the last one first.
unfoldable pub codings_of : Bool → Bytes → List Coding
unfolding split_on
codings_of transfer encoding = map_codings transfer (reverse_onto (split_on b',' encoding) [])

module _ {S : Type 0} (reader : WarcRead S) (boxes : Boxes S) (codec : Codec) (len fuel : ℕ) where
  unfoldable pub wrap_in : List Coding → S → Result S
  wrap_in [] s = ok s
  wrap_in (Coding.with_decoder d ∷ cs) s = wrap_in cs (boxes.decode d s)
  wrap_in (Coding.identity ∷ cs) s = wrap_in cs s
  wrap_in (Coding.unsupported_coding ∷ cs) s = err other

  -- A frozen record holds what the decoders give; an error drops the reader.
  abbrev pub hold_decoded :
      Option (LimitedBufReader S)
      → WarcRecord S
      → Result (Unit {0}) × (S × Bytes)
      → Result (Unit {0}) × WarcRecord S
  hold_decoded o rec (err e, (s, buf)) = (err e, record rec { reader = none })
  hold_decoded o rec (ok u, (s, buf)) = (
    ok tt,
    record rec {
      content_length = length buf;
      reader = some (ReaderType.frozen (cursor_reader reader boxes len fuel buf) o);
    },
  )

  abbrev pub on_wrapped : ReaderType S → WarcRecord S → Result S → Result (Unit {0}) × WarcRecord S
  on_wrapped t rec (err e) = (err e, record rec { reader = none })
  on_wrapped (ReaderType.frozen r o) rec (ok s) =
      hold_decoded o rec (read_to_end reader.read (suc len) fuel (s, []))
  on_wrapped (ReaderType.original r) rec (ok s) =
      (ok tt, record rec { reader = some (ReaderType.wrapped (L.new reader s none)) })
  on_wrapped (ReaderType.wrapped r) rec (ok s) =
      (ok tt, record rec { reader = some (ReaderType.wrapped (L.new reader s none)) })

  abbrev pub wrap_reader : Bytes → Bool → Option (ReaderType S) → Io (WarcRecord S) (Unit {0})
  wrap_reader encoding transfer none rec = (err other, rec)
  wrap_reader encoding transfer (some t) rec =
      on_wrapped t rec (wrap_in (codings_of transfer encoding) (boxes.boxed (inner_reader t)))

  unfoldable pub wrap_reader_in_payload_decoders : Bytes → Bool → Io (WarcRecord S) (Unit {0})
  wrap_reader_in_payload_decoders encoding transfer rec =
      wrap_reader encoding transfer rec.reader rec

  -- The decoders of one header, where it is there and wanted. The code passes `transfer` as true for
  -- both headers.
  abbrev pub decode_if : Bool → Option Bytes → Io (WarcRecord S) (Unit {0})
  decode_if false o rec = (ok tt, rec)
  decode_if true none rec = (ok tt, rec)
  decode_if true (some enc) rec = wrap_reader_in_payload_decoders enc true rec

  abbrev pub store_headers :
      HeaderMap → Result (Unit {0}) × WarcRecord S → Result (Unit {0}) × WarcRecord S
  store_headers h (err e, rec) = (err e, rec)
  store_headers h (ok u, rec) = (ok tt, record rec { http_headers = some h })

  abbrev pub then_content :
      AutoDecode → HeaderMap → Result (Unit {0}) × WarcRecord S → Result (Unit {0}) × WarcRecord S
  then_content auto h (err e, rec) = (err e, rec)
  then_content auto h (ok u, rec) =
      decode_if (decodes_content auto) (get_bytes (codes "Content-Encoding") h) rec

  unfoldable pub decode_payload : AutoDecode → HeaderMap → Io (WarcRecord S) (Unit {0})
  decode_payload auto h rec = store_headers h (
      then_content auto h
        (decode_if (decodes_transfer auto) (get_bytes (codes "Transfer-Encoding") h) rec))

  abbrev or_charset : Option Bytes → Option Bytes → Option Bytes
  or_charset none old = old
  or_charset (some c) old = some c

  abbrev charset : HeaderMap → Option Bytes
  charset h = elim (get codec (codes (header_name WarcHeader.content_type)) h) [
    | none ↦ none
    | some content_type ↦ charset_of content_type
  ]

  -- The record behind its HTTP headers.
  unfoldable pub skip_headers :
      ReaderType S → ℕ → HeaderMap → LimitedBufReader S → WarcRecord S → WarcRecord S
  skip_headers t n h r rec =
      let rest = sub_u64 rec.content_length n in
      record rec {
        http_charset = or_charset (charset h) rec.http_charset;
        content_length = rest;
        reader = some (put_reader (set_limit rest r) t);
        http_parsed = true;
      }

  unfoldable pub on_http_block :
      AutoDecode
      → ReaderType S
      → WarcRecord S
      → (Result ℕ × HeaderMap) × LimitedBufReader S
      → Result (Unit {0}) × WarcRecord S
  unfolding skip_headers decode_payload
  on_http_block auto t rec ((err e, h), r) = (err e, record rec { reader = some (put_reader r t) })
  on_http_block auto t rec ((ok n, h), r) = decode_payload auto h (skip_headers t n h r rec)

  abbrev pub parse_http_from :
      AutoDecode → ℕ → Bool → Option (ReaderType S) → Io (WarcRecord S) (Unit {0})
  parse_http_from auto max quirks none rec = (err other, rec)
  parse_http_from auto max quirks (some t) rec = on_http_block auto t rec (
      parse_with_opts (limited reader).buffered fuel true max quirks (H.new HeaderEncoding.latin1)
        (inner_reader t))

  unfoldable pub parse_http_with_opts : AutoDecode → ℕ → Bool → Io (WarcRecord S) (Unit {0})
  parse_http_with_opts auto max quirks rec =
      if rec.http_parsed || not rec.is_http
      then (ok tt, rec)
      else parse_http_from auto max quirks rec.reader rec
