-- ===== src/Record/Http/Flags.antt =====
-- A record whose HTTP headers have been parsed says so.
use chatnoir_resiliparse.Prelude.{
  ℕ, suc, ◌≡◌, refl, sym, ap, ◌∙◌, Bool, true, false, not, ◌||◌, Option, none, some, [],
  if◌then◌else◌,
}
use chatnoir_resiliparse.Bytes.{Bytes, codes}
use chatnoir_resiliparse.Io.{Result, ok, err}
use chatnoir_resiliparse.Io.ReadLoop.{read_to_end}
use chatnoir_resiliparse.Header.{HeaderMap, HeaderEncoding}
use chatnoir_resiliparse.Header as H
use chatnoir_resiliparse.Header.Map.{get_bytes}
use chatnoir_resiliparse.Header.Text.{Codec}
use chatnoir_resiliparse.Header.Parse.{parse_with_opts}
use chatnoir_resiliparse.StreamIo.{WarcRead}
use chatnoir_resiliparse.StreamIo.Limited.{LimitedBufReader, limited}
use chatnoir_resiliparse.Record.{WarcRecord, ReaderType, inner_reader}
use chatnoir_resiliparse.Record.Boxes.{Boxes}
use chatnoir_resiliparse.Record.Http.{
  AutoDecode, decodes_transfer, decodes_content, codings_of, wrap_in, on_wrapped, hold_decoded,
  wrap_reader, wrap_reader_in_payload_decoders, decode_if, then_content, store_headers,
  decode_payload, skip_headers, on_http_block, parse_http_from, parse_http_with_opts,
}

module _ {S : Type 0} (reader : WarcRead S) (boxes : Boxes S) (codec : Codec) (len fuel : ℕ) where
  held-parsed :
      (o : Option (LimitedBufReader S)) (rec : WarcRecord S) (x : Result (Unit {0}) × (S × Bytes))
      → (hold_decoded reader boxes codec len fuel o rec x).1.http_parsed ≡ rec.http_parsed
  held-parsed o rec (err e, (s, v)) = refl
  held-parsed o rec (ok u, (s, v)) = refl

  wrapped-parsed :
      (t : ReaderType S) (rec : WarcRecord S) (x : Result S)
      → (on_wrapped reader boxes codec len fuel t rec x).1.http_parsed ≡ rec.http_parsed
  wrapped-parsed t rec (err e) = refl
  wrapped-parsed (ReaderType.original r) rec (ok s) = refl
  wrapped-parsed (ReaderType.wrapped r) rec (ok s) = refl
  wrapped-parsed (ReaderType.frozen r o) rec (ok s) =
      held-parsed o rec (read_to_end reader.read (suc len) fuel (s, []))

  decode_if-parsed :
      (b : Bool) (o : Option Bytes) (rec : WarcRecord S)
      → (decode_if reader boxes codec len fuel b o rec).1.http_parsed ≡ rec.http_parsed
  unfolding wrap_reader_in_payload_decoders
  decode_if-parsed false o rec = refl
  decode_if-parsed true none rec = refl
  decode_if-parsed true (some enc) rec = go rec.reader
    where
      go :
          (o : Option (ReaderType S))
          → (wrap_reader reader boxes codec len fuel enc true o rec).1.http_parsed ≡ rec.http_parsed
      go none = refl
      go (some t) =
          wrapped-parsed t rec (
            wrap_in reader boxes codec len fuel (codings_of true enc)
              (boxes.boxed (inner_reader t)))

  decode_payload-parsed :
      (auto : AutoDecode) (h : HeaderMap) (rec : WarcRecord S)
      → (decode_payload reader boxes codec len fuel auto h rec).1.http_parsed ≡ rec.http_parsed
  unfolding decode_payload
  decode_payload-parsed auto h rec =
      let first =
        decode_if reader boxes codec len fuel (decodes_transfer auto)
          (get_bytes (codes "Transfer-Encoding") h) rec in
      stored (then_content reader boxes codec len fuel auto h first)
      ∙ content first
      ∙ decode_if-parsed (decodes_transfer auto) (get_bytes (codes "Transfer-Encoding") h) rec
    where
      stored :
          (x : Result (Unit {0}) × WarcRecord S)
          → (store_headers reader boxes codec len fuel h x).1.http_parsed ≡ x.1.http_parsed
      stored (err e, r) = refl
      stored (ok u, r) = refl

      content :
          (x : Result (Unit {0}) × WarcRecord S)
          → (then_content reader boxes codec len fuel auto h x).1.http_parsed ≡ x.1.http_parsed
      content (err e, r) = refl
      content (ok u, r) =
          decode_if-parsed (decodes_content auto) (get_bytes (codes "Content-Encoding") h) r

  -- Where parse_http_with_opts succeeds on an HTTP record, the headers of the record have been parsed.
  pub parse_http-parsed :
      (auto : AutoDecode) (max : ℕ) (quirks : Bool) (rec rec' : WarcRecord S)
      → parse_http_with_opts reader boxes codec len fuel auto max quirks rec ≡ (ok tt, rec')
      → rec'.is_http ≡ true
      → rec'.http_parsed ≡ true
  unfolding parse_http_with_opts on_http_block decode_payload skip_headers
  parse_http-parsed auto max quirks rec rec' e http = go rec.http_parsed rec.is_http refl refl e
    where
      block :
          (t : ReaderType S) (x : (Result ℕ × HeaderMap) × LimitedBufReader S)
          → on_http_block reader boxes codec len fuel auto t rec x ≡ (ok tt, rec')
          → rec'.http_parsed ≡ true
      block t ((err f, h), r) e = cc
      block t ((ok n, h), r) e =
          ap (λ (y : Result (Unit {0}) × WarcRecord S). y.1.http_parsed) (sym e)
          ∙ decode_payload-parsed auto h (skip_headers reader boxes codec len fuel t n h r rec)

      from :
          (o : Option (ReaderType S))
          → parse_http_from reader boxes codec len fuel auto max quirks o rec ≡ (ok tt, rec')
          → rec'.http_parsed ≡ true
      from none e = cc
      from (some t) e =
          block t
            (parse_with_opts (limited reader).buffered fuel true max quirks
              (H.new HeaderEncoding.latin1) (inner_reader t))
            e

      go :
          (p h : Bool)
          → rec.http_parsed ≡ p
          → rec.is_http ≡ h
          → (if p || not h
              then (ok tt, rec)
              else parse_http_from reader boxes codec len fuel auto max quirks rec.reader rec)
            ≡ (ok tt, rec')
          → rec'.http_parsed ≡ true
      go true h i j e =
          let same : rec ≡ rec' = cc in ap (λ (r : WarcRecord S). r.http_parsed) (sym same) ∙ i
      go false false i j e =
          let same : rec ≡ rec' = cc in
          let no : rec'.is_http ≡ false = ap (λ (r : WarcRecord S). r.is_http) (sym same) ∙ j in cc
      go false true i j e = from rec.reader e
