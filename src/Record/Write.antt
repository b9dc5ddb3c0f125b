-- ===== src/Record/Write.antt =====
-- fastwarc-rs/src/warc/record.rs: `write_with_block_size_checksum`.
pub mod Emits
pub mod Length
pub mod Total
use chatnoir_resiliparse.Prelude.{
  ℕ, zero, suc, ◌+◌, Bool, true, false, Option, none, some, [], ◌∷◌, ◌++◌, if◌then◌else◌, length,
}
use mathlib.Core.Option as O
use chatnoir_resiliparse.Prelude.Int.{add_u64}
use chatnoir_resiliparse.Bytes.{Bytes, codes, bytes_eq}
use chatnoir_resiliparse.Io.{Result, ok, err, other, Io, ◌>>=◌, pure, Write}
use chatnoir_resiliparse.Io.Cursor.{vec}
use chatnoir_resiliparse.Io.ReadLoop.{read_each}
use chatnoir_resiliparse.Header.{HeaderMap}
use chatnoir_resiliparse.Header.Map.{get_bytes, set_bytes}
use chatnoir_resiliparse.Header.Write as H
use chatnoir_resiliparse.StreamIo.{SeekFrom, WarcRead}
use chatnoir_resiliparse.StreamIo.Limited.{LimitedBufReader}
use chatnoir_resiliparse.StreamIo.Limited as L
use chatnoir_resiliparse.Record.{WarcRecord, ReaderType, inner_reader, put_reader}
use chatnoir_resiliparse.Record.Names.{WarcHeader, header_name}
use chatnoir_resiliparse.Record.Boxes.{Boxes}
use chatnoir_resiliparse.Record.Decimal.{to_string}
use chatnoir_resiliparse.Record.Payload.{freeze}
use chatnoir_resiliparse.Record.Digest.{Hashing}

-- The HTTP headers, where they have been parsed.
abbrev pub parsed_http : {S : Type 0} → WarcRecord S → Option HeaderMap
parsed_http rec = if rec.http_parsed then rec.http_headers else none

-- `h.write(&mut buf).unwrap_or_default()`.
abbrev written_length : Result ℕ × Bytes → ℕ
written_length (ok n, buf) = n
written_length (err e, buf) = 0

unfoldable pub http_header_len : Option HeaderMap → ℕ
http_header_len none = 0
http_header_len (some h) = written_length (H.write vec h [])

-- Content-Length is set where it does not already say `n`.
abbrev pub says : Option Bytes → Bytes → Bool
says none v = false
says (some w) v = bytes_eq w v

unfoldable pub ensure_content_length : ℕ → HeaderMap → HeaderMap
ensure_content_length n h =
    if says (get_bytes (codes (header_name WarcHeader.content_length)) h) (to_string n)
    then h
    else set_bytes (codes (header_name WarcHeader.content_length)) (to_string n) h

-- The digests of the block and, of an HTTP record, of the payload: the bytes that they have been fed.
unfoldable pub digest_update : Bytes → Io (Bytes × Option Bytes) (Unit {0})
digest_update b (block, payload) = (ok tt, (block ++ b, O.map (λ p. p ++ b) payload))

abbrev pub two_lines : Bytes
two_lines = b'\r' ∷ b'\n' ∷ b'\r' ∷ b'\n' ∷ []

module _ {S : Type 0} (reader : WarcRead S) (boxes : Boxes S) (hashing : Hashing)
    (len fuel : ℕ) where
  abbrev digest_text : Bytes → Bytes
  digest_text fed = codes "sha1:" ++ hashing.base32_encode (hashing.sha1 fed)

  abbrev with_payload_digest : Option Bytes → HeaderMap → HeaderMap
  with_payload_digest none h = h
  with_payload_digest (some fed) h =
      set_bytes (codes (header_name WarcHeader.warc_payload_digest)) (digest_text fed) h

  -- The digests go into the headers, and the reader back to its start.
  abbrev rewound :
      ReaderType S → WarcRecord S → Result ℕ × LimitedBufReader S → Result (Unit {0}) × WarcRecord S
  rewound t rec (err e, r) = (err e, record rec { reader = some (put_reader r t) })
  rewound t rec (ok p, r) = (ok tt, record rec { reader = some (put_reader r t) })

  abbrev store_digests :
      ReaderType S
      → WarcRecord S
      → Result (Unit {0}) × (LimitedBufReader S × (Bytes × Option Bytes))
      → Result (Unit {0}) × WarcRecord S
  store_digests t rec (err e, (r, fed)) = (err e, record rec { reader = some (put_reader r t) })
  store_digests t rec (ok u, (r, (block, payload))) =
      rewound t
        (record rec {
          headers =
              set_bytes (codes (header_name WarcHeader.warc_block_digest)) (digest_text block)
                (with_payload_digest payload rec.headers);
        })
        (L.seek reader (SeekFrom.start 0) r)

  -- What the digests have been fed of the HTTP headers.
  abbrev digest_fed : Result ℕ × Bytes → Result (Bytes × Option Bytes)
  digest_fed (ok n, buf) = ok (buf, some [])
  digest_fed (err e, buf) = err e

  abbrev digest_start : Option HeaderMap → Result (Bytes × Option Bytes)
  digest_start none = ok ([], none)
  digest_start (some h) = digest_fed (H.write vec h [])

  abbrev digest_from :
      ReaderType S → WarcRecord S → Result (Bytes × Option Bytes) → Result (Unit {0}) × WarcRecord S
  digest_from t rec (err e) = (err e, rec)
  digest_from t rec (ok fed) =
      store_digests t rec
        (read_each (L.read reader) (suc 4095) digest_update fuel (inner_reader t, fed))

  abbrev digest_reader : Option (ReaderType S) → WarcRecord S → Result (Unit {0}) × WarcRecord S
  digest_reader none rec = (err other, rec)
  digest_reader (some t) rec = digest_from t rec (digest_start (parsed_http rec))

  abbrev after_freezing : Result (Unit {0}) × WarcRecord S → Result (Unit {0}) × WarcRecord S
  after_freezing (err e, rec) = (err e, rec)
  after_freezing (ok u, rec) = digest_reader rec.reader rec

  unfoldable pub add_checksums : Bool → WarcRecord S → Result (Unit {0}) × WarcRecord S
  unfolding digest_update
  add_checksums false rec = (ok tt, rec)
  add_checksums true rec = after_freezing (freeze reader boxes len fuel rec)

  module _ {W : Type 0} (writer : Write W) (chunk : ℕ) where
    -- The count of bytes written goes with the writer.
    unfoldable pub write_chunk : Bytes → Io (W × ℕ) (Unit {0})
    write_chunk b (w, n) = let (r, w') = writer.write_all b w in (r, (w', n + length b))

    abbrev pub write_http : Option HeaderMap → ℕ → Io W ℕ
    write_http none n = pure n
    write_http (some h) n = do m ← H.write writer h; pure (n + m)

    unfoldable pub write_heads : HeaderMap → Option HeaderMap → Io W ℕ
    write_heads h http = do n ← H.write writer h; write_http http n

    abbrev pub separated : ℕ → WarcRecord S → Result (Unit {0}) × W → Result ℕ × (WarcRecord S × W)
    separated n rec (err e, w) = (err e, (rec, w))
    separated n rec (ok u, w) = (ok (n + 4), (rec, w))

    abbrev pub after_content :
        ReaderType S
        → WarcRecord S
        → Result (Unit {0}) × (LimitedBufReader S × (W × ℕ))
        → Result ℕ × (WarcRecord S × W)
    after_content t rec (err e, (r, (w, n))) =
        (err e, (record rec { reader = some (put_reader r t) }, w))
    after_content t rec (ok u, (r, (w, n))) =
        separated n (record rec { reader = some (put_reader r t) }) (writer.write_all two_lines w)

    abbrev pub after_heads :
        ReaderType S → WarcRecord S → Result ℕ × W → Result ℕ × (WarcRecord S × W)
    after_heads t rec (err e, w) = (err e, (rec, w))
    after_heads t rec (ok n, w) =
        after_content t rec
          (read_each (L.read reader) chunk write_chunk fuel (inner_reader t, (w, n)))

    unfoldable pub write_from : ℕ → Option (ReaderType S) → Io (WarcRecord S × W) ℕ
    unfolding write_heads write_chunk
    write_from n none (rec, w) = (err other, (rec, w))
    write_from n (some t) (rec, w) =
        let h = ensure_content_length n rec.headers in
        after_heads t (record rec { headers = h }) (write_heads h (parsed_http rec) w)

    abbrev pub after_checksums :
        ℕ → W → Result (Unit {0}) × WarcRecord S → Result ℕ × (WarcRecord S × W)
    after_checksums n w (err e, rec) = (err e, (rec, w))
    after_checksums n w (ok u, rec) = write_from n rec.reader (rec, w)

    -- The length of the block is taken before the record is frozen. The sum is of `usize`.
    unfoldable pub write_with_block_size_checksum : Bool → Io (WarcRecord S × W) ℕ
    write_with_block_size_checksum checksum (rec, w) =
        after_checksums (add_u64 rec.content_length (http_header_len (parsed_http rec))) w
          (add_checksums checksum rec)
