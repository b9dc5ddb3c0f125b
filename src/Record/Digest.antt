-- ===== src/Record/Digest.antt =====
-- fastwarc-rs/src/warc/record.rs: `verify_block_digest`, `verify_payload_digest` and what they call.
pub mod Correct
use chatnoir_resiliparse.Prelude.{
  ℕ, zero, suc, ◌+◌, Bool, true, false, not, ◌&&◌, ◌||◌, Option, none, some, List, [], ◌∷◌, ◌++◌,
  if◌then◌else◌, length, take, drop,
}
use chatnoir_resiliparse.Bytes.{Bytes, codes, bytes_eq, trim_ascii, to_ascii_lowercase, memchr}
use chatnoir_resiliparse.Io.{Result, ok, err, Io}
use chatnoir_resiliparse.Io.ReadLoop.{read_each, extend}
use chatnoir_resiliparse.Header.Text.{Codec, get}
use chatnoir_resiliparse.StreamIo.{SeekFrom, WarcRead}
use chatnoir_resiliparse.StreamIo.Limited.{LimitedBufReader}
use chatnoir_resiliparse.StreamIo.Limited as L
use chatnoir_resiliparse.Record.{WarcRecord, ReaderType, inner_reader, put_reader}
use chatnoir_resiliparse.Record.Names.{WarcHeader, header_name}
use chatnoir_resiliparse.Record.Boxes.{Boxes}
use chatnoir_resiliparse.Record.Payload.{is_frozen, freeze}

-- The hash functions and the encodings are those of the crates md5, sha1, sha2 and data_encoding. A
-- digest is fed bytes and hashes all of them at the end.
pub record Hashing : Type 0 where
  pub md5 : Bytes → Bytes
  pub sha1 : Bytes → Bytes
  pub sha256 : Bytes → Bytes
  pub sha512 : Bytes → Bytes
  pub base32_encode : Bytes → Bytes
  pub base32_decode : Bytes → Option Bytes
  pub hex_decode : Bytes → Option Bytes

pub data DigestError : Type 0 where
  missing unsupported_digest format_error no_payload stream_error : DigestError

-- `Result<bool, DigestError>`.
pub data Verdict : Type 0 where
  verdict : Bool → Verdict
  undecided : DigestError → Verdict

module _ (hashing : Hashing) where
  unfoldable pub get_digest : Bytes → Option (Bytes → Bytes)
  get_digest algorithm =
      let name = to_ascii_lowercase algorithm in
      if bytes_eq name (codes "md5")
      then some hashing.md5
      else if bytes_eq name (codes "sha1")
      then some hashing.sha1
      else if bytes_eq name (codes "sha256")
      then some hashing.sha256
      else if bytes_eq name (codes "sha512")
      then some hashing.sha512
      else none

  -- Base 32, or else hexadecimal digits.
  unfoldable pub decode_digest : Bytes → Option Bytes
  decode_digest text = elim (hashing.base32_decode text) [
    | some bytes ↦ some bytes
    | none ↦ hashing.hex_decode text
  ]

module _ {S : Type 0} (reader : WarcRead S) (boxes : Boxes S) (codec : Codec) (hashing : Hashing)
    (len fuel : ℕ) where
  abbrev DigestIo : Type 0
  DigestIo = Verdict × WarcRecord S

  abbrev stored : ReaderType S → WarcRecord S → LimitedBufReader S → WarcRecord S
  stored t rec r = record rec { reader = some (put_reader r t) }

  -- The position is restored unless the payload may be consumed.
  abbrev on_restored : ReaderType S → WarcRecord S → Bool → Result ℕ × LimitedBufReader S → DigestIo
  on_restored t rec same (err e, r) = (Verdict.undecided DigestError.stream_error, stored t rec r)
  on_restored t rec same (ok p, r) = (Verdict.verdict same, stored t rec r)

  abbrev pub restore : Bool → ℕ → ReaderType S → WarcRecord S → Bool → LimitedBufReader S → DigestIo
  restore true pos t rec same r = (Verdict.verdict same, stored t rec r)
  restore false pos t rec same r = on_restored t rec same (L.seek reader (SeekFrom.start pos) r)

  abbrev pub on_digest_read :
      Bool
      → ℕ
      → (Bytes → Bytes)
      → Bytes
      → ReaderType S
      → WarcRecord S
      → Result (Unit {0}) × (LimitedBufReader S × Bytes)
      → DigestIo
  on_digest_read consume pos hash expected t rec (err e, (r, bytes)) =
      (Verdict.undecided DigestError.stream_error, stored t rec r)
  on_digest_read consume pos hash expected t rec (ok u, (r, bytes)) =
      restore consume pos t rec (bytes_eq (hash bytes) expected) r

  abbrev pub hash_with :
      Bool → Bytes → ReaderType S → WarcRecord S → Option (Bytes → Bytes) → DigestIo
  hash_with consume expected t rec none = (Verdict.undecided DigestError.unsupported_digest, rec)
  hash_with consume expected t rec (some hash) =
      on_digest_read consume (inner_reader t).pos hash expected t rec
        (read_each (L.read reader) (suc 4095) extend fuel (inner_reader t, []))

  abbrev pub hash_payload : Bool → Bytes → Bytes → Option (ReaderType S) → WarcRecord S → DigestIo
  hash_payload consume algorithm expected none rec =
      (Verdict.undecided DigestError.stream_error, rec)
  hash_payload consume algorithm expected (some t) rec =
      hash_with consume expected t rec (get_digest hashing algorithm)

  abbrev pub after_digest_freeze :
      Bool → Bytes → Bytes → Result (Unit {0}) × WarcRecord S → DigestIo
  after_digest_freeze consume algorithm expected (err e, rec) =
      (Verdict.undecided DigestError.stream_error, rec)
  after_digest_freeze consume algorithm expected (ok u, rec) =
      hash_payload consume algorithm expected rec.reader rec

  unfoldable pub check_digest : Bool → Bytes → Bytes → WarcRecord S → DigestIo
  check_digest consume algorithm expected rec =
      if not consume && not (is_frozen rec)
      then after_digest_freeze consume algorithm expected (freeze reader boxes len fuel rec)
      else hash_payload consume algorithm expected rec.reader rec

  abbrev on_decoded : Bool → Bytes → Option Bytes → WarcRecord S → DigestIo
  on_decoded consume algorithm none rec = (Verdict.undecided DigestError.format_error, rec)
  on_decoded consume algorithm (some expected) rec = check_digest consume algorithm expected rec

  unfoldable pub verify_digest : Bytes → Bool → WarcRecord S → DigestIo
  unfolding decode_digest
  verify_digest digest consume rec = elim (memchr b':' digest) [
    | none ↦ (Verdict.undecided DigestError.format_error, rec)
    | some at ↦
        on_decoded consume (to_ascii_lowercase (take at digest))
          (decode_digest hashing (trim_ascii (drop (at + 1) digest))) rec
  ]

  abbrev verify_header : WarcHeader → Bool → WarcRecord S → DigestIo
  verify_header name consume rec = elim (get codec (codes (header_name name)) rec.headers) [
    | none ↦ (Verdict.undecided DigestError.missing, rec)
    | some digest ↦ verify_digest digest consume rec
  ]

  unfoldable pub verify_block_digest : Bool → WarcRecord S → DigestIo
  verify_block_digest consume rec = verify_header WarcHeader.warc_block_digest consume rec

  unfoldable pub verify_payload_digest : Bool → WarcRecord S → DigestIo
  verify_payload_digest consume rec =
      if not rec.http_parsed || not rec.is_http
      then (Verdict.undecided DigestError.no_payload, rec)
      else verify_header WarcHeader.warc_payload_digest consume rec
