-- ===== src/Iter.antt =====
-- fastwarc-rs/src/warc/iter.rs: the iterator over the records of an archive.
pub mod Filter
pub mod Stream
pub mod Loop
mod Examples
use chatnoir_resiliparse.Prelude.{ℕ, Bool, true, false, Option, none, some, if◌then◌else◌}
use chatnoir_resiliparse.Bytes.{Bytes, codes, bytes_eq}
use chatnoir_resiliparse.Io.{Result, ok, err, Io}
use chatnoir_resiliparse.StreamIo.{WarcRead}
use chatnoir_resiliparse.Record.{WarcRecord}
use chatnoir_resiliparse.Record.Boxes.{Boxes, Decoder}
use chatnoir_resiliparse.Record.Http.{AutoDecode}
use chatnoir_resiliparse.Record.Payload.{empty_record, attach_reader, detach_reader}

pub record ArchiveIteratorOptions : Type 0 where
  pub stream_detect : Bool
  pub parse_http : Bool
  pub decode_http_payload : AutoDecode
  pub verify_digests : Bool
  pub quirks_mode : Bool
  pub max_header_len : ℕ
  pub inplace : Bool

-- `ArchiveIteratorOptions::default`.
abbrev pub default_options : ArchiveIteratorOptions
default_options = record {
  stream_detect = true;
  parse_http = true;
  decode_http_payload = AutoDecode.no_decode;
  verify_digests = false;
  quirks_mode = false;
  max_header_len = 32768;
  inplace = false;
}

-- `ArchiveIteratorImpl`. `cur` is the record behind the shared handle: what the caller does to the
-- record that he was given is done to it.
pub record ArchiveIterator (S : Type 0) : Type 0 where
  pub cur : WarcRecord S
  pub stream_started : Bool
  pub options : ArchiveIteratorOptions

module _ {S : Type 0} (reader : WarcRead S) (boxes : Boxes S) (len fuel : ℕ) where
  abbrev begun :
      ArchiveIteratorOptions → Result (Unit {0}) × WarcRecord S → Result (ArchiveIterator S)
  begun options (err e, rec) = err e
  begun options (ok u, rec) = ok (record { cur = rec; stream_started = false; options = options })

  unfoldable pub with_options : S → ArchiveIteratorOptions → Result (ArchiveIterator S)
  with_options s options = begun options (
      attach_reader reader boxes len fuel s
        (record empty_record { quirks_mode = if options.quirks_mode then true else false }))

  -- `ArchiveIteratorImpl::new`.
  unfoldable pub new : S → Result (ArchiveIterator S)
  unfolding with_options
  new s = with_options s default_options

  -- `from_path_with_options`, on a file that has been opened: the extension of its name says what
  -- decodes it.
  unfoldable pub decoder_for : Option Bytes → S → S
  decoder_for none s = s
  decoder_for (some ext) s =
      if bytes_eq ext (codes "gz")
      then boxes.decode Decoder.gzip s
      else if bytes_eq ext (codes "zst")
      then boxes.decode Decoder.zstd s
      else if bytes_eq ext (codes "lz4")
      then boxes.decode Decoder.lz4 s
      else s

  abbrev from_file : Result S → Option Bytes → ArchiveIteratorOptions → Result (ArchiveIterator S)
  from_file (err e) ext options = err e
  from_file (ok s) ext options =
      if options.stream_detect
      then with_options (decoder_for ext s) (record options { stream_detect = false })
      else with_options s options

  unfoldable pub from_path_with_options :
      (Bytes → Result S)
      → (Bytes → Option Bytes)
      → Bytes
      → ArchiveIteratorOptions
      → Result (ArchiveIterator S)
  unfolding with_options decoder_for
  from_path_with_options open_file extension path options =
      from_file (open_file path) (extension path) options

  unfoldable pub into_inner : ArchiveIterator S → Result (Option S)
  into_inner it = (detach_reader reader boxes len fuel it.cur).0

module _ {S : Type 0} where
  unfoldable pub set_options : ArchiveIteratorOptions → ArchiveIterator S → ArchiveIterator S
  set_options options it = record it { options = options }

  unfoldable pub set_stream_detect : Bool → ArchiveIterator S → ArchiveIterator S
  set_stream_detect b it = record it { options = record it.options { stream_detect = b } }

  unfoldable pub set_parse_http : Bool → ArchiveIterator S → ArchiveIterator S
  set_parse_http b it = record it { options = record it.options { parse_http = b } }

  unfoldable pub set_decode_http_payload : AutoDecode → ArchiveIterator S → ArchiveIterator S
  set_decode_http_payload auto it = record it {
    options = record it.options { decode_http_payload = auto };
  }

  unfoldable pub set_verify_digests : Bool → ArchiveIterator S → ArchiveIterator S
  set_verify_digests b it = record it { options = record it.options { verify_digests = b } }

  -- The record is only ever set to quirks mode, never back.
  unfoldable pub set_quirks_mode : Bool → ArchiveIterator S → ArchiveIterator S
  set_quirks_mode b it = record it {
    options = record it.options { quirks_mode = b };
    cur = if b then record it.cur { quirks_mode = true } else it.cur;
  }

  unfoldable pub set_max_header_len : ℕ → ArchiveIterator S → ArchiveIterator S
  set_max_header_len n it = record it { options = record it.options { max_header_len = n } }

  unfoldable pub set_inplace : Bool → ArchiveIterator S → ArchiveIterator S
  set_inplace b it = record it { options = record it.options { inplace = b } }
