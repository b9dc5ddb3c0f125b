-- ===== src/Iter/Examples.antt =====
-- The theorems on the iterators, applied to an archive in memory.
use chatnoir_resiliparse.Prelude.{Bool, false, Option, none, some}
use chatnoir_resiliparse.Bytes.{Bytes, codes}
use chatnoir_resiliparse.Io.{Result}
use chatnoir_resiliparse.StreamIo.Limited.{LimitedBufReader}
use chatnoir_resiliparse.Record.{WarcRecord, ReaderType}
use chatnoir_resiliparse.Record.Boxes.Memory.{Box, raw, box_read, in_memory}
use chatnoir_resiliparse.Record.Payload.{empty_record}
use chatnoir_resiliparse.Record.Digest.{Hashing}
use chatnoir_resiliparse.Header.Text.{Codec}
use chatnoir_resiliparse.Iter.{ArchiveIterator, default_options}
use chatnoir_resiliparse.Iter.Stream.{next}
use chatnoir_resiliparse.Iter.Loop.{Returned, next-Returned}
use chatnoir_resiliparse.Iter.Filter.{has_content_length_lte, filtered_next}
use chatnoir_resiliparse.Iter.Filter.Finds.{Ends, filtered_next-Ends}

abbrev archive : Bytes
archive =
    codes
      "WARC/1.1\r\nContent-Length: 3\r\n\r\nabc\r\n\r\nWARC/1.1\r\nContent-Length: 1\r\n\r\nx\r\n\r\n"

abbrev same_codec : Codec
same_codec = record { windows_1252_encode = λ b. b; windows_1252_decode = λ b. b }

abbrev toy_hashing : Hashing
toy_hashing = record {
  md5 = λ b. b;
  sha1 = λ b. b;
  sha256 = λ b. b;
  sha512 = λ b. b;
  base32_encode = λ b. b;
  base32_decode = λ b. some b;
  hex_decode = λ b. none;
}

abbrev whole : LimitedBufReader Box
whole = record { inner = raw archive 0; limit = 1000; pos = 0 }

abbrev iterator : ArchiveIterator Box
iterator = record {
  cur = record empty_record { reader = some (ReaderType.original whole) };
  stream_started = false;
  options = default_options;
}

abbrev next_in_archive :
    ArchiveIterator Box → Option (Result (WarcRecord Box)) × ArchiveIterator Box
next_in_archive it = next box_read in_memory same_codec toy_hashing 31 200 5 it

next-Returned_example :
    Returned box_read in_memory same_codec toy_hashing 31 200 default_options
      (next_in_archive iterator)
next-Returned_example = next-Returned box_read in_memory same_codec toy_hashing 31 200 5 iterator

abbrev short : WarcRecord Box → Bool × WarcRecord Box
short rec = (has_content_length_lte 1 rec, rec)

filtered_next-Ends_example :
    Ends next_in_archive short iterator (filtered_next next_in_archive short 5 iterator)
filtered_next-Ends_example = filtered_next-Ends next_in_archive short 5 iterator
