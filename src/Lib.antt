-- ===== src/Lib.antt =====
-- Verification of the core of FastWARC (fastwarc-rs), the Rust library that reads and writes web
-- archives.
--
-- An archive is a sequence of records on a stream. Each record is a version line, a block of
-- headers, and a payload as long as the Content-Length header says. The crate has two halves. Its
-- streams (fastwarc-rs/src/stream_io) put a seekable, buffered reader around a file or a decoder:
-- RawReaderAdapter and TrackingBufReader cache the position of a stream, and LimitedBufReader ends
-- it early and reads lines from it. Its records (fastwarc-rs/src/warc) are read from such a limited
-- reader: the record looks for a version line, HeaderMap parses the block, and the record then sets
-- the limit to the length of the payload. The iterator gets the next record from the one before, and
-- may verify its digest and parse its HTTP headers.
--
-- Which module models what:
--   Prelude, Bytes   numbers, lists and byte strings, under the names of Rust's standard library
--                    and of the memchr crate; u64 and i64 with their wrap-around are Prelude.Int.
--   Io               io::Result, BufRead and Write as records of operations on a state, and what
--                    is relied on of them (Io.Laws). Io.Cursor is a reader of bytes in given pieces
--                    and Vec as a writer; both meet those laws. Io.ReadLoop is the loop over read
--                    that the record code runs, with an invariant rule and a termination rule.
--   StreamIo         fastwarc-rs/src/stream_io/traits.rs (WarcRead, BufReadSeek as records);
--                    Tracking and Limited are the readers of bufread.rs, ReadLine its read_line;
--                    Skip is _forward_seek of mod.rs, Chunked the writer of chunked.rs and Dechunk
--                    its reader; Dechunk.Spec says what a chunked encoding is. Seek says what a
--                    seekable stream promises, and Memory is a stream of fixed bytes that keeps it.
--   Header           fastwarc-rs/src/warc/header.rs. Sanitize is _sanitize_header_value, Map the
--                    operations on byte keys, Text those on str, Parse is parse_with_opts and
--                    split_and_push_parsed_line, Write is write. View is what a map shows with its
--                    offsets resolved, and read_block there is the specification of the parser: it
--                    reads one byte at a time, with no offsets, chunks or limits.
--   Record           fastwarc-rs/src/warc/record.rs. Kind is WarcRecordType as text and number, Names
--                    the WarcHeader of header.rs,
--                    Number the readings of Content-Length, Parse is parse_warc_headers_with_opts,
--                    Consume is consume_n, consume and next_inplace_impl. Boxes is what the code
--                    does with a Box<dyn WarcRead>; Payload is attaching, detaching, freezing and
--                    next_impl, Http is parse_http_with_opts and the payload decoders, Digest the
--                    verification of digests, Write is write_with_block_size_checksum, Fields what
--                    a caller sets. Decimal is to_string.
--   Iter             fastwarc-rs/src/warc/iter.rs. Stream is the detection of the compression and
--                    next, Filter the filtered iterator and its predicates.
--
-- State and errors: an operation on &mut self is a function from a state to a result and the state
-- reached (Io). An error is a value with its io::ErrorKind and without its message. A trait object
-- is a record of operations and a state type S, so every theorem holds of any reader or writer
-- that meets the laws, whatever it decodes or buffers. A short read or a chunk may be of any size.
-- A panic (unwrap) is one more error. A record behind a shared handle is the record that the iterator
-- holds. Other crates are parameters: the decoders and downcasts (Boxes), windows-1252 (Codec), hash
-- functions and base 32 (Hashing), the time and random numbers.
--
-- Loops and bounds: each loop over fill_buf or read takes fuel, and the theorems ask for more fuel than
-- there are bytes left, which is enough since a pass that is not the last consumes one byte or
-- more. The loop over one chunk has the bytes of the chunk as fuel, and so needs no condition.
-- The loop of the chunked reader takes a number of passes, and one is enough in every state of which
-- its theorems speak: a pass that reads a header also reads data or ends.
-- Running out of fuel is the error `other`, which the theorems exclude. Lengths and indices (usize)
-- are numbers without bound, since they measure data in memory; stream positions, limits and the
-- content length (u64), and the block length that is computed from it, keep their wrap-around.
--
-- Not modelled: the compressed streams; the plain accessors of a record,
-- record_date and http_content_type, which parse with the time crate and trim Unicode white space;
-- Display and Debug, which are output for people; the HTML DOM of resiliparse-rs, which is an
-- interface over the C library Lexbor; bindings, benchmarks and build scripts.
mod Prelude
pub mod Bytes
pub mod Io
pub mod StreamIo
pub mod Header
pub mod Record
pub mod Iter
