-- ===== src/StreamIo/Tests.antt =====
-- The theorems about streams at a stream of twelve bytes.
use chatnoir_resiliparse.Prelude.{ℕ, ◌≡◌, ◌≤◌, ◌+◌, refl, arith, take, drop}
use chatnoir_resiliparse.Prelude.Int.{pos, negsuc, sub_u64, add_u64, add_int}
use chatnoir_resiliparse.Bytes.{Bytes, codes}
use chatnoir_resiliparse.Io.{ok, err, unsupported}
use chatnoir_resiliparse.Io.Laws.{IsBufRead}
use chatnoir_resiliparse.StreamIo.{SeekFrom}
use chatnoir_resiliparse.StreamIo.Memory.{
  at, seek_to, rest, memory_read, memory_seek, memory-IsBufRead, memory-NeverFails,
  memory-IsPositioned, memory-IsSeek, memory-IsStream,
}
use chatnoir_resiliparse.StreamIo.Limited.{LimitedBufReader, limited, new_position}
use chatnoir_resiliparse.StreamIo.Limited as L
use chatnoir_resiliparse.StreamIo.Limited.Laws.{limited_content, limited-IsBufRead}
use chatnoir_resiliparse.StreamIo.Limited.Laws.Position.{Seeks, seek_limited}
use chatnoir_resiliparse.StreamIo.ReadLine.{read_line, first_line}
use chatnoir_resiliparse.StreamIo.ReadLine.Correct.{read_line_reads}
use chatnoir_resiliparse.StreamIo.Seek.{target}
use chatnoir_resiliparse.StreamIo.Skip.{forward_seek}
use chatnoir_resiliparse.StreamIo.Skip.Correct.{SeeksTo, Skipped, forward_seek_skips}
use chatnoir_resiliparse.StreamIo.Tracking.{RawReaderAdapter}
use chatnoir_resiliparse.StreamIo.Tracking as K
use chatnoir_resiliparse.StreamIo.Tracking.Runs.{
  Operation, History, run_position, run_seek, run_read,
}

abbrev text : Bytes
text = codes "WARC/1.0\nabc"

abbrev ten : LimitedBufReader ℕ
ten = record { inner = 0; limit = 10; pos = 0 }

read_line_reads_example :
    (r' : LimitedBufReader ℕ) × (read_line (memory_read text) 11 256 (codes "> ", ten)
      ≡ (ok 9, (codes "> WARC/1.0\n", r')))
    × (limited_content (rest text) r' ≡ codes "a")
unfolding first_line sub_u64
read_line_reads_example =
    read_line_reads (memory_read text) (rest text) (memory-IsBufRead text) (memory-NeverFails text)
      11 256 (codes "> ") ten (omega arith)

limited-IsBufRead_example :
    IsBufRead (limited (memory_read text)).buffered (limited_content (rest text))
limited-IsBufRead_example = limited-IsBufRead (memory_read text) (rest text) (memory-IsBufRead text)

seek_limited_example :
    Seeks
      (memory_read text)
      (λ s. text)
      (at text)
      (memory-IsSeek text)
      ten
      (new_position (memory_read text) ten (SeekFrom.start 4))
      (L.seek (memory_read text) (SeekFrom.start 4) ten)
seek_limited_example =
    seek_limited (memory_read text) (λ s. text) (at text) (memory-IsSeek text) ten
      (SeekFrom.start 4) (omega arith) (omega arith)

forward_seek_skips_example :
    SeeksTo
      (memory_read text)
      (rest text)
      (at text)
      (memory-IsBufRead text)
      (memory-IsPositioned text)
      (memory-NeverFails text)
      5
      2
      (forward_seek (memory_read text) 20 (SeekFrom.start 5) 2)
    × Skipped
        (memory_read text)
        (rest text)
        (at text)
        (memory-IsBufRead text)
        (memory-IsPositioned text)
        (memory-NeverFails text)
        3
        2
        (forward_seek (memory_read text) 20 (SeekFrom.current (pos 3)) 2)
    × (forward_seek (memory_read text) 20 (SeekFrom.current (negsuc 3)) 2 ≡ (err unsupported, 2))
    × (forward_seek (memory_read text) 20 (SeekFrom.end (pos 0)) 2 ≡ (err unsupported, 2))
forward_seek_skips_example =
    forward_seek_skips (memory_read text) (rest text) (at text) (memory-IsBufRead text)
      (memory-IsPositioned text) (memory-NeverFails text) 20 5 3 (pos 0) 2 (omega arith)
      (omega arith) (omega arith)

-- A new adapter at position 2, from which four bytes have been read.
abbrev before : RawReaderAdapter ℕ
before = record { inner = 2; pos = 2 }

abbrev after : RawReaderAdapter ℕ
after = record { inner = 6; pos = 6 }

new-before : K.new (memory_seek text) 2 ≡ before
unfolding K.new
new-before = refl

read_four : K.read (memory_seek text) 4 before ≡ (ok (codes "RC/1"), after)
unfolding K.read K.consume add_u64
read_four = refl

sample-History : History (memory_seek text) (K.new (memory_seek text) 2) after
unfolding K.new
sample-History =
    History.then before after History.idle (Operation.has_read 4 (codes "RC/1") after read_four)

run_position_example :
    (after.pos ≡ at text after.inner)
    × (K.seek (memory_seek text) (SeekFrom.current (pos 0)) after
        ≡ (ok (at text after.inner), after))
    × (text ≡ text)
run_position_example =
    run_position (memory_seek text) (λ s. text) (at text) (memory-IsStream text (omega arith))
      (memory-IsPositioned text) (memory-IsSeek text) 2 after sample-History

abbrev three : RawReaderAdapter ℕ
three = record { inner = 3; pos = 3 }

back_three : K.seek (memory_seek text) (SeekFrom.current (negsuc 2)) after ≡ (ok 3, three)
unfolding K.seek seek_to add_int
back_three = refl

run_seek_example :
    (pos 3 ≡ target 6 12 (SeekFrom.current (negsuc 2))) × (at text 3 ≡ 3) × (three.pos ≡ 3)
run_seek_example =
    run_seek (memory_seek text) (λ s. text) (at text) (memory-IsStream text (omega arith))
      (memory-IsPositioned text) (memory-IsSeek text) 2 after three (SeekFrom.current (negsuc 2)) 3
      sample-History back_three

read_two : K.read (memory_seek text) 2 after ≡ (ok (codes ".0"), record { inner = 8; pos = 8 })
unfolding K.read K.consume add_u64
read_two = refl

run_read_example :
    (take 2 (drop 6 text) ≡ codes ".0") × (2 ≤ 2) × (at text 8 ≡ 6 + 2) × (8 ≡ at text 8)
run_read_example =
    run_read (memory_seek text) (λ s. text) (at text) (memory-IsStream text (omega arith))
      (memory-IsPositioned text) (memory-IsSeek text) 2 after (record { inner = 8; pos = 8 }) 2
      (codes ".0") sample-History read_two
