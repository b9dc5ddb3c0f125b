-- ===== src/StreamIo/Dechunk/Examples.antt =====
-- Tests of the chunked reader, and the theorem on it at a stream with one chunk.
use chatnoir_resiliparse.Prelude.{ℕ, ◌≡◌, refl, [], ◌∷◌, ◌++◌, arith}
use chatnoir_resiliparse.Bytes.{
  Bytes, codes, memchr, is_ascii_whitespace, trim_ascii, trim_ascii_end, trim_ascii_start,
}
use chatnoir_resiliparse.Bytes.Utf8.{from_utf8_lossy}
use chatnoir_resiliparse.Io.{ok, ◌>>◌}
use chatnoir_resiliparse.Io.Cursor.{vec, vec-IsWrite}
use chatnoir_resiliparse.StreamIo.Chunked.{ChunkedWriter, with_chunk_size, to_hex, write, finish}
use chatnoir_resiliparse.StreamIo.Chunked.Correct.{write_pieces}
use chatnoir_resiliparse.StreamIo.Dechunk.Inverse.{written_reads_back}
use chatnoir_resiliparse.Io.ReadLoop.{read_to_end}
use chatnoir_resiliparse.StreamIo.Memory.{memory_seek, rest, memory-IsBufRead, memory-NeverFails}
use chatnoir_resiliparse.StreamIo.Dechunk.{with_options, read, header_size, ChunkedReader}
use chatnoir_resiliparse.StreamIo.Dechunk.Spec.{IsHeader, Decodes, Holds}
use chatnoir_resiliparse.StreamIo.Dechunk.ReadAll.{chunked_reads_all}

abbrev size_line : Bytes
size_line = b'3' ∷ b'\r' ∷ b'\n' ∷ []

abbrev last_line : Bytes
last_line = b'0' ∷ b'\r' ∷ b'\n' ∷ []

abbrev new_line : Bytes
new_line = b'\r' ∷ b'\n' ∷ []

abbrev abc : Bytes
abc = b'a' ∷ b'b' ∷ b'c' ∷ []

abbrev chunked_abc : Bytes
chunked_abc = size_line ++ (abc ++ (new_line ++ (last_line ++ new_line)))

size_line-IsHeader : IsHeader size_line 3
unfolding memchr header_size trim_ascii trim_ascii_end trim_ascii_start from_utf8_lossy
    is_ascii_whitespace
size_line-IsHeader = record { line_feed = 2; found = refl; last = refl; size = refl }

last_line-IsHeader : IsHeader last_line 0
unfolding memchr header_size trim_ascii trim_ascii_end trim_ascii_start from_utf8_lossy
    is_ascii_whitespace
last_line-IsHeader = record { line_feed = 2; found = refl; last = refl; size = refl }

chunked_abc-Decodes : Decodes chunked_abc abc
chunked_abc-Decodes =
    Decodes.chunk size_line abc new_line (last_line ++ new_line) [] 2 size_line-IsHeader refl refl
      (Decodes.ends last_line new_line [] last_line-IsHeader refl Decodes.over)

chunked_reads_all_example :
    (r : ChunkedReader ℕ) × (read_to_end
        (read (memory_seek chunked_abc) 20 1)
        2
        4
        (with_options 0, [])
      ≡ (ok tt, (r, abc)))
    × Holds (rest chunked_abc) 20 r []
chunked_reads_all_example =
    chunked_reads_all (memory_seek chunked_abc) (rest chunked_abc) (memory-IsBufRead chunked_abc)
      (memory-NeverFails chunked_abc) 20 0 abc 0 1 4 chunked_abc-Decodes (omega arith) (omega arith)

abbrev writer : ChunkedWriter Bytes
writer = with_chunk_size [] 2

-- The last write has filled a chunk, and an empty chunk stands before the end.
abbrev closed_writer : ChunkedWriter Bytes
closed_writer = record writer { inner = chunked_abc ++ last_line ++ new_line }

write_run :
    (write_pieces vec (λ w. w) vec-IsWrite (codes "a" ∷ codes "bc" ∷ []) >> finish vec) writer
    ≡ (ok tt, closed_writer)
unfolding write finish to_hex
write_run = refl

written_reads_back_example :
    (r : ChunkedReader ℕ) × (read_to_end
        (read (memory_seek closed_writer.inner) 20 1)
        2
        4
        (with_options 0, [])
      ≡ (ok tt, (r, abc)))
    × Holds (rest closed_writer.inner) 20 r []
written_reads_back_example =
    written_reads_back vec (λ w. w) vec-IsWrite (memory_seek closed_writer.inner)
      (rest closed_writer.inner) (memory-IsBufRead closed_writer.inner)
      (memory-NeverFails closed_writer.inner) 20 (codes "a") (codes "bc" ∷ []) writer closed_writer
      0 0 1 4 refl (omega arith) write_run refl (omega arith) (omega arith) (omega arith)
