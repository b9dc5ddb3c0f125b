-- ===== src/StreamIo/Chunked/Tests.antt =====
-- A chunked writer on a vector.
use chatnoir_resiliparse.Prelude.{false, ◌≡◌, refl, [], ◌∷◌}
use chatnoir_resiliparse.Bytes.{Bytes, codes}
use chatnoir_resiliparse.Io.{ok, ◌>>◌}
use chatnoir_resiliparse.Io.Cursor.{vec, vec-IsWrite}
use chatnoir_resiliparse.StreamIo.Chunked.{ChunkedWriter, with_chunk_size, to_hex, write, finish}
use chatnoir_resiliparse.StreamIo.Chunked.Correct.{Closed, write_pieces, finish_encodes}

abbrev written : Bytes
written = codes "3\r\nabc\r\n1\r\nd\r\n0\r\n\r\n"

abbrev before : ChunkedWriter Bytes
before = with_chunk_size [] 2

abbrev after : ChunkedWriter Bytes
after = record { inner = written; chunk_buffer = []; min_chunk_size = 2; stream_started = false }

run :
    (write_pieces vec (λ w. w) vec-IsWrite (codes "abc" ∷ codes "d" ∷ []) >> finish vec) before
    ≡ (ok tt, after)
unfolding write finish to_hex
run = refl

finish_encodes_example : Closed vec (λ w. w) vec-IsWrite [] (codes "abcd") 2 after
finish_encodes_example =
    finish_encodes vec (λ w. w) vec-IsWrite (codes "abc") (codes "d" ∷ []) before after refl run

-- Where the last write has filled a chunk, finish writes an empty chunk before the last one, so that
-- a reader finds the end of the stream and then five bytes more.
empty_chunk :
    ((write vec (codes "abc") >> finish vec) before).1.inner
    ≡ codes "3\r\nabc\r\n0\r\n\r\n0\r\n\r\n"
unfolding write finish to_hex
empty_chunk = refl
