-- ===== src/StreamIo/Chunked/Close.antt =====
-- How a `ChunkedWriter` is closed: `finish` before `into_inner` or `drop`.
use chatnoir_resiliparse.Prelude.{
  ◌≡◌, refl, sym, ap, ◌∙◌, Bool, true, false, not, ◌&&◌, [], if◌then◌else◌,
}
use chatnoir_resiliparse.Bytes.{Bytes, codes, is_empty}
use chatnoir_resiliparse.Io.{Result, ok, Io, ◌>>◌, Write}
use chatnoir_resiliparse.Io.Laws.{IsWrite}
use chatnoir_resiliparse.StreamIo.Chunked.{
  ChunkedWriter, write_inner, write_chunk_buffer, stop, finish, flush, drop_writer, into_inner,
  after_finish,
}
use chatnoir_resiliparse.StreamIo.Chunked.Correct.{
  continue-ok, write_inner-ok, write_chunk_buffer-ok,
}

module _ {W : Type 0} (out : Write W) (emitted : W → Bytes) (laws : IsWrite out emitted) where
  finish_closes :
      (c c' : ChunkedWriter W)
      → finish out c ≡ (ok tt, c')
      → (is_empty c'.chunk_buffer && not c'.stream_started) ≡ true
  unfolding finish stop
  finish_closes c c' h = go (is_empty c.chunk_buffer && not c.stream_started) refl h
    where
      go :
          (b : Bool)
          → (is_empty c.chunk_buffer && not c.stream_started) ≡ b
          → ◌≡◌ {A = Result (Unit {0}) × ChunkedWriter W}
              (if b
                then (ok tt, c)
                else (write_chunk_buffer out >> write_inner out (codes "0\r\n\r\n") >> stop out) c)
              (ok tt, c')
          → (is_empty c'.chunk_buffer && not c'.stream_started) ≡ true
      go true e h = ap (λ x. is_empty x.1.chunk_buffer && not x.1.stream_started) (sym h) ∙ e
      go false e h =
          let last = codes "0\r\n\r\n" in
          let (u2, c2, e2, f2) =
            continue-ok (λ _. stop out) ((write_chunk_buffer out >> write_inner out last) c) tt c'
              h in
          let (n, c1, e1, f1) =
            continue-ok (λ _. write_inner out last) (write_chunk_buffer out c) u2 c2 e2 in
          let (o1, b1, s1, m1) = write_chunk_buffer-ok out emitted laws c c1 n e1 in
          let (o, b, s, m) = write_inner-ok out emitted laws last c1 c2 f1 in
          let empty : c'.chunk_buffer ≡ [] = ap (λ x. x.1.chunk_buffer) (sym f2) ∙ b ∙ b1 in
          let stopped : c'.stream_started ≡ false = ap (λ x. x.1.stream_started) (sym f2) in
          rw (empty, stopped) refl

  -- On a writer that appends what it is given, a writer that has been finished with success is not
  -- finished twice: nothing more is written.
  pub finish_idem :
      (c c' : ChunkedWriter W) → finish out c ≡ (ok tt, c') → finish out c' ≡ (ok tt, c')
  unfolding finish
  finish_idem c c' h = rw (finish_closes c c' h) refl

  -- So dropping it only flushes the writer inside.
  pub drop_writer-finish :
      (inner_flush : Io W (Unit {0})) (c c' : ChunkedWriter W)
      → finish out c ≡ (ok tt, c')
      → drop_writer out inner_flush c' ≡ (inner_flush c'.inner).1
  unfolding drop_writer flush
  drop_writer-finish inner_flush c c' h = ap (after_finish out inner_flush) (finish_idem c c' h)

  -- What `into_inner` gives back after a success is what `finish` and the flush have made of the
  -- writer inside, and the writer is not dropped.
  pub into_inner-finish :
      (inner_flush : Io W (Unit {0})) (c c' : ChunkedWriter W) (w : W)
      → finish out c ≡ (ok tt, c')
      → inner_flush c'.inner ≡ (ok tt, w)
      → into_inner out inner_flush c ≡ (ok tt, w)
  unfolding into_inner flush
  into_inner-finish inner_flush c c' w h f = rw (h, f) refl
