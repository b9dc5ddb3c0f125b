-- ===== src/Record/Http/Wrap.antt =====
-- Detaching a reader takes it out of the decoders that were put around it.
use chatnoir_resiliparse.Prelude.{
  ℕ, zero, suc, ◌+◌, ◌<◌, ◌≡◌, ◌≢◌, refl, sym, ap, ◌∙◌, Bool, true, false, ◌&&◌, ◌||◌, none, some,
  List, [], ◌∷◌, if◌then◌else◌, arith, length, subst,
}
use chatnoir_resiliparse.Bytes.{Bytes, codes, bytes_eq, trim_ascii, to_ascii_lowercase}
use chatnoir_resiliparse.Io.{Result, ok, err}
use chatnoir_resiliparse.StreamIo.{WarcRead}
use chatnoir_resiliparse.StreamIo.Limited.{LimitedBufReader}
use chatnoir_resiliparse.StreamIo.Limited as L
use chatnoir_resiliparse.Record.{WarcRecord, ReaderType, inner_reader}
use chatnoir_resiliparse.Record.Boxes.{Boxes, Decoder, IsBoxes, IsStill}
use chatnoir_resiliparse.Record.Payload.{
  undecode_all, detach_reader, detach_from, innermost, unboxed_inner,
}
use chatnoir_resiliparse.Record.Http.{
  Coding, coding_of, codings_of, map_codings, reverse_onto, split_on, wrap_in, on_wrapped,
  wrap_reader, wrap_reader_in_payload_decoders,
}
use chatnoir_resiliparse.Header.Text.{Codec}

-- No encoding asks for lz4, which `detach_reader` does not know.
abbrev NotLz4 : Coding → Type 0
NotLz4 (Coding.with_decoder d) = d ≢ Decoder.lz4
NotLz4 Coding.identity = Unit
NotLz4 Coding.unsupported_coding = Unit

abbrev NoneLz4 : List Coding → Type 0
NoneLz4 [] = Unit
NoneLz4 (c ∷ cs) = NotLz4 c × NoneLz4 cs

NotLz4-if : (b : Bool) (x y : Coding) → NotLz4 x → NotLz4 y → NotLz4 (if b then x else y)
NotLz4-if true x y p q = p
NotLz4-if false x y p q = q

coding_of-NotLz4 : (transfer : Bool) (enc : Bytes) → NotLz4 (coding_of transfer enc)
unfolding coding_of
coding_of-NotLz4 transfer enc =
    NotLz4-if (bytes_eq enc (codes "gzip")) _ _ (λ e. cc)
      (NotLz4-if (bytes_eq enc (codes "deflate")) _ _ (λ e. cc)
        (NotLz4-if (bytes_eq enc (codes "br")) _ _ (λ e. cc)
          (NotLz4-if (bytes_eq enc (codes "zstd")) _ _ (λ e. cc)
            (NotLz4-if (bytes_eq enc (codes "chunked") && transfer) _ _ (λ e. cc)
              (NotLz4-if (bytes_eq enc (codes "identity") || bytes_eq enc []) _ _ tt tt)))))

map_codings-NoneLz4 : (transfer : Bool) (es : List Bytes) → NoneLz4 (map_codings transfer es)
map_codings-NoneLz4 transfer [] = tt
map_codings-NoneLz4 transfer (e ∷ es) =
    (coding_of-NotLz4 transfer (to_ascii_lowercase (trim_ascii e)), map_codings-NoneLz4 transfer es)

module _ {S : Type 0} (reader : WarcRead S) (boxes : Boxes S) (codec : Codec) (len fuel : ℕ)
    (laws : IsBoxes boxes) (still : IsStill reader) where
  -- Taking `n` decoders or more off `s` gives `base`.
  abbrev Around : ℕ → S → S → Type 0
  Around n base s = (m : ℕ) → n < m → undecode_all reader boxes len fuel m s ≡ ok base

  Around-decode :
      (n : ℕ) (base s : S) (d : Decoder)
      → d ≢ Decoder.lz4
      → Around n base s
      → Around (suc n) base (boxes.decode d s)
  unfolding undecode_all
  Around-decode n base s d h a zero k = absurd (omega arith)
  Around-decode n base s d h a (suc m) k =
      rw (undecode_all, laws.undecode-decode d s h) (a m (omega arith))

  wrap_in-Around :
      (cs : List Coding) (n : ℕ) (base s s' : S)
      → NoneLz4 cs
      → Around n base s
      → wrap_in reader boxes codec len fuel cs s ≡ ok s'
      → Around (n + length cs) base s'
  unfolding wrap_in
  wrap_in-Around [] n base s s' h a e m k =
      let i : s ≡ s' = cc in ap (undecode_all reader boxes len fuel m) (sym i) ∙ a m (omega arith)
  wrap_in-Around (Coding.with_decoder d ∷ cs) n base s s' (h, hs) a e m k =
      wrap_in-Around cs (suc n) base (boxes.decode d s) s' hs (Around-decode n base s d h a) e m
        (omega arith)
  wrap_in-Around (Coding.identity ∷ cs) n base s s' (h, hs) a e m k =
      wrap_in-Around cs n base s s' hs a e m (omega arith)
  wrap_in-Around (Coding.unsupported_coding ∷ cs) n base s s' (h, hs) a e m k = cc

  boxed-Around : (r : LimitedBufReader S) → Around 0 (boxes.boxed r) (boxes.boxed r)
  unfolding undecode_all
  boxed-Around r zero k = absurd (omega arith)
  boxed-Around r (suc m) k = rw (undecode_all, laws.undecode-boxed r) refl

  -- The reader of a record that is not frozen.
  abbrev pub IsLive : ReaderType S → Type 0
  IsLive (ReaderType.original r) = Unit
  IsLive (ReaderType.frozen r o) = ⊥
  IsLive (ReaderType.wrapped r) = Unit

  abbrev Detaches : LimitedBufReader S → WarcRecord S → Type 0
  Detaches r rec' =
      detach_reader reader boxes len fuel rec' ≡ (ok (some r.inner), record rec' { reader = none })

  wrapped-Detaches :
      (cs : List Coding) (r : LimitedBufReader S) (s : S) (rec : WarcRecord S)
      → NoneLz4 cs
      → length cs < fuel
      → wrap_in reader boxes codec len fuel cs (boxes.boxed r) ≡ ok s
      → Detaches r (record rec { reader = some (ReaderType.wrapped (L.new reader s none)) })
  unfolding detach_reader detach_from L.new
  wrapped-Detaches cs r s rec h enough e =
      let at : undecode_all reader boxes len fuel fuel (reader.stream_position s).1
          ≡ ok (boxes.boxed r) =
        ap (undecode_all reader boxes len fuel fuel) (still s)
        ∙ wrap_in-Around cs 0 (boxes.boxed r) (boxes.boxed r) s h (boxed-Around r) e fuel
            (omega arith) in
      ap (λ x. (unboxed_inner reader boxes len fuel x, record rec { reader = none })) at
      ∙ ap (λ o. (innermost reader boxes len fuel (boxes.boxed r) o, record rec { reader = none }))
          (laws.unboxed-boxed r)

  -- After the decoders that an encoding asks for have been put around the reader of a record that is
  -- not frozen, detaching gives what was inside that reader before, with more fuel than the encoding
  -- names codings, and the record has no reader then.
  pub detach-wrap :
      (encoding : Bytes) (transfer : Bool) (rec rec' : WarcRecord S) (t : ReaderType S)
      → rec.reader ≡ some t
      → IsLive t
      → length (codings_of transfer encoding) < fuel
      → wrap_reader_in_payload_decoders reader boxes codec len fuel encoding transfer rec
        ≡ (ok tt, rec')
      → Detaches (inner_reader t) rec'
  unfolding wrap_reader_in_payload_decoders codings_of
  detach-wrap encoding transfer rec rec' t e live enough w =
      let cs = codings_of transfer encoding in
      go t live (wrap_in reader boxes codec len fuel cs (boxes.boxed (inner_reader t))) refl
        (ap (λ o. wrap_reader reader boxes codec len fuel encoding transfer o rec) (sym e) ∙ w)
    where
      finish :
          (r : LimitedBufReader S) (s : S)
          → wrap_in reader boxes codec len fuel (codings_of transfer encoding) (boxes.boxed r)
            ≡ ok s
          → record rec { reader = some (ReaderType.wrapped (L.new reader s none)) } ≡ rec'
          → Detaches r rec'
      finish r s i j = subst (Detaches r) j (
          wrapped-Detaches (codings_of transfer encoding) r s rec
            (map_codings-NoneLz4 transfer (reverse_onto (split_on b',' encoding) [])) enough i)

      go :
          (t : ReaderType S)
          → IsLive t
          → (x : Result S)
          → wrap_in reader boxes codec len fuel
              (codings_of transfer encoding)
              (boxes.boxed (inner_reader t))
            ≡ x
          → on_wrapped reader boxes codec len fuel t rec x ≡ (ok tt, rec')
          → Detaches (inner_reader t) rec'
      go t live (err f) i j = cc
      go (ReaderType.original r) live (ok s) i j = finish r s i cc
      go (ReaderType.wrapped r) live (ok s) i j = finish r s i cc
      go (ReaderType.frozen r o) live x i j = absurd live
