-- ===== src/Record/Parse/Correct.antt =====
-- What the headers of a record are read from, and how reading them can fail.
use chatnoir_resiliparse.Prelude.{
  ℕ, ◌+◌, ◌<◌, ◌≡◌, refl, sym, ap, ◌⊎◌, inl, inr, Bool, true, false, Option, none, some, [], ◌∷◌,
  ◌++◌, arith, min, length, length-append,
}
use chatnoir_resiliparse.Bytes.{Bytes, is_empty, trim_ascii_end, bytes_eq, starts_with}
use chatnoir_resiliparse.Io.{Result, ok, err, invalid_data}
use chatnoir_resiliparse.Io.Laws.{IsBufRead, NeverFails}
use chatnoir_resiliparse.Header.{HeaderMap, clear}
use chatnoir_resiliparse.Header.Map.{items_bytes}
use chatnoir_resiliparse.Header.Parse.{parse_with_opts, ends_with_cr}
use chatnoir_resiliparse.Header.Correct.{Parsed, IsReady, parse_reads}
use chatnoir_resiliparse.Header.View.Offsets.{trim_offsets_InBlock}
use chatnoir_resiliparse.StreamIo.{WarcRead}
use chatnoir_resiliparse.StreamIo.Limited.{LimitedBufReader, limited, set_limit}
use chatnoir_resiliparse.StreamIo.Limited.Laws.{limited_content, limited-IsBufRead}
use chatnoir_resiliparse.Record.{WarcRecord, ReaderType, inner_reader, with_reader, store}
use chatnoir_resiliparse.Record.Parse.{
  State, is_version, seed, scan_items, find_version, on_block, parse_block,
  parse_warc_headers_with_opts,
}
use chatnoir_resiliparse.Record.Parse.Find.{
  Skips, IsLine, length-Skips, Answers, Finds, find_version-Finds,
}

seed-IsReady :
    (line : Bytes) (h : HeaderMap) → ends_with_cr line ≡ false → IsReady false (seed line h)
unfolding seed clear
seed-IsReady line h e =
    λ kept. (record { status_in_block = trim_offsets_InBlock line; headers_in_block = tt }, e)

module _ {S : Type 0} (reader : WarcRead S) (content : S → Bytes)
    (laws : IsBufRead reader.buffered content) (calm : NeverFails reader.buffered)
    (position : Answers content reader.inner_stream_position)
    (frames : Answers content reader.frame_start_position) (fuel max : ℕ) (quirks : Bool) where
  abbrev St : Type 0
  St = State reader fuel quirks

  -- The record `rec'` is made from the header map `h`, and its reader `r` is limited to the length
  -- of the content.
  abbrev pub Taken :
      WarcRecord S → HeaderMap → LimitedBufReader S → WarcRecord S × LimitedBufReader S → Type 0
  Taken rec h r (rec', r') =
      (rec' ≡ scan_items (items_bytes h) 0 (record rec { headers = h }))
      × (r' ≡ set_limit rec'.content_length r)

  -- The version line `line` has been found, and `rest` follows it.
  abbrev pub AtVersion : ℕ → Bytes → Bytes → Bytes → Type 0
  AtVersion limit v line rest =
      Skips (min 256 limit) quirks v (line ++ rest)
      × IsLine (min 256 limit) line rest
      × (is_version (trim_ascii_end line) ≡ true)

  -- How reading the headers from the text `v` ends, with the limit `limit` on the reader.
  abbrev pub Ends : ℕ → Bytes → WarcRecord S → Result ℕ × St → Type 0
  Ends limit v rec (ok n, (rec', r')) =
      ((n ≡ 0)
        × Skips (min 256 limit) quirks v (limited_content content r')
        × ((limited_content content r' ≡ []) ⊎ (limit ≡ 0)))
      ⊎ ((line : Bytes) × (rest : Bytes) × (rec1 : WarcRecord S) × (h : HeaderMap)
          × (r : LimitedBufReader S) × (m : ℕ) × AtVersion limit v line rest
          × (rec1.headers ≡ seed line rec.headers)
          × ((ends_with_cr line ≡ true)
              ⊎ Parsed quirks false (seed line rec.headers) rest m h (limited_content content r))
          × (n + length rest ≡ length v + m)
          × (0 < n)
          × Taken rec1 h r (rec', r'))
  Ends limit v rec (err e, (rec', r')) =
      ((e ≡ invalid_data)
        × (quirks ≡ false)
        × ((line : Bytes) × Skips (min 256 limit) quirks v (line ++ limited_content content r')
            × IsLine (min 256 limit) line (limited_content content r')
            × (is_empty (trim_ascii_end line) ≡ false)
            × (is_version (trim_ascii_end line) ≡ false)))
      ⊎ ((line : Bytes) × (r : LimitedBufReader S) × (h : HeaderMap) × AtVersion limit v line
            (limited_content content r)
          × (parse_with_opts (limited reader).buffered fuel false max quirks (seed line rec.headers)
                r
              ≡ ((err e, h), r')))

  version_shortens :
      (limit : ℕ) (v line rest : Bytes) → AtVersion limit v line rest → length rest < length v
  unfolding is_version trim_ascii_end bytes_eq starts_with
  version_shortens limit v [] rest (s, one, version) = absurd cc
  version_shortens limit v (x ∷ xs) rest (s, one, version) =
      let shorter = length-Skips (min 256 limit) quirks v ((x ∷ xs) ++ rest) s in
      omega (arith, length-append xs rest)

  on_block-Ends :
      (limit : ℕ) (v : Bytes) (rec rec1 : WarcRecord S) (k : ℕ) (line : Bytes)
      (r : LimitedBufReader S) (x : (Result ℕ × HeaderMap) × LimitedBufReader S)
      → parse_with_opts (limited reader).buffered fuel false max quirks (seed line rec.headers) r
        ≡ x
      → AtVersion limit v line (limited_content content r)
      → rec1.headers ≡ seed line rec.headers
      → k + length (limited_content content r) ≡ length v
      → Ends limit v rec (on_block reader fuel quirks k rec1 x)
  unfolding on_block
  on_block-Ends limit v rec rec1 k line r ((err e, h), r') f found seeded count =
      inr (line, r, h, found, f)
  on_block-Ends limit v rec rec1 k line r ((ok n, h), r') f found seeded count =
      let less = version_shortens limit v line (limited_content content r) found in
      inr (
        line,
        limited_content content r,
        rec1,
        h,
        r',
        n,
        found,
        seeded,
        parsed (ends_with_cr line) refl,
        omega arith,
        omega arith,
        (refl, refl),
      )
    where
      parsed :
          (b : Bool)
          → ends_with_cr line ≡ b
          → (ends_with_cr line ≡ true)
            ⊎ Parsed quirks false
                (seed line rec.headers)
                (limited_content content r)
                n
                h
                (limited_content content r')
      parsed true c = inl c
      parsed false c = inr (
          parse_reads (limited reader).buffered (limited_content content)
            (limited-IsBufRead reader content laws) fuel max false quirks (seed line rec.headers) r
            (seed-IsReady line rec.headers c) n h r' f)

  parse_block-Ends :
      (limit : ℕ) (v : Bytes) (rec : WarcRecord S) (x : Result (Option ℕ) × St)
      → Finds reader content laws calm position frames fuel quirks limit v rec 0 x
      → Ends limit v rec (parse_block reader fuel quirks max x)
  unfolding parse_block
  parse_block-Ends limit v rec (err e, (rec1, r)) (i, q, f) = inl (i, q, f)
  parse_block-Ends limit v rec (ok none, (rec1, r)) (s, end) = inl (refl, s, end)
  parse_block-Ends limit v rec (ok (some k), (rec1, r)) (line, s, one, version, seeded, count) =
      let f : parse_with_opts (limited reader).buffered fuel false max quirks rec1.headers r
          ≡ parse_with_opts (limited reader).buffered fuel false max quirks (seed line rec.headers)
              r =
        ap (λ h. parse_with_opts (limited reader).buffered fuel false max quirks h r) seeded in
      on_block-Ends limit v rec rec1 k line r
        (parse_with_opts (limited reader).buffered fuel false max quirks rec1.headers r) (sym f)
        (s, one, version) seeded (omega arith)

  -- On a stream that does not fail, with more fuel than bytes, parse_warc_headers_with_opts ends in
  -- one of four ways. A line is what a read of at most 256 bytes gives, up to a line feed. It returns
  -- 0 at the end of what can be read, where all lines before were passed over: blank ones, or in
  -- quirks mode any but version lines. It returns the number of
  -- bytes read, more than 0, where such lines, a version line and a header block were read; then
  -- the map is seeded with the version line, the header block is read line by line from what
  -- follows unless the version line ends in a CR, the record takes its fields from the headers,
  -- and its reader is limited to the content length. It fails as invalid data at the first line
  -- that is neither passed over nor a version line. Or it passes on a failure of the header parser
  -- at what follows the version line.
  pub parse_warc_headers_reads :
      (rec : WarcRecord S) (t : ReaderType S)
      → rec.reader ≡ some t
      → length (limited_content content (inner_reader t)) < fuel
      → (x : Result ℕ × St) × (parse_warc_headers_with_opts reader fuel quirks max rec ≡ store t x)
        × Ends (inner_reader t).limit (limited_content content (inner_reader t)) rec x
  unfolding parse_warc_headers_with_opts with_reader
  parse_warc_headers_reads rec t e enough =
      let r = inner_reader t in
      let x = find_version reader fuel quirks fuel 0 (rec, r) in
      (
        parse_block reader fuel quirks max x,
        rw e refl,
        parse_block-Ends r.limit (limited_content content r) rec x (
            find_version-Finds reader content laws calm position frames fuel quirks r.limit fuel 0
              rec r refl enough enough),
      )
