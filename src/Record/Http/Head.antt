-- ===== src/Record/Http/Head.antt =====
-- Behind its HTTP headers, a record has the rest of its payload.
use chatnoir_resiliparse.Prelude.{
  ℕ, ◌+◌, ◌*◌, ◌<◌, ◌≤◌, ◌≡◌, refl, sym, ap, ◌∙◌, subst, Bool, true, false, not, ◌||◌, Option, some,
  [], arith, length, take, length-take, take_all, if◌then◌else◌,
}
use chatnoir_resiliparse.Prelude.Int.{u64_mod, sub_u64, sub_u64_exact}
use chatnoir_resiliparse.Bytes.{Bytes}
use chatnoir_resiliparse.Io.{Result, ok, err}
use chatnoir_resiliparse.Io.Laws.{IsBufRead, NeverFails}
use chatnoir_resiliparse.Header.{HeaderMap, HeaderEncoding}
use chatnoir_resiliparse.Header as H
use chatnoir_resiliparse.Header.Text.{Codec}
use chatnoir_resiliparse.Header.Parse.{parse_with_opts, preserve_prefix}
use chatnoir_resiliparse.Header.Correct.{Parsed, IsReady, parse_reads, parse_succeeds, kept_bytes}
use chatnoir_resiliparse.StreamIo.{WarcRead}
use chatnoir_resiliparse.StreamIo.Limited.{LimitedBufReader, limited, remaining, set_limit}
use chatnoir_resiliparse.StreamIo.Limited.Laws.{
  limited_content, limited-IsBufRead, limited-NeverFails, take-take,
}
use chatnoir_resiliparse.Record.{WarcRecord, ReaderType, inner_reader, put_reader}
use chatnoir_resiliparse.Record.Boxes.{Boxes}
use chatnoir_resiliparse.Record.Http.{
  AutoDecode, skip_headers, on_http_block, parse_http_from, parse_http_with_opts, decode_payload,
}

module _ {S : Type 0} (reader : WarcRead S) (boxes : Boxes S) (codec : Codec) (len fuel : ℕ)
    (content : S → Bytes) (laws : IsBufRead reader.buffered content) where
  -- A record whose reader has just the payload before its limit, and all of it in the stream.
  pub record IsComplete (rec : WarcRecord S) (t : ReaderType S) : Type 0 where
    pub reader_is : rec.reader ≡ some t
    pub limit_is : remaining (inner_reader t) ≡ rec.content_length
    pub fits : rec.content_length < u64_mod
    pub whole : rec.content_length ≤ length (content (inner_reader t).inner)

  -- A record that had its HTTP headers parsed, and no decoders put around the rest.
  pub record Split (quirks : Bool) (rec : WarcRecord S) (t : ReaderType S) (rec' : WarcRecord S)
      : Type 0 where
    pub size : ℕ
    pub map : HeaderMap
    pub rest : LimitedBufReader S
    -- The headers are the first lines of the payload.
    pub headers_are : rec'.http_headers ≡ some map
    pub parsed :
        Parsed quirks true
          (H.new HeaderEncoding.latin1)
          (limited_content content (inner_reader t))
          size
          map
          (limited_content content rest)
    -- What is behind them is the new payload, with its length.
    pub reader_is : rec'.reader ≡ some (put_reader rest t)
    pub length_is : size + rec'.content_length ≡ rec.content_length
    pub complete : IsComplete rec' (put_reader rest t)

  nothing_kept : kept_bytes true (H.new HeaderEncoding.latin1) ≡ []
  unfolding preserve_prefix
  nothing_kept = refl

  new-IsReady : IsReady true (H.new HeaderEncoding.latin1)
  unfolding preserve_prefix
  new-IsReady e = cc

  inner-put : (r : LimitedBufReader S) (t : ReaderType S) → inner_reader (put_reader r t) ≡ r
  inner-put r (ReaderType.original _) = refl
  inner-put r (ReaderType.frozen _ o) = refl
  inner-put r (ReaderType.wrapped _) = refl

  -- The limit set to the number of bytes left of a whole payload lets just these pass.
  module _ (r r' : LimitedBufReader S) (cl n : ℕ) (limit_is : remaining r ≡ cl)
      (fits : cl < u64_mod) (whole : cl ≤ length (content r.inner))
      (count : n + length (limited_content content r') ≡ length (limited_content content r)) where
    left_is : (sub_u64 cl n ≡ length (limited_content content r')) × (n + sub_u64 cl n ≡ cl)
    left_is =
        let size = length-take (remaining r) (content r.inner) in
        let exact = sub_u64_exact cl n (omega arith) fits in (omega arith, omega arith)

    same_rest :
        (limited_content content (set_limit (sub_u64 cl n) r') ≡ limited_content content r')
        × (remaining (set_limit (sub_u64 cl n) r') ≡ sub_u64 cl n)
        × (sub_u64 cl n ≤ length (content r'.inner))
    unfolding set_limit
    same_rest =
        let rest = sub_u64 cl n in
        let (left, sum) = left_is in
        let size = length-take (remaining r') (content r'.inner) in
        let no_start = sub_u64_exact rest 0 (omega arith) (omega arith) in
        let all : sub_u64 rest 0 ≡ rest = omega arith in
        (
          ap (λ k. take k (content r'.inner)) all
              ∙ sym (take-take rest (remaining r') (content r'.inner) (omega arith))
              ∙ take_all rest (limited_content content r') (omega arith),
          all,
          omega arith,
        )

  after_block :
      (quirks : Bool) (rec rec' : WarcRecord S) (t : ReaderType S)
      (x : (Result ℕ × HeaderMap) × LimitedBufReader S)
      → IsComplete rec t
      → ((n : ℕ) (h : HeaderMap) (r' : LimitedBufReader S)
          → x ≡ ((ok n, h), r')
          → Parsed quirks true
              (H.new HeaderEncoding.latin1)
              (limited_content content (inner_reader t))
              n
              h
              (limited_content content r'))
      → on_http_block reader boxes codec len fuel AutoDecode.no_decode t rec x ≡ (ok tt, rec')
      → Split quirks rec t rec'
  unfolding on_http_block skip_headers decode_payload set_limit
  after_block quirks rec rec' t ((err e, h), r') c parse e' = cc
  after_block quirks rec rec' t ((ok n, h), r') c parse e' =
      let p = parse n h r' refl in
      let cl = rec.content_length in
      let (left, sum) = left_is (inner_reader t) r' cl n c.limit_is c.fits c.whole p.count in
      let (same, limit, whole) =
        same_rest (inner_reader t) r' cl n c.limit_is c.fits c.whole p.count in
      let rest = set_limit (sub_u64 cl n) r' in
      let i : record (skip_headers reader boxes codec len fuel t n h r' rec) {
        http_headers = some h;
      }
          ≡ rec' =
        cc in
      subst (Split quirks rec t) i (record {
        size = n;
        map = h;
        rest = rest;
        headers_are = refl;
        parsed =
            subst
              (λ v.
                Parsed quirks true (H.new HeaderEncoding.latin1)
                  (limited_content content (inner_reader t)) n h v)
              (sym same) p;
        reader_is = refl;
        length_is = sum;
        complete = record {
          reader_is = refl;
          limit_is = ap remaining (inner-put rest t) ∙ limit;
          fits = omega arith;
          whole =
              subst (λ q. sub_u64 cl n ≤ length (content q.inner)) (sym (inner-put rest t)) whole;
        };
      })

  enters :
      (max : ℕ) (quirks : Bool) (rec : WarcRecord S) (t : ReaderType S)
      → rec.reader ≡ some t
      → rec.is_http ≡ true
      → rec.http_parsed ≡ false
      → parse_http_with_opts reader boxes codec len fuel AutoDecode.no_decode max quirks rec
        ≡ parse_http_from reader boxes codec len fuel AutoDecode.no_decode max quirks (some t) rec
  unfolding parse_http_with_opts
  enters max quirks rec t e http fresh =
      let from = λ (o : Option (ReaderType S)).
        parse_http_from reader boxes codec len fuel AutoDecode.no_decode max quirks o rec in
      ap (λ p. if p || not rec.is_http then (ok tt, rec) else from rec.reader) fresh
      ∙ ap (λ h. if not h then (ok tt, rec) else from rec.reader) http
      ∙ ap from e

  -- Where the HTTP headers of a record that is all in the stream are parsed without decoding, they are
  -- the first lines of the payload, and the content length and the limit are set to the rest of it:
  -- nothing is cut off, nothing of the next record is added, and the subtraction does not wrap.
  pub parse_http_splits :
      (max : ℕ) (quirks : Bool) (rec rec' : WarcRecord S) (t : ReaderType S)
      → IsComplete rec t
      → rec.is_http ≡ true
      → rec.http_parsed ≡ false
      → parse_http_with_opts reader boxes codec len fuel AutoDecode.no_decode max quirks rec
        ≡ (ok tt, rec')
      → Split quirks rec t rec'
  unfolding parse_http_with_opts
  parse_http_splits max quirks rec rec' t c http fresh e =
      let r = inner_reader t in
      after_block quirks rec rec' t
        (parse_with_opts (limited reader).buffered fuel true max quirks
          (H.new HeaderEncoding.latin1) r)
        c
        (λ n h r' p.
          parse_reads (limited reader).buffered (limited_content content)
            (limited-IsBufRead reader content laws) fuel max true quirks
            (H.new HeaderEncoding.latin1) r new-IsReady n h r' p)
        (sym (enters max quirks rec t c.reader_is http fresh) ∙ e)

  -- Without automatic decoding, on a reader that does not fail, with more fuel than payload bytes and a
  -- limit of twice the payload or more on the headers, the HTTP headers of a record that is all in the
  -- stream are parsed, where that is an HTTP record with headers not parsed yet. They are the first lines of the payload, and the content
  -- length and the limit are set to the rest of it: nothing is cut off, nothing of the next record is
  -- added, and the subtraction does not wrap.
  pub parse_http_succeeds :
      NeverFails reader.buffered
      → (max : ℕ) (quirks : Bool) (rec : WarcRecord S) (t : ReaderType S) → IsComplete rec t
      → rec.is_http ≡ true
      → rec.http_parsed ≡ false
      → rec.content_length < fuel
      → 2 * rec.content_length ≤ max
      → (rec' : WarcRecord S) × (parse_http_with_opts reader boxes codec len fuel
            AutoDecode.no_decode max quirks rec
          ≡ (ok tt, rec'))
        × Split quirks rec t rec'
  unfolding on_http_block decode_payload
  parse_http_succeeds calm max quirks rec t c http fresh enough small =
      let r = inner_reader t in
      let size = length-take (remaining r) (content r.inner) in
      let limit = c.limit_is in
      let (n, h, r', run) =
        parse_succeeds (limited reader).buffered (limited_content content)
          (limited-IsBufRead reader content laws) fuel max true quirks (H.new HeaderEncoding.latin1)
          r new-IsReady (limited-NeverFails reader content laws calm) (omega arith)
          (kept_none (omega arith)) in
      let rec' = record (skip_headers reader boxes codec len fuel t n h r' rec) {
        http_headers = some h;
      } in
      let all =
        enters max quirks rec t c.reader_is http fresh
        ∙ ap (on_http_block reader boxes codec len fuel AutoDecode.no_decode t rec) run in
      (rec', all, parse_http_splits max quirks rec rec' t c http fresh all)
    where
      kept_none :
          2 * length (limited_content content (inner_reader t)) ≤ max
          → length (kept_bytes true (H.new HeaderEncoding.latin1))
              + 2 * length (limited_content content (inner_reader t))
            ≤ max
      kept_none k = let none_kept = ap length nothing_kept in omega arith
