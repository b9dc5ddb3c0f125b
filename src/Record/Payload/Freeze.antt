-- ===== src/Record/Payload/Freeze.antt =====
-- Freezing a record keeps its payload, and its reader behind the payload.
use chatnoir_resiliparse.Prelude.{
  ℕ, zero, suc, ◌-◌, ◌≤◌, ◌<◌, ◌≡◌, refl, sym, ap, ◌∙◌, subst, true, false, ◌==◌, Option, none,
  some, [], if◌then◌else◌, arith, length, take, take_all, ltb,
}
use chatnoir_resiliparse.Prelude.Int.{u64_mod, sub_u64}
use chatnoir_resiliparse.Bytes.{Bytes}
use chatnoir_resiliparse.Io.{Result, ErrorKind, ok, err, other}
use chatnoir_resiliparse.Io.Laws.{IsRead, ReadsAlways}
use chatnoir_resiliparse.Io.ReadLoop.{read_to_end, read_to_end_lem}
use chatnoir_resiliparse.StreamIo.{WarcRead}
use chatnoir_resiliparse.StreamIo.Limited.{LimitedBufReader, unwrap_or_zero}
use chatnoir_resiliparse.StreamIo.Limited as L
use chatnoir_resiliparse.StreamIo.Limited.Laws.{limited_content}
use chatnoir_resiliparse.StreamIo.Limited.Read.{limited-IsRead, limited-ReadsAlways}
use chatnoir_resiliparse.Record.{WarcRecord, ReaderType, with_reader}
use chatnoir_resiliparse.Record.Boxes.{Boxes, IsCursor}
use chatnoir_resiliparse.Record.Consume.{consume, consume_n}
use chatnoir_resiliparse.Record.Payload.{
  freeze, freeze_from, on_frozen, frozen_payload_bytes, cursor_reader, detach_reader, detach_from,
  next_impl, is_frozen,
}

unlimited : (n : ℕ) → n < u64_mod → n ≤ sub_u64 (u64_mod - 1) 0
unfolding sub_u64
unlimited n h = omega arith

module _ {S : Type 0} (reader : WarcRead S) (boxes : Boxes S) (content : S → Bytes)
    (cursors : IsCursor reader boxes content) where
  -- A reader over bytes has all of them before its limit.
  pub record Holds (r : LimitedBufReader S) (payload : Bytes) : Type 0 where
    pub bytes : boxes.cursor_bytes r.inner ≡ some payload
    pub readable : limited_content content r ≡ payload

  pub cursor-Holds :
      (len fuel : ℕ) (payload : Bytes)
      → length payload < u64_mod
      → Holds (cursor_reader reader boxes len fuel payload) payload
  unfolding L.new
  cursor-Holds len fuel payload small =
      let (s, told, bytes, all) = cursors.cursor_tells payload in
      let no_limit : length payload ≤ sub_u64 (u64_mod - 1) 0 = unlimited (length payload) small in
      subst
        (λ (p, t).
          Holds (record { inner = t; limit = u64_mod - 1; pos = unwrap_or_zero p }) payload)
        (sym told)
        (record {
          bytes = bytes;
          readable =
              ap (take (sub_u64 (u64_mod - 1) 0)) all
              ∙ take_all (sub_u64 (u64_mod - 1) 0) payload no_limit;
        })

  -- A record with a frozen payload, and the reader that it came from behind that payload.
  pub record IsFrozen (rec : WarcRecord S) (payload : Bytes) : Type 0 where
    pub held : LimitedBufReader S
    pub original : LimitedBufReader S
    pub reader_is : rec.reader ≡ some (ReaderType.frozen held (some original))
    pub holds : Holds held payload
    pub behind : limited_content content original ≡ []
    pub length_is : rec.content_length ≡ length payload

  module _ (laws : IsRead reader.read content) (always : ReadsAlways reader.read) where
    -- Freezing a record with its original reader succeeds, with more fuel than bytes: the frozen
    -- payload is all that the reader had before its limit, the content length is its length, the
    -- reader is kept with nothing left before the limit, and the rest of the record is the same.
    pub freeze_lem :
        (len fuel : ℕ) (rec : WarcRecord S) (r : LimitedBufReader S)
        → rec.reader ≡ some (ReaderType.original r)
        → length (limited_content content r) < fuel
        → length (limited_content content r) < u64_mod
        → (rec' : WarcRecord S) × (freeze reader boxes len fuel rec ≡ (ok tt, rec'))
          × IsFrozen rec' (limited_content content r)
          × (frozen_payload_bytes reader boxes len fuel rec' ≡ some (limited_content content r))
          × (record rec' { reader = rec.reader; content_length = rec.content_length } ≡ rec)
    unfolding freeze frozen_payload_bytes
    freeze_lem len fuel rec r e enough small =
        let payload = limited_content content r in
        let (r', run, ends) =
          read_to_end_lem (L.read reader) len (limited_content content)
            (limited-IsRead reader content laws) (limited-ReadsAlways reader always) fuel r []
            enough in
        let h = cursor-Holds len fuel payload small in
        (
          record rec {
            content_length = length payload;
            reader =
                some (ReaderType.frozen (cursor_reader reader boxes len fuel payload) (some r'));
          },
          rw e (ap (on_frozen reader boxes len fuel rec) run),
          record {
            held = cursor_reader reader boxes len fuel payload;
            original = r';
            reader_is = refl;
            holds = h;
            behind = ends;
            length_is = refl;
          },
          h.bytes,
          refl,
        )

module _ {S : Type 0} (reader : WarcRead S) (boxes : Boxes S) (len fuel max : ℕ) where
  -- What follows a record that has lost its reader.
  next_impl-lost :
      (rec : WarcRecord S) (n : ℕ)
      → next_impl reader boxes len fuel max (record rec { reader = none; content_length = n }) ≡ (
        if ltb 0 n then some (err other) else none,
        record rec { reader = none; content_length = n },
      )
  unfolding next_impl is_frozen consume consume_n with_reader detach_reader detach_from
  next_impl-lost rec zero = refl
  next_impl-lost rec (suc n) =
      let more : ltb 0 (suc n) ≡ true = ground arith in
      let some_left : (suc n == 0) ≡ false = ground arith in rw (more, some_left) refl

  -- Whenever freezing a record fails, because it has no reader, its payload is decoded, or its stream
  -- fails, it was not frozen, and it has lost its reader and is otherwise the same. Then no reader can
  -- be detached from it, and no record follows it: asking for the next one is an error where the
  -- content length is above 0, and otherwise looks like the end of the archive.
  pub freeze_failure :
      (rec rec' : WarcRecord S) (e : ErrorKind)
      → freeze reader boxes len fuel rec ≡ (err e, rec')
      → (is_frozen rec ≡ false)
        × (rec' ≡ record rec { reader = none })
        × (next_impl reader boxes len fuel max rec'
            ≡ (if ltb 0 rec.content_length then some (err other) else none, rec'))
        × (detach_reader reader boxes len fuel rec' ≡ (ok none, rec'))
  unfolding freeze is_frozen detach_reader detach_from
  freeze_failure rec rec' e run = go rec.reader refl run
    where
      after :
          is_frozen rec ≡ false
          → record rec { reader = none } ≡ rec'
          → (is_frozen rec ≡ false)
            × (rec' ≡ record rec { reader = none })
            × (next_impl reader boxes len fuel max rec'
                ≡ (if ltb 0 rec.content_length then some (err other) else none, rec'))
            × (detach_reader reader boxes len fuel rec' ≡ (ok none, rec'))
      after f i = (
        f,
        sym i,
        subst
            (λ x.
              next_impl reader boxes len fuel max x
              ≡ (if ltb 0 rec.content_length then some (err other) else none, x))
            i (next_impl-lost rec rec.content_length),
        subst (λ x. detach_reader reader boxes len fuel x ≡ (ok none, x)) i refl,
      )

      read :
          (r : LimitedBufReader S)
          → is_frozen rec ≡ false
          → (x : Result (Unit {0}) × (LimitedBufReader S × Bytes))
          → on_frozen reader boxes len fuel rec x ≡ (err e, rec')
          → (is_frozen rec ≡ false)
            × (rec' ≡ record rec { reader = none })
            × (next_impl reader boxes len fuel max rec'
                ≡ (if ltb 0 rec.content_length then some (err other) else none, rec'))
            × (detach_reader reader boxes len fuel rec' ≡ (ok none, rec'))
      read r f (err k, (s, buf)) i = after f cc
      read r f (ok u, (s, buf)) i = cc

      go :
          (o : Option (ReaderType S))
          → rec.reader ≡ o
          → freeze_from reader boxes len fuel o rec ≡ (err e, rec')
          → (is_frozen rec ≡ false)
            × (rec' ≡ record rec { reader = none })
            × (next_impl reader boxes len fuel max rec'
                ≡ (if ltb 0 rec.content_length then some (err other) else none, rec'))
            × (detach_reader reader boxes len fuel rec' ≡ (ok none, rec'))
      go none i j = after (rw (is_frozen, i) refl) cc
      go (some (ReaderType.wrapped r)) i j = after (rw (is_frozen, i) refl) cc
      go (some (ReaderType.original r)) i j =
          read r (rw (is_frozen, i) refl) (read_to_end (L.read reader) (suc len) fuel (r, [])) j
      go (some (ReaderType.frozen r o)) i j = cc
