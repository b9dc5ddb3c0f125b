-- ===== src/Header/Write/Items.antt =====
-- One written header, read back, and what its key and value must be for that.
use chatnoir_resiliparse.Prelude.{
  ℕ, ◌+◌, ◌≡◌, refl, sym, ap, ◌∙◌, Bool, true, false, Option, none, some, List, [], ◌∷◌, ◌++◌,
  length, drop, take-length, drop-length, drop-drop, append_assoc, arith,
}
use chatnoir_resiliparse.Bytes.{Bytes, is_empty, is_ascii_whitespace, trim_ascii}
use chatnoir_resiliparse.Header.Parse.{is_continuation}
use chatnoir_resiliparse.Header.Sanitize.Laws.{Lacks}
use chatnoir_resiliparse.Header.Sanitize.Normal.{IsTrimmed, IsTrimmed-trim_ascii}
use chatnoir_resiliparse.Header.View.{Block, add_line, read_block}
use chatnoir_resiliparse.Header.Write.{crlf, colon_space}
use chatnoir_resiliparse.Header.Write.Lines.{
  read_line, IsSolid, IsTrimmed-IsSolid, IsSolid-not_last, trim-space_crlf, memchr-colon,
}
use chatnoir_resiliparse.Header.Write.Render.{render_key}

-- A text that stands on one line and has no white space at its ends.
pub record IsPlain (v : Bytes) : Type 0 where
  pub trimmed : IsTrimmed v
  pub one_line : Lacks b'\n' v

pub record IsItem (k v : Bytes) : Type 0 where
  pub key_present : is_empty k ≡ false
  pub key_plain : IsPlain k
  pub no_colon : Lacks b':' k
  pub value_plain : IsPlain v

abbrev pub AllItems : List (Bytes × Bytes) → Type 0
AllItems [] = Unit
AllItems ((k, v) ∷ ts) = IsItem k v × AllItems ts

abbrev pub IsStatus : Option Bytes → Type 0
IsStatus none = Unit
IsStatus (some s) = (is_empty s ≡ false) × IsPlain s

-- The header block can be told from its text.
pub record IsWritable (b : Block) : Type 0 where
  pub status_plain : IsStatus b.status
  pub items_plain : AllItems b.items

abbrev pub has_status : Block → Bool
has_status b = elim b.status [ none ↦ false | some s ↦ true ]

Lacks-append : (c : ℕ) (a b : Bytes) → Lacks c a → Lacks c b → Lacks c (a ++ b)
Lacks-append c [] b ha hb = hb
Lacks-append c (x ∷ a) b (n, ha) hb = (n, Lacks-append c a b ha hb)

IsSolid-append : (a b : Bytes) → IsSolid a → IsSolid (a ++ b)
IsSolid-append [] b s = absurd s
IsSolid-append (x ∷ a) b s = s

IsSolid-not_continuation : (a : Bytes) → IsSolid a → is_continuation a ≡ false
unfolding is_ascii_whitespace
IsSolid-not_continuation [] s = refl
IsSolid-not_continuation (x ∷ a) s = ground arith

abbrev header_line : Bytes → Bytes → Bytes
header_line k v = k ++ (b':' ∷ b' ' ∷ v)

header_line_tail : (k v : Bytes) → header_line k v ++ crlf ≡ k ++ (b':' ∷ b' ' ∷ (v ++ crlf))
header_line_tail k v = append_assoc k (b':' ∷ b' ' ∷ v) crlf

drop_value : (k v : Bytes) → drop (length k + 1) (k ++ (b':' ∷ v)) ≡ v
drop_value k v =
    sym (drop-drop 1 (length k) (k ++ (b':' ∷ v))) ∙ ap (drop 1) (drop-length k (b':' ∷ v))

add_colon_line :
    (k v : Bytes) (b : Block)
    → IsItem k v
    → add_line false (k ++ (b':' ∷ b' ' ∷ (v ++ crlf))) b
      ≡ record b { items = b.items ++ ((k, v) ∷ []) }
unfolding add_line
add_colon_line k v b it =
    let solid = IsTrimmed-IsSolid k it.key_plain.trimmed it.key_present in
    let more = b' ' ∷ (v ++ crlf) in
    rw (IsSolid-not_continuation (k ++ (b':' ∷ more)) (IsSolid-append k (b':' ∷ more) solid)) (
      rw (memchr-colon k more it.no_colon) λ i. record {
        status = b.status;
        items =
            b.items
            ++ ((
              (ap trim_ascii (take-length k (b':' ∷ more))
                    ∙ IsTrimmed-trim_ascii it.key_plain.trimmed)
                  i,
              (ap trim_ascii (drop_value k more) ∙ trim-space_crlf v it.value_plain.trimmed) i,
            )
                ∷ []);
      })

-- Adding a written header line adds its key and value.
add_header_line :
    (k v : Bytes) (b : Block)
    → IsItem k v
    → add_line false (header_line k v ++ crlf) b ≡ record b { items = b.items ++ ((k, v) ∷ []) }
add_header_line k v b it =
    ap (λ x. add_line false x b) (header_line_tail k v) ∙ add_colon_line k v b it

-- One header line of the text.
pub read_header_line :
    (quirks : Bool) (k v rest : Bytes) (b : Block)
    → IsItem k v
    → read_block quirks (render_key k ++ (v ++ (crlf ++ rest))) [] false b
      ≡ read_block quirks rest [] false (record b { items = b.items ++ ((k, v) ∷ []) })
unfolding render_key
read_header_line quirks k v rest b it =
    let t = header_line k v in
    let solid = IsTrimmed-IsSolid k it.key_plain.trimmed it.key_present in
    let text : (k ++ colon_space) ++ (v ++ (crlf ++ rest)) ≡ t ++ (crlf ++ rest) =
      append_assoc k colon_space (v ++ (crlf ++ rest))
      ∙ sym (append_assoc k (b':' ∷ b' ' ∷ v) (crlf ++ rest)) in
    let one_line =
      Lacks-append b'\n' k (b':' ∷ b' ' ∷ v) it.key_plain.one_line
        (refl, (refl, it.value_plain.one_line)) in
    rw (it.key_present, text)
      (read_line quirks t rest false b one_line
        ∙ rw (IsSolid-not_last quirks t (IsSolid-append k (b':' ∷ b' ' ∷ v) solid))
            (ap (read_block quirks rest [] false) (add_header_line k v b it)))
