-- ===== src/Header/Map/Valid.antt =====
-- The operations that edit a header map let no offset leave the raw block.
use chatnoir_resiliparse.Prelude.{
  Bool, true, false, not, ◌||◌, List, [], ◌∷◌, ◌++◌, Bool-cases, inl, inr, filter,
}
use chatnoir_resiliparse.Bytes.{Bytes, bytes_eq, to_ascii_lowercase, trim_ascii}
use chatnoir_resiliparse.Header.{HeaderMap, CowHeaderTuple, tuple_key, clear}
use chatnoir_resiliparse.Header.View.{AllInBlock, IsValid}
use chatnoir_resiliparse.Header.Sanitize.{sanitize_header_value}
use chatnoir_resiliparse.Header.Text.{Codec, encode}
use chatnoir_resiliparse.Header.Text as T
use chatnoir_resiliparse.Header.Map.{
  key_matches, retain_set, set_bytes, append_bytes, append_bytes_no_sanitize, remove_bytes,
  set_status_line_bytes,
}

filter-InBlock :
    (raw : Bytes) (p : CowHeaderTuple → Bool) (ts : List CowHeaderTuple)
    → AllInBlock raw ts
    → AllInBlock raw (filter p ts)
filter-InBlock raw p [] h = tt
filter-InBlock raw p (t ∷ ts) (a, h) = elim (Bool-cases (p t)) [
  | inl e ↦ rw e (a, filter-InBlock raw p ts h)
  | inr e ↦ rw e (filter-InBlock raw p ts h)
]

concat-InBlock :
    (raw k v : Bytes) (ts : List CowHeaderTuple)
    → AllInBlock raw ts
    → AllInBlock raw (ts ++ (CowHeaderTuple.owned k v ∷ []))
concat-InBlock raw k v [] h = (tt, tt)
concat-InBlock raw k v (t ∷ ts) (a, h) = (a, concat-InBlock raw k v ts h)

retain_set-InBlock :
    (raw low k v : Bytes) (found : Bool) (ts : List CowHeaderTuple)
    → AllInBlock raw ts
    → AllInBlock raw (retain_set raw low (CowHeaderTuple.owned k v) found ts).0
unfolding retain_set
retain_set-InBlock raw low k v found [] h = tt
retain_set-InBlock raw low k v found (t ∷ ts) (a, h) =
    let matched = bytes_eq (to_ascii_lowercase (tuple_key raw t)) low in
    let ih = retain_set-InBlock raw low k v (found || matched) ts h in
    elim (Bool-cases matched) [
      | inr e ↦ rw e (a, rw e at ih)
      | inl e ↦ rw e (elim (Bool-cases found) [
        | inl f ↦ rw f (rw (e, f) at ih)
        | inr f ↦ rw f (tt, rw (e, f) at ih)
      ])
    ]

set_bytes-IsValid :
    (key value : Bytes) (h : HeaderMap) → IsValid h → IsValid (set_bytes key value h)
unfolding set_bytes
set_bytes-IsValid key value h v =
    let raw = h.raw_header_block in
    let k = sanitize_header_value key true in
    let x = sanitize_header_value value false in
    let low = sanitize_header_value (to_ascii_lowercase key) true in
    let kept = retain_set raw low (CowHeaderTuple.owned k x) false h.headers in
    let all = retain_set-InBlock raw low k x false h.headers v.headers_in_block in
    elim (Bool-cases kept.1) [
      | inl e ↦ record { status_in_block = v.status_in_block; headers_in_block = rw e all }
      | inr e ↦ record {
        status_in_block = v.status_in_block;
        headers_in_block = rw e (concat-InBlock raw k x kept.0 all);
      }
    ]

-- A header map after one operation on it that adds, replaces or removes headers or the status line, with
-- keys and values given as bytes or as text.
pub data Edit (codec : Codec) : HeaderMap → HeaderMap → Type 0 where
  set_raw : (key value : Bytes) (h : HeaderMap) → Edit codec h (set_bytes key value h)
  append_raw : (key value : Bytes) (h : HeaderMap) → Edit codec h (append_bytes key value h)
  append_unsanitized :
      (key value : Bytes) (h : HeaderMap) → Edit codec h (append_bytes_no_sanitize key value h)
  remove_raw : (key : Bytes) (h : HeaderMap) → Edit codec h (remove_bytes key h)
  set_status_raw : (line : Bytes) (h : HeaderMap) → Edit codec h (set_status_line_bytes line h)
  clear_all : (h : HeaderMap) → Edit codec h (clear h)
  set_text : (key value : Bytes) (h : HeaderMap) → Edit codec h (T.set codec key value h)
  append_text : (key value : Bytes) (h : HeaderMap) → Edit codec h (T.append codec key value h)
  remove_text : (key : Bytes) (h : HeaderMap) → Edit codec h (T.remove codec key h)
  set_status_text : (line : Bytes) (h : HeaderMap) → Edit codec h (T.set_status_line codec line h)

pub data Edits (codec : Codec) : HeaderMap → HeaderMap → Type 0 where
  unedited : (h : HeaderMap) → Edits codec h h
  then_edit : (h m n : HeaderMap) → Edits codec h m → Edit codec m n → Edits codec h n

append_bytes-IsValid :
    (key value : Bytes) (h : HeaderMap) → IsValid h → IsValid (append_bytes key value h)
unfolding append_bytes
append_bytes-IsValid key value h v = record {
  status_in_block = v.status_in_block;
  headers_in_block =
      concat-InBlock h.raw_header_block (sanitize_header_value key true)
        (sanitize_header_value value false) h.headers v.headers_in_block;
}

append_no_sanitize-IsValid :
    (key value : Bytes) (h : HeaderMap) → IsValid h → IsValid (append_bytes_no_sanitize key value h)
unfolding append_bytes_no_sanitize
append_no_sanitize-IsValid key value h v = record {
  status_in_block = v.status_in_block;
  headers_in_block =
      concat-InBlock h.raw_header_block (trim_ascii key) (trim_ascii value) h.headers
        v.headers_in_block;
}

remove_bytes-IsValid : (key : Bytes) (h : HeaderMap) → IsValid h → IsValid (remove_bytes key h)
unfolding remove_bytes
remove_bytes-IsValid key h v =
    let raw = h.raw_header_block in
    record {
      status_in_block = v.status_in_block;
      headers_in_block =
          filter-InBlock raw (λ t. not (key_matches raw (sanitize_header_value key true) t))
            h.headers v.headers_in_block;
    }

set_status_line_bytes-IsValid :
    (line : Bytes) (h : HeaderMap) → IsValid h → IsValid (set_status_line_bytes line h)
unfolding set_status_line_bytes
set_status_line_bytes-IsValid line h v = record {
  status_in_block = tt;
  headers_in_block = v.headers_in_block;
}

clear-IsValid : (h : HeaderMap) → IsValid (clear h)
unfolding clear
clear-IsValid h = record { status_in_block = tt; headers_in_block = tt }

Edit-IsValid : (codec : Codec) (h h' : HeaderMap) → Edit codec h h' → IsValid h → IsValid h'
unfolding T.set T.append T.remove T.set_status_line
Edit-IsValid codec _ _ (Edit.set_raw key value h) v = set_bytes-IsValid key value h v
Edit-IsValid codec _ _ (Edit.append_raw key value h) v = append_bytes-IsValid key value h v
Edit-IsValid codec _ _ (Edit.append_unsanitized key value h) v =
    append_no_sanitize-IsValid key value h v
Edit-IsValid codec _ _ (Edit.remove_raw key h) v = remove_bytes-IsValid key h v
Edit-IsValid codec _ _ (Edit.set_status_raw line h) v = set_status_line_bytes-IsValid line h v
Edit-IsValid codec _ _ (Edit.clear_all h) v = clear-IsValid h
Edit-IsValid codec _ _ (Edit.set_text key value h) v =
    set_bytes-IsValid (encode codec h.encoding key) (encode codec h.encoding value) h v
Edit-IsValid codec _ _ (Edit.append_text key value h) v =
    append_bytes-IsValid (encode codec h.encoding key) (encode codec h.encoding value) h v
Edit-IsValid codec _ _ (Edit.remove_text key h) v =
    remove_bytes-IsValid (encode codec h.encoding key) h v
Edit-IsValid codec _ _ (Edit.set_status_text line h) v =
    set_status_line_bytes-IsValid (encode codec h.encoding line) h v

-- Whatever sequence of these ten operations is applied to a header map whose offsets are inside its raw
-- block, they are inside it in the result.
pub operations-IsValid :
    (codec : Codec) (h h' : HeaderMap) → Edits codec h h' → IsValid h → IsValid h'
operations-IsValid codec h _ (Edits.unedited _) v = v
operations-IsValid codec h n (Edits.then_edit _ m _ before last) v =
    Edit-IsValid codec m n last (operations-IsValid codec h m before v)
