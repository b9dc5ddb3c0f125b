-- ===== src/Record/Kind/RoundTrip.antt =====
-- A record type is read back from its name and from its number.
use chatnoir_resiliparse.Prelude.{◌≡◌, refl, true, Option, none, some, [], ◌∷◌, arith}
use chatnoir_resiliparse.Bytes.{
  Bytes, codes, bytes_eq, to_lower, to_ascii_lowercase, eq_ignore_ascii_case,
}
use chatnoir_resiliparse.Record.{WarcRecordType}
use chatnoir_resiliparse.Record.Kind.{as_str, try_from_bytes, as_u16, try_from_u16}

pub bytes_eq-same : (v w : Bytes) → bytes_eq v w ≡ true → v ≡ w
unfolding bytes_eq
bytes_eq-same [] [] h = refl
bytes_eq-same [] (y ∷ ys) h = cc
bytes_eq-same (x ∷ xs) [] h = cc
bytes_eq-same (x ∷ xs) (y ∷ ys) h = ground (arith, bytes_eq-same xs ys)

-- The types without a name of their own are read back as unknown.
abbrev pub named : WarcRecordType → WarcRecordType
named WarcRecordType.any_type = WarcRecordType.unknown
named WarcRecordType.no_type = WarcRecordType.unknown
named t = t

-- `Unknown` is missing from the numbers that are read back.
abbrev pub numbered : WarcRecordType → Option WarcRecordType
numbered WarcRecordType.unknown = none
numbered t = some t

-- The name of a record type, in any case of its letters, is read back as that type, where the two
-- types without a name are read as unknown; the number of a type is read back as it, where the
-- number of unknown is refused.
pub try_from-as_str :
    (t : WarcRecordType) (v : Bytes)
    → eq_ignore_ascii_case v (codes (as_str t)) ≡ true
    → (try_from_bytes v ≡ some (named t)) × (try_from_u16 (as_u16 t) ≡ numbered t)
unfolding eq_ignore_ascii_case try_from_bytes bytes_eq to_lower to_ascii_lowercase as_str as_u16
    try_from_u16
try_from-as_str t v e =
    read t v (bytes_eq-same (to_ascii_lowercase v) (to_ascii_lowercase (codes (as_str t))) e)
  where
    read :
        (t : WarcRecordType) (v : Bytes)
        → to_ascii_lowercase v ≡ to_ascii_lowercase (codes (as_str t))
        → (try_from_bytes v ≡ some (named t)) × (try_from_u16 (as_u16 t) ≡ numbered t)
    read WarcRecordType.warc_info v e = (rw e refl, refl)
    read WarcRecordType.response v e = (rw e refl, refl)
    read WarcRecordType.resource v e = (rw e refl, refl)
    read WarcRecordType.request v e = (rw e refl, refl)
    read WarcRecordType.metadata v e = (rw e refl, refl)
    read WarcRecordType.revisit v e = (rw e refl, refl)
    read WarcRecordType.conversion v e = (rw e refl, refl)
    read WarcRecordType.continuation v e = (rw e refl, refl)
    read WarcRecordType.unknown v e = (rw e refl, refl)
    read WarcRecordType.any_type v e = (rw e refl, refl)
    read WarcRecordType.no_type v e = (rw e refl, refl)
