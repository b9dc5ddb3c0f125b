-- ===== src/Bytes.antt =====
-- Byte sequences (`Vec<u8>`, `&[u8]`) as lists of numbers, with the operations of Rust's slices and
-- of the memchr crate that the header, chunk and record code call.
pub mod Trim
pub mod Utf8
use Prim.Native.Char.{code}
use chatnoir_resiliparse.Prelude.{
  ℕ, zero, suc, ◌+◌, ◌-◌, Bool, true, false, not, ◌&&◌, ◌||◌, String, Option, none, some, List, [],
  ◌∷◌, leb, ◌==◌, if◌then◌else◌, length, take, drop,
}

abbrev pub Bytes : Type 0
Bytes = List ℕ

-- The bytes of an ASCII literal.
abbrev pub codes : String → Bytes
codes String.[] = []
codes (String.◌∷◌ c s) = code c ∷ codes s

-- `u8::is_ascii_whitespace`: space, tab, LF, form feed, CR.
unfoldable pub is_ascii_whitespace : ℕ → Bool
is_ascii_whitespace c = c == 32 || c == 9 || c == 10 || c == 12 || c == 13

abbrev pub is_empty : Bytes → Bool
is_empty [] = true
is_empty (c ∷ cs) = false

unfoldable pub trim_ascii_start : Bytes → Bytes
trim_ascii_start [] = []
trim_ascii_start (c ∷ cs) =
    let rest = trim_ascii_start cs in if is_ascii_whitespace c then rest else c ∷ cs

unfoldable pub trim_ascii_end : Bytes → Bytes
trim_ascii_end [] = []
trim_ascii_end (c ∷ cs) =
    let rest = trim_ascii_end cs in if is_ascii_whitespace c && is_empty rest then [] else c ∷ rest

unfoldable pub trim_ascii : Bytes → Bytes
trim_ascii v = trim_ascii_end (trim_ascii_start v)

unfoldable pub to_lower : ℕ → ℕ
to_lower c = if leb 65 c && leb c 90 then c + 32 else c

unfoldable pub to_ascii_lowercase : Bytes → Bytes
to_ascii_lowercase [] = []
to_ascii_lowercase (c ∷ cs) = to_lower c ∷ to_ascii_lowercase cs

unfoldable pub bytes_eq : Bytes → Bytes → Bool
bytes_eq [] [] = true
bytes_eq (x ∷ xs) (y ∷ ys) = x == y && bytes_eq xs ys
bytes_eq _ _ = false

unfoldable pub eq_ignore_ascii_case : Bytes → Bytes → Bool
eq_ignore_ascii_case a b = bytes_eq (to_ascii_lowercase a) (to_ascii_lowercase b)

unfoldable pub starts_with : Bytes → Bytes → Bool
starts_with v [] = true
starts_with [] (p ∷ ps) = false
starts_with (c ∷ cs) (p ∷ ps) = c == p && starts_with cs ps

abbrev pub bump : Option ℕ → Option ℕ
bump none = none
bump (some i) = some (suc i)

-- `memchr`: the first position of a byte.
unfoldable pub memchr : ℕ → Bytes → Option ℕ
memchr b [] = none
memchr b (c ∷ cs) = let rest = memchr b cs in if c == b then some 0 else bump rest

abbrev pub starts_lf : Bytes → Bool
starts_lf [] = false
starts_lf (c ∷ cs) = c == 10

-- `memmem::Finder::new("\r\n").find`: the first position of CR LF.
unfoldable pub find_crlf : Bytes → Option ℕ
find_crlf [] = none
find_crlf (c ∷ cs) =
    let rest = find_crlf cs in if c == 13 && starts_lf cs then some 0 else bump rest

-- `&buf[start..end]`.
unfoldable pub slice : Bytes → ℕ → ℕ → Bytes
slice buf start end = drop start (take end buf)
