-- ===== src/Common/Text.antt =====
-- Rust's `str` as the list of its characters (Unicode scalar values), with the UTF-8 bytes by which
-- the code measures and scans it, and the character classes that it asks for.
use Prim.Native.Nat.{ℕ, ◌+◌, ◌/◌, ◌%◌, ◌≤◌}
use Prim.Native.Char.{code}
use Prim.Native.String.{String}
use mathlib.Core.Path.{◌≡◌, refl}
use mathlib.Core.Bool.{Bool, false, ◌&&◌, ◌||◌}
use mathlib.Core.Option.{Option, none, some}
use mathlib.Core.List.{List, [], ◌∷◌, ◌++◌}
use native.Mathlib.Omega.{arith}
use ash.Common.Tests.{ltb, leb, ◌==◌, if◌then◌else◌}
use ash.Common.Lists.{length, length-append}

abbrev pub Str : Type 0
Str = List ℕ

-- The characters of a literal.
abbrev pub codes : String → Str
codes String.[] = []
codes (String.◌∷◌ c s) = code c ∷ codes s

-- `char::encode_utf8`
unfoldable pub utf8 : ℕ → List ℕ
utf8 c =
    if ltb c 0x80
    then c ∷ []
    else if ltb c 0x800
    then (0xc0 + c / 64) ∷ (0x80 + c % 64) ∷ []
    else if ltb c 0x1_0000
    then (0xe0 + c / 4096) ∷ (0x80 + c / 64 % 64) ∷ (0x80 + c % 64) ∷ []
    else (0xf0 + c / 262_144) ∷ (0x80 + c / 4096 % 64) ∷ (0x80 + c / 64 % 64) ∷ (0x80 + c % 64) ∷ []

abbrev pub len_utf8 : ℕ → ℕ
len_utf8 c = length (utf8 c)

-- `str::as_bytes`, `str::bytes`
abbrev pub str_bytes : Str → List ℕ
str_bytes [] = []
str_bytes (c ∷ s) = utf8 c ++ str_bytes s

-- `str::len` counts bytes.
abbrev pub str_len : Str → ℕ
str_len [] = 0
str_len (c ∷ s) = len_utf8 c + str_len s

pub length-str_bytes : (s : Str) → length (str_bytes s) ≡ str_len s
length-str_bytes [] = refl
length-str_bytes (c ∷ s) = omega (arith, length-append (utf8 c) (str_bytes s), length-str_bytes s)

pub str_len-append : (s t : Str) → str_len (s ++ t) ≡ str_len s + str_len t
str_len-append [] t = omega arith
str_len-append (c ∷ s) t = omega (arith, str_len-append s t)

pub length-le-str_len : (s : Str) → length s ≤ str_len s
unfolding utf8
length-le-str_len [] = omega arith
length-le-str_len (c ∷ s) = ground (arith, length-le-str_len s)

-- `str::char_indices`, from a given byte offset.
abbrev pub char_indices : ℕ → Str → List (ℕ × ℕ)
char_indices o [] = []
char_indices o (c ∷ s) = (o, c) ∷ char_indices (o + len_utf8 c) s

abbrev pub is_ascii_digit : ℕ → Bool
is_ascii_digit c = leb b'0' c && leb c b'9'

abbrev pub is_ascii_alphabetic : ℕ → Bool
is_ascii_alphabetic c = (leb b'a' c && leb c b'z') || (leb b'A' c && leb c b'Z')

abbrev pub is_ascii_alphanumeric : ℕ → Bool
is_ascii_alphanumeric c = is_ascii_digit c || is_ascii_alphabetic c

abbrev pub is_ascii_hexdigit : ℕ → Bool
is_ascii_hexdigit c = is_ascii_digit c || (leb b'a' c && leb c b'f') || (leb b'A' c && leb c b'F')

-- `char::is_control`: general category Cc.
abbrev pub is_control : ℕ → Bool
is_control c = ltb c 32 || (leb 127 c && leb c 159)

-- `char::from_u32` refuses surrogates and values past the last plane.
abbrev pub is_scalar : ℕ → Bool
is_scalar c = ltb c 0xd800 || (ltb 0xdfff c && ltb c 0x11_0000)

abbrev pub from_u32 : ℕ → Option ℕ
from_u32 c = if is_scalar c then some c else none

unfoldable pub contains : ℕ → Str → Bool
contains c [] = false
contains c (d ∷ s) = d == c || contains c s

-- `str::starts_with` and `str::ends_with` with one character.
abbrev pub starts_with : ℕ → Str → Bool
starts_with c [] = false
starts_with c (d ∷ s) = d == c

unfoldable pub ends_with : ℕ → Str → Bool
ends_with c [] = false
ends_with c (d ∷ []) = d == c
ends_with c (d ∷ e ∷ s) = ends_with c (e ∷ s)

-- `str::strip_suffix` with one character, and `str::split_once`.
unfoldable pub drop_last : Str → Str
drop_last [] = []
drop_last (c ∷ []) = []
drop_last (c ∷ d ∷ s) = c ∷ drop_last (d ∷ s)

unfoldable pub split_once : ℕ → Str → Option (Str × Str)
split_once c [] = none
split_once c (d ∷ s) =
    if d == c
    then some ([], s)
    else elim (split_once c s) [ none ↦ none | some (front, back) ↦ some (d ∷ front, back) ]

-- `str::split` with one character: one part more than there are separators.
unfoldable pub split : ℕ → Str → List Str
split c [] = [] ∷ []
split c (d ∷ s) =
    if d == c
    then [] ∷ split c s
    else elim (split c s) [ [] ↦ (d ∷ []) ∷ [] | part ∷ parts ↦ (d ∷ part) ∷ parts ]

-- `str::rfind` with one character, as the texts before and behind it.
unfoldable pub rsplit_once : ℕ → Str → Option (Str × Str)
rsplit_once c [] = none
rsplit_once c (d ∷ s) = elim (rsplit_once c s) [
  | some (front, back) ↦ some (d ∷ front, back)
  | none ↦ if d == c then some ([], s) else none
]

-- `iter().position(|byte| byte == c)` on bytes.
unfoldable pub position : ℕ → List ℕ → Option ℕ
position c [] = none
position c (d ∷ s) =
    if d == c then some 0 else elim (position c s) [ none ↦ none | some i ↦ some (i + 1) ]

-- `iter().filter(|byte| byte == c).count()`
unfoldable pub count : ℕ → List ℕ → ℕ
count c [] = 0
count c (d ∷ s) = (if d == c then 1 else 0) + count c s
