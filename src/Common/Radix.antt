-- ===== src/Common/Radix.antt =====
-- Printing and parsing of unsigned numbers (`to_string`, `{:x}`, `str::parse`, `from_str_radix`).
use Prim.Native.Nat.{ℕ, zero, suc, ◌+◌, ◌-◌, ◌*◌, ◌/◌, ◌%◌, ◌^◌, ◌≤◌, ◌<◌}
use mathlib.Core.Path.{◌≡◌, ap, ◌∙◌}
use mathlib.Core.Logic.{inl, inr}
use mathlib.Core.Bool.{◌&&◌}
use mathlib.Core.Option.{Option, none, some}
use mathlib.Core.List.{[], ◌∷◌, ◌++◌}
use native.Mathlib.Omega.{arith}
use native.Mathlib.Nat.{pow-suc, pow-zero, div-le_self, div-lt_iff_lt-mul}
use ash.Common.Tests.{ltb, leb, ◌==◌, if◌then◌else◌, Bool-cases, Option-cases, lt→ltb, ltb→lt}
use ash.Common.Text.{Str}

unfoldable pub digit_char : ℕ → ℕ
digit_char d = if ltb d 10 then d + 48 else d + 87

-- `char::to_digit`, for radix 10 and 16.
unfoldable pub to_digit : ℕ → ℕ → Option ℕ
to_digit radix c =
    let value : ℕ =
      if leb b'0' c && leb c b'9'
      then c - b'0'
      else if leb b'a' c && leb c b'f'
      then c - b'a' + 10
      else if leb b'A' c && leb c b'F'
      then c - b'A' + 10
      else radix in
    if ltb value radix then some value else none

-- The digits of a number, the most significant first. The fuel is a bound on their number; 20
-- decimal digits hold every u64 and 8 hexadecimal digits every u32.
unfoldable pub print_radix : ℕ → ℕ → ℕ → Str
print_radix radix zero v = []
print_radix radix (suc k) v =
    let rest = print_radix radix k (v / radix) in
    if ltb v radix then digit_char v ∷ [] else rest ++ digit_char (v % radix) ∷ []

abbrev pub print_u64 : ℕ → Str
print_u64 v = print_radix 10 20 v

abbrev pub print_hex : ℕ → Str
print_hex v = print_radix 16 8 v

unfoldable pub parse_digits : ℕ → ℕ → ℕ → Str → Option ℕ
parse_digits radix modulus acc [] = some acc
parse_digits radix modulus acc (c ∷ s) = elim (to_digit radix c) [
  | none ↦ none
  | some d ↦
      if ltb (acc * radix + d) modulus then parse_digits radix modulus (acc * radix + d) s else none
]

-- `from_str_radix`: a leading `+` is accepted, no digits are not.
unfoldable pub from_str_radix : ℕ → ℕ → Str → Option ℕ
from_str_radix radix modulus [] = none
from_str_radix radix modulus (c ∷ []) =
    if c == b'+' then none else parse_digits radix modulus 0 (c ∷ [])
from_str_radix radix modulus (c ∷ d ∷ s) =
    if c == b'+'
    then parse_digits radix modulus 0 (d ∷ s)
    else parse_digits radix modulus 0 (c ∷ d ∷ s)

abbrev pub parse_u64 : Str → Option ℕ
parse_u64 s = from_str_radix 10 (2 ^ 64) s

to_digit-digit_char :
    (radix d : ℕ) → d < radix → radix ≤ 16 → to_digit radix (digit_char d) ≡ some d
unfolding to_digit digit_char
to_digit-digit_char radix d h r = ground arith

parse_digits-append :
    (radix modulus acc : ℕ) (s t : Str) {v : ℕ}
    → parse_digits radix modulus acc s ≡ some v
    → parse_digits radix modulus acc (s ++ t) ≡ parse_digits radix modulus v t
unfolding parse_digits
parse_digits-append radix modulus acc [] t h = ground arith
parse_digits-append radix modulus acc (c ∷ s) t {v} h = elim (Option-cases (to_digit radix c)) [
  | inl e ↦ ground arith
  | inr (d, e) ↦ ground (arith, parse_digits-append radix modulus (acc * radix + d) s t {v = v})
]

one_digit :
    (radix modulus acc d v : ℕ)
    → d < radix
    → radix ≤ 16
    → v < modulus
    → acc * radix + d ≡ v
    → parse_digits radix modulus acc (digit_char d ∷ []) ≡ some v
unfolding parse_digits
one_digit radix modulus acc d v h r m e =
    rw (to_digit-digit_char radix d h r, parse_digits) (ground arith)

div-small : (radix modulus v : ℕ) → v < modulus → v / radix < modulus
div-small radix modulus v m = omega (arith, div-le_self v radix)

split_lem : (radix v : ℕ) → v / radix * radix + v % radix ≡ v
split_lem radix v = grind arith

pub div-lt-pow : (radix k v : ℕ) → 0 < radix → v < radix ^ suc k → v / radix < radix ^ k
div-lt-pow radix k v r h = (div-lt_iff_lt-mul r).1 (rw (← pow-suc radix k) h)

-- Parsing what was printed gives the number back, if the fuel holds its digits and the word holds it.
pub parse_digits-print_radix :
    (radix modulus k v : ℕ)
    → 1 < radix
    → radix ≤ 16
    → v < modulus
    → v < radix ^ suc k
    → parse_digits radix modulus 0 (print_radix radix (suc k) v) ≡ some v
unfolding print_radix
parse_digits-print_radix radix modulus zero v r r' m h =
    let low : v < radix =
      omega (arith, pow-suc radix 0, ap (λ (t : ℕ). t * radix) (pow-zero radix)) in
    rw (lt→ltb v radix low) (one_digit radix modulus 0 v v low r' m (omega arith))
parse_digits-print_radix radix modulus (suc k) v r r' m h = elim (Bool-cases (ltb v radix)) [
  | inl e ↦ rw e (one_digit radix modulus 0 v v (ltb→lt v radix e) r' m (omega arith))
  | inr e ↦ rw e (
      parse_digits-append radix modulus 0 (print_radix radix (suc k) (v / radix))
        (digit_char (v % radix) ∷ [])
        (parse_digits-print_radix radix modulus k (v / radix) r r' (div-small radix modulus v m)
          (div-lt-pow radix (suc k) v (omega arith) h))
      ∙ one_digit radix modulus (v / radix) (v % radix) v (omega arith) r' m (split_lem radix v))
]
