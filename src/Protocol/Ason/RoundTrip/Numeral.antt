-- ===== src/Protocol/Ason/RoundTrip/Numeral.antt =====
-- The decimal text of a reference: digits with no leading zero, which parse to the number.
use ash.Common.{
  ℕ, zero, suc, ◌/◌, ◌%◌, ◌^◌, ◌≤◌, ◌<◌, ◌≡◌, refl, true, some, [], ◌∷◌, ◌++◌, all, All, All-append,
  ltb, arith, Bool-cases, inl, inr, lt→ltb, ltb→lt, ok,
}
use ash.Common.Text.{Str, str_bytes, utf8, is_ascii_digit}
use ash.Common.Radix.{
  div-lt-pow, digit_char, print_radix, print_u64, parse_digits, from_str_radix, to_digit,
  parse_digits-print_radix,
}
use ash.Protocol.Ason.Model.{reference}
use ash.Protocol.Ason.Scalar.{decode_reference, is_reference_digits}

abbrev IsDigit : ℕ → Type 0
IsDigit c = (48 ≤ c) × (c ≤ 57)

digit_char-IsDigit : (d : ℕ) → d < 10 → IsDigit (digit_char d)
unfolding digit_char
digit_char-IsDigit d h = ground arith

small_shape :
    (v : ℕ)
    → 0 < v
    → v < 10
    → (d : ℕ) × (ds : Str) × (◌≡◌ {A = Str} (digit_char v ∷ []) (d ∷ ds))
      × (49 ≤ d)
      × (d ≤ 57)
      × All IsDigit ds
unfolding digit_char
small_shape v p h = (digit_char v, [], refl, ground arith, ground arith, tt)

-- A positive number has no leading zero.
print_shape :
    (k v : ℕ)
    → 0 < v
    → v < 10 ^ suc k
    → (d : ℕ) × (ds : Str) × (print_radix 10 (suc k) v ≡ d ∷ ds)
      × (49 ≤ d)
      × (d ≤ 57)
      × All IsDigit ds
unfolding print_radix
print_shape zero v p h =
    let low : v < 10 = omega arith in rw (lt→ltb v 10 low) (small_shape v p low)
print_shape (suc k) v p h = elim (Bool-cases (ltb v 10)) [
  | inl e ↦ rw e (small_shape v p (ltb→lt v 10 e))
  | inr e ↦
      let (d, ds, shape, lo, hi, rest) =
        print_shape k (v / 10) (ground arith) (div-lt-pow 10 (suc k) v (omega arith) h) in
      rw (e, shape)
        (
          d,
          ds ++ digit_char (v % 10) ∷ [],
          refl,
          lo,
          hi,
          All-append IsDigit ds (digit_char (v % 10) ∷ []) rest
              (digit_char-IsDigit (v % 10) (omega arith), tt),
        )
]

bytes_digits : (s : Str) → All IsDigit s → all is_ascii_digit (str_bytes s) ≡ true
unfolding utf8
bytes_digits [] h = refl
bytes_digits (c ∷ s) h = ground (arith, bytes_digits s h.1)

reference_digits : (d : ℕ) (ds : Str) → All IsDigit (d ∷ ds) → is_reference_digits (d ∷ ds) ≡ true
unfolding is_reference_digits
reference_digits d ds h = bytes_digits (d ∷ ds) h

-- What a text of digits with a first digit that is not zero is read as.
decode_positive :
    (d : ℕ) (ds : Str) (v line column : ℕ)
    → 49 ≤ d
    → d ≤ 57
    → parse_digits 10 (2 ^ 64) 0 (d ∷ ds) ≡ some v
    → decode_reference (d ∷ ds) line column ≡ ok (reference v)
unfolding decode_reference from_str_radix
decode_positive d [] v line column lo hi e = ground arith
decode_positive d (d' ∷ ds) v line column lo hi e = ground arith

-- The decimal digits that are written for a 64-bit number are the digits of a reference, and are
-- read back as that number.
pub decode_reference-print_u64 :
    (v line column : ℕ)
    → v < 2 ^ 64
    → (is_reference_digits (print_u64 v) ≡ true)
      × (decode_reference (print_u64 v) line column ≡ ok (reference v))
decode_reference-print_u64 zero line column h =
    unfold print_radix digit_char is_reference_digits utf8 decode_reference from_str_radix
      parse_digits to_digit in
    (refl, refl)
decode_reference-print_u64 (suc v) line column h =
    let (d, ds, shape, lo, hi, rest) = print_shape 19 (suc v) (omega arith) (omega arith) in
    let parsed =
      parse_digits-print_radix 10 (2 ^ 64) 19 (suc v) (omega arith) (omega arith) h (omega arith) in
    rw shape (
      reference_digits d ds ((omega arith, hi), rest),
      decode_positive d ds (suc v) line column lo hi (rw shape at parsed),
    )
