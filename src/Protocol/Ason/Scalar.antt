-- ===== src/Protocol/Ason/Scalar.antt =====
-- crates/ash-protocol/src/ason/scalar.rs: decoding one scalar. Offsets and columns count bytes.

use ash.Common.{
  ℕ, zero, suc, ◌+◌, ◌^◌, Bool, false, not, ◌&&◌, ◌||◌, none, some, List, [], ◌∷◌, ◌++◌, length,
  all, ltb, ◌==◌, if◌then◌else◌, Result, ok, err, ◌>>=◌, ◌>>◌, ok_or,
}
use ash.Common.Eq.{bytes_eq}
use ash.Common.Text.{
  Str, str_bytes, str_len, len_utf8, char_indices, is_ascii_digit, is_ascii_alphanumeric,
  is_ascii_hexdigit, is_control, from_u32, starts_with,
}
use ash.Common.Radix.{parse_u64, from_str_radix}
use ash.Protocol.Ason.Errors.{
  DecodeError, LimitKind, limit, syntax, invalid_escape, invalid_reference,
}
use ash.Protocol.Ason.Model.{Atom, null, reference, text}

unfoldable pub is_bare_byte : ℕ → Bool
is_bare_byte b =
    is_ascii_alphanumeric b
    || b == b'_'
    || b == b'.'
    || b == b'/'
    || b == b'@'
    || b == b'+'
    || b == b'-'
    || b == b'#'
    || b == b'?'
    || b == b'|'
    || b == b'>'

unfoldable pub enforce_bytes : ℕ → ℕ → ℕ → Result (Unit {0}) DecodeError
enforce_bytes actual max line =
    if ltb max actual then err (limit LimitKind.scalar_bytes max line) else ok tt

unfoldable pub bare : Str → ℕ → ℕ → ℕ → Result Atom DecodeError
unfolding enforce_bytes
bare source line column max_bytes = do
  enforce_bytes (str_len source) max_bytes line
  if all is_bare_byte (str_bytes source)
      then ok (text source)
      else err (syntax line column "invalid bare scalar character")

-- The digits of an escape, up to the closing brace, and what follows it.
unfoldable pub escape_digits : ℕ → ℕ → List (ℕ × ℕ) → Str → Result (Str × List (ℕ × ℕ)) DecodeError
escape_digits line column [] digits = err (invalid_escape line column "unterminated unicode escape")
escape_digits line column ((o, c) ∷ rest) digits =
    if c == b'}'
    then ok (digits, rest)
    else if not (is_ascii_hexdigit c) || length digits == 6
    then err (invalid_escape line column "unicode escape requires one to six hexadecimal digits")
    else escape_digits line column rest (digits ++ c ∷ [])

unfoldable pub escape_value : ℕ → ℕ → Str → Result ℕ DecodeError
escape_value line column [] = err (invalid_escape line column "unicode escape cannot be empty")
escape_value line column (c ∷ s) = do
  value ←
      ok_or (from_str_radix 16 (2 ^ 32) (c ∷ s))
        (invalid_escape line column "invalid unicode scalar")
  ok_or (from_u32 value) (invalid_escape line column "invalid unicode scalar")

unfoldable pub parse_unicode_escape : List (ℕ × ℕ) → ℕ → ℕ → Result (ℕ × List (ℕ × ℕ)) DecodeError
parse_unicode_escape [] line column =
    err (invalid_escape line column "unicode escape must start with '{'")
parse_unicode_escape ((o, c) ∷ rest) line column =
    if c == b'{'
    then (do
      (digits, after) ← escape_digits line column rest []
      value ← escape_value line column digits
      ok (value, after))
    else err (invalid_escape line column "unicode escape must start with '{'")

-- The character that an escape stands for, and the characters after it.
unfoldable pub escape : ℕ → ℕ → ℕ → List (ℕ × ℕ) → Result (ℕ × List (ℕ × ℕ)) DecodeError
escape line column current [] = err (invalid_escape line current "incomplete escape")
escape line column current ((o, c) ∷ rest) =
    if c == b'\\'
    then ok (b'\\', rest)
    else if c == b'"'
    then ok (b'"', rest)
    else if c == b'n'
    then ok (10, rest)
    else if c == b'r'
    then ok (13, rest)
    else if c == b't'
    then ok (9, rest)
    else if c == b'u'
    then parse_unicode_escape rest line (column + o + 2)
    else err (invalid_escape line current "unknown escape")

-- The loop of `quoted` over `source[1..].char_indices()`. Every round takes a character, so the
-- number of characters is enough fuel; with none left the quotation is unterminated.
unfoldable pub quoted_loop : ℕ → ℕ → ℕ → ℕ → ℕ → List (ℕ × ℕ) → Str → Result Str DecodeError
quoted_loop source_len line column max_bytes fuel [] output =
    err (syntax line column "unterminated quoted string")
quoted_loop source_len line column max_bytes zero ((offset, c) ∷ rest) output =
    err (syntax line column "unterminated quoted string")
quoted_loop source_len line column max_bytes (suc fuel) ((offset, c) ∷ rest) output =
    let again = λ (value : ℕ) (after : List (ℕ × ℕ)).
      enforce_bytes (str_len (output ++ value ∷ [])) max_bytes line
      >> quoted_loop source_len line column max_bytes fuel after (output ++ value ∷ []) in
    if c == b'"'
    then (if not (offset + len_utf8 c + 1 == source_len)
        then err (syntax line (column + offset + 1) "characters follow the closing quote")
        else ok output)
    else if c == b'\\'
    then (do (value, after) ← escape line column (column + offset + 1) rest; again value after)
    else if is_control c
    then err (syntax line (column + offset + 1) "control character must be escaped")
    else again c rest

-- `source` with its opening quote; `tail` is what follows that quote.
unfoldable pub quoted : Str → ℕ → ℕ → ℕ → Result Str DecodeError
quoted [] line column max_bytes = err (syntax line column "unterminated quoted string")
quoted (q ∷ tail) line column max_bytes =
    quoted_loop (str_len (q ∷ tail)) line column max_bytes (length tail) (char_indices 0 tail) []

-- `@` and digits.
unfoldable pub decode_reference : Str → ℕ → ℕ → Result Atom DecodeError
decode_reference digits line column =
    if ltb 1 (length digits) && starts_with b'0' digits
    then err (invalid_reference line column)
    else elim (parse_u64 digits) [
      | some id ↦ ok (reference id)
      | none ↦ err (invalid_reference line column)
    ]

unfoldable pub is_reference_digits : Str → Bool
is_reference_digits [] = false
is_reference_digits (d ∷ ds) = all is_ascii_digit (str_bytes (d ∷ ds))

unfoldable pub decode_text : Str → ℕ → ℕ → ℕ → Result Atom DecodeError
decode_text source line column max_bytes =
    if starts_with b'"' source
    then (do value ← quoted source line column max_bytes; ok (text value))
    else bare source line column max_bytes

unfoldable pub decode : Str → ℕ → ℕ → ℕ → Result Atom DecodeError
decode [] line column max_bytes = err (syntax line column "empty scalar must be written as \"\"")
decode (c ∷ rest) line column max_bytes =
    if bytes_eq (c ∷ rest) (b'~' ∷ [])
    then ok null
    else if c == b'@' && is_reference_digits rest
    then decode_reference rest line column
    else decode_text (c ∷ rest) line column max_bytes
