-- ===== src/Protocol/Ason/RoundTrip/Quoted.antt =====
-- Reading back a quoted text, character by character.
use ash.Common.{
  ℕ, zero, suc, ◌+◌, ◌^◌, ◌≤◌, ◌<◌, ◌≡◌, refl, ap, ◌∙◌, true, false, not, ◌&&◌, none, some, List,
  [], ◌∷◌, ◌++◌, length, length-append, all, All, ltb, leb, ◌==◌, ==_iff, if◌then◌else◌, arith,
  Bool-cases, inl, inr, Result, ok, err, ◌>>◌, append_assoc, append-nil,
}
use ash.Common.Bytes.{agree_below, agree_below→eq}
use ash.Common.Text.{
  Str, str_len, str_len-append, len_utf8, utf8, char_indices, is_ascii_hexdigit, is_control,
}
use ash.Common.Radix.{print_hex, print_radix, digit_char, from_str_radix, parse_digits, to_digit}
use ash.Protocol.Ason.Errors.{DecodeError}
use ash.Protocol.Ason.Scalar.{
  escape_digits, escape_value, parse_unicode_escape, escape, enforce_bytes, quoted_loop, quoted,
}
use ash.Protocol.Ason.Encode.{escaped, escaped_text, write_quoted}

char_indices-append :
    (o : ℕ) (s t : Str)
    → char_indices o (s ++ t) ≡ char_indices o s ++ char_indices (o + str_len s) t
char_indices-append o [] t = ap (λ (n : ℕ). char_indices n t) (omega arith)
char_indices-append o (c ∷ s) t =
    ap (λ r. (o, c) ∷ r)
      (char_indices-append (o + len_utf8 c) s t
        ∙ ap (λ (n : ℕ). char_indices (o + len_utf8 c) s ++ char_indices n t) (omega arith))

not_brace : (d : ℕ) → is_ascii_hexdigit d ≡ true → (d == b'}') ≡ false
not_brace d h = ground arith

not_six : (n : ℕ) → n < 6 → (n == 6) ≡ false
not_six n h = ground arith

escape_digits_lem :
    (line column o : ℕ) (ds acc : Str) (rest : List (ℕ × ℕ))
    → All (λ c. is_ascii_hexdigit c ≡ true) ds
    → length acc + length ds ≤ 6
    → escape_digits line column (char_indices o (ds ++ b'}' ∷ []) ++ rest) acc
      ≡ ok (acc ++ ds, rest)
unfolding escape_digits
escape_digits_lem line column o [] acc rest h l = rw append-nil refl
escape_digits_lem line column o (d ∷ ds) acc rest (hd, h) l =
    rw (not_brace d hd, hd, not_six (length acc) (omega arith))
      (escape_digits_lem line column (o + len_utf8 d) ds (acc ++ d ∷ []) rest h
          (omega (arith, length-append acc (d ∷ [])))
        ∙ rw append_assoc)

-- The hexadecimal text of a control character, checked on each.
hex_value : ℕ → ℕ
hex_value c = elim (from_str_radix 16 (2 ^ 32) (print_hex c)) [ none ↦ 999 | some v ↦ v ]

hex_shape : ℕ → ℕ
hex_shape c =
    if leb (length (print_hex c)) 2
      && ltb 0 (length (print_hex c))
      && all is_ascii_hexdigit (print_hex c)
    then 1
    else 0

hex_value_lem : (c : ℕ) → c < 160 → hex_value c ≡ c
unfolding agree_below hex_value from_str_radix parse_digits to_digit print_radix digit_char
hex_value_lem = agree_below→eq hex_value (λ c. c) 160 refl

hex_shape_lem : (c : ℕ) → c < 160 → hex_shape c ≡ 1
unfolding agree_below hex_shape print_radix digit_char
hex_shape_lem = agree_below→eq hex_shape (λ c. 1) 160 refl

all→All : (s : Str) → all is_ascii_hexdigit s ≡ true → All (λ c. is_ascii_hexdigit c ≡ true) s
all→All [] h = tt
all→All (c ∷ s) h = (ground arith, all→All s (ground arith))

hex_parse : (c : ℕ) → c < 160 → from_str_radix 16 (2 ^ 32) (print_hex c) ≡ some c
unfolding hex_value
hex_parse c h = ground (arith, hex_value_lem c)

escape_value_lem :
    (line column c : ℕ) (s : Str)
    → 0 < length s
    → from_str_radix 16 (2 ^ 32) s ≡ some c
    → c < 160
    → escape_value line column s ≡ ok c
unfolding escape_value
escape_value_lem line column c [] l e h = absurd (omega arith)
escape_value_lem line column c (d ∷ ds) l e h = rw e (ground arith)

hex_facts :
    (c : ℕ)
    → c < 160
    → (length (print_hex c) ≤ 2)
      × (0 < length (print_hex c))
      × (all is_ascii_hexdigit (print_hex c) ≡ true)
unfolding hex_shape
hex_facts c h = ground (arith, hex_shape_lem c)

-- The escape of a control character.
unicode_lem :
    (line column o c : ℕ) (rest : List (ℕ × ℕ))
    → c < 160
    → parse_unicode_escape (char_indices o (b'{' ∷ (print_hex c ++ b'}' ∷ [])) ++ rest) line column
      ≡ ok (c, rest)
unfolding parse_unicode_escape
unicode_lem line column o c rest h =
    let (short, some_digit, hex) = hex_facts c h in
    rw
      (escape_digits_lem line column (o + len_utf8 b'{') (print_hex c) [] rest
        (all→All (print_hex c) hex) (omega arith))
      (rw (escape_value_lem line column c (print_hex c) some_digit (hex_parse c h) h))

control_bound : (c : ℕ) → is_control c ≡ true → c < 160
control_bound c h = ground arith

escaped_pos : (c : ℕ) → 1 ≤ length (escaped c)
unfolding escaped
escaped_pos c = ground arith

pub enforce_fits : (most line actual : ℕ) → actual ≤ most → enforce_bytes actual most line ≡ ok tt
unfolding enforce_bytes
enforce_fits most line actual h = ground arith

closing :
    (source_len o : ℕ) (out : Str) (E : DecodeError)
    → o + 0 + 2 ≡ source_len
    → (if not (o + len_utf8 b'"' + 1 == source_len) then err E else ok out) ≡ ok out
unfolding utf8
closing source_len o out E e = ground arith

measure : (s : Str) → 0 + str_len (escaped_text s) + 2 ≡ str_len (write_quoted s)
unfolding write_quoted utf8
measure s = omega (arith, str_len-append (escaped_text s) (b'"' ∷ []))

-- One character of the text: the loop takes its escape and goes on with the character.
module _ (source_len line column max_bytes fuel : ℕ) (rest : List (ℕ × ℕ)) (out : Str) where
  abbrev next : ℕ → Result Str DecodeError
  next c =
      enforce_bytes (str_len (out ++ c ∷ [])) max_bytes line
      >> quoted_loop source_len line column max_bytes fuel rest (out ++ c ∷ [])

  abbrev Takes : ℕ → ℕ → Type 0
  Takes c o =
      quoted_loop source_len line column max_bytes (suc fuel) (char_indices o (escaped c) ++ rest)
        out
      ≡ next c

  take_plain :
      (c o : ℕ)
      → (c == b'\\') ≡ false
      → (c == b'"') ≡ false
      → (c == 10) ≡ false
      → (c == 13) ≡ false
      → (c == 9) ≡ false
      → is_control c ≡ false
      → Takes c o
  unfolding escaped quoted_loop
  take_plain c o a b n r t k = rw (a, b, n, r, t, k) (rw (a, b, k) refl)

  take_control :
      (c o : ℕ)
      → (c == b'\\') ≡ false
      → (c == b'"') ≡ false
      → (c == 10) ≡ false
      → (c == 13) ≡ false
      → (c == 9) ≡ false
      → is_control c ≡ true
      → Takes c o
  unfolding escaped quoted_loop escape
  take_control c o a b n r t k =
      rw (a, b, n, r, t, k)
        (rw
          (unicode_lem line (column + (o + len_utf8 b'\\') + 2) (o + len_utf8 b'\\' + len_utf8 b'u')
            c rest (control_bound c k))
          refl)

  take_other :
      (c o : ℕ)
      → (c == b'\\') ≡ false
      → (c == b'"') ≡ false
      → (c == 10) ≡ false
      → (c == 13) ≡ false
      → (c == 9) ≡ false
      → Takes c o
  take_other c o a b n r t = elim (Bool-cases (is_control c)) [
    | inl k ↦ take_control c o a b n r t k
    | inr k ↦ take_plain c o a b n r t k
  ]

  -- The characters with an escape of their own.
  take_same : (k c o : ℕ) → (c == k) ≡ true → Takes k o → Takes c o
  take_same k c o e h = let same : c ≡ k = (==_iff c k).0 e in rw same h

  take : (c o : ℕ) → Takes c o
  unfolding escaped quoted_loop escape
  take c o = elim (Bool-cases (c == b'\\')) [
    | inl e ↦ take_same b'\\' c o e refl
    | inr a ↦ elim (Bool-cases (c == b'"')) [
      | inl e ↦ take_same b'"' c o e refl
      | inr b ↦ elim (Bool-cases (c == 10)) [
        | inl e ↦ take_same 10 c o e refl
        | inr n ↦ elim (Bool-cases (c == 13)) [
          | inl e ↦ take_same 13 c o e refl
          | inr r ↦ elim (Bool-cases (c == 9)) [
            | inl e ↦ take_same 9 c o e refl
            | inr t ↦ take_other c o a b n r t
          ]
        ]
      ]
    ]
  ]

-- The loop on a whole escaped text and the closing quote.
quoted_loop_lem :
    (source_len line column max_bytes : ℕ) (s : Str) (fuel o : ℕ) (out : Str)
    → length s < fuel
    → o + str_len (escaped_text s) + 2 ≡ source_len
    → str_len out + str_len s ≤ max_bytes
    → quoted_loop source_len line column max_bytes fuel
        (char_indices o (escaped_text s ++ b'"' ∷ []))
        out
      ≡ ok (out ++ s)
unfolding escaped_text
quoted_loop_lem source_len line column max_bytes s zero o out f e l = absurd (omega arith)
quoted_loop_lem source_len line column max_bytes [] (suc fuel) o out f e l =
    unfold quoted_loop in rw append-nil (closing source_len o out _ e)
quoted_loop_lem source_len line column max_bytes (c ∷ s) (suc fuel) o out f e l =
    rw (append_assoc, char_indices-append o (escaped c) (escaped_text s ++ b'"' ∷ []))
      (take source_len line column max_bytes fuel
          (char_indices (o + str_len (escaped c)) (escaped_text s ++ b'"' ∷ [])) out c o
        ∙ rw
            (enforce_fits max_bytes line (str_len (out ++ c ∷ []))
              (omega (arith, str_len-append out (c ∷ []))))
            (quoted_loop_lem source_len line column max_bytes s fuel (o + str_len (escaped c))
                (out ++ c ∷ []) (omega arith)
                (omega (arith, e, str_len-append (escaped c) (escaped_text s)))
                (omega (arith, str_len-append out (c ∷ [])))
              ∙ rw append_assoc))

escaped_longer : (s : Str) → length s ≤ length (escaped_text s)
unfolding escaped_text
escaped_longer [] = omega arith
escaped_longer (c ∷ s) =
    omega (arith, escaped_longer s, length-append (escaped c) (escaped_text s), escaped_pos c)

-- A text of at most `max_bytes` bytes is read back from the quoted form that is written for it, with
-- all of its escapes.
pub quoted-write_quoted :
    (s : Str) (line column max_bytes : ℕ)
    → str_len s ≤ max_bytes
    → quoted (write_quoted s) line column max_bytes ≡ ok s
unfolding quoted write_quoted
quoted-write_quoted s line column max_bytes h =
    quoted_loop_lem _ line column max_bytes s (length (escaped_text s ++ b'"' ∷ [])) 0 []
      (omega (arith, escaped_longer s, length-append (escaped_text s) (b'"' ∷ []))) (measure s)
      (omega arith)
