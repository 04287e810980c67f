-- ===== src/Protocol/Ason/RoundTrip/Scalar.antt =====
-- Every scalar that the encoder writes is read back unchanged.
use ash.Common.{
  ℕ, ◌^◌, ◌≤◌, ◌<◌, ◌≡◌, refl, ap, true, false, [], ◌∷◌, all, ◌==◌, ==_iff, arith, Bool-cases, inl,
  inr, ok,
}
use ash.Common.Text.{Str, str_bytes, str_len, utf8}
use ash.Protocol.Ason.Model.{Atom, null, reference, text}
use ash.Protocol.Ason.Scalar.{is_bare_byte, bare, decode_text, decode}
use ash.Protocol.Ason.Encode.{is_reference_syntax, is_bare_text, write_quoted, write_atom}
use ash.Protocol.Ason.RoundTrip.Numeral.{decode_reference-print_u64}
use ash.Protocol.Ason.RoundTrip.Quoted.{enforce_fits, quoted-write_quoted}

-- A scalar of the model's types whose text is within the ceiling.
abbrev pub Fits : ℕ → Atom → Type 0
Fits max_bytes null = Unit
Fits max_bytes (reference id) = id < 2 ^ 64
Fits max_bytes (text s) = str_len s ≤ max_bytes

-- Bare bytes exclude the two characters that begin other scalars.
bare_first :
    (k c : ℕ) (s : Str)
    → all is_bare_byte (str_bytes (k ∷ s)) ≡ false
    → all is_bare_byte (str_bytes (c ∷ s)) ≡ true
    → (c == k) ≡ false
bare_first k c s no_k h = elim (Bool-cases (c == k)) [
  | inr e ↦ e
  | inl e ↦
      let same : c ≡ k = (==_iff c k).0 e in
      cc (ap (λ d. all is_bare_byte (str_bytes (d ∷ s))) same, h, no_k)
]

bare_case :
    (c : ℕ) (s : Str) (line column max_bytes : ℕ)
    → str_len (c ∷ s) ≤ max_bytes
    → all is_bare_byte (str_bytes (c ∷ s)) ≡ true
    → is_reference_syntax (c ∷ s) ≡ false
    → decode (c ∷ s) line column max_bytes ≡ ok (text (c ∷ s))
unfolding decode is_reference_syntax decode_text bare
bare_case c s line column max_bytes l h r =
    rw (bare_first b'~' c s tilde h, r, bare_first b'"' c s quote h, h)
      (rw (enforce_fits max_bytes line (str_len (c ∷ s)) l) refl)
  where
    tilde : all is_bare_byte (str_bytes (b'~' ∷ s)) ≡ false
    tilde = unfold is_bare_byte utf8 in refl

    quote : all is_bare_byte (str_bytes (b'"' ∷ s)) ≡ false
    quote = unfold is_bare_byte utf8 in refl

quoted_case :
    (s : Str) (line column max_bytes : ℕ)
    → str_len s ≤ max_bytes
    → decode (write_quoted s) line column max_bytes ≡ ok (text s)
unfolding decode decode_text write_quoted
quoted_case s line column max_bytes l = rw (quoted-write_quoted s line column max_bytes l)

bare_parts :
    (c : ℕ) (s : Str)
    → is_bare_text (c ∷ s) ≡ true
    → (all is_bare_byte (str_bytes (c ∷ s)) ≡ true) × (is_reference_syntax (c ∷ s) ≡ false)
unfolding is_bare_text
bare_parts c s h = ground arith

-- Whatever the position, a reference of 64 bits and a text of at most `max_bytes` bytes are read
-- back from what the encoder writes for them, and so is null.
pub decode-write_atom :
    (a : Atom) (line column max_bytes : ℕ)
    → Fits max_bytes a
    → decode (write_atom a) line column max_bytes ≡ ok a
unfolding write_atom is_bare_text write_quoted
decode-write_atom null line column max_bytes h = unfold decode in refl
decode-write_atom (reference id) line column max_bytes h =
    let (digits, value) = decode_reference-print_u64 id line column h in
    unfold decode in rw (digits, value) refl
decode-write_atom (text []) line column max_bytes h = quoted_case [] line column max_bytes h
decode-write_atom (text (c ∷ s)) line column max_bytes h =
    elim (Bool-cases (is_bare_text (c ∷ s))) [
      | inl e ↦
          rw e (bare_case c s line column max_bytes h (bare_parts c s e).0 (bare_parts c s e).1)
      | inr e ↦ rw e (quoted_case (c ∷ s) line column max_bytes h)
    ]
