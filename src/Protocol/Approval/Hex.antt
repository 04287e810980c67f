-- ===== src/Protocol/Approval/Hex.antt =====
-- crates/ash-protocol/src/capability.rs: lowercase hexadecimal, as tokens and digests are written.
use ash.Common.{
  ℕ, ◌+◌, ◌-◌, ◌*◌, ◌/◌, ◌&&◌, not, List, [], ◌∷◌, length, get_or, Option, none, some, leb, ltb,
  ◌==◌, if◌then◌else◌, Result, ok, err, ◌>>=◌, ◌>>◌, ok_or, reject_if, bit_and,
}
use ash.Protocol.Approval.Values.{ApprovalValueError, token, approval_token_bytes}

-- `b"0123456789abcdef"`
abbrev hex_table : List ℕ
hex_table =
    b'0' ∷ b'1' ∷ b'2' ∷ b'3' ∷ b'4' ∷ b'5' ∷ b'6' ∷ b'7' ∷ b'8' ∷ b'9' ∷ b'a' ∷ b'b' ∷ b'c' ∷ b'd'
    ∷ b'e' ∷ b'f' ∷ []

unfoldable pub hex_digit : ℕ → ℕ
hex_digit i = get_or hex_table i 0

unfoldable pub encode_hex : List ℕ → List ℕ
encode_hex [] = []
encode_hex (b ∷ bs) = hex_digit (b / 16) ∷ hex_digit (bit_and b 0x0f) ∷ encode_hex bs

unfoldable pub hex_nibble : ℕ → Result ℕ ApprovalValueError
hex_nibble c =
    if leb b'0' c && leb c b'9'
    then ok (c - b'0')
    else if leb b'a' c && leb c b'f'
    then ok (c - b'a' + 10)
    else err token

-- An arithmetic result as a `u8`, or `None` where it would wrap.
abbrev pub checked_u8 : ℕ → Option ℕ
checked_u8 v = if ltb v 256 then some v else none

-- `high.checked_mul(16).and_then(|high| high.checked_add(low))`
unfoldable pub join_nibbles : ℕ → ℕ → Option ℕ
join_nibbles high low = elim (checked_u8 (high * 16)) [
  | none ↦ none
  | some h ↦ checked_u8 (h + low)
]

-- The loop over `chunks_exact(2)`.
unfoldable pub decode_pairs : List ℕ → Result (List ℕ) ApprovalValueError
decode_pairs [] = ok []
decode_pairs (c ∷ []) = ok []
decode_pairs (c ∷ d ∷ rest) = do
  high ← hex_nibble c
  low ← hex_nibble d
  b ← ok_or (join_nibbles high low) token
  bs ← decode_pairs rest
  ok (b ∷ bs)

unfoldable pub decode_hex_array : ℕ → List ℕ → Result (List ℕ) ApprovalValueError
decode_hex_array n value = do reject_if (not (length value == n * 2)) token; decode_pairs value

-- `ApprovalToken::parse` and `ApprovalToken::encode`; a token is its 48 bytes.
unfoldable pub parse_token : List ℕ → Result (List ℕ) ApprovalValueError
unfolding decode_hex_array
parse_token value = decode_hex_array approval_token_bytes value

unfoldable pub encode_token : List ℕ → List ℕ
unfolding encode_hex
encode_token t = encode_hex t
