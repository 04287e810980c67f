-- ===== src/Protocol/Approval/Tests.antt =====
-- Concrete runs of the approval values, and the theorems at concrete inputs.
use ash.Common.{ℕ, ◌≡◌, ◌↔◌, refl, List, [], ◌∷◌, ◌++◌, replicate, ok, err, arith}
use ash.Common.Bytes.{IsArray, to_be_bytes}
use ash.Protocol.Approval.Values.{token, digest}
use ash.Protocol.Approval.Hex.{encode_hex, decode_hex_array, hex_digit, hex_nibble, decode_pairs}
use ash.Protocol.Approval.HexRoundTrip.{decode_hex_array_iff}
use ash.Protocol.Approval.Challenge.{
  ApprovalChallenge, IsTyped, validate, signing_bytes, from_signing_bytes,
}
use ash.Protocol.Approval.Signing.{signing_bytes-layout, from_signing_bytes-signing_bytes}

abbrev two_bytes : List ℕ
two_bytes = 0xab ∷ 0x07 ∷ []

abbrev lower : List ℕ
lower = b'a' ∷ b'b' ∷ b'0' ∷ b'7' ∷ []

encode_two : encode_hex two_bytes ≡ lower
unfolding encode_hex hex_digit
encode_two = refl

-- Capital digits are not canonical.
decode_capital : decode_hex_array 1 (b'A' ∷ b'b' ∷ []) ≡ err token
unfolding decode_hex_array decode_pairs hex_nibble
decode_capital = refl

decode_hex_array_iff_example :
    (decode_hex_array 2 lower ≡ ok two_bytes)
    ↔ (IsArray 2 two_bytes × (lower ≡ encode_hex two_bytes))
decode_hex_array_iff_example = decode_hex_array_iff 2 lower two_bytes

abbrev sample : ApprovalChallenge
sample = record {
  session_id = 7;
  capabilities = 2;
  expires_at_millis = 99;
  session_binding = replicate 16 1;
  policy_digest = replicate 16 2;
  action_digest = replicate 32 3;
  nonce = replicate 16 4;
}

sample-IsTyped : IsTyped sample
sample-IsTyped = omega arith

sample_valid : validate sample ≡ ok tt
unfolding validate
sample_valid = refl

-- A binding of zeros is refused.
zero_binding : validate (record sample { session_binding = replicate 16 0 }) ≡ err digest
unfolding validate
zero_binding = refl

signing_bytes-layout_example :
    signing_bytes sample
    ≡ 1
      ∷ (to_be_bytes 8 7
          ++ to_be_bytes 8 2
          ++ to_be_bytes 8 99
          ++ replicate 16 1
          ++ replicate 16 2
          ++ replicate 32 3
          ++ replicate 16 4)
signing_bytes-layout_example = signing_bytes-layout sample sample-IsTyped

from_signing_bytes-signing_bytes_example : from_signing_bytes (signing_bytes sample) ≡ ok sample
from_signing_bytes-signing_bytes_example =
    from_signing_bytes-signing_bytes sample sample-IsTyped sample_valid
