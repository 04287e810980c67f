-- ===== src/Protocol/Approval/Challenge.antt =====
-- crates/ash-protocol/src/capability.rs: `ApprovalChallenge`, its constructor and its signing bytes.
use ash.Common.{
  ℕ, ◌+◌, ◌||◌, not, List, [], ◌∷◌, ◌++◌, foldl, length, take, drop, replicate, get_or, ◌==◌,
  Result, ok, ◌>>=◌, ◌>>◌, reject_if, bit_and,
}
use ash.Common.Eq.{bytes_eq}
use ash.Common.Bytes.{IsArray, IsU64, to_be_bytes, from_be_bytes, slice}
use ash.Protocol.Approval.Values.{
  ApprovalValueError, unsigned, capability, digest, version, unknown_capabilities,
  approval_challenge_version, approval_signing_bytes,
}

pub record ApprovalChallenge : Type 0 where
  pub session_id : ℕ
  pub capabilities : ℕ
  pub expires_at_millis : ℕ
  pub session_binding : List ℕ
  pub policy_digest : List ℕ
  pub action_digest : List ℕ
  pub nonce : List ℕ

unfoldable pub validate : ApprovalChallenge → Result (Unit {0}) ApprovalValueError
validate c = do
  reject_if (c.session_id == 0) (unsigned "s")
  reject_if (c.capabilities == 0 || not (bit_and c.capabilities unknown_capabilities == 0))
      capability
  reject_if (c.expires_at_millis == 0) (unsigned "e")
  reject_if
      (bytes_eq c.session_binding (replicate 16 0)
        || bytes_eq c.policy_digest (replicate 16 0)
        || bytes_eq c.action_digest (replicate 32 0)
        || bytes_eq c.nonce (replicate 16 0))
      digest

unfoldable pub new :
    ℕ → ℕ → ℕ → List ℕ → List ℕ → List ℕ → List ℕ → Result ApprovalChallenge ApprovalValueError
new session_id capabilities expires session_binding policy_digest action_digest nonce =
    let challenge : ApprovalChallenge = record {
      session_id = session_id;
      capabilities = capabilities;
      expires_at_millis = expires;
      session_binding = session_binding;
      policy_digest = policy_digest;
      action_digest = action_digest;
      nonce = nonce;
    } in
    validate challenge >>= λ _. ok challenge

-- The types of the fields: `u64`s and arrays of 16 and 32 bytes.
pub record IsTyped (c : ApprovalChallenge) : Type 0 where
  pub session_id : IsU64 c.session_id
  pub capabilities : IsU64 c.capabilities
  pub expires_at_millis : IsU64 c.expires_at_millis
  pub session_binding : IsArray 16 c.session_binding
  pub policy_digest : IsArray 16 c.policy_digest
  pub action_digest : IsArray 32 c.action_digest
  pub nonce : IsArray 16 c.nonce

-- `put`: copies a block to the cursor and moves the cursor behind it.
unfoldable pub put : List ℕ × ℕ → List ℕ → List ℕ × ℕ
put (output, cursor) value =
    (take cursor output ++ (value ++ drop (cursor + length value) output), cursor + length value)

-- The blocks that `signing_bytes` writes, in its order.
unfoldable pub signing_blocks : ApprovalChallenge → List (List ℕ)
signing_blocks c =
    (approval_challenge_version ∷ [])
    ∷ to_be_bytes 8 c.session_id
    ∷ to_be_bytes 8 c.capabilities
    ∷ to_be_bytes 8 c.expires_at_millis
    ∷ c.session_binding
    ∷ c.policy_digest
    ∷ c.action_digest
    ∷ c.nonce
    ∷ []

unfoldable pub signing_bytes : ApprovalChallenge → List ℕ
signing_bytes c = (foldl put (replicate approval_signing_bytes 0, 0) (signing_blocks c)).0

-- The argument is an array of `approval_signing_bytes` bytes, so no slice is out of range.
unfoldable pub from_signing_bytes : List ℕ → Result ApprovalChallenge ApprovalValueError
from_signing_bytes bytes = do
  reject_if (not (get_or bytes 0 0 == approval_challenge_version)) version
  new (from_be_bytes (slice 1 8 bytes)) (from_be_bytes (slice 9 8 bytes))
      (from_be_bytes (slice 17 8 bytes)) (slice 25 16 bytes) (slice 41 16 bytes) (slice 57 32 bytes)
      (slice 89 16 bytes)
