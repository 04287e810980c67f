-- ===== src/Ops/Authorization/Policy.antt =====
-- crates/ash-ops/src/authorization.rs: `AuthorizationPolicy` and the checks of its parts. The hash of
-- blake3 is a parameter.
use Prim.Native.Nat.{bit_or}
use ash.Common.{
  ℕ, ◌*◌, not, ◌||◌, Option, none, some, List, [], ◌∷◌, ◌++◌, take, length, ltb, ◌==◌,
  if◌then◌else◌, Result, ok, err, ◌>>◌, reject_if, bit_and,
}
use ash.Common.Eq.{bytes_eq}
use ash.Common.Text.{Str, codes, str_bytes, contains}
use ash.Protocol.Approval.Values.{ApprovalValueError, all_capability_mask, unknown_capabilities}

pub data AuthorizationError : Type 0 where
  invalid_policy invalid_authority invalid_challenge invalid_token : AuthorizationError
  replay capacity nonce_exhausted clock poisoned : AuthorizationError
  value : ApprovalValueError → AuthorizationError

-- Domain strings end with a NUL, which no identifier contains.
abbrev pub policy_domain : List ℕ
policy_domain = str_bytes (codes "ash-approval-policy-v1") ++ 0 ∷ []

abbrev pub max_policy_id_bytes : ℕ
max_policy_id_bytes = 128

abbrev second : ℕ
second = 1_000_000_000

-- A `Duration` is a number of nanoseconds.
abbrev pub default_challenge_ttl : ℕ
default_challenge_ttl = 5 * 60 * second

unfoldable pub validate_mask : ℕ → Result (Unit {0}) AuthorizationError
validate_mask mask =
    if bit_and mask unknown_capabilities == 0 then ok tt else err AuthorizationError.invalid_policy

unfoldable pub validate_policy_id : Str → Result (Unit {0}) AuthorizationError
validate_policy_id policy_id =
    if length (str_bytes policy_id) == 0
      || ltb max_policy_id_bytes (length (str_bytes policy_id))
      || contains 0 policy_id
      || contains 10 policy_id
      || contains 13 policy_id
    then err AuthorizationError.invalid_policy
    else ok tt

-- `policy_digest`, from the hash of a byte string.
unfoldable pub policy_digest : (List ℕ → List ℕ) → Str → List ℕ
policy_digest hash policy_id = take 16 (hash (policy_domain ++ str_bytes policy_id))

-- A policy, over the type of its authority.
pub record AuthorizationPolicy {ℓ} (A : Type ℓ) : Type ℓ where
  pub policy_digest : List ℕ
  pub granted : ℕ
  pub approval_required : ℕ
  pub authority : Option A
  pub challenge_ttl : ℕ

module _ {ℓ} {A : Type ℓ} (hash : List ℕ → List ℕ) where
  unfoldable pub allow : ℕ → Result (AuthorizationPolicy A) AuthorizationError
  allow capabilities = do
    validate_mask capabilities
    ok (record {
      policy_digest = policy_digest hash (codes "ash-direct-grant");
      granted = capabilities;
      approval_required = 0;
      authority = none;
      challenge_ttl = default_challenge_ttl;
    })

  -- `default`
  unfoldable pub default_policy : AuthorizationPolicy A
  default_policy = record {
    policy_digest = policy_digest hash (codes "ash-default");
    granted = all_capability_mask;
    approval_required = 0;
    authority = none;
    challenge_ttl = default_challenge_ttl;
  }

  -- The digest of the authority's policy is read through `digest_of`.
  unfoldable pub with_approvals :
      (A → List ℕ) → Str → ℕ → ℕ → A → Result (AuthorizationPolicy A) AuthorizationError
  with_approvals digest_of policy_id granted approval_required authority = do
    validate_policy_id policy_id
    validate_mask granted
    validate_mask approval_required
    reject_if
        (not (bit_and granted approval_required == 0)
          || approval_required == 0
          || not (bytes_eq (digest_of authority) (policy_digest hash policy_id)))
        AuthorizationError.invalid_policy
    ok (record {
      policy_digest = policy_digest hash policy_id;
      granted = granted;
      approval_required = approval_required;
      authority = some authority;
      challenge_ttl = default_challenge_ttl;
    })

module _ {ℓ} {A : Type ℓ} where
  unfoldable pub with_challenge_ttl :
      AuthorizationPolicy A → ℕ → Result (AuthorizationPolicy A) AuthorizationError
  with_challenge_ttl p ttl =
      if ttl == 0 || ltb (60 * 60 * second) ttl
      then err AuthorizationError.invalid_policy
      else ok (record p { challenge_ttl = ttl })

  unfoldable pub capability_mask : AuthorizationPolicy A → ℕ
  capability_mask p = bit_or p.granted p.approval_required

  unfoldable pub restrict : AuthorizationPolicy A → ℕ → AuthorizationPolicy A
  restrict p capabilities =
      let kept = bit_and capabilities all_capability_mask in
      let required = bit_and p.approval_required kept in
      record p {
        granted = bit_and p.granted kept;
        approval_required = required;
        authority = (if required == 0 then none else p.authority);
      }
