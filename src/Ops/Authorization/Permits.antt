-- ===== src/Ops/Authorization/Permits.antt =====
-- crates/ash-ops/src/authorization.rs: `PermitAuthority`. The hashes of blake3 are parameters, the
-- clock is an argument: `none` where it cannot be read as a number of milliseconds.
use Prim.Native.Nat.{bit_or, bit_xor}
use ash.Common.{
  ℕ, ◌/◌, Bool, false, not, ◌&&◌, ◌||◌, Option, none, some, List, [], ◌∷◌, ◌++◌, take, drop, length,
  replicate, ltb, leb, ◌==◌, if◌then◌else◌, Result, ok, err, ◌>>◌, reject_if,
}
use ash.Common.Eq.{bytes_eq, bytes_keys}
use ash.Common.Map.{Map, get, insert, remove, retain, is_some}
use ash.Common.Bytes.{to_be_bytes}
use ash.Common.Words.{u64_modulus, checked_add}
use ash.Common.Text.{Str, codes, str_bytes}
use ash.Protocol.Approval.Challenge.{ApprovalChallenge, signing_bytes}
use ash.Protocol.Approval.Challenge
use ash.Ops.Authorization.Policy.{AuthorizationError, validate_policy_id, policy_digest}

abbrev pub nonce_domain : List ℕ
nonce_domain = str_bytes (codes "ash-approval-nonce-v1") ++ 0 ∷ []

abbrev pub token_domain : List ℕ
token_domain = str_bytes (codes "ash-approval-token-v1") ++ 0 ∷ []

abbrev pub max_pending_permits : ℕ
max_pending_permits = 4096

abbrev pub max_used_permits : ℕ
max_used_permits = 4096

pub record PermitState : Type 0 where
  pub pending : Map (List ℕ) ApprovalChallenge
  pub used : Map (List ℕ) ℕ

-- The clones of an authority share one `Arc`, so it is one state; `poisoned` is the lock's flag.
pub record PermitAuthority : Type 0 where
  pub key : List ℕ
  pub session_binding : List ℕ
  pub policy_digest : List ℕ
  pub counter : ℕ
  pub poisoned : Bool
  pub state : PermitState

unfoldable pub new_authority :
    (List ℕ → List ℕ) → List ℕ → List ℕ → Str → Result PermitAuthority AuthorizationError
new_authority hash key session_binding policy_id = do
  validate_policy_id policy_id
  reject_if (bytes_eq key (replicate 32 0) || bytes_eq session_binding (replicate 16 0))
      AuthorizationError.invalid_authority
  ok (record {
    key = key;
    session_binding = session_binding;
    policy_digest = policy_digest hash policy_id;
    counter = 0;
    poisoned = false;
    state = record { pending = []; used = [] };
  })

abbrev pub live : ℕ → ApprovalChallenge → Bool
live now c = ltb now c.expires_at_millis

unfoldable pub purge_expired : PermitState → ℕ → PermitState
purge_expired s now = record {
  pending = retain (live now) s.pending;
  used = retain (λ expiry. ltb now expiry) s.used;
}

-- The derived equality of challenges.
unfoldable pub challenge_eq : ApprovalChallenge → ApprovalChallenge → Bool
challenge_eq c d =
    c.session_id == d.session_id
    && c.capabilities == d.capabilities
    && c.expires_at_millis == d.expires_at_millis
    && bytes_eq c.session_binding d.session_binding
    && bytes_eq c.policy_digest d.policy_digest
    && bytes_eq c.action_digest d.action_digest
    && bytes_eq c.nonce d.nonce

unfoldable pub differences : ℕ → List ℕ → List ℕ → ℕ
differences difference (x ∷ xs) (y ∷ ys) = differences (bit_or difference (bit_xor x y)) xs ys
differences difference [] ys = difference
differences difference (x ∷ xs) [] = difference

unfoldable pub constant_time_eq : List ℕ → List ℕ → Bool
constant_time_eq expected actual =
    if not (length expected == length actual) then false else differences 0 expected actual == 0

module _ (keyed_hash : List ℕ → List ℕ → List ℕ) where
  unfoldable pub token_mac : List ℕ → List ℕ → List ℕ
  token_mac key signing = keyed_hash key (token_domain ++ signing)

  -- The token that `issue` makes for a challenge.
  unfoldable pub token_of : List ℕ → ApprovalChallenge → List ℕ
  token_of key c = c.nonce ++ token_mac key (signing_bytes c)

  unfoldable pub issue :
      PermitAuthority
      → Option ℕ
      → ApprovalChallenge
      → PermitAuthority × Result (List ℕ) AuthorizationError
  issue a none c = (a, err AuthorizationError.clock)
  issue a (some now) c =
      if not (bytes_eq c.session_binding a.session_binding)
        || not (bytes_eq c.policy_digest a.policy_digest)
        || leb c.expires_at_millis now
      then (a, err AuthorizationError.invalid_challenge)
      else if a.poisoned
      then (a, err AuthorizationError.poisoned)
      else (
        record a { state = purge_expired a.state now },
        elim (get (purge_expired a.state now).pending c.nonce) [
          | none ↦ err AuthorizationError.invalid_challenge
          | some d ↦
              if challenge_eq d c
              then ok (token_of a.key c)
              else err AuthorizationError.invalid_challenge
        ],
      )

  unfoldable pub nonce_material : PermitAuthority → ℕ → ℕ → ℕ → List ℕ → List ℕ
  nonce_material a session_id capabilities expires action_digest =
      nonce_domain
      ++ (a.session_binding
          ++ (to_be_bytes 8 session_id
              ++ (to_be_bytes 8 capabilities
                  ++ (to_be_bytes 8 expires ++ (to_be_bytes 8 a.counter ++ action_digest)))))

  -- The end of `challenge`: a valid challenge is kept as pending under the lock.
  unfoldable pub enter_pending :
      PermitAuthority
      → ℕ
      → ApprovalChallenge
      → PermitAuthority × Result ApprovalChallenge AuthorizationError
  enter_pending a now c =
      if a.poisoned
      then (a, err AuthorizationError.poisoned)
      else (let s = purge_expired a.state now in
          if leb max_pending_permits (length s.pending)
          then (record a { state = s }, err AuthorizationError.capacity)
          else if is_some (get s.pending c.nonce)
          then (record a { state = s }, err AuthorizationError.invalid_challenge)
          else (record a { state = record s { pending = insert s.pending c.nonce c } }, ok c))

  -- The middle of `challenge`: the deadline is known, and the counter is drawn.
  unfoldable pub draw_challenge :
      PermitAuthority
      → ℕ
      → ℕ
      → ℕ
      → List ℕ
      → ℕ
      → PermitAuthority × Result ApprovalChallenge AuthorizationError
  draw_challenge a now session_id capabilities action_digest expires =
      let nonce =
        take 16
          (keyed_hash a.key (nonce_material a session_id capabilities expires action_digest)) in
      elim (checked_add u64_modulus a.counter 1) [
        | none ↦ (a, err AuthorizationError.nonce_exhausted)
        | some counter ↦
            elim (Challenge.new session_id capabilities expires a.session_binding a.policy_digest
              action_digest nonce) [
                | err e ↦ (record a { counter = counter }, err (AuthorizationError.value e))
                | ok c ↦ enter_pending (record a { counter = counter }) now c
              ]
      ]

  -- `challenge`, for a time to live in nanoseconds.
  unfoldable pub challenge :
      PermitAuthority
      → Option ℕ
      → ℕ
      → ℕ
      → List ℕ
      → ℕ
      → PermitAuthority × Result ApprovalChallenge AuthorizationError
  challenge a none session_id capabilities action_digest ttl = (a, err AuthorizationError.clock)
  challenge a (some now) session_id capabilities action_digest ttl =
      if leb u64_modulus (ttl / 1_000_000)
      then (a, err AuthorizationError.clock)
      else elim (checked_add u64_modulus now (ttl / 1_000_000)) [
        | none ↦ (a, err AuthorizationError.clock)
        | some expires ↦ draw_challenge a now session_id capabilities action_digest expires
      ]

  -- The checks of `verify` on a pending challenge.
  unfoldable pub permits :
      PermitAuthority
      → ℕ
      → List ℕ
      → ℕ
      → ℕ
      → List ℕ
      → ApprovalChallenge
      → Result (Unit {0}) AuthorizationError
  permits a now token session_id capabilities action_digest c = do
    reject_if
        (not (c.session_id == session_id)
          || not (c.capabilities == capabilities)
          || not (bytes_eq c.session_binding a.session_binding)
          || not (bytes_eq c.policy_digest a.policy_digest)
          || not (bytes_eq c.action_digest action_digest)
          || leb c.expires_at_millis now)
        AuthorizationError.invalid_token
    reject_if (not (constant_time_eq (token_mac a.key (signing_bytes c)) (drop 16 token)))
        AuthorizationError.invalid_token
    reject_if (leb max_used_permits (length a.state.used)) AuthorizationError.capacity

  -- `verify` under the lock, on the state that has been purged.
  unfoldable pub verify_purged :
      PermitAuthority
      → ℕ
      → List ℕ
      → ℕ
      → ℕ
      → List ℕ
      → PermitAuthority × Result (Unit {0}) AuthorizationError
  verify_purged a now token session_id capabilities action_digest =
      if is_some (get a.state.used (take 16 token))
      then (a, err AuthorizationError.replay)
      else elim (get a.state.pending (take 16 token)) [
        | none ↦ (a, err AuthorizationError.invalid_token)
        | some c ↦ elim (permits a now token session_id capabilities action_digest c) [
          | err e ↦ (a, err e)
          | ok _ ↦ (
            record a {
              state = record {
                pending = remove a.state.pending (take 16 token);
                used = insert a.state.used (take 16 token) c.expires_at_millis;
              };
            },
            ok tt,
          )
        ]
      ]

  unfoldable pub verify :
      PermitAuthority
      → Option ℕ
      → List ℕ
      → ℕ
      → ℕ
      → List ℕ
      → PermitAuthority × Result (Unit {0}) AuthorizationError
  verify a none token session_id capabilities action_digest = (a, err AuthorizationError.clock)
  verify a (some now) token session_id capabilities action_digest =
      if a.poisoned
      then (a, err AuthorizationError.poisoned)
      else verify_purged (record a { state = purge_expired a.state now }) now token session_id
          capabilities action_digest
