-- ===== src/Ops/Authorization/Tests.antt =====
-- A session's permits, with a checksum in place of the keyed hash.
use ash.Common.{
  ℕ, ◌+◌, ◌%◌, ◌≡◌, ◌↔◌, refl, ap, sym, ◌∙◌, false, true, none, some, List, [], ◌∷◌, ◌++◌, take,
  foldl, replicate, arith, Result, ok, err,
}
use ash.Common.Eq.{bytes_eq, bytes_eq_iff, bytes_keys}
use ash.Common.Map.{get, retain, insert, remove}
use ash.Common.Bytes.{to_be_bytes}
use ash.Common.Words.{checked_add}
use ash.Common.Text.{codes, contains, utf8}
use ash.Protocol.Approval.Challenge.{
  ApprovalChallenge, signing_bytes, validate, signing_blocks, put,
}
use ash.Protocol.Approval.Challenge
use ash.Ops.Authorization.Policy.{
  AuthorizationError, AuthorizationPolicy, policy_digest, default_challenge_ttl, with_approvals,
  with_challenge_ttl, restrict, validate_policy_id, validate_mask,
}
use ash.Ops.Authorization.Separation.{
  IsSeparate, hour, approves, retimes, restricts, Built-IsSeparate,
}
use ash.Ops.Authorization.Permits.{
  PermitAuthority, purge_expired, challenge_eq, differences, constant_time_eq, token_mac, token_of,
  permits, issue, nonce_material, enter_pending, draw_challenge, challenge, verify, verify_purged,
}
use ash.Ops.Authorization.Compare.{constant_time_eq_iff}
use ash.Ops.Authorization.Verify.{Permitted, verify-Permitted}
use ash.Ops.Authorization.Issue.{verify-issue}
use ash.Ops.Authorization.Replay.{
  Call, challenge_call, verify_call, run_calls, Undrawn, verify_once,
}
use ash.Ops.Authorization.Capacity.{IsBounded, run_calls-IsBounded}

abbrev checksum : List ℕ → List ℕ → List ℕ
checksum key message =
    replicate 32 (1 + foldl (λ a b. (a + b) % 255) (foldl (λ a b. (a + b) % 255) 0 key) message)

abbrev authority : PermitAuthority
authority = record {
  key = replicate 32 7;
  session_binding = replicate 16 8;
  policy_digest = replicate 16 9;
  counter = 0;
  poisoned = false;
  state = record { pending = []; used = [] };
}

abbrev action : List ℕ
action = replicate 32 3

-- A challenge that lives for a minute from 1000.
abbrev pending_challenge : ApprovalChallenge
pending_challenge = record {
  session_id = 9;
  capabilities = 2;
  expires_at_millis = 61_000;
  session_binding = replicate 16 8;
  policy_digest = replicate 16 9;
  action_digest = action;
  nonce = replicate 16 5;
}

abbrev one_pending : PermitAuthority
one_pending = record authority {
  state = record { pending = (replicate 16 5, pending_challenge) ∷ []; used = [] };
}

issued :
    (issue checksum one_pending (some 2_000) pending_challenge).1
    ≡ ok (token_of checksum (replicate 32 7) pending_challenge)
unfolding issue get retain purge_expired challenge_eq
issued = refl

abbrev token : List ℕ
token = replicate 16 5 ++ token_mac checksum (replicate 32 7) (signing_bytes pending_challenge)

constant_time_eq_iff_example :
    (constant_time_eq (1 ∷ 2 ∷ []) (1 ∷ 3 ∷ []) ≡ true)
    ↔ (◌≡◌ {A = List ℕ} (1 ∷ 2 ∷ []) (1 ∷ 3 ∷ []))
constant_time_eq_iff_example = constant_time_eq_iff (1 ∷ 2 ∷ []) (1 ∷ 3 ∷ [])

accepted : (verify checksum one_pending (some 3_000) token 9 2 action).1 ≡ ok tt
unfolding verify verify_purged permits get retain purge_expired token_mac constant_time_eq
    differences utf8 signing_bytes signing_blocks put to_be_bytes
accepted = refl

verify-Permitted_example :
    Permitted checksum one_pending
      (verify checksum one_pending (some 3_000) token 9 2 action).0
      3_000
      token
      9
      2
      action
verify-Permitted_example = verify-Permitted checksum one_pending 3_000 token 9 2 action accepted

unspent : get one_pending.state.used pending_challenge.nonce ≡ none
unfolding get
unspent = refl

verify-issue_example :
    (verify checksum
      (issue checksum one_pending (some 2_000) pending_challenge).0
      (some 3_000)
      (token_of checksum (replicate 32 7) pending_challenge)
      9
      2
      action).1
    ≡ ok tt
verify-issue_example =
    verify-issue checksum one_pending 2_000 3_000 pending_challenge
      (token_of checksum (replicate 32 7) pending_challenge) refl unspent (omega arith)
      (omega arith) issued

-- Behind the accepted permit: another challenge, and the same token again.
abbrev later_calls : List Call
later_calls =
    challenge_call (some 4_000) 9 2 action 60_000_000_000
    ∷ verify_call (some 5_000) token 9 2 action
    ∷ []

abbrev nonce_of : Result ApprovalChallenge AuthorizationError → List ℕ
nonce_of (ok c) = c.nonce
nonce_of (err e) = []

another_nonce :
    bytes_eq
      (nonce_of
        (challenge checksum
          (verify checksum one_pending (some 3_000) token 9 2 action).0
          (some 4_000)
          9
          2
          action
          60_000_000_000).1)
      (take 16 token)
    ≡ false
unfolding challenge draw_challenge checked_add verify verify_purged permits get retain purge_expired
    token_mac constant_time_eq differences utf8 signing_bytes signing_blocks put to_be_bytes insert
    remove nonce_material enter_pending Challenge.new validate
another_nonce = refl

later_calls-Undrawn :
    Undrawn checksum
      (take 16 token)
      (verify checksum one_pending (some 3_000) token 9 2 action).0
      later_calls
later_calls-Undrawn = (λ (c, e, n). differs c (ap nonce_of e ∙ n), (λ d. d, tt))
  where
    true_false : ¬ (true ≡ false)
    true_false p = cc

    differs :
        (c : ApprovalChallenge)
        → nonce_of
            (challenge checksum
              (verify checksum one_pending (some 3_000) token 9 2 action).0
              (some 4_000)
              9
              2
              action
              60_000_000_000).1
          ≡ take 16 token
        → ⊥
    differs c n = true_false (sym ((bytes_eq_iff _ (take 16 token)).1 n) ∙ another_nonce)

verify_once_example : ¬ (
    (verify checksum
      (run_calls checksum (verify checksum one_pending (some 3_000) token 9 2 action).0 later_calls)
      (some 6_000)
      token
      9
      2
      action).1
    ≡ ok tt)
verify_once_example =
    verify_once checksum one_pending 3_000 token 9 2 action later_calls (some 6_000) 9 2 action
      accepted later_calls-Undrawn

run_calls-IsBounded_example : IsBounded (run_calls checksum one_pending later_calls).state
run_calls-IsBounded_example =
    run_calls-IsBounded checksum one_pending later_calls
      (record { pending = omega arith; used = omega arith })

abbrev approvals : AuthorizationPolicy (List ℕ)
approvals = record {
  policy_digest = policy_digest (checksum []) (codes "policy");
  granted = 1;
  approval_required = 2;
  authority = some (policy_digest (checksum []) (codes "policy"));
  challenge_ttl = default_challenge_ttl;
}

made :
    with_approvals
      (checksum [])
      (λ digest. digest)
      (codes "policy")
      1
      2
      (policy_digest (checksum []) (codes "policy"))
    ≡ ok approvals
unfolding with_approvals validate_policy_id validate_mask policy_digest utf8 contains
made = refl

-- An hour to live, and nothing left that needs an approval.
abbrev read_only : AuthorizationPolicy (List ℕ)
read_only = restrict (record approvals { challenge_ttl = hour }) 1

approvals_for_an_hour :
    with_challenge_ttl approvals hour ≡ ok (record approvals { challenge_ttl = hour })
unfolding with_challenge_ttl
approvals_for_an_hour = refl

without_authority : read_only.authority ≡ none
unfolding restrict
without_authority = refl

Built-IsSeparate_example : IsSeparate (λ (digest : List ℕ). digest) read_only
Built-IsSeparate_example =
    Built-IsSeparate (checksum []) (λ digest. digest) read_only
      (restricts (record approvals { challenge_ttl = hour }) 1
        (retimes approvals (record approvals { challenge_ttl = hour }) hour
          (approves (codes "policy") 1 2 (policy_digest (checksum []) (codes "policy")) approvals
            made)
          approvals_for_an_hour))
