-- ===== src/Ops/Authorization/Capacity.antt =====
-- crates/ash-ops/src/authorization.rs: the bounds of an authority's tables.
use ash.Common.{
  ℕ, ◌≤◌, ◌<◌, ◌≡◌, Option, none, some, List, [], ◌∷◌, take, length, ltb, arith, inl, inr, ok, err,
  Result-cases,
}
use ash.Common.Eq.{bytes_keys}
use ash.Common.Map.{length-retain-le, length-insert_new, length-remove-le}
use ash.Protocol.Approval.Challenge.{ApprovalChallenge}
use ash.Ops.Authorization.Permits.{
  PermitAuthority, PermitState, purge_expired, live, issue, enter_pending, challenge, permits,
  verify, verify_purged, max_pending_permits, max_used_permits,
}
use ash.Ops.Authorization.Policy.{AuthorizationError}
use ash.Ops.Authorization.Verify.{verify_purged-ok, verify_purged-accepted}
use ash.Ops.Authorization.Replay.{
  Call, issue_call, challenge_call, verify_call, step, run_calls, challenge-Entered,
}

pub record IsBounded (s : PermitState) : Type 0 where
  pub pending : length s.pending ≤ max_pending_permits
  pub used : length s.used ≤ max_used_permits

purge-IsBounded : (s : PermitState) (now : ℕ) → IsBounded s → IsBounded (purge_expired s now)
unfolding purge_expired
purge-IsBounded s now b = record {
  pending = omega (arith, length-retain-le (live now) s.pending, b.pending);
  used = omega (arith, length-retain-le (λ expiry. ltb now expiry) s.used, b.used);
}

module _ (keyed_hash : List ℕ → List ℕ → List ℕ) where
  issue-IsBounded :
      (a : PermitAuthority) (now : Option ℕ) (c : ApprovalChallenge)
      → IsBounded a.state
      → IsBounded (issue keyed_hash a now c).0.state
  unfolding issue
  issue-IsBounded a none c b = b
  issue-IsBounded a (some now) c b = ground (arith, purge-IsBounded a.state now b)

  enter-IsBounded :
      (a : PermitAuthority) (now : ℕ) (c : ApprovalChallenge)
      → IsBounded a.state
      → IsBounded (enter_pending keyed_hash a now c).0.state
  unfolding enter_pending
  enter-IsBounded a now c b =
      let p = purge-IsBounded a.state now b in
      record {
        pending = ground (
          arith,
          p.pending,
          b.pending,
          length-insert_new (purge_expired a.state now).pending c.nonce c,
        );
        used = ground (arith, p.used, b.used);
      }

  permits_room :
      (a : PermitAuthority) (now : ℕ) (token : List ℕ) (session_id capabilities : ℕ)
      (action_digest : List ℕ) (c : ApprovalChallenge)
      → permits keyed_hash a now token session_id capabilities action_digest c ≡ ok tt
      → length a.state.used < max_used_permits
  unfolding permits
  permits_room a now token session_id capabilities action_digest c h = ground arith

  verify_purged_refused :
      (a : PermitAuthority) (now : ℕ) (token : List ℕ) (session_id capabilities : ℕ)
      (action_digest : List ℕ) {e : AuthorizationError}
      → (verify_purged keyed_hash a now token session_id capabilities action_digest).1 ≡ err e
      → (verify_purged keyed_hash a now token session_id capabilities action_digest).0 ≡ a
  unfolding verify_purged
  verify_purged_refused a now token session_id capabilities action_digest h = ground arith

  verify_purged-IsBounded :
      (a : PermitAuthority) (now : ℕ) (token : List ℕ) (session_id capabilities : ℕ)
      (action_digest : List ℕ)
      → IsBounded a.state
      → IsBounded
          (verify_purged keyed_hash a now token session_id capabilities action_digest).0.state
  verify_purged-IsBounded a now token session_id capabilities action_digest b =
      elim (Result-cases
        (verify_purged keyed_hash a now token session_id capabilities action_digest).1) [
          | inr (x, e) ↦
              rw (verify_purged_refused a now token session_id capabilities action_digest e) b
          | inl (tt, e) ↦
              let (c, pending, permitted, unspent) =
                verify_purged-accepted keyed_hash a now token session_id capabilities action_digest
                  e in
              rw
                (verify_purged-ok keyed_hash a now token session_id capabilities action_digest c
                  pending permitted unspent)
                (record {
                  pending =
                      omega (arith, length-remove-le a.state.pending (take 16 token), b.pending);
                  used = omega (
                    arith,
                    length-insert_new a.state.used (take 16 token) c.expires_at_millis unspent,
                    permits_room a now token session_id capabilities action_digest c permitted,
                  );
                })
        ]

  verify-IsBounded :
      (a : PermitAuthority) (now : Option ℕ) (token : List ℕ) (session_id capabilities : ℕ)
      (action_digest : List ℕ)
      → IsBounded a.state
      → IsBounded (verify keyed_hash a now token session_id capabilities action_digest).0.state
  unfolding verify
  verify-IsBounded a none token session_id capabilities action_digest b = b
  verify-IsBounded a (some now) token session_id capabilities action_digest b = ground (
    arith,
    verify_purged-IsBounded (record a { state = purge_expired a.state now }) now token session_id
        capabilities action_digest (purge-IsBounded a.state now b),
  )

  challenge-IsBounded :
      (a : PermitAuthority) (now : Option ℕ) (session_id capabilities : ℕ) (action_digest : List ℕ)
      (ttl : ℕ)
      → IsBounded a.state
      → IsBounded (challenge keyed_hash a now session_id capabilities action_digest ttl).0.state
  challenge-IsBounded a none session_id capabilities action_digest ttl b = unfold challenge in b
  challenge-IsBounded a (some now) session_id capabilities action_digest ttl b =
      elim (challenge-Entered keyed_hash a now session_id capabilities action_digest ttl) [
        | inl e ↦ rw e b
        | inr (c, counter, e) ↦ rw e (enter-IsBounded (record a { counter = counter }) now c b)
      ]

  step-IsBounded :
      (a : PermitAuthority) (call : Call)
      → IsBounded a.state
      → IsBounded (step keyed_hash a call).state
  unfolding step
  step-IsBounded a (issue_call now c) b = issue-IsBounded a now c b
  step-IsBounded a (challenge_call now session_id capabilities action_digest ttl) b =
      challenge-IsBounded a now session_id capabilities action_digest ttl b
  step-IsBounded a (verify_call now token session_id capabilities action_digest) b =
      verify-IsBounded a now token session_id capabilities action_digest b

  -- No sequence of calls makes the table of pending challenges or the table of spent nonces larger
  -- than its bound.
  pub run_calls-IsBounded :
      (a : PermitAuthority) (calls : List Call)
      → IsBounded a.state
      → IsBounded (run_calls keyed_hash a calls).state
  unfolding run_calls
  run_calls-IsBounded a [] b = b
  run_calls-IsBounded a (call ∷ calls) b =
      run_calls-IsBounded (step keyed_hash a call) calls (step-IsBounded a call b)
