-- ===== src/Ops/Authorization/Replay.antt =====
-- crates/ash-ops/src/authorization.rs: an authority over the whole of a session. The operations are
-- those of its callers, in any order, each with its own reading of the clock.
use ash.Common.{
  ℕ, ◌≡◌, refl, sym, ap, ◌∙◌, ◌≢◌, Option, none, some, List, [], ◌∷◌, take, leb, arith, Result, ok,
  inl, inr, Option-cases, Result-cases, Bool-cases, ◌⊎◌, ◌/◌,
}
use ash.Common.Eq.{bytes_eq_iff, bytes_keys}
use ash.Common.Map.{get, get-insert, get-remove, get-retain_absent}
use ash.Common.Words.{u64_modulus, checked_add}
use ash.Protocol.Approval.Challenge.{ApprovalChallenge, validate}
use ash.Protocol.Approval.Challenge
use ash.Ops.Authorization.Policy.{AuthorizationError}
use ash.Ops.Authorization.Verify.{verify-Permitted}
use ash.Ops.Authorization.Permits.{
  PermitAuthority, PermitState, purge_expired, live, issue, enter_pending, draw_challenge,
  nonce_material, challenge, verify, verify_purged,
}

-- A call of the authority.
pub data Call : Type 0 where
  issue_call : Option ℕ → ApprovalChallenge → Call
  challenge_call : Option ℕ → ℕ → ℕ → List ℕ → ℕ → Call
  verify_call : Option ℕ → List ℕ → ℕ → ℕ → List ℕ → Call

purge_absent :
    (s : PermitState) (now : ℕ) (nonce : List ℕ)
    → get s.pending nonce ≡ none
    → get (purge_expired s now).pending nonce ≡ none
unfolding purge_expired
purge_absent s now nonce h = get-retain_absent (live now) s.pending nonce h

module _ (keyed_hash : List ℕ → List ℕ → List ℕ) where
  unfoldable pub step : PermitAuthority → Call → PermitAuthority
  unfolding issue
  step a (issue_call now c) = (issue keyed_hash a now c).0
  step a (challenge_call now session_id capabilities action_digest ttl) =
      (challenge keyed_hash a now session_id capabilities action_digest ttl).0
  step a (verify_call now token session_id capabilities action_digest) =
      (verify keyed_hash a now token session_id capabilities action_digest).0

  unfoldable pub run_calls : PermitAuthority → List Call → PermitAuthority
  unfolding step
  run_calls a [] = a
  run_calls a (call ∷ calls) = run_calls (step a call) calls

  -- A call of `challenge` that draws a nonce.
  abbrev pub Draws : List ℕ → PermitAuthority → Call → Type 0
  Draws nonce a (issue_call now c) = ⊥
  Draws nonce a (verify_call now token session_id capabilities action_digest) = ⊥
  Draws nonce a (challenge_call now session_id capabilities action_digest ttl) =
      (c : ApprovalChallenge) × ((challenge keyed_hash a now session_id capabilities action_digest
          ttl).1
        ≡ ok c)
      × (c.nonce ≡ nonce)

  -- No call of a session draws the nonce.
  abbrev pub Undrawn : List ℕ → PermitAuthority → List Call → Type 0
  Undrawn nonce a [] = Unit {0}
  Undrawn nonce a (call ∷ calls) = ¬ (Draws nonce a call) × Undrawn nonce (step a call) calls

  issue_absent :
      (a : PermitAuthority) (now : Option ℕ) (c : ApprovalChallenge) (nonce : List ℕ)
      → get a.state.pending nonce ≡ none
      → get (issue keyed_hash a now c).0.state.pending nonce ≡ none
  unfolding issue
  issue_absent a none c nonce h = h
  issue_absent a (some now) c nonce h = ground (arith, purge_absent a.state now nonce h)

  verify_absent :
      (a : PermitAuthority) (now : Option ℕ) (token : List ℕ) (session_id capabilities : ℕ)
      (action_digest nonce : List ℕ)
      → get a.state.pending nonce ≡ none
      → get
          (verify keyed_hash a now token session_id capabilities action_digest).0.state.pending
          nonce
        ≡ none
  unfolding verify verify_purged
  verify_absent a none token session_id capabilities action_digest nonce h = h
  verify_absent a (some now) token session_id capabilities action_digest nonce h = ground (
    arith,
    purge_absent a.state now nonce h,
    get-remove (purge_expired a.state now).pending (take 16 token) nonce,
  )

  enter_absent :
      (a : PermitAuthority) (now : ℕ) (c : ApprovalChallenge) (nonce : List ℕ)
      → get a.state.pending nonce ≡ none
      → (((enter_pending keyed_hash a now c).1 ≡ ok c) → c.nonce ≢ nonce)
      → get (enter_pending keyed_hash a now c).0.state.pending nonce ≡ none
  unfolding enter_pending
  enter_absent a now c nonce h d = ground (
    arith,
    purge_absent a.state now nonce h,
    get-insert (purge_expired a.state now).pending c.nonce nonce c,
    bytes_eq_iff c.nonce nonce,
  )

  -- A call of `challenge` ends with its entry, unless it fails before the lock.
  abbrev pub Entered :
      PermitAuthority → ℕ → PermitAuthority × Result ApprovalChallenge AuthorizationError → Type 0
  Entered a now r =
      (r.0.state ≡ a.state)
      ⊎ ((c : ApprovalChallenge) × (counter : ℕ) × (r
            ≡ enter_pending keyed_hash (record a { counter = counter }) now c))

  draw_challenge-Entered :
      (a : PermitAuthority) (now session_id capabilities : ℕ) (action_digest : List ℕ) (expires : ℕ)
      → Entered a now
          (draw_challenge keyed_hash a now session_id capabilities action_digest expires)
  unfolding draw_challenge
  draw_challenge-Entered a now session_id capabilities action_digest expires =
      elim (Option-cases (checked_add u64_modulus a.counter 1)) [
        | inl e ↦ inl (rw (e, draw_challenge) refl)
        | inr (counter, e) ↦
            elim (Result-cases (
              Challenge.new session_id capabilities expires a.session_binding a.policy_digest
                action_digest
                (take 16 (
                  keyed_hash a.key (
                    nonce_material keyed_hash a session_id capabilities expires action_digest))))) [
                      | inl (c, n) ↦ inr (c, counter, rw (e, n, draw_challenge) refl)
                      | inr (x, n) ↦ inl (rw (e, n, draw_challenge) refl)
                    ]
      ]

  pub challenge-Entered :
      (a : PermitAuthority) (now session_id capabilities : ℕ) (action_digest : List ℕ) (ttl : ℕ)
      → Entered a now (challenge keyed_hash a (some now) session_id capabilities action_digest ttl)
  unfolding challenge
  challenge-Entered a now session_id capabilities action_digest ttl =
      elim (Bool-cases (leb u64_modulus (ttl / 1_000_000))) [
        | inl e ↦ inl (rw e refl)
        | inr e ↦ elim (Option-cases (checked_add u64_modulus now (ttl / 1_000_000))) [
          | inl n ↦ inl (rw e (rw n refl))
          | inr (expires, n) ↦
              rw e
                (rw n (draw_challenge-Entered a now session_id capabilities action_digest expires))
        ]
      ]

  challenge_absent :
      (a : PermitAuthority) (now : Option ℕ) (session_id capabilities : ℕ) (action_digest : List ℕ)
      (ttl : ℕ) (nonce : List ℕ)
      → get a.state.pending nonce ≡ none
      → ¬ (Draws nonce a (challenge_call now session_id capabilities action_digest ttl))
      → get
          (challenge keyed_hash a now session_id capabilities action_digest ttl).0.state.pending
          nonce
        ≡ none
  challenge_absent a none session_id capabilities action_digest ttl nonce h d =
      unfold challenge in h
  challenge_absent a (some now) session_id capabilities action_digest ttl nonce h d =
      elim (challenge-Entered a now session_id capabilities action_digest ttl) [
        | inl e ↦ rw e h
        | inr (c, counter, e) ↦ rw e (
            enter_absent (record a { counter = counter }) now c nonce h
              (λ k n. d (c, ap (λ r. r.1) e ∙ k, n)))
      ]

  step_absent :
      (a : PermitAuthority) (call : Call) (nonce : List ℕ)
      → get a.state.pending nonce ≡ none
      → ¬ (Draws nonce a call)
      → get (step a call).state.pending nonce ≡ none
  unfolding step
  step_absent a (issue_call now c) nonce h d = issue_absent a now c nonce h
  step_absent a (challenge_call now session_id capabilities action_digest ttl) nonce h d =
      challenge_absent a now session_id capabilities action_digest ttl nonce h d
  step_absent a (verify_call now token session_id capabilities action_digest) nonce h d =
      verify_absent a now token session_id capabilities action_digest nonce h

  run_absent :
      (a : PermitAuthority) (calls : List Call) (nonce : List ℕ)
      → get a.state.pending nonce ≡ none
      → Undrawn nonce a calls
      → get (run_calls a calls).state.pending nonce ≡ none
  unfolding run_calls
  run_absent a [] nonce h u = h
  run_absent a (call ∷ calls) nonce h u =
      run_absent (step a call) calls nonce (step_absent a call nonce h u.0) u.1

  verify_unknown :
      (a : PermitAuthority) (now : Option ℕ) (token : List ℕ) (session_id capabilities : ℕ)
      (action_digest : List ℕ) {u : Unit {0}}
      → get a.state.pending (take 16 token) ≡ none
      → ¬ ((verify keyed_hash a now token session_id capabilities action_digest).1 ≡ ok u)
  unfolding verify
  verify_unknown a none token session_id capabilities action_digest h e = cc
  verify_unknown a (some now) token session_id capabilities action_digest h e =
      let absent = purge_absent a.state now (take 16 token) h in
      let permitted =
        verify-Permitted keyed_hash a now token session_id capabilities action_digest e in
      absurd (some_none (sym permitted.pending ∙ absent))
    where
      some_none : {c : ApprovalChallenge} → ¬ (some c ≡ none)
      some_none p = cc

  -- A token is accepted once: after `verify` has accepted it, no sequence of calls in which
  -- `challenge` does not draw its nonce again leads to a state where it is accepted, for whatever
  -- session, capabilities, action and time.
  pub verify_once :
      (a : PermitAuthority) (now : ℕ) (token : List ℕ) (session_id capabilities : ℕ)
      (action_digest : List ℕ) (calls : List Call) (now' : Option ℕ) (session_id' capabilities' : ℕ)
      (action_digest' : List ℕ)
      → (verify keyed_hash a (some now) token session_id capabilities action_digest).1 ≡ ok tt
      → Undrawn
          (take 16 token)
          (verify keyed_hash a (some now) token session_id capabilities action_digest).0
          calls
      → ¬ (
          (verify keyed_hash
            (run_calls
              (verify keyed_hash a (some now) token session_id capabilities action_digest).0
              calls)
            now'
            token
            session_id'
            capabilities'
            action_digest').1
          ≡ ok tt)
  verify_once a now token session_id capabilities action_digest calls now' session_id' capabilities'
        action_digest' h u =
      let permitted =
        verify-Permitted keyed_hash a now token session_id capabilities action_digest h in
      verify_unknown
        (run_calls (verify keyed_hash a (some now) token session_id capabilities action_digest).0
          calls)
        now' token session_id' capabilities' action_digest'
        (run_absent (verify keyed_hash a (some now) token session_id capabilities action_digest).0
          calls (take 16 token) permitted.consumed u)
