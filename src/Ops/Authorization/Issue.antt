-- ===== src/Ops/Authorization/Issue.antt =====
-- crates/ash-ops/src/authorization.rs: a token that `issue` hands out is accepted by `verify`.
use ash.Common.{
  ℕ, ◌≤◌, ◌<◌, ◌≡◌, refl, sym, ap, ◌∙◌, true, false, none, some, List, take, drop, length,
  take-append, drop-append, ltb, arith, ok, lt→ltb,
}
use ash.Common.Eq.{bytes_eq, bytes_eq_sound, bytes_keys}
use ash.Common.Map.{get, get-retain_kept, get-retain_absent, length-retain-le}
use ash.Protocol.Approval.Challenge.{ApprovalChallenge, signing_bytes}
use ash.Ops.Authorization.Permits.{
  PermitAuthority, PermitState, purge_expired, live, challenge_eq, token_mac, token_of, issue,
  verify, verify_purged, max_used_permits,
}
use ash.Ops.Authorization.Verify.{Allows, permits-Allows, verify_purged-ok}

challenge_eq_sound : (c d : ApprovalChallenge) → challenge_eq c d ≡ true → c ≡ d
unfolding challenge_eq
challenge_eq_sound c d h =
    let session : c.session_id ≡ d.session_id = ground arith in
    let capabilities : c.capabilities ≡ d.capabilities = ground arith in
    let expires : c.expires_at_millis ≡ d.expires_at_millis = ground arith in
    let binding = bytes_eq_sound c.session_binding d.session_binding (ground arith) in
    let policy = bytes_eq_sound c.policy_digest d.policy_digest (ground arith) in
    let action = bytes_eq_sound c.action_digest d.action_digest (ground arith) in
    let nonce = bytes_eq_sound c.nonce d.nonce (ground arith) in cc

module _ (keyed_hash : List ℕ → List ℕ → List ℕ) where
  -- What a successful `issue` has checked and done.
  pub record Issued (a a' : PermitAuthority) (now : ℕ) (c : ApprovalChallenge) (token : List ℕ)
      : Type 0 where
    pub binding : c.session_binding ≡ a.session_binding
    pub policy : c.policy_digest ≡ a.policy_digest
    pub unpoisoned : a.poisoned ≡ false
    pub pending : get (purge_expired a.state now).pending c.nonce ≡ some c
    pub purged : a' ≡ record a { state = purge_expired a.state now }
    pub made : token ≡ token_of keyed_hash a.key c

  issue_checks :
      (a : PermitAuthority) (now : ℕ) (c : ApprovalChallenge) (token : List ℕ)
      → (issue keyed_hash a (some now) c).1 ≡ ok token
      → (bytes_eq c.session_binding a.session_binding ≡ true)
        × (bytes_eq c.policy_digest a.policy_digest ≡ true)
        × (a.poisoned ≡ false)
        × ((issue keyed_hash a (some now) c).0 ≡ record a { state = purge_expired a.state now })
        × (d : ApprovalChallenge) × (get (purge_expired a.state now).pending c.nonce ≡ some d)
        × (challenge_eq d c ≡ true)
        × (token_of keyed_hash a.key c ≡ token)
  unfolding issue
  issue_checks a now c token h = ground arith

  issue-Issued :
      (a : PermitAuthority) (now : ℕ) (c : ApprovalChallenge) (token : List ℕ)
      → (issue keyed_hash a (some now) c).1 ≡ ok token
      → Issued a (issue keyed_hash a (some now) c).0 now c token
  issue-Issued a now c token h =
      let (binding, policy, unpoisoned, purged, d, pending, same, made) =
        issue_checks a now c token h in
      record {
        binding = bytes_eq_sound c.session_binding a.session_binding binding;
        policy = bytes_eq_sound c.policy_digest a.policy_digest policy;
        unpoisoned = unpoisoned;
        pending = pending ∙ ap (λ e. some e) (challenge_eq_sound d c same);
        purged = purged;
        made = sym made;
      }

  verify_reaches :
      (a : PermitAuthority) (now : ℕ) (token : List ℕ) (session_id capabilities : ℕ)
      (action_digest : List ℕ)
      → a.poisoned ≡ false
      → verify keyed_hash a (some now) token session_id capabilities action_digest
        ≡ verify_purged keyed_hash
            (record a { state = purge_expired a.state now })
            now
            token
            session_id
            capabilities
            action_digest
  unfolding verify
  verify_reaches a now token session_id capabilities action_digest h = ground arith

  purged-kept :
      (s : PermitState) (now : ℕ) (nonce : List ℕ) (c : ApprovalChallenge)
      → get s.pending nonce ≡ some c
      → now < c.expires_at_millis
      → get (purge_expired s now).pending nonce ≡ some c
  unfolding purge_expired
  purged-kept s now nonce c e h =
      get-retain_kept (live now) s.pending nonce c e (lt→ltb now c.expires_at_millis h)

  purged-unspent :
      (s : PermitState) (now : ℕ) (nonce : List ℕ)
      → get s.used nonce ≡ none
      → get (purge_expired s now).used nonce ≡ none
  unfolding purge_expired
  purged-unspent s now nonce h = get-retain_absent (λ expiry. ltb now expiry) s.used nonce h

  purged-room : (s : PermitState) (now : ℕ) → length (purge_expired s now).used ≤ length s.used
  unfolding purge_expired
  purged-room s now = length-retain-le (λ expiry. ltb now expiry) s.used

  verify-token_of :
      (a : PermitAuthority) (now : ℕ) (c : ApprovalChallenge)
      → length c.nonce ≡ 16
      → a.poisoned ≡ false
      → c.session_binding ≡ a.session_binding
      → c.policy_digest ≡ a.policy_digest
      → get a.state.pending c.nonce ≡ some c
      → get a.state.used c.nonce ≡ none
      → length a.state.used < max_used_permits
      → now < c.expires_at_millis
      → (verify keyed_hash a
          (some now)
          (token_of keyed_hash a.key c)
          c.session_id
          c.capabilities
          c.action_digest).1
        ≡ ok tt
  unfolding token_of
  verify-token_of a now c size unpoisoned binding policy pending unspent room fresh =
      let token = token_of keyed_hash a.key c in
      let mac = token_mac keyed_hash a.key (signing_bytes c) in
      let front : take 16 token ≡ c.nonce = take-append 16 c.nonce mac size in
      let back : drop 16 token ≡ mac = drop-append 16 c.nonce mac size in
      let purged : PermitAuthority = record a { state = purge_expired a.state now } in
      let allows : Allows purged now c.session_id c.capabilities c.action_digest c = record {
        session = refl;
        grants = refl;
        binding = binding;
        policy = policy;
        action = refl;
        unexpired = fresh;
      } in
      let permitted =
        permits-Allows keyed_hash purged now token c.session_id c.capabilities c.action_digest c
          allows (sym back) (omega (arith, purged-room a.state now)) in
      let accepted =
        verify_purged-ok keyed_hash purged now token c.session_id c.capabilities c.action_digest c
          (ap (λ n. get purged.state.pending n) front
            ∙ purged-kept a.state now c.nonce c pending fresh)
          permitted
          (ap (λ n. get purged.state.used n) front ∙ purged-unspent a.state now c.nonce unspent) in
      ap (λ r. r.1)
        (verify_reaches a now token c.session_id c.capabilities c.action_digest unpoisoned
          ∙ accepted)

  -- A token that `issue` made for a challenge whose nonce has 16 bytes and is not spent is accepted
  -- for the session, the capabilities and the action of the challenge, at any later reading of the
  -- clock before the challenge expires, while the replay cache has room.
  pub verify-issue :
      (a : PermitAuthority) (now later : ℕ) (c : ApprovalChallenge) (token : List ℕ)
      → length c.nonce ≡ 16
      → get a.state.used c.nonce ≡ none
      → length a.state.used < max_used_permits
      → later < c.expires_at_millis
      → (issue keyed_hash a (some now) c).1 ≡ ok token
      → (verify keyed_hash
          (issue keyed_hash a (some now) c).0
          (some later)
          token
          c.session_id
          c.capabilities
          c.action_digest).1
        ≡ ok tt
  verify-issue a now later c token size unspent room fresh h =
      let issued = issue-Issued a now c token h in
      rw (issued.purged, issued.made)
        (verify-token_of (record a { state = purge_expired a.state now }) later c size
          issued.unpoisoned issued.binding issued.policy issued.pending
          (purged-unspent a.state now c.nonce unspent) (omega (arith, purged-room a.state now))
          fresh)
