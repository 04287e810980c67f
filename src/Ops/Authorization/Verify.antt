-- ===== src/Ops/Authorization/Verify.antt =====
-- crates/ash-ops/src/authorization.rs: what a permit that `verify` accepts proves, and that the token
-- of a pending challenge is accepted.
use ash.Common.{
  ℕ, ◌<◌, ◌≡◌, refl, sym, ap, ◌∙◌, true, none, some, List, take, drop, length, arith, ok,
}
use ash.Common.Eq.{bytes_eq_sound, bytes_eq_iff, bytes_keys}
use ash.Common.Map.{get, insert, remove, get-insert, get-remove}
use ash.Protocol.Approval.Challenge.{ApprovalChallenge, signing_bytes}
use ash.Ops.Authorization.Permits.{
  PermitAuthority, purge_expired, constant_time_eq, token_mac, permits, verify, verify_purged,
  max_used_permits,
}
use ash.Ops.Authorization.Compare.{constant_time_eq_iff}

-- A pending challenge allows an action of a session.
pub record Allows (a : PermitAuthority) (now session_id capabilities : ℕ) (action_digest : List ℕ)
    (c : ApprovalChallenge) : Type 0 where
  pub session : c.session_id ≡ session_id
  pub grants : c.capabilities ≡ capabilities
  pub binding : c.session_binding ≡ a.session_binding
  pub policy : c.policy_digest ≡ a.policy_digest
  pub action : c.action_digest ≡ action_digest
  pub unexpired : now < c.expires_at_millis

module _ (keyed_hash : List ℕ → List ℕ → List ℕ) where
  permits-ok :
      (a : PermitAuthority) (now : ℕ) (token : List ℕ) (session_id capabilities : ℕ)
      (action_digest : List ℕ) (c : ApprovalChallenge) {u : Unit {0}}
      → permits keyed_hash a now token session_id capabilities action_digest c ≡ ok u
      → Allows a now session_id capabilities action_digest c
        × (token_mac keyed_hash a.key (signing_bytes c) ≡ drop 16 token)
  unfolding permits
  permits-ok a now token session_id capabilities action_digest c h =
      let mac : constant_time_eq (token_mac keyed_hash a.key (signing_bytes c)) (drop 16 token)
          ≡ true =
        ground arith in
      (
        record {
          session = ground arith;
          grants = ground arith;
          binding = bytes_eq_sound c.session_binding a.session_binding (ground arith);
          policy = bytes_eq_sound c.policy_digest a.policy_digest (ground arith);
          action = bytes_eq_sound c.action_digest action_digest (ground arith);
          unexpired = ground arith;
        },
        (constant_time_eq_iff (token_mac keyed_hash a.key (signing_bytes c)) (drop 16 token)).0 mac,
      )

  pub permits-Allows :
      (a : PermitAuthority) (now : ℕ) (token : List ℕ) (session_id capabilities : ℕ)
      (action_digest : List ℕ) (c : ApprovalChallenge)
      → Allows a now session_id capabilities action_digest c
      → token_mac keyed_hash a.key (signing_bytes c) ≡ drop 16 token
      → length a.state.used < max_used_permits
      → permits keyed_hash a now token session_id capabilities action_digest c ≡ ok tt
  unfolding permits
  permits-Allows a now token session_id capabilities action_digest c p m room = ground (
    arith,
    p.session,
    p.grants,
    p.unexpired,
    (bytes_eq_iff c.session_binding a.session_binding).1 p.binding,
    (bytes_eq_iff c.policy_digest a.policy_digest).1 p.policy,
    (bytes_eq_iff c.action_digest action_digest).1 p.action,
    (constant_time_eq_iff (token_mac keyed_hash a.key (signing_bytes c)) (drop 16 token)).1 m,
  )

  -- An accepted permit: `a` is the authority before, `a'` after.
  pub record Permitted (a a' : PermitAuthority) (now : ℕ) (token : List ℕ)
      (session_id capabilities : ℕ) (action_digest : List ℕ) : Type 0 where
    pub challenge : ApprovalChallenge
    pub pending : get (purge_expired a.state now).pending (take 16 token) ≡ some challenge
    pub allows : Allows a now session_id capabilities action_digest challenge
    pub mac : drop 16 token ≡ token_mac keyed_hash a.key (signing_bytes challenge)
    pub consumed : get a'.state.pending (take 16 token) ≡ none
    pub spent : get a'.state.used (take 16 token) ≡ some challenge.expires_at_millis

  pub verify_purged-ok :
      (a : PermitAuthority) (now : ℕ) (token : List ℕ) (session_id capabilities : ℕ)
      (action_digest : List ℕ) (c : ApprovalChallenge) {u : Unit {0}}
      → get a.state.pending (take 16 token) ≡ some c
      → permits keyed_hash a now token session_id capabilities action_digest c ≡ ok u
      → get a.state.used (take 16 token) ≡ none
      → verify_purged keyed_hash a now token session_id capabilities action_digest ≡ (
        record a {
          state = record {
            pending = remove a.state.pending (take 16 token);
            used = insert a.state.used (take 16 token) c.expires_at_millis;
          };
        },
        ok tt,
      )
  unfolding verify_purged
  verify_purged-ok a now token session_id capabilities action_digest c e p n =
      rw n (rw e (rw p refl))

  pub verify_purged-accepted :
      (a : PermitAuthority) (now : ℕ) (token : List ℕ) (session_id capabilities : ℕ)
      (action_digest : List ℕ) {u : Unit {0}}
      → (verify_purged keyed_hash a now token session_id capabilities action_digest).1 ≡ ok u
      → (c : ApprovalChallenge) × (get a.state.pending (take 16 token) ≡ some c)
        × (permits keyed_hash a now token session_id capabilities action_digest c ≡ ok tt)
        × (get a.state.used (take 16 token) ≡ none)
  unfolding verify_purged
  verify_purged-accepted a now token session_id capabilities action_digest h = ground arith

  verify-verify_purged :
      (a : PermitAuthority) (now : ℕ) (token : List ℕ) (session_id capabilities : ℕ)
      (action_digest : List ℕ) {u : Unit {0}}
      → (verify keyed_hash a (some now) token session_id capabilities action_digest).1 ≡ ok u
      → verify keyed_hash a (some now) token session_id capabilities action_digest
        ≡ verify_purged keyed_hash
            (record a { state = purge_expired a.state now })
            now
            token
            session_id
            capabilities
            action_digest
  unfolding verify
  verify-verify_purged a now token session_id capabilities action_digest h = ground arith

  -- When `verify` accepts a token, the purged authority holds a challenge under the token's nonce
  -- that is not expired and is of this session, these capabilities, this action and this authority;
  -- the rest of the token is the keyed hash of that challenge; and the nonce is then spent, no longer
  -- pending.
  pub verify-Permitted :
      (a : PermitAuthority) (now : ℕ) (token : List ℕ) (session_id capabilities : ℕ)
      (action_digest : List ℕ) {u : Unit {0}}
      → (verify keyed_hash a (some now) token session_id capabilities action_digest).1 ≡ ok u
      → Permitted a
          (verify keyed_hash a (some now) token session_id capabilities action_digest).0
          now
          token
          session_id
          capabilities
          action_digest
  verify-Permitted a now token session_id capabilities action_digest h =
      let purged : PermitAuthority = record a { state = purge_expired a.state now } in
      let accepted : (verify_purged keyed_hash purged now token session_id capabilities
            action_digest).1
          ≡ ok tt =
        sym
          (ap (λ r. r.1) (verify-verify_purged a now token session_id capabilities action_digest h))
        ∙ h in
      let (c, e, p, n) =
        verify_purged-accepted purged now token session_id capabilities action_digest accepted in
      let (allowed, mac) = permits-ok purged now token session_id capabilities action_digest c p in
      rw
        (
          verify-verify_purged a now token session_id capabilities action_digest h,
          verify_purged-ok purged now token session_id capabilities action_digest c e p n,
        )
        (record {
          challenge = c;
          pending = e;
          allows = record {
            session = allowed.session;
            grants = allowed.grants;
            binding = allowed.binding;
            policy = allowed.policy;
            action = allowed.action;
            unexpired = allowed.unexpired;
          };
          mac = sym mac;
          consumed = ground (
            arith,
            get-remove purged.state.pending (take 16 token) (take 16 token),
            (bytes_eq_iff (take 16 token) (take 16 token)).1 refl,
          );
          spent = ground (
            arith,
            get-insert purged.state.used (take 16 token) (take 16 token) c.expires_at_millis,
            (bytes_eq_iff (take 16 token) (take 16 token)).1 refl,
          );
        })
