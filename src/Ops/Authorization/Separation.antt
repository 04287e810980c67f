-- ===== src/Ops/Authorization/Separation.antt =====
-- crates/ash-ops/src/authorization.rs: what holds of every policy that the code can build.
use ash.Common.{
  ℕ, ◌*◌, ◌≤◌, ◌<◌, ◌≡◌, ◌≢◌, ◌⊎◌, inl, inr, refl, sym, ◌∙◌, none, some, List, arith, ok, bit_and,
  Bool-cases, ◌==◌, ◌||◌, ltb, if◌then◌else◌, ok_injective,
}
use ash.Common.Eq.{bytes_eq_sound}
use ash.Common.Masks.{IsWithin-outside, bit_and-IsWithin_left, bit_and_comm, bit_and_zero}
use ash.Common.Text.{Str}
use ash.Protocol.Approval.Values.{unknown_capabilities, all_capability_mask}
use ash.Ops.Authorization.Policy.{
  AuthorizationPolicy, policy_digest, validate_mask, allow, default_policy, with_approvals,
  with_challenge_ttl, restrict,
}

-- An hour in nanoseconds.
abbrev pub hour : ℕ
hour = 3_600 * 1_000_000_000

-- No capability is both granted and behind an approval, and none is unknown; a challenge lives for an
-- hour at most; and there is an authority, of the policy's own digest, exactly if a capability needs one.
pub record IsSeparate {A : Type 0} (digest_of : A → List ℕ) (p : AuthorizationPolicy A)
    : Type 0 where
  pub disjoint : bit_and p.granted p.approval_required ≡ 0
  pub granted_known : bit_and p.granted unknown_capabilities ≡ 0
  pub required_known : bit_and p.approval_required unknown_capabilities ≡ 0
  pub lives : (0 < p.challenge_ttl) × (p.challenge_ttl ≤ hour)
  pub approver :
      ((p.approval_required ≡ 0) × (p.authority ≡ none))
      ⊎ ((a : A) × (p.approval_required ≢ 0)
          × (p.authority ≡ some a)
          × (digest_of a ≡ p.policy_digest))

module _ {A : Type 0} (hash : List ℕ → List ℕ) (digest_of : A → List ℕ) where
  -- The policies that calls of the constructors and of the methods build.
  pub data Built : AuthorizationPolicy A → Type 0 where
    defaults : Built (default_policy hash)
    allows :
        (capabilities : ℕ) (p : AuthorizationPolicy A) → allow hash capabilities ≡ ok p → Built p
    approves :
        (policy_id : Str) (granted approval_required : ℕ) (authority : A)
        (p : AuthorizationPolicy A)
        → with_approvals hash digest_of policy_id granted approval_required authority ≡ ok p
        → Built p
    retimes :
        (p q : AuthorizationPolicy A) (ttl : ℕ)
        → Built p
        → with_challenge_ttl p ttl ≡ ok q
        → Built q
    restricts :
        (p : AuthorizationPolicy A) (capabilities : ℕ) → Built p → Built (restrict p capabilities)

  default_policy-IsSeparate : IsSeparate digest_of (default_policy hash)
  unfolding default_policy
  default_policy-IsSeparate = record {
    disjoint = refl;
    granted_known = refl;
    required_known = refl;
    lives = omega arith;
    approver = inl (refl, refl);
  }

  allow-IsSeparate :
      (capabilities : ℕ) (p : AuthorizationPolicy A)
      → allow hash capabilities ≡ ok p
      → IsSeparate digest_of p
  unfolding allow validate_mask
  allow-IsSeparate capabilities p h = record {
    disjoint = ground (arith, bit_and_comm p.granted 0, bit_and_zero p.granted);
    granted_known = ground arith;
    required_known = ground (arith, bit_and_zero unknown_capabilities);
    lives = ground arith;
    approver = inl (ground arith, ground arith);
  }

  with_approvals-IsSeparate :
      (policy_id : Str) (granted approval_required : ℕ) (authority : A) (p : AuthorizationPolicy A)
      → with_approvals hash digest_of policy_id granted approval_required authority ≡ ok p
      → IsSeparate digest_of p
  unfolding with_approvals validate_mask
  with_approvals-IsSeparate policy_id granted approval_required authority p h = record {
    disjoint = ground arith;
    granted_known = ground arith;
    required_known = ground arith;
    lives = ground arith;
    approver = inr (
      authority,
      ground arith,
      ground arith,
      ground (arith, bytes_eq_sound (digest_of authority) (policy_digest hash policy_id)),
    );
  }

  with_challenge_ttl-IsSeparate :
      (p q : AuthorizationPolicy A) (ttl : ℕ)
      → IsSeparate digest_of p
      → with_challenge_ttl p ttl ≡ ok q
      → IsSeparate digest_of q
  unfolding with_challenge_ttl
  with_challenge_ttl-IsSeparate p q ttl i h = elim (Bool-cases (ttl == 0 || ltb hour ttl)) [
    | inl e ↦ absurd (let bad = rw (with_challenge_ttl, e) at h in ground arith)
    | inr e ↦
        let same : record p { challenge_ttl = ttl } ≡ q = ok_injective (rw e at h) in
        rw (sym same) (record {
          disjoint = i.disjoint;
          granted_known = i.granted_known;
          required_known = i.required_known;
          lives = ground arith;
          approver = i.approver;
        })
  ]

  restrict-approver :
      (p : AuthorizationPolicy A) (kept : ℕ)
      → IsSeparate digest_of p
      → let required = bit_and p.approval_required kept in
        let authority = (if required == 0 then none else p.authority) in
        ((required ≡ 0) × (authority ≡ none))
        ⊎ ((a : A) × (required ≢ 0) × (authority ≡ some a) × (digest_of a ≡ p.policy_digest))
  restrict-approver p kept i = elim (Bool-cases (bit_and p.approval_required kept == 0)) [
    | inl e ↦ inl (ground arith, rw e refl)
    | inr e ↦ elim (i.approver) [
      | inl (zero_eq, _) ↦ absurd (
          let gone : bit_and p.approval_required kept ≡ 0 = rw zero_eq (bit_and_zero kept) in
          ground arith)
      | inr (a, _, holds, own) ↦ inr (a, ground arith, rw e holds, own)
    ]
  ]

  restrict-IsSeparate :
      (p : AuthorizationPolicy A) (capabilities : ℕ)
      → IsSeparate digest_of p
      → IsSeparate digest_of (restrict p capabilities)
  unfolding restrict
  restrict-IsSeparate p capabilities i =
      let kept = bit_and capabilities all_capability_mask in
      let granted = bit_and-IsWithin_left p.granted kept in
      let required = bit_and-IsWithin_left p.approval_required kept in
      record {
        disjoint =
            bit_and_comm (bit_and p.granted kept) (bit_and p.approval_required kept)
            ∙ IsWithin-outside (bit_and p.approval_required kept) p.approval_required
                (bit_and p.granted kept) required
                (bit_and_comm p.approval_required (bit_and p.granted kept)
                  ∙ IsWithin-outside (bit_and p.granted kept) p.granted p.approval_required granted
                      i.disjoint);
        granted_known =
            IsWithin-outside (bit_and p.granted kept) p.granted unknown_capabilities granted
              i.granted_known;
        required_known =
            IsWithin-outside (bit_and p.approval_required kept) p.approval_required
              unknown_capabilities required i.required_known;
        lives = i.lives;
        approver = restrict-approver p kept i;
      }

  -- Every policy that the constructors and methods build, in any order of calls, keeps granted
  -- capabilities and those behind an approval apart: none is both, none is unknown. It has an
  -- authority, made for the same policy, exactly if a capability needs an approval, also after
  -- `restrict`; and its challenges live for an hour at most.
  pub Built-IsSeparate : (p : AuthorizationPolicy A) → Built p → IsSeparate digest_of p
  Built-IsSeparate _ defaults = default_policy-IsSeparate
  Built-IsSeparate _ (allows capabilities p h) = allow-IsSeparate capabilities p h
  Built-IsSeparate _ (approves policy_id granted approval_required authority p h) =
      with_approvals-IsSeparate policy_id granted approval_required authority p h
  Built-IsSeparate _ (retimes p q ttl b h) =
      with_challenge_ttl-IsSeparate p q ttl (Built-IsSeparate p b) h
  Built-IsSeparate _ (restricts p capabilities b) =
      restrict-IsSeparate p capabilities (Built-IsSeparate p b)
