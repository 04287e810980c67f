-- ===== src/Store/ResultStore/Steps.antt =====
-- What each operation on a valid store keeps.
use ash.Common.{
  ℕ, ◌+◌, ◌-◌, ◌<◌, ◌≤◌, ◌≡◌, refl, sym, ap, ◌∙◌, true, false, ◌||◌, none, some, ◌==◌, ltb, ok, err,
  arith, Bool-cases, Option-cases, inl, inr,
}
use ash.Common.Eq.{ℕ_keys, bytes_keys}
use ash.Common.Map.{
  get, insert, remove, get-insert_other, get-remove_same, get-remove_other, key_cases,
}
use ash.Common.Words.{checked_sub-some}
use ash.Store.ResultStore.{
  StoreLimits, Entry, State, StoreReservation, StoreError, unknown_alias, in_use, reserve,
  drop_reservation, get_lease, drop_lease, release,
}
use ash.Store.ResultStore.Retaining.{some-ne-none}
use ash.Store.ResultStore.Contract.{IsValid}
use ash.Store.ResultStore.Invariant.{
  pending-IsValid, reserve-pending, leases-IsValid, removed-IsValid, entry-bytes,
}

-- A state that is valid and has forgotten no retired alias.
pub record Advanced (limits : StoreLimits) (s s' : State) : Type 0 where
  pub valid : IsValid limits s'
  pub later : s.next_alias ≤ s'.next_alias
  pub retired : (a : ℕ) → a < s.next_alias → get s.by_alias a ≡ none → get s'.by_alias a ≡ none

module _ (limits : StoreLimits) where
  pub Advanced-same : (s : State) → IsValid limits s → Advanced limits s s
  Advanced-same s v = record { valid = v; later = omega arith; retired = λ a l g. g }

  Advanced-leases :
      (s : State) (alias : ℕ) (entry entry' : Entry)
      → IsValid limits s
      → get s.by_alias alias ≡ some entry
      → entry'.content ≡ entry.content
      → entry'.content_id ≡ entry.content_id
      → Advanced limits s (record s { by_alias = insert s.by_alias alias entry' })
  Advanced-leases s alias entry entry' v g c i = record {
    valid = leases-IsValid limits s alias entry entry' v g c i;
    later = omega arith;
    retired = λ a l h. elim (key_cases alias a) [
      | inl at ↦ absurd (some-ne-none (sym g ∙ rw (sym at) at h))
      | inr other ↦ get-insert_other s.by_alias alias a entry' other ∙ h
    ];
  }

  Advanced-pending :
      (s : State) (p : ℕ)
      → IsValid limits s
      → s.bytes + p ≤ limits.max_bytes
      → Advanced limits s (record s { pending_bytes = p })
  Advanced-pending s p v l = record {
    valid = pending-IsValid limits s p v l;
    later = omega arith;
    retired = λ a less g. g;
  }

  pub reserve-Advanced :
      (r r' : StoreReservation) (n : ℕ) (s s' : State)
      → IsValid limits s
      → reserve limits r n s ≡ ok (r', s')
      → Advanced limits s s'
  reserve-Advanced r r' n s s' v h =
      let (p, e, within) = reserve-pending limits r r' n s s' v h in
      rw e (Advanced-pending s p v within)

  pub drop_reservation-Advanced :
      (r : StoreReservation) (s : State)
      → IsValid limits s
      → Advanced limits s (drop_reservation r s)
  unfolding drop_reservation
  drop_reservation-Advanced r s v = elim (Bool-cases (r.bytes == 0 || s.poisoned)) [
    | inl e ↦ let same : drop_reservation r s ≡ s = ground arith in rw same (Advanced-same s v)
    | inr e ↦
        let w = v.within in
        let less : drop_reservation r s ≡ record s { pending_bytes = s.pending_bytes - r.bytes } =
          ground arith in
        rw less (Advanced-pending s (s.pending_bytes - r.bytes) v (omega arith))
  ]

  pub get_lease-Advanced :
      (alias : ℕ) (s : State) → IsValid limits s → Advanced limits s (get_lease alias s).0
  unfolding get_lease
  get_lease-Advanced alias s v = elim (Bool-cases s.poisoned) [
    | inl e ↦ let same : (get_lease alias s).0 ≡ s = ground arith in rw same (Advanced-same s v)
    | inr e ↦ elim (Option-cases (get s.by_alias alias)) [
      | inl g ↦ let same : (get_lease alias s).0 ≡ s = ground arith in rw same (Advanced-same s v)
      | inr (entry, g) ↦
          let entry' : Entry = record entry { leases = entry.leases + 1 } in
          let leased : (get_lease alias s).0
              ≡ record s { by_alias = insert s.by_alias alias entry' } =
            ground arith in
          rw leased (Advanced-leases s alias entry entry' v g refl refl)
    ]
  ]

  pub drop_lease-Advanced :
      (alias : ℕ) (s : State) → IsValid limits s → Advanced limits s (drop_lease alias s)
  unfolding drop_lease
  drop_lease-Advanced alias s v = elim (Option-cases (get s.by_alias alias)) [
    | inl g ↦ rw (drop_lease, g) (Advanced-same s v)
    | inr (entry, g) ↦ rw (drop_lease, g) (Advanced-leases s alias entry _ v g refl refl)
  ]

  -- The state without an entry.
  abbrev without : State → ℕ → Entry → State
  without s alias entry = record s {
    by_alias = remove s.by_alias alias;
    by_content = remove s.by_content entry.content_id;
    bytes = s.bytes - entry.content.length;
  }

  without-Advanced :
      (s : State) (alias : ℕ) (entry : Entry)
      → IsValid limits s
      → get s.by_alias alias ≡ some entry
      → Advanced limits s (without s alias entry)
  without-Advanced s alias entry v g =
      let rest =
        checked_sub-some s.bytes entry.content.length _ (entry-bytes limits s alias entry v g) in
      record {
        valid =
            removed-IsValid limits s alias (s.bytes - entry.content.length) entry v g (omega arith);
        later = omega arith;
        retired = λ a l h. elim (key_cases alias a) [
          | inl at ↦ rw (sym at) (get-remove_same s.by_alias alias)
          | inr other ↦ get-remove_other s.by_alias alias a other ∙ h
        ];
      }

  release-freed :
      (alias : ℕ) (s : State) (entry : Entry)
      → IsValid limits s
      → s.poisoned ≡ false
      → get s.by_alias alias ≡ some entry
      → (entry.leases == 0) ≡ true
      → release alias s ≡ (without s alias entry, ok tt)
  unfolding release
  release-freed alias s entry v e g free =
      let enough = entry-bytes limits s alias entry v g in ground arith

  pub release-Advanced :
      (alias : ℕ) (s : State) → IsValid limits s → Advanced limits s (release alias s).0
  unfolding release
  release-Advanced alias s v = elim (Bool-cases s.poisoned) [
    | inl e ↦ let same : (release alias s).0 ≡ s = ground arith in rw same (Advanced-same s v)
    | inr e ↦ elim (Option-cases (get s.by_alias alias)) [
      | inl g ↦ let same : (release alias s).0 ≡ s = ground arith in rw same (Advanced-same s v)
      | inr (entry, g) ↦ elim (Bool-cases (entry.leases == 0)) [
        | inr held ↦
            let same : (release alias s).0 ≡ s = ground arith in rw same (Advanced-same s v)
        | inl free ↦
            rw (release-freed alias s entry v e g free) (without-Advanced s alias entry v g)
      ]
    ]
  ]

  -- What a release that has succeeded leaves.
  pub release-ok :
      (alias : ℕ) (s s' : State)
      → IsValid limits s
      → release alias s ≡ (s', ok tt)
      → (get s'.by_alias alias ≡ none) × (alias < s'.next_alias)
  unfolding release
  release-ok alias s s' v h = elim (Bool-cases s.poisoned) [
    | inl e ↦ absurd (
        let t : ok tt ≡ err StoreError.poisoned = ap (λ x. x.1) (sym h) ∙ ground arith in
        ground arith)
    | inr e ↦ elim (Option-cases (get s.by_alias alias)) [
      | inl g ↦ absurd (
          let t : ok tt ≡ err (unknown_alias alias) = ap (λ x. x.1) (sym h) ∙ ground arith in
          ground arith)
      | inr (entry, g) ↦ elim (Bool-cases (entry.leases == 0)) [
        | inr held ↦ absurd (
            let t : ok tt ≡ err (in_use alias) = ap (λ x. x.1) (sym h) ∙ ground arith in
            ground arith)
        | inl free ↦
            let freed : without s alias entry ≡ s' =
              ap (λ x. x.0) (sym (release-freed alias s entry v e g free) ∙ h) in
            let low : alias < s.next_alias = elim (Bool-cases (ltb alias s.next_alias)) [
              | inl less ↦ ground arith
              | inr more ↦ absurd (some-ne-none (sym g ∙ v.indexed.free alias (ground arith)))
            ] in
            rw (sym freed) (get-remove_same s.by_alias alias, low)
      ]
    ]
  ]
