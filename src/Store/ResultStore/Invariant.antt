-- ===== src/Store/ResultStore/Invariant.antt =====
-- The operations on a store as steps, and what holds in every state that they reach.
use ash.Common.{
  ℕ, ◌+◌, ◌-◌, ◌≤◌, ◌≡◌, refl, sym, ap, ◌∙◌, false, none, some, [], ◌∷◌, ◌==◌, ltb, ok, >>=-eq-ok,
  ok_or, ok_or-ok, ok_injective, reject_if-ok, arith, Bool-cases, inl, inr,
}
use mathlib.Core.Option.{some-injective}
use ash.Common.Eq.{ℕ_keys, bytes_keys}
use ash.Common.Map.{
  Map, get, insert, remove, IsUnique, insert-IsUnique, remove-IsUnique, get-insert_same,
  get-insert_other, get-remove_same, get-remove_other, key_cases, length-insert_known,
  length-remove-le,
}
use ash.Common.Words.{u64_modulus, checked_add, checked_sub, checked_add-some}
use ash.Store.ResultStore.{
  StoreLimits, Entry, State, StoreReservation, content_too_large, invariant, reserve,
}
use ash.Store.ResultStore.Retaining.{total_bytes, some-ne-none}
use ash.Store.ResultStore.Contract.{IsValid}

total_bytes-insert_known :
    (m : Map ℕ Entry) (a : ℕ) (e f : Entry)
    → get m a ≡ some f
    → e.content ≡ f.content
    → total_bytes (insert m a e) ≡ total_bytes m
unfolding total_bytes get insert
total_bytes-insert_known [] a e f h c = cc
total_bytes-insert_known ((b, g) ∷ m) a e f h c = ground (arith, total_bytes-insert_known m a e f)

total_bytes-remove_absent :
    (m : Map ℕ Entry) (a : ℕ) → get m a ≡ none → total_bytes (remove m a) ≡ total_bytes m
unfolding total_bytes get remove
total_bytes-remove_absent [] a h = refl
total_bytes-remove_absent ((b, g) ∷ m) a h = ground (arith, total_bytes-remove_absent m a)

total_bytes-remove :
    (m : Map ℕ Entry) (a : ℕ) (e : Entry)
    → IsUnique m
    → get m a ≡ some e
    → total_bytes (remove m a) + e.content.length ≡ total_bytes m
unfolding total_bytes get remove
total_bytes-remove [] a e u h = cc
total_bytes-remove ((b, g) ∷ m) a e (new, u) h = elim (key_cases b a) [
  | inl same ↦
      let gone : get m a ≡ none = rw same at new in
      ground (arith, ℕ_keys.agrees b a, total_bytes-remove_absent m a)
  | inr other ↦ ground (arith, ℕ_keys.agrees b a, total_bytes-remove m a e u)
]

sum-quota :
    (bytes pending n current total max : ℕ)
    → current ≡ bytes + pending
    → total ≡ current + n
    → ltb max total ≡ false
    → bytes + (pending + n) ≤ max
sum-quota bytes pending n current total max c t h = ground arith

module _ (limits : StoreLimits) where
  pub pending-IsValid :
      (s : State) (p : ℕ)
      → IsValid limits s
      → s.bytes + p ≤ limits.max_bytes
      → IsValid limits (record s { pending_bytes = p })
  pending-IsValid s p v l =
      let i = v.indexed in
      record {
        indexed = record { forward = i.forward; backward = i.backward; free = i.free };
        counted = v.counted;
        within = l;
        entries = v.entries;
        unique = v.unique;
      }

  -- A reservation changes the pending bytes only, and they stay within the quota.
  pub reserve-pending :
      (r r' : StoreReservation) (n : ℕ) (s s' : State)
      → IsValid limits s
      → reserve limits r n s ≡ ok (r', s')
      → (p : ℕ) × (s' ≡ record s { pending_bytes = p }) × (s.bytes + p ≤ limits.max_bytes)
  unfolding reserve
  reserve-pending r r' n s s' v h = elim (Bool-cases (n == 0)) [
    | inl e ↦ (s.pending_bytes, sym (ap (λ x. x.1) (ok_injective (rw e at h))), v.within)
    | inr e ↦
        let (_, _, h1) =
          >>=-eq-ok (ok_or (checked_add u64_modulus r.bytes n) content_too_large) _ (rw e at h) in
        let (_, h2) = reject_if-ok s.poisoned _ _ h1 in
        let (current, e_current, h3) =
          >>=-eq-ok (ok_or (checked_add u64_modulus s.bytes s.pending_bytes) content_too_large) _
            h2 in
        let (total, e_total, h4) =
          >>=-eq-ok (ok_or (checked_add u64_modulus current n) content_too_large) _ h3 in
        let (quota, h5) = reject_if-ok (ltb limits.max_bytes total) _ _ h4 in
        let (pending, e_pending, h6) =
          >>=-eq-ok (ok_or (checked_add u64_modulus s.pending_bytes n) invariant) _ h5 in
        let (c, _) =
          checked_add-some u64_modulus s.bytes s.pending_bytes current (ok_or-ok _ _ e_current) in
        let (t, _) = checked_add-some u64_modulus current n total (ok_or-ok _ _ e_total) in
        let (p, _) =
          checked_add-some u64_modulus s.pending_bytes n pending (ok_or-ok _ _ e_pending) in
        let within = sum-quota s.bytes s.pending_bytes n current total limits.max_bytes c t quota in
        (pending, sym (ap (λ x. x.1) (ok_injective h6)), rw p within)
  ]

  -- An entry is replaced by one with the same content.
  pub leases-IsValid :
      (s : State) (alias : ℕ) (entry entry' : Entry)
      → IsValid limits s
      → get s.by_alias alias ≡ some entry
      → entry'.content ≡ entry.content
      → entry'.content_id ≡ entry.content_id
      → IsValid limits (record s { by_alias = insert s.by_alias alias entry' })
  leases-IsValid s alias entry entry' v g same same_id =
      let i = v.indexed in
      let here = get-insert_same s.by_alias alias entry' in
      record {
        indexed = record {
          forward = λ id a h.
              let (e, ge, eq) = i.forward id a h in
              elim (key_cases alias a) [
                | inl at ↦
                    let e_eq : entry ≡ e = some-injective entry e (sym g ∙ rw (sym at) at ge) in
                    (entry', rw (sym at) here, same_id ∙ rw (sym e_eq) at eq)
                | inr other ↦ (e, get-insert_other s.by_alias alias a entry' other ∙ ge, eq)
              ];
          backward = λ a e h. elim (key_cases alias a) [
            | inl at ↦
                let e_eq : entry' ≡ e = some-injective entry' e (sym here ∙ rw (sym at) at h) in
                rw (sym at, sym e_eq, same_id) (i.backward alias entry g)
            | inr other ↦
                i.backward a e (sym (get-insert_other s.by_alias alias a entry' other) ∙ h)
          ];
          free = λ a l. elim (key_cases alias a) [
            | inl at ↦ absurd (some-ne-none (sym g ∙ i.free alias (omega arith)))
            | inr other ↦ get-insert_other s.by_alias alias a entry' other ∙ i.free a l
          ];
        };
        counted = v.counted ∙ sym (total_bytes-insert_known s.by_alias alias entry' entry g same);
        within = v.within;
        entries = rw (length-insert_known s.by_alias alias entry' entry g) (v.entries);
        unique = insert-IsUnique s.by_alias alias entry' v.unique;
      }

  -- An entry is removed with its digest.
  pub removed-IsValid :
      (s : State) (alias bytes : ℕ) (entry : Entry)
      → IsValid limits s
      → get s.by_alias alias ≡ some entry
      → bytes + entry.content.length ≡ s.bytes
      → IsValid limits (record s {
        by_alias = remove s.by_alias alias;
        by_content = remove s.by_content entry.content_id;
        bytes = bytes;
      })
  removed-IsValid s alias bytes entry v g sum =
      let i = v.indexed in
      let known = i.backward alias entry g in
      record {
        indexed = record {
          forward = λ id a h. elim (key_cases entry.content_id id) [
            | inl at ↦
                absurd (
                  some-ne-none
                    (sym h ∙ rw (sym at) (get-remove_same s.by_content entry.content_id)))
            | inr other ↦
                let (e, ge, eq) =
                  i.forward id a
                    (sym (get-remove_other s.by_content entry.content_id id other) ∙ h) in
                elim (key_cases alias a) [
                  | inl at ↦
                      let e_eq : entry ≡ e = some-injective entry e (sym g ∙ rw (sym at) at ge) in
                      absurd (other (rw (sym e_eq) at eq))
                  | inr away ↦ (e, get-remove_other s.by_alias alias a away ∙ ge, eq)
                ]
          ];
          backward = λ a e h. elim (key_cases alias a) [
            | inl at ↦
                absurd (some-ne-none (sym h ∙ rw (sym at) (get-remove_same s.by_alias alias)))
            | inr other ↦
                let old = i.backward a e (sym (get-remove_other s.by_alias alias a other) ∙ h) in
                elim (key_cases entry.content_id e.content_id) [
                  | inl at ↦
                      absurd (other (some-injective alias a (sym known ∙ rw (sym at) at old)))
                  | inr different ↦
                      get-remove_other s.by_content entry.content_id e.content_id different ∙ old
                ]
          ];
          free = λ a l. elim (key_cases alias a) [
            | inl at ↦ rw (sym at) (get-remove_same s.by_alias alias)
            | inr other ↦ get-remove_other s.by_alias alias a other ∙ i.free a l
          ];
        };
        counted =
            let all = total_bytes-remove s.by_alias alias entry v.unique g in
            let c = v.counted in omega arith;
        within = let w = v.within in omega arith;
        entries =
            let fewer = length-remove-le s.by_alias alias in let max = v.entries in omega arith;
        unique = remove-IsUnique s.by_alias alias v.unique;
      }

  -- In a valid state the count of bytes covers each entry.
  pub entry-bytes :
      (s : State) (alias : ℕ) (entry : Entry)
      → IsValid limits s
      → get s.by_alias alias ≡ some entry
      → checked_sub s.bytes entry.content.length ≡ some (s.bytes - entry.content.length)
  unfolding checked_sub
  entry-bytes s alias entry v g =
      let all = total_bytes-remove s.by_alias alias entry v.unique g in
      let c = v.counted in
      let enough : ltb s.bytes entry.content.length ≡ false = ground arith in rw enough refl
