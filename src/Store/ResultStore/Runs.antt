-- ===== src/Store/ResultStore/Runs.antt =====
-- The calls of a store as steps, and what holds in every state that they reach.
use ash.Common.{
  ℕ, ◌+◌, ◌<◌, ◌≡◌, refl, sym, ap, ◌||◌, Option, none, List, ◌==◌, Result, ok, err, >>=-eq-ok,
  ok_injective, reject_if-ok, arith,
}
use ash.Common.Eq.{ℕ_keys, bytes_keys}
use ash.Common.Map.{get}
use ash.Common.Words.{u64_modulus}
use ash.Store.ResultStore.{
  StoreLimits, State, StoreReservation, PendingContent, StoreError, new, reserve, drop_reservation,
  get_lease, drop_lease, release,
}
use ash.Store.ResultStore.Retain.{retain_pending}
use ash.Store.ResultStore.Retaining.{total_bytes, some-ne-none}
use ash.Store.ResultStore.Contract.{IsValid, retain_pending-atomic, Kept}
use ash.Store.ResultStore.Steps.{
  Advanced, Advanced-same, reserve-Advanced, drop_reservation-Advanced, get_lease-Advanced,
  drop_lease-Advanced, release-Advanced, release-ok,
}

module _ (hash : List ℕ → List ℕ) (file : ℕ → Option (List ℕ)) (limits : StoreLimits) where
  retain_pending-Advanced :
      (this : ℕ) (pending : List PendingContent) (s : State)
      → limits.max_entries + 1 < u64_modulus
      → IsValid limits s
      → Advanced limits s (retain_pending hash file limits this pending s).0
  retain_pending-Advanced this pending s l v =
      go (retain_pending hash file limits this pending s)
        (retain_pending-atomic hash file limits this pending s l v)
    where
      go :
          (out : State × Result (List ℕ) StoreError)
          → Kept hash file limits pending s out
          → Advanced limits s out.0
      go (s', err e) same = rw same (Advanced-same limits s v)
      go (s', ok aliases) (ids, reserved, _, _, added) = record {
        valid = added.valid;
        later = added.later;
        retired = added.retired;
      }

  -- One call of the store.
  pub data Step : State → State → Type 0 where
    reserves :
        (r r' : StoreReservation) (n : ℕ) (s s' : State)
        → reserve limits r n s ≡ ok (r', s')
        → Step s s'
    drops : (r : StoreReservation) (s : State) → Step s (drop_reservation r s)
    leases : (alias : ℕ) (s : State) → Step s (get_lease alias s).0
    unleases : (alias : ℕ) (s : State) → Step s (drop_lease alias s)
    releases : (alias : ℕ) (s : State) → Step s (release alias s).0
    retains :
        (this : ℕ) (pending : List PendingContent) (s : State)
        → Step s (retain_pending hash file limits this pending s).0

  pub data Run : State → State → Type 0 where
    stop : (s : State) → Run s s
    call : (s s' s'' : State) → Step s s' → Run s' s'' → Run s s''

  Step-Advanced :
      (s s' : State)
      → Step s s'
      → limits.max_entries + 1 < u64_modulus
      → IsValid limits s
      → Advanced limits s s'
  Step-Advanced _ _ (reserves r r' n s s' h) l v = reserve-Advanced limits r r' n s s' v h
  Step-Advanced _ _ (drops r s) l v = drop_reservation-Advanced limits r s v
  Step-Advanced _ _ (leases alias s) l v = get_lease-Advanced limits alias s v
  Step-Advanced _ _ (unleases alias s) l v = drop_lease-Advanced limits alias s v
  Step-Advanced _ _ (releases alias s) l v = release-Advanced limits alias s v
  Step-Advanced _ _ (retains this pending s) l v = retain_pending-Advanced this pending s l v

  Run-Advanced :
      (s s' : State)
      → Run s s'
      → limits.max_entries + 1 < u64_modulus
      → IsValid limits s
      → Advanced limits s s'
  Run-Advanced _ _ (stop s) l v = Advanced-same limits s v
  Run-Advanced _ _ (call s s' s'' step run) l v =
      let one = Step-Advanced s s' step l v in
      let rest = Run-Advanced s' s'' run l one.valid in
      let later = one.later in
      let last = rest.later in
      record {
        valid = rest.valid;
        later = omega arith;
        retired = λ a less g. rest.retired a (omega arith) (one.retired a less g);
      }

  new-IsValid :
      (spool : Result (Unit {0}) StoreError) (s : State)
      → new spool limits ≡ ok s
      → IsValid limits s
  unfolding new total_bytes get
  new-IsValid spool s h =
      let (_, h1) = reject_if-ok (limits.max_bytes == 0 || limits.max_entries == 0) _ _ h in
      let (_, _, h2) = >>=-eq-ok spool _ h1 in
      rw (sym (ok_injective h2)) (record {
        indexed = record {
          forward = λ id a g. absurd (some-ne-none (sym g));
          backward = λ a e g. absurd (some-ne-none (sym g));
          free = λ a less. refl;
        };
        counted = refl;
        within = omega arith;
        entries = omega arith;
        unique = tt;
      })

  -- Every state that calls reach from a new store, in any order and with any result, is valid: the two
  -- maps are inverse, the byte count is the sum of the contents, and the contents with the reserved
  -- bytes, and the entries, are within the quotas. The quota of entries is below the largest machine word.
  pub Run-new_IsValid :
      (spool : Result (Unit {0}) StoreError) (s s' : State)
      → new spool limits ≡ ok s
      → limits.max_entries + 1 < u64_modulus
      → Run s s'
      → IsValid limits s'
  Run-new_IsValid spool s s' h l run = (Run-Advanced s s' run l (new-IsValid spool s h)).valid

  -- A released alias stays retired: once `release` has succeeded on a valid store, no later sequence of
  -- calls gives the alias an entry again. The quota of entries is below the largest machine word.
  pub release-retired :
      (alias : ℕ) (s s' s'' : State)
      → limits.max_entries + 1 < u64_modulus
      → IsValid limits s
      → release alias s ≡ (s', ok tt)
      → Run s' s''
      → get s''.by_alias alias ≡ none
  release-retired alias s s' s'' l v h run =
      let (gone, low) = release-ok limits alias s s' v h in
      let valid : IsValid limits s' =
        rw (ap (λ x. x.0) (sym h)) (release-Advanced limits alias s v).valid in
      (Run-Advanced s' s'' run l valid).retired alias low gone
