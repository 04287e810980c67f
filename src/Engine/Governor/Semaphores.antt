-- ===== src/Engine/Governor/Semaphores.antt =====
-- What one call does to the permits that a governor of crates/ash-engine/src/governor.rs has left.
use ash.Common.{
  ℕ, ◌+◌, ◌<◌, ◌≡◌, refl, true, List, ◌∷◌, arith, if◌then◌else◌, Result, ok, err, inl, inr, ◌⊎◌,
}
use native.Mathlib.Decide.{dec_lt}
use ash.Engine.Governor.{
  GovernorLimits, PermitKind, program, node, process, filesystem, compute, limit_of, same_kind,
  GovernorError, TryAcquireError, Governor, new, semaphore, set_semaphore, Wait, interrupted,
  elapsed, arrives, acquire, drop_permit,
}
use ash.Engine.Governor.Tasks.{unit, count}

-- What tokio documents of a semaphore that is never closed. A permit that it has set aside for a
-- waiting task counts as available until the task goes on.
pub record IsSemaphore {S : Type 0} (create : ℕ → S)
    (take : S → S × Result (Unit {0}) TryAcquireError) (release : S → S) : Type 0 where
  pub available : S → ℕ
  pub created : (n : ℕ) → available (create n) ≡ n
  pub granted : (s : S) → 0 < available s → (take s).1 ≡ ok tt
  pub taken : (s : S) → 0 < available s → available (take s).0 + 1 ≡ available s
  pub exhausted : (s : S) → available s ≡ 0 → (take s).1 ≡ err TryAcquireError.no_permits
  pub kept : (s : S) → available s ≡ 0 → available (take s).0 ≡ 0
  pub released : (s : S) → available (release s) ≡ available s + 1

semaphore-set_semaphore :
    {S : Type 0} (g : Governor S) (k j : PermitKind) (s : S)
    → semaphore (set_semaphore g k s) j ≡ (if same_kind k j then s else semaphore g j)
unfolding semaphore set_semaphore
semaphore-set_semaphore g k j s = ground arith

same_kind_lem :
    {S : Type 0} (g : Governor S) (k j : PermitKind)
    → same_kind k j ≡ true
    → semaphore g k ≡ semaphore g j
unfolding semaphore
same_kind_lem g k j h = ground arith

module _ {S : Type 0} (create : ℕ → S) (take : S → S × Result (Unit {0}) TryAcquireError)
    (release : S → S) (spec : IsSemaphore create take release) where
  -- The permits of a kind that a governor has left.
  abbrev pub left : Governor S → PermitKind → ℕ
  left g j = spec.available (semaphore g j)

  left-set_semaphore :
      (g : Governor S) (k j : PermitKind) (s : S) (n : ℕ)
      → spec.available s + n ≡ left g k
      → left (set_semaphore g k s) j + (if same_kind k j then n else 0) ≡ left g j
  unfolding semaphore set_semaphore
  left-set_semaphore g k j s n e = ground arith

  pub left-drop_permit :
      (g : Governor S) (k j : PermitKind)
      → left (drop_permit take release g k) j ≡ left g j + unit k j
  unfolding drop_permit semaphore set_semaphore
  left-drop_permit g k j = ground (arith, spec.released (semaphore g k))

  pub count-cons :
      (j k : PermitKind) (held : List PermitKind) → count j (k ∷ held) ≡ unit k j + count j held
  unfolding count
  count-cons j k held = refl

  take_lem :
      (s : S)
      → ((take s).1 ≡ ok tt × (spec.available (take s).0 + 1 ≡ spec.available s))
        ⊎ ((take s).1 ≡ err TryAcquireError.no_permits
            × (spec.available (take s).0 + 0 ≡ spec.available s))
  take_lem s = elim (dec_lt 0 (spec.available s)) [
    | yes h ↦ inl (spec.granted s h, spec.taken s h)
    | no h ↦
        let none_left : spec.available s ≡ 0 = omega arith in
        inr (spec.exhausted s none_left, ground (arith, spec.kept s none_left))
  ]

  left_same :
      (g : Governor S) (k j : PermitKind) (s : S)
      → spec.available s + 0 ≡ left g k
      → left (set_semaphore g k s) j ≡ left g j
  left_same g k j s e = ground (arith, left-set_semaphore g k j s 0 e)

  -- A call that succeeds takes one permit of its kind; a call that fails takes none.
  abbrev pub Paid : Governor S → PermitKind → Governor S × Result PermitKind GovernorError → Type 0
  Paid g k (g', r) =
      (r ≡ ok k × ((j : PermitKind) → left g' j + unit k j ≡ left g j))
      ⊎ ((e : GovernorError) × (r ≡ err e) × ((j : PermitKind) → left g' j ≡ left g j))

  pub acquire-Paid :
      (g : Governor S) (k : PermitKind) (w : Wait) → Paid g k (acquire take release g k w)
  unfolding acquire
  acquire-Paid g k interrupted = inr (GovernorError.cancelled, refl, λ j. refl)
  acquire-Paid g k elapsed = inr (GovernorError.deadline, refl, λ j. refl)
  acquire-Paid g k arrives = elim (take_lem (semaphore g k)) [
    | inl (e, paid) ↦
        rw (e, acquire) (inl (refl, λ j. left-set_semaphore g k j (take (semaphore g k)).0 1 paid))
    | inr (e, same) ↦
        rw (e, acquire)
          (inr (GovernorError.deadline, refl, λ j. left_same g k j (take (semaphore g k)).0 same))
  ]

  pub left-new :
      (limits : GovernorLimits) (j : PermitKind) → left (new create limits) j ≡ limit_of limits j
  unfolding new semaphore
  left-new limits program = spec.created limits.programs
  left-new limits node = spec.created limits.nodes
  left-new limits process = spec.created limits.processes
  left-new limits filesystem = spec.created limits.filesystem
  left-new limits compute = spec.created limits.compute
