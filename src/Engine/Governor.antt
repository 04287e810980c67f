-- ===== src/Engine/Governor.antt =====
-- crates/ash-engine/src/governor.rs: permits by kind, at the level of a session and of the process.
-- The semaphores of tokio are parameters.
pub mod Tasks
pub mod Semaphores
pub mod Conservation
mod Tests
use ash.Common.{
  ℕ, zero, suc, ◌+◌, ◌*◌, ◌≤◌, ◌<◌, ◌≡◌, Bool, true, false, Option, none, some, List, [], ◌∷◌, ◌==◌,
  if◌then◌else◌, Result, ok, err,
}
use ash.Common.Words.{u64_modulus, saturating_add}
use ash.Engine.Parallel.{Parallelism, saturating_mul}

pub record GovernorLimits : Type 0 where
  pub programs : ℕ
  pub nodes : ℕ
  pub processes : ℕ
  pub filesystem : ℕ
  pub compute : ℕ

-- This file's `non_zero` makes one of nothing.
unfoldable pub at_least_one : ℕ → ℕ
at_least_one value = if value == 0 then 1 else value

unfoldable pub from_parallelism : Parallelism → GovernorLimits
unfolding at_least_one saturating_mul saturating_add
from_parallelism p = record {
  programs = at_least_one (saturating_mul p.io_workers 4);
  nodes = at_least_one (saturating_add u64_modulus p.compute_workers p.max_filesystem_ops);
  processes = p.max_processes;
  filesystem = p.max_filesystem_ops;
  compute = p.compute_workers;
}

pub data PermitKind : Type 0 where
  program node process filesystem compute : PermitKind

abbrev pub limit_of : GovernorLimits → PermitKind → ℕ
limit_of l program = l.programs
limit_of l node = l.nodes
limit_of l process = l.processes
limit_of l filesystem = l.filesystem
limit_of l compute = l.compute

-- `matches_same_kind`
abbrev pub same_kind : PermitKind → PermitKind → Bool
same_kind program program = true
same_kind node node = true
same_kind process process = true
same_kind filesystem filesystem = true
same_kind compute compute = true
same_kind _ _ = false

pub data GovernorError : Type 0 where
  cancelled deadline closed no_permits : GovernorError

-- Why tokio's `try_acquire_owned` gives no permit.
pub data TryAcquireError : Type 0 where
  closed no_permits : TryAcquireError

-- A governor over the type of semaphores.
pub record Governor (S : Type 0) : Type 0 where
  pub limits : GovernorLimits
  pub programs : S
  pub nodes : S
  pub processes : S
  pub filesystem : S
  pub compute : S

unfoldable pub new : {S : Type 0} → (ℕ → S) → GovernorLimits → Governor S
new create limits = record {
  limits = limits;
  programs = create limits.programs;
  nodes = create limits.nodes;
  processes = create limits.processes;
  filesystem = create limits.filesystem;
  compute = create limits.compute;
}

-- `Governor::semaphore`; the semaphore is shared, so a change of it is a change of the governor.
unfoldable pub semaphore : {S : Type 0} → Governor S → PermitKind → S
semaphore g program = g.programs
semaphore g node = g.nodes
semaphore g process = g.processes
semaphore g filesystem = g.filesystem
semaphore g compute = g.compute

unfoldable pub set_semaphore : {S : Type 0} → Governor S → PermitKind → S → Governor S
set_semaphore g program s = record g { programs = s }
set_semaphore g node s = record g { nodes = s }
set_semaphore g process s = record g { processes = s }
set_semaphore g filesystem s = record g { filesystem = s }
set_semaphore g compute s = record g { compute = s }

-- How the wait of `acquire` ends: the arms of its `select`, in their order of preference.
pub data Wait : Type 0 where
  interrupted : Wait
  elapsed : Wait
  arrives : Wait

-- A permit is its kind.
module _ {S : Type 0} (take : S → S × Result (Unit {0}) TryAcquireError) (release : S → S) where
  abbrev pub try_error : TryAcquireError → GovernorError
  try_error TryAcquireError.closed = GovernorError.closed
  try_error TryAcquireError.no_permits = GovernorError.no_permits

  unfoldable pub try_acquire :
      Governor S → PermitKind → Governor S × Result PermitKind GovernorError
  unfolding semaphore set_semaphore
  try_acquire g kind =
      let (s, end) = take (semaphore g kind) in
      elim end [
        | ok _ ↦ (set_semaphore g kind s, ok kind)
        | err e ↦ (set_semaphore g kind s, err (try_error e))
      ]

  -- A wait that arrives at a semaphore with no permit left goes on to the deadline.
  abbrev pub wait_error : TryAcquireError → GovernorError
  wait_error TryAcquireError.closed = GovernorError.closed
  wait_error TryAcquireError.no_permits = GovernorError.deadline

  unfoldable pub acquire :
      Governor S → PermitKind → Wait → Governor S × Result PermitKind GovernorError
  unfolding semaphore set_semaphore
  acquire g kind interrupted = (g, err GovernorError.cancelled)
  acquire g kind elapsed = (g, err GovernorError.deadline)
  acquire g kind arrives =
      let (s, end) = take (semaphore g kind) in
      elim end [
        | ok _ ↦ (set_semaphore g kind s, ok kind)
        | err e ↦ (set_semaphore g kind s, err (wait_error e))
      ]

  -- The drop of a permit.
  unfoldable pub drop_permit : Governor S → PermitKind → Governor S
  unfolding semaphore set_semaphore
  drop_permit g kind = set_semaphore g kind (release (semaphore g kind))

pub record HierarchicalGovernor (S : Type 0) : Type 0 where
  pub global : Governor S
  pub session : Governor S

module _ {S : Type 0} (take : S → S × Result (Unit {0}) TryAcquireError) (release : S → S) where
  -- `HierarchicalGovernor::acquire` up to its second `await`. On success the call has a permit of the
  -- session, and other tasks run while it waits at the process.
  unfoldable pub acquire_session :
      HierarchicalGovernor S
      → PermitKind
      → Wait
      → HierarchicalGovernor S × Result PermitKind GovernorError
  unfolding acquire
  acquire_session h kind wait =
      let (session, first) = acquire take release h.session kind wait in
      (record h { session = session }, first)

  -- The rest of the call, which drops the session's permit if the process gives none.
  unfoldable pub acquire_global :
      HierarchicalGovernor S
      → PermitKind
      → Wait
      → HierarchicalGovernor S × Result PermitKind GovernorError
  unfolding acquire drop_permit
  acquire_global h kind wait =
      let (global, second) = acquire take release h.global kind wait in
      elim second [
        | err e ↦
            (record { global = global; session = drop_permit take release h.session kind }, err e)
        | ok _ ↦ (record h { global = global }, ok kind)
      ]

  -- The drop of a `HierarchicalPermit` drops the permit of the process, then that of the session.
  unfoldable pub drop_global : HierarchicalGovernor S → PermitKind → HierarchicalGovernor S
  unfolding drop_permit
  drop_global h kind = record h { global = drop_permit take release h.global kind }

  -- This is also what the drop of a call does whose future waits at the process.
  unfoldable pub drop_session : HierarchicalGovernor S → PermitKind → HierarchicalGovernor S
  unfolding drop_permit
  drop_session h kind = record h { session = drop_permit take release h.session kind }
