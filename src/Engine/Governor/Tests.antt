-- ===== src/Engine/Governor/Tests.antt =====
-- A semaphore that is a count, and tasks that compete for the permits of crates/ash-engine/src/governor.rs.
use ash.Common.{
  ℕ, ◌+◌, ◌-◌, ◌≡◌, refl, List, [], ◌∷◌, ◌==◌, arith, if◌then◌else◌, some, Result, ok, err,
}
use ash.Engine.Parallel.{Parallelism, for_available_cpus, for_available_cpus-IsBounded, IsBounded}
use ash.Engine.Governor.{
  GovernorLimits, from_parallelism, process, filesystem, compute, TryAcquireError, new, arrives,
  acquire_session, acquire_global, drop_global, drop_session,
}
use ash.Engine.Governor.Tasks.{
  System, Action, begins, continues, abandons, drops, leaves, begins_elsewhere, act, acts,
}
use ash.Engine.Governor.Semaphores.{IsSemaphore}
use ash.Engine.Governor.Conservation.{IsBalanced, fresh_system, acts-IsBalanced, new-IsBalanced}

unfoldable take_permit : ℕ → ℕ × Result (Unit {0}) TryAcquireError
take_permit n = if n == 0 then (n, err TryAcquireError.no_permits) else (n - 1, ok tt)

abbrev fresh : ℕ → ℕ
fresh n = n

abbrev give_permit : ℕ → ℕ
give_permit n = n + 1

abbrev permits_left : ℕ → ℕ
permits_left s = s

counter-IsSemaphore : IsSemaphore fresh take_permit give_permit
unfolding take_permit
counter-IsSemaphore = record {
  available = permits_left;
  created = λ n. refl;
  granted = λ s h. ground arith;
  taken = λ s h. ground arith;
  exhausted = λ s h. ground arith;
  kept = λ s h. ground arith;
  released = λ s. refl;
}

abbrev eight_cpus : Parallelism
eight_cpus = record {
  io_workers = 2;
  compute_workers = 8;
  max_processes = 8;
  max_filesystem_ops = 16;
}

for_available_cpus_eight : for_available_cpus 8 ≡ some eight_cpus
unfolding for_available_cpus
for_available_cpus_eight = refl

for_available_cpus-IsBounded_example :
    (p : Parallelism) × (for_available_cpus 8 ≡ some p) × IsBounded 8 p
for_available_cpus-IsBounded_example = for_available_cpus-IsBounded 8 (omega arith)

from_parallelism_eight :
    from_parallelism eight_cpus
    ≡ record { programs = 8; nodes = 24; processes = 8; filesystem = 16; compute = 8 }
unfolding from_parallelism
from_parallelism_eight = refl

abbrev small_limits : GovernorLimits
small_limits = record { programs = 4; nodes = 4; processes = 2; filesystem = 2; compute = 1 }

abbrev process_limits : GovernorLimits
process_limits = record { programs = 9; nodes = 9; processes = 1; filesystem = 9; compute = 9 }

abbrev idle : System ℕ
idle = fresh_system fresh take_permit give_permit counter-IsSemaphore small_limits process_limits

-- The second call waits at the process with its permit of the session while the first has the only
-- process, a third is dropped while it waits, and the second goes on once the first is done.
abbrev contention : List Action
contention =
    begins process arrives
    ∷ begins process arrives
    ∷ continues 0 arrives
    ∷ begins compute arrives
    ∷ abandons 0
    ∷ begins_elsewhere filesystem arrives
    ∷ drops 0
    ∷ leaves 0
    ∷ continues 0 arrives
    ∷ []

contention_held : (acts take_permit give_permit contention idle).held ≡ process ∷ []
unfolding acts act take_permit new acquire_session acquire_global drop_global drop_session
contention_held = refl

-- The state of the two calls that compete: one permit of the session is held and one waits.
abbrev two_calls : List Action
two_calls = begins process arrives ∷ begins process arrives ∷ continues 0 arrives ∷ []

two_calls_waiting : (acts take_permit give_permit two_calls idle).waiting ≡ process ∷ []
unfolding acts act take_permit new acquire_session acquire_global
two_calls_waiting = refl

acts-IsBalanced_example :
    IsBalanced fresh take_permit give_permit counter-IsSemaphore small_limits process_limits
      (acts take_permit give_permit contention idle)
acts-IsBalanced_example =
    acts-IsBalanced fresh take_permit give_permit counter-IsSemaphore small_limits process_limits
      contention idle
      (new-IsBalanced fresh take_permit give_permit counter-IsSemaphore small_limits process_limits)
