-- ===== src/Engine/Budget/Tests.antt =====
-- Concrete runs of the budget counters, and the theorems at concrete inputs.
use ash.Common.{
  ℕ, ◌+◌, ◌-◌, ◌≤◌, ◌≡◌, refl, Bool, true, false, List, [], ◌∷◌, ok, err, arith, leb, min,
  if◌then◌else◌,
}
use ash.Common.Words.{u64_modulus, checked_add}
use ash.Engine.Budget.{
  BudgetTracker, BudgetError, start, returned, new, reserve_output, remaining, reserve_step,
}
use ash.Engine.Budget.Concurrent.{
  Shared, run, granted_total, AllSound, run-granted, run-Sound, step_calls,
}
use ash.Engine.Budget.Sequential.{IsWithin, reserve_output_lem}

abbrev tracker : BudgetTracker
tracker = record {
  tokens = 100;
  output_limit = 100;
  record_limit = 10;
  deadline = 30_000;
  output_used = 95;
  records_used = 0;
}

tracker-IsWithin : IsWithin tracker
tracker-IsWithin = omega arith

reserve_too_much : reserve_output tracker 6 ≡ (tracker, err (BudgetError.output 101))
unfolding reserve_output
reserve_too_much = refl

new_zero_limit :
    new 0 (record { tokens = 1; records = 1; millis = 1 }) 0 ≡ err BudgetError.invalid_output_limit
unfolding new
new_zero_limit = refl

reserve_output_lem_example : reserve_output tracker 5 ≡ (
    if leb 5 (remaining tracker).output_bytes
    then (record tracker { output_used = tracker.output_used + 5 }, ok tt)
    else (tracker, err (BudgetError.output (min (tracker.output_used + 5) (u64_modulus - 1)))))
reserve_output_lem_example = reserve_output_lem tracker 5 tracker-IsWithin

-- Two threads want 60 of 100: both load 0, and the second exchange fails and is refused.
abbrev two_threads : Shared
two_threads = record {
  counter = 0;
  calls = record { amount = 60; phase = start } ∷ record { amount = 60; phase = start } ∷ [];
}

abbrev race : List (ℕ × Bool)
race = (0, false) ∷ (1, false) ∷ (1, true) ∷ (1, false) ∷ (0, false) ∷ (0, false) ∷ []

race_result : run u64_modulus 100 race two_threads ≡ record {
  counter = 60;
  calls =
      record { amount = 60; phase = returned (err 120) }
      ∷ record { amount = 60; phase = returned (ok tt) }
      ∷ [];
}
unfolding run step_calls reserve_step checked_add
race_result = refl

run-granted_example :
    ((run u64_modulus 100 race two_threads).counter + granted_total two_threads.calls
      ≡ 0 + granted_total (run u64_modulus 100 race two_threads).calls)
    × ((run u64_modulus 100 race two_threads).counter ≤ 100)
run-granted_example = run-granted u64_modulus 100 race two_threads (omega arith)

run-Sound_example :
    AllSound 100
      (run u64_modulus 100 race two_threads).counter
      (run u64_modulus 100 race two_threads).calls
run-Sound_example = run-Sound u64_modulus 100 race two_threads (omega arith) (tt, (tt, tt))
