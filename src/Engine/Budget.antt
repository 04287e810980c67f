-- ===== src/Engine/Budget.antt =====
-- crates/ash-engine/src/budget.rs: the counters and the deadline of one program.
-- Instants are milliseconds of the monotonic clock, and reading the clock is an argument.
pub mod Concurrent
pub mod Sequential
mod Tests
use ash.Common.{
  ℕ, ◌+◌, ◌-◌, Bool, true, false, not, ◌&&◌, Option, none, some, List, [], ◌∷◌, foldl, ltb, leb,
  ◌==◌, if◌then◌else◌, Result, ok, err, map_err,
}
use ash.Common.Words.{u32_modulus, u64_modulus, checked_add, saturating_sub}

-- `ash_protocol::request::Budget`, as validated there.
pub record Budget : Type 0 where
  pub tokens : ℕ
  pub records : ℕ
  pub millis : ℕ

pub record BudgetTracker : Type 0 where
  pub tokens : ℕ
  pub output_limit : ℕ
  pub record_limit : ℕ
  pub deadline : ℕ
  pub output_used : ℕ
  pub records_used : ℕ

pub data BudgetError : Type 0 where
  invalid_output_limit : BudgetError
  output : ℕ → BudgetError
  records : ℕ → BudgetError
  deadline : BudgetError

pub record BudgetRemaining : Type 0 where
  pub tokens : ℕ
  pub output_bytes : ℕ
  pub records : ℕ
  pub deadline : ℕ

unfoldable pub new_with_deadline : Budget → ℕ → ℕ → Result BudgetTracker BudgetError
new_with_deadline request output_limit until =
    if output_limit == 0
    then err BudgetError.invalid_output_limit
    else ok (record {
      tokens = request.tokens;
      output_limit = output_limit;
      record_limit = request.records;
      deadline = until;
      output_used = 0;
      records_used = 0;
    })

unfoldable pub new : ℕ → Budget → ℕ → Result BudgetTracker BudgetError
unfolding new_with_deadline
new now request output_limit = new_with_deadline request output_limit (now + request.millis)

-- Where one call of `reserve_atomic_u64` or `reserve_atomic_u32` stands: before its load, in the
-- loop with the value that it believes the counter to have, or returned.
pub data Phase : Type 0 where
  start : Phase
  trying : ℕ → Phase
  returned : Result (Unit {0}) ℕ → Phase

-- One atomic step of a call on the shared counter. `spurious` says that this time
-- `compare_exchange_weak` fails although the counter has the expected value.
unfoldable pub reserve_step : ℕ → ℕ → ℕ → Bool → ℕ → Phase → ℕ × Phase
reserve_step modulus limit amount spurious counter start = (counter, trying counter)
reserve_step modulus limit amount spurious counter (trying current) =
    elim (checked_add modulus current amount) [
      | none ↦ (counter, returned (err (modulus - 1)))
      | some requested ↦
          if ltb limit requested
          then (counter, returned (err requested))
          else if not spurious && counter == current
          then (requested, returned (ok tt))
          else (counter, trying counter)
    ]
reserve_step modulus limit amount spurious counter (returned r) = (counter, returned r)

-- What a call has returned; a call that still runs has no result.
abbrev pub outcome : ℕ → Phase → Result (Unit {0}) ℕ
outcome modulus (returned r) = r
outcome modulus _ = err (modulus - 1)

-- A call that no other thread disturbs: its load, and one round of its loop.
unfoldable pub reserve_atomic : ℕ → ℕ → ℕ → ℕ → ℕ × Result (Unit {0}) ℕ
unfolding reserve_step checked_add
reserve_atomic modulus counter amount limit =
    let (loaded, phase) = reserve_step modulus limit amount false counter start in
    let (counter', phase') = reserve_step modulus limit amount false loaded phase in
    (counter', outcome modulus phase')

unfoldable pub reserve_output : BudgetTracker → ℕ → BudgetTracker × Result (Unit {0}) BudgetError
unfolding reserve_atomic
reserve_output t bytes =
    let (used, r) = reserve_atomic u64_modulus t.output_used bytes t.output_limit in
    (record t { output_used = used }, map_err BudgetError.output r)

unfoldable pub reserve_records : BudgetTracker → ℕ → BudgetTracker × Result (Unit {0}) BudgetError
unfolding reserve_atomic
reserve_records t amount =
    let (used, r) = reserve_atomic u32_modulus t.records_used amount t.record_limit in
    (record t { records_used = used }, map_err BudgetError.records r)

unfoldable pub check_deadline : ℕ → BudgetTracker → Result (Unit {0}) BudgetError
check_deadline now t = if leb t.deadline now then err BudgetError.deadline else ok tt

unfoldable pub remaining : BudgetTracker → BudgetRemaining
remaining t = record {
  tokens = t.tokens;
  output_bytes = saturating_sub t.output_limit t.output_used;
  records = saturating_sub t.record_limit t.records_used;
  deadline = t.deadline;
}
