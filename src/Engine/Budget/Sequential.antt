-- ===== src/Engine/Budget/Sequential.antt =====
-- The reservations of one thread, against the quota that they promise.
use ash.Common.{ℕ, ◌+◌, ◌-◌, ◌≤◌, ◌<◌, ◌≡◌, ok, err, arith, leb, if◌then◌else◌, min}
use ash.Common.Words.{u32_modulus, u64_modulus}
use ash.Engine.Budget.{BudgetTracker, BudgetError, reserve_output, reserve_records, remaining}

-- The counters are within their limits, and the limits are machine words.
pub record IsWithin (t : BudgetTracker) : Type 0 where
  pub output : t.output_used ≤ t.output_limit
  pub records : t.records_used ≤ t.record_limit
  pub output_word : t.output_limit < u64_modulus
  pub record_word : t.record_limit < u32_modulus

-- For a tracker within its limits, a reservation of output succeeds exactly when it fits what remains.
-- Then the usage grows by exactly the amount; otherwise the tracker is unchanged and the error carries the sum,
-- held at the largest word. Records and limits never change.
pub reserve_output_lem :
    (t : BudgetTracker) (bytes : ℕ)
    → IsWithin t
    → reserve_output t bytes ≡ (
        if leb bytes (remaining t).output_bytes
        then (record t { output_used = t.output_used + bytes }, ok tt)
        else (t, err (BudgetError.output (min (t.output_used + bytes) (u64_modulus - 1)))))
unfolding reserve_output remaining
reserve_output_lem t bytes w = ground arith

-- The same for records, counted in 32-bit words.
pub reserve_records_lem :
    (t : BudgetTracker) (amount : ℕ)
    → IsWithin t
    → reserve_records t amount ≡ (
        if leb amount (remaining t).records
        then (record t { records_used = t.records_used + amount }, ok tt)
        else (t, err (BudgetError.records (min (t.records_used + amount) (u32_modulus - 1)))))
unfolding reserve_records remaining
reserve_records_lem t amount w = ground arith
