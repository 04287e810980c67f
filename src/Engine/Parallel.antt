-- ===== src/Engine/Parallel.antt =====
-- crates/ash-engine/src/parallel.rs: the worker counts of `Parallelism`. The thread pool is rayon's.
use ash.Common.{
  ℕ, ◌+◌, ◌-◌, ◌*◌, ◌/◌, ◌%◌, ◌≤◌, ◌<◌, ◌≡◌, refl, Option, none, some, max, ◌==◌, ltb, arith,
  if◌then◌else◌,
}
use ash.Common.Words.{u64_modulus}

pub record Parallelism : Type 0 where
  pub io_workers : ℕ
  pub compute_workers : ℕ
  pub max_processes : ℕ
  pub max_filesystem_ops : ℕ

-- `NonZeroUsize::new(value)`: `none` is the panic of `non_zero`.
unfoldable pub non_zero : ℕ → Option ℕ
non_zero value = if value == 0 then none else some value

-- `a.div_ceil(b)`
unfoldable pub div_ceil : ℕ → ℕ → ℕ
div_ceil a b = if a % b == 0 then a / b else a / b + 1

-- `value.clamp(low, high)`
unfoldable pub clamp : ℕ → ℕ → ℕ → ℕ
clamp value low high = if ltb value low then low else if ltb high value then high else value

-- `a.saturating_mul(b)` on a `usize`
unfoldable pub saturating_mul : ℕ → ℕ → ℕ
saturating_mul a b = if ltb (a * b) u64_modulus then a * b else u64_modulus - 1

unfoldable pub io_worker_count : ℕ → ℕ
unfolding div_ceil clamp
io_worker_count available = if available == 1 then 1 else clamp (div_ceil available 4) 2 8

unfoldable pub for_available_cpus : ℕ → Option Parallelism
unfolding non_zero io_worker_count saturating_mul
for_available_cpus count =
    let available = max count 1 in
    elim (non_zero (io_worker_count available)) [
      | none ↦ none
      | some io ↦ elim (non_zero available) [
        | none ↦ none
        | some workers ↦ elim (non_zero (saturating_mul available 2)) [
          | none ↦ none
          | some ops ↦ some (record {
            io_workers = io;
            compute_workers = workers;
            max_processes = workers;
            max_filesystem_ops = ops;
          })
        ]
      ]
    ]

-- Worker counts as the rest of the engine relies on them.
pub record IsBounded (count : ℕ) (p : Parallelism) : Type 0 where
  pub io : (1 ≤ p.io_workers) × (p.io_workers ≤ 8)
  pub compute : (1 ≤ p.compute_workers) × (p.compute_workers ≡ max count 1)
  pub processes : p.max_processes ≡ p.compute_workers
  pub filesystem :
      (p.compute_workers ≤ p.max_filesystem_ops) × (p.max_filesystem_ops ≤ 2 * p.compute_workers)

non_zero_lem : (value : ℕ) → 1 ≤ value → non_zero value ≡ some value
unfolding non_zero
non_zero_lem value h = ground arith

io_worker_count_lem :
    (available : ℕ)
    → 1 ≤ available
    → (1 ≤ io_worker_count available) × (io_worker_count available ≤ 8)
unfolding io_worker_count clamp
io_worker_count_lem available h = ground arith

saturating_double :
    (available : ℕ)
    → available < u64_modulus
    → (available ≤ saturating_mul available 2) × (saturating_mul available 2 ≤ 2 * available)
unfolding saturating_mul
saturating_double available h = ground arith

-- For every count of processors that a word holds, the worker counts are computed without a panic:
-- there are one to eight workers for input and output, as many for computation and as many processes
-- as there are processors, at least one, and once to twice as many file system operations.
pub for_available_cpus-IsBounded :
    (count : ℕ)
    → count < u64_modulus
    → (p : Parallelism) × (for_available_cpus count ≡ some p) × IsBounded count p
unfolding for_available_cpus
for_available_cpus-IsBounded count h =
    let available : ℕ = max count 1 in
    let (io_low, io_high) = io_worker_count_lem available (omega arith) in
    let (ops_low, ops_high) = saturating_double available (omega arith) in
    (
      record {
        io_workers = io_worker_count available;
        compute_workers = available;
        max_processes = available;
        max_filesystem_ops = saturating_mul available 2;
      },
      rw
          (
            non_zero_lem (io_worker_count (max count 1)) io_low,
            non_zero_lem (max count 1) (omega arith),
            non_zero_lem (saturating_mul (max count 1) 2) (omega arith),
            for_available_cpus,
          )
          refl,
      record {
        io = (io_low, io_high);
        compute = (omega arith, refl);
        processes = refl;
        filesystem = (ops_low, ops_high);
      },
    )
