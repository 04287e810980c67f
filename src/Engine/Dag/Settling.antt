-- ===== src/Engine/Dag/Settling.antt =====
-- One dependent of a settled node in `execute_dag`: what holds of the execution before and after.
use ash.Common.{
  ℕ, ◌+◌, ◌<◌, ◌≤◌, ◌≡◌, refl, ap, Bool, true, false, not, ◌&&◌, ◌||◌, none, some, List, [], ◌∷◌,
  ◌++◌, ◌==◌, if◌then◌else◌, Result, length, all, All, arith, Bool-cases, inl, inr,
}
use ash.Engine.Dag.{DagNode, dependencies_at}
use ash.Engine.Dag.Members.{mem, is_distinct, is_below, count_in, mem-append}
use ash.Engine.Dag.Execution.{DagCompletion, Execution, job_at}
use ash.Engine.Dag.Plan.{planned_outcome, planned_error}

unfoldable pub indexes : {A : Type 0} → List (ℕ × A) → List ℕ
indexes [] = []
indexes ((i, a) ∷ rest) = i ∷ indexes rest

pub indexes-append_one :
    {A : Type 0} (xs : List (ℕ × A)) (i : ℕ) (a : A)
    → indexes (xs ++ (i, a) ∷ []) ≡ indexes xs ++ i ∷ []
unfolding indexes
indexes-append_one [] i a = refl
indexes-append_one ((j, b) ∷ xs) i a = ap (λ t. j ∷ t) (indexes-append_one xs i a)

pub mem-append_one : (j i : ℕ) (xs : List ℕ) → mem j (xs ++ i ∷ []) ≡ (mem j xs || j == i)
unfolding mem
mem-append_one j i xs = ground (arith, mem-append j xs (i ∷ []))

pub is_below-append_one :
    (n i : ℕ) (xs : List ℕ) → is_below n xs ≡ true → i < n → is_below n (xs ++ i ∷ []) ≡ true
unfolding is_below
is_below-append_one n i [] h l = ground arith
is_below-append_one n i (x ∷ xs) h l = ground (arith, is_below-append_one n i xs)

-- Whether one of the nodes that were seen did not succeed.
unfoldable pub failing : (ℕ → Bool) → List ℕ → List ℕ → Bool
unfolding mem
failing good seen [] = false
failing good seen (d ∷ rest) = (mem d seen && not (good d)) || failing good seen rest

pub failing-cons :
    (good : ℕ → Bool) (x : ℕ) (seen xs : List ℕ)
    → failing good (x ∷ seen) xs ≡ (failing good seen xs || (mem x xs && not (good x)))
unfolding failing mem
failing-cons good x seen [] = refl
failing-cons good x seen (y ∷ xs) =
    let rest = failing-cons good x seen xs in
    elim (Bool-cases (x == y)) [
      | inl e ↦ let same : x ≡ y = ground arith in ground (arith, ap good same)
      | inr e ↦ ground arith
    ]

pub failing-all :
    (good : ℕ → Bool) (seen xs : List ℕ)
    → ((d : ℕ) → mem d xs ≡ true → mem d seen ≡ true)
    → failing good seen xs ≡ not (all good xs)
unfolding failing mem
failing-all good seen [] h = refl
failing-all good seen (x ∷ xs) h =
    let first = h x (ground arith) in
    let rest = failing-all good seen xs (λ d m. h d (ground arith)) in ground arith

pub failing_none : (good : ℕ → Bool) (xs : List ℕ) → failing good [] xs ≡ false
unfolding failing mem
failing_none good [] = refl
failing_none good (x ∷ xs) = failing_none good xs

-- What each node waits for, when it has seen some nodes settle.
pub record Counting (n : ℕ) (dependencies : ℕ → List ℕ) (good : ℕ → Bool) (seen : ℕ → List ℕ)
    (remaining : ℕ → ℕ) (failed : ℕ → Bool) : Type 0 where
  pub counts :
      (i : ℕ) → i < n → remaining i + count_in (seen i) (dependencies i) ≡ length (dependencies i)
  pub failures : (i : ℕ) → i < n → failed i ≡ failing good (seen i) (dependencies i)

module _ {J R E : Type 0} (run : J → Result (DagCompletion R) E) (nodes : List (DagNode J))
    (good : ℕ → Bool) where
  abbrev pub IsRunnable : ℕ × J → Type 0
  IsRunnable (i, job) = (job_at nodes i ≡ some job) × (all good (dependencies_at nodes i) ≡ true)

  abbrev pub IsRight : ℕ × Bool → Type 0
  IsRight (i, succeeded) = succeeded ≡ good i

  -- The nodes whose dependents know, those in the queue, and those that run.
  pub record IsSettling (released : List ℕ) (terminal : List (ℕ × Bool)) (s : Execution J R E)
      : Type 0 where
    pub taken :
        (j : ℕ)
        → j < length nodes
        → (mem j released || mem j (indexes terminal) || mem j (indexes s.running))
          ≡ (s.remaining j == 0)
    pub settled : s.settled ≡ length released + length terminal
    pub released_once : is_distinct released ≡ true
    pub released_below : is_below (length nodes) released ≡ true
    pub terminal_once : is_distinct (indexes terminal) ≡ true
    pub terminal_below : is_below (length nodes) (indexes terminal) ≡ true
    pub running_once : is_distinct (indexes s.running) ≡ true
    pub running_below : is_below (length nodes) (indexes s.running) ≡ true
    pub apart : (j : ℕ) → mem j (indexes terminal) ≡ true → mem j released ≡ false
    pub runs :
        (j : ℕ)
        → mem j (indexes s.running) ≡ true
        → (mem j released || mem j (indexes terminal)) ≡ false
    pub jobs : (j : ℕ) → j < length nodes → 1 ≤ s.remaining j → s.jobs j ≡ job_at nodes j
    pub running_jobs : All IsRunnable s.running
    pub terminal_right : All IsRight terminal
    pub outcomes :
        (j : ℕ)
        → j < length nodes
        → s.outcomes j ≡ (
            if mem j released || mem j (indexes terminal)
            then planned_outcome run good nodes j
            else none)
    pub errors :
        (j : ℕ)
        → j < length nodes
        → s.errors j ≡ (
            if mem j released || mem j (indexes terminal)
            then planned_error run good nodes j
            else none)
