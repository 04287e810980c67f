-- ===== src/Engine/Dag/Plan.antt =====
-- What a graph of jobs of crates/ash-engine/src/dag.rs is to give: a job runs if all those it depends on
-- succeeded, and is skipped otherwise. The tests of dag.rs have the same oracle.
use ash.Common.{
  ℕ, zero, suc, ◌+◌, ◌<◌, ◌≡◌, refl, ap, Bool, true, false, ◌&&◌, Option, none, some, List, [], ◌∷◌,
  if◌then◌else◌, Result, ok, err, ◌>>=◌, length, all, arith,
}
use ash.Engine.Dag.{DagNode, DagError, task, dependencies_at}
use ash.Engine.Dag.Members.{mem}
use ash.Engine.Dag.Acyclic.{IsAcyclic, dependencies_at_end}
use ash.Engine.Dag.Execution.{
  DagCompletion, DagOutcome, completed, skipped, job_at, first_error, collect_outcomes,
}

module _ {J R E : Type 0} (run : J → Result (DagCompletion R) E) where
  abbrev pub job_succeeds : Option J → Bool
  job_succeeds none = false
  job_succeeds (some job) = elim (run job) [ ok c ↦ c.succeeded | err _ ↦ false ]

  -- Which nodes succeed: those that run and whose job succeeds.
  abbrev pub IsPlan : List (DagNode J) → (ℕ → Bool) → Type 0
  IsPlan nodes good =
      (i : ℕ) → good i ≡ (all good (dependencies_at nodes i) && job_succeeds (job_at nodes i))

  unfoldable pub succeeds : List (DagNode J) → ℕ → ℕ → Bool
  unfolding dependencies_at job_at
  succeeds nodes zero i = false
  succeeds nodes (suc fuel) i =
      all (succeeds nodes fuel) (dependencies_at nodes i) && job_succeeds (job_at nodes i)

  -- The answer, in the order of the nodes; an error is the first one.
  unfoldable pub expected :
      (ℕ → Bool) → List (DagNode J) → Result (List (DagOutcome R)) (DagError E)
  expected good [] = ok []
  expected good (node ∷ rest) =
      let later = expected good rest in
      if all good node.dependencies
      then elim (run node.job) [
        | err error ↦ err (task error)
        | ok c ↦ later >>= (λ outcomes. ok (completed c.value ∷ outcomes))
      ]
      else later >>= (λ outcomes. ok (skipped ∷ outcomes))

  -- The entries of `outcomes` and `errors` for a node that settled.
  abbrev pub job_outcome : Option J → Option (DagOutcome R)
  job_outcome none = none
  job_outcome (some job) = elim (run job) [ ok c ↦ some (completed c.value) | err _ ↦ none ]

  abbrev pub job_error : Option J → Option E
  job_error none = none
  job_error (some job) = elim (run job) [ ok _ ↦ none | err e ↦ some e ]

  unfoldable pub planned_outcome : (ℕ → Bool) → List (DagNode J) → ℕ → Option (DagOutcome R)
  unfolding dependencies_at job_at
  planned_outcome good nodes i =
      if all good (dependencies_at nodes i) then job_outcome (job_at nodes i) else some skipped

  unfoldable pub planned_error : (ℕ → Bool) → List (DagNode J) → ℕ → Option E
  unfolding dependencies_at job_at
  planned_error good nodes i =
      if all good (dependencies_at nodes i) then job_error (job_at nodes i) else none

  pub finish-expected :
      (good : ℕ → Bool) (k : ℕ) (nodes : List (DagNode J)) (outcomes : ℕ → Option (DagOutcome R))
      (errors : ℕ → Option E)
      → ((i : ℕ) → i < length nodes → outcomes (k + i) ≡ planned_outcome good nodes i)
      → ((i : ℕ) → i < length nodes → errors (k + i) ≡ planned_error good nodes i)
      → (elim (first_error k (length nodes) errors) [
        | some error ↦ err (task error)
        | none ↦ collect_outcomes k (length nodes) outcomes
      ])
        ≡ expected good nodes
  unfolding first_error collect_outcomes expected planned_outcome planned_error
  finish-expected good k [] outcomes errors o e = refl
  finish-expected good k (node ∷ rest) outcomes errors o e =
      let k0 : k + 0 ≡ k = omega arith in
      let shift : (i : ℕ) → k + suc i ≡ suc k + i = λ i. omega arith in
      let o0 = rw k0 at (o 0 (omega arith)) in
      let e0 = rw k0 at (e 0 (omega arith)) in
      let later =
        finish-expected good (suc k) rest outcomes errors
          (λ i l. rw (shift i) at (o (suc i) (omega arith)))
          (λ i l. rw (shift i) at (e (suc i) (omega arith))) in
      ground arith

  all-cong :
      (f g : ℕ → Bool) (xs : List ℕ) → ((d : ℕ) → mem d xs ≡ true → f d ≡ g d) → all f xs ≡ all g xs
  unfolding mem
  all-cong f g [] h = refl
  all-cong f g (x ∷ xs) h =
      let first = h x (ground arith) in
      let rest = all-cong f g xs (λ d m. h d (ground arith)) in ground arith

  -- Fuel above a node's rank does not matter.
  succeeds_stable :
      (nodes : List (DagNode J)) (a : IsAcyclic nodes) (k m i : ℕ)
      → a.rank i < k
      → a.rank i < m
      → succeeds nodes k i ≡ succeeds nodes m i
  unfolding succeeds
  succeeds_stable nodes a zero m i h l = absurd (omega arith)
  succeeds_stable nodes a (suc k) zero i h l = absurd (omega arith)
  succeeds_stable nodes a (suc k) (suc m) i h l =
      ap (λ b. b && job_succeeds (job_at nodes i))
        (all-cong (succeeds nodes k) (succeeds nodes m) (dependencies_at nodes i) (λ d e.
          let before = a.later i d (dependencies_at_end nodes i d e) e in
          succeeds_stable nodes a k m d (omega arith) (omega arith)))

  -- An acyclic graph has a plan.
  pub acyclic-IsPlan :
      (nodes : List (DagNode J)) (a : IsAcyclic nodes) → (good : ℕ → Bool) × IsPlan nodes good
  unfolding succeeds
  acyclic-IsPlan nodes a =
      let good : ℕ → Bool = λ i. succeeds nodes (suc (a.rank i)) i in
      (
        good,
        λ i.
            ap (λ b. b && job_succeeds (job_at nodes i))
              (all-cong (succeeds nodes (a.rank i)) good (dependencies_at nodes i) (λ d e.
                let before = a.later i d (dependencies_at_end nodes i d e) e in
                succeeds_stable nodes a (a.rank i) (suc (a.rank d)) d (omega arith) (omega arith))),
      )
