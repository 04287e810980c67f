-- ===== src/Engine/Dag/Tests.antt =====
-- Graphs of the tests in crates/ash-engine/src/dag.rs.
use ash.Common.{
  Bool, Result, Option, ◌+◌, ◌%◌, ◌==◌, if◌then◌else◌, ℕ, ◌≡◌, refl, some, List, [], ◌∷◌, ok, err,
}
use ash.Engine.Dag.{DagNode, DagError, invalid_graph, task, validate}
use ash.Engine.Dag.Execution.{DagCompletion, DagOutcome, completed, skipped, execute_dag}
use ash.Engine.Dag.Plan.{IsPlan, expected}
use ash.Engine.Dag.Oracle.{execute_dag-expected}
use ash.Engine.Dag.Acyclic.{Decided, validate-Decided}

abbrev node_after : List ℕ → DagNode ℕ
node_after dependencies = record { dependencies = dependencies; job = 0 }

abbrev diamond : List (DagNode ℕ)
diamond = node_after [] ∷ node_after (0 ∷ []) ∷ node_after (0 ∷ []) ∷ node_after (1 ∷ 2 ∷ []) ∷ []

diamond_lem : validate {E = ℕ} diamond ≡ some (ok tt)
unfolding validate
diamond_lem = refl

abbrev two_nodes_in_a_cycle : List (DagNode ℕ)
two_nodes_in_a_cycle = node_after (1 ∷ []) ∷ node_after (0 ∷ []) ∷ []

two_nodes_in_a_cycle_lem : validate {E = ℕ} two_nodes_in_a_cycle ≡ some (err invalid_graph)
unfolding validate
two_nodes_in_a_cycle_lem = refl

repeated_dependency :
    validate {E = ℕ} (node_after [] ∷ node_after (0 ∷ 0 ∷ []) ∷ []) ≡ some (err invalid_graph)
unfolding validate
repeated_dependency = refl

validate-Decided_example : Decided diamond (validate {E = ℕ} diamond)
validate-Decided_example = validate-Decided diamond

-- A job of an even number succeeds, of another it completes without success; the number three is an
-- error.
abbrev run_number : ℕ → Result (DagCompletion ℕ) ℕ
run_number n = if n == 3 then err n else ok (record { value = 10 + n; succeeded = n % 2 == 0 })

abbrev numbered : List ℕ → ℕ → DagNode ℕ
numbered dependencies job = record { dependencies = dependencies; job = job }

-- Two chains: the second starts with a job that does not succeed.
abbrev two_chains : List (DagNode ℕ)
two_chains =
    numbered [] 0
    ∷ numbered [] 1
    ∷ numbered (0 ∷ []) 2
    ∷ numbered (1 ∷ []) 4
    ∷ numbered (2 ∷ 3 ∷ []) 6
    ∷ []

abbrev two_chains_outcomes : Option (Result (List (DagOutcome ℕ)) (DagError ℕ))
two_chains_outcomes =
    some (ok (completed 10 ∷ completed 11 ∷ completed 12 ∷ skipped ∷ skipped ∷ []))

two_chains_in_order : execute_dag run_number (λ i. 0) two_chains ≡ two_chains_outcomes
unfolding execute_dag
two_chains_in_order = refl

two_chains_in_reverse : execute_dag run_number (λ i. 9) two_chains ≡ two_chains_outcomes
unfolding execute_dag
two_chains_in_reverse = refl

-- The error of the lowest index is the answer, when all has settled.
error_after_all :
    execute_dag run_number (λ i. 1) (numbered [] 0 ∷ numbered [] 3 ∷ numbered (0 ∷ []) 2 ∷ [])
    ≡ some (err (task 3))
unfolding execute_dag
error_after_all = refl

two_chains_valid : validate {E = ℕ} two_chains ≡ some (ok tt)
unfolding validate
two_chains_valid = refl

execute_dag-expected_example :
    (good : ℕ → Bool) × IsPlan run_number two_chains good
    × ((schedule : ℕ → ℕ)
        → execute_dag run_number schedule two_chains ≡ some (expected run_number good two_chains))
execute_dag-expected_example = execute_dag-expected run_number two_chains two_chains_valid
