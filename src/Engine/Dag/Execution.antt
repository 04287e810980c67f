-- ===== src/Engine/Dag/Execution.antt =====
-- `execute_dag` of crates/ash-engine/src/dag.rs: jobs run at the same time and complete in any order.
-- A job's result is a function of the job, and a schedule says which running job completes next.
use ash.Common.{
  ℕ, zero, suc, ◌+◌, ◌-◌, Bool, false, not, ◌||◌, Option, none, some, List, [], ◌∷◌, ◌++◌, ◌==◌,
  if◌then◌else◌, Result, ok, err, ◌>>=◌, length, ltb,
}
use ash.Engine.Dag.{
  DagNode, DagError, invalid_graph, task, with_entry, push_dependents, incoming_of, validate,
}

pub record DagCompletion (R : Type 0) : Type 0 where
  pub value : R
  pub succeeded : Bool

pub data DagOutcome (R : Type 0) : Type 0 where
  completed : R → DagOutcome R
  skipped : DagOutcome R

-- The local variables of `execute_dag`. A running future is the index of its node and its job.
pub record Execution (J R E : Type 0) : Type 0 where
  pub remaining : ℕ → ℕ
  pub jobs : ℕ → Option J
  pub outcomes : ℕ → Option (DagOutcome R)
  pub errors : ℕ → Option E
  pub failed_dependency : ℕ → Bool
  pub running : List (ℕ × J)
  pub settled : ℕ

-- How a loop stops early: with `InvalidGraph`, or short of fuel.
pub data Stop : Type 0 where
  invalid : Stop
  out_of_fuel : Stop

-- The second loop of `execute_dag`, over nodes that were checked.
unfoldable pub dependents_of : {J : Type 0} → ℕ → List (DagNode J) → (ℕ → List ℕ) → ℕ → List ℕ
unfolding push_dependents
dependents_of index [] dependents = dependents
dependents_of index (node ∷ rest) dependents =
    dependents_of (suc index) rest (push_dependents index node.dependencies dependents)

unfoldable pub job_at : {J : Type 0} → List (DagNode J) → ℕ → Option J
job_at [] i = none
job_at (node ∷ rest) zero = some node.job
job_at (node ∷ rest) (suc i) = job_at rest i

-- The running job that completes next, and the others.
unfoldable pub next : {J : Type 0} → ℕ → List (ℕ × J) → Option ((ℕ × J) × List (ℕ × J))
next i [] = none
next zero (x ∷ running) = some (x, running)
next (suc i) (x ∷ running) = elim (next i running) [
  | none ↦ some (x, running)
  | some (y, others) ↦ some (y, x ∷ others)
]

-- The error of the lowest index, if there is one.
unfoldable pub first_error : {E : Type 0} → ℕ → ℕ → (ℕ → Option E) → Option E
first_error index zero errors = none
first_error index (suc count) errors =
    let later = first_error (suc index) count errors in
    elim (errors index) [ none ↦ later | some error ↦ some error ]

unfoldable pub collect_outcomes :
    {R E : Type 0} → ℕ → ℕ → (ℕ → Option (DagOutcome R)) → Result (List (DagOutcome R)) (DagError E)
collect_outcomes index zero outcomes = ok []
collect_outcomes index (suc count) outcomes =
    let later = collect_outcomes (suc index) count outcomes in
    elim (outcomes index) [
      | none ↦ err invalid_graph
      | some outcome ↦ later >>= (λ rest. ok (outcome ∷ rest))
    ]

module _ {J R E : Type 0} where
  -- `jobs[index].take()`, and the start of the job.
  unfoldable pub start : ℕ → Execution J R E → Result (Execution J R E) Stop
  unfolding with_entry
  start index s = elim (s.jobs index) [
    | none ↦ err invalid
    | some job ↦
        ok (record s {
          jobs = with_entry s.jobs index none;
          running = s.running ++ (index, job) ∷ [];
        })
  ]

  -- The loop that starts the nodes that wait for nothing.
  unfoldable pub start_ready : ℕ → ℕ → Execution J R E → Result (Execution J R E) Stop
  unfolding start
  start_ready index zero s = ok s
  start_ready index (suc count) s =
      if s.remaining index == 0
      then start index s >>= (λ s'. start_ready (suc index) count s')
      else start_ready (suc index) count s

  -- A node whose last dependency has settled.
  unfoldable pub settle_last :
      Bool → ℕ → Execution J R E → List (ℕ × Bool) → Result (Execution J R E × List (ℕ × Bool)) Stop
  unfolding start with_entry
  settle_last failed d s terminal =
      if failed
      then ok (
        record s { outcomes = with_entry s.outcomes d (some skipped); settled = s.settled + 1 },
        terminal ++ (d, false) ∷ [],
      )
      else start d s >>= (λ s'. ok (s', terminal))

  -- One dependent of a settled node, with the queue of nodes that settled without running.
  unfoldable pub settle_dependent :
      ℕ → Bool → Execution J R E → List (ℕ × Bool) → Result (Execution J R E × List (ℕ × Bool)) Stop
  unfolding settle_last with_entry
  settle_dependent d succeeded s terminal =
      if s.remaining d == 0
      then err invalid
      else let failed = s.failed_dependency d || not succeeded in
        let s' : Execution J R E = record s {
          remaining = with_entry s.remaining d (s.remaining d - 1);
          failed_dependency = with_entry s.failed_dependency d failed;
        } in
        if not (s.remaining d - 1 == 0) then ok (s', terminal) else settle_last failed d s' terminal

  unfoldable pub settle_dependents :
      List ℕ
      → Bool
      → Execution J R E
      → List (ℕ × Bool)
      → Result (Execution J R E × List (ℕ × Bool)) Stop
  unfolding settle_dependent
  settle_dependents [] succeeded s terminal = ok (s, terminal)
  settle_dependents (d ∷ rest) succeeded s terminal =
      settle_dependent d succeeded s terminal
      >>= (λ (s', terminal'). settle_dependents rest succeeded s' terminal')

  -- The loop over the queue; each node settles once, so a round for each node is enough.
  unfoldable pub drain :
      ℕ → (ℕ → List ℕ) → List (ℕ × Bool) → Execution J R E → Result (Execution J R E) Stop
  unfolding settle_dependents
  drain fuel dependents [] s = ok s
  drain zero dependents (_ ∷ terminal) s = err out_of_fuel
  drain (suc fuel) dependents ((index, succeeded) ∷ terminal) s =
      settle_dependents (dependents index) succeeded s terminal
      >>= (λ (s', terminal'). drain fuel dependents terminal' s')

  -- What a job that completed leaves, and whether it succeeded.
  unfoldable pub record_result :
      ℕ → Result (DagCompletion R) E → Execution J R E → Execution J R E × Bool
  unfolding with_entry
  record_result index (ok completion) s = (
    record s {
      outcomes = with_entry s.outcomes index (some (completed completion.value));
      settled = s.settled + 1;
    },
    completion.succeeded,
  )
  record_result index (err error) s =
      (record s { errors = with_entry s.errors index (some error); settled = s.settled + 1 }, false)

  -- The loop of `execute_dag`; every round settles a node, so a round for each node is enough.
  unfoldable pub settle_all :
      (J → Result (DagCompletion R) E)
      → (ℕ → ℕ)
      → ℕ
      → ℕ
      → (ℕ → List ℕ)
      → Execution J R E
      → Result (Execution J R E) Stop
  unfolding drain record_result next
  settle_all run schedule zero count dependents s =
      if ltb s.settled count then err out_of_fuel else ok s
  settle_all run schedule (suc fuel) count dependents s =
      if not (ltb s.settled count) then ok s else elim (next (schedule fuel) s.running) [
        | none ↦ err invalid
        | some ((index, job), running) ↦
            let (s', succeeded) = record_result index (run job) (record s { running = running }) in
            drain count dependents ((index, succeeded) ∷ []) s'
            >>= (λ s''. settle_all run schedule fuel count dependents s'')
      ]

  unfoldable pub finish : ℕ → Execution J R E → Result (List (DagOutcome R)) (DagError E)
  unfolding first_error collect_outcomes
  finish count s = elim (first_error 0 count s.errors) [
    | some error ↦ err (task error)
    | none ↦ collect_outcomes 0 count s.outcomes
  ]

  unfoldable pub first_execution : List (DagNode J) → Execution J R E
  unfolding incoming_of job_at
  first_execution nodes = record {
    remaining = incoming_of nodes;
    jobs = job_at nodes;
    outcomes = λ i. none;
    errors = λ i. none;
    failed_dependency = λ i. false;
    running = [];
    settled = 0;
  }

  unfoldable pub execute :
      (J → Result (DagCompletion R) E) → (ℕ → ℕ) → List (DagNode J) → Result (Execution J R E) Stop
  unfolding dependents_of start_ready settle_all first_execution
  execute run schedule nodes =
      let count = length nodes in
      start_ready 0 count (first_execution nodes)
      >>= (λ s. settle_all run schedule count count (dependents_of 0 nodes (λ i. [])) s)

  abbrev pub answer :
      ℕ → Result (Execution J R E) Stop → Option (Result (List (DagOutcome R)) (DagError E))
  answer count (ok s) = some (finish count s)
  answer count (err invalid) = some (err invalid_graph)
  answer count (err out_of_fuel) = none

  -- `none` is a panic of the validation, or a lack of fuel.
  unfoldable pub execute_dag :
      (J → Result (DagCompletion R) E)
      → (ℕ → ℕ)
      → List (DagNode J)
      → Option (Result (List (DagOutcome R)) (DagError E))
  unfolding validate execute finish
  execute_dag run schedule nodes = elim (validate {E = E} nodes) [
    | none ↦ none
    | some (err e) ↦ some (err e)
    | some (ok _) ↦ answer (length nodes) (execute run schedule nodes)
  ]
