-- ===== src/Engine/Dag/Oracle.antt =====
-- `execute_dag` gives what its plan has, whatever the order in which the jobs complete.
use ash.Common.{
  ℕ, zero, suc, ◌+◌, ◌<◌, ◌≤◌, ◌≡◌, refl, sym, ap, ◌∙◌, Bool, true, false, ◌&&◌, ◌||◌, none, some,
  List, [], ◌∷◌, ◌++◌, ◌==◌, ltb, Result, ok, length, all, All, All-append, arith, Bool-cases, inl,
  inr,
}
use ash.Engine.Dag.{
  DagNode, with_entry, dependencies_at, incoming_of, push_dependents, collect, is_valid_node,
  validate,
}
use mathlib.Core.Option.{some-injective}
use ash.Engine.Dag.Members.{
  mem, is_distinct, is_below, is_distinct-append_one, count_in_none, is_distinct-length,
  is_distinct-covers,
}
use ash.Engine.Dag.Visiting.{IsGraph}
use ash.Engine.Dag.Acyclic.{IsAcyclic, validate-Decided, validated-IsGraph, acyclic_all_valid}
use ash.Engine.Dag.Dependents.{all_valid, collect-some}
use ash.Engine.Dag.Execution.{
  DagCompletion, Execution, job_at, dependents_of, start, start_ready, first_execution, finish,
  execute, answer, execute_dag,
}
use ash.Engine.Dag.Plan.{IsPlan, acyclic-IsPlan, expected, finish-expected}
use ash.Engine.Dag.Settling.{
  indexes, indexes-append_one, mem-append_one, is_below-append_one, failing_none, Counting,
  IsRunnable, IsSettling,
}
use ash.Engine.Dag.Release.{job_at-some}
use ash.Engine.Dag.Completion.{settle_all_lem}

all_empty : (good : ℕ → Bool) (xs : List ℕ) → (length xs == 0) ≡ true → all good xs ≡ true
all_empty good [] h = refl
all_empty good (x ∷ xs) h = absurd (ground arith)

same_index : (j k : ℕ) → (j == k) ≡ true → j ≡ k
same_index j k e = ground arith

start_lem :
    {J R E : Type 0} (k : ℕ) (s : Execution J R E) (job : J)
    → s.jobs k ≡ some job
    → start k s
      ≡ ok (record s { jobs = with_entry s.jobs k none; running = s.running ++ (k, job) ∷ [] })
unfolding start
start_lem k s job e = rw (e, start) refl

module _ {J R E : Type 0} (run : J → Result (DagCompletion R) E) (nodes : List (DagNode J))
    (good : ℕ → Bool) where
  -- While the nodes below an index have been looked at.
  record Starting (k : ℕ) (s : Execution J R E) : Type 0 where
    remaining : s.remaining ≡ incoming_of nodes
    failed : s.failed_dependency ≡ (λ i. false)
    outcomes : s.outcomes ≡ (λ i. none)
    errors : s.errors ≡ (λ i. none)
    settled : s.settled ≡ 0
    members : (j : ℕ) → mem j (indexes s.running) ≡ (ltb j k && (incoming_of nodes j == 0))
    once : is_distinct (indexes s.running) ≡ true
    below : is_below (length nodes) (indexes s.running) ≡ true
    jobs : (j : ℕ) → mem j (indexes s.running) ≡ false → s.jobs j ≡ job_at nodes j
    running_jobs : All (IsRunnable run nodes good) s.running

  first_execution-Starting : Starting 0 (first_execution nodes)
  unfolding first_execution indexes mem is_distinct is_below
  first_execution-Starting = record {
    remaining = refl;
    failed = refl;
    outcomes = refl;
    errors = refl;
    settled = refl;
    members = λ j. ground arith;
    once = refl;
    below = refl;
    jobs = λ j m. refl;
    running_jobs = tt;
  }

  start_ready-Starting :
      (k count : ℕ) (s : Execution J R E)
      → k + count ≡ length nodes
      → Starting k s
      → (s' : Execution J R E) × (start_ready k count s ≡ ok s') × Starting (length nodes) s'
  unfolding start_ready start with_entry incoming_of
  start_ready-Starting k zero s h i = let e : k ≡ length nodes = omega arith in (s, refl, rw e at i)
  start_ready-Starting k (suc count) s h i = elim (Bool-cases (incoming_of nodes k == 0)) [
    | inr waits ↦
        let (s', e, i') = start_ready-Starting (suc k) count s (omega arith) (record {
          remaining = i.remaining;
          failed = i.failed;
          outcomes = i.outcomes;
          errors = i.errors;
          settled = i.settled;
          members = λ j.
              let before = i.members j in
              elim (Bool-cases (j == k)) [
                | inl e ↦ let same = ap (incoming_of nodes) (same_index j k e) in ground arith
                | inr e ↦ ground arith
              ];
          once = i.once;
          below = i.below;
          jobs = i.jobs;
          running_jobs = i.running_jobs;
        }) in
        let waits_now : (s.remaining k == 0) ≡ false = rw i.remaining waits in
        (s', rw (waits_now, start_ready) e, i')
    | inl ready ↦
        let (job, here) = job_at-some nodes k (omega arith) in
        let absent : mem k (indexes s.running) ≡ false = ground (arith, i.members k) in
        let entry = i.jobs k absent ∙ here in
        let s1 : Execution J R E = record s {
          jobs = with_entry s.jobs k none;
          running = s.running ++ (k, job) ∷ [];
        } in
        let (s', e, i') = start_ready-Starting (suc k) count s1 (omega arith) (record {
          remaining = i.remaining;
          failed = i.failed;
          outcomes = i.outcomes;
          errors = i.errors;
          settled = i.settled;
          members = λ j.
              let before = i.members j in
              let now : mem j (indexes s1.running) ≡ (mem j (indexes s.running) || j == k) =
                rw (indexes-append_one s.running k job) (mem-append_one j k (indexes s.running)) in
              elim (Bool-cases (j == k)) [
                | inl e ↦ let same = ap (incoming_of nodes) (same_index j k e) in ground arith
                | inr e ↦ ground arith
              ];
          once =
              rw (indexes-append_one s.running k job)
                (is_distinct-append_one k (indexes s.running) i.once absent);
          below =
              rw (indexes-append_one s.running k job)
                (is_below-append_one (length nodes) k (indexes s.running) i.below (omega arith));
          jobs = λ j m.
              let now : mem j (indexes s1.running) ≡ (mem j (indexes s.running) || j == k) =
                rw (indexes-append_one s.running k job) (mem-append_one j k (indexes s.running)) in
              elim (Bool-cases (j == k)) [
                | inl e ↦ absurd (ground arith)
                | inr e ↦ rw e (i.jobs j (ground arith))
              ];
          running_jobs =
              All-append (IsRunnable run nodes good) s.running ((k, job) ∷ []) i.running_jobs
                ((here, all_empty good (dependencies_at nodes k) ready), tt);
        }) in
        let ready_now : (s.remaining k == 0) ≡ true = rw i.remaining ready in
        (s', rw (ready_now, start_ready, start_lem k s job entry) e, i')
  ]

  started-Settling :
      (s : Execution J R E) → Starting (length nodes) s → IsSettling run nodes good [] [] s
  unfolding indexes mem is_distinct is_below
  started-Settling s i = record {
    taken = λ j l. let m = i.members j in rw i.remaining (ground arith);
    settled = ground (arith, i.settled);
    released_once = refl;
    released_below = refl;
    terminal_once = refl;
    terminal_below = refl;
    running_once = i.once;
    running_below = i.below;
    apart = λ j m. refl;
    runs = λ j m. refl;
    jobs = λ j l w.
        let w' : 1 ≤ incoming_of nodes j = rw i.remaining at w in
        i.jobs j (ground (arith, i.members j));
    running_jobs = i.running_jobs;
    terminal_right = tt;
    outcomes = λ j l. rw i.outcomes refl;
    errors = λ j l. rw i.errors refl;
  }

  started-Counting :
      (s : Execution J R E)
      → Starting (length nodes) s
      → Counting
          (length nodes)
          (dependencies_at nodes)
          good
          (λ j. [])
          s.remaining
          s.failed_dependency
  unfolding incoming_of
  started-Counting s i = record {
    counts = λ j l. rw i.remaining (ground (arith, count_in_none (dependencies_at nodes j)));
    failures = λ j l. rw i.failed (sym (failing_none good (dependencies_at nodes j)));
  }

  finished-expected :
      (s : Execution J R E) (released : List ℕ)
      → IsSettling run nodes good released [] s
      → length nodes ≤ length released
      → finish (length nodes) s ≡ expected run good nodes
  unfolding finish indexes mem
  finished-expected s released i many =
      let few = is_distinct-length (length nodes) released i.released_once i.released_below in
      let every : (j : ℕ) → j < length nodes → mem j released ≡ true =
        is_distinct-covers (length nodes) released i.released_once i.released_below (omega arith) in
      finish-expected run good 0 nodes s.outcomes s.errors
        (λ j l.
          let e : 0 + j ≡ j = omega arith in
          let done = every j l in rw e (ground (arith, i.outcomes j l)))
        (λ j l.
          let e : 0 + j ≡ j = omega arith in
          let done = every j l in rw e (ground (arith, i.errors j l)))

-- The dependents that `execute_dag` computes are those that `validate` did.
collect-dependents_of :
    {J : Type 0} (count k : ℕ) (nodes : List (DagNode J)) (f : ℕ → List ℕ)
    → all_valid count k nodes ≡ true
    → collect count k nodes f ≡ some (dependents_of k nodes f)
unfolding collect dependents_of all_valid
collect-dependents_of count k [] f h = refl
collect-dependents_of count k (node ∷ rest) f h =
    let valid : is_valid_node count k node.dependencies ≡ true = ground arith in
    rw (valid, collect)
      (collect-dependents_of count (suc k) rest (push_dependents k node.dependencies f)
        (ground arith))

dependents_of-IsGraph :
    {J : Type 0} (nodes : List (DagNode J))
    → all_valid (length nodes) 0 nodes ≡ true
    → IsGraph (length nodes) (dependencies_at nodes) (dependents_of 0 nodes (λ i. []))
dependents_of-IsGraph nodes h =
    let (dependents, e, each) = collect-some (length nodes) 0 nodes (λ i. []) h in
    let same : dependents ≡ dependents_of 0 nodes (λ i. []) =
      some-injective _ _ (sym e ∙ collect-dependents_of (length nodes) 0 nodes (λ i. []) h) in
    rw same at (validated-IsGraph nodes dependents h each)

module _ {J R E : Type 0} (run : J → Result (DagCompletion R) E) (nodes : List (DagNode J)) where
  execute-expected :
      (a : IsAcyclic nodes) (good : ℕ → Bool) (plan : IsPlan run nodes good) (schedule : ℕ → ℕ)
      → answer (length nodes) (execute run schedule nodes) ≡ some (expected run good nodes)
  unfolding execute
  execute-expected a good plan schedule =
      let graph = dependents_of-IsGraph nodes (acyclic_all_valid nodes a) in
      let (s, e, starting) =
        start_ready-Starting run nodes good 0 (length nodes) (first_execution nodes) (omega arith)
          (first_execution-Starting run nodes good) in
      let (s', released, e', settling, many) =
        settle_all_lem run nodes good plan (dependents_of 0 nodes (λ i. [])) graph a schedule
          (length nodes) [] s (omega arith) (started-Counting run nodes good s starting)
          (started-Settling run nodes good s starting) in
      rw (e, execute, e') (ap some (finished-expected run nodes good s' released settling many))

  -- A graph that `validate` accepts has a plan, which says of each node whether it succeeds: exactly if
  -- all its dependencies succeed and its job does. For every order in which the jobs complete, the
  -- execution ends with what the plan has: the outcomes in the order of the nodes, where a node is
  -- skipped exactly if one of its dependencies does not succeed, or the error of the lowest index.
  pub execute_dag-expected :
      validate {E = E} nodes ≡ some (ok tt)
      → (good : ℕ → Bool) × IsPlan run nodes good
        × ((schedule : ℕ → ℕ) → execute_dag run schedule nodes ≡ some (expected run good nodes))
  unfolding execute_dag
  execute_dag-expected h = elim (validate-Decided {E = E} nodes) [
    | inl (_, a) ↦
        let (good, plan) = acyclic-IsPlan run nodes a in
        (good, plan, λ schedule. rw (h, execute_dag) (execute-expected a good plan schedule))
    | inr (e, _) ↦ cc
  ]
