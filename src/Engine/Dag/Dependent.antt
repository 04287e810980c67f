-- ===== src/Engine/Dag/Dependent.antt =====
-- The three things that happen to a dependent of a node that settled: it waits on, it is skipped, or
-- it starts.
use ash.Common.{
  ℕ, ◌+◌, ◌-◌, ◌<◌, ◌≤◌, ◌≡◌, sym, ap, Bool, true, false, ◌||◌, none, some, List, [], ◌∷◌, ◌++◌,
  ◌==◌, Result, length, length-append, all, All-append, arith, Bool-cases, inl, inr,
}
use ash.Engine.Dag.{DagNode, with_entry, dependencies_at}
use ash.Engine.Dag.Members.{mem, is_distinct-append_one}
use ash.Engine.Dag.Execution.{DagCompletion, skipped, Execution, job_at}
use ash.Engine.Dag.Plan.{planned_outcome, planned_error}
use ash.Engine.Dag.Settling.{
  indexes, indexes-append_one, mem-append_one, is_below-append_one, IsRunnable, IsRight, IsSettling,
}

module _ {J R E : Type 0} (run : J → Result (DagCompletion R) E) (nodes : List (DagNode J))
    (good : ℕ → Bool) (released : List ℕ) (terminal : List (ℕ × Bool)) (s : Execution J R E)
    (i : IsSettling run nodes good released terminal s) (d : ℕ) (below : d < length nodes)
    (waits : 1 ≤ s.remaining d) where
  -- The state with one dependency less for the node.
  abbrev pub lowered : Bool → Execution J R E
  lowered failed = record s {
    remaining = with_entry s.remaining d (s.remaining d - 1);
    failed_dependency = with_entry s.failed_dependency d failed;
  }

  -- The node is in no list.
  not_taken : (mem d released || mem d (indexes terminal) || mem d (indexes s.running)) ≡ false
  not_taken = ground (arith, i.taken d below)

  not_taken_at :
      (j : ℕ)
      → (j == d) ≡ true
      → (mem j released || mem j (indexes terminal) || mem j (indexes s.running)) ≡ false
  not_taken_at j e = let same : j ≡ d = ground arith in rw same not_taken

  remaining_other :
      (j : ℕ) → (j == d) ≡ false → with_entry s.remaining d (s.remaining d - 1) j ≡ s.remaining j
  unfolding with_entry
  remaining_other j e = ground arith

  remaining_same :
      (j : ℕ) → (j == d) ≡ true → with_entry s.remaining d (s.remaining d - 1) j ≡ s.remaining d - 1
  unfolding with_entry
  remaining_same j e = ground arith

  same_node : (j : ℕ) → (j == d) ≡ true → j ≡ d
  same_node j e = ground arith

  jobs_lowered :
      (j : ℕ)
      → j < length nodes
      → 1 ≤ with_entry s.remaining d (s.remaining d - 1) j
      → s.jobs j ≡ job_at nodes j
  jobs_lowered j l w = elim (Bool-cases (j == d)) [
    | inl e ↦ let same = ap s.remaining (same_node j e) in i.jobs j l (omega arith)
    | inr e ↦ let other = remaining_other j e in i.jobs j l (omega arith)
  ]

  pub waits_on :
      (failed : Bool)
      → 2 ≤ s.remaining d
      → IsSettling run nodes good released terminal (lowered failed)
  waits_on failed more = record {
    taken = λ j l.
        let here = i.taken j l in
        elim (Bool-cases (j == d)) [
          | inl e ↦
              let same = ap s.remaining (same_node j e) in
              let now = remaining_same j e in ground arith
          | inr e ↦ let other = remaining_other j e in ground arith
        ];
    settled = i.settled;
    released_once = i.released_once;
    released_below = i.released_below;
    terminal_once = i.terminal_once;
    terminal_below = i.terminal_below;
    running_once = i.running_once;
    running_below = i.running_below;
    apart = i.apart;
    runs = i.runs;
    jobs = jobs_lowered;
    running_jobs = i.running_jobs;
    terminal_right = i.terminal_right;
    outcomes = i.outcomes;
    errors = i.errors;
  }

  mem-terminal :
      (j : ℕ) (b : Bool)
      → mem j (indexes (terminal ++ (d, b) ∷ [])) ≡ (mem j (indexes terminal) || j == d)
  mem-terminal j b = rw (indexes-append_one terminal d b) (mem-append_one j d (indexes terminal))

  mem-running :
      (j : ℕ) (job : J)
      → mem j (indexes (s.running ++ (d, job) ∷ [])) ≡ (mem j (indexes s.running) || j == d)
  mem-running j job =
      rw (indexes-append_one s.running d job) (mem-append_one j d (indexes s.running))

  -- The node's entry is the last one's `remaining` of one.
  taken_last :
      (j : ℕ)
      → j < length nodes
      → s.remaining d ≡ 1
      → ((mem j released || mem j (indexes terminal) || mem j (indexes s.running)) || j == d)
        ≡ (with_entry s.remaining d (s.remaining d - 1) j == 0)
  taken_last j l one =
      let here = i.taken j l in
      elim (Bool-cases (j == d)) [
        | inl e ↦ let now = remaining_same j e in ground arith
        | inr e ↦ let other = remaining_other j e in ground arith
      ]

  abbrev pub skipping : Bool → Execution J R E
  skipping failed = record (lowered failed) {
    outcomes = with_entry s.outcomes d (some skipped);
    settled = s.settled + 1;
  }

  pub skips :
      (failed : Bool)
      → s.remaining d ≡ 1
      → planned_outcome run good nodes d ≡ some skipped
      → planned_error run good nodes d ≡ none
      → good d ≡ false
      → IsSettling run nodes good released (terminal ++ (d, false) ∷ []) (skipping failed)
  unfolding with_entry
  skips failed one outcome error bad = record {
    taken = λ j l. let last = taken_last j l one in let now = mem-terminal j false in ground arith;
    settled = ground (arith, i.settled, length-append terminal ((d, false) ∷ []));
    released_once = i.released_once;
    released_below = i.released_below;
    terminal_once =
        rw (indexes-append_one terminal d false)
          (is_distinct-append_one d (indexes terminal) i.terminal_once (ground (arith, not_taken)));
    terminal_below =
        rw (indexes-append_one terminal d false)
          (is_below-append_one (length nodes) d (indexes terminal) i.terminal_below below);
    running_once = i.running_once;
    running_below = i.running_below;
    apart = λ j m. elim (Bool-cases (j == d)) [
      | inl e ↦ ground (arith, not_taken_at j e)
      | inr e ↦ i.apart j (ground (arith, mem-terminal j false))
    ];
    runs = λ j m. elim (Bool-cases (j == d)) [
      | inl e ↦ absurd (ground (arith, not_taken_at j e))
      | inr e ↦ ground (arith, i.runs j m, mem-terminal j false)
    ];
    jobs = jobs_lowered;
    running_jobs = i.running_jobs;
    terminal_right =
        All-append (IsRight run nodes good) terminal ((d, false) ∷ []) i.terminal_right
          (sym bad, tt);
    outcomes = λ j l.
        let now = mem-terminal j false in
        let here = i.outcomes j l in
        elim (Bool-cases (j == d)) [
          | inl e ↦
              let same = ap (planned_outcome run good nodes) (same_node j e) in
              ground (arith, not_taken_at j e)
          | inr e ↦ ground arith
        ];
    errors = λ j l.
        let now = mem-terminal j false in
        let here = i.errors j l in
        elim (Bool-cases (j == d)) [
          | inl e ↦
              let same = ap (planned_error run good nodes) (same_node j e) in
              ground (arith, not_taken_at j e)
          | inr e ↦ ground arith
        ];
  }

  abbrev pub starting : Bool → J → Execution J R E
  starting failed job = record (lowered failed) {
    jobs = with_entry s.jobs d none;
    running = s.running ++ (d, job) ∷ [];
  }

  pub starts :
      (failed : Bool) (job : J)
      → s.remaining d ≡ 1
      → job_at nodes d ≡ some job
      → all good (dependencies_at nodes d) ≡ true
      → IsSettling run nodes good released terminal (starting failed job)
  unfolding with_entry
  starts failed job one here runnable = record {
    taken = λ j l. let last = taken_last j l one in let now = mem-running j job in ground arith;
    settled = i.settled;
    released_once = i.released_once;
    released_below = i.released_below;
    terminal_once = i.terminal_once;
    terminal_below = i.terminal_below;
    running_once =
        rw (indexes-append_one s.running d job)
          (is_distinct-append_one d (indexes s.running) i.running_once (ground (arith, not_taken)));
    running_below =
        rw (indexes-append_one s.running d job)
          (is_below-append_one (length nodes) d (indexes s.running) i.running_below below);
    apart = i.apart;
    runs = λ j m. elim (Bool-cases (j == d)) [
      | inl e ↦ ground (arith, not_taken_at j e)
      | inr e ↦ i.runs j (ground (arith, mem-running j job))
    ];
    jobs = λ j l w. elim (Bool-cases (j == d)) [
      | inl e ↦ absurd (ground (arith, remaining_same j e))
      | inr e ↦ ground (arith, jobs_lowered j l w)
    ];
    running_jobs =
        All-append (IsRunnable run nodes good) s.running ((d, job) ∷ []) i.running_jobs
          ((here, runnable), tt);
    terminal_right = i.terminal_right;
    outcomes = i.outcomes;
    errors = i.errors;
  }
