-- ===== src/Engine/Dag/Completion.antt =====
-- A running job that completes, whichever it is, and the loop until all nodes have settled.
use ash.Common.{
  ℕ, zero, suc, ◌+◌, ◌<◌, ◌≤◌, ◌≡◌, refl, sym, ap, ◌∙◌, Bool, true, false, ◌||◌, Option, none, some,
  List, [], ◌∷◌, ◌==◌, ltb, if◌then◌else◌, Result, ok, err, length, all, All, arith, Bool-cases,
  inl, inr, ◌⊎◌,
}
use ash.Engine.Dag.{DagNode, with_entry, dependencies_at}
use ash.Engine.Dag.Members.{mem, is_distinct, is_below, count_in_covers, covers-length}
use ash.Engine.Dag.Visiting.{IsGraph}
use ash.Engine.Dag.Acyclic.{IsAcyclic}
use ash.Engine.Dag.Execution.{
  DagCompletion, DagOutcome, completed, Execution, next, record_result, settle_all,
}
use ash.Engine.Dag.Plan.{
  IsPlan, job_succeeds, job_outcome, job_error, planned_outcome, planned_error,
}
use ash.Engine.Dag.Settling.{indexes, IsRunnable, IsSettling}
use ash.Engine.Dag.Release.{Counted, drain_lem}

-- What `next` takes out of the running jobs.
record Picked {J : Type 0} (running : List (ℕ × J)) (p : ℕ × J) (others : List (ℕ × J))
    : Type 1 where
  members : (j : ℕ) → mem j (indexes running) ≡ (j == p.0 || mem j (indexes others))
  once :
      is_distinct (indexes running) ≡ true
      → (is_distinct (indexes others) ≡ true) × (mem p.0 (indexes others) ≡ false)
  below :
      (n : ℕ)
      → is_below n (indexes running) ≡ true
      → (p.0 < n) × (is_below n (indexes others) ≡ true)
  kept : (P : ℕ × J → Type 0) → All P running → P p × All P others

next_lem :
    {J : Type 0} (i : ℕ) (running : List (ℕ × J))
    → (next i running ≡ none × (running ≡ []))
      ⊎ ((p : ℕ × J) × (others : List (ℕ × J)) × (next i running ≡ some (p, others))
          × Picked running p others)
unfolding next indexes mem is_distinct is_below
next_lem i [] = inl (refl, refl)
next_lem zero ((k, job) ∷ running) = inr (
  (k, job),
  running,
  refl,
  record {
    members = λ j. refl;
    once = λ u. (ground arith, ground arith);
    below = λ n b. (ground arith, ground arith);
    kept = λ P h. h;
  },
)
next_lem (suc i) ((k, job) ∷ running) = elim (next_lem i running) [
  | inl (e, empty) ↦ inr (
    (k, job),
    running,
    rw (e, next) refl,
    record {
      members = λ j. refl;
      once = λ u. (ground arith, ground arith);
      below = λ n b. (ground arith, ground arith);
      kept = λ P h. h;
    },
  )
  | inr (p, others, e, picked) ↦ inr (
    p,
    (k, job) ∷ others,
    rw (e, next) refl,
    record {
      members = λ j. ground (arith, picked.members j);
      once = λ u.
          let (distinct, absent) = picked.once (ground arith) in
          let fresh = picked.members k in
          let self = picked.members p.0 in (ground arith, ground arith);
      below = λ n b. let (first, rest) = picked.below n (ground arith) in (first, ground arith);
      kept = λ P (h, hs). let (first, rest) = picked.kept P hs in (first, (h, rest));
    },
  )
]

module _ {J R E : Type 0} (run : J → Result (DagCompletion R) E) (nodes : List (DagNode J))
    (good : ℕ → Bool) (plan : IsPlan run nodes good) (dependents : ℕ → List ℕ)
    (graph : IsGraph (length nodes) (dependencies_at nodes) dependents) where
  -- A job that completes leaves its entry, and no other changes.
  settles_one :
      (released : List ℕ) (s : Execution J R E) (index : ℕ) (job : J) (others : List (ℕ × J))
      (succeeded : Bool) (outcomes : ℕ → Option (DagOutcome R)) (errors : ℕ → Option E)
      → Picked s.running (index, job) others
      → IsSettling run nodes good released [] s
      → succeeded ≡ good index
      → ((j : ℕ)
          → j < length nodes
          → outcomes j ≡ (if j == index then planned_outcome run good nodes j else s.outcomes j))
      → ((j : ℕ)
          → j < length nodes
          → errors j ≡ (if j == index then planned_error run good nodes j else s.errors j))
      → IsSettling run nodes good released ((index, succeeded) ∷ []) (record s {
        running = others;
        outcomes = outcomes;
        errors = errors;
        settled = s.settled + 1;
      })
  unfolding indexes mem is_distinct is_below
  settles_one released s index job others succeeded outcomes errors picked i right o e =
      let (once, absent) = picked.once i.running_once in
      let (below, others_below) = picked.below (length nodes) i.running_below in
      let apart : mem index released ≡ false = ground (arith, i.runs index, picked.members index) in
      record {
        taken = λ j l. let before = i.taken j l in let m = picked.members j in ground arith;
        settled = ground (arith, i.settled);
        released_once = i.released_once;
        released_below = i.released_below;
        terminal_once = refl;
        terminal_below = ground arith;
        running_once = once;
        running_below = others_below;
        apart = λ j m. let same : j ≡ index = ground arith in rw same apart;
        runs = λ j m.
            let was = picked.members j in
            let before = i.runs j (ground arith) in
            elim (Bool-cases (j == index)) [
              | inl q ↦
                  let same : j ≡ index = ground arith in
                  absurd (ground (arith, ap (λ k. mem k (indexes others)) same))
              | inr q ↦ ground arith
            ];
        jobs = i.jobs;
        running_jobs = (picked.kept (IsRunnable run nodes good) i.running_jobs).1;
        terminal_right = (right, tt);
        outcomes = λ j l. let before = i.outcomes j l in let now = o j l in ground arith;
        errors = λ j l. let before = i.errors j l in let now = e j l in ground arith;
      }

  -- What the plan has for a job that ran.
  planned_ok :
      (index : ℕ) (job : J) (c : DagCompletion R)
      → run job ≡ ok c
      → IsRunnable run nodes good (index, job)
      → (c.succeeded ≡ good index)
        × (planned_outcome run good nodes index ≡ some (completed c.value))
        × (planned_error run good nodes index ≡ none)
  unfolding planned_outcome planned_error
  planned_ok index job c e (here, runnable) = (
    sym (plan index ∙ rw (runnable, here) (rw (e, job_succeeds) refl)),
    rw (runnable, planned_outcome, here) (rw (e, job_outcome) refl),
    rw (runnable, planned_error, here) (rw (e, job_error) refl),
  )

  planned_err :
      (index : ℕ) (job : J) (error : E)
      → run job ≡ err error
      → IsRunnable run nodes good (index, job)
      → (false ≡ good index)
        × (planned_outcome run good nodes index ≡ none)
        × (planned_error run good nodes index ≡ some error)
  unfolding planned_outcome planned_error
  planned_err index job error e (here, runnable) = (
    sym (plan index ∙ rw (runnable, here) (rw (e, job_succeeds) refl)),
    rw (runnable, planned_outcome, here) (rw (e, job_outcome) refl),
    rw (runnable, planned_error, here) (rw (e, job_error) refl),
  )

  entry_of :
      {A : Type 0} (j index : ℕ) (planned before : ℕ → Option A) (a : A)
      → planned index ≡ some a
      → with_entry before index (some a) j ≡ (if j == index then planned j else before j)
  unfolding with_entry
  entry_of j index planned before a h = elim (Bool-cases (j == index)) [
    | inl e ↦ let same : j ≡ index = ground arith in rw e (sym (ap planned same ∙ h))
    | inr e ↦ rw e refl
  ]

  -- A job that runs has no entry yet.
  no_outcome :
      (released : List ℕ) (s : Execution J R E) (index : ℕ) (job : J) (others : List (ℕ × J))
      → Picked s.running (index, job) others
      → IsSettling run nodes good released [] s
      → (j : ℕ) → j < length nodes
      → planned_outcome run good nodes index ≡ none
      → s.outcomes j ≡ (if j == index then planned_outcome run good nodes j else s.outcomes j)
  unfolding indexes mem
  no_outcome released s index job others picked i j l h = elim (Bool-cases (j == index)) [
    | inl e ↦
        let same : j ≡ index = ground arith in
        let apart = i.runs j (ground (arith, picked.members j)) in
        let before = i.outcomes j l in
        let none_planned = ap (planned_outcome run good nodes) same ∙ h in ground arith
    | inr e ↦ rw e refl
  ]

  no_entry :
      (released : List ℕ) (s : Execution J R E) (index : ℕ) (job : J) (others : List (ℕ × J))
      → Picked s.running (index, job) others
      → IsSettling run nodes good released [] s
      → (j : ℕ) → j < length nodes
      → planned_error run good nodes index ≡ none
      → s.errors j ≡ (if j == index then planned_error run good nodes j else s.errors j)
  unfolding indexes mem
  no_entry released s index job others picked i j l h = elim (Bool-cases (j == index)) [
    | inl e ↦
        let same : j ≡ index = ground arith in
        let apart = i.runs j (ground (arith, picked.members j)) in
        let before = i.errors j l in
        let none_planned = ap (planned_error run good nodes) same ∙ h in ground arith
    | inr e ↦ rw e refl
  ]

  complete_lem :
      (released : List ℕ) (s : Execution J R E) (index : ℕ) (job : J) (others : List (ℕ × J))
      (r : Result (DagCompletion R) E)
      → run job ≡ r
      → Picked s.running (index, job) others
      → IsSettling run nodes good released [] s
      → let (s', succeeded) = record_result index r (record s { running = others }) in
        IsSettling run nodes good released ((index, succeeded) ∷ []) s'
        × (succeeded ≡ good index)
        × (s'.remaining ≡ s.remaining)
        × (s'.failed_dependency ≡ s.failed_dependency)
  unfolding record_result with_entry
  complete_lem released s index job others (ok c) e picked i =
      let (right, outcome, error) =
        planned_ok index job c e (picked.kept (IsRunnable run nodes good) i.running_jobs).0 in
      (
        settles_one released s index job others c.succeeded
            (with_entry s.outcomes index (some (completed c.value))) s.errors picked i right
            (λ j l.
              entry_of j index (planned_outcome run good nodes) s.outcomes (completed c.value)
                outcome)
            (λ j l. no_entry released s index job others picked i j l error),
        right,
        refl,
        refl,
      )
  complete_lem released s index job others (err x) e picked i =
      let (right, outcome, error) =
        planned_err index job x e (picked.kept (IsRunnable run nodes good) i.running_jobs).0 in
      (
        settles_one released s index job others false s.outcomes
            (with_entry s.errors index (some x)) picked i right
            (λ j l. no_outcome released s index job others picked i j l outcome)
            (λ j l. entry_of j index (planned_error run good nodes) s.errors x error),
        right,
        refl,
        refl,
      )

  -- While nodes are left, a job runs.
  all_settled :
      (a : IsAcyclic nodes) (released : List ℕ) (s : Execution J R E)
      → Counted run nodes good plan dependents graph (λ j. released) s
      → IsSettling run nodes good released [] s
      → s.running ≡ []
      → (bound i : ℕ) → i < length nodes
      → a.rank i < bound
      → mem i released ≡ true
  unfolding indexes mem
  all_settled a released s c v empty zero i l b = absurd (omega arith)
  all_settled a released s c v empty (suc bound) i l b =
      let seen = count_in_covers released (dependencies_at nodes i) (λ d m.
        let before = a.later i d l m in
        all_settled a released s c v empty bound d (graph.inside i d l m) (omega arith)) in
      let free : s.remaining i ≡ 0 = omega (arith, c.counts i l) in
      let taken = rw empty at (v.taken i l) in ground arith

  some_running :
      (a : IsAcyclic nodes) (released : List ℕ) (s : Execution J R E)
      → Counted run nodes good plan dependents graph (λ j. released) s
      → IsSettling run nodes good released [] s
      → s.settled < length nodes
      → ¬ (s.running ≡ [])
  some_running a released s c v h empty =
      let many =
        covers-length (length nodes) released
          (λ i l. all_settled a released s c v empty (suc (a.rank i)) i l (omega arith)) in
      let settled = v.settled in absurd (ground arith)

  -- Every schedule settles all nodes, and what they leave is what the plan has.
  pub settle_all_lem :
      (a : IsAcyclic nodes) (schedule : ℕ → ℕ) (fuel : ℕ) (released : List ℕ) (s : Execution J R E)
      → length nodes ≤ fuel + s.settled
      → Counted run nodes good plan dependents graph (λ j. released) s
      → IsSettling run nodes good released [] s
      → (s' : Execution J R E) × (released' : List ℕ) × (settle_all run schedule fuel
            (length nodes)
            dependents
            s
          ≡ ok s')
        × IsSettling run nodes good released' [] s'
        × (length nodes ≤ length released')
  unfolding settle_all
  settle_all_lem a schedule zero released s h c i =
      let done : ltb s.settled (length nodes) ≡ false = ground arith in
      (s, released, rw (done, settle_all) refl, i, omega (arith, i.settled))
  settle_all_lem a schedule (suc fuel) released s h c i =
      elim (Bool-cases (ltb s.settled (length nodes))) [
        | inr done ↦ (s, released, rw (done, settle_all) refl, i, ground (arith, i.settled))
        | inl more ↦ elim (next_lem (schedule fuel) s.running) [
          | inl (e, empty) ↦ absurd (some_running a released s c i (ground arith) empty)
          | inr ((index, job), others, e, picked) ↦
              let r = record_result index (run job) (record s { running = others }) in
              let (i1, right, remaining, failed) =
                complete_lem released s index job others (run job) refl picked i in
              let (s2, released2, e2, c2, i2, grown) =
                drain_lem run nodes good plan dependents graph (length nodes) released
                  ((index, r.1) ∷ []) r.0 (omega arith) (rw (remaining, failed) c) i1 in
              let (s', released', e', i', all) =
                settle_all_lem a schedule fuel released2 s2 (omega (arith, i2.settled, i.settled))
                  c2 i2 in
              (s', released', rw (more, e, settle_all, e2) e', i', all)
        ]
      ]
