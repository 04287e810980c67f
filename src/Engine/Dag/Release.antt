-- ===== src/Engine/Dag/Release.antt =====
-- The dependents of a node that settled, and the queue of nodes that settle without running.
use ash.Common.{
  ℕ, zero, suc, ◌+◌, ◌-◌, ◌<◌, ◌≤◌, ◌≡◌, refl, sym, ap, ◌∙◌, Bool, true, false, not, ◌||◌, none,
  some, List, [], ◌∷◌, ◌++◌, ◌==◌, if◌then◌else◌, Result, ok, min, length, all, arith, Bool-cases,
  inl, inr,
}
use ash.Engine.Dag.{DagNode, with_entry, dependencies_at}
use ash.Engine.Dag.Members.{
  mem, is_distinct, is_below, count_in, count_in_all, count_in-cons, is_distinct-length,
}
use ash.Engine.Dag.Visiting.{IsGraph, other_member}
use ash.Engine.Dag.Execution.{
  DagCompletion, skipped, Execution, job_at, start, settle_last, settle_dependent,
  settle_dependents, drain,
}
use ash.Engine.Dag.Plan.{IsPlan, planned_outcome, planned_error}
use ash.Engine.Dag.Settling.{indexes, failing-cons, failing-all, Counting, IsSettling}
use ash.Engine.Dag.Dependent.{lowered, skipping, starting, waits_on, skips, starts}

pub job_at-some :
    {J : Type 0} (nodes : List (DagNode J)) (i : ℕ)
    → i < length nodes
    → (job : J) × (job_at nodes i ≡ some job)
unfolding job_at
job_at-some [] i l = absurd (omega arith)
job_at-some (node ∷ rest) zero l = (node.job, refl)
job_at-some (node ∷ rest) (suc i) l = job_at-some rest i (omega arith)

module _ {J R E : Type 0} where
  settle_last_skips :
      (failed : Bool) (d : ℕ) (s : Execution J R E) (terminal : List (ℕ × Bool))
      → failed ≡ true
      → settle_last failed d s terminal
        ≡ ok (
          record s { outcomes = with_entry s.outcomes d (some skipped); settled = s.settled + 1 },
          terminal ++ (d, false) ∷ [],
        )
  unfolding settle_last
  settle_last_skips failed d s terminal f = rw f refl

  settle_last_starts :
      (failed : Bool) (d : ℕ) (s : Execution J R E) (terminal : List (ℕ × Bool)) (job : J)
      → failed ≡ false
      → s.jobs d ≡ some job
      → settle_last failed d s terminal
        ≡ ok (
          record s { jobs = with_entry s.jobs d none; running = s.running ++ (d, job) ∷ [] },
          terminal,
        )
  unfolding settle_last start
  settle_last_starts failed d s terminal job f e = rw (f, e, start) refl

module _ {J R E : Type 0} (run : J → Result (DagCompletion R) E) (nodes : List (DagNode J))
    (good : ℕ → Bool) (plan : IsPlan run nodes good) (dependents : ℕ → List ℕ)
    (graph : IsGraph (length nodes) (dependencies_at nodes) dependents) where
  abbrev pub Counted : (ℕ → List ℕ) → Execution J R E → Type 0
  Counted seen s =
      Counting (length nodes) (dependencies_at nodes) good seen s.remaining s.failed_dependency

  module _ (seen : ℕ → List ℕ) (s : Execution J R E) (c : Counted seen s) (x d : ℕ)
      (below : d < length nodes) (depends : mem x (dependencies_at nodes d) ≡ true)
      (fresh : mem x (seen d) ≡ false) where
    still_waits : 1 ≤ s.remaining d
    still_waits = elim (Bool-cases (s.remaining d == 0)) [
      | inl z ↦
          let none_left : s.remaining d ≡ 0 = ground arith in
          let all_seen =
            count_in_all (seen d) (dependencies_at nodes d) (omega (arith, c.counts d below)) x
              depends in
          absurd (ground arith)
      | inr z ↦ ground arith
    ]

    abbrev failed_now : Bool
    failed_now = s.failed_dependency d || not (good x)

    lowered-Counted :
        Counting
          (length nodes)
          (dependencies_at nodes)
          good
          (with_entry seen d (x ∷ seen d))
          (with_entry s.remaining d (s.remaining d - 1))
          (with_entry s.failed_dependency d failed_now)
    unfolding with_entry
    lowered-Counted = record {
      counts = λ i l. elim (Bool-cases (i == d)) [
        | inl e ↦
            let same : i ≡ d = ground arith in
            let more =
              count_in-cons x (seen d) (dependencies_at nodes d) (graph.distinct d below) fresh in
            let before = c.counts d below in let w = still_waits in rw (e, same) (ground arith)
        | inr e ↦ rw e (c.counts i l)
      ];
      failures = λ i l. elim (Bool-cases (i == d)) [
        | inl e ↦
            let same : i ≡ d = ground arith in
            let more = failing-cons good x (seen d) (dependencies_at nodes d) in
            let before = c.failures d below in rw (e, same) (ground arith)
        | inr e ↦ rw e (c.failures i l)
      ];
    }

    runnable_now : s.remaining d ≡ 1 → all good (dependencies_at nodes d) ≡ not failed_now
    runnable_now one =
        let more =
          count_in-cons x (seen d) (dependencies_at nodes d) (graph.distinct d below) fresh in
        let before = c.counts d below in
        let failures = failing-cons good x (seen d) (dependencies_at nodes d) in
        let known = c.failures d below in
        let full : count_in (x ∷ seen d) (dependencies_at nodes d)
            ≡ length (dependencies_at nodes d) =
          ground arith in
        let all_failures =
          failing-all good (x ∷ seen d) (dependencies_at nodes d)
            (count_in_all (x ∷ seen d) (dependencies_at nodes d) full) in
        ground arith

    -- After one dependent, it has seen the node settle.
    dependent_lem :
        (released : List ℕ) (terminal : List (ℕ × Bool))
        → IsSettling run nodes good released terminal s
        → (s' : Execution J R E) × (terminal' : List (ℕ × Bool)) × (settle_dependent d
              (good x)
              s
              terminal
            ≡ ok (s', terminal'))
          × IsSettling run nodes good released terminal' s'
          × Counted (with_entry seen d (x ∷ seen d)) s'
    unfolding settle_dependent planned_outcome planned_error
    dependent_lem released terminal i =
        let w = still_waits in
        let waits : (s.remaining d == 0) ≡ false = ground arith in
        elim (Bool-cases (s.remaining d - 1 == 0)) [
          | inr more ↦ (
            lowered run nodes good released terminal s i d below w failed_now,
            terminal,
            rw (waits, more, settle_dependent) refl,
            waits_on run nodes good released terminal s i d below w failed_now (ground arith),
            lowered-Counted,
          )
          | inl last ↦
              let one : s.remaining d ≡ 1 = ground arith in
              let runnable = runnable_now one in
              elim (Bool-cases failed_now) [
                | inl f ↦
                    let blocked : all good (dependencies_at nodes d) ≡ false = rw f at runnable in
                    (
                      skipping run nodes good released terminal s i d below w failed_now,
                      terminal ++ (d, false) ∷ [],
                      rw (waits, last, settle_dependent)
                          (settle_last_skips failed_now d _ terminal f),
                      skips run nodes good released terminal s i d below w failed_now one
                          (rw (blocked, planned_outcome) refl) (rw (blocked, planned_error) refl)
                          (plan d ∙ rw blocked refl),
                      lowered-Counted,
                    )
                | inr f ↦
                    let free : all good (dependencies_at nodes d) ≡ true = rw f at runnable in
                    let (job, here) = job_at-some nodes d below in
                    let ready = i.jobs d below w ∙ here in
                    (
                      starting run nodes good released terminal s i d below w failed_now job,
                      terminal,
                      rw (waits, last, settle_dependent)
                          (settle_last_starts failed_now d _ terminal job f ready),
                      starts run nodes good released terminal s i d below w failed_now job one here
                          free,
                      lowered-Counted,
                    )
              ]
        ]

  -- All dependents of a node.
  dependents_lem :
      (xs : List ℕ) (seen : ℕ → List ℕ) (x : ℕ) (released : List ℕ) (terminal : List (ℕ × Bool))
      (s : Execution J R E)
      → is_distinct xs ≡ true
      → ((d : ℕ)
          → mem d xs ≡ true
          → (d < length nodes)
            × (mem x (dependencies_at nodes d) ≡ true)
            × (mem x (seen d) ≡ false))
      → Counted seen s
      → IsSettling run nodes good released terminal s
      → (s' : Execution J R E) × (terminal' : List (ℕ × Bool)) × (seen' : ℕ → List ℕ)
        × (settle_dependents xs (good x) s terminal ≡ ok (s', terminal'))
        × IsSettling run nodes good released terminal' s'
        × Counted seen' s'
        × ((j : ℕ) → seen' j ≡ (if mem j xs then x ∷ seen j else seen j))
  unfolding settle_dependents mem is_distinct with_entry
  dependents_lem [] seen x released terminal s u h c i = (s, terminal, seen, refl, i, c, λ j. refl)
  dependents_lem (d ∷ xs) seen x released terminal s u h c i =
      let (below, depends, fresh) = h d (ground arith) in
      let (s1, terminal1, e1, i1, c1) =
        dependent_lem seen s c x d below depends fresh released terminal i in
      let absent : mem d xs ≡ false = ground arith in
      let (s', terminal', seen', e', i', c', all) =
        dependents_lem xs (with_entry seen d (x ∷ seen d)) x released terminal1 s1 (ground arith)
          (λ j m.
            let other = other_member j d xs absent m in
            let (b, dep, unseen) = h j (ground arith) in (b, dep, rw other unseen))
          c1 i1 in
      (
        s',
        terminal',
        seen',
        rw (e1, settle_dependents) e',
        i',
        c',
        λ j. elim (Bool-cases (j == d)) [
          | inl e ↦
              let same : j ≡ d = ground arith in
              let gone : mem j xs ≡ false = rw same absent in
              all j ∙ rw (gone, e) (ap (λ k. x ∷ seen k) (sym same))
          | inr e ↦ all j ∙ rw e refl
        ],
      )

  pop_lem :
      (x : ℕ) (b : Bool) (released : List ℕ) (terminal : List (ℕ × Bool)) (s : Execution J R E)
      → IsSettling run nodes good released ((x, b) ∷ terminal) s
      → IsSettling run nodes good (x ∷ released) terminal s
  unfolding indexes mem is_distinct is_below
  pop_lem x b released terminal s i =
      let fresh : mem x released ≡ false = i.apart x (ground arith) in
      let once = i.terminal_once in
      let below = i.terminal_below in
      let old = i.released_below in
      record {
        taken = λ j l. let here = i.taken j l in ground arith;
        settled = ground (arith, i.settled);
        released_once = ground (arith, i.released_once);
        released_below = ground arith;
        terminal_once = ground arith;
        terminal_below = ground arith;
        running_once = i.running_once;
        running_below = i.running_below;
        apart = λ j m.
            let other = other_member j x (indexes terminal) (ground arith) m in
            let before = i.apart j (ground arith) in ground arith;
        runs = λ j m. let before = i.runs j m in ground arith;
        jobs = i.jobs;
        running_jobs = i.running_jobs;
        terminal_right = i.terminal_right.1;
        outcomes = λ j l. let here = i.outcomes j l in ground arith;
        errors = λ j l. let here = i.errors j l in ground arith;
      }

  recount :
      (x : ℕ) (released : List ℕ) (seen : ℕ → List ℕ) (s : Execution J R E)
      → mem x released ≡ false
      → ((j : ℕ) → seen j ≡ (if mem j (dependents x) then x ∷ released else released))
      → Counted seen s
      → Counted (λ j. x ∷ released) s
  recount x released seen s fresh all c = record {
    counts = λ i l.
        let more = count_in-cons x released (dependencies_at nodes i) (graph.distinct i l) fresh in
        let known = graph.known x i in
        let before = rw (all i) at (c.counts i l) in
        elim (Bool-cases (mem i (dependents x))) [
          | inl m ↦ rw m at before
          | inr m ↦ let now = rw m at before in ground arith
        ];
    failures = λ i l.
        let more = failing-cons good x released (dependencies_at nodes i) in
        let known = graph.known x i in
        let before = rw (all i) at (c.failures i l) in
        elim (Bool-cases (mem i (dependents x))) [
          | inl m ↦ rw m at before
          | inr m ↦ let now = rw m at before in ground arith
        ];
  }

  -- The queue empties: with a round for each node that is not released, no round is short, and no
  -- check of the loop fails.
  pub drain_lem :
      (fuel : ℕ) (released : List ℕ) (terminal : List (ℕ × Bool)) (s : Execution J R E)
      → length nodes ≤ fuel + length released
      → Counted (λ j. released) s
      → IsSettling run nodes good released terminal s
      → (s' : Execution J R E) × (released' : List ℕ) × (drain fuel dependents terminal s ≡ ok s')
        × Counted (λ j. released') s'
        × IsSettling run nodes good released' [] s'
        × (length released + min 1 (length terminal) ≤ length released')
  unfolding drain is_distinct
  drain_lem fuel released [] s h c i = (s, released, refl, c, i, omega arith)
  drain_lem zero released ((x, b) ∷ terminal) s h c i =
      let popped = pop_lem x b released terminal s i in
      let few =
        is_distinct-length (length nodes) (x ∷ released) popped.released_once
          popped.released_below in
      absurd (omega arith)
  drain_lem (suc fuel) released ((x, b) ∷ terminal) s h c i =
      let popped = pop_lem x b released terminal s i in
      let right : b ≡ good x = i.terminal_right.0 in
      let fresh : mem x released ≡ false = ground (arith, popped.released_once) in
      let (s1, terminal1, seen1, e1, i1, c1, all) =
        dependents_lem (dependents x) (λ j. released) x (x ∷ released) terminal s (graph.once x)
          (λ d m.
            let dep : mem x (dependencies_at nodes d) ≡ true = sym (graph.known x d) ∙ m in
            (graph.ends d x dep, dep, fresh))
          c popped in
      let (s', released', e', c', i', more) =
        drain_lem fuel (x ∷ released) terminal1 s1 (omega arith)
          (recount x released seen1 s1 fresh all c1) i1 in
      (s', released', rw (right, e1, drain) e', c', i', omega arith)
