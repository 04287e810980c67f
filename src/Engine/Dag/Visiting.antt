-- ===== src/Engine/Dag/Visiting.antt =====
-- The visits of `validate`: what holds of the counts, the queue and the visited nodes in every round.
use ash.Common.{
  ℕ, zero, suc, ◌+◌, ◌-◌, ◌<◌, ◌≤◌, ◌≡◌, refl, sym, ap, ◌∙◌, true, false, ◌&&◌, ◌||◌, some, List,
  [], ◌∷◌, ◌++◌, ◌==◌, if◌then◌else◌, length, arith, Bool-cases, inl, inr,
}
use ash.Engine.Dag.{with_entry, release, visit}
use ash.Engine.Dag.Members.{
  mem, is_distinct, is_below, count_in, mem-append, is_distinct-append_one, count_in_all,
  count_in_covers, count_in-cons, is_distinct-length,
}

-- The dependencies and the dependents of the nodes below a bound.
pub record IsGraph (n : ℕ) (dependencies dependents : ℕ → List ℕ) : Type 0 where
  pub distinct : (i : ℕ) → i < n → is_distinct (dependencies i) ≡ true
  pub inside : (i d : ℕ) → i < n → mem d (dependencies i) ≡ true → d < n
  pub known : (d j : ℕ) → mem j (dependents d) ≡ mem d (dependencies j)
  pub once : (d : ℕ) → is_distinct (dependents d) ≡ true
  pub ends : (j d : ℕ) → mem d (dependencies j) ≡ true → j < n

-- What a release leaves.
record Released (xs : List ℕ) (incoming : ℕ → ℕ) (ready : List ℕ) (incoming' : ℕ → ℕ)
    (ready' : List ℕ) : Type 0 where
  counts : (j : ℕ) → incoming' j ≡ (if mem j xs then incoming j - 1 else incoming j)
  members : (j : ℕ) → mem j ready' ≡ (mem j ready || (mem j xs && (incoming j - 1 == 0)))
  distinct :
      is_distinct ready ≡ true
      → ((j : ℕ) → mem j xs ≡ true → mem j ready ≡ false)
      → is_distinct ready' ≡ true

-- The queue with a node that waits for nothing more.
abbrev queued : ℕ → ℕ → List ℕ → List ℕ
queued x left ready = if left == 0 then ready ++ x ∷ [] else ready

mem-queued :
    (j x left : ℕ) (ready : List ℕ)
    → mem j (queued x left ready) ≡ (mem j ready || ((j == x) && (left == 0)))
unfolding mem
mem-queued j x left ready = ground (arith, mem-append j ready (x ∷ []))

queued-is_distinct :
    (x left : ℕ) (ready : List ℕ)
    → is_distinct ready ≡ true
    → mem x ready ≡ false
    → is_distinct (queued x left ready) ≡ true
queued-is_distinct x left ready d m = ground (arith, is_distinct-append_one x ready d m)

pub other_member : (j x : ℕ) (xs : List ℕ) → mem x xs ≡ false → mem j xs ≡ true → (j == x) ≡ false
other_member j x xs h m = elim (Bool-cases (j == x)) [
  | inl e ↦ let same : j ≡ x = ground arith in absurd (ground (arith, ap (λ k. mem k xs) same))
  | inr e ↦ e
]

release_lem :
    (xs : List ℕ) (incoming : ℕ → ℕ) (ready : List ℕ)
    → is_distinct xs ≡ true
    → ((d : ℕ) → mem d xs ≡ true → 1 ≤ incoming d)
    → (incoming' : ℕ → ℕ) × (ready' : List ℕ) × (release xs incoming ready
        ≡ some (incoming', ready'))
      × Released xs incoming ready incoming' ready'
unfolding release with_entry mem is_distinct
release_lem [] incoming ready h w = (
  incoming,
  ready,
  refl,
  record { counts = λ j. refl; members = λ j. ground arith; distinct = λ d m. d },
)
release_lem (x ∷ xs) incoming ready h w =
    let fresh : mem x xs ≡ false = ground arith in
    let waits : 1 ≤ incoming x = w x (ground arith) in
    let nonzero : (incoming x == 0) ≡ false = ground arith in
    let incoming1 = with_entry incoming x (incoming x - 1) in
    let ready1 = queued x (incoming x - 1) ready in
    let (incoming', ready', e, r) = release_lem xs incoming1 ready1 (ground arith) (λ d m.
      let other = other_member d x xs fresh m in
      let before : 1 ≤ incoming d = w d (ground arith) in ground arith) in
    (
      incoming',
      ready',
      rw (nonzero, release) e,
      record {
        counts = λ j. ground (arith, r.counts j);
        members =
            λ j. let added = mem-queued j x (incoming x - 1) ready in ground (arith, r.members j);
        distinct = λ d m.
            r.distinct (queued-is_distinct x (incoming x - 1) ready d (m x (ground arith))) (λ j i.
              let other = other_member j x xs fresh i in
              let absent : mem j ready ≡ false = m j (ground arith) in
              let added = mem-queued j x (incoming x - 1) ready in ground arith);
      },
    )

module _ (n : ℕ) (dependencies dependents : ℕ → List ℕ)
    (graph : IsGraph n dependencies dependents) where
  -- Each visited node comes after those it depends on.
  abbrev pub Ordered : List ℕ → Type 0
  Ordered [] = Unit {0}
  Ordered (x ∷ visited) =
      ((d : ℕ) → mem d (dependencies x) ≡ true → mem d visited ≡ true) × Ordered visited

  pub record IsState (incoming : ℕ → ℕ) (ready visited : List ℕ) : Type 0 where
    pub counts :
        (i : ℕ) → i < n → incoming i + count_in visited (dependencies i) ≡ length (dependencies i)
    pub ready_once : is_distinct ready ≡ true
    pub visited_once : is_distinct visited ≡ true
    pub visited_below : is_below n visited ≡ true
    pub waiting :
        (j : ℕ) → mem j ready ≡ true → (j < n) × (incoming j ≡ 0) × (mem j visited ≡ false)
    pub listed : (j : ℕ) → j < n → incoming j ≡ 0 → mem j visited ≡ false → mem j ready ≡ true
    pub ordered : Ordered visited

  pub Ordered-mem :
      (visited : List ℕ) (j d : ℕ)
      → Ordered visited
      → mem j visited ≡ true
      → mem d (dependencies j) ≡ true
      → mem d visited ≡ true
  unfolding mem
  Ordered-mem [] j d o m h = cc
  Ordered-mem (x ∷ visited) j d (now, o) m h = elim (Bool-cases (j == x)) [
    | inl e ↦ let same : j ≡ x = ground arith in let seen = now d (rw same at h) in ground arith
    | inr e ↦ let seen = Ordered-mem visited j d o (ground arith) h in ground arith
  ]

  -- A node that depends on one that was not visited waits.
  waits_for :
      (incoming : ℕ → ℕ) (visited : List ℕ) (x j : ℕ)
      → incoming j + count_in visited (dependencies j) ≡ length (dependencies j)
      → mem x visited ≡ false
      → mem x (dependencies j) ≡ true
      → 1 ≤ incoming j
  waits_for incoming visited x j e fresh m = elim (Bool-cases (incoming j == 0)) [
    | inl z ↦
        let all =
          count_in_all visited (dependencies j) (omega (arith, eq_zero (incoming j) z)) x m in
        absurd (ground arith)
    | inr z ↦ ground arith
  ]
    where
      eq_zero : (k : ℕ) → (k == 0) ≡ true → k ≡ 0
      eq_zero k z = ground arith

  -- A visited node waits for nothing.
  visited_waits_not :
      (incoming : ℕ → ℕ) (ready visited : List ℕ) (j : ℕ)
      → IsState incoming ready visited
      → j < n
      → mem j visited ≡ true
      → incoming j ≡ 0
  visited_waits_not incoming ready visited j s l m =
      let all =
        count_in_covers visited (dependencies j) (λ d h. Ordered-mem visited j d s.ordered m h) in
      omega (arith, s.counts j l)

  -- A node that depends on a node in the queue waits.
  waits_for_queued :
      (incoming : ℕ → ℕ) (x : ℕ) (ready visited : List ℕ)
      → IsState incoming ready visited
      → mem x visited ≡ false
      → (j : ℕ) → mem j (dependents x) ≡ true
      → 1 ≤ incoming j
  waits_for_queued incoming x ready visited s fresh j m =
      let dep : mem x (dependencies j) ≡ true = sym (graph.known x j) ∙ m in
      waits_for incoming visited x j (s.counts j (graph.ends j x dep)) fresh dep

  waiting_after :
      (incoming incoming' : ℕ → ℕ) (x : ℕ) (ready ready' visited : List ℕ)
      → IsState incoming (x ∷ ready) visited
      → mem x visited ≡ false
      → Released (dependents x) incoming ready incoming' ready'
      → (j : ℕ) → mem j ready' ≡ true
      → (j < n) × (incoming' j ≡ 0) × (mem j (x ∷ visited) ≡ false)
  unfolding mem is_distinct
  waiting_after incoming incoming' x ready ready' visited s x_fresh r j m =
      let now = r.counts j in
      let queue = r.members j in
      let (x_below, x_free, _) = s.waiting x (ground arith) in
      elim (Bool-cases (mem j ready)) [
        | inl q ↦
            let (below, free, fresh) = s.waiting j (ground arith) in
            let other = other_member j x ready (ground (arith, s.ready_once)) q in
            elim (Bool-cases (mem j (dependents x))) [
              | inl d ↦
                  let w = waits_for_queued incoming x (x ∷ ready) visited s x_fresh j d in
                  absurd (omega arith)
              | inr d ↦ (below, ground arith, ground arith)
            ]
        | inr q ↦
            let d : mem j (dependents x) ≡ true = ground arith in
            let w = waits_for_queued incoming x (x ∷ ready) visited s x_fresh j d in
            let below = graph.ends j x (sym (graph.known x j) ∙ d) in
            let free : incoming' j ≡ 0 = ground arith in
            elim (Bool-cases (mem j (x ∷ visited))) [
              | inl v ↦ elim (Bool-cases (j == x)) [
                | inl e ↦
                    let same : j ≡ x = ground arith in absurd (omega (arith, ap incoming same))
                | inr e ↦
                    let done =
                      visited_waits_not incoming (x ∷ ready) visited j s below (ground arith) in
                    absurd (omega arith)
              ]
              | inr v ↦ (below, free, v)
            ]
      ]

  visit_step :
      (incoming : ℕ → ℕ) (x : ℕ) (ready visited : List ℕ)
      → IsState incoming (x ∷ ready) visited
      → (incoming' : ℕ → ℕ) × (ready' : List ℕ) × (release (dependents x) incoming ready
          ≡ some (incoming', ready'))
        × IsState incoming' ready' (x ∷ visited)
  unfolding mem is_distinct is_below
  visit_step incoming x ready visited s =
      let (x_below, x_free, x_fresh) = s.waiting x (ground arith) in
      let waits = waits_for_queued incoming x (x ∷ ready) visited s x_fresh in
      let (incoming', ready', e, r) =
        release_lem (dependents x) incoming ready (graph.once x) waits in
      (
        incoming',
        ready',
        e,
        record {
          counts = λ i l.
              let more = count_in-cons x visited (dependencies i) (graph.distinct i l) x_fresh in
              let before = s.counts i l in
              let now = r.counts i in
              let same = graph.known x i in
              elim (Bool-cases (mem i (dependents x))) [
                | inl m ↦ let w = waits i m in ground arith
                | inr m ↦ ground arith
              ];
          ready_once = r.distinct (ground arith) (λ j m. elim (Bool-cases (mem j ready)) [
            | inl q ↦
                let (below, free, fresh) = s.waiting j (ground arith) in
                let w = waits j m in absurd (omega arith)
            | inr q ↦ q
          ]);
          visited_once = ground arith;
          visited_below = ground arith;
          waiting = λ j m. waiting_after incoming incoming' x ready ready' visited s x_fresh r j m;
          listed = λ j l z f.
              let now = r.counts j in
              let queue = r.members j in
              elim (Bool-cases (mem j (dependents x))) [
                | inl m ↦ ground arith
                | inr m ↦ let old = s.listed j l (ground arith) (ground arith) in ground arith
              ];
          ordered = (
            λ d m. count_in_all visited (dependencies x) (omega (arith, s.counts x x_below)) d m,
            s.ordered,
          );
        },
      )

  -- With a round for each node that was not visited, the visits end, without a panic.
  pub visit_lem :
      (fuel : ℕ) (incoming : ℕ → ℕ) (ready visited : List ℕ)
      → fuel + length visited ≡ n
      → IsState incoming ready visited
      → (visited' : List ℕ) × (incoming' : ℕ → ℕ) × (visit fuel dependents incoming ready visited
          ≡ some visited')
        × IsState incoming' [] visited'
  unfolding visit mem is_distinct is_below
  visit_lem fuel incoming [] visited h s = (visited, incoming, refl, s)
  visit_lem zero incoming (x ∷ ready) visited h s =
      let (below, _, fresh) = s.waiting x (ground arith) in
      let few =
        is_distinct-length n (x ∷ visited) (ground (arith, s.visited_once))
          (ground (arith, s.visited_below)) in
      absurd (omega arith)
  visit_lem (suc fuel) incoming (x ∷ ready) visited h s =
      let (incoming1, ready1, e, s1) = visit_step incoming x ready visited s in
      let (visited', incoming', e', s') =
        visit_lem fuel incoming1 ready1 (x ∷ visited) (omega arith) s1 in
      (visited', incoming', rw (e, visit) e', s')
