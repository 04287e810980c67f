-- ===== src/Engine/Dag/Acyclic.antt =====
-- `validate` accepts a graph exactly when it has no cycle.
use ash.Common.{
  ℕ, zero, suc, ◌+◌, ◌<◌, ◌≤◌, ◌≡◌, refl, ap, true, false, ◌&&◌, Option, some, List, [], ◌∷◌, ◌==◌,
  ltb, leb, if◌then◌else◌, Result, ok, err, length, arith, Bool-cases, ◌⊎◌, inl, inr,
}
use ash.Engine.Dag.{
  DagNode, DagError, invalid_graph, is_ascending, is_outside, is_valid_node, dependencies_at,
  incoming_of, ready_from, is_complete, validate_nodes, validate,
}
use ash.Engine.Dag.Members.{
  mem, is_distinct, is_below, count_in_covers, count_in_none, is_distinct-length, covers-length,
  is_distinct-covers,
}
use ash.Engine.Dag.Dependents.{
  dependents_from, all_valid, all_valid_at, collect-none, collect-some, mem-dependents_from,
  dependents_from-is_distinct, is_outside-mem, is_ascending-is_distinct,
}
use ash.Engine.Dag.Visiting.{other_member, IsGraph, IsState, Ordered, Ordered-mem, visit_lem}

-- A graph whose nodes can be with_entry in an order in which each comes after those it depends on.
pub record IsAcyclic {J : Type 0} (nodes : List (DagNode J)) : Type 0 where
  pub nonempty : 1 ≤ length nodes
  pub ascending : (i : ℕ) → i < length nodes → is_ascending (dependencies_at nodes i) ≡ true
  pub inside :
      (i d : ℕ) → i < length nodes → mem d (dependencies_at nodes i) ≡ true → d < length nodes
  pub rank : ℕ → ℕ
  pub later :
      (i d : ℕ) → i < length nodes → mem d (dependencies_at nodes i) ≡ true → rank d < rank i

is_outside_none :
    (count index : ℕ) (xs : List ℕ)
    → ((d : ℕ) → mem d xs ≡ true → (d < count) × ((d == index) ≡ false))
    → is_outside count index xs ≡ false
unfolding is_outside mem
is_outside_none count index [] h = refl
is_outside_none count index (x ∷ xs) h =
    let (below, other) = h x (ground arith) in
    let rest = is_outside_none count index xs (λ d m. h d (ground arith)) in ground arith

mem-ready_from :
    (k count : ℕ) (incoming : ℕ → ℕ) (j : ℕ)
    → mem j (ready_from k count incoming) ≡ (leb k j && ltb j (k + count) && (incoming j == 0))
unfolding ready_from mem
mem-ready_from k zero incoming j = ground arith
mem-ready_from k (suc count) incoming j =
    let rest = mem-ready_from (suc k) count incoming j in
    elim (Bool-cases (j == k)) [
      | inl e ↦ let same : j ≡ k = ground arith in ground (arith, ap incoming same)
      | inr e ↦ ground arith
    ]

ready_from-is_distinct :
    (k count : ℕ) (incoming : ℕ → ℕ) → is_distinct (ready_from k count incoming) ≡ true
unfolding ready_from is_distinct
ready_from-is_distinct k zero incoming = refl
ready_from-is_distinct k (suc count) incoming =
    let rest = ready_from-is_distinct (suc k) count incoming in
    let absent = mem-ready_from (suc k) count incoming k in ground arith

module _ {J : Type 0} where
  pub dependencies_at_end :
      (nodes : List (DagNode J)) (i d : ℕ)
      → mem d (dependencies_at nodes i) ≡ true
      → i < length nodes
  unfolding dependencies_at mem
  dependencies_at_end [] i d m = absurd (ground arith)
  dependencies_at_end (node ∷ rest) zero d m = omega arith
  dependencies_at_end (node ∷ rest) (suc i) d m = omega (arith, dependencies_at_end rest i d m)

  all_valid_from :
      (count k : ℕ) (nodes : List (DagNode J))
      → ((i : ℕ) → i < length nodes → is_valid_node count (k + i) (dependencies_at nodes i) ≡ true)
      → all_valid count k nodes ≡ true
  unfolding all_valid dependencies_at
  all_valid_from count k [] h = refl
  all_valid_from count k (node ∷ rest) h =
      let e : k + 0 ≡ k = omega arith in
      let first = rw e at (h 0 (omega arith)) in
      let later = all_valid_from count (suc k) rest (λ i l.
        let e' : k + suc i ≡ suc k + i = omega arith in rw e' at (h (suc i) (omega arith))) in
      ground arith

  depends_not :
      (nodes : List (DagNode J)) (a : IsAcyclic nodes) (i d : ℕ)
      → i < length nodes
      → mem d (dependencies_at nodes i) ≡ true
      → (d == i) ≡ false
  depends_not nodes a i d l m = elim (Bool-cases (d == i)) [
    | inl e ↦
        let same : d ≡ i = ground arith in
        let before = a.later i d l m in absurd (omega (arith, ap a.rank same))
    | inr e ↦ e
  ]

  pub acyclic_all_valid :
      (nodes : List (DagNode J)) → IsAcyclic nodes → all_valid (length nodes) 0 nodes ≡ true
  unfolding is_valid_node
  acyclic_all_valid nodes a = all_valid_from (length nodes) 0 nodes (λ i l.
      let outside =
        is_outside_none (length nodes) i (dependencies_at nodes i)
          (λ d m. (a.inside i d l m, depends_not nodes a i d l m)) in
      let up = a.ascending i l in ground arith)

  pub validated-IsGraph :
      (nodes : List (DagNode J)) (dependents : ℕ → List ℕ)
      → all_valid (length nodes) 0 nodes ≡ true
      → ((d : ℕ) → dependents d ≡ dependents_from 0 nodes d)
      → IsGraph (length nodes) (dependencies_at nodes) dependents
  unfolding is_valid_node
  validated-IsGraph nodes dependents h e = record {
    distinct = λ i l.
        is_ascending-is_distinct (dependencies_at nodes i)
          (ground (arith, all_valid_at (length nodes) 0 nodes i h l));
    inside = λ i d l m.
        (is_outside-mem (length nodes) i d (dependencies_at nodes i)
          (ground (arith, all_valid_at (length nodes) 0 nodes i h l)) m).0;
    known = λ d j.
        let e' : 0 + j ≡ j = omega arith in rw (e d) (rw e' at (mem-dependents_from 0 nodes d j));
    once = λ d. rw (e d) (dependents_from-is_distinct 0 nodes d);
    ends = λ j d m. dependencies_at_end nodes j d m;
  }

  -- The queue before the first visit.
  first-IsState :
      (nodes : List (DagNode J)) (dependents : ℕ → List ℕ)
      (graph : IsGraph (length nodes) (dependencies_at nodes) dependents)
      → IsState
          (length nodes)
          (dependencies_at nodes)
          dependents
          graph
          (incoming_of nodes)
          (ready_from 0 (length nodes) (incoming_of nodes))
          []
  unfolding incoming_of mem is_distinct is_below
  first-IsState nodes dependents graph = record {
    counts = λ i l. ground (arith, count_in_none (dependencies_at nodes i));
    ready_once = ready_from-is_distinct 0 (length nodes) (incoming_of nodes);
    visited_once = refl;
    visited_below = refl;
    waiting = λ j m.
        let known = mem-ready_from 0 (length nodes) (incoming_of nodes) j in
        (ground arith, ground arith, refl);
    listed = λ j l z f.
        let known = mem-ready_from 0 (length nodes) (incoming_of nodes) j in ground arith;
    ordered = tt;
  }

-- The number of nodes that were visited no later than a node.
unfoldable position : List ℕ → ℕ → ℕ
position [] i = 0
position (x ∷ visited) i = if i == x then suc (length visited) else position visited i

position-≤ : (visited : List ℕ) (i : ℕ) → position visited i ≤ length visited
unfolding position
position-≤ [] i = omega arith
position-≤ (x ∷ visited) i = ground (arith, position-≤ visited i)

module _ (n : ℕ) (dependencies dependents : ℕ → List ℕ)
    (graph : IsGraph n dependencies dependents) where
  position-Ordered :
      (visited : List ℕ) (i d : ℕ)
      → Ordered n dependencies dependents graph visited
      → is_distinct visited ≡ true
      → mem i visited ≡ true
      → mem d (dependencies i) ≡ true
      → position visited d < position visited i
  unfolding position mem is_distinct
  position-Ordered [] i d o u m h = absurd (ground arith)
  position-Ordered (x ∷ visited) i d (now, o) u m h = elim (Bool-cases (i == x)) [
    | inl e ↦
        let same : i ≡ x = ground arith in
        let fresh : mem x visited ≡ false = ground arith in
        let other = other_member d x visited fresh (now d (rw same at h)) in
        let below = position-≤ visited d in ground arith
    | inr e ↦
        let fresh : mem x visited ≡ false = ground arith in
        let before : mem i visited ≡ true = ground arith in
        let seen = Ordered-mem n dependencies dependents graph visited i d o before h in
        let other = other_member d x visited fresh seen in
        let rest = position-Ordered visited i d o (ground arith) before h in ground arith
  ]

  -- All nodes are visited if there is an order at all.
  all_visited :
      (rank : ℕ → ℕ)
      → ((i d : ℕ) → i < n → mem d (dependencies i) ≡ true → rank d < rank i)
      → (incoming : ℕ → ℕ) (visited : List ℕ)
      → IsState n dependencies dependents graph incoming [] visited
      → (bound i : ℕ) → i < n
      → rank i < bound
      → mem i visited ≡ true
  unfolding mem
  all_visited rank later incoming visited s zero i l b = absurd (omega arith)
  all_visited rank later incoming visited s (suc bound) i l b =
      let seen = count_in_covers visited (dependencies i) (λ d m.
        let before = later i d l m in
        all_visited rank later incoming visited s bound d (graph.inside i d l m) (omega arith)) in
      elim (Bool-cases (mem i visited)) [
        | inl m ↦ m
        | inr m ↦ absurd (ground (arith, s.listed i l (omega (arith, s.counts i l)) m))
      ]

-- What `validate` answers, and that the answer is right.
abbrev pub Decided :
    {J E : Type 0} → List (DagNode J) → Option (Result (Unit {0}) (DagError E)) → Type 0
Decided nodes answer =
    (answer ≡ some (ok tt) × IsAcyclic nodes)
    ⊎ (answer ≡ some (err invalid_graph) × ¬ (IsAcyclic nodes))

module _ {J : Type 0} where
  all_visited-IsAcyclic :
      (nodes : List (DagNode J)) (dependents : ℕ → List ℕ)
      (graph : IsGraph (length nodes) (dependencies_at nodes) dependents) (incoming : ℕ → ℕ)
      (visited : List ℕ)
      → 1 ≤ length nodes
      → all_valid (length nodes) 0 nodes ≡ true
      → IsState (length nodes) (dependencies_at nodes) dependents graph incoming [] visited
      → length visited ≡ length nodes
      → IsAcyclic nodes
  unfolding is_valid_node
  all_visited-IsAcyclic nodes dependents graph incoming visited some_node h s e = record {
    nonempty = some_node;
    ascending = λ i l. ground (arith, all_valid_at (length nodes) 0 nodes i h l);
    inside = λ i d l m. graph.inside i d l m;
    rank = position visited;
    later = λ i d l m.
        position-Ordered (length nodes) (dependencies_at nodes) dependents graph visited i d
          s.ordered s.visited_once
          (is_distinct-covers (length nodes) visited s.visited_once s.visited_below e i l) m;
  }

  visited_of :
      (nodes : List (DagNode J)) (dependents : ℕ → List ℕ)
      (graph : IsGraph (length nodes) (dependencies_at nodes) dependents) (incoming : ℕ → ℕ)
      (visited : List ℕ)
      → IsState (length nodes) (dependencies_at nodes) dependents graph incoming [] visited
      → IsAcyclic nodes
      → length visited ≡ length nodes
  visited_of nodes dependents graph incoming visited s a =
      let all : (i : ℕ) → i < length nodes → mem i visited ≡ true = λ i l.
        all_visited (length nodes) (dependencies_at nodes) dependents graph a.rank a.later incoming
          visited s (suc (a.rank i)) i l (omega arith) in
      let few = is_distinct-length (length nodes) visited s.visited_once s.visited_below in
      let many = covers-length (length nodes) visited all in omega arith

module _ {J E : Type 0} where
  complete-Decided :
      (nodes : List (DagNode J)) (dependents : ℕ → List ℕ)
      (graph : IsGraph (length nodes) (dependencies_at nodes) dependents) (incoming : ℕ → ℕ)
      (visited : List ℕ)
      → 1 ≤ length nodes
      → all_valid (length nodes) 0 nodes ≡ true
      → IsState (length nodes) (dependencies_at nodes) dependents graph incoming [] visited
      → Decided nodes (is_complete {E = E} (length nodes) (some visited))
  complete-Decided nodes dependents graph incoming visited some_node h s =
      elim (Bool-cases (length visited == length nodes)) [
        | inl e ↦ inl (
          rw e refl,
          all_visited-IsAcyclic nodes dependents graph incoming visited some_node h s
              (ground arith),
        )
        | inr e ↦ inr (
          rw e refl,
          λ a.
              let all = visited_of nodes dependents graph incoming visited s a in
              absurd (ground arith),
        )
      ]

  validate_nodes-Decided :
      (nodes : List (DagNode J)) → 1 ≤ length nodes → Decided nodes (validate_nodes {E = E} nodes)
  unfolding validate_nodes
  validate_nodes-Decided nodes some_node = elim (Bool-cases (all_valid (length nodes) 0 nodes)) [
    | inr h ↦
        rw (collect-none (length nodes) 0 nodes (λ i. []) h, validate_nodes)
          (inr (refl, λ a. absurd (ground (arith, acyclic_all_valid nodes a))))
    | inl h ↦
        let (dependents, e, each) = collect-some (length nodes) 0 nodes (λ i. []) h in
        let graph = validated-IsGraph nodes dependents h each in
        let (visited, incoming, e', s) =
          visit_lem (length nodes) (dependencies_at nodes) dependents graph (length nodes)
            (incoming_of nodes) (ready_from 0 (length nodes) (incoming_of nodes)) [] (omega arith)
            (first-IsState nodes dependents graph) in
        rw (e, validate_nodes, e')
          (complete-Decided nodes dependents graph incoming visited some_node h s)
  ]

  -- Whatever the graph, `validate` ends without a panic: it accepts the graph if the nodes are not
  -- none, each lists its dependencies in ascending order, all of them are nodes, and there is an order
  -- in which each node comes after its dependencies, and it refuses every other graph.
  pub validate-Decided : (nodes : List (DagNode J)) → Decided nodes (validate {E = E} nodes)
  unfolding validate
  validate-Decided [] = inr (refl, λ a. absurd (omega (arith, a.nonempty)))
  validate-Decided (node ∷ rest) = validate_nodes-Decided (node ∷ rest) (omega arith)
