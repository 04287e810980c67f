-- ===== src/Engine/Dag/Dependents.antt =====
-- The first loop of `validate`: which graphs pass the checks, and what the dependents of a node are.
use ash.Common.{
  ℕ, zero, suc, ◌+◌, ◌<◌, ◌≡◌, refl, sym, ◌∙◌, Bool, true, false, ◌&&◌, none, some, List, [], ◌∷◌,
  ◌++◌, ◌==◌, if◌then◌else◌, length, arith, Bool-cases, inl, inr, append-nil, append_assoc,
}
use ash.Engine.Dag.{
  DagNode, with_entry, is_ascending, is_outside, is_valid_node, push_dependents, collect,
  dependencies_at,
}
use ash.Engine.Dag.Members.{mem, is_distinct}

is_ascending_min :
    (a b : ℕ) (rest : List ℕ) → is_ascending (a ∷ rest) ≡ true → mem b rest ≡ true → a < b
unfolding is_ascending mem
is_ascending_min a b [] h m = cc
is_ascending_min a b (c ∷ rest) h m = ground (arith, is_ascending_min c b rest)

pub is_ascending-is_distinct : (xs : List ℕ) → is_ascending xs ≡ true → is_distinct xs ≡ true
unfolding is_ascending is_distinct mem
is_ascending-is_distinct [] h = refl
is_ascending-is_distinct (a ∷ []) h = refl
is_ascending-is_distinct (a ∷ b ∷ rest) h =
    let tail = is_ascending-is_distinct (b ∷ rest) (ground arith) in
    elim (Bool-cases (mem a (b ∷ rest))) [
      | inl m ↦ let below = is_ascending_min a a (b ∷ rest) h m in absurd (omega arith)
      | inr m ↦ ground arith
    ]

pub is_outside-mem :
    (count index d : ℕ) (xs : List ℕ)
    → is_outside count index xs ≡ false
    → mem d xs ≡ true
    → (d < count) × ((d == index) ≡ false)
unfolding is_outside mem
is_outside-mem count index d [] h m = absurd (ground arith)
is_outside-mem count index d (x ∷ xs) h m = elim (Bool-cases (d == x)) [
  | inl e ↦ let e' : d ≡ x = ground arith in rw e' (ground arith)
  | inr e ↦ is_outside-mem count index d xs (ground arith) (ground arith)
]

push_dependents_lem :
    (index : ℕ) (xs : List ℕ) (f : ℕ → List ℕ) (d : ℕ)
    → is_distinct xs ≡ true
    → push_dependents index xs f d ≡ (if mem d xs then f d ++ index ∷ [] else f d)
unfolding push_dependents with_entry mem is_distinct
push_dependents_lem index [] f d h = refl
push_dependents_lem index (x ∷ xs) f d h =
    let rest = push_dependents_lem index xs (with_entry f x (f x ++ index ∷ [])) d (ground arith) in
    ground arith

appended :
    (index : ℕ) (xs : List ℕ) (f : ℕ → List ℕ) (d : ℕ) (later : List ℕ)
    → is_distinct xs ≡ true
    → push_dependents index xs f d ++ later ≡ f d ++ (if mem d xs then index ∷ later else later)
appended index xs f d later h = elim (Bool-cases (mem d xs)) [
  | inl m ↦ rw (push_dependents_lem index xs f d h, m) (append_assoc (f d) (index ∷ []) later)
  | inr m ↦ rw (push_dependents_lem index xs f d h, m) refl
]

is_valid_node-is_distinct :
    (count index : ℕ) (xs : List ℕ) → is_valid_node count index xs ≡ true → is_distinct xs ≡ true
unfolding is_valid_node
is_valid_node-is_distinct count index xs h = is_ascending-is_distinct xs (ground arith)

module _ {J : Type 0} where
  -- The nodes that depend on a node, in their order.
  unfoldable pub dependents_from : ℕ → List (DagNode J) → ℕ → List ℕ
  unfolding mem
  dependents_from k [] d = []
  dependents_from k (node ∷ rest) d =
      let later = dependents_from (suc k) rest d in
      if mem d node.dependencies then k ∷ later else later

  unfoldable pub all_valid : ℕ → ℕ → List (DagNode J) → Bool
  unfolding is_valid_node
  all_valid count k [] = true
  all_valid count k (node ∷ rest) =
      is_valid_node count k node.dependencies && all_valid count (suc k) rest

  pub collect-none :
      (count k : ℕ) (nodes : List (DagNode J)) (f : ℕ → List ℕ)
      → all_valid count k nodes ≡ false
      → collect count k nodes f ≡ none
  unfolding collect all_valid
  collect-none count k [] f h = cc
  collect-none count k (node ∷ rest) f h =
      elim (Bool-cases (is_valid_node count k node.dependencies)) [
        | inl valid ↦
            let push = push_dependents k node.dependencies f in
            rw (valid, collect) (collect-none count (suc k) rest push (ground arith))
        | inr invalid ↦ rw (invalid, collect) refl
      ]

  pub collect-some :
      (count k : ℕ) (nodes : List (DagNode J)) (f : ℕ → List ℕ)
      → all_valid count k nodes ≡ true
      → (dependents : ℕ → List ℕ) × (collect count k nodes f ≡ some dependents)
        × ((d : ℕ) → dependents d ≡ f d ++ dependents_from k nodes d)
  unfolding collect all_valid dependents_from
  collect-some count k [] f h = (f, refl, λ d. sym (append-nil (f d)))
  collect-some count k (node ∷ rest) f h =
      let valid : is_valid_node count k node.dependencies ≡ true = ground arith in
      let (dependents, e, each) =
        collect-some count (suc k) rest (push_dependents k node.dependencies f) (ground arith) in
      (
        dependents,
        rw (valid, collect) e,
        λ d.
            each d
            ∙ appended k node.dependencies f d (dependents_from (suc k) rest d)
                (is_valid_node-is_distinct count k node.dependencies valid),
      )

  pub dependents_from_before :
      (k : ℕ) (nodes : List (DagNode J)) (d j : ℕ)
      → j < k
      → mem j (dependents_from k nodes d) ≡ false
  unfolding dependents_from mem
  dependents_from_before k [] d j h = refl
  dependents_from_before k (node ∷ rest) d j h =
      let later = dependents_from_before (suc k) rest d j (omega arith) in ground arith

  pub mem-dependents_from :
      (k : ℕ) (nodes : List (DagNode J)) (d i : ℕ)
      → mem (k + i) (dependents_from k nodes d) ≡ mem d (dependencies_at nodes i)
  unfolding dependents_from mem dependencies_at
  mem-dependents_from k [] d i = refl
  mem-dependents_from k (node ∷ rest) d zero =
      let later = dependents_from_before (suc k) rest d (k + 0) (omega arith) in ground arith
  mem-dependents_from k (node ∷ rest) d (suc i) =
      let e : k + suc i ≡ suc k + i = omega arith in
      let later = mem-dependents_from (suc k) rest d i in rw e (ground arith)

  pub dependents_from-is_distinct :
      (k : ℕ) (nodes : List (DagNode J)) (d : ℕ) → is_distinct (dependents_from k nodes d) ≡ true
  unfolding dependents_from is_distinct
  dependents_from-is_distinct k [] d = refl
  dependents_from-is_distinct k (node ∷ rest) d =
      let later = dependents_from-is_distinct (suc k) rest d in
      let absent = dependents_from_before (suc k) rest d k (omega arith) in ground arith

  -- What the checks say of a node.
  pub all_valid_at :
      (count k : ℕ) (nodes : List (DagNode J)) (i : ℕ)
      → all_valid count k nodes ≡ true
      → i < length nodes
      → is_valid_node count (k + i) (dependencies_at nodes i) ≡ true
  unfolding all_valid dependencies_at
  all_valid_at count k [] i h l = absurd (omega arith)
  all_valid_at count k (node ∷ rest) zero h l =
      let e : k + 0 ≡ k = omega arith in rw e (ground arith)
  all_valid_at count k (node ∷ rest) (suc i) h l =
      let e : k + suc i ≡ suc k + i = omega arith in
      rw e (all_valid_at count (suc k) rest i (ground arith) (omega arith))
