-- ===== src/Engine/Dag.antt =====
-- crates/ash-engine/src/dag.rs: the validation of a graph of jobs and its execution.
pub mod Members
pub mod Dependents
pub mod Visiting
pub mod Acyclic
pub mod Execution
pub mod Plan
pub mod Settling
pub mod Dependent
pub mod Release
pub mod Completion
pub mod Oracle
mod Tests
use ash.Common.{
  ℕ, zero, suc, ◌+◌, ◌-◌, Bool, true, false, not, ◌&&◌, ◌||◌, Option, none, some, List, [], ◌∷◌,
  ◌++◌, ◌==◌, ltb, leb, if◌then◌else◌, Result, ok, err, length,
}

pub record DagNode (J : Type 0) : Type 0 where
  pub dependencies : List ℕ
  pub job : J

pub data DagError (E : Type 0) : Type 0 where
  invalid_graph : DagError E
  task : E → DagError E

-- A vector with an entry for each node is a function of the index, which the checks keep in range.
unfoldable pub with_entry : {A : Type 0} → (ℕ → A) → ℕ → A → ℕ → A
with_entry f i v j = if j == i then v else f j

-- `dependencies.windows(2).all(|pair| pair[0] < pair[1])`
unfoldable pub is_ascending : List ℕ → Bool
is_ascending [] = true
is_ascending (a ∷ []) = true
is_ascending (a ∷ b ∷ rest) = ltb a b && is_ascending (b ∷ rest)

-- `dependencies.iter().any(|dependency| *dependency >= nodes.len() || *dependency == index)`
unfoldable pub is_outside : ℕ → ℕ → List ℕ → Bool
is_outside count index [] = false
is_outside count index (d ∷ rest) = leb count d || d == index || is_outside count index rest

unfoldable pub is_valid_node : ℕ → ℕ → List ℕ → Bool
unfolding is_ascending is_outside
is_valid_node count index dependencies =
    is_ascending dependencies && not (is_outside count index dependencies)

-- The loop that makes a node known to those it depends on.
unfoldable pub push_dependents : ℕ → List ℕ → (ℕ → List ℕ) → ℕ → List ℕ
unfolding with_entry
push_dependents index [] dependents = dependents
push_dependents index (d ∷ rest) dependents =
    push_dependents index rest (with_entry dependents d (dependents d ++ index ∷ []))

module _ {J : Type 0} where
  -- The first loop of `validate`: the checks of each node, and the dependents of each.
  unfoldable pub collect : ℕ → ℕ → List (DagNode J) → (ℕ → List ℕ) → Option (ℕ → List ℕ)
  unfolding is_valid_node push_dependents
  collect count index [] dependents = some dependents
  collect count index (node ∷ rest) dependents =
      if is_valid_node count index node.dependencies
      then collect count (suc index) rest (push_dependents index node.dependencies dependents)
      else none

  -- `incoming`, the number of dependencies of each node.
  unfoldable pub dependencies_at : List (DagNode J) → ℕ → List ℕ
  dependencies_at [] i = []
  dependencies_at (node ∷ rest) zero = node.dependencies
  dependencies_at (node ∷ rest) (suc i) = dependencies_at rest i

  unfoldable pub incoming_of : List (DagNode J) → ℕ → ℕ
  unfolding dependencies_at
  incoming_of nodes i = length (dependencies_at nodes i)

-- The indexes of the nodes that wait for nothing.
unfoldable pub ready_from : ℕ → ℕ → (ℕ → ℕ) → List ℕ
ready_from index zero incoming = []
ready_from index (suc count) incoming =
    let rest = ready_from (suc index) count incoming in
    if incoming index == 0 then index ∷ rest else rest

-- The dependents of a visited node each wait for one node less. `none` is the panic of a
-- subtraction that underflows.
unfoldable pub release : List ℕ → (ℕ → ℕ) → List ℕ → Option ((ℕ → ℕ) × List ℕ)
unfolding with_entry
release [] incoming ready = some (incoming, ready)
release (d ∷ rest) incoming ready =
    if incoming d == 0
    then none
    else release rest (with_entry incoming d (incoming d - 1))
        (if incoming d - 1 == 0 then ready ++ d ∷ [] else ready)

-- The visits, with the nodes that were visited, the last one first; the source counts them.
unfoldable pub visit : ℕ → (ℕ → List ℕ) → (ℕ → ℕ) → List ℕ → List ℕ → Option (List ℕ)
unfolding release
visit fuel dependents incoming [] visited = some visited
visit zero dependents incoming (index ∷ ready) visited = none
visit (suc fuel) dependents incoming (index ∷ ready) visited =
    elim (release (dependents index) incoming ready) [
      | none ↦ none
      | some (incoming', ready') ↦ visit fuel dependents incoming' ready' (index ∷ visited)
    ]

-- `validate`; `none` is a panic.
abbrev pub is_complete :
    {E : Type 0} → ℕ → Option (List ℕ) → Option (Result (Unit {0}) (DagError E))
is_complete count none = none
is_complete count (some visited) =
    if length visited == count then some (ok tt) else some (err invalid_graph)

unfoldable pub validate_nodes :
    {J E : Type 0} → List (DagNode J) → Option (Result (Unit {0}) (DagError E))
unfolding collect incoming_of ready_from visit
validate_nodes nodes =
    let count = length nodes in
    elim (collect count 0 nodes (λ (i : ℕ). [])) [
      | none ↦ some (err invalid_graph)
      | some dependents ↦
          is_complete count
            (visit count dependents (incoming_of nodes) (ready_from 0 count (incoming_of nodes)) [])
    ]

unfoldable pub validate :
    {J E : Type 0} → List (DagNode J) → Option (Result (Unit {0}) (DagError E))
unfolding validate_nodes
validate [] = some (err invalid_graph)
validate (node ∷ rest) = validate_nodes (node ∷ rest)
