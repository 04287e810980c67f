-- ===== src/Engine/Governor/Tasks.antt =====
-- The tasks that share the governors of crates/ash-engine/src/governor.rs, step by step: a call of
-- `HierarchicalGovernor::acquire` may stop at each of its two `await`s.
use ash.Common.{
  ℕ, zero, suc, ◌+◌, Option, none, some, List, [], ◌∷◌, if◌then◌else◌, Result, ok, err,
}
use ash.Engine.Governor.{
  PermitKind, same_kind, GovernorError, TryAcquireError, HierarchicalGovernor, Wait, acquire,
  drop_permit, acquire_session, acquire_global, drop_global, drop_session,
}

-- One permit of a kind, and the permits of a kind among the permits that are held.
abbrev pub unit : PermitKind → PermitKind → ℕ
unit k j = if same_kind k j then 1 else 0

unfoldable pub count : PermitKind → List PermitKind → ℕ
count j [] = 0
count j (k ∷ held) = unit k j + count j held

-- What runs: the permits of both levels that a session's tasks hold, the kinds of its calls that have
-- a permit of the session and wait at the process, those of its permits whose drop is half done, and
-- the process's permits of other sessions.
pub record System (S : Type 0) : Type 0 where
  pub governor : HierarchicalGovernor S
  pub held : List PermitKind
  pub waiting : List PermitKind
  pub leaving : List PermitKind
  pub elsewhere : List PermitKind

-- The steps of the tasks. A number is an index into the list that the step is about.
pub data Action : Type 0 where
  begins : PermitKind → Wait → Action
  continues : ℕ → Wait → Action
  abandons drops leaves : ℕ → Action
  begins_elsewhere : PermitKind → Wait → Action
  drops_elsewhere : ℕ → Action

unfoldable pub remove_at : ℕ → List PermitKind → Option (PermitKind × List PermitKind)
remove_at i [] = none
remove_at zero (k ∷ kinds) = some (k, kinds)
remove_at (suc i) (k ∷ kinds) = elim (remove_at i kinds) [
  | none ↦ none
  | some (j, rest) ↦ some (j, k ∷ rest)
]

abbrev pub hold : Result PermitKind GovernorError → List PermitKind → List PermitKind
hold (ok k) kinds = k ∷ kinds
hold (err _) kinds = kinds

module _ {S : Type 0} (take : S → S × Result (Unit {0}) TryAcquireError) (release : S → S) where
  unfoldable pub act : Action → System S → System S
  unfolding remove_at
  act (begins kind w) s =
      let (h, r) = acquire_session take release s.governor kind w in
      record s { governor = h; waiting = hold r s.waiting }
  act (continues i w) s = elim (remove_at i s.waiting) [
    | none ↦ s
    | some (kind, rest) ↦
        let (h, r) = acquire_global take release s.governor kind w in
        record s { governor = h; held = hold r s.held; waiting = rest }
  ]
  act (abandons i) s = elim (remove_at i s.waiting) [
    | none ↦ s
    | some (kind, rest) ↦ record s {
      governor = drop_session take release s.governor kind;
      waiting = rest;
    }
  ]
  act (drops i) s = elim (remove_at i s.held) [
    | none ↦ s
    | some (kind, rest) ↦ record s {
      governor = drop_global take release s.governor kind;
      held = rest;
      leaving = kind ∷ s.leaving;
    }
  ]
  act (leaves i) s = elim (remove_at i s.leaving) [
    | none ↦ s
    | some (kind, rest) ↦ record s {
      governor = drop_session take release s.governor kind;
      leaving = rest;
    }
  ]
  act (begins_elsewhere kind w) s =
      let (g, r) = acquire take release s.governor.global kind w in
      record s { governor = record s.governor { global = g }; elsewhere = hold r s.elsewhere }
  act (drops_elsewhere i) s = elim (remove_at i s.elsewhere) [
    | none ↦ s
    | some (kind, rest) ↦ record s {
      governor = record s.governor { global = drop_permit take release s.governor.global kind };
      elsewhere = rest;
    }
  ]

  unfoldable pub acts : List Action → System S → System S
  unfolding act
  acts [] s = s
  acts (a ∷ actions) s = acts actions (act a s)
