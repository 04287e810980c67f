-- ===== src/Engine/Governor/Conservation.antt =====
-- No permit is lost or made: what is held and what is available add up to the limits.
use ash.Common.{ℕ, zero, suc, ◌+◌, ◌≡◌, some, Option-cases, List, [], ◌∷◌, arith, Result, inl, inr}
use ash.Engine.Governor.{
  GovernorLimits, PermitKind, limit_of, TryAcquireError, new, Wait, acquire_session, acquire_global,
  drop_global, drop_session,
}
use ash.Engine.Governor.Tasks.{
  unit, count, System, Action, begins, continues, abandons, drops, leaves, begins_elsewhere,
  drops_elsewhere, remove_at, act, acts,
}
use ash.Engine.Governor.Semaphores.{
  IsSemaphore, left, left-drop_permit, count-cons, acquire-Paid, left-new,
}

module _ {S : Type 0} (create : ℕ → S) (take : S → S × Result (Unit {0}) TryAcquireError)
    (release : S → S) (spec : IsSemaphore create take release) where
  -- No permit is lost or made, on either level.
  pub record IsBalanced (session_limits process_limits : GovernorLimits) (s : System S)
      : Type 0 where
    pub session :
        (j : PermitKind)
        → left create take release spec s.governor.session j
            + (count j s.held + (count j s.waiting + count j s.leaving))
          ≡ limit_of session_limits j
    pub process :
        (j : PermitKind)
        → left create take release spec s.governor.global j + (count j s.held + count j s.elsewhere)
          ≡ limit_of process_limits j

  count-remove_at :
      (j : PermitKind) (i : ℕ) (kinds : List PermitKind) (k : PermitKind) (rest : List PermitKind)
      → remove_at i kinds ≡ some (k, rest)
      → count j kinds ≡ unit k j + count j rest
  unfolding remove_at count
  count-remove_at j i [] k rest e = cc
  count-remove_at j zero (k' ∷ kinds) k rest e = ground arith
  count-remove_at j (suc i) (k' ∷ kinds) k rest e = elim (Option-cases (remove_at i kinds)) [
    | inl none_left ↦ ground arith
    | inr ((k'', rest'), found) ↦
        let tail = count-remove_at j i kinds k'' rest' found in ground (arith, tail)
  ]

  module _ (session_limits process_limits : GovernorLimits) (s : System S)
      (b : IsBalanced session_limits process_limits s) where
    begins-IsBalanced :
        (k : PermitKind) (w : Wait)
        → IsBalanced session_limits process_limits (act take release (begins k w) s)
    unfolding act acquire_session
    begins-IsBalanced k w = elim (acquire-Paid create take release spec s.governor.session k w) [
      | inr (e, failed, same) ↦
          rw (act, acquire_session, failed)
            (record { session = λ j. ground (arith, same j, b.session j); process = b.process })
      | inl (granted, paid) ↦
          rw (act, acquire_session, granted)
            (record {
              session = λ j.
                  ground
                    (arith, paid j, b.session j, count-cons create take release spec j k s.waiting);
              process = b.process;
            })
    ]

    continues-IsBalanced :
        (i : ℕ) (w : Wait)
        → IsBalanced session_limits process_limits (act take release (continues i w) s)
    unfolding act acquire_global
    continues-IsBalanced i w = elim (Option-cases (remove_at i s.waiting)) [
      | inl e ↦ rw (act, e) b
      | inr ((k, rest), e) ↦ elim (acquire-Paid create take release spec s.governor.global k w) [
        | inr (x, failed, same) ↦
            rw (act, e, acquire_global, failed)
              (record {
                session = λ j. ground (
                  arith,
                  b.session j,
                  count-remove_at j i s.waiting k rest e,
                  left-drop_permit create take release spec s.governor.session k j,
                );
                process = λ j. ground (arith, same j, b.process j);
              })
        | inl (granted, paid) ↦
            rw (act, e, acquire_global, granted)
              (record {
                session = λ j. ground (
                  arith,
                  b.session j,
                  count-remove_at j i s.waiting k rest e,
                  count-cons create take release spec j k s.held,
                );
                process = λ j.
                    ground
                      (arith, paid j, b.process j, count-cons create take release spec j k s.held);
              })
      ]
    ]

    abandons-IsBalanced :
        (i : ℕ) → IsBalanced session_limits process_limits (act take release (abandons i) s)
    unfolding act drop_session
    abandons-IsBalanced i = elim (Option-cases (remove_at i s.waiting)) [
      | inl e ↦ rw (act, e) b
      | inr ((k, rest), e) ↦
          rw (act, e)
            (record {
              session = λ j. ground (
                arith,
                b.session j,
                count-remove_at j i s.waiting k rest e,
                left-drop_permit create take release spec s.governor.session k j,
              );
              process = b.process;
            })
    ]

    drops-IsBalanced :
        (i : ℕ) → IsBalanced session_limits process_limits (act take release (drops i) s)
    unfolding act drop_global
    drops-IsBalanced i = elim (Option-cases (remove_at i s.held)) [
      | inl e ↦ rw (act, e) b
      | inr ((k, rest), e) ↦
          let removed = λ (j : PermitKind). count-remove_at j i s.held k rest e in
          rw (act, e)
            (record {
              session = λ j. ground (
                arith,
                b.session j,
                removed j,
                count-cons create take release spec j k s.leaving,
              );
              process = λ j. ground (
                arith,
                b.process j,
                removed j,
                left-drop_permit create take release spec s.governor.global k j,
              );
            })
    ]

    leaves-IsBalanced :
        (i : ℕ) → IsBalanced session_limits process_limits (act take release (leaves i) s)
    unfolding act drop_session
    leaves-IsBalanced i = elim (Option-cases (remove_at i s.leaving)) [
      | inl e ↦ rw (act, e) b
      | inr ((k, rest), e) ↦
          rw (act, e)
            (record {
              session = λ j. ground (
                arith,
                b.session j,
                count-remove_at j i s.leaving k rest e,
                left-drop_permit create take release spec s.governor.session k j,
              );
              process = b.process;
            })
    ]

    begins_elsewhere-IsBalanced :
        (k : PermitKind) (w : Wait)
        → IsBalanced session_limits process_limits (act take release (begins_elsewhere k w) s)
    unfolding act
    begins_elsewhere-IsBalanced k w =
        elim (acquire-Paid create take release spec s.governor.global k w) [
          | inr (e, failed, same) ↦
              rw (act, failed)
                (record { session = b.session; process = λ j. ground (arith, same j, b.process j) })
          | inl (granted, paid) ↦
              rw (act, granted)
                (record {
                  session = b.session;
                  process = λ j. ground (
                    arith,
                    paid j,
                    b.process j,
                    count-cons create take release spec j k s.elsewhere,
                  );
                })
        ]

    drops_elsewhere-IsBalanced :
        (i : ℕ) → IsBalanced session_limits process_limits (act take release (drops_elsewhere i) s)
    unfolding act
    drops_elsewhere-IsBalanced i = elim (Option-cases (remove_at i s.elsewhere)) [
      | inl e ↦ rw (act, e) b
      | inr ((k, rest), e) ↦
          rw (act, e)
            (record {
              session = b.session;
              process = λ j. ground (
                arith,
                b.process j,
                count-remove_at j i s.elsewhere k rest e,
                left-drop_permit create take release spec s.governor.global k j,
              );
            })
    ]

  act-IsBalanced :
      (session_limits process_limits : GovernorLimits) (a : Action) (s : System S)
      → IsBalanced session_limits process_limits s
      → IsBalanced session_limits process_limits (act take release a s)
  act-IsBalanced l m (begins k w) s b = begins-IsBalanced l m s b k w
  act-IsBalanced l m (continues i w) s b = continues-IsBalanced l m s b i w
  act-IsBalanced l m (abandons i) s b = abandons-IsBalanced l m s b i
  act-IsBalanced l m (drops i) s b = drops-IsBalanced l m s b i
  act-IsBalanced l m (leaves i) s b = leaves-IsBalanced l m s b i
  act-IsBalanced l m (begins_elsewhere k w) s b = begins_elsewhere-IsBalanced l m s b k w
  act-IsBalanced l m (drops_elsewhere i) s b = drops_elsewhere-IsBalanced l m s b i

  -- For every semaphore that behaves as tokio documents and is never closed, and from a balanced
  -- state, whatever the tasks do: calls begin, wait at the process while other tasks run, go on or
  -- are dropped there, permits are dropped in two steps, and other sessions take and drop permits of
  -- the process, in any order and with waits that end in any way. Then the permits of each kind that
  -- the session has left, those that its tasks hold, those of its calls that wait at the process, and
  -- those whose drop is half done add up to its limit; and those that the process has left, those
  -- that these tasks hold, and those of other sessions add up to the limit of the process.
  pub acts-IsBalanced :
      (session_limits process_limits : GovernorLimits) (actions : List Action) (s : System S)
      → IsBalanced session_limits process_limits s
      → IsBalanced session_limits process_limits (acts take release actions s)
  unfolding acts
  acts-IsBalanced l m [] s b = b
  acts-IsBalanced l m (a ∷ actions) s b =
      acts-IsBalanced l m actions (act take release a s) (act-IsBalanced l m a s b)

  abbrev pub fresh_system : GovernorLimits → GovernorLimits → System S
  fresh_system session_limits process_limits = record {
    governor = record { global = new create process_limits; session = new create session_limits };
    held = [];
    waiting = [];
    leaving = [];
    elsewhere = [];
  }

  -- Governors that no task has used.
  pub new-IsBalanced :
      (session_limits process_limits : GovernorLimits)
      → IsBalanced session_limits process_limits (fresh_system session_limits process_limits)
  unfolding count
  new-IsBalanced session_limits process_limits = record {
    session = λ j. ground (arith, left-new create take release spec session_limits j);
    process = λ j. ground (arith, left-new create take release spec process_limits j);
  }
