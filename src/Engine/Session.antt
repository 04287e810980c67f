-- ===== src/Engine/Session.antt =====
-- crates/ash-engine/src/runtime.rs: the table of a session's active requests, and its life cycle;
-- crates/ash-engine/src/cancellation.rs: `CancellationToken`.
pub mod Closing
mod Tests
use ash.Common.{
  ℕ, zero, suc, Bool, true, false, ◌||◌, not, Option, none, some, List, [], ◌∷◌, ◌==◌,
  if◌then◌else◌,
}
use ash.Common.Eq.{ℕ_keys}
use ash.Engine.Budget.{BudgetError}
use ash.Common.Map.{Map, get, insert, remove, is_some}

-- The part of a session's state that these calls read, and their errors.
-- A token is a number, and its clones share the number. The table of active requests is behind a
-- mutex; `poisoned` is the flag of that mutex. `cancelled` are the tokens whose flag is set.
pub record SessionInner : Type 0 where
  pub closed : Bool
  pub poisoned : Bool
  pub active : Map ℕ ℕ
  pub cancelled : List ℕ

pub data EngineError : Type 0 where
  budget : BudgetError → EngineError
  session_closed : EngineError
  duplicate_request : ℕ → EngineError
  poisoned : EngineError

-- `CancellationToken::is_cancelled` and `CancellationToken::cancel`, which says whether it was the
-- first.
unfoldable pub is_cancelled : ℕ → List ℕ → Bool
is_cancelled t [] = false
is_cancelled t (u ∷ tokens) = t == u || is_cancelled t tokens

unfoldable pub cancel_token : ℕ → List ℕ → List ℕ × Bool
unfolding is_cancelled
cancel_token t tokens = if is_cancelled t tokens then (tokens, false) else (t ∷ tokens, true)

-- The loop of `close` over the tokens of the active requests.
unfoldable pub cancel_all : Map ℕ ℕ → List ℕ → List ℕ
unfolding cancel_token
cancel_all [] tokens = tokens
cancel_all ((request, t) ∷ active) tokens = cancel_all active (cancel_token t tokens).0

-- What a call in flight is about to do next. A call of `register` knows its request, its token and why
-- the tracker of its budget is refused, if it is. A call of `register` has loaded `closed` once it is
-- `checked`; a call of `close` has exchanged `closed` once it is `swapped`, and `finished` says
-- whether it was the one that closed the session.
pub data Phase : Type 0 where
  register_starts : ℕ → ℕ → Option BudgetError → Phase
  checked : ℕ → ℕ → Phase
  registered : ℕ → ℕ → Phase
  close_starts swapped : Phase
  finished : Bool → Phase
  cancel_starts : ℕ → Phase
  cancel_answered : Bool → Phase
  unregister_starts : ℕ → Phase
  unregistered : Phase
  failed : EngineError → Phase

-- The part of `register` under the lock.
unfoldable pub enter : ℕ → ℕ → SessionInner → SessionInner × Phase
enter request t s =
    if s.poisoned
    then (s, failed EngineError.poisoned)
    else if s.closed
    then (s, failed session_closed)
    else if is_some (get s.active request)
    then (s, failed (duplicate_request request))
    else (record s { active = insert s.active request t }, registered request t)

-- The part of `cancel` under the lock.
unfoldable pub cancel : ℕ → SessionInner → SessionInner × Phase
unfolding cancel_token
cancel request s =
    if s.poisoned then (s, failed EngineError.poisoned) else elim (get s.active request) [
      | none ↦ (s, cancel_answered false)
      | some t ↦ (
        record s { cancelled = (cancel_token t s.cancelled).0 },
        cancel_answered (cancel_token t s.cancelled).1,
      )
    ]

-- The drop of a request: it stays in the table if the mutex is poisoned.
unfoldable pub unregister : ℕ → SessionInner → SessionInner
unregister request s = if s.poisoned then s else record s { active = remove s.active request }

-- One atomic step of a call. A call that has returned moves no more.
unfoldable pub step : Phase → SessionInner → SessionInner × Phase
unfolding enter cancel cancel_all unregister
step (register_starts request t none) s =
    if s.closed then (s, failed session_closed) else (s, checked request t)
step (register_starts request t (some e)) s =
    if s.closed then (s, failed session_closed) else (s, failed (EngineError.budget e))
step (checked request t) s = enter request t s
step close_starts s = (record s { closed = true }, if s.closed then finished false else swapped)
step swapped s =
    if s.poisoned
    then (s, failed EngineError.poisoned)
    else (record s { cancelled = cancel_all s.active s.cancelled }, finished true)
step (cancel_starts request) s = cancel request s
step (unregister_starts request) s = (unregister request s, unregistered)
step (registered request t) s = (s, registered request t)
step (finished won) s = (s, finished won)
step (cancel_answered first) s = (s, cancel_answered first)
step unregistered s = (s, unregistered)
step (failed e) s = (s, failed e)

-- The step of the call with a given index, and a schedule of such steps.
unfoldable pub step_at : ℕ → List Phase → SessionInner → SessionInner × List Phase
unfolding step
step_at i [] s = (s, [])
step_at zero (c ∷ calls) s = let (s', c') = step c s in (s', c' ∷ calls)
step_at (suc i) (c ∷ calls) s = let (s', calls') = step_at i calls s in (s', c ∷ calls')

unfoldable pub run : List ℕ → List Phase → SessionInner → SessionInner × List Phase
unfolding step_at
run [] calls s = (s, calls)
run (i ∷ schedule) calls s = let (s', calls') = step_at i calls s in run schedule calls' s'
