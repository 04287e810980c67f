-- ===== src/Engine/Session/Tests.antt =====
-- A request that registers while the session of crates/ash-engine/src/runtime.rs is being closed.
use ash.Common.{none, ℕ, ◌≡◌, refl, true, false, List, [], ◌∷◌}
use ash.Common.Map.{get, insert}
use ash.Engine.Session.{
  SessionInner, session_closed, Phase, register_starts, registered, close_starts, finished,
  cancel_starts, cancel_answered, failed, run,
}
use ash.Engine.Session.Closing.{Promises, run-Promises}

abbrev open_session : SessionInner
open_session = record { closed = false; poisoned = false; active = []; cancelled = [] }

-- The calls 0 and 1 register, the calls 2 and 3 close, the call 4 cancels.
abbrev racing_calls : List Phase
racing_calls =
    register_starts 7 70 none
    ∷ register_starts 8 80 none
    ∷ close_starts
    ∷ close_starts
    ∷ cancel_starts 7
    ∷ []

-- Both registrations have seen an open session; the second enters after it is closed.
abbrev race : List ℕ
race = 0 ∷ 1 ∷ 0 ∷ 2 ∷ 3 ∷ 1 ∷ 2 ∷ 4 ∷ []

race_lem : run race racing_calls open_session ≡ (
  record { closed = true; poisoned = false; active = (7, 70) ∷ []; cancelled = 70 ∷ [] },
  registered 7 70
      ∷ failed session_closed
      ∷ finished true
      ∷ finished false
      ∷ cancel_answered false
      ∷ [],
)
unfolding run get insert
race_lem = refl

run-Promises_example :
    Promises (run race racing_calls open_session).0 (run race racing_calls open_session).1
run-Promises_example = run-Promises race racing_calls open_session (tt, (tt, (tt, (tt, (tt, tt)))))
