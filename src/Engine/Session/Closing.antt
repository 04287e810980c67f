-- ===== src/Engine/Session/Closing.antt =====
-- When `close` has returned, every request that is still active is cancelled, and none is added.
use ash.Common.{
  ℕ, zero, suc, ◌≡◌, refl, sym, ◌∙◌, Bool, true, false, Option, none, some, List, [], ◌∷◌, ◌==◌,
  arith, Bool-cases, inl, inr, if◌then◌else◌,
}
use ash.Common.Eq.{ℕ_keys}
use ash.Common.Map.{Map, get, is_some, get-remove}
use ash.Engine.Session.{
  SessionInner, EngineError, session_closed, duplicate_request, Phase, register_starts, checked,
  registered, close_starts, swapped, finished, cancel_starts, cancel_answered, unregister_starts,
  unregistered, failed, is_cancelled, cancel_token, cancel_all, enter, cancel, unregister, step,
  step_at, run,
}

-- Every active request is cancelled.
pub record IsSilent (s : SessionInner) : Type 0 where
  pub closed : s.closed ≡ true
  pub cancelled :
      (request t : ℕ) → get s.active request ≡ some t → is_cancelled t s.cancelled ≡ true

-- What the phase of a call says of the session.
abbrev pub Promise : SessionInner → Phase → Type 0
Promise s swapped = s.closed ≡ true
Promise s (finished true) = IsSilent s
Promise s _ = Unit {0}

abbrev pub Promises : SessionInner → List Phase → Type 0
Promises s [] = Unit {0}
Promises s (c ∷ calls) = Promise s c × Promises s calls

cancel_token_keeps :
    (t u : ℕ) (tokens : List ℕ)
    → is_cancelled t tokens ≡ true
    → is_cancelled t (cancel_token u tokens).0 ≡ true
unfolding cancel_token is_cancelled
cancel_token_keeps t u tokens h = ground arith

cancel_token_sets : (t : ℕ) (tokens : List ℕ) → is_cancelled t (cancel_token t tokens).0 ≡ true
unfolding cancel_token is_cancelled
cancel_token_sets t tokens = ground arith

cancel_all_keeps :
    (t : ℕ) (active : Map ℕ ℕ) (tokens : List ℕ)
    → is_cancelled t tokens ≡ true
    → is_cancelled t (cancel_all active tokens) ≡ true
unfolding cancel_all
cancel_all_keeps t [] tokens h = h
cancel_all_keeps t ((request, u) ∷ active) tokens h =
    cancel_all_keeps t active (cancel_token u tokens).0 (cancel_token_keeps t u tokens h)

cancel_all_sets :
    (request t : ℕ) (active : Map ℕ ℕ) (tokens : List ℕ)
    → get active request ≡ some t
    → is_cancelled t (cancel_all active tokens) ≡ true
unfolding cancel_all get
cancel_all_sets request t [] tokens h = cc
cancel_all_sets request t ((r, u) ∷ active) tokens h = elim (Bool-cases (r == request)) [
  | inl e ↦
      let same : u ≡ t = ground arith in
      cancel_all_keeps t active (cancel_token u tokens).0 (rw same (cancel_token_sets t tokens))
  | inr e ↦ cancel_all_sets request t active (cancel_token u tokens).0 (ground arith)
]

-- What no step undoes.
record Later (s s' : SessionInner) : Type 0 where
  closed : s.closed ≡ true → s'.closed ≡ true
  silent : IsSilent s → IsSilent s'

Later-refl : (s s' : SessionInner) → s' ≡ s → Later s s'
Later-refl s s' e = rw e (record { closed = λ c. c; silent = λ i. i })

true-false : ¬ (true ≡ false)
true-false p = cc

-- While the session is open nothing is promised of its table.
Later-open : (s s' : SessionInner) → s.closed ≡ false → Later s s'
Later-open s s' e = record {
  closed = λ c. absurd (true-false (sym c ∙ e));
  silent = λ i. absurd (true-false (sym i.closed ∙ e));
}

enter-Later : (request t : ℕ) (s : SessionInner) → Later s (enter request t s).0
unfolding enter
enter-Later request t s = elim (Bool-cases s.closed) [
  | inl e ↦ Later-refl s (enter request t s).0 (ground arith)
  | inr e ↦ Later-open s (enter request t s).0 e
]

-- More cancelled tokens and fewer active requests.
Later-shrunk :
    (s s' : SessionInner)
    → s'.closed ≡ s.closed
    → ((request t : ℕ) → get s'.active request ≡ some t → get s.active request ≡ some t)
    → ((t : ℕ) → is_cancelled t s.cancelled ≡ true → is_cancelled t s'.cancelled ≡ true)
    → Later s s'
Later-shrunk s s' same fewer more = record {
  closed = λ c. same ∙ c;
  silent = λ i. record {
    closed = same ∙ i.closed;
    cancelled = λ request t e. more t (i.cancelled request t (fewer request t e));
  };
}

cancel-Later : (request : ℕ) (s : SessionInner) → Later s (cancel request s).0
unfolding cancel
cancel-Later request s =
    Later-shrunk s (cancel request s).0 (ground arith) (λ r t e. ground arith)
      (λ t e. ground (arith, cancel_token_keeps t))

unregister-Later : (request : ℕ) (s : SessionInner) → Later s (unregister request s)
unfolding unregister
unregister-Later request s =
    Later-shrunk s (unregister request s) (ground arith)
      (λ r t e. ground (arith, get-remove s.active request r)) (λ t e. ground arith)

-- The atomic step of `close` that cancels what is active.
close_lock : SessionInner → SessionInner
close_lock s = record s { cancelled = cancel_all s.active s.cancelled }

close_lock-Later : (s : SessionInner) → Later s (close_lock s)
unfolding close_lock
close_lock-Later s =
    Later-shrunk s (close_lock s) refl (λ r t e. e)
      (λ t e. cancel_all_keeps t s.active s.cancelled e)

close_lock-IsSilent : (s : SessionInner) → s.closed ≡ true → IsSilent (close_lock s)
unfolding close_lock
close_lock-IsSilent s c = record {
  closed = c;
  cancelled = λ request t e. cancel_all_sets request t s.active s.cancelled e;
}

swap-Later : (s : SessionInner) → Later s (record s { closed = true })
swap-Later s = record {
  closed = λ c. refl;
  silent = λ i. record { closed = refl; cancelled = i.cancelled };
}

-- Both branches of a test.
if_both :
    (P : SessionInner × Phase → Type 0) (b : Bool) (x y : SessionInner × Phase)
    → P x
    → P y
    → P (if b then x else y)
if_both P true x y h k = h
if_both P false x y h k = k

abbrev Kept : SessionInner → SessionInner × Phase → Type 0
Kept s r = Later s r.0

abbrev KeptPromise : SessionInner × Phase → Type 0
KeptPromise r = Promise r.0 r.1

step-Later : (c : Phase) (s : SessionInner) → Later s (step c s).0
unfolding step close_lock
step-Later (register_starts request t none) s = Later-refl s _ (ground arith)
step-Later (register_starts request t (some e)) s = Later-refl s _ (ground arith)
step-Later (checked request t) s = enter-Later request t s
step-Later close_starts s = swap-Later s
step-Later swapped s =
    if_both (Kept s) s.poisoned (s, failed EngineError.poisoned) (close_lock s, finished true)
      (Later-refl s s refl) (close_lock-Later s)
step-Later (cancel_starts request) s = cancel-Later request s
step-Later (unregister_starts request) s = unregister-Later request s
step-Later (registered request t) s = Later-refl s s refl
step-Later (finished won) s = Later-refl s s refl
step-Later (cancel_answered first) s = Later-refl s s refl
step-Later unregistered s = Later-refl s s refl
step-Later (failed e) s = Later-refl s s refl

enter-Promise : (request t : ℕ) (s : SessionInner) → KeptPromise (enter request t s)
unfolding enter
enter-Promise request t s =
    if_both KeptPromise s.poisoned (s, failed EngineError.poisoned) _ tt
      (if_both KeptPromise s.closed (s, failed session_closed) _ tt
        (if_both KeptPromise (is_some (get s.active request))
          (s, failed (duplicate_request request)) _ tt tt))

cancel-Promise : (request : ℕ) (s : SessionInner) → KeptPromise (cancel request s)
unfolding cancel
cancel-Promise request s =
    if_both KeptPromise s.poisoned (s, failed EngineError.poisoned) _ tt
      (found (get s.active request))
  where
    found :
        (o : Option ℕ)
        → KeptPromise (elim o [
          | none ↦ (s, cancel_answered false)
          | some t ↦ (
            record s { cancelled = (cancel_token t s.cancelled).0 },
            cancel_answered (cancel_token t s.cancelled).1,
          )
        ])
    found none = tt
    found (some t) = tt

swap-Promise :
    (s : SessionInner) (b : Bool)
    → Promise (record s { closed = true }) (if b then finished false else swapped)
swap-Promise s true = tt
swap-Promise s false = refl

step-Promise : (c : Phase) (s : SessionInner) → Promise s c → KeptPromise (step c s)
unfolding step close_lock
step-Promise (register_starts request t none) s h =
    if_both KeptPromise s.closed (s, failed session_closed) (s, checked request t) tt tt
step-Promise (register_starts request t (some e)) s h =
    if_both KeptPromise s.closed (s, failed session_closed) (s, failed (EngineError.budget e)) tt tt
step-Promise (checked request t) s h = enter-Promise request t s
step-Promise close_starts s h = swap-Promise s s.closed
step-Promise swapped s h =
    if_both KeptPromise s.poisoned (s, failed EngineError.poisoned) (close_lock s, finished true) tt
      (close_lock-IsSilent s h)
step-Promise (cancel_starts request) s h = cancel-Promise request s
step-Promise (unregister_starts request) s h = tt
step-Promise (registered request t) s h = tt
step-Promise (finished won) s h = h
step-Promise (cancel_answered first) s h = tt
step-Promise unregistered s h = tt
step-Promise (failed e) s h = tt

-- A promise survives the steps of other calls.
Promise-Later : (c : Phase) (s s' : SessionInner) → Later s s' → Promise s c → Promise s' c
Promise-Later swapped s s' l h = l.closed h
Promise-Later (finished true) s s' l h = l.silent h
Promise-Later (finished false) s s' l h = tt
Promise-Later (register_starts request t refused) s s' l h = tt
Promise-Later (checked request t) s s' l h = tt
Promise-Later (registered request t) s s' l h = tt
Promise-Later close_starts s s' l h = tt
Promise-Later (cancel_starts request) s s' l h = tt
Promise-Later (cancel_answered first) s s' l h = tt
Promise-Later (unregister_starts request) s s' l h = tt
Promise-Later unregistered s s' l h = tt
Promise-Later (failed e) s s' l h = tt

Promises-Later :
    (calls : List Phase) (s s' : SessionInner) → Later s s' → Promises s calls → Promises s' calls
Promises-Later [] s s' l h = tt
Promises-Later (c ∷ calls) s s' l (h, hs) =
    (Promise-Later c s s' l h, Promises-Later calls s s' l hs)

step_at-Promises :
    (i : ℕ) (calls : List Phase) (s : SessionInner)
    → Promises s calls
    → Later s (step_at i calls s).0 × Promises (step_at i calls s).0 (step_at i calls s).1
unfolding step_at
step_at-Promises i [] s h = (Later-refl s s refl, tt)
step_at-Promises zero (c ∷ calls) s (h, hs) =
    let later = step-Later c s in
    (later, (step-Promise c s h, Promises-Later calls s (step c s).0 later hs))
step_at-Promises (suc i) (c ∷ calls) s (h, hs) =
    let (later, kept) = step_at-Promises i calls s hs in
    (later, (Promise-Later c s (step_at i calls s).0 later h, kept))

-- Whatever the interleaving of the atomic steps of calls of `register`, `close`, `cancel` and
-- `unregister`, what the phases of the calls promise stays true: once a call of `close` has closed
-- the session and returned, the session is closed and every request that is still active is
-- cancelled, those included that registered while the session was being closed.
pub run-Promises :
    (schedule : List ℕ) (calls : List Phase) (s : SessionInner)
    → Promises s calls
    → Promises (run schedule calls s).0 (run schedule calls s).1
unfolding run
run-Promises [] calls s h = h
run-Promises (i ∷ schedule) calls s h =
    let (later, kept) = step_at-Promises i calls s h in
    run-Promises schedule (step_at i calls s).1 (step_at i calls s).0 kept
