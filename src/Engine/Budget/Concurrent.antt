-- ===== src/Engine/Budget/Concurrent.antt =====
-- Concurrent reservations on one counter: any number of threads, in any interleaving of their
-- atomic steps, with spurious failures of the weak compare-and-exchange anywhere.
use ash.Common.{ℕ, zero, suc, ◌+◌, ◌≤◌, ◌<◌, ◌≡◌, Bool, List, [], ◌∷◌, ok, err, arith}
use ash.Common.Words.{checked_add}
use ash.Engine.Budget.{Phase, start, trying, returned, reserve_step}

-- One thread of `reserve_*(amount)` calls in flight.
pub record Call : Type 0 where
  pub amount : ℕ
  pub phase : Phase

pub record Shared : Type 0 where
  pub counter : ℕ
  pub calls : List Call

-- The step of the thread with a given index; an index out of range is no step.
unfoldable pub step_calls : ℕ → ℕ → Bool → ℕ → ℕ → List Call → ℕ × List Call
step_calls modulus limit spurious counter i [] = (counter, [])
step_calls modulus limit spurious counter zero (c ∷ cs) =
    let (counter', phase') = reserve_step modulus limit c.amount spurious counter c.phase in
    (counter', record c { phase = phase' } ∷ cs)
step_calls modulus limit spurious counter (suc i) (c ∷ cs) =
    let (counter', cs') = step_calls modulus limit spurious counter i cs in (counter', c ∷ cs')

-- A schedule says which thread moves next, and whether its exchange fails spuriously.
unfoldable pub run : ℕ → ℕ → List (ℕ × Bool) → Shared → Shared
run modulus limit [] s = s
run modulus limit ((i, spurious) ∷ rest) s =
    let (counter', calls') = step_calls modulus limit spurious s.counter i s.calls in
    run modulus limit rest (record { counter = counter'; calls = calls' })

-- The amount that a call has been granted.
abbrev granted : ℕ → Phase → ℕ
granted amount (returned (ok _)) = amount
granted amount _ = 0

abbrev pub granted_total : List Call → ℕ
granted_total [] = 0
granted_total (c ∷ cs) = granted c.amount c.phase + granted_total cs

reserve_step-granted :
    (modulus limit amount : ℕ) (spurious : Bool) (counter : ℕ) (p : Phase)
    → counter ≤ limit
    → ((reserve_step modulus limit amount spurious counter p).0 + granted amount p
        ≡ counter + granted amount (reserve_step modulus limit amount spurious counter p).1)
      × ((reserve_step modulus limit amount spurious counter p).0 ≤ limit)
unfolding reserve_step checked_add
reserve_step-granted modulus limit amount spurious counter start h = omega arith
reserve_step-granted modulus limit amount spurious counter (trying current) h = ground arith
reserve_step-granted modulus limit amount spurious counter (returned r) h = omega arith

step_calls-granted :
    (modulus limit : ℕ) (spurious : Bool) (counter i : ℕ) (cs : List Call)
    → counter ≤ limit
    → ((step_calls modulus limit spurious counter i cs).0 + granted_total cs
        ≡ counter + granted_total (step_calls modulus limit spurious counter i cs).1)
      × ((step_calls modulus limit spurious counter i cs).0 ≤ limit)
unfolding step_calls
step_calls-granted modulus limit spurious counter i [] h = omega arith
step_calls-granted modulus limit spurious counter zero (c ∷ cs) h =
    omega (arith, reserve_step-granted modulus limit c.amount spurious counter c.phase h)
step_calls-granted modulus limit spurious counter (suc i) (c ∷ cs) h =
    omega (arith, step_calls-granted modulus limit spurious counter i cs h)

-- Whatever the schedule of the atomic steps of several reservations, spurious failures of the
-- exchange included, a counter within its limit moves by exactly what the calls that returned success
-- have been granted since, and does not pass the limit.
pub run-granted :
    (modulus limit : ℕ) (schedule : List (ℕ × Bool)) (s : Shared)
    → s.counter ≤ limit
    → ((run modulus limit schedule s).counter + granted_total s.calls
        ≡ s.counter + granted_total (run modulus limit schedule s).calls)
      × ((run modulus limit schedule s).counter ≤ limit)
unfolding run
run-granted modulus limit [] s h = omega arith
run-granted modulus limit ((i, spurious) ∷ rest) s h =
    let (c', cs') = step_calls modulus limit spurious s.counter i s.calls in
    let kept = step_calls-granted modulus limit spurious s.counter i s.calls h in
    let later =
      run-granted modulus limit rest (record { counter = c'; calls = cs' }) (omega (arith, kept)) in
    (omega (arith, kept, later), omega (arith, later))

-- What a call may rely on: a value that it has loaded is not above the counter, and if it was
-- refused then the counter and its amount pass the limit.
abbrev pub Sound : ℕ → ℕ → ℕ → Phase → Type 0
Sound limit counter amount start = Unit
Sound limit counter amount (trying current) = current ≤ counter
Sound limit counter amount (returned (ok _)) = Unit
Sound limit counter amount (returned (err _)) = limit < counter + amount

abbrev pub AllSound : ℕ → ℕ → List Call → Type 0
AllSound limit counter [] = Unit
AllSound limit counter (c ∷ cs) = Sound limit counter c.amount c.phase × AllSound limit counter cs

Sound-mono :
    (limit counter counter' amount : ℕ) (p : Phase)
    → counter ≤ counter'
    → Sound limit counter amount p
    → Sound limit counter' amount p
Sound-mono limit counter counter' amount start h s = s
Sound-mono limit counter counter' amount (trying current) h s = omega arith
Sound-mono limit counter counter' amount (returned (ok r)) h s = s
Sound-mono limit counter counter' amount (returned (err r)) h s = omega arith

AllSound-mono :
    (limit counter counter' : ℕ) (cs : List Call)
    → counter ≤ counter'
    → AllSound limit counter cs
    → AllSound limit counter' cs
AllSound-mono limit counter counter' [] h s = s
AllSound-mono limit counter counter' (c ∷ cs) h s = (
  Sound-mono limit counter counter' c.amount c.phase h s.0,
  AllSound-mono limit counter counter' cs h s.1,
)

-- The counter of a step, and the phase that it leaves.
reserve_step-Sound :
    (modulus limit amount : ℕ) (spurious : Bool) (counter : ℕ) (p : Phase)
    → limit < modulus
    → Sound limit counter amount p
    → (counter ≤ (reserve_step modulus limit amount spurious counter p).0)
      × Sound limit
          (reserve_step modulus limit amount spurious counter p).0
          amount
          (reserve_step modulus limit amount spurious counter p).1
unfolding reserve_step checked_add
reserve_step-Sound modulus limit amount spurious counter start m s = omega arith
reserve_step-Sound modulus limit amount spurious counter (trying current) m s = ground arith
reserve_step-Sound modulus limit amount spurious counter (returned r) m s = (omega arith, s)

step_calls-Sound :
    (modulus limit : ℕ) (spurious : Bool) (counter i : ℕ) (cs : List Call)
    → limit < modulus
    → AllSound limit counter cs
    → (counter ≤ (step_calls modulus limit spurious counter i cs).0)
      × AllSound limit
          (step_calls modulus limit spurious counter i cs).0
          (step_calls modulus limit spurious counter i cs).1
unfolding step_calls
step_calls-Sound modulus limit spurious counter i [] m s = (omega arith, tt)
step_calls-Sound modulus limit spurious counter zero (c ∷ cs) m s =
    let (le, here) = reserve_step-Sound modulus limit c.amount spurious counter c.phase m s.0 in
    (le, (here, AllSound-mono limit counter _ cs le s.1))
step_calls-Sound modulus limit spurious counter (suc i) (c ∷ cs) m s =
    let (le, there) = step_calls-Sound modulus limit spurious counter i cs m s.1 in
    (le, (Sound-mono limit counter _ c.amount c.phase le s.0, there))

-- Whatever the schedule, for a limit that is a machine word, no call is refused while its amount
-- still fits: when it holds at the start, then at the end the counter and the amount of every refused
-- call pass the limit.
pub run-Sound :
    (modulus limit : ℕ) (schedule : List (ℕ × Bool)) (s : Shared)
    → limit < modulus
    → AllSound limit s.counter s.calls
    → AllSound limit (run modulus limit schedule s).counter (run modulus limit schedule s).calls
unfolding run
run-Sound modulus limit [] s m h = h
run-Sound modulus limit ((i, spurious) ∷ rest) s m h =
    let (c', cs') = step_calls modulus limit spurious s.counter i s.calls in
    run-Sound modulus limit rest (record { counter = c'; calls = cs' }) m
      (step_calls-Sound modulus limit spurious s.counter i s.calls m h).1
