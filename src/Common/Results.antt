-- ===== src/Common/Results.antt =====
-- Rust's `Result`; the `?` operator is the bind of a `do` block.
use mathlib.Core.Path.{◌≡◌, refl}
use mathlib.Core.Logic.{◌⊎◌, inl, inr}
use mathlib.Core.Bool.{Bool, true, false}
use mathlib.Core.Option.{Option, none, some}

pub data Result {ε α} (T : Type α) (E : Type ε) : Type (α ⊔ ε) where
  ok : T → Result T E
  err : E → Result T E

-- `ok_or`
abbrev pub ok_or {ε α} : {T : Type α} {E : Type ε} → Option T → E → Result T E
ok_or none e = err e
ok_or (some a) e = ok a

-- `map_err`
abbrev pub map_err {ε φ α} :
    {T : Type α} {E : Type ε} {F : Type φ} → (E → F) → Result T E → Result T F
map_err f (ok a) = ok a
map_err f (err e) = err (f e)

-- `if test { return Err(e) }`
abbrev pub reject_if {ε} : {E : Type ε} → Bool → E → Result (Unit {0}) E
reject_if true e = err e
reject_if false e = ok tt

module _ {ε α β} {T : Type α} {U : Type β} {E : Type ε} where
  infixl 5 ◌>>=◌
  abbrev pub ◌>>=◌ : Result T E → (T → Result U E) → Result U E
  ◌>>=◌ m next = elim m [ err e ↦ err e | ok t ↦ next t ]

  -- What a successful `?` has passed on.
  pub >>=-eq-ok :
      (m : Result T E) (next : T → Result U E) {u : U}
      → (m >>= next) ≡ ok u
      → (t : T) × (m ≡ ok t) × (next t ≡ ok u)
  >>=-eq-ok (err e) next h = cc
  >>=-eq-ok (ok t) next h = (t, refl, h)

  -- What follows a `?` only matters where it is reached.
  pub >>=-cong_ok :
      (m : Result T E) (next next' : T → Result U E)
      → ((t : T) → m ≡ ok t → next t ≡ next' t)
      → (m >>= next) ≡ (m >>= next')
  >>=-cong_ok (err e) next next' h = refl
  >>=-cong_ok (ok t) next next' h = h t refl

infixl 5 ◌>>◌
abbrev pub ◌>>◌ {ε β} : {U : Type β} {E : Type ε} → Result (Unit {0}) E → Result U E → Result U E
◌>>◌ m rest = m >>= (λ _. rest)

-- To split on a computed result and keep the equation.
pub Result-cases {ε α} :
    {T : Type α} {E : Type ε} (m : Result T E) → ((t : T) × (m ≡ ok t)) ⊎ ((e : E) × (m ≡ err e))
Result-cases (ok t) = inl (t, refl)
Result-cases (err e) = inr (e, refl)

-- A guard that was passed, and one that is.
pub reject_if-ok {ε β} :
    {U : Type β} {E : Type ε} (b : Bool) (e : E) (rest : Result U E) {u : U}
    → (reject_if b e >> rest) ≡ ok u
    → (b ≡ false) × (rest ≡ ok u)
reject_if-ok true e rest h = cc
reject_if-ok false e rest h = (refl, h)

pub reject_if-false {ε β} :
    {U : Type β} {E : Type ε} (b : Bool) (e : E) (rest : Result U E) {u : U}
    → b ≡ false
    → rest ≡ ok u
    → (reject_if b e >> rest) ≡ ok u
reject_if-false true e rest h r = cc
reject_if-false false e rest h r = r

pub reject_if-ok_last {ε} : {E : Type ε} (b : Bool) (e : E) → reject_if b e ≡ ok tt → b ≡ false
reject_if-ok_last true e h = cc
reject_if-ok_last false e h = refl

pub reject_if-false_last {ε} : {E : Type ε} (b : Bool) (e : E) → b ≡ false → reject_if b e ≡ ok tt
reject_if-false_last true e h = cc
reject_if-false_last false e h = refl

pub ok_or-ok {ε α} :
    {T : Type α} {E : Type ε} (o : Option T) (e : E) {t : T} → ok_or o e ≡ ok t → o ≡ some t
ok_or-ok none e h = cc
ok_or-ok (some a) e h = cc

pub ok_injective {ε α} :
    {T : Type α} {E : Type ε} {a b : T} → ◌≡◌ {A = Result T E} (ok a) (ok b) → a ≡ b
ok_injective h = cc
