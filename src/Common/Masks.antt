-- ===== src/Common/Masks.antt =====
-- Masks of bits: the laws of bitwise and, and masks that are within others.
use Prim.Native.Nat.{ℕ, zero, suc, ◌+◌, ◌*◌, ◌/◌, ◌%◌, ◌≤◌, min, digits, bit_and, bit_and-bitwise}
use mathlib.Core.Path.{◌≡◌, refl, sym, ◌∙◌, ap}
use native.Mathlib.Omega.{arith}

abbrev both : ℕ → ℕ → ℕ → ℕ
both n a b = digits (λ b. 0) min n a b

-- Any count of digits that is enough gives the same.
both_enough : (n m a b : ℕ) → a ≤ n → a ≤ m → both n a b ≡ both m a b
both_enough zero zero a b h k = refl
both_enough zero (suc m) zero b h k = refl
both_enough zero (suc m) (suc a) b h k = absurd (omega arith)
both_enough (suc n) zero zero b h k = refl
both_enough (suc n) zero (suc a) b h k = absurd (omega arith)
both_enough (suc n) (suc m) zero b h k = refl
both_enough (suc n) (suc m) (suc a) b h k =
    omega (arith, both_enough n m (suc a / 2) (b / 2) (omega arith) (omega arith))

pub bit_and_zero : (b : ℕ) → bit_and 0 b ≡ 0
bit_and_zero b = bit_and-bitwise 0 b

-- The lowest digit, and the others.
bit_and_step : (a b : ℕ) → bit_and a b ≡ bit_and (a / 2) (b / 2) * 2 + min (a % 2) (b % 2)
bit_and_step zero b = omega (arith, bit_and_zero b, bit_and_zero (b / 2))
bit_and_step (suc a) b = omega (
  arith,
  bit_and-bitwise (suc a) b,
  bit_and-bitwise (suc a / 2) (b / 2),
  both_enough a (suc a / 2) (suc a / 2) (b / 2) (omega arith) (omega arith),
)

and_halves :
    (a b : ℕ)
    → (bit_and a b / 2 ≡ bit_and (a / 2) (b / 2)) × (bit_and a b % 2 ≡ min (a % 2) (b % 2))
and_halves a b = let e = bit_and_step a b in (omega arith, omega arith)

assoc_to : (n a b c : ℕ) → a ≤ n → bit_and (bit_and a b) c ≡ bit_and a (bit_and b c)
assoc_to zero a b c h =
    let z : a ≡ 0 = omega arith in
    rw (z, bit_and_zero b, bit_and_zero c, bit_and_zero (bit_and b c)) refl
assoc_to (suc n) a b c h =
    let (ab, ab') = and_halves a b in
    let (bc, bc') = and_halves b c in
    let rest = assoc_to n (a / 2) (b / 2) (c / 2) (omega arith) in
    let left = rw (ab, ab') at (bit_and_step (bit_and a b) c) in
    let right = rw (bc, bc') at (bit_and_step a (bit_and b c)) in omega arith

pub bit_and_assoc : (a b c : ℕ) → bit_and (bit_and a b) c ≡ bit_and a (bit_and b c)
bit_and_assoc a b c = assoc_to a a b c (omega arith)

comm_to : (n a b : ℕ) → a ≤ n → b ≤ n → bit_and a b ≡ bit_and b a
comm_to zero a b h k =
    let z : a ≡ 0 = omega arith in let z' : b ≡ 0 = omega arith in rw (z, z') refl
comm_to (suc n) a b h k = omega (
  arith,
  bit_and_step a b,
  bit_and_step b a,
  comm_to n (a / 2) (b / 2) (omega arith) (omega arith),
)

pub bit_and_comm : (a b : ℕ) → bit_and a b ≡ bit_and b a
bit_and_comm a b = comm_to (a + b) a b (omega arith) (omega arith)

self_to : (n a : ℕ) → a ≤ n → bit_and a a ≡ a
self_to zero a h = let z : a ≡ 0 = omega arith in rw z (bit_and_zero 0)
self_to (suc n) a h = omega (arith, bit_and_step a a, self_to n (a / 2) (omega arith))

pub bit_and_self : (a : ℕ) → bit_and a a ≡ a
bit_and_self a = self_to a a (omega arith)

-- Every bit of the first mask is in the second.
abbrev pub IsWithin : ℕ → ℕ → Type 0
IsWithin a b = bit_and a b ≡ a

pub bit_and-IsWithin_right : (a b : ℕ) → IsWithin (bit_and a b) b
bit_and-IsWithin_right a b = bit_and_assoc a b b ∙ ap (bit_and a) (bit_and_self b)

pub bit_and-IsWithin_left : (a b : ℕ) → IsWithin (bit_and a b) a
bit_and-IsWithin_left a b = rw (bit_and_comm a b) (bit_and-IsWithin_right b a)

pub IsWithin-trans : (a b c : ℕ) → IsWithin a b → IsWithin b c → IsWithin a c
IsWithin-trans a b c h k =
    ap (λ x. bit_and x c) (sym h) ∙ bit_and_assoc a b c ∙ ap (bit_and a) k ∙ h

-- What is within a mask has no bit outside of it.
pub IsWithin-outside : (a m k : ℕ) → IsWithin a m → bit_and m k ≡ 0 → bit_and a k ≡ 0
IsWithin-outside a m k h z =
    ap (λ x. bit_and x k) (sym h)
    ∙ bit_and_assoc a m k
    ∙ ap (bit_and a) z
    ∙ bit_and_comm a 0
    ∙ bit_and_zero a
