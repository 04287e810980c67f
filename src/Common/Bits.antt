-- ===== src/Common/Bits.antt =====
-- Bitwise or and exclusive or, where their result is zero.
use Prim.Native.Nat.{
  ℕ, zero, suc, ◌/◌, ◌%◌, ◌≤◌, max, differ, digits, bit_or, bit_xor, bit_or-bitwise,
  bit_xor-bitwise,
}
use mathlib.Core.Path.{◌≡◌, refl, sym, ◌∙◌}
use native.Mathlib.Omega.{arith}

differ_zero : (x y : ℕ) → differ x y ≡ 0 → x ≡ y
differ_zero zero y h = omega arith
differ_zero (suc x) zero h = omega arith
differ_zero (suc x) (suc y) h = omega (arith, differ_zero x y h)

differ_self : (x : ℕ) → differ x x ≡ 0
differ_self zero = refl
differ_self (suc x) = differ_self x

digits-differ_zero : (n a b : ℕ) → a ≤ n → digits (λ b. b) differ n a b ≡ 0 → a ≡ b
digits-differ_zero zero a b l h = omega arith
digits-differ_zero (suc n) zero b l h = omega arith
digits-differ_zero (suc n) (suc a) b l h = omega (
  arith,
  differ_zero (suc a % 2) (b % 2) (omega arith),
  digits-differ_zero n (suc a / 2) (b / 2) (omega arith) (omega arith),
)

digits-differ_self : (n a : ℕ) → a ≤ n → digits (λ b. b) differ n a a ≡ 0
digits-differ_self zero a l = omega arith
digits-differ_self (suc n) zero l = refl
digits-differ_self (suc n) (suc a) l =
    omega (arith, differ_self (suc a % 2), digits-differ_self n (suc a / 2) (omega arith))

digits-max_zero : (n a b : ℕ) → a ≤ n → digits (λ b. b) max n a b ≡ 0 → (a ≡ 0) × (b ≡ 0)
digits-max_zero zero a b l h = omega arith
digits-max_zero (suc n) zero b l h = omega arith
digits-max_zero (suc n) (suc a) b l h =
    omega (arith, digits-max_zero n (suc a / 2) (b / 2) (omega arith) (omega arith))

pub bit_xor_zero : (a b : ℕ) → bit_xor a b ≡ 0 → a ≡ b
bit_xor_zero a b h = digits-differ_zero a a b (omega arith) (sym (bit_xor-bitwise a b) ∙ h)

pub bit_xor_self : (a : ℕ) → bit_xor a a ≡ 0
bit_xor_self a = bit_xor-bitwise a a ∙ digits-differ_self a a (omega arith)

pub bit_or_zero : (a b : ℕ) → bit_or a b ≡ 0 → (a ≡ 0) × (b ≡ 0)
bit_or_zero a b h = digits-max_zero a a b (omega arith) (sym (bit_or-bitwise a b) ∙ h)
