-- ===== src/Common/Words.antt =====
-- Checked and saturating arithmetic on unsigned machine words. A width is given by its modulus.
use Prim.Native.Nat.{ℕ, ◌+◌, ◌-◌, ◌^◌, ◌<◌}
use mathlib.Core.Path.{◌≡◌}
use mathlib.Core.Option.{Option, none, some}
use native.Mathlib.Omega.{arith}
use ash.Common.Tests.{ltb, if◌then◌else◌}

abbrev pub u32_modulus : ℕ
u32_modulus = 2 ^ 32

abbrev pub u64_modulus : ℕ
u64_modulus = 2 ^ 64

-- `a.checked_add(b)`
unfoldable pub checked_add : ℕ → ℕ → ℕ → Option ℕ
checked_add modulus a b = if ltb (a + b) modulus then some (a + b) else none

-- `a.checked_sub(b)`
unfoldable pub checked_sub : ℕ → ℕ → Option ℕ
checked_sub a b = if ltb a b then none else some (a - b)

-- `a.saturating_add(b)`
unfoldable pub saturating_add : ℕ → ℕ → ℕ → ℕ
saturating_add modulus a b = if ltb (a + b) modulus then a + b else modulus - 1

-- `a.saturating_sub(b)`, which is the subtraction of ℕ.
abbrev pub saturating_sub : ℕ → ℕ → ℕ
saturating_sub a b = a - b

pub checked_add-some :
    (modulus a b c : ℕ) → checked_add modulus a b ≡ some c → (c ≡ a + b) × (a + b < modulus)
unfolding checked_add
checked_add-some modulus a b c h = ground arith

pub checked_sub-some : (a b c : ℕ) → checked_sub a b ≡ some c → (c + b ≡ a)
unfolding checked_sub
checked_sub-some a b c h = ground arith
