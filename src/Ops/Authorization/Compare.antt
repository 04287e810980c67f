-- ===== src/Ops/Authorization/Compare.antt =====
-- crates/ash-ops/src/authorization.rs: the comparison without early exit.
use Prim.Native.Nat.{bit_or, bit_xor}
use ash.Common.{ℕ, ◌≡◌, refl, ◌↔◌, true, List, [], ◌∷◌, length, arith}
use ash.Common.Bits.{bit_xor_zero, bit_xor_self, bit_or_zero}
use ash.Ops.Authorization.Permits.{differences, constant_time_eq}

-- Nothing is lost from the accumulator.
differences_zero :
    (d : ℕ) (xs ys : List ℕ) → length xs ≡ length ys → differences d xs ys ≡ 0 → (d ≡ 0) × (xs ≡ ys)
unfolding differences
differences_zero d [] [] l h = (h, refl)
differences_zero d [] (y ∷ ys) l h = absurd (omega arith)
differences_zero d (x ∷ xs) [] l h = absurd (omega arith)
differences_zero d (x ∷ xs) (y ∷ ys) l h =
    let (e, rest) = differences_zero (bit_or d (bit_xor x y)) xs ys (omega arith) h in
    let (d0, xy) = bit_or_zero d (bit_xor x y) e in
    (d0, let head : x ≡ y = bit_xor_zero x y xy in cc)

differences_self : (xs : List ℕ) → differences 0 xs xs ≡ 0
unfolding differences
differences_self [] = refl
differences_self (x ∷ xs) = rw (bit_xor_self x) (differences_self xs)

-- The comparison that looks at every byte agrees with equality of byte strings.
pub constant_time_eq_iff : (xs ys : List ℕ) → (constant_time_eq xs ys ≡ true) ↔ (xs ≡ ys)
unfolding constant_time_eq
constant_time_eq_iff xs ys = (forward, λ e. rw e (rw (differences_self ys) (ground arith)))
  where
    forward : constant_time_eq xs ys ≡ true → xs ≡ ys
    forward h = (differences_zero 0 xs ys (ground arith) (ground arith)).1
