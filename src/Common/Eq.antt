-- ===== src/Common/Eq.antt =====
-- Decidable equality as an interface, with its instances at numbers and byte strings.
use Prim.Native.Nat.{ℕ}
use mathlib.Core.Path.{◌≡◌, refl}
use mathlib.Core.Logic.{◌↔◌}
use mathlib.Core.Bool.{Bool, true, false, ◌&&◌}
use mathlib.Core.List.{List, [], ◌∷◌}
use native.Mathlib.Omega.{arith}
use ash.Common.Tests.{◌==◌, ==_iff}

pub record Eq {α} (K : Type α) : Type α where
  pub test : K → K → Bool
  pub agrees : (j k : K) → (test j k ≡ true) ↔ (j ≡ k)

abbrev pub nat_beq : ℕ → ℕ → Bool
nat_beq a b = a == b

-- `==` on byte arrays, vectors and strings.
abbrev pub bytes_eq : List ℕ → List ℕ → Bool
bytes_eq [] [] = true
bytes_eq (x ∷ xs) (y ∷ ys) = x == y && bytes_eq xs ys
bytes_eq _ _ = false

pub bytes_eq_sound : (xs ys : List ℕ) → bytes_eq xs ys ≡ true → xs ≡ ys
bytes_eq_sound [] [] h = refl
bytes_eq_sound [] (y ∷ ys) h = cc
bytes_eq_sound (x ∷ xs) [] h = cc
bytes_eq_sound (x ∷ xs) (y ∷ ys) h = ground (arith, bytes_eq_sound xs ys)

pub bytes_eq_refl : (xs : List ℕ) → bytes_eq xs xs ≡ true
bytes_eq_refl [] = refl
bytes_eq_refl (x ∷ xs) = ground (arith, bytes_eq_refl xs)

pub bytes_eq_iff : (xs ys : List ℕ) → (bytes_eq xs ys ≡ true) ↔ (xs ≡ ys)
bytes_eq_iff xs ys = (bytes_eq_sound xs ys, λ e. subst_refl e)
  where
    subst_refl : xs ≡ ys → bytes_eq xs ys ≡ true
    subst_refl e = rw e (bytes_eq_refl ys)

instance abbrev pub ℕ_keys : Eq ℕ
ℕ_keys = record { test = nat_beq; agrees = ==_iff }

instance abbrev pub bytes_keys : Eq (List ℕ)
bytes_keys = record { test = bytes_eq; agrees = bytes_eq_iff }
