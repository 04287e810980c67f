-- ===== src/Common/Bytes.antt =====
-- Byte arrays: their well-formedness, big-endian integers, slices, and masks on one byte.
use Prim.Native.Nat.{ℕ, zero, suc, ◌+◌, ◌*◌, ◌/◌, ◌%◌, ◌^◌, ◌<◌, bit_and}
use mathlib.Core.Path.{◌≡◌, refl, ap}
use mathlib.Core.Bool.{Bool, true, ◌&&◌}
use mathlib.Core.List.{List, [], ◌∷◌, ◌++◌, foldl, foldl-append}
use native.Mathlib.Omega.{arith}
use native.Mathlib.Nat.{pow-suc}
use ash.Common.Tests.{◌==◌}
use ash.Common.Lists.{length, length-append, take, drop, take-append, All}

abbrev pub IsByte : ℕ → Type 0
IsByte b = b < 256

abbrev pub IsU64 : ℕ → Type 0
IsU64 v = v < 2 ^ 64

-- A `[u8; n]`.
abbrev pub IsArray : ℕ → List ℕ → Type 0
IsArray n xs = (length xs ≡ n) × All IsByte xs

-- `bytes[start..start + n]`
abbrev pub slice {ℓ} : {A : Type ℓ} → ℕ → ℕ → List A → List A
slice start n xs = take n (drop start xs)

-- The `n` low bytes of a number, the most significant first (`to_be_bytes`).
unfoldable pub to_be_bytes : ℕ → ℕ → List ℕ
to_be_bytes zero v = []
to_be_bytes (suc n) v = to_be_bytes n (v / 256) ++ (v % 256 ∷ [])

unfoldable pub from_be_bytes : List ℕ → ℕ
from_be_bytes = foldl (λ acc b. acc * 256 + b) 0

pub length-to_be_bytes : (n v : ℕ) → length (to_be_bytes n v) ≡ n
unfolding to_be_bytes
length-to_be_bytes zero v = refl
length-to_be_bytes (suc n) v =
    omega (
      arith,
      length-append (to_be_bytes n (v / 256)) (v % 256 ∷ []),
      length-to_be_bytes n (v / 256),
    )

-- Reading the `n` bytes back gives a number below 256 ^ n again.
pub from_be_bytes-to_be_bytes : (n v : ℕ) → v < 256 ^ n → from_be_bytes (to_be_bytes n v) ≡ v
unfolding to_be_bytes from_be_bytes
from_be_bytes-to_be_bytes zero v h = omega arith
from_be_bytes-to_be_bytes (suc n) v h =
    rw foldl-append (omega (arith, from_be_bytes-to_be_bytes n (v / 256) (high_part n v h)))
  where
    high_part : (m w : ℕ) → w < 256 ^ suc m → w / 256 < 256 ^ m
    high_part m w k = omega (arith, pow-suc 256 m)

module _ {ℓ} {A : Type ℓ} where
  -- A slice behind a block is a slice of what follows the block.
  pub slice-skip :
      (k m n : ℕ) (x rest : List A) → length x ≡ k → slice (k + m) n (x ++ rest) ≡ slice m n rest
  slice-skip zero m n [] rest h = ap (λ (i : ℕ). slice i n rest) (omega arith)
  slice-skip zero m n (x ∷ xs) rest h = absurd (omega arith)
  slice-skip (suc k) m n [] rest h = absurd (omega arith)
  slice-skip (suc k) m n (x ∷ xs) rest h =
      let e : suc k + m ≡ suc (k + m) = omega arith in rw e (slice-skip k m n xs rest (omega arith))

  pub slice-here : (n : ℕ) (x rest : List A) → length x ≡ n → slice 0 n (x ++ rest) ≡ x
  slice-here n x rest h = take-append n x rest h

-- Two functions that agree on a table of `n` entries, checked by evaluation.
module _ (f g : ℕ → ℕ) where
  unfoldable pub agree_below : ℕ → Bool
  agree_below zero = true
  agree_below (suc n) = f n == g n && agree_below n

  pub agree_below→eq : (n : ℕ) → agree_below n ≡ true → (i : ℕ) → i < n → f i ≡ g i
  unfolding agree_below
  agree_below→eq zero e i h = absurd (omega arith)
  agree_below→eq (suc n) e i h = ground (arith, agree_below→eq n (ground arith) i)

pub low_nibble : (b : ℕ) → b < 256 → bit_and b 0x0f ≡ b % 16
unfolding agree_below
low_nibble = agree_below→eq _ _ 256 refl
