-- ===== src/Engine/Dag/Members.antt =====
-- Membership, distinctness and counting in lists of indexes.
use ash.Common.{
  ℕ, zero, suc, ◌<◌, ◌≤◌, ◌≡◌, refl, Bool, true, false, not, ◌&&◌, ◌||◌, List, [], ◌∷◌, ◌++◌, ◌==◌,
  ltb, if◌then◌else◌, length, arith, Bool-cases, inl, inr,
}

unfoldable pub mem : ℕ → List ℕ → Bool
mem a [] = false
mem a (b ∷ bs) = a == b || mem a bs

unfoldable pub is_distinct : List ℕ → Bool
unfolding mem
is_distinct [] = true
is_distinct (a ∷ rest) = not (mem a rest) && is_distinct rest

-- Every element is below a bound.
unfoldable pub is_below : ℕ → List ℕ → Bool
is_below n [] = true
is_below n (a ∷ rest) = ltb a n && is_below n rest

-- How many elements of the second list are in the first.
unfoldable pub count_in : List ℕ → List ℕ → ℕ
unfolding mem
count_in seen [] = 0
count_in seen (a ∷ rest) = if mem a seen then suc (count_in seen rest) else count_in seen rest

pub mem-append : (a : ℕ) (xs ys : List ℕ) → mem a (xs ++ ys) ≡ (mem a xs || mem a ys)
unfolding mem
mem-append a [] ys = refl
mem-append a (x ∷ xs) ys = ground (arith, mem-append a xs ys)

-- A new element at the end.
pub is_distinct-append_one :
    (a : ℕ) (xs : List ℕ)
    → is_distinct xs ≡ true
    → mem a xs ≡ false
    → is_distinct (xs ++ a ∷ []) ≡ true
unfolding is_distinct mem
is_distinct-append_one a [] d m = refl
is_distinct-append_one a (x ∷ xs) d m =
    ground (arith, is_distinct-append_one a xs, mem-append x xs (a ∷ []))

pub is_below-mem : (n a : ℕ) (xs : List ℕ) → is_below n xs ≡ true → mem a xs ≡ true → a < n
unfolding is_below mem
is_below-mem n a [] b m = cc
is_below-mem n a (x ∷ xs) b m = ground (arith, is_below-mem n a xs)

pub count_in-≤ : (seen xs : List ℕ) → count_in seen xs ≤ length xs
unfolding count_in
count_in-≤ seen [] = omega arith
count_in-≤ seen (x ∷ xs) = ground (arith, count_in-≤ seen xs)

-- A list of which all elements are seen, from the count and to it.
pub count_in_all :
    (seen xs : List ℕ)
    → count_in seen xs ≡ length xs
    → (a : ℕ) → mem a xs ≡ true
    → mem a seen ≡ true
unfolding count_in mem
count_in_all seen [] e a m = cc
count_in_all seen (x ∷ xs) e a m =
    let head : mem x seen ≡ true = ground (arith, count_in-≤ seen xs) in
    let tail : count_in seen xs ≡ length xs = ground (arith, count_in-≤ seen xs) in
    elim (Bool-cases (a == x)) [
      | inl same ↦ let e' : a ≡ x = ground arith in rw e' head
      | inr other ↦ count_in_all seen xs tail a (ground arith)
    ]

pub count_in_covers :
    (seen xs : List ℕ)
    → ((a : ℕ) → mem a xs ≡ true → mem a seen ≡ true)
    → count_in seen xs ≡ length xs
unfolding count_in mem
count_in_covers seen [] h = refl
count_in_covers seen (x ∷ xs) h =
    let first : mem x seen ≡ true = h x (ground arith) in
    let rest = count_in_covers seen xs (λ a m. h a (ground arith)) in ground arith

pub count_in_none : (xs : List ℕ) → count_in [] xs ≡ 0
unfolding count_in mem
count_in_none [] = refl
count_in_none (x ∷ xs) = count_in_none xs

-- One more index that is seen.
pub count_in-cons :
    (a : ℕ) (seen xs : List ℕ)
    → is_distinct xs ≡ true
    → mem a seen ≡ false
    → count_in (a ∷ seen) xs ≡ (if mem a xs then suc (count_in seen xs) else count_in seen xs)
unfolding count_in mem is_distinct
count_in-cons a seen [] d m = refl
count_in-cons a seen (x ∷ xs) d m = ground (arith, count_in-cons a seen xs)

-- The list without one element.
unfoldable pub without : ℕ → List ℕ → List ℕ
without a [] = []
without a (b ∷ bs) = if a == b then bs else b ∷ without a bs

length-without : (a : ℕ) (xs : List ℕ) → mem a xs ≡ true → length xs ≡ suc (length (without a xs))
unfolding without mem
length-without a [] m = cc
length-without a (x ∷ xs) m = ground (arith, length-without a xs)

mem-without :
    (a b : ℕ) (xs : List ℕ) → mem b xs ≡ true → (b == a) ≡ false → mem b (without a xs) ≡ true
unfolding without mem
mem-without a b [] m e = cc
mem-without a b (x ∷ xs) m e = ground (arith, mem-without a b xs)

mem-without_back : (a b : ℕ) (xs : List ℕ) → mem b xs ≡ false → mem b (without a xs) ≡ false
unfolding without mem
mem-without_back a b [] m = refl
mem-without_back a b (x ∷ xs) m = ground (arith, mem-without_back a b xs)

is_distinct-without :
    (a : ℕ) (xs : List ℕ) → is_distinct xs ≡ true → is_distinct (without a xs) ≡ true
unfolding without mem is_distinct
is_distinct-without a [] d = refl
is_distinct-without a (x ∷ xs) d = ground (arith, is_distinct-without a xs, mem-without_back a x xs)

is_below_pred :
    (n : ℕ) (xs : List ℕ) → is_below (suc n) xs ≡ true → mem n xs ≡ false → is_below n xs ≡ true
unfolding mem is_below
is_below_pred n [] b m = refl
is_below_pred n (x ∷ xs) b m = ground (arith, is_below_pred n xs)

mem-without_self : (a : ℕ) (xs : List ℕ) → is_distinct xs ≡ true → mem a (without a xs) ≡ false
unfolding without mem is_distinct
mem-without_self a [] d = refl
mem-without_self a (x ∷ xs) d = ground (arith, mem-without_self a xs)

is_below-without_any :
    (n a : ℕ) (xs : List ℕ) → is_below n xs ≡ true → is_below n (without a xs) ≡ true
unfolding without is_below
is_below-without_any n a [] b = refl
is_below-without_any n a (x ∷ xs) b = ground (arith, is_below-without_any n a xs)

-- Distinct indexes below a bound are no more than the bound, and as many if all are there.
pub is_distinct-length :
    (n : ℕ) (xs : List ℕ) → is_distinct xs ≡ true → is_below n xs ≡ true → length xs ≤ n
unfolding is_below
is_distinct-length zero [] d b = omega arith
is_distinct-length zero (x ∷ xs) d b = absurd (ground arith)
is_distinct-length (suc n) xs d b = elim (Bool-cases (mem n xs)) [
  | inl m ↦
      let shorter = length-without n xs m in
      let rest = is_distinct-length n (without n xs) (is_distinct-without n xs d) (
        is_below_pred n (without n xs) (is_below-without_any (suc n) n xs b)
          (mem-without_self n xs d)) in
      omega arith
  | inr m ↦ let rest = is_distinct-length n xs d (is_below_pred n xs b m) in omega arith
]

pub covers-length : (n : ℕ) (xs : List ℕ) → ((a : ℕ) → a < n → mem a xs ≡ true) → n ≤ length xs
covers-length zero xs h = omega arith
covers-length (suc n) xs h =
    let shorter = length-without n xs (h n (omega arith)) in
    let rest =
      covers-length n (without n xs)
        (λ a l. mem-without n a xs (h a (omega arith)) (ground arith)) in
    omega arith

-- Distinct indexes below a bound, as many as the bound, are all of them.
pub is_distinct-covers :
    (n : ℕ) (xs : List ℕ)
    → is_distinct xs ≡ true
    → is_below n xs ≡ true
    → length xs ≡ n
    → (a : ℕ) → a < n
    → mem a xs ≡ true
unfolding is_distinct is_below
is_distinct-covers n xs d b e a l = elim (Bool-cases (mem a xs)) [
  | inl m ↦ m
  | inr m ↦
      let more = is_distinct-length n (a ∷ xs) (ground arith) (ground arith) in absurd (omega arith)
]
