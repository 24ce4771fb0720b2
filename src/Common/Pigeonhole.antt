-- ===== src/Common/Pigeonhole.antt =====
-- Counting: a list without repetition of numbers below `n` has `n` items exactly when it holds them
-- all.
use Prim.Native.Nat.{ℕ, zero, suc, ◌≤◌, ◌<◌}
use mathlib.Core.Path.{◌≡◌}
use mathlib.Core.Logic.{inl, inr}
use mathlib.Core.Bool.{true, false, not, ◌&&◌}
use mathlib.Core.List.{List, [], ◌∷◌}
use native.Mathlib.Omega.{arith}
use rusty_gasket.Common.Tests.{◌==◌, Bool-cases}
use rusty_gasket.Common.Lists.{length, keep, mem, Unique}

abbrev without : ℕ → List ℕ → List ℕ
without n = keep (λ k. not (k == n))

mem-without : (n : ℕ) (xs : List ℕ) (j : ℕ) → mem j (without n xs) ≡ (mem j xs && not (j == n))
mem-without n [] j = ground arith
mem-without n (x ∷ xs) j = ground (arith, mem-without n xs j)

Unique-without : (n : ℕ) (xs : List ℕ) → Unique xs → Unique (without n xs)
Unique-without n [] u = tt
Unique-without n (x ∷ xs) u = ground (arith, mem-without n xs x, Unique-without n xs u.1)

length-without_absent : (n : ℕ) (xs : List ℕ) → mem n xs ≡ false → length (without n xs) ≡ length xs
length-without_absent n [] h = ground arith
length-without_absent n (x ∷ xs) h = ground (arith, length-without_absent n xs)

length-without : (n : ℕ) (xs : List ℕ) → Unique xs → length xs ≤ suc (length (without n xs))
length-without n [] u = omega arith
length-without n (x ∷ xs) u = elim (Bool-cases (x == n)) [
  | inl here ↦
      let absent : mem n xs ≡ false = ground (arith, u.0) in
      ground (arith, length-without_absent n xs absent)
  | inr other ↦ ground (arith, length-without n xs u.1)
]

length-without_lt : (n : ℕ) (xs : List ℕ) → mem n xs ≡ true → length (without n xs) < length xs
length-without_lt n [] h = absurd (ground arith)
length-without_lt n (x ∷ xs) h = elim (Bool-cases (mem n xs)) [
  | inl later ↦ ground (arith, length-without_lt n xs later)
  | inr absent ↦ ground (arith, length-without_absent n xs absent)
]

length_bound :
    (n : ℕ) (xs : List ℕ) → Unique xs → ((j : ℕ) → mem j xs ≡ true → j < n) → length xs ≤ n
length_bound zero [] u b = omega arith
length_bound zero (x ∷ xs) u b = absurd (ground (arith, b x))
length_bound (suc n) xs u b = omega (
  arith,
  length-without n xs u,
  length_bound n (without n xs) (Unique-without n xs u)
      (λ j m. ground (arith, mem-without n xs j, b j)),
)

pub mem_of_full :
    (n : ℕ) (xs : List ℕ)
    → Unique xs
    → ((j : ℕ) → mem j xs ≡ true → j < n)
    → length xs ≡ n
    → (j : ℕ) → j < n
    → mem j xs ≡ true
mem_of_full n xs u b full j h = elim (Bool-cases (mem j xs)) [
  | inl there ↦ there
  | inr absent ↦ absurd (
      omega (
        arith,
        length_bound n (j ∷ xs) (absent, u)
            (λ k m. elim (Bool-cases (k == j)) [
              | inl same ↦ ground arith
              | inr other ↦ b k (ground arith)
            ]),
      ))
]

pub full_of_mem : (n : ℕ) (xs : List ℕ) → ((j : ℕ) → j < n → mem j xs ≡ true) → n ≤ length xs
full_of_mem zero xs h = omega arith
full_of_mem (suc n) xs h = omega (
  arith,
  length-without_lt n xs (h n (omega arith)),
  full_of_mem n (without n xs) (λ j b. ground (arith, mem-without n xs j, h j (omega arith))),
)

pub full_of_Unique :
    (n : ℕ) (xs : List ℕ)
    → Unique xs
    → ((j : ℕ) → mem j xs ≡ true → j < n)
    → ((j : ℕ) → j < n → mem j xs ≡ true)
    → length xs ≡ n
full_of_Unique n xs u b h = omega (arith, length_bound n xs u b, full_of_mem n xs h)
