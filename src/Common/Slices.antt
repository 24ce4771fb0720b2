-- ===== src/Common/Slices.antt =====
-- What `take` and `keep` leave of a list, and what holds of all its items.
use Prim.Native.Nat.{ℕ, zero, suc, ◌≤◌, min}
use mathlib.Core.Path.{◌≡◌, refl, sym, ap, ◌∙◌}
use mathlib.Core.Logic.{◌↔◌, inl, inr}
use mathlib.Core.Bool.{Bool, true, false}
use mathlib.Core.List.{List, [], ◌∷◌, ◌++◌}
use native.Mathlib.Omega.{arith}
use rusty_gasket.Common.Tests.{Bool-cases}
use rusty_gasket.Common.Lists.{length, take, keep, All, In}

module _ {A : Type 0} where
  pub length-take : (n : ℕ) (xs : List A) → length (take n xs) ≡ min n (length xs)
  length-take zero xs = omega arith
  length-take (suc n) [] = omega arith
  length-take (suc n) (x ∷ xs) = omega (arith, length-take n xs)

  pub In-take : (a : A) (n : ℕ) (xs : List A) → In a (take n xs) → In a xs
  In-take a zero xs m = absurd m
  In-take a (suc n) [] m = absurd m
  In-take a (suc n) (x ∷ xs) (inl here) = inl here
  In-take a (suc n) (x ∷ xs) (inr m) = inr (In-take a n xs m)

  pub take_whole : (n : ℕ) (xs : List A) → length xs ≤ n → take n xs ≡ xs
  take_whole zero [] h = refl
  take_whole zero (x ∷ xs) h = absurd (omega (arith, h))
  take_whole (suc n) [] h = refl
  take_whole (suc n) (x ∷ xs) h = ap (◌∷◌ x) (take_whole n xs (omega (arith, h)))

  pub All-weaken : (P Q : A → Type 0) (xs : List A) → ((x : A) → P x → Q x) → All P xs → All Q xs
  All-weaken P Q [] w h = tt
  All-weaken P Q (x ∷ xs) w h = (w x h.0, All-weaken P Q xs w h.1)

  pub keep-append : (p : A → Bool) (xs ys : List A) → keep p (xs ++ ys) ≡ keep p xs ++ keep p ys
  keep-append p [] ys = refl
  keep-append p (x ∷ xs) ys = elim (Bool-cases (p x)) [
    | inl kept ↦ rw kept (ap (◌∷◌ x) (keep-append p xs ys))
    | inr dropped ↦ rw dropped (keep-append p xs ys)
  ]

  pub keep_none : (p : A → Bool) (xs : List A) → All (λ x. p x ≡ false) xs → keep p xs ≡ []
  keep_none p [] h = refl
  keep_none p (x ∷ xs) h = rw (h.0) (keep_none p xs h.1)

  pub keep_whole : (p : A → Bool) (xs : List A) → All (λ x. p x ≡ true) xs → keep p xs ≡ xs
  keep_whole p [] h = refl
  keep_whole p (x ∷ xs) h = rw (h.0) (ap (◌∷◌ x) (keep_whole p xs h.1))

  pub In-keep : (p : A → Bool) (a : A) (xs : List A) → In a (keep p xs) ↔ (In a xs × (p a ≡ true))
  In-keep p a [] = (λ h. absurd h, λ h. h.0)
  In-keep p a (x ∷ xs) = elim (Bool-cases (p x)) [
    | inl kept ↦ rw kept (
      λ h. elim h [
        | inl here ↦ (inl here, ap p here ∙ kept)
        | inr m ↦ let (there, passes) = (In-keep p a xs).0 m in (inr there, passes)
      ],
      λ h. elim h.0 [ inl here ↦ inl here | inr m ↦ inr ((In-keep p a xs).1 (m, h.1)) ],
    )
    | inr dropped ↦ rw dropped (
      λ h. let (there, passes) = (In-keep p a xs).0 h in (inr there, passes),
      λ h. elim h.0 [
        | inl here ↦ let clash = sym h.1 ∙ ap p here ∙ dropped in absurd (ground arith)
        | inr m ↦ (In-keep p a xs).1 (m, h.1)
      ],
    )
  ]
