-- ===== src/Examples/Ordering.antt =====
-- Concrete declarations for rusty-gasket/src/plugin/ordering.rs.
use text.Mathlib.Text.{◌==◌ as str_eq}
use text.Mathlib.TextEquality.{eq_iff}
use mathlib.Core.Path.{subst}
use rusty_gasket.Common.{
  ℕ, zero, suc, ◌<◌, ◌≡◌, refl, ◌≢◌, ◌↔◌, ◌⊎◌, inl, inr, true, false, List, [], ◌∷◌, some, arith,
  length, get_elem?, mem, Unique, In, same_of_some,
}
use rusty_gasket.Plugin.Ordering.{
  PluginOrdering, Declared, SortError, ok, err, panicked, topological_sort,
}
use rusty_gasket.Plugin.Ordering.Constraints.{Precedes, by_first, by_last, by_before, by_after}
use rusty_gasket.Plugin.Ordering.Laws.{
  topological_sort_complete, topological_sort-Precedes, one, more,
}
use rusty_gasket.Plugin.Ordering.Completeness.{IsWellDeclared, topological_sort-ranked}
use rusty_gasket.Plugin.Ordering.Panics.{topological_sort-total, topological_sort-cyclic}

abbrev unordered : PluginOrdering
unordered = record { before = []; after = []; first = false; last = false }

abbrev middle : Declared
middle = record { name = "middle"; ordering = unordered }

abbrev last_one : Declared
last_one = record { name = "last"; ordering = record unordered { last = true } }

abbrev first_one : Declared
first_one = record { name = "first"; ordering = record unordered { first = true } }

abbrev three : List Declared
three = middle ∷ last_one ∷ first_one ∷ []

three_sorted : topological_sort three ≡ ok (2 ∷ 0 ∷ 1 ∷ [])
unfolding topological_sort
three_sorted = refl

topological_sort-Precedes_example : mem 2 (2 ∷ 0 ∷ []) ≡ true
topological_sort-Precedes_example =
    topological_sort-Precedes three (2 ∷ 0 ∷ 1 ∷ []) (2 ∷ 0 ∷ []) [] 2 1 three_sorted refl
      (by_first first_one last_one refl refl refl refl)

topological_sort_complete_example :
    Unique (2 ∷ 0 ∷ 1 ∷ [])
    × (length {A = ℕ} (2 ∷ 0 ∷ 1 ∷ []) ≡ length three)
    × ((j : ℕ) → (mem j (2 ∷ 0 ∷ 1 ∷ []) ≡ true) ↔ (j < length three))
topological_sort_complete_example = topological_sort_complete three (2 ∷ 0 ∷ 1 ∷ []) three_sorted

abbrev two : List Declared
two = first_one ∷ middle ∷ []

two_at :
    (i : ℕ) (p : Declared)
    → get_elem? two i ≡ some p
    → (i ≡ 0) × (first_one ≡ p) ⊎ (i ≡ 1) × (middle ≡ p)
two_at zero p h = inl (refl, ground arith)
two_at (suc zero) p h = inr (refl, ground arith)
two_at (suc (suc i)) p h = absurd (ground arith)

two_quiet :
    (i : ℕ) (p : Declared)
    → get_elem? two i ≡ some p
    → (p.ordering.before ≡ []) × (p.ordering.after ≡ []) × (p.ordering.last ≡ false)
two_quiet i p h = elim (two_at i p h) [
  | inl (index, same) ↦ rw (← same) (refl, refl, refl)
  | inr (index, same) ↦ rw (← same) (refl, refl, refl)
]

two_first :
    (i : ℕ) (p : Declared)
    → get_elem? two i ≡ some p
    → (i ≡ 0) × (p.ordering.first ≡ true) ⊎ (i ≡ 1) × (p.ordering.first ≡ false)
two_first i p h = elim (two_at i p h) [
  | inl (index, same) ↦ inl (index, rw (← same) refl)
  | inr (index, same) ↦ inr (index, rw (← same) refl)
]

two_named :
    (i : ℕ) (p : Declared)
    → get_elem? two i ≡ some p
    → (i ≡ 0) × (p.name ≡ first_one.name) ⊎ (i ≡ 1) × (p.name ≡ middle.name)
two_named i p h = elim (two_at i p h) [
  | inl (index, same) ↦ inl (index, rw (← same) refl)
  | inr (index, same) ↦ inr (index, rw (← same) refl)
]

other_names : first_one.name ≢ middle.name
other_names h =
    let same : str_eq first_one.name middle.name ≡ true = (eq_iff first_one.name middle.name).1 h in
    ground arith

two-IsWellDeclared : IsWellDeclared two
two-IsWellDeclared = record {
  distinct = λ i j p q at at' named.
      ground (arith, two_named i p at, two_named j q at', named, other_names);
  consistent = λ i p at. ground (arith, two_quiet i p at);
  known = λ i p t at listed.
      let (b, a, l) = two_quiet i p at in
      elim listed [ inl m ↦ absurd (rw b at m) | inr m ↦ absurd (rw a at m) ];
}

two_ranked : (i j : ℕ) → Precedes two i j → i < j
two_ranked i j (by_first p q pa qk on off) = ground (arith, two_first i p pa, two_first j q qk)
two_ranked i j (by_last p q pa qk on off) = absurd (ground (arith, two_quiet j q qk))
two_ranked i j (by_before p q pa qk listed) =
    let (b, a, l) = two_quiet i p pa in absurd (rw b at listed)
two_ranked i j (by_after p q pa qk listed) =
    let (b, a, l) = two_quiet j q qk in absurd (rw a at listed)

topological_sort-ranked_example : (order : List ℕ) × (topological_sort two ≡ ok order)
topological_sort-ranked_example = topological_sort-ranked two (λ i. i) two-IsWellDeclared two_ranked

topological_sort-total_example : topological_sort two ≢ panicked
topological_sort-total_example =
    topological_sort-total two
      (λ i p at. let (b, a, l) = two_quiet i p at in (λ m. rw b at m, λ m. rw a at m))

abbrev ping : Declared
ping = record { name = "ping"; ordering = record unordered { before = "pong" ∷ [] } }

abbrev pong : Declared
pong = record { name = "pong"; ordering = record unordered { before = "ping" ∷ [] } }

no_own_name :
    (j : ℕ) (p : Declared)
    → get_elem? (ping ∷ pong ∷ []) j ≡ some p
    → (¬ In p.name p.ordering.before) × (¬ In p.name p.ordering.after)
no_own_name zero p at =
    let same : ping ≡ p = same_of_some at in
    subst (λ q. (¬ In q.name q.ordering.before) × (¬ In q.name q.ordering.after)) same
      (
        λ m. elim m [
          | inl e ↦ let clash = (eq_iff "ping" "pong").1 e in absurd (ground arith)
          | inr none_left ↦ none_left
        ],
        λ m. m,
      )
no_own_name (suc zero) p at =
    let same : pong ≡ p = same_of_some at in
    subst (λ q. (¬ In q.name q.ordering.before) × (¬ In q.name q.ordering.after)) same
      (
        λ m. elim m [
          | inl e ↦ let clash = (eq_iff "pong" "ping").1 e in absurd (ground arith)
          | inr none_left ↦ none_left
        ],
        λ m. m,
      )
no_own_name (suc (suc j)) p at = absurd (ground arith)

topological_sort-cyclic_example : (e : SortError) × (topological_sort (ping ∷ pong ∷ []) ≡ err e)
topological_sort-cyclic_example = topological_sort-cyclic (ping ∷ pong ∷ []) 0 no_own_name (
    more 1 (by_before ping pong refl refl (inl refl))
      (one (by_before pong ping refl refl (inl refl))))
