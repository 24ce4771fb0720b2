-- ===== src/Plugin/Engine/Sorting.antt =====
-- The plugins that `build` runs are the declared ones, in the order of `topological_sort`.
use mathlib.Core.Option
use rusty_gasket.Common.{
  ℕ, zero, suc, ◌<◌, List, [], ◌∷◌, Option, none, some, ◌≡◌, refl, ◌⊎◌, inl, inr, ap, ◌∙◌,
  Option-cases, arith, true, false, ◌==◌, Bool-cases, length, get_elem?, set, mem, Unique,
}
use rusty_gasket.Plugin.Ordering.{SortError, SortResult, ok, err, panicked, topological_sort}
use rusty_gasket.Plugin.Ordering.Laws.{topological_sort_complete}
use rusty_gasket.Plugin.Engine.{
  Plugin, Event, GasketApp, built, names_of, declared, all_some, duplicate_in,
  missing_dependency_in, take_sorted, run_phases, run_sorted, build,
}
use rusty_gasket.Plugin.Engine.Lifecycle.{RanAll, run_phases-built}

SortResult-cases :
    (s : SortResult (List ℕ))
    → ((order : List ℕ) × (s ≡ ok order)) ⊎ ((e : SortError) × (s ≡ err e)) ⊎ (s ≡ panicked)
SortResult-cases (ok order) = inl (order, refl)
SortResult-cases (err e) = inr (inl (e, refl))
SortResult-cases panicked = inr (inr refl)

module _ {Config Extensions Actions Error : Type 0} where
  -- `sorted` is the plugins at the indices of `order`.
  abbrev pub Picked :
      List (Plugin Config Extensions Actions Error)
      → List ℕ
      → List (Plugin Config Extensions Actions Error)
      → Type 0
  Picked plugins [] [] = Unit
  Picked plugins (i ∷ order) (p ∷ sorted) =
      (get_elem? plugins i ≡ some p) × Picked plugins order sorted
  Picked plugins _ _ = ⊥

  get_elem?-set_other :
      (old : List (Option (Plugin Config Extensions Actions Error))) (i j : ℕ)
      (v : Option (Plugin Config Extensions Actions Error))
      → (j == i) ≡ false
      → get_elem? (set old i v) j ≡ get_elem? old j
  get_elem?-set_other [] i j v h = refl
  get_elem?-set_other (o ∷ old) zero zero v h = absurd (ground arith)
  get_elem?-set_other (o ∷ old) zero (suc j) v h = refl
  get_elem?-set_other (o ∷ old) (suc i) zero v h = refl
  get_elem?-set_other (o ∷ old) (suc i) (suc j) v h = get_elem?-set_other old i j v (ground arith)

  get_elem?-some :
      (plugins : List (Plugin Config Extensions Actions Error)) (i : ℕ)
      → i < length plugins
      → (p : Plugin Config Extensions Actions Error) × (get_elem? plugins i ≡ some p)
  get_elem?-some [] i h = absurd (omega arith)
  get_elem?-some (p ∷ plugins) zero h = (p, refl)
  get_elem?-some (p ∷ plugins) (suc i) h = get_elem?-some plugins i (omega arith)

  get_elem?-all_some :
      (plugins : List (Plugin Config Extensions Actions Error)) (i : ℕ)
      → get_elem? (all_some plugins) i ≡ Option.map some (get_elem? plugins i)
  get_elem?-all_some [] i = refl
  get_elem?-all_some (p ∷ plugins) zero = refl
  get_elem?-all_some (p ∷ plugins) (suc i) = get_elem?-all_some plugins i

  take_sorted-Picked :
      (plugins : List (Plugin Config Extensions Actions Error))
      (old : List (Option (Plugin Config Extensions Actions Error))) (order : List ℕ)
      → Unique order
      → ((i : ℕ) → mem i order ≡ true → i < length plugins)
      → ((i : ℕ) → mem i order ≡ true → get_elem? old i ≡ Option.map some (get_elem? plugins i))
      → (sorted : List (Plugin Config Extensions Actions Error)) × (take_sorted old order
          ≡ some sorted)
        × Picked plugins order sorted
  unfolding take_sorted
  take_sorted-Picked plugins old [] u b h = ([], refl, tt)
  take_sorted-Picked plugins old (i ∷ order) u b h =
      let (p, at) = get_elem?-some plugins i (b i (ground arith)) in
      let slot : get_elem? old i ≡ some (some p) = h i (ground arith) ∙ ap (Option.map some) at in
      let (sorted, taken, picked) =
        take_sorted-Picked plugins (set old i none) order u.1 (λ j m. b j (ground arith))
          (λ j m. get_elem?-set_other old i j none (apart j m) ∙ h j (ground arith)) in
      (p ∷ sorted, rw (slot, take_sorted, taken) refl, (at, picked))
    where
      apart : (j : ℕ) → mem j order ≡ true → (j == i) ≡ false
      apart j m = elim (Bool-cases (j == i)) [
        | inl same ↦
            let e : j ≡ i = ground arith in
            let m' : mem i order ≡ true = rw e at m in let fresh = u.0 in absurd (ground arith)
        | inr other ↦ other
      ]

  length-declared :
      (plugins : List (Plugin Config Extensions Actions Error))
      → length (declared plugins) ≡ length plugins
  length-declared [] = refl
  length-declared (p ∷ plugins) = ap suc (length-declared plugins)

  run_sorted-built :
      (plugins : List (Plugin Config Extensions Actions Error)) (actions : Actions)
      (resolved : Config ⊎ Error) (x : Extensions) (app : GasketApp Config Extensions Actions Error)
      (events : List Event)
      → run_sorted plugins actions resolved x (topological_sort (declared plugins))
        ≡ built app events
      → (order : List ℕ) × (topological_sort (declared plugins) ≡ ok order)
        × Picked plugins order app.plugins
        × RanAll app.plugins actions resolved x app events
  unfolding run_sorted
  run_sorted-built plugins actions resolved x app events h =
      elim (SortResult-cases (topological_sort (declared plugins))) [
        | inr (inl (e, sorting)) ↦ let out = rw (sorting, run_sorted) at h in absurd (ground arith)
        | inr (inr sorting) ↦ let out = rw (sorting, run_sorted) at h in absurd (ground arith)
        | inl (order, sorting) ↦
            let (unique, full, members) =
              topological_sort_complete (declared plugins) order sorting in
            let (sorted, taken, picked) =
              take_sorted-Picked plugins (all_some plugins) order unique
                (λ i m. omega (arith, (members i).0 m, length-declared plugins))
                (λ i m. get_elem?-all_some plugins i) in
            let out : run_phases sorted actions resolved x ≡ built app events =
              rw (sorting, run_sorted, taken) at h in
            let ran = run_phases-built sorted actions resolved x app events out in
            (order, sorting, rw ran.plugins picked, rw (← ran.plugins) at ran)
      ]

  -- A successful `build` ran the declared plugins, each once, in the order of the sort: first the `init`
  -- of all, which in turn make the application's actions; then the `configure` of all, which in turn make
  -- its configuration from the resolved one; then the `prepare` of all with that configuration, which in
  -- turn make its extensions, each without an error. No other hook was called.
  pub build-built :
      (plugins : List (Plugin Config Extensions Actions Error)) (actions : Actions)
      (resolved : Config ⊎ Error) (x : Extensions) (app : GasketApp Config Extensions Actions Error)
      (events : List Event)
      → build plugins actions resolved x ≡ built app events
      → (order : List ℕ) × (topological_sort (declared plugins) ≡ ok order)
        × Picked plugins order app.plugins
        × RanAll app.plugins actions resolved x app events
  unfolding build
  build-built plugins actions resolved x app events h =
      elim (Option-cases (duplicate_in [] (names_of plugins))) [
        | inr (n, twice) ↦ let out = rw (twice, build) at h in absurd (ground arith)
        | inl once ↦ elim (Option-cases (missing_dependency_in (names_of plugins) plugins)) [
          | inr (d, missing) ↦ let out = rw (once, missing, build) at h in absurd (ground arith)
          | inl complete ↦
              run_sorted-built plugins actions resolved x app events
                (rw (once, complete, build) at h)
        ]
      ]
