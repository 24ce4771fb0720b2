-- ===== src/Plugin/Ordering/Panics.antt =====
-- When `topological_sort` panics: only on a plugin that names itself.
use Prim.Native.String.{String}
use rusty_gasket.Common.{
  ℕ, suc, ◌≡◌, refl, sym, ◌∙◌, ◌≢◌, inl, inr, false, ◌&&◌, List, [], ◌∷◌, some, arith,
  if◌then◌else◌, length, get_elem?, mem, In, replicate, Bool-cases, Option-cases,
}
use rusty_gasket.Plugin.Graph.{Rows, row}
use rusty_gasket.Plugin.Ordering.{
  Declared, Names, find_name, SortError, SortResult, ok, err, panicked, ◌>>=◌, index_names,
  first_edges, last_edges, before_edges, after_edges, plugin_edges, all_edges, topological_sort,
}
use rusty_gasket.Plugin.Ordering.Adjacency.{IsGraph-of_IsRow}
use rusty_gasket.Plugin.Ordering.Constraints.{Precedes, by_first, by_last, by_before, by_after}
use rusty_gasket.Plugin.Ordering.Sorted.{sort_rows-ne-panicked}
use rusty_gasket.Plugin.Ordering.Laws.{all_edges-Filled, Before, topological_sort-acyclic}

>>=-eq-panicked :
    {A B : Type 0} (r : SortResult A) (f : A → SortResult B)
    → r ≢ panicked
    → (r >>= f) ≡ panicked
    → (a : A) × (r ≡ ok a) × (f a ≡ panicked)
>>=-eq-panicked (ok a) f total h = (a, refl, h)
>>=-eq-panicked (err e) f total h = absurd (ground arith)
>>=-eq-panicked panicked f total h = absurd (total refl)

index_names-total :
    (i : ℕ) (plugins : List Declared) (acc : Names) → index_names i plugins acc ≢ panicked
unfolding index_names
index_names-total i [] acc h = ground arith
index_names-total i (p ∷ plugins) acc h = elim (Option-cases (find_name p.name acc)) [
  | inl missing ↦ index_names-total (suc i) plugins ((p.name, i) ∷ acc) (ground arith)
  | inr (j, found) ↦ ground arith
]

before_edges-total :
    (m : Names) (name : String) (i : ℕ) (ts : List String) (adj : Rows)
    → before_edges m name i ts adj ≢ panicked
unfolding before_edges
before_edges-total m name i [] adj h = ground arith
before_edges-total m name i (t ∷ ts) adj h = elim (Option-cases (find_name t m)) [
  | inl missing ↦ ground arith
  | inr (j, found) ↦ before_edges-total m name i ts _ (rw (found, before_edges) at h)
]

after_edges-total :
    (m : Names) (name : String) (i : ℕ) (ts : List String) (adj : Rows)
    → after_edges m name i ts adj ≢ panicked
unfolding after_edges
after_edges-total m name i [] adj h = ground arith
after_edges-total m name i (t ∷ ts) adj h = elim (Option-cases (find_name t m)) [
  | inl missing ↦ ground arith
  | inr (j, found) ↦ after_edges-total m name i ts _ (rw (found, after_edges) at h)
]

plugin_edges-total :
    (plugins : List Declared) (m : Names) (i : ℕ) (p : Declared) (adj : Rows)
    → plugin_edges plugins m i p adj ≢ panicked
unfolding plugin_edges
plugin_edges-total plugins m i p adj h = elim (Bool-cases (p.ordering.first && p.ordering.last)) [
  | inl both ↦ ground arith
  | inr one ↦
      let with_first : Rows = if p.ordering.first then first_edges i 0 plugins adj else adj in
      let with_last : Rows =
        if p.ordering.last then last_edges i 0 plugins with_first else with_first in
      let chained : (before_edges m p.name i p.ordering.before with_last
            >>= after_edges m p.name i p.ordering.after)
          ≡ panicked =
        ground arith in
      let (mid, _, after) =
        >>=-eq-panicked _ (after_edges m p.name i p.ordering.after)
          (before_edges-total m p.name i p.ordering.before with_last) chained in
      after_edges-total m p.name i p.ordering.after mid after
]

all_edges-total :
    (plugins : List Declared) (m : Names) (i : ℕ) (rest : List Declared) (adj : Rows)
    → all_edges plugins m i rest adj ≢ panicked
unfolding all_edges
all_edges-total plugins m i [] adj h = ground arith
all_edges-total plugins m i (p ∷ rest) adj h =
    let (mid, _, later) =
      >>=-eq-panicked (plugin_edges plugins m i p adj) (all_edges plugins m (suc i) rest)
        (plugin_edges-total plugins m i p adj) h in
    all_edges-total plugins m (suc i) rest mid later

-- When no plugin names itself in its `before` or `after` list, the sort returns an order or an
-- error: its arithmetic does not overflow and its fuel does not run out.
pub topological_sort-total :
    (plugins : List Declared)
    → ((i : ℕ) (p : Declared)
        → get_elem? plugins i ≡ some p
        → (¬ In p.name p.ordering.before) × (¬ In p.name p.ordering.after))
    → topological_sort plugins ≢ panicked
unfolding topological_sort
topological_sort-total plugins apart h =
    let n = length plugins in
    let (m, indexed, filling) =
      >>=-eq-panicked (index_names 0 plugins []) _ (index_names-total 0 plugins []) h in
    let (adj, filled, sorting) =
      >>=-eq-panicked (all_edges plugins m 0 plugins (replicate n [])) _
        (all_edges-total plugins m 0 plugins (replicate n [])) filling in
    let f = all_edges-Filled plugins m adj indexed filled in
    sort_rows-ne-panicked plugins adj f.rows (IsGraph-of_IsRow n adj f.sets)
      (λ i. elim (Bool-cases (mem i (row adj i))) [
        | inl looped ↦ absurd (no_loop i (f.only i i looped))
        | inr free ↦ free
      ])
      sorting
  where
    no_loop : (i : ℕ) → ¬ Precedes plugins i i
    no_loop i (by_first p q pa qa on off) =
        let same : some p ≡ some q = sym pa ∙ qa in
        let e : p ≡ q = ground arith in let off' : p.ordering.first ≡ false = rw e off in cc
    no_loop i (by_last p q pa qa on off) =
        let same : some p ≡ some q = sym pa ∙ qa in
        let e : p ≡ q = ground arith in let off' : q.ordering.last ≡ false = rw (← e) off in cc
    no_loop i (by_before p q pa qa listed) =
        let same : some p ≡ some q = sym pa ∙ qa in
        let e : p ≡ q = ground arith in
        let own : In p.name p.ordering.before = rw (← e) at listed in (apart i p pa).0 own
    no_loop i (by_after p q pa qa listed) =
        let same : some p ≡ some q = sym pa ∙ qa in
        let e : p ≡ q = ground arith in
        let own : In q.name q.ordering.after = rw e at listed in (apart i q qa).1 own

only_err :
    (r : SortResult (List ℕ))
    → r ≢ panicked
    → ((order : List ℕ) → r ≢ ok order)
    → (e : SortError) × (r ≡ err e)
only_err (ok order) total never = absurd (never order refl)
only_err (err e) total never = (e, refl)
only_err panicked total never = absurd (total refl)

-- When no plugin names itself and constraints lead from a plugin over others back to itself, the sort
-- returns an error.
pub topological_sort-cyclic :
    (plugins : List Declared) (i : ℕ)
    → ((j : ℕ) (p : Declared)
        → get_elem? plugins j ≡ some p
        → (¬ In p.name p.ordering.before) × (¬ In p.name p.ordering.after))
    → Before plugins i i
    → (e : SortError) × (topological_sort plugins ≡ err e)
topological_sort-cyclic plugins i apart cycle =
    only_err (topological_sort plugins) (topological_sort-total plugins apart)
      (topological_sort-acyclic plugins i cycle)
