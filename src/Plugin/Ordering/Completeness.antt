-- ===== src/Plugin/Ordering/Completeness.antt =====
-- `topological_sort` accepts every satisfiable declaration.
use Prim.Native.String.{String}
use text.Mathlib.Text.{◌==◌ as str_eq}
use text.Mathlib.TextEquality.{eq_iff}
use mathlib.Core.List.{append-nil}
use native.Mathlib.Nat.{le_refl}
use rusty_gasket.Common.{
  ℕ, zero, suc, ◌+◌, ◌<◌, ◌≡◌, refl, ap, ◌∙◌, ◌≢◌, ◌⊎◌, inl, inr, true, false, not, ◌&&◌, List, [],
  ◌∷◌, none, some, arith, ◌==◌, if◌then◌else◌, length, get_elem?, mem, All, In, replicate,
  Bool-cases, Option-cases,
}
use rusty_gasket.Common.Pigeonhole.{full_of_Unique}
use rusty_gasket.Plugin.Graph.{Rows, row}
use rusty_gasket.Plugin.Graph.Degrees.{indegree}
use rusty_gasket.Plugin.Graph.Drain.{Inv, drain-Inv, drain_total}
use rusty_gasket.Plugin.Ordering.{
  Declared, Names, find_name, ok, index_names, first_edges, last_edges, before_edges, after_edges,
  plugin_edges, all_edges, finish, sort_rows, topological_sort,
}
use rusty_gasket.Plugin.Ordering.Adjacency.{IsRow, IsGraph-of_IsRow}
use rusty_gasket.Plugin.Ordering.Names.{index_names-finds}
use rusty_gasket.Plugin.Ordering.Constraints.{Precedes}
use rusty_gasket.Plugin.Ordering.Sorted.{degrees, start-Inv}
use rusty_gasket.Plugin.Ordering.Laws.{all_edges-Filled}

-- Each name once, no plugin both first and last, and every target the name of a plugin.
pub record IsWellDeclared (plugins : List Declared) : Type 0 where
  pub distinct :
      (i j : ℕ) (p q : Declared)
      → get_elem? plugins i ≡ some p
      → get_elem? plugins j ≡ some q
      → p.name ≡ q.name
      → i ≡ j
  pub consistent :
      (i : ℕ) (p : Declared)
      → get_elem? plugins i ≡ some p
      → (p.ordering.first && p.ordering.last) ≡ false
  pub known :
      (i : ℕ) (p : Declared) (t : String)
      → get_elem? plugins i ≡ some p
      → In t p.ordering.before ⊎ In t p.ordering.after
      → (j : ℕ) × (q : Declared) × (get_elem? plugins j ≡ some q) × (q.name ≡ t)

indegree_zero :
    (order : List ℕ) (i : ℕ) (adj : Rows) (j : ℕ)
    → ((d : ℕ)
        → d < length adj
        → not (i + d == j) && mem j (row adj d) ≡ true
        → mem (i + d) order ≡ true)
    → indegree order i adj j ≡ 0
indegree_zero order i [] j h = refl
indegree_zero order i (r ∷ adj) j h =
    let same : i + 0 ≡ i = omega arith in
    let here : not (i == j) && mem j r ≡ true → mem i order ≡ true =
      λ e. rw same at (h 0 (omega arith) (rw same e)) in
    let rest = indegree_zero order (suc i) adj j (λ d b e.
      let next : suc i + d ≡ i + suc d = omega arith in
      rw next (h (suc d) (omega arith) (rw next at e))) in
    ground (arith, here, rest, Bool-cases (mem i order), Bool-cases (not (i == j) && mem j r))

module _ (adj : Rows) (ds order : List ℕ) (inv : Inv adj ds [] order) (rank : ℕ → ℕ)
    (ranked : (i j : ℕ) → mem j (row adj i) ≡ true → rank i < rank j) where
  placed_below : (r j : ℕ) → j < length adj → rank j < r → mem j order ≡ true
  placed_below zero j b h = absurd (omega arith)
  placed_below (suc r) j b h =
      let none_left : indegree order 0 adj j ≡ 0 = indegree_zero order 0 adj j (λ d bd e.
        let same : 0 + d ≡ d = omega arith in
        let below : rank d < rank j = ranked d j (ground arith) in
        rw same (placed_below r d bd (omega arith))) in
      rw append-nil at (inv.settled j b (inv.degrees j b ∙ none_left))

  all_placed : length order ≡ length adj
  all_placed =
      full_of_Unique (length adj) order (rw append-nil at inv.distinct)
        (λ j m. inv.in_range j (rw append-nil m))
        (λ j b. placed_below (suc (rank j)) j b (omega arith))

finish-full :
    (plugins : List Declared) (left order : List ℕ)
    → length order ≡ length plugins
    → finish plugins (some (left, order)) ≡ ok order
unfolding finish
finish-full plugins left order full = ground arith

-- The second half accepts rows that a ranking orders.
sort_rows-ranked :
    (plugins : List Declared) (adj : Rows) (rank : ℕ → ℕ)
    → length adj ≡ length plugins
    → All (IsRow (length plugins)) adj
    → ((i j : ℕ) → mem j (row adj i) ≡ true → rank i < rank j)
    → (order : List ℕ) × (sort_rows plugins adj ≡ ok order)
unfolding sort_rows
sort_rows-ranked plugins adj rank same sets ranked =
    let n = length plugins in
    let graph = IsGraph-of_IsRow n adj sets in
    let loops : (i : ℕ) → mem i (row adj i) ≡ false = λ i. elim (Bool-cases (mem i (row adj i))) [
      | inl looped ↦ absurd (omega (arith, ranked i i looped))
      | inr free ↦ free
    ] in
    let start = start-Inv n adj same graph in
    let (left, order, drained) =
      drain_total _ adj (degrees n adj same graph) _ [] (rw same graph) loops start (le_refl _) in
    let inv =
      drain-Inv _ adj (degrees n adj same graph) _ [] left order (rw same graph) start drained in
    let full = all_placed adj left order inv rank ranked in
    (order, ap (finish plugins) drained ∙ finish-full plugins left order (full ∙ same))

fresh_name :
    (plugins : List Declared) (name : String) (acc : Names)
    → ((j : ℕ) → find_name name acc ≢ some j)
    → find_name name acc ≡ none
fresh_name plugins name acc never = elim (Option-cases (find_name name acc)) [
  | inl missing ↦ missing
  | inr (j, found) ↦ absurd (never j found)
]

index_names-distinct :
    (i : ℕ) (plugins : List Declared) (acc : Names)
    → ((d e : ℕ) (p q : Declared)
        → get_elem? plugins d ≡ some p
        → get_elem? plugins e ≡ some q
        → p.name ≡ q.name
        → d ≡ e)
    → ((d : ℕ) (p : Declared) → get_elem? plugins d ≡ some p → find_name p.name acc ≡ none)
    → (m : Names) × (index_names i plugins acc ≡ ok m)
unfolding index_names
index_names-distinct i [] acc apart fresh = (acc, refl)
index_names-distinct i (p ∷ plugins) acc apart fresh =
    let missing : find_name p.name acc ≡ none = fresh 0 p refl in
    rw (missing, index_names)
      (index_names-distinct (suc i) plugins ((p.name, i) ∷ acc)
        (λ d e q r at at' same. omega (arith, apart (suc d) (suc e) q r at at' same))
        (λ d q at. elim (Bool-cases (str_eq p.name q.name)) [
          | inl same ↦ absurd (omega (arith, apart 0 (suc d) p q refl at ((eq_iff _ _).0 same)))
          | inr other ↦ rw other (fresh (suc d) q at)
        ]))

before_edges-known :
    (m : Names) (name : String) (i : ℕ) (ts : List String) (adj : Rows)
    → ((t : String) → In t ts → (j : ℕ) × (find_name t m ≡ some j))
    → (adj' : Rows) × (before_edges m name i ts adj ≡ ok adj')
unfolding before_edges
before_edges-known m name i [] adj known = (adj, refl)
before_edges-known m name i (t ∷ ts) adj known =
    let (j, found) = known t (inl refl) in
    rw (found, before_edges) (before_edges-known m name i ts _ (λ s l. known s (inr l)))

after_edges-known :
    (m : Names) (name : String) (i : ℕ) (ts : List String) (adj : Rows)
    → ((t : String) → In t ts → (j : ℕ) × (find_name t m ≡ some j))
    → (adj' : Rows) × (after_edges m name i ts adj ≡ ok adj')
unfolding after_edges
after_edges-known m name i [] adj known = (adj, refl)
after_edges-known m name i (t ∷ ts) adj known =
    let (j, found) = known t (inl refl) in
    rw (found, after_edges) (after_edges-known m name i ts _ (λ s l. known s (inr l)))

all_edges-known :
    (plugins : List Declared) (m : Names) (i : ℕ) (rest : List Declared) (adj : Rows)
    → ((d : ℕ) (p : Declared)
        → get_elem? rest d ≡ some p
        → (p.ordering.first && p.ordering.last) ≡ false)
    → ((d : ℕ) (p : Declared) (t : String)
        → get_elem? rest d ≡ some p
        → In t p.ordering.before ⊎ In t p.ordering.after
        → (j : ℕ) × (find_name t m ≡ some j))
    → (adj' : Rows) × (all_edges plugins m i rest adj ≡ ok adj')
unfolding all_edges plugin_edges
all_edges-known plugins m i [] adj consistent known = (adj, refl)
all_edges-known plugins m i (p ∷ rest) adj consistent known =
    let with_first : Rows = if p.ordering.first then first_edges i 0 plugins adj else adj in
    let with_last : Rows =
      if p.ordering.last then last_edges i 0 plugins with_first else with_first in
    let (mid, eb) =
      before_edges-known m p.name i p.ordering.before with_last (λ t l. known 0 p t refl (inl l)) in
    let (adj', ea) =
      after_edges-known m p.name i p.ordering.after mid (λ t l. known 0 p t refl (inr l)) in
    rw (consistent 0 p refl, all_edges, eb, ea)
      (all_edges-known plugins m (suc i) rest adj' (λ d q at. consistent (suc d) q at)
        (λ d q t at l. known (suc d) q t at l))

-- Every well-declared list of plugins whose constraints some ranking respects is sorted.
pub topological_sort-ranked :
    (plugins : List Declared) (rank : ℕ → ℕ)
    → IsWellDeclared plugins
    → ((i j : ℕ) → Precedes plugins i j → rank i < rank j)
    → (order : List ℕ) × (topological_sort plugins ≡ ok order)
unfolding topological_sort
topological_sort-ranked plugins rank well ranked =
    let n = length plugins in
    let (m, indexed) = index_names-distinct 0 plugins [] well.distinct (λ d p at. refl) in
    let (adj, filled) =
      all_edges-known plugins m 0 plugins (replicate n []) well.consistent (λ d p t at l.
        let (j, q, at', named) = well.known d p t at l in
        (j, rw named at (index_names-finds plugins m j q indexed at'))) in
    let f = all_edges-Filled plugins m adj indexed filled in
    let (order, sorted) =
      sort_rows-ranked plugins adj rank f.rows f.sets (λ i j e. ranked i j (f.only i j e)) in
    (order, rw (indexed, filled) sorted)
