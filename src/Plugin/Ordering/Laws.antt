-- ===== src/Plugin/Ordering/Laws.antt =====
-- What `topological_sort` promises: the order that it returns holds every plugin once and keeps
-- every declared constraint, so that cyclic constraints are never accepted.
use Prim.Native.String.{String}
use rusty_gasket.Common.{
  ℕ, suc, ◌+◌, ◌<◌, ◌≡◌, refl, ap, ◌∙◌, ◌≢◌, ◌↔◌, inl, inr, true, false, ◌||◌, List, [], ◌∷◌, ◌++◌,
  some, arith, ◌==◌, if◌then◌else◌, length, mem, Unique, All, replicate, Bool-cases,
}
use rusty_gasket.Common.Pigeonhole.{mem_of_full}
use rusty_gasket.Plugin.Graph.{Rows, row}
use rusty_gasket.Plugin.Graph.Drain.{has_edge, IsOrdered}
use rusty_gasket.Plugin.Ordering.{
  Declared, Names, find_name, ok, index_names, all_edges, topological_sort,
}
use rusty_gasket.Plugin.Ordering.Adjacency.{
  IsRow, IsGraph-of_IsRow, replicate-IsRow, mem-row-replicate,
}
use rusty_gasket.Plugin.Ordering.Edges.{Has}
use rusty_gasket.Plugin.Ordering.Names.{index_names-only, get_elem?-lt-length}
use rusty_gasket.Plugin.Ordering.Loops.{>>=-eq-ok, all_edges-Adds}
use rusty_gasket.Plugin.Ordering.Constraints.{
  Precedes, by_first, by_last, by_before, by_after, AllHit-of_Precedes, AllHit-at,
  Precedes-of_PluginHit,
}
use rusty_gasket.Plugin.Ordering.Sorted.{IsTopological, sort_rows-IsTopological, length-replicate}

-- The rows that the loops fill are the declared constraints.
pub record Filled (plugins : List Declared) (adj : Rows) : Type 0 where
  pub rows : length adj ≡ length plugins
  pub sets : All (IsRow (length plugins)) adj
  pub adds : (i j : ℕ) → Precedes plugins i j → Has adj i j
  pub only : (i j : ℕ) → Has adj i j → Precedes plugins i j

pub all_edges-Filled :
    (plugins : List Declared) (m : Names) (adj : Rows)
    → index_names 0 plugins [] ≡ ok m
    → all_edges plugins m 0 plugins (replicate (length plugins) []) ≡ ok adj
    → Filled plugins adj
all_edges-Filled plugins m adj indexed filled =
    let n = length plugins in
    let known : (name : String) (j : ℕ) → find_name name m ≡ some j → j < n = λ name j found.
      let at = index_names-only plugins m name j indexed found in
      let same : at.offset ≡ j = omega (arith, at.index) in
      rw same at (get_elem?-lt-length plugins at.offset at.plugin at.at) in
    let added =
      all_edges-Adds plugins m known 0 plugins (replicate n []) adj (omega arith)
        (length-replicate n []) (replicate-IsRow n n) filled in
    record {
      rows = added.rows;
      sets = added.sets;
      adds = λ i j p. added.adds i j (AllHit-of_Precedes plugins m indexed i j p);
      only = λ i j h. elim (added.only i j h) [
        | inl old ↦ absurd (ground (arith, mem-row-replicate n i j))
        | inr hit ↦
            let (d, p, at, here) = AllHit-at plugins m indexed 0 plugins i j hit in
            let same : 0 + d ≡ d = omega arith in
            Precedes-of_PluginHit plugins m indexed d p i j at (rw same at here)
      ];
    }

-- What a call that returns an order went through.
pub sorted_rows :
    (plugins : List Declared) (order : List ℕ)
    → topological_sort plugins ≡ ok order
    → (adj : Rows) × Filled plugins adj × IsTopological adj order
unfolding topological_sort
sorted_rows plugins order h =
    let (m, indexed, filling) = >>=-eq-ok _ _ order h in
    let (adj, filled, sorting) = >>=-eq-ok _ _ order filling in
    let f = all_edges-Filled plugins m adj indexed filled in
    (
      adj,
      f,
      sort_rows-IsTopological plugins adj f.rows (IsGraph-of_IsRow (length plugins) adj f.sets)
          order sorting,
    )

IsOrdered-at :
    (adj : Rows) (seen front rest : List ℕ) (j i : ℕ)
    → IsOrdered adj seen (front ++ j ∷ rest)
    → i < length adj
    → has_edge adj i j ≡ true
    → (mem i seen || mem i front) ≡ true
IsOrdered-at adj seen [] rest j i o b e = ground (arith, o.0 i b e)
IsOrdered-at adj seen (k ∷ front) rest j i o b e =
    ground (arith, IsOrdered-at adj (k ∷ seen) front rest j i o.1 b e)

left_bound : (plugins : List Declared) (i j : ℕ) → Precedes plugins i j → i < length plugins
left_bound plugins i j (by_first p q pa qk on off) = get_elem?-lt-length plugins i p pa
left_bound plugins i j (by_last p q pa qk on off) = get_elem?-lt-length plugins i p pa
left_bound plugins i j (by_before p q pa qk listed) = get_elem?-lt-length plugins i p pa
left_bound plugins i j (by_after p q pa qk listed) = get_elem?-lt-length plugins i p pa

-- Every index of the order is one of a plugin, and every plugin's index stands in it exactly once.
pub topological_sort_complete :
    (plugins : List Declared) (order : List ℕ)
    → topological_sort plugins ≡ ok order
    → Unique order
      × (length order ≡ length plugins)
      × ((j : ℕ) → (mem j order ≡ true) ↔ (j < length plugins))
topological_sort_complete plugins order h =
    let (adj, f, t) = sorted_rows plugins order h in
    let full : length order ≡ length plugins = t.complete ∙ f.rows in
    let below : (j : ℕ) → mem j order ≡ true → j < length plugins =
      λ j m. omega (arith, t.in_range j m, f.rows) in
    (t.distinct, full, λ j. (below j, mem_of_full (length plugins) order t.distinct below full j))

-- Whenever the sort returns an order, a plugin that has to precede another stands before it.
pub topological_sort-Precedes :
    (plugins : List Declared) (order front rest : List ℕ) (i j : ℕ)
    → topological_sort plugins ≡ ok order
    → order ≡ front ++ j ∷ rest
    → Precedes plugins i j
    → mem i front ≡ true
topological_sort-Precedes plugins order front rest i j h split p =
    let (adj, f, t) = sorted_rows plugins order h in
    let (distinct, full, members) = topological_sort_complete plugins order h in
    let bound = left_bound plugins i j p in
    let edge : mem j (row adj i) ≡ true = f.adds i j p in
    let looped = t.no_loops i ((members i).1 bound) in
    let apart : (i == j) ≡ false = elim (Bool-cases (i == j)) [
      | inl same ↦
          let e : i ≡ j = ground arith in
          let edge' : mem i (row adj i) ≡ true = rw (← e) at edge in absurd (ground arith)
      | inr other ↦ other
    ] in
    let there =
      IsOrdered-at adj [] front rest j i (rw split at t.ordered) (omega (arith, f.rows))
        (ground arith) in
    ground arith

-- One constraint after another.
pub data Before (plugins : List Declared) : ℕ → ℕ → Type 0 where
  one : {i j : ℕ} → Precedes plugins i j → Before plugins i j
  more : {i j : ℕ} (k : ℕ) → Precedes plugins i k → Before plugins k j → Before plugins i j

-- The place of a number in a list.
abbrev pub place : ℕ → List ℕ → ℕ
place i [] = 0
place i (k ∷ ks) = if i == k then 0 else suc (place i ks)

split_at :
    (j : ℕ) (order : List ℕ)
    → mem j order ≡ true
    → (front : List ℕ) × (rest : List ℕ) × (order ≡ front ++ j ∷ rest) × (mem j front ≡ false)
split_at j [] m = absurd (ground arith)
split_at j (k ∷ ks) m = elim (Bool-cases (j == k)) [
  | inl here ↦ let same : k ≡ j = ground arith in ([], ks, rw same refl, refl)
  | inr other ↦
      let (front, rest, split, fresh) = split_at j ks (ground arith) in
      (k ∷ front, rest, ap (◌∷◌ k) split, ground arith)
]

place_lt :
    (i j : ℕ) (front rest : List ℕ)
    → mem i front ≡ true
    → mem j front ≡ false
    → place i (front ++ j ∷ rest) < place j (front ++ j ∷ rest)
place_lt i j [] rest m f = absurd (ground arith)
place_lt i j (k ∷ front) rest m f = ground (arith, place_lt i j front rest)

right_bound : (plugins : List Declared) (i j : ℕ) → Precedes plugins i j → j < length plugins
right_bound plugins i j (by_first p q pa qk on off) = get_elem?-lt-length plugins j q qk
right_bound plugins i j (by_last p q pa qk on off) = get_elem?-lt-length plugins j q qk
right_bound plugins i j (by_before p q pa qk listed) = get_elem?-lt-length plugins j q qk
right_bound plugins i j (by_after p q pa qk listed) = get_elem?-lt-length plugins j q qk

module _ (plugins : List Declared) (order : List ℕ) (h : topological_sort plugins ≡ ok order) where
  Precedes-place : (i j : ℕ) → Precedes plugins i j → place i order < place j order
  Precedes-place i j p =
      let (distinct, full, members) = topological_sort_complete plugins order h in
      let (front, rest, split, fresh) =
        split_at j order ((members j).1 (right_bound plugins i j p)) in
      rw split (
        place_lt i j front rest (topological_sort-Precedes plugins order front rest i j h split p)
          fresh)

  Before-place : (i j : ℕ) → Before plugins i j → place i order < place j order
  Before-place i j (one p) = Precedes-place i j p
  Before-place i j (more k p b) = omega (arith, Precedes-place i k p, Before-place k j b)

-- Constraints that lead from a plugin back to itself are never accepted.
pub topological_sort-acyclic :
    (plugins : List Declared) (i : ℕ)
    → Before plugins i i
    → (order : List ℕ) → topological_sort plugins ≢ ok order
topological_sort-acyclic plugins i cycle order h =
    omega (arith, Before-place plugins order h i i cycle)
