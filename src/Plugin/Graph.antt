-- ===== src/Plugin/Graph.antt =====
-- rusty-gasket/src/plugin/ordering.rs, the part of `topological_sort` that works on indices: the
-- adjacency rows, the in-degrees and Kahn's loop.
pub mod Degrees
pub mod Relax
pub mod Drain
use rusty_gasket.Common.{
  ℕ, zero, suc, ◌+◌, Bool, true, false, not, ◌&&◌, ◌||◌, List, [], ◌∷◌, ◌++◌, Option, none, some,
  ltb, ◌==◌, if◌then◌else◌, length, set, get_elem?,
}

abbrev pub Rows : Type 0
Rows = List (List ℕ)

-- `BTreeSet::insert`: ascending, with no repetition.
unfoldable pub insert : ℕ → List ℕ → List ℕ
insert j [] = j ∷ []
insert j (k ∷ ks) = if ltb j k then j ∷ k ∷ ks else if j == k then k ∷ ks else k ∷ insert j ks

-- `adj[i].insert(j)`. The source's index is always in range.
unfoldable pub insert_edge : Rows → ℕ → ℕ → Rows
unfolding insert
insert_edge [] i j = []
insert_edge (r ∷ rs) zero j = insert j r ∷ rs
insert_edge (r ∷ rs) (suc i) j = r ∷ insert_edge rs i j

-- `in_degree[j] += 1`
abbrev pub increment : List ℕ → ℕ → List ℕ
increment [] j = []
increment (d ∷ ds) zero = suc d ∷ ds
increment (d ∷ ds) (suc j) = d ∷ increment ds j

-- `for &j in neighbors { if i != j { in_degree[j] += 1; } }`
unfoldable pub count_row : ℕ → List ℕ → List ℕ → List ℕ
count_row i [] in_degree = in_degree
count_row i (j ∷ neighbors) in_degree =
    count_row i neighbors (if i == j then in_degree else increment in_degree j)

unfoldable pub count_rows : ℕ → Rows → List ℕ → List ℕ
unfolding count_row
count_rows i [] in_degree = in_degree
count_rows i (neighbors ∷ adj) in_degree = count_rows (suc i) adj (count_row i neighbors in_degree)

-- The indices whose in-degree is zero, in order: the first contents of the queue.
unfoldable pub ready_from : ℕ → List ℕ → List ℕ
ready_from i [] = []
ready_from i (deg ∷ degs) =
    let rest = ready_from (suc i) degs in if deg == 0 then i ∷ rest else rest

-- `for &neighbor in &adj[node]`: one in-degree less for each neighbour, and a neighbour whose last
-- predecessor this was joins the queue. `none` is a panic: `in_degree[neighbor] -= 1` at zero.
unfoldable pub relax : List ℕ → List ℕ → List ℕ → Option (List ℕ × List ℕ)
relax [] in_degree queue = some (in_degree, queue)
relax (j ∷ neighbors) in_degree queue = elim (get_elem? in_degree j) [
  | none ↦ none
  | some zero ↦ none
  | some (suc d) ↦ relax neighbors (set in_degree j d) (if d == 0 then queue ++ j ∷ [] else queue)
]

abbrev pub row : Rows → ℕ → List ℕ
row [] i = []
row (r ∷ rs) zero = r
row (r ∷ rs) (suc i) = row rs i

-- `while let Some(node) = queue.pop_front()`: the final in-degrees and the order. `none` is a
-- panic, or that the fuel ran out.
unfoldable pub drain : ℕ → Rows → List ℕ → List ℕ → List ℕ → Option (List ℕ × List ℕ)
unfolding relax
drain fuel adj in_degree [] sorted = some (in_degree, sorted)
drain zero adj in_degree (node ∷ queue) sorted = none
drain (suc fuel) adj in_degree (node ∷ queue) sorted = elim (relax (row adj node) in_degree queue) [
  | none ↦ none
  | some (in_degree', queue') ↦ drain fuel adj in_degree' queue' (sorted ++ node ∷ [])
]

-- Each round takes one node off the queue, and a node joins it only when an in-degree falls.
abbrev pub sum : List ℕ → ℕ
sum [] = 0
sum (d ∷ ds) = d + sum ds
