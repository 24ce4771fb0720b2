-- ===== src/Plugin/Ordering.antt =====
-- rusty-gasket/src/plugin/ordering.rs: `PluginOrdering` and `topological_sort`. Of a plugin the sort
-- reads its name and its ordering. `HashMap` is an association list.
pub mod Adjacency
pub mod Names
pub mod Edges
pub mod Loops
pub mod Sorted
pub mod Constraints
pub mod Laws
pub mod Completeness
pub mod Panics
mod Tests
use Prim.Native.String.{String}
use text.Mathlib.Text.{◌==◌ as str_eq}
use rusty_gasket.Common.{
  ℕ, zero, suc, ◌+◌, Bool, true, false, not, ◌&&◌, ◌||◌, List, [], ◌∷◌, ◌++◌, Option, none, some,
  ltb, ◌==◌, if◌then◌else◌, length, get_or, replicate,
}
use rusty_gasket.Plugin.Graph.{Rows, insert_edge, count_rows, ready_from, drain, sum}

pub record PluginOrdering : Type 0 where
  pub before : List String
  pub after : List String
  pub first : Bool
  pub last : Bool

-- What `topological_sort` reads of a `PluginHandle`.
pub record Declared : Type 0 where
  pub name : String
  pub ordering : PluginOrdering

pub data SortError : Type 0 where
  duplicate_name : String → ℕ → ℕ → SortError
  contradictory : String → SortError
  unknown_before unknown_after : String → String → SortError
  cycle : List String → SortError

-- `panicked` is an arithmetic overflow, which a build with overflow checks turns into a panic.
pub data SortResult (A : Type 0) : Type 0 where
  ok : A → SortResult A
  err : SortError → SortResult A
  panicked : SortResult A

infixl 5 ◌>>=◌
abbrev pub ◌>>=◌ : {A B : Type 0} → SortResult A → (A → SortResult B) → SortResult B
ok a >>= f = f a
err e >>= f = err e
panicked >>= f = panicked

abbrev pub Names : Type 0
Names = List (String × ℕ)

-- `HashMap::get`.
abbrev pub find_name : String → Names → Option ℕ
find_name k [] = none
find_name k ((j, i) ∷ m) = if str_eq j k then some i else find_name k m

-- The loop that fills `name_to_idx`.
unfoldable pub index_names : ℕ → List Declared → Names → SortResult Names
index_names i [] name_to_idx = ok name_to_idx
index_names i (plugin ∷ plugins) name_to_idx = elim (find_name plugin.name name_to_idx) [
  | some prev ↦ err (duplicate_name plugin.name prev i)
  | none ↦ index_names (suc i) plugins ((plugin.name, i) ∷ name_to_idx)
]

-- `if ordering.first`: an edge to every other plugin that is not `first`.
unfoldable pub first_edges : ℕ → ℕ → List Declared → Rows → Rows
first_edges i j [] adj = adj
first_edges i j (other ∷ plugins) adj =
    first_edges i (suc j) plugins
      (if not (j == i) && not other.ordering.first then insert_edge adj i j else adj)

unfoldable pub last_edges : ℕ → ℕ → List Declared → Rows → Rows
last_edges i j [] adj = adj
last_edges i j (other ∷ plugins) adj =
    last_edges i (suc j) plugins
      (if not (j == i) && not other.ordering.last then insert_edge adj j i else adj)

unfoldable pub before_edges : Names → String → ℕ → List String → Rows → SortResult Rows
before_edges name_to_idx name i [] adj = ok adj
before_edges name_to_idx name i (target ∷ targets) adj = elim (find_name target name_to_idx) [
  | some j ↦ before_edges name_to_idx name i targets (insert_edge adj i j)
  | none ↦ err (unknown_before name target)
]

unfoldable pub after_edges : Names → String → ℕ → List String → Rows → SortResult Rows
after_edges name_to_idx name i [] adj = ok adj
after_edges name_to_idx name i (dep ∷ deps) adj = elim (find_name dep name_to_idx) [
  | some j ↦ after_edges name_to_idx name i deps (insert_edge adj j i)
  | none ↦ err (unknown_after name dep)
]

-- One round of the loop over the plugins.
unfoldable pub plugin_edges : List Declared → Names → ℕ → Declared → Rows → SortResult Rows
plugin_edges plugins name_to_idx i plugin adj =
    if plugin.ordering.first && plugin.ordering.last then err (contradictory plugin.name) else (do
      let with_first = if plugin.ordering.first then first_edges i 0 plugins adj else adj
      let with_last = if plugin.ordering.last then last_edges i 0 plugins with_first else with_first
      with_before ← before_edges name_to_idx plugin.name i plugin.ordering.before with_last
      after_edges name_to_idx plugin.name i plugin.ordering.after with_before)

unfoldable pub all_edges : List Declared → Names → ℕ → List Declared → Rows → SortResult Rows
all_edges plugins name_to_idx i [] adj = ok adj
all_edges plugins name_to_idx i (plugin ∷ rest) adj = do
  adj' ← plugin_edges plugins name_to_idx i plugin adj
  all_edges plugins name_to_idx (suc i) rest adj'

-- The names of the plugins whose in-degree is still above zero.
unfoldable pub cycle_nodes : List Declared → List ℕ → List String
cycle_nodes [] in_degree = []
cycle_nodes (plugin ∷ plugins) [] = []
cycle_nodes (plugin ∷ plugins) (deg ∷ in_degree) =
    let rest = cycle_nodes plugins in_degree in if ltb 0 deg then plugin.name ∷ rest else rest

-- What is returned when the loop is over: an error unless every plugin was placed.
unfoldable pub finish : List Declared → Option (List ℕ × List ℕ) → SortResult (List ℕ)
unfolding cycle_nodes
finish plugins none = panicked
finish plugins (some (in_degree, sorted)) =
    if length sorted == length plugins
    then ok sorted
    else err (cycle (cycle_nodes plugins in_degree))

-- The second half: in-degrees, queue and loop. The fuel is what `drain_total` asks for.
unfoldable pub sort_rows : List Declared → Rows → SortResult (List ℕ)
unfolding count_rows ready_from drain finish
sort_rows plugins adj =
    let in_degree = count_rows 0 adj (replicate (length plugins) 0) in
    let queue = ready_from 0 in_degree in
    finish plugins (drain (length queue + sum in_degree) adj in_degree queue [])

unfoldable pub topological_sort : List Declared → SortResult (List ℕ)
unfolding index_names all_edges sort_rows plugin_edges first_edges last_edges before_edges
    after_edges insert_edge
topological_sort plugins = do
  name_to_idx ← index_names 0 plugins []
  adj ← all_edges plugins name_to_idx 0 plugins (replicate (length plugins) [])
  sort_rows plugins adj
