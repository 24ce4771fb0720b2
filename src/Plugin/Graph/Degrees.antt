-- ===== src/Plugin/Graph/Degrees.antt =====
-- The in-degrees, against an independent count of the predecessors that are not yet placed.
use rusty_gasket.Common.{
  ℕ, zero, suc, ◌+◌, ◌-◌, ◌<◌, ◌≡◌, refl, ap, ◌⊎◌, inl, inr, Bool, true, false, not, ◌&&◌, List, [],
  ◌∷◌, ◌++◌, arith, ◌==◌, leb, if◌then◌else◌, length, get_or, mem, Unique, mem-append, Bool-cases,
  All,
}
use rusty_gasket.Plugin.Graph.{Rows, row, count_row, count_rows, increment}

abbrev pub one_if : Bool → ℕ
one_if b = if b then 1 else 0

-- How many of the rows `rows`, numbered from `i` on, hold `j` and are not `j`'s own and not done.
abbrev pub indegree : List ℕ → ℕ → Rows → ℕ → ℕ
indegree done i [] j = 0
indegree done i (r ∷ rows) j =
    one_if (not (mem i done) && (not (i == j) && mem j r)) + indegree done (suc i) rows j

get_or-increment :
    (ds : List ℕ) (j k : ℕ)
    → j < length ds
    → get_or (increment ds j) k 0 ≡ get_or ds k 0 + one_if (k == j)
get_or-increment [] j k h = absurd (omega arith)
get_or-increment (d ∷ ds) zero zero h = ground arith
get_or-increment (d ∷ ds) zero (suc k) h = ground arith
get_or-increment (d ∷ ds) (suc j) zero h = ground arith
get_or-increment (d ∷ ds) (suc j) (suc k) h = ground (arith, get_or-increment ds j k)

length-increment : (ds : List ℕ) (j : ℕ) → length (increment ds j) ≡ length ds
length-increment [] j = refl
length-increment (d ∷ ds) zero = refl
length-increment (d ∷ ds) (suc j) = ap suc (length-increment ds j)

length-count_row : (i : ℕ) (r ds : List ℕ) → length (count_row i r ds) ≡ length ds
unfolding count_row
length-count_row i [] ds = refl
length-count_row i (j ∷ r) ds =
    ground
      (arith, length-count_row i r ds, length-count_row i r (increment ds j), length-increment ds j)

pub length-count_rows :
    (i : ℕ) (rows : Rows) (ds : List ℕ) → length (count_rows i rows ds) ≡ length ds
unfolding count_rows
length-count_rows i [] ds = refl
length-count_rows i (r ∷ rows) ds =
    ground (arith, length-count_rows (suc i) rows (count_row i r ds), length-count_row i r ds)

get_or-count_row :
    (i : ℕ) (r ds : List ℕ) (k : ℕ)
    → Unique r
    → All (λ j. j < length ds) r
    → get_or (count_row i r ds) k 0 ≡ get_or ds k 0 + one_if (not (i == k) && mem k r)
unfolding count_row
get_or-count_row i [] ds k u h = ground arith
get_or-count_row i (j ∷ r) ds k u h = elim (Bool-cases (i == j)) [
  | inl own ↦ ground (arith, get_or-count_row i r ds k u.1 h.1)
  | inr other ↦ rw other (
      ground (
        arith,
        get_or-count_row i r (increment ds j) k u.1 (rw length-increment h.1),
        get_or-increment ds j k h.0,
      ))
]

-- The two loops that fill `in_degree` compute the in-degree of every node, self-loops left out.
pub get_or-count_rows :
    (i : ℕ) (rows : Rows) (ds : List ℕ) (k : ℕ)
    → All (λ r. Unique r × All (λ j. j < length ds) r) rows
    → get_or (count_rows i rows ds) k 0 ≡ get_or ds k 0 + indegree [] i rows k
unfolding count_rows
get_or-count_rows i [] ds k h = omega arith
get_or-count_rows i (r ∷ rows) ds k h = ground (
  arith,
  get_or-count_row i r ds k h.0.0 h.0.1,
  get_or-count_rows (suc i) rows (count_row i r ds) k (rw length-count_row h.1),
)

below_or_above :
    (i node : ℕ) → (node ≡ i) ⊎ (i < node) × (node - i ≡ suc (node - suc i)) ⊎ (node < i)
below_or_above i node = omega arith

indegree-push_above :
    (done : List ℕ) (node i : ℕ) (rows : Rows) (j : ℕ)
    → node < i
    → indegree (done ++ node ∷ []) i rows j ≡ indegree done i rows j
indegree-push_above done node i [] j h = refl
indegree-push_above done node i (r ∷ rows) j h = ground (
  arith,
  mem-append i done (node ∷ []),
  indegree-push_above done node (suc i) rows j (omega arith),
)

indegree-push_here :
    (done : List ℕ) (node : ℕ) (r : List ℕ) (rows : Rows) (j : ℕ)
    → mem node done ≡ false
    → indegree (done ++ node ∷ []) node (r ∷ rows) j
        + one_if (leb node node && (not (node == j) && mem j r))
      ≡ indegree done node (r ∷ rows) j
indegree-push_here done node r rows j fresh = ground (
  arith,
  mem-append node done (node ∷ []),
  indegree-push_above done node (suc node) rows j (omega arith),
)

-- Placing a node takes it out of the count of each node in its row, and of no other.
indegree-push_from :
    (done : List ℕ) (node i : ℕ) (rows : Rows) (j : ℕ)
    → mem node done ≡ false
    → indegree (done ++ node ∷ []) i rows j
        + one_if (leb i node && (not (node == j) && mem j (row rows (node - i))))
      ≡ indegree done i rows j
indegree-push_from done node i [] j fresh = ground arith
indegree-push_from done node i (r ∷ rows) j fresh =
    let ih = indegree-push_from done node (suc i) rows j fresh in
    let pushed = mem-append i done (node ∷ []) in
    elim (below_or_above i node) [
      | inl here ↦ rw (← here) (
          let none_left : node - node ≡ 0 = omega arith in
          rw none_left (indegree-push_here done node r rows j fresh))
      | inr (inl (below, next)) ↦ rw next (ground (arith, ih, pushed))
      | inr (inr above) ↦ ground (arith, ih, pushed)
    ]

pub indegree-push :
    (done : List ℕ) (node : ℕ) (rows : Rows) (j : ℕ)
    → mem node done ≡ false
    → indegree (done ++ node ∷ []) 0 rows j + one_if (not (node == j) && mem j (row rows node))
      ≡ indegree done 0 rows j
indegree-push done node rows j fresh =
    let same : node - 0 ≡ node = omega arith in
    ground (arith, rw same at (indegree-push_from done node 0 rows j fresh))

-- A node whose count is zero has all of its predecessors placed.
placed_of_indegree_from :
    (done : List ℕ) (k : ℕ) (rows : Rows) (j : ℕ)
    → indegree done k rows j ≡ 0
    → (i : ℕ) → i < length rows
    → (not (k + i == j) && mem j (row rows i)) ≡ true
    → mem (k + i) done ≡ true
placed_of_indegree_from done k [] j zero_count i h e = absurd (omega arith)
placed_of_indegree_from done k (r ∷ rows) j zero_count zero h e =
    let same : k + 0 ≡ k = omega arith in rw same (ground (arith, rw same at e))
placed_of_indegree_from done k (r ∷ rows) j zero_count (suc i) h e =
    let next : k + suc i ≡ suc k + i = omega arith in
    rw next
      (placed_of_indegree_from done (suc k) rows j (ground arith) i (omega arith) (rw next at e))

pub placed_of_indegree :
    (done : List ℕ) (rows : Rows) (j : ℕ)
    → indegree done 0 rows j ≡ 0
    → (i : ℕ) → i < length rows
    → (not (i == j) && mem j (row rows i)) ≡ true
    → mem i done ≡ true
placed_of_indegree done rows j zero_count i h e =
    let same : 0 + i ≡ i = omega arith in
    rw same at (placed_of_indegree_from done 0 rows j zero_count i h (rw same e))
