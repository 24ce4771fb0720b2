-- ===== src/Plugin/Ordering/Adjacency.antt =====
-- The adjacency rows that the loops of `topological_sort` fill: each row ascending and in range, and
-- what one `insert_edge` adds.
use rusty_gasket.Common.{
  ℕ, zero, suc, ◌<◌, ◌≡◌, refl, ap, ◌⊎◌, inl, inr, true, false, ◌&&◌, ◌||◌, List, [], ◌∷◌, arith,
  ◌==◌, ltb, length, mem, Unique, All, All-of_mem, mem_of_All, replicate, Bool-cases,
}
use rusty_gasket.Plugin.Graph.{Rows, row, insert, insert_edge}
use rusty_gasket.Plugin.Graph.Drain.{IsGraph}

pub mem-insert : (j : ℕ) (r : List ℕ) (k : ℕ) → mem k (insert j r) ≡ (k == j || mem k r)
unfolding insert
mem-insert j [] k = ground arith
mem-insert j (x ∷ xs) k = ground (arith, mem-insert j xs k)

-- The rows are sets: ascending lists.
abbrev pub IsAscending : List ℕ → Type 0
IsAscending [] = Unit
IsAscending (k ∷ ks) = All (λ x. k < x) ks × IsAscending ks

All-insert : (P : ℕ → Type 0) (j : ℕ) (r : List ℕ) → P j → All P r → All P (insert j r)
All-insert P j r here h = All-of_mem P (insert j r) (λ k m. pick k (rw mem-insert at m))
  where
    pick : (k : ℕ) → (k == j || mem k r) ≡ true → P k
    pick k m = elim (both k m) [ inl same ↦ rw same here | inr old ↦ mem_of_All P r k h old ]
      where
        both : (k : ℕ) → (k == j || mem k r) ≡ true → (k ≡ j) ⊎ (mem k r ≡ true)
        both k m = ground arith

All-below : (j x : ℕ) (xs : List ℕ) → j < x → All (λ y. x < y) xs → All (λ y. j < y) xs
All-below j x [] b h = tt
All-below j x (y ∷ ys) b h = (omega (arith, h.0), All-below j x ys b h.1)

insert-IsAscending : (j : ℕ) (r : List ℕ) → IsAscending r → IsAscending (insert j r)
unfolding insert
insert-IsAscending j [] h = (tt, tt)
insert-IsAscending j (x ∷ xs) h = elim (Bool-cases (ltb j x)) [
  | inl below ↦ rw below ((ground arith, All-below j x xs (ground arith) h.0), h)
  | inr above ↦ rw above (elim (Bool-cases (j == x)) [
    | inl same ↦ rw same h
    | inr other ↦
        rw other (All-insert (λ y. x < y) j xs (ground arith) h.0, insert-IsAscending j xs h.1)
  ])
]

fresh_of_above : (j : ℕ) (xs : List ℕ) → All (λ y. j < y) xs → mem j xs ≡ false
fresh_of_above j [] h = refl
fresh_of_above j (x ∷ xs) h = ground (arith, h.0, fresh_of_above j xs h.1)

pub IsAscending-Unique : (r : List ℕ) → IsAscending r → Unique r
IsAscending-Unique [] h = tt
IsAscending-Unique (x ∷ xs) h = (fresh_of_above x xs h.0, IsAscending-Unique xs h.1)

abbrev pub IsRow : ℕ → List ℕ → Type 0
IsRow n r = IsAscending r × All (λ j. j < n) r

pub length-insert_edge : (adj : Rows) (i j : ℕ) → length (insert_edge adj i j) ≡ length adj
unfolding insert_edge
length-insert_edge [] i j = refl
length-insert_edge (r ∷ adj) zero j = refl
length-insert_edge (r ∷ adj) (suc i) j = ap suc (length-insert_edge adj i j)

pub insert_edge-IsRow :
    (n : ℕ) (adj : Rows) (i j : ℕ) → j < n → All (IsRow n) adj → All (IsRow n) (insert_edge adj i j)
unfolding insert_edge
insert_edge-IsRow n [] i j b h = tt
insert_edge-IsRow n (r ∷ adj) zero j b h =
    ((insert-IsAscending j r h.0.0, All-insert (λ k. k < n) j r b h.0.1), h.1)
insert_edge-IsRow n (r ∷ adj) (suc i) j b h = (h.0, insert_edge-IsRow n adj i j b h.1)

-- One insertion adds one edge, and no other.
pub mem-insert_edge :
    (adj : Rows) (i j a k : ℕ)
    → i < length adj
    → mem k (row (insert_edge adj i j) a) ≡ (a == i && k == j || mem k (row adj a))
unfolding insert_edge
mem-insert_edge [] i j a k h = absurd (omega arith)
mem-insert_edge (r ∷ adj) zero j zero k h = rw mem-insert (ground arith)
mem-insert_edge (r ∷ adj) zero j (suc a) k h = ground arith
mem-insert_edge (r ∷ adj) (suc i) j zero k h = ground arith
mem-insert_edge (r ∷ adj) (suc i) j (suc a) k h = ground (arith, mem-insert_edge adj i j a k)

pub replicate-IsRow : (n m : ℕ) → All (IsRow m) (replicate n [])
replicate-IsRow zero m = tt
replicate-IsRow (suc n) m = ((tt, tt), replicate-IsRow n m)

pub mem-row-replicate : (n a k : ℕ) → mem k (row (replicate n []) a) ≡ false
mem-row-replicate zero a k = refl
mem-row-replicate (suc n) zero k = refl
mem-row-replicate (suc n) (suc a) k = mem-row-replicate n a k

pub IsGraph-of_IsRow : (n : ℕ) (adj : Rows) → All (IsRow n) adj → IsGraph n adj
IsGraph-of_IsRow n [] h = tt
IsGraph-of_IsRow n (r ∷ adj) h = ((IsAscending-Unique r h.0.0, h.0.1), IsGraph-of_IsRow n adj h.1)
