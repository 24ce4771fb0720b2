-- ===== src/Plugin/Graph/Drain.antt =====
-- Kahn's loop: its invariant, and that it ends.
use rusty_gasket.Common.{
  ℕ, zero, suc, ◌+◌, ◌<◌, ◌≤◌, ◌≡◌, refl, ap, sym, ◌∙◌, inl, inr, Bool, true, false, not, ◌&&◌,
  ◌||◌, List, [], ◌∷◌, ◌++◌, Option, none, some, arith, ◌==◌, length, get_or, mem, Unique,
  mem-append, Bool-cases, All, Unique-append, mem_of_All,
}
use mathlib.Core.List.{append_assoc}
use rusty_gasket.Plugin.Graph.{Rows, row, relax, drain, sum}
use rusty_gasket.Plugin.Graph.Degrees.{indegree, indegree-push, placed_of_indegree}
use rusty_gasket.Plugin.Graph.Relax.{freed, Relaxed, relax-Relaxed, relax_total, relax_measure}

-- `j` stands in the row of another node `i`.
abbrev pub has_edge : Rows → ℕ → ℕ → Bool
has_edge adj i j = not (i == j) && mem j (row adj i)

-- Every node of the list comes after all of its predecessors; those of `seen` stand before it.
abbrev pub IsOrdered : Rows → List ℕ → List ℕ → Type 0
IsOrdered adj seen [] = Unit
IsOrdered adj seen (j ∷ l) =
    ((i : ℕ) → i < length adj → has_edge adj i j ≡ true → mem i seen ≡ true)
    × IsOrdered adj (j ∷ seen) l

-- A row holds no node twice, and nodes of the graph alone.
abbrev pub IsGraph : ℕ → Rows → Type 0
IsGraph n = All (λ r. Unique r × All (λ j. j < n) r)

pub record Inv (adj : Rows) (ds queue sorted : List ℕ) : Type 0 where
  pub same_length : length ds ≡ length adj
  pub degrees : (j : ℕ) → j < length adj → get_or ds j 0 ≡ indegree sorted 0 adj j
  pub settled : (j : ℕ) → j < length adj → get_or ds j 0 ≡ 0 → mem j (sorted ++ queue) ≡ true
  pub zero_degree : (j : ℕ) → mem j (sorted ++ queue) ≡ true → get_or ds j 0 ≡ 0
  pub distinct : Unique (sorted ++ queue)
  pub in_range : (j : ℕ) → mem j (sorted ++ queue) ≡ true → j < length adj
  pub ordered : IsOrdered adj [] sorted
  pub no_loops : (j : ℕ) → mem j sorted ≡ true → mem j (row adj j) ≡ false

IsOrdered-push :
    (adj : Rows) (seen l : List ℕ) (node : ℕ)
    → IsOrdered adj seen l
    → ((i : ℕ) → i < length adj → has_edge adj i node ≡ true → (mem i seen || mem i l) ≡ true)
    → IsOrdered adj seen (l ++ node ∷ [])
IsOrdered-push adj seen [] node o h = (λ i b e. ground (arith, h i b e), tt)
IsOrdered-push adj seen (j ∷ l) node o h =
    (o.0, IsOrdered-push adj (j ∷ seen) l node o.1 (λ i b e. ground (arith, h i b e)))

mem-freed : (ds js : List ℕ) (k : ℕ) → mem k (freed ds js) ≡ (mem k js && (get_or ds k 0 == 1))
mem-freed ds [] k = refl
mem-freed ds (j ∷ js) k = ground (arith, mem-freed ds js k)

Unique-freed : (ds js : List ℕ) → Unique js → Unique (freed ds js)
Unique-freed ds [] u = tt
Unique-freed ds (j ∷ js) u = ground (arith, mem-freed ds js j, Unique-freed ds js u.1)

Unique-row : (n : ℕ) (adj : Rows) (i : ℕ) → IsGraph n adj → Unique (row adj i)
Unique-row n [] i g = tt
Unique-row n (r ∷ adj) zero g = g.0.0
Unique-row n (r ∷ adj) (suc i) g = Unique-row n adj i g.1

row_bound : (n : ℕ) (adj : Rows) (i j : ℕ) → IsGraph n adj → mem j (row adj i) ≡ true → j < n
row_bound n [] i j g m = absurd (ground arith)
row_bound n (r ∷ adj) zero j g m = mem_of_All (λ k. k < n) r j g.0.1 m
row_bound n (r ∷ adj) (suc i) j g m = row_bound n adj i j g.1 m

Unique-middle : (xs : List ℕ) (k : ℕ) (ys : List ℕ) → Unique (xs ++ k ∷ ys) → mem k xs ≡ false
Unique-middle [] k ys u = refl
Unique-middle (x ∷ xs) k ys u =
    ground (arith, u.0, mem-append x xs (k ∷ ys), Unique-middle xs k ys u.1)

module _ (adj : Rows) (graph : IsGraph (length adj) adj) (ds queue sorted ds' queue' : List ℕ)
    (node : ℕ) (inv : Inv adj ds (node ∷ queue) sorted)
    (ran : relax (row adj node) ds queue ≡ some (ds', queue')) where
  round : Relaxed (row adj node) ds queue ds' queue'
  round =
      relax-Relaxed (row adj node) ds queue ds' queue' (Unique-row (length adj) adj node graph) ran

  at_node : mem node (sorted ++ node ∷ queue) ≡ true
  at_node = ground (arith, mem-append node sorted (node ∷ queue))

  regroup : (sorted ++ node ∷ []) ++ queue' ≡ (sorted ++ node ∷ queue) ++ freed ds (row adj node)
  regroup =
      rw (round.queued, append_assoc sorted (node ∷ []) (queue ++ freed ds (row adj node)))
        (sym (append_assoc sorted (node ∷ queue) (freed ds (row adj node))))

  fresh_node : mem node sorted ≡ false
  fresh_node = Unique-middle sorted node queue inv.distinct

  no_self : mem node (row adj node) ≡ false
  no_self = ground (
    arith,
    round.had_one node,
    inv.zero_degree node at_node,
    Bool-cases (mem node (row adj node)),
  )

  placed :
      (j : ℕ)
      → mem j ((sorted ++ node ∷ []) ++ queue')
        ≡ (mem j (sorted ++ node ∷ queue) || (mem j (row adj node) && (get_or ds j 0 == 1)))
  placed j = rw regroup (
      mem-append j (sorted ++ node ∷ queue) (freed ds (row adj node))
      ∙ ap (λ b. mem j (sorted ++ node ∷ queue) || b) (mem-freed ds (row adj node) j))

  step-Inv : Inv adj ds' queue' (sorted ++ node ∷ [])
  step-Inv = record {
    same_length = omega (arith, round.same_length, inv.same_length);
    degrees = λ j h. ground (
      arith,
      round.one_less j,
      inv.degrees j h,
      indegree-push sorted node adj j fresh_node,
      no_self,
    );
    settled = λ j h z. ground (arith, placed j, round.one_less j, inv.settled j h);
    zero_degree =
        λ j m. ground (arith, placed j, round.one_less j, round.had_one j, inv.zero_degree j);
    distinct = rw regroup (
        Unique-append (sorted ++ node ∷ queue) (freed ds (row adj node)) inv.distinct
          (Unique-freed ds (row adj node) (Unique-row (length adj) adj node graph))
          (λ k m. ground (
            arith,
            mem-freed ds (row adj node) k,
            inv.zero_degree k,
            Bool-cases (mem k (sorted ++ node ∷ queue)),
          )));
    in_range =
        λ j m. ground (arith, placed j, inv.in_range j, row_bound (length adj) adj node j graph);
    ordered = IsOrdered-push adj [] sorted node inv.ordered (λ i b e.
        placed_of_indegree sorted adj node
          (ground
            (arith, inv.degrees node (inv.in_range node at_node), inv.zero_degree node at_node))
          i b e);
    no_loops = λ j m. elim (Bool-cases (j == node)) [
      | inl here ↦ let same : j ≡ node = ground arith in rw same no_self
      | inr other ↦ inv.no_loops j (ground (arith, mem-append j sorted (node ∷ [])))
    ];
  }

drain_step :
    (fuel : ℕ) (adj : Rows) (ds queue sorted : List ℕ) (node : ℕ) (ds' order : List ℕ)
    → IsGraph (length adj) adj
    → ((es q : List ℕ)
        → Inv adj es q (sorted ++ node ∷ [])
        → drain fuel adj es q (sorted ++ node ∷ []) ≡ some (ds', order)
        → Inv adj ds' [] order)
    → Inv adj ds (node ∷ queue) sorted
    → (o : Option (List ℕ × List ℕ)) → relax (row adj node) ds queue ≡ o
    → drain (suc fuel) adj ds (node ∷ queue) sorted ≡ some (ds', order)
    → Inv adj ds' [] order
unfolding drain
drain_step fuel adj ds queue sorted node ds' order graph ih inv none ran h =
    let out = rw (ran, drain) at h in absurd (ground arith)
drain_step fuel adj ds queue sorted node ds' order graph ih inv (some (es, q)) ran h =
    ih es q (step-Inv adj graph ds queue sorted es q node inv ran) (rw (ran, drain) at h)

-- The loop keeps the invariant up to its end.
pub drain-Inv :
    (fuel : ℕ) (adj : Rows) (ds queue sorted ds' order : List ℕ)
    → IsGraph (length adj) adj
    → Inv adj ds queue sorted
    → drain fuel adj ds queue sorted ≡ some (ds', order)
    → Inv adj ds' [] order
unfolding drain
drain-Inv fuel adj ds [] sorted ds' order graph inv h =
    let same_degrees : ds ≡ ds' = cc in
    let same_order : sorted ≡ order = cc in rw (← same_degrees, ← same_order) inv
drain-Inv zero adj ds (node ∷ queue) sorted ds' order graph inv h = absurd (ground arith)
drain-Inv (suc fuel) adj ds (node ∷ queue) sorted ds' order graph inv h =
    drain_step fuel adj ds queue sorted node ds' order graph
      (λ es q i e. drain-Inv fuel adj es q (sorted ++ node ∷ []) ds' order graph i e) inv
      (relax (row adj node) ds queue) refl h

has_predecessor :
    (adj : Rows) (ds queue sorted : List ℕ) (node : ℕ)
    → IsGraph (length adj) adj
    → ((i : ℕ) → mem i (row adj i) ≡ false)
    → Inv adj ds (node ∷ queue) sorted
    → (k : ℕ) → mem k (row adj node) ≡ true
    → 0 < get_or ds k 0
has_predecessor adj ds queue sorted node graph loops inv k m = ground (
  arith,
  inv.degrees k (row_bound (length adj) adj node k graph m),
  indegree-push sorted node adj k (Unique-middle sorted node queue inv.distinct),
  loops node,
)

-- With no self-loop, and fuel for the queue and the in-degrees, the loop neither panics nor runs
-- out of fuel.
pub drain_total :
    (fuel : ℕ) (adj : Rows) (ds queue sorted : List ℕ)
    → IsGraph (length adj) adj
    → ((i : ℕ) → mem i (row adj i) ≡ false)
    → Inv adj ds queue sorted
    → length queue + sum ds ≤ fuel
    → (ds' : List ℕ) × (order : List ℕ) × (drain fuel adj ds queue sorted ≡ some (ds', order))
unfolding drain
drain_total fuel adj ds [] sorted graph loops inv enough = (ds, sorted, refl)
drain_total zero adj ds (node ∷ queue) sorted graph loops inv enough = absurd (omega arith)
drain_total (suc fuel) adj ds (node ∷ queue) sorted graph loops inv enough =
    let (es, q, ran) =
      relax_total (row adj node) ds queue (Unique-row (length adj) adj node graph)
        (has_predecessor adj ds queue sorted node graph loops inv) in
    rw (ran, drain)
      (drain_total fuel adj es q (sorted ++ node ∷ []) graph loops
        (step-Inv adj graph ds queue sorted es q node inv ran)
        (omega (arith, relax_measure (row adj node) ds queue es q ran)))
