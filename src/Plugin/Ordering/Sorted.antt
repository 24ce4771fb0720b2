-- ===== src/Plugin/Ordering/Sorted.antt =====
-- What the second half of the sort returns.
use mathlib.Core.List.{append-nil}
use rusty_gasket.Common.{
  ℕ, zero, suc, ◌+◌, ◌-◌, ◌<◌, ◌≤◌, ◌≡◌, refl, ap, sym, ◌∙◌, ◌≢◌, ◌⊎◌, inl, inr, true, false, List,
  [], ◌∷◌, Option, none, some, arith, length, get_or, mem, Unique, Bool-cases, replicate,
}
use rusty_gasket.Plugin.Graph.{Rows, row, count_rows, ready_from}
use rusty_gasket.Plugin.Graph.Degrees.{indegree, length-count_rows, get_or-count_rows}
use rusty_gasket.Plugin.Graph.Drain.{IsGraph, IsOrdered, Inv, drain-Inv, drain_total}
use rusty_gasket.Plugin.Ordering.{Declared, ok, panicked, finish, sort_rows}
use native.Mathlib.Nat.{le_refl}

get_or-replicate : (n : ℕ) {d : ℕ} (j : ℕ) → get_or (replicate n 0) j 0 ≡ d → d ≡ 0
get_or-replicate zero j h = sym h
get_or-replicate (suc n) zero h = sym h
get_or-replicate (suc n) (suc j) h = get_or-replicate n j h

pub length-replicate : {A : Type 0} (n : ℕ) (d : A) → length (replicate n d) ≡ n
length-replicate zero d = refl
length-replicate (suc n) d = ap suc (length-replicate n d)

ready_from_hit :
    (i : ℕ) (ds : List ℕ) (d : ℕ)
    → d < length ds
    → get_or ds d 0 ≡ 0
    → mem (i + d) (ready_from i ds) ≡ true
unfolding ready_from
ready_from_hit i [] d b z = absurd (omega arith)
ready_from_hit i (x ∷ ds) zero b z = ground arith
ready_from_hit i (x ∷ ds) (suc d) b z =
    let next : i + suc d ≡ suc i + d = omega arith in
    rw next (ground (arith, ready_from_hit (suc i) ds d (omega arith) z))

ready_from_only :
    (i : ℕ) (ds : List ℕ) (j : ℕ)
    → mem j (ready_from i ds) ≡ true
    → (i ≤ j) × (j < i + length ds) × (get_or ds (j - i) 0 ≡ 0)
unfolding ready_from
ready_from_only i [] j m = absurd (ground arith)
ready_from_only i (x ∷ ds) j m =
    let cases : (j ≡ i) × (x ≡ 0) ⊎ (mem j (ready_from (suc i) ds) ≡ true) = ground arith in
    elim cases [
      | inl (here, zero_deg) ↦
          let start : j - i ≡ 0 = omega arith in (omega arith, omega arith, rw start zero_deg)
      | inr later ↦
          let (above, below, zero_deg) = ready_from_only (suc i) ds j later in
          let next : j - i ≡ suc (j - suc i) = omega arith in
          (omega arith, omega arith, rw next zero_deg)
    ]

Unique-ready_from : (i : ℕ) (ds : List ℕ) → Unique (ready_from i ds)
unfolding ready_from
Unique-ready_from i [] = tt
Unique-ready_from i (x ∷ ds) =
    let later : (mem i (ready_from (suc i) ds) ≡ true → ⊥) =
      λ m. absurd (omega (arith, ready_from_only (suc i) ds i m)) in
    ground (arith, Unique-ready_from (suc i) ds, later, Bool-cases (mem i (ready_from (suc i) ds)))

module _ (n : ℕ) (adj : Rows) (same : length adj ≡ n) (graph : IsGraph n adj) where
  abbrev pub degrees : List ℕ
  degrees = count_rows 0 adj (replicate n 0)

  length-degrees : length degrees ≡ length adj
  length-degrees = length-count_rows 0 adj (replicate n 0) ∙ length-replicate n 0 ∙ sym same

  degrees-indegree : (j : ℕ) → get_or degrees j 0 ≡ indegree [] 0 adj j
  degrees-indegree j = omega (
    arith,
    get_or-count_rows 0 adj (replicate n 0) j (rw length-replicate graph),
    get_or-replicate n j refl,
  )

  ready :
      (j : ℕ) → mem j (ready_from 0 degrees) ≡ true → (j < length adj) × (get_or degrees j 0 ≡ 0)
  ready j m =
      let (_, below, zero_deg) = ready_from_only 0 degrees j m in
      let same : j - 0 ≡ j = omega arith in (omega (arith, length-degrees), rw same at zero_deg)

  pub start-Inv : Inv adj degrees (ready_from 0 degrees) []
  start-Inv = record {
    same_length = length-degrees;
    degrees = λ j h. degrees-indegree j;
    settled = λ j h z.
        let same : 0 + j ≡ j = omega arith in
        rw same at (ready_from_hit 0 degrees j (omega (arith, length-degrees)) z);
    zero_degree = λ j m. (ready j m).1;
    distinct = Unique-ready_from 0 degrees;
    in_range = λ j m. (ready j m).0;
    ordered = tt;
    no_loops = λ j m. absurd (ground arith);
  }

-- Every node once, each after all of its predecessors.
pub record IsTopological (adj : Rows) (order : List ℕ) : Type 0 where
  pub distinct : Unique order
  pub complete : length order ≡ length adj
  pub in_range : (j : ℕ) → mem j order ≡ true → j < length adj
  pub ordered : IsOrdered adj [] order
  pub no_loops : (j : ℕ) → mem j order ≡ true → mem j (row adj j) ≡ false

finish-eq-ok :
    (plugins : List Declared) (o : Option (List ℕ × List ℕ)) (order : List ℕ)
    → finish plugins o ≡ ok order
    → (left : List ℕ) × (o ≡ some (left, order)) × (length order ≡ length plugins)
unfolding finish
finish-eq-ok plugins none order h = absurd (ground arith)
finish-eq-ok plugins (some (left, sorted)) order h = (left, ground arith, ground arith)

module _ (plugins : List Declared) (adj : Rows) (same : length adj ≡ length plugins)
    (graph : IsGraph (length plugins) adj) where
  pub sort_rows-IsTopological :
      (order : List ℕ) → sort_rows plugins adj ≡ ok order → IsTopological adj order
  unfolding sort_rows
  sort_rows-IsTopological order h =
      let n = length plugins in
      let (left, drained, full) = finish-eq-ok plugins _ order h in
      let inv =
        drain-Inv _ adj (degrees n adj same graph) _ [] left order (rw same graph)
          (start-Inv n adj same graph) drained in
      record {
        distinct = rw append-nil at inv.distinct;
        complete = omega arith;
        in_range = λ j m. inv.in_range j (rw append-nil m);
        ordered = inv.ordered;
        no_loops = inv.no_loops;
      }

  -- With no self-loop the loop does not panic.
  pub sort_rows-ne-panicked :
      ((i : ℕ) → mem i (row adj i) ≡ false) → sort_rows plugins adj ≢ panicked
  unfolding sort_rows finish
  sort_rows-ne-panicked loops h =
      let n = length plugins in
      let (left, order, drained) =
        drain_total _ adj (degrees n adj same graph) _ [] (rw same graph) loops
          (start-Inv n adj same graph) (le_refl _) in
      let stuck = rw drained at h in ground arith
