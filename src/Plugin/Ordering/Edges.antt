-- ===== src/Plugin/Ordering/Edges.antt =====
-- The loops that turn the declared constraints into edges: what each of them adds.
use rusty_gasket.Common.{
  ℕ, ◌<◌, ◌≡◌, refl, ◌∙◌, ◌⊎◌, inl, inr, Bool, true, false, arith, length, if◌then◌else◌, mem, All,
}
use rusty_gasket.Plugin.Graph.{Rows, row, insert_edge}
use rusty_gasket.Plugin.Ordering.Adjacency.{
  IsRow, length-insert_edge, insert_edge-IsRow, mem-insert_edge,
}

-- There is an edge from `a` to `k`.
abbrev pub Has : Rows → ℕ → ℕ → Type 0
Has adj a k = mem k (row adj a) ≡ true

-- `adj'` has `n` rows again, and its edges are those of `adj` and those that meet `P`.
pub record Adds (n : ℕ) (P : ℕ → ℕ → Type 0) (adj adj' : Rows) : Type 0 where
  pub rows : length adj' ≡ n
  pub sets : All (IsRow n) adj'
  pub keeps : (a k : ℕ) → Has adj a k → Has adj' a k
  pub adds : (a k : ℕ) → P a k → Has adj' a k
  pub only : (a k : ℕ) → Has adj' a k → Has adj a k ⊎ P a k

module _ (n : ℕ) where
  pub Adds-none :
      (P : ℕ → ℕ → Type 0) (adj : Rows)
      → length adj ≡ n
      → All (IsRow n) adj
      → ((a k : ℕ) → ¬ P a k)
      → Adds n P adj adj
  Adds-none P adj same sets never = record {
    rows = same;
    sets = sets;
    keeps = λ a k h. h;
    adds = λ a k p. absurd (never a k p);
    only = λ a k h. inl h;
  }

  pub Adds-trans :
      (P Q : ℕ → ℕ → Type 0) (adj adj' adj'' : Rows)
      → Adds n P adj adj'
      → Adds n Q adj' adj''
      → Adds n (λ a k. P a k ⊎ Q a k) adj adj''
  Adds-trans P Q adj adj' adj'' g h = record {
    rows = h.rows;
    sets = h.sets;
    keeps = λ a k e. h.keeps a k (g.keeps a k e);
    adds = λ a k e. elim e [ inl p ↦ h.keeps a k (g.adds a k p) | inr q ↦ h.adds a k q ];
    only = λ a k e. elim (h.only a k e) [
      | inl old ↦ elim (g.only a k old) [ inl older ↦ inl older | inr p ↦ inr (inl p) ]
      | inr new ↦ inr (inr new)
    ];
  }

  pub Adds-iff :
      (P Q : ℕ → ℕ → Type 0) (adj adj' : Rows)
      → ((a k : ℕ) → P a k → Q a k)
      → ((a k : ℕ) → Q a k → P a k)
      → Adds n P adj adj'
      → Adds n Q adj adj'
  Adds-iff P Q adj adj' to from g = record {
    rows = g.rows;
    sets = g.sets;
    keeps = g.keeps;
    adds = λ a k q. g.adds a k (from a k q);
    only = λ a k e. elim (g.only a k e) [ inl old ↦ inl old | inr new ↦ inr (to a k new) ];
  }

  -- A step that is taken under a test.
  pub Adds-if :
      (b : Bool) (P : ℕ → ℕ → Type 0) (adj adj' : Rows)
      → length adj ≡ n
      → All (IsRow n) adj
      → Adds n P adj adj'
      → Adds n (λ a k. (b ≡ true) × P a k) adj (if b then adj' else adj)
  Adds-if true P adj adj' same sets g =
      Adds-iff P (λ a k. ◌≡◌ {A = Bool} true true × P a k) adj adj' (λ a k p. (refl, p))
        (λ a k p. p.1) g
  Adds-if false P adj adj' same sets g =
      Adds-none (λ a k. ◌≡◌ {A = Bool} false true × P a k) adj same sets
        (λ a k p. ground (arith, p.0))

  pub insert_edge-Adds :
      (adj : Rows) (i j : ℕ)
      → length adj ≡ n
      → All (IsRow n) adj
      → i < n
      → j < n
      → Adds n (λ a k. (a ≡ i) × (k ≡ j)) adj (insert_edge adj i j)
  insert_edge-Adds adj i j same sets bi bj = record {
    rows = length-insert_edge adj i j ∙ same;
    sets = insert_edge-IsRow n adj i j bj sets;
    keeps = λ a k h. ground (arith, mem-insert_edge adj i j a k, same);
    adds = λ a k h. ground (arith, mem-insert_edge adj i j a k, same, h.0, h.1);
    only = λ a k h. ground (arith, mem-insert_edge adj i j a k, same);
  }
