-- ===== src/Plugin/Ordering/Loops.antt =====
-- The four loops over the constraints of one plugin, and the loop over the plugins: the rows that
-- they return hold exactly the edges that the constraints ask for.
use Prim.Native.String.{String}
use rusty_gasket.Common.{
  ℕ, suc, ◌+◌, ◌<◌, ◌≡◌, refl, ◌≢◌, ◌⊎◌, inl, inr, Bool, true, false, not, ◌&&◌, List, [], ◌∷◌,
  some, arith, ◌==◌, length, Option-cases, Bool-cases, if◌then◌else◌, All,
}
use rusty_gasket.Plugin.Graph.{Rows, insert_edge}
use rusty_gasket.Plugin.Ordering.{
  Declared, Names, find_name, SortResult, ok, err, panicked, ◌>>=◌, first_edges, last_edges,
  before_edges, after_edges, plugin_edges, all_edges,
}
use rusty_gasket.Plugin.Ordering.Adjacency.{IsRow}
use rusty_gasket.Plugin.Ordering.Edges.{
  Adds, Adds-none, Adds-trans, Adds-iff, Adds-if, insert_edge-Adds,
}

-- `k` is the index of a plugin of `rest` that fails the test; `rest` is numbered from `j` on.
abbrev pub Hit : (Declared → Bool) → List Declared → ℕ → ℕ → Type 0
Hit test [] j k = ⊥
Hit test (q ∷ rest) j k = (k ≡ j) × (test q ≡ false) ⊎ Hit test rest (suc j) k

-- `k` is the index that one of the names is indexed at.
abbrev pub IsNamed : Names → List String → ℕ → Type 0
IsNamed m [] k = ⊥
IsNamed m (t ∷ ts) k = (find_name t m ≡ some k) ⊎ IsNamed m ts k

module _ (n i : ℕ) (bound : i < n) where
  abbrev pub FirstHit : List Declared → ℕ → ℕ → ℕ → Type 0
  FirstHit rest j a k = (a ≡ i) × (k ≢ i) × Hit (λ q. q.ordering.first) rest j k

  first_edges-Adds :
      (j : ℕ) (rest : List Declared) (adj : Rows)
      → length adj ≡ n
      → All (IsRow n) adj
      → j + length rest ≡ n
      → Adds n (FirstHit rest j) adj (first_edges i j rest adj)
  unfolding first_edges
  first_edges-Adds j [] adj same sets full =
      Adds-none n (FirstHit [] j) adj same sets (λ a k h. h.2)
  first_edges-Adds j (q ∷ rest) adj same sets full =
      elim (Bool-cases (not (j == i) && not q.ordering.first)) [
        | inl hit ↦
            let here = insert_edge-Adds n adj i j same sets bound (omega arith) in
            rw hit (
              Adds-iff n (λ a k. (a ≡ i) × (k ≡ j) ⊎ FirstHit rest (suc j) a k)
                (FirstHit (q ∷ rest) j) adj _ (λ a k p. ground arith) (λ a k p. ground arith)
                (Adds-trans n (λ a k. (a ≡ i) × (k ≡ j)) (FirstHit rest (suc j)) adj
                  (insert_edge adj i j) _ here
                  (first_edges-Adds (suc j) rest (insert_edge adj i j) here.rows here.sets
                    (omega arith))))
        | inr miss ↦ rw miss (
            Adds-iff n (FirstHit rest (suc j)) (FirstHit (q ∷ rest) j) adj _ (λ a k p. ground arith)
              (λ a k p. ground arith) (first_edges-Adds (suc j) rest adj same sets (omega arith)))
      ]

  abbrev pub BeforeHit : Names → List String → ℕ → ℕ → Type 0
  BeforeHit m ts a k = (a ≡ i) × IsNamed m ts k

  module _ (m : Names) (known : (name : String) (j : ℕ) → find_name name m ≡ some j → j < n)
      (name : String) where
    before_edges-Adds :
        (ts : List String) (adj adj' : Rows)
        → length adj ≡ n
        → All (IsRow n) adj
        → before_edges m name i ts adj ≡ ok adj'
        → Adds n (BeforeHit m ts) adj adj'
    unfolding before_edges
    before_edges-Adds [] adj adj' same sets h =
        let e : adj ≡ adj' = ground arith in
        rw (← e) (Adds-none n (BeforeHit m []) adj same sets (λ a k h. h.1))
    before_edges-Adds (t ∷ ts) adj adj' same sets h = elim (Option-cases (find_name t m)) [
      | inl missing ↦ absurd (ground arith)
      | inr (j, found) ↦
          let here = insert_edge-Adds n adj i j same sets bound (known t j found) in
          Adds-iff n (λ a k. (a ≡ i) × (k ≡ j) ⊎ BeforeHit m ts a k) (BeforeHit m (t ∷ ts)) adj adj'
            (λ a k p. ground arith) (λ a k p. ground arith)
            (Adds-trans n (λ a k. (a ≡ i) × (k ≡ j)) (BeforeHit m ts) adj (insert_edge adj i j) adj'
              here
              (before_edges-Adds ts (insert_edge adj i j) adj' here.rows here.sets (ground arith)))
    ]

  abbrev pub LastHit : List Declared → ℕ → ℕ → ℕ → Type 0
  LastHit rest j a k = (k ≡ i) × (a ≢ i) × Hit (λ q. q.ordering.last) rest j a

  last_edges-Adds :
      (j : ℕ) (rest : List Declared) (adj : Rows)
      → length adj ≡ n
      → All (IsRow n) adj
      → j + length rest ≡ n
      → Adds n (LastHit rest j) adj (last_edges i j rest adj)
  unfolding last_edges
  last_edges-Adds j [] adj same sets full = Adds-none n (LastHit [] j) adj same sets (λ a k h. h.2)
  last_edges-Adds j (q ∷ rest) adj same sets full =
      elim (Bool-cases (not (j == i) && not q.ordering.last)) [
        | inl hit ↦
            let here = insert_edge-Adds n adj j i same sets (omega arith) bound in
            rw hit (
              Adds-iff n (λ a k. (a ≡ j) × (k ≡ i) ⊎ LastHit rest (suc j) a k)
                (LastHit (q ∷ rest) j) adj _ (λ a k p. ground arith) (λ a k p. ground arith)
                (Adds-trans n (λ a k. (a ≡ j) × (k ≡ i)) (LastHit rest (suc j)) adj
                  (insert_edge adj j i) _ here
                  (last_edges-Adds (suc j) rest (insert_edge adj j i) here.rows here.sets
                    (omega arith))))
        | inr miss ↦ rw miss (
            Adds-iff n (LastHit rest (suc j)) (LastHit (q ∷ rest) j) adj _ (λ a k p. ground arith)
              (λ a k p. ground arith) (last_edges-Adds (suc j) rest adj same sets (omega arith)))
      ]

  abbrev pub AfterHit : Names → List String → ℕ → ℕ → Type 0
  AfterHit m ts a k = (k ≡ i) × IsNamed m ts a

  module _ (m : Names) (known : (name : String) (j : ℕ) → find_name name m ≡ some j → j < n)
      (name : String) where
    after_edges-Adds :
        (ts : List String) (adj adj' : Rows)
        → length adj ≡ n
        → All (IsRow n) adj
        → after_edges m name i ts adj ≡ ok adj'
        → Adds n (AfterHit m ts) adj adj'
    unfolding after_edges
    after_edges-Adds [] adj adj' same sets h =
        let e : adj ≡ adj' = ground arith in
        rw (← e) (Adds-none n (AfterHit m []) adj same sets (λ a k h. h.1))
    after_edges-Adds (t ∷ ts) adj adj' same sets h = elim (Option-cases (find_name t m)) [
      | inl missing ↦ absurd (ground arith)
      | inr (j, found) ↦
          let here = insert_edge-Adds n adj j i same sets (known t j found) bound in
          Adds-iff n (λ a k. (a ≡ j) × (k ≡ i) ⊎ AfterHit m ts a k) (AfterHit m (t ∷ ts)) adj adj'
            (λ a k p. ground arith) (λ a k p. ground arith)
            (Adds-trans n (λ a k. (a ≡ j) × (k ≡ i)) (AfterHit m ts) adj (insert_edge adj j i) adj'
              here
              (after_edges-Adds ts (insert_edge adj j i) adj' here.rows here.sets (ground arith)))
    ]

pub >>=-eq-ok :
    {A B : Type 0} (r : SortResult A) (f : A → SortResult B) (b : B)
    → (r >>= f) ≡ ok b
    → (a : A) × (r ≡ ok a) × (f a ≡ ok b)
>>=-eq-ok (ok a) f b h = (a, refl, h)
>>=-eq-ok (err e) f b h = cc
>>=-eq-ok panicked f b h = cc

-- What the constraints of the plugin at index `i` ask for.
abbrev pub PluginHit : List Declared → Names → ℕ → Declared → ℕ → ℕ → Type 0
PluginHit plugins m i p a k =
    (p.ordering.first ≡ true) × ((a ≡ i) × (k ≢ i) × Hit (λ q. q.ordering.first) plugins 0 k)
    ⊎ (p.ordering.last ≡ true) × ((k ≡ i) × (a ≢ i) × Hit (λ q. q.ordering.last) plugins 0 a)
    ⊎ (a ≡ i) × IsNamed m p.ordering.before k
    ⊎ (k ≡ i) × IsNamed m p.ordering.after a

abbrev pub AllHit : List Declared → Names → ℕ → List Declared → ℕ → ℕ → Type 0
AllHit plugins m i [] a k = ⊥
AllHit plugins m i (p ∷ rest) a k = PluginHit plugins m i p a k ⊎ AllHit plugins m (suc i) rest a k

module _ (plugins : List Declared) (m : Names)
    (known : (name : String) (j : ℕ) → find_name name m ≡ some j → j < length plugins) where
  plugin_edges-Adds :
      (i : ℕ) (p : Declared) (adj adj' : Rows)
      → i < length plugins
      → length adj ≡ length plugins
      → All (IsRow (length plugins)) adj
      → plugin_edges plugins m i p adj ≡ ok adj'
      → Adds (length plugins) (PluginHit plugins m i p) adj adj'
  unfolding plugin_edges
  plugin_edges-Adds i p adj adj' b same sets h =
      let n = length plugins in
      let with_first : Rows = if p.ordering.first then first_edges i 0 plugins adj else adj in
      let with_last : Rows =
        if p.ordering.last then last_edges i 0 plugins with_first else with_first in
      let FirstAdded : ℕ → ℕ → Type 0 =
        λ a k. (p.ordering.first ≡ true) × FirstHit n i b plugins 0 a k in
      let LastAdded : ℕ → ℕ → Type 0 =
        λ a k. (p.ordering.last ≡ true) × LastHit n i b plugins 0 a k in
      let f : Adds n FirstAdded adj with_first =
        Adds-if n p.ordering.first (FirstHit n i b plugins 0) adj _ same sets
          (first_edges-Adds n i b 0 plugins adj same sets (omega arith)) in
      let l : Adds n LastAdded with_first with_last =
        Adds-if n p.ordering.last (LastHit n i b plugins 0) _ _ f.rows f.sets
          (last_edges-Adds n i b 0 plugins with_first f.rows f.sets (omega arith)) in
      let chained : (before_edges m p.name i p.ordering.before with_last
            >>= after_edges m p.name i p.ordering.after)
          ≡ ok adj' =
        ground arith in
      let (mid, eb, ea) = >>=-eq-ok _ (after_edges m p.name i p.ordering.after) adj' chained in
      let before_added =
        before_edges-Adds n i b m known p.name p.ordering.before with_last mid l.rows l.sets eb in
      let after_added =
        after_edges-Adds n i b m known p.name p.ordering.after mid adj' before_added.rows
          before_added.sets ea in
      Adds-iff n
        (λ a k.
          ((FirstAdded a k ⊎ LastAdded a k) ⊎ BeforeHit n i b m p.ordering.before a k)
          ⊎ AfterHit n i b m p.ordering.after a k)
        (PluginHit plugins m i p) adj adj' (λ a k q. ground arith) (λ a k q. ground arith)
        (Adds-trans n
          (λ a k. (FirstAdded a k ⊎ LastAdded a k) ⊎ BeforeHit n i b m p.ordering.before a k)
          (AfterHit n i b m p.ordering.after) adj mid adj'
          (Adds-trans n (λ a k. FirstAdded a k ⊎ LastAdded a k)
            (BeforeHit n i b m p.ordering.before) adj with_last mid
            (Adds-trans n FirstAdded LastAdded adj with_first with_last f l) before_added)
          after_added)

  pub all_edges-Adds :
      (i : ℕ) (rest : List Declared) (adj adj' : Rows)
      → i + length rest ≡ length plugins
      → length adj ≡ length plugins
      → All (IsRow (length plugins)) adj
      → all_edges plugins m i rest adj ≡ ok adj'
      → Adds (length plugins) (AllHit plugins m i rest) adj adj'
  unfolding all_edges
  all_edges-Adds i [] adj adj' full same sets h =
      let e : adj ≡ adj' = ground arith in
      rw (← e) (Adds-none (length plugins) (AllHit plugins m i []) adj same sets (λ a k h. h))
  all_edges-Adds i (p ∷ rest) adj adj' full same sets h =
      let (mid, ep, er) =
        >>=-eq-ok (plugin_edges plugins m i p adj) (all_edges plugins m (suc i) rest) adj' h in
      let here = plugin_edges-Adds i p adj mid (omega arith) same sets ep in
      Adds-trans (length plugins) (PluginHit plugins m i p) (AllHit plugins m (suc i) rest) adj mid
        adj' here (all_edges-Adds (suc i) rest mid adj' (omega arith) here.rows here.sets er)
