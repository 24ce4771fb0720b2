-- ===== src/Plugin/Ordering/Constraints.antt =====
-- The declared constraints as a relation on the indices of the plugins, independent of the loops,
-- and that the rows built by the sort are this relation.
use Prim.Native.String.{String}
use rusty_gasket.Common.{
  ℕ, zero, suc, ◌+◌, ◌≡◌, refl, ◌≢◌, inl, inr, Bool, true, false, List, [], ◌∷◌, some, arith,
  get_elem?, In, ap,
}
use rusty_gasket.Plugin.Ordering.{Declared, Names, find_name, ok, index_names}
use rusty_gasket.Plugin.Ordering.Names.{index_names-finds, index_names-only}
use rusty_gasket.Plugin.Ordering.Loops.{Hit, IsNamed, PluginHit, AllHit}

-- The plugin at index `i` has to run before the one at index `j`.
pub data Precedes (plugins : List Declared) (i j : ℕ) : Type 0 where
  by_first :
      (p q : Declared)
      → get_elem? plugins i ≡ some p
      → get_elem? plugins j ≡ some q
      → p.ordering.first ≡ true
      → q.ordering.first ≡ false
      → Precedes plugins i j
  by_last :
      (p q : Declared)
      → get_elem? plugins i ≡ some p
      → get_elem? plugins j ≡ some q
      → q.ordering.last ≡ true
      → p.ordering.last ≡ false
      → Precedes plugins i j
  by_before :
      (p q : Declared)
      → get_elem? plugins i ≡ some p
      → get_elem? plugins j ≡ some q
      → In q.name p.ordering.before
      → Precedes plugins i j
  by_after :
      (p q : Declared)
      → get_elem? plugins i ≡ some p
      → get_elem? plugins j ≡ some q
      → In p.name q.ordering.after
      → Precedes plugins i j

module _ (test : Declared → Bool) where
  Hit-at :
      (rest : List Declared) (j k : ℕ)
      → Hit test rest j k
      → (d : ℕ) × (q : Declared) × (k ≡ j + d) × (get_elem? rest d ≡ some q) × (test q ≡ false)
  Hit-at [] j k h = absurd h
  Hit-at (q ∷ rest) j k (inl (here, fails)) = (0, q, omega arith, refl, fails)
  Hit-at (q ∷ rest) j k (inr later) =
      let (d, p, index, at, fails) = Hit-at rest (suc j) k later in
      (suc d, p, omega arith, at, fails)

  Hit-of_at :
      (rest : List Declared) (j k d : ℕ) (q : Declared)
      → k ≡ j + d
      → get_elem? rest d ≡ some q
      → test q ≡ false
      → Hit test rest j k
  Hit-of_at [] j k d q index at fails = absurd (ground arith)
  Hit-of_at (p ∷ rest) j k zero q index at fails = inl (omega arith, ground arith)
  Hit-of_at (p ∷ rest) j k (suc d) q index at fails =
      inr (Hit-of_at rest (suc j) k d q (omega arith) at fails)

IsNamed-In :
    (m : Names) (ts : List String) (k : ℕ)
    → IsNamed m ts k
    → (t : String) × In t ts × (find_name t m ≡ some k)
IsNamed-In m [] k h = absurd h
IsNamed-In m (t ∷ ts) k (inl here) = (t, inl refl, here)
IsNamed-In m (t ∷ ts) k (inr later) =
    let (s, listed, found) = IsNamed-In m ts k later in (s, inr listed, found)

IsNamed-of_In :
    (m : Names) (ts : List String) (t : String) (k : ℕ)
    → In t ts
    → find_name t m ≡ some k
    → IsNamed m ts k
IsNamed-of_In m [] t k l e = absurd l
IsNamed-of_In m (s ∷ ts) t k (inl here) e = inl (rw (← here) e)
IsNamed-of_In m (s ∷ ts) t k (inr later) e = inr (IsNamed-of_In m ts t k later e)

module _ (plugins : List Declared) (m : Names) (indexed : index_names 0 plugins [] ≡ ok m) where
  pub AllHit-at :
      (i : ℕ) (rest : List Declared) (a k : ℕ)
      → AllHit plugins m i rest a k
      → (d : ℕ) × (p : Declared) × (get_elem? rest d ≡ some p) × PluginHit plugins m (i + d) p a k
  AllHit-at i [] a k h = absurd h
  AllHit-at i (p ∷ rest) a k (inl here) =
      let same : i + 0 ≡ i = omega arith in (0, p, refl, rw same here)
  AllHit-at i (p ∷ rest) a k (inr later) =
      let (d, q, at, hit) = AllHit-at (suc i) rest a k later in
      let next : i + suc d ≡ suc i + d = omega arith in (suc d, q, at, rw next hit)

  AllHit-of_at :
      (i : ℕ) (rest : List Declared) (a k d at : ℕ) (p : Declared)
      → at ≡ i + d
      → get_elem? rest d ≡ some p
      → PluginHit plugins m at p a k
      → AllHit plugins m i rest a k
  AllHit-of_at i [] a k d at p index found hit = absurd (ground arith)
  AllHit-of_at i (q ∷ rest) a k zero at p index found hit =
      let same : i ≡ at = omega arith in let e : q ≡ p = ground arith in inl (rw e (rw same hit))
  AllHit-of_at i (q ∷ rest) a k (suc d) at p index found hit =
      inr (AllHit-of_at (suc i) rest a k d at p (omega arith) found hit)

  find_name-at :
      (t : String) (k : ℕ)
      → find_name t m ≡ some k
      → (q : Declared) × (get_elem? plugins k ≡ some q) × (q.name ≡ t)
  find_name-at t k found =
      let at = index_names-only plugins m t k indexed found in
      let same : k ≡ at.offset = omega (arith, at.index) in (at.plugin, rw same at.at, at.named)

  pub Precedes-of_PluginHit :
      (i : ℕ) (p : Declared) (a k : ℕ)
      → get_elem? plugins i ≡ some p
      → PluginHit plugins m i p a k
      → Precedes plugins a k
  Precedes-of_PluginHit i p a k here (inl (on, (from, apart, hit))) =
      let (d, q, index, at, fails) = Hit-at (λ q. q.ordering.first) plugins 0 k hit in
      let same : k ≡ d = omega arith in by_first p q (rw from here) (rw same at) on fails
  Precedes-of_PluginHit i p a k here (inr (inl (on, (to, apart, hit)))) =
      let (d, q, index, at, fails) = Hit-at (λ q. q.ordering.last) plugins 0 a hit in
      let same : a ≡ d = omega arith in by_last q p (rw same at) (rw to here) on fails
  Precedes-of_PluginHit i p a k here (inr (inr (inl (from, named)))) =
      let (t, listed, found) = IsNamed-In m p.ordering.before k named in
      let (q, at, e) = find_name-at t k found in by_before p q (rw from here) at (rw e listed)
  Precedes-of_PluginHit i p a k here (inr (inr (inr (to, named)))) =
      let (t, listed, found) = IsNamed-In m p.ordering.after a named in
      let (q, at, e) = find_name-at t a found in by_after q p at (rw to here) (rw e listed)

  -- Plugins on which a test differs stand at different indices.
  apart_of_test :
      (test : Declared → Bool) (a k : ℕ) (p q : Declared)
      → get_elem? plugins a ≡ some p
      → get_elem? plugins k ≡ some q
      → test p ≡ true
      → test q ≡ false
      → k ≢ a
  apart_of_test test a k p q ap kq on off same =
      let here : get_elem? plugins a ≡ some q = rw same at kq in cc

  pub AllHit-of_Precedes : (a k : ℕ) → Precedes plugins a k → AllHit plugins m 0 plugins a k
  AllHit-of_Precedes a k (by_first p q pa qk on off) =
      AllHit-of_at 0 plugins a k a a p (omega arith) pa (
        inl (
          on,
          (
            omega arith,
            apart_of_test (λ q. q.ordering.first) a k p q pa qk on off,
            Hit-of_at (λ q. q.ordering.first) plugins 0 k k q (omega arith) qk off,
          ),
        ))
  AllHit-of_Precedes a k (by_last p q pa qk on off) =
      AllHit-of_at 0 plugins a k k k q (omega arith) qk (
        inr (
          inl (
            on,
            (
              omega arith,
              apart_of_test (λ q. q.ordering.last) k a q p qk pa on off,
              Hit-of_at (λ q. q.ordering.last) plugins 0 a a p (omega arith) pa off,
            ),
          )))
  AllHit-of_Precedes a k (by_before p q pa qk listed) =
      AllHit-of_at 0 plugins a k a a p (omega arith) pa (
        inr (
          inr (
            inl (
              omega arith,
              IsNamed-of_In m p.ordering.before q.name k listed
                  (index_names-finds plugins m k q indexed qk),
            ))))
  AllHit-of_Precedes a k (by_after p q pa qk listed) =
      AllHit-of_at 0 plugins a k k k q (omega arith) qk (
        inr (
          inr (
            inr (
              omega arith,
              IsNamed-of_In m q.ordering.after p.name a listed
                  (index_names-finds plugins m a p indexed pa),
            ))))
