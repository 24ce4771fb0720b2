-- ===== src/Plugin/Graph/Relax.antt =====
-- What one round of Kahn's loop does to the in-degrees and to the queue.
use rusty_gasket.Common.{
  ℕ, zero, suc, ◌+◌, ◌<◌, ◌≤◌, ◌≡◌, refl, true, false, List, [], ◌∷◌, ◌++◌, Option, none, some,
  arith, ◌==◌, if◌then◌else◌, length, set, get_elem?, get_or, mem, Unique, keep, length-set,
  length-append,
}
use mathlib.Core.List.{append_assoc, append-nil}
use rusty_gasket.Plugin.Graph.{relax, sum}

pub get_or-set :
    (ds : List ℕ) (j k v d : ℕ)
    → get_elem? ds j ≡ some d
    → get_or (set ds j v) k 0 ≡ (if k == j then v else get_or ds k 0)
get_or-set [] j k v d h = ground arith
get_or-set (x ∷ xs) zero zero v d h = ground arith
get_or-set (x ∷ xs) zero (suc k) v d h = ground arith
get_or-set (x ∷ xs) (suc j) zero v d h = ground arith
get_or-set (x ∷ xs) (suc j) (suc k) v d h = ground (arith, get_or-set xs j k v d h)

get_or_of_get_elem? : (ds : List ℕ) (j d : ℕ) → get_elem? ds j ≡ some d → get_or ds j 0 ≡ d
get_or_of_get_elem? [] j d h = ground arith
get_or_of_get_elem? (x ∷ xs) zero d h = ground arith
get_or_of_get_elem? (x ∷ xs) (suc j) d h = get_or_of_get_elem? xs j d h

-- The neighbours whose last predecessor this is.
abbrev pub freed : List ℕ → List ℕ → List ℕ
freed in_degree = keep (λ j. get_or in_degree j 0 == 1)

pub record Relaxed (js ds queue ds' queue' : List ℕ) : Type 0 where
  pub same_length : length ds' ≡ length ds
  pub had_one : (k : ℕ) → mem k js ≡ true → 0 < get_or ds k 0
  pub one_less : (k : ℕ) → get_or ds' k 0 + (if mem k js then 1 else 0) ≡ get_or ds k 0
  pub queued : queue' ≡ queue ++ freed ds js

freed-set :
    (ds : List ℕ) (j v d : ℕ) (ks : List ℕ)
    → get_elem? ds j ≡ some d
    → mem j ks ≡ false
    → freed (set ds j v) ks ≡ freed ds ks
freed-set ds j v d [] h m = refl
freed-set ds j v d (k ∷ ks) h m = ground (arith, get_or-set ds j k v d h, freed-set ds j v d ks h)

Relaxed-cons :
    (j d : ℕ) (ks ds queue ds' queue' : List ℕ)
    → mem j ks ≡ false
    → get_elem? ds j ≡ some (suc d)
    → Relaxed ks (set ds j d) (if d == 0 then queue ++ j ∷ [] else queue) ds' queue'
    → Relaxed (j ∷ ks) ds queue ds' queue'
Relaxed-cons j d ks ds queue ds' queue' fresh found r = record {
  same_length = omega (arith, r.same_length, length-set ds j d);
  had_one = λ k m. ground (
    arith,
    r.had_one k,
    get_or-set ds j k d (suc d) found,
    get_or_of_get_elem? ds j (suc d) found,
  );
  one_less = λ k. ground (
    arith,
    r.one_less k,
    get_or-set ds j k d (suc d) found,
    get_or_of_get_elem? ds j (suc d) found,
  );
  queued = ground (
    arith,
    r.queued,
    freed-set ds j d (suc d) ks found fresh,
    get_or_of_get_elem? ds j (suc d) found,
    append_assoc queue (j ∷ []) (freed ds ks),
  );
}

Relaxed-step :
    (j : ℕ) (ks ds queue ds' queue' : List ℕ)
    → ((es q : List ℕ) → relax ks es q ≡ some (ds', queue') → Relaxed ks es q ds' queue')
    → mem j ks ≡ false
    → (o : Option ℕ) → get_elem? ds j ≡ o
    → relax (j ∷ ks) ds queue ≡ some (ds', queue')
    → Relaxed (j ∷ ks) ds queue ds' queue'
unfolding relax
Relaxed-step j ks ds queue ds' queue' ih fresh none found h = absurd (ground arith)
Relaxed-step j ks ds queue ds' queue' ih fresh (some zero) found h = absurd (ground arith)
Relaxed-step j ks ds queue ds' queue' ih fresh (some (suc d)) found h =
    Relaxed-cons j d ks ds queue ds' queue' fresh found (ih (set ds j d) _ (rw (found, relax) at h))

-- A round that does not panic takes one off the in-degree of each neighbour, leaves the others, and
-- queues exactly the neighbours that it brings to zero, in their order.
pub relax-Relaxed :
    (js ds queue ds' queue' : List ℕ)
    → Unique js
    → relax js ds queue ≡ some (ds', queue')
    → Relaxed js ds queue ds' queue'
unfolding relax
relax-Relaxed [] ds queue ds' queue' u h = record {
  same_length = ground arith;
  had_one = λ k m. ground arith;
  one_less = λ k. ground arith;
  queued = ground (arith, append-nil queue);
}
relax-Relaxed (j ∷ ks) ds queue ds' queue' u h =
    Relaxed-step j ks ds queue ds' queue' (λ es q. relax-Relaxed ks es q ds' queue' u.1) u.0
      (get_elem? ds j) refl h

get_elem?_of_pos :
    (ds : List ℕ) (j : ℕ) → 0 < get_or ds j 0 → (d : ℕ) × (get_elem? ds j ≡ some (suc d))
get_elem?_of_pos [] j h = absurd (omega arith)
get_elem?_of_pos (zero ∷ ds) zero h = absurd (omega arith)
get_elem?_of_pos (suc d ∷ ds) zero h = (d, refl)
get_elem?_of_pos (x ∷ ds) (suc j) h = get_elem?_of_pos ds j h

-- With an in-degree above zero for each neighbour the round does not panic.
pub relax_total :
    (js ds queue : List ℕ)
    → Unique js
    → ((k : ℕ) → mem k js ≡ true → 0 < get_or ds k 0)
    → (ds' : List ℕ) × (queue' : List ℕ) × (relax js ds queue ≡ some (ds', queue'))
unfolding relax
relax_total [] ds queue u pos = (ds, queue, refl)
relax_total (j ∷ ks) ds queue u pos =
    let (d, found) = get_elem?_of_pos ds j (pos j (ground arith)) in
    rw (found, relax)
      (relax_total ks (set ds j d) (if d == 0 then queue ++ j ∷ [] else queue) u.1
        (λ k m. ground (arith, u.0, pos k, get_or-set ds j k d (suc d) found)))

sum-set : (ds : List ℕ) (j d : ℕ) → get_elem? ds j ≡ some (suc d) → sum (set ds j d) + 1 ≡ sum ds
sum-set [] j d h = ground arith
sum-set (x ∷ ds) zero d h = ground arith
sum-set (x ∷ ds) (suc j) d h = omega (arith, sum-set ds j d h)

relax_measure_step :
    (j : ℕ) (ks ds queue ds' queue' : List ℕ)
    → ((es q : List ℕ)
        → relax ks es q ≡ some (ds', queue')
        → length queue' + sum ds' ≤ length q + sum es)
    → (o : Option ℕ) → get_elem? ds j ≡ o
    → relax (j ∷ ks) ds queue ≡ some (ds', queue')
    → length queue' + sum ds' ≤ length queue + sum ds
unfolding relax
relax_measure_step j ks ds queue ds' queue' ih none found h = absurd (ground arith)
relax_measure_step j ks ds queue ds' queue' ih (some zero) found h = absurd (ground arith)
relax_measure_step j ks ds queue ds' queue' ih (some (suc d)) found h = ground (
  arith,
  ih (set ds j d) (if d == 0 then queue ++ j ∷ [] else queue) (rw (found, relax) at h),
  sum-set ds j d found,
  length-append queue (j ∷ []),
)

-- A node joins the queue only when an in-degree falls by one.
pub relax_measure :
    (js ds queue ds' queue' : List ℕ)
    → relax js ds queue ≡ some (ds', queue')
    → length queue' + sum ds' ≤ length queue + sum ds
unfolding relax
relax_measure [] ds queue ds' queue' h = ground arith
relax_measure (j ∷ ks) ds queue ds' queue' h =
    relax_measure_step j ks ds queue ds' queue' (λ es q. relax_measure ks es q ds' queue')
      (get_elem? ds j) refl h
