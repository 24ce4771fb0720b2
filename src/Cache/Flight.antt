-- ===== src/Cache/Flight.antt =====
-- rusty-gasket/src/cache.rs, `get_or_load` with single flight: the calls for one key as interleaved
-- steps. Each `Notify` is a number; a call that found one waits for it only once its `notified` future
-- exists, which is after the lock is released.
use rusty_gasket.Common.{
  ℕ, zero, suc, ◌+◌, ◌≤◌, ◌≡◌, refl, sym, List, [], ◌∷◌, ◌++◌, map, Option, none, some, arith,
  replicate, if◌then◌else◌, ◌==◌, Bool-cases, inl, inr,
}

-- Where a call is: before its look at the cache and the lock, running the loader, holding the `Notify`
-- of another call, waiting for it, or returned. A caller that went away dropped its call: `cancelled`, or
-- `abandoned` when the call was the leader, whose entry stays.
pub data Phase : Type 0 where
  checking leading returned cancelled abandoned : Phase
  cloned waiting : ℕ → Phase

-- `in_flight` is the key's entry; `next` numbers the `Notify` that is created next.
pub record Flight : Type 0 where
  pub in_flight : Option ℕ
  pub next : ℕ
  pub calls : List Phase

-- `notify_waiters`: the calls that wait for it look at the cache again.
abbrev pub wake : ℕ → Phase → Phase
wake g (waiting h) = if g == h then checking else waiting h
wake g p = p

-- What becomes of a call whose future is dropped; only where the call awaits something it can be.
abbrev pub drop_call : Phase → Phase
drop_call checking = cancelled
drop_call leading = abandoned
drop_call (waiting g) = cancelled
drop_call p = p

pub data Step : Flight → Flight → Type 0 where
  -- The cache has the value, or an error is returned.
  hit :
      {f : Option ℕ} {n : ℕ} (front rest : List Phase)
      → Step
          (record { in_flight = f; next = n; calls = front ++ checking ∷ rest })
          (record { in_flight = f; next = n; calls = front ++ returned ∷ rest })
  lead :
      {n : ℕ} (front rest : List Phase)
      → Step
          (record { in_flight = none; next = n; calls = front ++ checking ∷ rest })
          (record { in_flight = some n; next = suc n; calls = front ++ leading ∷ rest })
  follow :
      {n : ℕ} (g : ℕ) (front rest : List Phase)
      → Step
          (record { in_flight = some g; next = n; calls = front ++ checking ∷ rest })
          (record { in_flight = some g; next = n; calls = front ++ cloned g ∷ rest })
  enlist :
      {f : Option ℕ} {n : ℕ} (g : ℕ) (front rest : List Phase)
      → Step
          (record { in_flight = f; next = n; calls = front ++ cloned g ∷ rest })
          (record { in_flight = f; next = n; calls = front ++ waiting g ∷ rest })
  -- `finish_in_flight`, after the value was stored or the loader failed.
  finish :
      {n : ℕ} (g : ℕ) (front rest : List Phase)
      → Step
          (record { in_flight = some g; next = n; calls = front ++ leading ∷ rest })
          (record { in_flight = none; next = n; calls = map (wake g) (front ++ returned ∷ rest) })
  cancel :
      {f : Option ℕ} {n : ℕ} (p : Phase) (front rest : List Phase)
      → Step
          (record { in_flight = f; next = n; calls = front ++ p ∷ rest })
          (record { in_flight = f; next = n; calls = front ++ drop_call p ∷ rest })

pub data Reaches (s : Flight) : Flight → Type 0 where
  here : Reaches s s
  after : {t u : Flight} → Reaches s t → Step t u → Reaches s u

abbrev pub start : ℕ → Flight
start n = record { in_flight = none; next = 0; calls = replicate n checking }

abbrev pub leader : Phase → ℕ
leader leading = 1
leader p = 0

abbrev pub abandonment : Phase → ℕ
abandonment abandoned = 1
abandonment p = 0

abbrev pub total : (Phase → ℕ) → List Phase → ℕ
total f [] = 0
total f (p ∷ ps) = f p + total f ps

abbrev pub leaders : List Phase → ℕ
leaders ps = total leader ps

abbrev pub abandonments : List Phase → ℕ
abandonments ps = total abandonment ps

abbrev pub entries : Option ℕ → ℕ
entries none = 0
entries (some g) = 1

total-append : (f : Phase → ℕ) (ps qs : List Phase) → total f (ps ++ qs) ≡ total f ps + total f qs
total-append f [] qs = omega arith
total-append f (p ∷ ps) qs = omega (arith, total-append f ps qs)

-- A call that goes from one phase to another.
total-moved :
    (f : Phase → ℕ) (front rest : List Phase) (p q : Phase)
    → total f (front ++ p ∷ rest) + f q ≡ total f (front ++ q ∷ rest) + f p
total-moved f front rest p q =
    omega (arith, total-append f front (p ∷ rest), total-append f front (q ∷ rest))

total-wake :
    (f : Phase → ℕ) (g : ℕ)
    → ((h : ℕ) → f (waiting h) ≡ f checking)
    → (ps : List Phase) → total f (map (wake g) ps) ≡ total f ps
total-wake f g w [] = refl
total-wake f g w (p ∷ ps) = omega (arith, woken p, total-wake f g w ps)
  where
    woken : (p : Phase) → f (wake g p) ≡ f p
    woken checking = refl
    woken leading = refl
    woken returned = refl
    woken cancelled = refl
    woken abandoned = refl
    woken (cloned h) = refl
    woken (waiting h) = elim (Bool-cases (g == h)) [
      | inl same ↦ rw same (sym (w h))
      | inr other ↦ rw other refl
    ]

total-replicate : (f : Phase → ℕ) (n : ℕ) → f checking ≡ 0 → total f (replicate n checking) ≡ 0
total-replicate f zero h = refl
total-replicate f (suc n) h = omega (arith, h, total-replicate f n h)

drop_call-kept :
    (p : Phase)
    → (leader (drop_call p) + abandonment (drop_call p) ≡ leader p + abandonment p)
      × (abandonment p ≤ abandonment (drop_call p))
drop_call-kept checking = (refl, omega arith)
drop_call-kept leading = (refl, omega arith)
drop_call-kept returned = (refl, omega arith)
drop_call-kept cancelled = (refl, omega arith)
drop_call-kept abandoned = (refl, omega arith)
drop_call-kept (cloned g) = (refl, omega arith)
drop_call-kept (waiting g) = (refl, omega arith)

finish-total :
    (f : Phase → ℕ) (g : ℕ) (front rest : List Phase)
    → ((h : ℕ) → f (waiting h) ≡ f checking)
    → total f (front ++ leading ∷ rest) + f returned
      ≡ total f (map (wake g) (front ++ returned ∷ rest)) + f leading
finish-total f g front rest w =
    omega (
      arith,
      total-wake f g w (front ++ returned ∷ rest),
      total-moved f front rest leading returned,
    )

-- Each entry is that of one call.
abbrev IsOwned : Flight → Type 0
IsOwned s = leaders s.calls + abandonments s.calls ≡ entries s.in_flight

Step-IsOwned :
    (s t : Flight)
    → Step s t
    → IsOwned s
    → IsOwned t × (abandonments s.calls ≤ abandonments t.calls)
Step-IsOwned s t (hit front rest) h =
    let l = total-moved leader front rest checking returned in
    let a = total-moved abandonment front rest checking returned in
    (omega (arith, l, a, h), omega (arith, a))
Step-IsOwned s t (lead front rest) h =
    let l = total-moved leader front rest checking leading in
    let a = total-moved abandonment front rest checking leading in
    (omega (arith, l, a, h), omega (arith, a))
Step-IsOwned s t (follow g front rest) h =
    let l = total-moved leader front rest checking (cloned g) in
    let a = total-moved abandonment front rest checking (cloned g) in
    (omega (arith, l, a, h), omega (arith, a))
Step-IsOwned s t (enlist g front rest) h =
    let l = total-moved leader front rest (cloned g) (waiting g) in
    let a = total-moved abandonment front rest (cloned g) (waiting g) in
    (omega (arith, l, a, h), omega (arith, a))
Step-IsOwned s t (finish g front rest) h =
    let l = finish-total leader g front rest (λ i. refl) in
    let a = finish-total abandonment g front rest (λ i. refl) in
    (omega (arith, l, a, h), omega (arith, a))
Step-IsOwned s t (cancel p front rest) h =
    let l = total-moved leader front rest p (drop_call p) in
    let a = total-moved abandonment front rest p (drop_call p) in
    let (both, more) = drop_call-kept p in (omega (arith, l, a, both, h), omega (arith, a, more))

Reaches-IsOwned :
    (s t : Flight)
    → Reaches s t
    → IsOwned s
    → IsOwned t × (abandonments s.calls ≤ abandonments t.calls)
Reaches-IsOwned s t here h = (h, omega arith)
Reaches-IsOwned s t (after {t = u} path step) h =
    let (owned, below) = Reaches-IsOwned s u path h in
    let (now, more) = Step-IsOwned u t step owned in (now, omega (arith, below, more))

start-IsOwned : (n : ℕ) → IsOwned (start n)
start-IsOwned n = omega (arith, total-replicate leader n refl, total-replicate abandonment n refl)

-- However the calls for a key interleave, and wherever callers go away, the key has an entry exactly when
-- one call runs its loader or was abandoned while it did: two loaders never run at once. After an
-- abandonment, in `s`, no loader of the key runs any more, since the entry stays.
pub Reaches-leaders :
    (n : ℕ) (s t : Flight)
    → Reaches (start n) s
    → Reaches s t
    → (leaders t.calls + abandonments t.calls ≡ entries t.in_flight)
      × (leaders t.calls + abandonments s.calls ≤ 1)
Reaches-leaders n s t before later =
    let (owned, _) = Reaches-IsOwned (start n) s before (start-IsOwned n) in
    let (now, more) = Reaches-IsOwned s t later owned in
    (now, omega (arith, now, more, entries-bounded t.in_flight))
  where
    entries-bounded : (f : Option ℕ) → entries f ≤ 1
    entries-bounded none = omega arith
    entries-bounded (some g) = omega arith
