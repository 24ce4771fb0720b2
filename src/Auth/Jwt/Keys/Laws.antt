-- ===== src/Auth/Jwt/Keys/Laws.antt =====
-- rusty-gasket/src/auth/backends/jwt.rs: `find_key` and `resolve_key`: when the endpoint is asked, and
-- where the keys come from.
use rusty_gasket.Common.{
  ℕ, ◌-◌, ◌≤◌, ◌≡◌, refl, ◌↔◌, ◌⊎◌, inl, inr, ap, sym, ◌∙◌, true, List, Option, none, some, arith,
  leb, Bool-cases, Option-cases,
}
use mathlib.Core.Path.{subst}
use rusty_gasket.Common.Text.{Text}
use rusty_gasket.Auth.Errors.{AuthError}
use rusty_gasket.Auth.Jwt.{Jwk, Libraries}
use rusty_gasket.Auth.Jwt.Fetch.{fetch_jwks}
use rusty_gasket.Auth.Jwt.Keys.{
  JwksKeyStore, PreparedKey, PreparedJwks, StoreState, CacheLookup, hit, fresh_but_missing, stale,
  Permit, closed, acquired, FetchTask, replied, join_error, Looked, after_lookup, find,
  cache_lookup, store_fetched, fetch_key, recheck, find_key,
}

-- There is no snapshot, or it is at least as old as the time to live.
abbrev pub IsStale : {Key : Type 0} → ℕ → ℕ → Option (PreparedJwks Key) → Type 0
IsStale ttl now none = Unit
IsStale ttl now (some prepared) = ttl ≤ now - prepared.fetched_at

module _ {Key : Type 0} where
  after_lookup-fetched :
      (l : CacheLookup Key) (kid : Text) (state : StoreState Key) (on_stale : Looked Key)
      → ((after_lookup l kid state on_stale).fetched ≡ true)
        ↔ ((l ≡ stale) × (on_stale.fetched ≡ true))
  after_lookup-fetched (hit k) kid state on_stale =
      (λ h. absurd (ground arith), λ h. absurd (ground (arith, h.0)))
  after_lookup-fetched fresh_but_missing kid state on_stale =
      (λ h. absurd (ground arith), λ h. absurd (ground (arith, h.0)))
  after_lookup-fetched stale kid state on_stale = (λ h. (refl, h), λ h. h.1)

  cache_lookup-stale :
      (ttl now : ℕ) (cached : Option (PreparedJwks Key)) (kid : Text)
      → (cache_lookup ttl now cached kid ≡ stale) ↔ IsStale ttl now cached
  unfolding cache_lookup
  cache_lookup-stale ttl now none kid = (λ h. tt, λ h. refl)
  cache_lookup-stale ttl now (some prepared) kid =
      elim (Bool-cases (leb ttl (now - prepared.fetched_at))) [
        | inl old ↦ rw old (λ h. ground arith, λ h. refl)
        | inr young ↦ (
          λ h. elim (Option-cases (find kid prepared.keys)) [
            | inl absent ↦ let clash = rw (young, absent) at h in absurd (ground arith)
            | inr (k, there) ↦ let clash = rw (young, there) at h in absurd (ground arith)
          ],
          λ h. absurd (ground arith),
        )
      ]

  pub cache_lookup-hit :
      (ttl now : ℕ) (prepared : PreparedJwks Key) (kid : Text) (k : PreparedKey Key)
      → cache_lookup ttl now (some prepared) kid ≡ hit k
      → find kid prepared.keys ≡ some k
  unfolding cache_lookup
  cache_lookup-hit ttl now prepared kid k h =
      elim (Bool-cases (leb ttl (now - prepared.fetched_at))) [
        | inl old ↦ let clash = rw old at h in absurd (ground arith)
        | inr young ↦ elim (Option-cases (find kid prepared.keys)) [
          | inl absent ↦ let clash = rw (young, absent) at h in absurd (ground arith)
          | inr (j, there) ↦
              let same = rw (young, there) at h in
              there ∙ ap (λ l. elim l [ hit i ↦ some i | _ ↦ some j ]) same
        ]
      ]

module _ {Key Material : Type 0} (lib : Libraries Key Material) where
  store_fetched-fetched :
      (kid : Text) (state : StoreState Key) (now : ℕ) (r : List (Jwk Material) ⊎ AuthError)
      → (store_fetched lib kid state now r).fetched ≡ true
  store_fetched-fetched kid state now (inl jwks) = refl
  store_fetched-fetched kid state now (inr e) = refl

  fetch_key-fetched :
      (store : JwksKeyStore) (kid : Text) (state : StoreState Key) (task : FetchTask)
      → (fetch_key lib store kid state task).fetched ≡ true
  unfolding fetch_key
  fetch_key-fetched store kid state (join_error e) = refl
  fetch_key-fetched store kid state (replied http now) =
      store_fetched-fetched kid state now (fetch_jwks lib store.max_body_size http)

  recheck-fetched :
      (store : JwksKeyStore) (kid : Text) (before : StoreState Key) (permit : Permit Key)
      (task : FetchTask)
      → ((recheck lib store kid before permit task).fetched ≡ true) ↔ (
          (state : StoreState Key) × (now : ℕ) × (permit ≡ acquired state now)
          × IsStale store.cache_ttl now state.cached)
  unfolding recheck
  recheck-fetched store kid before (closed e) task =
      (λ h. absurd (ground arith), λ h. absurd (ground (arith, h.2)))
  recheck-fetched store kid before (acquired state now) task =
      let look = cache_lookup store.cache_ttl now state.cached kid in
      let law = after_lookup-fetched look kid state (fetch_key lib store kid state task) in
      (
        λ h. (
          state,
          now,
          refl,
          (cache_lookup-stale store.cache_ttl now state.cached kid).0 (law.0 h).0,
        ),
        λ h. law.1 (
          (cache_lookup-stale store.cache_ttl now state.cached kid).1 (same_stale h.0 h.1 h.2 h.3),
          fetch_key-fetched store kid state task,
        ),
      )
    where
      same_stale :
          (s : StoreState Key) (n : ℕ)
          → acquired state now ≡ acquired s n
          → IsStale store.cache_ttl n s.cached
          → IsStale store.cache_ttl now state.cached
      same_stale s n e old =
          subst
            (λ p. elim p [
              | acquired t m ↦ IsStale store.cache_ttl m t.cached
              | closed x ↦ Unit {0}
            ])
            (sym e) old

  -- The endpoint is asked exactly when the snapshot is missing or expired at the first look and again,
  -- with the permit, at the second: while it is fresh, no `kid` causes a request.
  pub find_key-fetched :
      (store : JwksKeyStore) (kid : Text) (state : StoreState Key) (now : ℕ) (permit : Permit Key)
      (task : FetchTask)
      → ((find_key lib store kid state now permit task).fetched ≡ true) ↔ (
          IsStale store.cache_ttl now state.cached
          × ((later : StoreState Key) × (then_now : ℕ) × (permit ≡ acquired later then_now)
              × IsStale store.cache_ttl then_now later.cached))
  unfolding find_key
  find_key-fetched store kid state now permit task =
      let look = cache_lookup store.cache_ttl now state.cached kid in
      let law = after_lookup-fetched look kid state (recheck lib store kid state permit task) in
      let old = cache_lookup-stale store.cache_ttl now state.cached kid in
      let again = recheck-fetched store kid state permit task in
      (λ h. (old.0 (law.0 h).0, again.0 (law.0 h).1), λ h. law.1 (old.1 h.0, again.1 h.1))
