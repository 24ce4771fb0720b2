-- ===== src/Auth/Jwt/Keys/Provenance.antt =====
-- rusty-gasket/src/auth/backends/jwt.rs: every key that the store hands out was published by the
-- endpoint, whatever other tasks did in between.
use rusty_gasket.Common.{
  ℕ, ◌≡◌, refl, ◌⊎◌, inl, inr, ap, sym, ◌∙◌, List, [], ◌∷◌, Option, none, some, arith, In,
  Bool-cases, Option-cases, same_of_some,
}
use rusty_gasket.Common.Text.{Text, text_eq, text_eq_iff}
use rusty_gasket.Auth.Errors.{AuthError}
use rusty_gasket.Auth.Jwt.{Algorithm, Jwk, Libraries}
use rusty_gasket.Auth.Jwt.Fetch.{fetch_jwks}
use rusty_gasket.Auth.Jwt.Keys.{
  JwksKeyStore, PreparedKey, PreparedJwks, StoreState, CacheLookup, hit, fresh_but_missing, stale,
  Permit, closed, acquired, FetchTask, replied, join_error, Looked, after_lookup, find,
  cache_lookup, usable_algorithm, prepare_jwks, publish, or_missing, answer, store_fetched,
  fetch_key, recheck, find_key,
}
use rusty_gasket.Auth.Jwt.Keys.Prepared.{
  KeyOf, usable_key, first_some, last_usable, prepare_jwks-usable,
}
use rusty_gasket.Auth.Jwt.Keys.Laws.{cache_lookup-hit}

module _ {Key Material : Type 0} (lib : Libraries Key Material) where
  -- The key of a usable entry, of one document among those for which `P` holds.
  abbrev pub Published : (List (Jwk Material) → Type 0) → Text → PreparedKey Key → Type 0
  Published P kid k =
      (jwks : List (Jwk Material)) × P jwks
      × ((jwk : Jwk Material) × In jwk jwks × KeyOf lib jwk kid k)

  usable_key-KeyOf :
      (jwk : Jwk Material) (kid : Text) (i : Option Text) (a : Option Algorithm) (made : Key ⊎ Text)
      (k : PreparedKey Key)
      → jwk.key_id ≡ i
      → usable_algorithm lib jwk.key_algorithm ≡ a
      → lib.from_jwk jwk ≡ made
      → usable_key kid i a made ≡ some k
      → KeyOf lib jwk kid k
  usable_key-KeyOf jwk kid none a made k hi ha hm e = absurd (ground arith)
  usable_key-KeyOf jwk kid (some j) none made k hi ha hm e = absurd (ground arith)
  usable_key-KeyOf jwk kid (some j) (some a) (inr x) k hi ha hm e = absurd (ground arith)
  usable_key-KeyOf jwk kid (some j) (some a) (inl key) k hi ha hm e =
      elim (Bool-cases (text_eq j kid)) [
        | inr other ↦ let clash = rw other at e in absurd (ground arith)
        | inl same ↦
            let this : some (record { key = key; algorithm = a }) ≡ some k = rw same at e in
            let made_of = same_of_some this in
            record {
              named = hi ∙ ap some ((text_eq_iff j kid).0 same);
              algorithm = ha ∙ ap (λ p. some p.algorithm) made_of;
              made = hm ∙ ap (λ p. inl p.key) made_of;
            }
      ]

  -- A key that the loop finds is that of an entry, or the one at hand.
  last_usable-KeyOf :
      (kid : Text) (jwks : List (Jwk Material)) (d : Option (PreparedKey Key)) (k : PreparedKey Key)
      → last_usable lib kid jwks d ≡ some k
      → (d ≡ some k) ⊎ ((jwk : Jwk Material) × In jwk jwks × KeyOf lib jwk kid k)
  last_usable-KeyOf kid [] d k e = inl e
  last_usable-KeyOf kid (jwk ∷ jwks) d k e =
      let here =
        usable_key kid jwk.key_id (usable_algorithm lib jwk.key_algorithm) (lib.from_jwk jwk) in
      elim (last_usable-KeyOf kid jwks (first_some here d) k e) [
        | inr (later, m, of) ↦ inr (later, inr m, of)
        | inl first ↦ elim (Option-cases here) [
          | inl absent ↦ inl (rw absent at first)
          | inr (c, found) ↦
              let same : c ≡ k = same_of_some (rw found at first) in
              inr (
                jwk,
                inl refl,
                usable_key-KeyOf jwk kid jwk.key_id _ _ k refl refl refl (found ∙ ap some same),
              )
        ]
      ]

  abbrev pub IsTrusted : (List (Jwk Material) → Type 0) → Option (PreparedJwks Key) → Type 0
  IsTrusted P cached =
      (prepared : PreparedJwks Key) (kid : Text) (k : PreparedKey Key)
      → cached ≡ some prepared
      → find kid prepared.keys ≡ some k
      → Published P kid k

  -- The other tasks left a trusted snapshot.
  abbrev pub PermitIsTrusted : (List (Jwk Material) → Type 0) → Permit Key → Type 0
  PermitIsTrusted P (closed e) = Unit
  PermitIsTrusted P (acquired state now) = IsTrusted P state.cached

  -- Whatever document the task brings is one of the endpoint's.
  abbrev pub Serves : (List (Jwk Material) → Type 0) → JwksKeyStore → FetchTask → Type 0
  Serves P store (join_error e) = Unit
  Serves P store (replied http now) =
      (jwks : List (Jwk Material)) → fetch_jwks lib store.max_body_size http ≡ inl jwks → P jwks

  or_missing-some :
      (kid : Text) (o : Option (PreparedKey Key)) (k : PreparedKey Key)
      → or_missing lib kid o ≡ inl k
      → o ≡ some k
  or_missing-some kid none k e = absurd (ground arith)
  or_missing-some kid (some j) k e = ap (λ r. elim r [ inl i ↦ some i | inr x ↦ some j ]) e

  answer-find :
      (kid : Text) (cached : Option (PreparedJwks Key)) (k : PreparedKey Key)
      → answer lib kid cached ≡ inl k
      → (prepared : PreparedJwks Key) × (cached ≡ some prepared) × (find kid prepared.keys ≡ some k)
  answer-find kid none k e = absurd (ground arith)
  answer-find kid (some prepared) k e =
      (prepared, refl, or_missing-some kid (find kid prepared.keys) k e)

  publish-IsTrusted :
      (P : List (Jwk Material) → Type 0) (jwks : List (Jwk Material)) (now : ℕ)
      (state : StoreState Key)
      → P jwks
      → IsTrusted P (publish lib jwks now state).cached
  unfolding publish
  publish-IsTrusted P jwks now state h prepared kid k e found =
      let snapshot = (prepare_jwks lib jwks now state.warned_drops).0 in
      let same : snapshot ≡ prepared = same_of_some e in
      let found' : find kid snapshot.keys ≡ some k = ap (λ p. find kid p.keys) same ∙ found in
      let last : last_usable lib kid jwks none ≡ some k =
        sym ((prepare_jwks-usable lib jwks now state.warned_drops).0 kid) ∙ found' in
      elim (last_usable-KeyOf kid jwks none k last) [
        | inl clash ↦ absurd (ground arith)
        | inr (jwk, m, of) ↦ (jwks, h, (jwk, m, of))
      ]

  -- What a call returns is published, and so is the snapshot that it leaves.
  pub record IsSound (P : List (Jwk Material) → Type 0) (kid : Text) (r : Looked Key) : Type 0 where
    pub published : (k : PreparedKey Key) → r.outcome ≡ inl k → Published P kid k
    pub trusted : IsTrusted P r.state.cached

  store_fetched-IsSound :
      (P : List (Jwk Material) → Type 0) (kid : Text) (state : StoreState Key) (now : ℕ)
      (r : List (Jwk Material) ⊎ AuthError)
      → IsTrusted P state.cached
      → ((jwks : List (Jwk Material)) → r ≡ inl jwks → P jwks)
      → IsSound P kid (store_fetched lib kid state now r)
  store_fetched-IsSound P kid state now (inr e) h serves = record {
    published = λ k c. absurd (ground arith);
    trusted = h;
  }
  store_fetched-IsSound P kid state now (inl jwks) h serves = record {
    published = λ k e.
        let (prepared, there, found) = answer-find kid (publish lib jwks now state).cached k e in
        publish-IsTrusted P jwks now state (serves jwks refl) prepared kid k there found;
    trusted = publish-IsTrusted P jwks now state (serves jwks refl);
  }

  fetch_key-IsSound :
      (P : List (Jwk Material) → Type 0) (store : JwksKeyStore) (kid : Text)
      (state : StoreState Key) (task : FetchTask)
      → IsTrusted P state.cached
      → Serves P store task
      → IsSound P kid (fetch_key lib store kid state task)
  unfolding fetch_key
  fetch_key-IsSound P store kid state (join_error e) h serves = record {
    published = λ k c. absurd (ground arith);
    trusted = h;
  }
  fetch_key-IsSound P store kid state (replied http now) h serves =
      store_fetched-IsSound P kid state now (fetch_jwks lib store.max_body_size http) h serves

  cached_hit :
      (P : List (Jwk Material) → Type 0) (ttl now : ℕ) (cached : Option (PreparedJwks Key))
      (kid : Text) (k : PreparedKey Key)
      → IsTrusted P cached
      → cache_lookup ttl now cached kid ≡ hit k
      → Published P kid k
  cached_hit P ttl now none kid k h e =
      let clash : stale ≡ hit k = unfold cache_lookup in e in absurd (ground arith)
  cached_hit P ttl now (some prepared) kid k h e =
      h prepared kid k refl (cache_lookup-hit ttl now prepared kid k e)

  after_lookup-IsSound :
      (P : List (Jwk Material) → Type 0) (l : CacheLookup Key) (kid : Text) (state : StoreState Key)
      (on_stale : Looked Key)
      → IsTrusted P state.cached
      → ((k : PreparedKey Key) → l ≡ hit k → Published P kid k)
      → IsSound P kid on_stale
      → IsSound P kid (after_lookup l kid state on_stale)
  after_lookup-IsSound P (hit k) kid state on_stale h hits below = record {
    published = λ j e. hits j (ap (λ r. elim r [ inl i ↦ hit i | inr x ↦ hit k ]) e);
    trusted = h;
  }
  after_lookup-IsSound P fresh_but_missing kid state on_stale h hits below = record {
    published = λ k c. absurd (ground arith);
    trusted = h;
  }
  after_lookup-IsSound P stale kid state on_stale h hits below = below

  recheck-IsSound :
      (P : List (Jwk Material) → Type 0) (store : JwksKeyStore) (kid : Text)
      (before : StoreState Key) (permit : Permit Key) (task : FetchTask)
      → IsTrusted P before.cached
      → PermitIsTrusted P permit
      → Serves P store task
      → IsSound P kid (recheck lib store kid before permit task)
  unfolding recheck
  recheck-IsSound P store kid before (closed e) task h p serves = record {
    published = λ k c. absurd (ground arith);
    trusted = h;
  }
  recheck-IsSound P store kid before (acquired state now) task h p serves =
      after_lookup-IsSound P (cache_lookup store.cache_ttl now state.cached kid) kid state
        (fetch_key lib store kid state task) p
        (λ k e. cached_hit P store.cache_ttl now state.cached kid k p e)
        (fetch_key-IsSound P store kid state task p serves)

  pub find_key-IsSound :
      (P : List (Jwk Material) → Type 0) (store : JwksKeyStore) (kid : Text)
      (state : StoreState Key) (now : ℕ) (permit : Permit Key) (task : FetchTask)
      → IsTrusted P state.cached
      → PermitIsTrusted P permit
      → Serves P store task
      → IsSound P kid (find_key lib store kid state now permit task)
  unfolding find_key
  find_key-IsSound P store kid state now permit task h p serves =
      after_lookup-IsSound P (cache_lookup store.cache_ttl now state.cached kid) kid state
        (recheck lib store kid state permit task) h
        (λ k e. cached_hit P store.cache_ttl now state.cached kid k h e)
        (recheck-IsSound P store kid state permit task h p serves)
