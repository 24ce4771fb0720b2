-- ===== src/Cache/Objects/Loading.antt =====
-- What a cache promises when its backend and its encoding do what they are documented to do.
use rusty_gasket.Common.{
  ℕ, ◌≡◌, refl, ◌⊎◌, inl, inr, false, none, some, ap, sym, ◌∙◌, arith, Option-cases,
}
use rusty_gasket.Common.Text.{Text}
use rusty_gasket.Cache.{CacheKey, KeyResult, ok, err, namespaced_key}
use rusty_gasket.Cache.Objects.{
  CacheResult, done, failed, ObjectCache, decoded, get, set_for, Loaded, load_and_store,
  keep_loaded, get_or_load_without_single_flight,
}

-- A value that was stored is found, until it expires or is deleted; `to_vec` and `from_slice` are
-- inverse.
pub record IsSound {Store T : Type 0} (cache : ObjectCache Store T) : Type 0 where
  pub stored :
      (store : Store) (k bytes : Text) (ttl : ℕ)
      → (cache.backend.set store k bytes ttl).1 ≡ done tt
      → cache.backend.get (cache.backend.set store k bytes ttl).0 k ≡ done (some bytes)
  pub inverse :
      (value : T) (bytes : Text)
      → cache.to_vec value ≡ some bytes
      → cache.from_slice bytes ≡ some value

pub KeyResult-cases : (r : KeyResult) → ((k : Text) × (r ≡ ok k)) ⊎ ((e : _) × (r ≡ err e))
KeyResult-cases (ok k) = inl (k, refl)
KeyResult-cases (err e) = inr (e, refl)

module _ {Store T : Type 0} (cache : ObjectCache Store T) (sound : IsSound cache) where
  get-valid :
      (store : Store) (key : CacheKey) (k : Text)
      → namespaced_key cache.namespace key ≡ ok k
      → get cache store key ≡ decoded cache (cache.backend.get store k)
  unfolding get
  get-valid store key k valid = rw (valid, get) refl

  set_for-valid :
      (store : Store) (key : CacheKey) (ttl : ℕ) (value : T) (k bytes : Text)
      → namespaced_key cache.namespace key ≡ ok k
      → cache.to_vec value ≡ some bytes
      → set_for cache store key ttl value ≡ cache.backend.set store k bytes ttl
  unfolding set_for
  set_for-valid store key ttl value k bytes valid encoded = rw (valid, set_for, encoded) refl

  -- A value that `set_for` stored is what `get` then returns for the key.
  pub get-set_for :
      (store : Store) (key : CacheKey) (ttl : ℕ) (value : T)
      → (set_for cache store key ttl value).1 ≡ done tt
      → get cache (set_for cache store key ttl value).0 key ≡ done (some value)
  unfolding set_for
  get-set_for store key ttl value h = elim (KeyResult-cases (namespaced_key cache.namespace key)) [
    | inr (e, refused) ↦ let out = rw (refused, set_for) at h in absurd (ground arith)
    | inl (k, valid) ↦ elim (Option-cases (cache.to_vec value)) [
      | inl lost ↦ let out = rw (valid, set_for, lost) at h in absurd (ground arith)
      | inr (bytes, encoded) ↦
          let same = set_for-valid store key ttl value k bytes valid encoded in
          let kept : (cache.backend.set store k bytes ttl).1 ≡ done tt =
            ap (λ p. p.1) (sym same) ∙ h in
          let decodes : decoded cache (done (some bytes)) ≡ done (some value) =
            rw (sound.inverse value bytes encoded, decoded) refl in
          ap (λ p. get cache p.0 key) same
          ∙ get-valid (cache.backend.set store k bytes ttl).0 key k valid
          ∙ ap (decoded cache) (sound.stored store k bytes ttl kept)
          ∙ decodes
    ]
  ]

  keep_loaded-store :
      (p : Store × CacheResult (Unit {0})) (value : T) → (keep_loaded cache p value).store ≡ p.0
  keep_loaded-store (store, done u) value = refl
  keep_loaded-store (store, failed e) value = refl

  keep_loaded-result :
      (p : Store × CacheResult (Unit {0})) (value : T)
      → (keep_loaded cache p value).result ≡ done value
      → p.1 ≡ done tt
  keep_loaded-result (store, done u) value h = refl
  keep_loaded-result (store, failed e) value h = absurd (ground arith)

  hit :
      (store : Store) (key : CacheKey) (ttl : ℕ) (value : T) (load : CacheResult T)
      → get cache store key ≡ done (some value)
      → get_or_load_without_single_flight cache store key ttl load
        ≡ record { store = store; result = done value; loader_ran = false }
  unfolding get_or_load_without_single_flight
  hit store key ttl value load found = rw (found, get_or_load_without_single_flight) refl

  miss :
      (store : Store) (key : CacheKey) (ttl : ℕ) (load : CacheResult T)
      → get cache store key ≡ done none
      → get_or_load_without_single_flight cache store key ttl load
        ≡ load_and_store cache store key ttl load
  unfolding get_or_load_without_single_flight
  miss store key ttl load missed = rw (missed, get_or_load_without_single_flight) refl

  -- After a call that loaded its value and stored it, the next call for the key returns that value
  -- and does not run its loader.
  get_or_load-again :
      (store : Store) (key : CacheKey) (ttl : ℕ) (value : T) (load : CacheResult T)
      → get cache store key ≡ done none
      → (get_or_load_without_single_flight cache store key ttl (done value)).result ≡ done value
      → get_or_load_without_single_flight cache
          (get_or_load_without_single_flight cache store key ttl (done value)).store
          key
          ttl
          load
        ≡ record {
          store = (get_or_load_without_single_flight cache store key ttl (done value)).store;
          result = done value;
          loader_ran = false;
        }
  get_or_load-again store key ttl value load missed h =
      let first = miss store key ttl (done value) missed in
      let kept : (set_for cache store key ttl value).1 ≡ done tt =
        keep_loaded-result (set_for cache store key ttl value) value
          (sym (ap Loaded.result first) ∙ h) in
      let same : (get_or_load_without_single_flight cache store key ttl (done value)).store
          ≡ (set_for cache store key ttl value).0 =
        ap Loaded.store first ∙ keep_loaded-store (set_for cache store key ttl value) value in
      let found : get cache
            (get_or_load_without_single_flight cache store key ttl (done value)).store key
          ≡ done (some value) =
        ap (λ t. get cache t key) same ∙ get-set_for store key ttl value kept in
      hit (get_or_load_without_single_flight cache store key ttl (done value)).store key ttl value
        load found
