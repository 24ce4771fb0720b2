-- ===== src/Cache/Objects/Provenance.antt =====
-- Where a value comes from that the object cache of rusty-gasket/src/cache.rs gives back.
use rusty_gasket.Common.{
  ℕ, ◌≡◌, refl, sym, ap, ◌∙◌, ◌⊎◌, inl, inr, Option, none, some, arith, Option-cases, same_of_some,
}
use rusty_gasket.Common.Text.{Text}
use rusty_gasket.Cache.{CacheKey, ok, err, namespaced_key}
use rusty_gasket.Cache.Objects.{CacheResult, done, failed, ObjectCache, decoded, get, set_for}
use rusty_gasket.Cache.Objects.Loading.{KeyResult-cases}

-- A backend that invents nothing, in which writes may be lost and entries may vanish, with an encoding
-- that can be undone.
pub record InventsNothing {Store T : Type 0} (cache : ObjectCache Store T) : Type 0 where
  pub of_set :
      (store : Store) (k bytes j found : Text) (ttl : ℕ)
      → cache.backend.get (cache.backend.set store k bytes ttl).0 j ≡ done (some found)
      → (found ≡ bytes) ⊎ (cache.backend.get store j ≡ done (some found))
  pub inverse :
      (value : T) (bytes : Text)
      → cache.to_vec value ≡ some bytes
      → cache.from_slice bytes ≡ some value

module _ {Store T : Type 0} (cache : ObjectCache Store T) (honest : InventsNothing cache) where
  decoded-done :
      (r : CacheResult (Option Text)) (value : T)
      → decoded cache r ≡ done (some value)
      → (bytes : Text) × (r ≡ done (some bytes)) × (cache.from_slice bytes ≡ some value)
  decoded-done (failed e) value h = absurd (ground arith)
  decoded-done (done none) value h = absurd (ground arith)
  decoded-done (done (some bytes)) value h = elim (Option-cases (cache.from_slice bytes)) [
    | inl lost ↦ let out = rw (lost, decoded) at h in absurd (ground arith)
    | inr (v, found) ↦ let out = rw (found, decoded) at h in (bytes, refl, ground arith)
  ]

  set_for-refused :
      (store : Store) (key : CacheKey) (ttl : ℕ) (value : T) (e : _)
      → namespaced_key cache.namespace key ≡ err e
      → (set_for cache store key ttl value).0 ≡ store
  unfolding set_for
  set_for-refused store key ttl value e refused = rw (refused, set_for) refl

  set_for-lost :
      (store : Store) (key : CacheKey) (ttl : ℕ) (value : T) (k : Text)
      → namespaced_key cache.namespace key ≡ ok k
      → cache.to_vec value ≡ none
      → (set_for cache store key ttl value).0 ≡ store
  unfolding set_for
  set_for-lost store key ttl value k valid lost = rw (valid, set_for, lost) refl

  set_for-stores :
      (store : Store) (key : CacheKey) (ttl : ℕ) (value : T) (k bytes : Text)
      → namespaced_key cache.namespace key ≡ ok k
      → cache.to_vec value ≡ some bytes
      → (set_for cache store key ttl value).0 ≡ (cache.backend.set store k bytes ttl).0
  unfolding set_for
  set_for-stores store key ttl value k bytes valid encoded = rw (valid, set_for, encoded) refl

  get-bytes :
      (store : Store) (key : CacheKey) (found : T)
      → get cache store key ≡ done (some found)
      → (k bytes : Text) × (namespaced_key cache.namespace key ≡ ok k)
        × (cache.backend.get store k ≡ done (some bytes))
        × (cache.from_slice bytes ≡ some found)
  unfolding get
  get-bytes store key found h = elim (KeyResult-cases (namespaced_key cache.namespace key)) [
    | inr (e, refused) ↦ let out = rw (refused, get) at h in absurd (ground arith)
    | inl (k, valid) ↦
        let (bytes, there, read) =
          decoded-done (cache.backend.get store k) found (rw (valid, get) at h) in
        (k, bytes, valid, there, read)
  ]

  get-of_bytes :
      (store : Store) (key : CacheKey) (found : T) (k bytes : Text)
      → namespaced_key cache.namespace key ≡ ok k
      → cache.backend.get store k ≡ done (some bytes)
      → cache.from_slice bytes ≡ some found
      → get cache store key ≡ done (some found)
  unfolding get
  get-of_bytes store key found k bytes valid there read = rw (valid, get, there, decoded, read) refl

  -- After a write, what is found is the value that was written or was there before.
  pub get-set_for-cases :
      (store : Store) (key j : CacheKey) (ttl : ℕ) (value found : T)
      → get cache (set_for cache store key ttl value).0 j ≡ done (some found)
      → (found ≡ value) ⊎ (get cache store j ≡ done (some found))
  get-set_for-cases store key j ttl value found h =
      elim (KeyResult-cases (namespaced_key cache.namespace key)) [
        | inr (e, refused) ↦ inr (rw (set_for-refused store key ttl value e refused) at h)
        | inl (k, valid) ↦ elim (Option-cases (cache.to_vec value)) [
          | inl lost ↦ inr (rw (set_for-lost store key ttl value k valid lost) at h)
          | inr (bytes, encoded) ↦
              let (i, read, at_i, there, means) =
                get-bytes (cache.backend.set store k bytes ttl).0 j found
                  (rw (set_for-stores store key ttl value k bytes valid encoded) at h) in
              elim (honest.of_set store k bytes i read ttl there) [
                | inl same ↦ inl (
                    same_of_some
                      (sym means ∙ ap cache.from_slice same ∙ honest.inverse value bytes encoded))
                | inr before ↦ inr (get-of_bytes store j found i read at_i before means)
              ]
        ]
      ]
