-- ===== src/Cache/Objects.antt =====
-- rusty-gasket/src/cache.rs: `ObjectCache`, one call at a time. The backend is a record of functions on
-- a store, `to_vec` and `from_slice` are serde's, and `load` is what the loader returns. A lifetime is
-- a number of seconds.
pub mod Loading
pub mod Provenance
use rusty_gasket.Common.{ℕ, Bool, true, false, Option, none, some}
use rusty_gasket.Common.Text.{Text}
use rusty_gasket.Cache.{CacheKey, InvalidKey, ok, err, namespaced_key}

pub data CacheError : Type 0 where
  invalid_key : InvalidKey → CacheError
  encode decode : CacheError
  loader backend : Text → CacheError

pub data CacheResult (A : Type 0) : Type 0 where
  done : A → CacheResult A
  failed : CacheError → CacheResult A

-- `trait CacheBackend`; an error of the backend is its text.
pub record CacheBackend (Store : Type 0) : Type 0 where
  pub get : Store → Text → CacheResult (Option Text)
  pub set : Store → Text → Text → ℕ → Store × CacheResult (Unit {0})
  pub delete : Store → Text → Store × CacheResult (Unit {0})

pub record ObjectCache (Store T : Type 0) : Type 0 where
  pub backend : CacheBackend Store
  pub namespace : Text
  pub default_ttl : ℕ
  pub to_vec : T → Option Text
  pub from_slice : Text → Option T

module _ {Store T : Type 0} (cache : ObjectCache Store T) where
  -- Bytes that were found, as a value.
  abbrev pub decoded : CacheResult (Option Text) → CacheResult (Option T)
  decoded (failed e) = failed e
  decoded (done none) = done none
  decoded (done (some bytes)) = elim (cache.from_slice bytes) [
    | none ↦ failed decode
    | some value ↦ done (some value)
  ]

  unfoldable pub get : Store → CacheKey → CacheResult (Option T)
  get store key = elim (namespaced_key cache.namespace key) [
    | err e ↦ failed (invalid_key e)
    | ok k ↦ decoded (cache.backend.get store k)
  ]

  unfoldable pub set_for : Store → CacheKey → ℕ → T → Store × CacheResult (Unit {0})
  set_for store key ttl value = elim (namespaced_key cache.namespace key) [
    | err e ↦ (store, failed (invalid_key e))
    | ok k ↦ elim (cache.to_vec value) [
      | none ↦ (store, failed encode)
      | some bytes ↦ cache.backend.set store k bytes ttl
    ]
  ]

  abbrev pub set_default : Store → CacheKey → T → Store × CacheResult (Unit {0})
  set_default store key value = set_for store key cache.default_ttl value

  unfoldable pub delete : Store → CacheKey → Store × CacheResult (Unit {0})
  delete store key = elim (namespaced_key cache.namespace key) [
    | err e ↦ (store, failed (invalid_key e))
    | ok k ↦ cache.backend.delete store k
  ]

  -- What a call leaves and returns, and whether it ran the loader.
  pub record Loaded : Type 0 where
    pub store : Store
    pub result : CacheResult T
    pub loader_ran : Bool

  -- What is done with a loaded value.
  abbrev pub keep_loaded : Store × CacheResult (Unit {0}) → T → Loaded
  keep_loaded (store, done u) value = record {
    store = store;
    result = done value;
    loader_ran = true;
  }
  keep_loaded (store, failed e) value = record {
    store = store;
    result = failed e;
    loader_ran = true;
  }

  abbrev pub load_and_store : Store → CacheKey → ℕ → CacheResult T → Loaded
  load_and_store store key ttl (failed e) = record {
    store = store;
    result = failed e;
    loader_ran = true;
  }
  load_and_store store key ttl (done value) = keep_loaded (set_for store key ttl value) value

  unfoldable pub get_or_load_without_single_flight : Store → CacheKey → ℕ → CacheResult T → Loaded
  unfolding get
  get_or_load_without_single_flight store key ttl load = elim (get store key) [
    | failed e ↦ record { store = store; result = failed e; loader_ran = false }
    | done (some value) ↦ record { store = store; result = done value; loader_ran = false }
    | done none ↦ load_and_store store key ttl load
  ]
