-- ===== src/Auth/Jwt/Keys.antt =====
-- rusty-gasket/src/auth/backends/jwt.rs: `JwksKeyStore` with its cache, `prepare_jwks` and
-- `resolve_key`. The state is what the store's cell and its set of warnings hold; time is a number of
-- ticks.
pub mod Prepared
pub mod Laws
pub mod Provenance
use rusty_gasket.Common.{
  ℕ, ◌+◌, ◌-◌, ◌≤◌, ◌≡◌, refl, ◌⊎◌, inl, inr, Bool, true, false, not, List, [], ◌∷◌, ◌++◌, Option,
  none, some, arith, leb, if◌then◌else◌, any, keep, take,
}
use rusty_gasket.Common.Text.{Text, codes, text_eq}
use rusty_gasket.Common.Chars.{is_control}
use rusty_gasket.Auth.Errors.{AuthError, token_validation, backend_error}
use rusty_gasket.Auth.Jwt.{
  Algorithm, algorithm_eq, allows, Validation, ClaimChecks, set_checks, Jwk, JwtHeader, Libraries,
}
use rusty_gasket.Auth.Jwt.Fetch.{HttpReply, fetch_jwks, fetch_error, fetch_task}

abbrev pub sanitize_for_log : Text → Text
sanitize_for_log s = take 128 (keep (λ c. not (is_control c)) s)

abbrev pub kid_not_found : Text → AuthError
kid_not_found kid =
    token_validation (codes "Key '" ++ (sanitize_for_log kid ++ codes "' not found in JWKS"))

-- The store's settings.
pub record JwksKeyStore : Type 0 where
  pub url : Text
  pub cache_ttl : ℕ
  pub max_body_size : ℕ
  pub allowed_algorithms : List Algorithm
  pub checks : ClaimChecks

pub record PreparedKey (Key : Type 0) : Type 0 where
  pub key : Key
  pub algorithm : Algorithm

pub record PreparedJwks (Key : Type 0) : Type 0 where
  pub fetched_at : ℕ
  pub keys : List (Text × PreparedKey Key)

pub record StoreState (Key : Type 0) : Type 0 where
  pub cached : Option (PreparedJwks Key)
  pub warned_drops : List Text

pub data CacheLookup (Key : Type 0) : Type 0 where
  hit : PreparedKey Key → CacheLookup Key
  fresh_but_missing stale : CacheLookup Key

-- What a task that asked for the permit gets: the error of a closed semaphore, or the state that the
-- others left and the time.
pub data Permit (Key : Type 0) : Type 0 where
  closed : Text → Permit Key
  acquired : StoreState Key → ℕ → Permit Key

-- How the spawned task ends: with the endpoint's reply at a time, or not at all.
pub data FetchTask : Type 0 where
  replied : HttpReply → ℕ → FetchTask
  join_error : Text → FetchTask

-- The result of a call, the state that it leaves, and whether it asked the endpoint.
pub record Looked (Key : Type 0) : Type 0 where
  pub outcome : PreparedKey Key ⊎ AuthError
  pub state : StoreState Key
  pub fetched : Bool

-- `HashSet::insert` of `warn_once`: the set, and the warnings given.
abbrev pub warn_once : Text → Text → List Text × List Text → List Text × List Text
warn_once reason kid (warned, emitted) =
    let key = reason ++ (codes ":" ++ kid) in
    if any (text_eq key) warned then (warned, emitted) else (key ∷ warned, emitted ++ key ∷ [])

module _ {Key : Type 0} where
  -- `HashMap::get` and `insert`, on a list whose first entry for a key counts.
  abbrev pub find : Text → List (Text × PreparedKey Key) → Option (PreparedKey Key)
  find kid [] = none
  find kid ((k, v) ∷ keys) = if text_eq k kid then some v else find kid keys

  -- `elapsed` is the time since the fetch.
  unfoldable pub cache_lookup : ℕ → ℕ → Option (PreparedJwks Key) → Text → CacheLookup Key
  cache_lookup ttl now none kid = stale
  cache_lookup ttl now (some prepared) kid =
      if leb ttl (now - prepared.fetched_at)
      then stale
      else elim (find kid prepared.keys) [ some key ↦ hit key | none ↦ fresh_but_missing ]

-- The match on a look-up, which goes on only at a stale snapshot.
abbrev pub after_lookup :
    {Key : Type 0} → CacheLookup Key → Text → StoreState Key → Looked Key → Looked Key
after_lookup (hit key) kid state on_stale = record {
  outcome = inl key;
  state = state;
  fetched = false;
}
after_lookup fresh_but_missing kid state on_stale = record {
  outcome = inr (kid_not_found kid);
  state = state;
  fetched = false;
}
after_lookup stale kid state on_stale = on_stale

-- The keys so far, the set of warnings and the warnings given.
abbrev pub Preparing : Type 0 → Type 0
Preparing Key = List (Text × PreparedKey Key) × (List Text × List Text)

-- The body of the loop of `prepare_jwks`, from the entry's `kid`, its algorithm and its key.
unfoldable pub prepare_entry :
    {Key : Type 0} → Option Text → Option Algorithm → Key ⊎ Text → Preparing Key → Preparing Key
prepare_entry none algorithm made (keys, logs) =
    (keys, warn_once (codes "no `kid`") (codes "<no-kid>") logs)
prepare_entry (some kid) none made (keys, logs) = (keys, warn_once (codes "no-usable-alg") kid logs)
prepare_entry (some kid) (some algorithm) (inl key) (keys, logs) =
    ((kid, record { key = key; algorithm = algorithm }) ∷ keys, logs)
prepare_entry (some kid) (some algorithm) (inr e) (keys, logs) =
    (keys, warn_once (codes "decode-key-failed") kid logs)

module _ {Key Material : Type 0} (lib : Libraries Key Material) where
  -- `key_algorithm.and_then(..)`
  abbrev pub usable_algorithm : Option Text → Option Algorithm
  usable_algorithm none = none
  usable_algorithm (some name) = lib.parse_algorithm name

  -- The loop over the entries of the document, with the keys and the warnings so far.
  unfoldable pub prepare_keys : List (Jwk Material) → Preparing Key → Preparing Key
  unfolding prepare_entry
  prepare_keys [] so_far = so_far
  prepare_keys (jwk ∷ jwks) so_far =
      prepare_keys jwks
        (prepare_entry jwk.key_id (usable_algorithm jwk.key_algorithm) (lib.from_jwk jwk) so_far)

  -- `prepare_jwks` at a time, and the warnings that it gives.
  unfoldable pub prepare_jwks :
      List (Jwk Material) → ℕ → List Text → PreparedJwks Key × (List Text × List Text)
  unfolding prepare_keys
  prepare_jwks jwks now warned =
      let (keys, logs) = prepare_keys jwks ([], (warned, [])) in
      (record { fetched_at = now; keys = keys }, logs)

  -- The spawned task stores the snapshot.
  unfoldable pub publish : List (Jwk Material) → ℕ → StoreState Key → StoreState Key
  unfolding prepare_jwks
  publish jwks now state =
      let (prepared, logs) = prepare_jwks jwks now state.warned_drops in
      record { cached = some prepared; warned_drops = logs.0 }

  -- `prepared.keys.get(kid).cloned().ok_or_else(..)`
  abbrev pub or_missing : Text → Option (PreparedKey Key) → PreparedKey Key ⊎ AuthError
  or_missing kid none = inr (kid_not_found kid)
  or_missing kid (some key) = inl key

  abbrev pub answer : Text → Option (PreparedJwks Key) → PreparedKey Key ⊎ AuthError
  answer kid none = inr (kid_not_found kid)
  answer kid (some prepared) = or_missing kid (find kid prepared.keys)

  abbrev pub store_fetched :
      Text → StoreState Key → ℕ → List (Jwk Material) ⊎ AuthError → Looked Key
  store_fetched kid state now (inr e) = record { outcome = inr e; state = state; fetched = true }
  store_fetched kid state now (inl jwks) = record {
    outcome = answer kid (publish jwks now state).cached;
    state = publish jwks now state;
    fetched = true;
  }

  unfoldable pub fetch_key : JwksKeyStore → Text → StoreState Key → FetchTask → Looked Key
  unfolding publish fetch_jwks
  fetch_key store kid state (join_error e) = record {
    outcome = inr (fetch_error lib (inl (fetch_task e)));
    state = state;
    fetched = true;
  }
  fetch_key store kid state (replied http now) =
      store_fetched kid state now (fetch_jwks lib store.max_body_size http)

  -- The second look, with the permit.
  unfoldable pub recheck :
      JwksKeyStore → Text → StoreState Key → Permit Key → FetchTask → Looked Key
  unfolding fetch_key cache_lookup
  recheck store kid before (closed e) task = record {
    outcome = inr (backend_error e);
    state = before;
    fetched = false;
  }
  recheck store kid before (acquired state now) task =
      after_lookup (cache_lookup store.cache_ttl now state.cached kid) kid state
        (fetch_key store kid state task)

  unfoldable pub find_key :
      JwksKeyStore → Text → StoreState Key → ℕ → Permit Key → FetchTask → Looked Key
  unfolding recheck cache_lookup
  find_key store kid state now permit task =
      after_lookup (cache_lookup store.cache_ttl now state.cached kid) kid state
        (recheck store kid state permit task)

  abbrev pub mismatch_text : Algorithm → Algorithm → Text
  mismatch_text alg key_alg =
      codes "JWT alg "
      ++ (lib.algorithm_name alg
          ++ (codes " does not match JWKS key alg " ++ lib.algorithm_name key_alg))

  -- The check of the key's own algorithm, and the validation for it.
  unfoldable pub use_key :
      JwksKeyStore → Algorithm → PreparedKey Key ⊎ AuthError → (Key × Validation) ⊎ AuthError
  unfolding set_checks
  use_key store alg (inr e) = inr e
  use_key store alg (inl prepared) =
      if algorithm_eq prepared.algorithm alg
      then inl (prepared.key, set_checks store.checks (lib.new_validation prepared.algorithm))
      else inr (token_validation (mismatch_text alg prepared.algorithm))

  -- The checks before the key is looked up: the `kid` and the allow-list.
  unfoldable pub check_header : JwksKeyStore → JwtHeader ⊎ Text → (Text × Algorithm) ⊎ AuthError
  check_header store (inr e) = inr (token_validation (codes "Invalid JWT header: " ++ e))
  check_header store (inl header) = elim header.kid [
    | none ↦ inr (token_validation (codes "JWT missing 'kid' header"))
    | some kid ↦
        if allows store.allowed_algorithms header.alg
        then inl (kid, header.alg)
        else inr (
            token_validation (
              codes "Algorithm "
              ++ (lib.algorithm_name header.alg ++ codes " is not in the JWKS allow-list")))
  ]

  -- The key with its validation, and what the look-up did, where there was one.
  unfoldable pub resolve_key :
      JwksKeyStore
      → Text
      → StoreState Key
      → ℕ
      → Permit Key
      → FetchTask
      → ((Key × Validation) ⊎ AuthError) × StoreState Key
  unfolding check_header use_key find_key
  resolve_key store token state now permit task =
      elim (check_header store (lib.decode_header token)) [
        | inr e ↦ (inr e, state)
        | inl (kid, alg) ↦
            let looked = find_key store kid state now permit task in
            (use_key store alg looked.outcome, looked.state)
      ]
