-- ===== src/Auth/Jwt/Backend/Laws.antt =====
-- rusty-gasket/src/auth/backends/jwt.rs: what an accepted token has passed.
use rusty_gasket.Common.{
  ℕ, ◌≡◌, refl, ◌⊎◌, inl, inr, ap, sym, ◌∙◌, true, List, some, arith, Bool-cases, Option-cases,
  same_of_some, result_cases, same_of_inl,
}
use rusty_gasket.Common.Text.{Text}
use rusty_gasket.Json.{Json}
use rusty_gasket.Auth.Errors.{AuthError}
use rusty_gasket.Auth.Jwt.{
  Algorithm, algorithm_eq, algorithm_eq_iff, allows, Validation, set_checks, Jwk, JwtHeader,
  JwtError, Libraries,
}
use rusty_gasket.Auth.Jwt.Tokens.{HeaderMap, extract_token}
use rusty_gasket.Auth.Jwt.Claims.{ClaimsMapper, Mapped, map_claims}
use rusty_gasket.Auth.Jwt.Keys.{
  JwksKeyStore, PreparedKey, StoreState, Permit, FetchTask, find_key, use_key, check_header,
  resolve_key,
}
use rusty_gasket.Auth.Jwt.Keys.Provenance.{
  Published, IsTrusted, PermitIsTrusted, Serves, find_key-IsSound,
}
use rusty_gasket.Auth.Jwt.Backend.{
  jwks, JwtBackend, map_decoded, decode_with, key_for, authenticate_jwt,
}

module _ {Key Material : Type 0} (lib : Libraries Key Material) where
  check_header-passed :
      (store : JwksKeyStore) (r : JwtHeader ⊎ Text) (kid : Text) (alg : Algorithm)
      → check_header lib store r ≡ inl (kid, alg)
      → (header : JwtHeader) × (r ≡ inl header)
        × (header.kid ≡ some kid)
        × (header.alg ≡ alg)
        × (allows store.allowed_algorithms alg ≡ true)
  unfolding check_header
  check_header-passed store (inr e) kid alg h = absurd (ground arith)
  check_header-passed store (inl header) kid alg h = elim (Option-cases header.kid) [
    | inl absent ↦ let clash = rw (absent, check_header) at h in absurd (ground arith)
    | inr (k, there) ↦ elim (Bool-cases (allows store.allowed_algorithms header.alg)) [
      | inr refused ↦ let clash = rw (there, refused, check_header) at h in absurd (ground arith)
      | inl allowed ↦
          let pair : (k, header.alg) ≡ (kid, alg) =
            same_of_inl (rw (there, allowed, check_header) at h) in
          (
            header,
            refl,
            there ∙ ap (λ p. some p.0) pair,
            ap (λ p. p.1) pair,
            ap (λ p. allows store.allowed_algorithms p.1) (sym pair) ∙ allowed,
          )
    ]
  ]

  use_key-passed :
      (store : JwksKeyStore) (alg : Algorithm) (r : PreparedKey Key ⊎ AuthError) (key : Key)
      (validation : Validation)
      → use_key lib store alg r ≡ inl (key, validation)
      → (k : PreparedKey Key) × (r ≡ inl k)
        × (k.algorithm ≡ alg)
        × (k.key ≡ key)
        × (set_checks store.checks (lib.new_validation alg) ≡ validation)
  unfolding use_key
  use_key-passed store alg (inr e) key validation h = absurd (ground arith)
  use_key-passed store alg (inl k) key validation h =
      elim (Bool-cases (algorithm_eq k.algorithm alg)) [
        | inr other ↦ let clash = rw other at h in absurd (ground arith)
        | inl matched ↦
            let same : k.algorithm ≡ alg = (algorithm_eq_iff k.algorithm alg).0 matched in
            let pair = same_of_inl (rw matched at h) in
            (
              k,
              refl,
              same,
              ap (λ p. p.0) pair,
              ap (λ a. set_checks store.checks (lib.new_validation a)) (sym same)
                  ∙ ap (λ p. p.1) pair,
            )
      ]

  map_decoded-accepted :
      (mapper : ClaimsMapper) (r : Json ⊎ JwtError) (mapped : Mapped)
      → map_decoded lib mapper r ≡ inl (some mapped)
      → (claims : Json) × (r ≡ inl claims) × (map_claims mapper claims ≡ inl mapped)
  unfolding map_decoded
  map_decoded-accepted mapper (inr e) mapped h = absurd (ground arith)
  map_decoded-accepted mapper (inl claims) mapped h =
      elim (result_cases (map_claims mapper claims)) [
        | inr (e, refused) ↦ let clash = rw (refused, map_decoded) at h in absurd (ground arith)
        | inl (m, made) ↦
            let same : some m ≡ some mapped = same_of_inl (rw (made, map_decoded) at h) in
            (claims, refl, made ∙ ap inl (same_of_some same))
      ]

  -- What a token has passed that a key store's backend accepts.
  pub record Accepted (P : List (Jwk Material) → Type 0) (store : JwksKeyStore)
      (mapper : ClaimsMapper) (token : Text) (mapped : Mapped) : Type 0 where
    pub header : JwtHeader
    pub kid : Text
    pub key : PreparedKey Key
    pub claims : Json
    pub decoded : lib.decode_header token ≡ inl header
    pub named : header.kid ≡ some kid
    pub allowed : allows store.allowed_algorithms header.alg ≡ true
    pub published : Published lib P kid key
    pub own_algorithm : key.algorithm ≡ header.alg
    pub verified :
        lib.decode token key.key (set_checks store.checks (lib.new_validation header.alg))
        ≡ inl claims
    pub mapped_to : map_claims mapper claims ≡ inl mapped

  decode_with-decoded :
      (mapper : ClaimsMapper) (token : Text) (r : (Key × Validation) ⊎ AuthError) (mapped : Mapped)
      → decode_with lib mapper token r ≡ inl (some mapped)
      → (key : Key) × (validation : Validation) × (r ≡ inl (key, validation))
        × ((claims : Json) × (lib.decode token key validation ≡ inl claims)
            × (map_claims mapper claims ≡ inl mapped))
  unfolding decode_with
  decode_with-decoded mapper token (inr e) mapped h = absurd (ground arith)
  decode_with-decoded mapper token (inl (key, validation)) mapped h = (
    key,
    validation,
    refl,
    map_decoded-accepted mapper (lib.decode token key validation) mapped h,
  )

  resolve_key-checked :
      (store : JwksKeyStore) (token : Text) (state : StoreState Key) (now : ℕ) (permit : Permit Key)
      (task : FetchTask) (key : Key) (validation : Validation)
      → (resolve_key lib store token state now permit task).0 ≡ inl (key, validation)
      → (kid : Text) × (alg : Algorithm) × (check_header lib store (lib.decode_header token)
          ≡ inl (kid, alg))
        × (use_key lib store alg (find_key lib store kid state now permit task).outcome
            ≡ inl (key, validation))
  unfolding resolve_key
  resolve_key-checked store token state now permit task key validation h =
      elim (result_cases (check_header lib store (lib.decode_header token))) [
        | inr (e, refused) ↦ let clash = rw (refused, resolve_key) at h in absurd (ground arith)
        | inl ((kid, alg), passed) ↦ (kid, alg, passed, rw (passed, resolve_key) at h)
      ]

  module _ (P : List (Jwk Material) → Type 0) (store : JwksKeyStore) (state : StoreState Key)
      (now : ℕ) (permit : Permit Key) (task : FetchTask) (trusted : IsTrusted lib P state.cached)
      (others : PermitIsTrusted lib P permit) (serves : Serves lib P store task) where
    token-Accepted :
        (mapper : ClaimsMapper) (token : Text) (mapped : Mapped)
        → decode_with lib mapper token (resolve_key lib store token state now permit task).0
          ≡ inl (some mapped)
        → Accepted P store mapper token mapped
    token-Accepted mapper token mapped h =
        let (key, validation, resolved, (claims, decoded, made)) =
          decode_with-decoded mapper token _ mapped h in
        let (kid, alg, checked, used) =
          resolve_key-checked store token state now permit task key validation resolved in
        let (header, parsed, named, same_alg, allowed) =
          check_header-passed store (lib.decode_header token) kid alg checked in
        let (k, found, own, same_key, same_validation) =
          use_key-passed store alg (find_key lib store kid state now permit task).outcome key
            validation used in
        let sound = find_key-IsSound lib P store kid state now permit task trusted others serves in
        record {
          header = header;
          kid = kid;
          key = k;
          claims = claims;
          decoded = parsed;
          named = named;
          allowed = ap (allows store.allowed_algorithms) same_alg ∙ allowed;
          published = sound.published k found;
          own_algorithm = own ∙ sym same_alg;
          verified = rw (same_alg, same_key, same_validation) decoded;
          mapped_to = made;
        }

    resolve_key-IsTrusted :
        (token : Text)
        → IsTrusted lib P (resolve_key lib store token state now permit task).1.cached
    unfolding resolve_key
    resolve_key-IsTrusted token =
        elim (result_cases (check_header lib store (lib.decode_header token))) [
          | inr (e, refused) ↦ rw (refused, resolve_key) trusted
          | inl ((kid, alg), passed) ↦
              rw (passed, resolve_key)
                (find_key-IsSound lib P store kid state now permit task trusted others
                  serves).trusted
        ]

    -- A backend with a key store accepts a request only with a token that has passed everything: its
    -- header has a `kid` and an allowed algorithm; a key that the endpoint published for that `kid`
    -- and for the very same algorithm verifies it, under the store's claim checks; and the mapper
    -- gives the identity. Accepted or not, every key of the snapshot that is left was published,
    -- provided that those of the snapshots at hand were.
    pub authenticate_jwt-accepts :
        (backend : JwtBackend Key) (headers : HeaderMap)
        → backend.key_resolver ≡ jwks store
        → IsTrusted lib P (authenticate_jwt lib backend headers state now permit task).1.cached
          × ((mapped : Mapped)
              → (authenticate_jwt lib backend headers state now permit task).0 ≡ inl (some mapped)
              → (token : Text) × (extract_token backend.token_source headers ≡ some token)
                × Accepted P store backend.claims_mapper token mapped)
    unfolding authenticate_jwt key_for
    authenticate_jwt-accepts backend headers resolver =
        elim (Option-cases (extract_token backend.token_source headers)) [
          | inl absent ↦ (
            rw (absent, authenticate_jwt) trusted,
            λ mapped h. let clash = rw (absent, authenticate_jwt) at h in absurd (ground arith),
          )
          | inr (token, there) ↦ (
            rw (there, authenticate_jwt, resolver) (resolve_key-IsTrusted token),
            λ mapped h. (
              token,
              there,
              token-Accepted backend.claims_mapper token mapped
                  (rw (there, authenticate_jwt, resolver) at h),
            ),
          )
        ]
