-- ===== src/Auth/Jwt/Security.antt =====
-- rusty-gasket/src/auth/backends/jwt.rs: the builder's defaults and the backend's checks together.
use rusty_gasket.Common.{
  ℕ, ◌≡◌, ◌≢◌, inl, inr, ◌⊎◌, refl, Option, ap, sym, ◌∙◌, List, true, none, some, arith,
}
use rusty_gasket.Common.Text.{Text}
use rusty_gasket.Json.{Json}
use rusty_gasket.Auth.Jwt.{allows, set_checks, set_option, Validation, Jwk, JwtHeader, Libraries}
use rusty_gasket.Auth.Jwt.Tokens.{HeaderMap, extract_token}
use rusty_gasket.Auth.Jwt.Claims.{Mapped, map_claims}
use rusty_gasket.Auth.Jwt.Keys.{PreparedKey, StoreState, Permit, FetchTask}
use rusty_gasket.Auth.Jwt.Keys.Provenance.{Published, IsTrusted, PermitIsTrusted, Serves}
use rusty_gasket.Auth.Jwt.Backend.{jwks, JwtBackend, authenticate_jwt}
use rusty_gasket.Auth.Jwt.Backend.Laws.{authenticate_jwt-accepts}
use rusty_gasket.Auth.Jwt.Builder.{
  UrlLibrary, JwtBackendBuilder, default_jwks_algorithms, allowed_by, store_of, build_jwt,
}
use rusty_gasket.Auth.Jwt.Builder.Laws.{
  shared_secret, family, default_jwks_algorithms-family, IsSafeUrl, IsBuilt, from_static, from_url,
  build_jwt-IsBuilt,
}

chosen : (own default : Option Text) → (own ≡ none) ⊎ (set_option own default ≡ own)
chosen none default = inl refl
chosen (some t) default = inr refl

module _ {Key Material : Type 0} (lib : Libraries Key Material) (urls : UrlLibrary) where
  built_store :
      (b : JwtBackendBuilder) (url : Text) (backend : JwtBackend Key)
      → b.jwks_url ≡ some url
      → IsBuilt lib urls b backend.key_resolver
      → (backend.key_resolver ≡ jwks (store_of url b)) × IsSafeUrl urls b.jwks_allow_http url
  built_store b url backend h (from_static source key hs hu ha hl e) =
      let clash = sym hu ∙ h in absurd (ground arith)
  built_store b url backend h (from_url u hs hu safe hc hn e) =
      let same = same_url u hu in (e ∙ ap (λ x. jwks (store_of x b)) same, rw (← same) safe)
    where
      same_url : (u : Text) → b.jwks_url ≡ some u → u ≡ url
      same_url u hu = ap (λ o. elim o [ none ↦ u | some x ↦ x ]) (sym hu ∙ h)

  -- A backend that is built for a JWKS endpoint without an allow-list of its own never accepts a token
  -- whose header has an algorithm with a shared secret: the published keys cannot be used as one. The
  -- claims of what it accepts were decoded from the token with a key that the endpoint published under the
  -- `kid` of the token's header and for the algorithm of that header, and with the builder's checks of
  -- `exp`, `nbf`, leeway, audience and issuer, where the builder asks for one; the mapper makes the
  -- identity from those claims.
  pub build_jwt-asymmetric :
      (b : JwtBackendBuilder) (url : Text) (backend : JwtBackend Key)
      (P : List (Jwk Material) → Type 0) (headers : HeaderMap) (state : StoreState Key) (now : ℕ)
      (permit : Permit Key) (task : FetchTask) (mapped : Mapped)
      → build_jwt lib urls b ≡ inl backend
      → b.jwks_url ≡ some url
      → b.jwks_allowed_algorithms ≡ none
      → IsTrusted lib P state.cached
      → PermitIsTrusted lib P permit
      → Serves lib P (store_of url b) task
      → (authenticate_jwt lib backend headers state now permit task).0 ≡ inl (some mapped)
      → (token : Text) × (header : JwtHeader) × (kid : Text) × (key : PreparedKey Key)
        × (claims : Json) × (checked : Validation) × (extract_token backend.token_source headers
            ≡ some token)
        × (lib.decode_header token ≡ inl header)
        × (header.kid ≡ some kid)
        × (family header.alg ≢ shared_secret)
        × Published lib P kid key
        × (key.algorithm ≡ header.alg)
        × (lib.decode token key.key checked ≡ inl claims)
        × (checked.algorithm ≡ (lib.new_validation header.alg).algorithm)
        × (checked.validate_exp ≡ b.checks.validate_exp)
        × (checked.validate_nbf ≡ b.checks.validate_nbf)
        × (checked.leeway ≡ b.checks.leeway_secs)
        × ((b.checks.audience ≡ none) ⊎ (checked.audience ≡ b.checks.audience))
        × ((b.checks.issuer ≡ none) ⊎ (checked.issuer ≡ b.checks.issuer))
        × (map_claims backend.claims_mapper claims ≡ inl mapped)
  unfolding set_checks
  build_jwt-asymmetric b url backend P headers state now permit task mapped built hu ha trusted
        others serves h =
      let (resolver, safe) =
        built_store b url backend hu (build_jwt-IsBuilt lib urls b backend built).0 in
      let (token, there, passed) =
        (authenticate_jwt-accepts lib P (store_of url b) state now permit task trusted others serves
            backend headers resolver).1
          mapped h in
      let defaults : allows default_jwks_algorithms passed.header.alg ≡ true =
        ap (λ o. allows (allowed_by o) passed.header.alg) (sym ha) ∙ passed.allowed in
      (
        token,
        passed.header,
        passed.kid,
        passed.key,
        passed.claims,
        set_checks b.checks (lib.new_validation passed.header.alg),
        there,
        passed.decoded,
        passed.named,
        default_jwks_algorithms-family passed.header.alg defaults,
        passed.published,
        passed.own_algorithm,
        passed.verified,
        refl,
        refl,
        refl,
        refl,
        chosen b.checks.audience (lib.new_validation passed.header.alg).audience,
        chosen b.checks.issuer (lib.new_validation passed.header.alg).issuer,
        passed.mapped_to,
      )
