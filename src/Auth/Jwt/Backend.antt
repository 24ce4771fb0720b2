-- ===== src/Auth/Jwt/Backend.antt =====
-- rusty-gasket/src/auth/backends/jwt.rs: `KeyResolver`, `JwtBackend` and its `authenticate`.
pub mod Laws
use rusty_gasket.Common.{ℕ, ◌≡◌, refl, ◌⊎◌, inl, inr, Option, none, some, arith}
use rusty_gasket.Common.Text.{Text}
use rusty_gasket.Json.{Json}
use rusty_gasket.Auth.Errors.{AuthError}
use rusty_gasket.Auth.Jwt.{Validation, Libraries, JwtError, decode_jwt_error}
use rusty_gasket.Auth.Jwt.Tokens.{TokenSource, HeaderMap, extract_token}
use rusty_gasket.Auth.Jwt.Claims.{ClaimsMapper, Mapped, map_claims}
use rusty_gasket.Auth.Jwt.Keys.{JwksKeyStore, StoreState, Permit, FetchTask, resolve_key}

pub data KeyResolver (Key : Type 0) : Type 0 where
  static_key : Key → Validation → KeyResolver Key
  jwks : JwksKeyStore → KeyResolver Key

pub record JwtBackend (Key : Type 0) : Type 0 where
  pub key_resolver : KeyResolver Key
  pub token_source : TokenSource
  pub claims_mapper : ClaimsMapper

-- `Result<Option<Identity>, AuthError>`, the identity with its attribute.
abbrev pub JwtOutcome : Type 0
JwtOutcome = Option Mapped ⊎ AuthError

module _ {Key Material : Type 0} (lib : Libraries Key Material) where
  unfoldable pub map_decoded : ClaimsMapper → Json ⊎ JwtError → JwtOutcome
  unfolding map_claims decode_jwt_error
  map_decoded mapper (inr e) = inr (decode_jwt_error e)
  map_decoded mapper (inl claims) = elim (map_claims mapper claims) [
    | inl mapped ↦ inl (some mapped)
    | inr e ↦ inr e
  ]

  unfoldable pub decode_with : ClaimsMapper → Text → (Key × Validation) ⊎ AuthError → JwtOutcome
  unfolding map_decoded
  decode_with mapper token (inr e) = inr e
  decode_with mapper token (inl (key, validation)) =
      map_decoded mapper (lib.decode token key validation)

  -- The key for the token, from either kind of resolver, and the state of the store.
  unfoldable pub key_for :
      KeyResolver Key
      → Text
      → StoreState Key
      → ℕ
      → Permit Key
      → FetchTask
      → ((Key × Validation) ⊎ AuthError) × StoreState Key
  unfolding resolve_key
  key_for (static_key key validation) token state now permit task = (inl (key, validation), state)
  key_for (jwks store) token state now permit task =
      resolve_key lib store token state now permit task

  unfoldable pub authenticate_jwt :
      JwtBackend Key
      → HeaderMap
      → StoreState Key
      → ℕ
      → Permit Key
      → FetchTask
      → JwtOutcome × StoreState Key
  unfolding extract_token key_for decode_with
  authenticate_jwt backend headers state now permit task =
      elim (extract_token backend.token_source headers) [
        | none ↦ (inl none, state)
        | some token ↦
            let (key, state') = key_for backend.key_resolver token state now permit task in
            (decode_with backend.claims_mapper token key, state')
      ]
