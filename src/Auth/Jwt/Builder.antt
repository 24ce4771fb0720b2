-- ===== src/Auth/Jwt/Builder.antt =====
-- rusty-gasket/src/auth/backends/jwt.rs: `JwtBackendBuilder` and its `build`. The `url` and `reqwest`
-- crates are the record `UrlLibrary`.
pub mod Laws
use rusty_gasket.Common.{
  ℕ, ◌*◌, ◌^◌, ◌⊎◌, inl, inr, Bool, true, false, ◌||◌, List, [], ◌∷◌, ◌++◌, Option, none, some,
  if◌then◌else◌,
}
use rusty_gasket.Common.Text.{Text, codes, text_eq}
use rusty_gasket.Common.Chars.{is_empty}
use rusty_gasket.Auth.Errors.{AuthError, configuration}
use rusty_gasket.Auth.Jwt.{
  Algorithm, hs256, hs384, hs512, rs256, rs384, rs512, ps256, ps384, ps512, es256, es384, eddsa,
  allows, Validation, ClaimChecks, set_checks, Libraries,
}
use rusty_gasket.Auth.Jwt.Tokens.{TokenSource, bearer_header}
use rusty_gasket.Auth.Jwt.Claims.{ClaimsMapper, standard}
use rusty_gasket.Auth.Jwt.Keys.{JwksKeyStore}
use rusty_gasket.Auth.Jwt.Backend.{KeyResolver, static_key, jwks, JwtBackend}

pub data StaticKeySource : Type 0 where
  hmac rsa ec : Text → StaticKeySource

pub record ParsedUrl : Type 0 where
  pub scheme : Text
  pub host : Option Text

-- `Url::parse`, the `Debug` of a text, and the error of the HTTP client's builder, if it has one.
pub record UrlLibrary : Type 0 where
  pub parse : Text → ParsedUrl ⊎ Text
  pub debug : Text → Text
  pub client_error : Option Text

-- Times in seconds.
pub record JwtBackendBuilder : Type 0 where
  pub static_source : Option StaticKeySource
  pub jwks_url : Option Text
  pub algorithm : Algorithm
  pub token_source : TokenSource
  pub claims_mapper : Option ClaimsMapper
  pub checks : ClaimChecks
  pub jwks_cache_ttl : ℕ
  pub jwks_timeout : ℕ
  pub jwks_max_body_size : ℕ
  pub jwks_allowed_algorithms : Option (List Algorithm)
  pub jwks_allow_http : Bool

abbrev pub default_builder : JwtBackendBuilder
default_builder = record {
  static_source = none;
  jwks_url = none;
  algorithm = hs256;
  token_source = bearer_header;
  claims_mapper = none;
  checks = record {
    audience = none;
    issuer = none;
    validate_exp = true;
    validate_nbf = true;
    leeway_secs = 0;
  };
  jwks_cache_ttl = 300;
  jwks_timeout = 10;
  jwks_max_body_size = 2 ^ 20;
  jwks_allowed_algorithms = none;
  jwks_allow_http = false;
}

abbrev pub hmac_secret : JwtBackendBuilder → Text → JwtBackendBuilder
hmac_secret b secret = record b { static_source = some (hmac secret) }

abbrev pub rsa_pem : JwtBackendBuilder → Text → JwtBackendBuilder
rsa_pem b pem = record b { static_source = some (rsa pem); algorithm = rs256 }

abbrev pub ec_pem : JwtBackendBuilder → Text → JwtBackendBuilder
ec_pem b pem = record b { static_source = some (ec pem); algorithm = es256 }

abbrev pub with_jwks_url : JwtBackendBuilder → Text → JwtBackendBuilder
with_jwks_url b url = record b { jwks_url = some url }

abbrev pub default_jwks_algorithms : List Algorithm
default_jwks_algorithms = rs256 ∷ rs384 ∷ rs512 ∷ ps256 ∷ ps384 ∷ ps512 ∷ es256 ∷ es384 ∷ eddsa ∷ []

-- The `matches!` of the three kinds of keys.
unfoldable pub compatible : StaticKeySource → Algorithm → Bool
compatible (hmac secret) algorithm = allows (hs256 ∷ hs384 ∷ hs512 ∷ []) algorithm
compatible (rsa pem) algorithm =
    allows (rs256 ∷ rs384 ∷ rs512 ∷ ps256 ∷ ps384 ∷ ps512 ∷ []) algorithm
compatible (ec pem) algorithm = allows (es256 ∷ es384 ∷ []) algorithm

abbrev source_name : StaticKeySource → Text
source_name (hmac secret) = codes "HMAC secret"
source_name (rsa pem) = codes "RSA PEM key"
source_name (ec pem) = codes "EC PEM key"

module _ {Key Material : Type 0} (lib : Libraries Key Material) where
  unfoldable pub build_validation : JwtBackendBuilder → Validation
  unfolding set_checks
  build_validation b = set_checks b.checks (lib.new_validation b.algorithm)

  abbrev pem_key : Text → Key ⊎ Text → Key ⊎ AuthError
  pem_key kind (inl key) = inl key
  pem_key kind (inr e) = inr (configuration (codes "Invalid " ++ (kind ++ (codes " PEM: " ++ e))))

  abbrev pub load_key : StaticKeySource → Key ⊎ AuthError
  load_key (hmac secret) = inl (lib.from_secret secret)
  load_key (rsa pem) = pem_key (codes "RSA") (lib.from_rsa_pem pem)
  load_key (ec pem) = pem_key (codes "EC") (lib.from_ec_pem pem)

  abbrev pub static_resolver : Validation → Key ⊎ AuthError → KeyResolver Key ⊎ AuthError
  static_resolver validation (inl key) = inl (static_key key validation)
  static_resolver validation (inr e) = inr e

  unfoldable pub build_static_resolver :
      StaticKeySource → JwtBackendBuilder → KeyResolver Key ⊎ AuthError
  unfolding build_validation compatible
  build_static_resolver source b =
      if compatible source b.algorithm
      then static_resolver (build_validation b) (load_key source)
      else inr (
          configuration (
            codes "Algorithm "
            ++ (lib.algorithm_name b.algorithm
                ++ (codes " is incompatible with " ++ source_name source))))

module _ (urls : UrlLibrary) where
  abbrev pub has_host : Option Text → Bool
  has_host none = false
  has_host (some host) = if is_empty host then false else true

  -- The match on the scheme: its error, if it is refused.
  abbrev pub refuse_scheme : Bool → Text → Text → Option Text
  refuse_scheme allow_http url scheme =
      if text_eq scheme (codes "https")
      then none
      else if text_eq scheme (codes "http")
      then if allow_http
        then none
        else some (
            codes "JWKS URL must use https:// (got "
            ++ (urls.debug url ++ codes "); call jwks_allow_http(true) to opt out"))
      else some
          (codes "JWKS URL scheme must be http or https (got " ++ (urls.debug scheme ++ codes ")"))

  -- The checks of the URL, in order.
  unfoldable pub refuse_url : Bool → Text → ParsedUrl ⊎ Text → Option Text
  refuse_url allow_http url (inr e) =
      some (
        codes "JWKS URL is not a valid absolute URL ("
        ++ (e ++ (codes "); got " ++ urls.debug url)))
  refuse_url allow_http url (inl parsed) =
      if has_host parsed.host
      then refuse_scheme allow_http url parsed.scheme
      else some (codes "JWKS URL has no host: " ++ urls.debug url)

abbrev pub allowed_by : Option (List Algorithm) → List Algorithm
allowed_by none = default_jwks_algorithms
allowed_by (some algorithms) = algorithms

abbrev pub no_algorithms : List Algorithm → Bool
no_algorithms [] = true
no_algorithms (a ∷ algorithms) = false

abbrev pub store_of : Text → JwtBackendBuilder → JwksKeyStore
store_of url b = record {
  url = url;
  cache_ttl = b.jwks_cache_ttl;
  max_body_size = b.jwks_max_body_size;
  allowed_algorithms = allowed_by b.jwks_allowed_algorithms;
  checks = b.checks;
}

-- The client and the allow-list, once the URL has passed.
abbrev pub finish_store : Option Text → Text → JwtBackendBuilder → JwksKeyStore ⊎ AuthError
finish_store (some e) url b = inr (configuration (codes "Failed to build JWKS HTTP client: " ++ e))
finish_store none url b =
    if no_algorithms (allowed_by b.jwks_allowed_algorithms)
    then inr (configuration (codes "JWKS allowed_algorithms must not be empty"))
    else inl (store_of url b)

abbrev pub checked_store :
    Option Text → Option Text → Text → JwtBackendBuilder → JwksKeyStore ⊎ AuthError
checked_store (some e) client_error url b = inr (configuration e)
checked_store none client_error url b = finish_store client_error url b

unfoldable pub build_jwks_store : UrlLibrary → Text → JwtBackendBuilder → JwksKeyStore ⊎ AuthError
unfolding refuse_url
build_jwks_store urls url b =
    checked_store (refuse_url urls b.jwks_allow_http url (urls.parse url)) urls.client_error url b

module _ {Key Material : Type 0} (lib : Libraries Key Material) (urls : UrlLibrary) where
  abbrev pub jwks_resolver : JwksKeyStore ⊎ AuthError → KeyResolver Key ⊎ AuthError
  jwks_resolver (inl store) = inl (jwks store)
  jwks_resolver (inr e) = inr e

  -- The match on the two sources of keys.
  unfoldable pub build_resolver :
      Option StaticKeySource → Option Text → JwtBackendBuilder → KeyResolver Key ⊎ AuthError
  unfolding build_static_resolver build_jwks_store
  build_resolver none none b = inr (
      configuration
        (codes "JWT key source is required (call hmac_secret, rsa_pem, ec_pem, or jwks_url)"))
  build_resolver (some source) (some url) b =
      inr (configuration (codes "JWT backend cannot use both a static key and a JWKS URL"))
  build_resolver (some source) none b = build_static_resolver lib source b
  build_resolver none (some url) b = jwks_resolver (build_jwks_store urls url b)

  abbrev mapper_or : Option ClaimsMapper → ClaimsMapper
  mapper_or none = standard
  mapper_or (some mapper) = mapper

  abbrev pub with_resolver :
      JwtBackendBuilder → KeyResolver Key ⊎ AuthError → JwtBackend Key ⊎ AuthError
  with_resolver b (inr e) = inr e
  with_resolver b (inl resolver) = inl (record {
    key_resolver = resolver;
    token_source = b.token_source;
    claims_mapper = mapper_or b.claims_mapper;
  })

  unfoldable pub build_jwt : JwtBackendBuilder → JwtBackend Key ⊎ AuthError
  unfolding build_resolver
  build_jwt b = with_resolver b (build_resolver b.static_source b.jwks_url b)
