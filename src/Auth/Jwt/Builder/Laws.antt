-- ===== src/Auth/Jwt/Builder/Laws.antt =====
-- rusty-gasket/src/auth/backends/jwt.rs: what a builder that succeeds has checked.
use rusty_gasket.Common.{
  ◌≡◌, refl, ◌≢◌, ◌⊎◌, inl, inr, ap, sym, ◌∙◌, Bool, true, false, [], Option, none, some, arith,
  Bool-cases, same_of_inl,
}
use rusty_gasket.Common.Text.{Text, codes, text_eq, text_eq_iff}
use rusty_gasket.Common.Chars.{is_empty}
use rusty_gasket.Auth.Errors.{AuthError}
use rusty_gasket.Auth.Jwt.{
  Algorithm, hs256, hs384, hs512, rs256, rs384, rs512, ps256, ps384, ps512, es256, es384, eddsa,
  allows, Validation, set_checks, Libraries,
}
use rusty_gasket.Auth.Jwt.Keys.{JwksKeyStore}
use rusty_gasket.Auth.Jwt.Backend.{KeyResolver, static_key, jwks, JwtBackend}
use rusty_gasket.Auth.Jwt.Builder.{
  StaticKeySource, hmac, rsa, ec, ParsedUrl, UrlLibrary, JwtBackendBuilder, default_jwks_algorithms,
  compatible, static_resolver, build_static_resolver, load_key, has_host, refuse_scheme, refuse_url,
  allowed_by, store_of, no_algorithms, finish_store, checked_store, jwks_resolver, build_jwks_store,
  build_resolver, with_resolver, build_jwt,
}

pub data Family : Type 0 where
  shared_secret rsa_family ec_family edwards : Family

abbrev pub family : Algorithm → Family
family hs256 = shared_secret
family hs384 = shared_secret
family hs512 = shared_secret
family rs256 = rsa_family
family rs384 = rsa_family
family rs512 = rsa_family
family ps256 = rsa_family
family ps384 = rsa_family
family ps512 = rsa_family
family es256 = ec_family
family es384 = ec_family
family eddsa = edwards

abbrev pub source_family : StaticKeySource → Family
source_family (hmac secret) = shared_secret
source_family (rsa pem) = rsa_family
source_family (ec pem) = ec_family

compatible-family :
    (source : StaticKeySource) (a : Algorithm)
    → compatible source a ≡ true
    → family a ≡ source_family source
unfolding compatible
compatible-family (hmac secret) hs256 h = refl
compatible-family (hmac secret) hs384 h = refl
compatible-family (hmac secret) hs512 h = refl
compatible-family (rsa pem) rs256 h = refl
compatible-family (rsa pem) rs384 h = refl
compatible-family (rsa pem) rs512 h = refl
compatible-family (rsa pem) ps256 h = refl
compatible-family (rsa pem) ps384 h = refl
compatible-family (rsa pem) ps512 h = refl
compatible-family (ec pem) es256 h = refl
compatible-family (ec pem) es384 h = refl
compatible-family _ a h = absurd (ground arith)

-- The default allow-list has no algorithm with a shared secret.
pub default_jwks_algorithms-family :
    (a : Algorithm) → allows default_jwks_algorithms a ≡ true → family a ≢ shared_secret
default_jwks_algorithms-family hs256 h = absurd (ground arith)
default_jwks_algorithms-family hs384 h = absurd (ground arith)
default_jwks_algorithms-family hs512 h = absurd (ground arith)
default_jwks_algorithms-family _ h = λ e. ground arith

-- A URL that passes: it parses, has a host, and is `https`, or `http` where that is allowed.
abbrev pub IsSafeUrl : UrlLibrary → Bool → Text → Type 0
IsSafeUrl urls allow_http url =
    (parsed : ParsedUrl) × (urls.parse url ≡ inl parsed)
    × ((host : Text) × (parsed.host ≡ some host) × (is_empty host ≡ false))
    × ((parsed.scheme ≡ codes "https") ⊎ ((parsed.scheme ≡ codes "http") × (allow_http ≡ true)))

module _ (urls : UrlLibrary) (allow_http : Bool) (url : Text) where
  has_host-some :
      (o : Option Text)
      → has_host urls o ≡ true
      → (host : Text) × (o ≡ some host) × (is_empty host ≡ false)
  has_host-some none h = absurd (ground arith)
  has_host-some (some host) h = (host, refl, ground arith)

  refuse_scheme-none :
      (scheme : Text)
      → refuse_scheme urls allow_http url scheme ≡ none
      → (scheme ≡ codes "https") ⊎ ((scheme ≡ codes "http") × (allow_http ≡ true))
  refuse_scheme-none scheme h = elim (Bool-cases (text_eq scheme (codes "https"))) [
    | inl secure ↦ inl ((text_eq_iff scheme (codes "https")).0 secure)
    | inr other ↦ elim (Bool-cases (text_eq scheme (codes "http"))) [
      | inr unknown ↦ let clash = rw (other, unknown) at h in absurd (ground arith)
      | inl plain ↦ elim (Bool-cases allow_http) [
        | inl allowed ↦ inr ((text_eq_iff scheme (codes "http")).0 plain, allowed)
        | inr refused ↦ let clash = rw (other, plain, refused) at h in absurd (ground arith)
      ]
    ]
  ]

  refuse_url-none :
      (r : ParsedUrl ⊎ Text)
      → urls.parse url ≡ r
      → refuse_url urls allow_http url r ≡ none
      → IsSafeUrl urls allow_http url
  unfolding refuse_url
  refuse_url-none (inr e) p h = absurd (ground arith)
  refuse_url-none (inl parsed) p h = elim (Bool-cases (has_host urls parsed.host)) [
    | inr missing ↦ let clash = rw missing at h in absurd (ground arith)
    | inl there ↦ (
      parsed,
      p,
      has_host-some parsed.host there,
      refuse_scheme-none parsed.scheme (rw there at h),
    )
  ]

module _ {Key Material : Type 0} (lib : Libraries Key Material) (urls : UrlLibrary)
    (b : JwtBackendBuilder) where
  -- How a resolver comes from exactly one source of keys.
  pub data IsBuilt (resolver : KeyResolver Key) : Type 0 where
    from_static :
        (source : StaticKeySource) (key : Key)
        → b.static_source ≡ some source
        → b.jwks_url ≡ none
        → family b.algorithm ≡ source_family source
        → load_key lib source ≡ inl key
        → resolver ≡ static_key key (set_checks b.checks (lib.new_validation b.algorithm))
        → IsBuilt resolver
    from_url :
        (url : Text)
        → b.static_source ≡ none
        → b.jwks_url ≡ some url
        → IsSafeUrl urls b.jwks_allow_http url
        → urls.client_error ≡ none
        → allowed_by b.jwks_allowed_algorithms ≢ []
        → resolver ≡ jwks (store_of url b)
        → IsBuilt resolver

  static_resolver-built :
      (validation : Validation) (r : Key ⊎ AuthError) (resolver : KeyResolver Key)
      → static_resolver lib validation r ≡ inl resolver
      → (key : Key) × (r ≡ inl key) × (resolver ≡ static_key key validation)
  static_resolver-built validation (inl key) resolver h = (key, refl, sym (same_of_inl h))
  static_resolver-built validation (inr e) resolver h = absurd (ground arith)

  IsBuilt-static :
      (source : StaticKeySource) (resolver : KeyResolver Key)
      → b.static_source ≡ some source
      → b.jwks_url ≡ none
      → build_static_resolver lib source b ≡ inl resolver
      → IsBuilt resolver
  unfolding build_static_resolver
  IsBuilt-static source resolver hs hu h = elim (Bool-cases (compatible source b.algorithm)) [
    | inr clash ↦ let refused = rw clash at h in absurd (ground arith)
    | inl fits ↦
        let (key, loaded, e) =
          static_resolver-built (set_checks b.checks (lib.new_validation b.algorithm))
            (load_key lib source) resolver (rw fits at h) in
        from_static source key hs hu (compatible-family source b.algorithm fits) loaded e
  ]

  finish_store-built :
      (client_error : Option Text) (url : Text) (store : JwksKeyStore)
      → finish_store client_error url b ≡ inl store
      → (client_error ≡ none)
        × (allowed_by b.jwks_allowed_algorithms ≢ [])
        × (store ≡ store_of url b)
  finish_store-built (some e) url store h = absurd (ground arith)
  finish_store-built none url store h =
      elim (Bool-cases (no_algorithms (allowed_by b.jwks_allowed_algorithms))) [
        | inl empty ↦ let clash = rw empty at h in absurd (ground arith)
        | inr some_left ↦
            (refl, λ e. let clash = rw e at some_left in cc, sym (same_of_inl (rw some_left at h)))
      ]

  checked_store-built :
      (refused client_error : Option Text) (url : Text) (store : JwksKeyStore)
      → checked_store refused client_error url b ≡ inl store
      → (refused ≡ none) × (finish_store client_error url b ≡ inl store)
  checked_store-built (some e) client_error url store h = absurd (ground arith)
  checked_store-built none client_error url store h = (refl, h)

  IsBuilt-from_url :
      (url : Text) (r : JwksKeyStore ⊎ AuthError) (resolver : KeyResolver Key)
      → b.static_source ≡ none
      → b.jwks_url ≡ some url
      → build_jwks_store urls url b ≡ r
      → jwks_resolver lib urls r ≡ inl resolver
      → IsBuilt resolver
  unfolding build_jwks_store
  IsBuilt-from_url url (inr e) resolver hs hu made h = absurd (ground arith)
  IsBuilt-from_url url (inl store) resolver hs hu made h =
      let (passed, finished) =
        checked_store-built (refuse_url urls b.jwks_allow_http url (urls.parse url))
          urls.client_error url store made in
      let (client, algorithms, e) = finish_store-built urls.client_error url store finished in
      from_url url hs hu (refuse_url-none urls b.jwks_allow_http url (urls.parse url) refl passed)
        client algorithms (sym (same_of_inl h) ∙ ap jwks e)

  build_resolver-IsBuilt :
      (source : Option StaticKeySource) (url : Option Text) (resolver : KeyResolver Key)
      → b.static_source ≡ source
      → b.jwks_url ≡ url
      → build_resolver lib urls source url b ≡ inl resolver
      → IsBuilt resolver
  unfolding build_resolver
  build_resolver-IsBuilt none none resolver hs hu h = absurd (ground arith)
  build_resolver-IsBuilt (some source) (some url) resolver hs hu h = absurd (ground arith)
  build_resolver-IsBuilt (some source) none resolver hs hu h =
      IsBuilt-static source resolver hs hu h
  build_resolver-IsBuilt none (some url) resolver hs hu h =
      IsBuilt-from_url url (build_jwks_store urls url b) resolver hs hu refl h

  with_resolver-built :
      (r : KeyResolver Key ⊎ AuthError) (backend : JwtBackend Key)
      → with_resolver lib urls b r ≡ inl backend
      → (r ≡ inl backend.key_resolver) × (backend.token_source ≡ b.token_source)
  with_resolver-built (inr e) backend h = absurd (ground arith)
  with_resolver-built (inl resolver) backend h =
      let same = same_of_inl h in
      (ap (λ k. inl k.key_resolver) same, sym (ap (λ k. k.token_source) same))

  -- A backend is built from exactly one source of keys: from a static key that loads and whose kind is
  -- that of the algorithm, or from a URL that parses, has a host and is `https`, or `http` where that
  -- is allowed, with an allow-list that is not empty; and it has the builder's claim checks and token
  -- source.
  pub build_jwt-IsBuilt :
      (backend : JwtBackend Key)
      → build_jwt lib urls b ≡ inl backend
      → IsBuilt backend.key_resolver × (backend.token_source ≡ b.token_source)
  unfolding build_jwt
  build_jwt-IsBuilt backend h =
      let (resolved, source) =
        with_resolver-built (build_resolver lib urls b.static_source b.jwks_url b) backend h in
      (
        build_resolver-IsBuilt b.static_source b.jwks_url backend.key_resolver refl refl resolved,
        source,
      )
