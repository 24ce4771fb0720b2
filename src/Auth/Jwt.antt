-- ===== src/Auth/Jwt.antt =====
-- rusty-gasket/src/auth/backends/jwt.rs: what the source uses of the crates `jsonwebtoken`, `reqwest`
-- and `serde_json`, as the record `Libraries` of functions, and the settings of the backend.
pub mod Tokens
pub mod Claims
pub mod Fetch
pub mod Keys
pub mod Builder
pub mod Backend
pub mod Security
use rusty_gasket.Common.{
  ℕ, ◌≡◌, refl, ◌↔◌, ◌⊎◌, ◌∙◌, ap, sym, Bool, true, not, List, [], ◌∷◌, ◌++◌, Option, none, some,
  arith, ◌==◌, ==_iff, if◌then◌else◌, keep, any,
}
use rusty_gasket.Common.Text.{Text, codes, text_eq}
use rusty_gasket.Json.{Json}
use rusty_gasket.Auth.Errors.{AuthError, token_expired, invalid_credentials, token_validation}

-- `jsonwebtoken::Algorithm`
pub data Algorithm : Type 0 where
  hs256 hs384 hs512 rs256 rs384 rs512 ps256 ps384 ps512 es256 es384 eddsa : Algorithm

abbrev algorithm_code : Algorithm → ℕ
algorithm_code hs256 = 0
algorithm_code hs384 = 1
algorithm_code hs512 = 2
algorithm_code rs256 = 3
algorithm_code rs384 = 4
algorithm_code rs512 = 5
algorithm_code ps256 = 6
algorithm_code ps384 = 7
algorithm_code ps512 = 8
algorithm_code es256 = 9
algorithm_code es384 = 10
algorithm_code eddsa = 11

abbrev pub algorithm_eq : Algorithm → Algorithm → Bool
algorithm_eq a b = algorithm_code a == algorithm_code b

of_code : ℕ → Algorithm
of_code n =
    if n == 0
    then hs256
    else if n == 1
    then hs384
    else if n == 2
    then hs512
    else if n == 3
    then rs256
    else if n == 4
    then rs384
    else if n == 5
    then rs512
    else if n == 6
    then ps256
    else if n == 7
    then ps384
    else if n == 8
    then ps512
    else if n == 9
    then es256
    else if n == 10
    then es384
    else eddsa

of_code-algorithm_code : (a : Algorithm) → of_code (algorithm_code a) ≡ a
unfolding of_code
of_code-algorithm_code hs256 = refl
of_code-algorithm_code hs384 = refl
of_code-algorithm_code hs512 = refl
of_code-algorithm_code rs256 = refl
of_code-algorithm_code rs384 = refl
of_code-algorithm_code rs512 = refl
of_code-algorithm_code ps256 = refl
of_code-algorithm_code ps384 = refl
of_code-algorithm_code ps512 = refl
of_code-algorithm_code es256 = refl
of_code-algorithm_code es384 = refl
of_code-algorithm_code eddsa = refl

pub algorithm_eq_iff : (a b : Algorithm) → (algorithm_eq a b ≡ true) ↔ (a ≡ b)
algorithm_eq_iff a b = (
  λ h.
      sym (of_code-algorithm_code a)
      ∙ ap of_code ((==_iff (algorithm_code a) (algorithm_code b)).0 h)
      ∙ of_code-algorithm_code b,
  λ e. (==_iff (algorithm_code a) (algorithm_code b)).1 (ap algorithm_code e),
)

abbrev pub allows : List Algorithm → Algorithm → Bool
allows algorithms a = any (algorithm_eq a) algorithms

-- `jsonwebtoken::Validation`
pub record Validation : Type 0 where
  pub algorithm : Algorithm
  pub validate_exp : Bool
  pub validate_nbf : Bool
  pub leeway : ℕ
  pub required_spec_claims : List Text
  pub audience : Option Text
  pub issuer : Option Text

pub record JwtHeader : Type 0 where
  pub kid : Option Text
  pub alg : Algorithm

-- `ErrorKind`, with the text of the error.
pub data JwtError : Type 0 where
  expired_signature : JwtError
  invalid_token invalid_signature other_error : Text → JwtError

-- `Jwk`: the algorithm by its text, and the rest of it as `Material`.
pub record Jwk (Material : Type 0) : Type 0 where
  pub key_id : Option Text
  pub key_algorithm : Option Text
  pub material : Material

-- The functions of the crates. An error is its text.
pub record Libraries (Key Material : Type 0) : Type 0 where
  pub decode_header : Text → JwtHeader ⊎ Text
  pub decode : Text → Key → Validation → Json ⊎ JwtError
  pub new_validation : Algorithm → Validation
  pub parse_algorithm : Text → Option Algorithm
  pub algorithm_name : Algorithm → Text
  pub from_jwk : Jwk Material → Key ⊎ Text
  pub from_secret : Text → Key
  pub from_rsa_pem : Text → Key ⊎ Text
  pub from_ec_pem : Text → Key ⊎ Text
  pub from_slice : List ℕ → List (Jwk Material) ⊎ Text
  pub status_text : ℕ → Text
  pub usize_text : ℕ → Text

-- The claim checks of a key store or a builder, which are set on a new validation.
pub record ClaimChecks : Type 0 where
  pub audience : Option Text
  pub issuer : Option Text
  pub validate_exp : Bool
  pub validate_nbf : Bool
  pub leeway_secs : ℕ

abbrev set_option : Option Text → Option Text → Option Text
set_option none old = old
set_option (some v) old = some v

unfoldable pub set_checks : ClaimChecks → Validation → Validation
set_checks checks v = record v {
  validate_exp = checks.validate_exp;
  validate_nbf = checks.validate_nbf;
  leeway = checks.leeway_secs;
  required_spec_claims =
      if checks.validate_exp
      then v.required_spec_claims
      else keep (λ c. not (text_eq c (codes "exp"))) v.required_spec_claims;
  audience = set_option checks.audience v.audience;
  issuer = set_option checks.issuer v.issuer;
}

unfoldable pub decode_jwt_error : JwtError → AuthError
decode_jwt_error expired_signature = token_expired
decode_jwt_error (invalid_token e) = invalid_credentials (codes "Invalid JWT: " ++ e)
decode_jwt_error (invalid_signature e) = invalid_credentials (codes "Invalid JWT: " ++ e)
decode_jwt_error (other_error e) = token_validation (codes "JWT validation failed: " ++ e)
