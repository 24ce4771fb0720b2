-- ===== src/Auth/Jwt/Claims.antt =====
-- rusty-gasket/src/auth/backends/jwt.rs: the mappers from claims to identities. The typed attribute
-- `OAuthTokenClaims` stands beside the identity.
use rusty_gasket.Common.{◌⊎◌, inl, inr, List, [], ◌∷◌, ◌++◌, Option, none, some, if◌then◌else◌}
use rusty_gasket.Common.Text.{Text, codes}
use rusty_gasket.Common.Chars.{is_whitespace}
use rusty_gasket.Json.{Json, get_str}
use rusty_gasket.Auth.Identity.{Identity, new_identity, with_scopes}
use rusty_gasket.Auth.Errors.{AuthError, token_validation}

pub data ClientIdClaim : Type 0 where
  ignore preserve : ClientIdClaim

pub record OAuthTokenClaims : Type 0 where
  pub client_id : Option Text

-- An identity with its attribute.
pub record Mapped : Type 0 where
  pub identity : Identity
  pub attribute : Option OAuthTokenClaims

-- `str::split_whitespace`: the pieces between white space that are not empty.
abbrev push_word : Text → List Text → List Text
push_word [] words = words
push_word (c ∷ word) words = (c ∷ word) ∷ words

abbrev words_from : Text → Text → List Text
words_from word [] = push_word word []
words_from word (c ∷ s) =
    if is_whitespace c then push_word word (words_from [] s) else words_from (word ++ c ∷ []) s

abbrev pub split_whitespace : Text → List Text
split_whitespace s = words_from [] s

abbrev pub scope_claims : Json → List Text
scope_claims claims = elim (get_str (codes "scope") claims) [
  | none ↦ []
  | some scope ↦ split_whitespace scope
]

unfoldable pub map_standard_claims : Json → Text → Option OAuthTokenClaims → Mapped ⊎ AuthError
map_standard_claims claims auth_method oauth = elim (get_str (codes "sub") claims) [
  | none ↦ inr (token_validation (codes "Missing 'sub' claim"))
  | some subject ↦ inl (record {
    identity = record (with_scopes (new_identity subject auth_method) (scope_claims claims)) {
      display_name = get_str (codes "name") claims;
    };
    attribute = oauth;
  })
]

-- `StandardClaimsMapper` and `OAuthClaimsMapper`, and a mapper of the application.
pub data ClaimsMapper : Type 0 where
  standard : ClaimsMapper
  oauth : Text → ClientIdClaim → ClaimsMapper
  custom : (Json → Mapped ⊎ AuthError) → ClaimsMapper

abbrev pub new_oauth : ClaimsMapper
new_oauth = oauth (codes "oauth-jwt") preserve

abbrev pub oauth_claims : ClientIdClaim → Json → Option OAuthTokenClaims
oauth_claims ignore claims = none
oauth_claims preserve claims = some (record { client_id = get_str (codes "client_id") claims })

unfoldable pub map_claims : ClaimsMapper → Json → Mapped ⊎ AuthError
unfolding map_standard_claims
map_claims standard claims = map_standard_claims claims (codes "jwt") none
map_claims (oauth auth_method client_id) claims =
    map_standard_claims claims auth_method (oauth_claims client_id claims)
map_claims (custom f) claims = f claims
