-- ===== src/Auth/Credentials.antt =====
-- rusty-gasket/src/auth/backends/basic_auth.rs and api_key.rs. Base64 with UTF-8 decoding, the
-- comparison in constant time and the parser of query strings are arguments; a text is compared by its
-- code points, which have the same lengths and equality as its bytes.
pub mod Laws
use rusty_gasket.Common.{
  ℕ, ◌≡◌, refl, ◌≢◌, ◌↔◌, ◌⊎◌, inl, inr, ap, sym, ◌∙◌, Bool, true, false, ◌&&◌, List, [], ◌∷◌, ◌++◌,
  Option, none, some, arith, ◌==◌, if◌then◌else◌, length, Bool-cases, Option-cases, same_of_some,
}
use rusty_gasket.Common.Text.{Text, codes, text_eq, text_eq_iff}
use rusty_gasket.Common.Chars.{trim, byte_len}
use rusty_gasket.Auth.Identity.{Identity, new_identity}
use rusty_gasket.Auth.Errors.{invalid_credentials}
use rusty_gasket.Auth.Chain.{AuthOutcome, ok, err}
use rusty_gasket.Auth.Bearer.{strip_ignoring_case}
use rusty_gasket.Auth.Jwt.Tokens.{HeaderMap, header_text}

abbrev pub push_first : ℕ → Option (Text × Text) → Option (Text × Text)
push_first c none = none
push_first c (some (a, b)) = some (c ∷ a, b)

-- `str::split_once(':')`
unfoldable pub split_once : Text → Option (Text × Text)
split_once [] = none
split_once (c ∷ s) = let rest = split_once s in if c == 58 then some ([], s) else push_first c rest

abbrev split_decoded : Option Text → Option (Text × Text)
split_decoded none = none
split_decoded (some decoded) = split_once decoded

-- `decode` is base64 and then `String::from_utf8`.
unfoldable pub extract_basic_credentials : (Text → Option Text) → Text → Option (Text × Text)
unfolding split_once
extract_basic_credentials decode value = elim (strip_ignoring_case (codes "Basic ") value) [
  | none ↦ none
  | some encoded ↦ split_decoded (decode (trim encoded))
]

pub record BasicAuthBackend : Type 0 where
  pub username : Text
  pub password : Text
  pub subject : Text
  pub service_account : Bool
  pub privileged : Bool

abbrev pub new_basic_auth : Text → Text → BasicAuthBackend
new_basic_auth username password = record {
  username = username;
  password = password;
  subject = codes "basic-auth";
  service_account = false;
  privileged = false;
}

abbrev pub basic_identity : BasicAuthBackend → Identity
basic_identity b = record (new_identity b.subject (codes "basic-auth")) {
  service_account = b.service_account;
  privileged = b.privileged;
}

abbrev pub same_secret : (Text → Text → Bool) → Text → Text → Bool
same_secret ct_eq presented expected =
    byte_len presented == byte_len expected && ct_eq presented expected

-- Both halves are compared before the decision.
unfoldable pub judge_credentials :
    (Text → Text → Bool) → BasicAuthBackend → Option (Text × Text) → AuthOutcome
judge_credentials ct_eq b none = ok none
judge_credentials ct_eq b (some (username, password)) =
    let user_ok = same_secret ct_eq username b.username in
    let pass_ok = same_secret ct_eq password b.password in
    if user_ok && pass_ok
    then ok (some (basic_identity b))
    else err (invalid_credentials (codes "basic auth credential mismatch"))

unfoldable pub authenticate_basic :
    (Text → Option Text) → (Text → Text → Bool) → BasicAuthBackend → HeaderMap → AuthOutcome
unfolding judge_credentials extract_basic_credentials
authenticate_basic decode ct_eq b headers = elim (header_text headers (codes "authorization")) [
  | none ↦ ok none
  | some value ↦ judge_credentials ct_eq b (extract_basic_credentials decode value)
]

pub data ApiKeySource : Type 0 where
  header query_param : Text → ApiKeySource

-- The value of the first pair with the name.
unfoldable pub find_param : Text → List (Text × Text) → Option Text
find_param param [] = none
find_param param ((k, v) ∷ pairs) = if text_eq k param then some v else find_param param pairs

-- `query` are the pairs of `form_urlencoded::parse`, when the URI has a query.
unfoldable pub extract_key : ApiKeySource → HeaderMap → Option (List (Text × Text)) → Option Text
unfolding find_param
extract_key (header name) headers query = header_text headers name
extract_key (query_param param) headers none = none
extract_key (query_param param) headers (some pairs) = find_param param pairs

unfoldable pub authenticate_api_key :
    (Text → AuthOutcome) → ApiKeySource → HeaderMap → Option (List (Text × Text)) → AuthOutcome
unfolding extract_key
authenticate_api_key validate source headers query = elim (extract_key source headers query) [
  | none ↦ ok none
  | some key ↦ validate key
]
