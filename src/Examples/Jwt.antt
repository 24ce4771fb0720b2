-- ===== src/Examples/Jwt.antt =====
-- Concrete tokens for rusty-gasket/src/auth/backends/jwt.rs. The token `good` names the key `k1` and
-- is signed with RS256; the endpoint publishes that key, and one without an algorithm.
use rusty_gasket.Common.{
  ℕ, ◌^◌, ◌≤◌, ◌≡◌, refl, ◌≢◌, ◌↔◌, ◌⊎◌, inl, inr, true, false, List, [], ◌∷◌, none, some, arith,
  if◌then◌else◌, same_of_inl, length, sym,
}
use rusty_gasket.Common.Text.{Text, codes, text_eq}
use rusty_gasket.Json.{Json, object, entry, end, string, get}
use rusty_gasket.Auth.Bearer.{extract_bearer_token}
use rusty_gasket.Auth.Jwt.{rs256, JwtHeader, Validation, expired_signature, Jwk, Libraries}
use rusty_gasket.Auth.Jwt.Tokens.{HeaderMap, cookie, extract_token}
use rusty_gasket.Auth.Jwt.Claims.{Mapped, standard, map_claims}
use rusty_gasket.Auth.Jwt.Fetch.{
  Chunk, chunk, reply, read_body, bytes_of, fetch_jwks, read_body-bounded,
}
use rusty_gasket.Auth.Jwt.Keys.{
  StoreState, Permit, acquired, FetchTask, replied, find, find_key, prepare_jwks,
}
use rusty_gasket.Auth.Jwt.Keys.Prepared.{AreNew, last_usable, prepare_jwks-usable}
use rusty_gasket.Auth.Jwt.Keys.Laws.{IsStale, find_key-fetched}
use rusty_gasket.Auth.Jwt.Keys.Provenance.{Published, IsTrusted}
use rusty_gasket.Auth.Jwt.Backend.{JwtBackend, jwks, authenticate_jwt}
use rusty_gasket.Auth.Jwt.Backend.Laws.{Accepted, authenticate_jwt-accepts}
use rusty_gasket.Auth.Jwt.Builder.{
  UrlLibrary, JwtBackendBuilder, default_builder, with_jwks_url, store_of, build_jwt,
}
use rusty_gasket.Auth.Jwt.Builder.Laws.{shared_secret, family, IsBuilt, build_jwt-IsBuilt}
use rusty_gasket.Auth.Jwt.Security.{build_jwt-asymmetric}

abbrev published_key : Jwk Text
published_key = record {
  key_id = some (codes "k1");
  key_algorithm = some (codes "RS256");
  material = codes "public";
}

abbrev keyless : Jwk Text
keyless = record { key_id = some (codes "k1"); key_algorithm = none; material = codes "" }

abbrev document : List (Jwk Text)
document = published_key ∷ keyless ∷ []

abbrev claims : Json
claims = object (entry (codes "sub") (string (codes "alice")) end)

abbrev crates : Libraries Text Text
crates = record {
  decode_header = λ t.
      if text_eq t (codes "good")
      then inl (record { kid = some (codes "k1"); alg = rs256 })
      else inr (codes "InvalidToken");
  decode = λ t key v. if text_eq key (codes "public") then inl claims else inr expired_signature;
  new_validation = λ a. record {
    algorithm = a;
    validate_exp = true;
    validate_nbf = false;
    leeway = 60;
    required_spec_claims = codes "exp" ∷ [];
    audience = none;
    issuer = none;
  };
  parse_algorithm = λ t. if text_eq t (codes "RS256") then some rs256 else none;
  algorithm_name = λ a. codes "RS256";
  from_jwk = λ jwk. inl jwk.material;
  from_secret = λ s. s;
  from_rsa_pem = λ s. inl s;
  from_ec_pem = λ s. inl s;
  from_slice = λ bytes. inl document;
  status_text = λ n. [];
  usize_text = λ n. [];
}

abbrev endpoint : Text
endpoint = codes "https://id.example/jwks"

abbrev urls : UrlLibrary
urls = record {
  parse = λ u. inl (record { scheme = codes "https"; host = some (codes "id.example") });
  debug = λ t. t;
  client_error = none;
}

abbrev builder : JwtBackendBuilder
builder = with_jwks_url default_builder endpoint

abbrev backend : JwtBackend Text
backend = record {
  key_resolver = jwks (store_of endpoint builder);
  token_source = builder.token_source;
  claims_mapper = standard;
}

backend_built : build_jwt crates urls builder ≡ inl backend
unfolding build_jwt
backend_built = refl

abbrev empty_store : StoreState Text
empty_store = record { cached = none; warned_drops = [] }

abbrev bearer : HeaderMap
bearer name =
    if text_eq name (codes "authorization") then some (some (codes "Bearer good")) else none

abbrev permit : Permit Text
permit = acquired empty_store 1

abbrev task : FetchTask
task = replied (reply 200 (chunk (codes "{}") ∷ [])) 2

abbrev alice : Mapped
alice = record {
  identity = record {
    subject = codes "alice";
    auth_method = codes "jwt";
    display_name = none;
    scopes = [];
    service_account = false;
    privileged = false;
  };
  attribute = none;
}

alice_accepted :
    (authenticate_jwt crates backend bearer empty_store 0 permit task).0 ≡ inl (some alice)
unfolding authenticate_jwt extract_bearer_token get
alice_accepted = refl

-- The documents of the endpoint.
abbrev FromEndpoint : List (Jwk Text) → Type 0
FromEndpoint d = d ≡ document

nothing_cached : IsTrusted crates FromEndpoint none
nothing_cached prepared kid k e found = absurd (ground arith)

served :
    (d : List (Jwk Text))
    → fetch_jwks crates (2 ^ 20) (reply 200 (chunk (codes "{}") ∷ [])) ≡ inl d
    → d ≡ document
unfolding fetch_jwks
served d e = sym (same_of_inl e)

build_jwt-asymmetric_example :
    (token : Text) × (header : JwtHeader) × (kid : Text) × (key : _) × (claimed : Json)
    × (checked : Validation) × (extract_token backend.token_source bearer ≡ some token)
    × (crates.decode_header token ≡ inl header)
    × (header.kid ≡ some kid)
    × (family header.alg ≢ shared_secret)
    × Published crates FromEndpoint kid key
    × (key.algorithm ≡ header.alg)
    × (crates.decode token key.key checked ≡ inl claimed)
    × (checked.algorithm ≡ (crates.new_validation header.alg).algorithm)
    × (checked.validate_exp ≡ builder.checks.validate_exp)
    × (checked.validate_nbf ≡ builder.checks.validate_nbf)
    × (checked.leeway ≡ builder.checks.leeway_secs)
    × ((builder.checks.audience ≡ none) ⊎ (checked.audience ≡ builder.checks.audience))
    × ((builder.checks.issuer ≡ none) ⊎ (checked.issuer ≡ builder.checks.issuer))
    × (map_claims backend.claims_mapper claimed ≡ inl alice)
build_jwt-asymmetric_example =
    build_jwt-asymmetric crates urls builder endpoint backend FromEndpoint bearer empty_store 0
      permit task alice backend_built refl refl nothing_cached nothing_cached served alice_accepted

build_jwt-IsBuilt_example :
    IsBuilt crates urls builder backend.key_resolver × (backend.token_source ≡ builder.token_source)
build_jwt-IsBuilt_example = build_jwt-IsBuilt crates urls builder backend backend_built

authenticate_jwt-accepts_example :
    IsTrusted crates FromEndpoint
      (authenticate_jwt crates backend bearer empty_store 0 permit task).1.cached
    × ((mapped : Mapped)
        → (authenticate_jwt crates backend bearer empty_store 0 permit task).0 ≡ inl (some mapped)
        → (token : Text) × (extract_token backend.token_source bearer ≡ some token)
          × Accepted crates FromEndpoint (store_of endpoint builder) standard token mapped)
authenticate_jwt-accepts_example =
    authenticate_jwt-accepts crates FromEndpoint (store_of endpoint builder) empty_store 0 permit
      task nothing_cached nothing_cached served backend bearer refl

find_key-fetched_example :
    ((find_key crates (store_of endpoint builder) (codes "k1") empty_store 0 permit task).fetched
      ≡ true)
    ↔ (IsStale {Key = Text} 300 0 none
        × ((later : StoreState Text) × (then_now : ℕ) × (permit ≡ acquired later then_now)
            × IsStale 300 then_now later.cached))
find_key-fetched_example =
    find_key-fetched crates (store_of endpoint builder) (codes "k1") empty_store 0 permit task

prepare_jwks-usable_example :
    ((kid : Text)
      → find kid (prepare_jwks crates document 5 []).0.keys ≡ last_usable crates kid document none)
    × AreNew [] (prepare_jwks crates document 5 []).1
prepare_jwks-usable_example = prepare_jwks-usable crates document 5 []

-- The entry without an algorithm does not hide the usable one, and is warned of.
k1_kept :
    (last_usable crates (codes "k1") document none
      ≡ some (record { key = codes "public"; algorithm = rs256 }))
    × ((prepare_jwks crates document 5 []).1.1 ≡ codes "no-usable-alg:k1" ∷ [])
unfolding prepare_jwks
k1_kept = (refl, refl)

abbrev two_chunks : List Chunk
two_chunks = chunk (1 ∷ 2 ∷ []) ∷ chunk (3 ∷ []) ∷ []

abbrev three_bytes : List ℕ
three_bytes = 1 ∷ 2 ∷ 3 ∷ []

read_body-bounded_example :
    (read_body 4 [] two_chunks ≡ inl three_bytes)
    ↔ ((bytes_of two_chunks ≡ inl three_bytes) × (length three_bytes ≤ 4))
read_body-bounded_example = read_body-bounded 4 two_chunks three_bytes (omega arith)

abbrev cookies : HeaderMap
cookies name = if text_eq name (codes "cookie") then some (some (codes "a=1; jwt=good")) else none

cookie_found : extract_token (cookie (codes "jwt")) cookies ≡ some (codes "good")
unfolding extract_token
cookie_found = refl
