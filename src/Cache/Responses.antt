-- ===== src/Cache/Responses.antt =====
-- rusty-gasket/src/cache.rs: the cache of whole responses. The header maps of the `http` crate are the
-- record `HeaderMaps`, a header's value is its bytes, and a body is what collecting it gives.
pub mod Storable
pub mod History
pub mod Replay
pub mod Separation
use Prim.Native.Nat.{bit_xor}
use rusty_gasket.Common.{
  ℕ, zero, suc, ◌+◌, ◌*◌, ◌/◌, ◌%◌, ◌^◌, ◌≡◌, ◌≢◌, Bool, true, false, not, ◌&&◌, ◌||◌, List, [],
  ◌∷◌, Option, none, some, if◌then◌else◌, leb, ◌==◌, length, any, In,
}
use rusty_gasket.Common.Text.{Text, codes, text_eq}
use rusty_gasket.Http.Headers.{HeaderMaps}
use rusty_gasket.Common.Chars.{lowercase, contains_text}
use rusty_gasket.Common.Digits.{decimal}
use rusty_gasket.Cache.{CacheKey, new_key, part}
use rusty_gasket.Cache.Objects.{done, failed, ObjectCache, get, set_for}

pub data ResponseCacheScope : Type 0 where
  public_scope per_authorization_scope : ResponseCacheScope

pub record ResponseCachePolicy : Type 0 where
  pub ttl : ℕ
  pub scope : ResponseCacheScope
  pub max_body_bytes : ℕ
  pub vary_headers : List Text

abbrev pub default_response_cache_body_bytes : ℕ
default_response_cache_body_bytes = 2 * 1024 * 1024

abbrev pub scoped_policy : ResponseCacheScope → ℕ → ResponseCachePolicy
scoped_policy scope ttl = record {
  ttl = ttl;
  scope = scope;
  max_body_bytes = default_response_cache_body_bytes;
  vary_headers = [];
}

abbrev pub public : ℕ → ResponseCachePolicy
public ttl = scoped_policy public_scope ttl

abbrev pub per_authorization : ℕ → ResponseCachePolicy
per_authorization ttl = scoped_policy per_authorization_scope ttl

pub record Request (Map : Type 0) : Type 0 where
  pub method : Text
  pub path_and_query : Option Text
  pub path : Text
  pub headers : Map

-- `none` is a body that fails while it is read.
pub record Response (Map : Type 0) : Type 0 where
  pub status : ℕ
  pub headers : Map
  pub body : Option Text

pub record CachedHttpResponse : Type 0 where
  pub status : ℕ
  pub headers : List (Text × Text)
  pub body : Text

abbrev pub is_cacheable_method : Text → Bool
is_cacheable_method method = text_eq method (codes "GET") || text_eq method (codes "HEAD")

-- `StatusCode::is_success`
abbrev pub is_success : ℕ → Bool
is_success status = leb 200 status && leb status 299

-- `StatusCode::from_u16`
abbrev pub status_or_ok : ℕ → ℕ
status_or_ok status = if leb 100 status && leb status 999 then status else 200

abbrev pub hop_headers : List Text
hop_headers =
    codes "connection"
    ∷ codes "keep-alive"
    ∷ codes "proxy-authenticate"
    ∷ codes "proxy-authorization"
    ∷ codes "te"
    ∷ codes "trailer"
    ∷ codes "transfer-encoding"
    ∷ codes "upgrade"
    ∷ codes "set-cookie"
    ∷ []

unfoldable pub is_cacheable_response_header : Text → Bool
is_cacheable_response_header name = not (any (text_eq name) hop_headers)

-- The 64 bits of FNV-1a.
abbrev pub hash_bytes : ℕ → Text → ℕ
hash_bytes hash [] = hash
hash_bytes hash (b ∷ bs) = hash_bytes (bit_xor hash b * 1099511628211 % 2 ^ 64) bs

unfoldable pub stable_hash : Text → ℕ
stable_hash value = hash_bytes 14695981039346656037 value

abbrev pub text_or_empty : Option Text → Text
text_or_empty none = []
text_or_empty (some s) = s

abbrev pub target : {Map : Type 0} → Request Map → Text
target request = elim request.path_and_query [ none ↦ request.path | some whole ↦ whole ]

-- What a request leaves and gets, and whether the handler ran.
pub record Served (Map Store : Type 0) : Type 0 where
  pub store : Store
  pub response : Response Map
  pub handler_ran : Bool

abbrev pub forbids_storage : Option Text → Bool
forbids_storage none = false
forbids_storage (some value) = contains_text (codes "no-store") (lowercase value)

abbrev pub is_present : Option Text → Bool
is_present none = false
is_present (some value) = true

module _ {Map : Type 0} (http : HeaderMaps Map) where
  abbrev pub header_text : Map → Text → Option Text
  header_text headers name = elim (http.get headers name) [
    | none ↦ none
    | some value ↦ http.to_str value
  ]

  -- The part of the key for the scope; `none` where the `Authorization` header is missing.
  abbrev pub scope_part : ResponseCacheScope → Map → Option Text
  scope_part public_scope headers = some (codes "public")
  scope_part per_authorization_scope headers = elim (http.get headers (codes "authorization")) [
    | none ↦ none
    | some value ↦ some (decimal (stable_hash value))
  ]

  unfoldable pub vary_parts : Map → List Text → CacheKey → CacheKey
  vary_parts headers [] key = key
  vary_parts headers (name ∷ names) key =
      vary_parts headers names (part (part key name) (text_or_empty (header_text headers name)))

  unfoldable pub cacheable_of : List (Text × Text) → List (Text × Text)
  unfolding is_cacheable_response_header
  cacheable_of [] = []
  cacheable_of ((name, value) ∷ headers) =
      let rest = cacheable_of headers in
      if is_cacheable_response_header name
      then elim (http.to_str value) [ none ↦ rest | some text ↦ (name, text) ∷ rest ]
      else rest

  abbrev pub cacheable_response_headers : Map → List (Text × Text)
  cacheable_response_headers headers = cacheable_of (http.iter headers)

  unfoldable pub mark_cache_status : Text → Response Map → Response Map
  mark_cache_status status response = record response {
    headers = http.insert (codes "x-cache") status response.headers;
  }

  -- A name or a value that is none is passed over; `insert` replaces the values of a name.
  unfoldable pub insert_header : Text → Text → Map → Map
  insert_header name value headers = elim (http.from_bytes name) [
    | none ↦ headers
    | some n ↦ elim (http.from_str value) [ none ↦ headers | some v ↦ http.insert n v headers ]
  ]

  unfoldable pub insert_headers : List (Text × Text) → Map → Map
  unfolding insert_header
  insert_headers [] headers = headers
  insert_headers ((name, value) ∷ rest) headers =
      insert_headers rest (insert_header name value headers)

  unfoldable pub cached_response : CachedHttpResponse → Text → Response Map
  unfolding insert_headers
  cached_response cached cache_status = mark_cache_status cache_status (record {
    status = status_or_ok cached.status;
    headers = insert_headers cached.headers http.new;
    body = some cached.body;
  })

  unfoldable pub to_cached : Response Map → Text → CachedHttpResponse
  unfolding cacheable_of
  to_cached response bytes = record {
    status = response.status;
    headers = cacheable_response_headers response.headers;
    body = bytes;
  }

  unfoldable pub bypass : {Store : Type 0} → Store → Response Map → Served Map Store
  bypass store response = record {
    store = store;
    response = mark_cache_status (codes "BYPASS") response;
    handler_ran = true;
  }

module _ {Map : Type 0} (http : HeaderMaps Map) (policy : ResponseCachePolicy) where
  unfoldable pub response_cache_key : Request Map → Option CacheKey
  unfolding vary_parts
  response_cache_key request =
      let key = part (part (new_key (codes "response")) request.method) (target request) in
      elim (scope_part http policy.scope request.headers) [
        | none ↦ none
        | some scope ↦ some (vary_parts http request.headers policy.vary_headers (part key scope))
      ]

  unfoldable pub should_store_response : ℕ → Map → ℕ → Bool
  should_store_response status headers body_size =
      is_success status
      && leb body_size policy.max_body_bytes
      && not (forbids_storage (header_text http headers (codes "cache-control")))
      && not (is_present (http.get headers (codes "set-cookie")))

  module _ {Store : Type 0} (cache : ObjectCache Store CachedHttpResponse) where
    -- The response of the handler; an error of the write is only logged.
    unfoldable pub keep_response : Store → CacheKey → Response Map → Served Map Store
    unfolding bypass should_store_response to_cached
    keep_response store key next = elim next.body [
      | none ↦ bypass http store (record next { body = some [] })
      | some bytes ↦
          if should_store_response next.status next.headers (length bytes)
          then record {
            store = (set_for cache store key policy.ttl (to_cached http next bytes)).0;
            response = mark_cache_status http (codes "MISS") next;
            handler_ran = true;
          }
          else bypass http store next
    ]

    -- `next` is what the handler answers, when it runs.
    unfoldable pub response_cache_middleware : Store → Request Map → Response Map → Served Map Store
    unfolding bypass keep_response cached_response response_cache_key
    response_cache_middleware store request next =
        if is_cacheable_method request.method
        then elim (response_cache_key request) [
          | none ↦ bypass http store next
          | some key ↦ elim (get cache store key) [
            | done (some cached) ↦ record {
              store = store;
              response = cached_response http cached (codes "HIT");
              handler_ran = false;
            }
            | done none ↦ keep_response store key next
            | failed e ↦ keep_response store key next
          ]
        ]
        else bypass http store next
