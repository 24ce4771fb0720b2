-- ===== src/Cache/Responses/Replay.antt =====
-- A response of rusty-gasket/src/cache.rs that is stored, and the next request for it.
use rusty_gasket.Common.{
  ◌≡◌, ◌≢◌, refl, ap, sym, ◌∙◌, inl, inr, Bool, true, false, not, any, List, [], ◌∷◌, In, Option,
  some, none, length, arith, Bool-cases, Option-cases, if◌then◌else◌,
}
use rusty_gasket.Common.Text.{Text, codes, text_eq, text_eq_iff}
use rusty_gasket.Cache.{CacheKey}
use rusty_gasket.Cache.Objects.{done, ObjectCache, get, set_for}
use rusty_gasket.Cache.Objects.Loading.{IsSound, get-set_for}
use rusty_gasket.Cache.Responses.Storable.{insert_headers-absent, to_cached-IsStorable}
use rusty_gasket.Http.Headers.{HeaderMaps}
use rusty_gasket.Cache.Responses.{
  ResponseCachePolicy, Request, Response, CachedHttpResponse, should_store_response,
  cached_response, mark_cache_status, to_cached, keep_response, response_cache_key,
  is_cacheable_method, insert_header, insert_headers, cacheable_of, is_cacheable_response_header,
  cacheable_response_headers, response_cache_middleware,
}

-- The headers that a hit never has, as `is_cacheable_response_header` lists them.
abbrev not_replayed : List Text
not_replayed =
    codes "connection"
    ∷ codes "keep-alive"
    ∷ codes "proxy-authenticate"
    ∷ codes "proxy-authorization"
    ∷ codes "te"
    ∷ codes "trailer"
    ∷ codes "transfer-encoding"
    ∷ codes "upgrade"
    ∷ codes "set-cookie"
    ∷ []

module _ {Map Store : Type 0} (http : HeaderMaps Map) (policy : ResponseCachePolicy)
    (cache : ObjectCache Store CachedHttpResponse) where
  miss :
      (store : Store) (request : Request Map) (next : Response Map) (key : CacheKey) (bytes : Text)
      → is_cacheable_method request.method ≡ true
      → response_cache_key http policy request ≡ some key
      → get cache store key ≡ done none
      → next.body ≡ some bytes
      → should_store_response http policy next.status next.headers (length bytes) ≡ true
      → response_cache_middleware http policy cache store request next ≡ record {
        store = (set_for cache store key policy.ttl (to_cached http next bytes)).0;
        response = mark_cache_status http (codes "MISS") next;
        handler_ran = true;
      }
  unfolding response_cache_middleware keep_response
  miss store request next key bytes fit made absent read stored =
      rw (fit, response_cache_middleware, made, absent) (simp (read, keep_response, stored))

  hit :
      (store : Store) (request : Request Map) (next : Response Map) (key : CacheKey)
      (cached : CachedHttpResponse)
      → is_cacheable_method request.method ≡ true
      → response_cache_key http policy request ≡ some key
      → get cache store key ≡ done (some cached)
      → response_cache_middleware http policy cache store request next ≡ record {
        store = store;
        response = cached_response http cached (codes "HIT");
        handler_ran = false;
      }
  unfolding response_cache_middleware
  hit store request next key cached fit made found =
      rw (fit, response_cache_middleware, made, found) refl

  -- The value of the last header of that name that is text.
  abbrev last_text : Text → List (Text × Text) → Option Text → Option Text
  last_text n [] found = found
  last_text n ((k, v) ∷ hs) found =
      last_text n hs
        (if text_eq n k then (elim (http.to_str v) [ none ↦ found | some t ↦ some v ]) else found)

  -- What a hit has under a name: nothing for a cookie or a header of the connection; else the last value
  -- that is text.
  abbrev pub replayed : Text → Map → Option Text
  replayed n headers =
      if any (text_eq n) not_replayed then none else last_text n (http.iter headers) none

  insert_header-text :
      (n k v t : Text) (m : Map)
      → http.from_bytes k ≡ some k
      → http.to_str v ≡ some t
      → http.get (insert_header http k t m) n ≡ (if text_eq n k then some v else http.get m n)
  unfolding insert_header
  insert_header-text n k v t m name read =
      rw (name, insert_header, http.from_str_to_str v t read)
        (elim (Bool-cases (text_eq n k)) [
          | inl here ↦
              rw here (
                ap (http.get (http.insert k v m)) ((text_eq_iff n k).0 here)
                ∙ http.get_insert k v m)
          | inr other ↦ rw other (
              http.get_insert_other n k v m
                (λ same. let clash = sym other ∙ (text_eq_iff n k).1 same in absurd (ground arith)))
        ])

  insert_headers-text :
      (n : Text) (hs : List (Text × Text)) (m : Map)
      → is_cacheable_response_header n ≡ true
      → ((k v : Text) → In (k, v) hs → http.from_bytes k ≡ some k)
      → http.get (insert_headers http (cacheable_of http hs) m) n ≡ last_text n hs (http.get m n)
  unfolding insert_headers cacheable_of
  insert_headers-text n [] m fit names = refl
  insert_headers-text n ((k, v) ∷ hs) m fit names =
      let later : (x : Map)
          → http.get (insert_headers http (cacheable_of http hs) x) n
            ≡ last_text n hs (http.get x n) =
        λ x. insert_headers-text n hs x fit (λ j w there. names j w (inr there)) in
      elim (Bool-cases (is_cacheable_response_header k)) [
        | inr unfit ↦
            let apart : text_eq n k ≡ false = elim (Bool-cases (text_eq n k)) [
              | inr other ↦ other
              | inl here ↦
                  let clash =
                    sym fit ∙ ap is_cacheable_response_header ((text_eq_iff n k).0 here) ∙ unfit in
                  absurd (ground arith)
            ] in
            rw (unfit, cacheable_of, apart) (later m)
        | inl kept ↦ elim (Option-cases (http.to_str v)) [
          | inl opaque ↦
              rw (kept, cacheable_of, opaque)
                (later m ∙ ap (last_text n hs) (same_either (text_eq n k) (http.get m n)))
          | inr (t, read) ↦
              rw (kept, cacheable_of, read, insert_headers)
                (later (insert_header http k t m)
                  ∙ ap (last_text n hs) (insert_header-text n k v t m (names k v (inl refl)) read))
        ]
      ]
    where
      same_either : (b : Bool) (o : Option Text) → o ≡ (if b then o else o)
      same_either true o = refl
      same_either false o = refl

  not_replayed-cacheable :
      (n : Text) → is_cacheable_response_header n ≡ not (any (text_eq n) not_replayed)
  unfolding is_cacheable_response_header
  not_replayed-cacheable n = refl

  cached_response-replayed :
      (next : Response Map) (bytes n : Text)
      → should_store_response http policy next.status next.headers (length bytes) ≡ true
      → n ≢ codes "x-cache"
      → http.get (cached_response http (to_cached http next bytes) (codes "HIT")).headers n
        ≡ replayed n next.headers
  unfolding cached_response mark_cache_status to_cached
  cached_response-replayed next bytes n stored apart =
      let hs = cacheable_response_headers http next.headers in
      http.get_insert_other n (codes "x-cache") (codes "HIT") (insert_headers http hs http.new)
        apart
      ∙ elim (Bool-cases (any (text_eq n) not_replayed)) [
        | inl hidden ↦ rw hidden (
            insert_headers-absent http policy n hs http.new
              (not_replayed-cacheable n ∙ ap not hidden)
              (to_cached-IsStorable http policy next bytes stored).names (http.get_new n))
        | inr shown ↦ rw shown (
            insert_headers-text n (http.iter next.headers) http.new
              (not_replayed-cacheable n ∙ ap not shown) (http.iter_names next.headers)
            ∙ ap (last_text n (http.iter next.headers)) (http.get_new n))
      ]

  cached_response-status :
      (next : Response Map) (bytes : Text)
      → should_store_response http policy next.status next.headers (length bytes) ≡ true
      → (cached_response http (to_cached http next bytes) (codes "HIT")).status ≡ next.status
  unfolding cached_response mark_cache_status to_cached should_store_response
  cached_response-status next bytes stored = ground arith

  -- A response that was missing, that may be kept and whose write succeeded goes to its caller as it is, but
  -- for `x-cache`, which says MISS. The next same request, whatever its handler would say, leaves the
  -- store alone and gets the same status and body, `x-cache` with HIT, and under every other name the last
  -- value of the first response that is text, but no cookie and no header of the connection.
  pub response_cache_middleware-replays :
      (store : Store) (request : Request Map) (next other : Response Map) (key : CacheKey)
      (bytes n : Text)
      → IsSound cache
      → is_cacheable_method request.method ≡ true
      → response_cache_key http policy request ≡ some key
      → get cache store key ≡ done none
      → next.body ≡ some bytes
      → should_store_response http policy next.status next.headers (length bytes) ≡ true
      → (set_for cache store key policy.ttl (to_cached http next bytes)).1 ≡ done tt
      → n ≢ codes "x-cache"
      → let first = response_cache_middleware http policy cache store request next in
        let second = response_cache_middleware http policy cache first.store request other in
        (first.response.status ≡ next.status)
        × (first.response.body ≡ some bytes)
        × (http.get first.response.headers (codes "x-cache") ≡ some (codes "MISS"))
        × (http.get first.response.headers n ≡ http.get next.headers n)
        × (second.handler_ran ≡ false)
        × (second.store ≡ first.store)
        × (second.response.status ≡ next.status)
        × (second.response.body ≡ some bytes)
        × (http.get second.response.headers (codes "x-cache") ≡ some (codes "HIT"))
        × (http.get second.response.headers n ≡ replayed n next.headers)
  unfolding mark_cache_status cached_response to_cached
  response_cache_middleware-replays store request next other key bytes n sound fit made absent read
        stored written apart =
      let first = response_cache_middleware http policy cache store request next in
      let missed = miss store request next key bytes fit made absent read stored in
      let found : get cache first.store key ≡ done (some (to_cached http next bytes)) =
        ap (λ s. get cache s.store key) missed
        ∙ get-set_for cache sound store key policy.ttl (to_cached http next bytes) written in
      let again = hit first.store request other key (to_cached http next bytes) fit made found in
      let hs = cacheable_response_headers http next.headers in
      (
        ap (λ s. s.response.status) missed,
        ap (λ s. s.response.body) missed ∙ read,
        ap (λ s. http.get s.response.headers (codes "x-cache")) missed
            ∙ http.get_insert (codes "x-cache") (codes "MISS") next.headers,
        ap (λ s. http.get s.response.headers n) missed
            ∙ http.get_insert_other n (codes "x-cache") (codes "MISS") next.headers apart,
        ap (λ s. s.handler_ran) again,
        ap (λ s. s.store) again,
        ap (λ s. s.response.status) again ∙ cached_response-status next bytes stored,
        ap (λ s. s.response.body) again,
        ap (λ s. http.get s.response.headers (codes "x-cache")) again
            ∙ http.get_insert (codes "x-cache") (codes "HIT") (insert_headers http hs http.new),
        ap (λ s. http.get s.response.headers n) again
            ∙ cached_response-replayed next bytes n stored apart,
      )
