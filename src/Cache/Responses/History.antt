-- ===== src/Cache/Responses/History.antt =====
-- Runs of the response cache of rusty-gasket/src/cache.rs: what it answers after any requests.
use rusty_gasket.Common.{
  ◌≡◌, ◌≢◌, refl, ap, ◌∙◌, ◌⊎◌, inl, inr, true, false, List, [], ◌∷◌, Option, none, some, length,
  Bool-cases, Option-cases,
}
use rusty_gasket.Common.Text.{codes}
use rusty_gasket.Cache.{CacheKey}
use rusty_gasket.Cache.Objects.{CacheResult, done, failed, ObjectCache, get}
use rusty_gasket.Cache.Objects.Provenance.{InventsNothing, get-set_for-cases}
use rusty_gasket.Http.Headers.{HeaderMaps}
use rusty_gasket.Cache.Responses.{
  ResponseCachePolicy, Request, Response, CachedHttpResponse, should_store_response,
  cached_response, to_cached, keep_response, bypass, response_cache_key, is_cacheable_method,
  response_cache_middleware,
}
use rusty_gasket.Cache.Responses.Storable.{
  IsStorable, IsShareable, to_cached-IsStorable, cached_response-IsShareable,
}

module _ {A : Type 0} where
  found_cases :
      (r : CacheResult (Option A))
      → ((a : A) × (r ≡ done (some a))) ⊎ ((r ≡ done none) ⊎ ((e : _) × (r ≡ failed e)))
  found_cases (failed e) = inr (inr (e, refl))
  found_cases (done none) = inr (inl refl)
  found_cases (done (some a)) = inl (a, refl)

module _ {Map Store : Type 0} (http : HeaderMaps Map) (policy : ResponseCachePolicy)
    (cache : ObjectCache Store CachedHttpResponse) where
  abbrev pub AreStorable : Store → Type 0
  AreStorable store =
      (key : CacheKey) (cached : CachedHttpResponse)
      → get cache store key ≡ done (some cached)
      → IsStorable http policy cached

  -- The store after some requests, each with what the handler would answer, the last first.
  abbrev pub serve_all : List (Request Map × Response Map) → Store → Store
  serve_all [] store = store
  serve_all ((request, next) ∷ earlier) store =
      (response_cache_middleware http policy cache (serve_all earlier store) request next).store

  keep_response-AreStorable :
      (store : Store) (key : CacheKey) (next : Response Map)
      → InventsNothing cache
      → AreStorable store
      → AreStorable (keep_response http policy cache store key next).store
  unfolding keep_response bypass
  keep_response-AreStorable store key next honest h = elim (Option-cases next.body) [
    | inl broken ↦ rw (broken, keep_response) h
    | inr (bytes, read) ↦
        elim (Bool-cases
          (should_store_response http policy next.status next.headers (length bytes))) [
            | inr refused ↦ rw (read, keep_response, refused) h
            | inl stored ↦
                rw (read, keep_response, stored)
                  (λ j cached found.
                    elim (get-set_for-cases cache honest store key j policy.ttl
                      (to_cached http next bytes) cached found) [
                        | inl new ↦ rw new (to_cached-IsStorable http policy next bytes stored)
                        | inr old ↦ h j cached old
                      ])
          ]
  ]

  keep_response-runs :
      (store : Store) (key : CacheKey) (next : Response Map)
      → (keep_response http policy cache store key next).handler_ran ≡ true
  unfolding keep_response bypass
  keep_response-runs store key next = elim (Option-cases next.body) [
    | inl broken ↦ rw (broken, keep_response) refl
    | inr (bytes, read) ↦
        elim (Bool-cases
          (should_store_response http policy next.status next.headers (length bytes))) [
            | inr refused ↦ rw (read, keep_response, refused) refl
            | inl stored ↦ rw (read, keep_response, stored) refl
          ]
  ]

  -- What a request can come to.
  middleware_cases :
      (store : Store) (request : Request Map) (next : Response Map)
      → let served = response_cache_middleware http policy cache store request next in
        (served ≡ bypass http store next)
        ⊎ (((key : CacheKey) × (served ≡ keep_response http policy cache store key next))
            ⊎ ((key : CacheKey) × (cached : CachedHttpResponse) × (get cache store key
                  ≡ done (some cached))
                × (served ≡ record {
                  store = store;
                  response = cached_response http cached (codes "HIT");
                  handler_ran = false;
                })))
  unfolding response_cache_middleware
  middleware_cases store request next = elim (Bool-cases (is_cacheable_method request.method)) [
    | inr other ↦ inl (rw (other, response_cache_middleware) refl)
    | inl fit ↦ elim (Option-cases (response_cache_key http policy request)) [
      | inl keyless ↦ inl (rw (fit, response_cache_middleware, keyless) refl)
      | inr (key, made) ↦ elim (found_cases (get cache store key)) [
        | inl (cached, hit) ↦
            inr (inr (key, cached, hit, rw (fit, response_cache_middleware, made, hit) refl))
        | inr (inl missed) ↦ inr (inl (key, rw (fit, response_cache_middleware, made, missed) refl))
        | inr (inr (e, down)) ↦
            inr (inl (key, rw (fit, response_cache_middleware, made, down) refl))
      ]
    ]
  ]

  middleware-AreStorable :
      (store : Store) (request : Request Map) (next : Response Map)
      → InventsNothing cache
      → AreStorable store
      → AreStorable (response_cache_middleware http policy cache store request next).store
  unfolding bypass
  middleware-AreStorable store request next honest h = elim (middleware_cases store request next) [
    | inl passed ↦ rw passed h
    | inr (inl (key, kept)) ↦ rw kept (keep_response-AreStorable store key next honest h)
    | inr (inr (key, cached, found, hit)) ↦ rw hit h
  ]

  serve_all-AreStorable :
      (earlier : List (Request Map × Response Map)) (store : Store)
      → InventsNothing cache
      → AreStorable store
      → AreStorable (serve_all earlier store)
  serve_all-AreStorable [] store honest h = h
  serve_all-AreStorable ((request, next) ∷ earlier) store honest h =
      middleware-AreStorable (serve_all earlier store) request next honest
        (serve_all-AreStorable earlier store honest h)

  -- With a store that starts empty and a backend that gives back only what was written, a request
  -- after any others runs its handler, or it leaves the store alone and its answer is a success whose
  -- body is within the policy's limit and which has neither a cookie nor a header of the connection.
  pub response_cache_middleware-IsShareable :
      (store : Store) (earlier : List (Request Map × Response Map)) (request : Request Map)
      (next : Response Map)
      → InventsNothing cache
      → ((key : CacheKey) (cached : CachedHttpResponse) → get cache store key ≢ done (some cached))
      → let before = serve_all earlier store in
        let served = response_cache_middleware http policy cache before request next in
        (served.handler_ran ≡ true)
        ⊎ ((served.store ≡ before) × IsShareable http policy served.response)
  unfolding bypass
  response_cache_middleware-IsShareable store earlier request next honest empty =
      let before = serve_all earlier store in
      let safe =
        serve_all-AreStorable earlier store honest
          (λ key cached found. absurd (empty key cached found)) in
      elim (middleware_cases before request next) [
        | inl passed ↦ inl (ap (λ s. s.handler_ran) passed)
        | inr (inl (key, kept)) ↦
            inl (ap (λ s. s.handler_ran) kept ∙ keep_response-runs before key next)
        | inr (inr (key, cached, found, hit)) ↦ inr (
          ap (λ s. s.store) hit,
          rw hit (
              cached_response-IsShareable http policy cached (codes "HIT") (safe key cached found)),
        )
      ]
