-- ===== src/Examples/Responses.antt =====
-- A concrete response cache for rusty-gasket/src/cache.rs: header maps as association lists, and an
-- encoding of the responses that have no header to keep.
use rusty_gasket.Common.{
  ℕ, ◌≡◌, ◌≢◌, refl, sym, ap, ◌∙◌, ◌⊎◌, inl, inr, true, false, List, [], ◌∷◌, Option, none, some,
  arith, Bool-cases, same_of_some, if◌then◌else◌,
}
use rusty_gasket.Common.Text.{Text, codes, text_eq, text_eq_iff}
use rusty_gasket.Cache.{CacheKey, new_key, part, parts, ok, namespaced_key}
use rusty_gasket.Cache.Objects.{done, ObjectCache, get, set_for}
use rusty_gasket.Cache.Objects.Loading.{IsSound, KeyResult-cases}
use rusty_gasket.Cache.Objects.Provenance.{InventsNothing}
use rusty_gasket.Common.Digits.{decimal}
use rusty_gasket.Http.Headers.{HeaderMaps}
use rusty_gasket.Cache.Responses.{
  ResponseCachePolicy, Request, Response, CachedHttpResponse, public, response_cache_key,
  insert_headers, cacheable_response_headers, response_cache_middleware, stable_hash,
  should_store_response, to_cached, target, cacheable_of,
}
use rusty_gasket.Cache.Responses.Storable.{IsShareable}
use rusty_gasket.Cache.Responses.History.{serve_all, response_cache_middleware-IsShareable}
use rusty_gasket.Cache.Responses.Replay.{replayed, response_cache_middleware-replays}
use rusty_gasket.Cache.Responses.Separation.{SameScope, vary_list, response_cache_key-separates}

abbrev pub Entries : Type 0
Entries = List (Text × Text)

abbrev pub lookup : Entries → Text → Option Text
lookup [] k = none
lookup ((j, v) ∷ es) k = if text_eq k j then some v else lookup es k

abbrev pub remove : Text → Entries → Entries
remove k [] = []
remove k ((j, v) ∷ es) = if text_eq k j then remove k es else (j, v) ∷ remove k es

pub text_eq_refl : (s : Text) → text_eq s s ≡ true
text_eq_refl s = (text_eq_iff s s).1 refl

pub lookup-remove : (n k : Text) (es : Entries) → n ≢ k → lookup (remove k es) n ≡ lookup es n
lookup-remove n k [] apart = refl
lookup-remove n k ((j, v) ∷ es) apart = elim (Bool-cases (text_eq k j)) [
  | inl gone ↦
      let other : text_eq n j ≡ false = elim (Bool-cases (text_eq n j)) [
        | inr different ↦ different
        | inl same ↦ absurd (apart ((text_eq_iff n j).0 same ∙ sym ((text_eq_iff k j).0 gone)))
      ] in
      rw (gone, other) (lookup-remove n k es apart)
  | inr kept ↦ elim (Bool-cases (text_eq n j)) [
    | inl here ↦ rw (kept, here) refl
    | inr later ↦ rw (kept, later) (lookup-remove n k es apart)
  ]
]

pub text_neq : (n k : Text) → n ≢ k → text_eq n k ≡ false
text_neq n k apart = elim (Bool-cases (text_eq n k)) [
  | inr different ↦ different
  | inl same ↦ absurd (apart ((text_eq_iff n k).0 same))
]

abbrev pub http : HeaderMaps Entries
http = record {
  new = [];
  get = lookup;
  insert = λ n v m. (n, v) ∷ remove n m;
  iter = λ m. m;
  to_str = some;
  from_str = some;
  from_bytes = some;
  get_new = λ n. refl;
  get_insert = λ n v m. rw (text_eq_refl n) refl;
  get_insert_other = λ n k v m apart. rw (text_neq n k apart) (lookup-remove n k m apart);
  from_str_to_str = λ v t h. ap some (sym (same_of_some h));
  iter_names = λ m n v there. refl;
}

abbrev plain_text : CachedHttpResponse → List (Text × Text) → Option Text
plain_text c [] = some (c.status ∷ c.body)
plain_text c (h ∷ hs) = none

abbrev of_plain : Text → Option CachedHttpResponse
of_plain [] = none
of_plain (status ∷ body) = some (record { status = status; headers = []; body = body })

plain_text-inverse :
    (status : ℕ) (headers : List (Text × Text)) (body bytes : Text)
    → plain_text (record { status = status; headers = headers; body = body }) headers ≡ some bytes
    → of_plain bytes ≡ some (record { status = status; headers = headers; body = body })
plain_text-inverse status [] body bytes h =
    let same : status ∷ body ≡ bytes = same_of_some h in ap of_plain (sym same)
plain_text-inverse status (x ∷ xs) body bytes h = absurd (ground arith)

abbrev responses : ObjectCache Entries CachedHttpResponse
responses = record {
  backend = record {
    get = λ es k. done (lookup es k);
    set = λ es k bytes ttl. ((k, bytes) ∷ es, done tt);
    delete = λ es k. (remove k es, done tt);
  };
  namespace = codes "app";
  default_ttl = 60;
  to_vec = λ c. plain_text c c.headers;
  from_slice = of_plain;
}

responses-IsSound : IsSound responses
responses-IsSound = record {
  stored = λ es k bytes ttl kept. rw (text_eq_refl k) refl;
  inverse = λ c bytes encoded. plain_text-inverse c.status c.headers c.body bytes encoded;
}

responses-InventsNothing : InventsNothing responses
responses-InventsNothing = record {
  of_set = λ es k bytes j found ttl h. elim (Bool-cases (text_eq j k)) [
    | inl same ↦ inl (let out = rw same at h in ground arith)
    | inr other ↦ inr (rw other at h)
  ];
  inverse = λ c bytes encoded. plain_text-inverse c.status c.headers c.body bytes encoded;
}

abbrev products : Request Entries
products = record {
  method = codes "GET";
  path_and_query = some (codes "/products?page=2");
  path = codes "/products";
  headers = (codes "accept-language", codes "de") ∷ [];
}

abbrev listed : Response Entries
listed = record {
  status = 200;
  headers = (codes "connection", codes "close") ∷ [];
  body = some (codes "[]");
}

abbrev failing : Response Entries
failing = record { status = 500; headers = []; body = some [] }

abbrev by_language : ResponseCachePolicy
by_language = record (public 30) { vary_headers = codes "accept-language" ∷ [] }

abbrev products_key : CacheKey
products_key = parts (new_key (codes "response")) (
    codes "GET"
    ∷ codes "/products?page=2"
    ∷ codes "public"
    ∷ codes "accept-language"
    ∷ codes "de"
    ∷ [])

products_keyed : response_cache_key http by_language products ≡ some products_key
unfolding response_cache_key
products_keyed = refl

nothing_cached :
    (key : CacheKey) (cached : CachedHttpResponse) → get responses [] key ≢ done (some cached)
unfolding get
nothing_cached key cached h = elim (KeyResult-cases (namespaced_key (codes "app") key)) [
  | inl (k, valid) ↦ let out = rw (valid, get) at h in ground arith
  | inr (e, refused) ↦ let out = rw (refused, get) at h in ground arith
]

response_cache_middleware-IsShareable_example :
    let before = serve_all http by_language responses ((products, listed) ∷ []) [] in
    let served = response_cache_middleware http by_language responses before products failing in
    (served.handler_ran ≡ true)
    ⊎ ((served.store ≡ before) × IsShareable http by_language served.response)
response_cache_middleware-IsShareable_example =
    response_cache_middleware-IsShareable http by_language responses [] ((products, listed) ∷ [])
      products failing responses-InventsNothing nothing_cached

missing : get responses [] products_key ≡ done none
unfolding get namespaced_key new_key part
missing = refl

may_be_kept : should_store_response http by_language 200 listed.headers 2 ≡ true
unfolding should_store_response
may_be_kept = refl

kept : (set_for responses [] products_key 30 (to_cached http listed (codes "[]"))).1 ≡ done tt
unfolding set_for namespaced_key new_key to_cached part
kept = refl

response_cache_middleware-replays_example :
    let first = response_cache_middleware http by_language responses [] products listed in
    let second =
      response_cache_middleware http by_language responses first.store products failing in
    (first.response.status ≡ 200)
    × (first.response.body ≡ some (codes "[]"))
    × (http.get first.response.headers (codes "x-cache") ≡ some (codes "MISS"))
    × (http.get first.response.headers (codes "vary") ≡ http.get listed.headers (codes "vary"))
    × (second.handler_ran ≡ false)
    × (second.store ≡ first.store)
    × (second.response.status ≡ 200)
    × (second.response.body ≡ some (codes "[]"))
    × (http.get second.response.headers (codes "x-cache") ≡ some (codes "HIT"))
    × (http.get second.response.headers (codes "vary")
        ≡ replayed http by_language responses (codes "vary") listed.headers)
response_cache_middleware-replays_example =
    response_cache_middleware-replays http by_language responses [] products listed failing
      products_key (codes "[]") (codes "vary") responses-IsSound refl products_keyed missing refl
      may_be_kept kept (λ e. let clash = (text_eq_iff _ _).1 e in ground arith)

-- The same target of another client, whose other headers differ.
abbrev again : Request Entries
again = record products {
  headers = (codes "cookie", codes "a=b") ∷ (codes "accept-language", codes "de") ∷ [];
}

again_keyed : response_cache_key http by_language again ≡ some products_key
unfolding response_cache_key
again_keyed = refl

abbrev sent_key : Text
sent_key = codes "app:response:GET:%2Fproducts%3Fpage%3D2:public:accept-language:de"

products_sent : namespaced_key (codes "app") products_key ≡ ok sent_key
unfolding namespaced_key new_key part
products_sent = refl

response_cache_key-separates_example :
    (products.method ≡ again.method)
    × (target products ≡ target again)
    × SameScope http by_language products.headers again.headers
    × (vary_list http by_language products.headers (codes "accept-language" ∷ [])
        ≡ vary_list http by_language again.headers (codes "accept-language" ∷ []))
response_cache_key-separates_example =
    response_cache_key-separates http by_language (codes "app") products again products_key
      products_key sent_key (ground arith) (ground arith) (ground arith) (ground arith)
      (ground arith) (ground arith) (ground arith) products_keyed again_keyed products_sent
      products_sent

-- Of a header that the handler set twice only the last value is replayed.
abbrev two_links : Entries
two_links = (codes "link", codes "<a>") ∷ (codes "link", codes "<b>") ∷ []

first_link_lost :
    insert_headers http (cacheable_response_headers http two_links) []
    ≡ (codes "link", codes "<b>") ∷ []
unfolding insert_headers cacheable_of
first_link_lost = refl

-- The test vector of FNV-1a with 64 bits for the letter a.
hash_of_a : decimal (stable_hash (codes "a")) ≡ codes "12638187200555641996"
unfolding stable_hash
hash_of_a = refl
