-- ===== src/Cache/Responses/Storable.antt =====
-- What the response cache of rusty-gasket/src/cache.rs may hold, and so what it may answer.
use rusty_gasket.Common.{
  ◌≡◌, ◌≢◌, refl, sym, ap, ◌∙◌, inl, inr, ◌≤◌, true, false, List, [], ◌∷◌, none, some, length,
  arith, All, All-of_In, In_of_All, In, Bool-cases, Option-cases,
}
use rusty_gasket.Common.Text.{Text, codes}
use rusty_gasket.Http.Headers.{HeaderMaps}
use rusty_gasket.Cache.Responses.{
  ResponseCachePolicy, Response, CachedHttpResponse, is_success, is_cacheable_response_header,
  should_store_response, cacheable_of, insert_header, insert_headers, cached_response,
  mark_cache_status, to_cached,
}

-- The cookie and the headers that speak of one connection.
abbrev unshared_headers : List Text
unshared_headers =
    codes "set-cookie"
    ∷ codes "connection"
    ∷ codes "keep-alive"
    ∷ codes "te"
    ∷ codes "trailer"
    ∷ codes "transfer-encoding"
    ∷ codes "upgrade"
    ∷ codes "proxy-authenticate"
    ∷ codes "proxy-authorization"
    ∷ []

unshared-not_cacheable : (n : Text) → In n unshared_headers → is_cacheable_response_header n ≡ false
unfolding is_cacheable_response_header
unshared-not_cacheable n m =
    In_of_All (λ h. is_cacheable_response_header h ≡ false) unshared_headers n
      (refl, (refl, (refl, (refl, (refl, (refl, (refl, (refl, (refl, tt))))))))) m

x_cache-cacheable : is_cacheable_response_header (codes "x-cache") ≡ true
unfolding is_cacheable_response_header
x_cache-cacheable = refl

other_name :
    (n k : Text)
    → is_cacheable_response_header n ≡ false
    → is_cacheable_response_header k ≡ true
    → n ≢ k
other_name n k unfit fit same =
    let clash = sym unfit ∙ ap is_cacheable_response_header same ∙ fit in absurd (ground arith)

module _ {Map : Type 0} (http : HeaderMaps Map) (policy : ResponseCachePolicy) where
  abbrev pub IsStoredHeader : Text × Text → Type 0
  IsStoredHeader h = (is_cacheable_response_header h.0 ≡ true) × (http.from_bytes h.0 ≡ some h.0)

  pub record IsStorable (cached : CachedHttpResponse) : Type 0 where
    pub success : is_success cached.status ≡ true
    pub fits : length cached.body ≤ policy.max_body_bytes
    pub names : All IsStoredHeader cached.headers

  -- A successful answer of a bounded size, without a cookie or a header of the connection.
  abbrev pub IsShareable : Response Map → Type 0
  IsShareable response =
      (is_success response.status ≡ true)
      × ((b : Text) × (response.body ≡ some b) × (length b ≤ policy.max_body_bytes))
      × All (λ n. http.get response.headers n ≡ none) unshared_headers

  cacheable_of-names :
      (hs : List (Text × Text))
      → ((n v : Text) → In (n, v) hs → http.from_bytes n ≡ some n)
      → All IsStoredHeader (cacheable_of http hs)
  unfolding cacheable_of
  cacheable_of-names [] fixed = tt
  cacheable_of-names ((n, v) ∷ hs) fixed =
      let rest = cacheable_of-names hs (λ m w there. fixed m w (inr there)) in
      elim (Bool-cases (is_cacheable_response_header n)) [
        | inr unfit ↦ rw (unfit, cacheable_of) rest
        | inl fit ↦ elim (Option-cases (http.to_str v)) [
          | inl opaque ↦ rw (fit, cacheable_of, opaque) rest
          | inr (text, read) ↦ rw (fit, cacheable_of, read) ((fit, fixed n v (inl refl)), rest)
        ]
      ]

  pub to_cached-IsStorable :
      (next : Response Map) (bytes : Text)
      → should_store_response http policy next.status next.headers (length bytes) ≡ true
      → IsStorable (to_cached http next bytes)
  unfolding should_store_response to_cached
  to_cached-IsStorable next bytes stored = record {
    success = ground arith;
    fits = ground arith;
    names = cacheable_of-names (http.iter next.headers) (http.iter_names next.headers);
  }

  insert_header-absent :
      (n k v : Text) (m : Map)
      → is_cacheable_response_header n ≡ false
      → IsStoredHeader (k, v)
      → http.get m n ≡ none
      → http.get (insert_header http k v m) n ≡ none
  unfolding insert_header
  insert_header-absent n k v m unfit stored absent = elim (Option-cases (http.from_str v)) [
    | inl refused ↦ rw (stored.1, insert_header, refused) absent
    | inr (value, read) ↦
        rw (stored.1, insert_header, read)
          (http.get_insert_other n k value m (other_name n k unfit stored.0) ∙ absent)
  ]

  pub insert_headers-absent :
      (n : Text) (hs : List (Text × Text)) (m : Map)
      → is_cacheable_response_header n ≡ false
      → All IsStoredHeader hs
      → http.get m n ≡ none
      → http.get (insert_headers http hs m) n ≡ none
  unfolding insert_headers
  insert_headers-absent n [] m unfit names absent = absent
  insert_headers-absent n ((k, v) ∷ hs) m unfit names absent =
      insert_headers-absent n hs (insert_header http k v m) unfit names.1
        (insert_header-absent n k v m unfit names.0 absent)

  pub cached_response-IsShareable :
      (cached : CachedHttpResponse) (mark : Text)
      → IsStorable cached
      → IsShareable (cached_response http cached mark)
  unfolding cached_response mark_cache_status
  cached_response-IsShareable cached mark ok = (
    let good = ok.success in ground (arith, good),
    (cached.body, refl, ok.fits),
    All-of_In (λ n. http.get (cached_response http cached mark).headers n ≡ none) unshared_headers
        (λ n m.
          let unfit = unshared-not_cacheable n m in
          http.get_insert_other n (codes "x-cache") mark
            (insert_headers http cached.headers http.new)
            (other_name n (codes "x-cache") unfit x_cache-cacheable)
          ∙ insert_headers-absent n cached.headers http.new unfit ok.names (http.get_new n)),
  )
