-- ===== src/Cache/Responses/Separation.antt =====
-- The keys of the response cache of rusty-gasket/src/cache.rs, and what requests share one.
use Prim.Native.Nat.{bit_xor}
use native.Mathlib.Nat.{mod-lt}
use mathlib.Core.Path.{subst}
use mathlib.Core.List.{append-nil, append_assoc}
use rusty_gasket.Cache.Amounts.{digits_value}
use rusty_gasket.Cache.Amounts.RoundTrip.{digits_value-digits_onto}
use rusty_gasket.Common.{
  ℕ, ◌⊎◌, ◌++◌, ◌*◌, ◌^◌, zero, suc, ◌+◌, ◌/◌, ◌%◌, ◌<◌, ◌≡◌, refl, sym, ap, ◌∙◌, inl, inr, List,
  [], ◌∷◌, some, ◌==◌, arith, All, Bool-cases, Option-cases, same_of_some,
}
use rusty_gasket.Common.Text.{Text, codes}
use rusty_gasket.Cache.{CacheKey, new_key, part, parts, ok, namespaced_key}
use rusty_gasket.Cache.Parse.{IsBytes, parse_key}
use rusty_gasket.Cache.Keys.{namespaced_key-parse}
use rusty_gasket.Common.Digits.{digits_onto, decimal}
use rusty_gasket.Http.Headers.{HeaderMaps}
use rusty_gasket.Cache.Responses.{
  ResponseCachePolicy, ResponseCacheScope, public_scope, per_authorization_scope, Request,
  scope_part, target, header_text, text_or_empty, vary_parts, response_cache_key, stable_hash,
  hash_bytes,
}

digits_onto-IsBytes : (fuel n : ℕ) (acc : Text) → IsBytes acc → IsBytes (digits_onto fuel n acc)
digits_onto-IsBytes zero n acc h = h
digits_onto-IsBytes (suc fuel) n acc h =
    let digit : 48 + n % 10 < 256 = omega arith in
    elim (Bool-cases (n / 10 == 0)) [
      | inl last ↦ rw last (digit, h)
      | inr more ↦ rw more (digits_onto-IsBytes fuel (n / 10) ((48 + n % 10) ∷ acc) (digit, h))
    ]

-- The 64-bit FNV-1a hash of a text, byte by byte.
pub data IsFnv : Text → ℕ → Type 0 where
  no_bytes : IsFnv [] 14695981039346656037
  one_more :
      (bs : Text) (b h : ℕ)
      → IsFnv bs h
      → IsFnv (bs ++ b ∷ []) (bit_xor h b * 1099511628211 % 2 ^ 64)

IsFnv-bounded : (bs : Text) (h : ℕ) → IsFnv bs h → h < 2 ^ 64
IsFnv-bounded bs h no_bytes = omega arith
IsFnv-bounded bs h (one_more cs c k before) = mod-lt (bit_xor k c * 1099511628211) (omega arith)

hash_bytes-IsFnv :
    (before bs : Text) (h : ℕ) → IsFnv before h → IsFnv (before ++ bs) (hash_bytes h bs)
hash_bytes-IsFnv before [] h is = subst (λ t. IsFnv t h) (sym (append-nil before)) is
hash_bytes-IsFnv before (b ∷ bs) h is =
    subst (λ t. IsFnv t (hash_bytes h (b ∷ bs))) (append_assoc before (b ∷ []) bs)
      (hash_bytes-IsFnv (before ++ b ∷ []) bs (bit_xor h b * 1099511628211 % 2 ^ 64)
        (one_more before b h is))

stable_hash-IsFnv : (t : Text) → IsFnv t (stable_hash t)
unfolding stable_hash
stable_hash-IsFnv t = hash_bytes-IsFnv [] t 14695981039346656037 no_bytes

decimal-same : (m n : ℕ) → m < 2 ^ 64 → n < 2 ^ 64 → decimal m ≡ decimal n → m ≡ n
decimal-same m n hm hn same =
    sym (digits_value-digits_onto 20 m [] (omega (arith, hm)))
    ∙ ap (digits_value 0) same
    ∙ digits_value-digits_onto 20 n [] (omega (arith, hn))

abbrev head : List Text → Text
head [] = []
head (x ∷ xs) = x

abbrev tail : List Text → List Text
tail [] = []
tail (x ∷ xs) = xs

module _ {Map : Type 0} (http : HeaderMaps Map) (policy : ResponseCachePolicy) where
  -- The headers that vary the response, each with its text.
  abbrev pub vary_list : Map → List Text → List Text
  vary_list headers [] = []
  vary_list headers (name ∷ names) =
      name ∷ text_or_empty (header_text http headers name) ∷ vary_list headers names

  vary_parts-parts :
      (headers : Map) (names : List Text) (key : CacheKey)
      → vary_parts http headers names key ≡ parts key (vary_list headers names)
  unfolding vary_parts
  vary_parts-parts headers [] key = refl
  vary_parts-parts headers (name ∷ names) key =
      vary_parts-parts headers names
        (part (part key name) (text_or_empty (header_text http headers name)))

  scope_part-IsBytes :
      (scope : ResponseCacheScope) (headers : Map) (s : Text)
      → scope_part http scope headers ≡ some s
      → IsBytes s
  scope_part-IsBytes public_scope headers s h =
      let same : codes "public" ≡ s = same_of_some h in rw (sym same) (ground arith)
  scope_part-IsBytes per_authorization_scope headers s h =
      elim (Option-cases (http.get headers (codes "authorization"))) [
        | inl missing ↦ let out = rw (missing, scope_part) at h in absurd (ground arith)
        | inr (value, there) ↦
            let same : decimal (stable_hash value) ≡ s =
              same_of_some (rw (there, scope_part) at h) in
            rw (sym same) (digits_onto-IsBytes 20 (stable_hash value) [] tt)
      ]

  -- All parts of a request's key after the area.
  abbrev pub key_parts : Request Map → Text → List Text
  key_parts request scope =
      request.method ∷ target request ∷ scope ∷ vary_list request.headers policy.vary_headers

  response_cache_key-parts :
      (request : Request Map) (key : CacheKey)
      → response_cache_key http policy request ≡ some key
      → (scope : Text) × (scope_part http policy.scope request.headers ≡ some scope)
        × (parts (new_key (codes "response")) (key_parts request scope) ≡ key)
  unfolding response_cache_key
  response_cache_key-parts request key h =
      elim (Option-cases (scope_part http policy.scope request.headers)) [
        | inl missing ↦ let out = rw (missing, response_cache_key) at h in absurd (ground arith)
        | inr (scope, made) ↦
            let start = part (part (new_key (codes "response")) request.method) (target request) in
            (
              scope,
              made,
              sym (vary_parts-parts request.headers policy.vary_headers (part start scope))
                  ∙ same_of_some (rw (made, response_cache_key) at h),
            )
      ]

  -- The key that goes to the backend gives back the namespace, the method, the target, the scope and
  -- every header that varies the response, with its text.
  response_cache_key-parse :
      (namespace : Text) (request : Request Map) (key : CacheKey) (k : Text)
      → IsBytes namespace
      → IsBytes request.method
      → IsBytes (target request)
      → All IsBytes (vary_list request.headers policy.vary_headers)
      → response_cache_key http policy request ≡ some key
      → namespaced_key namespace key ≡ ok k
      → (scope : Text) × (scope_part http policy.scope request.headers ≡ some scope)
        × (parse_key k ≡ namespace ∷ codes "response" ∷ key_parts request scope)
  response_cache_key-parse namespace request key k hn hm ht hv made sent =
      let (scope, part_made, same) = response_cache_key-parts request key made in
      (
        scope,
        part_made,
        namespaced_key-parse namespace (codes "response") (key_parts request scope) k hn
            (ground arith)
            (hm, (ht, (scope_part-IsBytes policy.scope request.headers scope part_made, hv)))
            (ap (namespaced_key namespace) same ∙ sent),
      )

  -- Under a policy that is not public both requests have an `Authorization` header, of one hash.
  abbrev pub SameScope : Map → Map → Type 0
  SameScope r s =
      (policy.scope ≡ public_scope)
      ⊎ (v : Text) × (w : Text) × (h : ℕ) × (http.get r (codes "authorization") ≡ some v)
        × (http.get s (codes "authorization") ≡ some w)
        × IsFnv v h
        × IsFnv w h

  scope_part-authorization :
      (headers : Map) (t : Text)
      → scope_part http per_authorization_scope headers ≡ some t
      → (v : Text) × (http.get headers (codes "authorization") ≡ some v)
        × (decimal (stable_hash v) ≡ t)
  scope_part-authorization headers t h =
      elim (Option-cases (http.get headers (codes "authorization"))) [
        | inl missing ↦ let out = rw (missing, scope_part) at h in absurd (ground arith)
        | inr (value, there) ↦ (value, there, same_of_some (rw (there, scope_part) at h))
      ]

  scope-cases :
      (scope : ResponseCacheScope) → (scope ≡ public_scope) ⊎ (scope ≡ per_authorization_scope)
  scope-cases public_scope = inl refl
  scope-cases per_authorization_scope = inr refl

  scope_part-SameScope :
      (r s : Map) (t : Text)
      → scope_part http policy.scope r ≡ some t
      → scope_part http policy.scope s ≡ some t
      → SameScope r s
  scope_part-SameScope r s t hr hs = elim (scope-cases policy.scope) [
    | inl open_to_all ↦ inl open_to_all
    | inr per ↦
        let (v, there_v, text_v) =
          scope_part-authorization r t (ap (λ c. scope_part http c r) (sym per) ∙ hr) in
        let (w, there_w, text_w) =
          scope_part-authorization s t (ap (λ c. scope_part http c s) (sym per) ∙ hs) in
        let same : stable_hash v ≡ stable_hash w =
          decimal-same (stable_hash v) (stable_hash w)
            (IsFnv-bounded v (stable_hash v) (stable_hash-IsFnv v))
            (IsFnv-bounded w (stable_hash w) (stable_hash-IsFnv w)) (text_v ∙ sym text_w) in
        inr (
          v,
          w,
          stable_hash v,
          there_v,
          there_w,
          stable_hash-IsFnv v,
          subst (IsFnv w) (sym same) (stable_hash-IsFnv w),
        )
  ]

  -- Two requests whose responses have the same key at the backend have the same method and target and
  -- the same texts in the headers that vary the response; and unless the policy's scope is public, both have
  -- an `Authorization` header and these headers have the same 64-bit FNV-1a hash.
  pub response_cache_key-separates :
      (namespace : Text) (r s : Request Map) (kr ks : CacheKey) (k : Text)
      → IsBytes namespace
      → IsBytes r.method
      → IsBytes s.method
      → IsBytes (target r)
      → IsBytes (target s)
      → All IsBytes (vary_list r.headers policy.vary_headers)
      → All IsBytes (vary_list s.headers policy.vary_headers)
      → response_cache_key http policy r ≡ some kr
      → response_cache_key http policy s ≡ some ks
      → namespaced_key namespace kr ≡ ok k
      → namespaced_key namespace ks ≡ ok k
      → (r.method ≡ s.method)
        × (target r ≡ target s)
        × SameScope r.headers s.headers
        × (vary_list r.headers policy.vary_headers ≡ vary_list s.headers policy.vary_headers)
  response_cache_key-separates namespace r s kr ks k hn mr ms tr ts vr vs made_r made_s sent_r
        sent_s =
      let (a, part_r, read_r) =
        response_cache_key-parse namespace r kr k hn mr tr vr made_r sent_r in
      let (b, part_s, read_s) =
        response_cache_key-parse namespace s ks k hn ms ts vs made_s sent_s in
      let same : key_parts r a ≡ key_parts s b = ap tail (ap tail (sym read_r ∙ read_s)) in
      (
        ap head same,
        ap (λ l. head (tail l)) same,
        scope_part-SameScope r.headers s.headers b
            (part_r ∙ ap some (ap (λ l. head (tail (tail l))) same)) part_s,
        ap (λ l. tail (tail (tail l))) same,
      )
