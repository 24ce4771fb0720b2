-- ===== src/RateLimit/Laws.antt =====
-- What the rate limiter's keys and middleware promise.
use rusty_gasket.Common.{
  ℕ, suc, ◌+◌, ◌-◌, min, max, ap, map, keep, All, not, ◌==◌, ◌<◌, true, false, List, [], ◌∷◌, ◌++◌,
  Option, none, some, any, length, get_elem?, ltb, ◌≡◌, refl, ◌⊎◌, inl, inr, Bool-cases,
  Option-cases, same_of_some, ◌↔◌, length-append, arith, sym, ◌∙◌,
}
use mathlib.Core.List.{append-nil, append_assoc}
use rusty_gasket.Common.Slices.{keep-append}
use rusty_gasket.Common.Chars.{trim, is_empty, split, split_piece}
use rusty_gasket.Common.Text.{Text, codes, text_eq}
use rusty_gasket.Http.{Response, json_error, with_details}
use rusty_gasket.RateLimit.{
  RateLimitConfig, Parts, new_forwarded_ip_key, split_all, forwarded_entries, candidate,
  parse_forwarded_ip, forwarded_ip_key, rate_limit_middleware, too_many_requests,
}

get_elem?-append :
    (xs : List Text) (y : Text) (ys : List Text) → get_elem? (xs ++ y ∷ ys) (length xs) ≡ some y
get_elem?-append [] y ys = refl
get_elem?-append (x ∷ xs) y ys = get_elem?-append xs y ys

candidate-hops :
    (spoofed : List Text) (seen : Text) (trusted : List Text) (hops : ℕ)
    → suc (length trusted) ≡ hops
    → candidate (spoofed ++ seen ∷ trusted) hops ≡ some seen
unfolding candidate
candidate-hops spoofed seen trusted hops h =
    let size : length (spoofed ++ seen ∷ trusted) ≡ length spoofed + suc (length trusted) =
      length-append spoofed (seen ∷ trusted) in
    let enough : ltb (length (spoofed ++ seen ∷ trusted)) hops ≡ false = ground arith in
    let at : length (spoofed ++ seen ∷ trusted) - hops ≡ length spoofed = omega arith in
    rw (enough, at) (get_elem?-append spoofed seen trusted)

split_piece-append :
    (piece v a : Text) → split_piece 44 piece (v ++ 44 ∷ a) ≡ split_piece 44 piece v ++ split 44 a
split_piece-append piece [] a = refl
split_piece-append piece (c ∷ v) a = elim (Bool-cases (c == 44)) [
  | inl comma ↦ rw comma (ap (◌∷◌ piece) (split_piece-append [] v a))
  | inr other ↦ rw other (split_piece-append (piece ++ c ∷ []) v a)
]

split_piece-whole :
    (piece a : Text) → All (λ c. (c == 44) ≡ false) a → split_piece 44 piece a ≡ (piece ++ a) ∷ []
split_piece-whole piece [] h = ap (λ t. t ∷ []) (sym (append-nil piece))
split_piece-whole piece (c ∷ a) h =
    rw (h.0)
      (split_piece-whole (piece ++ c ∷ []) a h.1 ∙ ap (λ t. t ∷ []) (append_assoc piece (c ∷ []) a))

split_all-append :
    (us vs : List (Option Text)) → split_all (us ++ vs) ≡ split_all us ++ split_all vs
split_all-append [] vs = refl
split_all-append (none ∷ us) vs = split_all-append us vs
split_all-append (some u ∷ us) vs =
    ap (λ l. split 44 u ++ l) (split_all-append us vs)
    ∙ sym (append_assoc (split 44 u) (split_all us) (split_all vs))

-- What a proxy writes: the text of one address, perhaps with blanks around it.
pub record IsEntry (a : Text) : Type 0 where
  pub no_comma : All (λ c. (c == 44) ≡ false) a
  pub filled : is_empty (trim a) ≡ false

-- The values of the header as it comes in, with the addresses that the trusted proxies wrote, the
-- outermost first. The client writes anything; a proxy adds a value, or adds its entry to the last value.
pub data Passed : List (Option Text) → List Text → Type 0 where
  by_client : (vs : List (Option Text)) → Passed vs []
  added :
      (vs : List (Option Text)) (hops : List Text) (a : Text)
      → Passed vs hops
      → IsEntry a
      → Passed (vs ++ some a ∷ []) (hops ++ a ∷ [])
  joined :
      (vs : List (Option Text)) (hops : List Text) (v a : Text)
      → Passed (vs ++ some v ∷ []) hops
      → IsEntry a
      → Passed (vs ++ some (v ++ 44 ∷ a) ∷ []) (hops ++ a ∷ [])

abbrev entries_of : List (Option Text) → List Text
entries_of vs = keep (λ s. not (is_empty s)) (map trim (split_all vs))

map-append : (f : Text → Text) (xs ys : List Text) → map f (xs ++ ys) ≡ map f xs ++ map f ys
map-append f [] ys = refl
map-append f (x ∷ xs) ys = ap (◌∷◌ (f x)) (map-append f xs ys)

-- One piece more at the end is one entry more at the end.
entries-one_more :
    (us vs : List (Option Text)) (a : Text)
    → IsEntry a
    → split_all us ≡ split_all vs ++ a ∷ []
    → entries_of us ≡ entries_of vs ++ trim a ∷ []
entries-one_more us vs a h same =
    let filled = h.filled in
    ap (λ l. keep (λ s. not (is_empty s)) (map trim l)) same
    ∙ ap (keep (λ s. not (is_empty s))) (map-append trim (split_all vs) (a ∷ []))
    ∙ keep-append (λ s. not (is_empty s)) (map trim (split_all vs)) (trim a ∷ [])
    ∙ ap (λ l. entries_of vs ++ l) (rw filled refl)

split_all-added :
    (vs : List (Option Text)) (a : Text)
    → IsEntry a
    → split_all (vs ++ some a ∷ []) ≡ split_all vs ++ a ∷ []
split_all-added vs a h =
    split_all-append vs (some a ∷ [])
    ∙ ap (λ l. split_all vs ++ l) (append-nil (split 44 a) ∙ split_piece-whole [] a h.no_comma)

split_all-joined :
    (vs : List (Option Text)) (v a : Text)
    → IsEntry a
    → split_all (vs ++ some (v ++ 44 ∷ a) ∷ []) ≡ split_all (vs ++ some v ∷ []) ++ a ∷ []
split_all-joined vs v a h =
    split_all-append vs (some (v ++ 44 ∷ a) ∷ [])
    ∙ ap (λ l. split_all vs ++ l)
        (append-nil (split 44 (v ++ 44 ∷ a))
          ∙ split_piece-append [] v a
          ∙ ap (λ l. split 44 v ++ l) (split_piece-whole [] a h.no_comma))
    ∙ sym (append_assoc (split_all vs) (split 44 v) (a ∷ []))
    ∙ ap (λ l. l ++ a ∷ [])
        (ap (λ l. split_all vs ++ l) (sym (append-nil (split 44 v)))
          ∙ sym (split_all-append vs (some v ∷ [])))

-- The entries end with the addresses of the trusted proxies.
Passed-entries :
    (vs : List (Option Text)) (hops : List Text)
    → Passed vs hops
    → (spoofed : List Text) × (entries_of vs ≡ spoofed ++ map trim hops)
Passed-entries vs hops (by_client us) = (entries_of us, sym (append-nil (entries_of us)))
Passed-entries vs hops (added us bs a path h) =
    let (spoofed, before) = Passed-entries us bs path in
    (
      spoofed,
      entries-one_more (us ++ some a ∷ []) us a h (split_all-added us a h)
          ∙ ap (λ l. l ++ trim a ∷ []) before
          ∙ append_assoc spoofed (map trim bs) (trim a ∷ [])
          ∙ ap (λ l. spoofed ++ l) (sym (map-append trim bs (a ∷ []))),
    )
Passed-entries vs hops (joined us bs v a path h) =
    let (spoofed, before) = Passed-entries (us ++ some v ∷ []) bs path in
    (
      spoofed,
      entries-one_more (us ++ some (v ++ 44 ∷ a) ∷ []) (us ++ some v ∷ []) a h
            (split_all-joined us v a h)
          ∙ ap (λ l. l ++ trim a ∷ []) before
          ∙ append_assoc spoofed (map trim bs) (trim a ∷ [])
          ∙ ap (λ l. spoofed ++ l) (sym (map-append trim bs (a ∷ []))),
    )

length-map : (f : Text → Text) (xs : List Text) → length (map f xs) ≡ length xs
length-map f [] = refl
length-map f (x ∷ xs) = ap suc (length-map f xs)

-- When a request came through `n` proxies that are trusted, each of which added its entry as a value of its
-- own or to a last value that is text, the key is the address that the outermost of them wrote, whatever
-- values the client sent. (A proxy that adds its entry to a value with an opaque byte is not covered: that
-- value is dropped whole.)
pub forwarded_ip_key-unspoofable :
    (ip socket_ip : Text → Option Text) (n : ℕ) (parts : Parts) (seen addr : Text)
    (inner : List Text)
    → Passed parts.forwarded_for (seen ∷ inner)
    → suc (length inner) ≡ n
    → parse_forwarded_ip ip socket_ip (trim seen) ≡ some addr
    → forwarded_ip_key ip socket_ip (new_forwarded_ip_key n) parts ≡ some addr
unfolding forwarded_ip_key forwarded_entries
forwarded_ip_key-unspoofable ip socket_ip n parts seen addr inner passed hops parsed =
    let (spoofed, entries) = Passed-entries parts.forwarded_for (seen ∷ inner) passed in
    let full : max n 1 ≡ n = omega arith in
    let size : suc (length (map trim inner)) ≡ n = ap suc (length-map trim inner) ∙ hops in
    rw (full, entries, candidate-hops spoofed (trim seen) (map trim inner) n size, parsed) refl

-- With fewer entries than trusted proxies, or with an entry that is no address, the key is the
-- address of the peer.
pub forwarded_ip_key-peer :
    (ip socket_ip : Text → Option Text) (n : ℕ) (parts : Parts)
    → (length (forwarded_entries parts) < n)
      ⊎ (c : Text) × (candidate (forwarded_entries parts) (max n 1) ≡ some c)
        × (parse_forwarded_ip ip socket_ip c ≡ none)
    → forwarded_ip_key ip socket_ip (new_forwarded_ip_key n) parts ≡ parts.connect_info
unfolding forwarded_ip_key candidate
forwarded_ip_key-peer ip socket_ip n parts (inl short) =
    let few : ltb (length (forwarded_entries parts)) (max n 1) ≡ true = ground arith in rw few refl
forwarded_ip_key-peer ip socket_ip n parts (inr (c, found, unparsed)) = rw (found, unparsed) refl

module _ {Limiter Body : Type 0} (check_key : Limiter → Text → Limiter × Option ℕ)
    (to_string : ℕ → Text) (cid : Text) (config : RateLimitConfig)
    (extract_key : Parts → Option Text) (next : Response Body) (limiter : Limiter)
    (parts : Parts) where
  -- A request is turned away exactly when the limiter is on, the request has a key that is not
  -- exempt, and the key is over its quota; then the response has the status 429, a `Retry-After` of one
  -- second more than the limiter gives, at most 2^64 - 1, and the code RATE_LIMIT_EXCEEDED.
  pub rate_limit_middleware-limits :
      ((rate_limit_middleware check_key to_string cid config extract_key next limiter
          parts).forwarded
        ≡ false)
      ↔ ((key : Text) × (secs : ℕ) × (config.enabled ≡ true)
          × (extract_key parts ≡ some key)
          × (any (text_eq key) config.exempt_keys ≡ false)
          × ((check_key limiter key).1 ≡ some secs)
          × ((rate_limit_middleware check_key to_string cid config extract_key next limiter
                parts).response
              ≡ record {
                status = 429;
                headers =
                    (codes "Retry-After", to_string (min (secs + 1) 18446744073709551615)) ∷ [];
                payload =
                    json_error (
                      with_details
                        (codes "RATE_LIMIT_EXCEEDED")
                        (codes "Too many requests")
                        cid
                        []);
              }))
  unfolding rate_limit_middleware too_many_requests
  rate_limit_middleware-limits = elim (Bool-cases config.enabled) [
    | inr off ↦ (
      λ h. let out = rw (off, rate_limit_middleware) at h in absurd (ground arith),
      λ h. absurd (ground (arith, h.2)),
    )
    | inl on ↦ elim (Option-cases (extract_key parts)) [
      | inl keyless ↦ (
        λ h. let out = rw (on, keyless, rate_limit_middleware) at h in absurd (ground arith),
        λ h. absurd (ground (arith, h.3)),
      )
      | inr (key, keyed) ↦ elim (Bool-cases (any (text_eq key) config.exempt_keys)) [
        | inl exempt ↦ (
          λ h.
              let out = rw (on, keyed, exempt, rate_limit_middleware) at h in absurd (ground arith),
          λ h.
              let same : key ≡ h.0 = same_of_some (sym keyed ∙ h.3) in
              let counted : any (text_eq key) config.exempt_keys ≡ false = rw same h.4 in
              absurd (ground arith),
        )
        | inr counted ↦ elim (Option-cases (check_key limiter key).1) [
          | inl under ↦ (
            λ h.
                let out = rw (on, keyed, counted, under, rate_limit_middleware) at h in
                absurd (ground arith),
            λ h.
                let same : key ≡ h.0 = same_of_some (sym keyed ∙ h.3) in
                let over : (check_key limiter key).1 ≡ some h.1 = rw same h.5 in
                absurd (ground arith),
          )
          | inr (secs, over) ↦ (
            λ h. (
              key,
              secs,
              on,
              keyed,
              counted,
              over,
              rw (on, keyed, counted, over, rate_limit_middleware) refl,
            ),
            λ h. rw (on, keyed, counted, over, rate_limit_middleware) refl,
          )
        ]
      ]
    ]
  ]

  -- A request that is not turned away gets the response of the rest of the stack.
  pub rate_limit_middleware-passes :
      (rate_limit_middleware check_key to_string cid config extract_key next limiter
          parts).forwarded
        ≡ true
      → (rate_limit_middleware check_key to_string cid config extract_key next limiter
          parts).response
        ≡ next
  unfolding rate_limit_middleware
  rate_limit_middleware-passes h = elim (Bool-cases config.enabled) [
    | inr off ↦ rw (off, rate_limit_middleware) refl
    | inl on ↦ elim (Option-cases (extract_key parts)) [
      | inl keyless ↦ rw (on, keyless, rate_limit_middleware) refl
      | inr (key, keyed) ↦ elim (Bool-cases (any (text_eq key) config.exempt_keys)) [
        | inl exempt ↦ rw (on, keyed, exempt, rate_limit_middleware) refl
        | inr counted ↦ elim (Option-cases (check_key limiter key).1) [
          | inl under ↦ rw (on, keyed, counted, under, rate_limit_middleware) refl
          | inr (secs, over) ↦
              let out = rw (on, keyed, counted, over, rate_limit_middleware) at h in
              absurd (ground arith)
        ]
      ]
    ]
  ]
