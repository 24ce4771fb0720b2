-- ===== src/Http/Headers.antt =====
-- The header maps of the `http` crate, with what the framework relies on, and the headers that
-- rusty-gasket/src/middleware.rs adds.
use rusty_gasket.Common.{
  ◌≡◌, ◌≢◌, refl, sym, ap, ◌∙◌, Bool, true, false, List, Option, none, some, In, arith, inl, inr,
  Bool-cases, Option-cases, if◌then◌else◌,
}
use rusty_gasket.Common.Text.{Text, codes, text_eq, text_eq_iff}

-- `http::HeaderMap`, `HeaderValue::to_str` and `from_str`, and `HeaderName::from_bytes`. A name that
-- stands in a map is in the form that `from_bytes` gives.
pub record HeaderMaps (Map : Type 0) : Type 0 where
  pub new : Map
  pub get : Map → Text → Option Text
  pub insert : Text → Text → Map → Map
  pub iter : Map → List (Text × Text)
  pub to_str : Text → Option Text
  pub from_str : Text → Option Text
  pub from_bytes : Text → Option Text
  pub get_new : (n : Text) → get new n ≡ none
  pub get_insert : (n v : Text) (m : Map) → get (insert n v m) n ≡ some v
  pub get_insert_other : (n k v : Text) (m : Map) → n ≢ k → get (insert k v m) n ≡ get m n
  pub from_str_to_str : (v t : Text) → to_str v ≡ some t → from_str t ≡ some v
  pub iter_names : (m : Map) (n v : Text) → In (n, v) (iter m) → from_bytes n ≡ some n

-- A header as it was, or a default.
abbrev pub or_default : Option Text → Option Text → Option Text
or_default none default = default
or_default (some v) default = some v

-- What a response has where its handler says nothing.
abbrev pub secure_default : Text → Option Text
secure_default name =
    if text_eq name (codes "x-content-type-options")
    then some (codes "nosniff")
    else if text_eq name (codes "x-frame-options")
    then some (codes "DENY")
    else if text_eq name (codes "referrer-policy")
    then some (codes "strict-origin-when-cross-origin")
    else none

module _ {Map : Type 0} (http : HeaderMaps Map) where
  unfoldable pub insert_if_missing : Map → Text → Text → Map
  insert_if_missing headers name value = elim (http.get headers name) [
    | none ↦ http.insert name value headers
    | some v ↦ headers
  ]

  -- The headers of the response after `secure_headers_middleware`.
  unfoldable pub secure_headers : Map → Map
  unfolding insert_if_missing
  secure_headers headers =
      insert_if_missing
        (insert_if_missing
          (insert_if_missing headers (codes "x-content-type-options") (codes "nosniff"))
          (codes "x-frame-options") (codes "DENY"))
        (codes "referrer-policy") (codes "strict-origin-when-cross-origin")

  get-insert_if_missing :
      (headers : Map) (name value n : Text)
      → http.get (insert_if_missing headers name value) n
        ≡ or_default (http.get headers n) (if text_eq n name then some value else none)
  unfolding insert_if_missing
  get-insert_if_missing headers name value n = elim (Bool-cases (text_eq n name)) [
    | inl here ↦
        let same = (text_eq_iff n name).0 here in
        elim (Option-cases (http.get headers name)) [
          | inl missing ↦
              let none_there : http.get headers n ≡ none = ap (http.get headers) same ∙ missing in
              rw (missing, insert_if_missing, here, none_there)
                (ap (http.get (http.insert name value headers)) same
                  ∙ http.get_insert name value headers)
          | inr (v, there) ↦
              let some_there : http.get headers n ≡ some v = ap (http.get headers) same ∙ there in
              rw (there, insert_if_missing, here, some_there) refl
        ]
    | inr other ↦
        let apart : n ≢ name =
          λ same. let clash = sym other ∙ (text_eq_iff n name).1 same in absurd (ground arith) in
        elim (Option-cases (http.get headers name)) [
          | inl missing ↦
              rw (missing, insert_if_missing, other)
                (http.get_insert_other n name value headers apart
                  ∙ sym (or_default-none (http.get headers n)))
          | inr (v, there) ↦
              rw (there, insert_if_missing, other) (sym (or_default-none (http.get headers n)))
        ]
  ]
    where
      or_default-none : (o : Option Text) → or_default o none ≡ o
      or_default-none none = refl
      or_default-none (some v) = refl

  -- Three defaults, one after the other.
  or_default-three :
      (o : Option Text) (a b c : Bool) (u v w : Text)
      → or_default
          (or_default (or_default o (if a then some u else none)) (if b then some v else none))
          (if c then some w else none)
        ≡ or_default o (if a then some u else if b then some v else if c then some w else none)
  or_default-three (some x) a b c u v w = refl
  or_default-three none true b c u v w = refl
  or_default-three none false true c u v w = refl
  or_default-three none false false c u v w = refl

  -- Every header of a response is what the handler made it; where the handler set none, the three
  -- security headers have their defaults, and all others are still missing.
  pub secure_headers-get :
      (headers : Map) (n : Text)
      → http.get (secure_headers headers) n ≡ or_default (http.get headers n) (secure_default n)
  unfolding secure_headers
  secure_headers-get headers n =
      let first = insert_if_missing headers (codes "x-content-type-options") (codes "nosniff") in
      let second = insert_if_missing first (codes "x-frame-options") (codes "DENY") in
      get-insert_if_missing second (codes "referrer-policy")
        (codes "strict-origin-when-cross-origin") n
      ∙ ap
          (λ o.
            or_default o
              (default_for n (codes "referrer-policy") (codes "strict-origin-when-cross-origin")))
          (get-insert_if_missing first (codes "x-frame-options") (codes "DENY") n
            ∙ ap (λ o. or_default o (default_for n (codes "x-frame-options") (codes "DENY")))
                (get-insert_if_missing headers (codes "x-content-type-options") (codes "nosniff")
                  n))
      ∙ or_default-three (http.get headers n) (text_eq n (codes "x-content-type-options"))
          (text_eq n (codes "x-frame-options")) (text_eq n (codes "referrer-policy"))
          (codes "nosniff") (codes "DENY") (codes "strict-origin-when-cross-origin")
    where
      default_for : Text → Text → Text → Option Text
      default_for n name value = if text_eq n name then some value else none
