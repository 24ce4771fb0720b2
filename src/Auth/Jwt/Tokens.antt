-- ===== src/Auth/Jwt/Tokens.antt =====
-- rusty-gasket/src/auth/backends/jwt.rs: `TokenSource` and `JwtBackend::extract_token`.
use rusty_gasket.Common.{
  ◌≡◌, refl, inl, inr, sym, ◌||◌, List, [], ◌∷◌, ◌++◌, Option, none, some, ◌==◌, if◌then◌else◌,
  Option-cases,
}
use rusty_gasket.Common.Text.{Text, codes}
use rusty_gasket.Common.Chars.{split, trim, trim_start}
use rusty_gasket.Auth.Bearer.{extract_bearer_token, strip_ignoring_case}

pub data TokenSource : Type 0 where
  bearer_header : TokenSource
  cookie header : Text → TokenSource

-- The first value of a header, when it is there, and its text, when `to_str` gives one.
abbrev pub HeaderMap : Type 0
HeaderMap = Text → Option (Option Text)

-- `headers.get(name)?` and `to_str().ok()?`
abbrev pub header_text : HeaderMap → Text → Option Text
header_text headers name = elim (headers name) [ none ↦ none | some value ↦ value ]

-- `str::strip_prefix`
abbrev pub strip_prefix : Text → Text → Option Text
strip_prefix [] s = some s
strip_prefix (p ∷ prefix) [] = none
strip_prefix (p ∷ prefix) (c ∷ s) =
    let rest = strip_prefix prefix s in if p == c then rest else none

-- The loop over the pairs of a cookie header, which returns at the second value.
unfoldable pub find_cookie : Text → Option Text → List Text → Option Text
find_cookie prefix found [] = found
find_cookie prefix found (pair ∷ pairs) = elim (strip_prefix prefix (trim pair)) [
  | none ↦ find_cookie prefix found pairs
  | some value ↦ elim found [ some v ↦ none | none ↦ find_cookie prefix (some value) pairs ]
]

-- The bytes after `bearer` decide: a space or a tab ends the scheme.
abbrev after_scheme : Text → Text → Text
after_scheme trimmed [] = trimmed
after_scheme trimmed (c ∷ rest) = if c == 32 || c == 9 then trim_start rest else trimmed

unfoldable pub strip_bearer_prefix : Text → Text
strip_bearer_prefix s =
    let trimmed = trim_start s in
    elim (strip_ignoring_case (codes "bearer") trimmed) [
      | none ↦ trimmed
      | some rest ↦ after_scheme trimmed rest
    ]

unfoldable pub extract_token : TokenSource → HeaderMap → Option Text
unfolding find_cookie strip_bearer_prefix
extract_token bearer_header headers = elim (header_text headers (codes "authorization")) [
  | none ↦ none
  | some value ↦ extract_bearer_token value
]
extract_token (cookie name) headers = elim (header_text headers (codes "cookie")) [
  | none ↦ none
  | some cookies ↦ find_cookie (name ++ codes "=") none (split 59 cookies)
]
extract_token (header name) headers = elim (header_text headers name) [
  | none ↦ none
  | some raw ↦ some (strip_bearer_prefix raw)
]

-- All the values that the pairs give the cookie, in order.
abbrev pub cookie_values : Text → List Text → List Text
cookie_values prefix [] = []
cookie_values prefix (pair ∷ pairs) = elim (strip_prefix prefix (trim pair)) [
  | none ↦ cookie_values prefix pairs
  | some value ↦ value ∷ cookie_values prefix pairs
]

-- The only item of a list.
abbrev pub only : List Text → Option Text
only [] = none
only (v ∷ []) = some v
only (v ∷ w ∷ vs) = none

abbrev pushed : Option Text → List Text → List Text
pushed none vs = vs
pushed (some v) vs = v ∷ vs

only_two : (v w : Text) (vs : List Text) → only (v ∷ w ∷ vs) ≡ none
only_two v w vs = refl

only-pushed_nil : (found : Option Text) → only (pushed found []) ≡ found
only-pushed_nil none = refl
only-pushed_nil (some v) = refl

find_cookie-only :
    (prefix : Text) (found : Option Text) (pairs : List Text)
    → find_cookie prefix found pairs ≡ only (pushed found (cookie_values prefix pairs))
unfolding find_cookie
find_cookie-only prefix found [] = sym (only-pushed_nil found)
find_cookie-only prefix none (pair ∷ pairs) =
    elim (Option-cases (strip_prefix prefix (trim pair))) [
      | inl other ↦ rw (other, find_cookie, cookie_values) (find_cookie-only prefix none pairs)
      | inr (value, e) ↦
          rw (e, find_cookie, cookie_values) (find_cookie-only prefix (some value) pairs)
    ]
find_cookie-only prefix (some v) (pair ∷ pairs) =
    elim (Option-cases (strip_prefix prefix (trim pair))) [
      | inl other ↦ rw (other, find_cookie, cookie_values) (find_cookie-only prefix (some v) pairs)
      | inr (value, e) ↦ rw (e, find_cookie, cookie_values) refl
    ]

abbrev pub only_cookie : Text → Option Text → Option Text
only_cookie prefix none = none
only_cookie prefix (some cookies) = only (cookie_values prefix (split 59 cookies))

-- A cookie source gives the one value that the header's pairs have for the cookie, and nothing where
-- they have none or several, or where there is no cookie header.
extract_token-cookie :
    (name : Text) (headers : HeaderMap)
    → extract_token (cookie name) headers
      ≡ only_cookie (name ++ codes "=") (header_text headers (codes "cookie"))
unfolding extract_token
extract_token-cookie name headers = elim (Option-cases (header_text headers (codes "cookie"))) [
  | inl e ↦ rw (e, extract_token, only_cookie) refl
  | inr (cookies, e) ↦
      rw (e, extract_token, only_cookie)
        (find_cookie-only (name ++ codes "=") none (split 59 cookies))
]
