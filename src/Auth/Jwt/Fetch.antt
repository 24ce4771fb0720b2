-- ===== src/Auth/Jwt/Fetch.antt =====
-- rusty-gasket/src/auth/backends/jwt.rs: `JwksKeyStore::fetch_jwks`, and `JwksError`. What the
-- endpoint sends is the value `HttpReply`; a failure of the HTTP client is its text.
use rusty_gasket.Common.{
  ℕ, ◌+◌, ◌-◌, ◌^◌, ◌≤◌, ◌<◌, min, ◌≡◌, refl, ◌⊎◌, inl, inr, ◌↔◌, ap, sym, ◌∙◌, Bool, false, ◌&&◌,
  List, [], ◌∷◌, ◌++◌, arith, ltb, leb, if◌then◌else◌, length, length-append, Bool-cases,
}
use mathlib.Core.List.{append-nil, append_assoc}
use rusty_gasket.Common.Text.{Text, codes}
use rusty_gasket.Auth.Errors.{AuthError, backend_error}
use rusty_gasket.Auth.Jwt.{Jwk, Libraries}

pub data JwksError : Type 0 where
  http_status body_too_large : ℕ → JwksError
  fetch_task : Text → JwksError

pub data Chunk : Type 0 where
  chunk : List ℕ → Chunk
  broken : Text → Chunk

pub data HttpReply : Type 0 where
  send_failed : Text → HttpReply
  reply : ℕ → List Chunk → HttpReply

abbrev pub is_success : ℕ → Bool
is_success status = leb 200 status && leb status 299

abbrev pub usize_max : ℕ
usize_max = 2 ^ 64 - 1

-- `usize::saturating_add`
abbrev pub saturating_add : ℕ → ℕ → ℕ
saturating_add a b = min (a + b) usize_max

-- The loop over the chunks, with the body so far.
unfoldable pub read_body : ℕ → List ℕ → List Chunk → List ℕ ⊎ (JwksError ⊎ Text)
read_body max_bytes body [] = inl body
read_body max_bytes body (broken e ∷ chunks) = inr (inr e)
read_body max_bytes body (chunk bytes ∷ chunks) =
    let rest = read_body max_bytes (body ++ bytes) chunks in
    if ltb max_bytes (saturating_add (length body) (length bytes))
    then inr (inl (body_too_large max_bytes))
    else rest

module _ {Key Material : Type 0} (lib : Libraries Key Material) where
  -- `Display`
  abbrev pub jwks_error_text : JwksError → Text
  jwks_error_text (http_status status) =
      codes "JWKS endpoint returned HTTP " ++ lib.status_text status
  jwks_error_text (body_too_large max_bytes) =
      codes "JWKS response exceeds maximum body size of "
      ++ (lib.usize_text max_bytes ++ codes " bytes")
  jwks_error_text (fetch_task e) = codes "JWKS fetch task did not complete: " ++ e

  abbrev pub fetch_error : JwksError ⊎ Text → AuthError
  fetch_error (inl e) = backend_error (jwks_error_text e)
  fetch_error (inr e) = backend_error e

  abbrev pub parse_body : List ℕ ⊎ (JwksError ⊎ Text) → List (Jwk Material) ⊎ AuthError
  parse_body (inr e) = inr (fetch_error e)
  parse_body (inl body) = elim (lib.from_slice body) [
    | inl jwks ↦ inl jwks
    | inr e ↦ inr (backend_error e)
  ]

  unfoldable pub fetch_jwks : ℕ → HttpReply → List (Jwk Material) ⊎ AuthError
  unfolding read_body
  fetch_jwks max_bytes (send_failed e) = inr (backend_error e)
  fetch_jwks max_bytes (reply status chunks) =
      if is_success status
      then parse_body (read_body max_bytes [] chunks)
      else inr (fetch_error (inl (http_status status)))

-- The bytes of chunks that all arrived.
abbrev pub bytes_of : List Chunk → List ℕ ⊎ Text
bytes_of [] = inl []
bytes_of (broken e ∷ chunks) = inr e
bytes_of (chunk bytes ∷ chunks) = elim (bytes_of chunks) [
  | inl rest ↦ inl (bytes ++ rest)
  | inr e ↦ inr e
]

bytes_of_cases :
    (r : List ℕ ⊎ Text) → ((rest : List ℕ) × (r ≡ inl rest)) ⊎ ((e : Text) × (r ≡ inr e))
bytes_of_cases (inl rest) = inl (rest, refl)
bytes_of_cases (inr e) = inr (e, refl)

list_same : {xs ys : List ℕ} → ◌≡◌ {A = List ℕ ⊎ (JwksError ⊎ Text)} (inl xs) (inl ys) → xs ≡ ys
list_same {xs = xs} p = ap (λ r. elim r [ inl zs ↦ zs | inr e ↦ xs ]) p

bytes_same : {xs ys : List ℕ} → ◌≡◌ {A = List ℕ ⊎ Text} (inl xs) (inl ys) → xs ≡ ys
bytes_same {xs = xs} p = ap (λ r. elim r [ inl zs ↦ zs | inr e ↦ xs ]) p

bytes_of-chunk :
    (bytes : List ℕ) (chunks : List Chunk) (rest : List ℕ)
    → bytes_of chunks ≡ inl rest
    → bytes_of (chunk bytes ∷ chunks) ≡ inl (bytes ++ rest)
bytes_of-chunk bytes chunks rest e = rw (e, bytes_of) refl

read_body-bytes :
    (max_bytes : ℕ) (body : List ℕ) (chunks : List Chunk) (whole : List ℕ)
    → max_bytes < usize_max
    → length body ≤ max_bytes
    → read_body max_bytes body chunks ≡ inl whole
    → (rest : List ℕ) × (bytes_of chunks ≡ inl rest)
      × (whole ≡ body ++ rest)
      × (length whole ≤ max_bytes)
unfolding read_body
read_body-bytes m body [] whole h b e =
    let same : body ≡ whole = list_same e in
    ([], refl, sym same ∙ sym (append-nil body), rw (← same) b)
read_body-bytes m body (broken x ∷ chunks) whole h b e = absurd (ground arith)
read_body-bytes m body (chunk bytes ∷ chunks) whole h b e =
    elim (Bool-cases (ltb m (saturating_add (length body) (length bytes)))) [
      | inl over ↦ let clash = rw over at e in absurd (ground arith)
      | inr fits ↦
          let (rest, arrived, split, bound) =
            read_body-bytes m (body ++ bytes) chunks whole h
              (ground (arith, length-append body bytes)) (rw fits at e) in
          (
            bytes ++ rest,
            bytes_of-chunk bytes chunks rest arrived,
            split ∙ append_assoc body bytes rest,
            bound,
          )
    ]

read_body_of_bytes :
    (max_bytes : ℕ) (body : List ℕ) (chunks : List Chunk) (rest : List ℕ)
    → bytes_of chunks ≡ inl rest
    → length (body ++ rest) ≤ max_bytes
    → read_body max_bytes body chunks ≡ inl (body ++ rest)
unfolding read_body
read_body_of_bytes m body [] rest e b =
    ap inl (sym (append-nil body) ∙ ap (λ r. body ++ r) (bytes_same e))
read_body_of_bytes m body (broken x ∷ chunks) rest e b = absurd (ground arith)
read_body_of_bytes m body (chunk bytes ∷ chunks) rest e b =
    elim (bytes_of_cases (bytes_of chunks)) [
      | inr (x, failed) ↦ let clash = rw (failed, bytes_of) at e in absurd (ground arith)
      | inl (later, arrived) ↦
          let same : bytes ++ later ≡ rest =
            bytes_same (sym (bytes_of-chunk bytes chunks later arrived) ∙ e) in
          let whole : (body ++ bytes) ++ later ≡ body ++ rest =
            append_assoc body bytes later ∙ ap (λ r. body ++ r) same in
          let bound : length ((body ++ bytes) ++ later) ≤ m = rw whole b in
          let fits : ltb m (saturating_add (length body) (length bytes)) ≡ false =
            ground (arith, length-append body bytes, length-append (body ++ bytes) later) in
          rw fits (read_body_of_bytes m (body ++ bytes) chunks later arrived bound ∙ ap inl whole)
    ]

-- The body of the endpoint is read exactly when all its chunks arrive and hold at most the
-- configured number of bytes together, and then it is their bytes in order. The configured number is
-- below the largest `usize`.
pub read_body-bounded :
    (max_bytes : ℕ) (chunks : List Chunk) (whole : List ℕ)
    → max_bytes < usize_max
    → (read_body max_bytes [] chunks ≡ inl whole)
      ↔ ((bytes_of chunks ≡ inl whole) × (length whole ≤ max_bytes))
read_body-bounded m chunks whole h = (
  λ e.
      let (rest, arrived, split, bound) = read_body-bytes m [] chunks whole h (omega arith) e in
      (arrived ∙ ap inl (sym split), bound),
  λ p. read_body_of_bytes m [] chunks whole p.0 p.1,
)
