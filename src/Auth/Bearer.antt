-- ===== src/Auth/Bearer.antt =====
-- rusty-gasket/src/auth/backend.rs, `extract_bearer_token`, and auth/backends/static_bearer.rs. The
-- comparison in constant time, `ct_eq`, is the subtle crate's.
use rusty_gasket.Common.{
  ℕ, ◌≡◌, refl, ◌≢◌, ◌↔◌, inl, inr, Bool, true, false, ◌&&◌, [], ◌∷◌, ◌++◌, Option, none, some,
  arith, if◌then◌else◌, ◌==◌, length, ap, sym, ◌∙◌, ==_iff, Bool-cases, Option-cases, same_of_some,
}
use rusty_gasket.Common.Text.{Text, codes, text_eq, text_eq_iff}
use rusty_gasket.Common.Chars.{to_ascii_lowercase, lowercase}
use rusty_gasket.Auth.Identity.{Identity, new_identity}
use rusty_gasket.Auth.Errors.{invalid_credentials}
use rusty_gasket.Auth.Chain.{AuthOutcome, ok, err}

-- The text after a prefix that is compared with `eq_ignore_ascii_case`.
abbrev pub strip_ignoring_case : Text → Text → Option Text
strip_ignoring_case [] s = some s
strip_ignoring_case (p ∷ ps) [] = none
strip_ignoring_case (p ∷ ps) (c ∷ s) =
    let rest = strip_ignoring_case ps s in
    if to_ascii_lowercase p == to_ascii_lowercase c then rest else none

unfoldable pub extract_bearer_token : Text → Option Text
extract_bearer_token header_value = strip_ignoring_case (codes "Bearer ") header_value

pub record StaticBearerBackend : Type 0 where
  pub token : Text
  pub subject : Text
  pub service_account : Bool
  pub privileged : Bool

abbrev pub new_static_bearer : Text → StaticBearerBackend
new_static_bearer token = record {
  token = token;
  subject = codes "static-bearer";
  service_account = false;
  privileged = false;
}

abbrev pub static_identity : StaticBearerBackend → Identity
static_identity b = record (new_identity b.subject (codes "static-bearer")) {
  service_account = b.service_account;
  privileged = b.privileged;
}

-- What is done with a presented token.
unfoldable pub judge_token : (Text → Text → Bool) → StaticBearerBackend → Text → AuthOutcome
judge_token ct_eq b presented =
    if length presented == length b.token && ct_eq presented b.token
    then ok (some (static_identity b))
    else err (invalid_credentials (codes "static bearer token mismatch"))

-- The `Authorization` header, when it is there, and its text, when `to_str` gives one.
unfoldable pub authenticate_static :
    (Text → Text → Bool) → StaticBearerBackend → Option (Option Text) → AuthOutcome
unfolding extract_bearer_token judge_token
authenticate_static ct_eq b none = ok none
authenticate_static ct_eq b (some none) = ok none
authenticate_static ct_eq b (some (some value)) = elim (extract_bearer_token value) [
  | none ↦ ok none
  | some presented ↦ judge_token ct_eq b presented
]

abbrev tail_of : Text → Text
tail_of [] = []
tail_of (c ∷ s) = s

abbrev head_or : ℕ → Text → ℕ
head_or d [] = d
head_or d (c ∷ s) = c

pub strip_ignoring_case-split :
    (prefix s t : Text)
    → (strip_ignoring_case prefix s ≡ some t)
      ↔ ((scheme : Text) × (s ≡ scheme ++ t) × (lowercase scheme ≡ lowercase prefix))
strip_ignoring_case-split [] s t = (λ h. ([], same_of_some h, refl), λ h. elim_empty h.0 h.1 h.2)
  where
    elim_empty : (scheme : Text) → s ≡ scheme ++ t → lowercase scheme ≡ [] → some s ≡ some t
    elim_empty [] e l = ap some e
    elim_empty (c ∷ scheme) e l = absurd (ground arith)
strip_ignoring_case-split (p ∷ ps) [] t =
    (λ h. absurd (ground arith), λ h. absurd (no_scheme h.0 h.1 h.2))
  where
    no_scheme : (scheme : Text) → [] ≡ scheme ++ t → lowercase scheme ≡ lowercase (p ∷ ps) → ⊥
    no_scheme [] e l = ground arith
    no_scheme (c ∷ scheme) e l = ground arith
strip_ignoring_case-split (p ∷ ps) (c ∷ s) t =
    elim (Bool-cases (to_ascii_lowercase p == to_ascii_lowercase c)) [
      | inl matched ↦
          let same : to_ascii_lowercase p ≡ to_ascii_lowercase c = (==_iff _ _).0 matched in
          rw matched (
            λ h.
                let (scheme, split, lower) = (strip_ignoring_case-split ps s t).0 h in
                (
                  c ∷ scheme,
                  ap (◌∷◌ c) split,
                  ap (λ x. x ∷ lowercase scheme) (sym same) ∙ ap (◌∷◌ (to_ascii_lowercase p)) lower,
                ),
            λ h. next (strip_ignoring_case-split ps s t).1 h.0 h.1 h.2,
          )
      | inr other ↦ rw other (λ h. absurd (ground arith), λ h. absurd (clash other h.0 h.1 h.2))
    ]
  where
    next :
        (((scheme : Text) × (s ≡ scheme ++ t) × (lowercase scheme ≡ lowercase ps))
          → strip_ignoring_case ps s ≡ some t)
        → (scheme : Text) → c ∷ s ≡ scheme ++ t
        → lowercase scheme ≡ lowercase (p ∷ ps)
        → strip_ignoring_case ps s ≡ some t
    next back [] split lower = absurd (ground arith)
    next back (d ∷ scheme) split lower = back (scheme, ap tail_of split, ap tail_of lower)

    clash :
        (to_ascii_lowercase p == to_ascii_lowercase c) ≡ false
        → (scheme : Text) → c ∷ s ≡ scheme ++ t
        → lowercase scheme ≡ lowercase (p ∷ ps)
        → ⊥
    clash other [] split lower = ground arith
    clash other (d ∷ scheme) split lower =
        let heads : c ≡ d = ap (head_or c) split in
        let lowers : to_ascii_lowercase d ≡ to_ascii_lowercase p = ap (head_or 0) lower in
        let same : to_ascii_lowercase p ≡ to_ascii_lowercase c =
          sym (ap to_ascii_lowercase heads ∙ lowers) in
        let equal : (to_ascii_lowercase p == to_ascii_lowercase c) ≡ true = (==_iff _ _).1 same in
        cc

-- A header value has a bearer token exactly when it is the token after `Bearer `, in any case.
pub extract_bearer_token-scheme :
    (value t : Text)
    → (extract_bearer_token value ≡ some t)
      ↔ ((scheme : Text) × (value ≡ scheme ++ t) × (lowercase scheme ≡ codes "bearer "))
unfolding extract_bearer_token
extract_bearer_token-scheme value t = strip_ignoring_case-split (codes "Bearer ") value t

identity_same : (i j : Identity) → ok (some i) ≡ ok (some j) → i ≡ j
identity_same i j p = ap (λ o. elim o [ ok (some k) ↦ k | _ ↦ i ]) p

module _ (ct_eq : Text → Text → Bool)
    (exact : (a b : Text) → length a ≡ length b → (ct_eq a b ≡ true) ↔ (a ≡ b)) where
  judge_token_match :
      (b : StaticBearerBackend) → judge_token ct_eq b b.token ≡ ok (some (static_identity b))
  unfolding judge_token
  judge_token_match b = let same = (exact b.token b.token refl).1 refl in ground arith

  judge_token_mismatch :
      (b : StaticBearerBackend) (t : Text)
      → t ≢ b.token
      → judge_token ct_eq b t ≡ err (invalid_credentials (codes "static bearer token mismatch"))
  unfolding judge_token
  judge_token_mismatch b t other =
      elim (Bool-cases (length t == length b.token && ct_eq t b.token)) [
        | inl matched ↦
            let sizes : length t ≡ length b.token = ground arith in
            absurd (other ((exact t b.token sizes).0 (ground arith)))
        | inr apart ↦ rw apart refl
      ]

  -- The backend accepts a request exactly when its header is `Bearer `, in any case, and the secret.
  authenticate_static-accepts :
      (b : StaticBearerBackend) (header : Option (Option Text)) (i : Identity)
      → (authenticate_static ct_eq b header ≡ ok (some i)) ↔ (
          (i ≡ static_identity b)
          × ((value : Text) × (header ≡ some (some value))
              × (extract_bearer_token value ≡ some b.token)))
  unfolding authenticate_static
  authenticate_static-accepts b none i =
      (λ h. absurd (ground arith), λ h. absurd (ground (arith, h.1.1)))
  authenticate_static-accepts b (some none) i =
      (λ h. absurd (ground arith), λ h. absurd (ground (arith, h.1.1)))
  authenticate_static-accepts b (some (some value)) i = (
    λ h. elim (Option-cases (extract_bearer_token value)) [
      | inl missing ↦ let out = rw (missing, authenticate_static) at h in absurd (ground arith)
      | inr (t, found) ↦ elim (Bool-cases (text_eq t b.token)) [
        | inl matched ↦
            let same : t ≡ b.token = (text_eq_iff t b.token).0 matched in
            let accepted = rw (found, authenticate_static, same, judge_token_match b) at h in
            (
              identity_same i (static_identity b) (sym accepted),
              (value, refl, found ∙ ap some same),
            )
        | inr other ↦
            let apart : t ≢ b.token = λ e. let m = (text_eq_iff t b.token).1 e in cc in
            let out = rw (found, authenticate_static, judge_token_mismatch b t apart) at h in
            absurd (ground arith)
      ]
    ],
    λ h.
        let same : value ≡ h.1.0 = same_of_some (same_of_some h.1.1) in
        let found : extract_bearer_token value ≡ some b.token =
          ap extract_bearer_token same ∙ h.1.2 in
        rw (found, authenticate_static) (judge_token_match b ∙ ap (λ j. ok (some j)) (sym h.0)),
  )

  -- A bearer token that is not the secret is an error, so that no later backend is asked.
  pub authenticate_static-mismatch :
      (b : StaticBearerBackend) (value t : Text)
      → extract_bearer_token value ≡ some t
      → t ≢ b.token
      → authenticate_static ct_eq b (some (some value))
        ≡ err (invalid_credentials (codes "static bearer token mismatch"))
  unfolding authenticate_static
  authenticate_static-mismatch b value t found other =
      rw (found, authenticate_static) (judge_token_mismatch b t other)
