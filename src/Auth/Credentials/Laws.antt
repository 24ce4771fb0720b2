-- ===== src/Auth/Credentials/Laws.antt =====
-- rusty-gasket/src/auth/backends/basic_auth.rs: which requests the backend accepts.
use rusty_gasket.Common.{
  ◌≡◌, refl, ◌↔◌, inl, inr, ap, sym, ◌∙◌, Bool, true, false, ◌&&◌, [], ◌∷◌, ◌++◌, Option, none,
  some, arith, ◌==◌, ==_iff, mem, Bool-cases, Option-cases,
}
use rusty_gasket.Common.Text.{Text, codes}
use rusty_gasket.Common.Chars.{trim, lowercase, byte_len}
use rusty_gasket.Auth.Identity.{Identity}
use rusty_gasket.Auth.Chain.{AuthOutcome, ok}
use rusty_gasket.Auth.Bearer.{strip_ignoring_case, strip_ignoring_case-split}
use rusty_gasket.Auth.Jwt.Tokens.{HeaderMap, header_text}
use rusty_gasket.Auth.Credentials.{
  split_once, extract_basic_credentials, BasicAuthBackend, basic_identity, same_secret,
  judge_credentials, authenticate_basic,
}

first_of : Text × Text → Option (Text × Text) → Text × Text
first_of d none = d
first_of d (some x) = x

Pair-same :
    {u p v q : Text}
    → ◌≡◌ {A = Option (Text × Text)} (some (u, p)) (some (v, q))
    → (u ≡ v) × (p ≡ q)
unfolding first_of
Pair-same {u} {p} e = (ap (λ o. (first_of (u, p) o).0) e, ap (λ o. (first_of (u, p) o).1) e)

split_once-join :
    (s u p : Text) → split_once s ≡ some (u, p) → (s ≡ u ++ 58 ∷ p) × (mem 58 u ≡ false)
unfolding split_once
split_once-join [] u p h = absurd (ground arith)
split_once-join (c ∷ s) u p h = elim (Bool-cases (c == 58)) [
  | inl colon ↦
      let same : c ≡ 58 = (==_iff c 58).0 colon in
      let (eu, ep) = Pair-same {u = []} {p = s} (rw colon at h) in
      rw (← eu, ← ep, same) (refl, refl)
  | inr other ↦ elim (Option-cases (split_once s)) [
    | inl absent ↦ let clash = rw (other, absent) at h in absurd (ground arith)
    | inr ((a, b), found) ↦
        let (eu, ep) = Pair-same {u = c ∷ a} {p = b} (rw (other, found) at h) in
        let below = split_once-join s a b found in
        rw (← eu, ← ep) (ap (◌∷◌ c) below.0, ground (arith, below.1))
  ]
]

split_once-append : (u p : Text) → mem 58 u ≡ false → split_once (u ++ 58 ∷ p) ≡ some (u, p)
unfolding split_once
split_once-append [] p h = refl
split_once-append (c ∷ u) p h =
    let other : (c == 58) ≡ false = ground arith in
    rw (other, split_once-append u p (ground arith)) refl

-- What the value of an accepted header is, told without the parser: the scheme in any case, and
-- after it, trimmed and decoded, the username, a colon and the password.
abbrev pub IsBasic : (Text → Option Text) → BasicAuthBackend → Text → Type 0
IsBasic decode b value =
    (scheme : Text) × (encoded : Text) × (value ≡ scheme ++ encoded)
    × (lowercase scheme ≡ codes "basic ")
    × (decode (trim encoded) ≡ some (b.username ++ 58 ∷ b.password))
    × (mem 58 b.username ≡ false)

extract_basic_credentials-IsBasic :
    (decode : Text → Option Text) (b : BasicAuthBackend) (value : Text)
    → (extract_basic_credentials decode value ≡ some (b.username, b.password))
      ↔ IsBasic decode b value
unfolding extract_basic_credentials
extract_basic_credentials-IsBasic decode b value = (
  λ h. elim (Option-cases (strip_ignoring_case (codes "Basic ") value)) [
    | inl other ↦ let clash = rw (other, extract_basic_credentials) at h in absurd (ground arith)
    | inr (encoded, stripped) ↦
        let (scheme, split, lower) =
          (strip_ignoring_case-split (codes "Basic ") value encoded).0 stripped in
        let rest = rw (stripped, extract_basic_credentials) at h in
        elim (Option-cases (decode (trim encoded))) [
          | inl bad ↦ let clash = rw bad at rest in absurd (ground arith)
          | inr (decoded, good) ↦
              let (joined, no_colon) =
                split_once-join decoded b.username b.password (rw good at rest) in
              (scheme, encoded, split, lower, good ∙ ap some joined, no_colon)
        ]
  ],
  λ h.
      let (scheme, encoded, split, lower, good, no_colon) = h in
      let stripped =
        (strip_ignoring_case-split (codes "Basic ") value encoded).1 (scheme, split, lower) in
      rw (stripped, extract_basic_credentials, good)
        (split_once-append b.username b.password no_colon),
)

module _ (ct_eq : Text → Text → Bool)
    (exact : (a b : Text) → byte_len a ≡ byte_len b → (ct_eq a b ≡ true) ↔ (a ≡ b)) where
  same_secret_iff : (a b : Text) → (same_secret ct_eq a b ≡ true) ↔ (a ≡ b)
  same_secret_iff a b = (
    λ h. let sizes : byte_len a ≡ byte_len b = ground arith in (exact a b sizes).0 (ground arith),
    λ e.
        let sizes : byte_len a ≡ byte_len b = ap byte_len e in
        let equal = (exact a b sizes).1 e in ground arith,
  )

  identity_of : Identity → AuthOutcome → Identity
  identity_of d (ok (some i)) = i
  identity_of d _ = d

  judge_credentials-accepts :
      (b : BasicAuthBackend) (presented : Option (Text × Text)) (i : Identity)
      → (judge_credentials ct_eq b presented ≡ ok (some i))
        ↔ ((i ≡ basic_identity b) × (presented ≡ some (b.username, b.password)))
  unfolding judge_credentials identity_of
  judge_credentials-accepts b none i =
      (λ h. absurd (ground arith), λ h. absurd (ground (arith, h.1)))
  judge_credentials-accepts b (some (u, p)) i = (
    λ h. elim (Bool-cases (same_secret ct_eq u b.username && same_secret ct_eq p b.password)) [
      | inr bad ↦ let clash = rw bad at h in absurd (ground arith)
      | inl good ↦
          let users = (same_secret_iff u b.username).0 (ground arith) in
          let passwords = (same_secret_iff p b.password).0 (ground arith) in
          (ap (identity_of i) (sym (rw good at h)), rw (users, passwords) refl)
    ],
    λ h.
        let (users, passwords) = Pair-same {u = u} {p = p} h.1 in
        let good : (same_secret ct_eq u b.username && same_secret ct_eq p b.password) ≡ true =
          let first = (same_secret_iff u b.username).1 users in
          let second = (same_secret_iff p b.password).1 passwords in ground arith in
        rw good (ap (λ j. ok (some j)) (sym h.0)),
  )

  -- The basic backend accepts a request exactly when its header is `Basic `, in any case, and text
  -- that decodes to the username, a colon and the password, where the username has no colon itself.
  -- The decoder is any function, and the comparison is exact on texts of one length.
  authenticate_basic-accepts :
      (decode : Text → Option Text) (b : BasicAuthBackend) (headers : HeaderMap) (i : Identity)
      → (authenticate_basic decode ct_eq b headers ≡ ok (some i)) ↔ (
          (i ≡ basic_identity b)
          × ((value : Text) × (header_text headers (codes "authorization") ≡ some value)
              × IsBasic decode b value))
  unfolding authenticate_basic
  authenticate_basic-accepts decode b headers i = (
    λ h. elim (Option-cases (header_text headers (codes "authorization"))) [
      | inl missing ↦ let clash = rw (missing, authenticate_basic) at h in absurd (ground arith)
      | inr (value, there) ↦
          let (identity, credentials) =
            (judge_credentials-accepts b (extract_basic_credentials decode value) i).0
              (rw (there, authenticate_basic) at h) in
          (
            identity,
            (value, there, (extract_basic_credentials-IsBasic decode b value).0 credentials),
          )
    ],
    λ h.
        let (identity, (value, there, basic)) = h in
        rw (there, authenticate_basic)
          ((judge_credentials-accepts b (extract_basic_credentials decode value) i).1
            (identity, (extract_basic_credentials-IsBasic decode b value).1 basic)),
  )
