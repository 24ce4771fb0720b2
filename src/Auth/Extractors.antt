-- ===== src/Auth/Extractors.antt =====
-- rusty-gasket/src/auth/extractors.rs: the extractors that guard a handler. Each is what it finds in
-- the request's extensions, or the response that is sent in the handler's place.
use rusty_gasket.Common.{
  Bool, true, false, ◌++◌, Option, none, some, ◌≡◌, refl, ◌↔◌, ◌⊎◌, inl, inr, arith, if◌then◌else◌,
  Bool-cases, Option-cases, same_of_some, ap, sym, ◌∙◌,
}
use rusty_gasket.Common.Text.{Text, codes}
use rusty_gasket.Http.{Response, quick_error_response, finalize_error_response}
use rusty_gasket.Auth.Identity.{Identity, has_scope}
use rusty_gasket.Auth.Middleware.{Extensions}

pub data Extracted (Body : Type 0) : Type 0 where
  granted : Identity → Extracted Body
  rejected : Response Body → Extracted Body

-- `AuthRequired` and `AuthorizationRequired`, as responses.
abbrev pub auth_required : {Body : Type 0} → Text → Response Body
auth_required cid =
    quick_error_response cid 401 (codes "AUTHENTICATION_REQUIRED")
      (codes "Missing or invalid credentials. Authentication is required for this endpoint.")

abbrev pub authorization_required : {Body : Type 0} → Text → Text → Text → Response Body
authorization_required cid code message = quick_error_response cid 403 code message

-- `OptionalIdentity`
unfoldable pub optional_identity : Extensions → Option Identity
optional_identity x = elim x.auth_context [ none ↦ none | some c ↦ c.identity ]

-- `Authenticated`; `CurrentUser` is the same.
unfoldable pub authenticated_identity : {Body : Type 0} → Text → Extensions → Extracted Body
authenticated_identity cid x = elim x.auth_context [
  | none ↦ rejected (auth_required cid)
  | some c ↦ elim c.identity [ none ↦ rejected (auth_required cid) | some i ↦ granted i ]
]

-- What the three guards do with an authenticated identity.
unfoldable pub guarded :
    {Body : Type 0} → Text → (Identity → Bool) → Text → Text → Extensions → Extracted Body
unfolding authenticated_identity
guarded cid test code message x = elim (authenticated_identity cid x) [
  | rejected r ↦ rejected r
  | granted i ↦ if test i then granted i else rejected (authorization_required cid code message)
]

unfoldable pub require_scope : {Body : Type 0} → Text → Text → Extensions → Extracted Body
unfolding guarded
require_scope cid scope x =
    guarded cid (λ i. has_scope i scope) (codes "MISSING_SCOPE")
      (codes "Missing required scope '" ++ scope ++ codes "'.") x

unfoldable pub require_service_account : {Body : Type 0} → Text → Extensions → Extracted Body
unfolding guarded
require_service_account cid x =
    guarded cid Identity.service_account (codes "SERVICE_ACCOUNT_REQUIRED")
      (codes "This endpoint requires a service account.") x

unfoldable pub superuser_only : {Body : Type 0} → Text → Extensions → Extracted Body
unfolding guarded
superuser_only cid x =
    guarded cid Identity.privileged (codes "SUPERUSER_REQUIRED")
      (codes "This endpoint requires a privileged identity.") x

rejected_same : {Body : Type 0} {r s : Response Body} → rejected r ≡ rejected s → r ≡ s
rejected_same {r = r} p = ap (λ e. elim e [ granted i ↦ r | rejected t ↦ t ]) p

module _ {Body : Type 0} (cid : Text) (x : Extensions) where
  -- What the source of an identity is for all of the extractors.
  authenticated_identity-optional :
      (authenticated_identity {Body = Body} cid x ≡ rejected (auth_required cid))
        × (optional_identity x ≡ none)
      ⊎ (i : Identity) × (authenticated_identity {Body = Body} cid x ≡ granted i)
        × (optional_identity x ≡ some i)
  unfolding authenticated_identity optional_identity
  authenticated_identity-optional = elim (Option-cases x.auth_context) [
    | inl e ↦ inl (rw (e, authenticated_identity) refl, rw (e, optional_identity) refl)
    | inr (c, e) ↦ elim (Option-cases c.identity) [
      | inl e' ↦ inl (rw (e, authenticated_identity, e') refl, rw (e, optional_identity) e')
      | inr (i, e') ↦ inr (i, rw (e, authenticated_identity, e') refl, rw (e, optional_identity) e')
    ]
  ]

  guarded-granted :
      (test : Identity → Bool) (code message : Text) (i : Identity)
      → (guarded {Body = Body} cid test code message x ≡ granted i)
        ↔ ((optional_identity x ≡ some i) × (test i ≡ true))
  unfolding guarded
  guarded-granted test code message i = elim authenticated_identity-optional [
    | inl (refused, missing) ↦
        rw (refused, missing, guarded)
          (λ h. absurd (ground arith), λ h. absurd (ground (arith, h.0)))
    | inr (j, found, there) ↦ elim (Bool-cases (test j)) [
      | inl holds ↦
          rw (found, there, guarded, holds)
            (
              λ h. let same : j ≡ i = ground arith in (ap some same, ap test (sym same) ∙ holds),
              λ h. ap granted (same_of_some h.0),
            )
      | inr fails ↦
          rw (found, there, guarded, fails)
            (
              λ h. absurd (ground arith),
              λ h.
                  let same : j ≡ i = same_of_some h.0 in
                  let holds : test j ≡ true = ap test same ∙ h.1 in absurd (ground arith),
            )
    ]
  ]

  -- Each guard hands a handler exactly the identity of the middleware, and only one that has what
  -- the guard is named for: the scope, a service account, or privilege.
  pub guards-granted :
      (i : Identity)
      → ((authenticated_identity {Body = Body} cid x ≡ granted i) ↔ (optional_identity x ≡ some i))
        × ((scope : Text)
            → (require_scope {Body = Body} cid scope x ≡ granted i)
              ↔ ((optional_identity x ≡ some i) × (has_scope i scope ≡ true)))
        × ((require_service_account {Body = Body} cid x ≡ granted i)
            ↔ ((optional_identity x ≡ some i) × (i.service_account ≡ true)))
        × ((superuser_only {Body = Body} cid x ≡ granted i)
            ↔ ((optional_identity x ≡ some i) × (i.privileged ≡ true)))
  unfolding require_scope require_service_account superuser_only
  guards-granted i = (
    elim authenticated_identity-optional [
      | inl (refused, missing) ↦
          rw (refused, missing) (λ h. absurd (ground arith), λ h. absurd (ground arith))
      | inr (j, found, there) ↦ rw (found, there) (λ h. ground arith, λ h. ground arith)
    ],
    λ scope. guarded-granted (λ i. has_scope i scope) _ _ i,
    guarded-granted Identity.service_account _ _ i,
    guarded-granted Identity.privileged _ _ i,
  )

  -- A guard that refuses answers 401 to a request with no identity and 403 to one with an identity.
  pub guarded-rejected :
      (test : Identity → Bool) (code message : Text) (r : Response Body)
      → guarded cid test code message x ≡ rejected r
      → (optional_identity x ≡ none) × (r.status ≡ 401)
        ⊎ (i : Identity) × (optional_identity x ≡ some i) × (test i ≡ false) × (r.status ≡ 403)
  unfolding guarded quick_error_response finalize_error_response
  guarded-rejected test code message r h = elim authenticated_identity-optional [
    | inl (refused, missing) ↦
        let same : auth_required cid ≡ r = rejected_same (rw (refused, guarded) at h) in
        inl (missing, ap Response.status (sym same))
    | inr (j, found, there) ↦ elim (Bool-cases (test j)) [
      | inl holds ↦ absurd (let out = rw (found, guarded, holds) at h in ground arith)
      | inr fails ↦
          let same : authorization_required cid code message ≡ r =
            rejected_same (rw (found, guarded, fails) at h) in
          inr (j, there, fails, ap Response.status (sym same))
    ]
  ]
