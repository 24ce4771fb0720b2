-- ===== src/Auth/Middleware/Laws.antt =====
-- What the authentication middleware promises.
use rusty_gasket.Common.{
  Bool, List, [], ◌∷◌, Option, none, some, ◌≡◌, refl, ◌⊎◌, inl, inr, arith, map, if◌then◌else◌,
  Bool-cases, same_of_some, ap, sym,
}
use mathlib.Core.Option
use rusty_gasket.Common.Text.{Text}
use rusty_gasket.Http.{Response}
use rusty_gasket.RateLimit.Subject.{new_subject}
use rusty_gasket.Auth.Identity.{Identity}
use rusty_gasket.Auth.Errors.{
  AuthError, missing_credentials, invalid_credentials, token_expired, token_validation,
  authorization_denied, backend_error, configuration, to_string, into_response,
}
use rusty_gasket.Auth.Chain.{
  AuthOutcome, ok, err, AuthChain, authenticate, reject, authenticate-reject,
}
use rusty_gasket.Auth.Context.{AuthContext}
use rusty_gasket.Auth.Middleware.{
  AuthAuditEvent, Extensions, Request, Ran, auth_middleware, result_of, AuthAuditOutcome, success,
  anonymous_allowed, denied, error, failure_outcome, audit_success_or_anonymous,
  handle_auth_failure,
}

outcome_split :
    (o : AuthOutcome) → ((i : Option Identity) × (o ≡ ok i)) ⊎ ((e : AuthError) × (o ≡ err e))
outcome_split (ok i) = inl (i, refl)
outcome_split (err e) = inr (e, refl)

-- What the audit log has to say of the chain's answer.
abbrev pub recorded : AuthOutcome → AuthAuditOutcome
recorded (ok (some i)) = success
recorded (ok none) = anonymous_allowed
recorded (err (backend_error s)) = error (to_string (backend_error s))
recorded (err (configuration s)) = error (to_string (configuration s))
recorded (err e) = denied (to_string e)

abbrev pub subject_of : AuthOutcome → Option Text
subject_of (ok (some i)) = some i.subject
subject_of o = none

-- What an event says of the outcome.
abbrev pub gist : AuthAuditEvent → AuthAuditOutcome × Option Text
gist event = (event.outcome, event.subject)

failure_gist :
    (e : AuthError)
    → ◌≡◌ {A = List (AuthAuditOutcome × Option Text)}
        ((failure_outcome e, none) ∷ [])
        ((recorded (err e), subject_of (err e)) ∷ [])
failure_gist (missing_credentials s) = refl
failure_gist (invalid_credentials s) = refl
failure_gist token_expired = refl
failure_gist (token_validation s) = refl
failure_gist (authorization_denied s) = refl
failure_gist (backend_error s) = refl
failure_gist (configuration s) = refl

module _ {Raw Body : Type 0} (chain : AuthChain Raw) (audit : Bool) (cid : Text)
    (next : Extensions → Response Body) (r : Request Raw) where
  -- When the chain accepts a request, the rest of the stack runs, its response is returned, and it
  -- finds the chain's identity in the `AuthContext`.
  auth_middleware-accepts :
      (identity : Option Identity)
      → authenticate chain r.raw ≡ ok identity
      → (x : Extensions) × (c : AuthContext) × ((auth_middleware chain audit cid next r).forwarded
          ≡ some x)
        × ((auth_middleware chain audit cid next r).response ≡ next x)
        × (x.auth_context ≡ some c)
        × (c.identity ≡ identity)
        × (c.auth_result ≡ result_of identity)
  unfolding auth_middleware
  auth_middleware-accepts identity h = rw (h, auth_middleware) (_, _, refl, refl, refl, refl, refl)

  -- When the chain rejects a request, nothing behind the middleware runs, and the response is that
  -- of the error.
  auth_middleware-rejects :
      (e : AuthError)
      → authenticate chain r.raw ≡ err e
      → ((auth_middleware chain audit cid next r).forwarded ≡ none)
        × ((auth_middleware chain audit cid next r).response ≡ into_response cid e)
  unfolding auth_middleware
  auth_middleware-rejects e h = rw (h, auth_middleware) (refl, refl)

  -- With a chain that rejects by default, whatever runs behind the middleware has an identity, and
  -- the subject of the rate limiter is that identity's.
  pub auth_middleware-protects :
      chain.fallback ≡ reject
      → (x : Extensions) → (auth_middleware chain audit cid next r).forwarded ≡ some x
      → (i : Identity) × (authenticate chain r.raw ≡ ok (some i))
        × (Option.map AuthContext.identity x.auth_context ≡ some (some i))
        × (x.rate_limit_subject ≡ new_subject i.subject)
  unfolding auth_middleware
  auth_middleware-protects strict x h = elim (outcome_split (authenticate chain r.raw)) [
    | inr (e, rejected) ↦
        let none_ran = rw (rejected, auth_middleware) at h in absurd (ground arith)
    | inl (none, accepted) ↦ absurd (authenticate-reject chain r.raw strict accepted)
    | inl (some i, accepted) ↦
        let ran = rw (accepted, auth_middleware) at h in
        let same = same_of_some ran in
        (
          i,
          accepted,
          ap (λ y. Option.map AuthContext.identity y.auth_context) (sym same),
          ap Extensions.rate_limit_subject (sym same),
        )
  ]

  -- With a logger each request is recorded by exactly one event, which has the outcome and the
  -- subject of the chain's answer; without one nothing is recorded.
  auth_middleware-audit : map gist (auth_middleware chain audit cid next r).audit_events ≡ (
      if audit
      then (recorded (authenticate chain r.raw), subject_of (authenticate chain r.raw)) ∷ []
      else [])
  unfolding auth_middleware audit_success_or_anonymous handle_auth_failure
  auth_middleware-audit = elim (outcome_split (authenticate chain r.raw)) [
    | inl (none, accepted) ↦
        rw (accepted, auth_middleware)
          (elim (Bool-cases audit) [
            | inl on ↦ rw (on, audit_success_or_anonymous) refl
            | inr off ↦ rw (off, audit_success_or_anonymous) refl
          ])
    | inl (some i, accepted) ↦
        rw (accepted, auth_middleware)
          (elim (Bool-cases audit) [
            | inl on ↦ rw (on, audit_success_or_anonymous) refl
            | inr off ↦ rw (off, audit_success_or_anonymous) refl
          ])
    | inr (e, rejected) ↦
        rw (rejected, auth_middleware)
          (elim (Bool-cases audit) [
            | inl on ↦ rw (on, handle_auth_failure) (failure_gist e)
            | inr off ↦ rw (off, handle_auth_failure) refl
          ])
  ]

  -- What the middleware does with each answer of the chain.
  abbrev pub AnswersWith : AuthOutcome → Ran Body → Type 0
  AnswersWith (ok identity) ran =
      (x : Extensions) × (c : AuthContext) × (ran.forwarded ≡ some x)
      × (ran.response ≡ next x)
      × (x.auth_context ≡ some c)
      × (c.identity ≡ identity)
      × (c.auth_result ≡ result_of identity)
  AnswersWith (err e) ran = (ran.forwarded ≡ none) × (ran.response ≡ into_response cid e)

  answers_with :
      (outcome : AuthOutcome)
      → authenticate chain r.raw ≡ outcome
      → AnswersWith outcome (auth_middleware chain audit cid next r)
  answers_with (ok identity) h = auth_middleware-accepts identity h
  answers_with (err e) h = auth_middleware-rejects e h

  -- When the chain accepts a request, the rest of the stack runs, its response is returned, and it finds
  -- the chain's identity in the `AuthContext`; when the chain rejects it, nothing behind the middleware
  -- runs, and the response is that of the error. In either case a logger gets exactly one event, with
  -- the outcome and the subject of the chain's answer; without a logger nothing is recorded.
  pub auth_middleware-AnswersWith :
      AnswersWith (authenticate chain r.raw) (auth_middleware chain audit cid next r)
      × (map gist (auth_middleware chain audit cid next r).audit_events ≡ (
          if audit
          then (recorded (authenticate chain r.raw), subject_of (authenticate chain r.raw)) ∷ []
          else []))
  auth_middleware-AnswersWith =
      (answers_with (authenticate chain r.raw) refl, auth_middleware-audit)
