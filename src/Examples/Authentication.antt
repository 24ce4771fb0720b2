-- ===== src/Examples/Authentication.antt =====
-- Concrete requests for rusty-gasket/src/auth. A request is a number: 1 is Alice's, 2 has an expired
-- token, and any other has no credentials.
use rusty_gasket.Common.{
  ℕ, ◌≡◌, refl, ◌↔◌, inl, inr, true, [], ◌∷◌, map, none, some, arith, ◌==◌, if◌then◌else◌,
}
use mathlib.Core.Option
use rusty_gasket.Common.Text.{Text, codes}
use rusty_gasket.Http.{Response, body}
use rusty_gasket.RateLimit.Subject.{new_subject}
use rusty_gasket.Auth.Identity.{Identity, new_identity, has_scope, with_scope}
use rusty_gasket.Auth.Errors.{token_expired, token_validation, category}
use rusty_gasket.Auth.Chain.{
  reject, ok, err, AuthBackend, AuthChain, authenticate, Verdict, authenticate-Verdict,
}
use rusty_gasket.Auth.Policy.{allow, ScopePolicy, require_all, authorize, Grants, authorize-allow}
use rusty_gasket.Auth.Context.{AuthContext}
use rusty_gasket.Auth.Middleware.{Extensions, Request, Ran, auth_middleware, result_of}
use rusty_gasket.Auth.Middleware.Laws.{
  gist, recorded, subject_of, AnswersWith, auth_middleware-AnswersWith, auth_middleware-protects,
}
use rusty_gasket.Auth.Extractors.{
  granted, rejected, optional_identity, authenticated_identity, require_scope,
  require_service_account, superuser_only, guarded, authorization_required, guards-granted,
}

abbrev alice : Identity
alice = with_scope (new_identity (codes "alice") (codes "jwt")) (codes "read")

abbrev tokens : AuthBackend ℕ
tokens = record {
  name = codes "jwt";
  authenticate =
      λ r. if r == 1 then ok (some alice) else if r == 2 then err token_expired else ok none;
}

abbrev strict : AuthChain ℕ
strict = record { backends = tokens ∷ []; fallback = reject }

alice_accepted : authenticate strict 1 ≡ ok (some alice)
unfolding authenticate
alice_accepted = refl

expired_rejected : authenticate strict 2 ≡ err token_expired
unfolding authenticate
expired_rejected = refl

authenticate-Verdict_example :
    (authenticate strict 1 ≡ ok (some alice)) ↔ Verdict (tokens ∷ []) reject 1 (ok (some alice))
authenticate-Verdict_example = authenticate-Verdict strict 1 (ok (some alice))

abbrev bare : Extensions
bare = record {
  request_id = some (codes "r-1");
  logging_context = true;
  connect_info = some (codes "10.0.0.1");
  rate_limit_subject = none;
  auth_context = none;
}

abbrev call : ℕ → Request ℕ
call n = record { raw = n; header = λ name. none; extensions = bare }

abbrev handler : Extensions → Response ℕ
handler x = record { status = 200; headers = []; payload = body 7 }

abbrev run : ℕ → Ran ℕ
run n = auth_middleware strict true (codes "c-1") handler (call n)

abbrev passed_on : Extensions
passed_on = record bare {
  rate_limit_subject = new_subject (codes "alice");
  auth_context = some (record {
    identity = some alice;
    client_ip = codes "10.0.0.1";
    request_id = codes "r-1";
    auth_result = result_of (some alice);
  });
}

alice_forwarded : (run 1).forwarded ≡ some passed_on
unfolding auth_middleware authenticate
alice_forwarded = refl

auth_middleware-protects_example :
    (i : Identity) × (authenticate strict 1 ≡ ok (some i))
    × (Option.map AuthContext.identity passed_on.auth_context ≡ some (some i))
    × (passed_on.rate_limit_subject ≡ new_subject i.subject)
auth_middleware-protects_example =
    auth_middleware-protects strict true (codes "c-1") handler (call 1) refl passed_on
      alice_forwarded

auth_middleware-AnswersWith_example :
    AnswersWith strict true (codes "c-1") handler (call 2) (authenticate strict 2) (run 2)
    × (map gist (run 2).audit_events
        ≡ (recorded (authenticate strict 2), subject_of (authenticate strict 2)) ∷ [])
auth_middleware-AnswersWith_example =
    auth_middleware-AnswersWith strict true (codes "c-1") handler (call 2)

abbrev readers : ScopePolicy
readers = require_all (codes "read" ∷ [])

abbrev writers : ScopePolicy
writers = require_all (codes "write" ∷ [])

authorize-allow_example :
    (authorize readers (some alice) ≡ allow)
    ↔ ((i : Identity) × (some alice ≡ some i) × Grants readers i)
authorize-allow_example = authorize-allow readers (some alice)

alice_reads_only : ¬ Grants writers alice
alice_reads_only h = elim (h (codes "write") (inl refl)) [ inl same ↦ ground arith | inr m ↦ m ]

guards-granted_example :
    ((authenticated_identity {Body = ℕ} (codes "c-1") passed_on ≡ granted alice)
      ↔ (optional_identity passed_on ≡ some alice))
    × ((scope : Text)
        → (require_scope {Body = ℕ} (codes "c-1") scope passed_on ≡ granted alice)
          ↔ ((optional_identity passed_on ≡ some alice) × (has_scope alice scope ≡ true)))
    × ((require_service_account {Body = ℕ} (codes "c-1") passed_on ≡ granted alice)
        ↔ ((optional_identity passed_on ≡ some alice) × (alice.service_account ≡ true)))
    × ((superuser_only {Body = ℕ} (codes "c-1") passed_on ≡ granted alice)
        ↔ ((optional_identity passed_on ≡ some alice) × (alice.privileged ≡ true)))
guards-granted_example = guards-granted (codes "c-1") passed_on alice

abbrev forbidden : Response ℕ
forbidden = authorization_required (codes "c-1") (codes "SUPERUSER_REQUIRED") (codes "no")

alice_refused :
    guarded (codes "c-1") Identity.privileged (codes "SUPERUSER_REQUIRED") (codes "no") passed_on
    ≡ rejected forbidden
unfolding guarded
alice_refused = refl

same_category :
    category (token_validation (codes "kid=a")) ≡ category (token_validation (codes "kid=b"))
unfolding category
same_category = refl
