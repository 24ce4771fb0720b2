-- ===== src/Auth/Middleware.antt =====
-- rusty-gasket/src/auth/middleware.rs. A run of the middleware is its response, the audit events in
-- order, what is set on the logging context, and the extensions with which `next` ran, if it did.
pub mod Laws
use rusty_gasket.Common.{
  ℕ, Bool, true, false, not, List, [], ◌∷◌, ◌++◌, Option, none, some, if◌then◌else◌,
}
use rusty_gasket.Common.Text.{Text, codes}
use rusty_gasket.Common.Chars.{trim, is_empty, first_piece}
use rusty_gasket.Http.{Response}
use rusty_gasket.RateLimit.Subject.{RateLimitSubject, new_subject}
use rusty_gasket.Auth.Identity.{Identity}
use rusty_gasket.Auth.Errors.{
  AuthError, backend_error, configuration, to_string, category, into_response,
}
use rusty_gasket.Auth.Chain.{AuthOutcome, ok, err, AuthChain, authenticate}
use rusty_gasket.Auth.Context.{
  AuthContext, AuthResult, authenticated, anonymous, failed, new_failed_reason,
}

-- observability/logging.rs: what the observability layer reads back.
pub record AuthSummary : Type 0 where
  pub client_id : Text
  pub client_ip : Text
  pub user_id : Text
  pub auth_method : Text
  pub auth_result : Text
  pub is_privileged : Bool

-- `AuthSummary::builder().build()`
abbrev pub default_summary : AuthSummary
default_summary = record {
  client_id = [];
  client_ip = [];
  user_id = [];
  auth_method = [];
  auth_result = [];
  is_privileged = false;
}

pub data AuthAuditOutcome : Type 0 where
  success anonymous_allowed : AuthAuditOutcome
  denied error : Text → AuthAuditOutcome

pub record AuthAuditEvent : Type 0 where
  pub request_id : Text
  pub client_ip : Text
  pub auth_method : Option Text
  pub subject : Option Text
  pub outcome : AuthAuditOutcome

-- The extensions of a request that the framework reads or sets: the request id, whether there is a
-- `LoggingContext`, the peer's address, and what the middleware inserts.
pub record Extensions : Type 0 where
  pub request_id : Option Text
  pub logging_context : Bool
  pub connect_info : Option Text
  pub rate_limit_subject : Option RateLimitSubject
  pub auth_context : Option AuthContext

-- `header` stands for `headers().get` with `to_str().ok()`; `raw` is all of the headers and the URI.
pub record Request (Raw : Type 0) : Type 0 where
  pub raw : Raw
  pub header : Text → Option Text
  pub extensions : Extensions

-- The response, with the `AuthContext` among its own extensions.
pub record Ran (Body : Type 0) : Type 0 where
  pub response : Response Body
  pub response_context : Option AuthContext
  pub audit_events : List AuthAuditEvent
  pub summary : Option AuthSummary
  pub forwarded : Option Extensions

abbrev pub get_or_else : Option Text → Text → Text
get_or_else none d = d
get_or_else (some t) d = t

-- What a header gives as a client address: its text, trimmed, unless that is empty.
abbrev pub some_unless_empty : Text → Option Text
some_unless_empty t = if is_empty t then none else some t

module _ {Raw : Type 0} where
  abbrev real_ip : Request Raw → Option Text
  real_ip r = elim (r.header (codes "x-real-ip")) [
    | none ↦ none
    | some val ↦ some_unless_empty (trim val)
  ]

  -- The piece before the first comma.
  abbrev forwarded_ip : Request Raw → Option Text
  forwarded_ip r = elim (r.header (codes "x-forwarded-for")) [
    | none ↦ none
    | some val ↦ some_unless_empty (trim (first_piece 44 val))
  ]

  unfoldable pub extract_client_ip : Request Raw → Text
  extract_client_ip r = elim (real_ip r) [
    | some ip ↦ ip
    | none ↦ elim (forwarded_ip r) [
      | some ip ↦ ip
      | none ↦ get_or_else r.extensions.connect_info (codes "unknown")
    ]
  ]

  -- `LoggingContext::set`, when there is such a context.
  abbrev pub populate_logging_context : Request Raw → AuthSummary → Option AuthSummary
  populate_logging_context r summary = if r.extensions.logging_context then some summary else none

unfoldable pub build_success_summary : Text → Option Identity → AuthSummary
build_success_summary client_ip (some id) = record {
  client_id = id.subject;
  client_ip = client_ip;
  user_id = id.subject;
  auth_method = id.auth_method;
  auth_result = codes "authenticated:" ++ id.auth_method;
  is_privileged = id.privileged;
}
build_success_summary client_ip none = record default_summary {
  client_ip = client_ip;
  user_id = codes "anonymous";
  auth_method = codes "none";
  auth_result = codes "anonymous";
}

-- The events of a logger that is there or not.
unfoldable pub audit_success_or_anonymous :
    Bool → Text → Text → Option Identity → List AuthAuditEvent
audit_success_or_anonymous false request_id client_ip identity = []
audit_success_or_anonymous true request_id client_ip (some id) =
    record {
      request_id = request_id;
      client_ip = client_ip;
      auth_method = some id.auth_method;
      subject = some id.subject;
      outcome = success;
    }
    ∷ []
audit_success_or_anonymous true request_id client_ip none =
    record {
      request_id = request_id;
      client_ip = client_ip;
      auth_method = none;
      subject = none;
      outcome = anonymous_allowed;
    }
    ∷ []

abbrev pub failure_outcome : AuthError → AuthAuditOutcome
failure_outcome (backend_error s) = error (to_string (backend_error s))
failure_outcome (configuration s) = error (to_string (configuration s))
failure_outcome e = denied (to_string e)

unfoldable pub handle_auth_failure :
    {Raw Body : Type 0} → Text → Bool → Request Raw → Text → Text → AuthError → Ran Body
handle_auth_failure cid audit r request_id client_ip e = record {
  response = into_response cid e;
  response_context = some (record {
    identity = none;
    client_ip = client_ip;
    request_id = request_id;
    auth_result = failed (new_failed_reason (to_string e));
  });
  audit_events =
      if audit
      then record {
        request_id = request_id;
        client_ip = client_ip;
        auth_method = none;
        subject = none;
        outcome = failure_outcome e;
      }
        ∷ []
      else [];
  summary = populate_logging_context r (record default_summary {
    client_ip = client_ip;
    user_id = codes "unknown";
    auth_method = codes "unknown";
    auth_result = codes "failed:" ++ category e;
  });
  forwarded = none;
}

abbrev pub result_of : Option Identity → AuthResult
result_of none = anonymous
result_of (some id) = authenticated id.auth_method

-- What `next` finds in the extensions. `RateLimitSubject::new` does not panic.
unfoldable pub forward : Extensions → Option Identity → Text → Text → Extensions
forward x identity client_ip request_id = record x {
  rate_limit_subject = elim identity [
    | none ↦ x.rate_limit_subject
    | some id ↦ new_subject id.subject
  ];
  auth_context = some (record {
    identity = identity;
    client_ip = client_ip;
    request_id = request_id;
    auth_result = result_of identity;
  });
}

-- `cid` is the correlation id of an error response and `audit` whether there is a logger; `next` is
-- the rest of the stack.
unfoldable pub auth_middleware :
    {Raw Body : Type 0}
    → AuthChain Raw
    → Bool
    → Text
    → (Extensions → Response Body)
    → Request Raw
    → Ran Body
unfolding extract_client_ip build_success_summary audit_success_or_anonymous handle_auth_failure
    forward
auth_middleware chain audit cid next r =
    let request_id = get_or_else r.extensions.request_id [] in
    let client_ip = extract_client_ip r in
    elim (authenticate chain r.raw) [
      | err e ↦ handle_auth_failure cid audit r request_id client_ip e
      | ok identity ↦ record {
        response = next (forward r.extensions identity client_ip request_id);
        response_context = none;
        audit_events = audit_success_or_anonymous audit request_id client_ip identity;
        summary = populate_logging_context r (build_success_summary client_ip identity);
        forwarded = some (forward r.extensions identity client_ip request_id);
      }
    ]
