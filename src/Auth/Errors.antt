-- ===== src/Auth/Errors.antt =====
-- rusty-gasket/src/auth/error.rs: `AuthError`.
use rusty_gasket.Common.{ℕ, ◌≡◌, refl, ◌++◌, ap, sym, ◌∙◌, [], if◌then◌else◌}
use rusty_gasket.Common.Text.{Text, codes, text_eq}
use rusty_gasket.Http.{Response, is_client_error, quick_error_response}

-- The source of a `backend_error` by its text.
pub data AuthError : Type 0 where
  missing_credentials invalid_credentials : Text → AuthError
  token_expired : AuthError
  token_validation authorization_denied backend_error configuration : Text → AuthError

-- `Display`
abbrev pub to_string : AuthError → Text
to_string (missing_credentials s) = codes "Missing credentials: " ++ s
to_string (invalid_credentials s) = codes "Invalid credentials: " ++ s
to_string token_expired = codes "Token expired"
to_string (token_validation s) = codes "Token validation failed: " ++ s
to_string (authorization_denied s) = codes "Authorization denied: " ++ s
to_string (backend_error s) = codes "Backend error: " ++ s
to_string (configuration s) = codes "Configuration error: " ++ s

unfoldable pub status_code : AuthError → ℕ
status_code (missing_credentials s) = 401
status_code (invalid_credentials s) = 401
status_code token_expired = 401
status_code (token_validation s) = 401
status_code (authorization_denied s) = 403
status_code (backend_error s) = 500
status_code (configuration s) = 500

unfoldable pub error_code : AuthError → Text
error_code (missing_credentials s) = codes "MISSING_CREDENTIALS"
error_code (invalid_credentials s) = codes "INVALID_CREDENTIALS"
error_code token_expired = codes "TOKEN_EXPIRED"
error_code (token_validation s) = codes "TOKEN_VALIDATION_FAILED"
error_code (authorization_denied s) = codes "AUTHORIZATION_DENIED"
error_code (backend_error s) = codes "AUTH_BACKEND_ERROR"
error_code (configuration s) = codes "AUTH_CONFIGURATION_ERROR"

unfoldable pub category : AuthError → Text
category (missing_credentials s) = codes "missing_credentials"
category (invalid_credentials s) = codes "invalid_credentials"
category token_expired = codes "token_expired"
category (token_validation s) = codes "token_validation"
category (authorization_denied s) = codes "authorization_denied"
category (backend_error s) = codes "backend_error"
category (configuration s) = codes "configuration_error"

abbrev client_message : AuthError → Text
client_message (missing_credentials s) = codes "Missing credentials"
client_message (invalid_credentials s) = codes "Invalid credentials"
client_message token_expired = codes "Token expired"
client_message (token_validation s) = codes "Token validation failed"
client_message (authorization_denied s) = codes "Authorization denied"
client_message (backend_error s) = codes "Authentication failed"
client_message (configuration s) = codes "Authentication failed"

unfoldable pub into_response : {Body : Type 0} → Text → AuthError → Response Body
unfolding status_code error_code
into_response cid e =
    let status = status_code e in
    let message =
      if is_client_error status then client_message e else codes "Internal authentication error" in
    quick_error_response cid status (error_code e) message

-- An error of the category, with no text.
abbrev of_category : Text → AuthError
of_category t =
    if text_eq t (codes "missing_credentials")
    then missing_credentials []
    else if text_eq t (codes "invalid_credentials")
    then invalid_credentials []
    else if text_eq t (codes "token_expired")
    then token_expired
    else if text_eq t (codes "token_validation")
    then token_validation []
    else if text_eq t (codes "authorization_denied")
    then authorization_denied []
    else if text_eq t (codes "backend_error")
    then backend_error []
    else configuration []

into_response-of_category :
    {Body : Type 0} (cid : Text) (e : AuthError)
    → into_response {Body = Body} cid e ≡ into_response cid (of_category (category e))
unfolding category into_response
into_response-of_category cid (missing_credentials s) = refl
into_response-of_category cid (invalid_credentials s) = refl
into_response-of_category cid token_expired = refl
into_response-of_category cid (token_validation s) = refl
into_response-of_category cid (authorization_denied s) = refl
into_response-of_category cid (backend_error s) = refl
into_response-of_category cid (configuration s) = refl

-- The text that an error carries never reaches the response: errors of one category have the same
-- response.
into_response-category :
    {Body : Type 0} (cid : Text) (e e' : AuthError)
    → category e ≡ category e'
    → into_response {Body = Body} cid e ≡ into_response cid e'
into_response-category cid e e' h =
    into_response-of_category cid e
    ∙ ap (λ t. into_response cid (of_category t)) h
    ∙ sym (into_response-of_category cid e')
