-- ===== src/Http.antt =====
-- rusty-gasket/src/error.rs: the standard error body and response. A response is its status, its
-- JSON body and the headers that the framework sets.
pub mod Laws
pub mod Problems
pub mod Headers
use rusty_gasket.Common.{
  ℕ, Bool, true, false, List, [], ◌∷◌, Option, none, some, ◌&&◌, leb, if◌then◌else◌,
}
use rusty_gasket.Common.Text.{Text, codes, text_eq}

pub record ErrorDetail : Type 0 where
  pub issue : Text
  pub description : Option Text

-- `ErrorResponse`; the correlation id by its text.
pub record ErrorResponse : Type 0 where
  pub error : Text
  pub message : Text
  pub correlation_id : Text
  pub details : List ErrorDetail

abbrev pub with_details : Text → Text → Text → List ErrorDetail → ErrorResponse
with_details error message correlation_id details = record {
  error = error;
  message = message;
  correlation_id = correlation_id;
  details = details;
}

abbrev pub Headers : Type 0
Headers = List (Text × Text)

-- `Body` is the type of the other bodies, those of the application.
pub data Payload (Body : Type 0) : Type 0 where
  json_error : ErrorResponse → Payload Body
  body : Body → Payload Body

pub record Response (Body : Type 0) : Type 0 where
  pub status : ℕ
  pub headers : Headers
  pub payload : Payload Body

-- `StatusCode::is_client_error` and `is_server_error`
abbrev pub is_client_error : ℕ → Bool
is_client_error status = leb 400 status && leb status 499

abbrev pub is_server_error : ℕ → Bool
is_server_error status = leb 500 status && leb status 599

-- `current_request_id`, `Uuid::parse_str` followed by `to_string`, and `Uuid::now_v7`.
unfoldable pub correlation_id : Option Text → (Text → Option Text) → Text → Text
correlation_id none parse_str now_v7 = now_v7
correlation_id (some s) parse_str now_v7 = elim (parse_str s) [ some id ↦ id | none ↦ now_v7 ]

-- `HeaderValue::from_str` accepts the text of a `Uuid`.
unfoldable pub finalize_error_response : {Body : Type 0} → ℕ → ErrorResponse → Response Body
finalize_error_response status b = record {
  status = status;
  headers = (codes "X-Correlation-ID", b.correlation_id) ∷ [];
  payload = json_error b;
}

unfoldable pub quick_error_response : {Body : Type 0} → Text → ℕ → Text → Text → Response Body
unfolding finalize_error_response
quick_error_response cid status code message =
    finalize_error_response status (with_details code message cid [])

unfoldable pub quick_error_response_with_details :
    {Body : Type 0} → Text → ℕ → Text → Text → List ErrorDetail → Response Body
unfolding finalize_error_response
quick_error_response_with_details cid status code message details =
    finalize_error_response status (with_details code message cid details)

-- `trait ApiError`, with the text of the error. Its default for `expose_details` is `is_client_error`.
pub record ApiError : Type 0 where
  pub error_code : Text
  pub status_code : ℕ
  pub expose_details : Bool
  pub details : List ErrorDetail
  pub to_string : Text

abbrev pub default_expose : ℕ → Bool
default_expose status = is_client_error status

unfoldable pub error_into_response : {Body : Type 0} → Text → ApiError → Response Body
unfolding finalize_error_response
error_into_response cid error =
    let (message, details) =
      (if error.expose_details
        then (error.to_string, error.details)
        else (codes "Internal server error", [])) in
    finalize_error_response error.status_code (with_details error.error_code message cid details)
