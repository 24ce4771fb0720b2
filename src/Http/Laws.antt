-- ===== src/Http/Laws.antt =====
-- The standard error response: what of an error it shows.
use rusty_gasket.Common.{◌≡◌, refl, true, false}
use rusty_gasket.Common.Text.{Text}
use rusty_gasket.Http.{ApiError, error_into_response, quick_error_response_with_details}

-- Of two errors that hide their details and have the same code and status, clients see the same
-- response, whatever their texts and details are.
pub error_into_response-hidden :
    {Body : Type 0} (cid : Text) (e e' : ApiError)
    → e.expose_details ≡ false
    → e'.expose_details ≡ false
    → e.error_code ≡ e'.error_code
    → e.status_code ≡ e'.status_code
    → error_into_response {Body = Body} cid e ≡ error_into_response cid e'
unfolding error_into_response
error_into_response-hidden cid e e' h h' code status = rw (h, h', code, status) refl

-- An error that shows its details is sent with its own text and details.
pub error_into_response-exposed :
    {Body : Type 0} (cid : Text) (e : ApiError)
    → e.expose_details ≡ true
    → error_into_response {Body = Body} cid e
      ≡ quick_error_response_with_details cid e.status_code e.error_code e.to_string e.details
unfolding error_into_response quick_error_response_with_details
error_into_response-exposed cid e h = rw h refl
