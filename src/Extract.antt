-- ===== src/Extract.antt =====
-- rusty-gasket/src/extract.rs: `Pagination`, `IdempotencyKey` and `Validated`. What axum's own
-- extractors return is an argument; `usize` has 64 bits.
pub mod Laws
use rusty_gasket.Common.{
  ℕ, zero, suc, ◌+◌, ◌-◌, ◌*◌, ◌%◌, ◌^◌, min, Bool, true, false, not, ◌&&◌, ◌||◌, List, [], ◌∷◌,
  map, Option, none, some, if◌then◌else◌, all, ltb, ◌==◌,
}
use rusty_gasket.Common.Text.{Text, codes}
use rusty_gasket.Common.Chars.{trim, is_empty, byte_len, is_ascii_graphic}
use rusty_gasket.Http.{
  Response, ErrorDetail, quick_error_response, quick_error_response_with_details,
}

abbrev pub default_page_size : ℕ
default_page_size = 50

abbrev pub max_page_size : ℕ
max_page_size = 500

abbrev pub max_idempotency_key_length : ℕ
max_idempotency_key_length = 255

-- What an extractor returns: a value, or the response that is sent in the handler's place.
pub data Extraction (A Body : Type 0) : Type 0 where
  extracted : A → Extraction A Body
  rejected : Response Body → Extraction A Body

pub record ValidationError : Type 0 where
  pub field : Text
  pub message : Text

abbrev pub one_error : Text → Text → List ValidationError
one_error field message = record { field = field; message = message } ∷ []

abbrev pub into_error_details : List ValidationError → List ErrorDetail
into_error_details = map (λ e. record { issue = e.field; description = some e.message })

unfoldable pub validation_error_response :
    {Body : Type 0} → Text → List ValidationError → Response Body
validation_error_response cid errors =
    quick_error_response_with_details cid 400 (codes "VALIDATION_ERROR")
      (codes "Request validation failed.") (into_error_details errors)

unfoldable pub missing_idempotency_key_response : {Body : Type 0} → Text → Response Body
missing_idempotency_key_response cid =
    quick_error_response cid 400 (codes "IDEMPOTENCY_KEY_REQUIRED")
      (codes "Idempotency-Key header is required for this endpoint.")

unfoldable pub invalid_idempotency_key_response : {Body : Type 0} → Text → Response Body
invalid_idempotency_key_response cid =
    quick_error_response cid 400 (codes "INVALID_IDEMPOTENCY_KEY")
      (codes "Idempotency-Key header must be visible ASCII text between 1 and 255 characters.")

unfoldable pub standard_bad_request : {Body : Type 0} → Text → Text → Text → Response Body
standard_bad_request cid code message = quick_error_response cid 400 code message

pub record Pagination : Type 0 where
  pub page : ℕ
  pub limit : ℕ

pub record RawPagination : Type 0 where
  pub page : Option ℕ
  pub limit : Option ℕ

abbrev pub unwrap_or : Option ℕ → ℕ → ℕ
unwrap_or none d = d
unwrap_or (some n) d = n

-- `Pagination::offset`, in 64 bits; the source's product wraps where overflow checks are off.
unfoldable pub offset : Pagination → ℕ
offset p = ((p.page - 1) * p.limit) % 2 ^ 64

-- `query` is what axum's `Query` returns.
unfoldable pub pagination :
    {Body : Type 0} → Text → Option RawPagination → Extraction Pagination Body
unfolding validation_error_response standard_bad_request
pagination cid none =
    rejected
      (standard_bad_request cid (codes "INVALID_QUERY") (codes "Query parameters are invalid."))
pagination cid (some query) =
    let page = unwrap_or query.page 1 in
    let limit = min (unwrap_or query.limit default_page_size) max_page_size in
    if page == 0
    then rejected
        (validation_error_response cid (one_error (codes "page") (codes "page must be at least 1")))
    else if limit == 0
    then rejected (
        validation_error_response cid
          (one_error (codes "limit") (codes "limit must be at least 1")))
    else extracted (record { page = page; limit = limit })

-- The header, when it is there, and its text, when `to_str` gives one.
unfoldable pub idempotency_key :
    {Body : Type 0} → Text → Option (Option Text) → Extraction Text Body
unfolding missing_idempotency_key_response invalid_idempotency_key_response
idempotency_key cid none = rejected (missing_idempotency_key_response cid)
idempotency_key cid (some none) = rejected (invalid_idempotency_key_response cid)
idempotency_key cid (some (some value)) =
    let key = trim value in
    if is_empty key
      || ltb max_idempotency_key_length (byte_len key)
      || not (all is_ascii_graphic key)
    then rejected (invalid_idempotency_key_response cid)
    else extracted key

-- `body` is what axum's `Json` returns and `validate` the value's own test, with its errors.
unfoldable pub validated :
    {T Body : Type 0} → Text → (T → Option (List ValidationError)) → Option T → Extraction T Body
unfolding validation_error_response standard_bad_request
validated cid validate none =
    rejected
      (standard_bad_request cid (codes "INVALID_JSON") (codes "Request body is not valid JSON."))
validated cid validate (some value) = elim (validate value) [
  | none ↦ extracted value
  | some errors ↦ rejected (validation_error_response cid errors)
]
