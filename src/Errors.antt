-- ===== src/Errors.antt =====
-- src/errors.ts and src/generated/errors.ts: the error codes, their tables, and what a catch block
-- sees. The values of an error's params are modelled for its message only (Errors/Message.antt).
pub mod Message
use whats_multi.Prelude.{ℕ, Bool, true, false, Option, none, some, Text}

pub data ErrorCode : Type 0 where
  session_not_found session_exists invalid_session_id session_not_ready session_locked : ErrorCode
  session_logged_out session_failed storage_error send_failed logout_failed : ErrorCode
  media_download_failed timeout missing_peer invalid_config client_destroyed : ErrorCode
  pairing_unavailable pairing_in_progress invalid_phone_number invalid_jid : ErrorCode
  invalid_request listener_failed illegal_transition unauthorized route_not_found : ErrorCode
  internal_error : ErrorCode

-- ERROR_RETRYABLE
unfoldable pub error_retryable : ErrorCode → Bool
error_retryable session_not_ready = true
error_retryable session_locked = true
error_retryable session_failed = true
error_retryable storage_error = true
error_retryable send_failed = true
error_retryable logout_failed = true
error_retryable media_download_failed = true
error_retryable timeout = true
error_retryable pairing_unavailable = true
error_retryable internal_error = true
error_retryable _ = false

-- ERROR_HTTP_STATUS
unfoldable pub error_http_status : ErrorCode → ℕ
error_http_status session_not_found = 404
error_http_status session_exists = 409
error_http_status invalid_session_id = 422
error_http_status session_not_ready = 409
error_http_status session_locked = 409
error_http_status session_logged_out = 409
error_http_status session_failed = 500
error_http_status storage_error = 500
error_http_status send_failed = 503
error_http_status logout_failed = 502
error_http_status media_download_failed = 502
error_http_status timeout = 504
error_http_status missing_peer = 501
error_http_status invalid_config = 422
error_http_status client_destroyed = 503
error_http_status pairing_unavailable = 409
error_http_status pairing_in_progress = 409
error_http_status invalid_phone_number = 422
error_http_status invalid_jid = 422
error_http_status invalid_request = 400
error_http_status listener_failed = 500
error_http_status illegal_transition = 409
error_http_status unauthorized = 401
error_http_status route_not_found = 404
error_http_status internal_error = 500

-- An instance of the class; `retryable` is computed from the code.
pub record WhatsMultiError : Type 0 where
  pub code : ErrorCode
  pub session_id : Option Text

-- What a `catch` receives: one of our own errors, or anything else.
pub data Thrown : Type 0 where
  ours : WhatsMultiError → Thrown
  foreign : Text → Thrown

abbrev pub error_of : ErrorCode → Text → WhatsMultiError
error_of code id = record { code = code; session_id = some id }

abbrev pub bare_error : ErrorCode → WhatsMultiError
bare_error code = record { code = code; session_id = none }

unfoldable pub wrap_error : ErrorCode → Option Text → Thrown → WhatsMultiError
wrap_error code id (ours e) = e
wrap_error code id (foreign detail) = record { code = code; session_id = id }

pub data Result {ℓ} (A : Type ℓ) : Type ℓ where
  ok : A → Result A
  err : WhatsMultiError → Result A
