-- ===== src/Mentor/Error.antt =====
-- The errors of the mentor: crates/core/src/mentor/error.rs.
use apprentice_harness.Common.{
  ℕ, Bool, true, false, not, ◌&&◌, ◌||◌, Option, none, some, Text, codes, text_eq, leb,
}
use apprentice_harness.Mentor.Types.{
  MentorError, auth, rate_limited, overloaded, invalid_request, request_too_large, api_error,
  stream_error, network, disconnected, protocol, stream_interrupted, call_cancelled, timeout,
}

module _ {Value : Type 0} where
  unfoldable pub is_retryable : MentorError Value → Bool
  is_retryable (rate_limited retry_after) = true
  is_retryable overloaded = true
  is_retryable timeout = true
  is_retryable disconnected = true
  is_retryable (api_error status kind message) = leb 500 status
  is_retryable (stream_error kind message) =
      text_eq kind (codes "overloaded_error") || text_eq kind (codes "api_error")
  is_retryable (network e) = not e.is_builder && not e.is_redirect && not e.is_decode
  is_retryable _ = false

  -- `MentorError::kind`
  abbrev pub error_kind : MentorError Value → Text
  error_kind auth = codes "auth"
  error_kind (rate_limited retry_after) = codes "rate_limited"
  error_kind overloaded = codes "overloaded"
  error_kind (invalid_request message) = codes "invalid_request"
  error_kind request_too_large = codes "request_too_large"
  error_kind (api_error status kind message) = codes "api"
  error_kind (stream_error kind message) = codes "stream"
  error_kind (network e) = codes "network"
  error_kind disconnected = codes "disconnected"
  error_kind (protocol fault) = codes "protocol"
  error_kind (stream_interrupted blocks) = codes "stream_interrupted"
  error_kind call_cancelled = codes "cancelled"
  error_kind timeout = codes "timeout"

  -- `MentorError::http`: the status and the kind that the API gives.
  abbrev pub http : MentorError Value → Option ℕ × Option Text
  http auth = (some 401, some (codes "authentication_error"))
  http (rate_limited retry_after) = (some 429, some (codes "rate_limit_error"))
  http overloaded = (some 529, some (codes "overloaded_error"))
  http (invalid_request message) = (some 400, some (codes "invalid_request_error"))
  http request_too_large = (some 413, some (codes "request_too_large"))
  http (api_error status kind message) = (some status, some kind)
  http (stream_error kind message) = (none, some kind)
  http _ = (none, none)
