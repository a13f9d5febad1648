-- ===== src/Errors.antt =====
-- pkg/authzcache/errors/errortypes.go: the error that a client gets for an error of the SDK, and the
-- Retry-After that goes with it; and `errorHandlerWithRetryAfter` of cmd/authzcache/main.go, which
-- puts it onto the HTTP response.
pub mod RetryAfter
use authzcache.Base.{
  ℕ, ◌-◌, Bool, List, [], ◌∷◌, Option, none, some, Text, nat_eq, ◌==◌, ltb, length, after,
  if◌then◌else◌,
}
use authzcache.Base.Texts.{codes}
use authzcache.Base.Decimal.{itoa}
use authzcache.Base.Int.{ℤ, pos, negsuc}
use authzcache.Sdk.{DescopeError, GoError, descope_error, other_error}

-- the method of the library's `Builder` that makes the error's type
pub data ErrorType : Type 0 where
  bad_request : ErrorType
  auth : ErrorType
  forbidden : ErrorType
  not_found : ErrorType
  too_many_requests : ErrorType
  internal : ErrorType

-- The library's errors, by the call that makes them: of an exported type with its code and
-- description and the message, or `ce.InternalError` with a message.
pub data ServiceError : Type 0 where
  exported : ErrorType → Text → Text → Text → ServiceError
  internal_error : Text → ServiceError

-- `switch statusCode`
unfoldable pub error_type : Option ℤ → ErrorType
error_type none = internal
error_type (some (negsuc n)) = internal
error_type (some (pos n)) =
    if n == 400
    then bad_request
    else if n == 401
    then auth
    else if n == 403
    then forbidden
    else if n == 404
    then not_found
    else if n == 429
    then too_many_requests
    else internal

-- `de.Code[len(de.Code)-4:]`
pub last_four : Text → Text
last_four code = after (length code - 4) code

-- `setRetryAfter`: the value that goes to `grpc.SetHeader`. That it fails is only logged.
unfoldable pub retry_after_of : Option ℤ → Option Text
retry_after_of none = none
retry_after_of (some (negsuc n)) = none
retry_after_of (some (pos n)) = if ltb 0 n then some (itoa n) else none

-- the header is set in the case of `http.StatusTooManyRequests`
unfoldable pub set_retry_after : ErrorType → Option ℤ → Option Text
unfolding retry_after_of
set_retry_after too_many_requests seconds = retry_after_of seconds
set_retry_after bad_request seconds = none
set_retry_after auth seconds = none
set_retry_after forbidden seconds = none
set_retry_after not_found seconds = none
set_retry_after internal seconds = none

-- A service error and, if one is set, the Retry-After.
pub record Failure : Type 0 where
  pub reason : ServiceError
  pub retry_after : Option Text

module _ (error_text : DescopeError → Text) where
  -- `ServiceErrorFromSdkError`. `error_text` is the SDK's `Error()`.
  unfoldable pub service_error_from_sdk_error : Option GoError → Failure
  unfolding set_retry_after
  service_error_from_sdk_error none = record {
    reason = internal_error (codes "nil error");
    retry_after = none;
  }
  service_error_from_sdk_error (some (other_error text)) = record {
    reason = internal_error text;
    retry_after = none;
  }
  service_error_from_sdk_error (some (descope_error de)) =
      if ltb (length de.code) 4
      then record { reason = internal_error (error_text de); retry_after = none }
      else record {
        reason = exported (error_type de.status) (last_four de.code) de.description de.message;
        retry_after = set_retry_after (error_type de.status) de.retry_after;
      }

module _ {Writer : Type 0} (set_header : Text → Writer → Writer) where
  -- `w.Header().Set(se.RetryAfterHeader, values[0])`
  set_first : List Text → Writer → Writer
  set_first [] w = w
  set_first (value ∷ values) w = set_header value w

  -- `errorHandlerWithRetryAfter`, before the common handler: the values of Retry-After in the header
  -- metadata, if the context has metadata
  unfoldable pub relay_retry_after : Option (List Text) → Writer → Writer
  unfolding set_first
  relay_retry_after none w = w
  relay_retry_after (some values) w = set_first values w

  unfoldable pub error_handler_with_retry_after :
      {E : Type 0} → (E → Writer → Writer) → Option (List Text) → E → Writer → Writer
  unfolding relay_retry_after
  error_handler_with_retry_after common metadata e w = common e (relay_retry_after metadata w)
