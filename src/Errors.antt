-- ===== src/Errors.antt =====
-- internal/errors/types.go: `AppError`. A cause is carried along and never looked into here, so its
-- type `C` is left open; `Is` and `Unwrap`, which follow causes, are not modelled.
pub mod Handler
pub mod Retry
pub mod Responses
use go_kube_ops_view.Prelude.{
  ℕ, String, Bool, true, false, Option, none, some, nat_eq, if◌then◌else◌,
}
use go_kube_ops_view.Dict
use go_kube_ops_view.Dict.{Dict}
use go_kube_ops_view.Json.{Json, str}
use go_kube_ops_view.Models.{GoMap, Time}

pub data ErrorCode : Type 0 where
  config_invalid config_missing config_validation : ErrorCode
  cluster_connection cluster_auth cluster_timeout cluster_unavailable : ErrorCode
  cluster_not_found cluster_api_error : ErrorCode
  auth_invalid auth_expired auth_missing auth_forbidden auth_provider_error : ErrorCode
  store_connection store_timeout store_not_found store_corrupted store_unavailable : ErrorCode
  http_bad_request http_not_found http_method_not_allowed : ErrorCode
  http_internal_error http_service_unavailable : ErrorCode
  resource_not_found resource_invalid resource_conflict : ErrorCode
  system_unavailable system_overloaded system_maintenance : ErrorCode
  unknown : ErrorCode

pub record AppError (C : Type 0) : Type 0 where
  pub code : ErrorCode
  pub message : String
  pub details : String
  pub cause : Option C
  pub context : GoMap Json
  pub timestamp : Time
  pub retryable : Bool
  pub http_status : ℕ

-- A value of type `error` that is not nil: an `*AppError`, or another error with its text.
pub data GoError (C : Type 0) : Type 0 where
  app : AppError C → GoError C
  other : String → C → GoError C

unfoldable pub is_retryable : ErrorCode → Bool
is_retryable cluster_timeout = true
is_retryable cluster_connection = true
is_retryable cluster_unavailable = true
is_retryable store_timeout = true
is_retryable store_connection = true
is_retryable store_unavailable = true
is_retryable system_overloaded = true
is_retryable system_unavailable = true
is_retryable _ = false

-- The `switch` of `GetHTTPStatus`, and the constants of net/http that it returns.
unfoldable pub default_status : ErrorCode → ℕ
default_status http_bad_request = 400
default_status config_invalid = 400
default_status resource_invalid = 400
default_status auth_missing = 401
default_status auth_invalid = 401
default_status auth_forbidden = 403
default_status http_not_found = 404
default_status cluster_not_found = 404
default_status store_not_found = 404
default_status resource_not_found = 404
default_status http_method_not_allowed = 405
default_status resource_conflict = 409
default_status cluster_timeout = 408
default_status store_timeout = 408
default_status system_overloaded = 429
default_status http_service_unavailable = 503
default_status cluster_unavailable = 503
default_status store_unavailable = 503
default_status system_unavailable = 503
default_status _ = 500

unfoldable pub is_cluster_code : ErrorCode → Bool
is_cluster_code cluster_connection = true
is_cluster_code cluster_auth = true
is_cluster_code cluster_timeout = true
is_cluster_code cluster_unavailable = true
is_cluster_code cluster_not_found = true
is_cluster_code cluster_api_error = true
is_cluster_code _ = false

unfoldable pub is_auth_code : ErrorCode → Bool
is_auth_code auth_invalid = true
is_auth_code auth_expired = true
is_auth_code auth_missing = true
is_auth_code auth_forbidden = true
is_auth_code auth_provider_error = true
is_auth_code _ = false

unfoldable pub is_store_code : ErrorCode → Bool
is_store_code store_connection = true
is_store_code store_timeout = true
is_store_code store_not_found = true
is_store_code store_corrupted = true
is_store_code store_unavailable = true
is_store_code _ = false

-- The `switch` of `NewHTTPError`.
abbrev pub http_code : ℕ → ErrorCode
http_code status =
    if nat_eq status 400
    then http_bad_request
    else if nat_eq status 404
    then http_not_found
    else if nat_eq status 405
    then http_method_not_allowed
    else if nat_eq status 503
    then http_service_unavailable
    else http_internal_error

module _ {C : Type 0} where
  unfoldable pub with_context : String → Json → AppError C → AppError C
  with_context key v e = record e { context = some (Dict.put (or_empty e.context) key v) }
    where
      or_empty : GoMap Json → Dict Json
      or_empty none = Dict.empty
      or_empty (some d) = d

  abbrev pub with_cluster : String → AppError C → AppError C
  with_cluster id e = with_context "cluster_id" (str id) e

  abbrev pub with_http_status : ℕ → AppError C → AppError C
  with_http_status status e = record e { http_status = status }

  unfoldable pub get_http_status : AppError C → ℕ
  get_http_status e = if nat_eq e.http_status 0 then default_status e.code else e.http_status

  unfoldable pub new_app_error_full : ErrorCode → String → String → Option C → Time → AppError C
  new_app_error_full code message details cause now = record {
    code = code;
    message = message;
    details = details;
    cause = cause;
    context = none;
    timestamp = now;
    retryable = is_retryable code;
    http_status = 0;
  }

  abbrev pub new_app_error : ErrorCode → String → Time → AppError C
  new_app_error code message now = new_app_error_full code message "" none now

  abbrev pub new_app_error_with_cause : ErrorCode → String → Option C → Time → AppError C
  new_app_error_with_cause code message cause now = new_app_error_full code message "" cause now

  abbrev pub new_app_error_with_details : ErrorCode → String → String → Time → AppError C
  new_app_error_with_details code message details now =
      new_app_error_full code message details none now

  unfoldable pub wrap_error : ErrorCode → String → Option (GoError C) → Time → Option (AppError C)
  wrap_error code message none now = none
  wrap_error code message (some (app e)) now = some e
  wrap_error code message (some (other text c)) now =
      some (new_app_error_with_cause code message (some c) now)

  abbrev pub on_app : (AppError C → Bool) → Option (GoError C) → Bool
  on_app p (some (app e)) = p e
  on_app p _ = false

  unfoldable pub is_retryable_error : Option (GoError C) → Bool
  is_retryable_error o = on_app (λ e. e.retryable) o

  unfoldable pub is_cluster_error : Option (GoError C) → Bool
  is_cluster_error o = on_app (λ e. is_cluster_code e.code) o

  unfoldable pub is_auth_error : Option (GoError C) → Bool
  is_auth_error o = on_app (λ e. is_auth_code e.code) o

  unfoldable pub is_store_error : Option (GoError C) → Bool
  is_store_error o = on_app (λ e. is_store_code e.code) o

  abbrev pub new_cluster_connection_error : String → Option C → Time → AppError C
  new_cluster_connection_error id cause now =
      with_cluster id
        (new_app_error_with_cause cluster_connection "Failed to connect to cluster" cause now)

  abbrev pub new_cluster_timeout_error : String → String → Time → AppError C
  new_cluster_timeout_error id operation now =
      with_cluster id
        (new_app_error_with_details cluster_timeout "Cluster operation timed out" operation now)

  abbrev pub new_cluster_unavailable_error : String → Time → AppError C
  new_cluster_unavailable_error id now =
      with_cluster id (new_app_error cluster_unavailable "Cluster is unavailable" now)

  unfoldable pub new_http_error : ℕ → String → Time → AppError C
  new_http_error status message now =
      with_http_status status (new_app_error (http_code status) message now)
