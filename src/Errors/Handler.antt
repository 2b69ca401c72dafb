-- ===== src/Errors/Handler.antt =====
-- internal/errors/handler.go: how an error becomes an `AppError`, a response, or a decision about a
-- cluster or a store. Logging is left out.
use Prim.Native.String.{len, slice}
use go_kube_ops_view.Prelude.{
  ℕ, zero, suc, ◌+◌, ◌-◌, String, Bool, true, false, Option, none, some, List, [], ◌∷◌, ◌==◌, ◌&&◌,
  not, any, leb, ltb, if◌then◌else◌,
}
use go_kube_ops_view.Dict
use go_kube_ops_view.Json.{Json, str, null}
use go_kube_ops_view.Models.{GoMap, Time}
use go_kube_ops_view.Errors.{
  ErrorCode, AppError, GoError, app, other, with_context, with_cluster, new_app_error_with_cause,
  get_http_status, cluster_connection, cluster_timeout, cluster_api_error, auth_invalid,
  auth_forbidden, resource_not_found, store_connection, store_timeout, system_overloaded, unknown,
}

-- s[i:i+len(sub)] == sub for one of the `n` positions from `i` on
found_from : ℕ → ℕ → String → String → Bool
found_from zero i s sub = false
found_from (suc n) i s sub =
    let rest = found_from n (suc i) s sub in if slice s i (i + len sub) == sub then true else rest

contains_one : String → String → Bool
contains_one s sub =
    ltb 0 (len sub) && leb (len sub) (len s) && found_from (suc (len s - len sub)) 0 s sub

unfoldable pub contains : String → List String → Bool
unfolding contains_one found_from
contains s subs = any (contains_one s) subs

unfoldable pub infer_error_code : String → ErrorCode
infer_error_code text =
    if contains text ("connection refused" ∷ "connection timeout" ∷ "no route to host" ∷ [])
    then cluster_connection
    else if contains text ("context deadline exceeded" ∷ "timeout" ∷ [])
    then cluster_timeout
    else if contains text ("unauthorized" ∷ "authentication" ∷ "invalid credentials" ∷ [])
    then auth_invalid
    else if contains text ("forbidden" ∷ "access denied" ∷ [])
    then auth_forbidden
    else if contains text ("not found" ∷ [])
    then resource_not_found
    else if contains text ("redis" ∷ "store" ∷ "database" ∷ [])
    then store_connection
    else unknown

unfoldable pub get_retry_after : ErrorCode → ℕ
get_retry_after cluster_timeout = 30
get_retry_after store_timeout = 30
get_retry_after cluster_connection = 60
get_retry_after store_connection = 60
get_retry_after system_overloaded = 120
get_retry_after _ = 60

abbrev pub should_include_details : ℕ → Bool
should_include_details status = leb 400 status && ltb status 500

-- The payload of `sendErrorResponse`, and the status that it is sent with.
pub record Response : Type 0 where
  pub status : ℕ
  pub code : ErrorCode
  pub message : String
  pub timestamp : Time
  pub details : Option String
  pub retry_after : Option ℕ

-- appErr.Context["cluster_id"] == nil, for a nil map too
unfoldable pub lacks_cluster : GoMap Json → Bool
lacks_cluster none = true
lacks_cluster (some d) = elim (Dict.get d "cluster_id") [
  | none ↦ true
  | some v ↦ elim v [ null ↦ true | _ ↦ false ]
]

module _ {C : Type 0} where
  unfoldable pub convert_to_app_error : GoError C → Time → AppError C
  convert_to_app_error (app e) now = e
  convert_to_app_error (other text c) now =
      new_app_error_with_cause (infer_error_code text) "Operation failed" (some c) now

  unfoldable pub apply_cluster_error_strategy : AppError C → Option (AppError C)
  apply_cluster_error_strategy e = elim e.code [ cluster_api_error ↦ none | _ ↦ some e ]

  abbrev pub apply_store_error_strategy : AppError C → Option (AppError C)
  apply_store_error_strategy e = some e

  unfoldable pub handle_cluster_error : String → Option (GoError C) → Time → Option (AppError C)
  handle_cluster_error id none now = none
  handle_cluster_error id (some err) now =
      let e = convert_to_app_error err now in
      apply_cluster_error_strategy (if lacks_cluster e.context then with_cluster id e else e)

  unfoldable pub handle_store_error : String → Option (GoError C) → Time → Option (AppError C)
  handle_store_error operation none now = none
  handle_store_error operation (some err) now =
      apply_store_error_strategy
        (with_context "operation" (str operation) (convert_to_app_error err now))

  unfoldable pub send_error_response : AppError C → Response
  send_error_response e =
      let status = get_http_status e in
      record {
        status = status;
        code = e.code;
        message = e.message;
        timestamp = e.timestamp;
        details =
            if not (e.details == "") && should_include_details status then some e.details else none;
        retry_after = if e.retryable then some (get_retry_after e.code) else none;
      }

  unfoldable pub handle_error : Option (GoError C) → Time → Option Response
  handle_error none now = none
  handle_error (some err) now = some (send_error_response (convert_to_app_error err now))
