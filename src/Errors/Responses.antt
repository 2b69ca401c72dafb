-- ===== src/Errors/Responses.antt =====
-- What a browser and the cluster manager learn of an error (internal/errors/handler.go and types.go).
use go_kube_ops_view.Prelude.{
  ℕ, ◌≤◌, ◌<◌, String, ◌≡◌, ◌≢◌, ◌↔◌, ◌⊎◌, List, [], ◌∷◌, All, refl, false, none, some, arith,
  if◌then◌else◌, ap, sym, ◌∙◌,
}
use go_kube_ops_view.Dict
use go_kube_ops_view.Dict.{Dict, get-put}
use go_kube_ops_view.Json.{Json, str}
use go_kube_ops_view.Models.{Time}
use go_kube_ops_view.Errors.{
  ErrorCode, AppError, GoError, cluster_api_error, http_bad_request, config_invalid,
  resource_invalid, auth_missing, auth_invalid, auth_forbidden, http_not_found, cluster_not_found,
  store_not_found, resource_not_found, http_method_not_allowed, resource_conflict, cluster_timeout,
  store_timeout, system_overloaded, http_service_unavailable, cluster_unavailable,
  store_unavailable, system_unavailable, config_missing, config_validation, cluster_connection,
  cluster_auth, auth_expired, auth_provider_error, store_connection, store_corrupted,
  http_internal_error, system_maintenance, unknown, default_status, get_http_status, new_http_error,
  with_context, with_cluster, new_app_error_full,
}
use go_kube_ops_view.Errors.Handler.{
  lacks_cluster, convert_to_app_error, apply_cluster_error_strategy, handle_cluster_error,
  send_error_response, get_retry_after,
}

abbrev pub IsOneOf : ErrorCode → List ErrorCode → Type 0
IsOneOf c [] = ⊥
IsOneOf c (x ∷ xs) = (c ≡ x) ⊎ IsOneOf c xs

-- The statuses of responses, each with the error codes that it stands for.
abbrev pub status_codes : List (ℕ × List ErrorCode)
status_codes =
    (400, http_bad_request ∷ config_invalid ∷ resource_invalid ∷ [])
    ∷ (401, auth_missing ∷ auth_invalid ∷ [])
    ∷ (403, auth_forbidden ∷ [])
    ∷ (404, http_not_found ∷ cluster_not_found ∷ store_not_found ∷ resource_not_found ∷ [])
    ∷ (405, http_method_not_allowed ∷ [])
    ∷ (408, cluster_timeout ∷ store_timeout ∷ [])
    ∷ (409, resource_conflict ∷ [])
    ∷ (429, system_overloaded ∷ [])
    ∷ (
      500,
      config_missing ∷ config_validation ∷ cluster_connection ∷ cluster_auth ∷ cluster_api_error
          ∷ auth_expired ∷ auth_provider_error ∷ store_connection ∷ store_corrupted
          ∷ http_internal_error ∷ system_maintenance ∷ unknown ∷ [],
    )
    ∷ (
      503,
      http_service_unavailable ∷ cluster_unavailable ∷ store_unavailable ∷ system_unavailable ∷ [],
    )
    ∷ []

status_codes_lem :
    (c : ErrorCode)
    → All (λ (row : ℕ × List ErrorCode). (default_status c ≡ row.0) ↔ IsOneOf c row.1) status_codes
unfolding default_status
status_codes_lem c = ground arith

get_retry_after-bounds : (c : ErrorCode) → (30 ≤ get_retry_after c) × (get_retry_after c ≤ 120)
unfolding get_retry_after
get_retry_after-bounds c = ground arith

module _ {C : Type 0} where
  -- An error whose status nobody set is answered with 400 exactly if its code is a bad request, an
  -- invalid configuration or an invalid resource, with 401 exactly for missing or invalid credentials,
  -- 403 for a forbidden action, 404 for anything not found, 405 for a method that is not allowed, 408
  -- for a timeout of a cluster or the store, 409 for a conflict, 429 for an overload, 503 for anything
  -- unavailable, and 500 exactly for the other codes.
  pub response_status :
      (e : AppError C)
      → e.http_status ≡ 0
      → All
          (λ (row : ℕ × List ErrorCode).
            ((send_error_response e).status ≡ row.0) ↔ IsOneOf e.code row.1)
          status_codes
  unfolding send_error_response get_http_status
  response_status e h = rw h (status_codes_lem e.code)

  -- The details of an error never leave with a status of a server error or of no error at all.
  pub no_details :
      (e : AppError C) (d : String)
      → (send_error_response e).details ≡ some d
      → (400 ≤ (send_error_response e).status)
        × ((send_error_response e).status < 500)
        × (d ≡ e.details)
  unfolding send_error_response
  no_details e d h = ground arith

  with_context_eq :
      (key : String) (v : Json) (e : AppError C)
      → (d : Dict Json) × ((with_context key v e).context ≡ some (Dict.put d key v))
  unfolding with_context
  with_context_eq key v e = (_, refl)

  named : (id : String) (e : AppError C) → lacks_cluster (with_cluster id e).context ≡ false
  unfolding lacks_cluster
  named id e =
      let (d, p) = with_context_eq "cluster_id" (str id) e in
      rw (p, lacks_cluster) (rw (get-put d "cluster_id" "cluster_id" (str id)) refl)

  -- The error that the strategy is applied to.
  abbrev in_cluster : String → GoError C → Time → AppError C
  in_cluster id err now =
      let e = convert_to_app_error err now in
      if lacks_cluster e.context then with_cluster id e else e

  in_cluster-code :
      (id : String) (err : GoError C) (now : Time)
      → (in_cluster id err now).code ≡ (convert_to_app_error err now).code
  unfolding with_context
  in_cluster-code id err now = ground arith

  in_cluster-named :
      (id : String) (err : GoError C) (now : Time)
      → lacks_cluster (in_cluster id err now).context ≡ false
  in_cluster-named id err now = ground (arith, named id (convert_to_app_error err now))

  strategy_iff :
      (e : AppError C) → (apply_cluster_error_strategy e ≡ none) ↔ (e.code ≡ cluster_api_error)
  unfolding apply_cluster_error_strategy
  strategy_iff e = ground arith

  strategy_same : (e e' : AppError C) → apply_cluster_error_strategy e ≡ some e' → e ≡ e'
  unfolding apply_cluster_error_strategy
  strategy_same e e' h = ground arith

  -- An error of a cluster is dropped exactly if it is an API error; any other is passed on with its
  -- code, and names a cluster.
  pub handle_cluster_error_lem :
      (id : String) (err : GoError C) (now : Time)
      → ((handle_cluster_error id (some err) now ≡ none)
          ↔ ((convert_to_app_error err now).code ≡ cluster_api_error))
        × ((e : AppError C)
            → handle_cluster_error id (some err) now ≡ some e
            → (e.code ≡ (convert_to_app_error err now).code) × (lacks_cluster e.context ≡ false))
  unfolding handle_cluster_error
  handle_cluster_error_lem id err now =
      let e = in_cluster id err now in
      let c = in_cluster-code id err now in
      let iff = strategy_iff e in
      (
        (λ h. sym c ∙ iff.0 h, λ h. iff.1 (c ∙ h)),
        λ e' h.
            let same = strategy_same e e' h in
            (
              sym (ap (λ (x : AppError C). x.code) same) ∙ c,
              sym (ap (λ (x : AppError C). lacks_cluster x.context) same)
                  ∙ in_cluster-named id err now,
            ),
      )

-- `NewHTTPError` is answered with the status that it was made for.
pub http_error_status :
    (C : Type 0) (status : ℕ) (message : String) (now : Time)
    → status ≢ 0
    → (send_error_response (new_http_error {C = C} status message now)).status ≡ status
unfolding send_error_response get_http_status new_http_error new_app_error_full
http_error_status C status message now h = ground arith
