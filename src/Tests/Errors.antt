-- ===== src/Tests/Errors.antt =====
-- Errors, their responses and retries.
use go_kube_ops_view.Prelude.{
  All, List, ℕ, zero, suc, String, ◌≡◌, ◌↔◌, refl, false, Option, none, some, ok, arith, inl,
}
use go_kube_ops_view.Errors.{
  ErrorCode, AppError, GoError, app, other, cluster_timeout, cluster_connection, new_app_error,
  new_app_error_with_details, cluster_api_error, resource_invalid, new_app_error_full, is_retryable,
  is_retryable_error, get_http_status, default_status,
}
use go_kube_ops_view.Errors.Handler.{
  contains, infer_error_code, convert_to_app_error, send_error_response, handle_cluster_error,
  lacks_cluster,
}
use go_kube_ops_view.Errors.Responses.{
  IsOneOf, status_codes, response_status, handle_cluster_error_lem,
}
use go_kube_ops_view.Errors.Retry.{RetryConfig, as_result, retry_with_backoff, retry_lem, state_at}

inferred : infer_error_code "dial tcp: connection refused" ≡ cluster_connection
unfolding infer_error_code contains
inferred = refl

abbrev timed_out : AppError String
timed_out = new_app_error cluster_timeout "Cluster operation timed out" 5

response_status_example :
    All
      (λ (row : ℕ × List ErrorCode).
        ((send_error_response timed_out).status ≡ row.0) ↔ IsOneOf timed_out.code row.1)
      status_codes
unfolding new_app_error_full
response_status_example = response_status timed_out refl

abbrev detailed : AppError String
detailed = new_app_error_with_details resource_invalid "bad" "no such field" 5

detailed_shown : (send_error_response detailed).details ≡ some "no such field"
unfolding send_error_response new_app_error_full get_http_status default_status
detailed_shown = refl

abbrev refused : GoError String
refused = other "dial tcp: connection refused" "tcp"

handle_cluster_error_lem_example :
    ((handle_cluster_error "c" (some refused) 5 ≡ none)
      ↔ ((convert_to_app_error refused 5).code ≡ cluster_api_error))
    × ((e : AppError String)
        → handle_cluster_error "c" (some refused) 5 ≡ some e
        → (e.code ≡ (convert_to_app_error refused 5).code) × (lacks_cluster e.context ≡ false))
handle_cluster_error_lem_example = handle_cluster_error_lem "c" refused 5

-- An operation that times out twice and then succeeds, and counts its calls.
abbrev flaky : ℕ → Option (GoError String) × ℕ
flaky zero = (some (app timed_out), 1)
flaky (suc zero) = (some (app timed_out), 2)
flaky n = (none, suc n)

abbrev patient : ℕ → ℕ → Option (GoError String) × ℕ
patient delay n = (none, n)

abbrev config : RetryConfig
config = record {
  max_attempts = 3;
  base_delay = 1000000000;
  max_delay = 30000000000;
  multiplier = 2;
}

retry_lem_example : retry_with_backoff config flaky patient 0 ≡ (
  as_result (flaky (state_at config flaky patient 1 2 0)).0,
  (flaky (state_at config flaky patient 1 2 0)).1,
)
unfolding new_app_error_full is_retryable is_retryable_error
retry_lem_example =
    retry_lem config flaky patient 2 0 (refl, refl, (refl, refl, tt)) (omega arith) (inl refl)

three_calls : retry_with_backoff config flaky patient 0 ≡ (ok tt, 3)
three_calls = retry_lem_example
