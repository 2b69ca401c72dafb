-- ===== src/Health.antt =====
-- internal/health/health.go: `Checker`, the overall status and the response. `W` is the rest of the
-- world, which the clock and the registered checks read and change.
pub mod Results
pub mod Summaries
use go_kube_ops_view.Prelude.{
  ℕ, String, Bool, true, false, List, [], ◌∷◌, ◌+◌, ◌-◌, length, map, nat_eq, if◌then◌else◌,
}
use go_kube_ops_view.Dict
use go_kube_ops_view.Dict.{Dict}
use go_kube_ops_view.Json.{Json}
use go_kube_ops_view.Models.{GoMap, Time}

-- A text: one of the four constants, or another one.
pub data Status : Type 0 where
  healthy unhealthy degraded unknown : Status
  other : String → Status

pub record Check : Type 0 where
  pub name : String
  pub status : Status
  pub message : String
  pub last_checked : Time
  pub duration : ℕ
  pub details : GoMap Json

-- The map of the counts, whose keys are fixed.
pub record Summary : Type 0 where
  pub total : ℕ
  pub healthy_count : ℕ
  pub unhealthy_count : ℕ
  pub degraded_count : ℕ
  pub unknown_count : ℕ

pub record HealthResponse : Type 0 where
  pub status : Status
  pub timestamp : Time
  pub uptime : ℕ
  pub version : String
  pub checks : Dict Check
  pub summary : Summary

-- The values of a map, in an order the `range` may have.
abbrev pub values : Dict Check → List Check
values d = map (λ e. e.1) d.entries

-- The switch of `GetOverallStatus`, on `hasUnhealthy` and `hasDegraded`.
unfoldable pub set_flags : Status → Bool × Bool → Bool × Bool
set_flags unhealthy (u, d) = (true, d)
set_flags degraded (u, d) = (u, true)
set_flags unknown (u, d) = (u, true)
set_flags _ (u, d) = (u, d)

unfoldable pub flags : List Check → Bool × Bool → Bool × Bool
flags [] seen = seen
flags (c ∷ cs) seen = flags cs (set_flags c.status seen)

unfoldable pub get_overall_status : Dict Check → Status
get_overall_status checks =
    let seen = flags (values checks) (false, false) in
    if nat_eq (length (values checks)) 0
    then unknown
    else if seen.0
    then unhealthy
    else if seen.1
    then degraded
    else healthy

-- The switch of `CreateHealthResponse`.
unfoldable pub add_to_summary : Status → Summary → Summary
add_to_summary healthy s = record s { healthy_count = s.healthy_count + 1 }
add_to_summary unhealthy s = record s { unhealthy_count = s.unhealthy_count + 1 }
add_to_summary degraded s = record s { degraded_count = s.degraded_count + 1 }
add_to_summary unknown s = record s { unknown_count = s.unknown_count + 1 }
add_to_summary (other t) s = s

unfoldable pub summarize : List Check → Summary → Summary
summarize [] s = s
summarize (c ∷ cs) s = summarize cs (add_to_summary c.status s)

module _ (W : Type 0) (clock : W → Time × W) where
  abbrev pub CheckFunc : Type 0
  CheckFunc = W → Check × W

  abbrev pub add_check : String → CheckFunc → Dict CheckFunc → Dict CheckFunc
  add_check name check_func checks = Dict.put checks name check_func

  -- One check, with the three readings of the clock around it.
  unfoldable pub timed : CheckFunc → CheckFunc
  timed check_func w =
      let start = clock w in
      let ran = check_func start.1 in
      let since = clock ran.1 in
      let last = clock since.1 in
      (record ran.0 { duration = since.0 - start.0; last_checked = last.0 }, last.1)

  unfoldable pub check_each : List (String × CheckFunc) → Dict Check → W → Dict Check × W
  check_each [] results w = (results, w)
  check_each ((name, check_func) ∷ rest) results w =
      let done = timed check_func w in check_each rest (Dict.put results name done.0) done.1

  unfoldable pub check_all : Dict CheckFunc → W → Dict Check × W
  check_all checks w = check_each checks.entries Dict.empty w

  unfoldable pub create_health_response : Dict CheckFunc → Time → String → W → HealthResponse × W
  create_health_response registered start_time version w =
      let ran = check_all registered w in
      let now = clock ran.1 in
      let since = clock now.1 in
      let zeros : Summary = record {
        total = length (values ran.0);
        healthy_count = 0;
        unhealthy_count = 0;
        degraded_count = 0;
        unknown_count = 0;
      } in
      (
        record {
          status = get_overall_status ran.0;
          timestamp = now.0;
          uptime = since.0 - start_time;
          version = version;
          checks = ran.0;
          summary = summarize (values ran.0) zeros;
        },
        since.1,
      )
