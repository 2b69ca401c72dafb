-- ===== src/Tests/Health.antt =====
-- Three checks, one of them degraded, and a clock that counts its readings.
use go_kube_ops_view.Prelude.{ℕ, none, some, true, refl, suc, String, ◌≡◌, ◌+◌, length}
use go_kube_ops_view.Dict
use go_kube_ops_view.Dict.{Dict}
use go_kube_ops_view.Models.{Time}
use go_kube_ops_view.Health.{
  Status, healthy, degraded, CheckFunc, add_check, values, Check, check_all, create_health_response,
}
use go_kube_ops_view.Health.Results.{is_present, HasRun, check_all_lem}
use go_kube_ops_view.Health.Summaries.{status_of, count_of, number, create_health_response_lem}

abbrev clock : ℕ → Time × ℕ
clock w = (w, suc w)

abbrev reporting : String → Status → CheckFunc ℕ clock
reporting name st w = (
  record { name = name; status = st; message = ""; last_checked = 0; duration = 0; details = none },
  w + 10,
)

abbrev registered : Dict (CheckFunc ℕ clock)
registered = add_check ℕ clock "store" (reporting "store" healthy) (
    add_check ℕ clock "memory" (reporting "memory" degraded)
      (add_check ℕ clock "cluster" (reporting "cluster" healthy) Dict.empty))

create_health_response_lem_example :
    let r = (create_health_response ℕ clock registered 0 "1.0" 5).0 in
    (r.status ≡ status_of r.summary)
    × (r.summary.total ≡ length (values r.checks))
    × ((k : Status) → count_of k r.summary ≡ number k (values r.checks))
create_health_response_lem_example = create_health_response_lem ℕ clock registered 0 "1.0" 5

check_all_lem_example :
    let results = (check_all ℕ clock registered 5).0 in
    (is_present (Dict.get results "memory") ≡ is_present (Dict.get registered "memory"))
    × ((r : Check)
        → Dict.get results "memory" ≡ some r
        → HasRun ℕ clock registered.entries 5 "memory" r)
check_all_lem_example = check_all_lem ℕ clock registered 5 "memory"

memory_present : is_present (Dict.get registered "memory") ≡ true
unfolding Dict.get Dict.put
memory_present = refl
