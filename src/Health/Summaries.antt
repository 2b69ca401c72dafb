-- ===== src/Health/Summaries.antt =====
-- The response of internal/health/health.go: its status and its counts.
use go_kube_ops_view.Prelude.{
  ℕ, suc, String, ◌≡◌, refl, ap, ◌∙◌, Bool, true, false, List, [], ◌∷◌, ◌+◌, ltb, length, arith,
  nat_eq, if◌then◌else◌,
}
use go_kube_ops_view.Dict.{Dict}
use go_kube_ops_view.Models.{Time}
use go_kube_ops_view.Health.{
  Status, healthy, unhealthy, degraded, unknown, other, Check, Summary, CheckFunc, values,
  set_flags, flags, add_to_summary, get_overall_status, summarize, check_all,
  create_health_response,
}

-- The two flags that a summary accounts for.
abbrev flags_of : Summary → Bool × Bool
flags_of s = (ltb 0 s.unhealthy_count, ltb 0 (s.degraded_count + s.unknown_count))

flags_of-add_to_summary :
    (st : Status) (s : Summary) → set_flags st (flags_of s) ≡ flags_of (add_to_summary st s)
unfolding set_flags add_to_summary
flags_of-add_to_summary healthy s = refl
flags_of-add_to_summary unhealthy s = ground arith
flags_of-add_to_summary degraded s = ground arith
flags_of-add_to_summary unknown s = ground arith
flags_of-add_to_summary (other t) s = refl

-- Both loops see the same checks.
flags-summarize :
    (cs : List Check) (s : Summary) → flags cs (flags_of s) ≡ flags_of (summarize cs s)
unfolding flags summarize
flags-summarize [] s = refl
flags-summarize (c ∷ cs) s =
    ap (flags cs) (flags_of-add_to_summary c.status s)
    ∙ flags-summarize cs (add_to_summary c.status s)

-- The entry of the counts for a status; another text has none.
abbrev pub count_of : Status → Summary → ℕ
count_of healthy s = s.healthy_count
count_of unhealthy s = s.unhealthy_count
count_of degraded s = s.degraded_count
count_of unknown s = s.unknown_count
count_of (other t) s = 0

abbrev pub is_counted_as : Status → Status → Bool
is_counted_as healthy healthy = true
is_counted_as unhealthy unhealthy = true
is_counted_as degraded degraded = true
is_counted_as unknown unknown = true
is_counted_as _ _ = false

-- How many of the checks have a status.
abbrev pub number : Status → List Check → ℕ
number k [] = 0
number k (c ∷ cs) = let rest = number k cs in if is_counted_as k c.status then suc rest else rest

count_of-add_to_summary :
    (k st : Status) (s : Summary)
    → count_of k (add_to_summary st s)
      ≡ (if is_counted_as k st then suc (count_of k s) else count_of k s)
unfolding add_to_summary
count_of-add_to_summary k st s = ground arith

add_to_summary-total : (st : Status) (s : Summary) → (add_to_summary st s).total ≡ s.total
unfolding add_to_summary
add_to_summary-total st s = ground arith

summarize-total : (cs : List Check) (s : Summary) → (summarize cs s).total ≡ s.total
unfolding summarize
summarize-total [] s = refl
summarize-total (c ∷ cs) s =
    summarize-total cs (add_to_summary c.status s) ∙ add_to_summary-total c.status s

summarize-number :
    (k : Status) (cs : List Check) (s : Summary)
    → count_of k (summarize cs s) ≡ count_of k s + number k cs
unfolding summarize
summarize-number k [] s = omega arith
summarize-number k (c ∷ cs) s =
    ground (
      arith,
      summarize-number k cs (add_to_summary c.status s),
      count_of-add_to_summary k c.status s,
    )

abbrev pub zeros : ℕ → Summary
zeros n = record {
  total = n;
  healthy_count = 0;
  unhealthy_count = 0;
  degraded_count = 0;
  unknown_count = 0;
}

count_of-zeros : (k : Status) (n : ℕ) → count_of k (zeros n) ≡ 0
count_of-zeros healthy n = refl
count_of-zeros unhealthy n = refl
count_of-zeros degraded n = refl
count_of-zeros unknown n = refl
count_of-zeros (other t) n = refl

summarize-zeros :
    (k : Status) (cs : List Check) (n : ℕ) → count_of k (summarize cs (zeros n)) ≡ number k cs
summarize-zeros k cs n = omega (arith, summarize-number k cs (zeros n), count_of-zeros k n)

-- What the counts of a response say of its status.
abbrev pub status_of : Summary → Status
status_of s =
    if nat_eq s.total 0
    then unknown
    else if ltb 0 s.unhealthy_count
    then unhealthy
    else if ltb 0 (s.degraded_count + s.unknown_count)
    then degraded
    else healthy

module _ (W : Type 0) (clock : W → Time × W) where
  -- The status that a health response states is the one its counts say, its total is the number of
  -- the checks it lists, and its count for each status is the number of the checks that have it.
  pub create_health_response_lem :
      (registered : Dict (CheckFunc W clock)) (start_time : Time) (version : String) (w : W)
      → let r = (create_health_response W clock registered start_time version w).0 in
        (r.status ≡ status_of r.summary)
        × (r.summary.total ≡ length (values r.checks))
        × ((k : Status) → count_of k r.summary ≡ number k (values r.checks))
  unfolding create_health_response get_overall_status
  create_health_response_lem registered start_time version w =
      let cs = values (check_all W clock registered w).0 in
      let seen = flags-summarize cs (zeros (length cs)) in
      let total = summarize-total cs (zeros (length cs)) in
      (grind (arith, seen, total), total, λ k. summarize-zeros k cs (length cs))
