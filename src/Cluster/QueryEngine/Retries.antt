-- ===== src/Cluster/QueryEngine/Retries.antt =====
-- `queryClusterWithRetry` of internal/cluster/query_engine.go reports on the cluster once it is not
-- cancelled.
use go_kube_ops_view.Prelude.{
  ℕ, zero, suc, ◌+◌, ◌<◌, String, ◌≡◌, refl, subst, Bool, false, Option, none, some, ◌⊎◌, inl, inr,
  nat_eq, if◌then◌else◌, arith, Option-cases, Bool-cases,
}
use go_kube_ops_view.Models.{Time}
use go_kube_ops_view.Cluster.{ClusterStatus}
use go_kube_ops_view.Cluster.QueryEngine.{
  Services, QueryEngine, update_cluster_status, available, attempts, query_cluster_with_retry,
}

module _ (env : Services) (attempt : ℕ → QueryEngine env → Option String × QueryEngine env) where
  abbrev pub pause : ℕ → QueryEngine env → Bool × env.World
  pause n e = if nat_eq n 0 then (false, e.world) else env.cancelled_in_wait e.world

  -- The query of a round, after the wait before it.
  abbrev pub query : ℕ → QueryEngine env → Option String × QueryEngine env
  query n e = attempt n (record e { world = (pause n e).1 })

  -- After a number of rounds that failed: the last error, and what the rounds left.
  pub data Failing (start : QueryEngine env) (id : String)
      : ℕ → String → QueryEngine env → Type 0 where
    begun : Failing start id 0 "" start
    again :
        {n : ℕ} {last x : String} {e : QueryEngine env}
        → Failing start id n last e
        → (query n e).0 ≡ some x
        → Failing start id (suc n) x (record (query n e).1 {
          world = env.record_cluster_query id 0 (some x) (query n e).1.world;
        })

  -- The one status that is written and published, at the time of the report.
  abbrev pub report : String → (Time → ClusterStatus) → QueryEngine env → QueryEngine env
  report id s e =
      update_cluster_status env id (s (env.now e.world).0)
        (record e { world = (env.now e.world).1 })

  abbrev pub unavailable : String → String → Time → ClusterStatus
  unavailable id x now = record (available env id now) { available = false; error = x }

  -- What comes of some rounds: the first that does not fail is reported, or the last error.
  abbrev pub Outcome : QueryEngine env → String → ℕ → QueryEngine env → Type 0
  Outcome start id rounds result =
      ((n : ℕ) × (last : String) × (e : QueryEngine env) × (n < rounds)
        × Failing start id n last e
        × ((query n e).0 ≡ none)
        × (result ≡ report id (available env id) (query n e).1))
      ⊎ ((last : String) × (e : QueryEngine env) × Failing start id rounds last e
          × (result ≡ report id (unavailable id last) e))

  module _ (uncancelled : (w : env.World) → (env.cancelled_in_wait w).0 ≡ false) where
    pause_ends : (n : ℕ) (e : QueryEngine env) → (pause n e).0 ≡ false
    pause_ends n e = elim (Bool-cases (nat_eq n 0)) [
      | inl z ↦ rw z refl
      | inr z ↦ rw z (uncancelled e.world)
    ]

    attempts_report :
        (start : QueryEngine env) (id : String) (k n rounds : ℕ) (last : String)
        (e : QueryEngine env)
        → k + n ≡ rounds
        → Failing start id n last e
        → Outcome start id rounds (attempts env attempt id k n last e)
    unfolding attempts
    attempts_report start id zero n rounds last e q f =
        let same : n ≡ rounds = omega arith in
        inr (last, e, subst (λ m. Failing start id m last e) same f, refl)
    attempts_report start id (suc k) n rounds last e q f = elim (Option-cases (query n e).0) [
      | inl done ↦
          inl (n, last, e, omega arith, f, done, rw (pause_ends n e, attempts) (rw done refl))
      | inr (x, failed) ↦
          let rest =
            attempts_report start id k (suc n) rounds x
              (record (query n e).1 {
                world = env.record_cluster_query id 0 (some x) (query n e).1.world;
              })
              (omega arith) (again f failed) in
          rw (pause_ends n e, attempts) (rw failed rest)
    ]

    -- A query that is not cancelled in a wait ends within three rounds, and reports on its cluster
    -- once: as available after the first round that does not fail, and as unavailable, with the error
    -- of the third, if all three fail.
    pub query_cluster_with_retry_lem :
        (id : String) (e : QueryEngine env)
        → Outcome e id 3 (query_cluster_with_retry env attempt id e)
    query_cluster_with_retry_lem id e = attempts_report e id 3 0 3 "" e refl begun
