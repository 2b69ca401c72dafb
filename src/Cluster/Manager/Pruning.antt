-- ===== src/Cluster/Manager/Pruning.antt =====
-- When internal/cluster/manager.go gives up a cluster that is not available.
use go_kube_ops_view.Prelude.{
  ℕ, ◌+◌, ◌≤◌, String, ◌≡◌, refl, ◌∙◌, ap, sym, subst, not, ◌&&◌, Bool, true, false, Option, none,
  some, List, [], ◌∷◌, arith, eq_iff, eq_refl, ◌==◌, if◌then◌else◌, any, Bool-cases, Option-cases,
  inl, inr,
}
use go_kube_ops_view.Dict
use go_kube_ops_view.Dict.{Dict, get-put, get-remove, get-keys}
use go_kube_ops_view.Models.{Time}
use go_kube_ops_view.Cluster.{ClusterConfig, ClusterStatus}
use go_kube_ops_view.Cluster.Manager.{
  Surroundings, Manager, update_cluster_status, check_cluster_health, is_stale, clusters_to_remove,
  prune_cluster, prune_clusters, perform_cluster_pruning,
}

-- A health check and a pruning, with the readings of the clock.
pub data Op : Type 0 where
  check : String → Option String → Time → Op
  prune : Time → Op

-- No pruning comes later than the threshold after the last check of the cluster, which was at
-- `last` before the calls.
abbrev pub IsTimely : String → ℕ → Time → List Op → Type 0
IsTimely id threshold last [] = Unit
IsTimely id threshold last (check j failure now ∷ ops) = elim (j == id) [
  | true ↦ IsTimely id threshold now ops
  | false ↦ IsTimely id threshold last ops
]
IsTimely id threshold last (prune now ∷ ops) =
    (now ≤ last + threshold) × IsTimely id threshold last ops

module _ (env : Surroundings) where
  -- What pruning does to one cluster, wherever it stands in the loop.
  pruned_clients :
      (ks : List String) (m : Manager env) (id : String)
      → Dict.get (prune_clusters env ks m).clients id
        ≡ (if any (λ k. k == id) ks then none else Dict.get m.clients id)
  unfolding prune_clusters prune_cluster
  pruned_clients [] m id = refl
  pruned_clients (k ∷ ks) m id =
      ground (arith, pruned_clients ks (prune_cluster env k m) id, get-remove m.clients k id)

  pruned_statuses :
      (ks : List String) (m : Manager env) (id : String)
      → Dict.get (prune_clusters env ks m).cluster_statuses id
        ≡ (if any (λ k. k == id) ks then none else Dict.get m.cluster_statuses id)
  unfolding prune_clusters prune_cluster
  pruned_statuses [] m id = refl
  pruned_statuses (k ∷ ks) m id =
      ground
        (arith, pruned_statuses ks (prune_cluster env k m) id, get-remove m.cluster_statuses k id)

  -- Whether the status of a cluster lets it be pruned.
  abbrev pub stale_at : ℕ → Time → Option ClusterStatus → Bool
  stale_at threshold now none = false
  stale_at threshold now (some s) = is_stale env threshold now s

  same_status :
      (d : Dict ClusterStatus) (k id : String) → (k == id) ≡ true → Dict.get d k ≡ Dict.get d id
  same_status d k id h = ap (Dict.get d) ((eq_iff k id).0 h)

  collected :
      (threshold : ℕ) (now : Time) (d : Dict ClusterStatus) (ks : List String) (id : String)
      → any (λ k. k == id) (clusters_to_remove env threshold now d ks)
        ≡ (any (λ k. k == id) ks && stale_at threshold now (Dict.get d id))
  unfolding clusters_to_remove
  collected threshold now d [] id = refl
  collected threshold now d (k ∷ ks) id =
      ground (arith, collected threshold now d ks id, same_status d k id)

  collected_keys :
      (threshold : ℕ) (now : Time) (d : Dict ClusterStatus) (id : String)
      → any (λ k. k == id) (clusters_to_remove env threshold now d (Dict.keys d))
        ≡ stale_at threshold now (Dict.get d id)
  collected_keys threshold now d id = elim (Option-cases (Dict.get d id)) [
    | inl e ↦ ground (arith, e, collected threshold now d (Dict.keys d) id)
    | inr (s, e) ↦ ground (arith, e, collected threshold now d (Dict.keys d) id, get-keys d id e)
  ]

  -- Pruning takes away exactly the clusters whose status says that they are not available and were
  -- not seen for longer than the threshold: their client and their status; every other cluster keeps
  -- both, and a cancelled manager prunes nothing.
  pub perform_cluster_pruning_lem :
      (m : Manager env) (now : Time) (id : String)
      → let gone =
          not m.cancelled && stale_at m.prune_threshold now (Dict.get m.cluster_statuses id) in
        (Dict.get (perform_cluster_pruning env now m).clients id
          ≡ (if gone then none else Dict.get m.clients id))
        × (Dict.get (perform_cluster_pruning env now m).cluster_statuses id
            ≡ (if gone then none else Dict.get m.cluster_statuses id))
  unfolding perform_cluster_pruning
  perform_cluster_pruning_lem m now id =
      let d = m.cluster_statuses in
      let ks = clusters_to_remove env m.prune_threshold now d (Dict.keys d) in
      let c = collected_keys m.prune_threshold now d id in
      (ground (arith, c, pruned_clients ks m id), ground (arith, c, pruned_statuses ks m id))

  unfoldable pub step : Op → Manager env → Manager env
  step (check id failure now) m = check_cluster_health env id failure now m
  step (prune now) m = perform_cluster_pruning env now m

  unfoldable pub run : List Op → Manager env → Manager env
  run [] m = m
  run (o ∷ ops) m = run ops (step o m)

  record IsWatched (id : String) (c : ClusterConfig) (threshold : ℕ) (last : Time) (m : Manager env)
      : Type 0 where
    running : m.cancelled ≡ false
    patience : m.prune_threshold ≡ threshold
    client : Dict.get m.clients id ≡ some c
    status : (s : ClusterStatus) × (Dict.get m.cluster_statuses id ≡ some s) × (s.last_seen ≡ last)

  prune_clusters_rest :
      (ks : List String) (m : Manager env)
      → ((prune_clusters env ks m).cancelled ≡ m.cancelled)
        × ((prune_clusters env ks m).prune_threshold ≡ m.prune_threshold)
  unfolding prune_clusters prune_cluster
  prune_clusters_rest [] m = (refl, refl)
  prune_clusters_rest (k ∷ ks) m = prune_clusters_rest ks (prune_cluster env k m)

  perform_rest :
      (now : Time) (m : Manager env)
      → ((perform_cluster_pruning env now m).cancelled ≡ m.cancelled)
        × ((perform_cluster_pruning env now m).prune_threshold ≡ m.prune_threshold)
  unfolding perform_cluster_pruning
  perform_rest now m =
      let r =
        prune_clusters_rest
          (clusters_to_remove env m.prune_threshold now m.cluster_statuses
            (Dict.keys m.cluster_statuses))
          m in
      (ground (arith, r.0), ground (arith, r.1))

  prune-IsWatched :
      (id : String) (c : ClusterConfig) (threshold last now : ℕ) (m : Manager env)
      → now ≤ last + threshold
      → IsWatched id c threshold last m
      → IsWatched id c threshold last (perform_cluster_pruning env now m)
  prune-IsWatched id c threshold last now m l h =
      let (s, e, t) = h.status in
      let fresh : stale_at m.prune_threshold now (Dict.get m.cluster_statuses id) ≡ false =
        ground (arith, e, t, l, h.patience) in
      let p = perform_cluster_pruning_lem m now id in
      let r = perform_rest now m in
      record {
        running = r.0 ∙ h.running;
        patience = r.1 ∙ h.patience;
        client = ground (arith, p.0, fresh, h.client);
        status = (s, ground (arith, p.1, fresh, e), t);
      }

  -- The status that a health check reports: last seen when it was made, also if it failed.
  abbrev reported : String → Option String → Time → ClusterStatus
  reported id failure now = record {
    id = id;
    available = elim failure [ none ↦ true | some _ ↦ false ];
    last_seen = now;
    error = elim failure [ none ↦ "" | some e ↦ e ];
    version = "";
    node_count = 0;
  }

  check_rest :
      (id : String) (failure : Option String) (now : Time) (m : Manager env)
      → ((check_cluster_health env id failure now m).cancelled ≡ m.cancelled)
        × ((check_cluster_health env id failure now m).prune_threshold ≡ m.prune_threshold)
        × ((check_cluster_health env id failure now m).clients ≡ m.clients)
  unfolding check_cluster_health update_cluster_status
  check_rest id failure now m = (ground arith, ground arith, ground arith)

  check_statuses :
      (id : String) (failure : Option String) (now : Time) (m : Manager env)
      → m.cancelled ≡ false
      → (check_cluster_health env id failure now m).cluster_statuses
        ≡ Dict.put m.cluster_statuses id (reported id failure now)
  unfolding check_cluster_health update_cluster_status
  check_statuses id failure now m h = ground (arith, h)

  own_check-IsWatched :
      (id : String) (c : ClusterConfig) (threshold last now : ℕ) (failure : Option String)
      (m : Manager env)
      → IsWatched id c threshold last m
      → IsWatched id c threshold now (check_cluster_health env id failure now m)
  own_check-IsWatched id c threshold last now failure m h =
      let r = check_rest id failure now m in
      let p = check_statuses id failure now m h.running in
      record {
        running = r.0 ∙ h.running;
        patience = r.1 ∙ h.patience;
        client = ap (λ d. Dict.get d id) r.2 ∙ h.client;
        status = (
          reported id failure now,
          ap (λ d. Dict.get d id) p ∙ rw get-put (rw eq_refl refl),
          refl,
        );
      }

  other_check-IsWatched :
      (id j : String) (c : ClusterConfig) (threshold last now : ℕ) (failure : Option String)
      (m : Manager env)
      → (j == id) ≡ false
      → IsWatched id c threshold last m
      → IsWatched id c threshold last (check_cluster_health env j failure now m)
  other_check-IsWatched id j c threshold last now failure m n h =
      let r = check_rest j failure now m in
      let p = check_statuses j failure now m h.running in
      let (s, e, t) = h.status in
      record {
        running = r.0 ∙ h.running;
        patience = r.1 ∙ h.patience;
        client = ap (λ d. Dict.get d id) r.2 ∙ h.client;
        status = (s, ap (λ d. Dict.get d id) p ∙ rw get-put (rw n e), t);
      }

  run-client :
      (ops : List Op) (id : String) (c : ClusterConfig) (threshold last : ℕ) (m : Manager env)
      → IsTimely id threshold last ops
      → IsWatched id c threshold last m
      → Dict.get (run ops m).clients id ≡ some c
  unfolding run step
  run-client [] id c threshold last m t h = h.client
  run-client (prune now ∷ ops) id c threshold last m t h =
      run-client ops id c threshold last (perform_cluster_pruning env now m) t.1
        (prune-IsWatched id c threshold last now m t.0 h)
  run-client (check j failure now ∷ ops) id c threshold last m t h = elim (Bool-cases (j == id)) [
    | inl q ↦
        subst
          (λ i. Dict.get (run ops (check_cluster_health env i failure now m)).clients id ≡ some c)
          (sym ((eq_iff j id).0 q))
          (run-client ops id c threshold now (check_cluster_health env id failure now m)
            (rw (q, IsTimely) at t) (own_check-IsWatched id c threshold last now failure m h))
    | inr q ↦
        run-client ops id c threshold last (check_cluster_health env j failure now m)
          (rw (q, IsTimely) at t) (other_check-IsWatched id j c threshold last now failure m q h)
  ]

  -- A cluster that fails every health check is never pruned while the checks go on: if no pruning
  -- comes later than the threshold after the cluster's last check, its client stays, whatever the
  -- checks report.
  pub never_pruned :
      (m : Manager env) (id : String) (c : ClusterConfig) (failure : Option String) (first : Time)
      (ops : List Op)
      → m.cancelled ≡ false
      → Dict.get m.clients id ≡ some c
      → IsTimely id m.prune_threshold first ops
      → Dict.get (run ops (check_cluster_health env id failure first m)).clients id ≡ some c
  never_pruned m id c failure first ops r e t =
      let k = check_rest id failure first m in
      let p = check_statuses id failure first m r in
      run-client ops id c m.prune_threshold first (check_cluster_health env id failure first m) t
        (record {
          running = k.0 ∙ r;
          patience = k.1;
          client = ap (λ d. Dict.get d id) k.2 ∙ e;
          status = (
            reported id failure first,
            ap (λ d. Dict.get d id) p ∙ rw get-put (rw eq_refl refl),
            refl,
          );
        })
