-- ===== src/Cluster/Manager/Rediscovery.antt =====
-- `rediscoverClusters` of internal/cluster/manager.go: what a discovery leaves of the manager.
use go_kube_ops_view.Prelude.{
  String, Bool, ◌≡◌, refl, ◌∙◌, ap, false, none, some, List, not, ◌&&◌, arith, ◌==◌, if◌then◌else◌,
  any, Option-cases, inl, inr,
}
use go_kube_ops_view.Dict
use go_kube_ops_view.Dict.{Dict, get-keys, get-keys-none}
use go_kube_ops_view.Cluster.Manager.{
  Surroundings, Manager, process_discovered, track_existing, rediscover_clusters,
}
use go_kube_ops_view.Cluster.Manager.Loops.{
  Discovered, wanted, first_created, is_false, is_some, tracked_false, processed_clients,
  processed_existing, processed_engines, processed_rest, removed, removed_engines, after_deletes,
  marked, removed_rest, any-marked,
}

module _ (env : Surroundings) where
  -- The marks that the loop over the discovered clusters leaves.
  abbrev marks_after : Discovered → Manager env → Dict Bool
  marks_after l m =
      (process_discovered env l (track_existing env (Dict.keys m.clients) Dict.empty) m).0

  gone_iff :
      (l : Discovered) (m : Manager env) (id : String)
      → (any (λ k. k == id) (Dict.keys (marks_after l m))
          && is_false (Dict.get (marks_after l m) id))
        ≡ (is_some (Dict.get m.clients id) && not (wanted id l))
  gone_iff l m id =
      let e = track_existing env (Dict.keys m.clients) Dict.empty in
      let d = marks_after l m in
      let t = tracked_false env m id in
      let marks = processed_existing env l e m id (ground (arith, t)) in
      elim (Option-cases (Dict.get d id)) [
        | inl q ↦ ground (arith, q, t, marks, get-keys-none d id q)
        | inr (b, q) ↦ ground (arith, q, t, marks, get-keys d id q)
      ]

  -- After a discovery that succeeds, the manager has exactly the clients of the clusters discovered:
  -- a client that was there stays if its cluster is named and goes with its engine if not, and a
  -- cluster that is new gets a client, from the first of its configurations that one can be made
  -- for, and an engine. The other engines and the statuses stay, and `DeleteCluster` is called on
  -- the store for the clusters whose clients went, and for no other. A discovery that fails is
  -- returned and changes nothing.
  pub rediscover_clusters_lem :
      (l : Discovered) (m : Manager env) (id : String)
      → (rediscover_clusters env none m ≡ (false, m))
        × (Dict.get (rediscover_clusters env (some l) m).1.clients id
            ≡ elim (Dict.get m.clients id) [
              | none ↦ first_created id l
              | some c ↦ if wanted id l then some c else none
            ])
        × (Dict.get (rediscover_clusters env (some l) m).1.engines id
            ≡ elim (Dict.get m.clients id) [
              | none ↦ if is_some (first_created id l) then some tt else Dict.get m.engines id
              | some c ↦ if wanted id l then Dict.get m.engines id else none
            ])
        × ((rediscover_clusters env (some l) m).1.cluster_statuses ≡ m.cluster_statuses)
        × (gone : List String) × ((rediscover_clusters env (some l) m).1.world
            ≡ after_deletes env gone m.world)
        × ((j : String)
            → any (λ k. k == j) gone ≡ (is_some (Dict.get m.clients j) && not (wanted j l)))
  unfolding rediscover_clusters
  rediscover_clusters_lem l m id =
      let e = track_existing env (Dict.keys m.clients) Dict.empty in
      let p = process_discovered env l e m in
      let ks = Dict.keys p.0 in
      let g = gone_iff l m id in
      let before = processed_rest env l e m in
      let after = removed_rest env ks p.0 p.1 in
      (
        refl,
        ground (arith, g, processed_clients env l e m id, removed env ks p.0 p.1 id),
        ground (arith, g, processed_engines env l e m id, removed_engines env ks p.0 p.1 id),
        after.1 ∙ before.1,
        marked env p.0 ks,
        after.0 ∙ ap (after_deletes env (marked env p.0 ks)) before.0,
        λ j. any-marked env ks p.0 j ∙ gone_iff l m j,
      )
