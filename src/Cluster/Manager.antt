-- ===== src/Cluster/Manager.antt =====
-- internal/cluster/manager.go: the clients, engines and statuses that `Manager` keeps, without its
-- mock mode. A client is its configuration; an engine is running if it is there. The store and the
-- publisher are the manager's surroundings: their errors are logged and change nothing here.
pub mod Pruning
pub mod Loops
pub mod Rediscovery
use go_kube_ops_view.Prelude.{
  ℕ, ◌-◌, String, Bool, true, false, Option, none, some, List, [], ◌∷◌, not, ◌&&◌, ltb,
  if◌then◌else◌, length,
}
use go_kube_ops_view.Dict
use go_kube_ops_view.Dict.{Dict}
use go_kube_ops_view.Models.{Time}
use go_kube_ops_view.Cluster.{ClusterConfig, ClusterStatus}

-- The calls of the store and of the publisher that the manager makes.
pub record Surroundings : Type 1 where
  pub World : Type 0
  pub set_cluster_status : String → ClusterStatus → World → World
  pub delete_cluster : String → World → World
  pub publish_cluster_status : String → ClusterStatus → World → World

pub record ManagerState (W : Type 0) : Type 0 where
  pub clients : Dict ClusterConfig
  pub engines : Dict (Unit {0})
  pub cluster_statuses : Dict ClusterStatus
  pub prune_threshold : ℕ
  pub cancelled : Bool
  pub world : W

module _ (env : Surroundings) where
  abbrev pub Manager : Type 0
  Manager = ManagerState env.World

  unfoldable pub update_cluster_status : String → ClusterStatus → Manager → Manager
  update_cluster_status id s m = if m.cancelled then m else record m {
    cluster_statuses = Dict.put m.cluster_statuses id s;
    world = env.publish_cluster_status id s (env.set_cluster_status id s m.world);
  }

  -- `failure` is the error of `GetVersion`, and `now` the reading of the clock after it.
  unfoldable pub check_cluster_health : String → Option String → Time → Manager → Manager
  check_cluster_health id failure now m =
      update_cluster_status id
        (record {
          id = id;
          available = elim failure [ none ↦ true | some _ ↦ false ];
          last_seen = now;
          error = elim failure [ none ↦ "" | some e ↦ e ];
          version = "";
          node_count = 0;
        })
        m

  -- !status.Available && now.Sub(status.LastSeen) > m.pruneThreshold
  abbrev pub is_stale : ℕ → Time → ClusterStatus → Bool
  is_stale threshold now s = not s.available && ltb threshold (now - s.last_seen)

  -- The loop that collects the clusters to remove, over the keys of the statuses.
  unfoldable pub clusters_to_remove : ℕ → Time → Dict ClusterStatus → List String → List String
  clusters_to_remove threshold now d [] = []
  clusters_to_remove threshold now d (k ∷ ks) =
      let rest = clusters_to_remove threshold now d ks in
      elim (Dict.get d k) [
        | none ↦ rest
        | some s ↦ if is_stale threshold now s then k ∷ rest else rest
      ]

  -- One turn of the loop that removes them.
  unfoldable pub prune_cluster : String → Manager → Manager
  prune_cluster id m = record m {
    engines = Dict.remove m.engines id;
    clients = Dict.remove m.clients id;
    cluster_statuses = Dict.remove m.cluster_statuses id;
    world = env.delete_cluster id m.world;
  }

  unfoldable pub prune_clusters : List String → Manager → Manager
  prune_clusters [] m = m
  prune_clusters (k ∷ ks) m = prune_clusters ks (prune_cluster k m)

  unfoldable pub perform_cluster_pruning : Time → Manager → Manager
  perform_cluster_pruning now m =
      if m.cancelled
      then m
      else prune_clusters
          (clusters_to_remove m.prune_threshold now m.cluster_statuses
            (Dict.keys m.cluster_statuses))
          m

  -- The loop over the discovered clusters; the Boolean says whether `NewClusterClient` succeeds.
  -- `existing` is `existingClusters`.
  unfoldable pub process_discovered :
      List (ClusterConfig × Bool) → Dict Bool → Manager → Dict Bool × Manager
  process_discovered [] existing m = (existing, m)
  process_discovered ((c, created) ∷ l) existing m =
      let added : Manager = record m {
        clients = Dict.put m.clients c.id c;
        engines = Dict.put m.engines c.id tt;
      } in
      elim (Dict.get m.clients c.id) [
        | some _ ↦ process_discovered l (Dict.put existing c.id true) m
        | none ↦ process_discovered l existing (if created then added else m)
      ]

  -- for clusterID := range m.clients { existingClusters[clusterID] = false }
  unfoldable pub track_existing : List String → Dict Bool → Dict Bool
  track_existing [] d = d
  track_existing (k ∷ ks) d = track_existing ks (Dict.put d k false)

  unfoldable pub remove_cluster : String → Manager → Manager
  remove_cluster id m = record m {
    engines = Dict.remove m.engines id;
    clients = Dict.remove m.clients id;
    world = env.delete_cluster id m.world;
  }

  -- The loop over `existingClusters`.
  unfoldable pub remove_missing : List String → Dict Bool → Manager → Manager
  remove_missing [] existing m = m
  remove_missing (k ∷ ks) existing m =
      remove_missing ks existing
        (elim (Dict.get existing k) [ some false ↦ remove_cluster k m | _ ↦ m ])

  -- `none` is the failure of the discoverer, which is returned.
  unfoldable pub rediscover_clusters :
      Option (List (ClusterConfig × Bool)) → Manager → Bool × Manager
  rediscover_clusters none m = (false, m)
  rediscover_clusters (some l) m =
      let tracked = track_existing (Dict.keys m.clients) Dict.empty in
      let (existing, m') = process_discovered l tracked m in
      (true, remove_missing (Dict.keys existing) existing m')

  unfoldable pub get_healthy_cluster_count : Manager → ℕ
  get_healthy_cluster_count m = length (healthy m.cluster_statuses (Dict.keys m.cluster_statuses))
    where
      healthy : Dict ClusterStatus → List String → List String
      healthy d [] = []
      healthy d (k ∷ ks) =
          let rest = healthy d ks in
          elim (Dict.get d k) [ none ↦ rest | some s ↦ if s.available then k ∷ rest else rest ]
