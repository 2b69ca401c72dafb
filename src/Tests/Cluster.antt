-- ===== src/Tests/Cluster.antt =====
-- A manager of two clusters.
use go_kube_ops_view.Prelude.{
  Option, ℕ, suc, String, ◌≡◌, refl, true, false, not, ◌&&◌, none, some, List, [], ◌∷◌,
  if◌then◌else◌, arith, any, ◌==◌,
}
use go_kube_ops_view.Dict
use go_kube_ops_view.Dict.{Dict}
use go_kube_ops_view.Cluster.{ClusterConfig}
use go_kube_ops_view.Cluster.Discovery.{discover_clusters}
use go_kube_ops_view.Cluster.Discovery.Combined.{found, first_of_each, discover_clusters_lem}
use go_kube_ops_view.Cluster.Manager.{
  Surroundings, Manager, check_cluster_health, perform_cluster_pruning, rediscover_clusters,
}
use go_kube_ops_view.Cluster.Manager.Pruning.{
  Op, check, prune, run, stale_at, perform_cluster_pruning_lem, never_pruned,
}
use go_kube_ops_view.Cluster.Manager.Loops.{
  Discovered, wanted, first_created, is_some, after_deletes,
}
use go_kube_ops_view.Cluster.Manager.Rediscovery.{rediscover_clusters_lem}

-- The surroundings count the clusters that are deleted from the store.
abbrev counting : Surroundings
counting = record {
  World = ℕ;
  set_cluster_status = λ id s n. n;
  delete_cluster = λ id n. suc n;
  publish_cluster_status = λ id s n. n;
}

abbrev config_of : String → ClusterConfig
config_of id = record {
  id = id;
  api_server = "https://example";
  kubeconfig_path = "";
  context = "";
  token = "";
  cert_file = "";
  key_file = "";
  ca_file = "";
  insecure = false;
}

abbrev manager : Manager counting
manager = record {
  clients = record { entries = ("a", config_of "a") ∷ ("b", config_of "b") ∷ [] };
  engines = record { entries = ("a", tt) ∷ ("b", tt) ∷ [] };
  cluster_statuses = Dict.empty;
  prune_threshold = 600;
  cancelled = false;
  world = 0;
}

abbrev failing : List Op
failing =
    check "a" (some "refused") 30
    ∷ check "b" none 40
    ∷ prune 60
    ∷ check "a" (some "refused") 600
    ∷ prune 1200
    ∷ []

a_there : Dict.get manager.clients "a" ≡ some (config_of "a")
unfolding Dict.get
a_there = refl

never_pruned_example :
    Dict.get
      (run counting failing (check_cluster_health counting "a" (some "refused") 0 manager)).clients
      "a"
    ≡ some (config_of "a")
never_pruned_example =
    never_pruned counting manager "a" (config_of "a") (some "refused") 0 failing refl a_there
      (omega arith, (omega arith, tt))

abbrev unseen : Manager counting
unseen = run counting (check "a" (some "refused") 30 ∷ []) manager

perform_cluster_pruning_lem_example :
    let gone =
      not unseen.cancelled
      && stale_at counting unseen.prune_threshold 700 (Dict.get unseen.cluster_statuses "a") in
    (Dict.get (perform_cluster_pruning counting 700 unseen).clients "a"
      ≡ (if gone then none else Dict.get unseen.clients "a"))
    × (Dict.get (perform_cluster_pruning counting 700 unseen).cluster_statuses "a"
        ≡ (if gone then none else Dict.get unseen.cluster_statuses "a"))
perform_cluster_pruning_lem_example = perform_cluster_pruning_lem counting unseen 700 "a"

abbrev discovery : Discovered
discovery = (config_of "b", true) ∷ (config_of "c", false) ∷ (config_of "c", true) ∷ []

rediscover_clusters_lem_example :
    (rediscover_clusters counting none manager ≡ (false, manager))
    × (Dict.get (rediscover_clusters counting (some discovery) manager).1.clients "a"
        ≡ elim (Dict.get manager.clients "a") [
          | none ↦ first_created "a" discovery
          | some c ↦ if wanted "a" discovery then some c else none
        ])
    × (Dict.get (rediscover_clusters counting (some discovery) manager).1.engines "a"
        ≡ elim (Dict.get manager.clients "a") [
          | none ↦
              if is_some (first_created "a" discovery)
              then some tt
              else Dict.get manager.engines "a"
          | some c ↦ if wanted "a" discovery then Dict.get manager.engines "a" else none
        ])
    × ((rediscover_clusters counting (some discovery) manager).1.cluster_statuses
        ≡ manager.cluster_statuses)
    × (gone : List String) × ((rediscover_clusters counting (some discovery) manager).1.world
        ≡ after_deletes counting gone manager.world)
    × ((j : String)
        → any (λ k. k == j) gone
          ≡ (is_some (Dict.get manager.clients j) && not (wanted j discovery)))
rediscover_clusters_lem_example = rediscover_clusters_lem counting discovery manager "a"

abbrev sources : List (Option (List ClusterConfig))
sources =
    some (config_of "a" ∷ config_of "b" ∷ [])
    ∷ none
    ∷ some (config_of "b" ∷ config_of "c" ∷ [])
    ∷ []

discover_clusters_lem_example : discover_clusters sources ≡ first_of_each (found sources)
discover_clusters_lem_example = discover_clusters_lem sources

three_found : discover_clusters sources ≡ config_of "a" ∷ config_of "b" ∷ config_of "c" ∷ []
three_found = discover_clusters_lem_example
