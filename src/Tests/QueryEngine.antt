-- ===== src/Tests/QueryEngine.antt =====
-- A query of a cluster with one node and three pods.
use go_kube_ops_view.Prelude.{
  ℕ, ◌+◌, String, Option, false, true, nat_eq, if◌then◌else◌, refl, ◌≡◌, ◌↔◌, none, some, List, [],
  ◌∷◌, ok, inl, inr,
}
use go_kube_ops_view.Models.{ClusterData}
use go_kube_ops_view.Models.Pods.{read}
use go_kube_ops_view.Models.Pods.Placement.{pod_at}
use go_kube_ops_view.Models.Totals.{Quantities}
use go_kube_ops_view.Cluster.Kubernetes.{KubeNode, KubePod}
use go_kube_ops_view.Cluster.QueryEngine.{
  Message, got_pods, got_node_metrics, got_pod_metrics, failed, nothing_yet, collect, Services,
  QueryEngine, attempts, update_cluster_status, query_cluster_with_retry,
}
use go_kube_ops_view.Dict
use go_kube_ops_view.Cluster.QueryEngine.Retries.{Outcome, query_cluster_with_retry_lem}
use go_kube_ops_view.Cluster.QueryEngine.Collect.{
  first, later, outcome, first_failure, failure, collect_any_order,
}
use go_kube_ops_view.Cluster.QueryEngine.Convert.{convert_to_cluster_data}
use go_kube_ops_view.Cluster.QueryEngine.Convert.Assign.{
  is_present, last_pod, runs_on, is_loose, converted,
}
use go_kube_ops_view.Cluster.QueryEngine.Convert.Placed.{is_listed, convert_to_cluster_data_lem}

abbrev quantities : Quantities
quantities = record {
  parse_cpu = λ s. ok (some 100);
  parse_memory = λ s. ok none;
  format_cpu = λ n. "100m";
  format_memory = λ n. "0";
}

abbrev node : KubeNode
node = record {
  name = "n1";
  labels = none;
  annotations = none;
  addresses = [];
  conditions = [];
  capacity = ("cpu", "4") ∷ [];
  allocatable = [];
}

abbrev pod : String → String → KubePod
pod name node_name = record {
  name = name;
  namespace = "default";
  labels = none;
  phase = "Running";
  node_name = node_name;
  conditions = [];
  start_time = none;
  owner_references = [];
  containers =
      record { name = "c"; image = "nginx"; requests = ("cpu", "100m") ∷ []; limits = [] } ∷ [];
  container_statuses = [];
}

abbrev pods : List KubePod
pods = pod "web" "n1" ∷ pod "job" "" ∷ pod "lost" "n2" ∷ []

convert_to_cluster_data_lem_example :
    (cd : ClusterData) × (convert_to_cluster_data quantities "a" "https://example"
        (node ∷ [])
        pods
        []
        []
        7
      ≡ some cd)
    × ((n : String) → is_present (read cd.nodes n) ≡ is_listed (node ∷ []) n)
    × ((n key : String)
        → pod_at cd n key
          ≡ converted quantities [] (last_pod (runs_on (is_listed (node ∷ []) n) n key) pods) none)
    × ((key : String)
        → read cd.unassigned_pods key
          ≡ converted quantities [] (last_pod (is_loose (is_listed (node ∷ [])) key) pods) none)
convert_to_cluster_data_lem_example =
    convert_to_cluster_data_lem quantities "a" "https://example" (node ∷ []) pods [] [] 7

abbrev arrived : List Message
arrived =
    got_node_metrics [] ∷ got_pods pods ∷ got_pod_metrics [] ∷ failed "failed to get nodes" ∷ []

collect_any_order_example :
    (collect 4 arrived nothing_yet
      ≡ some (
          outcome
            (first_failure arrived)
            (record { nodes = none; pods = some pods; node_metrics = []; pod_metrics = [] })))
    × ((first_failure arrived ≡ none)
        ↔ ((failure (failed "failed to get nodes") ≡ none) × (failure (got_pods pods) ≡ none)))
collect_any_order_example =
    collect_any_order (inl "failed to get nodes") (inr pods) [] [] first first (later (later first))

-- A world that is its clock.
abbrev clock : Services
clock = record {
  World = ℕ;
  now = λ w. (w, w + 1);
  set_cluster_data = λ id cd w. w;
  set_cluster_status = λ id s w. w;
  publish_cluster_update = λ id cd w. w;
  publish_cluster_status = λ id s w. w;
  record_cluster_query = λ id d x w. w + 10;
  update_cluster_stats = λ id n p r q f w. w;
  cancelled_in_wait = λ w. (false, w + 100);
}

abbrev engine : QueryEngine clock
engine = record { clients = Dict.empty; has_publisher = true; world = 0 }

-- The first query fails.
abbrev second_time : ℕ → QueryEngine clock → Option String × QueryEngine clock
second_time n e = (if nat_eq n 0 then some "refused" else none, e)

second_time-reported : (query_cluster_with_retry clock second_time "c" engine).world ≡ 111
unfolding attempts update_cluster_status
second_time-reported = refl

query_cluster_with_retry_lem_example :
    Outcome clock second_time engine "c" 3 (query_cluster_with_retry clock second_time "c" engine)
query_cluster_with_retry_lem_example =
    query_cluster_with_retry_lem clock second_time (λ w. refl) "c" engine
