-- ===== src/Cluster/QueryEngine/Convert.antt =====
-- internal/cluster/query_engine.go: the pods, and the whole data of a cluster. A conversion returns no
-- error; `none` is a panic.
pub mod Assign
pub mod Placed
use go_kube_ops_view.Prelude.{
  ℕ, String, Option, none, some, List, [], ◌∷◌, Result, ok, ◌==◌, ◌||◌, if◌then◌else◌,
}
use go_kube_ops_view.Dict
use go_kube_ops_view.Dict.{Dict, Entries}
use go_kube_ops_view.Models.{Time, ResourceUsage, Container, Pod, Node, ClusterData, range}
use go_kube_ops_view.Models.Pods.{write}
use go_kube_ops_view.Models.Totals.{
  Quantities, add64, is_positive64, get_total_cpu_requests, get_total_memory_requests,
}
use go_kube_ops_view.Cluster.Kubernetes.{KubeNode, KubePod, NodeMetrics, PodMetrics}
use go_kube_ops_view.Cluster.QueryEngine.Objects.{
  is_pod_ready, convert_containers, has_metrics, key_of, pod_metrics_for, no_pod_metrics,
  convert_nodes,
}

module _ (q : Quantities) where
  -- What a text adds to a total: nothing if it is empty or does not parse.
  abbrev pub parsed_or_zero : (String → Result String (Option ℕ)) → String → ℕ
  parsed_or_zero parse text =
      if text == ""
      then 0
      else elim (parse text) [ ok parsed ↦ elim parsed [ none ↦ 0 | some n ↦ n ] | _ ↦ 0 ]

  -- The loop of `calculatePodResourceUsage`: the totals of CPU and memory.
  unfoldable pub usage_totals : List Container → ℕ × ℕ → ℕ × ℕ
  usage_totals [] t = t
  usage_totals (c ∷ cs) t = elim c.usage [
    | none ↦ usage_totals cs t
    | some u ↦ usage_totals cs (
      add64 t.0 (parsed_or_zero q.parse_cpu u.cpu),
      add64 t.1 (parsed_or_zero q.parse_memory u.memory),
    )
  ]

  abbrev pub format_totals : ℕ × ℕ → ResourceUsage
  format_totals t = record {
    cpu = if is_positive64 t.0 then q.format_cpu t.0 else "";
    memory = if is_positive64 t.1 then q.format_memory t.1 else "";
  }

  unfoldable pub calculate_pod_resource_usage : Pod → Pod
  calculate_pod_resource_usage p =
      let t = usage_totals p.containers (0, 0) in
      if is_positive64 t.0 || is_positive64 t.1
      then record p { usage = some (format_totals t) }
      else p

  unfoldable pub convert_pod : KubePod → PodMetrics → Pod
  convert_pod p metrics =
      let owner : String × String = elim p.owner_references [
        | [] ↦ ("", "")
        | o ∷ _ ↦ (o.kind, o.name)
      ] in
      let pod : Pod = record {
        name = p.name;
        namespace = p.namespace;
        labels = p.labels;
        phase = p.phase;
        start_time = p.start_time;
        containers = convert_containers p.containers p.container_statuses metrics;
        deleted = none;
        node_name = p.node_name;
        owner_kind = owner.0;
        owner_name = owner.1;
        ready = is_pod_ready p;
        usage = none;
      } in
      if has_metrics metrics then calculate_pod_resource_usage pod else pod

  -- The requests of the pods of a node: a total of CPU and one of memory. A pod whose quantities do not
  -- parse adds nothing.
  abbrev pub total_or_zero : Result String ℕ → ℕ
  total_or_zero r = elim r [ ok n ↦ n | _ ↦ 0 ]

  unfoldable pub request_totals : Entries (Option Pod) → ℕ × ℕ → Option (ℕ × ℕ)
  request_totals [] t = some t
  request_totals (e ∷ es) t = elim e.1 [
    | none ↦ none
    | some p ↦ request_totals es (
      add64 t.0 (total_or_zero (get_total_cpu_requests q p)),
      add64 t.1 (total_or_zero (get_total_memory_requests q p)),
    )
  ]

  unfoldable pub calculate_node_resource_usage : Node → Option Node
  calculate_node_resource_usage n = elim (request_totals (range n.pods) (0, 0)) [
    | none ↦ none
    | some t ↦ elim n.usage [
      | some u ↦ some n
      | none ↦ some (record n { usage = some (format_totals t) })
    ]
  ]

  abbrev pub pod_of : List PodMetrics → KubePod → Pod
  pod_of ms p = convert_pod p (pod_metrics_for (key_of p) ms no_pod_metrics)

  -- One turn of the loop over the pods, on the nodes and the unassigned pods.
  unfoldable pub assign :
      List PodMetrics
      → KubePod
      → Dict (Option Node) × Dict (Option Pod)
      → Option (Dict (Option Node) × Dict (Option Pod))
  assign ms p (nodes, unassigned) =
      let key = key_of p in
      let pod = some (pod_of ms p) in
      let loose = some (nodes, Dict.put unassigned key pod) in
      if p.node_name == "" then loose else elim (Dict.get nodes p.node_name) [
        | none ↦ loose
        | some o ↦ elim o [
          | none ↦ none
          | some n ↦ elim (write n.pods key pod) [
            | none ↦ none
            | some pods ↦
                some (Dict.put nodes p.node_name (some (record n { pods = pods })), unassigned)
          ]
        ]
      ]

  unfoldable pub assign_all :
      List PodMetrics
      → List KubePod
      → Dict (Option Node) × Dict (Option Pod)
      → Option (Dict (Option Node) × Dict (Option Pod))
  assign_all ms [] s = some s
  assign_all ms (p ∷ ps) s = elim (assign ms p s) [ none ↦ none | some s' ↦ assign_all ms ps s' ]

  abbrev pub with_usage : Option Node → Option (Option Node)
  with_usage none = none
  with_usage (some n) = elim (calculate_node_resource_usage n) [
    | none ↦ none
    | some n' ↦ some (some n')
  ]

  unfoldable pub convert_to_cluster_data :
      String
      → String
      → List KubeNode
      → List KubePod
      → List NodeMetrics
      → List PodMetrics
      → Time
      → Option ClusterData
  convert_to_cluster_data id url nodes pods node_metrics pod_metrics now =
      elim (assign_all pod_metrics pods (convert_nodes node_metrics nodes Dict.empty, Dict.empty)) [
        | none ↦ none
        | some s ↦ elim (Dict.change_each with_usage s.0) [
          | none ↦ none
          | some ns ↦ some (record {
            id = id;
            api_server_url = url;
            nodes = some ns;
            unassigned_pods = some s.1;
            last_update = now;
          })
        ]
      ]
