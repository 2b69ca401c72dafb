-- ===== src/Cluster/QueryEngine/Objects.antt =====
-- internal/cluster/query_engine.go: nodes and containers, from the objects of the Kubernetes API to the
-- models.
use go_kube_ops_view.Prelude.{
  String, Bool, false, Option, none, some, List, [], ◌∷◌, ◌==◌, not, ◌&&◌, ltb, if◌then◌else◌,
  length, map,
}
use go_kube_ops_view.Dict
use go_kube_ops_view.Dict.{Dict, Entries}
use go_kube_ops_view.Json.{Json, Number, natural}
use go_kube_ops_view.Json
use go_kube_ops_view.Models.{Time, ResourceUsage, Container, Node}
use go_kube_ops_view.Models.Pods.{pod_key}
use go_kube_ops_view.Cluster.Kubernetes.{
  Condition, KubeNode, KubeContainer, KubePod, ContainerStatus, NodeMetrics, ContainerMetrics,
  PodMetrics,
}

-- The first condition of a kind decides.
unfoldable pub has_condition : String → List Condition → Bool
has_condition kind [] = false
has_condition kind (c ∷ cs) =
    let rest = has_condition kind cs in if c.kind == kind then c.status == "True" else rest

abbrev pub is_node_ready : KubeNode → Bool
is_node_ready n = has_condition "Ready" n.conditions

abbrev pub is_pod_ready : KubePod → Bool
is_pod_ready p = has_condition "Ready" p.conditions

-- for name, quantity := range list { m[string(name)] = quantity.String() }
unfoldable pub copy_quantities : Entries String → Dict String → Dict String
copy_quantities [] d = d
copy_quantities (e ∷ es) d = copy_quantities es (Dict.put d e.0 e.1)

abbrev pub entry_or_empty : Entries String → String → String
entry_or_empty es k = elim (Dict.get (record { entries = es }) k) [ none ↦ "" | some v ↦ v ]

-- The usage that metrics give.
abbrev pub usage_of : Entries String → ResourceUsage
usage_of es = record { cpu = entry_or_empty es "cpu"; memory = entry_or_empty es "memory" }

unfoldable pub convert_node : KubeNode → NodeMetrics → Node
convert_node n metrics = record {
  name = n.name;
  labels = n.labels;
  annotations = n.annotations;
  status = record {
    addresses = map (λ a. record { kind = a.kind; address = a.address }) n.addresses;
    capacity = none;
    allocatable = none;
    conditions =
        map
          (λ c. record {
            kind = c.kind;
            status = c.status;
            last_heartbeat_time = c.last_heartbeat_time;
            last_transition_time = c.last_transition_time;
            reason = c.reason;
            message = c.message;
          })
          n.conditions;
    ready = is_node_ready n;
  };
  pods = some Dict.empty;
  usage =
      if not (metrics.name == "") && ltb 0 (length metrics.usage)
      then some (usage_of metrics.usage)
      else none;
  capacity = some (copy_quantities n.capacity Dict.empty);
  allocatable = some (copy_quantities n.allocatable Dict.empty);
}

-- A time, or a text, in a container's state.
abbrev pub time_value : Time → Json
time_value t = Json.num (natural t)

unfoldable pub container_state : ContainerStatus → Dict Json
container_state s = elim s.running [
  | some r ↦
      Dict.put Dict.empty "running"
        (Json.obj (Json.field "startedAt" (time_value r.started_at) Json.end))
  | none ↦ elim s.waiting [
    | some w ↦ Dict.put Dict.empty "waiting" (
        Json.obj (
          Json.field "reason" (Json.str w.reason)
            (Json.field "message" (Json.str w.message) Json.end)))
    | none ↦ elim s.terminated [
      | some t ↦ Dict.put Dict.empty "terminated" (
          Json.obj (
            Json.field "exitCode" (Json.num t.exit_code) (
              Json.field "reason" (Json.str t.reason) (
                Json.field "message" (Json.str t.message) (
                  Json.field "startedAt" (time_value t.started_at)
                    (Json.field "finishedAt" (time_value t.finished_at) Json.end))))))
      | none ↦ Dict.empty
    ]
  ]
]

-- The first metrics with the container's name.
unfoldable pub container_usage : String → List ContainerMetrics → Option ResourceUsage
container_usage name [] = none
container_usage name (m ∷ ms) =
    let rest = container_usage name ms in if m.name == name then some (usage_of m.usage) else rest

abbrev pub has_metrics : PodMetrics → Bool
has_metrics metrics = not (metrics.name == "") && ltb 0 (length metrics.containers)

-- `status` is the container's own, if the list of statuses is long enough.
unfoldable pub convert_container : KubeContainer → Option ContainerStatus → PodMetrics → Container
convert_container c status metrics = record {
  name = c.name;
  image = c.image;
  resources = record {
    requests = some (copy_quantities c.requests Dict.empty);
    limits = some (copy_quantities c.limits Dict.empty);
  };
  ready = elim status [ none ↦ false | some s ↦ s.ready ];
  state = elim status [ none ↦ none | some s ↦ some (container_state s) ];
  restart_count = elim status [ none ↦ 0 | some s ↦ s.restart_count ];
  usage = if has_metrics metrics then container_usage c.name metrics.containers else none;
}

-- The loop over the containers, with the statuses from the same position on.
unfoldable pub convert_containers :
    List KubeContainer → List ContainerStatus → PodMetrics → List Container
convert_containers [] statuses metrics = []
convert_containers (c ∷ cs) [] metrics =
    convert_container c none metrics ∷ convert_containers cs [] metrics
convert_containers (c ∷ cs) (s ∷ ss) metrics =
    convert_container c (some s) metrics ∷ convert_containers cs ss metrics

-- The two maps of metrics by name, the last one of a name, and the zero value for a missing one.
unfoldable pub node_metrics_for : String → List NodeMetrics → NodeMetrics → NodeMetrics
node_metrics_for name [] found = found
node_metrics_for name (m ∷ ms) found =
    node_metrics_for name ms (if m.name == name then m else found)

abbrev pub key_of : KubePod → String
key_of p = pod_key p.namespace p.name

unfoldable pub pod_metrics_for : String → List PodMetrics → PodMetrics → PodMetrics
pod_metrics_for key [] found = found
pod_metrics_for key (m ∷ ms) found =
    pod_metrics_for key ms (if pod_key m.namespace m.name == key then m else found)

abbrev pub no_node_metrics : NodeMetrics
no_node_metrics = record { name = ""; usage = [] }

abbrev pub no_pod_metrics : PodMetrics
no_pod_metrics = record { namespace = ""; name = ""; containers = [] }

abbrev pub node_of : List NodeMetrics → KubeNode → Node
node_of ms n = convert_node n (node_metrics_for n.name ms no_node_metrics)

unfoldable pub convert_nodes :
    List NodeMetrics → List KubeNode → Dict (Option Node) → Dict (Option Node)
convert_nodes ms [] d = d
convert_nodes ms (n ∷ ns) d = convert_nodes ms ns (Dict.put d n.name (some (node_of ms n)))
