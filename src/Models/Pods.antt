-- ===== src/Models/Pods.antt =====
-- internal/models/converters.go: how the data of a cluster is filled with pods. A pod belongs to one
-- place of the data, and no two entries share a node. A write to a nil map and a nil pointer that is
-- followed are panics (`none`).
pub mod Placement
pub mod Filling
use Prim.Native.String.{◌++◌ as text_append}
use go_kube_ops_view.Prelude.{
  ℕ, ◌+◌, String, Bool, false, Option, none, some, List, [], ◌∷◌, ◌==◌, if◌then◌else◌,
}
use go_kube_ops_view.Dict
use go_kube_ops_view.Dict.{Dict, Entries}
use go_kube_ops_view.Models.{GoMap, Time, range, Pod, NodeStatus, Node, ClusterData}

-- fmt.Sprintf("%s/%s", namespace, name)
abbrev pub pod_key : String → String → String
pod_key namespace name = text_append namespace (text_append "/" name)

abbrev pub read {ℓ} : {V : Type ℓ} → GoMap V → String → Option V
read none k = none
read (some d) k = Dict.get d k

-- m[k] = v, which panics on a nil map
abbrev pub write {ℓ} : {V : Type ℓ} → GoMap V → String → V → Option (GoMap V)
write none k v = none
write (some d) k v = some (some (Dict.put d k v))

-- delete(m, k), which does nothing to a nil map
abbrev pub delete {ℓ} : {V : Type ℓ} → GoMap V → String → GoMap V
delete none k = none
delete (some d) k = some (Dict.remove d k)

abbrev pub create_cluster_data : String → String → Time → ClusterData
create_cluster_data id url now = record {
  id = id;
  api_server_url = url;
  nodes = some Dict.empty;
  unassigned_pods = some Dict.empty;
  last_update = now;
}

-- &Node{Name: nodeName, Pods: make(map[string]*Pod)}
abbrev pub new_node : String → Node
new_node name = record {
  name = name;
  labels = none;
  annotations = none;
  status = record {
    addresses = [];
    capacity = none;
    allocatable = none;
    conditions = [];
    ready = false;
  };
  pods = some Dict.empty;
  usage = none;
  capacity = none;
  allocatable = none;
}

-- cd.Nodes[nodeName], or the new node if that is nil
abbrev pub node_or_new : ClusterData → String → Node
node_or_new cd name = elim (read cd.nodes name) [
  | none ↦ new_node name
  | some o ↦ elim o [ none ↦ new_node name | some n ↦ n ]
]

unfoldable pub add_pod_to_node : Option Pod → String → ClusterData → Option ClusterData
add_pod_to_node none node cd = some cd
add_pod_to_node (some p) node cd =
    let key = pod_key p.namespace p.name in
    let n = node_or_new cd node in
    if node == ""
    then elim (write cd.unassigned_pods key (some p)) [
      | none ↦ none
      | some pods ↦ some (record cd { unassigned_pods = pods })
    ]
    else elim (write n.pods key (some (record p { node_name = node }))) [
      | none ↦ none
      | some pods ↦ elim (write cd.nodes node (some (record n { pods = pods }))) [
        | none ↦ none
        | some nodes ↦ some (record cd { nodes = nodes })
      ]
    ]

abbrev pub remove_from : String → Option Node → Option (Option Node)
remove_from key none = none
remove_from key (some n) = some (some (record n { pods = delete n.pods key }))

unfoldable pub remove_pod : String → String → ClusterData → Option ClusterData
remove_pod namespace name cd =
    let key = pod_key namespace name in
    let unassigned = delete cd.unassigned_pods key in
    elim cd.nodes [
      | none ↦ some (record cd { unassigned_pods = unassigned })
      | some d ↦ elim (Dict.change_each (remove_from key) d) [
        | none ↦ none
        | some d' ↦ some (record cd { unassigned_pods = unassigned; nodes = some d' })
      ]
    ]
