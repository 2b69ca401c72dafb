-- ===== src/Tests/Data.antt =====
-- A small cluster: one node with a ready pod, one pod that is not assigned, and some nil maps.
use go_kube_ops_view.Prelude.{true, none, some, [], ◌∷◌, String}
use go_kube_ops_view.Models.{Container, Pod, NodeStatus, Node, ClusterData}

abbrev pub nginx : Container
nginx = record {
  name = "nginx";
  image = "nginx:1.25";
  resources = record { requests = some (record { entries = ("cpu", "100m") ∷ [] }); limits = none };
  ready = true;
  state = none;
  restart_count = 2;
  usage = none;
}

abbrev pub pod : String → Pod
pod name = record {
  name = name;
  namespace = "default";
  labels = none;
  phase = "Running";
  start_time = some 5;
  containers = nginx ∷ [];
  deleted = none;
  node_name = "node-1";
  owner_kind = "";
  owner_name = "";
  ready = true;
  usage = none;
}

abbrev pub ready : NodeStatus
ready = record {
  addresses = [];
  capacity = none;
  allocatable = none;
  conditions = [];
  ready = true;
}

abbrev pub node : Node
node = record {
  name = "node-1";
  labels = none;
  annotations = none;
  status = ready;
  pods = some (record { entries = ("default/web", some (pod "web")) ∷ [] });
  usage = none;
  capacity = some (record { entries = ("cpu", "4") ∷ [] });
  allocatable = none;
}

abbrev pub data_of : String → ClusterData
data_of id = record {
  id = id;
  api_server_url = "https://example";
  nodes = some (record { entries = ("node-1", some node) ∷ [] });
  unassigned_pods = some (record { entries = ("default/job", some (pod "job")) ∷ [] });
  last_update = 7;
}

-- A node map with a nil pointer in it.
abbrev pub broken : ClusterData
broken = record (data_of "c") { nodes = some (record { entries = ("node-2", none) ∷ [] }) }
