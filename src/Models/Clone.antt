-- ===== src/Models/Clone.antt =====
-- The `Clone` methods of internal/models/types.go. A loop that fills a fresh map with the entries
-- of another is the list of that map's entries; `none` is the panic on a nil node or pod pointer.
pub mod Plain
pub mod Image
use mathlib.Core.Option
use go_kube_ops_view.Prelude.{
  ◌≡◌, refl, ap, sym, ◌∙◌, Option, none, some, List, [], ◌∷◌, map, arith, Result, ok,
}
use go_kube_ops_view.Dict.{Entries}
use go_kube_ops_view.Models.{GoMap, range, Container, Pod, Node, ClusterData}
use go_kube_ops_view.Models.Validate.{
  validate, IsValidCluster, validate_iff, AllValues, IsValidPod, IsValidNode,
}

-- m' := make(map[string]V); for k, v := range m { m'[k] = v }
abbrev pub fresh {ℓ} : {V : Type ℓ} → Entries V → GoMap V
fresh l = some (record { entries = l })

abbrev pub clone_container : Container → Container
clone_container c = record c {
  resources = record {
    requests = fresh (range c.resources.requests);
    limits = fresh (range c.resources.limits);
  };
  state = elim c.state [ none ↦ none | some d ↦ fresh d.entries ];
}

abbrev pub clone_pod : Pod → Pod
clone_pod p = record p {
  labels = fresh (range p.labels);
  containers = map clone_container p.containers;
}

-- for name, pod := range pods { clone[name] = pod.Clone() }
unfoldable pub clone_pods : Entries (Option Pod) → Option (Entries (Option Pod))
clone_pods [] = some []
clone_pods ((k, none) ∷ l) = none
clone_pods ((k, some p) ∷ l) = Option.map (λ rest. (k, some (clone_pod p)) ∷ rest) (clone_pods l)

unfoldable pub clone_node : Node → Option Node
unfolding clone_pods
clone_node n =
    Option.map
      (λ pods. record n {
        labels = fresh (range n.labels);
        annotations = fresh (range n.annotations);
        pods = fresh pods;
        capacity = fresh (range n.capacity);
        allocatable = fresh (range n.allocatable);
      })
      (clone_pods (range n.pods))

unfoldable pub clone_nodes : Entries (Option Node) → Option (Entries (Option Node))
clone_nodes [] = some []
clone_nodes ((k, none) ∷ l) = none
clone_nodes ((k, some n) ∷ l) = elim (clone_node n) [
  | none ↦ none
  | some n' ↦ Option.map (λ rest. (k, some n') ∷ rest) (clone_nodes l)
]

unfoldable pub clone : ClusterData → Option ClusterData
unfolding clone_nodes clone_node clone_pods
clone cd = elim (clone_nodes (range cd.nodes)) [
  | none ↦ none
  | some nodes ↦
      Option.map (λ pods. record cd { nodes = fresh nodes; unassigned_pods = fresh pods })
        (clone_pods (range cd.unassigned_pods))
]
