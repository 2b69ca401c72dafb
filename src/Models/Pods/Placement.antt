-- ===== src/Models/Pods/Placement.antt =====
-- Where the pods of a cluster are after `AddPodToNode` and `RemovePod` (internal/models/converters.go).
use go_kube_ops_view.Prelude.{
  String, ◌≡◌, ap, Option, none, some, ◌==◌, arith, eq_iff, if◌then◌else◌, Option-cases, inl, inr,
  true, false, ◌&&◌,
}
use go_kube_ops_view.Dict
use go_kube_ops_view.Dict.{Dict, get-put, get-remove, get-empty, get-change_each, then_some}
use go_kube_ops_view.Models.{GoMap, Pod, Node, ClusterData}
use go_kube_ops_view.Models.Pods.{
  pod_key, read, delete, node_or_new, add_pod_to_node, remove_from, remove_pod,
}

-- The pod under a key at a node; an absent node, a nil one and one without pods have none.
abbrev pub pod_of : Option (Option Node) → String → Option (Option Pod)
pod_of none key = none
pod_of (some none) key = none
pod_of (some (some n)) key = read n.pods key

abbrev pub pod_at : ClusterData → String → String → Option (Option Pod)
pod_at cd node key = pod_of (read cd.nodes node) key

read-delete {ℓ} :
    {V : Type ℓ} (m : GoMap V) (k j : String)
    → read (delete m k) j ≡ (if k == j then none else read m j)
read-delete none k j = ground arith
read-delete (some d) k j = get-remove d k j

removed_of :
    (key j : String) (o : Option (Option Node))
    → (x : Option (Option Node)) → x ≡ then_some (remove_from key) o
    → pod_of x j ≡ (if key == j then none else pod_of o j)
removed_of key j none x h = ground (arith, h)
removed_of key j (some none) x h = ground (arith, h)
removed_of key j (some (some n)) x h = ground (arith, h, read-delete n.pods key j)

-- After `RemovePod`, if it does not panic, no place has a pod under its key any more, and every other pod is where it was.
pub remove_pod_lem :
    (namespace name node j : String) (cd : ClusterData) {cd' : ClusterData}
    → remove_pod namespace name cd ≡ some cd'
    → let key = pod_key namespace name in
      (pod_at cd' node j ≡ (if key == j then none else pod_at cd node j))
      × (read cd'.unassigned_pods j ≡ (if key == j then none else read cd.unassigned_pods j))
unfolding remove_pod
remove_pod_lem namespace name node j cd {cd'} h =
    let key = pod_key namespace name in
    let free = read-delete cd.unassigned_pods key j in
    elim (Option-cases cd.nodes) [
      | inl e ↦ (ground (arith, e, h), ground (arith, e, h, free))
      | inr (d, e) ↦ elim (Option-cases (Dict.change_each (remove_from key) d)) [
        | inl q ↦ absurd (ground (arith, e, q, h))
        | inr (d', q) ↦
            let nodes : cd'.nodes ≡ some d' = ground (arith, e, q, h) in
            let r =
              removed_of key j (Dict.get d node) (Dict.get d' node)
                (get-change_each (remove_from key) d node q) in
            (ground (arith, e, nodes, r), ground (arith, e, q, h, free))
      ]
    ]

pods_before :
    (cd : ClusterData) (node j : String) → read (node_or_new cd node).pods j ≡ pod_at cd node j
pods_before cd node j = elim (Option-cases (read cd.nodes node)) [
  | inl e ↦ ground (arith, e, get-empty {V = Option Pod} j)
  | inr (o, e) ↦ ground (arith, e, get-empty {V = Option Pod} j)
]

same_place :
    (cd : ClusterData) (node other j : String)
    → (node == other) ≡ true
    → pod_at cd node j ≡ pod_at cd other j
same_place cd node other j h = ap (λ k. pod_at cd k j) ((eq_iff node other).0 h)

-- After `AddPodToNode` with the name of a node, if it does not panic, the pod is at that node under
-- its key, with the node's name, every other pod of a node is where it was, and the unassigned pods
-- are as they were.
pub add_pod_to_node_lem :
    (p : Pod) (node other j : String) (cd : ClusterData) {cd' : ClusterData}
    → (node == "") ≡ false
    → add_pod_to_node (some p) node cd ≡ some cd'
    → (pod_at cd' other j ≡ (
        if node == other && pod_key p.namespace p.name == j
        then some (some (record p { node_name = node }))
        else pod_at cd other j))
      × (cd'.unassigned_pods ≡ cd.unassigned_pods)
unfolding add_pod_to_node
add_pod_to_node_lem p node other j cd {cd'} n h =
    let key = pod_key p.namespace p.name in
    let at = node_or_new cd node in
    let stored : Pod = record p { node_name = node } in
    elim (Option-cases at.pods) [
      | inl e ↦ absurd (ground (arith, e, n, h))
      | inr (ps, e) ↦ elim (Option-cases cd.nodes) [
        | inl q ↦ absurd (ground (arith, e, q, n, h))
        | inr (d, q) ↦
            let n' : Node = record at { pods = some (Dict.put ps key (some stored)) } in
            let nodes : cd'.nodes ≡ some (Dict.put d node (some n')) = ground (arith, e, q, n, h) in
            let before : read at.pods j ≡ pod_at cd node j = pods_before cd node j in
            (
              ground (
                arith,
                e,
                q,
                nodes,
                before,
                get-put d node other (some n'),
                get-put ps key j (some stored),
                same_place cd node other j,
              ),
              ground (arith, e, q, n, h),
            )
      ]
    ]
