-- ===== src/Models/Pods/Filling.antt =====
-- Building up the data of a cluster by `AddPodToNode` and `RemovePod` (internal/models/converters.go).
use go_kube_ops_view.Prelude.{
  String, ◌≡◌, ◌≢◌, refl, Option, none, some, none≢some, List, [], ◌∷◌, ◌==◌, Bool-cases,
  Option-cases, inl, inr, arith, sym,
}
use go_kube_ops_view.Dict
use go_kube_ops_view.Dict.{Dict}
use go_kube_ops_view.Dict.Each.{Each, put-Each, get-Each, change_each-Each}
use go_kube_ops_view.Models.{Time, Pod, Node, ClusterData}
use go_kube_ops_view.Models.Pods.{
  pod_key, delete, create_cluster_data, node_or_new, add_pod_to_node, remove_from, remove_pod,
}

-- A node that is there and has a map of pods.
abbrev IsFilled : Option Node → Type 0
IsFilled none = ⊥
IsFilled (some n) = (ps : Dict (Option Pod)) × (n.pods ≡ some ps)

-- Maps for the nodes and for the unassigned pods, and filled nodes.
record IsReady (cd : ClusterData) : Type 0 where
  nodes : Dict (Option Node)
  nodes_there : cd.nodes ≡ some nodes
  filled : Each IsFilled nodes
  unassigned : Dict (Option Pod)
  unassigned_there : cd.unassigned_pods ≡ some unassigned

node_or_new-IsFilled :
    (cd : ClusterData) (node : String) → IsReady cd → IsFilled (some (node_or_new cd node))
node_or_new-IsFilled cd node h = elim (Option-cases (Dict.get h.nodes node)) [
  | inl e ↦ (Dict.empty, ground (arith, h.nodes_there, e))
  | inr (o, e) ↦ held o e (get-Each IsFilled h.nodes node o h.filled e)
]
  where
    held :
        (o : Option Node)
        → Dict.get h.nodes node ≡ some o
        → IsFilled o
        → IsFilled (some (node_or_new cd node))
    held none e f = absurd f
    held (some n) e f = (f.0, ground (arith, h.nodes_there, e, f.1))

add-IsReady :
    (o : Option Pod) (node : String) (cd : ClusterData)
    → IsReady cd
    → (cd' : ClusterData) × (add_pod_to_node o node cd ≡ some cd') × IsReady cd'
unfolding add_pod_to_node
add-IsReady none node cd h = (cd, refl, h)
add-IsReady (some p) node cd h =
    let key = pod_key p.namespace p.name in
    let n = node_or_new cd node in
    let (ps, e) = node_or_new-IsFilled cd node h in
    elim (Bool-cases (node == "")) [
      | inl q ↦
          let us = Dict.put h.unassigned key (some p) in
          (
            record cd { unassigned_pods = some us },
            ground (arith, q, h.unassigned_there),
            record {
              nodes = h.nodes;
              nodes_there = h.nodes_there;
              filled = h.filled;
              unassigned = us;
              unassigned_there = refl;
            },
          )
      | inr q ↦
          let ps' = Dict.put ps key (some (record p { node_name = node })) in
          let n' : Node = record n { pods = some ps' } in
          let ns = Dict.put h.nodes node (some n') in
          (
            record cd { nodes = some ns },
            ground (arith, q, e, h.nodes_there),
            record {
              nodes = ns;
              nodes_there = refl;
              filled = put-Each IsFilled h.nodes node (some n') h.filled (ps', refl);
              unassigned = h.unassigned;
              unassigned_there = h.unassigned_there;
            },
          )
    ]

remove_from-IsFilled :
    (key : String) (o : Option Node)
    → IsFilled o
    → (o' : Option Node) × (remove_from key o ≡ some o') × IsFilled o'
remove_from-IsFilled key none f = absurd f
remove_from-IsFilled key (some n) f =
    (some (record n { pods = delete n.pods key }), refl, (Dict.remove f.0 key, ground (arith, f.1)))

remove-IsReady :
    (namespace name : String) (cd : ClusterData)
    → IsReady cd
    → (cd' : ClusterData) × (remove_pod namespace name cd ≡ some cd') × IsReady cd'
unfolding remove_pod
remove-IsReady namespace name cd h =
    let key = pod_key namespace name in
    let (ns, e, f) =
      change_each-Each IsFilled (remove_from key) (remove_from-IsFilled key) h.nodes h.filled in
    let us = Dict.remove h.unassigned key in
    (
      record cd { unassigned_pods = delete cd.unassigned_pods key; nodes = some ns },
      ground (arith, h.nodes_there, e),
      record {
        nodes = ns;
        nodes_there = refl;
        filled = f;
        unassigned = us;
        unassigned_there = ground (arith, h.unassigned_there);
      },
    )

pub data Op : Type 0 where
  add : Option Pod → String → Op
  remove : String → String → Op

unfoldable pub step : Op → ClusterData → Option ClusterData
step (add p node) cd = add_pod_to_node p node cd
step (remove namespace name) cd = remove_pod namespace name cd

-- The calls one after the other, up to the first panic.
unfoldable pub run : List Op → ClusterData → Option ClusterData
run [] cd = some cd
run (o ∷ ops) cd = elim (step o cd) [ none ↦ none | some cd' ↦ run ops cd' ]

step-IsReady :
    (o : Op) (cd : ClusterData)
    → IsReady cd
    → (cd' : ClusterData) × (step o cd ≡ some cd') × IsReady cd'
unfolding step
step-IsReady (add p node) cd h = add-IsReady p node cd h
step-IsReady (remove namespace name) cd h = remove-IsReady namespace name cd h

run_total : (ops : List Op) (cd : ClusterData) → IsReady cd → run ops cd ≢ none
unfolding run
run_total [] cd h q = none≢some (sym q)
run_total (o ∷ ops) cd h q =
    let (cd', e, h') = step-IsReady o cd h in run_total ops cd' h' (rw (e, run) at q)

-- Data that `CreateClusterData` made never panics, whatever pods are added to it and removed from it,
-- nil pods and pods without a node included.
pub filling_total :
    (id url : String) (now : Time) (ops : List Op) → run ops (create_cluster_data id url now) ≢ none
filling_total id url now ops = run_total ops (create_cluster_data id url now) (record {
  nodes = Dict.empty;
  nodes_there = refl;
  filled = tt;
  unassigned = Dict.empty;
  unassigned_there = refl;
})
