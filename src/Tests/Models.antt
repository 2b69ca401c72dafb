-- ===== src/Tests/Models.antt =====
-- `Validate` and `Clone` at a small cluster.
use go_kube_ops_view.Prelude.{
  ◌≡◌, ◌↔◌, List, refl, Option, none, some, ok, err, [], ◌∷◌, ◌==◌, ◌&&◌, if◌then◌else◌,
}
use go_kube_ops_view.Dict
use go_kube_ops_view.Models.{ClusterData}
use go_kube_ops_view.Models.Pods.{
  create_cluster_data, new_node, pod_key, read, add_pod_to_node, remove_pod,
}
use go_kube_ops_view.Models.Pods.Filling.{Op, add, remove}
use go_kube_ops_view.Models.Pods.Placement.{pod_at, add_pod_to_node_lem, remove_pod_lem}
use go_kube_ops_view.Models.Validate.{validate, validate_iff, IsValidCluster, node_nil}
use go_kube_ops_view.Models.Clone.{clone}
use go_kube_ops_view.Models.Clone.Plain.{image}
use go_kube_ops_view.Models.Clone.Image.{clone_valid}
use go_kube_ops_view.Tests.Data.{pod, data_of, broken}

pub valid : validate (data_of "c") ≡ ok tt
unfolding validate
valid = refl

broken_refused : validate broken ≡ err (node_nil "node-2")
unfolding validate
broken_refused = refl

broken_panics : clone broken ≡ none
unfolding clone
broken_panics = refl

validate_iff_example : (validate (data_of "c") ≡ ok tt) ↔ IsValidCluster (data_of "c")
validate_iff_example = validate_iff (data_of "c")

clone_valid_example :
    (clone (data_of "c") ≡ some (image (data_of "c")))
    × (validate (image (data_of "c")) ≡ ok tt)
    × (clone (image (data_of "c")) ≡ some (image (data_of "c")))
clone_valid_example = clone_valid (data_of "c") valid

copied : clone (data_of "c") ≡ some (image (data_of "c"))
unfolding clone
copied = refl

-- The data of an empty cluster, a pod on a node, and a pod on none.
abbrev empty_cluster : ClusterData
empty_cluster = create_cluster_data "c" "https://example" 7

abbrev with_pod : Option ClusterData
with_pod = add_pod_to_node (some (pod "web")) "node-1" empty_cluster

abbrev placed : ClusterData
placed = record empty_cluster {
  nodes = some (record {
    entries =
        (
          "node-1",
          some (record (new_node "node-1") {
            pods = some (record { entries = ("default/web", some (pod "web")) ∷ [] });
          }),
        )
        ∷ [];
  });
}

placed_there : with_pod ≡ some placed
unfolding add_pod_to_node Dict.get Dict.put
placed_there = refl

add_pod_to_node_lem_example :
    (pod_at placed "node-1" "default/web" ≡ (
      if "node-1" == "node-1" && pod_key "default" "web" == "default/web"
      then some (some (record (pod "web") { node_name = "node-1" }))
      else pod_at empty_cluster "node-1" "default/web"))
    × (placed.unassigned_pods ≡ empty_cluster.unassigned_pods)
add_pod_to_node_lem_example =
    add_pod_to_node_lem (pod "web") "node-1" "node-1" "default/web" empty_cluster refl placed_there

abbrev emptied : ClusterData
emptied = record empty_cluster {
  nodes = some (record {
    entries =
        ("node-1", some (record (new_node "node-1") { pods = some (record { entries = [] }) }))
        ∷ [];
  });
}

emptied_there : remove_pod "default" "web" placed ≡ some emptied
unfolding remove_pod Dict.remove Dict.change_each
emptied_there = refl

remove_pod_lem_example :
    (pod_at emptied "node-1" "default/web" ≡ (
      if pod_key "default" "web" == "default/web"
      then none
      else pod_at placed "node-1" "default/web"))
    × (read emptied.unassigned_pods "default/web" ≡ (
        if pod_key "default" "web" == "default/web"
        then none
        else read placed.unassigned_pods "default/web"))
remove_pod_lem_example = remove_pod_lem "default" "web" "node-1" "default/web" placed emptied_there

abbrev fillings : List Op
fillings =
    add (some (pod "web")) "node-1"
    ∷ add none "node-2"
    ∷ add (some (pod "job")) ""
    ∷ remove "default" "web"
    ∷ []
