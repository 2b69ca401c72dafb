-- ===== src/Tests/Previous.antt =====
-- Two states of a cluster, one after the other.
use go_kube_ops_view.Prelude.{ℕ, ◌+◌, false, length, ◌≡◌, refl, Option, none, some, [], ok}
use go_kube_ops_view.Models.Clone.Plain.{image}
use go_kube_ops_view.Delta.Integration.{
  DeltaPublisher, DeltaManager, process_cluster_update, send, process_cluster_update_lem,
}
use go_kube_ops_view.Dict
use go_kube_ops_view.Json.{Json, str, obj, end, field}
use go_kube_ops_view.Models.{ClusterData}
use go_kube_ops_view.Models.Clone.{clone, clone_node, clone_nodes, clone_pods}
use go_kube_ops_view.Delta.Slices.{slices}
use go_kube_ops_view.Delta.Calculator.{delta}
use go_kube_ops_view.Delta.Previous.{
  DeltaCalculator, new_delta_calculator, remember, calculate_delta,
}
use go_kube_ops_view.Tests.Data.{data_of}
use go_kube_ops_view.Tests.Models.{valid}

-- A reading that keeps the URL only.
abbrev url_of : ClusterData → Option Json
url_of cd = some (obj (field "api_server_url" (str cd.api_server_url) end))

abbrev one : DeltaCalculator
one = (calculate_delta url_of "c" (data_of "c") new_delta_calculator).1

first : (calculate_delta url_of "c" (data_of "c") new_delta_calculator).0 ≡ ok none
unfolding calculate_delta remember clone clone_node clone_nodes clone_pods Dict.get Dict.put
first = refl

second : (calculate_delta url_of "d" (data_of "c") one).0 ≡ ok none
unfolding calculate_delta remember clone clone_node clone_nodes clone_pods Dict.get Dict.put
second = refl

abbrev url_json : Json
url_json = obj (field "api_server_url" (str "https://example") end)

-- What takes events, and counts them.
abbrev counter : DeltaPublisher
counter = record {
  State = ℕ × ℕ;
  Compressed = ℕ;
  new_compressed_delta = λ id ds c. some (length ds);
  update = λ id c now s. (false, (s.0 + 1, s.1));
  change = λ id ds z now s. (false, (s.0, s.1 + z));
}

abbrev idle : DeltaManager counter url_of
idle = record { calculator = new_delta_calculator; publisher = (0, 0) }

process_cluster_update_lem_example :
    let m1 = (process_cluster_update counter url_of "c" (data_of "c") 1 idle).1 in
    process_cluster_update counter url_of "c" (data_of "c") 2 m1
    ≡ send counter url_of "c" (delta slices [] url_json url_json) (data_of "c") 2 (record m1 {
      calculator = record { previous = Dict.put m1.calculator.previous "c" (image (data_of "c")) };
    })
process_cluster_update_lem_example =
    process_cluster_update_lem counter url_of "c" (data_of "c") (data_of "c") 1 2 idle url_json
      url_json valid valid refl refl first
