-- ===== src/Cluster/QueryEngine/Convert/Placed.antt =====
-- Where the pods of a query end up in the data of a cluster (internal/cluster/query_engine.go).
use go_kube_ops_view.Prelude.{
  String, ◌≡◌, refl, ap, ◌∙◌, Bool, Option, none, some, List, [], ◌∷◌, ◌==◌, ◌||◌, arith,
  Option-cases, inl, inr, any, ℕ, All,
}
use go_kube_ops_view.Dict
use go_kube_ops_view.Dict.{Dict, Entries, get-put, get-empty, get-change_each, then_some}
use go_kube_ops_view.Dict.Each.{Each, put-Each, get-Each, change_each-Each}
use go_kube_ops_view.Models.{Time, Pod, Node, ClusterData, range}
use go_kube_ops_view.Models.Pods.{read}
use go_kube_ops_view.Models.Pods.Placement.{pod_of as pod_under, pod_at}
use go_kube_ops_view.Models.Totals.{Quantities}
use go_kube_ops_view.Cluster.Kubernetes.{KubeNode, KubePod, NodeMetrics, PodMetrics}
use go_kube_ops_view.Cluster.QueryEngine.Objects.{convert_node, convert_nodes, node_of}
use go_kube_ops_view.Cluster.QueryEngine.Convert.{
  format_totals, request_totals, calculate_node_resource_usage, with_usage, convert_to_cluster_data,
}
use go_kube_ops_view.Cluster.QueryEngine.Convert.Assign.{
  IsThere, IsFilled, is_present, last_pod, runs_on, is_loose, State, converted, IsReady,
  assign_all_total,
}

-- Whether a node of that name was listed.
abbrev pub is_listed : List KubeNode → String → Bool
is_listed ns name = any (λ n. n.name == name) ns

converted_node-IsFilled : (ms : List NodeMetrics) (n : KubeNode) → IsFilled (some (node_of ms n))
unfolding convert_node
converted_node-IsFilled ms n = (Dict.empty, refl, tt)

converted_node-no_pods :
    (ms : List NodeMetrics) (n : KubeNode) (key : String) → read (node_of ms n).pods key ≡ none
unfolding convert_node
converted_node-no_pods ms n key = get-empty key

convert_nodes-IsFilled :
    (ms : List NodeMetrics) (ns : List KubeNode) (d : Dict (Option Node))
    → Each IsFilled d
    → Each IsFilled (convert_nodes ms ns d)
unfolding convert_nodes
convert_nodes-IsFilled ms [] d h = h
convert_nodes-IsFilled ms (n ∷ ns) d h =
    convert_nodes-IsFilled ms ns (Dict.put d n.name (some (node_of ms n)))
      (put-Each IsFilled d n.name (some (node_of ms n)) h (converted_node-IsFilled ms n))

convert_nodes-present :
    (ms : List NodeMetrics) (ns : List KubeNode) (d : Dict (Option Node)) (name : String)
    → is_present (Dict.get (convert_nodes ms ns d) name)
      ≡ (is_present (Dict.get d name) || is_listed ns name)
unfolding convert_nodes
convert_nodes-present ms [] d name = ground arith
convert_nodes-present ms (n ∷ ns) d name = ground (
  arith,
  convert_nodes-present ms ns (Dict.put d n.name (some (node_of ms n))) name,
  get-put d n.name name (some (node_of ms n)),
)

convert_nodes-no_pods :
    (ms : List NodeMetrics) (ns : List KubeNode) (d : Dict (Option Node)) (name key : String)
    → pod_under (Dict.get d name) key ≡ none
    → pod_under (Dict.get (convert_nodes ms ns d) name) key ≡ none
unfolding convert_nodes
convert_nodes-no_pods ms [] d name key h = h
convert_nodes-no_pods ms (n ∷ ns) d name key h =
    convert_nodes-no_pods ms ns (Dict.put d n.name (some (node_of ms n))) name key (
      ground
        (arith, h, get-put d n.name name (some (node_of ms n)), converted_node-no_pods ms n key))

listed :
    (ms : List NodeMetrics) (ns : List KubeNode) (name : String)
    → is_present (Dict.get (convert_nodes ms ns Dict.empty) name) ≡ is_listed ns name
listed ms ns name =
    ground (arith, convert_nodes-present ms ns Dict.empty name, get-empty {V = Option Node} name)

module _ (q : Quantities) where
  request_totals-some :
      (es : Entries (Option Pod)) (t : ℕ × ℕ)
      → All (λ (e : String × Option Pod). IsThere e.1) es
      → (t' : ℕ × ℕ) × (request_totals q es t ≡ some t')
  unfolding request_totals
  request_totals-some [] t h = (t, refl)
  request_totals-some ((k, none) ∷ es) t h = absurd h.0
  request_totals-some ((k, some p) ∷ es) t h = request_totals-some es _ h.1

  -- The usage is worked out without a panic, and changes no pod.
  calculated :
      (n : Node)
      → IsFilled (some n)
      → (n' : Node) × (calculate_node_resource_usage q n ≡ some n') × (n'.pods ≡ n.pods)
  unfolding calculate_node_resource_usage
  calculated n (ps, e, there) =
      let (t, r) = request_totals-some ps.entries (0, 0) there in
      let totals : request_totals q (range n.pods) (0, 0) ≡ some t = rw e r in
      elim (Option-cases n.usage) [
        | inl u ↦ (
          record n { usage = some (format_totals q t) },
          rw (totals, calculate_node_resource_usage) (simp u),
          refl,
        )
        | inr (x, u) ↦ (n, rw (totals, calculate_node_resource_usage) (simp u), refl)
      ]

  with_usage-IsFilled :
      (o : Option Node) → IsFilled o → (o' : Option Node) × (with_usage q o ≡ some o') × IsFilled o'
  with_usage-IsFilled none h = absurd h
  with_usage-IsFilled (some n) h =
      let (n', e, same) = calculated n h in
      (some n', rw (e, with_usage) refl, (h.0, same ∙ h.1, h.2))

  same_pods :
      (o : Option (Option Node)) (o' : Option (Option Node)) (key : String)
      → ((x : Option Node) → o ≡ some x → IsFilled x)
      → o' ≡ then_some (with_usage q) o
      → (pod_under o' key ≡ pod_under o key) × (is_present o' ≡ is_present o)
  same_pods none o' key filled h = (rw h refl, rw h refl)
  same_pods (some none) o' key filled h = absurd (filled none refl)
  same_pods (some (some n)) o' key filled h =
      let (n', e, same) = calculated n (filled (some n) refl) in
      let is : o' ≡ some (some n') = h ∙ (rw (e, with_usage) refl) in
      (rw is (rw same refl), rw is refl)

  -- The conversion of a query does not panic, and gives each pod its place: under a pod's key a node
  -- that was listed has the last pod with that key and that node's name, and the unassigned pods have
  -- the last pod with that key whose node's name is empty or was not listed; nothing else is there.
  pub convert_to_cluster_data_lem :
      (id url : String) (ns : List KubeNode) (ps : List KubePod) (nm : List NodeMetrics)
      (pm : List PodMetrics) (now : Time)
      → (cd : ClusterData) × (convert_to_cluster_data q id url ns ps nm pm now ≡ some cd)
        × ((node : String) → is_present (read cd.nodes node) ≡ is_listed ns node)
        × ((node key : String)
            → pod_at cd node key
              ≡ converted q pm (last_pod (runs_on (is_listed ns node) node key) ps) none)
        × ((key : String)
            → read cd.unassigned_pods key
              ≡ converted q pm (last_pod (is_loose (is_listed ns) key) ps) none)
  unfolding convert_to_cluster_data
  convert_to_cluster_data_lem id url ns ps nm pm now =
      let d = convert_nodes nm ns Dict.empty in
      let s : State q pm = (d, Dict.empty) in
      let ready : IsReady q pm (is_listed ns) s = record {
        filled = convert_nodes-IsFilled nm ns Dict.empty tt;
        same_nodes = λ node. listed nm ns node;
      } in
      let (s', e, h', on, loose) = assign_all_total q pm (is_listed ns) ps s ready in
      let (ds, e', filled) =
        change_each-Each IsFilled (with_usage q) with_usage-IsFilled s'.0 h'.filled in
      let kept = λ (node key : String).
        same_pods (Dict.get s'.0 node) (Dict.get ds node) key
          (λ x p. get-Each IsFilled s'.0 node x h'.filled p)
          (get-change_each (with_usage q) s'.0 node e') in
      (
        record {
          id = id;
          api_server_url = url;
          nodes = some ds;
          unassigned_pods = some s'.1;
          last_update = now;
        },
        rw (e, convert_to_cluster_data) (rw (e', convert_to_cluster_data) refl),
        λ node. (kept node "").1 ∙ h'.same_nodes node,
        λ node key.
            (kept node key).0
            ∙ on node key
            ∙ ap (converted q pm (last_pod (runs_on (is_listed ns node) node key) ps)) (
                convert_nodes-no_pods nm ns Dict.empty node key
                  (ground (arith, get-empty {V = Option Node} node))),
        λ key.
            loose key
            ∙ ap (converted q pm (last_pod (is_loose (is_listed ns) key) ps)) (get-empty key),
      )
