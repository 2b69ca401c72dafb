-- ===== src/Cluster/Discovery.antt =====
-- `MultiDiscoverer` of internal/cluster/discovery.go. What each discoverer finds is an argument, `none`
-- if it fails.
pub mod Combined
use go_kube_ops_view.Prelude.{
  String, Bool, true, false, Option, none, some, List, [], ◌∷◌, ◌++◌, ◌==◌, ltb, length,
  if◌then◌else◌,
}
use go_kube_ops_view.Dict
use go_kube_ops_view.Dict.{Dict}
use go_kube_ops_view.Cluster.{ClusterConfig}

-- seenIDs[id]
abbrev pub is_seen : Dict Bool → String → Bool
is_seen d id = elim (Dict.get d id) [ none ↦ false | some b ↦ b ]

-- The inner loop: the configurations of one discoverer.
unfoldable pub add_configs :
    List ClusterConfig → List ClusterConfig × Dict Bool → List ClusterConfig × Dict Bool
add_configs [] s = s
add_configs (c ∷ cs) (all, seen) =
    if is_seen seen c.id
    then add_configs cs (all, seen)
    else add_configs cs (all ++ c ∷ [], Dict.put seen c.id true)

-- The outer loop; a discoverer that fails is passed over.
unfoldable pub add_all :
    List (Option (List ClusterConfig))
    → List ClusterConfig × Dict Bool
    → List ClusterConfig × Dict Bool
add_all [] s = s
add_all (none ∷ ds) s = add_all ds s
add_all (some cs ∷ ds) s = add_all ds (add_configs cs s)

unfoldable pub discover_clusters : List (Option (List ClusterConfig)) → List ClusterConfig
discover_clusters ds = (add_all ds ([], Dict.empty)).0
