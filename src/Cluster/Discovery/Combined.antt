-- ===== src/Cluster/Discovery/Combined.antt =====
-- What the discoverers find together (internal/cluster/discovery.go).
use mathlib.Core.List.{append-nil, append_assoc}
use go_kube_ops_view.Prelude.{
  String, ◌≡◌, refl, ◌∙◌, sym, ap, Bool, true, Option, none, some, List, [], ◌∷◌, ◌++◌, ◌==◌, arith,
  eq_iff, if◌then◌else◌, Bool-cases, inl, inr,
}
use go_kube_ops_view.Dict
use go_kube_ops_view.Dict.{Dict, get-put, get-empty}
use go_kube_ops_view.Cluster.{ClusterConfig}
use go_kube_ops_view.Cluster.Discovery.{is_seen, add_configs, add_all, discover_clusters}

-- All that the discoverers that did not fail have found, in their order.
abbrev pub found : List (Option (List ClusterConfig)) → List ClusterConfig
found [] = []
found (none ∷ ds) = found ds
found (some cs ∷ ds) = cs ++ found ds

abbrev pub without_id : String → List ClusterConfig → List ClusterConfig
without_id id [] = []
without_id id (c ∷ cs) = let rest = without_id id cs in if c.id == id then rest else c ∷ rest

-- The first configuration of each ID.
abbrev pub first_of_each : List ClusterConfig → List ClusterConfig
first_of_each [] = []
first_of_each (c ∷ cs) = c ∷ without_id c.id (first_of_each cs)

abbrev unseen : Dict Bool → List ClusterConfig → List ClusterConfig
unseen d [] = []
unseen d (c ∷ cs) = let rest = unseen d cs in if is_seen d c.id then rest else c ∷ rest

unseen-put :
    (d : Dict Bool) (id : String) (cs : List ClusterConfig)
    → unseen (Dict.put d id true) cs ≡ unseen d (without_id id cs)
unseen-put d id [] = refl
unseen-put d id (c ∷ cs) =
    ground (arith, unseen-put d id cs, get-put d id c.id true, eq_iff c.id id, eq_iff id c.id)

seen_same : (d : Dict Bool) (id j : String) → (j == id) ≡ true → is_seen d j ≡ is_seen d id
seen_same d id j h = ap (is_seen d) ((eq_iff j id).0 h)

unseen-without :
    (d : Dict Bool) (id : String) (cs : List ClusterConfig)
    → is_seen d id ≡ true
    → unseen d (without_id id cs) ≡ unseen d cs
unseen-without d id [] h = refl
unseen-without d id (c ∷ cs) h = ground (arith, h, unseen-without d id cs h, seen_same d id c.id)

-- What the loops come to, from any state.
combined :
    (cs : List ClusterConfig) (all : List ClusterConfig) (d : Dict Bool)
    → ((add_configs cs (all, d)).0 ≡ all ++ unseen d (first_of_each cs))
unfolding add_configs
combined [] all d = sym (append-nil all)
combined (c ∷ cs) all d = elim (Bool-cases (is_seen d c.id)) [
  | inl q ↦ ground (arith, q, combined cs all d, unseen-without d c.id (first_of_each cs) q)
  | inr q ↦ ground (
    arith,
    q,
    combined cs (all ++ c ∷ []) (Dict.put d c.id true),
    unseen-put d c.id (first_of_each cs),
    append_assoc all (c ∷ []) (unseen d (without_id c.id (first_of_each cs))),
  )
]

-- One discoverer after another is the same as one that finds what they find together.
add_configs-append :
    (cs es : List ClusterConfig) (s : List ClusterConfig × Dict Bool)
    → add_configs (cs ++ es) s ≡ add_configs es (add_configs cs s)
unfolding add_configs
add_configs-append [] es s = refl
add_configs-append (c ∷ cs) es (all, d) = elim (Bool-cases (is_seen d c.id)) [
  | inl q ↦ ground (arith, q, add_configs-append cs es (all, d))
  | inr q ↦ ground (arith, q, add_configs-append cs es (all ++ c ∷ [], Dict.put d c.id true))
]

add_all-found :
    (ds : List (Option (List ClusterConfig))) (s : List ClusterConfig × Dict Bool)
    → add_all ds s ≡ add_configs (found ds) s
unfolding add_all add_configs
add_all-found [] s = refl
add_all-found (none ∷ ds) s = add_all-found ds s
add_all-found (some cs ∷ ds) s =
    add_all-found ds (add_configs cs s) ∙ sym (add_configs-append cs (found ds) s)

unseen-empty : (cs : List ClusterConfig) → unseen Dict.empty cs ≡ cs
unseen-empty [] = refl
unseen-empty (c ∷ cs) = ground (arith, unseen-empty cs, get-empty {V = Bool} c.id)

-- The combined discovery is the first configuration of each ID among all that the discoverers found
-- that did not fail, in their order: a failing discoverer takes nothing away from the others.
pub discover_clusters_lem :
    (ds : List (Option (List ClusterConfig))) → discover_clusters ds ≡ first_of_each (found ds)
unfolding discover_clusters
discover_clusters_lem ds =
    ap (λ (s : List ClusterConfig × Dict Bool). s.0) (add_all-found ds ([], Dict.empty))
    ∙ combined (found ds) [] Dict.empty
    ∙ unseen-empty (first_of_each (found ds))
