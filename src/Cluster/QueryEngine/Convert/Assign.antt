-- ===== src/Cluster/QueryEngine/Convert/Assign.antt =====
-- The loop of internal/cluster/query_engine.go that gives each pod its place.
use go_kube_ops_view.Prelude.{
  String, ◌≡◌, refl, sym, ap, ◌∙◌, Bool, true, false, Option, none, some, List, [], ◌∷◌, ◌==◌, not,
  ◌&&◌, ◌||◌, if◌then◌else◌, arith, eq_iff, Bool-cases, Option-cases, inl, inr,
}
use go_kube_ops_view.Dict
use go_kube_ops_view.Dict.{Dict, get-put}
use go_kube_ops_view.Dict.Each.{Each, put-Each, get-Each}
use go_kube_ops_view.Models.{Pod, Node}
use go_kube_ops_view.Models.Pods.Placement.{pod_of as pod_under}
use go_kube_ops_view.Models.Totals.{Quantities}
use go_kube_ops_view.Cluster.Kubernetes.{KubePod, PodMetrics}
use go_kube_ops_view.Cluster.QueryEngine.Objects.{key_of}
use go_kube_ops_view.Cluster.QueryEngine.Convert.{pod_of, assign, assign_all}

abbrev pub IsThere : Option Pod → Type 0
IsThere none = ⊥
IsThere (some p) = Unit

-- A node that is there, with a map of pods that are there.
abbrev pub IsFilled : Option Node → Type 0
IsFilled none = ⊥
IsFilled (some n) = (ps : Dict (Option Pod)) × (n.pods ≡ some ps) × Each IsThere ps

abbrev pub is_present {ℓ} : {A : Type ℓ} → Option A → Bool
is_present none = false
is_present (some a) = true

-- The last pod that meets a test.
abbrev pub last_pod : (KubePod → Bool) → List KubePod → Option KubePod
last_pod f [] = none
last_pod f (p ∷ ps) = elim (last_pod f ps) [ some r ↦ some r | none ↦ if f p then some p else none ]

-- A pod that runs on a node, and one that has no node or one that is not known.
abbrev pub runs_on : Bool → String → String → KubePod → Bool
runs_on known node key p =
    known && not (p.node_name == "") && p.node_name == node && key_of p == key

abbrev pub is_loose : (String → Bool) → String → KubePod → Bool
is_loose known key p = (p.node_name == "" || not (known p.node_name)) && key_of p == key

module _ (q : Quantities) (ms : List PodMetrics) where
  abbrev pub State : Type 0
  State = Dict (Option Node) × Dict (Option Pod)

  abbrev pub converted : Option KubePod → Option (Option Pod) → Option (Option Pod)
  converted none before = before
  converted (some p) before = some (some (pod_of q ms p))

  abbrev pub pod_in : State → String → String → Option (Option Pod)
  pod_in s node key = pod_under (Dict.get s.0 node) key

  -- The nodes that are known, all of them filled.
  pub record IsReady (known : String → Bool) (s : State) : Type 0 where
    pub filled : Each IsFilled s.0
    pub same_nodes : (node : String) → is_present (Dict.get s.0 node) ≡ known node

  module _ (known : String → Bool) (p : KubePod) (s : State) (h : IsReady known s) where
    abbrev pub Assigned : State → Type 0
    Assigned s' =
        (assign q ms p s ≡ some s')
        × IsReady known s'
        × ((node key : String)
            → pod_in s' node key ≡ (
                if runs_on (known node) node key p
                then some (some (pod_of q ms p))
                else pod_in s node key))
        × ((key : String)
            → Dict.get s'.1 key
              ≡ (if is_loose known key p then some (some (pod_of q ms p)) else Dict.get s.1 key))

    same_known : (node : String) → (p.node_name == node) ≡ true → known p.node_name ≡ known node
    same_known node e = ap known ((eq_iff p.node_name node).0 e)

    assign_loose :
        assign q ms p s ≡ some (s.0, Dict.put s.1 (key_of p) (some (pod_of q ms p)))
        → (p.node_name == "" || not (known p.node_name)) ≡ true
        → (s' : State) × Assigned s'
    assign_loose e loose =
        let pod = some (pod_of q ms p) in
        let s' : State = (s.0, Dict.put s.1 (key_of p) pod) in
        (
          s',
          (
            e,
            record { filled = h.filled; same_nodes = h.same_nodes },
            λ node key. ground (arith, loose, same_known node),
            λ key. ground (arith, loose, get-put s.1 (key_of p) key pod),
          ),
        )

    assign_on :
        (n : Node) (ps : Dict (Option Pod))
        → (p.node_name == "") ≡ false
        → Dict.get s.0 p.node_name ≡ some (some n)
        → n.pods ≡ some ps
        → Each IsThere ps
        → (s' : State) × Assigned s'
    unfolding assign
    assign_on n ps named found held there =
        let key = key_of p in
        let pod = some (pod_of q ms p) in
        let n' : Node = record n { pods = some (Dict.put ps key pod) } in
        let s' : State = (Dict.put s.0 p.node_name (some n'), s.1) in
        let is_known : known p.node_name ≡ true =
          sym (h.same_nodes p.node_name) ∙ ap is_present found in
        (
          s',
          (
            ground (arith, named, found, held),
            record {
              filled =
                  put-Each IsFilled s.0 p.node_name (some n') h.filled
                    (Dict.put ps key pod, refl, put-Each IsThere ps key pod there tt);
              same_nodes = λ node. ground (
                arith,
                get-put s.0 p.node_name node (some n'),
                h.same_nodes node,
                is_known,
                same_known node,
              );
            },
            λ node j. elim (Bool-cases (p.node_name == node)) [
              | inl e ↦
                  let here : Dict.get s.0 node ≡ some (some n) =
                    ap (Dict.get s.0) (sym ((eq_iff p.node_name node).0 e)) ∙ found in
                  let known_here : known node ≡ true = sym (same_known node e) ∙ is_known in
                  ground (
                    arith,
                    e,
                    named,
                    here,
                    held,
                    known_here,
                    get-put s.0 p.node_name node (some n'),
                    get-put ps key j pod,
                  )
              | inr e ↦ ground (arith, e, get-put s.0 p.node_name node (some n'))
            ],
            λ j. ground (arith, named, is_known),
          ),
        )

  pub assign_total :
      (known : String → Bool) (p : KubePod) (s : State)
      → (h : IsReady known s) → (s' : State) × Assigned known p s h s'
  unfolding assign
  assign_total known p s h = elim (Bool-cases (p.node_name == "")) [
    | inl e ↦ assign_loose known p s h (ground (arith, e)) (ground (arith, e))
    | inr e ↦ elim (Option-cases (Dict.get s.0 p.node_name)) [
      | inl none_there ↦
          let unknown : known p.node_name ≡ false =
            sym (h.same_nodes p.node_name) ∙ ap is_present none_there in
          assign_loose known p s h (ground (arith, e, none_there)) (ground (arith, e, unknown))
      | inr (o, there) ↦ on_node o there (get-Each IsFilled s.0 p.node_name o h.filled there) e
    ]
  ]
    where
      on_node :
          (o : Option Node)
          → Dict.get s.0 p.node_name ≡ some o
          → IsFilled o
          → (p.node_name == "") ≡ false
          → (s' : State) × Assigned known p s h s'
      on_node none there f e = absurd f
      on_node (some n) there f e = assign_on known p s h n f.0 e there f.1 f.2

  converted_cons :
      (f : KubePod → Bool) (p : KubePod) (ps : List KubePod) (before mid : Option (Option Pod))
      → mid ≡ (if f p then some (some (pod_of q ms p)) else before)
      → converted (last_pod f ps) mid ≡ converted (last_pod f (p ∷ ps)) before
  converted_cons f p ps before mid h = elim (Option-cases (last_pod f ps)) [
    | inr (r, e) ↦ rw e refl
    | inl e ↦ elim (Bool-cases (f p)) [
      | inl y ↦ rw e (rw y (rw y at h))
      | inr n ↦ rw e (rw n (rw n at h))
    ]
  ]

  pub assign_all_total :
      (known : String → Bool) (ps : List KubePod) (s : State)
      → IsReady known s
      → (s' : State) × (assign_all q ms ps s ≡ some s')
        × IsReady known s'
        × ((node key : String)
            → pod_in s' node key
              ≡ converted (last_pod (runs_on (known node) node key) ps) (pod_in s node key))
        × ((key : String)
            → Dict.get s'.1 key ≡ converted (last_pod (is_loose known key) ps) (Dict.get s.1 key))
  unfolding assign_all
  assign_all_total known [] s h = (s, refl, h, λ node key. refl, λ key. refl)
  assign_all_total known (p ∷ ps) s h =
      let (s', (e, h', on, loose)) = assign_total known p s h in
      let (s'', e', h'', on', loose') = assign_all_total known ps s' h' in
      (
        s'',
        rw (e, assign_all) e',
        h'',
        λ node key.
            on' node key
            ∙ converted_cons (runs_on (known node) node key) p ps _ (pod_in s' node key)
                (on node key),
        λ key.
            loose' key ∙ converted_cons (is_loose known key) p ps _ (Dict.get s'.1 key) (loose key),
      )
