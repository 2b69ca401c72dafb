-- ===== src/Models/Clone/Image.antt =====
-- What `Clone` of internal/models/types.go returns for data without nil pointers, and what such a copy
-- keeps.
use mathlib.Core.Path.{subst}
use go_kube_ops_view.Prelude.{
  String, Option-cases, inl, inr, none≢some, ◌≡◌, refl, ap, ◌∙◌, Option, none, some, List, [], ◌∷◌,
  map, ok, All,
}
use go_kube_ops_view.Dict.{Entries}
use go_kube_ops_view.Models.{GoMap, range, Container, Pod, Node, ClusterData}
use go_kube_ops_view.Models.Validate.{
  validate, IsValidCluster, validate_iff, AllValues, IsValidContainer, IsValidPod, IsValidNode,
}
use go_kube_ops_view.Models.Clone.Plain.{
  non_nil, container_image, pod_image, pod_images, node_image, node_images, image, pod_image_idem,
  node_image_idem, image_idem,
}
use go_kube_ops_view.Models.Clone.{
  fresh, clone_container, clone_pod, clone_pods, clone_node, clone_nodes, clone,
}

fresh-range {ℓ} : {V : Type ℓ} → (m : GoMap V) → fresh (range m) ≡ non_nil m
fresh-range none = refl
fresh-range (some d) = refl

same_state {ℓ} :
    {V : Type ℓ} → (m : GoMap V) → elim m [ none ↦ none | some d ↦ fresh d.entries ] ≡ m
same_state none = refl
same_state (some d) = refl

clone_container-eq : (c : Container) → clone_container c ≡ container_image c
clone_container-eq c =
    rw (fresh-range c.resources.requests, fresh-range c.resources.limits, same_state c.state) refl

clone_containers-eq : (cs : List Container) → map clone_container cs ≡ map container_image cs
clone_containers-eq [] = refl
clone_containers-eq (c ∷ cs) = cc (clone_container-eq c, clone_containers-eq cs)

clone_pod-eq : (p : Pod) → clone_pod p ≡ pod_image p
clone_pod-eq p = rw (fresh-range p.labels, clone_containers-eq p.containers) refl

clone_pods-eq :
    (l : Entries (Option Pod)) → AllValues IsValidPod l → clone_pods l ≡ some (pod_images l)
unfolding clone_pods
clone_pods-eq [] h = refl
clone_pods-eq ((k, none) ∷ l) h = absurd h.0
clone_pods-eq ((k, some p) ∷ l) h = rw (clone_pods-eq l h.1, clone_pod-eq p) refl

-- The other maps of a node.
whole :
    (n : Node) (ps : Entries (Option Pod))
    → some (record n {
      labels = fresh (range n.labels);
      annotations = fresh (range n.annotations);
      pods = fresh ps;
      capacity = fresh (range n.capacity);
      allocatable = fresh (range n.allocatable);
    })
      ≡ some (record (node_image n) { pods = fresh ps })
whole n ps =
    rw
      (
        fresh-range n.labels,
        fresh-range n.annotations,
        fresh-range n.capacity,
        fresh-range n.allocatable,
      )
      refl

clone_node-eq : (n : Node) → IsValidNode n → clone_node n ≡ some (node_image n)
unfolding clone_node
clone_node-eq n h =
    rw (clone_pods-eq (range n.pods) h.1, clone_node) (whole n (pod_images (range n.pods)))

clone_nodes-eq :
    (l : Entries (Option Node)) → AllValues IsValidNode l → clone_nodes l ≡ some (node_images l)
unfolding clone_nodes
clone_nodes-eq [] h = refl
clone_nodes-eq ((k, none) ∷ l) h = absurd h.0
clone_nodes-eq ((k, some n) ∷ l) h =
    rw (clone_node-eq n h.0, clone_nodes) (rw (clone_nodes-eq l h.1))

clone-eq : (cd : ClusterData) → IsValidCluster cd → clone cd ≡ some (image cd)
unfolding clone
clone-eq cd v =
    rw (clone_nodes-eq (range cd.nodes) v.nodes, clone)
      (rw (clone_pods-eq (range cd.unassigned_pods) v.unassigned_pods))

containers-IsValid :
    (cs : List Container) → All IsValidContainer cs → All IsValidContainer (map container_image cs)
containers-IsValid [] h = h
containers-IsValid (c ∷ cs) h = (h.0, containers-IsValid cs h.1)

pod_images-IsValid :
    (l : Entries (Option Pod)) → AllValues IsValidPod l → AllValues IsValidPod (pod_images l)
pod_images-IsValid [] h = h
pod_images-IsValid ((k, none) ∷ l) h = absurd h.0
pod_images-IsValid ((k, some p) ∷ l) h =
    ((h.0.0, h.0.1, containers-IsValid p.containers h.0.2), pod_images-IsValid l h.1)

node_images-IsValid :
    (l : Entries (Option Node)) → AllValues IsValidNode l → AllValues IsValidNode (node_images l)
node_images-IsValid [] h = h
node_images-IsValid ((k, none) ∷ l) h = absurd h.0
node_images-IsValid ((k, some n) ∷ l) h =
    ((h.0.0, pod_images-IsValid (range n.pods) h.0.1), node_images-IsValid l h.1)

image-IsValid : (cd : ClusterData) → IsValidCluster cd → IsValidCluster (image cd)
image-IsValid cd v = record {
  id = v.id;
  api_server_url = v.api_server_url;
  nodes = node_images-IsValid (range cd.nodes) v.nodes;
  unassigned_pods = pod_images-IsValid (range cd.unassigned_pods) v.unassigned_pods;
}

-- For data that `Validate` accepts `Clone` does not panic; the copy has every field of the data, of its
-- nodes, pods and containers, with the entries in the same order, except that nil maps have become
-- empty ones (the state of a container stays nil); it is accepted too, and a copy of it is the same.
pub clone_valid :
    (cd : ClusterData)
    → validate cd ≡ ok tt
    → (clone cd ≡ some (image cd))
      × (validate (image cd) ≡ ok tt)
      × (clone (image cd) ≡ some (image cd))
clone_valid cd h =
    let v = (validate_iff cd).0 h in
    let w = image-IsValid cd v in
    (clone-eq cd v, (validate_iff (image cd)).1 w, clone-eq (image cd) w ∙ ap some (image_idem cd))

clone_first :
    (k : String) (l : Entries (Option Pod)) (p : Pod)
    → clone_pod p ≡ p
    → some ((k, some (clone_pod p)) ∷ pod_images l) ≡ some ((k, some p) ∷ pod_images l)
clone_first k l p h = ap (λ (q : Pod). some ((k, some q) ∷ pod_images l)) h

clone_pods_inv :
    (l : Entries (Option Pod)) {r : Entries (Option Pod)}
    → clone_pods l ≡ some r
    → (r ≡ pod_images l) × (clone_pods (pod_images l) ≡ some (pod_images l))
unfolding clone_pods
clone_pods_inv [] h = (cc, refl)
clone_pods_inv ((k, none) ∷ l) h = cc
clone_pods_inv ((k, some p) ∷ l) h = elim (Option-cases (clone_pods l)) [
  | inl e ↦ absurd (none≢some (rw e at h))
  | inr (r, e) ↦
      let ih = clone_pods_inv l e in
      (
        cc (e, ih.0, clone_pod-eq p),
        rw ih.1 (clone_first k l (pod_image p) (clone_pod-eq (pod_image p) ∙ pod_image_idem p)),
      )
]

clone_node_inv :
    (n : Node) {n' : Node}
    → clone_node n ≡ some n'
    → (n' ≡ node_image n) × (clone_node (node_image n) ≡ some (node_image n))
unfolding clone_node
clone_node_inv n h = elim (Option-cases (clone_pods (range n.pods))) [
  | inl e ↦ absurd (none≢some (rw (e, clone_node) at h))
  | inr (r, e) ↦
      let i = clone_pods_inv (range n.pods) e in
      let ps = pod_images (range n.pods) in
      (
        cc (e, i.0, whole n ps),
        rw (i.1, clone_node)
            (whole (node_image n) ps
              ∙ ap (λ (x : Node). some (record x { pods = fresh ps })) (node_image_idem n)),
      )
]

clone_nodes_inv :
    (l : Entries (Option Node)) {r : Entries (Option Node)}
    → clone_nodes l ≡ some r
    → (r ≡ node_images l) × (clone_nodes (node_images l) ≡ some (node_images l))
unfolding clone_nodes
clone_nodes_inv [] h = (cc, refl)
clone_nodes_inv ((k, none) ∷ l) h = cc
clone_nodes_inv ((k, some n) ∷ l) h = elim (Option-cases (clone_node n)) [
  | inl e ↦ absurd (none≢some (rw (e, clone_nodes) at h))
  | inr (n', e) ↦ elim (Option-cases (clone_nodes l)) [
    | inl f ↦ absurd (none≢some (rw (f, clone_nodes) at (rw (e, clone_nodes) at h)))
    | inr (r, f) ↦
        let i = clone_node_inv n e in
        let j = clone_nodes_inv l f in (cc (e, f, i.0, j.0), rw (i.1, clone_nodes) (rw j.1))
  ]
]

-- A copy holds no nil map and no nil pointer: `Clone` of it does not panic and changes nothing.
pub clone_idem : (cd : ClusterData) {r : ClusterData} → clone cd ≡ some r → clone r ≡ some r
unfolding clone
clone_idem cd {r} h = elim (Option-cases (clone_nodes (range cd.nodes))) [
  | inl e ↦ absurd (none≢some (rw (e, clone) at h))
  | inr (ns, e) ↦ elim (Option-cases (clone_pods (range cd.unassigned_pods))) [
    | inl f ↦ absurd (none≢some (rw f at (rw (e, clone) at h)))
    | inr (ps, f) ↦
        let i = clone_nodes_inv (range cd.nodes) e in
        let j = clone_pods_inv (range cd.unassigned_pods) f in
        let r-eq : some (image cd) ≡ some r = cc (e, f, i.0, j.0) in
        let again : clone (image cd) ≡ some (image cd) = rw (i.1, clone) (rw j.1) in
        subst (λ (x : ClusterData). clone x ≡ some x) (cc r-eq) again
  ]
]
