-- ===== src/Models/Clone/Plain.antt =====
-- What a copy of internal/models/types.go looks like, as plain functions that cannot panic: every field
-- as it is, but the empty map for a nil one; and that a second copy is like the first.
use mathlib.Core.Option
use go_kube_ops_view.Prelude.{◌≡◌, refl, ap₂, Option, none, some, List, [], ◌∷◌, map}
use go_kube_ops_view.Dict
use go_kube_ops_view.Dict.{Entries}
use go_kube_ops_view.Models.{GoMap, range, Container, Pod, Node, ClusterData}

-- The empty map for a nil one.
abbrev pub non_nil {ℓ} : {V : Type ℓ} → GoMap V → GoMap V
non_nil none = some Dict.empty
non_nil (some d) = some d

abbrev pub container_image : Container → Container
container_image c = record c {
  resources = record {
    requests = non_nil c.resources.requests;
    limits = non_nil c.resources.limits;
  };
}

abbrev pub pod_image : Pod → Pod
pod_image p = record p { labels = non_nil p.labels; containers = map container_image p.containers }

abbrev pub pod_images : Entries (Option Pod) → Entries (Option Pod)
pod_images l = map (λ e. (e.0, Option.map pod_image e.1)) l

abbrev pub node_image : Node → Node
node_image n = record n {
  labels = non_nil n.labels;
  annotations = non_nil n.annotations;
  pods = some (record { entries = pod_images (range n.pods) });
  capacity = non_nil n.capacity;
  allocatable = non_nil n.allocatable;
}

abbrev pub node_images : Entries (Option Node) → Entries (Option Node)
node_images l = map (λ e. (e.0, Option.map node_image e.1)) l

abbrev pub image : ClusterData → ClusterData
image cd = record cd {
  nodes = some (record { entries = node_images (range cd.nodes) });
  unassigned_pods = some (record { entries = pod_images (range cd.unassigned_pods) });
}

non_nil_idem {ℓ} : {V : Type ℓ} → (m : GoMap V) → non_nil (non_nil m) ≡ non_nil m
non_nil_idem none = refl
non_nil_idem (some d) = refl

container_image_idem : (c : Container) → container_image (container_image c) ≡ container_image c
container_image_idem c =
    rw (non_nil_idem c.resources.requests, non_nil_idem c.resources.limits) refl

containers_idem :
    (cs : List Container) → map container_image (map container_image cs) ≡ map container_image cs
containers_idem [] = refl
containers_idem (c ∷ cs) = cc (container_image_idem c, containers_idem cs)

pub pod_image_idem : (p : Pod) → pod_image (pod_image p) ≡ pod_image p
pod_image_idem p = rw (non_nil_idem p.labels, containers_idem p.containers) refl

pod_images_idem : (l : Entries (Option Pod)) → pod_images (pod_images l) ≡ pod_images l
pod_images_idem [] = refl
pod_images_idem ((k, none) ∷ l) = cc (pod_images_idem l)
pod_images_idem ((k, some p) ∷ l) = cc (pod_image_idem p, pod_images_idem l)

pub node_image_idem : (n : Node) → node_image (node_image n) ≡ node_image n
node_image_idem n =
    rw
      (
        non_nil_idem n.labels,
        non_nil_idem n.annotations,
        non_nil_idem n.capacity,
        non_nil_idem n.allocatable,
        pod_images_idem (range n.pods),
      )
      refl

node_images_idem : (l : Entries (Option Node)) → node_images (node_images l) ≡ node_images l
node_images_idem [] = refl
node_images_idem ((k, none) ∷ l) = cc (node_images_idem l)
node_images_idem ((k, some n) ∷ l) = cc (node_image_idem n, node_images_idem l)

pub image_idem : (cd : ClusterData) → image (image cd) ≡ image cd
image_idem cd =
    ap₂
      (λ (ns : Entries (Option Node)) (ps : Entries (Option Pod)). record cd {
        nodes = some (record { entries = ns });
        unassigned_pods = some (record { entries = ps });
      })
      (node_images_idem (range cd.nodes)) (pod_images_idem (range cd.unassigned_pods))
