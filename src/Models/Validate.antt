-- ===== src/Models/Validate.antt =====
-- The `Validate` methods of internal/models/types.go, against an independent description of what
-- they accept.
use go_kube_ops_view.Prelude.{
  ℕ, ◌+◌, String, ◌≡◌, ◌≢◌, refl, ◌↔◌, Option, none, some, List, [], ◌∷◌, eq_iff, ◌==◌,
  if◌then◌else◌, Result, ok, err, panic, ◌>>◌, All, Bool-cases, inl, inr,
}
use go_kube_ops_view.Dict.{Entries}
use go_kube_ops_view.Models.{Container, Pod, Node, ClusterData, range}

-- The errors, by their format strings; `%w` is the wrapped error.
pub data Invalid : Type 0 where
  container_name_empty container_image_empty pod_name_empty pod_namespace_empty : Invalid
  node_name_empty cluster_id_empty api_server_url_empty : Invalid
  invalid_container : ℕ → Invalid → Invalid
  pod_nil unassigned_pod_nil node_nil : String → Invalid
  invalid_pod invalid_unassigned_pod invalid_node : String → Invalid → Invalid

abbrev pub Checked : Type 0
Checked = Result Invalid (Unit {0})

-- return fmt.Errorf(…, err), or go on
wrap : (Invalid → Invalid) → Checked → Checked → Checked
wrap f (ok _) rest = rest
wrap f (err e) rest = err (f e)
wrap f panic rest = panic

validate_container : Container → Checked
validate_container c =
    if c.name == ""
    then err container_name_empty
    else if c.image == ""
    then err container_image_empty
    else ok tt

-- for i, container := range p.Containers
validate_containers : ℕ → List Container → Checked
validate_containers i [] = ok tt
validate_containers i (c ∷ cs) =
    let rest = validate_containers (i + 1) cs in
    wrap (invalid_container i) (validate_container c) rest

validate_pod : Pod → Checked
validate_pod p =
    if p.name == ""
    then err pod_name_empty
    else if p.namespace == ""
    then err pod_namespace_empty
    else validate_containers 0 p.containers

-- The loop over `n.Pods`, and the one over `cd.UnassignedPods` with its own two messages.
validate_pods : (String → Invalid) → (String → Invalid → Invalid) → Entries (Option Pod) → Checked
validate_pods is_nil is_invalid [] = ok tt
validate_pods is_nil is_invalid ((k, none) ∷ l) = err (is_nil k)
validate_pods is_nil is_invalid ((k, some p) ∷ l) =
    let rest = validate_pods is_nil is_invalid l in wrap (is_invalid k) (validate_pod p) rest

validate_node : Node → Checked
validate_node n =
    if n.name == "" then err node_name_empty else validate_pods pod_nil invalid_pod (range n.pods)

validate_nodes : Entries (Option Node) → Checked
validate_nodes [] = ok tt
validate_nodes ((k, none) ∷ l) = err (node_nil k)
validate_nodes ((k, some n) ∷ l) =
    let rest = validate_nodes l in wrap (invalid_node k) (validate_node n) rest

unfoldable pub validate : ClusterData → Checked
unfolding wrap validate_container validate_containers validate_pod validate_pods validate_node
    validate_nodes
validate cd =
    if cd.id == ""
    then err cluster_id_empty
    else if cd.api_server_url == ""
    then err api_server_url_empty
    else do
      validate_nodes (range cd.nodes)
      validate_pods unassigned_pod_nil invalid_unassigned_pod (range cd.unassigned_pods)

-- What is accepted, independently of the order in which the loops find a fault.
abbrev pub IsValidContainer : Container → Type 0
IsValidContainer c = (c.name ≢ "") × (c.image ≢ "")

abbrev pub IsValidPod : Pod → Type 0
IsValidPod p = (p.name ≢ "") × (p.namespace ≢ "") × All IsValidContainer p.containers

-- An entry that a loop accepts: the pointer is not nil, and what it points to is valid.
abbrev pub Holds {ℓ} : {A : Type ℓ} → (A → Type 0) → Option A → Type 0
Holds P none = ⊥
Holds P (some a) = P a

abbrev pub AllValues {ℓ} : {A : Type ℓ} → (A → Type 0) → Entries (Option A) → Type 0
AllValues P l = All (λ e. Holds P e.1) l

abbrev pub IsValidNode : Node → Type 0
IsValidNode n = (n.name ≢ "") × AllValues IsValidPod (range n.pods)

pub record IsValidCluster (cd : ClusterData) : Type 0 where
  pub id : cd.id ≢ ""
  pub api_server_url : cd.api_server_url ≢ ""
  pub nodes : AllValues IsValidNode (range cd.nodes)
  pub unassigned_pods : AllValues IsValidPod (range cd.unassigned_pods)

-- A wrapped check passes exactly if the check and the rest do.
wrap_iff :
    (f : Invalid → Invalid) (r rest : Checked)
    → (wrap f r rest ≡ ok tt) ↔ ((r ≡ ok tt) × (rest ≡ ok tt))
unfolding wrap
wrap_iff f (ok u) rest = (λ h. (refl, h), λ h. h.1)
wrap_iff f (err e) rest = (λ h. cc, λ h. cc h.0)
wrap_iff f panic rest = (λ h. cc, λ h. cc h.0)

-- A guard against an empty text, then the rest.
guard_iff :
    (s : String) (e : Invalid) (r : Checked)
    → ((if s == "" then err e else r) ≡ ok tt) ↔ ((s ≢ "") × (r ≡ ok tt))
guard_iff s e r = elim (Bool-cases (s == "")) [
  | inl h ↦ rw h (λ p. cc, λ p. absurd (p.0 ((eq_iff s "").0 h)))
  | inr h ↦ rw h (λ p. (λ q. cc (h, (eq_iff s "").1 q), p), λ p. p.1)
]

-- Equivalences in a chain, and side by side.
iff_trans : {A B C : Type 0} → (A ↔ B) → (B ↔ C) → A ↔ C
iff_trans f g = (λ a. g.0 (f.0 a), λ c. f.1 (g.1 c))

iff_pair : {A B C D : Type 0} → (A ↔ B) → (C ↔ D) → (A × C) ↔ (B × D)
iff_pair f g = (λ p. (f.0 p.0, g.0 p.1), λ p. (f.1 p.0, g.1 p.1))

-- Two guards, then a check that stands for `P`.
guards_iff :
    {P : Type 0} (s t : String) (e f : Invalid) (r : Checked)
    → ((r ≡ ok tt) ↔ P)
    → ((if s == "" then err e else if t == "" then err f else r) ≡ ok tt)
      ↔ ((s ≢ "") × (t ≢ "") × P)
guards_iff s t e f r k =
    let first = guard_iff s e (if t == "" then err f else r) in
    let second = guard_iff t f r in
    (
      λ p. let q = first.0 p in let q' = second.0 q.1 in (q.0, q'.0, k.0 q'.1),
      λ p. first.1 (p.0, second.1 (p.1, k.1 p.2)),
    )

container_iff : (c : Container) → (validate_container c ≡ ok tt) ↔ IsValidContainer c
unfolding validate_container
container_iff c =
    let g =
      guards_iff {P = Unit {0}} c.name c.image container_name_empty container_image_empty (ok tt)
        (λ _. tt, λ _. refl) in
    (λ p. let q = g.0 p in (q.0, q.1), λ p. g.1 (p.0, p.1, tt))

containers_iff :
    (i : ℕ) (cs : List Container) → (validate_containers i cs ≡ ok tt) ↔ All IsValidContainer cs
unfolding validate_containers
containers_iff i [] = (λ h. tt, λ h. refl)
containers_iff i (c ∷ cs) =
    iff_trans (wrap_iff _ _ _) (iff_pair (container_iff c) (containers_iff (i + 1) cs))

pod_iff : (p : Pod) → (validate_pod p ≡ ok tt) ↔ IsValidPod p
unfolding validate_pod
pod_iff p = guards_iff _ _ _ _ _ (containers_iff 0 p.containers)

pods_iff :
    (f : String → Invalid) (g : String → Invalid → Invalid) (l : Entries (Option Pod))
    → (validate_pods f g l ≡ ok tt) ↔ AllValues IsValidPod l
unfolding validate_pods
pods_iff f g [] = (λ h. tt, λ h. refl)
pods_iff f g ((k, none) ∷ l) = (λ h. cc, λ h. absurd h.0)
pods_iff f g ((k, some p) ∷ l) = iff_trans (wrap_iff _ _ _) (iff_pair (pod_iff p) (pods_iff f g l))

node_iff : (n : Node) → (validate_node n ≡ ok tt) ↔ IsValidNode n
unfolding validate_node
node_iff n =
    iff_trans (guard_iff _ _ _)
      (iff_pair (λ h. h, λ h. h) (pods_iff pod_nil invalid_pod (range n.pods)))

nodes_iff : (l : Entries (Option Node)) → (validate_nodes l ≡ ok tt) ↔ AllValues IsValidNode l
unfolding validate_nodes
nodes_iff [] = (λ h. tt, λ h. refl)
nodes_iff ((k, none) ∷ l) = (λ h. cc, λ h. absurd h.0)
nodes_iff ((k, some n) ∷ l) = iff_trans (wrap_iff _ _ _) (iff_pair (node_iff n) (nodes_iff l))

>>-iff : (r s : Checked) → ((r >> s) ≡ ok tt) ↔ ((r ≡ ok tt) × (s ≡ ok tt))
>>-iff (ok u) s = (λ h. (refl, h), λ h. h.1)
>>-iff (err e) s = (λ h. cc, λ h. cc h.0)
>>-iff panic s = (λ h. cc, λ h. cc h.0)

-- `Validate` returns no error exactly for the cluster data whose ID and URL are not empty and
-- whose nodes, pods and containers are all present and valid: the loops miss nothing and refuse
-- nothing else, whatever the order in which the maps are run through.
pub validate_iff : (cd : ClusterData) → (validate cd ≡ ok tt) ↔ IsValidCluster cd
unfolding validate
validate_iff cd =
    let pods = pods_iff unassigned_pod_nil invalid_unassigned_pod (range cd.unassigned_pods) in
    let rest = iff_trans (>>-iff _ _) (iff_pair (nodes_iff (range cd.nodes)) pods) in
    let all = guards_iff cd.id cd.api_server_url cluster_id_empty api_server_url_empty _ rest in
    (
      λ h.
          let q = all.0 h in
          record { id = q.0; api_server_url = q.1; nodes = q.2.0; unassigned_pods = q.2.1 },
      λ v. all.1 (v.id, v.api_server_url, (v.nodes, v.unassigned_pods)),
    )
