-- ===== src/Store/Memory/Clusters.antt =====
-- Cluster data and statuses in internal/store/memory.go: what is read is the copy that was stored.
use go_kube_ops_view.Prelude.{
  String, ◌≡◌, ◌≢◌, refl, Option, none, some, List, arith, ◌==◌, if◌then◌else◌, ok, err, panic,
  Option-cases, Bool-cases, inl, inr,
}
use go_kube_ops_view.Dict
use go_kube_ops_view.Dict.{get-put, get-remove}
use go_kube_ops_view.Models.{ClusterData}
use go_kube_ops_view.Models.Validate.{validate}
use go_kube_ops_view.Models.Clone.{clone}
use go_kube_ops_view.Models.Clone.Plain.{image}
use go_kube_ops_view.Models.Clone.Image.{clone_valid, clone_idem}
use go_kube_ops_view.Store.{cluster_not_found}
use go_kube_ops_view.Store.Memory.{
  MemoryStore, new_memory_store, get_cluster_data, set_cluster_data, get_cluster_status,
  set_cluster_status, delete_cluster, publish_event, subscribe, unsubscribe, create_screen_token,
  redeem_screen_token, delete_screen_token, close, get_token_count,
}
use go_kube_ops_view.Store.Memory.Runs.{Op, set_data, delete, step, run, run_induction}

-- Valid data that was stored is read back as its copy, under its own ID only: every other ID
-- reads as before.
pub get-set_data :
    (m : MemoryStore) (id j : String) (cd : ClusterData)
    → validate cd ≡ ok tt
    → let r = set_cluster_data id (some cd) m in
      (r.0 ≡ ok tt)
      × (get_cluster_data j r.1 ≡ (if id == j then ok (image cd) else get_cluster_data j m))
unfolding get_cluster_data set_cluster_data
get-set_data m id j cd v =
    let (copied, _, again) = clone_valid cd v in
    let dict = get-put m.clusters id j (image cd) in
    (
      rw (copied, set_cluster_data) refl,
      rw (copied, set_cluster_data)
          (rw (dict, get_cluster_data)
            (elim (Bool-cases (id == j)) [ inl e ↦ rw e (rw again) | inr e ↦ rw e ])),
    )

-- A deleted cluster has no data and no status, and no other cluster is touched.
pub get-delete_cluster :
    (m : MemoryStore) (id j : String)
    → let m' = (delete_cluster id m).1 in
      (get_cluster_data j m' ≡ (if id == j then err cluster_not_found else get_cluster_data j m))
      × (get_cluster_status j m'
          ≡ (if id == j then err cluster_not_found else get_cluster_status j m))
unfolding get_cluster_data get_cluster_status delete_cluster
get-delete_cluster m id j = ground (arith, get-remove m.clusters id j, get-remove m.statuses id j)

-- Every stored value is its own copy.
pub IsClean : MemoryStore → Type 0
IsClean m = (id : String) (cd : ClusterData) → Dict.get m.clusters id ≡ some cd → clone cd ≡ some cd

pub set_data-IsClean :
    (id : String) (o : Option ClusterData) (m : MemoryStore)
    → IsClean m
    → IsClean (set_cluster_data id o m).1
unfolding IsClean set_cluster_data
set_data-IsClean id none m h = h
set_data-IsClean id (some cd) m h = elim (Option-cases (clone cd)) [
  | inl e ↦ rw (e, set_cluster_data) h
  | inr (copy, e) ↦
      rw (e, set_cluster_data)
        (λ j x p. ground (arith, get-put m.clusters id j copy, h j x, clone_idem cd e))
]

-- Only two calls change the cluster data.
abbrev pub IsIdle : Op → Type 0
IsIdle (set_data _ _) = ⊥
IsIdle (delete _) = ⊥
IsIdle _ = Unit

clusters-step : (o : Op) (m : MemoryStore) → IsIdle o → (step o m).clusters ≡ m.clusters
unfolding step set_cluster_status publish_event subscribe unsubscribe create_screen_token
    redeem_screen_token delete_screen_token close get_token_count
clusters-step (set_data id cd) m h = absurd h
clusters-step (delete id) m h = absurd h
clusters-step (Op.set_status id none) m h = refl
clusters-step (Op.set_status id (some s)) m h = refl
clusters-step (Op.create none now created expires) m h = refl
clusters-step (Op.create (some bytes) now created expires) m h = refl
clusters-step _ m h = ground arith

delete-IsClean : (id : String) (m : MemoryStore) → IsClean m → IsClean (delete_cluster id m).1
unfolding IsClean delete_cluster
delete-IsClean id m h j x p = ground (arith, get-remove m.clusters id j, h j x)

pub idle-IsClean : (o : Op) (m : MemoryStore) → IsIdle o → IsClean m → IsClean (step o m)
unfolding IsClean
idle-IsClean o m i h = rw (clusters-step o m i) h

step-IsClean : (o : Op) (m : MemoryStore) → IsClean m → IsClean (step o m)
unfolding step
step-IsClean (set_data id cd) m h = set_data-IsClean id cd m h
step-IsClean (delete id) m h = delete-IsClean id m h
step-IsClean (Op.set_status id s) m h = idle-IsClean (Op.set_status id s) m tt h
step-IsClean (Op.publish k p now) m h = idle-IsClean (Op.publish k p now) m tt h
step-IsClean Op.join m h = idle-IsClean Op.join m tt h
step-IsClean (Op.leave id) m h = idle-IsClean (Op.leave id) m tt h
step-IsClean (Op.create r a b c) m h = idle-IsClean (Op.create r a b c) m tt h
step-IsClean (Op.redeem a b c d) m h = idle-IsClean (Op.redeem a b c d) m tt h
step-IsClean (Op.revoke t) m h = idle-IsClean (Op.revoke t) m tt h
step-IsClean (Op.count now) m h = idle-IsClean (Op.count now) m tt h
step-IsClean Op.shut m h = idle-IsClean Op.shut m tt h
step-IsClean (Op.receive id) m h = idle-IsClean (Op.receive id) m tt h

pub new-IsClean : IsClean new_memory_store
unfolding IsClean Dict.get
new-IsClean id cd p = cc

pub read_of_clean : (m : MemoryStore) (id : String) → IsClean m → get_cluster_data id m ≢ panic
unfolding IsClean get_cluster_data
read_of_clean m id h p = elim (Option-cases (Dict.get m.clusters id)) [
  | inl e ↦ cc (rw (e, get_cluster_data) at p)
  | inr (cd, e) ↦ cc (rw (h id cd e) at (rw (e, get_cluster_data) at p))
]

-- After any calls on a new store, whatever data they stored, reading a cluster does not panic: the
-- copies that the store holds have no nil pointer.
read_total : (ops : List Op) (id : String) → get_cluster_data id (run ops new_memory_store) ≢ panic
read_total ops id = read_of_clean _ id (run_induction step-IsClean ops new_memory_store new-IsClean)
