-- ===== src/Store/Memory/Refinement.antt =====
-- internal/store/memory.go keeps the contract of the stores.
use go_kube_ops_view.Prelude.{
  String, ◌≡◌, refl, Option, none, some, List, [], ◌∷◌, arith, ◌==◌, ok, err, panic, Result,
  Bool-cases, Option-cases, inl, inr, any,
}
use go_kube_ops_view.Dict
use go_kube_ops_view.Dict.{get-put, get-remove, get-keys, get-keys-none, get-empty}
use go_kube_ops_view.Models.{ClusterData}
use go_kube_ops_view.Models.Clone.{clone}
use go_kube_ops_view.Models.Clone.Image.{clone_idem}
use go_kube_ops_view.Store.{ClusterStatus, StoreError, cluster_not_found}
use go_kube_ops_view.Store.Contract
use go_kube_ops_view.Store.Contract.{Contents, nothing, perform, is_present}
use go_kube_ops_view.Store.Memory.{
  MemoryStore, new_memory_store, get_cluster_data, set_cluster_data, get_cluster_status,
  set_cluster_status, delete_cluster, publish_event, subscribe, unsubscribe, create_screen_token,
  redeem_screen_token, delete_screen_token, close, get_token_count, get_cluster_ids,
}
use go_kube_ops_view.Store.Memory.Runs.{Op, set_data, set_status, delete, step, run}

-- The contract's view of a call: nil arguments and data that `Clone` panics on are not stored.
abbrev pub promised : Op → Contents → Contents
promised (set_data id (some cd)) k = elim (clone cd) [
  | none ↦ k
  | some _ ↦ perform (Contract.set_data id cd) k
]
promised (set_status id (some s)) k = perform (Contract.set_status id s) k
promised (delete id) k = perform (Contract.delete id) k
promised _ k = k

abbrev pub promised_all : List Op → Contents → Contents
promised_all [] k = k
promised_all (o ∷ os) k = promised_all os (promised o k)

abbrev Copied : Option ClusterData → Option ClusterData → Type 0
Copied none held = held ≡ none
Copied (some cd) held = (copy : ClusterData) × (clone cd ≡ some copy) × (held ≡ some copy)

record Simulates (m : MemoryStore) (k : Contents) : Type 0 where
  data_kept : (id : String) → Copied (k.data_of id) (Dict.get m.clusters id)
  status_kept : (id : String) → Dict.get m.statuses id ≡ k.status_of id

-- A call that changes neither map.
abbrev IsIdle : Op → Type 0
IsIdle (set_data _ _) = ⊥
IsIdle (set_status _ _) = ⊥
IsIdle (delete _) = ⊥
IsIdle _ = Unit

maps-step :
    (o : Op) (m : MemoryStore)
    → IsIdle o
    → ((step o m).clusters ≡ m.clusters) × ((step o m).statuses ≡ m.statuses)
unfolding step publish_event subscribe unsubscribe create_screen_token redeem_screen_token
    delete_screen_token close get_token_count
maps-step (set_data id cd) m h = absurd h
maps-step (set_status id s) m h = absurd h
maps-step (delete id) m h = absurd h
maps-step (Op.create none now created expires) m h = (refl, refl)
maps-step (Op.create (some bytes) now created expires) m h = (refl, refl)
maps-step _ m h = ground arith

idle-Simulates :
    (o : Op) (m : MemoryStore) (k : Contents) → IsIdle o → Simulates m k → Simulates (step o m) k
idle-Simulates o m k i h =
    let (p, q) = maps-step o m i in
    record { data_kept = λ id. rw p (h.data_kept id); status_kept = λ id. rw q (h.status_kept id) }

set_data-Simulates :
    (id : String) (cd : ClusterData) (m : MemoryStore) (k : Contents)
    → Simulates m k
    → Simulates (set_cluster_data id (some cd) m).1 (promised (set_data id (some cd)) k)
unfolding set_cluster_data
set_data-Simulates id cd m k h = elim (Option-cases (clone cd)) [
  | inl e ↦ rw (e, promised) (rw (e, set_cluster_data) h)
  | inr (copy, e) ↦
      rw (e, promised)
        (rw (e, set_cluster_data)
          (record {
            data_kept = λ j. elim (Bool-cases (id == j)) [
              | inl q ↦ rw (get-put m.clusters id j copy, q) (copy, e, refl)
              | inr q ↦ rw (get-put m.clusters id j copy, q) (h.data_kept j)
            ];
            status_kept = h.status_kept;
          }))
]

step-Simulates :
    (o : Op) (m : MemoryStore) (k : Contents) → Simulates m k → Simulates (step o m) (promised o k)
unfolding step set_cluster_data set_cluster_status delete_cluster
step-Simulates (set_data id none) m k h = h
step-Simulates (set_data id (some cd)) m k h = set_data-Simulates id cd m k h
step-Simulates (set_status id none) m k h = h
step-Simulates (set_status id (some s)) m k h = record {
  data_kept = h.data_kept;
  status_kept = λ j. ground (arith, get-put m.statuses id j s, h.status_kept j);
}
step-Simulates (delete id) m k h = record {
  data_kept = λ j. elim (Bool-cases (id == j)) [
    | inl q ↦ rw (get-remove m.clusters id j, q) refl
    | inr q ↦ rw (get-remove m.clusters id j, q) (h.data_kept j)
  ];
  status_kept = λ j. ground (arith, get-remove m.statuses id j, h.status_kept j);
}
step-Simulates (Op.publish s p t) m k h = idle-Simulates (Op.publish s p t) m k tt h
step-Simulates Op.join m k h = idle-Simulates Op.join m k tt h
step-Simulates (Op.leave id) m k h = idle-Simulates (Op.leave id) m k tt h
step-Simulates (Op.create r a b c) m k h = idle-Simulates (Op.create r a b c) m k tt h
step-Simulates (Op.redeem a b c d) m k h = idle-Simulates (Op.redeem a b c d) m k tt h
step-Simulates (Op.revoke t) m k h = idle-Simulates (Op.revoke t) m k tt h
step-Simulates (Op.count now) m k h = idle-Simulates (Op.count now) m k tt h
step-Simulates Op.shut m k h = idle-Simulates Op.shut m k tt h
step-Simulates (Op.receive id) m k h = idle-Simulates (Op.receive id) m k tt h

run-Simulates :
    (os : List Op) (m : MemoryStore) (k : Contents)
    → Simulates m k
    → Simulates (run os m) (promised_all os k)
unfolding run
run-Simulates [] m k h = h
run-Simulates (o ∷ os) m k h = run-Simulates os (step o m) (promised o k) (step-Simulates o m k h)

-- What a reading of data that was set returns: its copy.
abbrev pub answer : Option ClusterData → Result StoreError ClusterData
answer none = err cluster_not_found
answer (some cd) = elim (clone cd) [ none ↦ panic | some copy ↦ ok copy ]

abbrev pub status_answer : Option ClusterStatus → Result StoreError ClusterStatus
status_answer none = err cluster_not_found
status_answer (some s) = ok s

data-answer :
    (m : MemoryStore) (id : String) (o : Option ClusterData)
    → Copied o (Dict.get m.clusters id)
    → (get_cluster_data id m ≡ answer o) × (any (λ j. j == id) (get_cluster_ids m) ≡ is_present o)
unfolding get_cluster_data
data-answer m id none h = (rw (h, get_cluster_data) refl, get-keys-none m.clusters id h)
data-answer m id (some cd) (copy, e, h) = (
  rw (h, get_cluster_data) (rw (clone_idem cd e) (rw (e, answer) refl)),
  get-keys m.clusters id h,
)

new-Simulates : Simulates new_memory_store nothing
unfolding Dict.get
new-Simulates = record { data_kept = λ id. refl; status_kept = λ id. refl }

-- After any calls on a new store, a cluster's data and its status read as the contract says, data as
-- the copy of what was set, and the IDs are those that have data.
pub memory_refines :
    (os : List Op) (id : String)
    → let m = run os new_memory_store in
      let k = promised_all os nothing in
      (get_cluster_data id m ≡ answer (k.data_of id))
      × (get_cluster_status id m ≡ status_answer (k.status_of id))
      × (any (λ j. j == id) (get_cluster_ids m) ≡ is_present (k.data_of id))
unfolding get_cluster_status
memory_refines os id =
    let h = run-Simulates os new_memory_store nothing new-Simulates in
    let m = run os new_memory_store in
    let read = data-answer m id _ (h.data_kept id) in
    (read.0, ground (arith, h.status_kept id), read.1)
