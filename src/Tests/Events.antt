-- ===== src/Tests/Events.antt =====
-- A publisher over the in-memory store, in short runs.
use go_kube_ops_view.Prelude.{
  ◌≡◌, some, List, [], ◌∷◌, ◌++◌, if◌then◌else◌, ok, err, panic, none, map, String, nat_eq, length,
}
use go_kube_ops_view.Store.{Payload, cluster, event_type_cluster_update}
use go_kube_ops_view.Store.Memory
use go_kube_ops_view.Store.Memory.{MemoryStore, new_memory_store, get_cluster_ids}
use go_kube_ops_view.Events.{StoreApi}
use go_kube_ops_view.Events.Publisher.{
  State, new_publisher, publish, snapshot, publisher_closed, store_failed,
}
use go_kube_ops_view.Events.Publisher.Broadcast.{deliver}
use go_kube_ops_view.Events.Publisher.Snapshot.{snapshot_lem, events_of, bootstrap_end}
use go_kube_ops_view.Events.Publisher.Runs.{Op, post, join, leave, receive, run}
use go_kube_ops_view.Events.Publisher.Runs.Calls.{
  event_of, IsWellFormed, store_result, stored, publish_lem,
}
use go_kube_ops_view.Events.Publisher.Runs.Safety.{run_publisher-IsWellFormed}
use go_kube_ops_view.Tests.Data.{data_of}

abbrev pub memory : StoreApi
memory = record {
  State = MemoryStore;
  get_cluster_ids = get_cluster_ids;
  get_cluster_data = Memory.get_cluster_data;
  get_cluster_status = Memory.get_cluster_status;
  publish_event = Memory.publish_event;
}

abbrev update : Payload
update = cluster (some (data_of "c"))

abbrev pub filled : MemoryStore
filled = (Memory.set_cluster_data "c" (some (data_of "c")) new_memory_store).1

abbrev fresh : State memory
fresh = new_publisher memory filled

abbrev calls : List (Op MemoryStore)
calls =
    join ("c" ∷ []) 1
    ∷ join ("d" ∷ []) 2
    ∷ join [] 3
    ∷ post event_type_cluster_update update "c" 4
    ∷ receive 1
    ∷ leave 2
    ∷ []

abbrev busy : State memory
busy = run memory calls fresh

run_publisher-IsWellFormed_example :
    IsWellFormed memory (run memory calls (new_publisher memory filled))
run_publisher-IsWellFormed_example = run_publisher-IsWellFormed memory filled calls

publish_lem_example : publish memory event_type_cluster_update update "c" 5 busy ≡ (
    if busy.closed
    then (err publisher_closed, busy)
    else elim (store_result memory event_type_cluster_update update "c" 5 busy) [
      | err e ↦ (err (store_failed e), stored memory event_type_cluster_update update "c" 5 busy)
      | panic ↦ (panic, stored memory event_type_cluster_update update "c" 5 busy)
      | ok _ ↦ (
        ok tt,
        record (stored memory event_type_cluster_update update "c" 5 busy) {
          subscribers =
              map (deliver (event_of event_type_cluster_update update "c" 5)) busy.subscribers;
        },
      )
    ])
publish_lem_example =
    publish_lem memory event_type_cluster_update update "c" 5 busy
      run_publisher-IsWellFormed_example

snapshot_lem_example : snapshot memory ("c" ∷ []) 5 fresh ≡ (
    if fresh.closed
    then err publisher_closed
    else elim (events_of memory
        (if nat_eq (length {A = String} ("c" ∷ [])) 0
          then memory.get_cluster_ids fresh.store
          else "c" ∷ [])
        5
        fresh.store) [ none ↦ panic | some es ↦ ok (es ++ bootstrap_end 5 ∷ []) ])
snapshot_lem_example = snapshot_lem memory ("c" ∷ []) 5 fresh
