-- ===== src/Store/Memory/Runs.antt =====
-- The calls that clients make of a `MemoryStore` (internal/store/memory.go), in any order.
use go_kube_ops_view.Prelude.{ℕ, String, Option, List, [], ◌∷◌, nat_eq, if◌then◌else◌}
use go_kube_ops_view.Chan.{Chan}
use go_kube_ops_view.Models.{Time, ClusterData}
use go_kube_ops_view.Store.{ClusterStatus, Payload, Event}
use go_kube_ops_view.Store.Memory.{
  MemoryStore, set_cluster_data, set_cluster_status, delete_cluster, publish_event, subscribe,
  unsubscribe, create_screen_token, redeem_screen_token, delete_screen_token, close,
  get_token_count,
}

pub data Op : Type 0 where
  set_data : String → Option ClusterData → Op
  set_status : String → Option ClusterStatus → Op
  delete : String → Op
  publish : String → Payload → Time → Op
  join : Op
  leave : ℕ → Op
  create : Option (List ℕ) → Time → Time → Time → Op
  redeem : String → String → Time → Time → Op
  revoke : String → Op
  count : Time → Op
  shut : Op
  -- a subscriber takes the next event from its channel
  receive : ℕ → Op

abbrev pub rest_of {ℓ} : {A : Type ℓ} → List A → List A
rest_of [] = []
rest_of (_ ∷ l) = l

abbrev pub take_first : Chan Event → Chan Event
take_first ch = record ch { queue = rest_of ch.queue }

unfoldable pub receive_from : ℕ → List (Chan Event) → List (Chan Event)
receive_from id [] = []
receive_from id (ch ∷ chs) = (if nat_eq ch.id id then take_first ch else ch) ∷ receive_from id chs

unfoldable pub step : Op → MemoryStore → MemoryStore
step (set_data id cd) m = (set_cluster_data id cd m).1
step (set_status id s) m = (set_cluster_status id s m).1
step (delete id) m = (delete_cluster id m).1
step (publish kind payload now) m = (publish_event kind payload now m).1
step join m = (subscribe m).1
step (leave id) m = (unsubscribe id m).1
step (create random now created expires) m = (create_screen_token random now created expires m).1
step (redeem token addr now used) m = (redeem_screen_token token addr now used m).1
step (revoke token) m = (delete_screen_token token m).1
step (count now) m = (get_token_count now m).1
step shut m = (close m).1
step (receive id) m = record m { events = receive_from id m.events }

unfoldable pub run : List Op → MemoryStore → MemoryStore
run [] m = m
run (o ∷ ops) m = run ops (step o m)

-- What every call keeps, every sequence of calls keeps.
pub run_induction :
    {P : MemoryStore → Type 0}
    → ((o : Op) (m : MemoryStore) → P m → P (step o m))
    → (ops : List Op) (m : MemoryStore) → P m
    → P (run ops m)
unfolding run
run_induction keep [] m h = h
run_induction keep (o ∷ ops) m h = run_induction keep ops (step o m) (keep o m h)
