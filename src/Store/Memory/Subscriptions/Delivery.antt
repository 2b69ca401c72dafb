-- ===== src/Store/Memory/Subscriptions/Delivery.antt =====
-- What a subscriber of internal/store/memory.go can rely on, in any sequence of calls.
use go_kube_ops_view.Prelude.{
  ℕ, String, ◌≡◌, ◌≢◌, refl, true, none, some, List, arith, if◌then◌else◌, Option-cases, Bool-cases,
  inl, inr, ok, err, panic,
}
use go_kube_ops_view.Chan.Lists.{close_all-eq}
use go_kube_ops_view.Models.{Time}
use go_kube_ops_view.Store.{Payload, operation_failed, subscription_not_found}
use go_kube_ops_view.Store.Memory.{
  MemoryStore, new_memory_store, publish_event, payload_cluster_id, subscribe, unsubscribe, close,
  set_cluster_data, set_cluster_status, delete_cluster, create_screen_token, redeem_screen_token,
  delete_screen_token, get_token_count,
}
use go_kube_ops_view.Store.Memory.Runs.{Op, receive_from, step, run_induction, run}
use go_kube_ops_view.Store.{connection_failed}
use go_kube_ops_view.Store.Memory.{ping}
use go_kube_ops_view.Store.Memory.Subscriptions.{
  IsWellFormed, others, holds, take_channel-eq, ids-receive_from, receive_from-All,
}
use go_kube_ops_view.Store.Memory.Subscriptions.Calls.{
  publish_closed, publish_open, publish-IsWellFormed, subscribe_closed, subscribe-IsWellFormed,
  unsubscribe_missing, unsubscribe_found, unsubscribe-IsWellFormed, close-IsWellFormed,
}

receive-IsWellFormed :
    (id : ℕ) (m : MemoryStore) → IsWellFormed m → IsWellFormed (step (Op.receive id) m)
unfolding step
receive-IsWellFormed id m h = record {
  live = receive_from-All id m.events h.live;
  known = rw ids-receive_from h.known;
  distinct = rw ids-receive_from h.distinct;
  gone = λ p. rw (h.gone p) (unfold receive_from in refl);
}

step-IsWellFormed : (o : Op) (m : MemoryStore) → IsWellFormed m → IsWellFormed (step o m)
unfolding step set_cluster_data set_cluster_status delete_cluster create_screen_token
    redeem_screen_token delete_screen_token get_token_count
step-IsWellFormed (Op.publish kind payload now) m h = publish-IsWellFormed kind payload now m h
step-IsWellFormed Op.join m h = subscribe-IsWellFormed m h
step-IsWellFormed (Op.leave id) m h = unsubscribe-IsWellFormed id m h
step-IsWellFormed Op.shut m h = close-IsWellFormed m h
step-IsWellFormed (Op.receive id) m h = receive-IsWellFormed id m h
step-IsWellFormed (Op.set_data id none) m h = h
step-IsWellFormed (Op.set_data id (some cd)) m h = ground arith
step-IsWellFormed (Op.set_status id none) m h = h
step-IsWellFormed (Op.set_status id (some s)) m h = h
step-IsWellFormed (Op.delete id) m h = h
step-IsWellFormed (Op.create none now created expires) m h = h
step-IsWellFormed (Op.create (some bytes) now created expires) m h = h
step-IsWellFormed (Op.redeem t addr now used) m h = ground arith
step-IsWellFormed (Op.revoke t) m h = h
step-IsWellFormed (Op.count now) m h = h

-- After any calls on a new store, subscribers reading from their channels in between, the open
-- channels hold at most their capacity, have distinct identities, and there is none once the store
-- is closed.
pub run-IsWellFormed : (ops : List Op) → IsWellFormed (run ops new_memory_store)
run-IsWellFormed ops =
    run_induction step-IsWellFormed ops new_memory_store
      (record { live = tt; known = tt; distinct = tt; gone = λ _. refl })

-- `Unsubscribe` closes and removes exactly the channel that it is given, keeps the others in their
-- order, and without such a channel fails and changes nothing.
pub unsubscribe_exact :
    (id : ℕ) (m : MemoryStore)
    → IsWellFormed m
    → unsubscribe id m ≡ (
        if holds id m.events
        then (ok tt, record m { events = others id m.events })
        else (err subscription_not_found, m))
unsubscribe_exact id m h = elim (take_channel-eq id m.events h.live h.distinct) [
  | inl (p, e) ↦ rw p (unsubscribe_missing id m e)
  | inr (p, (ch, e, o)) ↦ rw p (unsubscribe_found id m ch e o)
]

unsubscribe-ne-panic : (id : ℕ) (m : MemoryStore) → IsWellFormed m → (unsubscribe id m).0 ≢ panic
unsubscribe-ne-panic id m h p = ground (arith, unsubscribe_exact id m h)

close-ne-panic : (m : MemoryStore) → IsWellFormed m → (close m).0 ≢ panic
unfolding close
close-ne-panic m h p = ground (arith, close_all-eq m.events h.live)

publish-ne-panic :
    (kind : String) (payload : Payload) (now : Time) (m : MemoryStore)
    → IsWellFormed m
    → payload_cluster_id payload ≢ none
    → (publish_event kind payload now m).0 ≢ panic
publish-ne-panic kind payload now m h n p = elim (Bool-cases m.closed) [
  | inl e ↦ cc (publish_closed kind payload now m e)
  | inr e ↦ elim (Option-cases (payload_cluster_id payload)) [
    | inl f ↦ n f
    | inr (id, f) ↦ cc (publish_open kind payload now m h e f)
  ]
]

-- After any calls on a new store, no call about subscriptions panics on a closed channel:
-- `Unsubscribe` and `Close` never panic, and `PublishEvent` does so only for a nil pointer.
pub no_channel_panic :
    (ops : List Op) (id : ℕ) (kind : String) (payload : Payload) (now : Time)
    → payload_cluster_id payload ≢ none
    → let m = run ops new_memory_store in
      ((unsubscribe id m).0 ≢ panic)
      × ((close m).0 ≢ panic)
      × ((publish_event kind payload now m).0 ≢ panic)
no_channel_panic ops id kind payload now n =
    let h = run-IsWellFormed ops in
    let m = run ops new_memory_store in
    (unsubscribe-ne-panic id m h, close-ne-panic m h, publish-ne-panic kind payload now m h n)

IsShut : MemoryStore → Type 0
IsShut m = m.closed ≡ true

close-IsShut : (m : MemoryStore) → IsShut (close m).1
unfolding IsShut close
close-IsShut m = ground arith

step-IsShut : (o : Op) (m : MemoryStore) → IsShut m → IsShut (step o m)
unfolding IsShut step set_cluster_data set_cluster_status delete_cluster create_screen_token
    redeem_screen_token delete_screen_token get_token_count publish_event subscribe unsubscribe
    close
step-IsShut (Op.set_status id none) m h = h
step-IsShut (Op.set_status id (some s)) m h = h
step-IsShut (Op.create none now created expires) m h = h
step-IsShut (Op.create (some bytes) now created expires) m h = h
step-IsShut _ m h = ground arith

-- Once `Close` was called, whatever is called after it, publishing, subscribing and `Ping` fail.
pub closed_forever :
    (m : MemoryStore) (ops : List Op) (kind : String) (payload : Payload) (now : Time)
    → let m' = run ops (close m).1 in
      (publish_event kind payload now m' ≡ (err operation_failed, m'))
      × (subscribe m' ≡ (err operation_failed, m'))
      × (ping m' ≡ err connection_failed)
unfolding IsShut ping
closed_forever m ops kind payload now =
    let m' = run ops (close m).1 in
    let e = run_induction step-IsShut ops (close m).1 (close-IsShut m) in
    (publish_closed kind payload now m' e, subscribe_closed m' e, ground arith)
