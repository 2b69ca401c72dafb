-- ===== src/Tests/Store.antt =====
-- The in-memory store in short runs.
use go_kube_ops_view.Prelude.{
  ◌≡◌, ◌≢◌, refl, true, false, none, some, List, [], ◌∷◌, ◌==◌, ◌+◌, if◌then◌else◌, ok, err, panic,
  ltb, String, arith, any,
}
use go_kube_ops_view.Dict
use go_kube_ops_view.Store.{cluster, token_expired, event_type_cluster_update}
use go_kube_ops_view.Store.Memory.{
  MemoryStore, new_memory_store, hex, get_cluster_data, get_cluster_status, publish_event,
  subscribe, unsubscribe, create_screen_token, redeem_screen_token, validate_screen_token, close,
  get_cluster_ids,
}
use go_kube_ops_view.Store.Contract.{nothing, is_present}
use go_kube_ops_view.Store.Memory.Refinement.{answer, status_answer, promised_all, memory_refines}
use go_kube_ops_view.Store.Memory.Runs.{Op, run, step}
use go_kube_ops_view.Store.Memory.Tokens.Once.{redeem_once}
use go_kube_ops_view.Store.Memory.Tokens.Redeemable.{issued_redeemable}
use go_kube_ops_view.Store.Memory.Subscriptions.{IsWellFormed}
use go_kube_ops_view.Store.Memory.Subscriptions.Delivery.{run-IsWellFormed, no_channel_panic}
use go_kube_ops_view.Tests.Data.{data_of}

-- the token of the bytes 1, 2
abbrev token : String
token = "0102"

token_text : hex (1 ∷ 2 ∷ []) ≡ token
unfolding hex
token_text = refl

abbrev issued : MemoryStore
issued = (create_screen_token (some (1 ∷ 2 ∷ [])) 10 10 10 new_memory_store).1

first_redeemed : (redeem_screen_token token "10.0.0.1" 20 21 issued).0 ≡ ok tt
unfolding redeem_screen_token create_screen_token hex Dict.get Dict.put Dict.delete_if
first_redeemed = refl

abbrev later : List Op
later = Op.create (some (255 ∷ [])) 30 30 30 ∷ Op.redeem token "10.0.0.2" 31 32 ∷ []

redeem_once_example :
    (redeem_screen_token token "10.0.0.3" 40 41
      (run later (redeem_screen_token token "10.0.0.1" 20 21 issued).1)).0
    ≢ ok tt
unfolding hex
redeem_once_example =
    redeem_once issued token "10.0.0.1" "10.0.0.3" 20 21 40 41 later first_redeemed (refl, (tt, tt))

abbrev elsewhere : List Op
elsewhere =
    Op.create (some (255 ∷ [])) 30 30 30 ∷ Op.count 40 ∷ Op.redeem "ff" "10.0.0.2" 41 42 ∷ []

issued_redeemable_example :
    let m' = run elsewhere issued in
    let late = ltb (10 + new_memory_store.token_ttl) 50 in
    ((redeem_screen_token (hex (1 ∷ 2 ∷ [])) "10.0.0.1" 50 51 m').0
      ≡ (if late then err token_expired else ok tt))
    × (validate_screen_token (hex (1 ∷ 2 ∷ [])) 50 m' ≡ (if late then false else true))
unfolding hex
issued_redeemable_example =
    issued_redeemable new_memory_store (1 ∷ 2 ∷ []) 10 10 10 50 51 "10.0.0.1" elsewhere
      ((refl, omega arith), (omega arith, (refl, tt)))

abbrev calls : List Op
calls =
    Op.join
    ∷ Op.join
    ∷ Op.set_data "c" (some (data_of "c"))
    ∷ Op.publish event_type_cluster_update (cluster (some (data_of "c"))) 60
    ∷ Op.receive 0
    ∷ Op.leave 1
    ∷ []

no_channel_panic_example :
    let m = run calls new_memory_store in
    ((unsubscribe 0 m).0 ≢ panic)
    × ((close m).0 ≢ panic)
    × ((publish_event event_type_cluster_update (cluster (some (data_of "c"))) 70 m).0 ≢ panic)
no_channel_panic_example =
    no_channel_panic calls 0 event_type_cluster_update (cluster (some (data_of "c"))) 70 (λ e. cc)

abbrev joined : MemoryStore
joined = (subscribe new_memory_store).1

joined-IsWellFormed : IsWellFormed joined
unfolding run step
joined-IsWellFormed = run-IsWellFormed (Op.join ∷ [])

abbrev kept : List Op
kept = Op.set_data "a" (some (data_of "a")) ∷ Op.join ∷ Op.delete "b" ∷ Op.set_data "b" none ∷ []

memory_refines_example :
    let m = run kept new_memory_store in
    let k = promised_all kept nothing in
    (get_cluster_data "a" m ≡ answer (k.data_of "a"))
    × (get_cluster_status "a" m ≡ status_answer (k.status_of "a"))
    × (any (λ j. j == "a") (get_cluster_ids m) ≡ is_present (k.data_of "a"))
memory_refines_example = memory_refines kept "a"
