-- ===== src/Events/Publisher.antt =====
-- internal/events/publisher.go: `Publisher`. A subscriber's number stands for its ID `sub-<number>`
-- and for the identity of its channel, both of which are made new by each subscription; the events
-- that one call builds carry one reading of the clock.
pub mod Broadcast
pub mod Runs
pub mod Snapshot
use go_kube_ops_view.Prelude.{
  ℕ, suc, String, Bool, true, false, Option, none, some, List, [], ◌∷◌, ◌++◌, Result, ok, err,
  panic, ◌==◌, not, ◌&&◌, if◌then◌else◌, any, length, nat_eq, ltb,
}
use go_kube_ops_view.Chan
use go_kube_ops_view.Chan.{Chan}
use go_kube_ops_view.Json.{Json}
use go_kube_ops_view.Json
use go_kube_ops_view.Models.{Time, ClusterData}
use go_kube_ops_view.Store.{
  ClusterStatus, Payload, cluster, status, deleted, value, Event, StoreError,
  event_type_cluster_update, event_type_cluster_delta, event_type_cluster_status,
  event_type_cluster_delete,
}
use go_kube_ops_view.Events.{StoreApi}

-- `cluster_ids` is `none` for the nil map: all clusters.
pub record Subscriber : Type 0 where
  pub channel : Chan Event
  pub cluster_ids : Option (List String)
  pub created_at : Time

pub data PublishError : Type 0 where
  publisher_closed : PublishError
  store_failed : StoreError → PublishError

abbrev pub interested : Option (List String) → String → Bool
interested none id = true
interested (some ids) id = any (λ j. j == id) ids

-- One turn of the loop of `broadcastEvent`; `none` is the panic on a closed channel.
abbrev pub notify : Event → Subscriber → Option Subscriber
notify e s =
    if interested s.cluster_ids e.cluster_id
    then elim (Chan.offer e s.channel) [ none ↦ none | some ch ↦ some (record s { channel = ch }) ]
    else some s

unfoldable pub broadcast_event : Event → List Subscriber → Option (List Subscriber)
broadcast_event e [] = some []
broadcast_event e (s ∷ l) =
    let rest = broadcast_event e l in
    elim (notify e s) [
      | none ↦ none
      | some s' ↦ elim rest [ none ↦ none | some l' ↦ some (s' ∷ l') ]
    ]

-- for _, subscriber := range p.subscribers { close(subscriber.Channel) }
unfoldable pub close_channels : List Subscriber → Option (List Subscriber)
close_channels [] = some []
close_channels (s ∷ l) =
    let rest = close_channels l in
    elim (Chan.close s.channel) [
      | none ↦ none
      | some ch ↦ elim rest [ none ↦ none | some l' ↦ some (record s { channel = ch } ∷ l') ]
    ]

-- The loop of `Unsubscribe`, and the `delete`: the subscriber and the ones that stay.
unfoldable pub take_subscriber : ℕ → List Subscriber → Option (Subscriber × List Subscriber)
take_subscriber id [] = none
take_subscriber id (s ∷ l) =
    let rest = take_subscriber id l in
    if nat_eq s.channel.id id
    then some (s, l)
    else elim rest [ none ↦ none | some (found, l') ↦ some (found, s ∷ l') ]

pub record Publisher (S : Type 0) : Type 0 where
  pub store : S
  pub subscribers : List Subscriber
  pub closed : Bool
  pub next_id : ℕ

module _ (api : StoreApi) where
  abbrev pub State : Type 0
  State = Publisher api.State

  abbrev pub Outcome : Type 0 → Type 0
  Outcome A = Result PublishError A × State

  abbrev pub new_publisher : api.State → State
  new_publisher s = record { store = s; subscribers = []; closed = false; next_id = 1 }

  -- What the four `Publish…` methods share: the guard, the store, then the local subscribers.
  unfoldable pub publish : String → Payload → String → Time → State → Outcome Unit
  publish kind payload id now p =
      if p.closed
      then (err publisher_closed, p)
      else let (r, store) = api.publish_event kind payload now p.store in
        let stored : State = record p { store = store } in
        elim r [
          | err e ↦ (err (store_failed e), stored)
          | panic ↦ (panic, stored)
          | ok _ ↦
              elim (broadcast_event
                (record { kind = kind; payload = payload; timestamp = now; cluster_id = id })
                p.subscribers) [
                  | none ↦ (panic, stored)
                  | some l ↦ (ok tt, record stored { subscribers = l })
                ]
        ]

  abbrev pub publish_cluster_update : String → Option ClusterData → Time → State → Outcome Unit
  publish_cluster_update id cd = publish event_type_cluster_update (cluster cd) id

  abbrev pub publish_cluster_delta : String → Json → Time → State → Outcome Unit
  publish_cluster_delta id delta = publish event_type_cluster_delta (value delta) id

  abbrev pub publish_cluster_status : String → Option ClusterStatus → Time → State → Outcome Unit
  publish_cluster_status id s = publish event_type_cluster_status (status s) id

  abbrev pub publish_cluster_delete : String → Time → State → Outcome Unit
  publish_cluster_delete id = publish event_type_cluster_delete (deleted id) id

  unfoldable pub subscribe : List String → Time → State → Outcome (Chan Event)
  subscribe ids now p =
      let ch = Chan.make {A = Event} p.next_id 100 in
      let s : Subscriber = record {
        channel = ch;
        cluster_ids = if ltb 0 (length ids) then some ids else none;
        created_at = now;
      } in
      if p.closed
      then (err publisher_closed, p)
      else (ok ch, record p { subscribers = p.subscribers ++ s ∷ []; next_id = suc p.next_id })

  -- An unknown channel is no error.
  unfoldable pub unsubscribe : ℕ → State → Outcome Unit
  unsubscribe id p = elim (take_subscriber id p.subscribers) [
    | none ↦ (ok tt, p)
    | some (s, l) ↦ elim (Chan.close s.channel) [
      | none ↦ (panic, p)
      | some _ ↦ (ok tt, record p { subscribers = l })
    ]
  ]

  unfoldable pub close : State → Outcome Unit
  close p =
      let shut : State = record p { closed = true } in
      if p.closed then (ok tt, p) else elim (close_channels p.subscribers) [
        | none ↦ (panic, shut)
        | some _ ↦ (ok tt, record shut { subscribers = [] })
      ]

  abbrev pub get_subscriber_count : State → ℕ
  get_subscriber_count p = length p.subscribers

  -- The two events of one cluster in `Snapshot`; an error leaves its event out, and `none` is the
  -- panic of a read.
  unfoldable pub snapshot_of : String → Time → api.State → Option (List Event)
  snapshot_of id now s =
      let update : Option (List Event) = elim (api.get_cluster_data id s) [
        | ok cd ↦ some (
            record {
              kind = event_type_cluster_update;
              payload = cluster (some cd);
              timestamp = now;
              cluster_id = id;
            }
            ∷ [])
        | err _ ↦ some []
        | panic ↦ none
      ] in
      let state : Option (List Event) = elim (api.get_cluster_status id s) [
        | ok st ↦ some (
            record {
              kind = event_type_cluster_status;
              payload = status (some st);
              timestamp = now;
              cluster_id = id;
            }
            ∷ [])
        | err _ ↦ some []
        | panic ↦ none
      ] in
      elim update [
        | none ↦ none
        | some es ↦ elim state [ none ↦ none | some more ↦ some (es ++ more) ]
      ]

  -- The loop of `Snapshot`: a filter that is not empty must name the cluster.
  unfoldable pub snapshot_from : List String → List String → Time → api.State → Option (List Event)
  snapshot_from filter [] now s = some []
  snapshot_from filter (id ∷ ids) now s =
      let rest = snapshot_from filter ids now s in
      if ltb 0 (length filter) && not (any (λ j. j == id) filter)
      then rest
      else elim (snapshot_of id now s) [
        | none ↦ none
        | some es ↦ elim rest [ none ↦ none | some more ↦ some (es ++ more) ]
      ]

  unfoldable pub snapshot : List String → Time → State → Result PublishError (List Event)
  snapshot cluster_ids now p =
      let ids =
        if nat_eq (length cluster_ids) 0 then api.get_cluster_ids p.store else cluster_ids in
      let end : Event = record {
        kind = "bootstrap_end";
        payload = value (Json.obj Json.end);
        timestamp = now;
        cluster_id = "";
      } in
      if p.closed then err publisher_closed else elim (snapshot_from cluster_ids ids now p.store) [
        | none ↦ panic
        | some es ↦ ok (es ++ end ∷ [])
      ]
