-- ===== src/Events/Publisher/Runs/Calls.antt =====
-- What each call of a `Publisher` (internal/events/publisher.go) returns and leaves, case by case.
use go_kube_ops_view.Prelude.{
  ℕ, suc, String, ◌≡◌, true, false, none, some, List, [], ◌∷◌, ◌++◌, map, arith, if◌then◌else◌, ltb,
  length, All, Bool-cases, Result-cases, ◌∙◌, inl, inr, Result, ok, err, panic,
}
use go_kube_ops_view.Chan
use go_kube_ops_view.Chan.{Chan, IsLive}
use go_kube_ops_view.Models.{Time}
use go_kube_ops_view.Store.{Payload, Event, StoreError}
use go_kube_ops_view.Events.{StoreApi}
use go_kube_ops_view.Events.Publisher.{
  Subscriber, State, publisher_closed, store_failed, publish, subscribe, unsubscribe, close,
  take_subscriber,
}
use go_kube_ops_view.Events.Publisher.Broadcast.{
  deliver, broadcast_event-eq, close_channels-some, IsFiltered, others, IsSound,
}

-- The event that a `Publish…` call makes.
abbrev pub event_of : String → Payload → String → Time → Event
event_of kind payload id now = record {
  kind = kind;
  payload = payload;
  timestamp = now;
  cluster_id = id;
}

module _ (api : StoreApi) where
  pub record IsWellFormed (p : State api) : Type 0 where
    pub sound : IsSound p.subscribers p.next_id p.closed
    pub filtered : All IsFiltered p.subscribers

  pub unsubscribe_missing :
      (id : ℕ) (p : State api)
      → take_subscriber id p.subscribers ≡ none
      → unsubscribe api id p ≡ (ok tt, p)
  unfolding unsubscribe
  unsubscribe_missing id p e = rw (e, unsubscribe)

  pub unsubscribe_found :
      (id : ℕ) (p : State api) {s : Subscriber}
      → take_subscriber id p.subscribers ≡ some (s, others id p.subscribers)
      → s.channel.closed ≡ false
      → unsubscribe api id p ≡ (ok tt, record p { subscribers = others id p.subscribers })
  unfolding unsubscribe
  unsubscribe_found id p e o = rw (e, unsubscribe) (simp o)

  module _ (kind : String) (payload : Payload) (id : String) (now : Time) (p : State api) where
    abbrev pub store_result : Result StoreError (Unit {0})
    store_result = (api.publish_event kind payload now p.store).0

    abbrev pub stored : State api
    stored = record p { store = (api.publish_event kind payload now p.store).1 }

    pub publish_closed :
        p.closed ≡ true → publish api kind payload id now p ≡ (err publisher_closed, p)
    unfolding publish
    publish_closed e = ground arith

    -- An error of the store is returned, and no local subscriber hears of the event.
    pub publish_failed :
        {e : StoreError}
        → p.closed ≡ false
        → store_result ≡ err e
        → publish api kind payload id now p ≡ (err (store_failed e), stored)
    unfolding publish
    publish_failed c e = ground arith

    pub publish_panic :
        p.closed ≡ false
        → store_result ≡ panic
        → publish api kind payload id now p ≡ (panic, stored)
    unfolding publish
    publish_panic c e = ground arith

    pub publish_sent :
        IsWellFormed p
        → p.closed ≡ false
        → store_result ≡ ok tt
        → publish api kind payload id now p ≡ (
          ok tt,
          record stored {
            subscribers = map (deliver (event_of kind payload id now)) p.subscribers;
          },
        )
    unfolding publish
    publish_sent h c e =
        ground (arith, broadcast_event-eq (event_of kind payload id now) p.subscribers h.sound.live)

    -- What a `Publish…` call does, on every branch: a closed publisher refuses; an error of the
    -- store is returned and no local subscriber hears of the event; otherwise exactly the
    -- subscribers interested in the cluster get the event at the end of their buffer, those with a
    -- full buffer lose it, and no send panics.
    pub publish_lem :
        IsWellFormed p
        → publish api kind payload id now p ≡ (
            if p.closed then (err publisher_closed, p) else elim store_result [
              | err e ↦ (err (store_failed e), stored)
              | panic ↦ (panic, stored)
              | ok _ ↦ (
                ok tt,
                record stored {
                  subscribers = map (deliver (event_of kind payload id now)) p.subscribers;
                },
              )
            ])
    publish_lem h = elim (Bool-cases p.closed) [
      | inl c ↦ publish_closed c ∙ ground arith
      | inr c ↦ elim (Result-cases store_result) [
        | inl e ↦ publish_sent h c e ∙ ground arith
        | inr (inl (x, e)) ↦ publish_failed c e ∙ ground arith
        | inr (inr e) ↦ publish_panic c e ∙ ground arith
      ]
    ]

  -- The subscriber that `Subscribe` adds: all clusters for an empty filter, an empty buffer.
  abbrev pub new_subscriber : List String → Time → State api → Subscriber
  new_subscriber cs now p = record {
    channel = Chan.make {A = Event} p.next_id 100;
    cluster_ids = if ltb 0 (length cs) then some cs else none;
    created_at = now;
  }

  pub subscribe_closed :
      (cs : List String) (now : Time) (p : State api)
      → p.closed ≡ true
      → subscribe api cs now p ≡ (err publisher_closed, p)
  unfolding subscribe
  subscribe_closed cs now p c = ground arith

  pub subscribe_open :
      (cs : List String) (now : Time) (p : State api)
      → p.closed ≡ false
      → subscribe api cs now p ≡ (
        ok (new_subscriber cs now p).channel,
        record p {
          subscribers = p.subscribers ++ new_subscriber cs now p ∷ [];
          next_id = suc p.next_id;
        },
      )
  unfolding subscribe
  subscribe_open cs now p c = ground arith

  pub close_again : (p : State api) → p.closed ≡ true → close api p ≡ (ok tt, p)
  unfolding close
  close_again p c = ground arith

  pub close_open :
      (p : State api)
      → IsWellFormed p
      → p.closed ≡ false
      → close api p ≡ (ok tt, record p { closed = true; subscribers = [] })
  unfolding close
  close_open p h c =
      let (l, e) = close_channels-some p.subscribers h.sound.live in ground (arith, e)
