-- ===== src/Store/Memory/Subscriptions/Calls.antt =====
-- What the calls about subscriptions of internal/store/memory.go do to the channels, case by case,
-- and that each keeps the channels sound.
use mathlib.Core.List.{map-append}
use go_kube_ops_view.Prelude.{
  ℕ, suc, ◌<◌, String, ◌≡◌, refl, sym, subst, Bool, true, false, none, some, [], ◌∷◌, ◌++◌, map,
  arith, Option-cases, Bool-cases, inl, inr, ok, err, panic,
}
use go_kube_ops_view.Chan
use go_kube_ops_view.Chan.{Chan, IsLive}
use go_kube_ops_view.Chan.Lists.{ids, offer_all-eq, close_all-eq, All-snoc, All-imp, Distinct-snoc}
use go_kube_ops_view.Models.{Time}
use go_kube_ops_view.Store.{Payload, Event, operation_failed, subscription_not_found}
use go_kube_ops_view.Store.Memory.{
  MemoryStore, Outcome, publish_event, payload_cluster_id, subscribe, take_channel, unsubscribe,
  close,
}
use go_kube_ops_view.Store.Memory.Subscriptions.{
  Channels, AreSound, IsWellFormed, others, take_channel-eq, others-All, ids-others-All,
  others-Distinct, sent-AreSound,
}

-- The event that `PublishEvent` builds.
abbrev pub event_of : String → Payload → Time → String → Event
event_of kind payload now id = record {
  kind = kind;
  payload = payload;
  timestamp = now;
  cluster_id = id;
}

module _ (kind : String) (payload : Payload) (now : Time) (m : MemoryStore) where
  pub publish_closed :
      m.closed ≡ true → publish_event kind payload now m ≡ (err operation_failed, m)
  unfolding publish_event
  publish_closed e = simp e

  pub publish_nil :
      m.closed ≡ false
      → payload_cluster_id payload ≡ none
      → publish_event kind payload now m ≡ (panic, m)
  unfolding publish_event
  publish_nil e f = simp e (rw f)

  pub publish_open :
      {id : String}
      → IsWellFormed m
      → m.closed ≡ false
      → payload_cluster_id payload ≡ some id
      → publish_event kind payload now m
        ≡ (ok tt, record m { events = map (Chan.sent (event_of kind payload now id)) m.events })
  unfolding publish_event
  publish_open {id} h e f =
      ground (arith, offer_all-eq (event_of kind payload now id) m.events h.live)

  pub publish-IsWellFormed : IsWellFormed m → IsWellFormed (publish_event kind payload now m).1
  publish-IsWellFormed h = elim (Bool-cases m.closed) [
    | inl e ↦ subst (λ (o : Outcome (Unit {0})). IsWellFormed o.1) (sym (publish_closed e)) h
    | inr e ↦ elim (Option-cases (payload_cluster_id payload)) [
      | inl f ↦ subst (λ (o : Outcome (Unit {0})). IsWellFormed o.1) (sym (publish_nil e f)) h
      | inr (id, f) ↦
          subst (λ (o : Outcome (Unit {0})). IsWellFormed o.1) (sym (publish_open h e f))
            (sent-AreSound (event_of kind payload now id) h)
    ]
  ]

pub subscribe_closed : (m : MemoryStore) → m.closed ≡ true → subscribe m ≡ (err operation_failed, m)
unfolding subscribe
subscribe_closed m e = ground arith

-- The channel that a subscription adds.
abbrev pub new_channel : MemoryStore → Chan Event
new_channel m = Chan.make m.next_channel 100

pub subscribe_open :
    (m : MemoryStore)
    → m.closed ≡ false
    → subscribe m ≡ (
      ok (new_channel m),
      record m { events = m.events ++ new_channel m ∷ []; next_channel = suc m.next_channel },
    )
unfolding subscribe
subscribe_open m e = ground arith

pub joined-AreSound :
    {l : Channels} {next : ℕ}
    → AreSound l next false
    → AreSound (l ++ Chan.make next 100 ∷ []) (suc next) false
joined-AreSound {l} {next} h =
    let known = All-imp {Q = λ i. i < suc next} (λ i q. omega arith) (ids l) h.known in
    record {
      live =
          All-snoc IsLive l (Chan.make next 100) h.live
            (record { is_open = refl; bounded = omega arith });
      known = rw map-append (All-snoc (λ i. i < suc next) (ids l) next known (omega arith));
      distinct = rw map-append (Distinct-snoc (ids l) next h.known h.distinct);
      gone = λ p. cc;
    }

pub subscribe-IsWellFormed : (m : MemoryStore) → IsWellFormed m → IsWellFormed (subscribe m).1
subscribe-IsWellFormed m h = elim (Bool-cases m.closed) [
  | inl e ↦ subst (λ (o : Outcome (Chan Event)). IsWellFormed o.1) (sym (subscribe_closed m e)) h
  | inr e ↦
      subst (λ (o : Outcome (Chan Event)). IsWellFormed o.1) (sym (subscribe_open m e))
        (subst (AreSound (m.events ++ new_channel m ∷ []) (suc m.next_channel)) (sym e)
          (joined-AreSound (subst (AreSound m.events m.next_channel) e h)))
]

pub unsubscribe_missing :
    (id : ℕ) (m : MemoryStore)
    → take_channel id m.events ≡ none
    → unsubscribe id m ≡ (err subscription_not_found, m)
unfolding unsubscribe
unsubscribe_missing id m e = rw (e, unsubscribe)

pub unsubscribe_found :
    (id : ℕ) (m : MemoryStore) (ch : Chan Event)
    → take_channel id m.events ≡ some (ch, others id m.events)
    → ch.closed ≡ false
    → unsubscribe id m ≡ (ok tt, record m { events = others id m.events })
unfolding unsubscribe
unsubscribe_found id m ch e o = rw (e, unsubscribe) (simp o)

pub others-AreSound :
    (id : ℕ) {l : Channels} {next : ℕ} {shut : Bool}
    → AreSound l next shut
    → AreSound (others id l) next shut
others-AreSound id {l} {next} h = record {
  live = others-All IsLive id l h.live;
  known = ids-others-All (λ i. i < next) id l h.known;
  distinct = others-Distinct id l h.distinct;
  gone = λ p. rw (h.gone p);
}

pub unsubscribe-IsWellFormed :
    (id : ℕ) (m : MemoryStore) → IsWellFormed m → IsWellFormed (unsubscribe id m).1
unsubscribe-IsWellFormed id m h = elim (take_channel-eq id m.events h.live h.distinct) [
  | inl (_, e) ↦
      subst (λ (o : Outcome (Unit {0})). IsWellFormed o.1) (sym (unsubscribe_missing id m e)) h
  | inr (_, (ch, e, o)) ↦
      subst (λ (o : Outcome (Unit {0})). IsWellFormed o.1) (sym (unsubscribe_found id m ch e o))
        (others-AreSound id h)
]

pub close-IsWellFormed : (m : MemoryStore) → IsWellFormed m → IsWellFormed (close m).1
unfolding close
close-IsWellFormed m h =
    rw (close_all-eq m.events h.live, close)
      (record { live = tt; known = tt; distinct = tt; gone = λ _. refl })
