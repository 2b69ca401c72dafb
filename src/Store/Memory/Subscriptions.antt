-- ===== src/Store/Memory/Subscriptions.antt =====
-- The subscriptions of internal/store/memory.go: the channels stay open, distinct and within their
-- buffers, so no send and no `close` panics.
pub mod Calls
pub mod Delivery
use mathlib.Core.List.{map-append}
use go_kube_ops_view.Prelude.{
  ℕ, suc, ◌≤◌, ◌<◌, String, ◌≡◌, ◌≢◌, ◌⊎◌, refl, sym, ap, subst, Bool, true, false, Option, none,
  some, List, [], ◌∷◌, ◌++◌, map, arith, if◌then◌else◌, nat_eq, length, All, Option-cases,
  Bool-cases, inl, inr, none≢some, ok, err, panic,
}
use go_kube_ops_view.Chan
use go_kube_ops_view.Chan.{Chan, IsLive}
use go_kube_ops_view.Chan.Lists.{
  ids, offer_all-eq, close_all-eq, sent-All, ids-sent, Distinct, All-snoc, All-imp, Distinct-snoc,
}
use go_kube_ops_view.Models.{Time}
use go_kube_ops_view.Store.{Payload, Event, operation_failed, subscription_not_found}
use go_kube_ops_view.Store.Memory.{
  MemoryStore, Outcome, new_memory_store, publish_event, payload_cluster_id, subscribe,
  take_channel, unsubscribe, close, set_cluster_data, set_cluster_status, delete_cluster,
  create_screen_token, redeem_screen_token, delete_screen_token, get_token_count,
}
use go_kube_ops_view.Store.Memory.Runs.{Op, take_first, receive_from, step, run_induction, run}

abbrev pub Channels : Type 0
Channels = List (Chan Event)

-- The channels of a store, with the next number and whether the store is closed.
pub record AreSound (l : Channels) (next : ℕ) (shut : Bool) : Type 0 where
  pub live : All IsLive l
  pub known : All (λ i. i < next) (ids l)
  pub distinct : Distinct (ids l)
  pub gone : shut ≡ true → l ≡ []

abbrev pub IsWellFormed : MemoryStore → Type 0
IsWellFormed m = AreSound m.events m.next_channel m.closed

-- The channels with other numbers, in their order.
abbrev pub others : ℕ → Channels → Channels
others id [] = []
others id (ch ∷ l) = let rest = others id l in if nat_eq ch.id id then rest else ch ∷ rest

abbrev pub holds : ℕ → Channels → Bool
holds id [] = false
holds id (ch ∷ l) = if nat_eq ch.id id then true else holds id l

others_of_absent :
    (id : ℕ) (l : Channels) → All (λ j. (nat_eq j id) ≡ false) (ids l) → others id l ≡ l
others_of_absent id [] h = refl
others_of_absent id (ch ∷ l) h = rw h.0 (ap (◌∷◌ ch) (others_of_absent id l h.1))

-- With distinct numbers the loop of `Unsubscribe` finds the one channel and keeps the others.
pub take_channel-eq :
    (id : ℕ) (l : Channels)
    → All IsLive l
    → Distinct (ids l)
    → (holds id l ≡ false) × (take_channel id l ≡ none)
      ⊎ (holds id l ≡ true)
        × ((ch : Chan Event) × (take_channel id l ≡ some (ch, others id l)) × (ch.closed ≡ false))
unfolding take_channel
take_channel-eq id [] h d = inl (refl, refl)
take_channel-eq id (ch ∷ l) h d = elim (Bool-cases (nat_eq ch.id id)) [
  | inl e ↦
      let absent = All-imp {Q = λ j. (nat_eq j id) ≡ false} (λ j q. ground arith) (ids l) d.0 in
      inr (rw e, (ch, rw (e, take_channel) (rw (others_of_absent id l absent)), h.0.is_open))
  | inr e ↦ elim (take_channel-eq id l h.1 d.1) [
    | inl (p, q) ↦ inl (rw e p, rw (e, take_channel) (rw q))
    | inr (p, (x, q, r)) ↦ inr (rw e p, (x, rw (e, take_channel) (rw q), r))
  ]
]

pub others-All {κ} :
    (P : Chan Event → Type κ) (id : ℕ) (l : Channels) → All P l → All P (others id l)
others-All P id [] h = h
others-All P id (ch ∷ l) h = elim (Bool-cases (nat_eq ch.id id)) [
  | inl e ↦ rw e (others-All P id l h.1)
  | inr e ↦ rw e (h.0, others-All P id l h.1)
]

pub ids-others-All :
    (P : ℕ → Type 0) (id : ℕ) (l : Channels) → All P (ids l) → All P (ids (others id l))
ids-others-All P id [] h = h
ids-others-All P id (ch ∷ l) h = elim (Bool-cases (nat_eq ch.id id)) [
  | inl e ↦ rw e (ids-others-All P id l h.1)
  | inr e ↦ rw e (h.0, ids-others-All P id l h.1)
]

pub others-Distinct : (id : ℕ) (l : Channels) → Distinct (ids l) → Distinct (ids (others id l))
others-Distinct id [] h = h
others-Distinct id (ch ∷ l) h = elim (Bool-cases (nat_eq ch.id id)) [
  | inl e ↦ rw e (others-Distinct id l h.1)
  | inr e ↦ rw e (ids-others-All (λ j. (nat_eq j ch.id) ≡ false) id l h.0, others-Distinct id l h.1)
]

pub ids-receive_from : (id : ℕ) (l : Channels) → ids (receive_from id l) ≡ ids l
unfolding receive_from
ids-receive_from id [] = refl
ids-receive_from id (ch ∷ l) = ground (arith, ids-receive_from id l)

received-IsLive :
    (b : Bool) (ch : Chan Event) → IsLive ch → IsLive (if b then take_first ch else ch)
received-IsLive false ch h = h
received-IsLive true ch h = grind arith

pub receive_from-All : (id : ℕ) (l : Channels) → All IsLive l → All IsLive (receive_from id l)
unfolding receive_from
receive_from-All id [] h = h
receive_from-All id (ch ∷ l) h =
    (received-IsLive (nat_eq ch.id id) ch h.0, receive_from-All id l h.1)

-- A delivery to every channel.
pub sent-AreSound :
    (e : Event) {l : Channels} {next : ℕ} {shut : Bool}
    → AreSound l next shut
    → AreSound (map (Chan.sent e) l) next shut
sent-AreSound e {l} h = record {
  live = sent-All e l h.live;
  known = rw ids-sent h.known;
  distinct = rw ids-sent h.distinct;
  gone = λ p. rw (h.gone p);
}
