-- ===== src/Events/Publisher/Broadcast.antt =====
-- What the loops over subscribers in internal/events/publisher.go leave, if every channel is open.
use mathlib.Core.List.{map-append}
use go_kube_ops_view.Prelude.{
  ℕ, suc, ◌≡◌, ◌⊎◌, refl, sym, ap, subst, Bool, true, false, none, some, List, [], ◌∷◌, ◌++◌, map,
  arith, if◌then◌else◌, nat_eq, All, Bool-cases, inl, inr, ltb, length,
}
use go_kube_ops_view.Chan
use go_kube_ops_view.Chan.{Chan, IsLive, sent, sent-IsLive}
use go_kube_ops_view.Chan.Lists.{ids, Distinct, All-snoc, All-imp}
use go_kube_ops_view.Store.{Event}
use go_kube_ops_view.Store.Memory.Runs.{take_first, rest_of}
use go_kube_ops_view.Store.Memory.Subscriptions
use go_kube_ops_view.Store.Memory.Subscriptions.{AreSound}
use go_kube_ops_view.Store.Memory.Subscriptions.Calls.{others-AreSound, joined-AreSound}
use go_kube_ops_view.Events.Publisher.{
  Subscriber, interested, broadcast_event, close_channels, take_subscriber,
}

abbrev pub channels : List Subscriber → List (Chan Event)
channels l = map (λ s. s.channel) l

-- Who is interested gets the event at the end of its buffer, if there is room.
abbrev pub deliver : Event → Subscriber → Subscriber
deliver e s =
    if interested s.cluster_ids e.cluster_id then record s { channel = sent e s.channel } else s

pub broadcast_event-eq :
    (e : Event) (l : List Subscriber)
    → All IsLive (channels l)
    → broadcast_event e l ≡ some (map (deliver e) l)
unfolding broadcast_event
broadcast_event-eq e [] h = refl
broadcast_event-eq e (s ∷ l) h = ground (arith, h.0, broadcast_event-eq e l)

pub close_channels-some :
    (l : List Subscriber)
    → All IsLive (channels l)
    → (l' : List Subscriber) × (close_channels l ≡ some l')
unfolding close_channels
close_channels-some [] h = ([], refl)
close_channels-some (s ∷ l) h =
    let (l', e) = close_channels-some l h.1 in
    (
      record s { channel = record s.channel { closed = true } } ∷ l',
      rw (h.0.is_open, close_channels) (rw e),
    )

-- Every event in a subscriber's buffer is one that it asked for.
abbrev pub IsFiltered : Subscriber → Type 0
IsFiltered s = All (λ e. interested s.cluster_ids e.cluster_id ≡ true) s.channel.queue

deliver-IsFiltered : (e : Event) (s : Subscriber) → IsFiltered s → IsFiltered (deliver e s)
deliver-IsFiltered e s h = elim (Bool-cases (interested s.cluster_ids e.cluster_id)) [
  | inr i ↦ rw i h
  | inl i ↦ rw i (elim (Bool-cases (ltb (length s.channel.queue) s.channel.capacity)) [
    | inl r ↦ rw r (
        All-snoc (λ (x : Event). interested s.cluster_ids x.cluster_id ≡ true) s.channel.queue e h
          i)
    | inr r ↦ rw r h
  ])
]

pub deliver-All :
    (e : Event) (l : List Subscriber) → All IsFiltered l → All IsFiltered (map (deliver e) l)
deliver-All e [] h = h
deliver-All e (s ∷ l) h = (deliver-IsFiltered e s h.0, deliver-All e l h.1)

-- The subscribers with other numbers, in their order.
abbrev pub others : ℕ → List Subscriber → List Subscriber
others id [] = []
others id (s ∷ l) = let rest = others id l in if nat_eq s.channel.id id then rest else s ∷ rest

channels-others :
    (id : ℕ) (l : List Subscriber) → channels (others id l) ≡ Subscriptions.others id (channels l)
channels-others id [] = refl
channels-others id (s ∷ l) = elim (Bool-cases (nat_eq s.channel.id id)) [
  | inl e ↦ rw e (channels-others id l)
  | inr e ↦ rw e (ap (◌∷◌ s.channel) (channels-others id l))
]

others_of_absent :
    (id : ℕ) (l : List Subscriber)
    → All (λ j. (nat_eq j id) ≡ false) (ids (channels l))
    → others id l ≡ l
others_of_absent id [] h = refl
others_of_absent id (s ∷ l) h = rw h.0 (ap (◌∷◌ s) (others_of_absent id l h.1))

-- With distinct numbers the loop of `Unsubscribe` finds the one subscriber and keeps the others.
pub take_subscriber-eq :
    (id : ℕ) (l : List Subscriber)
    → All IsLive (channels l)
    → Distinct (ids (channels l))
    → (Subscriptions.holds id (channels l) ≡ false) × (take_subscriber id l ≡ none)
      ⊎ (Subscriptions.holds id (channels l) ≡ true)
        × ((s : Subscriber) × (take_subscriber id l ≡ some (s, others id l))
            × (s.channel.closed ≡ false))
unfolding take_subscriber
take_subscriber-eq id [] h d = inl (refl, refl)
take_subscriber-eq id (s ∷ l) h d = elim (Bool-cases (nat_eq s.channel.id id)) [
  | inl e ↦
      let absent =
        All-imp {Q = λ j. (nat_eq j id) ≡ false} (λ j q. ground arith) (ids (channels l)) d.0 in
      inr (rw e, (s, rw (e, take_subscriber) (rw (others_of_absent id l absent)), h.0.is_open))
  | inr e ↦ elim (take_subscriber-eq id l h.1 d.1) [
    | inl (p, q) ↦ inl (rw e p, rw (e, take_subscriber) (rw q))
    | inr (p, (x, q, r)) ↦ inr (rw e p, (x, rw (e, take_subscriber) (rw q), r))
  ]
]

deliver-channel :
    (e : Event) (s : Subscriber)
    → IsLive s.channel
    → IsLive (deliver e s).channel × ((deliver e s).channel.id ≡ s.channel.id)
deliver-channel e s h = elim (Bool-cases (interested s.cluster_ids e.cluster_id)) [
  | inl i ↦ rw i (sent-IsLive e h, ground arith)
  | inr i ↦ rw i (h, refl)
]

deliver-IsLive :
    (e : Event) (l : List Subscriber)
    → All IsLive (channels l)
    → All IsLive (channels (map (deliver e) l))
deliver-IsLive e [] h = h
deliver-IsLive e (s ∷ l) h = ((deliver-channel e s h.0).0, deliver-IsLive e l h.1)

pub ids-deliver :
    (e : Event) (l : List Subscriber)
    → All IsLive (channels l)
    → ids (channels (map (deliver e) l)) ≡ ids (channels l)
ids-deliver e [] h = refl
ids-deliver e (s ∷ l) h = cc ((deliver-channel e s h.0).1, ids-deliver e l h.1)

-- The channels of a publisher's subscribers are open, distinct and within their buffers.
abbrev pub IsSound : List Subscriber → ℕ → Bool → Type 0
IsSound l next shut = AreSound (channels l) next shut

pub deliver-IsSound :
    (e : Event) (l : List Subscriber) {next : ℕ}
    → IsSound l next false
    → IsSound (map (deliver e) l) next false
deliver-IsSound e l h = record {
  live = deliver-IsLive e l h.live;
  known = rw (ids-deliver e l h.live) h.known;
  distinct = rw (ids-deliver e l h.live) h.distinct;
  gone = λ p. cc;
}

pub others-IsSound :
    (id : ℕ) (l : List Subscriber) {next : ℕ} {shut : Bool}
    → IsSound l next shut
    → IsSound (others id l) next shut
others-IsSound id l {next} {shut} h =
    subst (λ c. AreSound c next shut) (sym (channels-others id l)) (others-AreSound id h)

pub others-All : (id : ℕ) (l : List Subscriber) → All IsFiltered l → All IsFiltered (others id l)
others-All id [] h = h
others-All id (s ∷ l) h = elim (Bool-cases (nat_eq s.channel.id id)) [
  | inl e ↦ rw e (others-All id l h.1)
  | inr e ↦ rw e (h.0, others-All id l h.1)
]

pub joined-IsSound :
    (s : Subscriber) (l : List Subscriber) {next : ℕ}
    → s.channel ≡ Chan.make next 100
    → IsSound l next false
    → IsSound (l ++ s ∷ []) (suc next) false
joined-IsSound s l {next} e h = rw (map-append, e) (joined-AreSound h)

-- A subscriber reads the first event of its channel.
abbrev pub take_event : ℕ → Subscriber → Subscriber
take_event id s = if nat_eq s.channel.id id then record s { channel = take_first s.channel } else s

take_first-IsLive : (ch : Chan Event) → IsLive ch → IsLive (take_first ch)
take_first-IsLive ch h = grind arith

take_event-channel :
    (id : ℕ) (s : Subscriber)
    → IsLive s.channel
    → IsLive (take_event id s).channel × ((take_event id s).channel.id ≡ s.channel.id)
take_event-channel id s h = elim (Bool-cases (nat_eq s.channel.id id)) [
  | inl i ↦ rw i (take_first-IsLive s.channel h, ground arith)
  | inr i ↦ rw i (h, refl)
]

All-rest_of {ℓ κ} : {A : Type ℓ} (P : A → Type κ) (l : List A) → All P l → All P (rest_of l)
All-rest_of P [] h = h
All-rest_of P (x ∷ l) h = h.1

take_event-IsFiltered : (id : ℕ) (s : Subscriber) → IsFiltered s → IsFiltered (take_event id s)
take_event-IsFiltered id s h = elim (Bool-cases (nat_eq s.channel.id id)) [
  | inl i ↦
      rw i (
        All-rest_of (λ (e : Event). interested s.cluster_ids e.cluster_id ≡ true) s.channel.queue h)
  | inr i ↦ rw i h
]

-- The same for each of the subscribers.
pub take_events-IsLive :
    (id : ℕ) (l : List Subscriber)
    → All IsLive (channels l)
    → All IsLive (channels (map (take_event id) l))
take_events-IsLive id [] h = h
take_events-IsLive id (s ∷ l) h = ((take_event-channel id s h.0).0, take_events-IsLive id l h.1)

pub ids-take_events :
    (id : ℕ) (l : List Subscriber)
    → All IsLive (channels l)
    → ids (channels (map (take_event id) l)) ≡ ids (channels l)
ids-take_events id [] h = refl
ids-take_events id (s ∷ l) h = cc ((take_event-channel id s h.0).1, ids-take_events id l h.1)

pub receive_from-All :
    (id : ℕ) (l : List Subscriber) → All IsFiltered l → All IsFiltered (map (take_event id) l)
receive_from-All id [] h = h
receive_from-All id (s ∷ l) h = (take_event-IsFiltered id s h.0, receive_from-All id l h.1)

none_left :
    (f : Subscriber → Subscriber) (l : List Subscriber) → channels l ≡ [] → channels (map f l) ≡ []
none_left f [] h = refl
none_left f (s ∷ l) h = cc

pub receive_from-IsSound :
    (id : ℕ) (l : List Subscriber) {next : ℕ} {shut : Bool}
    → IsSound l next shut
    → IsSound (map (take_event id) l) next shut
receive_from-IsSound id l h = record {
  live = take_events-IsLive id l h.live;
  known = rw (ids-take_events id l h.live) h.known;
  distinct = rw (ids-take_events id l h.live) h.distinct;
  gone = λ p. none_left (take_event id) l (h.gone p);
}
