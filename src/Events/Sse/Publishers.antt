-- ===== src/Events/Sse/Publishers.antt =====
-- What `SSEHandler` relies on of an `EventPublisher`, and that `Publisher` keeps it, over any store
-- whose reads do not panic and go on not to when events are published.
use go_kube_ops_view.Prelude.{
  ℕ, String, ◌≡◌, refl, ap, sym, subst, ◌∙◌, true, false, List, [], ◌∷◌, ◌++◌, ◌⊎◌, inl, inr,
  Result, ok, err, panic, ◌≢◌, some, Bool-cases, Result-cases, nat_eq, arith, length, if◌then◌else◌,
}
use go_kube_ops_view.Chan.{Chan}
use go_kube_ops_view.Dict.Values.{without, IsNew}
use go_kube_ops_view.Models.{Time}
use go_kube_ops_view.Store.{Payload, Event}
use go_kube_ops_view.Events.{StoreApi}
use go_kube_ops_view.Events.Sse.{EventPublisher}
use go_kube_ops_view.Chan.Lists.{ids, All-imp}
use go_kube_ops_view.Store.Memory.Subscriptions
use go_kube_ops_view.Events.Publisher.Broadcast.{channels, others, take_subscriber-eq, ids-deliver}
use go_kube_ops_view.Events.Publisher.Snapshot.{
  snapshot_lem, events_of, told, update_event, status_event, bootstrap_end,
}
use go_kube_ops_view.Events.Publisher.Runs.Calls.{
  IsWellFormed, event_of, unsubscribe_missing, unsubscribe_found, store_result, publish_closed,
  publish_failed, publish_panic, publish_sent, new_subscriber, subscribe_closed, subscribe_open,
}
use go_kube_ops_view.Events.Publisher.Runs.Safety.{
  publish-IsWellFormed, subscribe-IsWellFormed, unsubscribe-IsWellFormed,
}
use go_kube_ops_view.Events.Publisher.{
  Subscriber, State, Outcome, PublishError, publish, subscribe, unsubscribe, snapshot,
  publisher_closed,
}

pub record PublisherLaws (api : EventPublisher) : Type 1 where
  pub IsGood : api.State → Type 0
  pub subscriptions : api.State → List ℕ
  pub subscribe_law :
      (ids : List String) (now : Time) (p : api.State)
      → IsGood p
      → ((e : PublishError) × (api.subscribe ids now p ≡ (err e, p)))
        ⊎ ((ch : ℕ) × (p' : api.State) × (api.subscribe ids now p ≡ (ok ch, p'))
            × IsGood p'
            × (subscriptions p' ≡ subscriptions p ++ ch ∷ [])
            × IsNew ch (subscriptions p))
  pub unsubscribe_law :
      (ch : ℕ) (p : api.State)
      → IsGood p
      → (p' : api.State) × (api.unsubscribe ch p ≡ (ok tt, p'))
        × IsGood p'
        × (subscriptions p' ≡ without ch (subscriptions p))
  pub publish_law :
      (kind : String) (payload : Payload) (id : String) (now : Time) (p : api.State)
      → IsGood p
      → IsGood (api.publish kind payload id now p).1
        × (subscriptions (api.publish kind payload id now p).1 ≡ subscriptions p)
  pub snapshot_law :
      (ids : List String) (now : Time) (p : api.State)
      → IsGood p
      → ((es : List Event) × (api.snapshot ids now p ≡ ok es))
        ⊎ ((e : PublishError) × (api.snapshot ids now p ≡ err e))

ids-others :
    (id : ℕ) (l : List Subscriber) → ids (channels (others id l)) ≡ without id (ids (channels l))
unfolding without
ids-others id [] = refl
ids-others id (s ∷ l) = elim (Bool-cases (nat_eq s.channel.id id)) [
  | inl e ↦ rw (e, without) (ids-others id l)
  | inr e ↦ rw (e, without) (ap (λ (k : List ℕ). s.channel.id ∷ k) (ids-others id l))
]

without_absent :
    (id : ℕ) (l : List Subscriber)
    → Subscriptions.holds id (channels l) ≡ false
    → without id (ids (channels l)) ≡ ids (channels l)
unfolding without
without_absent id [] h = refl
without_absent id (s ∷ l) h = elim (Bool-cases (nat_eq s.channel.id id)) [
  | inl e ↦ let t : true ≡ false = rw e at h in cc
  | inr e ↦
      rw (e, without) (ap (λ (k : List ℕ). s.channel.id ∷ k) (without_absent id l (rw e at h)))
]

ids-snoc :
    (l : List Subscriber) (s : Subscriber)
    → ids (channels (l ++ s ∷ [])) ≡ ids (channels l) ++ s.channel.id ∷ []
ids-snoc [] s = refl
ids-snoc (t ∷ l) s = ap (λ (k : List ℕ). t.channel.id ∷ k) (ids-snoc l s)

abbrev number_of : Result PublishError (Chan Event) → Result PublishError ℕ
number_of (ok ch) = ok ch.id
number_of (err e) = err e
number_of panic = panic

-- The part of a store's states in which its reads do not panic, and which publishing keeps.
pub record SafeReads (api : StoreApi) : Type 1 where
  pub IsSafe : api.State → Type 0
  pub data_read : (id : String) (s : api.State) → IsSafe s → api.get_cluster_data id s ≢ panic
  pub status_read : (id : String) (s : api.State) → IsSafe s → api.get_cluster_status id s ≢ panic
  pub published :
      (kind : String) (payload : Payload) (now : Time) (s : api.State)
      → IsSafe s
      → IsSafe (api.publish_event kind payload now s).1

told-some {ℓ} :
    {E A : Type ℓ} (f : A → Event) (r : Result E A) (es : List Event)
    → r ≢ panic
    → (l : List Event) × (told f r (some es) ≡ some l)
told-some f (ok a) es h = (f a ∷ es, refl)
told-some f (err e) es h = (es, refl)
told-some f panic es h = absurd (h refl)

module _ (api : StoreApi) where
  -- `Publisher` as the handler sees it.
  abbrev pub publisher_over : EventPublisher
  publisher_over = record {
    State = State api;
    subscribe = λ ids now p. (number_of (subscribe api ids now p).0, (subscribe api ids now p).1);
    unsubscribe = unsubscribe api;
    snapshot = snapshot api;
    publish = publish api;
  }

module _ (api : StoreApi) (reads : SafeReads api) where
  -- A publisher that calls keep well formed, over a store that can be read.
  abbrev pub IsReady : State api → Type 0
  IsReady p = IsWellFormed api p × reads.IsSafe p.store

  abbrev pub channel_ids : State api → List ℕ
  channel_ids p = ids (channels p.subscribers)

  pub subscribe_keeps :
      (cs : List String) (now : Time) (p : State api)
      → IsReady p
      → ((e : PublishError) × ((publisher_over api).subscribe cs now p ≡ (err e, p)))
        ⊎ ((ch : ℕ) × (p' : State api) × ((publisher_over api).subscribe cs now p ≡ (ok ch, p'))
            × IsReady p'
            × (channel_ids p' ≡ channel_ids p ++ ch ∷ [])
            × IsNew ch (channel_ids p))
  subscribe_keeps cs now p h = elim (Bool-cases p.closed) [
    | inl c ↦
        inl (publisher_closed, ap (λ o. (number_of o.0, o.1)) (subscribe_closed api cs now p c))
    | inr c ↦
        let e = subscribe_open api cs now p c in
        inr (
          p.next_id,
          _,
          ap (λ o. (number_of o.0, o.1)) e,
          (subst (λ o. IsWellFormed api o.1) e (subscribe-IsWellFormed api cs now p h.0), h.1),
          ids-snoc p.subscribers (new_subscriber api cs now p),
          All-imp (λ j q. ground arith) (channel_ids p) h.0.sound.known,
        )
  ]

  pub unsubscribe_keeps :
      (id : ℕ) (p : State api)
      → IsReady p
      → (p' : State api) × (unsubscribe api id p ≡ (ok tt, p'))
        × IsReady p'
        × (channel_ids p' ≡ without id (channel_ids p))
  unsubscribe_keeps id p h =
      elim (take_subscriber-eq id p.subscribers h.0.sound.live h.0.sound.distinct) [
        | inl (a, e) ↦
            (p, unsubscribe_missing api id p e, h, sym (without_absent id p.subscribers a))
        | inr (_, (s, e, o)) ↦
            let u = unsubscribe_found api id p e o in
            (
              _,
              u,
              (subst (λ r. IsWellFormed api r.1) u (unsubscribe-IsWellFormed api id p h.0), h.1),
              ids-others id p.subscribers,
            )
      ]

  pub channel_ids-publish :
      (kind : String) (payload : Payload) (id : String) (now : Time) (p : State api)
      → IsWellFormed api p
      → channel_ids (publish api kind payload id now p).1 ≡ channel_ids p
  channel_ids-publish kind payload id now p h = elim (Bool-cases p.closed) [
    | inl c ↦ ap (λ o. channel_ids o.1) (publish_closed api kind payload id now p c)
    | inr c ↦ elim (Result-cases (store_result api kind payload id now p)) [
      | inl e ↦
          ap (λ o. channel_ids o.1) (publish_sent api kind payload id now p h c e)
          ∙ ids-deliver (event_of kind payload id now) p.subscribers h.sound.live
      | inr (inl (x, e)) ↦ ap (λ o. channel_ids o.1) (publish_failed api kind payload id now p c e)
      | inr (inr e) ↦ ap (λ o. channel_ids o.1) (publish_panic api kind payload id now p c e)
    ]
  ]

  pub store-publish :
      (kind : String) (payload : Payload) (id : String) (now : Time) (p : State api)
      → IsReady p
      → reads.IsSafe (publish api kind payload id now p).1.store
  store-publish kind payload id now p h =
      let kept = reads.published kind payload now p.store h.1 in
      let from = λ (o : Outcome api (Unit {0})). reads.IsSafe o.1.store in
      elim (Bool-cases p.closed) [
        | inl c ↦ subst from (sym (publish_closed api kind payload id now p c)) h.1
        | inr c ↦ elim (Result-cases (store_result api kind payload id now p)) [
          | inl e ↦ subst from (sym (publish_sent api kind payload id now p h.0 c e)) kept
          | inr (inl (x, e)) ↦ subst from (sym (publish_failed api kind payload id now p c e)) kept
          | inr (inr e) ↦ subst from (sym (publish_panic api kind payload id now p c e)) kept
        ]
      ]

  events_total :
      (ids : List String) (now : Time) (s : api.State)
      → reads.IsSafe s
      → (es : List Event) × (events_of api ids now s ≡ some es)
  events_total [] now s h = ([], refl)
  events_total (id ∷ ids) now s h =
      let (es, e) = events_total ids now s h in
      let (es', e') =
        told-some (status_event id now) (api.get_cluster_status id s) es
          (reads.status_read id s h) in
      let (es'', e'') =
        told-some (update_event id now) (api.get_cluster_data id s) es' (reads.data_read id s h) in
      (es'', rw e (rw e' e''))

  pub snapshot_total :
      (cs : List String) (now : Time) (p : State api)
      → IsReady p
      → ((es : List Event) × (snapshot api cs now p ≡ ok es))
        ⊎ ((e : PublishError) × (snapshot api cs now p ≡ err e))
  snapshot_total cs now p h =
      let asked = if nat_eq (length cs) 0 then api.get_cluster_ids p.store else cs in
      let (es, e) = events_total asked now p.store h.1 in
      elim (Bool-cases p.closed) [
        | inl c ↦ inr (publisher_closed, snapshot_lem api cs now p ∙ rw c refl)
        | inr c ↦ inl (es ++ bootstrap_end now ∷ [], snapshot_lem api cs now p ∙ rw c (rw e refl))
      ]

  -- `Publisher` keeps what the handler relies on.
  abbrev pub publisher_laws : PublisherLaws (publisher_over api)
  publisher_laws = record {
    IsGood = IsReady;
    subscriptions = channel_ids;
    subscribe_law = subscribe_keeps;
    unsubscribe_law = unsubscribe_keeps;
    publish_law = λ kind payload id now p h. (
      (publish-IsWellFormed api kind payload id now p h.0, store-publish kind payload id now p h),
      channel_ids-publish kind payload id now p h.0,
    );
    snapshot_law = snapshot_total;
  }
