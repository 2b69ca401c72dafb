-- ===== src/Events/Publisher/Runs/Safety.antt =====
-- What every subscriber and caller of a `Publisher` (internal/events/publisher.go) can rely on.
use go_kube_ops_view.Prelude.{
  ℕ, suc, String, ◌≡◌, refl, ap, sym, subst, true, List, [], ◌∷◌, ◌++◌, map, arith, Bool-cases,
  Result-cases, ◌∙◌, inl, inr, ok, err,
}
use go_kube_ops_view.Chan.Lists.{All-snoc}
use go_kube_ops_view.Models.{Time}
use go_kube_ops_view.Store.{Payload}
use go_kube_ops_view.Events.{StoreApi}
use go_kube_ops_view.Events.Publisher.{
  State, Outcome, publisher_closed, new_publisher, publish, subscribe, unsubscribe, close,
}
use go_kube_ops_view.Events.Publisher.Broadcast.{
  deliver, IsFiltered, deliver-All, receive_from-All, receive_from-IsSound, take_subscriber-eq,
  IsSound, deliver-IsSound, others-IsSound, others-All, joined-IsSound,
}
use go_kube_ops_view.Events.Publisher.Runs.{
  Op, post, join, leave, shut, receive, elsewhere, receive_from, step, run,
}
use go_kube_ops_view.Events.Publisher.Runs.Calls.{
  event_of, IsWellFormed, unsubscribe_missing, unsubscribe_found, store_result, publish_closed,
  publish_failed, publish_panic, publish_sent, new_subscriber, subscribe_closed, subscribe_open,
  close_again, close_open,
}

module _ (api : StoreApi) where
  -- What holds of the state that a call is known to leave holds after the call.
  keep {κ} :
      {A : Type κ} {o o' : A × State api} → o ≡ o' → IsWellFormed api o.1 → IsWellFormed api o'.1
  keep e h = subst (λ o. IsWellFormed api o.1) e h

  pub publish-IsWellFormed :
      (kind : String) (payload : Payload) (id : String) (now : Time) (p : State api)
      → IsWellFormed api p
      → IsWellFormed api (publish api kind payload id now p).1
  publish-IsWellFormed kind payload id now p h = elim (Bool-cases p.closed) [
    | inl c ↦ keep (sym (publish_closed api kind payload id now p c)) h
    | inr c ↦ elim (Result-cases (store_result api kind payload id now p)) [
      | inl e ↦ keep (sym (publish_sent api kind payload id now p h c e)) (record {
        sound =
            subst (IsSound (map (deliver (event_of kind payload id now)) p.subscribers) p.next_id)
              (sym c)
              (deliver-IsSound _ p.subscribers (subst (IsSound p.subscribers p.next_id) c h.sound));
        filtered = deliver-All _ p.subscribers h.filtered;
      })
      | inr (inl (x, e)) ↦
          keep (sym (publish_failed api kind payload id now p c e))
            (record { sound = h.sound; filtered = h.filtered })
      | inr (inr e) ↦
          keep (sym (publish_panic api kind payload id now p c e))
            (record { sound = h.sound; filtered = h.filtered })
    ]
  ]

  pub subscribe-IsWellFormed :
      (cs : List String) (now : Time) (p : State api)
      → IsWellFormed api p
      → IsWellFormed api (subscribe api cs now p).1
  subscribe-IsWellFormed cs now p h = elim (Bool-cases p.closed) [
    | inl c ↦ keep (sym (subscribe_closed api cs now p c)) h
    | inr c ↦ keep (sym (subscribe_open api cs now p c)) (record {
      sound =
          subst (IsSound (p.subscribers ++ new_subscriber api cs now p ∷ []) (suc p.next_id))
            (sym c)
            (joined-IsSound (new_subscriber api cs now p) p.subscribers refl
              (subst (IsSound p.subscribers p.next_id) c h.sound));
      filtered = All-snoc IsFiltered p.subscribers (new_subscriber api cs now p) h.filtered tt;
    })
  ]

  pub unsubscribe-IsWellFormed :
      (id : ℕ) (p : State api) → IsWellFormed api p → IsWellFormed api (unsubscribe api id p).1
  unsubscribe-IsWellFormed id p h =
      elim (take_subscriber-eq id p.subscribers h.sound.live h.sound.distinct) [
        | inl (_, e) ↦ keep (sym (unsubscribe_missing api id p e)) h
        | inr (_, (s, e, o)) ↦ keep (sym (unsubscribe_found api id p e o)) (record {
          sound = others-IsSound id p.subscribers h.sound;
          filtered = others-All id p.subscribers h.filtered;
        })
      ]

  close-IsWellFormed : (p : State api) → IsWellFormed api p → IsWellFormed api (close api p).1
  close-IsWellFormed p h = elim (Bool-cases p.closed) [
    | inl c ↦ keep (sym (close_again api p c)) h
    | inr c ↦ keep (sym (close_open api p h c)) (record {
      sound = record { live = tt; known = tt; distinct = tt; gone = λ _. refl };
      filtered = tt;
    })
  ]

  receive-IsWellFormed :
      (id : ℕ) (p : State api)
      → IsWellFormed api p
      → IsWellFormed api (record p { subscribers = receive_from id p.subscribers })
  receive-IsWellFormed id p h = record {
    sound = receive_from-IsSound id p.subscribers h.sound;
    filtered = receive_from-All id p.subscribers h.filtered;
  }

  step-IsWellFormed :
      (o : Op api.State) (p : State api) → IsWellFormed api p → IsWellFormed api (step api o p)
  unfolding step
  step-IsWellFormed (post kind payload id now) p h = publish-IsWellFormed kind payload id now p h
  step-IsWellFormed (join cs now) p h = subscribe-IsWellFormed cs now p h
  step-IsWellFormed (leave id) p h = unsubscribe-IsWellFormed id p h
  step-IsWellFormed shut p h = close-IsWellFormed p h
  step-IsWellFormed (receive id) p h = receive-IsWellFormed id p h
  step-IsWellFormed (elsewhere f) p h = record { sound = h.sound; filtered = h.filtered }

  run_keeps :
      (ops : List (Op api.State)) (p : State api)
      → IsWellFormed api p
      → IsWellFormed api (run api ops p)
  unfolding run
  run_keeps [] p h = h
  run_keeps (o ∷ ops) p h = run_keeps ops (step api o p) (step-IsWellFormed o p h)

  -- After any calls on a new publisher, the store changing in between and subscribers reading: the
  -- subscribers' channels are open, distinct and within their buffers, none is left once the
  -- publisher is closed, and every buffer holds only events of clusters that its subscriber asked
  -- for.
  pub run_publisher-IsWellFormed :
      (s : api.State) (ops : List (Op api.State))
      → IsWellFormed api (run api ops (new_publisher api s))
  run_publisher-IsWellFormed s ops = run_keeps ops (new_publisher api s) (record {
    sound = record { live = tt; known = tt; distinct = tt; gone = λ _. refl };
    filtered = tt;
  })

  closed_after : (p : State api) → IsWellFormed api p → (close api p).1.closed ≡ true
  closed_after p h = elim (Bool-cases p.closed) [
    | inl c ↦ ap (λ (o : Outcome api (Unit {0})). o.1.closed) (close_again api p c) ∙ c
    | inr c ↦ ap (λ (o : Outcome api (Unit {0})). o.1.closed) (close_open api p h c)
  ]

  closed-keeps : (o : Op api.State) (p : State api) → p.closed ≡ true → (step api o p).closed ≡ true
  unfolding step publish subscribe unsubscribe close
  closed-keeps (elsewhere f) p h = h
  closed-keeps _ p h = ground arith

  run-closed :
      (ops : List (Op api.State)) (p : State api) → p.closed ≡ true → (run api ops p).closed ≡ true
  unfolding run
  run-closed [] p h = h
  run-closed (o ∷ ops) p h = run-closed ops (step api o p) (closed-keeps o p h)

  -- `Close` ends a publisher for good: after it, whatever is called, every `Publish…` and every
  -- `Subscribe` is refused and changes nothing, and closing again succeeds and changes nothing.
  pub publisher_closed_forever :
      (p : State api) (ops : List (Op api.State)) (kind : String) (payload : Payload) (id : String)
      (cs : List String) (now : Time)
      → IsWellFormed api p
      → let q = run api ops (close api p).1 in
        (publish api kind payload id now q ≡ (err publisher_closed, q))
        × (subscribe api cs now q ≡ (err publisher_closed, q))
        × (close api q ≡ (ok tt, q))
  publisher_closed_forever p ops kind payload id cs now h =
      let q = run api ops (close api p).1 in
      let c = run-closed ops (close api p).1 (closed_after p h) in
      (
        publish_closed api kind payload id now q c,
        subscribe_closed api cs now q c,
        close_again api q c,
      )
