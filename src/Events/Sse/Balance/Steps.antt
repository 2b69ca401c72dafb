-- ===== src/Events/Sse/Balance/Steps.antt =====
-- Each call of `SSEHandler` (internal/events/sse.go) ends, without a panic and without waiting for ever,
-- and keeps the subscriptions those of the connected clients.
use go_kube_ops_view.Prelude.{
  String, ◌≡◌, refl, ap, sym, subst, ◌∙◌, Bool, false, List, [], ◌∷◌, Result, ok, inl, inr,
  Bool-cases, Option-cases, nat_eq, if◌then◌else◌,
}
use go_kube_ops_view.Dict
use go_kube_ops_view.Dict.Values.{values-remove, values-put_old, without}
use go_kube_ops_view.Json.{Json}
use go_kube_ops_view.Models.{Time}
use go_kube_ops_view.Events.Sse.{
  EventPublisher, Connections, SseClient, SseHandler, Deadlock, send_event, cleanup_client,
  cleanup_each, stale_clients, cleanup_clients, ping_of, ping_client, broadcast_message,
}
use go_kube_ops_view.Events.Sse.Handle.{Received, handle_client_events, serve}
use go_kube_ops_view.Events.Sse.Publishers.{PublisherLaws}
use go_kube_ops_view.Events.Sse.Balance.{IsBalanced}

-- The branch of a lock that is free.
pub unlocked {ℓ} : {A : Type ℓ} {b : Bool} (x y : A) → b ≡ false → (if b then x else y) ≡ y
unlocked x y e = rw e refl

module _ (api : EventPublisher) (net : Connections) (laws : PublisherLaws api) where
  abbrev pub Handler : Type 0
  Handler = SseHandler api net

  -- The call ends in a handler that is balanced.
  abbrev pub Keeps : Result Deadlock Handler → Type 0
  Keeps r = (h : Handler) × (r ≡ ok h) × IsBalanced api net laws h

  -- What only writes to the connections.
  pub in_world :
      (h : Handler) (w : net.World)
      → IsBalanced api net laws h
      → IsBalanced api net laws (record h { world = w })
  in_world h w b = record {
    is_free = b.is_free;
    good = b.good;
    apart = b.apart;
    balanced = b.balanced;
  }

  pub cleanup_client-Keeps :
      (id : String) (h : Handler) → IsBalanced api net laws h → Keeps (cleanup_client api net id h)
  unfolding cleanup_client
  cleanup_client-Keeps id h b = elim (Option-cases (Dict.get h.clients id)) [
    | inl q ↦ (h, unlocked _ _ b.is_free ∙ rw q refl, b)
    | inr (c, q) ↦
        let (p, u, g, s) = laws.unsubscribe_law c.events h.publisher b.good in
        let (v, a) = values-remove (λ (c : SseClient). c.events) h.clients id b.apart q in
        let there = ap (λ o. o.1) u in
        let returned = ap (λ o. o.0) u in
        (
          record h {
            publisher = (api.unsubscribe c.events h.publisher).1;
            clients = Dict.remove h.clients id;
            world = net.cancel c.connection h.world;
          },
          unlocked _ _ b.is_free ∙ rw q (rw returned refl),
          record {
            is_free = b.is_free;
            good = subst laws.IsGood (sym there) g;
            apart = a;
            balanced = ap laws.subscriptions there ∙ s ∙ ap (without c.events) b.balanced ∙ sym v;
          },
        )
  ]

  cleanup_each-Keeps :
      (ids : List String) (h : Handler)
      → IsBalanced api net laws h
      → Keeps (cleanup_each api net ids h)
  unfolding cleanup_each
  cleanup_each-Keeps [] h b = (h, refl, b)
  cleanup_each-Keeps (id ∷ ids) h b =
      let (h', e, b') = cleanup_client-Keeps id h b in
      let (h'', e', b'') = cleanup_each-Keeps ids h' b' in (h'', rw (e, cleanup_each) e', b'')

  pub cleanup_clients-Keeps :
      (now : Time) (h : Handler) → IsBalanced api net laws h → Keeps (cleanup_clients api net now h)
  cleanup_clients-Keeps now h b =
      let (h', e, b') =
        cleanup_each-Keeps (stale_clients api net now h.config.client_timeout h.clients.entries) h
          b in
      (h', unlocked _ _ b.is_free ∙ e, b')

  pub ping_client-IsBalanced :
      (c : SseClient) (now : Time) (h : Handler)
      → IsBalanced api net laws h
      → IsBalanced api net laws (ping_client api net c now h).1
  unfolding ping_client
  ping_client-IsBalanced c now h b =
      let o = send_event api net c (ping_of now) h.world in
      elim (Bool-cases o.0) [
        | inl f ↦ rw f (in_world h o.1 b)
        | inr f ↦ elim (Option-cases (Dict.get h.clients c.id)) [
          | inl q ↦ rw (f, q) (in_world h o.1 b)
          | inr (d, q) ↦ elim (Bool-cases (nat_eq d.connection c.connection)) [
            | inr n ↦ rw (f, q, n) (in_world h o.1 b)
            | inl n ↦
                let (v, a) =
                  values-put_old (λ (c : SseClient). c.events) h.clients c.id
                    (record d { last_ping = now }) b.apart q refl in
                rw (f, q, n)
                  (record {
                    is_free = b.is_free;
                    good = b.good;
                    apart = a;
                    balanced = b.balanced ∙ sym v;
                  })
          ]
        ]
      ]

  pub serve-Keeps :
      (c : SseClient) (rs : List Received) (h : Handler)
      → IsBalanced api net laws h
      → Keeps (serve api net c rs h)
  serve-Keeps c rs h b =
      let o = handle_client_events api net c rs h.world in
      elim (Bool-cases o.0) [
        | inl q ↦
            let (h', e, b') =
              cleanup_client-Keeps c.id (record h { world = o.1 }) (in_world h o.1 b) in
            (h', rw q e, b')
        | inr q ↦ (record h { world = o.1 }, rw q refl, in_world h o.1 b)
      ]

  pub broadcast_message-Keeps :
      (kind : String) (body : Json) (now : Time) (h : Handler)
      → IsBalanced api net laws h
      → Keeps (broadcast_message api net kind body now h)
  broadcast_message-Keeps kind body now h b = (_, unlocked _ _ b.is_free, in_world h _ b)
