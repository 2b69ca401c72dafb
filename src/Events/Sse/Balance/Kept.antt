-- ===== src/Events/Sse/Balance/Kept.antt =====
-- Any calls of `SSEHandler` (internal/events/sse.go) keep the subscriptions those of the connected
-- clients.
use go_kube_ops_view.Prelude.{◌≡◌, refl, ap, subst, ◌∙◌, List, [], ◌∷◌, ok, arith}
use go_kube_ops_view.Dict.Values.{values, IsApart}
use go_kube_ops_view.Events.Sse.{EventPublisher, Connections, SseConfig, new_sse_handler}
use go_kube_ops_view.Events.Sse.Publishers.{PublisherLaws}
use go_kube_ops_view.Events.Sse.Balance.{
  Call, connects, is_served, is_pinged, ticks, broadcasts, publishes, closes, IsBalanced, step, run,
  IsAllowed, AreAllowed, handler_of,
}
use go_kube_ops_view.Events.Sse.Closing.{close_lem}
use go_kube_ops_view.Events.Sse.Balance.Steps.{
  Handler, Keeps, cleanup_clients-Keeps, ping_client-IsBalanced, serve-Keeps,
  broadcast_message-Keeps,
}
use go_kube_ops_view.Events.Sse.Balance.Connect.{connect-Keeps}

module _ (api : EventPublisher) (net : Connections) (laws : PublisherLaws api) where
  pub step-Keeps :
      (c : Call) (h : Handler api net laws)
      → IsBalanced api net laws h
      → IsAllowed api net c h
      → Keeps api net laws (step api net c h)
  unfolding step
  step-Keeps (connects r now) h b n =
      let (x, h', e, b') = connect-Keeps api net laws r now h b n in
      (h', ap (handler_of api net) e, b')
  step-Keeps (is_served c rs) h b n = serve-Keeps api net laws c rs h b
  step-Keeps (is_pinged c now) h b n = (_, refl, ping_client-IsBalanced api net laws c now h b)
  step-Keeps (ticks now) h b n = cleanup_clients-Keeps api net laws now h b
  step-Keeps (broadcasts kind body now) h b n =
      broadcast_message-Keeps api net laws kind body now h b
  step-Keeps (publishes kind payload id now) h b n =
      let (g, s) = laws.publish_law kind payload id now h.publisher b.good in
      (
        _,
        refl,
        record { is_free = b.is_free; good = g; apart = b.apart; balanced = s ∙ b.balanced },
      )
  step-Keeps closes h b n = (h, ground (arith, close_lem api net h b.is_free, n), b)

  pub run-Keeps :
      (cs : List Call) (h : Handler api net laws)
      → IsBalanced api net laws h
      → AreAllowed api net cs h
      → Keeps api net laws (run api net cs h)
  unfolding run
  run-Keeps [] h b n = (h, refl, b)
  run-Keeps (c ∷ cs) h b n =
      let (h', e, b') = step-Keeps c h b n.0 in
      let next = subst (λ r. elim r [ ok h' ↦ AreAllowed api net cs h' | _ ↦ Unit {0} ]) e n.1 in
      let (h'', e', b'') = run-Keeps cs h' b' next in (h'', rw (e, run) e', b'')

  -- Streams leave no subscription behind. After any calls on a new handler, one after another, whose
  -- clients get IDs that no connected client has, and of which `Close` is made only while no client
  -- is connected, however the connections fail: no call panics or waits for ever, and the
  -- publisher's subscriptions are exactly the channels of the clients that are connected, each once.
  pub no_lost_subscription :
      (config : SseConfig) (p : api.State) (w : net.World) (cs : List Call)
      → laws.IsGood p
      → laws.subscriptions p ≡ []
      → AreAllowed api net cs (new_sse_handler api net config p w)
      → (h : Handler api net laws) × (run api net cs (new_sse_handler api net config p w) ≡ ok h)
        × (laws.subscriptions h.publisher ≡ values (λ c. c.events) h.clients)
        × IsApart (λ c. c.events) h.clients
  no_lost_subscription config p w cs g s n =
      let (h, e, b) =
        run-Keeps cs (new_sse_handler api net config p w)
          (record { is_free = refl; good = g; apart = tt; balanced = s }) n in
      (h, e, b.balanced, b.apart)
