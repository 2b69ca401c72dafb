-- ===== src/Events/Sse/Closing.antt =====
-- `Close` of internal/events/sse.go holds the handler's lock while it calls `cleanupClient`, which takes
-- the same lock.
use go_kube_ops_view.Prelude.{
  ◌≡◌, refl, sym, subst, false, [], ◌∷◌, ok, err, nat_eq, if◌then◌else◌, length, arith,
}
use go_kube_ops_view.Dict.{Entries}
use go_kube_ops_view.Events.Sse.{
  EventPublisher, Connections, SseClient, SseHandler, deadlock, close, cleanup_each, cleanup_client,
  get_client_count,
}

module _ (api : EventPublisher) (net : Connections) where
  abbrev Handler : Type 0
  Handler = SseHandler api net

  abbrev with_entries : Handler → Entries SseClient → Handler
  with_entries h es = record h { clients = record { entries = es }; locked = false }

  close-with_entries :
      (h : Handler) (es : Entries SseClient)
      → close api net (with_entries h es)
        ≡ (if nat_eq (length es) 0 then ok (with_entries h es) else err deadlock)
  unfolding close cleanup_each cleanup_client
  close-with_entries h [] = refl
  close-with_entries h (e ∷ es) = ground arith

  -- `Close` of a handler whose lock is free never returns while a client is connected: it waits for
  -- ever for the lock that it holds. If none is connected, it returns and changes nothing.
  pub close_lem :
      (h : SseHandler api net)
      → h.locked ≡ false
      → close api net h ≡ (if nat_eq (get_client_count api net h) 0 then ok h else err deadlock)
  close_lem h f =
      subst
        (λ b. close api net (record h { locked = b }) ≡ (
          if nat_eq (get_client_count api net h) 0
          then ok (record h { locked = b })
          else err deadlock))
        (sym f) (close-with_entries h h.clients.entries)
