-- ===== src/Events/Sse/Balance.antt =====
-- Calls of `SSEHandler` (internal/events/sse.go) one after another, and the subscriptions they leave.
pub mod Steps
pub mod Connect
pub mod Kept
use go_kube_ops_view.Prelude.{String, ◌≡◌, false, none, List, [], ◌∷◌, Result, ok, err, panic}
use go_kube_ops_view.Dict
use go_kube_ops_view.Dict.Values.{values, IsApart}
use go_kube_ops_view.Json.{Json}
use go_kube_ops_view.Models.{Time}
use go_kube_ops_view.Store.{Payload}
use go_kube_ops_view.Events.Sse.{
  EventPublisher, Connections, SseClient, SseHandler, Deadlock, cleanup_clients, ping_client, close,
  get_client_count, broadcast_message,
}
use go_kube_ops_view.Events.Sse.Handle.{
  Request, Received, Stage, generate_client_id, connect, serve,
}
use go_kube_ops_view.Events.Sse.Publishers.{PublisherLaws}

pub data Call : Type 0 where
  connects : Request → Time → Call
  is_served : SseClient → List Received → Call
  is_pinged : SseClient → Time → Call
  ticks : Time → Call
  broadcasts : String → Json → Time → Call
  publishes : String → Payload → String → Time → Call
  closes : Call

module _ (api : EventPublisher) (net : Connections) where
  abbrev pub handler_of :
      Result Deadlock (Stage × SseHandler api net) → Result Deadlock (SseHandler api net)
  handler_of (ok (_, h)) = ok h
  handler_of (err e) = err e
  handler_of panic = panic

  unfoldable pub step : Call → SseHandler api net → Result Deadlock (SseHandler api net)
  step (connects r now) h = handler_of (connect api net r now h).1
  step (is_served c rs) h = serve api net c rs h
  step (is_pinged c now) h = ok (ping_client api net c now h).1
  step (ticks now) h = cleanup_clients api net now h
  step (broadcasts kind body now) h = broadcast_message api net kind body now h
  step (publishes kind payload id now) h =
      ok (record h { publisher = (api.publish kind payload id now h.publisher).1 })
  step closes h = close api net h

  unfoldable pub run : List Call → SseHandler api net → Result Deadlock (SseHandler api net)
  run [] h = ok h
  run (c ∷ cs) h = elim (step c h) [ ok h' ↦ run cs h' | err e ↦ err e | panic ↦ panic ]

  abbrev pub IsAllowed : Call → SseHandler api net → Type 0
  IsAllowed (connects r now) h = Dict.get h.clients (generate_client_id r) ≡ none
  IsAllowed closes h = get_client_count api net h ≡ 0
  IsAllowed _ h = Unit

  -- No client gets the ID of another that is connected, and `Close` is called only while no client is
  -- connected.
  abbrev pub AreAllowed : List Call → SseHandler api net → Type 0
  AreAllowed [] h = Unit
  AreAllowed (c ∷ cs) h = IsAllowed c h × elim (step c h) [ ok h' ↦ AreAllowed cs h' | _ ↦ Unit ]

  -- The publisher's subscriptions are those of the connected clients, and no lock is held.
  pub record IsBalanced (laws : PublisherLaws api) (h : SseHandler api net) : Type 0 where
    pub is_free : h.locked ≡ false
    pub good : laws.IsGood h.publisher
    pub apart : IsApart (λ c. c.events) h.clients
    pub balanced : laws.subscriptions h.publisher ≡ values (λ c. c.events) h.clients
