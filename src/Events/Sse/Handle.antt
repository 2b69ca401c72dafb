-- ===== src/Events/Sse/Handle.antt =====
-- `HandleSSE` of internal/events/sse.go up to the loop, and the loop. The answer is the list of the
-- calls made of the request's `gin.Context`, in their order.
use Prim.Native.String.{◌++◌ as text_append}
use go_kube_ops_view.Prelude.{
  ℕ, String, Bool, true, false, Option, none, some, List, [], ◌∷◌, Result, ok, err, panic, leb,
  if◌then◌else◌,
}
use go_kube_ops_view.Dict
use go_kube_ops_view.Dict.{Dict}
use go_kube_ops_view.Json
use go_kube_ops_view.Models.{Time}
use go_kube_ops_view.Store.{value, Event}
use go_kube_ops_view.Events.Sse.{
  EventPublisher, Connections, SseClient, SseHandler, Deadlock, deadlock, send_event,
  cleanup_client, get_client_count,
}
use go_kube_ops_view.Events.Sse.Filter.{parse_cluster_filter, set_sse_headers}

-- What is read of a request: its connection, the two parameters of its query, its origin, its address
-- and the clock in nanoseconds, printed.
pub record Request : Type 0 where
  pub connection : ℕ
  pub clusters : String
  pub cluster_ids : String
  pub origin : String
  pub client_ip : String
  pub nanos : String

abbrev pub generate_client_id : Request → String
generate_client_id r = text_append r.client_ip (text_append "-" r.nanos)

pub data Answer : Type 0 where
  -- WriteHeader and Flush, with the headers
  header_sent : ℕ → Dict String → Answer
  -- c.JSON of an error
  json_error : ℕ → String → Answer

-- How far a connection got: to the loop, or to a return before it.
pub data Stage : Type 0 where
  rejected : Stage
  serving : SseClient → Stage

-- What the loop's `select` takes.
pub data Received : Type 0 where
  context_done : Received
  channel_closed : Received
  event : Event → Received

abbrev pub listed : Option (List String) → List String
listed none = []
listed (some l) = l

-- The initial connection message.
abbrev pub hello : SseClient → Time → Event
hello c now =
    let body =
      Json.field "status" (Json.str "connected")
        (Json.field "client_id" (Json.str c.id) Json.end) in
    record {
      kind = "connection";
      payload = value (Json.obj body);
      timestamp = now;
      cluster_id = "";
    }

module _ (api : EventPublisher) (net : Connections) where
  -- The loop over the bootstrap events: whether one failed.
  unfoldable pub send_bootstrap : SseClient → List Event → net.World → Bool × net.World
  send_bootstrap c [] w = (false, w)
  send_bootstrap c (e ∷ es) w =
      let (failed, w') = send_event api net c e w in
      let rest = send_bootstrap c es w' in if failed then (true, w') else rest

  -- From the registration to the loop.
  unfoldable pub bootstrap :
      SseClient
      → List String
      → Time
      → SseHandler api net
      → Result Deadlock (Stage × SseHandler api net)
  bootstrap c ids now h =
      let (_, w) = send_event api net c (hello c now) h.world in
      let greeted : SseHandler api net = record h { world = w } in
      elim (api.snapshot ids now h.publisher) [
        | panic ↦ panic
        | err _ ↦ ok (serving c, greeted)
        | ok es ↦
            let (failed, w') = send_bootstrap c es w in
            let sent : SseHandler api net = record h { world = w' } in
            if failed
            then elim (cleanup_client api net c.id sent) [
              | ok h' ↦ ok (rejected, h')
              | err e ↦ err e
              | panic ↦ panic
            ]
            else ok (serving c, sent)
      ]

  -- `HandleSSE` up to the loop, where it does not wait for the lock.
  unfoldable pub admit :
      Request
      → Time
      → SseHandler api net
      → List Answer × Result Deadlock (Stage × SseHandler api net)
  admit r now h =
      let filter = parse_cluster_filter r.clusters r.cluster_ids in
      let headers = header_sent 200 (set_sse_headers h.config r.origin Dict.empty) in
      let (subscribed, p) = api.subscribe (listed filter) now h.publisher in
      if leb h.config.max_clients (get_client_count api net h)
      then (json_error 429 "Maximum number of SSE clients reached" ∷ [], ok (rejected, h))
      else elim subscribed [
        | panic ↦ (headers ∷ [], panic)
        | err _ ↦ (
          headers ∷ json_error 500 "Failed to subscribe to events" ∷ [],
          ok (rejected, record h { publisher = p }),
        )
        | ok ch ↦
            let c : SseClient = record {
              id = generate_client_id r;
              connection = r.connection;
              cluster_ids = filter;
              connected = now;
              last_ping = now;
              events = ch;
            } in
            let registered : SseHandler api net = record h {
              publisher = p;
              clients = Dict.put h.clients c.id c;
            } in
            (headers ∷ [], bootstrap c (listed filter) now registered)
      ]

  abbrev pub connect :
      Request
      → Time
      → SseHandler api net
      → List Answer × Result Deadlock (Stage × SseHandler api net)
  connect r now h = if h.locked then ([], err deadlock) else admit r now h

  -- The loop over what came so far: whether it has ended.
  unfoldable pub handle_client_events : SseClient → List Received → net.World → Bool × net.World
  handle_client_events c [] w = (false, w)
  handle_client_events c (context_done ∷ rs) w = (true, w)
  handle_client_events c (channel_closed ∷ rs) w = (true, w)
  handle_client_events c (event e ∷ rs) w =
      let (failed, w') = send_event api net c e w in
      let rest = handle_client_events c rs w' in if failed then (true, w') else rest

  -- The loop, and `cleanupClient` once it has ended.
  abbrev pub serve :
      SseClient → List Received → SseHandler api net → Result Deadlock (SseHandler api net)
  serve c rs h =
      let (ended, w) = handle_client_events c rs h.world in
      let after : SseHandler api net = record h { world = w } in
      if ended then cleanup_client api net c.id after else ok after
