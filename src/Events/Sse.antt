-- ===== src/Events/Sse.antt =====
-- internal/events/sse.go: `SSEHandler`, over any publisher and any connections. What one call reads
-- of the clock is one time. `HandleSSE` runs until its client leaves, so it is in parts: `connect`, the
-- loop `handle_client_events` over what its `select` takes, and `cleanup_client`.
pub mod Balance
pub mod Closing
pub mod Filter
pub mod Handle
pub mod Publishers
use go_kube_ops_view.Prelude.{
  ℕ, String, Bool, true, false, Option, none, some, List, [], ◌∷◌, Result, ok, err, panic, nat_eq,
  leb, ltb, ◌-◌, ◌*◌, ◌/◌, if◌then◌else◌, map,
}
use go_kube_ops_view.Dict
use go_kube_ops_view.Dict.{Dict}
use go_kube_ops_view.Json.{Json, natural}
use go_kube_ops_view.Json
use go_kube_ops_view.Models.{Time}
use go_kube_ops_view.Store.{Payload, value, Event}
use go_kube_ops_view.Events.Format.{SsePayload, format_sse_event}
use go_kube_ops_view.Events.Publisher.{PublishError}

-- What the handler calls of the interface `EventPublisher`; a number stands for a channel.
pub record EventPublisher : Type 1 where
  pub State : Type 0
  pub subscribe : List String → Time → State → Result PublishError ℕ × State
  pub unsubscribe : ℕ → State → Result PublishError (Unit {0}) × State
  pub snapshot : List String → Time → State → Result PublishError (List Event)
  pub publish : String → Payload → String → Time → State → Result PublishError (Unit {0}) × State

-- The connections, each with a number: `json.Marshal`, a write with its flush, which gives whether it
-- failed, and the end of a client's context.
pub record Connections : Type 1 where
  pub World : Type 0
  pub marshal : SsePayload → Option String
  pub write : ℕ → String → World → Bool × World
  pub cancel : ℕ → World → World

-- The durations are natural numbers of nanoseconds.
pub record SseConfig : Type 0 where
  pub ping_interval : ℕ
  pub client_timeout : ℕ
  pub max_clients : ℕ
  pub buffer_size : ℕ
  pub enable_cors : Bool
  pub allowed_origins : List String

abbrev pub seconds : ℕ → ℕ
seconds n = n * 1000000000

-- The defaults that `NewSSEHandler` sets.
unfoldable pub with_defaults : SseConfig → SseConfig
with_defaults c = record c {
  ping_interval = if nat_eq c.ping_interval 0 then seconds 30 else c.ping_interval;
  client_timeout = if nat_eq c.client_timeout 0 then seconds 300 else c.client_timeout;
  max_clients = if nat_eq c.max_clients 0 then 1000 else c.max_clients;
  buffer_size = if nat_eq c.buffer_size 0 then 100 else c.buffer_size;
}

-- `connection` is the number of `Writer` and of the context; `cluster_ids` is `none` for nil.
pub record SseClient : Type 0 where
  pub id : String
  pub connection : ℕ
  pub cluster_ids : Option (List String)
  pub connected : Time
  pub last_ping : Time
  pub events : ℕ

pub record SseClientInfo : Type 0 where
  pub id : String
  pub connected : Time
  pub last_ping : Time
  pub duration : ℕ
  pub cluster_ids : Option (List String)

-- A call that waits for ever for a lock that its own goroutine holds.
pub data Deadlock : Type 0 where
  deadlock : Deadlock

-- What `pingClient` sends.
abbrev pub ping_of : Time → Event
ping_of now = record {
  kind = "ping";
  payload =
      value (Json.obj (Json.field "timestamp" (Json.num (natural (now / 1000000000))) Json.end));
  timestamp = now;
  cluster_id = "";
}

module _ (api : EventPublisher) (net : Connections) where
  -- `locked`: a goroutine holds the lock to write.
  pub record SseHandler : Type 0 where
    pub publisher : api.State
    pub clients : Dict SseClient
    pub config : SseConfig
    pub locked : Bool
    pub world : net.World

  abbrev pub new_sse_handler : SseConfig → api.State → net.World → SseHandler
  new_sse_handler c p w = record {
    publisher = p;
    clients = Dict.empty;
    config = with_defaults c;
    locked = false;
    world = w;
  }

  -- Whether it failed, in the format or in the write.
  unfoldable pub send_event : SseClient → Event → net.World → Bool × net.World
  send_event c e w = elim (format_sse_event net.marshal e) [
    | none ↦ (true, w)
    | some text ↦ net.write c.connection text w
  ]

  unfoldable pub cleanup_client : String → SseHandler → Result Deadlock SseHandler
  cleanup_client id h = if h.locked then err deadlock else elim (Dict.get h.clients id) [
    | none ↦ ok h
    | some c ↦
        let (r, p) = api.unsubscribe c.events h.publisher in
        let left : SseHandler = record h {
          publisher = p;
          clients = Dict.remove h.clients id;
          world = net.cancel c.connection h.world;
        } in
        elim r [ panic ↦ panic | ok _ ↦ ok left | err _ ↦ ok left ]
  ]

  -- for … { h.cleanupClient(clientID) }
  unfoldable pub cleanup_each : List String → SseHandler → Result Deadlock SseHandler
  cleanup_each [] h = ok h
  cleanup_each (id ∷ ids) h = elim (cleanup_client id h) [
    | ok h' ↦ cleanup_each ids h'
    | err e ↦ err e
    | panic ↦ panic
  ]

  -- The clients without a ping for longer than the time-out.
  unfoldable pub stale_clients : Time → ℕ → List (String × SseClient) → List String
  stale_clients now timeout [] = []
  stale_clients now timeout (e ∷ es) =
      let rest = stale_clients now timeout es in
      if ltb timeout (now - e.1.last_ping) then e.0 ∷ rest else rest

  -- One tick of `cleanupClients`.
  abbrev pub cleanup_clients : Time → SseHandler → Result Deadlock SseHandler
  cleanup_clients now h =
      if h.locked
      then err deadlock
      else cleanup_each (stale_clients now h.config.client_timeout h.clients.entries) h

  -- `Close` holds the lock while it goes over the clients.
  unfoldable pub close : SseHandler → Result Deadlock SseHandler
  close h =
      if h.locked
      then err deadlock
      else elim (cleanup_each (Dict.keys h.clients) (record h { locked = true })) [
        | ok h' ↦ ok (record h' { locked = false })
        | err e ↦ err e
        | panic ↦ panic
      ]

  -- One ping of `pingClient`: whether it goes on. `LastPing` is set on the client itself, which
  -- the map has unless it was removed.
  unfoldable pub ping_client : SseClient → Time → SseHandler → Bool × SseHandler
  ping_client c now h =
      let (failed, w) = send_event c (ping_of now) h.world in
      let sent : SseHandler = record h { world = w } in
      if failed then (false, sent) else elim (Dict.get h.clients c.id) [
        | none ↦ (true, sent)
        | some d ↦ (
          true,
          if nat_eq d.connection c.connection
              then record sent { clients = Dict.put h.clients c.id (record d { last_ping = now }) }
              else sent,
        )
      ]

  unfoldable pub send_to_all : List (String × SseClient) → Event → net.World → net.World
  send_to_all [] e w = w
  send_to_all (c ∷ cs) e w = send_to_all cs e (send_event c.1 e w).1

  abbrev pub broadcast_message : String → Json → Time → SseHandler → Result Deadlock SseHandler
  broadcast_message kind body now h =
      let e : Event = record {
        kind = kind;
        payload = value body;
        timestamp = now;
        cluster_id = "";
      } in
      if h.locked
      then err deadlock
      else ok (record h { world = send_to_all h.clients.entries e h.world })

  abbrev pub get_client_count : SseHandler → ℕ
  get_client_count h = Dict.size h.clients

  abbrev info_of : Time → String × SseClient → SseClientInfo
  info_of now e = record {
    id = e.1.id;
    connected = e.1.connected;
    last_ping = e.1.last_ping;
    duration = now - e.1.connected;
    cluster_ids = e.1.cluster_ids;
  }

  abbrev pub get_client_info : Time → SseHandler → List SseClientInfo
  get_client_info now h = map (info_of now) h.clients.entries
