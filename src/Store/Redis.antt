-- ===== src/Store/Redis.antt =====
-- internal/store/redis.go, over any client and any server, and any JSON codecs. A reading of the clock
-- or of the random source is an argument, as in Store/Memory; the time of a command is that of the
-- server. The two constructors, which connect, are left out.
pub mod Server
pub mod Keys
pub mod Holds
pub mod Tokens
pub mod Runs
pub mod Frame
pub mod Refinement
pub mod Race
pub mod Redeemed
use go_kube_ops_view.Prelude.{
  ℕ, suc, ◌+◌, String, Bool, true, false, Option, none, some, List, [], ◌∷◌, ◌++◌, Result, ok, err,
  panic, ltb, if◌then◌else◌, length,
}
use Prim.Native.String.{◌++◌ as text_append}
use go_kube_ops_view.Chan
use go_kube_ops_view.Chan.{Chan, offer_all, close_all}
use go_kube_ops_view.Models.{Time, ClusterData}
use go_kube_ops_view.Store.{
  ClusterStatus, Payload, Event, ScreenToken, StoreError, cluster_not_found, token_not_found,
  token_expired, token_already_used, connection_failed, operation_failed, cluster_data_nil,
  cluster_status_nil, subscription_not_found, token_generation_failed,
}
use go_kube_ops_view.Store.Memory.{after, hex, payload_cluster_id, take_channel}
use go_kube_ops_view.Store.Redis.Server.{Client, Command, set, del, sadd, srem, lasts}

abbrev pub cluster_data_key : String → String
cluster_data_key id = text_append "kube-ops-view:cluster:data:" id

abbrev pub cluster_status_key : String → String
cluster_status_key id = text_append "kube-ops-view:cluster:status:" id

abbrev pub token_key : String → String
token_key token = text_append "kube-ops-view:token:" token

abbrev pub cluster_set_key : String
cluster_set_key = "kube-ops-view:clusters"

abbrev pub event_channel : String
event_channel = "kube-ops-view:events"

-- An error of the interface, or one that `fmt.Errorf` makes of a failed command or codec.
pub data RedisError : Type 0 where
  known : StoreError → RedisError
  command_failed marshal_failed unmarshal_failed : RedisError

-- json.Marshal and json.Unmarshal at a type; `none` is their error.
pub record Codec (A : Type 0) : Type 0 where
  pub encode : A → Option String
  pub decode : String → Option A

pub record Codecs : Type 0 where
  pub cluster_data : Codec ClusterData
  pub cluster_status : Codec ClusterStatus
  pub screen_token : Codec ScreenToken
  pub event : Codec Event

module _ (c : Client) (json : Codecs) where
  pub record RedisStore : Type 0 where
    pub world : c.World
    pub events : List (Chan Event)
    pub token_ttl : ℕ
    pub closed : Bool
    pub next_channel : ℕ

  abbrev pub Outcome : Type 0 → Type 0
  Outcome A = Result RedisError A × RedisStore

  abbrev pub get_cluster_ids : RedisStore → List String × RedisStore
  get_cluster_ids r =
      let reply = c.smembers cluster_set_key r.world in
      (elim reply.0 [ none ↦ [] | some members ↦ members ], record r { world = reply.1 })

  -- What `GetClusterData`, `GetClusterStatus` and `RedeemScreenToken` share: GET, then Unmarshal.
  unfoldable pub fetch :
      {A : Type 0} → Codec A → StoreError → String → Time → RedisStore → Outcome A
  fetch {A} codec missing key now r =
      let reply = c.get key now r.world in
      let found : Result RedisError A = elim reply.0 [
        | none ↦ err command_failed
        | some none ↦ err (known missing)
        | some (some text) ↦ elim (codec.decode text) [
          | none ↦ err unmarshal_failed
          | some a ↦ ok a
        ]
      ] in
      (found, record r { world = reply.1 })

  -- A command, or a pipeline of them, whose error the method returns.
  unfoldable pub execute : List Command → Time → RedisStore → Outcome Unit
  execute cs now r =
      let reply = c.send cs now r.world in
      (if reply.0 then ok tt else err command_failed, record r { world = reply.1 })

  abbrev pub get_cluster_data : String → Time → RedisStore → Outcome ClusterData
  get_cluster_data id = fetch json.cluster_data cluster_not_found (cluster_data_key id)

  unfoldable pub set_cluster_data : String → Option ClusterData → Time → RedisStore → Outcome Unit
  set_cluster_data id none now r = (err (known cluster_data_nil), r)
  set_cluster_data id (some cd) now r = elim (json.cluster_data.encode cd) [
    | none ↦ (err marshal_failed, r)
    | some text ↦
        execute (set (cluster_data_key id) text (lasts 0) ∷ sadd cluster_set_key id ∷ []) now r
  ]

  abbrev pub get_cluster_status : String → Time → RedisStore → Outcome ClusterStatus
  get_cluster_status id = fetch json.cluster_status cluster_not_found (cluster_status_key id)

  unfoldable pub set_cluster_status :
      String → Option ClusterStatus → Time → RedisStore → Outcome Unit
  set_cluster_status id none now r = (err (known cluster_status_nil), r)
  set_cluster_status id (some s) now r = elim (json.cluster_status.encode s) [
    | none ↦ (err marshal_failed, r)
    | some text ↦ execute (set (cluster_status_key id) text (lasts 0) ∷ []) now r
  ]

  unfoldable pub delete_cluster : String → Time → RedisStore → Outcome Unit
  delete_cluster id =
      execute
        (del (cluster_data_key id) ∷ del (cluster_status_key id) ∷ srem cluster_set_key id ∷ [])

  unfoldable pub publish_event : String → Payload → Time → RedisStore → Outcome Unit
  publish_event kind payload now r = elim (payload_cluster_id payload) [
    | none ↦ (panic, r)
    | some id ↦
        elim (json.event.encode
          (record { kind = kind; payload = payload; timestamp = now; cluster_id = id })) [
            | none ↦ (err marshal_failed, r)
            | some text ↦
                let reply = c.publish event_channel text r.world in
                (if reply.0 then ok tt else err command_failed, record r { world = reply.1 })
          ]
  ]

  unfoldable pub subscribe : RedisStore → Outcome (Chan Event)
  subscribe r =
      let ch = Chan.make {A = Event} r.next_channel 100 in
      if r.closed
      then (err (known operation_failed), r)
      else (ok ch, record r { events = r.events ++ ch ∷ []; next_channel = suc r.next_channel })

  unfoldable pub unsubscribe : ℕ → RedisStore → Outcome Unit
  unsubscribe id r = elim (take_channel id r.events) [
    | none ↦ (err (known subscription_not_found), r)
    | some (ch, chs) ↦ elim (Chan.close ch) [
      | none ↦ (panic, r)
      | some _ ↦ (ok tt, record r { events = chs })
    ]
  ]

  unfoldable pub close : RedisStore → Outcome Unit
  close r =
      let shut : RedisStore = record r { closed = true } in
      elim (close_all r.events) [
        | none ↦ (panic, shut)
        | some _ ↦
            let reply = c.close r.world in
            (
              if reply.0 then ok tt else err command_failed,
              record shut { events = []; world = reply.1 },
            )
      ]

  unfoldable pub ping : RedisStore → Outcome Unit
  ping r =
      let reply = c.ping r.world in
      if r.closed
      then (err (known connection_failed), r)
      else (if reply.0 then ok tt else err command_failed, record r { world = reply.1 })

  -- One message of the loop of `eventListener`; `none` is the panic on a closed channel.
  unfoldable pub hear : String → RedisStore → Option RedisStore
  hear payload r = elim (json.event.decode payload) [
    | none ↦ some r
    | some e ↦ elim (offer_all e r.events) [
      | none ↦ none
      | some chs ↦ some (record r { events = chs })
    ]
  ]

  unfoldable pub flush_all : RedisStore → Outcome Unit
  flush_all r =
      let reply = c.flush_all r.world in
      (if reply.0 then ok tt else err command_failed, record r { world = reply.1 })
