-- ===== src/Store/Memory.antt =====
-- internal/store/memory.go. Each method runs under its mutex, so it is one step: it returns its
-- result and the new state. A reading of the clock or of the random source is an argument, one for
-- each call in the source; durations are not negative. A channel's identity is a number that grows.
pub mod Runs
pub mod Tokens
pub mod Clusters
pub mod Refinement
pub mod Subscriptions
use go_kube_ops_view.Prelude.{
  ℕ, zero, suc, ◌+◌, ◌*◌, ◌/◌, ◌%◌, ◌<◌, String, Bool, true, false, Option, none, some, List, [],
  ◌∷◌, ◌++◌, Result, ok, err, panic, ltb, nat_eq, if◌then◌else◌, nth_char,
}
use go_kube_ops_view.Dict
use go_kube_ops_view.Dict.{Dict}
use go_kube_ops_view.Chan
use go_kube_ops_view.Chan.{Chan, offer_all, close_all}
use go_kube_ops_view.Models.{Time, ClusterData}
use go_kube_ops_view.Models.Clone.{clone}
use go_kube_ops_view.Store.{
  ClusterStatus, Payload, cluster, status, Event, ScreenToken, StoreError, cluster_not_found,
  token_not_found, token_expired, token_already_used, connection_failed, operation_failed,
  cluster_data_nil, cluster_status_nil, subscription_not_found, token_generation_failed,
}

pub record MemoryStore : Type 0 where
  pub clusters : Dict ClusterData
  pub statuses : Dict ClusterStatus
  pub tokens : Dict ScreenToken
  pub events : List (Chan Event)
  pub token_ttl : ℕ
  pub closed : Bool
  pub next_channel : ℕ

-- A method's result, and the store that it leaves.
abbrev pub Outcome : Type 0 → Type 0
Outcome A = Result StoreError A × MemoryStore

abbrev pub day : ℕ
day = 24 * 3600 * 1000000000

abbrev pub new_memory_store : MemoryStore
new_memory_store = record {
  clusters = Dict.empty;
  statuses = Dict.empty;
  tokens = Dict.empty;
  events = [];
  token_ttl = day;
  closed = false;
  next_channel = 0;
}

abbrev pub new_memory_store_with_ttl : ℕ → MemoryStore
new_memory_store_with_ttl ttl = record new_memory_store { token_ttl = ttl }

abbrev pub get_cluster_ids : MemoryStore → List String
get_cluster_ids m = Dict.keys m.clusters

unfoldable pub get_cluster_data : String → MemoryStore → Result StoreError ClusterData
get_cluster_data id m = elim (Dict.get m.clusters id) [
  | none ↦ err cluster_not_found
  | some cd ↦ elim (clone cd) [ none ↦ panic | some copy ↦ ok copy ]
]

unfoldable pub set_cluster_data : String → Option ClusterData → MemoryStore → Outcome Unit
set_cluster_data id none m = (err cluster_data_nil, m)
set_cluster_data id (some cd) m = elim (clone cd) [
  | none ↦ (panic, m)
  | some copy ↦ (ok tt, record m { clusters = Dict.put m.clusters id copy })
]

unfoldable pub get_cluster_status : String → MemoryStore → Result StoreError ClusterStatus
get_cluster_status id m = elim (Dict.get m.statuses id) [
  | none ↦ err cluster_not_found
  | some s ↦ ok s
]

unfoldable pub set_cluster_status : String → Option ClusterStatus → MemoryStore → Outcome Unit
set_cluster_status id none m = (err cluster_status_nil, m)
set_cluster_status id (some s) m = (ok tt, record m { statuses = Dict.put m.statuses id s })

unfoldable pub delete_cluster : String → MemoryStore → Outcome Unit
delete_cluster id m =
    (ok tt, record m { clusters = Dict.remove m.clusters id; statuses = Dict.remove m.statuses id })

-- The cluster ID that `PublishEvent` finds in the data; `none` is the panic on a nil pointer.
abbrev pub payload_cluster_id : Payload → Option String
payload_cluster_id (cluster none) = none
payload_cluster_id (cluster (some cd)) = some cd.id
payload_cluster_id (status none) = none
payload_cluster_id (status (some s)) = some s.id
payload_cluster_id _ = some ""

unfoldable pub publish_event : String → Payload → Time → MemoryStore → Outcome Unit
publish_event kind payload now m =
    if m.closed then (err operation_failed, m) else elim (payload_cluster_id payload) [
      | none ↦ (panic, m)
      | some id ↦
          elim (offer_all
            (record { kind = kind; payload = payload; timestamp = now; cluster_id = id })
            m.events) [ none ↦ (panic, m) | some chs ↦ (ok tt, record m { events = chs }) ]
    ]

unfoldable pub subscribe : MemoryStore → Outcome (Chan Event)
subscribe m =
    let ch = Chan.make {A = Event} m.next_channel 100 in
    if m.closed
    then (err operation_failed, m)
    else (ok ch, record m { events = m.events ++ ch ∷ []; next_channel = suc m.next_channel })

-- The loop of `Unsubscribe`: the channel that is closed, and the ones that stay.
unfoldable pub take_channel : ℕ → List (Chan Event) → Option (Chan Event × List (Chan Event))
take_channel id [] = none
take_channel id (ch ∷ chs) =
    let rest = take_channel id chs in
    if nat_eq ch.id id
    then some (ch, chs)
    else elim rest [ none ↦ none | some (found, l) ↦ some (found, ch ∷ l) ]

unfoldable pub unsubscribe : ℕ → MemoryStore → Outcome Unit
unfolding take_channel
unsubscribe id m = elim (take_channel id m.events) [
  | none ↦ (err subscription_not_found, m)
  | some (ch, chs) ↦ elim (Chan.close ch) [
    | none ↦ (panic, m)
    | some _ ↦ (ok tt, record m { events = chs })
  ]
]

-- now.After(t)
abbrev pub after : Time → Time → Bool
after now t = ltb t now

abbrev pub is_expired : Time → String → ScreenToken → Bool
is_expired now _ t = after now t.expires_at

abbrev pub cleanup_expired_tokens : Time → MemoryStore → MemoryStore
cleanup_expired_tokens now m = record m { tokens = Dict.delete_if (is_expired now) m.tokens }

-- hex.EncodeToString
unfoldable pub hex : List ℕ → String
unfolding nth_char
hex [] = String.[]
hex (b ∷ bs) =
    let digits : String = "0123456789abcdef" in
    String.◌∷◌ (nth_char (b / 16) digits) (String.◌∷◌ (nth_char (b % 16) digits) (hex bs))

-- `none` is an error of `rand.Read`; the clock is read by the clean-up, for `CreatedAt` and for
-- `ExpiresAt`.
unfoldable pub create_screen_token :
    Option (List ℕ) → Time → Time → Time → MemoryStore → Outcome String
create_screen_token none now created expires m = (err token_generation_failed, m)
create_screen_token (some bytes) now created expires m =
    let token = hex bytes in
    let clean = cleanup_expired_tokens now m in
    let t : ScreenToken = record {
      token = token;
      created_at = created;
      expires_at = expires + m.token_ttl;
      used_at = none;
      remote_addr = "";
    } in
    (ok token, record clean { tokens = Dict.put clean.tokens token t })

unfoldable pub redeem_screen_token : String → String → Time → Time → MemoryStore → Outcome Unit
redeem_screen_token token addr now used m = elim (Dict.get m.tokens token) [
  | none ↦ (err token_not_found, m)
  | some t ↦
      if after now t.expires_at
      then (err token_expired, record m { tokens = Dict.remove m.tokens token })
      else elim t.used_at [
        | some _ ↦ (err token_already_used, m)
        | none ↦ (
          ok tt,
          record m {
            tokens = Dict.put m.tokens token (record t { used_at = some used; remote_addr = addr });
          },
        )
      ]
]

unfoldable pub validate_screen_token : String → Time → MemoryStore → Bool
validate_screen_token token now m = elim (Dict.get m.tokens token) [
  | none ↦ false
  | some t ↦ if after now t.expires_at then false else true
]

unfoldable pub delete_screen_token : String → MemoryStore → Outcome Unit
delete_screen_token token m = (ok tt, record m { tokens = Dict.remove m.tokens token })

unfoldable pub close : MemoryStore → Outcome Unit
close m = elim (close_all m.events) [
  | none ↦ (panic, record m { closed = true })
  | some _ ↦ (ok tt, record m { closed = true; events = [] })
]

unfoldable pub ping : MemoryStore → Result StoreError Unit
ping m = if m.closed then err connection_failed else ok tt

unfoldable pub get_token_count : Time → MemoryStore → ℕ × MemoryStore
get_token_count now m = let m' = cleanup_expired_tokens now m in (Dict.size m'.tokens, m')
