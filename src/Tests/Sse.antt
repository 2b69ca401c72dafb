-- ===== src/Tests/Sse.antt =====
-- The stream's handler over the publisher and the in-memory store.
use go_kube_ops_view.Prelude.{
  panic, Option-cases, inl, inr, ◌≢◌, ℕ, ◌≡◌, refl, true, some, List, [], ◌∷◌, ◌++◌, ok, err,
  nat_eq, if◌then◌else◌, String, ◌⊎◌,
}
use go_kube_ops_view.Dict
use go_kube_ops_view.Dict.Values.{values, IsApart}
use go_kube_ops_view.Config.Texts.{split_comma, trim_left, trim_right, is_space}
use go_kube_ops_view.Store.{Payload}
use go_kube_ops_view.Models.{Time}
use go_kube_ops_view.Store.Memory.Runs.{Op, step as store_step}
use go_kube_ops_view.Store.Memory.Clusters.{
  IsClean, set_data-IsClean, idle-IsClean, new-IsClean, read_of_clean,
}
use go_kube_ops_view.Store.Memory.{
  MemoryStore, new_memory_store, publish_event, get_cluster_data, set_cluster_data,
  get_cluster_status,
}
use go_kube_ops_view.Models.Clone.{clone}
use go_kube_ops_view.Events.Publisher.{
  new_publisher, subscribe, unsubscribe, take_subscriber, snapshot, snapshot_from, snapshot_of,
}
use go_kube_ops_view.Events.Format.{format_sse_event, sse_event_name, sse_payload}
use go_kube_ops_view.Events.Sse.{
  Connections, SseConfig, SseClient, SseHandler, new_sse_handler, close, deadlock, get_client_count,
  with_defaults, send_event, cleanup_client, cleanup_each, stale_clients, ping_client,
}
use go_kube_ops_view.Events.Sse.Filter.{
  set_sse_headers, allow_origin, every_origin_allowed, parse_cluster_filter, trimmed,
}
use go_kube_ops_view.Events.Sse.Filter.Listed.{
  IsListable, has_comma, comma_list, parse_cluster_filter-comma_list,
}
use go_kube_ops_view.Events.Sse.Handle.{
  Request, context_done, admit, bootstrap, send_bootstrap, handle_client_events,
}
use go_kube_ops_view.Events.Sse.Publishers.{SafeReads, publisher_over, publisher_laws}
use go_kube_ops_view.Events.Publisher.Runs.{run as run_publisher}
use go_kube_ops_view.Events.Publisher.Runs.Safety.{run_publisher-IsWellFormed}
use go_kube_ops_view.Events.Sse.Balance.{
  Call, connects, is_served, is_pinged, ticks, closes, run, step,
}
use go_kube_ops_view.Events.Sse.Balance.Kept.{no_lost_subscription}
use go_kube_ops_view.Events.Sse.Closing.{close_lem}
use go_kube_ops_view.Tests.Events.{memory, filled}
use go_kube_ops_view.Tests.Data.{data_of}

filter_read : parse_cluster_filter "" " a,, b" ≡ some ("a" ∷ "b" ∷ [])
unfolding parse_cluster_filter trimmed split_comma trim_left trim_right is_space
filter_read = refl

-- Connections that take everything but what is written to the third.
abbrev wires : Connections
wires = record {
  World = List String;
  marshal = λ p. some "{}";
  write = λ n s w. (nat_eq n 3, w ++ s ∷ []);
  cancel = λ n w. w;
}

abbrev settings : SseConfig
settings = record {
  ping_interval = 0;
  client_timeout = 0;
  max_clients = 2;
  buffer_size = 0;
  enable_cors = true;
  allowed_origins = "https://a.example" ∷ [];
}

every_origin_allowed_example :
    (Dict.get (set_sse_headers settings "https://b.example" Dict.empty) allow_origin ≡ some "*")
    ⊎ (Dict.get (set_sse_headers settings "https://b.example" Dict.empty) allow_origin
        ≡ some "https://b.example")
every_origin_allowed_example = every_origin_allowed settings "https://b.example" Dict.empty

abbrev request : ℕ → String → Request
request n nanos = record {
  connection = n;
  clusters = "c";
  cluster_ids = "";
  origin = "";
  client_ip = "10.0.0.1";
  nanos = nanos;
}

abbrev handler : SseHandler (publisher_over memory) wires
handler = new_sse_handler (publisher_over memory) wires settings (new_publisher memory filled) []

status_of_memory : (id : String) (s : MemoryStore) → IsClean s → get_cluster_status id s ≢ panic
unfolding get_cluster_status
status_of_memory id s h p = elim (Option-cases (Dict.get s.statuses id)) [
  | inl e ↦ cc (rw (e, get_cluster_status) at p)
  | inr (x, e) ↦ cc (rw (e, get_cluster_status) at p)
]

published-IsClean :
    (kind : String) (payload : Payload) (now : Time) (s : MemoryStore)
    → IsClean s
    → IsClean (publish_event kind payload now s).1
unfolding store_step
published-IsClean kind payload now s h = idle-IsClean (Op.publish kind payload now) s tt h

abbrev safe_memory : SafeReads memory
safe_memory = record {
  IsSafe = IsClean;
  data_read = λ id s h. read_of_clean s id h;
  status_read = status_of_memory;
  published = published-IsClean;
}

abbrev client : SseClient
client = record {
  id = "10.0.0.1-7";
  connection = 1;
  cluster_ids = some ("c" ∷ []);
  connected = 7;
  last_ping = 7;
  events = 1;
}

-- Two clients, of whom the second fails at once; then the first leaves, and the handler is closed.
abbrev visits : List Call
visits =
    connects (request 1 "7") 7
    ∷ connects (request 3 "8") 8
    ∷ is_pinged client 9
    ∷ is_served client (context_done ∷ [])
    ∷ ticks 400000000000
    ∷ closes
    ∷ []

abbrev one_client : SseHandler (publisher_over memory) wires
one_client = record handler { clients = Dict.put Dict.empty client.id client }

close_lem_example : close (publisher_over memory) wires one_client ≡ (
    if nat_eq (get_client_count (publisher_over memory) wires one_client) 0
    then ok one_client
    else err deadlock)
close_lem_example = close_lem (publisher_over memory) wires one_client refl

no_lost_subscription_example :
    (h : SseHandler (publisher_over memory) wires) × (run
        (publisher_over memory)
        wires
        visits
        handler
      ≡ ok h)
    × ((publisher_laws memory safe_memory).subscriptions h.publisher
        ≡ values (λ c. c.events) h.clients)
    × IsApart (λ c. c.events) h.clients
unfolding step admit bootstrap send_bootstrap send_event cleanup_client cleanup_each stale_clients
    ping_client handle_client_events parse_cluster_filter trimmed split_comma trim_left trim_right
    is_space subscribe unsubscribe take_subscriber snapshot snapshot_from snapshot_of
    format_sse_event sse_event_name sse_payload run_publisher Dict.get Dict.put Dict.remove
    with_defaults get_cluster_data set_cluster_data clone get_cluster_status close
no_lost_subscription_example =
    no_lost_subscription (publisher_over memory) wires (publisher_laws memory safe_memory) settings
      (new_publisher memory filled) [] visits
      (
        run_publisher-IsWellFormed memory filled [],
        set_data-IsClean "c" (some (data_of "c")) new_memory_store new-IsClean,
      )
      refl (refl, (refl, (tt, (tt, (tt, (refl, tt))))))

first-IsListable : IsListable "a"
unfolding has_comma trim_left trim_right is_space
first-IsListable = record { full = refl; no_comma = refl; tight = refl }

second-IsListable : IsListable "b c"
unfolding has_comma trim_left trim_right is_space
second-IsListable = record { full = refl; no_comma = refl; tight = refl }

parse_cluster_filter-comma_list_example :
    parse_cluster_filter (comma_list "a" ("b c" ∷ [])) "d" ≡ some ("a" ∷ "b c" ∷ [])
parse_cluster_filter-comma_list_example =
    parse_cluster_filter-comma_list "a" ("b c" ∷ []) "d" first-IsListable (second-IsListable, tt)
