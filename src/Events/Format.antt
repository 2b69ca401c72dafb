-- ===== src/Events/Format.antt =====
-- `FormatSSEEvent` of internal/events/publisher.go and what it calls.
use Prim.Native.String.{◌++◌ as text_append}
use go_kube_ops_view.Prelude.{String, Option, none, some, ◌==◌, if◌then◌else◌}
use go_kube_ops_view.Store.{
  Event, Payload, status, event_type_cluster_update, event_type_cluster_delta,
  event_type_cluster_status, event_type_cluster_delete,
}

unfoldable pub sse_event_name : String → String
sse_event_name kind =
    if kind == event_type_cluster_update
    then "clusterupdate"
    else if kind == event_type_cluster_delta
    then "clusterdelta"
    else if kind == event_type_cluster_status
    then "clusterstatus"
    else if kind == event_type_cluster_delete
    then "clusterdelete"
    else if kind == "bootstrap_end"
    then "bootstrapend"
    else kind

-- What is sent: the event's data, or for a status the ID and the data side by side.
pub data SsePayload : Type 0 where
  plain : Payload → SsePayload
  with_cluster : String → Payload → SsePayload

-- `ok && clusterID == ""`; a nil status pointer would panic and is not sent by the program.
status_cluster_id : String → Payload → String
status_cluster_id id (status (some s)) = if id == "" then s.id else id
status_cluster_id id _ = id

unfoldable pub sse_payload : Event → SsePayload
unfolding status_cluster_id
sse_payload e =
    if e.kind == event_type_cluster_status
    then with_cluster (status_cluster_id e.cluster_id e.payload) e.payload
    else plain e.payload

-- `FormatSSEEvent`, over what `json.Marshal` gives of the payload; `none` is its error.
unfoldable pub format_sse_event : (SsePayload → Option String) → Event → Option String
format_sse_event marshal e = elim (marshal (sse_payload e)) [
  | none ↦ none
  | some text ↦ some (
      text_append "event: "
        (text_append (sse_event_name e.kind) (text_append "\ndata: " (text_append text "\n\n"))))
]
