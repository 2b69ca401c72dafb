-- ===== src/Store.antt =====
-- internal/store/types.go: what the stores hold, and their errors.
pub mod Contract
pub mod Memory
pub mod Redis
use go_kube_ops_view.Prelude.{String, Bool, Option}
use go_kube_ops_view.Json.{Json}
use go_kube_ops_view.Models.{Time, ClusterData}

pub record ClusterStatus : Type 0 where
  pub id : String
  pub available : Bool
  pub last_seen : Time
  pub error_message : String
  pub api_server_url : String

-- The `interface{}` of an event, by the types that the program puts there. A pointer may be nil.
pub data Payload : Type 0 where
  cluster : Option ClusterData → Payload
  status : Option ClusterStatus → Payload
  deleted : String → Payload
  value : Json → Payload

pub record Event : Type 0 where
  pub kind : String
  pub payload : Payload
  pub timestamp : Time
  pub cluster_id : String

pub record ScreenToken : Type 0 where
  pub token : String
  pub created_at : Time
  pub expires_at : Time
  pub used_at : Option Time
  pub remote_addr : String

abbrev pub event_type_cluster_update : String
event_type_cluster_update = "cluster_update"

abbrev pub event_type_cluster_delta : String
event_type_cluster_delta = "cluster_delta"

abbrev pub event_type_cluster_status : String
event_type_cluster_status = "cluster_status"

abbrev pub event_type_cluster_delete : String
event_type_cluster_delete = "cluster_delete"

-- The `StoreError`s, then the errors that `fmt.Errorf` makes in internal/store/memory.go.
pub data StoreError : Type 0 where
  cluster_not_found token_not_found token_expired token_already_used : StoreError
  invalid_token connection_failed operation_failed : StoreError
  cluster_data_nil cluster_status_nil subscription_not_found token_generation_failed : StoreError
