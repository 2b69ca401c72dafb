-- ===== src/Events.antt =====
-- internal/events: the publisher of cluster events, over any store, and the clients of its stream.
pub mod Format
pub mod Publisher
pub mod Sse
use go_kube_ops_view.Prelude.{String, List, Result}
use go_kube_ops_view.Models.{Time, ClusterData}
use go_kube_ops_view.Store.{ClusterStatus, Payload, StoreError}

-- The calls that the publisher makes of the `Store` interface of internal/store/types.go.
pub record StoreApi : Type 1 where
  pub State : Type 0
  pub get_cluster_ids : State → List String
  pub get_cluster_data : String → State → Result StoreError ClusterData
  pub get_cluster_status : String → State → Result StoreError ClusterStatus
  pub publish_event : String → Payload → Time → State → Result StoreError (Unit {0}) × State
