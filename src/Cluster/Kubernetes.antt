-- ===== src/Cluster/Kubernetes.antt =====
-- What internal/cluster/query_engine.go reads of the objects of the Kubernetes API. A quantity is the
-- text that its `String` returns, a time the number that the models use, and an integer that is only
-- passed on a JSON number.
use go_kube_ops_view.Prelude.{ℕ, String, Bool, Option, List}
use go_kube_ops_view.Dict.{Entries}
use go_kube_ops_view.Json.{Number}
use go_kube_ops_view.Models.{GoMap, Time}

pub record Address : Type 0 where
  pub kind : String
  pub address : String

pub record Condition : Type 0 where
  pub kind : String
  pub status : String
  pub last_heartbeat_time : Time
  pub last_transition_time : Time
  pub reason : String
  pub message : String

pub record KubeNode : Type 0 where
  pub name : String
  pub labels : GoMap String
  pub annotations : GoMap String
  pub addresses : List Address
  pub conditions : List Condition
  pub capacity : Entries String
  pub allocatable : Entries String

pub record Running : Type 0 where
  pub started_at : Time

pub record Waiting : Type 0 where
  pub reason : String
  pub message : String

pub record Terminated : Type 0 where
  pub exit_code : Number
  pub reason : String
  pub message : String
  pub started_at : Time
  pub finished_at : Time

pub record ContainerStatus : Type 0 where
  pub ready : Bool
  pub restart_count : ℕ
  pub running : Option Running
  pub waiting : Option Waiting
  pub terminated : Option Terminated

pub record KubeContainer : Type 0 where
  pub name : String
  pub image : String
  pub requests : Entries String
  pub limits : Entries String

pub record Owner : Type 0 where
  pub kind : String
  pub name : String

pub record KubePod : Type 0 where
  pub name : String
  pub namespace : String
  pub labels : GoMap String
  pub phase : String
  pub node_name : String
  pub conditions : List Condition
  pub start_time : Option Time
  pub owner_references : List Owner
  pub containers : List KubeContainer
  pub container_statuses : List ContainerStatus

-- `usage` is a map of resources; the zero value of a metrics object has the name "".
pub record NodeMetrics : Type 0 where
  pub name : String
  pub usage : Entries String

pub record ContainerMetrics : Type 0 where
  pub name : String
  pub usage : Entries String

pub record PodMetrics : Type 0 where
  pub namespace : String
  pub name : String
  pub containers : List ContainerMetrics
