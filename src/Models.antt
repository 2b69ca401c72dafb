-- ===== src/Models.antt =====
-- internal/models/types.go: the data of a cluster. A map that may be nil is an `Option` of a map,
-- a pointer is an `Option`, a time is a number of nanoseconds, and an `interface{}` that came from
-- JSON is a `Json`.

pub mod Validate
pub mod Clone
pub mod Pods
pub mod Totals
use go_kube_ops_view.Prelude.{ℕ, String, Bool, Option, none, some, List, []}
use go_kube_ops_view.Dict.{Dict, Entries}
use go_kube_ops_view.Json.{Json}

-- A map of the program, nil or not.
abbrev pub GoMap {ℓ} : Type ℓ → Type ℓ
GoMap V = Option (Dict V)

-- What a `range` loop runs through: nothing if the map is nil.
abbrev pub range {ℓ} : {V : Type ℓ} → GoMap V → Entries V
range none = []
range (some d) = d.entries

abbrev pub Time : Type 0
Time = ℕ

abbrev pub ResourceList : Type 0
ResourceList = GoMap String

pub record ResourceUsage : Type 0 where
  pub cpu : String
  pub memory : String

pub record ContainerResources : Type 0 where
  pub requests : ResourceList
  pub limits : ResourceList

pub record Container : Type 0 where
  pub name : String
  pub image : String
  pub resources : ContainerResources
  pub ready : Bool
  pub state : GoMap Json
  pub restart_count : ℕ
  pub usage : Option ResourceUsage

pub record Pod : Type 0 where
  pub name : String
  pub namespace : String
  pub labels : GoMap String
  pub phase : String
  pub start_time : Option Time
  pub containers : List Container
  pub deleted : Option Time
  pub node_name : String
  pub owner_kind : String
  pub owner_name : String
  pub ready : Bool
  pub usage : Option ResourceUsage

pub record NodeAddress : Type 0 where
  pub kind : String
  pub address : String

pub record NodeCondition : Type 0 where
  pub kind : String
  pub status : String
  pub last_heartbeat_time : Time
  pub last_transition_time : Time
  pub reason : String
  pub message : String

pub record NodeStatus : Type 0 where
  pub addresses : List NodeAddress
  pub capacity : GoMap String
  pub allocatable : GoMap String
  pub conditions : List NodeCondition
  pub ready : Bool

pub record Node : Type 0 where
  pub name : String
  pub labels : GoMap String
  pub annotations : GoMap String
  pub status : NodeStatus
  pub pods : GoMap (Option Pod)
  pub usage : Option ResourceUsage
  pub capacity : ResourceList
  pub allocatable : ResourceList

pub record ClusterData : Type 0 where
  pub id : String
  pub api_server_url : String
  pub nodes : GoMap (Option Node)
  pub unassigned_pods : GoMap (Option Pod)
  pub last_update : Time
