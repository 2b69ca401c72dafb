-- ===== src/Cluster.antt =====
-- internal/cluster: the clusters that are watched.
pub mod Kubernetes
pub mod QueryEngine
pub mod Manager
pub mod Discovery
use go_kube_ops_view.Prelude.{ℕ, String, Bool}
use go_kube_ops_view.Models.{Time}

pub record ClusterConfig : Type 0 where
  pub id : String
  pub api_server : String
  pub kubeconfig_path : String
  pub context : String
  pub token : String
  pub cert_file : String
  pub key_file : String
  pub ca_file : String
  pub insecure : Bool

pub record ClusterStatus : Type 0 where
  pub id : String
  pub available : Bool
  pub last_seen : Time
  pub error : String
  pub version : String
  pub node_count : ℕ
