-- ===== src/Config.antt =====
-- internal/config/config.go: the configuration and its defaults. An int and a duration are integers.
pub mod Texts
pub mod Environment
pub mod Validate
pub mod Loader
use go_kube_ops_view.Prelude.{String, Bool, true, false, List, []}
use go_kube_ops_view.Json.{Number, natural}

pub record ServerConfig : Type 0 where
  pub port : Number
  pub host : String
  pub route_prefix : String
  pub debug : Bool
  pub secret_key : String

pub record ClusterConfig : Type 0 where
  pub urls : List String
  pub registry_url : String
  pub kubeconfig_path : String
  pub contexts : List String
  pub query_interval : Number
  pub connect_timeout : Number
  pub read_timeout : Number
  pub mock : Bool

pub record AuthConfig : Type 0 where
  pub enabled : Bool
  pub authorize_url : String
  pub token_url : String
  pub client_id : String
  pub client_secret : String
  pub scope : String
  pub credentials_dir : String
  pub screen_tokens : Bool

pub record StorageConfig : Type 0 where
  pub kind : String
  pub redis_url : String
  pub redis_db : Number

pub record UiConfig : Type 0 where
  pub url_template : String
  pub node_link_url : String
  pub pod_link_url : String
  pub theme : String
  pub show_capacity : Bool
  pub show_requests : Bool
  pub show_limits : Bool
  pub show_usage : Bool

pub record LoggingConfig : Type 0 where
  pub level : String
  pub format : String
  pub output : String
  pub add_source : Bool
  pub time_format : String

pub record Config : Type 0 where
  pub server : ServerConfig
  pub clusters : ClusterConfig
  pub auth : AuthConfig
  pub storage : StorageConfig
  pub ui : UiConfig
  pub logging : LoggingConfig

-- `New`: what it does not set is the zero value.
abbrev pub defaults : Config
defaults = record {
  server = record {
    port = natural 8080;
    host = "0.0.0.0";
    route_prefix = "/";
    debug = false;
    secret_key = "development";
  };
  clusters = record {
    urls = [];
    registry_url = "";
    kubeconfig_path = "";
    contexts = [];
    query_interval = natural 5000000000;
    connect_timeout = natural 10000000000;
    read_timeout = natural 10000000000;
    mock = true;
  };
  auth = record {
    enabled = false;
    authorize_url = "";
    token_url = "";
    client_id = "";
    client_secret = "";
    scope = "openid";
    credentials_dir = "";
    screen_tokens = false;
  };
  storage = record { kind = "memory"; redis_url = ""; redis_db = natural 0 };
  ui = record {
    url_template = "";
    node_link_url = "";
    pod_link_url = "";
    theme = "default";
    show_capacity = true;
    show_requests = true;
    show_limits = true;
    show_usage = true;
  };
  logging = record {
    level = "info";
    format = "json";
    output = "stdout";
    add_source = false;
    time_format = "rfc3339";
  };
}
