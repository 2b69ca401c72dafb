-- ===== src/Config/Environment.antt =====
-- `LoadFromEnv` of internal/config/config.go. Each section of the configuration is loaded as one, in the
-- source's order; on an error the caller drops what was loaded before.
pub mod Precedence
use go_kube_ops_view.Prelude.{
  String, Bool, Option, none, some, List, [], ◌∷◌, map, Result, ok, err, panic, ◌>>=◌, ◌==◌,
  if◌then◌else◌,
}
use go_kube_ops_view.Json.{Number}
use go_kube_ops_view.Config.{
  Config, ServerConfig, ClusterConfig, AuthConfig, StorageConfig, UiConfig, LoggingConfig,
}
use go_kube_ops_view.Config.Texts.{is_true, trim_space, split_comma, atoi}

-- os.Getenv, and time.ParseDuration with `none` for its error.
pub record Environment : Type 0 where
  pub getenv : String → String
  pub parse_duration : String → Option Number

module _ (env : Environment) where
  -- A variable that is not empty, or the old value.
  abbrev pub text_or : String → String → String
  text_or name old = if env.getenv name == "" then old else env.getenv name

  abbrev pub bool_or : String → Bool → Bool
  bool_or name old = if env.getenv name == "" then old else is_true (env.getenv name)

  abbrev pub list_or : String → List String → List String
  list_or name old =
      if env.getenv name == "" then old else map trim_space (split_comma (env.getenv name))

  -- The error names the variable.
  abbrev pub parsed_or : (String → Option Number) → String → Number → Result String Number
  parsed_or parse name old =
      if env.getenv name == ""
      then ok old
      else elim (parse (env.getenv name)) [ none ↦ err name | some n ↦ ok n ]

  unfoldable pub load_server : ServerConfig → Result String ServerConfig
  load_server c = do
    port ← parsed_or atoi "SERVER_PORT" c.port
    ok (record {
      port = port;
      host = text_or "HOST" c.host;
      route_prefix = text_or "ROUTE_PREFIX" c.route_prefix;
      debug = bool_or "DEBUG" c.debug;
      secret_key = text_or "SECRET_KEY" c.secret_key;
    })

  unfoldable pub load_clusters : ClusterConfig → Result String ClusterConfig
  load_clusters c = do
    query_interval ← parsed_or env.parse_duration "QUERY_INTERVAL" c.query_interval
    connect_timeout ← parsed_or env.parse_duration "CONNECT_TIMEOUT" c.connect_timeout
    read_timeout ← parsed_or env.parse_duration "READ_TIMEOUT" c.read_timeout
    ok (record {
      urls = list_or "CLUSTERS" c.urls;
      registry_url = text_or "CLUSTER_REGISTRY_URL" c.registry_url;
      kubeconfig_path = text_or "KUBECONFIG_PATH" c.kubeconfig_path;
      contexts = list_or "KUBECONFIG_CONTEXTS" c.contexts;
      query_interval = query_interval;
      connect_timeout = connect_timeout;
      read_timeout = read_timeout;
      mock = bool_or "MOCK" c.mock;
    })

  unfoldable pub load_auth : AuthConfig → AuthConfig
  load_auth c = record {
    enabled = bool_or "OAUTH2_ENABLED" c.enabled;
    authorize_url = text_or "OAUTH2_AUTHORIZE_URL" c.authorize_url;
    token_url = text_or "OAUTH2_TOKEN_URL" c.token_url;
    client_id = text_or "OAUTH2_CLIENT_ID" c.client_id;
    client_secret = text_or "OAUTH2_CLIENT_SECRET" c.client_secret;
    scope = text_or "OAUTH2_SCOPE" c.scope;
    credentials_dir = text_or "CREDENTIALS_DIR" c.credentials_dir;
    screen_tokens = bool_or "SCREEN_TOKENS" c.screen_tokens;
  }

  unfoldable pub load_storage : StorageConfig → Result String StorageConfig
  load_storage c = do
    redis_db ← parsed_or atoi "REDIS_DB" c.redis_db
    ok (record {
      kind = text_or "STORAGE_TYPE" c.kind;
      redis_url = text_or "REDIS_URL" c.redis_url;
      redis_db = redis_db;
    })

  unfoldable pub load_ui : UiConfig → UiConfig
  load_ui c = record {
    url_template = text_or "URL_TEMPLATE" c.url_template;
    node_link_url = text_or "NODE_LINK_URL_TEMPLATE" c.node_link_url;
    pod_link_url = text_or "POD_LINK_URL_TEMPLATE" c.pod_link_url;
    theme = text_or "THEME" c.theme;
    show_capacity = bool_or "SHOW_CAPACITY" c.show_capacity;
    show_requests = bool_or "SHOW_REQUESTS" c.show_requests;
    show_limits = bool_or "SHOW_LIMITS" c.show_limits;
    show_usage = bool_or "SHOW_USAGE" c.show_usage;
  }

  unfoldable pub load_logging : LoggingConfig → LoggingConfig
  load_logging c = record {
    level = text_or "LOG_LEVEL" c.level;
    format = text_or "LOG_FORMAT" c.format;
    output = text_or "LOG_OUTPUT" c.output;
    add_source = bool_or "LOG_ADD_SOURCE" c.add_source;
    time_format = text_or "LOG_TIME_FORMAT" c.time_format;
  }

  unfoldable pub load_from_env : Config → Result String Config
  load_from_env c = do
    server ← load_server c.server
    clusters ← load_clusters c.clusters
    storage ← load_storage c.storage
    ok (record {
      server = server;
      clusters = clusters;
      auth = load_auth c.auth;
      storage = storage;
      ui = load_ui c.ui;
      logging = load_logging c.logging;
    })
