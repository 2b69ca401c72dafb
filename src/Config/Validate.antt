-- ===== src/Config/Validate.antt =====
-- `Validate` of internal/config/config.go: the list of all that is wrong. A problem stands for the text
-- that the source puts into its list.
pub mod Reported
use go_kube_ops_view.Prelude.{
  String, Bool, true, false, List, [], ◌∷◌, ◌++◌, ◌==◌, ◌&&◌, ◌||◌, not, ltb, leb, any, length,
  nat_eq, if◌then◌else◌,
}
use Prim.Native.Char.{code}
use go_kube_ops_view.Json.{Number, natural, negative}
use go_kube_ops_view.Config.{Config}

pub data Problem : Type 0 where
  server_port secret_key_empty route_prefix no_cluster_source : Problem
  query_interval connect_timeout read_timeout : Problem
  authorize_url_missing token_url_missing client_id_missing client_secret_missing : Problem
  storage_type redis_url_missing redis_db_negative : Problem
  theme log_level log_format : Problem

-- n < 1 || n > 65535
abbrev pub is_bad_port : Number → Bool
is_bad_port (natural n) = ltb n 1 || ltb 65535 n
is_bad_port (negative n) = true

-- d < time.Second
abbrev pub is_short : Number → Bool
is_short (natural n) = ltb n 1000000000
is_short (negative n) = true

abbrev pub is_negative : Number → Bool
is_negative (natural n) = false
is_negative (negative n) = true

-- strings.HasPrefix(s, "/")
abbrev pub has_slash : String → Bool
has_slash String.[] = false
has_slash (String.◌∷◌ c s) = nat_eq (code c) b'/'

-- errors = append(errors, p), under a condition
abbrev pub add_if : Bool → Problem → List Problem → List Problem
add_if test p errors = if test then errors ++ p ∷ [] else errors

unfoldable pub validate_server : Config → List Problem → List Problem
validate_server c errors =
    add_if (not (c.server.route_prefix == "") && not (has_slash c.server.route_prefix)) route_prefix
      (add_if (c.server.secret_key == "") secret_key_empty
        (add_if (is_bad_port c.server.port) server_port errors))

unfoldable pub validate_clusters : Config → List Problem → List Problem
validate_clusters c errors = add_if (is_short c.clusters.read_timeout) read_timeout (
    add_if (is_short c.clusters.connect_timeout) connect_timeout (
      add_if (is_short c.clusters.query_interval) query_interval (
        add_if
          (nat_eq (length c.clusters.urls) 0
            && c.clusters.registry_url == ""
            && c.clusters.kubeconfig_path == ""
            && not c.clusters.mock)
          no_cluster_source errors)))

unfoldable pub validate_auth : Config → List Problem → List Problem
validate_auth c errors =
    if c.auth.enabled
    then add_if (c.auth.client_secret == "") client_secret_missing (
        add_if (c.auth.client_id == "") client_id_missing (
          add_if (c.auth.token_url == "") token_url_missing
            (add_if (c.auth.authorize_url == "") authorize_url_missing errors)))
    else errors

unfoldable pub validate_storage : Config → List Problem → List Problem
validate_storage c errors = add_if (is_negative c.storage.redis_db) redis_db_negative (
    add_if (c.storage.kind == "redis" && c.storage.redis_url == "") redis_url_missing (
      add_if (not (c.storage.kind == "memory") && not (c.storage.kind == "redis")) storage_type
        errors))

-- The loops that look for a value in a list of the valid ones.
abbrev pub is_one_of : List String → String → Bool
is_one_of l s = any (λ t. s == t) l

unfoldable pub validate_ui_and_logging : Config → List Problem → List Problem
validate_ui_and_logging c errors =
    add_if (not (is_one_of ("json" ∷ "text" ∷ []) c.logging.format)) log_format (
      add_if (not (is_one_of ("debug" ∷ "info" ∷ "warn" ∷ "error" ∷ []) c.logging.level)) log_level
        (add_if (not (is_one_of ("default" ∷ "dark" ∷ "light" ∷ "colorblind" ∷ []) c.ui.theme))
          theme errors))

-- No error if the list is empty.
unfoldable pub validate : Config → List Problem
validate c =
    validate_ui_and_logging c
      (validate_storage c (validate_auth c (validate_clusters c (validate_server c []))))
