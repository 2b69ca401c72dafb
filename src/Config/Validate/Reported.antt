-- ===== src/Config/Validate/Reported.antt =====
-- What `Validate` of internal/config/config.go reports.
use go_kube_ops_view.Prelude.{
  ℕ, ◌+◌, ◌≡◌, Bool, true, false, List, [], ◌∷◌, ◌++◌, ◌==◌, ◌&&◌, not, nat_eq, if◌then◌else◌,
  length, arith, Bool-cases, inl, inr,
}
use go_kube_ops_view.Config.{Config}
use go_kube_ops_view.Config.Validate.{
  Problem, server_port, secret_key_empty, route_prefix, no_cluster_source, query_interval,
  connect_timeout, read_timeout, authorize_url_missing, token_url_missing, client_id_missing,
  client_secret_missing, storage_type, redis_url_missing, redis_db_negative, theme, log_level,
  log_format, is_bad_port, is_short, is_negative, has_slash, add_if, is_one_of, validate_server,
  validate_clusters, validate_auth, validate_storage, validate_ui_and_logging, validate,
}

abbrev code : Problem → ℕ
code server_port = 0
code secret_key_empty = 1
code route_prefix = 2
code no_cluster_source = 3
code query_interval = 4
code connect_timeout = 5
code read_timeout = 6
code authorize_url_missing = 7
code token_url_missing = 8
code client_id_missing = 9
code client_secret_missing = 10
code storage_type = 11
code redis_url_missing = 12
code redis_db_negative = 13
code theme = 14
code log_level = 15
code log_format = 16

abbrev pub same : Problem → Problem → Bool
same a b = nat_eq (code a) (code b)

-- How often a problem is in the list.
abbrev pub count : Problem → List Problem → ℕ
count p [] = 0
count p (r ∷ l) = (if same r p then 1 else 0) + count p l

-- What is wrong with a configuration, by the problem.
abbrev pub violates : Config → Problem → Bool
violates c server_port = is_bad_port c.server.port
violates c secret_key_empty = c.server.secret_key == ""
violates c route_prefix = not (c.server.route_prefix == "") && not (has_slash c.server.route_prefix)
violates c no_cluster_source =
    nat_eq (length c.clusters.urls) 0
    && c.clusters.registry_url == ""
    && c.clusters.kubeconfig_path == ""
    && not c.clusters.mock
violates c query_interval = is_short c.clusters.query_interval
violates c connect_timeout = is_short c.clusters.connect_timeout
violates c read_timeout = is_short c.clusters.read_timeout
violates c authorize_url_missing = c.auth.enabled && c.auth.authorize_url == ""
violates c token_url_missing = c.auth.enabled && c.auth.token_url == ""
violates c client_id_missing = c.auth.enabled && c.auth.client_id == ""
violates c client_secret_missing = c.auth.enabled && c.auth.client_secret == ""
violates c storage_type = not (c.storage.kind == "memory") && not (c.storage.kind == "redis")
violates c redis_url_missing = c.storage.kind == "redis" && c.storage.redis_url == ""
violates c redis_db_negative = is_negative c.storage.redis_db
violates c theme = not (is_one_of ("default" ∷ "dark" ∷ "light" ∷ "colorblind" ∷ []) c.ui.theme)
violates c log_level = not (is_one_of ("debug" ∷ "info" ∷ "warn" ∷ "error" ∷ []) c.logging.level)
violates c log_format = not (is_one_of ("json" ∷ "text" ∷ []) c.logging.format)

abbrev pub once_if : Bool → ℕ
once_if t = if t then 1 else 0

count-append :
    (p r : Problem) (l : List Problem) → count p (l ++ r ∷ []) ≡ count p l + once_if (same r p)
count-append p r [] = omega arith
count-append p r (x ∷ l) = omega (arith, count-append p r l)

count-add_if :
    (p r : Problem) (t : Bool) (l : List Problem)
    → count p (add_if t r l) ≡ count p l + once_if (same r p && t)
count-add_if p r true l = ground (arith, count-append p r l)
count-add_if p r false l = ground arith

module _ (c : Config) (p : Problem) where
  -- What one of the tests adds for a problem.
  abbrev adds : Problem → ℕ
  adds r = once_if (same r p && violates c r)

  server_adds :
      (l : List Problem)
      → count p (validate_server c l)
        ≡ count p l + adds server_port + adds secret_key_empty + adds route_prefix
  unfolding validate_server
  server_adds l = omega (arith, count-add_if p)

  clusters_add :
      (l : List Problem)
      → count p (validate_clusters c l)
        ≡ count p l
          + adds no_cluster_source
          + adds query_interval
          + adds connect_timeout
          + adds read_timeout
  unfolding validate_clusters
  clusters_add l = omega (arith, count-add_if p)

  auth_add :
      (l : List Problem)
      → count p (validate_auth c l)
        ≡ count p l
          + adds authorize_url_missing
          + adds token_url_missing
          + adds client_id_missing
          + adds client_secret_missing
  unfolding validate_auth
  auth_add l = elim (Bool-cases c.auth.enabled) [
    | inl e ↦ simp e (omega (arith, count-add_if p))
    | inr e ↦ simp e (ground arith)
  ]

  storage_adds :
      (l : List Problem)
      → count p (validate_storage c l)
        ≡ count p l + adds storage_type + adds redis_url_missing + adds redis_db_negative
  unfolding validate_storage
  storage_adds l = omega (arith, count-add_if p)

  rest_adds :
      (l : List Problem)
      → count p (validate_ui_and_logging c l)
        ≡ count p l + adds theme + adds log_level + adds log_format
  unfolding validate_ui_and_logging
  rest_adds l = omega (arith, count-add_if p)

  all_add :
      count p (validate c)
      ≡ adds server_port
        + adds secret_key_empty
        + adds route_prefix
        + adds no_cluster_source
        + adds query_interval
        + adds connect_timeout
        + adds read_timeout
        + adds authorize_url_missing
        + adds token_url_missing
        + adds client_id_missing
        + adds client_secret_missing
        + adds storage_type
        + adds redis_url_missing
        + adds redis_db_negative
        + adds theme
        + adds log_level
        + adds log_format
  unfolding validate
  all_add = omega (
    arith,
    server_adds [],
    clusters_add (validate_server c []),
    auth_add (validate_clusters c (validate_server c [])),
    storage_adds (validate_auth c (validate_clusters c (validate_server c []))),
    rest_adds (validate_storage c (validate_auth c (validate_clusters c (validate_server c [])))),
  )

-- `Validate` reports each thing that is wrong with a configuration exactly once, and nothing else:
-- one problem hides no other.
pub validate_reports : (c : Config) (p : Problem) → count p (validate c) ≡ once_if (violates c p)
validate_reports c server_port = omega (arith, all_add c server_port)
validate_reports c secret_key_empty = omega (arith, all_add c secret_key_empty)
validate_reports c route_prefix = omega (arith, all_add c route_prefix)
validate_reports c no_cluster_source = omega (arith, all_add c no_cluster_source)
validate_reports c query_interval = omega (arith, all_add c query_interval)
validate_reports c connect_timeout = omega (arith, all_add c connect_timeout)
validate_reports c read_timeout = omega (arith, all_add c read_timeout)
validate_reports c authorize_url_missing = omega (arith, all_add c authorize_url_missing)
validate_reports c token_url_missing = omega (arith, all_add c token_url_missing)
validate_reports c client_id_missing = omega (arith, all_add c client_id_missing)
validate_reports c client_secret_missing = omega (arith, all_add c client_secret_missing)
validate_reports c storage_type = omega (arith, all_add c storage_type)
validate_reports c redis_url_missing = omega (arith, all_add c redis_url_missing)
validate_reports c redis_db_negative = omega (arith, all_add c redis_db_negative)
validate_reports c theme = omega (arith, all_add c theme)
validate_reports c log_level = omega (arith, all_add c log_level)
validate_reports c log_format = omega (arith, all_add c log_format)
