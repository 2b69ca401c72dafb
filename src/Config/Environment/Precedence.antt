-- ===== src/Config/Environment/Precedence.antt =====
-- The environment over what was loaded before (`LoadFromEnv` of internal/config/config.go).
use go_kube_ops_view.Prelude.{
  String, ◌≡◌, refl, subst, Bool, true, false, Option, Result, ok, err, panic, ◌>>=◌, ◌==◌,
  if◌then◌else◌, Bool-cases, inl, inr,
}
use go_kube_ops_view.Json.{Number}
use go_kube_ops_view.Config.{
  Config, ServerConfig, ClusterConfig, AuthConfig, StorageConfig, UiConfig, LoggingConfig,
}
use go_kube_ops_view.Config.Texts.{atoi}
use go_kube_ops_view.Config.Environment.{
  Environment, parsed_or, load_server, load_clusters, load_auth, load_storage, load_ui,
  load_logging, load_from_env,
}

bind_inv {ℓ} :
    {E A B : Type ℓ} (r : Result E A) (f : A → Result E B) {b : B}
    → (r >>= f) ≡ ok b
    → (a : A) × (r ≡ ok a) × (f a ≡ ok b)
bind_inv (ok a) f h = (a, refl, h)
bind_inv (err e) f h = cc
bind_inv panic f h = cc

module _ (env : Environment) where
  if_twice {ℓ} :
      {A : Type ℓ} (t : Bool) (a v : A)
      → (if t then (if t then a else v) else v) ≡ (if t then a else v)
  if_twice true a v = refl
  if_twice false a v = refl

  parsed_twice :
      (parse : String → Option Number) (name : String) (old : Number) {n : Number}
      → parsed_or env parse name old ≡ ok n
      → parsed_or env parse name n ≡ ok n
  parsed_twice parse name old {n} h = elim (Bool-cases (env.getenv name == "")) [
    | inl e ↦ rw e refl
    | inr e ↦ rw e (rw e at h)
  ]

  ok_inj {ℓ} : {E A : Type ℓ} {a b : A} → ◌≡◌ {A = Result E A} (ok a) (ok b) → a ≡ b
  ok_inj h = cc

  server_twice :
      (c : ServerConfig) {d : ServerConfig} → load_server env c ≡ ok d → load_server env d ≡ ok d
  unfolding load_server
  server_twice c {d} h =
      let (port, p, e) = bind_inv (parsed_or env atoi "SERVER_PORT" c.port) _ h in
      subst (λ (x : ServerConfig). load_server env x ≡ ok x) (ok_inj e)
        (rw (parsed_twice atoi "SERVER_PORT" c.port p) (simp if_twice))

  clusters_twice :
      (c : ClusterConfig) {d : ClusterConfig}
      → load_clusters env c ≡ ok d
      → load_clusters env d ≡ ok d
  unfolding load_clusters
  clusters_twice c {d} h =
      let (i, p, h') =
        bind_inv (parsed_or env env.parse_duration "QUERY_INTERVAL" c.query_interval) _ h in
      let (j, q, h'') =
        bind_inv (parsed_or env env.parse_duration "CONNECT_TIMEOUT" c.connect_timeout) _ h' in
      let (k, r, e) =
        bind_inv (parsed_or env env.parse_duration "READ_TIMEOUT" c.read_timeout) _ h'' in
      subst (λ (x : ClusterConfig). load_clusters env x ≡ ok x) (ok_inj e)
        (rw
          (
            parsed_twice env.parse_duration "QUERY_INTERVAL" c.query_interval p,
            parsed_twice env.parse_duration "CONNECT_TIMEOUT" c.connect_timeout q,
            parsed_twice env.parse_duration "READ_TIMEOUT" c.read_timeout r,
          )
          (simp if_twice))

  storage_twice :
      (c : StorageConfig) {d : StorageConfig}
      → load_storage env c ≡ ok d
      → load_storage env d ≡ ok d
  unfolding load_storage
  storage_twice c {d} h =
      let (db, p, e) = bind_inv (parsed_or env atoi "REDIS_DB" c.redis_db) _ h in
      subst (λ (x : StorageConfig). load_storage env x ≡ ok x) (ok_inj e)
        (rw (parsed_twice atoi "REDIS_DB" c.redis_db p) (simp if_twice))

  auth_twice : (c : AuthConfig) → load_auth env (load_auth env c) ≡ load_auth env c
  unfolding load_auth
  auth_twice c = simp if_twice

  ui_twice : (c : UiConfig) → load_ui env (load_ui env c) ≡ load_ui env c
  unfolding load_ui
  ui_twice c = simp if_twice

  logging_twice : (c : LoggingConfig) → load_logging env (load_logging env c) ≡ load_logging env c
  unfolding load_logging
  logging_twice c = simp if_twice

  -- Loading the environment over what it gave changes nothing.
  pub load_from_env_idem :
      (c : Config) {d : Config} → load_from_env env c ≡ ok d → load_from_env env d ≡ ok d
  unfolding load_from_env
  load_from_env_idem c {d} h =
      let (s, p, h') = bind_inv (load_server env c.server) _ h in
      let (k, q, h'') = bind_inv (load_clusters env c.clusters) _ h' in
      let (t, r, e) = bind_inv (load_storage env c.storage) _ h'' in
      subst (λ (x : Config). load_from_env env x ≡ ok x) (ok_inj e)
        (rw (server_twice c.server p, clusters_twice c.clusters q, storage_twice c.storage r)
          (simp (auth_twice, ui_twice, logging_twice)))

  -- With no variable set nothing changes.
  pub load_from_env_unset :
      (c : Config) → ((name : String) → (env.getenv name == "") ≡ true) → load_from_env env c ≡ ok c
  unfolding load_from_env load_server load_clusters load_storage load_auth load_ui load_logging
  load_from_env_unset c unset = simp unset
