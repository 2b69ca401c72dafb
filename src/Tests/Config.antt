-- ===== src/Tests/Config.antt =====
-- Configurations from small environments.
use go_kube_ops_view.Prelude.{◌≡◌, refl, false, none, some, [], ◌∷◌, ok, ◌==◌, if◌then◌else◌}
use go_kube_ops_view.Json.{natural, negative}
use go_kube_ops_view.Config.{Config, defaults}
use go_kube_ops_view.Config.Texts.{atoi, trim_left, trim_right, trim_space, split_comma, is_true}
use go_kube_ops_view.Config.Environment.{
  Environment, load_from_env, load_server, load_clusters, load_storage, load_auth, load_ui,
  load_logging,
}
use go_kube_ops_view.Config.Validate.{
  no_cluster_source, validate, validate_server, validate_clusters, validate_auth, validate_storage,
  validate_ui_and_logging,
}
use go_kube_ops_view.Config.Validate.Reported.{count, violates, once_if, validate_reports}

abbrev small : Environment
small = record {
  getenv = λ n.
      if n == "SERVER_PORT"
      then "9090"
      else if n == "MOCK"
      then "False"
      else if n == "CLUSTERS"
      then ""
      else "";
  parse_duration = λ s. none;
}

abbrev loaded : Config
loaded = record defaults {
  server = record defaults.server { port = natural 9090 };
  clusters = record defaults.clusters { mock = false };
}

small-loaded : load_from_env small defaults ≡ ok loaded
unfolding load_from_env load_server load_clusters load_storage load_auth load_ui load_logging atoi
    is_true
small-loaded = refl

validate_reports_example :
    count no_cluster_source (validate loaded) ≡ once_if (violates loaded no_cluster_source)
validate_reports_example = validate_reports loaded no_cluster_source

no_source : validate loaded ≡ no_cluster_source ∷ []
unfolding validate validate_server validate_clusters validate_auth validate_storage
    validate_ui_and_logging
no_source = refl

list_of_two : split_comma "a, b" ≡ "a" ∷ " b" ∷ []
unfolding split_comma
list_of_two = refl

trimmed : trim_space "  b " ≡ "b"
unfolding trim_left trim_right
trimmed = refl

below_zero : atoi "-12" ≡ some (negative 11)
unfolding atoi
below_zero = refl

no_number : atoi "1x" ≡ none
unfolding atoi
no_number = refl
