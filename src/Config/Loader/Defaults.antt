-- ===== src/Config/Loader/Defaults.antt =====
-- What `LoadDefault` of internal/config/loader.go gives.
use go_kube_ops_view.Prelude.{String, ◌≡◌, refl, true, false, List, [], ◌∷◌, ok, ◌==◌, All}
use go_kube_ops_view.Config.{Config, defaults}
use go_kube_ops_view.Config.Environment.{Environment}
use go_kube_ops_view.Config.Environment.Precedence.{load_from_env_unset}
use go_kube_ops_view.Config.Validate.{
  validate, validate_server, validate_clusters, validate_auth, validate_storage,
  validate_ui_and_logging,
}
use go_kube_ops_view.Config.Loader.{
  Files, default_locations, load_first, load_file, load, load_default,
}

load_first_of_none :
    (files : Files) (ls : List String) (c : Config)
    → All (λ l. files.stat_succeeds l ≡ false) ls
    → load_first files ls c ≡ ok c
unfolding load_first
load_first_of_none files [] c h = refl
load_first_of_none files (l ∷ ls) c h = rw h.0 (load_first_of_none files ls c h.1)

defaults_valid : validate defaults ≡ []
unfolding validate validate_server validate_clusters validate_auth validate_storage
    validate_ui_and_logging
defaults_valid = refl

-- Without a file at any of the default locations and without a variable that is set, `LoadDefault`
-- gives the defaults: they are valid.
pub load_default_lem :
    (files : Files) (env : Environment)
    → All (λ l. files.stat_succeeds l ≡ false) (default_locations files)
    → ((name : String) → (env.getenv name == "") ≡ true)
    → load_default files env ≡ ok defaults
unfolding load load_file
load_default_lem files env no_file unset =
    rw (load_first_of_none files (default_locations files) defaults no_file)
      (rw (load_from_env_unset env defaults unset) (rw defaults_valid refl))
