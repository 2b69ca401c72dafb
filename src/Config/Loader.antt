-- ===== src/Config/Loader.antt =====
-- internal/config/loader.go, and where internal/config/file.go looks for a file. Reading a YAML file over
-- a configuration, the files that there are and the home directory are arguments.
pub mod Defaults
use go_kube_ops_view.Prelude.{
  String, Bool, true, false, Option, none, some, List, [], ◌∷◌, ◌++◌, map, Result, ok, err, panic,
  ◌>>=◌, ◌==◌, not, if◌then◌else◌, length, nat_eq,
}
use go_kube_ops_view.Json.{natural}
use go_kube_ops_view.Config.{Config, defaults}
use go_kube_ops_view.Config.Environment.{Environment, load_from_env}
use go_kube_ops_view.Config.Validate.{Problem, validate}

pub record LoadOptions : Type 0 where
  pub config_file : String
  pub skip_env : Bool
  pub skip_default_file : Bool
  pub validate : Bool

pub record Files : Type 0 where
  pub read_yaml : String → Config → Result String Config
  -- os.Stat, and os.IsNotExist of its error
  pub stat_succeeds : String → Bool
  pub is_missing : String → Bool
  -- os.UserHomeDir, with filepath.Join of a path to it
  pub in_home_dir : Option (String → String)

pub data LoadError : Type 0 where
  file_failed env_failed : String → LoadError
  invalid : List Problem → LoadError

module _ (files : Files) where
  abbrev pub load_from_file : String → Config → Result String Config
  load_from_file name c =
      if name == ""
      then ok c
      else if files.is_missing name
      then err name
      else files.read_yaml name c

  abbrev pub default_locations : List String
  default_locations =
      "./config.yaml"
      ∷ "./config.yml"
      ∷ "./kube-ops-view.yaml"
      ∷ "./kube-ops-view.yml"
      ∷ "/etc/kube-ops-view/config.yaml"
      ∷ "/etc/kube-ops-view/config.yml"
      ∷ elim files.in_home_dir [
        | none ↦ []
        | some join ↦ map join (
            ".kube-ops-view.yaml" ∷ ".kube-ops-view.yml" ∷ ".config/kube-ops-view/config.yaml"
            ∷ ".config/kube-ops-view/config.yml" ∷ [])
      ]

  -- The loop of `LoadFromDefaultLocations`: the first location that is there.
  unfoldable pub load_first : List String → Config → Result String Config
  load_first [] c = ok c
  load_first (l ∷ ls) c =
      let rest = load_first ls c in if files.stat_succeeds l then load_from_file l c else rest

  abbrev pub load_from_default_locations : Config → Result String Config
  load_from_default_locations = load_first default_locations

  -- fmt.Errorf around an error
  abbrev pub or_error : (String → LoadError) → Result String Config → Result LoadError Config
  or_error wrap r = elim r [ ok c ↦ ok c | err e ↦ err (wrap e) | panic ↦ panic ]

  unfoldable pub load_file : LoadOptions → Config → Result LoadError Config
  load_file opts c =
      if opts.skip_default_file
      then ok c
      else or_error file_failed (
          if opts.config_file == ""
          then load_from_default_locations c
          else load_from_file opts.config_file c)

  abbrev pub check_valid : LoadOptions → Config → Result LoadError Config
  check_valid opts c =
      if opts.validate
      then elim (validate c) [ [] ↦ ok c | p ∷ ps ↦ err (invalid (p ∷ ps)) ]
      else ok c

  unfoldable pub load : Environment → LoadOptions → Result LoadError Config
  load env opts = load_file opts defaults >>= λ c.
      (if opts.skip_env then ok c else or_error env_failed (load_from_env env c))
      >>= check_valid opts

  abbrev pub load_default : Environment → Result LoadError Config
  load_default env =
      load env
        (record { config_file = ""; skip_env = false; skip_default_file = false; validate = true })

  abbrev pub load_with_file : Environment → String → Result LoadError Config
  load_with_file env name =
      load env (record {
        config_file = name;
        skip_env = false;
        skip_default_file = false;
        validate = true;
      })

abbrev pub load_for_testing : Config
load_for_testing = record defaults {
  server = record defaults.server { port = natural 0; secret_key = "test-secret-key" };
  clusters = record defaults.clusters { mock = true };
  auth = record defaults.auth { enabled = false };
  storage = record defaults.storage { kind = "memory" };
}
