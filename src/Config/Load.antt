-- ===== src/Config/Load.antt =====
-- `GetConfigFromDir` of nodelet/pkg/utils/config/config.go. The package viper is a parameter.
use nodelet.Shared.{
  ℕ, ◌+◌, String, Bool, true, ◌||◌, Option, none, some, List, [], ◌∷◌, eqb, if◌then◌else◌,
}
use nodelet.Shared.Texts.{has_suffix, sort_strings}
use nodelet.Config.{Config, default_config}

-- What the directory and viper answer.
pub record Files : Type 0 where
  -- `ListFiles`; `none` is an error
  pub list_files : Option (List String)
  -- whether `GetConfigFromFile` fails for a file of the directory
  pub fails : String → Bool
  pub bind_env_fails : Bool
  -- `viper.Unmarshal` into the default: the configuration, and whether it fails
  pub unmarshal : Config × Bool

-- The loop over the files: how many were loaded, or `none` at the first that fails.
unfoldable pub load_files : Files → List String → ℕ → Option ℕ
load_files f [] loaded = some loaded
load_files f (name ∷ names) loaded =
    let skip = load_files f names loaded in
    let next = load_files f names (loaded + 1) in
    if has_suffix name ".yaml" || has_suffix name ".yml"
    then (if f.fails name then none else next)
    else skip

-- `GetConfigFromDir`: the configuration, where `none` is a nil pointer, and whether there is an error.
loaded_config : Files → Option ℕ → Option Config × Bool
loaded_config f none = (none, true)
loaded_config f (some loaded) =
    if eqb loaded 0
    then (some default_config, true)
    else if f.bind_env_fails
    then (none, true)
    else (some f.unmarshal.0, f.unmarshal.1)

unfoldable pub get_config_from_dir : Files → Option Config × Bool
unfolding loaded_config
get_config_from_dir f = elim f.list_files [
  | none ↦ (some default_config, true)
  | some files ↦ loaded_config f (load_files f (sort_strings files) 0)
]
