-- ===== src/Tests/Sources.antt =====
-- The extension file, the configuration, and the phases of nodelet/pkg at concrete inputs.
use nodelet.Shared.{
  refl, lookup, String, map, List, ◌≡◌, ◌≢◌, ◌↔◌, ◌⊎◌, true, false, [], ◌∷◌, none, some, arith, pos,
  ◌==◌, ltb_ℤ, eq_iff, if◌then◌else◌,
}
use nodelet.Config.{
  default_config, error_state, ok_state, converging_state, service_state_true,
  num_retries_for_error_state,
}
use nodelet.Registry.{Phase, load_role_phases}
use nodelet.Registry.Ordering.{is_known, IsSorted, CertsFirst, load_role_phases-IsSorted}
use nodelet.Shared.Texts.{sort_strings, trim_space}
use nodelet.KubeEnv.Export.{escape_chars, escape_newlines, escape, keys, value_of, to_kube_env}
use nodelet.KubeEnv.Read.{is_plain}
use nodelet.KubeEnv.RoundTrip.{read_env, as_seen, to_kube_env-read}
use nodelet.KubeEnv.{
  KubeEnvMap, Host, struct, scalar, nil, convert_host_to_kube_env_map, host_id_key,
}
use nodelet.KubeEnv.Override.{prefer, last_tagged, first_extra, lookup-convert}
use nodelet.Extension.{ExtensionData, new, populate_extra_fields}
use nodelet.Extension.Health.{is_off, populate-failed_iff}

abbrev worn_out : ExtensionData
worn_out = record new { start_attempts = pos 11; service_state = "false" }

not_failed : converging_state ≢ error_state
not_failed e = let c : false ≡ true = (eq_iff converging_state error_state).1 e in ground arith

not_ok : converging_state ≢ ok_state
not_ok e = let c : false ≡ true = (eq_iff converging_state ok_state).1 e in ground arith

populate-failed_iff_example :
    ((populate_extra_fields default_config worn_out).node_state ≡ error_state)
    ↔ ((worn_out.service_state == service_state_true) ≡ false)
      × (is_off default_config worn_out ≡ true)
      × (ltb_ℤ (pos num_retries_for_error_state) worn_out.start_attempts ≡ true)
unfolding new
populate-failed_iff_example = populate-failed_iff default_config worn_out not_failed

abbrev host : Host
host = record {
  name = "h";
  spec = struct (scalar (some "ROLE") "master" nil) (scalar (some "DEBUG") "false" nil);
  extra_cfg = ("debug", "true") ∷ ("EXTRA", "1") ∷ [];
}

lookup-convert_example :
    lookup "DEBUG" (convert_host_to_kube_env_map (λ t. if t == "debug" then "DEBUG" else t) host)
    ≡ prefer
        (if host_id_key == "DEBUG" then some "h" else last_tagged "DEBUG" host.spec)
        (first_extra (λ t. if t == "debug" then "DEBUG" else t) "DEBUG" host.extra_cfg)
lookup-convert_example = lookup-convert (λ t. if t == "debug" then "DEBUG" else t) host "DEBUG"

load_role_phases-IsSorted_example :
    ((true ≡ true) × (is_known "master" ≡ false) × (load_role_phases true "master" ≡ none))
    ⊎ ((ps : List Phase) × (load_role_phases true "master" ≡ some ps) × IsSorted ps × CertsFirst ps)
load_role_phases-IsSorted_example = load_role_phases-IsSorted true "master"

-- A value with each character that is escaped but the single quote.
abbrev env_map : KubeEnvMap
env_map = ("TOKEN", "a$b`c\"d\\e") ∷ (" NOTE ", "it's") ∷ []

keys_are_sorted : keys env_map ≡ " NOTE " ∷ "TOKEN" ∷ []
unfolding keys sort_strings
keys_are_sorted = refl

dollar_is_escaped : escape "a$b\n" ≡ "a\\$b\\n"
unfolding escape escape_chars escape_newlines
dollar_is_escaped = refl

to_kube_env-read_example :
    ((to_kube_env (λ _. false) env_map "").0 ≡ false)
    × (read_env 2 (to_kube_env (λ _. false) env_map "").1
        ≡ some (map (as_seen env_map) (keys env_map)))
    × ((k : String)
        → is_plain (value_of env_map k) ≡ true
        → as_seen env_map k ≡ (trim_space k, value_of env_map k))
unfolding keys sort_strings trim_space
to_kube_env-read_example = to_kube_env-read env_map (refl, (refl, tt)) 2 (omega arith)
