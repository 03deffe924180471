-- ===== src/Agent/Create.antt =====
-- `CreateNodeletFromConfig` of nodelet/pkg/nodelet/nodelet.go.
pub mod Startup
use nodelet.Shared.{
  ◌∷◌, ◌&&◌, not, String, Bool, true, false, Option, none, some, List, [], map, if◌then◌else◌,
}
use nodelet.Config.{Config}
use nodelet.Registry.{Phase, load_role_phases}
use nodelet.KubeEnv.{KubeEnvMap}
use nodelet.Extension.{ExtensionData}
use nodelet.Extension.Load.{Text, File, construct_initial_current_state}
use nodelet.Agent.State.{Env, Setup, Nodelet, Event, setup_cgroup, Outcome, done, panic}
use nodelet.Agent.Persist.{fetch_kube_env_map}

-- The first `if` of `InitAndLoadRolePhases`: whether it sets `err`, and the events after it.
abbrev pub setup_error : Env → Config → List Event → Bool
setup_error env cfg trace =
    cfg.use_cgroups && not cfg.disable_scripts && env.fails trace setup_cgroup

abbrev pub after_setup : Config → List Event → List Event
after_setup cfg trace =
    if cfg.use_cgroups && not cfg.disable_scripts then setup_cgroup ∷ trace else trace

-- What `CreateNodeletFromConfig` returns: an error, or the agent with what does not change of it.
-- Without a map from the configuration file `host` stays a nil pointer, and `host.Spec` panics.
create_with : Setup → Nodelet → Option KubeEnvMap × Nodelet → Outcome (Option (Setup × Nodelet))
create_with s n (none, m) = panic
create_with s n (some _, m) = done (some (s, m))

-- From the first state, if `Load` did not panic.
create_on :
    Env
    → Config
    → List Event
    → List Phase
    → Option ExtensionData
    → Outcome (Option (Setup × Nodelet))
unfolding create_with
create_on env cfg trace phases none = panic
create_on env cfg trace phases (some d) =
    let s : Setup = record { env = env; config = cfg; phases = phases } in
    let n : Nodelet = record { current_state = d; trace = trace } in
    create_with s n (fetch_kube_env_map s n)

create_from :
    Text
    → Env
    → Config
    → File
    → List Event
    → Option (List Phase)
    → Outcome (Option (Setup × Nodelet))
unfolding create_on
create_from text env cfg file trace none = done none
create_from text env cfg file trace (some phases) =
    create_on env cfg trace phases
      (construct_initial_current_state text cfg file (map (λ p. p.name) phases))

unfoldable pub create_nodelet_from_config :
    Text → Env → Config → File → List Event → Outcome (Option (Setup × Nodelet))
unfolding create_from
create_nodelet_from_config text env cfg file trace =
    create_from text env cfg file (after_setup cfg trace)
      (load_role_phases (setup_error env cfg trace) cfg.cluster_role)
