-- ===== src/Tests/Agents.antt =====
-- The agent of nodelet/pkg/nodelet/nodelet.go at concrete inputs.
use nodelet.Shared.{
  ◌||◌, ◌≡◌, ◌↔◌, refl, Bool, true, false, List, [], ◌∷◌, ◌++◌, none, some, arith, pos, minus_one,
  map, drop, ◌==◌,
}
use nodelet.Config.{Config, role_none, service_state_true}
use nodelet.Registry.{
  Phase, gen_certs_phase, prepare_kubeconfigs_phase, no_role_phase, load_role_phases,
}
use nodelet.KubeEnv.{nil}
use nodelet.Extension.{ExtensionData, own, new}
use nodelet.Extension.Load.{Text, File, load, initial, construct_initial_current_state}
use nodelet.Agent.State.{
  SendsHosts, Env, Setup, Nodelet, Event, setup_cgroup, call, start, stat, read_file, parse_file,
  done, panic,
}
use nodelet.Agent.Persist.{fetch_kube_env_map}
use nodelet.Agent.Persist.{handle_config_update}
use nodelet.Agent.Persist.Update.{Answers, handle_config_update-Answers}
use nodelet.Agent.Reconcile.Roleless.{start_without_phases-panics}
use nodelet.Agent.Create.{create_nodelet_from_config}
use nodelet.Agent.Create.Startup.{
  created-run_never_panics, is_null, is_unreadable, create-panic_iff,
}
use nodelet.Agent.Chain.{stop_phases}
use nodelet.Agent.Chain.Order.{IsStopped, stop_phases-forced, stopped}
use nodelet.Agent.Reconcile.{handle_service_start_state, reconcile, run, already_running}
use nodelet.Agent.State.{Returns}
use nodelet.Agent.Reconcile.Safety.{IsWellFormed, IsUsable, reconcile-IsWellFormed}
use nodelet.Agent.Reconcile.Progress.{IsSettled, handle_service_start_state-IsSettled}
use nodelet.Agent.Reconcile.Counter.{AttemptsAreZero, first_failure-forgets}

abbrev pub config : Config
config = record {
  cluster_role = role_none;
  cluster_id = "c1";
  kube_service_state = service_state_true;
  full_retry_count = pos 10;
  use_cgroups = true;
  phase_retry = pos 3;
  pf9_status_threshold_seconds = pos 0;
  kube_env_path = "kube.env";
  resmgr_kube_env_path = "resmgr.env";
  sunpike_config_path = "config_sunpike.yaml";
  sunpike_kube_env_path = "sunpike.env";
  disable_sunpike = false;
  disable_loop = false;
  disable_ext_file = false;
  disable_scripts = false;
  disable_config_update = true;
  disable_exit_on_update = false;
}

-- Surroundings in which the start of the second phase fails, and nothing else.
abbrev is_bad : Event → Bool
is_bad (call start p) = p.name == "Prepare configuration"
is_bad _ = false

abbrev pub env : Env
env = record {
  now = λ _. 0;
  fails = λ _ e. is_bad e;
  host = λ _. some (record { name = "h"; spec = nil; extra_cfg = [] });
  config_file = λ _. [];
  phase_status = λ _ _. "";
  to_upper = λ t. t;
  spec_is_empty = λ _. true;
  to_config_fails = λ _. false;
}

pub sends_hosts : SendsHosts env
sends_hosts t = (record { name = "h"; spec = nil; extra_cfg = [] }, refl)

abbrev pub two : List Phase
two = gen_certs_phase ∷ prepare_kubeconfigs_phase ∷ []

abbrev pub setup : Setup
setup = record { env = env; config = config; phases = two }

abbrev state : ExtensionData
state = record {
  service_state = "false";
  node_state = "converging";
  start_attempts = pos 1;
  cluster_id = "";
  cluster_role = "";
  all_status_checks = map (λ (p : Phase). p.name) two;
  all_phases = map (λ (p : Phase). p.name) two;
  completed_phases = own [];
  current_status_check = "";
  current_phase = "";
  last_failed_check = "";
  last_failed_check_time = pos 0;
  last_failed_phase = "";
  current_status_check_time = pos 0;
  operation = "stop";
  kube_running = false;
  failed_status_check = pos 0;
  last_successful_status = none;
  start_fail_step = minus_one;
}

abbrev pub agent : Nodelet
agent = record { current_state = state; trace = [] }

usable : IsUsable setup
usable = omega arith

well_formed : IsWellFormed setup agent
well_formed = record { names = refl; failed_start = tt }

reconcile-IsWellFormed_example : Returns (λ r. IsWellFormed setup r.1) (reconcile setup agent)
reconcile-IsWellFormed_example = reconcile-IsWellFormed setup sends_hosts agent usable well_formed

stop_phases-forced_example :
    (r : Bool × Nodelet) × (stop_phases setup (pos 0) true agent ≡ done r)
    × (stopped r.1.trace ≡ drop 0 two ++ stopped agent.trace)
    × IsStopped setup 0 r.1
stop_phases-forced_example = stop_phases-forced setup 0 agent (omega arith) refl refl

handle_service_start_state-IsSettled_example :
    Returns (IsSettled setup) (handle_service_start_state setup agent)
handle_service_start_state-IsSettled_example =
    handle_service_start_state-IsSettled setup agent usable well_formed (omega arith) refl

first_failure-forgets_example :
    Returns (AttemptsAreZero setup) (handle_service_start_state setup agent)
first_failure-forgets_example =
    first_failure-forgets setup agent usable well_formed (omega arith) refl
      (unfold already_running in refl) refl

abbrev pub text : Text
text = record {
  trim_space = λ t. t;
  is_comment = λ t. t == "#";
  split_n = λ t. (t, none);
  atoi = λ _. none;
}

-- No extension file.
abbrev pub file : File
file = record {
  saved = some (record {
    service_state = none;
    node_state = none;
    start_attempts = none;
    cluster_id = none;
    cluster_role = none;
    all_status_checks = none;
    all_phases = none;
    completed_phases = none;
    current_status_check = none;
    current_phase = none;
    last_failed_check = none;
    last_failed_check_time = none;
    last_failed_phase = none;
    current_status_check_time = none;
  });
  json_fails = true;
  lines = none;
}

abbrev created_setup : Setup
created_setup = record { env = env; config = config; phases = no_role_phase ∷ [] }

abbrev created : Nodelet
created = record {
  current_state =
      elim (construct_initial_current_state text config file
        (map (λ p. p.name) created_setup.phases)) [ none ↦ new | some d ↦ d ];
  trace =
      parse_file "config_sunpike.yaml"
      ∷ read_file "config_sunpike.yaml"
      ∷ stat "config_sunpike.yaml"
      ∷ setup_cgroup
      ∷ [];
}

creates : create_nodelet_from_config text env config file [] ≡ done (some (created_setup, created))
unfolding create_nodelet_from_config fetch_kube_env_map load_role_phases
    construct_initial_current_state load initial
creates = refl

created-run_never_panics_example :
    Returns (IsWellFormed created_setup) (run created_setup 3 created)
created-run_never_panics_example =
    created-run_never_panics text env config file [] created_setup created 3 sends_hosts refl
      (omega arith) creates

create-panic_iff_example :
    (create_nodelet_from_config text env config file [] ≡ panic)
    ↔ ((is_null text env config file [] || is_unreadable text env config file []) ≡ true)
create-panic_iff_example = create-panic_iff text env config file [] refl

-- The host that Sunpike sends is news: it has a spec.
abbrev told : Setup
told = record setup { env = record env { spec_is_empty = λ _. false } }

handle_config_update-Answers_example :
    Answers told (env.host []) agent (handle_config_update told (env.host []) agent)
handle_config_update-Answers_example = handle_config_update-Answers told (env.host []) agent

abbrev roleless : Setup
roleless = record { env = env; config = config; phases = [] }

start_without_phases-panics_example : handle_service_start_state roleless agent ≡ panic
start_without_phases-panics_example =
    start_without_phases-panics roleless refl agent refl (unfold already_running in refl)
