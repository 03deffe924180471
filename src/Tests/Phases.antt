-- ===== src/Tests/Phases.antt =====
-- The commands of nodelet/pkg/nodelet/cmd/phase_commands.go at concrete inputs.
use nodelet.Shared.{◌≡◌, refl, true, false, [], ◌∷◌, none, some, arith, pos, map, ◌==◌}
use nodelet.Config.Load.{Files, get_config_from_dir, load_files}
use nodelet.Shared.Texts.{has_suffix, sort_strings}
use nodelet.Registry.{no_role_phase, load_role_phases}
use nodelet.Extension.{new}
use nodelet.Extension.Load.{construct_initial_current_state, load, initial}
use nodelet.Agent.State.{
  Setup, Nodelet, done, panic, Returns, setup_cgroup, stat, read_file, parse_file,
}
use nodelet.Agent.Persist.{fetch_kube_env_map}
use nodelet.Agent.Create.{create_nodelet_from_config}
use nodelet.Commands.{
  PhasesOpts, Shell, override, complete, start_command, stop_command, restart_command,
}
use nodelet.Commands.Guard.{KeepsNames, completed-commands_return}
use nodelet.Commands.Certs.{SparesCerts, restart_command-SparesCerts}
use nodelet.Tests.Agents.{config, env, setup, agent, text, file}

-- One file of the directory is a configuration.
abbrev files : Files
files = record {
  list_files = some ("notes.txt" ∷ "config.yaml" ∷ []);
  fails = λ name. name == "notes.txt";
  bind_env_fails = false;
  unmarshal = (config, false);
}

abbrev shell : Shell
shell = record {
  files = files;
  merge = λ c. c;
  merge_fails = false;
  text = text;
  env = env;
  file = file;
  systemctl_status = λ _. pos 3;
}

abbrev opts : PhasesOpts
opts = record { phase = pos 1; single = false; force = false; regen_certs = false }

-- A file that cannot be loaded leaves no configuration.
bad_file_panics : complete (record shell { files = record files { fails = λ name. true } }) ≡ panic
unfolding complete get_config_from_dir load_files has_suffix sort_strings
bad_file_panics = refl

abbrev created_setup : Setup
created_setup = record { env = env; config = override config; phases = no_role_phase ∷ [] }

abbrev created : Nodelet
created = record {
  current_state =
      elim (construct_initial_current_state text (override config) file
        (map (λ p. p.name) created_setup.phases)) [ none ↦ new | some d ↦ d ];
  trace =
      parse_file "config_sunpike.yaml"
      ∷ read_file "config_sunpike.yaml"
      ∷ stat "config_sunpike.yaml"
      ∷ setup_cgroup
      ∷ [];
}

completes : complete shell ≡ done (some (created_setup, created))
unfolding complete get_config_from_dir load_files has_suffix sort_strings override
    create_nodelet_from_config fetch_kube_env_map load_role_phases construct_initial_current_state
    load initial
completes = refl

completed-commands_return_example :
    Returns (KeepsNames created_setup) (start_command shell opts created_setup created)
    × Returns (KeepsNames created_setup) (stop_command shell opts created_setup created)
    × Returns (KeepsNames created_setup) (restart_command shell opts created_setup created)
unfolding override
completed-commands_return_example =
    completed-commands_return shell opts created_setup created completes refl

restart_command-SparesCerts_example :
    Returns (λ r. SparesCerts agent r.1) (restart_command shell opts setup agent)
restart_command-SparesCerts_example =
    restart_command-SparesCerts shell opts setup agent (omega arith) refl refl refl
