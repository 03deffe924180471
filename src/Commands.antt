-- ===== src/Commands.antt =====
-- The commands `nodeletd phases` of nodelet/pkg/nodelet/cmd/phase_commands.go. Tables, the logger and
-- the flags are left out.
pub mod Guard
pub mod Certs
use nodelet.Shared.{
  ℕ, ◌+◌, String, Bool, true, false, not, ◌&&◌, ◌||◌, Option, none, some, List, [], ◌∷◌,
  if◌then◌else◌, ℤ, pos, ◌-ℤ◌, ltb_ℤ, eqb_ℤ, length,
}
use nodelet.Config.{Config}
use nodelet.Config.Load.{Files, get_config_from_dir}
use nodelet.Extension.Load.{Text, File}
use nodelet.Agent.State.{Phase, Env, Setup, Nodelet, Event, Outcome, done, panic, exit, ◌>>=◌}
use nodelet.Agent.Chain.{check_status, start_phases, stop_phases}
use nodelet.Agent.Create.{create_nodelet_from_config}
use nodelet.Agent.Reconcile.{start_single_phase, stop_single_phase, skip_gen_certs_phase}

-- `phasesOpts`, by its flags. The agent and its setup are passed on.
pub record PhasesOpts : Type 0 where
  pub phase : ℤ
  pub single : Bool
  pub force : Bool
  pub regen_certs : Bool

-- What the commands use of their surroundings.
pub record Shell : Type 0 where
  pub files : Files
  -- `mergo.Merge` of the default configuration into one
  pub merge : Config → Config
  -- whether the merge fails
  pub merge_fails : Bool
  pub text : Text
  pub env : Env
  -- the extension file
  pub file : File
  -- the exit code of `systemctl status` for a service
  pub systemctl_status : String → ℤ

-- The fields that `complete` sets.
unfoldable pub override : Config → Config
override c = record c {
  disable_config_update = true;
  disable_ext_file = true;
  disable_sunpike = true;
  disable_loop = true;
  pf9_status_threshold_seconds = pos 0;
  phase_retry = pos 1;
}

-- An agent with what does not change of it.
abbrev pub Agent : Type 0
Agent = Setup × Nodelet

-- `complete`, behind the read of the configuration, whose error it drops.
unfoldable pub complete_with : Shell → Option Config → Outcome (Option Agent)
complete_with sh none = panic
complete_with sh (some c) =
    if sh.merge_fails
    then done none
    else create_nodelet_from_config sh.text sh.env (sh.merge (override c)) sh.file []

-- `complete`: `none` is an error.
unfoldable pub complete : Shell → Outcome (Option Agent)
unfolding complete_with
complete sh = complete_with sh (get_config_from_dir sh.files).0

-- `arePF9AgentsRunning`.
unfoldable pub are_pf9_agents_running : Shell → Bool
are_pf9_agents_running sh =
    eqb_ℤ (sh.systemctl_status "pf9-nodeletd") (pos 0)
    || eqb_ℤ (sh.systemctl_status "pf9-hostagent") (pos 0)

-- `NumPhases`.
abbrev pub num_phases : Setup → ℤ
num_phases s = pos (length s.phases)

-- `validate`: the index of the phase, or `none` for an error.
unfoldable pub validate : Shell → Bool → PhasesOpts → Setup → Option ℤ
validate sh check_agents o s =
    if check_agents && are_pf9_agents_running sh
    then none
    else if ltb_ℤ (num_phases s) o.phase || ltb_ℤ o.phase (pos 0)
    then none
    else some (if ltb_ℤ (pos 0) o.phase then o.phase -ℤ pos 1 else o.phase)

-- Whether `Start` returns an error, and the agent.
abbrev start_result : ℕ × Bool × Nodelet → Outcome (Bool × Nodelet)
start_result (last, failed, n) = done (failed, n)

module _ (s : Setup) (o : PhasesOpts) where
  -- `start`, from a validated index.
  unfoldable pub start_opts : ℤ → Nodelet → Outcome (Bool × Nodelet)
  start_opts i n =
      if o.single then start_single_phase s i n else (start_phases s i n >>= start_result)

  -- `stop`.
  unfoldable pub stop_opts : ℤ → Nodelet → Outcome (Bool × Nodelet)
  stop_opts i n = if o.single then stop_single_phase s i n else stop_phases s i o.force n

  -- `restart`: the error of the stop is only printed.
  unfoldable pub restart_opts : ℤ → Nodelet → Outcome (Bool × Nodelet)
  restart_opts i n = do r ← stop_opts i n; start_opts i r.1

-- `IsK8sRunning`.
abbrev pub is_k8s_running : Nodelet → Bool
is_k8s_running n = n.current_state.kube_running

-- `status`.
unfoldable pub status_opts : Setup → Nodelet → Outcome (Bool × Nodelet)
status_opts s n = let n1 = check_status s n in done (not (is_k8s_running n1), n1)

-- A command behind `complete`: it fails where `complete` or `validate` does.
abbrev pub validated :
    Option ℤ → (ℤ → Outcome (Bool × Nodelet)) → Nodelet → Outcome (Bool × Nodelet)
validated none k n = done (true, n)
validated (some i) k n = k i

-- The error of `start` and `stop` is not returned: both commands end with nil.
abbrev pub forget : Bool × Nodelet → Outcome (Bool × Nodelet)
forget (failed, n) = done (false, n)

-- The agent that a restart begins with.
unfoldable pub prepared : PhasesOpts → Setup → Nodelet → Nodelet
prepared o s n = if o.regen_certs then n else skip_gen_certs_phase s n

module _ (sh : Shell) (o : PhasesOpts) where
  -- The commands, on a completed agent: whether they return an error, and the agent.
  unfoldable pub start_command : Setup → Nodelet → Outcome (Bool × Nodelet)
  start_command s n = validated (validate sh true o s) (λ i. start_opts s o i n >>= forget) n

  unfoldable pub stop_command : Setup → Nodelet → Outcome (Bool × Nodelet)
  stop_command s n = validated (validate sh true o s) (λ i. stop_opts s o i n >>= forget) n

  unfoldable pub restart_command : Setup → Nodelet → Outcome (Bool × Nodelet)
  restart_command s n =
      let n1 = prepared o s n in validated (validate sh true o s) (λ i. restart_opts s o i n1) n1

  unfoldable pub status_command : Setup → Nodelet → Outcome (Bool × Nodelet)
  status_command s n = validated (validate sh false o s) (λ _. status_opts s n) n

-- The rows of `ListPhases` and `PhasesStatus`, from the phase with a number on.
unfoldable pub list_phases : ℕ → List Phase → List (ℕ × String)
list_phases i [] = []
list_phases i (p ∷ ps) = (i, p.name) ∷ list_phases (i + 1) ps

unfoldable pub phases_status : (Phase → String) → ℕ → List Phase → List (ℕ × String × String)
phases_status status i [] = []
phases_status status i (p ∷ ps) = (i, p.name, status p) ∷ phases_status status (i + 1) ps
