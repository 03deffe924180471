-- ===== src/Agent/Persist.antt =====
-- What the agent of nodelet/pkg/nodelet/nodelet.go saves: the extension file, the status at Sunpike,
-- and the configuration files.
pub mod Frame
pub mod Update
use nodelet.Shared.{
  String, Bool, true, false, not, ◌&&◌, ◌||◌, Option, none, some, [], ◌∷◌, if◌then◌else◌,
}
use nodelet.KubeEnv.{KubeEnvMap, Host, convert_host_to_kube_env_map, deep_equal}
use nodelet.Extension.{populate_extra_fields}
use nodelet.Agent.State.{
  Event, update, stat, read_file, parse_file, open_file, write_kube_env, write_yaml, remove,
  symlink, Setup, Nodelet, Outcome, done, panic, exit, emit,
}

module _ (s : Setup) where
  open s use {env, config}

  -- `currentState.Write()`, under its guard: the state is completed, then written.
  unfoldable pub write_ext_file : Nodelet → Nodelet
  write_ext_file n =
      if config.disable_ext_file
      then n
      else let d = populate_extra_fields config n.current_state in
        record { current_state = d; trace = Event.write d ∷ n.trace }

  send_update : Nodelet → Nodelet
  send_update n = if config.disable_sunpike then n else emit (update n.current_state) n

  -- `tryToPersistStatus`.
  unfoldable pub try_to_persist_status : Nodelet → Nodelet
  unfolding write_ext_file send_update
  try_to_persist_status n = send_update (write_ext_file n)

  -- `fetchKubeEnvMapFromConfigFile`: no file is an empty map, `none` is an error.
  unfoldable pub fetch_kube_env_map : Nodelet → Option KubeEnvMap × Nodelet
  fetch_kube_env_map n =
      let path = config.sunpike_config_path in
      let n1 = emit (stat path) n in
      let n2 = emit (read_file path) n1 in
      let n3 = emit (parse_file path) n2 in
      if env.fails n.trace (stat path)
      then (some [], n1)
      else if env.fails n1.trace (read_file path)
      then (none, n2)
      else if env.fails n2.trace (parse_file path)
      then (none, n3)
      else (some (env.config_file n2.trace), n3)

  -- `writeEnvMapToKubeEnvFile`: whether it returns an error.
  unfoldable pub write_env_map_to_kube_env_file : KubeEnvMap → String → Nodelet → Bool × Nodelet
  write_env_map_to_kube_env_file m path n =
      let n1 = emit (open_file path) n in
      if env.fails n.trace (open_file path)
      then (true, n1)
      else (env.fails n1.trace (write_kube_env path m), emit (write_kube_env path m) n1)

  -- `writeEnvMapToNodeletConfigFile`.
  unfoldable pub write_env_map_to_nodelet_config_file : KubeEnvMap → Nodelet → Bool × Nodelet
  write_env_map_to_nodelet_config_file m n =
      let path = config.sunpike_config_path in
      let n1 = emit (open_file path) n in
      if env.fails n.trace (open_file path)
      then (true, n1)
      else (env.fails n1.trace (write_yaml path m), emit (write_yaml path m) n1)

  -- A map that could not be read is Go's nil map: it equals no map of `ConvertHostToKubeEnvMap`.
  unfoldable pub unchanged : KubeEnvMap → Option KubeEnvMap → Bool
  unchanged received none = false
  unchanged received (some current) = deep_equal received current

  -- `handleConfigUpdate`: whether it returns an error; `exit` is the restart on a new configuration.
  -- It reads `updatedHost.Spec` at once, so that it panics without a host.
  unfoldable pub handle_config_update : Option Host → Nodelet → Outcome (Bool × Nodelet)
  unfolding unchanged
  handle_config_update none n = panic
  handle_config_update (some host) n =
      if env.spec_is_empty host
      then done (false, n)
      else let received = convert_host_to_kube_env_map env.to_upper host in
        if env.to_config_fails received
        then done (true, n)
        else let (current, n1) = fetch_kube_env_map n in
          let path = config.sunpike_kube_env_path in
          let n2 = emit (stat path) n1 in
          if not (env.fails n1.trace (stat path)) && unchanged received current
          then done (false, n2)
          else let (_, n3) = write_env_map_to_kube_env_file received path n2 in
            let (_, n4) = write_env_map_to_nodelet_config_file received n3 in
            if config.disable_exit_on_update then done (false, n4) else exit n4

  -- The branch of `persistStatusAndUpdateConfigIfChanged` for a disabled Sunpike.
  write_resmgr_kube_env : Option KubeEnvMap → Nodelet → Bool × Nodelet
  write_resmgr_kube_env none n = (true, n)
  write_resmgr_kube_env (some m) n =
      write_env_map_to_kube_env_file m config.resmgr_kube_env_path
        (emit (remove config.resmgr_kube_env_path) n)

  regenerate_kube_env : Nodelet → Bool × Nodelet
  unfolding write_resmgr_kube_env
  regenerate_kube_env n = let (m, n1) = fetch_kube_env_map n in write_resmgr_kube_env m n1

  -- `persistStatusAndUpdateConfigIfChanged`: whether it returns an error.
  unfoldable pub persist_status_and_update_config : Nodelet → Outcome (Bool × Nodelet)
  unfolding write_ext_file regenerate_kube_env
  persist_status_and_update_config n =
      let n1 = write_ext_file n in
      if config.disable_sunpike
      then done (regenerate_kube_env n1)
      else let n2 = emit (update n1.current_state) n1 in
        if env.fails n1.trace (update n1.current_state)
        then done (true, n2)
        else handle_config_update (env.host n1.trace) n2

  -- `setKubeEnvSymlink`: whether it returns an error.
  unfoldable pub set_kube_env_symlink : Nodelet → Bool × Nodelet
  set_kube_env_symlink n =
      let n1 = emit (remove config.kube_env_path) n in
      let n2 = emit (stat config.sunpike_kube_env_path) n1 in
      let dst =
        (if config.disable_sunpike || env.fails n1.trace (stat config.sunpike_kube_env_path)
          then config.resmgr_kube_env_path
          else config.sunpike_kube_env_path) in
      (
        env.fails n2.trace (symlink dst config.kube_env_path),
        emit (symlink dst config.kube_env_path) n2,
      )
