-- ===== src/Agent/Persist/Update.antt =====
-- When the agent of nodelet/pkg/nodelet/nodelet.go restarts for a new configuration.
use nodelet.Shared.{
  ◌≡◌, ◌⊎◌, Bool, true, false, not, ◌&&◌, ◌||◌, arith, String, List, [], ◌∷◌, Option, none, some,
  refl,
}
use nodelet.KubeEnv.{Host, convert_host_to_kube_env_map}
use nodelet.Agent.State.{Event, open_file, stat, Setup, Nodelet, Outcome, done, panic, exit, emit}
use nodelet.Agent.Persist.{
  fetch_kube_env_map, write_env_map_to_kube_env_file, write_env_map_to_nodelet_config_file,
  unchanged, handle_config_update,
}

-- The files that were opened for writing, the newest first.
unfoldable pub opened : List Event → List String
opened [] = []
opened (open_file path ∷ events) = path ∷ opened events
opened (_ ∷ events) = opened events

module _ (s : Setup) where
  open s use {env, config}

  -- Whether a host that Sunpike sends is news: it has a spec that converts to a configuration, and
  -- the environment file is missing, or the host's map is not the one on file.
  abbrev pub is_news : Host → Nodelet → Bool
  is_news host n =
      let received = convert_host_to_kube_env_map env.to_upper host in
      let (current, n1) = fetch_kube_env_map s n in
      not (env.spec_is_empty host)
      && not (env.to_config_fails received)
      && (env.fails n1.trace (stat config.sunpike_kube_env_path)
          || not (unchanged s received current))

  -- The agent after both files were written, or the attempts failed.
  abbrev pub written : Host → Nodelet → Nodelet
  written host n =
      let received = convert_host_to_kube_env_map env.to_upper host in
      let n2 = emit (stat config.sunpike_kube_env_path) (fetch_kube_env_map s n).1 in
      let n3 = (write_env_map_to_kube_env_file s received config.sunpike_kube_env_path n2).1 in
      (write_env_map_to_nodelet_config_file s received n3).1

  -- Both files were opened for writing, the environment file first, and nothing else was.
  abbrev pub IsUpdated : Host → Nodelet → Nodelet → Type 0
  IsUpdated host n m =
      (opened m.trace ≡ config.sunpike_config_path ∷ config.sunpike_kube_env_path ∷ opened n.trace)
      × (m.current_state ≡ n.current_state)
      × (m ≡ written host n)

  -- No file was opened for writing, and the error is that of a spec that does not convert.
  abbrev pub IsIgnored : Host → Nodelet → Bool → Nodelet → Type 0
  IsIgnored host n failed m =
      (opened m.trace ≡ opened n.trace)
      × (m.current_state ≡ n.current_state)
      × (failed ≡ (
          not (env.spec_is_empty host)
          && env.to_config_fails (convert_host_to_kube_env_map env.to_upper host)))

  abbrev pub Answers : Option Host → Nodelet → Outcome (Bool × Nodelet) → Type 0
  Answers none n o = o ≡ panic
  Answers (some host) n (done (failed, m)) =
      ((is_news host n ≡ false) × IsIgnored host n failed m)
      ⊎ ((is_news host n ≡ true)
          × (config.disable_exit_on_update ≡ true)
          × (failed ≡ false)
          × IsUpdated host n m)
  Answers (some host) n panic = ⊥
  Answers (some host) n (exit m) =
      (is_news host n ≡ true) × (config.disable_exit_on_update ≡ false) × IsUpdated host n m

  -- `handleConfigUpdate` panics exactly without a host. For a host that is no news it opens no file
  -- for writing and returns, with an error exactly when the host has a spec that does not convert.
  -- For a host that is news it opens the environment file and then the configuration file for
  -- writing, and no other file, whether or not that succeeds; then it returns without an error if
  -- exits are disabled, and ends the process if not. It never changes the agent's state.
  pub handle_config_update-Answers :
      (host : Option Host) (n : Nodelet) → Answers host n (handle_config_update s host n)
  unfolding handle_config_update fetch_kube_env_map write_env_map_to_kube_env_file
      write_env_map_to_nodelet_config_file opened
  handle_config_update-Answers none n = refl
  handle_config_update-Answers (some host) n = ground arith
