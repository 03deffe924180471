-- ===== src/Agent/Persist/Frame.antt =====
-- What saving leaves as it is: `tryToPersistStatus` and `persistStatusAndUpdateConfigIfChanged` of
-- nodelet/pkg/nodelet/nodelet.go.
use nodelet.Shared.{◌≡◌, ◌≢◌, String, arith, Bool, Option, none, some}
use nodelet.Config.{Config}
use nodelet.KubeEnv.{KubeEnvMap, Host}
use nodelet.Extension.{ExtensionData, populate_extra_fields}
use nodelet.Agent.State.{SendsHosts, Setup, Nodelet, done, panic, emit, update}
use nodelet.Agent.Persist.{
  write_ext_file, try_to_persist_status, fetch_kube_env_map, write_env_map_to_kube_env_file,
  write_env_map_to_nodelet_config_file, regenerate_kube_env, handle_config_update,
  persist_status_and_update_config,
}

-- The fields that saving never changes: all but the node's state and the last failed check.
pub record SameCore (a b : ExtensionData) : Type 0 where
  pub service_state : a.service_state ≡ b.service_state
  pub start_attempts : a.start_attempts ≡ b.start_attempts
  pub cluster_id : a.cluster_id ≡ b.cluster_id
  pub cluster_role : a.cluster_role ≡ b.cluster_role
  pub all_phases : a.all_phases ≡ b.all_phases
  pub completed_phases : a.completed_phases ≡ b.completed_phases
  pub current_phase : a.current_phase ≡ b.current_phase
  pub last_failed_phase : a.last_failed_phase ≡ b.last_failed_phase
  pub operation : a.operation ≡ b.operation
  pub kube_running : a.kube_running ≡ b.kube_running
  pub failed_status_check : a.failed_status_check ≡ b.failed_status_check
  pub last_successful_status : a.last_successful_status ≡ b.last_successful_status
  pub start_fail_step : a.start_fail_step ≡ b.start_fail_step

pub SameCore-trans : {a b c : ExtensionData} → SameCore a b → SameCore b c → SameCore a c
SameCore-trans h k = ground arith

pub populate-SameCore :
    (cfg : Config) (d : ExtensionData) → SameCore (populate_extra_fields cfg d) d
unfolding populate_extra_fields
populate-SameCore cfg d = ground arith

module _ (s : Setup) where
  pub write_ext_file-SameCore :
      (n : Nodelet) → SameCore (write_ext_file s n).current_state n.current_state
  unfolding write_ext_file
  write_ext_file-SameCore n = ground (arith, populate-SameCore s.config n.current_state)

  pub persist-SameCore :
      (n : Nodelet) → SameCore (try_to_persist_status s n).current_state n.current_state
  unfolding try_to_persist_status
  persist-SameCore n = ground (arith, populate-SameCore s.config n.current_state)

  pub fetch-state : (n : Nodelet) → (fetch_kube_env_map s n).1.current_state ≡ n.current_state
  unfolding fetch_kube_env_map
  fetch-state n = ground arith

  kube_env_file-state :
      (m : KubeEnvMap) (path : String) (n : Nodelet)
      → (write_env_map_to_kube_env_file s m path n).1.current_state ≡ n.current_state
  unfolding write_env_map_to_kube_env_file
  kube_env_file-state m path n = ground arith

  config_file-state :
      (m : KubeEnvMap) (n : Nodelet)
      → (write_env_map_to_nodelet_config_file s m n).1.current_state ≡ n.current_state
  unfolding write_env_map_to_nodelet_config_file
  config_file-state m n = ground arith

  regenerate-state : (n : Nodelet) → (regenerate_kube_env s n).1.current_state ≡ n.current_state
  unfolding regenerate_kube_env write_env_map_to_kube_env_file fetch_kube_env_map
  regenerate-state n = ground arith

  handle_config_update-state :
      (h : Option Host) (n : Nodelet) {b : Bool} {m : Nodelet}
      → handle_config_update s h n ≡ done (b, m)
      → m.current_state ≡ n.current_state
  unfolding handle_config_update write_env_map_to_nodelet_config_file write_env_map_to_kube_env_file
      fetch_kube_env_map
  handle_config_update-state none n e = ground (e, arith)
  handle_config_update-state (some h) n e = ground arith

  handle_config_update-ne-panic :
      (h : Host) (n : Nodelet) → handle_config_update s (some h) n ≢ panic
  unfolding handle_config_update
  handle_config_update-ne-panic h n = ground arith

  pub persist_and_update-SameCore :
      (n : Nodelet) {b : Bool} {m : Nodelet}
      → persist_status_and_update_config s n ≡ done (b, m)
      → SameCore m.current_state n.current_state
  unfolding persist_status_and_update_config
  persist_and_update-SameCore n {b} {m} e = rw (saved b m e) (write_ext_file-SameCore n)
    where
      saved :
          (b : Bool) (m : Nodelet)
          → persist_status_and_update_config s n ≡ done (b, m)
          → m.current_state ≡ (write_ext_file s n).current_state
      saved b m e = ground (
        arith,
        regenerate-state (write_ext_file s n),
        handle_config_update-state (s.env.host (write_ext_file s n).trace)
            (emit (update (write_ext_file s n).current_state) (write_ext_file s n)) {b = b} {m = m},
      )

  pub persist_and_update-ne-panic :
      SendsHosts s.env → (n : Nodelet) → persist_status_and_update_config s n ≢ panic
  unfolding persist_status_and_update_config
  persist_and_update-ne-panic sends n =
      let n1 = write_ext_file s n in
      let (h, e) = sends n1.trace in
      let calm = handle_config_update-ne-panic h (emit (update n1.current_state) n1) in
      ground (arith, calm, e)
