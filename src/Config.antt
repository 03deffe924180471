-- ===== src/Config.antt =====
-- nodelet/pkg/utils/constants/constants.go and the part of nodelet/pkg/utils/config/config.go that
-- the agent reads.
pub mod Load
use nodelet.Shared.{ℕ, String, Bool, true, false, ℤ, pos}

abbrev pub error_state : String
error_state = "failed"

abbrev pub ok_state : String
ok_state = "ok"

abbrev pub converging_state : String
converging_state = "converging"

abbrev pub retrying_state : String
retrying_state = "retrying"

abbrev pub num_retries_for_error_state : ℕ
num_retries_for_error_state = 10

abbrev pub failed_status_check_reap_interval : ℕ
failed_status_check_reap_interval = 600

abbrev pub not_started_state : String
not_started_state = "not-started"

abbrev pub running_state : String
running_state = "running"

abbrev pub stopped_state : String
stopped_state = "stopped"

abbrev pub failed_state : String
failed_state = error_state

abbrev pub executing_state : String
executing_state = "executing"

abbrev pub start_op : String
start_op = "start"

abbrev pub status_op : String
status_op = "status"

abbrev pub stop_op : String
stop_op = "stop"

abbrev pub role_master : String
role_master = "master"

abbrev pub role_worker : String
role_worker = "worker"

abbrev pub role_none : String
role_none = "none"

abbrev pub service_state_true : String
service_state_true = "true"

abbrev pub service_state_false : String
service_state_false = "false"

abbrev pub service_state_ignore : String
service_state_ignore = "ignore"

abbrev pub no_role_phase_order : ℕ
no_role_phase_order = 10

abbrev pub gen_certs_phase_order : ℕ
gen_certs_phase_order = 20

abbrev pub kubeconfig_phase_order : ℕ
kubeconfig_phase_order = 30

abbrev pub configure_runtime_phase_order : ℕ
configure_runtime_phase_order = 40

abbrev pub start_runtime_phase_order : ℕ
start_runtime_phase_order = 45

abbrev pub load_image_phase_order : ℕ
load_image_phase_order = 48

abbrev pub configure_etcd_phase_order : ℕ
configure_etcd_phase_order = 50

abbrev pub start_etcd_phase_order : ℕ
start_etcd_phase_order = 55

abbrev pub configure_network_phase_order : ℕ
configure_network_phase_order = 60

abbrev pub configure_cni_phase_order : ℕ
configure_cni_phase_order = 65

abbrev pub auth_web_hook_phase_order : ℕ
auth_web_hook_phase_order = 70

abbrev pub misc_phase_order : ℕ
misc_phase_order = 75

abbrev pub configure_kubelet_phase_order : ℕ
configure_kubelet_phase_order = 80

abbrev pub kube_proxy_phase_order : ℕ
kube_proxy_phase_order = 90

abbrev pub wait_for_k8s_svc_phase_order : ℕ
wait_for_k8s_svc_phase_order = 100

abbrev pub label_taint_node_phase_order : ℕ
label_taint_node_phase_order = 110

abbrev pub dynamic_kubelet_config_phase_order : ℕ
dynamic_kubelet_config_phase_order = 120

abbrev pub uncordon_node_phase_order : ℕ
uncordon_node_phase_order = 130

abbrev pub deploy_app_catalog_phase_order : ℕ
deploy_app_catalog_phase_order = 160

abbrev pub configure_start_keepalived_phase_order : ℕ
configure_start_keepalived_phase_order = 180

abbrev pub pf9_core_dns_phase_order : ℕ
pf9_core_dns_phase_order = 206

abbrev pub drain_pods_phase_order : ℕ
drain_pods_phase_order = 210

-- `Config`: the fields that the modelled code reads.
pub record Config : Type 0 where
  pub cluster_role : String
  pub cluster_id : String
  pub kube_service_state : String
  pub full_retry_count : ℤ
  pub use_cgroups : Bool
  pub phase_retry : ℤ
  pub pf9_status_threshold_seconds : ℤ
  pub kube_env_path : String
  pub resmgr_kube_env_path : String
  pub sunpike_config_path : String
  pub sunpike_kube_env_path : String
  pub disable_sunpike : Bool
  pub disable_loop : Bool
  pub disable_ext_file : Bool
  pub disable_scripts : Bool
  pub disable_config_update : Bool
  pub disable_exit_on_update : Bool

-- `DefaultConfig`, at these fields. Go's zero values stand where the source sets nothing.
unfoldable pub default_config : Config
default_config = record {
  cluster_role = role_none;
  cluster_id = "";
  kube_service_state = service_state_ignore;
  full_retry_count = pos 10;
  use_cgroups = true;
  phase_retry = pos 3;
  pf9_status_threshold_seconds = pos 0;
  kube_env_path = "/etc/pf9/kube.env";
  resmgr_kube_env_path = "/etc/pf9/kube_resmgr.env";
  sunpike_config_path = "/etc/pf9/nodelet/config_sunpike.yaml";
  sunpike_kube_env_path = "/etc/pf9/kube_sunpike.env";
  disable_sunpike = false;
  disable_loop = false;
  disable_ext_file = false;
  disable_scripts = false;
  disable_config_update = false;
  disable_exit_on_update = false;
}
