-- ===== src/Registry.antt =====
-- nodelet/pkg/phases/register.go and phases.go: the phases of each role, and the check of their
-- order. A phase is what its constructor sets: the name and the order of its `HostPhase`.
pub mod Ordering
use nodelet.Shared.{
  ℕ, String, Bool, true, false, Option, none, some, List, [], ◌∷◌, ◌==◌, leb, if◌then◌else◌,
}
use nodelet.Config.{
  role_none, role_worker, role_master, auth_web_hook_phase_order, configure_cni_phase_order,
  configure_etcd_phase_order, configure_kubelet_phase_order, configure_network_phase_order,
  configure_runtime_phase_order, configure_start_keepalived_phase_order,
  deploy_app_catalog_phase_order, drain_pods_phase_order, dynamic_kubelet_config_phase_order,
  gen_certs_phase_order, kube_proxy_phase_order, kubeconfig_phase_order,
  label_taint_node_phase_order, load_image_phase_order, misc_phase_order, no_role_phase_order,
  pf9_core_dns_phase_order, start_etcd_phase_order, start_runtime_phase_order,
  uncordon_node_phase_order, wait_for_k8s_svc_phase_order,
}

-- A `PhaseInterface`, by what `GetPhaseName` and `GetOrder` return.
pub record Phase : Type 0 where
  pub name : String
  pub order : ℕ

abbrev pub gen_certs_phase : Phase
gen_certs_phase = record {
  name = "Generate certs / Send signing request to CA";
  order = gen_certs_phase_order;
}

abbrev pub prepare_kubeconfigs_phase : Phase
prepare_kubeconfigs_phase = record {
  name = "Prepare configuration";
  order = kubeconfig_phase_order;
}

abbrev pub containerd_config_phase : Phase
containerd_config_phase = record {
  name = "Configure Container Runtime";
  order = configure_runtime_phase_order;
}

abbrev pub containerd_run_phase : Phase
containerd_run_phase = record {
  name = "Start Container Runtime";
  order = start_runtime_phase_order;
}

abbrev pub load_image_phase : Phase
load_image_phase = record {
  name = "Load user images to container runtime";
  order = load_image_phase_order;
}

abbrev pub configure_etcd_phase : Phase
configure_etcd_phase = record { name = "Configure etcd"; order = configure_etcd_phase_order }

abbrev pub start_etcd_phase : Phase
start_etcd_phase = record { name = "Start etcd"; order = start_etcd_phase_order }

abbrev pub configure_network_phase : Phase
configure_network_phase = record {
  name = "Network configuration";
  order = configure_network_phase_order;
}

abbrev pub configure_cni_phase : Phase
configure_cni_phase = record { name = "Configure CNI plugin"; order = configure_cni_phase_order }

abbrev pub auth_webhook_phase : Phase
auth_webhook_phase = record {
  name = "Configure and start pf9-bouncer";
  order = auth_web_hook_phase_order;
}

abbrev pub misc_phase : Phase
misc_phase = record { name = "Miscellaneous scripts and checks"; order = misc_phase_order }

abbrev pub kubelet_configure_start_phase : Phase
kubelet_configure_start_phase = record {
  name = "Configure and Start kubelet";
  order = configure_kubelet_phase_order;
}

abbrev pub kube_proxy_start_phase : Phase
kube_proxy_start_phase = record {
  name = "Configure and start kube-proxy";
  order = kube_proxy_phase_order;
}

abbrev pub wait_for_k8s_svc_phase : Phase
wait_for_k8s_svc_phase = record {
  name = "Wait for k8s services and network to be up";
  order = wait_for_k8s_svc_phase_order;
}

abbrev pub label_taint_node_phase : Phase
label_taint_node_phase = record {
  name = "Apply and validate node taints";
  order = label_taint_node_phase_order;
}

abbrev pub dynamic_kubelet_config_phase : Phase
dynamic_kubelet_config_phase = record {
  name = "Apply dynamic kubelet configuration";
  order = dynamic_kubelet_config_phase_order;
}

abbrev pub uncordon_node_phase : Phase
uncordon_node_phase = record { name = "Uncordon node"; order = uncordon_node_phase_order }

abbrev pub deploy_app_catalog_phase : Phase
deploy_app_catalog_phase = record {
  name = "Deploy app catalog";
  order = deploy_app_catalog_phase_order;
}

abbrev pub configure_start_keepalived_phase : Phase
configure_start_keepalived_phase = record {
  name = "Configure and start Keepalived";
  order = configure_start_keepalived_phase_order;
}

abbrev pub pf9_core_dns_phase : Phase
pf9_core_dns_phase = record {
  name = "Configure and start coredns";
  order = pf9_core_dns_phase_order;
}

abbrev pub drain_node_phase : Phase
drain_node_phase = record {
  name = "Drain all pods (stop only operation)";
  order = drain_pods_phase_order;
}

abbrev pub no_role_phase : Phase
no_role_phase = record {
  name = "No role assigned. (Cleanup scripts only)";
  order = no_role_phase_order;
}

-- `validatePhaseOrdering`: whether it returns an error.
unfoldable pub validate_phase_ordering : List Phase → Bool
validate_phase_ordering [] = false
validate_phase_ordering (p ∷ []) = false
validate_phase_ordering (p ∷ q ∷ ps) =
    let rest = validate_phase_ordering (q ∷ ps) in if leb q.order p.order then true else rest

abbrev validated : List Phase → Option (List Phase)
validated ps = if validate_phase_ordering ps then none else some ps

abbrev pub master_phase_list : List Phase
master_phase_list =
    gen_certs_phase ∷ prepare_kubeconfigs_phase ∷ containerd_config_phase ∷ containerd_run_phase
    ∷ load_image_phase ∷ configure_etcd_phase ∷ start_etcd_phase ∷ configure_network_phase
    ∷ configure_cni_phase ∷ auth_webhook_phase ∷ misc_phase ∷ kubelet_configure_start_phase
    ∷ kube_proxy_start_phase ∷ wait_for_k8s_svc_phase ∷ label_taint_node_phase
    ∷ dynamic_kubelet_config_phase ∷ uncordon_node_phase ∷ deploy_app_catalog_phase
    ∷ configure_start_keepalived_phase ∷ pf9_core_dns_phase ∷ drain_node_phase ∷ []

abbrev pub worker_phase_list : List Phase
worker_phase_list =
    gen_certs_phase ∷ prepare_kubeconfigs_phase ∷ containerd_config_phase ∷ containerd_run_phase
    ∷ load_image_phase ∷ configure_network_phase ∷ configure_cni_phase ∷ misc_phase
    ∷ kubelet_configure_start_phase ∷ kube_proxy_start_phase ∷ wait_for_k8s_svc_phase
    ∷ label_taint_node_phase ∷ dynamic_kubelet_config_phase ∷ uncordon_node_phase ∷ drain_node_phase
    ∷ []

-- `GetMasterPhases`, `GetWorkerPhases` and `GetNoRolePhases`; `none` is an error.
unfoldable pub get_master_phases : Option (List Phase)
unfolding validate_phase_ordering
get_master_phases = validated master_phase_list

unfoldable pub get_worker_phases : Option (List Phase)
unfolding validate_phase_ordering
get_worker_phases = validated worker_phase_list

unfoldable pub get_no_role_phases : Option (List Phase)
get_no_role_phases = some (no_role_phase ∷ [])

-- The `switch` of `InitAndLoadRolePhases`, after `setupCgroup` set `err` or did not: the case of a
-- known role overwrites it. An unknown role has no phases, and that alone is no error.
unfoldable pub load_role_phases : Bool → String → Option (List Phase)
unfolding get_master_phases get_worker_phases get_no_role_phases
load_role_phases err role =
    if role == role_none
    then get_no_role_phases
    else if role == role_worker
    then get_worker_phases
    else if role == role_master
    then get_master_phases
    else if err
    then none
    else some []
