-- ===== src/Nodeletctl/Nodes.antt =====
-- The description of a cluster and of its nodes in nodeletctl/pkg/nodeletctl/nodeletctl.go.
pub mod Partition
pub mod Validity
use nodelet.Shared.{
  ℕ, ◌%◌, String, Bool, true, false, not, ◌&&◌, ◌||◌, List, [], ◌∷◌, Option, none, some, ◌==◌, eqb,
  if◌then◌else◌, ℤ, pos, ltb_ℤ, length, lookup, insert,
}
use nodelet.Nodeletctl.State.{HostConfig, BootstrapConfig, NodeletConfig, Ctl}

-- The address of a host: its IP, or its name when there is none.
abbrev pub address : HostConfig → String
address h = elim h.node_ip [ none ↦ h.node_name | some ip ↦ ip ]

-- `isClusterCfgValid`: whether it returns an error.
unfoldable pub is_cluster_cfg_valid : BootstrapConfig → Bool
is_cluster_cfg_valid cfg =
    if eqb (length cfg.master_nodes) 0
    then true
    else if eqb (length cfg.master_nodes % 2) 0
    then true
    else if not cfg.allow_workloads_on_master && eqb (length cfg.worker_nodes) 0
    then true
    else if cfg.master_vip_enabled
    then (if cfg.master_vip_interface == ""
        then true
        else ltb_ℤ cfg.master_vip_vrouter_id (pos 1) || ltb_ℤ (pos 255) cfg.master_vip_vrouter_id)
    else false

abbrev default_v4_services_cidr : String
default_v4_services_cidr = "10.21.0.0/22"

abbrev default_v6_services_cidr : String
default_v6_services_cidr = "fd00:102::/116"

-- `setNodeletClusterCfg` on a new `NodeletConfig`.
unfoldable pub set_nodelet_cluster_cfg : BootstrapConfig → BootstrapConfig × NodeletConfig
set_nodelet_cluster_cfg cfg =
    let default =
      (if cfg.ipv6_enabled then default_v6_services_cidr else default_v4_services_cidr) in
    let cidr = (if cfg.services_cidr == "" then default else cfg.services_cidr) in
    let containers =
      (if cfg.ipv6_enabled then cfg.calico.v6_containers_cidr else cfg.calico.v4_containers_cidr) in
    (
      record cfg { services_cidr = cidr },
      record {
        allow_workloads_on_master = cfg.allow_workloads_on_master;
        calico_v4_interface = cfg.calico.v4_interface;
        calico_v6_interface = cfg.calico.v6_interface;
        cluster_id = cfg.cluster_id;
        container_runtime = cfg.container_runtime;
        etcd_cluster_state = "";
        host_id = "";
        host_ip = "";
        k8s_api_port = cfg.k8s_api_port;
        master_list = [];
        master_ip = cfg.master_ip;
        master_vip_enabled = cfg.master_vip_enabled;
        master_vip_interface = cfg.master_vip_interface;
        master_vip_vrouter_id = cfg.master_vip_vrouter_id;
        mtu = cfg.mtu;
        privileged = cfg.privileged;
        nodelet_role = "";
        user_images = cfg.user_images;
        core_dns_hosts_file = cfg.hosts_file;
        ipv6_enabled = cfg.ipv6_enabled;
        use_hostname = if cfg.ipv6_enabled then true else cfg.use_hostname;
        calico_ip4 = if cfg.ipv6_enabled then "none" else "autodetect";
        calico_ip6 = if cfg.ipv6_enabled then "autodetect" else "none";
        calico_v4_block_size = cfg.calico.v4_block_size;
        calico_v6_block_size = cfg.calico.v6_block_size;
        calico_v6_containers_cidr = cfg.calico.v6_containers_cidr;
        calico_v4_nat_outgoing = cfg.calico.v4_nat_outgoing;
        calico_v6_nat_outgoing = cfg.calico.v6_nat_outgoing;
        calico_v4_ip_ip_mode = cfg.calico.v4_ip_ip_mode;
        containers_cidr = containers;
        services_cidr = cidr;
      },
    )

-- How each operation begins for a host: the new `NodeletConfig` with the ID and address of the host.
unfoldable pub node_config : HostConfig → Ctl → Ctl × NodeletConfig
unfolding set_nodelet_cluster_cfg
node_config h c =
    let (cfg, n) = set_nodelet_cluster_cfg c.config in
    (record c { config = cfg }, record n { host_id = h.node_name; host_ip = address h })

-- Go's `struct{}`.
pub data Present : Type 0 where
  present : Present

-- A set of names, and the hosts by their names: the maps of `getDiffNodes`.
unfoldable pub active_nodes : List String → List (String × Present) → List (String × Present)
active_nodes [] m = m
active_nodes (name ∷ names) m = active_nodes names (insert name present m)

unfoldable pub desired_nodes :
    List HostConfig → List (String × HostConfig) → List (String × HostConfig)
desired_nodes [] m = m
desired_nodes (h ∷ hosts) m = desired_nodes hosts (insert h.node_name h m)

abbrev pub has {ℓ} : {A : Type ℓ} → String → List (String × A) → Bool
has name m = elim (lookup name m) [ none ↦ false | some _ ↦ true ]

-- The loop over the active nodes.
unfoldable pub old_nodes : List (String × Present) → List (String × HostConfig) → List HostConfig
old_nodes [] desired = []
old_nodes ((name, _) ∷ active) desired =
    let rest = old_nodes active desired in
    if has name desired then rest else record { node_name = name; node_ip = none } ∷ rest

-- The loop over the desired nodes: those with, or without, an active node of their name.
unfoldable pub nodes_by :
    Bool → List (String × HostConfig) → List (String × Present) → List HostConfig
nodes_by wanted [] active = []
nodes_by wanted ((name, h) ∷ desired) active =
    let rest = nodes_by wanted desired active in
    if (if has name active then wanted else not wanted) then h ∷ rest else rest

pub record Diff : Type 0 where
  pub new_nodes : List HostConfig
  pub old_nodes : List HostConfig
  pub curr_nodes : List HostConfig

-- `getDiffNodes`.
unfoldable pub get_diff_nodes : List HostConfig → List String → Diff
unfolding active_nodes desired_nodes nodes_by old_nodes
get_diff_nodes desired active =
    let a = active_nodes active [] in
    let d = desired_nodes desired [] in
    record {
      new_nodes = nodes_by false d a;
      old_nodes = old_nodes a d;
      curr_nodes = nodes_by true d a;
    }
