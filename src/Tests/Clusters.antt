-- ===== src/Tests/Clusters.antt =====
-- The command of nodeletctl/pkg/nodeletctl at concrete inputs.
use nodelet.Shared.{
  some, Bool, lookup, insert, ◌≡◌, ◌↔◌, refl, String, true, false, not, ◌&&◌, List, [], ◌∷◌, ◌++◌,
  none, pos,
}
use nodelet.Nodeletctl.State.{HostConfig, BootstrapConfig, World, Ctl, ok, Holds, current_masters}
use nodelet.Nodeletctl.Nodes.{
  is_cluster_cfg_valid, get_diff_nodes, node_config, set_nodelet_cluster_cfg,
}
use nodelet.Nodeletctl.Nodes.Partition.{is_named, is_among, get_diff_nodes-partition}
use nodelet.Nodeletctl.Nodes.Validity.{IsValid, is_cluster_cfg_valid_iff}
use nodelet.Nodeletctl.Sync.{
  StatusMap, node_healthy, sync_and_retry, sync_nodes, get_cluster_nodelet_status, sync_loop,
  sync_node, refreshed, nodes_to_sync,
}
use nodelet.Nodeletctl.Sync.Healthy.{
  all_healthy, all_present, sync_and_retry-closes, sync_nodes-returns,
}
use nodelet.Nodeletctl.Masters.Quiet.{visits}
use nodelet.Nodeletctl.Upgrade.{is_same, upgrade_masters, upgrade_workers, upgrade_cluster}
use nodelet.Nodeletctl.Upgrade.Matched.{Matched, upgrade_cluster-Matched}
use nodelet.Nodeletctl.Renew.{regen_cluster_certs}
use nodelet.Nodeletctl.Renew.Ordered.{regen_cluster_certs-ordered}
use nodelet.Nodeletctl.Scale.{current}
use nodelet.Nodeletctl.Deploy.{master_config, drop_error}
use nodelet.Nodeletctl.Masters.{master_list_of, add_masters, remove_masters}
use nodelet.Nodeletctl.Masters.Joined.{joined, IsJoined, add_masters-IsJoined, add_masters-grows}
use nodelet.Nodeletctl.Masters.Departed.{remove_masters-keeps_desired}

abbrev pub host : String → HostConfig
host name = record { node_name = name; node_ip = none }

abbrev pub config : BootstrapConfig
config = record {
  certs_dir = "";
  cluster_id = "c1";
  allow_workloads_on_master = false;
  k8s_api_port = "443";
  master_ip = "";
  master_vip_enabled = true;
  master_vip_interface = "eth0";
  master_vip_vrouter_id = pos 7;
  mtu = "1440";
  privileged = "true";
  container_runtime = ("containerd", "systemd");
  user_images = [];
  hosts_file = "/etc/hosts";
  use_hostname = false;
  ipv6_enabled = false;
  calico = record {
    v4_interface = "first-found";
    v6_interface = "first-found";
    v4_containers_cidr = "10.20.0.0/22";
    v6_containers_cidr = "fd00:101::/116";
    v4_block_size = pos 26;
    v6_block_size = pos 122;
    v4_nat_outgoing = true;
    v6_nat_outgoing = false;
    v4_ip_ip_mode = "Always";
  };
  services_cidr = "";
  master_nodes = host "m1" ∷ host "m2" ∷ host "m3" ∷ [];
  worker_nodes = host "w1" ∷ [];
}

-- Surroundings in which all goes well.
abbrev calm : World
calm = record {
  fails = λ _ _. false;
  nodes = λ _ _. [];
  members = λ _. ("m4", 4) ∷ [];
  health = λ _. node_healthy;
}

abbrev ctl : Ctl
ctl = record { config = config; steps = [] }

get_diff_nodes-partition_example :
    let diff = get_diff_nodes config.master_nodes ("m1" ∷ "m4" ∷ []) in
    (is_named "m4" diff.new_nodes
      ≡ (is_named "m4" config.master_nodes && not (is_among "m4" ("m1" ∷ "m4" ∷ []))))
    × (is_named "m4" diff.old_nodes
        ≡ (is_among "m4" ("m1" ∷ "m4" ∷ []) && not (is_named "m4" config.master_nodes)))
    × (is_named "m4" diff.curr_nodes
        ≡ (is_named "m4" config.master_nodes && is_among "m4" ("m1" ∷ "m4" ∷ [])))
get_diff_nodes-partition_example =
    get_diff_nodes-partition config.master_nodes ("m1" ∷ "m4" ∷ []) "m4"

is_cluster_cfg_valid_iff_example : (is_cluster_cfg_valid config ≡ false) ↔ IsValid config
is_cluster_cfg_valid_iff_example = is_cluster_cfg_valid_iff config

-- The status of the masters, of which the first does not do well.
abbrev statuses : StatusMap
statuses =
    ("m1", record { node_health = "converging"; node = (node_config (host "m1") ctl).1 })
    ∷ ("m2", record { node_health = "ok"; node = (node_config (host "m2") ctl).1 })
    ∷ ("m3", record { node_health = "ok"; node = (node_config (host "m3") ctl).1 })
    ∷ []

sync_and_retry-closes_example :
    (all_present config.master_nodes statuses ≡ false
      → sync_and_retry calm config.master_nodes statuses ctl ≡ none)
    × (all_present config.master_nodes statuses ≡ true
        → (r : Bool × StatusMap × Ctl) × (sync_and_retry calm config.master_nodes statuses ctl
            ≡ some r)
          × (r.0 ≡ all_healthy config.master_nodes statuses))
    × (all_healthy config.master_nodes statuses ≡ true
        → sync_and_retry calm config.master_nodes statuses ctl ≡ some (true, statuses, ctl))
sync_and_retry-closes_example = sync_and_retry-closes calm config.master_nodes statuses ctl

sync_nodes-returns_example : (d : Ctl) × (sync_nodes calm 3 none ctl ≡ ok d)
sync_nodes-returns_example = sync_nodes-returns calm (λ t e. refl) (λ t. refl) 2 none ctl

add_masters-IsJoined_example :
    Holds
      (IsJoined
        (host "m1" ∷ host "m2" ∷ host "m3" ∷ [])
        (joined false (host "m1" ∷ []) (host "m2" ∷ host "m3" ∷ []) []))
      (add_masters calm 1 (host "m1" ∷ []) (host "m2" ∷ host "m3" ∷ []) ctl)
add_masters-IsJoined_example =
    add_masters-IsJoined calm 1 (host "m1" ∷ []) (host "m2" ∷ host "m3" ∷ []) ctl

add_masters-grows_example :
    (r : List HostConfig × Ctl) × (add_masters calm 1
        (host "m1" ∷ [])
        (host "m2" ∷ host "m3" ∷ [])
        ctl
      ≡ ok r)
    × IsJoined
        (host "m1" ∷ host "m2" ∷ host "m3" ∷ [])
        (joined false (host "m1" ∷ []) (host "m2" ∷ host "m3" ∷ []) [])
        r
add_masters-grows_example =
    add_masters-grows calm (λ t e. refl) (λ t. refl) 0 (host "m1" ∷ []) (host "m2" ∷ host "m3" ∷ [])
      ctl

remove_masters-keeps_desired_example :
    let diff = get_diff_nodes config.master_nodes ("m1" ∷ "m4" ∷ []) in
    let masters = diff.curr_nodes ++ diff.new_nodes in
    Holds (λ r. r.0 ≡ masters) (remove_masters calm 1 masters diff.old_nodes ctl)
remove_masters-keeps_desired_example =
    remove_masters-keeps_desired calm 1 config.master_nodes ("m1" ∷ "m4" ∷ []) ctl

-- The nodes of the description are those of the cluster.
abbrev matching : World
matching = record calm {
  nodes = λ steps e. elim e [ current_masters ↦ "m1" ∷ "m2" ∷ "m3" ∷ [] | _ ↦ "w1" ∷ [] ];
}

upgrade_cluster-Matched_example : Holds (Matched matching ctl) (upgrade_cluster matching 2 ctl)
upgrade_cluster-Matched_example = upgrade_cluster-Matched matching 2 ctl

upgrade_returns : (d : Ctl) × (upgrade_cluster matching 2 ctl ≡ ok d)
unfolding upgrade_cluster current is_same get_diff_nodes upgrade_masters upgrade_workers
    master_config node_config set_nodelet_cluster_cfg master_list_of drop_error sync_nodes
    get_cluster_nodelet_status sync_loop sync_and_retry sync_node refreshed nodes_to_sync lookup
    insert
upgrade_returns = (_, refl)

regen_cluster_certs-ordered_example :
    Holds (λ d. visits d.steps ≡ "m1" ∷ "w1" ∷ "m3" ∷ "m2" ∷ []) (regen_cluster_certs calm 1 ctl)
regen_cluster_certs-ordered_example =
    regen_cluster_certs-ordered calm 1 ctl (host "m1") (host "m2" ∷ host "m3" ∷ []) refl
