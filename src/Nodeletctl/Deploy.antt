-- ===== src/Nodeletctl/Deploy.antt =====
-- `CreateCluster`, `DeployCluster` and `DeleteCluster` of nodeletctl/pkg/nodeletctl/nodeletctl.go, past
-- the parse of the description, and `InitBootstrapConfig`.
use nodelet.Shared.{
  ℕ, ◌+◌, String, Bool, true, false, List, [], ◌∷◌, ◌++◌, none, ◌==◌, if◌then◌else◌, pos,
}
use nodelet.Nodeletctl.State.{
  HostConfig, BootstrapConfig, NodeletConfig, current_masters, gen_config, deployer, spawn_master,
  delete_nodelet, gen_ca, trust_ca, gen_kubeconfig, save_cluster_config, stat_image, World, Ctl,
  Result, ok, error, waiting, panicked, ◌>>=◌, settle, must, try_step,
}
use nodelet.Nodeletctl.Nodes.{address, set_nodelet_cluster_cfg, node_config}
use nodelet.Nodeletctl.Sync.{sync_nodes}
use nodelet.Nodeletctl.Masters.{master_list_of}
use nodelet.Nodeletctl.Workers.{deploy_workers}

-- `InitBootstrapConfig`, at the fields of the description that are modelled.
unfoldable pub init_bootstrap_config : BootstrapConfig
init_bootstrap_config = record {
  certs_dir = "";
  cluster_id = "airctl-mgmt";
  allow_workloads_on_master = false;
  k8s_api_port = "443";
  master_ip = "";
  master_vip_enabled = false;
  master_vip_interface = "";
  master_vip_vrouter_id = pos 0;
  mtu = "1440";
  privileged = "true";
  container_runtime = ("containerd", "systemd");
  user_images = [];
  hosts_file = "";
  use_hostname = false;
  ipv6_enabled = false;
  calico = record {
    v4_interface = "first-found";
    v6_interface = "first-found";
    v4_containers_cidr = "10.20.0.0/22";
    v6_containers_cidr = "fd00:101::/116";
    v4_block_size = pos 26;
    v6_block_size = pos 122;
    v4_nat_outgoing = true;
    v6_nat_outgoing = false;
    v4_ip_ip_mode = "Always";
  };
  services_cidr = "";
  master_nodes = [];
  worker_nodes = [];
}

-- `SyncNodes` where its error is ignored; a wait that does not end is not.
unfoldable pub drop_error : Result Ctl → Result Ctl
drop_error (ok c) = ok c
drop_error (error c) = ok c
drop_error (waiting c) = waiting c
drop_error (panicked c) = panicked c

-- What a master is told when the whole cluster is at hand.
unfoldable pub master_config : HostConfig → Ctl → Ctl × NodeletConfig
master_config h c =
    let (c1, n) = node_config h c in
    (
      c1,
      record n {
        nodelet_role = "master";
        master_list = master_list_of c.config.master_nodes [];
        etcd_cluster_state = "new";
      },
    )

-- What `DeleteCluster` tells a node: its ID is not set.
unfoldable pub delete_config : HostConfig → Ctl → Ctl × NodeletConfig
delete_config h c =
    let (cfg, n) = set_nodelet_cluster_cfg c.config in
    (record c { config = cfg }, record n { host_ip = address h })

module _ (w : World) where
  -- The loop over the images.
  unfoldable pub stat_images : List String → Ctl → Result Ctl
  stat_images [] c = ok c
  stat_images (path ∷ images) c = do c1 ← must w (stat_image path) c; stat_images images c1

  -- The loop of `DeployCluster` over the masters; the error of `SpawnMaster` is only logged.
  unfoldable pub deploy_masters : ℕ → List HostConfig → Ctl → Result Ctl
  deploy_masters num [] c = ok c
  deploy_masters num (h ∷ hosts) c = do
    let (c1, node) = master_config h c
    c2 ← stat_images node.user_images c1
    c3 ← must w (gen_config node) c2
    c4 ← must w (deployer node) c3
    deploy_masters (num + 1) hosts (try_step (spawn_master num node) c4)

  -- The first `if` of `DeployCluster`; `dir` is what `GenCALocal` returns.
  unfoldable pub make_certs : String → Ctl → Result Ctl
  make_certs dir c =
      let made = must w gen_ca c in
      if c.config.certs_dir == ""
      then (made >>= λ c1. ok (record c1 { config = record c1.config { certs_dir = dir } }))
      else ok c

  -- `DeployCluster`.
  unfoldable pub deploy_cluster : ℕ → String → Ctl → Result Ctl
  deploy_cluster ticks dir c = do
    c1 ← make_certs dir c
    c2 ← must w trust_ca c1
    c3 ← must w gen_kubeconfig c2
    c4 ← deploy_masters 0 c3.config.master_nodes c3
    c5 ← deploy_workers w c4.config.worker_nodes c4
    drop_error (sync_nodes w ticks none c5)

  -- The look for an active cluster in `CreateCluster`: whether its masters are known and some.
  is_active : Bool → List String → Bool
  is_active true masters = false
  is_active false [] = false
  is_active false (_ ∷ _) = true

  -- `CreateCluster`.
  unfoldable pub create_cluster : ℕ → String → Ctl → Result Ctl
  unfolding is_active
  create_cluster ticks dir c =
      let c1 = try_step current_masters c in
      let deployed = deploy_cluster ticks dir c1 >>= must w save_cluster_config in
      if is_active (w.fails c.steps current_masters) (w.nodes c1.steps current_masters)
      then error c1
      else deployed

  -- The loop of `DeleteCluster`, with whether a deletion failed so far.
  unfoldable pub delete_nodes : Bool → List HostConfig → Ctl → Result Ctl
  delete_nodes failed [] c = settle failed c
  delete_nodes failed (h ∷ hosts) c = do
    let (c1, node) = delete_config h c
    c2 ← must w (deployer node) c1
    let failed1 = (if w.fails c2.steps (delete_nodelet node) then true else failed)
    delete_nodes failed1 hosts (try_step (delete_nodelet node) c2)

  -- `DeleteCluster`.
  unfoldable pub delete_cluster : Ctl → Result Ctl
  delete_cluster c = delete_nodes false (c.config.worker_nodes ++ c.config.master_nodes) c
