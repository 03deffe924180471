-- ===== src/Deployer/Nodes.antt =====
-- The operations of nodeletctl/pkg/nodeletctl/deployer.go on a whole node: its deployment, upgrade
-- and reconfiguration, and the renewal of its certificates.
use nodelet.Shared.{String, Option, none, some}
use nodelet.Deployer.State.{Log, Remote, Error, Result, M, ◌>>◌}
use nodelet.Deployer.Files.{
  NodeletDeployer, upload_certs, copy_nodelet_config, upload_user_images,
  upload_core_dns_hosts_file, create_pf9_user, set_pf9_ownerships, start_nodelet, restart_nodelet,
  nodelet_stack_restart, delete_old_certs, delete_cni_dir, refresh_nodelet_status,
}
use nodelet.Deployer.Packages.{uninstall_nodelet, install_nodelet}

-- What a node's entry in the cluster status gets: its health, and an error.
abbrev pub Report : Type 0
Report = String × Option Error

-- The report of an operation, under the health that an error goes with.
abbrev pub report : String → Result String → Report × Log
report health (Result.ok s l) = ((s, none), l)
report health (Result.err e l) = ((health, some e), l)

module _ (r : Remote) (d : NodeletDeployer) where
  -- `DeployNodelet`.
  unfoldable pub deploy_nodelet : M (Unit {0})
  deploy_nodelet = do
    create_pf9_user r
    upload_certs r d
    upload_user_images r d
    upload_core_dns_hosts_file r d
    copy_nodelet_config r d
    install_nodelet r d
    set_pf9_ownerships r
    start_nodelet r

  -- `UpgradeMaster`.
  unfoldable pub upgrade_master : M (Unit {0})
  upgrade_master = do
    uninstall_nodelet r d "nodelet"
    copy_nodelet_config r d
    install_nodelet r d
    restart_nodelet r

  -- `ReconfigureNodelet`.
  unfoldable pub reconfigure_nodelet : M (Unit {0})
  reconfigure_nodelet = do copy_nodelet_config r d; restart_nodelet r

  -- `UploadCertsAndRestartStack`.
  unfoldable pub upload_certs_and_restart_stack : M (Unit {0})
  upload_certs_and_restart_stack = do
    upload_certs r d
    delete_old_certs r
    delete_cni_dir r
    nodelet_stack_restart r

  unfoldable pub refreshed : Result (Unit {0}) → Report × Log
  refreshed (Result.ok _ l) = report "" (refresh_nodelet_status r d l)
  refreshed (Result.err e l) = (("failed", some e), l)

  -- `SpawnMaster` and `SpawnWorker`, which differ in their messages.
  unfoldable pub spawn_node : Log → Report × Log
  unfolding refreshed
  spawn_node l = refreshed (deploy_nodelet l)

  upgraded : Result (Unit {0}) → Option Report × Log
  upgraded (Result.ok _ l) = (none, l)
  upgraded (Result.err e l) = (some ("failed", some e), l)

  -- `UpgradeWorker`, with the steps of `UpgradeMaster`: the report, if it makes one.
  unfoldable pub upgrade_worker : Log → Option Report × Log
  unfolding upgraded
  upgrade_worker l = upgraded (upgrade_master l)
