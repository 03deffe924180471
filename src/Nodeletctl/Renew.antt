-- ===== src/Nodeletctl/Renew.antt =====
-- `RegenClusterCerts`, `regenCertsForHosts`, `ConfigClusterDNS` and `UploadHostsFile` of
-- nodeletctl/pkg/nodeletctl/nodeletctl.go, past the parse of the description.
pub mod Ordered
use nodelet.Shared.{ℕ, Bool, true, false, List, [], ◌∷◌, some, if◌then◌else◌}
use nodelet.Nodeletctl.State.{
  HostConfig, NodeletConfig, deployer, upload_certs_and_restart_stack, upload_core_dns_hosts_file,
  restart_nodelet, regen_ca, trust_ca, World, Ctl, Result, ok, error, ◌>>=◌, settle, must, try_step,
}
use nodelet.Nodeletctl.Nodes.{node_config}
use nodelet.Nodeletctl.Sync.{sync_nodes}

module _ (w : World) where
  -- The loop of `regenCertsForHosts`. `UploadCertsAndRestartStack` runs beside the loop, and its error
  -- is dropped; the steps are those of a run in the order of the loop.
  unfoldable pub renew_hosts : List HostConfig → Ctl → Result Ctl
  renew_hosts [] c = ok c
  renew_hosts (h ∷ hosts) c = do
    let (c1, node) = node_config h c
    c2 ← must w (deployer node) c1
    renew_hosts hosts (try_step (upload_certs_and_restart_stack node) c2)

  -- `regenCertsForHosts`.
  unfoldable pub regen_certs_for_hosts : ℕ → List HostConfig → Ctl → Result Ctl
  regen_certs_for_hosts ticks hosts c = do
    c1 ← renew_hosts hosts c
    sync_nodes w ticks (some hosts) c1

  -- The rounds of `RegenClusterCerts`; without a master the index panics, and the command ends.
  unfoldable pub regen_rounds : ℕ → List HostConfig → Ctl → Result Ctl
  regen_rounds ticks [] c = error c
  regen_rounds ticks (first ∷ others) c = do
    c1 ← regen_certs_for_hosts ticks others c
    c2 ← regen_certs_for_hosts ticks c1.config.worker_nodes c1
    regen_certs_for_hosts ticks (first ∷ []) c2

  -- `RegenClusterCerts`.
  unfoldable pub regen_cluster_certs : ℕ → Ctl → Result Ctl
  unfolding regen_rounds
  regen_cluster_certs ticks c = do
    c1 ← must w regen_ca c
    c2 ← must w trust_ca c1
    regen_rounds ticks c2.config.master_nodes c2

  -- The loop of `UploadHostsFile`, with the flag so far: a failed upload resets it.
  unfoldable pub upload_hosts : Bool → List HostConfig → Ctl → Result Ctl
  upload_hosts failed [] c = settle failed c
  upload_hosts failed (h ∷ hosts) c = do
    let (c1, node) = node_config h c
    c2 ← must w (deployer node) c1
    let failed1 = (if w.fails c2.steps (upload_core_dns_hosts_file node) then false else failed)
    let c3 = try_step (upload_core_dns_hosts_file node) c2
    let failed2 = (if w.fails c3.steps (restart_nodelet node) then true else failed1)
    upload_hosts failed2 hosts (try_step (restart_nodelet node) c3)

  -- `UploadHostsFile`, and so `ConfigClusterDNS`.
  unfoldable pub upload_hosts_file : Ctl → Result Ctl
  upload_hosts_file c = upload_hosts false c.config.master_nodes c
