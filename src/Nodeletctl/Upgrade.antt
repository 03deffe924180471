-- ===== src/Nodeletctl/Upgrade.antt =====
-- `UpgradeCluster` and `UpgradeWorkers` of nodeletctl/pkg/nodeletctl/nodeletctl.go, past the parse of
-- the description.
pub mod Matched
use nodelet.Shared.{
  ℕ, String, Bool, true, false, not, ◌&&◌, List, [], ◌∷◌, none, eqb, if◌then◌else◌, length,
}
use nodelet.Nodeletctl.State.{
  HostConfig, NodeletConfig, current_masters, current_workers, gen_config, deployer, upgrade_master,
  upgrade_worker, World, Ctl, Result, ok, error, ◌>>=◌, settle, must, try_step,
}
use nodelet.Nodeletctl.Nodes.{Diff, get_diff_nodes, node_config}
use nodelet.Nodeletctl.Sync.{sync_nodes}
use nodelet.Nodeletctl.Scale.{current}
use nodelet.Nodeletctl.Deploy.{master_config, drop_error}

abbrev pub is_empty : List HostConfig → Bool
is_empty [] = true
is_empty (_ ∷ _) = false

-- The two tests of `UpgradeCluster` on a kind of nodes: whether the description has those of the
-- cluster.
unfoldable pub is_same : List HostConfig → List String → Bool
is_same hosts active =
    let diff = get_diff_nodes hosts active in
    eqb (length hosts) (length active) && is_empty diff.new_nodes && is_empty diff.old_nodes

module _ (w : World) where
  -- The loop over the masters; the error of `UpgradeMaster` only goes to the map of statuses.
  unfoldable pub upgrade_masters : List HostConfig → Ctl → Result Ctl
  upgrade_masters [] c = ok c
  upgrade_masters (h ∷ hosts) c = do
    let (c1, node) = master_config h c
    c2 ← must w (gen_config node) c1
    c3 ← must w (deployer node) c2
    upgrade_masters hosts (try_step (upgrade_master node) c3)

  -- `UpgradeWorkers`. `UpgradeWorker` runs beside the loop; the steps are those of a run in the order
  -- of the loop.
  unfoldable pub upgrade_workers : List HostConfig → Ctl → Result Ctl
  upgrade_workers [] c = ok c
  upgrade_workers (h ∷ hosts) c = do
    let (c1, n) = node_config h c
    let node = record n { nodelet_role = "worker" }
    c2 ← must w (gen_config node) c1
    c3 ← must w (deployer node) c2
    upgrade_workers hosts (try_step (upgrade_worker node) c3)

  -- `UpgradeCluster`.
  unfoldable pub upgrade_cluster : ℕ → Ctl → Result Ctl
  upgrade_cluster ticks c = do
    (masters, c1) ← current w ticks current_masters c
    (workers, c2) ← current w ticks current_workers c1
    c3 ← settle (not (is_same c2.config.master_nodes masters)) c2
    c4 ← settle (not (is_same c3.config.worker_nodes workers)) c3
    c5 ← upgrade_masters c4.config.master_nodes c4
    c6 ← upgrade_workers c5.config.worker_nodes c5
    drop_error (sync_nodes w ticks none c6)
