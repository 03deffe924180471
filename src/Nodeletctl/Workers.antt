-- ===== src/Nodeletctl/Workers.antt =====
-- `DeployWorkers` and `DeleteWorkers` of nodeletctl/pkg/nodeletctl/nodeletctl.go.
use nodelet.Shared.{List, [], ◌∷◌}
use nodelet.Nodeletctl.State.{
  HostConfig, gen_config, deployer, spawn_worker, delete_nodelet, World, Ctl, Result, ok, ◌>>=◌,
  must, try_step,
}
use nodelet.Nodeletctl.Nodes.{node_config}

module _ (w : World) where
  -- `DeployWorkers`. `SpawnWorker` runs beside the loop, and its error is dropped; the steps are
  -- those of a run in the order of the loop.
  unfoldable pub deploy_workers : List HostConfig → Ctl → Result Ctl
  deploy_workers [] c = ok c
  deploy_workers (h ∷ hosts) c = do
    let (c1, n) = node_config h c
    let node = record n { nodelet_role = "worker" }
    c2 ← must w (gen_config node) c1
    c3 ← must w (deployer node) c2
    deploy_workers hosts (try_step (spawn_worker node) c3)

  -- `DeleteWorkers`.
  unfoldable pub delete_workers : List HostConfig → Ctl → Result Ctl
  delete_workers [] c = ok c
  delete_workers (h ∷ hosts) c = do
    let (c1, node) = node_config h c
    c2 ← must w (deployer node) c1
    c3 ← must w (delete_nodelet node) c2
    delete_workers hosts c3
