-- ===== src/Nodeletctl/Scale.antt =====
-- `ScaleCluster` of nodeletctl/pkg/nodeletctl/nodeletctl.go, past the parse of the description.
use nodelet.Shared.{ℕ, String, List, none, ◌==◌, if◌then◌else◌}
use nodelet.Nodeletctl.State.{
  Step, current_masters, current_workers, certs_exist, World, Ctl, Result, ok, ◌>>=◌, must,
}
use nodelet.Nodeletctl.Nodes.{Diff, get_diff_nodes}
use nodelet.Nodeletctl.Sync.{sync_nodes}
use nodelet.Nodeletctl.Masters.{add_masters, remove_masters}
use nodelet.Nodeletctl.Workers.{deploy_workers, delete_workers}

module _ (w : World) (ticks : ℕ) where
  -- `GetCurrentMasters` or `GetCurrentWorkers`.
  unfoldable pub current : Step → Ctl → Result (List String × Ctl)
  current e c = do c1 ← must w e c; ok (w.nodes c1.steps e, c1)

  -- The use of the certificates; `fails` at `certs_exist` means that there are none.
  unfoldable pub use_certs : String → Ctl → Result Ctl
  use_certs dir c =
      let found = must w certs_exist c in
      if c.config.certs_dir == ""
      then (found >>= λ c1. ok (record c1 { config = record c1.config { certs_dir = dir } }))
      else ok c

  -- The changes of `ScaleCluster`.
  unfoldable pub apply_diff : Diff → Diff → Ctl → Result Ctl
  apply_diff masters workers c = do
    (curr, c1) ← add_masters w ticks masters.curr_nodes masters.new_nodes c
    (_, c2) ← remove_masters w ticks curr masters.old_nodes c1
    c3 ← deploy_workers w workers.new_nodes c2
    c4 ← sync_nodes w ticks none c3
    delete_workers w workers.old_nodes c4

  -- `ScaleCluster`; `dir` is the directory that it makes of the cluster's ID.
  unfoldable pub scale_cluster : String → Ctl → Result Ctl
  scale_cluster dir c = do
    c1 ← use_certs dir c
    (masters, c2) ← current current_masters c1
    (workers, c3) ← current current_workers c2
    apply_diff (get_diff_nodes c3.config.master_nodes masters)
        (get_diff_nodes c3.config.worker_nodes workers) c3
