-- ===== src/Nodeletctl/Sync.antt =====
-- `SyncNodes`, `GetClusterNodeletStatus` and `SyncAndRetry` of
-- nodeletctl/pkg/nodeletctl/nodeletctl.go.
pub mod Healthy
use nodelet.Shared.{
  ℕ, zero, suc, String, Bool, true, false, ◌&&◌, List, [], ◌∷◌, ◌++◌, Option, none, some, ◌==◌,
  if◌then◌else◌, lookup, insert,
}
use nodelet.Nodeletctl.State.{
  HostConfig, NodeletConfig, deployer, refresh_status, World, Ctl, Result, ok, error, waiting,
  panicked, ◌>>=◌, must, try_step,
}
use nodelet.Nodeletctl.Nodes.{node_config}

abbrev pub node_healthy : String
node_healthy = "ok"

-- `NodeStatus`: the health, and the configuration that the deployer of the node has.
pub record NodeStatus : Type 0 where
  pub node_health : String
  pub node : NodeletConfig

abbrev pub StatusMap : Type 0
StatusMap = List (String × NodeStatus)

module _ (w : World) where
  -- What `RefreshNodeletStatus` returns, without its error: the empty health on an error.
  unfoldable pub refreshed : NodeletConfig → Ctl → String
  refreshed node c =
      let health = w.health (refresh_status node ∷ c.steps) in
      if w.fails c.steps (refresh_status node) then "" else health

  -- `GetClusterNodeletStatus`: a node whose status cannot be read keeps the empty health.
  unfoldable pub get_cluster_nodelet_status :
      List HostConfig → StatusMap → Ctl → Result (StatusMap × Ctl)
  get_cluster_nodelet_status [] m c = ok (m, c)
  get_cluster_nodelet_status (h ∷ hosts) m c = do
    let (c1, node) = node_config h c
    c2 ← must w (deployer node) c1
    get_cluster_nodelet_status hosts
        (insert h.node_name (record { node_health = refreshed node c2; node = node }) m)
        (try_step (refresh_status node) c2)

  -- What `SyncAndRetry` does for a node, and whether the node was healthy; `none` is the panic on the
  -- nil pointer of a node that is missing in the map.
  unfoldable pub sync_node :
      String → Option NodeStatus → StatusMap → Ctl → Option (Bool × StatusMap × Ctl)
  sync_node name none m c = none
  sync_node name (some status) m c = some (
      if status.node_health == node_healthy then (true, m, c) else (
        false,
        insert name (record status { node_health = refreshed status.node c }) m,
        try_step (refresh_status status.node) c,
      ))

  abbrev pub and_rest : Bool → Option (Bool × StatusMap × Ctl) → Option (Bool × StatusMap × Ctl)
  and_rest synced none = none
  and_rest synced (some (rest, m, c)) = some (synced && rest, m, c)

  abbrev pub then_rest :
      Option (Bool × StatusMap × Ctl)
      → (StatusMap → Ctl → Option (Bool × StatusMap × Ctl))
      → Option (Bool × StatusMap × Ctl)
  then_rest none next = none
  then_rest (some (synced, m, c)) next = and_rest synced (next m c)

  -- `SyncAndRetry`: whether it closes `done`; `none` is a panic.
  unfoldable pub sync_and_retry :
      List HostConfig → StatusMap → Ctl → Option (Bool × StatusMap × Ctl)
  sync_and_retry [] m c = some (true, m, c)
  sync_and_retry (h ∷ hosts) m c =
      then_rest (sync_node h.node_name (lookup h.node_name m) m c) (sync_and_retry hosts)

  abbrev pub after_retry :
      Option (Bool × StatusMap × Ctl) → (StatusMap → Ctl → Result Ctl) → Ctl → Result Ctl
  after_retry none next c = panicked c
  after_retry (some (true, m, c1)) next c = ok c1
  after_retry (some (false, m, c1)) next c = next m c1

  -- The loop of `SyncNodes` for `ticks` ticks: it has no end of its own but that all are healthy.
  unfoldable pub sync_loop : ℕ → List HostConfig → StatusMap → Ctl → Result Ctl
  sync_loop zero hosts m c = waiting c
  sync_loop (suc ticks) hosts m c = after_retry (sync_and_retry hosts m c) (sync_loop ticks hosts) c

  -- The given nodes, or all of them.
  unfoldable pub nodes_to_sync : Option (List HostConfig) → Ctl → List HostConfig
  nodes_to_sync none c = c.config.worker_nodes ++ c.config.master_nodes
  nodes_to_sync (some hosts) c = hosts

  -- `SyncNodes`, on the given nodes, or on all of them.
  unfoldable pub sync_nodes : ℕ → Option (List HostConfig) → Ctl → Result Ctl
  sync_nodes ticks which c = do
    (m, c1) ← get_cluster_nodelet_status (nodes_to_sync which c) [] c
    sync_loop ticks (nodes_to_sync which c) m c1
