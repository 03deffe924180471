-- ===== src/Nodeletctl/Masters.antt =====
-- `AddMasters` and `RemoveMasters` of nodeletctl/pkg/nodeletctl/nodeletctl.go. The map of statuses
-- is left out: nothing here reads it.
pub mod Quiet
pub mod Joined
pub mod Departed
use nodelet.Shared.{
  ℕ, suc, ◌+◌, ◌-◌, String, Bool, true, false, List, [], ◌∷◌, ◌++◌, Option, none, some, ◌==◌,
  if◌then◌else◌, length, get_elem?, set, take, insert,
}
use nodelet.Nodeletctl.State.{
  HostConfig, NodeletConfig, gen_config, deployer, spawn_master, delete_nodelet, World, Ctl, Result,
  ok, error, waiting, panicked, ◌>>=◌, must, try_step,
}
use nodelet.Nodeletctl.Nodes.{address, node_config}
use nodelet.Nodeletctl.Sync.{sync_nodes}
use nodelet.Nodeletctl.Etcd.{add_node_to_etcd, remove_node_from_etcd}

-- `masterList`, over hosts.
unfoldable pub master_list_of : List HostConfig → List (String × String) → List (String × String)
master_list_of [] m = m
master_list_of (h ∷ hosts) m = master_list_of hosts (insert h.node_name (address h) m)

-- The assignment of the last master, which is there in a list that is not empty.
unfoldable pub put_at : ℕ → Option HostConfig → List HostConfig → List HostConfig
put_at i none all = all
put_at i (some h) all = set all i h

-- The loop at the end of `RemoveMasters`: the last master takes the place of the first one that has
-- the name. The index is that of the master at the head, in the whole list.
unfoldable pub drop_master : String → List HostConfig → ℕ → List HostConfig → List HostConfig
drop_master name [] i all = all
drop_master name (master ∷ masters) i all =
    let next = drop_master name masters (i + 1) all in
    let last = length all - 1 in
    if name == master.node_name then take last (put_at i (get_elem? all last) all) else next

unfoldable pub remove_master : String → List HostConfig → List HostConfig
remove_master name masters = drop_master name masters 0 masters

module _ (w : World) (ticks : ℕ) where
  -- What `AddMasters` does for a new master.
  unfoldable pub add_master :
      ℕ
      → HostConfig
      → List (String × String)
      → List HostConfig
      → Ctl
      → Result (List (String × String) × Ctl)
  add_master num h list curr c = do
    let (c1, n) = node_config h c
    let list1 = insert h.node_name n.host_ip list
    let node = record n {
      nodelet_role = "master";
      etcd_cluster_state = "existing";
      master_list = list1;
    }
    c2 ← must w (gen_config node) c1
    c3 ← must w (deployer node) c2
    c4 ← add_node_to_etcd w curr n.host_ip c3
    c5 ← sync_nodes w ticks (some (h ∷ [])) (try_step (spawn_master num node) c4)
    ok (list1, c5)

  -- The loop of `AddMasters`: the masters after it, and the command.
  unfoldable pub add_masters_from :
      ℕ
      → List HostConfig
      → List (String × String)
      → List HostConfig
      → Ctl
      → Result (List HostConfig × Ctl)
  add_masters_from num [] list curr c = ok (curr, c)
  add_masters_from num (h ∷ hosts) list curr c = do
    (list1, c1) ← add_master num h list curr c
    add_masters_from (num + 1) hosts list1 (curr ++ h ∷ []) c1

  -- `AddMasters`.
  unfoldable pub add_masters :
      List HostConfig → List HostConfig → Ctl → Result (List HostConfig × Ctl)
  add_masters curr new c = add_masters_from 0 new (master_list_of curr []) curr c

  -- What follows `SyncNodes` in `RemoveMasters`, whose error is ignored.
  unfoldable pub ignore_error : Result Ctl → Result Ctl
  ignore_error (ok c) = ok c
  ignore_error (error c) = ok c
  ignore_error (waiting c) = waiting c
  ignore_error (panicked c) = panicked c

  -- What `RemoveMasters` does for an old master.
  unfoldable pub remove_old_master :
      HostConfig → List HostConfig → Ctl → Result (List HostConfig × Ctl)
  remove_old_master h curr c = do
    let (c1, node) = node_config h c
    c2 ← remove_node_from_etcd w curr node.host_ip c1
    c3 ← must w (deployer node) c2
    c4 ← must w (delete_nodelet node) c3
    let curr1 = remove_master h.node_name curr
    c5 ← ignore_error (sync_nodes w ticks (some curr1) c4)
    ok (curr1, c5)

  -- `RemoveMasters`.
  unfoldable pub remove_masters :
      List HostConfig → List HostConfig → Ctl → Result (List HostConfig × Ctl)
  remove_masters curr [] c = ok (curr, c)
  remove_masters curr (h ∷ hosts) c = do
    (curr1, c1) ← remove_old_master h curr c
    remove_masters curr1 hosts c1
