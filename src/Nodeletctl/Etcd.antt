-- ===== src/Nodeletctl/Etcd.antt =====
-- The members of etcd, in nodeletctl/pkg/nodeletctl/etcd.go.
use Prim.Native.String.{◌++◌}
use nodelet.Shared.{ℕ, String, Bool, List, [], ◌∷◌, ◌==◌, eqb, if◌then◌else◌, map}
use nodelet.Nodeletctl.State.{
  HostConfig, init_client, member_add, member_list, member_remove, World, Ctl, Result, error, ◌>>=◌,
  must, try_step,
}
use nodelet.Nodeletctl.Nodes.{address}

-- The address of a host as `InitEtcdClient` writes it.
abbrev pub endpoint : Bool → HostConfig → String
endpoint ipv6 h =
    if ipv6 then "https://[" ++ address h ++ "]:4001" else "https://" ++ address h ++ ":4001"

-- The address of a member, without the brackets of an IPv6 address.
abbrev pub peer : String → String
peer host_ip = "https://" ++ host_ip ++ ":2380"

-- The first member of a name, or 0.
unfoldable pub find_member : String → List (String × ℕ) → ℕ
find_member name [] = 0
find_member name ((other, id) ∷ members) =
    let rest = find_member name members in if name == other then id else rest

module _ (w : World) where
  -- `InitEtcdClient`.
  unfoldable pub init_etcd_client : List HostConfig → Ctl → Result Ctl
  init_etcd_client masters c = must w (init_client (map (endpoint c.config.ipv6_enabled) masters)) c

  -- `AddNodeToEtcd`.
  unfoldable pub add_node_to_etcd : List HostConfig → String → Ctl → Result Ctl
  add_node_to_etcd masters host_ip c = do
    c1 ← init_etcd_client masters c
    must w (member_add (peer host_ip)) c1

  -- `findEtcdMemberByIp`, which looks at the names of the members.
  unfoldable pub find_etcd_member_by_ip : String → Ctl → ℕ × Ctl
  find_etcd_member_by_ip host_ip c =
      let c1 = try_step member_list c in
      let id = find_member host_ip (w.members c1.steps) in
      (if w.fails c.steps member_list then 0 else id, c1)

  -- `RemoveNodeFromEtcd`.
  unfoldable pub remove_node_from_etcd : List HostConfig → String → Ctl → Result Ctl
  remove_node_from_etcd masters host_ip c = do
    c1 ← init_etcd_client masters c
    let (id, c2) = find_etcd_member_by_ip host_ip c1
    if eqb id 0 then error c2 else must w (member_remove id) c2
