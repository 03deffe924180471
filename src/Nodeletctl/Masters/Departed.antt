-- ===== src/Nodeletctl/Masters/Departed.antt =====
-- The list of masters in `RemoveMasters` of nodeletctl/pkg/nodeletctl/nodeletctl.go.
use mathlib.Core.Path.{subst}
use nodelet.Shared.{
  ℕ, ◌+◌, ◌≡◌, refl, sym, String, true, false, ◌||◌, List, [], ◌∷◌, ◌++◌, some, arith, eq_iff,
  eq_refl,
}
use nodelet.Nodeletctl.State.{
  HostConfig, deployer, delete_nodelet, World, Ctl, Result, ok, error, waiting, panicked, must,
  Holds, Holds-bind,
}
use nodelet.Nodeletctl.Nodes.{node_config, get_diff_nodes}
use nodelet.Nodeletctl.Nodes.Partition.{is_named, get_diff_nodes-partition}
use nodelet.Nodeletctl.Sync.{sync_nodes}
use nodelet.Nodeletctl.Etcd.{remove_node_from_etcd}
use nodelet.Nodeletctl.Masters.{
  drop_master, remove_master, ignore_error, remove_old_master, remove_masters,
}

drop_master-absent :
    (name : String) (masters : List HostConfig) (i : ℕ) (all : List HostConfig)
    → is_named name masters ≡ false
    → drop_master name masters i all ≡ all
unfolding drop_master
drop_master-absent name [] i all h = refl
drop_master-absent name (m ∷ masters) i all h = ground (
  arith,
  drop_master-absent name masters (i + 1) all (ground (arith, h)),
  eq_iff name m.node_name,
  eq_iff m.node_name name,
  h,
)

-- None of the hosts has the name of a master.
abbrev AreApart : List HostConfig → List HostConfig → Type 0
AreApart [] masters = Unit
AreApart (h ∷ hosts) masters = (is_named h.node_name masters ≡ false) × AreApart hosts masters

Holds-any : {A : Type 0} (r : Result A) → Holds (λ _. Unit) r
Holds-any (ok a) = tt
Holds-any (error c) = tt
Holds-any (waiting c) = tt
Holds-any (panicked c) = tt

module _ (w : World) (ticks : ℕ) where
  remove_old_master-keeps :
      (h : HostConfig) (masters : List HostConfig) (c : Ctl)
      → is_named h.node_name masters ≡ false
      → Holds (λ r. r.0 ≡ masters) (remove_old_master w ticks h masters c)
  unfolding remove_old_master remove_master
  remove_old_master-keeps h masters c apart =
      let (c1, node) = node_config h c in
      let same : List HostConfig × Ctl → Type 0 = λ r. r.0 ≡ masters in
      let any : Ctl → Type 0 = λ _. Unit in
      let masters1 = remove_master h.node_name masters in
      Holds-bind any same (remove_node_from_etcd w masters node.host_ip c1) _ (Holds-any _) (λ c2 _.
        Holds-bind any same (must w (deployer node) c2) _ (Holds-any _) (λ c3 _.
          Holds-bind any same (must w (delete_nodelet node) c3) _ (Holds-any _) (λ c4 _.
            Holds-bind any same (ignore_error w ticks (sync_nodes w ticks (some masters1) c4)) _
              (Holds-any _) (λ c5 _. drop_master-absent h.node_name masters 0 masters apart))))

  remove_masters-keeps :
      (masters old : List HostConfig) (c : Ctl)
      → AreApart old masters
      → Holds (λ r. r.0 ≡ masters) (remove_masters w ticks masters old c)
  unfolding remove_masters
  remove_masters-keeps masters [] c apart = refl
  remove_masters-keeps masters (h ∷ old) c apart =
      Holds-bind (λ r. r.0 ≡ masters) (λ r. r.0 ≡ masters) (remove_old_master w ticks h masters c) _
        (remove_old_master-keeps h masters c apart.0)
        (λ r same.
          subst
            (λ (l : List HostConfig). Holds (λ q. q.0 ≡ masters) (remove_masters w ticks l old r.1))
            (sym same) (remove_masters-keeps masters old r.1 apart.1))

named-append :
    (name : String) (xs ys : List HostConfig)
    → is_named name (xs ++ ys) ≡ (is_named name xs || is_named name ys)
named-append name [] ys = refl
named-append name (x ∷ xs) ys = ground (arith, named-append name xs ys)

AreApart-named :
    (old masters : List HostConfig)
    → ((name : String) → is_named name old ≡ true → is_named name masters ≡ false)
    → AreApart old masters
AreApart-named [] masters h = tt
AreApart-named (g ∷ old) masters h = (
  h g.node_name (ground (arith, eq_refl g.node_name)),
  AreApart-named old masters (λ name e. h name (ground (arith, e))),
)

-- With the nodes that `getDiffNodes` makes of any description and any active masters, if
-- `RemoveMasters` returns without an error then its list of masters is unchanged: the loop that
-- drops a deleted master from the list never finds it there.
pub remove_masters-keeps_desired :
    (w : World) (ticks : ℕ) (desired : List HostConfig) (active : List String) (c : Ctl)
    → let diff = get_diff_nodes desired active in
      let masters = diff.curr_nodes ++ diff.new_nodes in
      Holds (λ r. r.0 ≡ masters) (remove_masters w ticks masters diff.old_nodes c)
remove_masters-keeps_desired w ticks desired active c =
    let diff = get_diff_nodes desired active in
    let masters = diff.curr_nodes ++ diff.new_nodes in
    remove_masters-keeps w ticks masters diff.old_nodes c (
      AreApart-named diff.old_nodes masters (λ name e.
        let (new, old, curr) = get_diff_nodes-partition desired active name in
        ground (arith, new, old, curr, e, named-append name diff.curr_nodes diff.new_nodes)))
