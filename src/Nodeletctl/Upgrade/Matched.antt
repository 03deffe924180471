-- ===== src/Nodeletctl/Upgrade/Matched.antt =====
-- Which nodes `UpgradeCluster` of nodeletctl/pkg/nodeletctl/nodeletctl.go upgrades, and when.
use mathlib.Core.Path.{subst}
use nodelet.Shared.{
  ℕ, ◌≡◌, refl, sym, ap, String, true, false, List, [], ◌∷◌, push, arith, none, Bool-cases, inl,
  inr,
}
use nodelet.Nodeletctl.State.{
  HostConfig, NodeletConfig, current_masters, current_workers, gen_config, deployer, upgrade_master,
  upgrade_worker, World, Ctl, Result, ok, error, waiting, panicked, ◌>>=◌, must, try_step, Holds,
  Holds-bind, Holds-weaken, Fails,
}
use nodelet.Nodeletctl.Nodes.{get_diff_nodes, node_config, set_nodelet_cluster_cfg}
use nodelet.Nodeletctl.Nodes.Partition.{is_named, is_among, get_diff_nodes-partition}
use nodelet.Nodeletctl.Sync.{sync_nodes}
use nodelet.Nodeletctl.Scale.{current}
use nodelet.Nodeletctl.Deploy.{master_config, drop_error}
use nodelet.Nodeletctl.Visits.{names, Went, Went-kept, must-Went}
use nodelet.Nodeletctl.Masters.Quiet.{
  visits, IsKept, IsKept-refl, sync_nodes-IsKept, sync_nodes-Fails,
}
use nodelet.Nodeletctl.Upgrade.{
  is_empty, is_same, upgrade_masters, upgrade_workers, upgrade_cluster,
}

-- A description has a node of a name exactly when the cluster does.
abbrev pub SameNames : List HostConfig → List String → Type 0
SameNames hosts active = (name : String) → is_named name hosts ≡ is_among name active

empty-is_named :
    (name : String) (hosts : List HostConfig) → is_empty hosts ≡ true → is_named name hosts ≡ false
empty-is_named name [] h = refl
empty-is_named name (x ∷ hosts) h = cc

is_same-SameNames :
    (hosts : List HostConfig) (active : List String)
    → is_same hosts active ≡ true
    → SameNames hosts active
unfolding is_same
is_same-SameNames hosts active h name =
    let diff = get_diff_nodes hosts active in
    let (new, old, _) = get_diff_nodes-partition hosts active name in
    ground (arith, new, old, empty-is_named name diff.new_nodes, empty-is_named name diff.old_nodes)

module _ (w : World) (b : Ctl) where
  upgrade_masters-Went :
      (hosts : List HostConfig) (seen : List String) (c : Ctl)
      → Went b seen c
      → Holds (Went b (push (names hosts) seen)) (upgrade_masters w hosts c)
  unfolding upgrade_masters master_config node_config set_nodelet_cluster_cfg
  upgrade_masters-Went [] seen c g = g
  upgrade_masters-Went (h ∷ hosts) seen c g =
      let (c1, node) = master_config h c in
      Holds-bind (Went b seen) (Went b (push (names (h ∷ hosts)) seen))
        (must w (gen_config node) c1) _
        (must-Went w b seen (gen_config node) c1 refl
          (record { visited = g.visited; masters = g.masters; workers = g.workers }))
        λ c2 g2.
          Holds-bind (Went b seen) (Went b (push (names (h ∷ hosts)) seen))
            (must w (deployer node) c2) _ (must-Went w b seen (deployer node) c2 refl g2)
            λ c3 g3.
              upgrade_masters-Went hosts (h.node_name ∷ seen) (try_step (upgrade_master node) c3)
                (record {
                  visited = ap (λ l. h.node_name ∷ l) g3.visited;
                  masters = g3.masters;
                  workers = g3.workers;
                })

  upgrade_workers-Went :
      (hosts : List HostConfig) (seen : List String) (c : Ctl)
      → Went b seen c
      → Holds (Went b (push (names hosts) seen)) (upgrade_workers w hosts c)
  unfolding upgrade_workers node_config set_nodelet_cluster_cfg
  upgrade_workers-Went [] seen c g = g
  upgrade_workers-Went (h ∷ hosts) seen c g =
      let (c1, n) = node_config h c in
      let node : NodeletConfig = record n { nodelet_role = "worker" } in
      Holds-bind (Went b seen) (Went b (push (names (h ∷ hosts)) seen))
        (must w (gen_config node) c1) _
        (must-Went w b seen (gen_config node) c1 refl
          (record { visited = g.visited; masters = g.masters; workers = g.workers }))
        λ c2 g2.
          Holds-bind (Went b seen) (Went b (push (names (h ∷ hosts)) seen))
            (must w (deployer node) c2) _ (must-Went w b seen (deployer node) c2 refl g2)
            λ c3 g3.
              upgrade_workers-Went hosts (h.node_name ∷ seen) (try_step (upgrade_worker node) c3)
                (record {
                  visited = ap (λ l. h.node_name ∷ l) g3.visited;
                  masters = g3.masters;
                  workers = g3.workers;
                })

-- What an upgrade that returns without an error says.
abbrev pub Matched : World → Ctl → Ctl → Type 0
Matched w c d =
    SameNames c.config.master_nodes (w.nodes (current_masters ∷ c.steps) current_masters)
    × SameNames c.config.worker_nodes
        (w.nodes (current_workers ∷ current_masters ∷ c.steps) current_workers)
    × (visits d.steps
        ≡ push (names c.config.worker_nodes) (push (names c.config.master_nodes) (visits c.steps)))

drop_error-Holds :
    (P : Ctl → Type 0) (r : Result Ctl) → Holds P r → Fails P r → Holds P (drop_error r)
unfolding drop_error
drop_error-Holds P (ok d) h g = h
drop_error-Holds P (error d) h g = g
drop_error-Holds P (waiting d) h g = tt
drop_error-Holds P (panicked d) h g = tt

module _ (w : World) (ticks : ℕ) where
  -- The wait at the end.
  waited-Went :
      (b c : Ctl) (seen : List String)
      → Went b seen c
      → Holds (Went b seen) (drop_error (sync_nodes w ticks none c))
  waited-Went b c seen g =
      Holds-weaken (IsKept c) (Went b seen) (drop_error (sync_nodes w ticks none c))
        (drop_error-Holds (IsKept c) (sync_nodes w ticks none c)
          (sync_nodes-IsKept w c ticks none c (IsKept-refl c))
          (sync_nodes-Fails w c ticks none c (IsKept-refl c)))
        (λ d k. Went-kept b c d seen k g)

  -- The upgrade itself, of a description that has the nodes of the cluster.
  upgraded-Went :
      (c : Ctl)
      → Holds
          (Went c (
            push
              (names c.config.worker_nodes)
              (push (names c.config.master_nodes) (visits c.steps))))
          (upgrade_masters w c.config.master_nodes c >>= λ c5.
            upgrade_workers w c5.config.worker_nodes c5 >>= λ c6.
            drop_error (sync_nodes w ticks none c6))
  upgraded-Went c =
      let masters = push (names c.config.master_nodes) (visits c.steps) in
      let all = push (names c.config.worker_nodes) masters in
      Holds-bind (Went c masters) (Went c all) (upgrade_masters w c.config.master_nodes c) _
        (upgrade_masters-Went w c c.config.master_nodes (visits c.steps) c
          (record { visited = refl; masters = refl; workers = refl }))
        λ c5 g5.
          Holds-bind (Went c all) (Went c all) (upgrade_workers w c5.config.worker_nodes c5) _
            (subst (λ hosts. Holds (Went c all) (upgrade_workers w hosts c5)) (sym g5.workers)
              (upgrade_workers-Went w c c.config.worker_nodes masters c5 g5))
            (λ c6 g6. waited-Went c c6 all g6)

  -- Whatever fails, if `UpgradeCluster` returns without an error then the description has a master,
  -- and a worker, of a name exactly when the cluster has one, and the upgrade went over every
  -- master and then over every worker of the description, each once and in the order of the
  -- description.
  pub upgrade_cluster-Matched : (c : Ctl) → Holds (Matched w c) (upgrade_cluster w ticks c)
  unfolding upgrade_cluster current
  upgrade_cluster-Matched c =
      let c1 : Ctl = record c { steps = current_masters ∷ c.steps } in
      let c2 : Ctl = record c1 { steps = current_workers ∷ c1.steps } in
      let masters = w.nodes c1.steps current_masters in
      let workers = w.nodes c2.steps current_workers in
      elim (Bool-cases (w.fails c.steps current_masters)) [
        | inl bad ↦ rw bad tt
        | inr good ↦ elim (Bool-cases (w.fails c1.steps current_workers)) [
          | inl bad ↦ rw (good, bad) tt
          | inr fine ↦ elim (Bool-cases (is_same c.config.master_nodes masters)) [
            | inr other ↦ rw (good, fine, other) tt
            | inl same ↦ elim (Bool-cases (is_same c.config.worker_nodes workers)) [
              | inr other ↦ rw (good, fine, same, other) tt
              | inl also ↦
                  rw (good, fine, same, also)
                    (Holds-weaken _ (Matched w c) _ (upgraded-Went c2) λ d g. (
                      is_same-SameNames c.config.master_nodes masters same,
                      is_same-SameNames c.config.worker_nodes workers also,
                      g.visited,
                    ))
            ]
          ]
        ]
      ]
