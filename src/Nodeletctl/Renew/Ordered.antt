-- ===== src/Nodeletctl/Renew/Ordered.antt =====
-- The order in which `RegenClusterCerts` of nodeletctl/pkg/nodeletctl/nodeletctl.go goes over the nodes.
use mathlib.Core.Path.{subst}
use nodelet.Shared.{ℕ, ◌≡◌, refl, sym, ap, ◌∙◌, String, List, [], ◌∷◌, push, some}
use nodelet.Nodeletctl.State.{
  HostConfig, deployer, upload_certs_and_restart_stack, regen_ca, trust_ca, World, Ctl, must,
  try_step, Holds, Holds-bind, Holds-weaken,
}
use nodelet.Nodeletctl.Nodes.{node_config, set_nodelet_cluster_cfg}
use nodelet.Nodeletctl.Sync.{sync_nodes}
use nodelet.Nodeletctl.Masters.Quiet.{visits, IsKept-refl, IsKept, sync_nodes-IsKept}
use nodelet.Nodeletctl.Visits.{names, Went, Went-kept, must-Went}
use nodelet.Nodeletctl.Renew.{renew_hosts, regen_certs_for_hosts, regen_rounds, regen_cluster_certs}

module _ (w : World) (ticks : ℕ) (b : Ctl) where
  renew_hosts-Went :
      (hosts : List HostConfig) (seen : List String) (c : Ctl)
      → Went b seen c
      → Holds (Went b (push (names hosts) seen)) (renew_hosts w hosts c)
  unfolding renew_hosts node_config set_nodelet_cluster_cfg
  renew_hosts-Went [] seen c g = g
  renew_hosts-Went (h ∷ hosts) seen c g =
      let (c1, node) = node_config h c in
      Holds-bind (Went b seen) (Went b (push (names (h ∷ hosts)) seen)) (must w (deployer node) c1)
        _
        (must-Went w b seen (deployer node) c1 refl
          (record { visited = g.visited; masters = g.masters; workers = g.workers }))
        λ c2 g2.
          renew_hosts-Went hosts (h.node_name ∷ seen)
            (try_step (upload_certs_and_restart_stack node) c2)
            (record {
              visited = ap (λ l. h.node_name ∷ l) g2.visited;
              masters = g2.masters;
              workers = g2.workers;
            })

  regen_certs_for_hosts-Went :
      (hosts : List HostConfig) (seen : List String) (c : Ctl)
      → Went b seen c
      → Holds (Went b (push (names hosts) seen)) (regen_certs_for_hosts w ticks hosts c)
  unfolding regen_certs_for_hosts
  regen_certs_for_hosts-Went hosts seen c g =
      let after = push (names hosts) seen in
      Holds-bind (Went b after) (Went b after) (renew_hosts w hosts c) _
        (renew_hosts-Went hosts seen c g)
        λ c1 g1.
          Holds-weaken (IsKept c1) (Went b after) (sync_nodes w ticks (some hosts) c1)
            (sync_nodes-IsKept w c1 ticks (some hosts) c1 (IsKept-refl c1))
            (λ d k. Went-kept b c1 d after k g1)

  regen_rounds-Went :
      (first : HostConfig) (others : List HostConfig) (seen : List String) (c : Ctl)
      → Went b seen c
      → Holds
          (Went b (first.node_name ∷ push (names b.config.worker_nodes) (push (names others) seen)))
          (regen_rounds w ticks (first ∷ others) c)
  unfolding regen_rounds
  regen_rounds-Went first others seen c g =
      let masters = push (names others) seen in
      let workers = push (names b.config.worker_nodes) masters in
      let all = first.node_name ∷ workers in
      Holds-bind (Went b masters) (Went b all) (regen_certs_for_hosts w ticks others c) _
        (regen_certs_for_hosts-Went others seen c g)
        λ c1 g1.
          Holds-bind (Went b workers) (Went b all)
            (regen_certs_for_hosts w ticks c1.config.worker_nodes c1) _
            (subst (λ hosts. Holds (Went b workers) (regen_certs_for_hosts w ticks hosts c1))
              (sym g1.workers) (regen_certs_for_hosts-Went b.config.worker_nodes masters c1 g1))
            (λ c2 g2. regen_certs_for_hosts-Went (first ∷ []) workers c2 g2)

-- Whatever fails, if `RegenClusterCerts` returns without an error then it went once over every
-- node, to upload new certificates and restart its stack, whether or not that worked: over the
-- masters but the first, then over the workers, and over the first master last.
pub regen_cluster_certs-ordered :
    (w : World) (ticks : ℕ) (c : Ctl) (first : HostConfig) (others : List HostConfig)
    → c.config.master_nodes ≡ first ∷ others
    → Holds
        (λ d.
          visits d.steps
          ≡ first.node_name
            ∷ push (names c.config.worker_nodes) (push (names others) (visits c.steps)))
        (regen_cluster_certs w ticks c)
unfolding regen_cluster_certs
regen_cluster_certs-ordered w ticks c first others e =
    let start = visits c.steps in
    let all = first.node_name ∷ push (names c.config.worker_nodes) (push (names others) start) in
    Holds-weaken (Went c all) _ (regen_cluster_certs w ticks c)
      (Holds-bind (Went c start) (Went c all) (must w regen_ca c) _
        (must-Went w c start regen_ca c refl
          (record { visited = refl; masters = refl; workers = refl }))
        λ c1 g1.
          Holds-bind (Went c start) (Went c all) (must w trust_ca c1) _
            (must-Went w c start trust_ca c1 refl g1)
            λ c2 g2.
              subst (λ hosts. Holds (Went c all) (regen_rounds w ticks hosts c2))
                (sym (g2.masters ∙ e)) (regen_rounds-Went w ticks c first others start c2 g2))
      (λ d g. g.visited)
