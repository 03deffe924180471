-- ===== src/Nodeletctl/Nodes/Validity.antt =====
-- The descriptions that nodeletctl/pkg/nodeletctl/nodeletctl.go accepts, and what it tells the nodes.
use nodelet.Shared.{
  ℕ, ◌+◌, ◌*◌, ◌≤◌, ◌<◌, ◌≡◌, ◌≢◌, ◌↔◌, ◌⊎◌, true, false, ◌||◌, arith, eq_iff, ℤ, pos, negsuc, refl,
  inl, inr, ◌/◌, Bool-cases, length, ltb_ℤ,
}
use nodelet.Nodeletctl.State.{HostConfig, BootstrapConfig, Ctl}
use nodelet.Nodeletctl.Nodes.{is_cluster_cfg_valid, set_nodelet_cluster_cfg, node_config}

-- An odd number of masters, some node for workloads, and what a virtual address needs.
pub record IsValid (cfg : BootstrapConfig) : Type 0 where
  pub masters : (k : ℕ) × (length cfg.master_nodes ≡ 2 * k + 1)
  pub workloads : (cfg.allow_workloads_on_master ≡ true) ⊎ (0 < length cfg.worker_nodes)
  pub vip :
      (cfg.master_vip_enabled ≡ false)
      ⊎ ((cfg.master_vip_interface ≢ "")
          × ((id : ℕ) × (cfg.master_vip_vrouter_id ≡ pos id) × (1 ≤ id) × (id ≤ 255)))

in_range :
    (z : ℤ)
    → (ltb_ℤ z (pos 1) || ltb_ℤ (pos 255) z) ≡ false
    → (id : ℕ) × (z ≡ pos id) × (1 ≤ id) × (id ≤ 255)
in_range (pos id) h = (id, refl, ground arith, ground arith)
in_range (negsuc id) h = absurd (ground arith)

is_cluster_cfg_valid-IsValid :
    (cfg : BootstrapConfig) → is_cluster_cfg_valid cfg ≡ false → IsValid cfg
unfolding is_cluster_cfg_valid
is_cluster_cfg_valid-IsValid cfg h = record {
  masters = (length cfg.master_nodes / 2, ground arith);
  workloads = ground arith;
  vip = elim (Bool-cases cfg.master_vip_enabled) [
    | inl e ↦ inr (
      (λ same. ground (arith, e, eq_iff cfg.master_vip_interface "")),
      in_range cfg.master_vip_vrouter_id (ground (arith, e)),
    )
    | inr e ↦ inl e
  ];
}

IsValid-valid : (cfg : BootstrapConfig) → IsValid cfg → is_cluster_cfg_valid cfg ≡ false
unfolding is_cluster_cfg_valid
IsValid-valid cfg v =
    let (k, odd) = v.masters in
    elim v.vip [
      | inl e ↦ ground (arith, odd, v.workloads, e)
      | inr (name, (id, same, low, high)) ↦
          ground
            (arith, odd, v.workloads, name, same, low, high, eq_iff cfg.master_vip_interface "")
    ]

-- `isClusterCfgValid` accepts a description exactly when the number of masters is odd, some node
-- takes workloads, and a virtual address, if it is enabled, has an interface and a router ID from 1
-- to 255.
pub is_cluster_cfg_valid_iff :
    (cfg : BootstrapConfig) → (is_cluster_cfg_valid cfg ≡ false) ↔ IsValid cfg
is_cluster_cfg_valid_iff cfg = (is_cluster_cfg_valid-IsValid cfg, IsValid-valid cfg)

-- What a node is told by `setNodeletClusterCfg` does not depend on whether another node was told
-- before, although the call fills in the services CIDR of the description.
pub node_config-consistent :
    (g h : HostConfig) (c : Ctl) → (node_config h (node_config g c).0).1 ≡ (node_config h c).1
unfolding node_config set_nodelet_cluster_cfg
node_config-consistent g h c = ground (arith, eq_iff c.config.services_cidr "")
