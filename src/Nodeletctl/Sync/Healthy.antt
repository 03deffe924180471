-- ===== src/Nodeletctl/Sync/Healthy.antt =====
-- When `SyncNodes` of nodeletctl/pkg/nodeletctl/nodeletctl.go returns.
use mathlib.Core.Path.{subst}
use nodelet.Shared.{
  ℕ, suc, ◌≡◌, refl, ◌∙◌, sym, String, Bool, true, false, ◌&&◌, ◌||◌, List, [], ◌∷◌, Option, none,
  some, ◌==◌, arith, eq_refl, lookup, insert, lookup-insert, Bool-cases, inl, inr, ap, eq_iff,
}
use nodelet.Nodeletctl.State.{
  HostConfig, NodeletConfig, Step, deployer, refresh_status, World, Ctl, ok, try_step,
}
use nodelet.Nodeletctl.Nodes.{node_config}
use nodelet.Nodeletctl.Nodes.Partition.{is_named}
use nodelet.Nodeletctl.Sync.{
  node_healthy, NodeStatus, StatusMap, get_cluster_nodelet_status, sync_node, sync_and_retry,
  and_rest, then_rest, sync_loop, sync_nodes, refreshed, nodes_to_sync,
}

abbrev pub is_healthy : Option NodeStatus → Bool
is_healthy none = false
is_healthy (some status) = status.node_health == node_healthy

-- Whether the map has each host as healthy.
abbrev pub all_healthy : List HostConfig → StatusMap → Bool
all_healthy [] m = true
all_healthy (h ∷ hosts) m = is_healthy (lookup h.node_name m) && all_healthy hosts m

abbrev pub is_present : Option NodeStatus → Bool
is_present none = false
is_present (some status) = true

-- Whether the map has each host.
abbrev pub all_present : List HostConfig → StatusMap → Bool
all_present [] m = true
all_present (h ∷ hosts) m = is_present (lookup h.node_name m) && all_present hosts m

is_present-healthy : (o : Option NodeStatus) → is_healthy o ≡ true → is_present o ≡ true
is_present-healthy none h = h
is_present-healthy (some status) h = refl

all_present-healthy :
    (hosts : List HostConfig) (m : StatusMap)
    → all_healthy hosts m ≡ true
    → all_present hosts m ≡ true
all_present-healthy [] m h = refl
all_present-healthy (g ∷ hosts) m h =
    let here = is_present-healthy (lookup g.node_name m) in
    let rest = all_present-healthy hosts m in ground (arith, here, rest)

-- A host that the map has stays there, and no other comes, when its status is set.
is_present-insert :
    (key name : String) (status : NodeStatus) (m : StatusMap)
    → is_present (lookup key m) ≡ true
    → is_present (lookup name (insert key status m)) ≡ is_present (lookup name m)
is_present-insert key name status m h = elim (Bool-cases (key == name)) [
  | inl e ↦
      ap is_present (lookup-insert key name status m)
      ∙ rw e (sym (subst (λ x. is_present (lookup x m) ≡ true) ((eq_iff key name).0 e) h))
  | inr e ↦ ap is_present (lookup-insert key name status m) ∙ rw e refl
]

all_present-insert :
    (hosts : List HostConfig) (key : String) (status : NodeStatus) (m : StatusMap)
    → is_present (lookup key m) ≡ true
    → all_present hosts (insert key status m) ≡ all_present hosts m
all_present-insert [] key status m h = refl
all_present-insert (g ∷ hosts) key status m h =
    rw (is_present-insert key g.node_name status m h, all_present-insert hosts key status m h) refl

true-false : true ≡ false → ⊥
true-false e = ground (e, arith)

module _ (w : World) where
  sync_node-healthy :
      (name : String) (o : Option NodeStatus) (m : StatusMap) (c : Ctl)
      → is_healthy o ≡ true
      → sync_node w name o m c ≡ some (true, m, c)
  unfolding sync_node
  sync_node-healthy name none m c h = ground arith
  sync_node-healthy name (some status) m c h = rw h refl

  -- A node that is not healthy is refreshed in the map.
  sync_node-ill :
      (name : String) (status : NodeStatus) (m : StatusMap) (c : Ctl)
      → is_healthy (some status) ≡ false
      → sync_node w name (some status) m c
        ≡ some (
          false,
          insert name (record status { node_health = refreshed w status.node c }) m,
          try_step (refresh_status status.node) c,
        )
  unfolding sync_node
  sync_node-ill name status m c h = rw h refl

  sync_and_retry-healthy :
      (hosts : List HostConfig) (m : StatusMap) (c : Ctl)
      → all_healthy hosts m ≡ true
      → sync_and_retry w hosts m c ≡ some (true, m, c)
  unfolding sync_and_retry
  sync_and_retry-healthy [] m c h = refl
  sync_and_retry-healthy (g ∷ hosts) m c h =
      rw (sync_node-healthy g.node_name (lookup g.node_name m) m c (ground arith))
        (rw (sync_and_retry-healthy hosts m c (ground arith)) refl)

  -- One host: it is missing, healthy, or refreshed in the map.
  step-missing :
      (g : HostConfig) (hosts : List HostConfig) (m : StatusMap) (c : Ctl)
      → lookup g.node_name m ≡ none
      → sync_and_retry w (g ∷ hosts) m c ≡ none
  unfolding sync_and_retry sync_node
  step-missing g hosts m c e =
      ap (λ o. then_rest w (sync_node w g.node_name o m c) (sync_and_retry w hosts)) e

  step-healthy :
      (g : HostConfig) (hosts : List HostConfig) (m : StatusMap) (c : Ctl)
      → is_healthy (lookup g.node_name m) ≡ true
      → sync_and_retry w (g ∷ hosts) m c ≡ and_rest w true (sync_and_retry w hosts m c)
  unfolding sync_and_retry
  step-healthy g hosts m c e =
      ap (λ r. then_rest w r (sync_and_retry w hosts))
        (sync_node-healthy g.node_name (lookup g.node_name m) m c e)

  step-ill :
      (g : HostConfig) (hosts : List HostConfig) (m : StatusMap) (c : Ctl) (status : NodeStatus)
      → lookup g.node_name m ≡ some status
      → is_healthy (some status) ≡ false
      → (m1 : StatusMap) × (c1 : Ctl) × (sync_and_retry w (g ∷ hosts) m c
          ≡ and_rest w false (sync_and_retry w hosts m1 c1))
        × (all_present hosts m1 ≡ all_present hosts m)
  unfolding sync_and_retry
  step-ill g hosts m c status e h =
      let fresh : NodeStatus = record status { node_health = refreshed w status.node c } in
      (
        insert g.node_name fresh m,
        try_step (refresh_status status.node) c,
        ap (λ o. then_rest w (sync_node w g.node_name o m c) (sync_and_retry w hosts)) e
            ∙ ap (λ r. then_rest w r (sync_and_retry w hosts))
                (sync_node-ill g.node_name status m c h),
        all_present-insert hosts g.node_name fresh m (ap is_present e),
      )

  -- The panic on a host that the map does not have.
  sync_and_retry-missing :
      (hosts : List HostConfig) (m : StatusMap) (c : Ctl)
      → all_present hosts m ≡ false
      → sync_and_retry w hosts m c ≡ none
  sync_and_retry-missing [] m c h = ground (h, arith)
  sync_and_retry-missing (g ∷ hosts) m c h =
      at_node (sync_and_retry-missing hosts) (lookup g.node_name m) refl
    where
      at_node :
          ((m1 : StatusMap) (c1 : Ctl)
            → all_present hosts m1 ≡ false
            → sync_and_retry w hosts m1 c1 ≡ none)
          → (o : Option NodeStatus) → lookup g.node_name m ≡ o
          → sync_and_retry w (g ∷ hosts) m c ≡ none
      at_node ih none e = step-missing g hosts m c e
      at_node ih (some status) e =
          let away : all_present hosts m ≡ false =
            sym (ap (λ o. is_present o && all_present hosts m) e) ∙ h in
          elim (Bool-cases (is_healthy (some status))) [
            | inl good ↦
                step-healthy g hosts m c (ap is_healthy e ∙ good)
                ∙ ap (and_rest w true) (ih m c away)
            | inr ill ↦
                let (m1, c1, same, kept) = step-ill g hosts m c status e ill in
                same ∙ ap (and_rest w false) (ih m1 c1 (kept ∙ away))
          ]

  -- On a map that has each host it returns, and closes `done` exactly if all are healthy.
  sync_and_retry-present :
      (hosts : List HostConfig) (m : StatusMap) (c : Ctl)
      → all_present hosts m ≡ true
      → (r : Bool × StatusMap × Ctl) × (sync_and_retry w hosts m c ≡ some r)
        × (r.0 ≡ all_healthy hosts m)
  unfolding sync_and_retry
  sync_and_retry-present [] m c h = ((true, m, c), refl, refl)
  sync_and_retry-present (g ∷ hosts) m c h =
      at_node (sync_and_retry-present hosts) (lookup g.node_name m) refl
    where
      at_node :
          ((m1 : StatusMap) (c1 : Ctl)
            → all_present hosts m1 ≡ true
            → (r : Bool × StatusMap × Ctl) × (sync_and_retry w hosts m1 c1 ≡ some r)
              × (r.0 ≡ all_healthy hosts m1))
          → (o : Option NodeStatus) → lookup g.node_name m ≡ o
          → (r : Bool × StatusMap × Ctl) × (sync_and_retry w (g ∷ hosts) m c ≡ some r)
            × (r.0 ≡ all_healthy (g ∷ hosts) m)
      at_node ih none e =
          absurd (true-false (sym h ∙ ap (λ o. is_present o && all_present hosts m) e))
      at_node ih (some status) e =
          let there : all_present hosts m ≡ true =
            sym (ap (λ o. is_present o && all_present hosts m) e) ∙ h in
          elim (Bool-cases (is_healthy (some status))) [
            | inl good ↦
                let ((rest, m2, c2), same, healthy) = ih m c there in
                (
                  (true && rest, m2, c2),
                  step-healthy g hosts m c (ap is_healthy e ∙ good) ∙ ap (and_rest w true) same,
                  healthy ∙ sym (ap (λ b. b && all_healthy hosts m) (ap is_healthy e ∙ good)),
                )
            | inr ill ↦
                let (m1, c1, step, kept) = step-ill g hosts m c status e ill in
                let ((rest, m2, c2), same, healthy) = ih m1 c1 (kept ∙ there) in
                (
                  (false && rest, m2, c2),
                  step ∙ ap (and_rest w false) same,
                  sym (ap (λ b. b && all_healthy hosts m) (ap is_healthy e ∙ ill)),
                )
          ]

  -- `SyncAndRetry` panics exactly when a node is missing in the map. Otherwise it returns, and ends
  -- the wait exactly when the map has every node as healthy; then it changes nothing.
  pub sync_and_retry-closes :
      (hosts : List HostConfig) (m : StatusMap) (c : Ctl)
      → (all_present hosts m ≡ false → sync_and_retry w hosts m c ≡ none)
        × (all_present hosts m ≡ true
            → (r : Bool × StatusMap × Ctl) × (sync_and_retry w hosts m c ≡ some r)
              × (r.0 ≡ all_healthy hosts m))
        × (all_healthy hosts m ≡ true → sync_and_retry w hosts m c ≡ some (true, m, c))
  sync_and_retry-closes hosts m c = (
    sync_and_retry-missing hosts m c,
    sync_and_retry-present hosts m c,
    sync_and_retry-healthy hosts m c,
  )

  is_healthy-insert :
      (key name : String) (status : NodeStatus) (m : StatusMap)
      → is_healthy (some status) ≡ true
      → is_healthy (lookup name (insert key status m)) ≡ (key == name || is_healthy (lookup name m))
  is_healthy-insert key name status m h = ground (arith, lookup-insert key name status m, h)

  module _ (reached : (t : List Step) (e : Step) → w.fails t e ≡ false)
      (well : (t : List Step) → w.health t ≡ node_healthy) where
    refreshed-well : (node : NodeletConfig) (c : Ctl) → refreshed w node c ≡ node_healthy
    unfolding refreshed
    refreshed-well node c =
        rw (reached c.steps (refresh_status node)) (well (refresh_status node ∷ c.steps))

    -- The map that `GetClusterNodeletStatus` makes, and who is healthy there.
    collected :
        (hosts : List HostConfig) (m : StatusMap) (c : Ctl)
        → (r : StatusMap × Ctl) × (get_cluster_nodelet_status w hosts m c ≡ ok r)
          × ((name : String)
              → is_healthy (lookup name r.0) ≡ (is_named name hosts || is_healthy (lookup name m)))
    unfolding get_cluster_nodelet_status
    collected [] m c = ((m, c), refl, λ name. refl)
    collected (h ∷ hosts) m c =
        let (c1, node) = node_config h c in
        let c2 = try_step (deployer node) c1 in
        let status : NodeStatus = record { node_health = refreshed w node c2; node = node } in
        let (r, e, known) =
          collected hosts (insert h.node_name status m) (try_step (refresh_status node) c2) in
        let fine : is_healthy (some status) ≡ true =
          rw (refreshed-well node c2) (eq_refl node_healthy) in
        (
          r,
          rw (reached c1.steps (deployer node)) e,
          λ name. ground (arith, known name, is_healthy-insert h.node_name name status m fine),
        )

    all_healthy-named :
        (hosts : List HostConfig) (m : StatusMap)
        → ((name : String) → is_named name hosts ≡ true → is_healthy (lookup name m) ≡ true)
        → all_healthy hosts m ≡ true
    all_healthy-named [] m h = refl
    all_healthy-named (g ∷ hosts) m h =
        let here = h g.node_name (ground (arith, eq_refl g.node_name)) in
        let rest = all_healthy-named hosts m (λ name e. h name (ground (arith, e))) in
        ground (arith, here, rest)

    -- When no step fails and every node reports the ok health, `SyncNodes` returns within one tick
    -- or more.
    pub sync_nodes-returns :
        (ticks : ℕ) (which : Option (List HostConfig)) (c : Ctl)
        → (d : Ctl) × (sync_nodes w (suc ticks) which c ≡ ok d)
    unfolding sync_nodes sync_loop
    sync_nodes-returns ticks which c =
        let hosts = nodes_to_sync w which c in
        let ((m, d), e, known) = collected hosts [] c in
        let all = all_healthy-named hosts m (λ name h. ground (arith, known name, h)) in
        (d, rw e (rw (sync_and_retry-healthy hosts m d all) refl))
