-- ===== src/Nodeletctl/Masters/Quiet.antt =====
-- What leaves etcd alone in nodeletctl/pkg/nodeletctl/nodeletctl.go.
use nodelet.Shared.{
  Bool, true, false, ℕ, zero, suc, ◌≡◌, refl, ◌∙◌, String, List, [], ◌∷◌, Option, none, some, arith,
  lookup,
}
use nodelet.Nodeletctl.State.{
  HostConfig, NodeletConfig, Step, init_client, member_add, deployer, refresh_status,
  upgrade_master, upgrade_worker, upload_certs_and_restart_stack, World, Ctl, must, try_step, Holds,
  Holds-bind, must-Holds, Fails, Fails-bind, must-Fails, Result,
}
use nodelet.Nodeletctl.Nodes.{address, node_config, set_nodelet_cluster_cfg}
use nodelet.Nodeletctl.Sync.{
  StatusMap, NodeStatus, get_cluster_nodelet_status, sync_node, sync_and_retry, and_rest, then_rest,
  after_retry, sync_loop, sync_nodes, nodes_to_sync,
}

-- The steps that grow etcd: the clients and the new members.
abbrev pub joins : List Step → List Step
joins [] = []
joins (init_client es ∷ steps) = init_client es ∷ joins steps
joins (member_add p ∷ steps) = member_add p ∷ joins steps
joins (_ ∷ steps) = joins steps

-- The nodes that an upgrade or a renewal of certificates went over, the latest first.
abbrev pub visits : List Step → List String
visits [] = []
visits (upgrade_master n ∷ steps) = n.host_id ∷ visits steps
visits (upgrade_worker n ∷ steps) = n.host_id ∷ visits steps
visits (upload_certs_and_restart_stack n ∷ steps) = n.host_id ∷ visits steps
visits (_ ∷ steps) = visits steps

-- The operations that leave etcd, the packages and the certificates alone.
pub record IsKept (c d : Ctl) : Type 0 where
  pub same_joins : joins d.steps ≡ joins c.steps
  pub same_ipv6 : d.config.ipv6_enabled ≡ c.config.ipv6_enabled
  pub same_visits : visits d.steps ≡ visits c.steps
  pub same_masters : d.config.master_nodes ≡ c.config.master_nodes
  pub same_workers : d.config.worker_nodes ≡ c.config.worker_nodes

pub IsKept-refl : (c : Ctl) → IsKept c c
IsKept-refl c = record {
  same_joins = refl;
  same_ipv6 = refl;
  same_visits = refl;
  same_masters = refl;
  same_workers = refl;
}

pub IsKept-trans : {a b c : Ctl} → IsKept a b → IsKept b c → IsKept a c
IsKept-trans p q = record {
  same_joins = q.same_joins ∙ p.same_joins;
  same_ipv6 = q.same_ipv6 ∙ p.same_ipv6;
  same_visits = q.same_visits ∙ p.same_visits;
  same_masters = q.same_masters ∙ p.same_masters;
  same_workers = q.same_workers ∙ p.same_workers;
}

pub node_config-IsKept : (h : HostConfig) (c : Ctl) → IsKept c (node_config h c).0
unfolding node_config set_nodelet_cluster_cfg
node_config-IsKept h c = record {
  same_joins = refl;
  same_ipv6 = refl;
  same_visits = refl;
  same_masters = refl;
  same_workers = refl;
}

pub node_config-address : (h : HostConfig) (c : Ctl) → (node_config h c).1.host_ip ≡ address h
unfolding node_config set_nodelet_cluster_cfg
node_config-address h c = refl

-- The steps of a wait.
deployer-IsKept : (b c : Ctl) (n : NodeletConfig) → IsKept b c → IsKept b (try_step (deployer n) c)
deployer-IsKept b c n k = record {
  same_joins = k.same_joins;
  same_ipv6 = k.same_ipv6;
  same_visits = k.same_visits;
  same_masters = k.same_masters;
  same_workers = k.same_workers;
}

refresh_status-IsKept :
    (b c : Ctl) (n : NodeletConfig) → IsKept b c → IsKept b (try_step (refresh_status n) c)
refresh_status-IsKept b c n k = record {
  same_joins = k.same_joins;
  same_ipv6 = k.same_ipv6;
  same_visits = k.same_visits;
  same_masters = k.same_masters;
  same_workers = k.same_workers;
}

module _ (w : World) where
  get_cluster_nodelet_status-IsKept :
      (b : Ctl) (hosts : List HostConfig) (m : StatusMap) (c : Ctl)
      → IsKept b c
      → Holds (λ r. IsKept b r.1) (get_cluster_nodelet_status w hosts m c)
  unfolding get_cluster_nodelet_status
  get_cluster_nodelet_status-IsKept b [] m c k = k
  get_cluster_nodelet_status-IsKept b (h ∷ hosts) m c k =
      let (c1, node) = node_config h c in
      let k1 = IsKept-trans k (node_config-IsKept h c) in
      Holds-bind (IsKept b) (λ r. IsKept b r.1) (must w (deployer node) c1) _
        (must-Holds (IsKept b) w (deployer node) c1 (deployer-IsKept b c1 node k1))
        (λ d kd.
          get_cluster_nodelet_status-IsKept b hosts _ (try_step (refresh_status node) d)
            (refresh_status-IsKept b d node kd))

  IsKeptBy : Ctl → Option (Bool × StatusMap × Ctl) → Type 0
  IsKeptBy c none = Unit
  IsKeptBy c (some (synced, m, d)) = IsKept c d

  sync_node-IsKept :
      (name : String) (o : Option NodeStatus) (m : StatusMap) (c : Ctl)
      → IsKeptBy c (sync_node w name o m c)
  unfolding sync_node IsKeptBy
  sync_node-IsKept name none m c = tt
  sync_node-IsKept name (some status) m c = record {
    same_joins = ground arith;
    same_ipv6 = ground arith;
    same_visits = ground arith;
    same_masters = ground arith;
    same_workers = ground arith;
  }

  and_rest-IsKept :
      (c d : Ctl) (synced : Bool) (o : Option (Bool × StatusMap × Ctl))
      → IsKept c d
      → IsKeptBy d o
      → IsKeptBy c (and_rest w synced o)
  unfolding IsKeptBy
  and_rest-IsKept c d synced none k l = tt
  and_rest-IsKept c d synced (some (rest, m, e)) k l = IsKept-trans k l

  then_rest-IsKept :
      (c : Ctl) (o : Option (Bool × StatusMap × Ctl))
      (next : StatusMap → Ctl → Option (Bool × StatusMap × Ctl))
      → IsKeptBy c o
      → ((m : StatusMap) (d : Ctl) → IsKeptBy d (next m d))
      → IsKeptBy c (then_rest w o next)
  unfolding IsKeptBy
  then_rest-IsKept c none next k l = tt
  then_rest-IsKept c (some (synced, m, d)) next k l =
      and_rest-IsKept c d synced (next m d) k (l m d)

  sync_and_retry-IsKept :
      (hosts : List HostConfig) (m : StatusMap) (c : Ctl) → IsKeptBy c (sync_and_retry w hosts m c)
  unfolding sync_and_retry IsKeptBy
  sync_and_retry-IsKept [] m c = IsKept-refl c
  sync_and_retry-IsKept (h ∷ hosts) m c =
      then_rest-IsKept c (sync_node w h.node_name (lookup h.node_name m) m c)
        (sync_and_retry w hosts) (sync_node-IsKept h.node_name (lookup h.node_name m) m c)
        (sync_and_retry-IsKept hosts)

  after_retry-IsKept :
      (b c : Ctl) (o : Option (Bool × StatusMap × Ctl)) (next : StatusMap → Ctl → Result Ctl)
      → IsKept b c
      → IsKeptBy c o
      → ((m : StatusMap) (d : Ctl) → IsKept b d → Holds (IsKept b) (next m d))
      → Holds (IsKept b) (after_retry w o next c)
  unfolding IsKeptBy
  after_retry-IsKept b c none next k l g = tt
  after_retry-IsKept b c (some (true, m, d)) next k l g = IsKept-trans k l
  after_retry-IsKept b c (some (false, m, d)) next k l g = g m d (IsKept-trans k l)

  sync_loop-IsKept :
      (b : Ctl) (ticks : ℕ) (hosts : List HostConfig) (m : StatusMap) (c : Ctl)
      → IsKept b c
      → Holds (IsKept b) (sync_loop w ticks hosts m c)
  unfolding sync_loop
  sync_loop-IsKept b zero hosts m c k = tt
  sync_loop-IsKept b (suc ticks) hosts m c k =
      after_retry-IsKept b c (sync_and_retry w hosts m c) (sync_loop w ticks hosts) k
        (sync_and_retry-IsKept hosts m c) (sync_loop-IsKept b ticks hosts)

  pub sync_nodes-IsKept :
      (b : Ctl) (ticks : ℕ) (which : Option (List HostConfig)) (c : Ctl)
      → IsKept b c
      → Holds (IsKept b) (sync_nodes w ticks which c)
  unfolding sync_nodes
  sync_nodes-IsKept b ticks which c k =
      Holds-bind (λ r. IsKept b r.1) (IsKept b)
        (get_cluster_nodelet_status w (nodes_to_sync w which c) [] c) _
        (get_cluster_nodelet_status-IsKept b (nodes_to_sync w which c) [] c k)
        (λ r kr. sync_loop-IsKept b ticks (nodes_to_sync w which c) r.0 r.1 kr)

  get_cluster_nodelet_status-Fails :
      (b : Ctl) (hosts : List HostConfig) (m : StatusMap) (c : Ctl)
      → IsKept b c
      → Fails (IsKept b) (get_cluster_nodelet_status w hosts m c)
  unfolding get_cluster_nodelet_status
  get_cluster_nodelet_status-Fails b [] m c k = tt
  get_cluster_nodelet_status-Fails b (h ∷ hosts) m c k =
      let (c1, node) = node_config h c in
      let k1 = deployer-IsKept b c1 node (IsKept-trans k (node_config-IsKept h c)) in
      Fails-bind (IsKept b) (IsKept b) (must w (deployer node) c1) _
        (must-Fails (IsKept b) w (deployer node) c1 k1)
        (must-Holds (IsKept b) w (deployer node) c1 k1)
        (λ d kd.
          get_cluster_nodelet_status-Fails b hosts _ (try_step (refresh_status node) d)
            (refresh_status-IsKept b d node kd))

  -- The wait itself has no error.
  after_retry-Fails :
      (P : Ctl → Type 0) (c : Ctl) (o : Option (Bool × StatusMap × Ctl))
      (next : StatusMap → Ctl → Result Ctl)
      → ((m : StatusMap) (d : Ctl) → Fails P (next m d))
      → Fails P (after_retry w o next c)
  after_retry-Fails P c none next g = tt
  after_retry-Fails P c (some (true, m, d)) next g = tt
  after_retry-Fails P c (some (false, m, d)) next g = g m d

  sync_loop-Fails :
      (P : Ctl → Type 0) (ticks : ℕ) (hosts : List HostConfig) (m : StatusMap) (c : Ctl)
      → Fails P (sync_loop w ticks hosts m c)
  unfolding sync_loop
  sync_loop-Fails P zero hosts m c = tt
  sync_loop-Fails P (suc ticks) hosts m c =
      after_retry-Fails P c (sync_and_retry w hosts m c) (sync_loop w ticks hosts)
        (sync_loop-Fails P ticks hosts)

  -- A `SyncNodes` that fails leaves the same alone.
  pub sync_nodes-Fails :
      (b : Ctl) (ticks : ℕ) (which : Option (List HostConfig)) (c : Ctl)
      → IsKept b c
      → Fails (IsKept b) (sync_nodes w ticks which c)
  unfolding sync_nodes
  sync_nodes-Fails b ticks which c k =
      Fails-bind (IsKept b) (λ r. IsKept b r.1)
        (get_cluster_nodelet_status w (nodes_to_sync w which c) [] c) _
        (get_cluster_nodelet_status-Fails b (nodes_to_sync w which c) [] c k)
        (get_cluster_nodelet_status-IsKept b (nodes_to_sync w which c) [] c k)
        (λ r kr. sync_loop-Fails (IsKept b) ticks (nodes_to_sync w which c) r.0 r.1)
