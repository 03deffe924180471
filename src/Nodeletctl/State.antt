-- ===== src/Nodeletctl/State.antt =====
-- The data of nodeletctl/pkg/nodeletctl/nodeletctl.go, and what it asks of its surroundings.
use nodelet.Shared.{ℕ, String, Bool, true, false, refl, ◌≡◌, if◌then◌else◌, List, ◌∷◌, Option, ℤ}

pub record HostConfig : Type 0 where
  pub node_name : String
  pub node_ip : Option String

pub record CalicoConfig : Type 0 where
  pub v4_interface : String
  pub v6_interface : String
  pub v4_containers_cidr : String
  pub v6_containers_cidr : String
  pub v4_block_size : ℤ
  pub v6_block_size : ℤ
  pub v4_nat_outgoing : Bool
  pub v6_nat_outgoing : Bool
  pub v4_ip_ip_mode : String

-- `BootstrapConfig`, at the fields that the modelled code reads.
pub record BootstrapConfig : Type 0 where
  pub certs_dir : String
  pub cluster_id : String
  pub allow_workloads_on_master : Bool
  pub k8s_api_port : String
  pub master_ip : String
  pub master_vip_enabled : Bool
  pub master_vip_interface : String
  pub master_vip_vrouter_id : ℤ
  pub mtu : String
  pub privileged : String
  pub container_runtime : String × String
  pub user_images : List String
  pub hosts_file : String
  pub use_hostname : Bool
  pub ipv6_enabled : Bool
  pub calico : CalicoConfig
  pub services_cidr : String
  pub master_nodes : List HostConfig
  pub worker_nodes : List HostConfig

-- `NodeletConfig`: what a node is told. `master_list` is the map at the time of the step.
pub record NodeletConfig : Type 0 where
  pub allow_workloads_on_master : Bool
  pub calico_v4_interface : String
  pub calico_v6_interface : String
  pub cluster_id : String
  pub container_runtime : String × String
  pub etcd_cluster_state : String
  pub host_id : String
  pub host_ip : String
  pub k8s_api_port : String
  pub master_list : List (String × String)
  pub master_ip : String
  pub master_vip_enabled : Bool
  pub master_vip_interface : String
  pub master_vip_vrouter_id : ℤ
  pub mtu : String
  pub privileged : String
  pub nodelet_role : String
  pub user_images : List String
  pub core_dns_hosts_file : String
  pub ipv6_enabled : Bool
  pub use_hostname : Bool
  pub calico_ip4 : String
  pub calico_ip6 : String
  pub calico_v4_block_size : ℤ
  pub calico_v6_block_size : ℤ
  pub calico_v6_containers_cidr : String
  pub calico_v4_nat_outgoing : Bool
  pub calico_v6_nat_outgoing : Bool
  pub calico_v4_ip_ip_mode : String
  pub containers_cidr : String
  pub services_cidr : String

-- A step that leaves the command. `deployer` is `GetNodeletDeployer`; the steps behind it are those
-- of a `NodeletDeployer`.
pub data Step : Type 0 where
  current_masters current_workers certs_exist member_list : Step
  init_client : List String → Step
  member_add : String → Step
  member_remove : ℕ → Step
  gen_config : NodeletConfig → Step
  deployer : NodeletConfig → Step
  spawn_master : ℕ → NodeletConfig → Step
  spawn_worker : NodeletConfig → Step
  delete_nodelet : NodeletConfig → Step
  refresh_status : NodeletConfig → Step
  upgrade_master : NodeletConfig → Step
  upgrade_worker : NodeletConfig → Step
  upload_certs_and_restart_stack : NodeletConfig → Step
  upload_core_dns_hosts_file : NodeletConfig → Step
  restart_nodelet : NodeletConfig → Step
  -- `GenCALocal`, `RegenCA`, `trustCA`, `GenKubeconfig` and `saveClusterConfig`
  gen_ca regen_ca trust_ca gen_kubeconfig save_cluster_config : Step
  -- `os.Stat` of an image
  stat_image : String → Step

-- The answers of the surroundings, each from the steps so far, the newest first.
pub record World : Type 0 where
  -- whether the step returns an error
  pub fails : List Step → Step → Bool
  -- the names of the nodes with a label
  pub nodes : List Step → Step → List String
  -- the etcd members, by name and ID
  pub members : List Step → List (String × ℕ)
  -- the health that `RefreshNodeletStatus` reports
  pub health : List Step → String

-- The description of the cluster, whose `ServicesCidr` the command fills in, and the steps so far.
pub record Ctl : Type 0 where
  pub config : BootstrapConfig
  pub steps : List Step

-- How an operation ends: it returns, with an error or without, it still waits for its nodes, or it
-- panics.
pub data Result (A : Type 0) : Type 0 where
  ok : A → Result A
  error : Ctl → Result A
  waiting : Ctl → Result A
  panicked : Ctl → Result A

infixl 5 ◌>>=◌
abbrev pub ◌>>=◌ : {A B : Type 0} → Result A → (A → Result B) → Result B
ok a >>= f = f a
error c >>= f = error c
waiting c >>= f = waiting c
panicked c >>= f = panicked c

abbrev pub settle : Bool → Ctl → Result Ctl
settle true c = error c
settle false c = ok c

-- A step whose error ends the operation.
abbrev pub must : World → Step → Ctl → Result Ctl
must w e c = settle (w.fails c.steps e) (record c { steps = e ∷ c.steps })

-- A step whose error is logged or ignored.
abbrev pub try_step : Step → Ctl → Ctl
try_step e c = record c { steps = e ∷ c.steps }

-- What holds of the value of an operation that returns without an error.
abbrev pub Holds : {A : Type 0} → (A → Type 0) → Result A → Type 0
Holds P (ok a) = P a
Holds P (error c) = Unit
Holds P (waiting c) = Unit
Holds P (panicked c) = Unit

pub Holds-bind :
    {A B : Type 0} (P : A → Type 0) (Q : B → Type 0) (r : Result A) (f : A → Result B)
    → Holds P r
    → ((a : A) → P a → Holds Q (f a))
    → Holds Q (r >>= f)
Holds-bind P Q (ok a) f p h = h a p
Holds-bind P Q (error c) f p h = tt
Holds-bind P Q (waiting c) f p h = tt
Holds-bind P Q (panicked c) f p h = tt

-- A step with the property of its outcome that does not fail.
pub must-Holds :
    (P : Ctl → Type 0) (w : World) (e : Step) (c : Ctl)
    → P (record c { steps = e ∷ c.steps })
    → Holds P (must w e c)
must-Holds P w e c p = settled (w.fails c.steps e)
  where
    settled : (b : Bool) → Holds P (settle b (record c { steps = e ∷ c.steps }))
    settled true = tt
    settled false = p

pub Holds-if :
    {A : Type 0} (P : A → Type 0) (b : Bool) (r s : Result A)
    → Holds P r
    → Holds P s
    → Holds P (if b then r else s)
Holds-if P true r s p q = p
Holds-if P false r s p q = q

-- That an operation returns without an error.
abbrev pub Succeeds : {A : Type 0} → Result A → Type 0
Succeeds {A} r = (a : A) × (r ≡ ok a)

pub Succeeds-bind :
    {A B : Type 0} (r : Result A) (f : A → Result B)
    → Succeeds r
    → ((a : A) → Succeeds (f a))
    → Succeeds (r >>= f)
Succeeds-bind r f (a, e) h = let (b, g) = h a in (b, rw e g)

pub must-Succeeds :
    (w : World)
    → ((t : List Step) (e : Step) → w.fails t e ≡ false)
    → (e : Step) (c : Ctl) → Succeeds (must w e c)
must-Succeeds w reached e c = (record c { steps = e ∷ c.steps }, rw (reached c.steps e) refl)

-- What holds of the command where an operation ends with an error.
abbrev pub Fails : {A : Type 0} → (Ctl → Type 0) → Result A → Type 0
Fails P (ok a) = Unit
Fails P (error c) = P c
Fails P (waiting c) = Unit
Fails P (panicked c) = Unit

pub Fails-bind :
    {A B : Type 0} (P : Ctl → Type 0) (Q : A → Type 0) (r : Result A) (f : A → Result B)
    → Fails P r
    → Holds Q r
    → ((a : A) → Q a → Fails P (f a))
    → Fails P (r >>= f)
Fails-bind P Q (ok a) f h q g = g a q
Fails-bind P Q (error c) f h q g = h
Fails-bind P Q (waiting c) f h q g = tt
Fails-bind P Q (panicked c) f h q g = tt

pub must-Fails :
    (P : Ctl → Type 0) (w : World) (e : Step) (c : Ctl)
    → P (record c { steps = e ∷ c.steps })
    → Fails P (must w e c)
must-Fails P w e c p = settled (w.fails c.steps e)
  where
    settled : (b : Bool) → Fails P (settle b (record c { steps = e ∷ c.steps }))
    settled true = p
    settled false = tt

pub Holds-weaken :
    {A : Type 0} (P Q : A → Type 0) (r : Result A) → Holds P r → ((a : A) → P a → Q a) → Holds Q r
Holds-weaken P Q (ok a) h g = g a h
Holds-weaken P Q (error c) h g = tt
Holds-weaken P Q (waiting c) h g = tt
Holds-weaken P Q (panicked c) h g = tt
