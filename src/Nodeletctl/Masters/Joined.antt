-- ===== src/Nodeletctl/Masters/Joined.antt =====
-- How `AddMasters` of nodeletctl/pkg/nodeletctl/nodeletctl.go grows etcd.
use mathlib.Core.Path.{subst}
use mathlib.Core.List.{append-nil, append_assoc}
use nodelet.Shared.{
  ℕ, suc, ◌+◌, ◌≡◌, refl, ◌∙◌, sym, ap, String, Bool, false, List, [], ◌∷◌, ◌++◌, map, some, insert,
}
use nodelet.Nodeletctl.State.{
  HostConfig, NodeletConfig, Step, init_client, member_add, gen_config, deployer, spawn_master,
  World, Ctl, Result, ok, error, waiting, panicked, must, try_step, Holds, Holds-bind, Succeeds,
  Succeeds-bind, must-Succeeds, must-Holds,
}
use nodelet.Nodeletctl.Nodes.{address, node_config}
use nodelet.Nodeletctl.Sync.{sync_nodes}
use nodelet.Nodeletctl.Etcd.{endpoint, peer, init_etcd_client, add_node_to_etcd}
use nodelet.Nodeletctl.Sync.{node_healthy}
use nodelet.Nodeletctl.Sync.Healthy.{sync_nodes-returns}
use nodelet.Nodeletctl.Masters.{master_list_of, add_master, add_masters_from, add_masters}
use nodelet.Nodeletctl.Masters.Quiet.{
  joins, IsKept, IsKept-refl, node_config-IsKept, node_config-address, sync_nodes-IsKept,
}

-- What should grow it, the newest first: each host joins through all masters before it.
abbrev pub joined : Bool → List HostConfig → List HostConfig → List Step → List Step
joined ipv6 curr [] before = before
joined ipv6 curr (h ∷ hosts) before =
    joined ipv6 (curr ++ h ∷ []) hosts
      (member_add (peer (address h)) ∷ init_client (map (endpoint ipv6) curr) ∷ before)

-- What is known of etcd at a point: how it grew, and by which addresses.
record IsGrown (ipv6 : Bool) (grown : List Step) (c : Ctl) : Type 0 where
  steps : joins c.steps ≡ grown
  addresses : c.config.ipv6_enabled ≡ ipv6

IsGrown-kept :
    (ipv6 : Bool) (grown : List Step) (c d : Ctl)
    → IsGrown ipv6 grown c
    → IsKept c d
    → IsGrown ipv6 grown d
IsGrown-kept ipv6 grown c d g k = record {
  steps = k.same_joins ∙ g.steps;
  addresses = k.same_ipv6 ∙ g.addresses;
}

Holds-weaken :
    {A : Type 0} (P Q : A → Type 0) (r : Result A) → ((a : A) → P a → Q a) → Holds P r → Holds Q r
Holds-weaken P Q (ok a) h p = h a p
Holds-weaken P Q (error c) h p = tt
Holds-weaken P Q (waiting c) h p = tt
Holds-weaken P Q (panicked c) h p = tt

-- The masters after `AddMasters`, and how it grew etcd.
abbrev pub IsJoined : List HostConfig → List Step → List HostConfig × Ctl → Type 0
IsJoined masters grown r = (r.0 ≡ masters) × (joins r.1.steps ≡ grown)

module _ (w : World) (ticks : ℕ) (ipv6 : Bool) where
  add_node_to_etcd-IsGrown :
      (grown : List Step) (masters : List HostConfig) (ip : String) (c : Ctl)
      → IsGrown ipv6 grown c
      → Holds
          (IsGrown ipv6 (member_add (peer ip) ∷ init_client (map (endpoint ipv6) masters) ∷ grown))
          (add_node_to_etcd w masters ip c)
  unfolding add_node_to_etcd init_etcd_client
  add_node_to_etcd-IsGrown grown masters ip c g =
      let client = init_client (map (endpoint c.config.ipv6_enabled) masters) in
      let after = init_client (map (endpoint ipv6) masters) ∷ grown in
      Holds-bind (IsGrown ipv6 after) (IsGrown ipv6 (member_add (peer ip) ∷ after))
        (must w client c) _
        (must-Holds (IsGrown ipv6 after) w client c
          (record { steps = rw g.addresses (rw g.steps refl); addresses = g.addresses }))
        (λ d k.
          must-Holds (IsGrown ipv6 (member_add (peer ip) ∷ after)) w (member_add (peer ip)) d
            (record {
              steps = ap (λ l. member_add (peer ip) ∷ l) k.steps;
              addresses = k.addresses;
            }))

  -- How `AddMasters` grows etcd by one host.
  abbrev grow : List HostConfig → HostConfig → List Step → List Step
  grow curr h grown = member_add (peer (address h)) ∷ init_client (map (endpoint ipv6) curr) ∷ grown

  add_master-IsGrown :
      (grown : List Step) (num : ℕ) (h : HostConfig) (list : List (String × String))
      (curr : List HostConfig) (c : Ctl)
      → IsGrown ipv6 grown c
      → Holds (λ r. IsGrown ipv6 (grow curr h grown) r.1) (add_master w ticks num h list curr c)
  unfolding add_master
  add_master-IsGrown grown num h list curr c g =
      let (c1, n) = node_config h c in
      let list1 = insert h.node_name n.host_ip list in
      let node : NodeletConfig = record n {
        nodelet_role = "master";
        etcd_cluster_state = "existing";
        master_list = list1;
      } in
      let after = IsGrown ipv6 (grow curr h grown) in
      let g1 = IsGrown-kept ipv6 grown c c1 g (node_config-IsKept h c) in
      Holds-bind (IsGrown ipv6 grown) (λ r. after r.1) (must w (gen_config node) c1) _
        (must-Holds (IsGrown ipv6 grown) w (gen_config node) c1
          (record { steps = g1.steps; addresses = g1.addresses }))
        (λ c2 g2.
          Holds-bind (IsGrown ipv6 grown) (λ r. after r.1) (must w (deployer node) c2) _
            (must-Holds (IsGrown ipv6 grown) w (deployer node) c2
              (record { steps = g2.steps; addresses = g2.addresses }))
            (λ c3 g3.
              Holds-bind after (λ r. after r.1) (add_node_to_etcd w curr n.host_ip c3) _
                (rw (sym (node_config-address h c))
                  (add_node_to_etcd-IsGrown grown curr n.host_ip c3 g3))
                (λ c4 g4.
                  let c5 = try_step (spawn_master num node) c4 in
                  Holds-bind after (λ r. after r.1) (sync_nodes w ticks (some (h ∷ [])) c5) _
                    (Holds-weaken (IsKept c5) after (sync_nodes w ticks (some (h ∷ [])) c5)
                      (λ d.
                        IsGrown-kept ipv6 (grow curr h grown) c5 d
                          (record { steps = g4.steps; addresses = g4.addresses }))
                      (sync_nodes-IsKept w c5 ticks (some (h ∷ [])) c5 (IsKept-refl c5)))
                    (λ c6 g6. g6))))

  add_masters_from-IsJoined :
      (grown : List Step) (num : ℕ) (new : List HostConfig) (list : List (String × String))
      (curr : List HostConfig) (c : Ctl)
      → IsGrown ipv6 grown c
      → Holds
          (IsJoined (curr ++ new) (joined ipv6 curr new grown))
          (add_masters_from w ticks num new list curr c)
  unfolding add_masters_from
  add_masters_from-IsJoined grown num [] list curr c g = (sym (append-nil curr), g.steps)
  add_masters_from-IsJoined grown num (h ∷ new) list curr c g =
      let goal = IsJoined (curr ++ h ∷ new) (joined ipv6 curr (h ∷ new) grown) in
      Holds-bind (λ r. IsGrown ipv6 (grow curr h grown) r.1) goal
        (add_master w ticks num h list curr c) _ (add_master-IsGrown grown num h list curr c g)
        (λ r k.
          let rest = add_masters_from w ticks (num + 1) new r.0 (curr ++ h ∷ []) r.1 in
          subst
            (λ (l : List HostConfig). Holds (IsJoined l (joined ipv6 curr (h ∷ new) grown)) rest)
            (append_assoc curr (h ∷ []) new)
            (add_masters_from-IsJoined (grow curr h grown) (num + 1) new r.0 (curr ++ h ∷ []) r.1
              k))

-- Whatever fails, if `AddMasters` returns without an error then its masters are the current ones
-- followed by the new ones, and etcd grew by the new ones in order, each through a client on
-- exactly the masters before it.
pub add_masters-IsJoined :
    (w : World) (ticks : ℕ) (curr new : List HostConfig) (c : Ctl)
    → let ipv6 = c.config.ipv6_enabled in
      Holds
        (IsJoined (curr ++ new) (joined ipv6 curr new (joins c.steps)))
        (add_masters w ticks curr new c)
unfolding add_masters
add_masters-IsJoined w ticks curr new c =
    add_masters_from-IsJoined w ticks c.config.ipv6_enabled (joins c.steps) 0 new
      (master_list_of curr []) curr c (record { steps = refl; addresses = refl })

module _ (w : World) (reached : (t : List Step) (e : Step) → w.fails t e ≡ false)
    (well : (t : List Step) → w.health t ≡ node_healthy) (ticks : ℕ) where
  add_node_to_etcd-returns :
      (masters : List HostConfig) (ip : String) (c : Ctl)
      → Succeeds (add_node_to_etcd w masters ip c)
  unfolding add_node_to_etcd init_etcd_client
  add_node_to_etcd-returns masters ip c =
      Succeeds-bind (must w (init_client (map (endpoint c.config.ipv6_enabled) masters)) c) _
        (must-Succeeds w reached (init_client (map (endpoint c.config.ipv6_enabled) masters)) c)
        (λ d. must-Succeeds w reached (member_add (peer ip)) d)

  add_master-returns :
      (num : ℕ) (h : HostConfig) (list : List (String × String)) (curr : List HostConfig) (c : Ctl)
      → Succeeds (add_master w (suc ticks) num h list curr c)
  unfolding add_master
  add_master-returns num h list curr c =
      let (c1, n) = node_config h c in
      let list1 = insert h.node_name n.host_ip list in
      let node : NodeletConfig = record n {
        nodelet_role = "master";
        etcd_cluster_state = "existing";
        master_list = list1;
      } in
      Succeeds-bind (must w (gen_config node) c1) _ (must-Succeeds w reached (gen_config node) c1)
        (λ c2.
          Succeeds-bind (must w (deployer node) c2) _ (must-Succeeds w reached (deployer node) c2)
            (λ c3.
              Succeeds-bind (add_node_to_etcd w curr n.host_ip c3) _
                (add_node_to_etcd-returns curr n.host_ip c3)
                (λ c4.
                  let c5 = try_step (spawn_master num node) c4 in
                  Succeeds-bind (sync_nodes w (suc ticks) (some (h ∷ [])) c5) _
                    (sync_nodes-returns w reached well ticks (some (h ∷ [])) c5)
                    (λ c6. ((list1, c6), refl)))))

  add_masters_from-returns :
      (num : ℕ) (new : List HostConfig) (list : List (String × String)) (curr : List HostConfig)
      (c : Ctl)
      → Succeeds (add_masters_from w (suc ticks) num new list curr c)
  unfolding add_masters_from
  add_masters_from-returns num [] list curr c = ((curr, c), refl)
  add_masters_from-returns num (h ∷ new) list curr c =
      let (r, e) = add_master-returns num h list curr c in
      let (s, f) = add_masters_from-returns (num + 1) new r.0 (curr ++ h ∷ []) r.1 in (s, rw e f)

  -- When no step fails and every node reports the ok health, `AddMasters` returns under one tick of
  -- its wait or more, its masters are the current ones followed by the new ones, and etcd grew by
  -- the new ones in order, each through a client on exactly the masters before it.
  pub add_masters-grows :
      (curr new : List HostConfig) (c : Ctl)
      → let ipv6 = c.config.ipv6_enabled in
        (r : List HostConfig × Ctl) × (add_masters w (suc ticks) curr new c ≡ ok r)
        × IsJoined (curr ++ new) (joined ipv6 curr new (joins c.steps)) r
  unfolding add_masters
  add_masters-grows curr new c =
      let ipv6 = c.config.ipv6_enabled in
      let (r, e) = add_masters_from-returns 0 new (master_list_of curr []) curr c in
      (
        r,
        e,
        subst (Holds (IsJoined (curr ++ new) (joined ipv6 curr new (joins c.steps)))) e
            (add_masters-IsJoined w (suc ticks) curr new c),
      )
