-- ===== src/Nodeletctl/Visits.antt =====
-- The nodes that an operation of nodeletctl/pkg/nodeletctl/nodeletctl.go goes over.
use nodelet.Shared.{◌≡◌, ◌∙◌, String, List, ◌∷◌, map}
use nodelet.Nodeletctl.State.{HostConfig, Step, World, Ctl, must, Holds, must-Holds}
use nodelet.Nodeletctl.Masters.Quiet.{visits, IsKept}

abbrev pub names : List HostConfig → List String
names hosts = map (λ h. h.node_name) hosts

-- The nodes visited so far, under a description whose nodes stay.
pub record Went (c : Ctl) (seen : List String) (d : Ctl) : Type 0 where
  pub visited : visits d.steps ≡ seen
  pub masters : d.config.master_nodes ≡ c.config.master_nodes
  pub workers : d.config.worker_nodes ≡ c.config.worker_nodes

pub Went-kept : (b c d : Ctl) (seen : List String) → IsKept c d → Went b seen c → Went b seen d
Went-kept b c d seen k g = record {
  visited = k.same_visits ∙ g.visited;
  masters = k.same_masters ∙ g.masters;
  workers = k.same_workers ∙ g.workers;
}

module _ (w : World) (b : Ctl) where
  pub must-Went :
      (seen : List String) (e : Step) (c : Ctl)
      → visits (e ∷ c.steps) ≡ visits c.steps
      → Went b seen c
      → Holds (Went b seen) (must w e c)
  must-Went seen e c same g =
      must-Holds (Went b seen) w e c
        (record { visited = same ∙ g.visited; masters = g.masters; workers = g.workers })
