-- ===== src/Lib.antt =====
-- The verification library of nodelet: the agent that brings a host into a Kubernetes cluster.
--
-- nodelet/pkg/nodelet runs a chain of phases (nodelet/pkg/phases) to start or stop the services of a
-- host, keeps its state in an extension file (nodelet/pkg/utils/extensionfile), and takes its
-- configuration from files and from Sunpike (nodelet/pkg/utils/config).
--
--   Shared        names of the libraries, Boolean tests, lists and integers over the native numbers
--   Config        nodelet/pkg/utils/constants/constants.go and the configuration that the code reads,
--                 with the choice of its files in config.go (Load)
--   Extension     nodelet/pkg/utils/extensionfile/extension.go: the state, what a write reports
--                 (Health), and the load of a saved state (Load)
--   KubeEnv       nodelet/pkg/utils/config/kubeenv.go: a host's configuration as a map (Override),
--                 its file (Export), and how a shell reads it (Read, RoundTrip)
--   Registry      nodelet/pkg/phases/register.go and phases.go: the phases of a role (Ordering)
--   Agent         nodelet/pkg/nodelet/nodelet.go: the agent's state (State), what it saves (Persist),
--                 its chains of phases (Chain), its handlers and its loop (Reconcile), its creation
--                 (Create)
--   Commands      nodelet/pkg/nodelet/cmd/phase_commands.go: the commands `nodeletd phases`, their checks
--                 (Guard), and what a restart spares (Certs)
--   Nodeletctl    nodeletctl/pkg/nodeletctl: the command for clusters. Its state and steps (State), the
--                 nodes of a description (Nodes), the wait for them (Sync), etcd (Etcd), masters and
--                 workers (Masters, Workers), and the commands: Scale, Deploy, Upgrade, Renew. Visits
--                 says which nodes an operation went over
--   Deployer      nodeletctl/pkg/nodeletctl/deployer.go: a node's actions and their log (State), files
--                 and commands (Files), packages (Packages), a whole node (Nodes), the connection
--                 (Client); what an operation does in order (Plans, Packed, Installed, Delivered), and
--                 where it stops (Blamed)
--   Bouncer       bouncer/pkg: the webhook, its cache (Vouched) and whom it lets in (Admission)
--   Sunpike       nodelet/pkg/utils/sunpikeutils/sunpikeutils.go: the status that Sunpike is sent (Orders)
--   Raft          etcd_raft_checker/etcd_raft_checker.go: the check of the raft indices
--   Kubernetes    nodelet/pkg/utils/kubeutils/kube_utils.go: the operations on a node, and what they make of
--                 the node that the API stores (Stored)
--   NodePhases    nodelet/pkg/phases/cleanup/drain_nodes.go, misc/uncordon_node.go and
--                 misc/label_and_taint_node.go, whose runs are in Runs; misc/misc_phase.go; and a user's cordon (Cordon)
--   Images        nodelet/pkg/phases/container_runtime/load_images.go, with the checksums of
--                 nodelet/pkg/utils/fileio/fileio.go (Checksum)
--   Scripts       nodelet/pkg/phases/bash_script_based_phases: the phases that are scripts
--   Tests         concrete inputs
--
-- The agent passes its state explicitly. Each call that leaves it (a phase, a file, Sunpike, the
-- clock) is an event, and an environment answers it from all events so far, so that a theorem holds
-- for whatever the surroundings do, failures included. A phase's operation is one that returns, with an
-- error or without: a panic of its own, such as that of UncordonNodePhase.Start on a nil pointer
-- (NodePhases), is not passed on to the agent. A handler returns, panics or ends the process
-- (`Outcome`). `Run` is followed for any number of rounds, and the wait of `SyncNodes`, which has no end
-- of its own, for any number of ticks (`Result.waiting` after that); there is no other fuel. Go's ints are
-- integers without a bound here: the code counts rounds and indices. Durations keep their range.
-- A Go slice that shares the array of another is modelled as such (`Slice`).
--
-- Not modelled: logging, the bodies of the other phases, JSON, YAML, reflection and the Kubernetes clients.
pub mod Shared
pub mod Config
pub mod Extension
pub mod KubeEnv
pub mod Registry
pub mod Agent
pub mod Nodeletctl
pub mod Raft
pub mod Sunpike
pub mod Bouncer
pub mod Scripts
pub mod Deployer
pub mod Commands
pub mod Kubernetes
pub mod NodePhases
pub mod Images
mod Tests
