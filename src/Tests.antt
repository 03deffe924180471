-- ===== src/Tests.antt =====
-- The theorems at concrete inputs, and tests of the definitions.
pub mod Agents
pub mod Sources
pub mod Users
pub mod Hosts
pub mod Clusters
pub mod Deployers
pub mod Phases
pub mod Kubelets
pub mod Images
