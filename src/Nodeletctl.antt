-- ===== src/Nodeletctl.antt =====
-- The command nodeletctl (nodeletctl/pkg/nodeletctl), which deploys a cluster from its description,
-- and scales it.
pub mod State
pub mod Nodes
pub mod Sync
pub mod Etcd
pub mod Masters
pub mod Workers
pub mod Scale
pub mod Deploy
pub mod Visits
pub mod Upgrade
pub mod Renew
