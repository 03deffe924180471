-- ===== src/Deployer.antt =====
-- The deployment of a node over SSH: nodeletctl/pkg/nodeletctl/deployer.go.
pub mod State
pub mod Files
pub mod Packages
pub mod Nodes
pub mod Client
pub mod Plans
pub mod Packed
pub mod Installed
pub mod Delivered
pub mod Blamed
