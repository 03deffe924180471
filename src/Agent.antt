-- ===== src/Agent.antt =====
-- nodelet/pkg/nodelet/nodelet.go: the agent that brings a host's phases to the desired state.
pub mod State
pub mod Persist
pub mod Chain
pub mod Reconcile
pub mod Create
