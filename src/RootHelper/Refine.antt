-- ===== src/RootHelper/Refine.antt =====
-- The service of internal/roothelper/service.go does what the step relation allows.
pub mod Fresh
mod Calls
mod Stages
mod Failure
mod Approval
mod Preparation
mod Methods
pub mod Handle
