-- ===== src/RootHelper.antt =====
-- internal/roothelper: the helper that runs approved changes as root.
pub mod Change
pub mod Store
pub mod Recovery
pub mod Machine
pub mod Handler
pub mod Service
pub mod Host
pub mod FileChange
pub mod Packages
pub mod Capsule
pub mod Executor
pub mod Policy
pub mod Command
pub mod Runner
pub mod Spec
pub mod Refine
pub mod Guarantees
