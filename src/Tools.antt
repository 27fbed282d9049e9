-- ===== src/Tools.antt =====
-- services/retry.py, services/tool_registry.py and services/tool_loop.py: the tools that a model calls.
pub mod Retry
pub mod Registry
pub mod Reservations
pub mod Admission
pub mod Invoke
pub mod Effects
pub mod Owners
pub mod Invocations
pub mod Tasks
pub mod Reserves
pub mod Sets
pub mod Once
pub mod Tests
