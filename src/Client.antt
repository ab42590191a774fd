-- ===== src/Client.antt =====
-- rfaas: the library that clients of the platform link.
pub mod Submission
pub mod Invocation
pub mod Execution
pub mod Futures
pub mod Callbacks
pub mod Connections
pub mod Lease
pub mod Allocation
