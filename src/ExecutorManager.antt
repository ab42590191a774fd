-- ===== src/ExecutorManager.antt =====
-- server/executor_manager: the service on an executor node, which starts a process of workers for
-- each lease that a client presents, and tells the resource manager when the lease ends.
pub mod Leases
pub mod Client
pub mod Manager
pub mod System
pub mod Spawn
