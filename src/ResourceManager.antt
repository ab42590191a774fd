-- ===== src/ResourceManager.antt =====
-- server/resource_manager: the central service that leases the cores and the memory of executor
-- nodes to clients.
pub mod Messages
pub mod Executor
pub mod Executors
pub mod Db
pub mod Http
pub mod Manager
pub mod System
