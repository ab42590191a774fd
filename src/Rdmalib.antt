-- ===== src/Rdmalib.antt =====
-- rdmalib: what the servers and the client build on the RDMA verbs.
pub mod PrivateData
pub mod Listener
pub mod Queue
pub mod Buffer
pub mod Connection
pub mod Active
