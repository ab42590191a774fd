-- ===== src/Tests.antt =====
-- Concrete runs: each applies a theorem to a small input on which the code does something.
mod ResourceManager
mod Manager
mod ExecutorManager
mod Rdmalib
mod Buffer
mod Connection
mod Active
mod Listener
mod Ledger
mod System
mod NodeSystem
mod Worker
mod Client
mod Http
mod Allocation
mod Callbacks
mod Execution
mod Lease
mod Spawn
