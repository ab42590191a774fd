-- ===== src/Worker.antt =====
-- server/executor: the process that runs the functions of one lease.
pub mod Message
pub mod Accounting
pub mod Thread
pub mod Life
pub mod Options
