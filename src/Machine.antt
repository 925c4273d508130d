-- ===== src/Machine.antt =====
-- The memory of the process, the calls it makes of the outside world, and commands over them.
pub mod Types
pub mod Monad
pub mod Memory
pub mod Returns
