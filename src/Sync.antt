-- ===== src/Sync.antt =====
-- sync/src/lib.rs: interrupt nesting, the interrupt-free cell, and the blocking mutex, condition
-- variable and semaphore that queue the threads which have to wait.
pub mod Cell
pub mod Mutex
pub mod Semaphore
pub mod Condvar
