-- ===== src/Signal.antt =====
-- signal-defs/src/lib.rs, signal/src/lib.rs and signal-impl/src/lib.rs: signal numbers, sets of
-- signals in a word, and the signal state of a process.
pub mod Set
pub mod State
