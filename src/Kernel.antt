-- ===== src/Kernel.antt =====
-- ch8/src/main.rs: the kernel of chapter 8, which puts the libraries together.
pub mod Managers
pub mod Vm
pub mod Process
pub mod State
pub mod Wake
pub mod Memory
pub mod Fs
pub mod Elf
pub mod Spawn
pub mod Calls
pub mod SyscallContext
pub mod Loop
