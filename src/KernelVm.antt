-- ===== src/KernelVm.antt =====
-- kernel-vm/src/lib.rs: address spaces over a page table.
pub mod AddressSpace
pub mod Filling
pub mod Interface
pub mod Visitors
