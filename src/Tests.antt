-- ===== src/Tests.antt =====
-- Tests of the model on concrete states, and the theorems at concrete inputs.
mod EasyFs
mod Kernel
mod KernelVm
mod Reading
mod Signal
mod Sync
mod TaskManage
