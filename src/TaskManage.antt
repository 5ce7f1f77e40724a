-- ===== src/TaskManage.antt =====
-- task-manage/src/lib.rs: task identifiers, the store and ready queue that the kernel supplies, the
-- family and thread relations of processes, and the two managers over them.
pub mod Interface
pub mod ProcRel
pub mod PManager
pub mod ProcThreadRel
pub mod PThreadManager
