-- ===== src/EasyFs.antt =====
-- easy-fs/src: the file system on a block device.
pub mod Bitmap
pub mod BlockCache
pub mod DirEntry
pub mod Disk
pub mod DiskInode
pub mod Efs
pub mod File
pub mod Format
pub mod OnDisk
pub mod UserBuffer
pub mod Vfs
