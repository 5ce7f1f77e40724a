-- ===== src/EasyFs/Format.antt =====
-- easy-fs/src/efs.rs: what `create` and `open` do on the disk, and `root_inode`.
pub mod Opening
use spec_to_rust_os.Prelude.{ℕ, zero, suc, ◌==◌, if◌then◌else◌, List, [], ◌∷◌, get_or, replicate}
use spec_to_rust_os.Prelude.Panic.{Outcome, returned, panicked, ◌>>=◌}
use spec_to_rust_os.EasyFs.Disk.{Disk, block_sz, write_block, as_words, as_bytes}
use spec_to_rust_os.EasyFs.Bitmap.{SuperBlock}
use spec_to_rust_os.EasyFs.DiskInode.{directory, initialize}
use spec_to_rust_os.EasyFs.DiskInode.Access.{splice}
use spec_to_rust_os.EasyFs.Efs.{EasyFileSystem, create_layout, open_layout, alloc_inode}
use spec_to_rust_os.EasyFs.Vfs.{Inode, inode_at, write_disk_inode}

-- The 24 bytes of a `SuperBlock`.
unfoldable pub decode : List ℕ → SuperBlock
decode bytes =
    let words = as_words 4 6 bytes in
    record {
      magic = get_or words 0 0;
      total_blocks = get_or words 1 0;
      inode_bitmap_blocks = get_or words 2 0;
      inode_area_blocks = get_or words 3 0;
      data_bitmap_blocks = get_or words 4 0;
      data_area_blocks = get_or words 5 0;
    }

unfoldable pub encode : SuperBlock → List ℕ
encode sb = as_bytes 4 (
    sb.magic ∷ sb.total_blocks ∷ sb.inode_bitmap_blocks ∷ sb.inode_area_blocks
    ∷ sb.data_bitmap_blocks ∷ sb.data_area_blocks ∷ [])

-- The loop that clears the blocks below `n`; their order does not matter.
unfoldable pub clear_blocks : ℕ → Disk → Disk
clear_blocks zero disk = disk
clear_blocks (suc i) disk = write_block i (replicate block_sz 0) (clear_blocks i disk)

-- The inode 0 becomes the root directory.
unfoldable pub create_root : EasyFileSystem → Disk → Outcome Disk
create_root efs disk = do
  (root_inode_id, disk') ← alloc_inode efs disk
  (if root_inode_id == 0
      then write_disk_inode (inode_at efs root_inode_id) (initialize directory) disk'
      else panicked)

unfoldable pub create : ℕ → ℕ → Disk → Outcome (EasyFileSystem × Disk)
create total_blocks inode_bitmap_blocks disk = do
  let (super_block, efs) = create_layout total_blocks inode_bitmap_blocks
  let cleared : Disk = clear_blocks total_blocks disk
  block ← splice (cleared 0) 0 (encode super_block)
  disk' ← create_root efs (write_block 0 block cleared)
  returned (efs, disk')

unfoldable pub open_disk : Disk → Outcome EasyFileSystem
open_disk disk = open_layout (decode (disk 0))

unfoldable pub root_inode : EasyFileSystem → Inode
root_inode efs = inode_at efs 0
