-- ===== src/EasyFs/Efs.antt =====
-- easy-fs/src/efs.rs: `EasyFileSystem`, how the disk is divided, and its two allocators. Block numbers are
-- u32 values, whose arithmetic wraps.
use spec_to_rust_os.Prelude.{
  ℕ, ◌+◌, ◌-◌, ◌*◌, ◌/◌, ◌%◌, ◌^◌, ◌≤◌, ◌<◌, ◌≡◌, refl, Option, none, some, replicate,
  if◌then◌else◌, arith,
}
use spec_to_rust_os.Prelude.Panic.{Outcome, returned, panicked, ◌>>=◌}
use spec_to_rust_os.EasyFs.Disk.{Disk, block_sz, write_block}
use spec_to_rust_os.EasyFs.Bitmap.{
  Bitmap, SuperBlock, block_bits, initialize, is_valid, alloc, dealloc, maximum,
}

abbrev pub disk_inode_size : ℕ
disk_inode_size = 128

abbrev pub inodes_per_block : ℕ
inodes_per_block = block_sz / disk_inode_size

pub record EasyFileSystem : Type 0 where
  pub inode_bitmap : Bitmap
  pub data_bitmap : Bitmap
  pub inode_area_start_block : ℕ
  pub data_area_start_block : ℕ

-- Arithmetic of u32.
abbrev pub add : ℕ → ℕ → ℕ
add a b = (a + b) % 2 ^ 32

abbrev pub sub : ℕ → ℕ → ℕ
sub a b = (a + (2 ^ 32 - b)) % 2 ^ 32

abbrev pub mul : ℕ → ℕ → ℕ
mul a b = a * b % 2 ^ 32

-- The file system for the sizes of the areas, as `create` and `open` compute it.
unfoldable pub file_system : ℕ → ℕ → ℕ → EasyFileSystem
file_system inode_bitmap_blocks inode_area_blocks data_bitmap_blocks =
    let inode_bitmap_start : ℕ = 1 in
    let inode_area_start = add inode_bitmap_start inode_bitmap_blocks in
    let data_bitmap_start = add inode_area_start inode_area_blocks in
    let data_area_start = add data_bitmap_start data_bitmap_blocks in
    record {
      inode_bitmap = record { start_block_id = inode_bitmap_start; blocks = inode_bitmap_blocks };
      data_bitmap = record { start_block_id = data_bitmap_start; blocks = data_bitmap_blocks };
      inode_area_start_block = inode_area_start;
      data_area_start_block = data_area_start;
    }

-- The division of the disk in `create`: the super block that it writes and the file system.
unfoldable pub create_layout : ℕ → ℕ → SuperBlock × EasyFileSystem
create_layout total_blocks inode_bitmap_blocks =
    let inode_area_blocks = mul inode_bitmap_blocks block_bits / inodes_per_block in
    let inode_total_blocks = add (add 1 inode_bitmap_blocks) inode_area_blocks in
    let data_total_blocks = sub total_blocks inode_total_blocks in
    let data_bitmap_blocks = add data_total_blocks block_bits / (block_bits + 1) in
    let data_area_blocks = sub data_total_blocks data_bitmap_blocks in
    (
      initialize total_blocks inode_bitmap_blocks inode_area_blocks data_bitmap_blocks
          data_area_blocks,
      file_system inode_bitmap_blocks inode_area_blocks data_bitmap_blocks,
    )

-- `open` on the super block that it reads.
unfoldable pub open_layout : SuperBlock → Outcome EasyFileSystem
open_layout sb =
    if is_valid sb
    then returned (file_system sb.inode_bitmap_blocks sb.inode_area_blocks sb.data_bitmap_blocks)
    else panicked

unfoldable pub get_disk_inode_pos : ℕ → EasyFileSystem → ℕ × ℕ
get_disk_inode_pos inode_id efs = (
  add efs.inode_area_start_block (inode_id / inodes_per_block),
  inode_id % inodes_per_block * disk_inode_size,
)

unfoldable pub get_data_block_id : ℕ → EasyFileSystem → ℕ
get_data_block_id data_block_id efs = add efs.data_area_start_block data_block_id

abbrev unwrap : Option (ℕ × Disk) → Outcome (ℕ × Disk)
unwrap none = panicked
unwrap (some (id, disk)) = returned (id % 2 ^ 32, disk)

unfoldable pub alloc_inode : EasyFileSystem → Disk → Outcome (ℕ × Disk)
alloc_inode efs disk = unwrap (alloc efs.inode_bitmap disk)

unfoldable pub alloc_data : EasyFileSystem → Disk → Outcome (ℕ × Disk)
alloc_data efs disk = unwrap (alloc efs.data_bitmap disk) >>= λ (id, disk').
    returned (get_data_block_id id efs, disk')

-- The block is cleared, then its bit is.
unfoldable pub dealloc_data : ℕ → EasyFileSystem → Disk → Outcome Disk
dealloc_data block_id efs disk =
    dealloc (sub block_id efs.data_area_start_block) efs.data_bitmap
      (write_block block_id (replicate block_sz 0) disk)

-- A disk that is large enough for the inodes is divided without a gap or an overlap: the inode bitmap, the
-- inode area, the data bitmap and the data area follow block 0 in this order up to the last block; each
-- bitmap covers its area; and `open` of the super block that `create` writes gives the same file system.
pub create_layout-open_layout :
    (total inode_bitmap_blocks : ℕ)
    → total < 2 ^ 32 - 4096
    → inode_bitmap_blocks < 2 ^ 20
    → 1 + inode_bitmap_blocks * 1025 ≤ total
    → let (sb, efs) = create_layout total inode_bitmap_blocks in
      (efs.inode_bitmap.start_block_id ≡ 1)
      × (efs.inode_area_start_block ≡ efs.inode_bitmap.start_block_id + efs.inode_bitmap.blocks)
      × (efs.data_bitmap.start_block_id ≡ efs.inode_area_start_block + sb.inode_area_blocks)
      × (efs.data_area_start_block ≡ efs.data_bitmap.start_block_id + efs.data_bitmap.blocks)
      × (efs.data_area_start_block + sb.data_area_blocks ≡ total)
      × (maximum efs.inode_bitmap ≡ sb.inode_area_blocks * inodes_per_block)
      × (sb.data_area_blocks ≤ maximum efs.data_bitmap)
      × (open_layout sb ≡ returned efs)
unfolding create_layout open_layout file_system initialize is_valid maximum
create_layout-open_layout total ib h1 h2 h3 =
    (refl, omega arith, omega arith, omega arith, omega arith, omega arith, omega arith, refl)

-- On such a disk the place of an inode that the bitmap can give out lies within one block of the inode area,
-- and the inodes follow one another there, 128 bytes each.
pub get_disk_inode_pos_lem :
    (total inode_bitmap_blocks i : ℕ)
    → total < 2 ^ 32 - 4096
    → inode_bitmap_blocks < 2 ^ 20
    → 1 + inode_bitmap_blocks * 1025 ≤ total
    → i < inode_bitmap_blocks * block_bits
    → let (_, efs) = create_layout total inode_bitmap_blocks in
      let (block, offset) = get_disk_inode_pos i efs in
      (efs.inode_area_start_block ≤ block)
      × (block < efs.data_bitmap.start_block_id)
      × (offset + disk_inode_size ≤ block_sz)
      × (block * block_sz + offset ≡ efs.inode_area_start_block * block_sz + i * disk_inode_size)
unfolding create_layout file_system maximum get_disk_inode_pos
get_disk_inode_pos_lem total ib i h1 h2 h3 lt = (omega arith, omega arith, omega arith, omega arith)
