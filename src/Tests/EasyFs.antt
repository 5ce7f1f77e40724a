-- ===== src/Tests/EasyFs.antt =====
-- Runs of easy-fs/src.
use spec_to_rust_os.Prelude.{
  ℕ, ◌+◌, ◌*◌, ◌≤◌, ◌<◌, ◌≡◌, refl, zero, suc, List, [], ◌∷◌, length, replicate, arith,
}
use spec_to_rust_os.Prelude.Panic.{returned}
use spec_to_rust_os.Prelude.{Bool, true, some}
use spec_to_rust_os.Prelude.Map.{lookup}
use spec_to_rust_os.EasyFs.BlockCache.{
  BlockCache, Queue, block_cache_size, get_block_cache, block_cache_sync_all,
}
use spec_to_rust_os.EasyFs.BlockCache.Eviction.{visible, IsCoherent, no_slots, slot}
use spec_to_rust_os.EasyFs.BlockCache.Transparency.{get_block_cache_lem}
use spec_to_rust_os.EasyFs.BlockCache.Writeback.{block_cache_sync_all_lem}
use spec_to_rust_os.EasyFs.DirEntry.{
  DirEntry, new, name, as_bytes, as_bytes_mut, dirent_sz, name-new,
}
use spec_to_rust_os.EasyFs.Disk.{Disk, block_sz}
use spec_to_rust_os.EasyFs.Bitmap.{alloc_bit, maximum}
use spec_to_rust_os.EasyFs.Bitmap.Allocation.{AreWords, Allocated, alloc_bit-Allocated}
use spec_to_rust_os.EasyFs.DiskInode.{
  DiskInode, file, directory, initialize, blocks_num_needed, total_blocks, increase_size,
  clear_size, data_blocks_of,
}
use spec_to_rust_os.EasyFs.DiskInode.Clearing.{clear_size_lem}
use spec_to_rust_os.EasyFs.DiskInode.Increase.{increase_size_lem}
use spec_to_rust_os.EasyFs.Format.{create, open_disk, root_inode}
use spec_to_rust_os.EasyFs.Format.Opening.{create-open_disk}
use spec_to_rust_os.EasyFs.Vfs.{read_disk_inode, readdir}
use spec_to_rust_os.EasyFs.Efs.{
  EasyFileSystem, create_layout, open_layout, get_disk_inode_pos, disk_inode_size, inodes_per_block,
  create_layout-open_layout, get_disk_inode_pos_lem,
}

abbrev blank : Disk
blank id = replicate 512 0

abbrev words : List ℕ
words = 18446744073709551615 ∷ 5 ∷ []

words-AreWords : AreWords words
words-AreWords zero lt = omega arith
words-AreWords (suc zero) lt = omega arith
words-AreWords (suc (suc i)) lt = absurd (omega arith)

alloc_bit-Allocated_example : Allocated words (alloc_bit words)
alloc_bit-Allocated_example = alloc_bit-Allocated words words-AreWords

create_layout-open_layout_example :
    let (sb, efs) = create_layout 8192 1 in
    (efs.inode_bitmap.start_block_id ≡ 1)
    × (efs.inode_area_start_block ≡ efs.inode_bitmap.start_block_id + efs.inode_bitmap.blocks)
    × (efs.data_bitmap.start_block_id ≡ efs.inode_area_start_block + sb.inode_area_blocks)
    × (efs.data_area_start_block ≡ efs.data_bitmap.start_block_id + efs.data_bitmap.blocks)
    × (efs.data_area_start_block + sb.data_area_blocks ≡ 8192)
    × (maximum efs.inode_bitmap ≡ sb.inode_area_blocks * inodes_per_block)
    × (sb.data_area_blocks ≤ maximum efs.data_bitmap)
    × (open_layout sb ≡ returned efs)
create_layout-open_layout_example =
    create_layout-open_layout 8192 1 (omega arith) (omega arith) (omega arith)

get_disk_inode_pos_example :
    let (_, efs) = create_layout 8192 1 in
    let (block, offset) = get_disk_inode_pos 4095 efs in
    (efs.inode_area_start_block ≤ block)
    × (block < efs.data_bitmap.start_block_id)
    × (offset + disk_inode_size ≤ block_sz)
    × (block * block_sz + offset ≡ efs.inode_area_start_block * block_sz + 4095 * disk_inode_size)
get_disk_inode_pos_example =
    get_disk_inode_pos_lem 8192 1 4095 (omega arith) (omega arith) (omega arith) (omega arith)

abbrev empty_file : DiskInode
empty_file = initialize file

empty-full : length empty_file.direct ≡ 28
unfolding initialize
empty-full = refl

empty-size : empty_file.size ≡ 0
unfolding initialize
empty-size = refl

abbrev new_blocks : List ℕ
new_blocks = 40 ∷ 41 ∷ []

asked : blocks_num_needed 600 empty_file ≡ returned (length new_blocks)
unfolding blocks_num_needed initialize total_blocks data_blocks_of
asked = refl

increase_size_example :
    (d' : DiskInode) × (disk' : Disk) × (increase_size 600 new_blocks blank empty_file
      ≡ returned (d', [], disk'))
    × (d'.size ≡ 600)
    × (length d'.direct ≡ 28)
increase_size_example =
    increase_size_lem 600 new_blocks blank empty_file empty-full (omega (arith, empty-size))
      (omega arith) asked

abbrev small_file : DiskInode
small_file = record empty_file { size = 600 }

clear_size_example :
    (v : List ℕ) × (d' : DiskInode) × (clear_size blank small_file ≡ returned (v, d'))
    × (length v ≡ total_blocks small_file.size)
    × (d'.size ≡ 0)
    × (length d'.direct ≡ 28)
clear_size_example = clear_size_lem blank small_file empty-full (omega arith)

abbrev all_free : ℕ → Bool
all_free id = true

abbrev one_slot : Queue
one_slot = (3, record { cache = replicate 512 1; block_id = 3; modified = true }) ∷ []

one_slot-IsCoherent : IsCoherent blank one_slot
unfolding lookup
one_slot-IsCoherent =
    slot 3 (record { cache = replicate 512 1; block_id = 3; modified = true }) [] refl refl
      (λ clean. ground (arith, clean)) no_slots

get_block_cache_example :
    (queue' : Queue) × (disk' : Disk) × (c : BlockCache) × (get_block_cache all_free 7 one_slot
        blank
      ≡ returned (queue', disk'))
    × (lookup 7 queue' ≡ some c)
    × (c.cache ≡ visible one_slot blank 7)
    × IsCoherent disk' queue'
    × (length queue' ≤ block_cache_size)
    × ((j : ℕ) → visible queue' disk' j ≡ visible one_slot blank j)
get_block_cache_example =
    get_block_cache_lem all_free 7 one_slot blank one_slot-IsCoherent (omega arith) (λ full. refl)

block_cache_sync_all_example :
    let (queue', disk') = block_cache_sync_all one_slot blank in
    (disk' 3 ≡ visible one_slot blank 3) × (visible queue' disk' 3 ≡ visible one_slot blank 3)
block_cache_sync_all_example = block_cache_sync_all_lem one_slot blank 3 one_slot-IsCoherent

abbrev any_string : List ℕ → Bool
any_string s = true

abbrev hello : List ℕ
hello = 104 ∷ 105 ∷ []

name-new_example :
    (d : DirEntry) × (new hello 5 ≡ returned d)
    × (name any_string d ≡ returned hello)
    × (d.inode_number ≡ 5)
    × (length (as_bytes d) ≡ dirent_sz)
    × (as_bytes_mut (as_bytes d) ≡ d)
name-new_example =
    name-new any_string hello 5 (omega arith) (refl, (refl, omega arith)) refl (omega arith)

create-open_disk_example :
    (efs : EasyFileSystem) × (disk' : Disk) × (create 8192 1 blank ≡ returned (efs, disk'))
    × (open_disk disk' ≡ returned efs)
    × (read_disk_inode (root_inode efs) disk' ≡ returned (initialize directory))
    × (readdir (λ bytes. true) (root_inode efs) disk' ≡ returned [])
create-open_disk_example =
    create-open_disk (λ bytes. true) 8192 1 blank (omega arith) (omega arith) (omega arith)
      (omega arith)
