-- ===== src/EasyFs/Vfs.antt =====
-- easy-fs/src/vfs.rs: `Inode`, a file or directory on disk. The block cache is transparent, so a closure on
-- the inode acts on its bytes in its block; the lock of the file system is held throughout.
use spec_to_rust_os.Prelude.{
  ℕ, zero, suc, ◌+◌, ◌*◌, ◌/◌, ◌%◌, ◌^◌, Bool, true, false, ◌&&◌, Option, none, some, List, [], ◌∷◌,
  ◌++◌, leb, ◌==◌, if◌then◌else◌, length, take, drop, get_or,
}
use spec_to_rust_os.Prelude.Panic.{Outcome, returned, panicked, ◌>>=◌}
use spec_to_rust_os.EasyFs.Disk.{Disk, write_block, word_bytes, as_words, as_bytes}
use spec_to_rust_os.EasyFs.DiskInode as DiskInodes
use spec_to_rust_os.EasyFs.DiskInode.{
  DiskInode, DiskInodeType, file, directory, initialize, is_dir, blocks_num_needed, clear_size,
}
use spec_to_rust_os.EasyFs.DiskInode.Access as Access
use spec_to_rust_os.EasyFs.DiskInode.Access.{slice, splice}
use spec_to_rust_os.EasyFs.DirEntry as DirEntries
use spec_to_rust_os.EasyFs.DirEntry.{DirEntry, dirent_sz, as_bytes_mut}
use spec_to_rust_os.EasyFs.Efs.{
  EasyFileSystem, disk_inode_size, get_disk_inode_pos, alloc_inode, alloc_data, dealloc_data,
}

pub record Inode : Type 0 where
  pub block_id : ℕ
  pub block_offset : ℕ

-- The 128 bytes of a `DiskInode`: words of four bytes, and the type with its padding.
unfoldable pub decode : List ℕ → DiskInode
decode bytes =
    let words = as_words 4 31 bytes in
    record {
      size = get_or words 0 0;
      direct = take 28 (drop 1 words);
      indirect1 = get_or words 29 0;
      indirect2 = get_or words 30 0;
      type_ = if get_or bytes 124 0 == 0 then file else directory;
    }

abbrev type_byte : DiskInodeType → ℕ
type_byte file = 0
type_byte directory = 1

unfoldable pub encode : DiskInode → List ℕ
encode d =
    word_bytes 4 d.size
    ++ as_bytes 4 d.direct
    ++ word_bytes 4 d.indirect1
    ++ word_bytes 4 d.indirect2
    ++ word_bytes 4 (type_byte d.type_)

unfoldable pub read_disk_inode : Inode → Disk → Outcome DiskInode
read_disk_inode inode disk =
    slice (disk inode.block_id) inode.block_offset disk_inode_size >>= λ bytes.
    returned (decode bytes)

unfoldable pub write_disk_inode : Inode → DiskInode → Disk → Outcome Disk
write_disk_inode inode d disk =
    splice (disk inode.block_id) inode.block_offset (encode d) >>= λ block.
    returned (write_block inode.block_id block disk)

-- `f` is the closure, which changes the inode and other blocks.
unfoldable pub modify_disk_inode :
    {A : Type 0}
    → (DiskInode → Disk → Outcome (A × DiskInode × Disk))
    → Inode
    → Disk
    → Outcome (A × Disk)
modify_disk_inode f inode disk = do
  d ← read_disk_inode inode disk
  (a, d', disk') ← f d disk
  disk'' ← write_disk_inode inode d' disk'
  returned (a, disk'')

unfoldable pub same_name : List ℕ → List ℕ → Bool
same_name [] [] = true
same_name [] (d ∷ ds) = false
same_name (c ∷ cs) [] = false
same_name (c ∷ cs) (d ∷ ds) = (c == d) && same_name cs ds

-- The entry at position `i`, whose read must be complete.
unfoldable pub read_dirent : ℕ → Disk → DiskInode → Outcome DirEntry
read_dirent i disk d = do
  bytes ← Access.read_at (i * dirent_sz) dirent_sz disk d
  (if length bytes == dirent_sz then returned (as_bytes_mut bytes) else panicked)

-- `n` calls of `alloc_data`, with their blocks in order.
unfoldable pub alloc_blocks : ℕ → EasyFileSystem → Disk → Outcome (List ℕ × Disk)
alloc_blocks zero efs disk = returned ([], disk)
alloc_blocks (suc n) efs disk = do
  (b, disk₁) ← alloc_data efs disk
  (bs, disk₂) ← alloc_blocks n efs disk₁
  returned (b ∷ bs, disk₂)

unfoldable pub increase_size : ℕ → EasyFileSystem → Disk → DiskInode → Outcome (DiskInode × Disk)
increase_size new_size efs disk d = if leb new_size d.size then returned (d, disk) else (do
  needed ← blocks_num_needed new_size d
  (v, disk₁) ← alloc_blocks needed efs disk
  (d', _, disk₂) ← DiskInodes.increase_size new_size v disk₁ d
  returned (d', disk₂))

unfoldable pub dealloc_blocks : List ℕ → EasyFileSystem → Disk → Outcome Disk
dealloc_blocks [] efs disk = returned disk
dealloc_blocks (b ∷ bs) efs disk = dealloc_data b efs disk >>= dealloc_blocks bs efs

unfoldable pub read_at : Inode → ℕ → ℕ → Disk → Outcome (List ℕ)
read_at inode offset len disk = do d ← read_disk_inode inode disk; Access.read_at offset len disk d

unfoldable pub write_at : EasyFileSystem → Inode → ℕ → List ℕ → Disk → Outcome (ℕ × Disk)
write_at efs inode offset buf disk =
    modify_disk_inode
      (λ d disk. do
        (d', disk₁) ← increase_size ((offset + length buf) % 2 ^ 32) efs disk d
        (size, disk₂) ← Access.write_at offset buf disk₁ d'
        returned (size, d', disk₂))
      inode disk

unfoldable pub clear : EasyFileSystem → Inode → Disk → Outcome Disk
clear efs inode disk = do
  (_, disk') ←
      modify_disk_inode
        (λ d disk. do
          (blocks, d') ← clear_size disk d
          disk' ← dealloc_blocks blocks efs disk
          returned (tt {0}, d', disk'))
        inode disk
  returned disk'

abbrev pub inode_at : EasyFileSystem → ℕ → Inode
inode_at efs inode_id =
    let (block_id, block_offset) = get_disk_inode_pos inode_id efs in
    record { block_id = block_id; block_offset = block_offset }

-- `is_utf8` is the test that `DirEntry::name` makes.
module _ (is_utf8 : List ℕ → Bool) where
  -- The entries from `i` on, `n` of them.
  unfoldable pub find_from : ℕ → ℕ → List ℕ → Disk → DiskInode → Outcome (Option ℕ)
  find_from i zero name disk d = returned none
  find_from i (suc n) name disk d = do
    let later = find_from (suc i) n name disk d
    dirent ← read_dirent i disk d
    found ← DirEntries.name is_utf8 dirent
    (if same_name found name then returned (some dirent.inode_number) else later)

  unfoldable pub find_inode_id : List ℕ → Disk → DiskInode → Outcome (Option ℕ)
  find_inode_id name disk d =
      if is_dir d then find_from 0 (d.size / dirent_sz) name disk d else panicked

  unfoldable pub find : EasyFileSystem → Inode → List ℕ → Disk → Outcome (Option Inode)
  find efs inode name disk = do
    d ← read_disk_inode inode disk
    found ← find_inode_id name disk d
    returned (elim found [ none ↦ none | some inode_id ↦ some (inode_at efs inode_id) ])

  unfoldable pub names_from : ℕ → ℕ → Disk → DiskInode → Outcome (List (List ℕ))
  names_from i zero disk d = returned []
  names_from i (suc n) disk d = do
    dirent ← read_dirent i disk d
    name ← DirEntries.name is_utf8 dirent
    names ← names_from (suc i) n disk d
    returned (name ∷ names)

  unfoldable pub readdir : Inode → Disk → Outcome (List (List ℕ))
  readdir inode disk = do d ← read_disk_inode inode disk; names_from 0 (d.size / dirent_sz) disk d

  -- The closure of `create` on the directory: it grows by an entry, which is written at its end.
  abbrev append_entry :
      EasyFileSystem → List ℕ → ℕ → DiskInode → Disk → Outcome (Unit {0} × DiskInode × Disk)
  append_entry efs name inode_id d disk = do
    let file_count : ℕ = d.size / dirent_sz
    (d', disk₁) ← increase_size ((file_count + 1) * dirent_sz % 2 ^ 32) efs disk d
    dirent ← DirEntries.new name inode_id
    (_, disk₂) ← Access.write_at (file_count * dirent_sz) (DirEntries.as_bytes dirent) disk₁ d'
    returned (tt, d', disk₂)

  -- The inode that a new file gets, and its entry.
  abbrev add_file : EasyFileSystem → Inode → List ℕ → Disk → Outcome (Option Inode × Disk)
  add_file efs inode name disk = do
    (inode_id, disk₁) ← alloc_inode efs disk
    let new_inode = inode_at efs inode_id
    disk₂ ← write_disk_inode new_inode (initialize file) disk₁
    (_, disk₃) ← modify_disk_inode (append_entry efs name inode_id) inode disk₂
    returned (some new_inode, disk₃)

  unfoldable pub create : EasyFileSystem → Inode → List ℕ → Disk → Outcome (Option Inode × Disk)
  create efs inode name disk = do
    d ← read_disk_inode inode disk
    found ← find_inode_id name disk d
    elim found [ some _ ↦ returned (none, disk) | none ↦ add_file efs inode name disk ]
