-- ===== src/Tests/Reading.antt =====
-- Runs of `DiskInode::read_at` and `write_at` in easy-fs/src/layout.rs, of the file handles of
-- easy-fs/src/vfs.rs, and of `read_all` in ch8/src/main.rs.
use spec_to_rust_os.Prelude.{
  ℕ, zero, suc, ◌+◌, ◌-◌, ◌*◌, ◌<◌, min, ◌≡◌, refl, List, [], ◌∷◌, ◌≤◌, length, get_or, replicate,
  length-replicate, arith,
}
use spec_to_rust_os.Prelude.{Bool, true, false, some, take, drop, ◌==◌, ◌++◌, if◌then◌else◌}
use spec_to_rust_os.EasyFs.Vfs as Vfs
use spec_to_rust_os.EasyFs.Efs.{EasyFileSystem, file_system}
use spec_to_rust_os.EasyFs.File.{FileHandle, buffer_len, read, AllSome}
use spec_to_rust_os.EasyFs.OnDisk.{on_disk, file_bytes, read-on_disk}
use spec_to_rust_os.Prelude.Panic.{returned}
use spec_to_rust_os.EasyFs.Disk.{Disk}
use spec_to_rust_os.EasyFs.DiskInode.{DiskInode, file, get_block_id}
use spec_to_rust_os.EasyFs.DiskInode.Access.{read_at, write_at}
use spec_to_rust_os.EasyFs.DiskInode.Splicing.{AreApart}
use spec_to_rust_os.EasyFs.DiskInode.Writing.{HoldsFile, SameElsewhere, write_at_lem}
use spec_to_rust_os.EasyFs.DiskInode.Reading.{HasBlocks, byte, read_at_lem}

-- A file of 600 bytes in the blocks 5 and 9; every byte of block `id` is `id`.
abbrev disk : Disk
disk id = replicate 512 id

abbrev inode : DiskInode
inode = record {
  size = 600;
  direct = 5 ∷ 9 ∷ replicate 26 0;
  indirect1 = 0;
  indirect2 = 0;
  type_ = file;
}

abbrev blocks : ℕ → ℕ
blocks zero = 5
blocks (suc k) = 9

inode-found : (k : ℕ) → k * 512 < inode.size → get_block_id k disk inode ≡ returned (blocks k)
unfolding get_block_id
inode-found zero lt = refl
inode-found (suc zero) lt = refl
inode-found (suc (suc k)) lt = absurd (omega arith)

inode-HasBlocks : HasBlocks inode disk blocks
inode-HasBlocks = record {
  found = inode-found;
  whole = λ k lt. length-replicate {A = ℕ} 512 (blocks k);
  small = omega arith;
}

read_at_lem_example :
    (bytes : List ℕ) × (read_at 510 200 disk inode ≡ returned bytes)
    × (length bytes ≡ min (510 + 200) inode.size - 510)
    × ((i : ℕ)
        → i < min (510 + 200) inode.size - 510
        → get_or bytes i 0 ≡ byte blocks disk (510 + i))
read_at_lem_example = read_at_lem inode disk blocks inode-HasBlocks 510 200

inode-found_on :
    (disk' : Disk) (k : ℕ) → k * 512 < inode.size → get_block_id k disk' inode ≡ returned (blocks k)
unfolding get_block_id
inode-found_on disk' zero lt = refl
inode-found_on disk' (suc zero) lt = refl
inode-found_on disk' (suc (suc k)) lt = absurd (omega arith)

blocks-AreApart : AreApart inode.size blocks
blocks-AreApart zero zero lt lt' e = refl
blocks-AreApart zero (suc k) lt lt' e = absurd (omega (arith, e))
blocks-AreApart (suc j) zero lt lt' e = absurd (omega (arith, e))
blocks-AreApart (suc j) (suc k) lt lt' e = omega arith

inode-HoldsFile : HoldsFile inode disk blocks
inode-HoldsFile = record {
  found = λ disk' same. inode-found_on disk';
  whole = λ k lt. length-replicate {A = ℕ} 512 (blocks k);
  apart = blocks-AreApart;
  small = omega arith;
}

write_at_lem_example :
    (disk' : Disk) × (write_at 511 (1 ∷ 2 ∷ 3 ∷ []) disk inode ≡ returned (3, disk'))
    × ((i : ℕ) → i < 3 → byte blocks disk' (511 + i) ≡ get_or (1 ∷ 2 ∷ 3 ∷ []) i 0)
    × ((j : ℕ) → j < 511 → byte blocks disk' j ≡ byte blocks disk j)
    × ((j : ℕ) → 511 + 3 ≤ j → j < inode.size → byte blocks disk' j ≡ byte blocks disk j)
    × SameElsewhere inode.size blocks disk disk'
write_at_lem_example =
    write_at_lem inode disk blocks 511 (1 ∷ 2 ∷ 3 ∷ []) inode-HoldsFile (omega arith) (omega arith)

-- The same file, whose inode lies at the start of block 2.
unfoldable stored : Disk
unfolding Vfs.encode
stored id = if id == 2 then Vfs.encode inode ++ replicate 384 0 else replicate 512 id

abbrev place : Vfs.Inode
place = record { block_id = 2; block_offset = 0 }

inode-stored : Vfs.read_disk_inode place stored ≡ returned inode
unfolding stored Vfs.read_disk_inode Vfs.decode Vfs.encode
inode-stored = refl

stored-whole : (k : ℕ) → k * 512 < inode.size → length (stored (blocks k)) ≡ 512
unfolding stored
stored-whole zero lt = length-replicate {A = ℕ} 512 5
stored-whole (suc k) lt = length-replicate {A = ℕ} 512 9

stored-HasBlocks : HasBlocks inode stored blocks
stored-HasBlocks = record {
  found = inode-found_on stored;
  whole = stored-whole;
  small = omega arith;
}

abbrev efs : EasyFileSystem
efs = file_system 1 1 1

abbrev any_bytes : List ℕ → Bool
any_bytes bytes = true

abbrev handle : FileHandle Disk
handle = record {
  inode = some (on_disk any_bytes efs place);
  readable = true;
  writable = false;
  offset = 500;
}

abbrev slices : List ℕ
slices = 20 ∷ 200 ∷ []

slices-AllSome : AllSome slices
slices-AllSome = (omega arith, (omega arith, omega arith))

read-on_disk_example :
    let bytes = take (buffer_len slices) (drop 500 (file_bytes inode blocks stored)) in
    (read stored slices handle ≡ (bytes, record handle { offset = 500 + length bytes }))
    × ((offset n : ℕ)
        → Vfs.read_at place offset n stored
          ≡ returned (take n (drop offset (file_bytes inode blocks stored))))
read-on_disk_example =
    read-on_disk place inode stored blocks inode-stored stored-HasBlocks any_bytes efs slices handle
      slices-AllSome refl
