-- ===== src/EasyFs/Format/Opening.antt =====
-- easy-fs/src/efs.rs: `open` of a disk that `create` made.
use spec_to_rust_os.Prelude.{
  ℕ, zero, suc, ◌+◌, ◌*◌, ◌-◌, ◌%◌, ◌^◌, ◌≤◌, ◌<◌, ◌≡◌, refl, ap, ◌∙◌, Bool, true, false, some,
  List, [], ◌∷◌, ◌++◌, ◌==◌, drop, get_or, replicate, Bool-cases, inl, inr, arith,
}
use spec_to_rust_os.Prelude.Panic.{returned}
use spec_to_rust_os.Prelude.Bits.{trailing_zeros}
use spec_to_rust_os.EasyFs.Disk.{Disk, write_block, as_words, as_bytes, AreWords, as_words-append}
use spec_to_rust_os.EasyFs.Bitmap as Bitmaps
use spec_to_rust_os.EasyFs.Bitmap.{
  Bitmap, SuperBlock, alloc, alloc_from, alloc_bit, find_free, bitmap_block, write_bitmap,
}
use spec_to_rust_os.EasyFs.DiskInode.{directory, initialize}
use spec_to_rust_os.EasyFs.DiskInode.Access.{splice}
use spec_to_rust_os.EasyFs.Efs.{
  EasyFileSystem, create_layout, open_layout, get_disk_inode_pos, alloc_inode, file_system,
  create_layout-open_layout,
}
use spec_to_rust_os.EasyFs.Vfs as Vfs
use spec_to_rust_os.EasyFs.Vfs.{
  Inode, inode_at, write_disk_inode, read_disk_inode, readdir, names_from,
}
use spec_to_rust_os.EasyFs.Format.{
  decode, encode, clear_blocks, create_root, create, open_disk, root_inode,
}

abbrev zeros : List ℕ
zeros = replicate 512 0

clear_blocks_lem : (n i : ℕ) (disk : Disk) → i < n → clear_blocks n disk i ≡ zeros
unfolding clear_blocks write_block
clear_blocks_lem zero i disk lt = absurd (omega arith)
clear_blocks_lem (suc n) i disk lt = elim (Bool-cases (i == n)) [
  | inl here ↦ rw here refl
  | inr there ↦ rw there (clear_blocks_lem n i disk (ground arith))
]

-- The bitmap block once its first bit is set.
abbrev first_taken : List ℕ
first_taken = 1 ∷ replicate 63 0

alloc_bit-zeros : alloc_bit (replicate 64 0) ≡ some (0, first_taken)
unfolding alloc_bit find_free trailing_zeros
alloc_bit-zeros = refl

as_words-zeros : as_words 8 64 zeros ≡ replicate 64 0
as_words-zeros = refl

bitmap_block-zeros : (disk : Disk) → disk 1 ≡ zeros → bitmap_block 1 disk ≡ replicate 64 0
unfolding bitmap_block
bitmap_block-zeros disk e = ap (as_words 8 64) e ∙ as_words-zeros

alloc-first :
    (m : ℕ) (disk : Disk)
    → disk 1 ≡ zeros
    → alloc (record { start_block_id = 1; blocks = suc m }) disk
      ≡ some (0, write_bitmap 1 first_taken disk)
unfolding alloc alloc_from
alloc-first m disk e = rw (alloc, alloc_from, bitmap_block-zeros disk e, alloc_bit-zeros) refl

unfoldable super_block_of : List ℕ → SuperBlock
super_block_of words = record {
  magic = get_or words 0 0;
  total_blocks = get_or words 1 0;
  inode_bitmap_blocks = get_or words 2 0;
  inode_area_blocks = get_or words 3 0;
  data_bitmap_blocks = get_or words 4 0;
  data_area_blocks = get_or words 5 0;
}

decode-words :
    (bytes words : List ℕ) → as_words 4 6 bytes ≡ words → decode bytes ≡ super_block_of words
unfolding decode super_block_of
decode-words bytes words e = ap super_block_of e

-- The words of the super block.
decode-encode :
    (a b c d e f : ℕ) (rest : List ℕ)
    → AreWords 4 (a ∷ b ∷ c ∷ d ∷ e ∷ f ∷ [])
    → let sb : SuperBlock = record {
      magic = a;
      total_blocks = b;
      inode_bitmap_blocks = c;
      inode_area_blocks = d;
      data_bitmap_blocks = e;
      data_area_blocks = f;
    } in
      decode (encode sb ++ rest) ≡ sb
unfolding encode super_block_of
decode-encode a b c d e f rest h =
    let words : List ℕ = a ∷ b ∷ c ∷ d ∷ e ∷ f ∷ [] in
    decode-words (as_bytes 4 words ++ rest) words (as_words-append 4 words rest h)

-- The first block of the inode area once the root is initialised.
abbrev root_block : List ℕ
root_block = Vfs.encode (initialize directory) ++ drop 128 zeros

abbrev root_at : ℕ → Inode
root_at block = record { block_id = block; block_offset = 0 }

write_disk_inode-zeros :
    (block : ℕ) (disk : Disk)
    → disk block ≡ zeros
    → write_disk_inode (root_at block) (initialize directory) disk
      ≡ returned (write_block block root_block disk)
unfolding write_disk_inode Vfs.encode initialize
write_disk_inode-zeros block disk e = rw (write_disk_inode, e) refl

read_disk_inode-root :
    (block : ℕ) (disk : Disk)
    → disk block ≡ root_block
    → read_disk_inode (root_at block) disk ≡ returned (initialize directory)
unfolding read_disk_inode Vfs.encode Vfs.decode initialize
read_disk_inode-root block disk e = rw (read_disk_inode, e) refl

write_block-other :
    (i j : ℕ) (bytes : List ℕ) (disk : Disk)
    → (j == i) ≡ false
    → write_block i bytes disk j ≡ disk j
unfolding write_block
write_block-other i j bytes disk e = rw e refl

write_block-same : (i : ℕ) (bytes : List ℕ) (disk : Disk) → write_block i bytes disk i ≡ bytes
unfolding write_block
write_block-same i bytes disk = let e : (i == i) ≡ true = ground arith in rw e refl

create_root_lem :
    (m start data_start inode_area data_area : ℕ) (disk : Disk)
    → let efs : EasyFileSystem = record {
      inode_bitmap = record { start_block_id = 1; blocks = suc m };
      data_bitmap = record { start_block_id = start; blocks = data_start };
      inode_area_start_block = inode_area;
      data_area_start_block = data_area;
    } in
      inode_area < 2 ^ 32
      → (inode_area == 1) ≡ false
      → disk 1 ≡ zeros
      → disk inode_area ≡ zeros
      → create_root efs disk
        ≡ returned (write_block inode_area root_block (write_bitmap 1 first_taken disk))
unfolding create_root alloc_inode get_disk_inode_pos
create_root_lem m start data_start inode_area data_area disk small apart e e' =
    let at : (inode_area + 0) % 2 ^ 32 ≡ inode_area = omega arith in
    rw
      (
        create_root,
        alloc_inode,
        alloc-first m disk e,
        get_disk_inode_pos,
        at,
        write_disk_inode-zeros inode_area (write_bitmap 1 first_taken disk)
            (write_block-other 1 inode_area (as_bytes 8 first_taken) disk apart ∙ e'),
      )
      refl

create-returned :
    (total inode_bitmap_blocks : ℕ) (disk : Disk) (block : List ℕ) (disk' : Disk)
    → let (sb, efs) = create_layout total inode_bitmap_blocks in
      splice (clear_blocks total disk 0) 0 (encode sb) ≡ returned block
      → create_root efs (write_block 0 block (clear_blocks total disk)) ≡ returned disk'
      → create total inode_bitmap_blocks disk ≡ returned (efs, disk')
unfolding create
create-returned total inode_bitmap_blocks disk block disk' e e' = rw (create, e, e') refl

-- The first block once the super block is written.
abbrev first_block : SuperBlock → List ℕ
first_block sb = encode sb ++ drop 24 zeros

splice-zeros :
    (sb : SuperBlock) (block : List ℕ)
    → block ≡ zeros
    → splice block 0 (encode sb) ≡ returned (first_block sb)
unfolding encode
splice-zeros sb block e = rw e refl

open_disk-first_block :
    (sb : SuperBlock) (disk : Disk) (efs : EasyFileSystem)
    → disk 0 ≡ first_block sb
    → decode (first_block sb) ≡ sb
    → open_layout sb ≡ returned efs
    → open_disk disk ≡ returned efs
unfolding open_disk
open_disk-first_block sb disk efs e e' e'' =
    ap (λ b. open_layout (decode b)) e ∙ ap open_layout e' ∙ e''

readdir-empty :
    (is_utf8 : List ℕ → Bool) (inode : Inode) (disk : Disk)
    → read_disk_inode inode disk ≡ returned (initialize directory)
    → readdir is_utf8 inode disk ≡ returned []
unfolding readdir names_from initialize
readdir-empty is_utf8 inode disk e = rw (readdir, e) refl

-- On a device that is large enough and has a block of inodes, `create` returns; `open` of the disk gives the
-- same file system, whatever was there before; its root is an empty directory.
pub create-open_disk :
    (is_utf8 : List ℕ → Bool) (total inode_bitmap_blocks : ℕ) (disk : Disk)
    → total < 2 ^ 32 - 4096
    → 0 < inode_bitmap_blocks
    → inode_bitmap_blocks < 2 ^ 20
    → 1 + inode_bitmap_blocks * 1025 ≤ total
    → (efs : EasyFileSystem) × (disk' : Disk) × (create total inode_bitmap_blocks disk
        ≡ returned (efs, disk'))
      × (open_disk disk' ≡ returned efs)
      × (read_disk_inode (root_inode efs) disk' ≡ returned (initialize directory))
      × (readdir is_utf8 (root_inode efs) disk' ≡ returned [])
unfolding create_layout file_system Bitmaps.initialize root_inode get_disk_inode_pos
create-open_disk is_utf8 total zero disk h1 h2 h3 h4 = absurd (omega arith)
create-open_disk is_utf8 total (suc m) disk h1 h2 h3 h4 =
    let (sb, efs) = create_layout total (suc m) in
    let cleared = clear_blocks total disk in
    let base = write_block 0 (first_block sb) cleared in
    let area = efs.inode_area_start_block in
    let disk' = write_block area root_block (write_bitmap 1 first_taken base) in
    let (_, at, _, _, _, _, _, opened) = create_layout-open_layout total (suc m) h1 h3 h4 in
    let apart : (area == 1) ≡ false = ground (arith, at) in
    let apart' : (0 == area) ≡ false = ground (arith, at) in
    let made =
      create_root_lem m efs.data_bitmap.start_block_id efs.data_bitmap.blocks area
        efs.data_area_start_block base (omega arith) apart
        (write_block-other 0 1 (first_block sb) cleared refl
          ∙ clear_blocks_lem total 1 disk (omega arith))
        (write_block-other 0 area (first_block sb) cleared (ground (arith, at))
          ∙ clear_blocks_lem total area disk (omega (arith, at))) in
    let start : disk' 0 ≡ first_block sb =
      write_block-other area 0 root_block (write_bitmap 1 first_taken base) apart'
      ∙ write_block-other 1 0 (as_bytes 8 first_taken) base refl
      ∙ write_block-same 0 (first_block sb) cleared in
    let words =
      decode-encode sb.magic sb.total_blocks sb.inode_bitmap_blocks sb.inode_area_blocks
        sb.data_bitmap_blocks sb.data_area_blocks (drop 24 zeros)
        (
          omega arith,
          (omega arith, (omega arith, (omega arith, (omega arith, (omega arith, omega arith))))),
        ) in
    let same : (area + 0) % 2 ^ 32 ≡ area = omega arith in
    let root : read_disk_inode (root_inode efs) disk' ≡ returned (initialize directory) =
      ap (λ a. read_disk_inode (root_at a) disk') same
      ∙ read_disk_inode-root area disk'
          (write_block-same area root_block (write_bitmap 1 first_taken base)) in
    (
      efs,
      disk',
      create-returned total (suc m) disk (first_block sb) disk'
          (splice-zeros sb (cleared 0) (clear_blocks_lem total 0 disk (omega arith))) made,
      open_disk-first_block sb disk' efs start words opened,
      root,
      readdir-empty is_utf8 (root_inode efs) disk' root,
    )
