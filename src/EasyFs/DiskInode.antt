-- ===== src/EasyFs/DiskInode.antt =====
-- easy-fs/src/layout.rs: `DiskInode`, the index of a file's blocks. Sizes and block numbers are u32 values;
-- an index past an array and `unwrap` of an absent value are panics.
pub mod Access
pub mod Clearing
pub mod Counts
pub mod Growth
pub mod Increase
pub mod Levels
pub mod Reading
pub mod Splicing
pub mod Writing
use Prim.Native.Nat.{max}
use spec_to_rust_os.Prelude.{
  ℕ, zero, suc, ◌+◌, ◌-◌, ◌*◌, ◌/◌, ◌%◌, ◌^◌, min, ◌≤◌, ◌<◌, ◌≡◌, refl, Bool, true, false, not,
  ◌&&◌, ◌||◌, Option, none, some, List, [], ◌∷◌, ◌++◌, ltb, leb, ◌==◌, if◌then◌else◌, length, take,
  drop, get_elem?, set, replicate,
}
use spec_to_rust_os.Prelude.Panic.{Outcome, returned, panicked, ◌>>=◌}
use spec_to_rust_os.EasyFs.Disk.{Disk, block_sz, write_block, as_words, as_bytes, length-as_words}

abbrev pub direct_bound : ℕ
direct_bound = 28

abbrev pub inode_indirect1_count : ℕ
inode_indirect1_count = 128

abbrev pub indirect1_bound : ℕ
indirect1_bound = 156

pub data DiskInodeType : Type 0 where
  file : DiskInodeType
  directory : DiskInodeType

pub record DiskInode : Type 0 where
  pub size : ℕ
  pub direct : List ℕ
  pub indirect1 : ℕ
  pub indirect2 : ℕ
  pub type_ : DiskInodeType

unfoldable pub initialize : DiskInodeType → DiskInode
initialize type_ = record {
  size = 0;
  direct = replicate 28 0;
  indirect1 = 0;
  indirect2 = 0;
  type_ = type_;
}

unfoldable pub is_dir : DiskInode → Bool
is_dir d = elim d.type_ [ file ↦ false | directory ↦ true ]

unfoldable pub is_file : DiskInode → Bool
is_file d = elim d.type_ [ file ↦ true | directory ↦ false ]

-- The sum is a u32, which wraps.
unfoldable pub data_blocks_of : ℕ → ℕ
data_blocks_of size = ((size + block_sz) % 2 ^ 32 + (2 ^ 32 - 1)) % 2 ^ 32 / block_sz

unfoldable pub data_blocks : DiskInode → ℕ
data_blocks d = data_blocks_of d.size

unfoldable pub total_blocks : ℕ → ℕ
total_blocks size =
    let count = data_blocks_of size in
    let one = if ltb direct_bound count then 1 else 0 in
    let two =
      if ltb indirect1_bound count
      then 1 + (count - indirect1_bound + inode_indirect1_count - 1) / inode_indirect1_count
      else 0 in
    (count + one + two) % 2 ^ 32

unfoldable pub blocks_num_needed : ℕ → DiskInode → Outcome ℕ
blocks_num_needed new_size d =
    if leb d.size new_size
    then returned ((total_blocks new_size + (2 ^ 32 - total_blocks d.size)) % 2 ^ 32)
    else panicked

-- A block as an array of 128 words of four bytes.
unfoldable pub indirect_block : ℕ → Disk → List ℕ
indirect_block id disk = as_words 4 128 (disk id)

pub length-indirect_block : (id : ℕ) (disk : Disk) → length (indirect_block id disk) ≡ 128
unfolding indirect_block
length-indirect_block id disk = length-as_words 4 128 (disk id)

abbrev pub write_indirect : ℕ → List ℕ → Disk → Disk
write_indirect id words disk = write_block id (as_bytes 4 words) disk

abbrev pub index : List ℕ → ℕ → Outcome ℕ
index l i = elim (get_elem? l i) [ none ↦ panicked | some v ↦ returned v ]

abbrev pub write : List ℕ → ℕ → ℕ → Outcome (List ℕ)
write l i v = index l i >>= λ _. returned (set l i v)

unfoldable pub get_block_id : ℕ → Disk → DiskInode → Outcome ℕ
get_block_id inner_id disk d =
    if ltb inner_id direct_bound
    then index d.direct inner_id
    else if ltb inner_id indirect1_bound
    then index (indirect_block d.indirect1 disk) (inner_id - direct_bound)
    else (let inner = inner_id - indirect1_bound in
        index (indirect_block d.indirect2 disk) (inner / inode_indirect1_count) >>= λ indirect1.
        index (indirect_block indirect1 disk) (inner % inode_indirect1_count))

-- `new_blocks.next().unwrap()`, with the iterator that is left.
abbrev pub next_block : List ℕ → Outcome (ℕ × List ℕ)
next_block [] = panicked
next_block (b ∷ bs) = returned (b, bs)

-- The loops that fill an array from position `i`, `n` rounds of them.
unfoldable pub fill : ℕ → ℕ → List ℕ → List ℕ → Outcome (List ℕ × List ℕ)
fill zero i l bs = returned (l, bs)
fill (suc n) i l bs = next_block bs >>= λ (b, bs'). write l i b >>= λ l'. fill n (suc i) l' bs'

-- `if b0 == 0 { indirect2[a0] = new_blocks.next().unwrap(); }`
unfoldable pub start_index : ℕ → ℕ → List ℕ → List ℕ → Outcome (List ℕ × List ℕ)
start_index a0 b0 indirect2 bs =
    if b0 == 0
    then (next_block bs >>= λ (b, bs'). write indirect2 a0 b >>= λ l. returned (l, bs'))
    else returned (indirect2, bs)

-- The next position in the two levels.
unfoldable pub advance : ℕ → ℕ → ℕ × ℕ
advance a0 b0 = if suc b0 == inode_indirect1_count then (suc a0, 0) else (a0, suc b0)

-- The loop over the two levels, `n` rounds of it: `n` words are left to the end position. The block of
-- the second level is held while the others are written, so it goes to the disk at the end; an entry
-- that names that block itself would wait for its lock for ever, and is left out.
unfoldable pub fill_indirect2 :
    ℕ → ℕ → ℕ → List ℕ → List ℕ → Disk → Outcome (List ℕ × List ℕ × Disk)
fill_indirect2 zero a0 b0 indirect2 bs disk = returned (indirect2, bs, disk)
fill_indirect2 (suc n) a0 b0 indirect2 bs disk =
    let (a0', b0') = advance a0 b0 in
    start_index a0 b0 indirect2 bs >>= λ (indirect2, bs). index indirect2 a0 >>= λ id.
    next_block bs >>= λ (b, bs). write (indirect_block id disk) b0 b >>= λ indirect1.
    fill_indirect2 n a0' b0' indirect2 bs (write_indirect id indirect1 disk)

-- `increase_size`, with what is left of the iterator: the direct blocks, the block of the first level and
-- its words, and the second level. Each step is left where the source returns.
unfoldable pub grow_direct : ℕ → ℕ → List ℕ → DiskInode → Outcome (DiskInode × List ℕ)
grow_direct current total bs d =
    fill (min total direct_bound - current) current d.direct bs >>= λ (direct, bs).
    returned (record d { direct = direct }, bs)

-- The first block of a level that is new holds its index.
unfoldable pub new_indirect1 : ℕ → List ℕ → DiskInode → Outcome (DiskInode × List ℕ)
new_indirect1 current bs d =
    if current == 0
    then (next_block bs >>= λ (b, bs'). returned (record d { indirect1 = b }, bs'))
    else returned (d, bs)

unfoldable pub grow_indirect1 :
    ℕ → ℕ → List ℕ → Disk → DiskInode → Outcome (DiskInode × List ℕ × Disk)
grow_indirect1 current total bs disk d = new_indirect1 current bs d >>= λ (d, bs).
    fill (min total inode_indirect1_count - current) current (indirect_block d.indirect1 disk) bs
    >>= λ (words, bs). returned (d, bs, write_indirect d.indirect1 words disk)

-- The first block of a level that is new holds its index.
unfoldable pub new_indirect2 : ℕ → List ℕ → DiskInode → Outcome (DiskInode × List ℕ)
new_indirect2 current bs d =
    if current == 0
    then (next_block bs >>= λ (b, bs'). returned (record d { indirect2 = b }, bs'))
    else returned (d, bs)

unfoldable pub grow_indirect2 :
    ℕ → ℕ → List ℕ → Disk → DiskInode → Outcome (DiskInode × List ℕ × Disk)
grow_indirect2 current total bs disk d = new_indirect2 current bs d >>= λ (d, bs).
    fill_indirect2 (total - current) (current / inode_indirect1_count)
      (current % inode_indirect1_count) (indirect_block d.indirect2 disk) bs disk
    >>= λ (words, bs, disk). returned (d, bs, write_indirect d.indirect2 words disk)

unfoldable pub increase_size : ℕ → List ℕ → Disk → DiskInode → Outcome (DiskInode × List ℕ × Disk)
increase_size new_size new_blocks disk d =
    let current = data_blocks d in
    let total = data_blocks_of new_size in
    grow_direct current total new_blocks (record d { size = new_size }) >>= λ (d1, bs1).
    if ltb direct_bound total
    then (grow_indirect1 (max current direct_bound - direct_bound) (total - direct_bound) bs1 disk
          d1
        >>= λ (d2, bs2, disk2).
            if ltb indirect1_bound total
            then grow_indirect2 (max current indirect1_bound - indirect1_bound)
                (total - indirect1_bound) bs2 disk2 d2
            else returned (d2, bs2, disk2))
    else returned (d1, bs1, disk)

-- `clear_size`: what is pushed, in order.
unfoldable pub take_words : ℕ → List ℕ → Outcome (List ℕ)
take_words n words = if leb n (length words) then returned (take n words) else panicked

-- The direct indices are pushed and reset.
unfoldable pub clear_direct : ℕ → List ℕ → Outcome (List ℕ × List ℕ)
clear_direct n direct = take_words n direct >>= λ v. returned (v, replicate n 0 ++ drop n direct)

-- `for entry in indirect2.iter_mut().take(a1)`
unfoldable pub clear_full : List ℕ → Disk → List ℕ
clear_full [] disk = []
clear_full (entry ∷ entries) disk = entry ∷ (indirect_block entry disk ++ clear_full entries disk)

unfoldable pub clear_indirect2 : ℕ → Disk → DiskInode → Outcome (List ℕ)
clear_indirect2 data_blocks disk d =
    let a1 = data_blocks / inode_indirect1_count in
    let b1 = data_blocks % inode_indirect1_count in
    let indirect2 = indirect_block d.indirect2 disk in
    let full = clear_full (take a1 indirect2) disk in
    if ltb 0 b1
    then (index indirect2 a1 >>= λ entry.
        returned (full ++ (entry ∷ take b1 (indirect_block entry disk))))
    else returned full

unfoldable pub clear_size : Disk → DiskInode → Outcome (List ℕ × DiskInode)
clear_size disk d =
    let count = data_blocks d in
    clear_direct (min count direct_bound) d.direct >>= λ (v0, direct).
    (let d0 = record d { size = 0; direct = direct } in
      if ltb direct_bound count
      then (take_words (min (count - direct_bound) inode_indirect1_count)
            (indirect_block d.indirect1 disk)
          >>= λ words.
              (let v1 = v0 ++ (d.indirect1 ∷ words) in
                let d1 = record d0 { indirect1 = 0 } in
                if ltb indirect1_bound count
                then (clear_indirect2 (count - indirect1_bound) disk d >>= λ v2.
                    returned (v1 ++ (d.indirect2 ∷ v2), record d1 { indirect2 = 0 }))
                else returned (v1, d1)))
      else returned (v0, d0))
