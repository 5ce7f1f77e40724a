-- ===== src/EasyFs/DiskInode/Access.antt =====
-- easy-fs/src/layout.rs: `DiskInode::read_at` and `write_at`, on the bytes of the disk.
use spec_to_rust_os.Prelude.{
  ℕ, zero, suc, ◌+◌, ◌-◌, ◌*◌, ◌/◌, ◌%◌, ◌^◌, min, List, [], ◌++◌, ltb, leb, if◌then◌else◌, length,
  take, drop,
}
use spec_to_rust_os.Prelude.Panic.{Outcome, returned, panicked, ◌>>=◌}
use spec_to_rust_os.EasyFs.Disk.{Disk, block_sz, write_block}
use spec_to_rust_os.EasyFs.DiskInode.{DiskInode, get_block_id}

-- `&bytes[start..start + count]`
abbrev pub slice : List ℕ → ℕ → ℕ → Outcome (List ℕ)
slice bytes start count =
    if leb (start + count) (length bytes)
    then returned (take count (drop start bytes))
    else panicked

-- `dst.copy_from_slice(src)` for the part of the block from `start` on.
abbrev pub splice : List ℕ → ℕ → List ℕ → Outcome (List ℕ)
splice block start src = slice block start (length src) >>= λ _.
    returned (take start block ++ src ++ drop (start + length src) block)

-- The first byte of the next block.
abbrev pub end_current_block : ℕ → ℕ
end_current_block start = (start / block_sz + 1) * block_sz

-- The loop of `read_at` with the bytes that it copies, over at most so many blocks.
unfoldable pub read_blocks : ℕ → ℕ → ℕ → ℕ → Disk → DiskInode → Outcome (List ℕ)
read_blocks zero start_block start last disk d = returned []
read_blocks (suc rounds) start_block start last disk d = do
  let next : ℕ = end_current_block start
  let later = read_blocks rounds (start_block + 1) next last disk d
  id ← get_block_id (start_block % 2 ^ 32) disk d
  bytes ← slice (disk id) (start % block_sz) (min last next - start)
  (if leb last next then returned bytes else (later >>= λ rest. returned (bytes ++ rest)))

-- The blocks from the first to the last are all that there are to read.
unfoldable pub read_at : ℕ → ℕ → Disk → DiskInode → Outcome (List ℕ)
read_at offset len disk d =
    let last : ℕ = min (offset + len) d.size in
    if leb last offset
    then returned []
    else read_blocks (last / block_sz - offset / block_sz + 1) (offset / block_sz) offset last disk
        d

unfoldable pub write_blocks : ℕ → ℕ → ℕ → ℕ → List ℕ → Disk → DiskInode → Outcome Disk
write_blocks zero start_block start last buf disk d = returned disk
write_blocks (suc rounds) start_block start last buf disk d = do
  let next : ℕ = end_current_block start
  let size : ℕ = min last next - start
  id ← get_block_id (start_block % 2 ^ 32) disk d
  src ← slice buf 0 size
  block ← splice (disk id) (start % block_sz) src
  let disk' : Disk = write_block id block disk
  let later = write_blocks rounds (start_block + 1) next last (drop size buf) disk' d
  (if leb last next then returned disk' else later)

-- The result is how many bytes were written.
unfoldable pub write_at : ℕ → List ℕ → Disk → DiskInode → Outcome (ℕ × Disk)
write_at offset buf disk d =
    let last : ℕ = min (offset + length buf) d.size in
    if ltb last offset
    then panicked
    else (write_blocks (last / block_sz - offset / block_sz + 1) (offset / block_sz) offset last buf
          disk d
        >>= λ disk'. returned (last - offset, disk'))
