-- ===== src/EasyFs/Bitmap.antt =====
-- easy-fs/src/layout.rs: `SuperBlock` and `Bitmap`, which marks the allocated inodes or data blocks.
pub mod Allocation
use Prim.Native.Nat.{bit_or, bit_and}
use native.Mathlib.Nat.{pow-suc, pow-zero}
use spec_to_rust_os.Prelude.{
  ℕ, zero, suc, ◌+◌, ◌-◌, ◌*◌, ◌/◌, ◌%◌, ◌^◌, ◌≤◌, ◌<◌, ◌≡◌, ◌≢◌, refl, ap, Bool, true, false, not,
  ◌&&◌, Option, none, some, List, [], ◌∷◌, ltb, leb, ◌==◌, if◌then◌else◌, length, get_or, set,
  Bool-cases, inl, inr, arith,
}
use spec_to_rust_os.Prelude.Bits.{
  bit, bit-le, bit-bit_or, bit-pow, bit-complement, bit_or_step, trailing_zeros, trailing_zeros_lem,
  pow-pos, bit_and-pow,
}
use spec_to_rust_os.Prelude.Panic.{Outcome, returned, panicked, ◌>>=◌}
use spec_to_rust_os.EasyFs.Disk.{Disk, write_block, as_words, as_bytes}

abbrev pub efs_magic : ℕ
efs_magic = 998244353

pub record SuperBlock : Type 0 where
  pub magic : ℕ
  pub total_blocks : ℕ
  pub inode_bitmap_blocks : ℕ
  pub inode_area_blocks : ℕ
  pub data_bitmap_blocks : ℕ
  pub data_area_blocks : ℕ

unfoldable pub initialize : ℕ → ℕ → ℕ → ℕ → ℕ → SuperBlock
initialize total_blocks inode_bitmap_blocks inode_area_blocks data_bitmap_blocks data_area_blocks =
    record {
      magic = efs_magic;
      total_blocks = total_blocks;
      inode_bitmap_blocks = inode_bitmap_blocks;
      inode_area_blocks = inode_area_blocks;
      data_bitmap_blocks = data_bitmap_blocks;
      data_area_blocks = data_area_blocks;
    }

unfoldable pub is_valid : SuperBlock → Bool
is_valid sb = sb.magic == efs_magic

pub record Bitmap : Type 0 where
  pub start_block_id : ℕ
  pub blocks : ℕ

abbrev pub block_bits : ℕ
block_bits = 4096

-- `u64::trailing_ones`
abbrev pub trailing_ones : ℕ → ℕ
trailing_ones w = trailing_zeros 64 (2 ^ 64 - 1 - w)

-- The first word that is not `u64::MAX`, from position `pos` on, and its lowest free bit.
unfoldable pub find_free : ℕ → List ℕ → Option (ℕ × ℕ)
find_free pos [] = none
find_free pos (w ∷ ws) =
    let rest = find_free (suc pos) ws in
    if w == 2 ^ 64 - 1 then rest else some (pos, trailing_ones w)

-- The closure of `alloc`: the bit within the block, and the block with that bit set.
unfoldable pub alloc_bit : List ℕ → Option (ℕ × List ℕ)
alloc_bit words = elim (find_free 0 words) [
  | none ↦ none
  | some (bits64_pos, inner_pos) ↦ some (
    bits64_pos * 64 + inner_pos,
    set words bits64_pos (bit_or (get_or words bits64_pos 0) (2 ^ inner_pos)),
  )
]

-- A block as an array of 64 words of eight bytes.
unfoldable pub bitmap_block : ℕ → Disk → List ℕ
bitmap_block id disk = as_words 8 64 (disk id)

abbrev pub write_bitmap : ℕ → List ℕ → Disk → Disk
write_bitmap id words disk = write_block id (as_bytes 8 words) disk

-- The blocks from `block_id` on, `n` of them.
unfoldable pub alloc_from : ℕ → ℕ → Bitmap → Disk → Option (ℕ × Disk)
alloc_from zero block_id bitmap disk = none
alloc_from (suc n) block_id bitmap disk =
    let id = bitmap.start_block_id + block_id in
    elim (alloc_bit (bitmap_block id disk)) [
      | some (pos, words) ↦ some (block_id * block_bits + pos, write_bitmap id words disk)
      | none ↦ alloc_from n (suc block_id) bitmap disk
    ]

unfoldable pub alloc : Bitmap → Disk → Option (ℕ × Disk)
alloc bitmap disk = alloc_from bitmap.blocks 0 bitmap disk

-- The closure of `dealloc`.
unfoldable pub dealloc_bit : ℕ → List ℕ → Outcome (List ℕ)
dealloc_bit pos words =
    let w = get_or words (pos / 64) 0 in
    if ltb 0 (bit_and w (2 ^ (pos % 64)))
    then returned (set words (pos / 64) (w - 2 ^ (pos % 64)))
    else panicked

unfoldable pub dealloc : ℕ → Bitmap → Disk → Outcome Disk
dealloc bit bitmap disk =
    let id = bitmap.start_block_id + bit / block_bits in
    dealloc_bit (bit % block_bits) (bitmap_block id disk) >>= λ words.
    returned (write_bitmap id words disk)

unfoldable pub maximum : Bitmap → ℕ
maximum bitmap = bitmap.blocks * block_bits
