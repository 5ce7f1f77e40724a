-- ===== src/EasyFs/DiskInode/Counts.antt =====
-- The blocks that each level of `DiskInode::increase_size` of easy-fs/src/layout.rs takes add up to what
-- `blocks_num_needed` says.
use Prim.Native.Nat.{max}
use spec_to_rust_os.Prelude.{ℕ, ◌+◌, ◌-◌, min, ◌≤◌, ◌≡◌, true, false, List, ltb, length, arith}
use spec_to_rust_os.Prelude.Panic.{returned}
use spec_to_rust_os.EasyFs.DiskInode.{DiskInode, data_blocks_of, blocks_num_needed}
use spec_to_rust_os.EasyFs.DiskInode.Clearing.{
  Fits, data_blocks_of-Fits, total_blocks-Fits, index_blocks,
}
use spec_to_rust_os.EasyFs.DiskInode.Growth.{begun}
use spec_to_rust_os.EasyFs.DiskInode.Levels.{fresh}

pub blocks_num_needed_lem :
    (new_size : ℕ) (new_blocks : List ℕ) (d : DiskInode)
    → d.size ≤ new_size
    → Fits new_size
    → blocks_num_needed new_size d ≡ returned (length new_blocks)
    → length new_blocks + data_blocks_of d.size + index_blocks (data_blocks_of d.size)
      ≡ data_blocks_of new_size + index_blocks (data_blocks_of new_size)
unfolding blocks_num_needed
blocks_num_needed_lem new_size new_blocks d grows fits asked =
    let old_fits : Fits d.size = omega arith in
    let (cv, cle) = data_blocks_of-Fits d.size old_fits in
    let (tv, tle) = data_blocks_of-Fits new_size fits in
    let le : data_blocks_of d.size ≤ data_blocks_of new_size = omega (arith, cv, tv, grows) in
    ground (
      arith,
      asked,
      grows,
      le,
      tle,
      total_blocks-Fits d.size old_fits,
      total_blocks-Fits new_size fits,
    )

-- The counts of blocks on each level: `c` blocks before and `t` after, from `all` new ones.
module _ (c t all : ℕ) (le : c ≤ t) (count : all + c + index_blocks c ≡ t + index_blocks t) where
  pub direct_enough : min t 28 - c ≤ all
  direct_enough = ground (arith, count, le)

  module _ (all1 : ℕ) where
    pub direct_left : ltb 28 t ≡ false → all ≡ min t 28 - c + all1 → all1 ≡ 0
    direct_left small left1 = ground (arith, count, le, small, left1)

    pub level1_enough :
        ltb 28 t ≡ true
        → all ≡ min t 28 - c + all1
        → fresh (max c 28 - 28) + (min (t - 28) 128 - (max c 28 - 28)) ≤ all1
    level1_enough more left1 = ground (arith, count, le, more, left1)

    module _ (all2 : ℕ) where
      pub level1_left :
          ltb 28 t ≡ true
          → ltb 156 t ≡ false
          → all ≡ min t 28 - c + all1
          → all1 ≡ fresh (max c 28 - 28) + (min (t - 28) 128 - (max c 28 - 28)) + all2
          → all2 ≡ 0
      level1_left more middle left1 left2 = ground (arith, count, le, more, middle, left1, left2)

      pub level2_enough :
          ltb 156 t ≡ true
          → all ≡ min t 28 - c + all1
          → all1 ≡ fresh (max c 28 - 28) + (min (t - 28) 128 - (max c 28 - 28)) + all2
          → fresh (max c 156 - 156) + (t - 156) + begun (t - 156)
            ≤ all2 + (max c 156 - 156) + begun (max c 156 - 156)
      level2_enough large left1 left2 = ground (arith, count, le, large, left1, left2)

      pub level2_left :
          (all3 : ℕ)
          → ltb 156 t ≡ true
          → all ≡ min t 28 - c + all1
          → all1 ≡ fresh (max c 28 - 28) + (min (t - 28) 128 - (max c 28 - 28)) + all2
          → all2 + (max c 156 - 156) + begun (max c 156 - 156)
            ≡ fresh (max c 156 - 156) + (t - 156) + begun (t - 156) + all3
          → all3 ≡ 0
      level2_left all3 large left1 left2 left3 =
          ground (arith, count, le, large, left1, left2, left3)
