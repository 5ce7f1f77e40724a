-- ===== src/EasyFs/DiskInode/Increase.antt =====
-- `DiskInode::increase_size` of easy-fs/src/layout.rs uses up exactly the blocks that `blocks_num_needed`
-- asks for.
use Prim.Native.Nat.{max}
use spec_to_rust_os.Prelude.{
  ℕ, ◌+◌, ◌-◌, min, ◌≤◌, ◌≡◌, refl, ap, ◌∙◌, true, false, List, [], ◌∷◌, ltb, length, Bool-cases,
  inl, inr, arith,
}
use spec_to_rust_os.Prelude.Panic.{Outcome, returned}
use spec_to_rust_os.EasyFs.Disk.{Disk}
use spec_to_rust_os.EasyFs.DiskInode.{
  DiskInode, data_blocks_of, data_blocks, blocks_num_needed, grow_direct, grow_indirect1,
  grow_indirect2, increase_size,
}
use spec_to_rust_os.EasyFs.DiskInode.Clearing.{Fits, data_blocks_of-Fits, index_blocks, max_blocks}
use spec_to_rust_os.EasyFs.DiskInode.Growth.{begun}
use spec_to_rust_os.EasyFs.DiskInode.Levels.{
  fresh, grow_direct_lem, grow_indirect1_lem, grow_indirect2_lem,
}
use spec_to_rust_os.EasyFs.DiskInode.Counts.{
  blocks_num_needed_lem, direct_enough, direct_left, level1_enough, level1_left, level2_enough,
  level2_left,
}

empty_of_length : (bs : List ℕ) → length bs ≡ 0 → bs ≡ []
empty_of_length [] h = refl
empty_of_length (b ∷ bs) h = absurd (omega arith)

used :
    (d : DiskInode) (bs : List ℕ) (disk : Disk)
    → length bs ≡ 0
    → ◌≡◌ {A = Outcome (DiskInode × List ℕ × Disk)}
        (returned (d, bs, disk))
        (returned (d, [], disk))
used d bs disk e = ap (λ l. returned (d, l, disk)) (empty_of_length bs e)

-- `increase_size` by the levels that it reaches.
module _ (new_size : ℕ) (new_blocks : List ℕ) (disk : Disk) (d : DiskInode) where
  increase-direct :
      (d1 : DiskInode) (bs1 : List ℕ)
      → grow_direct
          (data_blocks_of d.size)
          (data_blocks_of new_size)
          new_blocks
          (record d { size = new_size })
        ≡ returned (d1, bs1)
      → ltb 28 (data_blocks_of new_size) ≡ false
      → increase_size new_size new_blocks disk d ≡ returned (d1, bs1, disk)
  unfolding increase_size data_blocks
  increase-direct d1 bs1 e1 small = rw (increase_size, e1, small) refl

  module _ (d1 d2 : DiskInode) (bs1 bs2 : List ℕ) (disk2 : Disk)
      (e1 : grow_direct
          (data_blocks_of d.size)
          (data_blocks_of new_size)
          new_blocks
          (record d { size = new_size })
        ≡ returned (d1, bs1))
      (more : ltb 28 (data_blocks_of new_size) ≡ true)
      (e2 : grow_indirect1
          (max (data_blocks_of d.size) 28 - 28)
          (data_blocks_of new_size - 28)
          bs1
          disk
          d1
        ≡ returned (d2, bs2, disk2)) where
    increase-level1 :
        ltb 156 (data_blocks_of new_size) ≡ false
        → increase_size new_size new_blocks disk d ≡ returned (d2, bs2, disk2)
    unfolding increase_size data_blocks
    increase-level1 middle = rw (increase_size, e1, more, e2, middle) refl

    increase-level2 :
        ltb 156 (data_blocks_of new_size) ≡ true
        → increase_size new_size new_blocks disk d
          ≡ grow_indirect2
              (max (data_blocks_of d.size) 156 - 156)
              (data_blocks_of new_size - 156)
              bs2
              disk2
              d2
    unfolding increase_size data_blocks
    increase-level2 large = rw (increase_size, e1, more, e2, large) refl

abbrev Increased : ℕ → List ℕ → Disk → DiskInode → Type 0
Increased new_size new_blocks disk d =
    (d' : DiskInode) × (disk' : Disk) × (increase_size new_size new_blocks disk d
      ≡ returned (d', [], disk'))
    × (d'.size ≡ new_size)
    × (length d'.direct ≡ 28)

from_level2 :
    (new_size : ℕ) (new_blocks : List ℕ) (disk : Disk) (d d2 : DiskInode) (bs2 : List ℕ)
    (disk2 : Disk)
    → let c2 = max (data_blocks_of d.size) 156 - 156 in
      let t2 = data_blocks_of new_size - 156 in
      increase_size new_size new_blocks disk d ≡ grow_indirect2 c2 t2 bs2 disk2 d2
      → c2 ≤ t2
      → t2 ≤ 16384
      → length d2.direct ≡ 28
      → d2.size ≡ new_size
      → fresh c2 + t2 + begun t2 ≤ length bs2 + c2 + begun c2
      → ((all3 : ℕ) → length bs2 + c2 + begun c2 ≡ fresh c2 + t2 + begun t2 + all3 → all3 ≡ 0)
      → Increased new_size new_blocks disk d
from_level2 new_size new_blocks disk d d2 bs2 disk2 e le fits full2 size2 enough none_left =
    let (d3, bs3, disk3, e3, same3, size3, left3) =
      grow_indirect2_lem (max (data_blocks_of d.size) 156 - 156) (data_blocks_of new_size - 156) bs2
        disk2 d2 le fits enough in
    (
      d3,
      disk3,
      e ∙ e3 ∙ used d3 bs3 disk3 (none_left (length bs3) left3),
      size3 ∙ size2,
      ap length same3 ∙ full2,
    )

from_level1 :
    (new_size : ℕ) (new_blocks : List ℕ) (disk : Disk) (d d1 : DiskInode) (bs1 : List ℕ)
    → let c = data_blocks_of d.size in
      let t = data_blocks_of new_size in
      c ≤ t
      → t ≤ max_blocks
      → length new_blocks + c + index_blocks c ≡ t + index_blocks t
      → length d1.direct ≡ 28
      → d1.size ≡ new_size
      → length new_blocks ≡ min t 28 - c + length bs1
      → grow_direct c t new_blocks (record d { size = new_size }) ≡ returned (d1, bs1)
      → ltb 28 t ≡ true
      → Increased new_size new_blocks disk d
from_level1 new_size new_blocks disk d d1 bs1 le tle count full1 size1 left1 e1 more =
    let c = data_blocks_of d.size in
    let t = data_blocks_of new_size in
    let all = length new_blocks in
    let (d2, bs2, disk2, e2, same2, size2, left2) =
      grow_indirect1_lem (max c 28 - 28) (t - 28) bs1 disk d1
        (level1_enough c t all le count (length bs1) more left1) in
    elim (Bool-cases (ltb 156 t)) [
      | inr middle ↦
          (let none_left =
              level1_left c t all le count (length bs1) (length bs2) more middle left1 left2 in
            (
              d2,
              disk2,
              increase-level1 new_size new_blocks disk d d1 d2 bs1 bs2 disk2 e1 more e2 middle
                  ∙ used d2 bs2 disk2 none_left,
              size2 ∙ size1,
              ap length same2 ∙ full1,
            ))
      | inl large ↦
          from_level2 new_size new_blocks disk d d2 bs2 disk2
            (increase-level2 new_size new_blocks disk d d1 d2 bs1 bs2 disk2 e1 more e2 large)
            (omega arith) (omega arith) (ap length same2 ∙ full1) (size2 ∙ size1)
            (level2_enough c t all le count (length bs1) (length bs2) large left1 left2)
            (λ all3 left3.
              level2_left c t all le count (length bs1) (length bs2) all3 large left1 left2 left3)
    ]

-- From any size to a larger one within the largest, given as many blocks as `blocks_num_needed` says,
-- `increase_size` does not panic, takes every block that it is given, and sets the size.
pub increase_size_lem :
    (new_size : ℕ) (new_blocks : List ℕ) (disk : Disk) (d : DiskInode)
    → length d.direct ≡ 28
    → d.size ≤ new_size
    → Fits new_size
    → blocks_num_needed new_size d ≡ returned (length new_blocks)
    → (d' : DiskInode) × (disk' : Disk) × (increase_size new_size new_blocks disk d
        ≡ returned (d', [], disk'))
      × (d'.size ≡ new_size)
      × (length d'.direct ≡ 28)
increase_size_lem new_size new_blocks disk d full grows fits asked =
    let c = data_blocks_of d.size in
    let t = data_blocks_of new_size in
    let old_fits : Fits d.size = omega arith in
    let (cv, cle) = data_blocks_of-Fits d.size old_fits in
    let (tv, tle) = data_blocks_of-Fits new_size fits in
    let le : c ≤ t = omega (arith, cv, tv, grows) in
    let count : length new_blocks + c + index_blocks c ≡ t + index_blocks t =
      blocks_num_needed_lem new_size new_blocks d grows fits asked in
    let (d1, bs1, e1, full1, size1, left1) =
      grow_direct_lem c t new_blocks (record d { size = new_size }) full
        (direct_enough c t (length new_blocks) le count) in
    elim (Bool-cases (ltb 28 t)) [
      | inr small ↦
          (let none_left = direct_left c t (length new_blocks) le count (length bs1) small left1 in
            (
              d1,
              disk,
              increase-direct new_size new_blocks disk d d1 bs1 e1 small
                  ∙ used d1 bs1 disk none_left,
              size1,
              full1,
            ))
      | inl more ↦
          from_level1 new_size new_blocks disk d d1 bs1 le tle count full1 size1 left1 e1 more
    ]
