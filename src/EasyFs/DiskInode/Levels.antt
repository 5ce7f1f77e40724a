-- ===== src/EasyFs/DiskInode/Levels.antt =====
-- The three levels of `DiskInode::increase_size` of easy-fs/src/layout.rs, each with the blocks that it takes.
use spec_to_rust_os.Prelude.{
  ℕ, ◌+◌, ◌-◌, ◌/◌, ◌%◌, min, ◌≤◌, ◌≡◌, refl, ◌∙◌, List, ◌==◌, if◌then◌else◌, length, Bool-cases,
  inl, inr, arith,
}
use spec_to_rust_os.Prelude.Panic.{returned}
use spec_to_rust_os.EasyFs.Disk.{Disk}
use spec_to_rust_os.EasyFs.DiskInode.{
  DiskInode, indirect_block, length-indirect_block, new_indirect1, new_indirect2, grow_direct,
  grow_indirect1, grow_indirect2, write_indirect,
}
use spec_to_rust_os.EasyFs.DiskInode.Growth.{begun, next-some, fill_lem, fill_indirect2_lem}

pub grow_direct_lem :
    (current total : ℕ) (bs : List ℕ) (d : DiskInode)
    → length d.direct ≡ 28
    → min total 28 - current ≤ length bs
    → (d' : DiskInode) × (bs' : List ℕ) × (grow_direct current total bs d ≡ returned (d', bs'))
      × (length d'.direct ≡ 28)
      × (d'.size ≡ d.size)
      × (length bs ≡ min total 28 - current + length bs')
unfolding grow_direct
grow_direct_lem current total bs d full enough =
    let (direct, bs', e, len, left) =
      fill_lem (min total 28 - current) current d.direct bs (omega (arith, full)) enough in
    (record d { direct = direct }, bs', rw (grow_direct, e) refl, len ∙ full, refl, left)

-- One block for the index, if the level is new.
abbrev pub fresh : ℕ → ℕ
fresh current = if current == 0 then 1 else 0

new_indirect1_lem :
    (current : ℕ) (bs : List ℕ) (d : DiskInode)
    → fresh current ≤ length bs
    → (d' : DiskInode) × (bs' : List ℕ) × (new_indirect1 current bs d ≡ returned (d', bs'))
      × (d'.direct ≡ d.direct)
      × (d'.size ≡ d.size)
      × (length bs ≡ fresh current + length bs')
unfolding new_indirect1
new_indirect1_lem current bs d enough = elim (Bool-cases (current == 0)) [
  | inl new ↦
      (let (b, bs', e, left) = next-some bs (ground (arith, new, enough)) in
        (
          record d { indirect1 = b },
          bs',
          rw (new_indirect1, new, e) refl,
          refl,
          refl,
          rw new (omega (arith, left)),
        ))
  | inr old ↦ (d, bs, rw (new_indirect1, old) refl, refl, refl, rw old (omega arith))
]

new_indirect2_lem :
    (current : ℕ) (bs : List ℕ) (d : DiskInode)
    → fresh current ≤ length bs
    → (d' : DiskInode) × (bs' : List ℕ) × (new_indirect2 current bs d ≡ returned (d', bs'))
      × (d'.direct ≡ d.direct)
      × (d'.size ≡ d.size)
      × (length bs ≡ fresh current + length bs')
unfolding new_indirect2
new_indirect2_lem current bs d enough = elim (Bool-cases (current == 0)) [
  | inl new ↦
      (let (b, bs', e, left) = next-some bs (ground (arith, new, enough)) in
        (
          record d { indirect2 = b },
          bs',
          rw (new_indirect2, new, e) refl,
          refl,
          refl,
          rw new (omega (arith, left)),
        ))
  | inr old ↦ (d, bs, rw (new_indirect2, old) refl, refl, refl, rw old (omega arith))
]

pub grow_indirect1_lem :
    (current total : ℕ) (bs : List ℕ) (disk : Disk) (d : DiskInode)
    → fresh current + (min total 128 - current) ≤ length bs
    → (d' : DiskInode) × (bs' : List ℕ) × (disk' : Disk) × (grow_indirect1 current total bs disk d
        ≡ returned (d', bs', disk'))
      × (d'.direct ≡ d.direct)
      × (d'.size ≡ d.size)
      × (length bs ≡ fresh current + (min total 128 - current) + length bs')
unfolding grow_indirect1
grow_indirect1_lem current total bs disk d enough =
    let (d1, bs1, e1, same, size, left1) = new_indirect1_lem current bs d (omega arith) in
    let (words, bs2, e2, len, left2) =
      fill_lem (min total 128 - current) current (indirect_block d1.indirect1 disk) bs1
        (omega (arith, length-indirect_block d1.indirect1 disk)) (omega arith) in
    (
      d1,
      bs2,
      write_indirect d1.indirect1 words disk,
      rw (grow_indirect1, e1, e2) refl,
      same,
      size,
      omega arith,
    )

pub grow_indirect2_lem :
    (current total : ℕ) (bs : List ℕ) (disk : Disk) (d : DiskInode)
    → current ≤ total
    → total ≤ 16384
    → fresh current + total + begun total ≤ length bs + current + begun current
    → (d' : DiskInode) × (bs' : List ℕ) × (disk' : Disk) × (grow_indirect2 current total bs disk d
        ≡ returned (d', bs', disk'))
      × (d'.direct ≡ d.direct)
      × (d'.size ≡ d.size)
      × (length bs + current + begun current ≡ fresh current + total + begun total + length bs')
unfolding grow_indirect2
grow_indirect2_lem current total bs disk d le fits enough =
    let (d1, bs1, e1, same, size, left1) = new_indirect2_lem current bs d (omega arith) in
    let (words, bs2, disk2, e2, left2) =
      fill_indirect2_lem (total - current) (current / 128) (current % 128)
        (indirect_block d1.indirect2 disk) bs1 disk (omega arith)
        (length-indirect_block d1.indirect2 disk) (omega arith) (omega arith) in
    (
      d1,
      bs2,
      write_indirect d1.indirect2 words disk2,
      rw (grow_indirect2, e1, e2) refl,
      same,
      size,
      omega arith,
    )
