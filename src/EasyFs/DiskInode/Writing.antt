-- ===== src/EasyFs/DiskInode/Writing.antt =====
-- easy-fs/src/layout.rs: what `DiskInode::write_at` leaves in the file.
use spec_to_rust_os.Prelude.{
  ℕ, zero, suc, ◌+◌, ◌-◌, ◌*◌, ◌/◌, ◌%◌, ◌^◌, ◌≤◌, ◌<◌, min, ◌≡◌, ◌≢◌, refl, ap, ◌∙◌, false, List,
  ltb, leb, if◌then◌else◌, length, take, drop, get_or, length-take, length-drop, Bool-cases, inl,
  inr, arith,
}
use spec_to_rust_os.Prelude.Panic.{returned}
use spec_to_rust_os.EasyFs.Disk.{Disk, write_block}
use spec_to_rust_os.EasyFs.DiskInode.{DiskInode, get_block_id}
use spec_to_rust_os.EasyFs.DiskInode.Access.{end_current_block, write_blocks, write_at}
use spec_to_rust_os.EasyFs.DiskInode.Splicing.{
  spliced, splice_lem, Written, joined-Written, AreApart, part-Written,
}
use spec_to_rust_os.EasyFs.DiskInode.Reading.{byte, slice_lem}

abbrev pub SameElsewhere : ℕ → (ℕ → ℕ) → Disk → Disk → Type 0
SameElsewhere size blocks disk disk' =
    (b : ℕ) → ((k : ℕ) → k * 512 < size → b ≢ blocks k) → disk' b ≡ disk b

-- The file lies in these blocks of 512 bytes, also on a disk that differs in these blocks only.
pub record HoldsFile (d : DiskInode) (disk : Disk) (blocks : ℕ → ℕ) : Type 0 where
  pub found :
      (disk' : Disk)
      → SameElsewhere d.size blocks disk disk'
      → (k : ℕ) → k * 512 < d.size
      → get_block_id k disk' d ≡ returned (blocks k)
  pub whole : (k : ℕ) → k * 512 < d.size → length (disk (blocks k)) ≡ 512
  pub apart : AreApart d.size blocks
  pub small : d.size < 2 ^ 32

-- The disk after the part of one block.
abbrev after_part : ℕ → ℕ → ℕ → List ℕ → Disk → Disk
after_part id start count buf disk =
    write_block id (spliced (disk id) (start % 512) (take count buf)) disk

one_block :
    (d : DiskInode) (rounds start last count id : ℕ) (buf : List ℕ) (disk : Disk)
    → get_block_id (start / 512 % 2 ^ 32) disk d ≡ returned id
    → min last (end_current_block start) - start ≡ count
    → count ≤ length buf
    → start % 512 + count ≤ length (disk id)
    → write_blocks (suc rounds) (start / 512) start last buf disk d ≡ (
        if leb last (end_current_block start)
        then returned (after_part id start count buf disk)
        else write_blocks rounds
            (start / 512 + 1)
            (end_current_block start)
            last
            (drop count buf)
            (after_part id start count buf disk)
            d)
unfolding write_blocks
one_block d rounds start last count id buf disk found size enough inside =
    let taken : length (take count buf) ≡ count = omega (arith, length-take count buf) in
    let fits : start % 512 + length (take count buf) ≤ length (disk id) = omega (arith, taken) in
    rw
      (
        write_blocks,
        found,
        size,
        slice_lem buf 0 count (omega arith),
        splice_lem (disk id) (start % 512) (take count buf) fits,
      )
      refl

module _ (d : DiskInode) (blocks : ℕ → ℕ) (apart : AreApart d.size blocks)
    (small : d.size < 2 ^ 32) where
  write_blocks_lem :
      (rounds start last : ℕ) (buf : List ℕ) (disk : Disk)
      → ((disk' : Disk)
          → SameElsewhere d.size blocks disk disk'
          → (k : ℕ) → k * 512 < d.size
          → get_block_id k disk' d ≡ returned (blocks k))
      → ((k : ℕ) → k * 512 < d.size → length (disk (blocks k)) ≡ 512)
      → start < last
      → last ≤ d.size
      → last - start ≤ length buf
      → last / 512 - start / 512 < rounds
      → (disk' : Disk) × (write_blocks rounds (start / 512) start last buf disk d ≡ returned disk')
        × Written d.size blocks disk disk' start last buf
  write_blocks_lem zero start last buf disk found whole lt le enough fuel = absurd (omega arith)
  write_blocks_lem (suc rounds) start last buf disk found whole lt le enough fuel =
      let next : ℕ = end_current_block start in
      let q : ℕ = start / 512 in
      let word : q % 2 ^ 32 ≡ q = omega (arith, small) in
      let id = ap (λ n. get_block_id n disk d) word ∙ found disk (λ b out. refl) q (omega arith) in
      let full = whole q (omega arith) in
      elim (Bool-cases (leb last next)) [
        | inl done ↦
            (let near : last ≤ next = ground arith in
              let step =
                one_block d rounds start last (last - start) (blocks q) buf disk id (omega arith)
                  enough (omega arith) in
              (
                after_part (blocks q) start (last - start) buf disk,
                step ∙ rw done refl,
                part-Written d.size blocks disk start last buf apart whole lt near le enough,
              ))
        | inr more ↦
            (let far : next < last = ground arith in
              let count : ℕ = next - start in
              let disk₁ = after_part (blocks q) start count buf disk in
              let step =
                one_block d rounds start last count (blocks q) buf disk id (omega arith)
                  (omega arith) (omega arith) in
              let w =
                part-Written d.size blocks disk start next buf apart whole (omega arith)
                  (omega arith) (omega arith) (omega arith) in
              let after : q + 1 ≡ next / 512 = omega arith in
              let (disk₂, e, w') =
                write_blocks_lem rounds next last (drop count buf) disk₁
                  (λ disk' same. found disk' (λ b out. same b out ∙ w.elsewhere b out)) w.whole far
                  le (omega (arith, length-drop count buf)) (omega arith) in
              (
                disk₂,
                step
                    ∙ rw more refl
                    ∙ ap (λ b. write_blocks rounds b next last (drop count buf) disk₁ d) after
                    ∙ e,
                joined-Written d.size blocks disk disk₁ disk₂ start next last buf (omega arith)
                    (omega arith) le w w',
              ))
      ]

write_at-returned :
    (d : DiskInode) (disk disk' : Disk) (offset : ℕ) (buf : List ℕ)
    → offset + length buf ≤ d.size
    → let last : ℕ = offset + length buf in
      write_blocks (last / 512 - offset / 512 + 1) (offset / 512) offset last buf disk d
        ≡ returned disk'
      → write_at offset buf disk d ≡ returned (length buf, disk')
unfolding write_at
write_at-returned d disk disk' offset buf within e =
    let last : ℕ = offset + length buf in
    let end : min last d.size ≡ last = omega arith in
    let no_panic : ltb last offset ≡ false = ground arith in
    let count : last - offset ≡ length buf = omega arith in
    rw (write_at, end, no_panic, e, count) refl

-- A write of at least one byte that ends within the file returns the number of bytes; afterwards these bytes
-- stand in the file from the offset on, its other bytes are the same, and so are all other blocks.
pub write_at_lem :
    (d : DiskInode) (disk : Disk) (blocks : ℕ → ℕ) (offset : ℕ) (buf : List ℕ)
    → HoldsFile d disk blocks
    → 0 < length buf
    → offset + length buf ≤ d.size
    → (disk' : Disk) × (write_at offset buf disk d ≡ returned (length buf, disk'))
      × ((i : ℕ) → i < length buf → byte blocks disk' (offset + i) ≡ get_or buf i 0)
      × ((j : ℕ) → j < offset → byte blocks disk' j ≡ byte blocks disk j)
      × ((j : ℕ) → offset + length buf ≤ j → j < d.size → byte blocks disk' j ≡ byte blocks disk j)
      × SameElsewhere d.size blocks disk disk'
write_at_lem d disk blocks offset buf ok some_byte within =
    let last : ℕ = offset + length buf in
    let (disk', e, w) =
      write_blocks_lem d blocks ok.apart ok.small (last / 512 - offset / 512 + 1) offset last buf
        disk ok.found ok.whole (omega arith) within (omega arith) (omega arith) in
    (
      disk',
      write_at-returned d disk disk' offset buf within e,
      λ i lt.
          let same : offset + i - offset ≡ i = omega arith in
          w.inside (offset + i) (omega arith) (omega arith) ∙ ap (λ n. get_or buf n 0) same,
      w.before,
      w.after,
      w.elsewhere,
    )
