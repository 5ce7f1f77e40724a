-- ===== src/EasyFs/DiskInode/Growth.antt =====
-- `DiskInode::increase_size` of easy-fs/src/layout.rs uses up exactly the blocks that `blocks_num_needed`
-- asks for.
use Prim.Native.Nat.{max}
use spec_to_rust_os.Prelude.{
  ℕ, zero, suc, ◌+◌, ◌*◌, ◌/◌, ◌≤◌, ◌<◌, ◌≡◌, refl, ◌∙◌, List, [], ◌∷◌, ◌==◌, if◌then◌else◌, length,
  set, length-set, Bool-cases, inl, inr, arith,
}
use spec_to_rust_os.Prelude.Panic.{returned}
use spec_to_rust_os.EasyFs.Disk.{Disk}
use spec_to_rust_os.EasyFs.DiskInode.{
  indirect_block, length-indirect_block, write, next_block, fill, fill_indirect2, start_index,
  advance, write_indirect,
}
use spec_to_rust_os.EasyFs.DiskInode.Clearing.{index-some}

pub write-some :
    (l : List ℕ) (i v : ℕ)
    → i < length l
    → (write l i v ≡ returned (set l i v)) × (length (set l i v) ≡ length l)
write-some l i v h = let (old, e) = index-some l i h in (rw (write, e) refl, length-set l i v)

pub next-some :
    (bs : List ℕ)
    → 0 < length bs
    → (b : ℕ) × (bs' : List ℕ) × (next_block bs ≡ returned (b, bs'))
      × (length bs ≡ suc (length bs'))
next-some [] h = absurd (omega arith)
next-some (b ∷ bs) h = (b, bs, refl, refl)

-- `n` rounds within the array take `n` blocks.
pub fill_lem :
    (n i : ℕ) (l bs : List ℕ)
    → i + n ≤ max i (length l)
    → n ≤ length bs
    → (l' : List ℕ) × (bs' : List ℕ) × (fill n i l bs ≡ returned (l', bs'))
      × (length l' ≡ length l)
      × (length bs ≡ n + length bs')
unfolding fill
fill_lem zero i l bs h k = (l, bs, refl, refl, omega arith)
fill_lem (suc n) i l [] h k = absurd (omega arith)
fill_lem (suc n) i l (b ∷ bs) h k =
    let (q, same) = write-some l i b (omega arith) in
    let (l', bs', e, len, left) =
      fill_lem n (suc i) (set l i b) bs (omega (arith, same)) (omega arith) in
    (l', bs', rw q e, len ∙ same, omega (arith, left))

-- The index blocks that lie below position `p` of the second level.
abbrev pub begun : ℕ → ℕ
begun p = (p + 127) / 128

start_index_lem :
    (a0 b0 : ℕ) (words bs : List ℕ)
    → length words ≡ 128
    → a0 < 128
    → (b0 ≡ 0 → 0 < length bs)
    → (words' : List ℕ) × (bs' : List ℕ) × (start_index a0 b0 words bs ≡ returned (words', bs'))
      × (length words' ≡ 128)
      × (length bs ≡ (if b0 == 0 then 1 else 0) + length bs')
unfolding start_index
start_index_lem a0 b0 words bs len lt h = elim (Bool-cases (b0 == 0)) [
  | inl begins ↦
      (let (b, bs', e, left) = next-some bs (h (ground (arith, begins))) in
        let (q, same) = write-some words a0 b (omega (arith, len)) in
        (
          set words a0 b,
          bs',
          rw (start_index, begins, e, q) refl,
          same ∙ len,
          rw begins (omega (arith, left)),
        ))
  | inr inside ↦ (words, bs, rw (start_index, inside) refl, len, rw inside (omega arith))
]

advance_lem :
    (a0 b0 : ℕ)
    → b0 < 128
    → (a0' : ℕ) × (b0' : ℕ) × (advance a0 b0 ≡ (a0', b0'))
      × (b0' < 128)
      × (128 * a0' + b0' ≡ suc (128 * a0 + b0))
unfolding advance
advance_lem a0 b0 lt = elim (Bool-cases (suc b0 == 128)) [
  | inl full ↦ (suc a0, 0, rw (advance, full) refl, omega arith, ground (arith, full))
  | inr room ↦ (a0, suc b0, rw (advance, room) refl, ground (arith, room, lt), omega arith)
]

-- A round takes a block for its word, and one more where it begins an index block.
begun-suc :
    (a0 b0 : ℕ)
    → b0 < 128
    → begun (suc (128 * a0 + b0)) ≡ begun (128 * a0 + b0) + (if b0 == 0 then 1 else 0)
begun-suc a0 b0 lt = ground (arith, lt)

round_enough :
    (n p p' i all rest rest' : ℕ)
    → p' ≡ suc p
    → begun (suc p) ≡ begun p + i
    → all ≡ i + rest
    → rest ≡ suc rest'
    → suc n + begun (p + suc n) ≤ all + begun p
    → n + begun (p' + n) ≤ rest' + begun p'
round_enough n p p' i all rest rest' step grown left1 left3 enough = omega arith

round_left :
    (n p p' i all rest rest' last : ℕ)
    → p' ≡ suc p
    → begun (suc p) ≡ begun p + i
    → all ≡ i + rest
    → rest ≡ suc rest'
    → rest' + begun p' ≡ n + begun (p' + n) + last
    → all + begun p ≡ suc n + begun (p + suc n) + last
round_left n p p' i all rest rest' last step grown left1 left3 left6 = omega arith

pub fill_indirect2_lem :
    (n a0 b0 : ℕ) (words bs : List ℕ) (disk : Disk)
    → b0 < 128
    → length words ≡ 128
    → 128 * a0 + b0 + n ≤ 16384
    → n + begun (128 * a0 + b0 + n) ≤ length bs + begun (128 * a0 + b0)
    → (words' : List ℕ) × (bs' : List ℕ) × (disk' : Disk) × (fill_indirect2 n a0 b0 words bs disk
        ≡ returned (words', bs', disk'))
      × (length bs + begun (128 * a0 + b0) ≡ n + begun (128 * a0 + b0 + n) + length bs')
unfolding fill_indirect2
fill_indirect2_lem zero a0 b0 words bs disk lt len fits enough =
    (words, bs, disk, refl, omega arith)
fill_indirect2_lem (suc n) a0 b0 words bs disk lt len fits enough =
    let (words1, bs1, e1, len1, left1) =
      start_index_lem a0 b0 words bs len (omega arith) (λ z. ground (arith, z, enough)) in
    let (id, e2) = index-some words1 a0 (omega (arith, len1)) in
    let (b, bs2, e3, left3) = next-some bs1 (ground (arith, left1, enough)) in
    let (e4, _) =
      write-some (indirect_block id disk) b0 b (omega (arith, length-indirect_block id disk)) in
    let (a0', b0', e5, within, step) = advance_lem a0 b0 lt in
    let (words', bs', disk', e6, left6) =
      fill_indirect2_lem n a0' b0' words1 bs2
        (write_indirect id (set (indirect_block id disk) b0 b) disk) within len1 (omega arith)
        (round_enough n (128 * a0 + b0) (128 * a0' + b0') (if b0 == 0 then 1 else 0) (length bs)
          (length bs1) (length bs2) step (begun-suc a0 b0 lt) left1 left3 enough) in
    (
      words',
      bs',
      disk',
      rw (fill_indirect2, e5, e1, e2, e3, e4) e6,
      round_left n (128 * a0 + b0) (128 * a0' + b0') (if b0 == 0 then 1 else 0) (length bs)
          (length bs1) (length bs2) (length bs') step (begun-suc a0 b0 lt) left1 left3 left6,
    )
