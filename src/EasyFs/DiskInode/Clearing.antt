-- ===== src/EasyFs/DiskInode/Clearing.antt =====
-- `DiskInode::clear_size` of easy-fs/src/layout.rs gives back as many blocks as `total_blocks` counts.
use spec_to_rust_os.Prelude.{
  ℕ, zero, suc, ◌+◌, ◌-◌, ◌*◌, ◌/◌, ◌%◌, min, ◌≤◌, ◌<◌, ◌≡◌, refl, List, [], ◌∷◌, ◌++◌, ltb,
  if◌then◌else◌, length, take, drop, replicate, length-append, ltb→lt, length-take, length-drop,
  length-replicate, Bool-cases, inl, inr, arith,
}
use spec_to_rust_os.Prelude.Panic.{returned}
use spec_to_rust_os.EasyFs.Disk.{Disk, block_sz}
use spec_to_rust_os.EasyFs.DiskInode.{
  direct_bound, indirect1_bound, DiskInode, data_blocks_of, data_blocks, total_blocks,
  indirect_block, length-indirect_block, index, take_words, clear_direct, clear_full,
  clear_indirect2, clear_size,
}

-- The blocks that a file can have: 28 direct ones, 128 of the first level and 128 * 128 of the second.
abbrev pub max_blocks : ℕ
max_blocks = 16540

abbrev pub Fits : ℕ → Type 0
Fits size = size ≤ max_blocks * block_sz

pub data_blocks_of-Fits :
    (size : ℕ)
    → Fits size
    → (data_blocks_of size ≡ (size + 511) / 512) × (data_blocks_of size ≤ max_blocks)
unfolding data_blocks_of
data_blocks_of-Fits size h = (omega arith, omega arith)

-- The index blocks of `n` data blocks.
abbrev pub index_blocks : ℕ → ℕ
index_blocks n =
    (if ltb direct_bound n then 1 else 0)
    + (if ltb indirect1_bound n then 1 + (n - indirect1_bound + 127) / 128 else 0)

pub total_blocks-Fits :
    (size : ℕ)
    → Fits size
    → total_blocks size ≡ data_blocks_of size + index_blocks (data_blocks_of size)
unfolding total_blocks
total_blocks-Fits size h = let (_, le) = data_blocks_of-Fits size h in ground (arith, le)

length-clear_full :
    (entries : List ℕ) (disk : Disk) → length (clear_full entries disk) ≡ 129 * length entries
unfolding clear_full
length-clear_full [] disk = refl
length-clear_full (e ∷ es) disk = omega (
  arith,
  length-append (indirect_block e disk) (clear_full es disk),
  length-indirect_block e disk,
  length-clear_full es disk,
)

pub index-some : (l : List ℕ) (i : ℕ) → i < length l → (v : ℕ) × (index l i ≡ returned v)
index-some [] i h = absurd (omega arith)
index-some (y ∷ l) zero h = (y, refl)
index-some (y ∷ l) (suc i) h = index-some l i (omega arith)

clear_indirect2_lem :
    (n : ℕ) (disk : Disk) (d : DiskInode)
    → n ≤ 16384
    → (v : List ℕ) × (clear_indirect2 n disk d ≡ returned v) × (length v ≡ n + (n + 127) / 128)
unfolding clear_indirect2
clear_indirect2_lem n disk d h = elim (Bool-cases (ltb 0 (n % 128))) [
  | inl part ↦
      (let words = indirect_block d.indirect2 disk in
        let (e, q) =
          index-some words (n / 128)
            (ground (arith, part, length-indirect_block d.indirect2 disk)) in
        let full = clear_full (take (n / 128) words) disk in
        let last = take (n % 128) (indirect_block e disk) in
        (
          full ++ (e ∷ last),
          rw (clear_indirect2, part, q) refl,
          omega (
            arith,
            ltb→lt 0 (n % 128) part,
            length-append full (e ∷ last),
            length-clear_full (take (n / 128) words) disk,
            length-take (n / 128) words,
            length-take (n % 128) (indirect_block e disk),
            length-indirect_block d.indirect2 disk,
            length-indirect_block e disk,
          ),
        ))
  | inr whole ↦
      (let words = indirect_block d.indirect2 disk in
        (
          clear_full (take (n / 128) words) disk,
          rw (clear_indirect2, whole) refl,
          ground (
            arith,
            whole,
            length-clear_full (take (n / 128) words) disk,
            length-take (n / 128) words,
            length-indirect_block d.indirect2 disk,
          ),
        ))
]

take_words-take :
    (n : ℕ) (words : List ℕ) → n ≤ length words → take_words n words ≡ returned (take n words)
unfolding take_words
take_words-take n words h = ground (arith, h)

clear_direct-take :
    (n : ℕ) (direct : List ℕ)
    → n ≤ length direct
    → clear_direct n direct ≡ returned (take n direct, replicate n 0 ++ drop n direct)
unfolding clear_direct
clear_direct-take n direct h = rw (clear_direct, take_words-take n direct h) refl

reset_length :
    (k : ℕ) (direct : List ℕ)
    → length direct ≡ 28
    → k ≤ 28
    → length (replicate k 0 ++ drop k direct) ≡ 28
reset_length k direct full h = omega (
  arith,
  full,
  length-append (replicate k 0) (drop k direct),
  length-replicate {A = ℕ} k 0,
  length-drop k direct,
)

-- A file within the largest size is cleared without a panic: the blocks that are given back are as many
-- as `total_blocks` counts for its size, and its size is 0.
pub clear_size_lem :
    (disk : Disk) (d : DiskInode)
    → length d.direct ≡ 28
    → Fits d.size
    → (v : List ℕ) × (d' : DiskInode) × (clear_size disk d ≡ returned (v, d'))
      × (length v ≡ total_blocks d.size)
      × (d'.size ≡ 0)
      × (length d'.direct ≡ 28)
unfolding clear_size data_blocks
clear_size_lem disk d full fits =
    let n = data_blocks_of d.size in
    let (_, le) = data_blocks_of-Fits d.size fits in
    let direct = clear_direct-take (min n 28) d.direct (omega (arith, full)) in
    let v0 = take (min n 28) d.direct in
    let l0 = length-take (min n 28) d.direct in
    let rest : length (replicate (min n 28) 0 ++ drop (min n 28) d.direct) ≡ 28 =
      reset_length (min n 28) d.direct full (omega arith) in
    let d0 = record d { size = 0; direct = replicate (min n 28) 0 ++ drop (min n 28) d.direct } in
    let words = indirect_block d.indirect1 disk in
    let lw = length-indirect_block d.indirect1 disk in
    let level1 = take_words-take (min (n - 28) 128) words (omega (arith, lw)) in
    let v1 = v0 ++ (d.indirect1 ∷ take (min (n - 28) 128) words) in
    let l1 : length v1 ≡ min n 28 + 1 + min (n - 28) 128 = omega (
      arith,
      length-append v0 (d.indirect1 ∷ take (min (n - 28) 128) words),
      length-take (min (n - 28) 128) words,
      l0,
      lw,
      full,
    ) in
    elim (Bool-cases (ltb direct_bound n)) [
      | inr small ↦ (
        v0,
        d0,
        rw (direct, small) refl,
        ground (arith, small, l0, full, total_blocks-Fits d.size fits),
        refl,
        rest,
      )
      | inl more ↦ elim (Bool-cases (ltb indirect1_bound n)) [
        | inr middle ↦ (
          v1,
          record d0 { indirect1 = 0 },
          rw (direct, more, level1, middle) refl,
          ground (arith, more, middle, l1, total_blocks-Fits d.size fits),
          refl,
          rest,
        )
        | inl large ↦
            (let (v2, e2, l2) = clear_indirect2_lem (n - 156) disk d (omega (arith, le)) in
              (
                v1 ++ (d.indirect2 ∷ v2),
                record d0 { indirect1 = 0; indirect2 = 0 },
                rw (direct, more, level1, large, e2) refl,
                ground (
                  arith,
                  more,
                  large,
                  l1,
                  l2,
                  length-append v1 (d.indirect2 ∷ v2),
                  total_blocks-Fits d.size fits,
                ),
                refl,
                rest,
              ))
      ]
    ]
