-- ===== src/EasyFs/DiskInode/Reading.antt =====
-- easy-fs/src/layout.rs: what `DiskInode::read_at` reads.
use spec_to_rust_os.Prelude.{
  ℕ, zero, suc, ◌+◌, ◌-◌, ◌*◌, ◌/◌, ◌%◌, ◌^◌, ◌≤◌, ◌<◌, min, ◌≡◌, refl, ap, ◌∙◌, false, List, [],
  ◌∷◌, ◌++◌, ltb, leb, length, take, drop, get_or, length-take, length-drop, length-append,
  Bool-cases, inl, inr, arith,
}
use spec_to_rust_os.Prelude.Panic.{returned}
use spec_to_rust_os.EasyFs.Disk.{Disk}
use spec_to_rust_os.EasyFs.DiskInode.{DiskInode, get_block_id}
use spec_to_rust_os.EasyFs.DiskInode.Access.{slice, end_current_block, read_blocks, read_at}

-- The blocks that hold the file, in order, each of 512 bytes.
pub record HasBlocks (d : DiskInode) (disk : Disk) (blocks : ℕ → ℕ) : Type 0 where
  pub found : (k : ℕ) → k * 512 < d.size → get_block_id k disk d ≡ returned (blocks k)
  pub whole : (k : ℕ) → k * 512 < d.size → length (disk (blocks k)) ≡ 512
  pub small : d.size < 2 ^ 32

-- Byte `j` of the file.
abbrev pub byte : (ℕ → ℕ) → Disk → ℕ → ℕ
byte blocks disk j = get_or (disk (blocks (j / 512))) (j % 512) 0

pub get_or-take : (c i : ℕ) (l : List ℕ) → i < c → get_or (take c l) i 0 ≡ get_or l i 0
get_or-take zero i l h = absurd (omega arith)
get_or-take (suc c) i [] h = refl
get_or-take (suc c) zero (x ∷ l) h = refl
get_or-take (suc c) (suc i) (x ∷ l) h = get_or-take c i l (omega arith)

pub get_or-drop : (o i : ℕ) (l : List ℕ) → get_or (drop o l) i 0 ≡ get_or l (o + i) 0
get_or-drop zero i l = let e : 0 + i ≡ i = omega arith in rw e refl
get_or-drop (suc o) i [] = refl
get_or-drop (suc o) i (x ∷ l) =
    let e : suc o + i ≡ suc (o + i) = omega arith in rw e (get_or-drop o i l)

pub get_or-left : (xs ys : List ℕ) (i : ℕ) → i < length xs → get_or (xs ++ ys) i 0 ≡ get_or xs i 0
get_or-left [] ys i h = absurd (omega arith)
get_or-left (x ∷ xs) ys zero h = refl
get_or-left (x ∷ xs) ys (suc i) h = get_or-left xs ys i (omega arith)

pub get_or-right : (xs ys : List ℕ) (i : ℕ) → get_or (xs ++ ys) (length xs + i) 0 ≡ get_or ys i 0
get_or-right [] ys i = let e : 0 + i ≡ i = omega arith in rw e refl
get_or-right (x ∷ xs) ys i =
    let e : suc (length xs) + i ≡ suc (length xs + i) = omega arith in rw e (get_or-right xs ys i)

pub slice_lem :
    (bytes : List ℕ) (start count : ℕ)
    → start + count ≤ length bytes
    → slice bytes start count ≡ returned (take count (drop start bytes))
slice_lem bytes start count h = ground arith

-- The bytes of the file from `start` up to `last`.
abbrev Reads : (ℕ → ℕ) → Disk → ℕ → ℕ → List ℕ → Type 0
Reads blocks disk start last bytes =
    (length bytes ≡ last - start)
    × ((i : ℕ) → i < last - start → get_or bytes i 0 ≡ byte blocks disk (start + i))

-- The part of one block.
part-Reads :
    (blocks : ℕ → ℕ) (disk : Disk) (start last : ℕ)
    → start ≤ last
    → last ≤ end_current_block start
    → length (disk (blocks (start / 512))) ≡ 512
    → Reads blocks disk start last
        (take (last - start) (drop (start % 512) (disk (blocks (start / 512)))))
part-Reads blocks disk start last le near whole =
    let block = disk (blocks (start / 512)) in
    (
      length-take (last - start) (drop (start % 512) block)
          ∙ omega (arith, length-drop (start % 512) block),
      λ i h.
          let q : (start + i) / 512 ≡ start / 512 = omega arith in
          let r : (start + i) % 512 ≡ start % 512 + i = omega arith in
          get_or-take (last - start) i (drop (start % 512) block) h
          ∙ get_or-drop (start % 512) i block
          ∙ rw (q, r) refl,
    )

joined-Reads :
    (blocks : ℕ → ℕ) (disk : Disk) (start middle last : ℕ) (xs ys : List ℕ)
    → start ≤ middle
    → middle ≤ last
    → Reads blocks disk start middle xs
    → Reads blocks disk middle last ys
    → Reads blocks disk start last (xs ++ ys)
joined-Reads blocks disk start middle last xs ys le le' (lx, fx) (ly, fy) = (
  omega (arith, length-append xs ys),
  λ i h. elim (Bool-cases (ltb i (middle - start))) [
    | inl low ↦ get_or-left xs ys i (ground arith) ∙ fx i (ground arith)
    | inr high ↦
        (let j : ℕ = i - (middle - start) in
          let at : i ≡ length xs + j = ground arith in
          let same : middle + j ≡ start + i = ground arith in
          ap (λ k. get_or (xs ++ ys) k 0) at
          ∙ get_or-right xs ys j
          ∙ fy j (ground arith)
          ∙ ap (byte blocks disk) same)
  ],
)

module _ (d : DiskInode) (disk : Disk) (blocks : ℕ → ℕ) (ok : HasBlocks d disk blocks) where
  more_blocks :
      (rounds start last id : ℕ) (rest : List ℕ)
      → get_block_id (start / 512 % 2 ^ 32) disk d ≡ returned id
      → start % 512 + (end_current_block start - start) ≤ length (disk id)
      → end_current_block start < last
      → read_blocks rounds (start / 512 + 1) (end_current_block start) last disk d ≡ returned rest
      → read_blocks (suc rounds) (start / 512) start last disk d
        ≡ returned (take (end_current_block start - start) (drop (start % 512) (disk id)) ++ rest)
  unfolding read_blocks
  more_blocks rounds start last id rest found inside far e =
      let next : ℕ = end_current_block start in
      let size : min last next - start ≡ next - start = omega arith in
      let more : leb last next ≡ false = ground arith in
      rw
        (read_blocks, found, size, slice_lem (disk id) (start % 512) (next - start) inside, more, e)
        refl

  read_blocks_lem :
      (rounds start last : ℕ)
      → start < last
      → last ≤ d.size
      → last / 512 - start / 512 < rounds
      → (bytes : List ℕ) × (read_blocks rounds (start / 512) start last disk d ≡ returned bytes)
        × Reads blocks disk start last bytes
  unfolding read_blocks
  read_blocks_lem zero start last lt le enough = absurd (omega arith)
  read_blocks_lem (suc rounds) start last lt le enough =
      let next : ℕ = end_current_block start in
      let block = disk (blocks (start / 512)) in
      let whole = ok.whole (start / 512) (omega arith) in
      let word : start / 512 % 2 ^ 32 ≡ start / 512 = omega (arith, ok.small) in
      let id = ok.found (start / 512) (omega arith) in
      elim (Bool-cases (leb last next)) [
        | inl done ↦
            (let near : last ≤ next = ground arith in
              let size : min last next - start ≡ last - start = omega arith in
              (
                take (last - start) (drop (start % 512) block),
                rw
                    (
                      read_blocks,
                      word,
                      id,
                      size,
                      slice_lem block (start % 512) (last - start) (omega arith),
                      done,
                    )
                    refl,
                part-Reads blocks disk start last (omega arith) near whole,
              ))
        | inr more ↦
            (let far : next < last = ground arith in
              let after : start / 512 + 1 ≡ next / 512 = omega arith in
              let (rest, e, reads) = read_blocks_lem rounds next last far le (omega arith) in
              (
                take (next - start) (drop (start % 512) block) ++ rest,
                more_blocks rounds start last (blocks (start / 512)) rest (rw word id) (omega arith)
                    far (ap (λ b. read_blocks rounds b next last disk d) after ∙ e),
                joined-Reads blocks disk start next last
                    (take (next - start) (drop (start % 512) block)) rest (omega arith)
                    (omega arith)
                    (part-Reads blocks disk start next (omega arith) (omega arith) whole) reads,
              ))
      ]

  -- A read of a file whose blocks are there returns the bytes of the file from the offset on, up to the
  -- end of the buffer or of the file, whichever comes first.
  pub read_at_lem :
      (offset len : ℕ)
      → (bytes : List ℕ) × (read_at offset len disk d ≡ returned bytes)
        × (length bytes ≡ min (offset + len) d.size - offset)
        × ((i : ℕ)
            → i < min (offset + len) d.size - offset
            → get_or bytes i 0 ≡ byte blocks disk (offset + i))
  unfolding read_at
  read_at_lem offset len =
      let last : ℕ = min (offset + len) d.size in
      elim (Bool-cases (leb last offset)) [
        | inl nothing ↦ ([], rw (read_at, nothing) refl, ground arith, λ i h. absurd (ground arith))
        | inr something ↦
            (let (bytes, e, (size, reads)) =
                read_blocks_lem (last / 512 - offset / 512 + 1) offset last (ground arith)
                  (omega arith) (omega arith) in
              (bytes, rw (read_at, something) e, size, reads))
      ]
