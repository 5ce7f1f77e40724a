-- ===== src/EasyFs/DiskInode/Splicing.antt =====
-- easy-fs/src/layout.rs: what one round of `DiskInode::write_at` leaves in the file.
use spec_to_rust_os.Prelude.{
  ℕ, ◌+◌, ◌-◌, ◌*◌, ◌/◌, ◌%◌, ◌≤◌, ◌<◌, ◌≡◌, ◌≢◌, refl, sym, ap, ◌∙◌, true, false, List, ◌++◌, ltb,
  ◌==◌, length, take, drop, get_or, length-take, length-drop, length-append, Bool-cases, inl, inr,
  arith,
}
use spec_to_rust_os.Prelude.Panic.{returned}
use spec_to_rust_os.EasyFs.Disk.{Disk, write_block}
use spec_to_rust_os.EasyFs.DiskInode.Access.{splice, end_current_block}
use spec_to_rust_os.EasyFs.DiskInode.Reading.{
  byte, get_or-take, get_or-drop, get_or-left, get_or-right, slice_lem,
}

-- A block with `src` in it from `start` on.
abbrev pub spliced : List ℕ → ℕ → List ℕ → List ℕ
spliced block start src = take start block ++ src ++ drop (start + length src) block

pub splice_lem :
    (block : List ℕ) (start : ℕ) (src : List ℕ)
    → start + length src ≤ length block
    → splice block start src ≡ returned (spliced block start src)
splice_lem block start src h = rw (slice_lem block start (length src) h) refl

length-spliced :
    (block : List ℕ) (start : ℕ) (src : List ℕ)
    → start + length src ≤ length block
    → length (spliced block start src) ≡ length block
length-spliced block start src h = omega (
  arith,
  h,
  length-append (take start block ++ src) (drop (start + length src) block),
  length-append (take start block) src,
  length-take start block,
  length-drop (start + length src) block,
)

module _ (block : List ℕ) (start : ℕ) (src : List ℕ) (h : start + length src ≤ length block) where
  length-start : length (take start block) ≡ start
  length-start = omega (arith, length-take start block, h)

  length-end : length (take start block ++ src) ≡ start + length src
  length-end = omega (arith, length-append (take start block) src, length-start)

  spliced-before : (i : ℕ) → i < start → get_or (spliced block start src) i 0 ≡ get_or block i 0
  spliced-before i lt =
      get_or-left (take start block ++ src) (drop (start + length src) block) i
        (omega (arith, length-end))
      ∙ get_or-left (take start block) src i (omega (arith, length-start))
      ∙ get_or-take start i block lt

  spliced-inside :
      (i : ℕ) → i < length src → get_or (spliced block start src) (start + i) 0 ≡ get_or src i 0
  spliced-inside i lt =
      get_or-left (take start block ++ src) (drop (start + length src) block) (start + i)
        (omega (arith, length-end))
      ∙ ap (λ n. get_or (take start block ++ src) (n + i) 0) (sym length-start)
      ∙ get_or-right (take start block) src i

  spliced-after :
      (i : ℕ) → start + length src ≤ i → get_or (spliced block start src) i 0 ≡ get_or block i 0
  spliced-after i le =
      let k : ℕ = i - (start + length src) in
      let at : i ≡ length (take start block ++ src) + k = omega (arith, length-end) in
      let back : start + length src + k ≡ i = omega arith in
      ap (λ n. get_or (spliced block start src) n 0) at
      ∙ get_or-right (take start block ++ src) (drop (start + length src) block) k
      ∙ get_or-drop (start + length src) k block
      ∙ ap (λ n. get_or block n 0) back

-- The file from `start` up to `last` is written from `buf`, and nothing else.
pub record Written (size : ℕ) (blocks : ℕ → ℕ) (disk disk' : Disk) (start last : ℕ) (buf : List ℕ)
    : Type 0 where
  pub inside : (j : ℕ) → start ≤ j → j < last → byte blocks disk' j ≡ get_or buf (j - start) 0
  pub before : (j : ℕ) → j < start → byte blocks disk' j ≡ byte blocks disk j
  pub after : (j : ℕ) → last ≤ j → j < size → byte blocks disk' j ≡ byte blocks disk j
  pub elsewhere : (b : ℕ) → ((k : ℕ) → k * 512 < size → b ≢ blocks k) → disk' b ≡ disk b
  pub whole : (k : ℕ) → k * 512 < size → length (disk' (blocks k)) ≡ 512

pub joined-Written :
    (size : ℕ) (blocks : ℕ → ℕ) (disk disk₁ disk₂ : Disk) (start middle last : ℕ) (buf : List ℕ)
    → start ≤ middle
    → middle ≤ last
    → last ≤ size
    → Written size blocks disk disk₁ start middle buf
    → Written size blocks disk₁ disk₂ middle last (drop (middle - start) buf)
    → Written size blocks disk disk₂ start last buf
joined-Written size blocks disk disk₁ disk₂ start middle last buf le le' le'' w w' = record {
  inside = λ j lo hi. elim (Bool-cases (ltb j middle)) [
    | inl low ↦ w'.before j (ground arith) ∙ w.inside j lo (ground arith)
    | inr high ↦
        (let same : (middle - start) + (j - middle) ≡ j - start = ground arith in
          w'.inside j (ground arith) hi
          ∙ get_or-drop (middle - start) (j - middle) buf
          ∙ ap (λ n. get_or buf n 0) same)
  ];
  before = λ j lt. w'.before j (omega arith) ∙ w.before j lt;
  after = λ j lo hi. w'.after j lo hi ∙ w.after j (omega arith) hi;
  elsewhere = λ b out. w'.elsewhere b out ∙ w.elsewhere b out;
  whole = w'.whole;
}

-- No block holds two parts of the file.
abbrev pub AreApart : ℕ → (ℕ → ℕ) → Type 0
AreApart size blocks = (j k : ℕ) → j * 512 < size → k * 512 < size → blocks j ≡ blocks k → j ≡ k

write_block-here :
    (id j : ℕ) (new : List ℕ) (disk : Disk) → j ≡ id → write_block id new disk j ≡ new
unfolding write_block
write_block-here id j new disk e = let same : (j == id) ≡ true = ground arith in rw same refl

write_block-there :
    (id j : ℕ) (new : List ℕ) (disk : Disk) → j ≢ id → write_block id new disk j ≡ disk j
unfolding write_block
write_block-there id j new disk n = let other : (j == id) ≡ false = ground arith in rw other refl

-- One block.
module _ (size : ℕ) (blocks : ℕ → ℕ) (disk : Disk) (apart : AreApart size blocks) (q : ℕ)
    (inside : q * 512 < size) (new : List ℕ) where
  byte-here :
      (j : ℕ)
      → j / 512 ≡ q
      → byte blocks (write_block (blocks q) new disk) j ≡ get_or new (j % 512) 0
  byte-here j e =
      ap (λ l. get_or l (j % 512) 0)
        (write_block-here (blocks q) (blocks (j / 512)) new disk (ap blocks e))

  byte-there :
      (j : ℕ)
      → j < size
      → j / 512 ≢ q
      → byte blocks (write_block (blocks q) new disk) j ≡ byte blocks disk j
  byte-there j lt n =
      ap (λ l. get_or l (j % 512) 0)
        (write_block-there (blocks q) (blocks (j / 512)) new disk
          (λ e. n (apart (j / 512) q (omega arith) inside e)))

  whole-written :
      length new ≡ 512
      → ((k : ℕ) → k * 512 < size → length (disk (blocks k)) ≡ 512)
      → (k : ℕ) → k * 512 < size
      → length (write_block (blocks q) new disk (blocks k)) ≡ 512
  whole-written full whole k lt = elim (Bool-cases (k == q)) [
    | inl here ↦
        ap length (write_block-here (blocks q) (blocks k) new disk (ap blocks (ground arith)))
        ∙ full
    | inr there ↦
        ap length (
          write_block-there (blocks q) (blocks k) new disk
            (λ e. absurd (ground (arith, apart k q lt inside e))))
        ∙ whole k lt
  ]

  -- A byte of another block, or one of this block that stays.
  byte-kept :
      (j : ℕ)
      → j < size
      → (j / 512 ≡ q → get_or new (j % 512) 0 ≡ get_or (disk (blocks q)) (j % 512) 0)
      → byte blocks (write_block (blocks q) new disk) j ≡ byte blocks disk j
  byte-kept j lt kept = elim (Bool-cases (j / 512 == q)) [
    | inl here ↦
        (let e : j / 512 ≡ q = ground arith in
          byte-here j e ∙ kept e ∙ ap (λ k. get_or (disk (blocks k)) (j % 512) 0) (sym e))
    | inr there ↦ byte-there j lt (λ e. absurd (ground arith))
  ]

pub part-Written :
    (size : ℕ) (blocks : ℕ → ℕ) (disk : Disk) (start last : ℕ) (buf : List ℕ)
    → AreApart size blocks
    → ((k : ℕ) → k * 512 < size → length (disk (blocks k)) ≡ 512)
    → start < last
    → last ≤ end_current_block start
    → last ≤ size
    → last - start ≤ length buf
    → Written size blocks disk
        (write_block
          (blocks (start / 512))
          (spliced (disk (blocks (start / 512))) (start % 512) (take (last - start) buf))
          disk)
        start
        last
        buf
part-Written size blocks disk start last buf apart whole lt near le enough =
    let q : ℕ = start / 512 in
    let s : ℕ = start % 512 in
    let block : List ℕ = disk (blocks q) in
    let src : List ℕ = take (last - start) buf in
    let new : List ℕ = spliced block s src in
    let here : q * 512 < size = omega arith in
    let count : length src ≡ last - start = omega (arith, length-take (last - start) buf) in
    let fits : s + length src ≤ length block = omega (arith, whole q here, count) in
    record {
      inside = λ j lo hi.
          let e : j / 512 ≡ q = omega arith in
          let at : j % 512 ≡ s + (j - start) = omega arith in
          byte-here size blocks disk apart q here new j e
          ∙ ap (λ i. get_or new i 0) at
          ∙ spliced-inside block s src fits (j - start) (omega (arith, count))
          ∙ get_or-take (last - start) (j - start) buf (omega arith);
      before = λ j lo.
          byte-kept size blocks disk apart q here new j (omega arith)
            (λ e. spliced-before block s src fits (j % 512) (omega arith));
      after = λ j lo hi.
          byte-kept size blocks disk apart q here new j hi
            (λ e. spliced-after block s src fits (j % 512) (omega (arith, count)));
      elsewhere = λ b out. write_block-there (blocks q) b new disk (out q here);
      whole =
          whole-written size blocks disk apart q here new
            (length-spliced block s src fits ∙ whole q here) whole;
    }
