-- ===== src/EasyFs/Bitmap/Allocation.antt =====
-- The bit that `Bitmap::alloc` of easy-fs/src/layout.rs sets in a block was the lowest free one, and
-- `dealloc` of it gives the block back.
use Prim.Native.Nat.{bit_or, bit_and, max}
use native.Mathlib.Nat.{pow-suc, pow-zero}
use spec_to_rust_os.Prelude.{
  ℕ, zero, suc, ◌+◌, ◌-◌, ◌*◌, ◌/◌, ◌%◌, ◌^◌, ◌<◌, ◌≡◌, ◌≢◌, refl, ap, true, false, Option, none,
  some, List, [], ◌∷◌, ltb, ◌==◌, length, get_or, set, lt→ltb, ltb→lt, get_or-set_self,
  get_or-set_ne, set-set_back, Bool-cases, inl, inr, arith,
}
use spec_to_rust_os.Prelude.Bits.{
  bit, bit-le, bit-bit_or, bit-pow, bit-complement, bit-zero, bit_or_step, trailing_zeros_lem,
  pow-pos, below-pow, bit_and-pow,
}
use spec_to_rust_os.Prelude.Panic.{returned}
use spec_to_rust_os.EasyFs.Bitmap.{trailing_ones, find_free, alloc_bit, dealloc_bit}

-- The lowest digit that is 0 in a word that is not full.
trailing_ones_lem :
    (w : ℕ)
    → w < 2 ^ 64
    → (w == 2 ^ 64 - 1) ≡ false
    → (trailing_ones w < 64)
      × (bit w (trailing_ones w) ≡ 0)
      × ((j : ℕ) → j < trailing_ones w → bit w j ≡ 1)
trailing_ones_lem w h room =
    let (one, within, least) =
      trailing_zeros_lem 64 (2 ^ 64 - 1 - w) (omega arith) (λ z. ground (arith, room, z)) in
    (
      within,
      omega (arith, one, bit-complement 64 w (trailing_ones w) h within),
      λ j lt. omega (arith, least j lt, bit-complement 64 w j h (omega (arith, lt, within))),
    )

-- Setting a digit that is 0 adds its value.
bit_or-zero : (w a : ℕ) → a < 2 ^ w → bit_or a 0 ≡ a
bit_or-zero zero a h = let e : a ≡ 0 = omega (arith, pow-zero 2) in rw e refl
bit_or-zero (suc w) a h =
    omega (arith, bit_or_step a 0, bit_or-zero w (a / 2) (omega (arith, pow-suc 2 w)))

bit_or-pow : (k w : ℕ) → bit w k ≡ 0 → bit_or w (2 ^ k) ≡ w + 2 ^ k
bit_or-pow zero w h =
    omega (arith, h, bit_or_step w 1, bit_or-zero (w / 2) (w / 2) (below-pow (w / 2)), pow-zero 2)
bit_or-pow (suc k) w h =
    let half : 2 ^ k * 2 / 2 ≡ 2 ^ k = omega arith in
    let step : bit_or w (2 ^ k * 2) ≡ bit_or (w / 2) (2 ^ k) * 2 + max (w % 2) (2 ^ k * 2 % 2) =
      rw half at (bit_or_step w (2 ^ k * 2)) in
    rw pow-suc (omega (arith, step, bit_or-pow k (w / 2) h))

-- The bit at position `p` of a block.
abbrev pub marked : List ℕ → ℕ → ℕ
marked words p = bit (get_or words (p / 64) 0) (p % 64)

abbrev pub AreWords : List ℕ → Type 0
AreWords words = (i : ℕ) → i < length words → get_or words i 0 < 2 ^ 64

-- What `find_free` finds.
data Found (words : List ℕ) (pos : ℕ) : Option (ℕ × ℕ) → Type 0 where
  all_full : ((i : ℕ) → i < length words → get_or words i 0 ≡ 2 ^ 64 - 1) → Found words pos none
  first_free :
      (i p : ℕ)
      → p ≡ pos + i
      → i < length words
      → (get_or words i 0 == 2 ^ 64 - 1) ≡ false
      → ((j : ℕ) → j < i → get_or words j 0 ≡ 2 ^ 64 - 1)
      → Found words pos (some (p, trailing_ones (get_or words i 0)))

below :
    (w n : ℕ) (ws : List ℕ)
    → w ≡ 2 ^ 64 - 1
    → ((j : ℕ) → j < n → get_or ws j 0 ≡ 2 ^ 64 - 1)
    → (j : ℕ) → j < suc n
    → get_or (w ∷ ws) j 0 ≡ 2 ^ 64 - 1
below w n ws e h zero lt = e
below w n ws e h (suc j) lt = h j (omega arith)

Found-cons :
    (w : ℕ) (ws : List ℕ) (pos : ℕ) (o : Option (ℕ × ℕ))
    → w ≡ 2 ^ 64 - 1
    → Found ws (suc pos) o
    → Found (w ∷ ws) pos o
Found-cons w ws pos o e (all_full h) = all_full (below w (length ws) ws e h)
Found-cons w ws pos o e (first_free i p q lt room h) =
    first_free (suc i) p (omega arith) (omega arith) room (below w i ws e h)

find_free_lem : (words : List ℕ) (pos : ℕ) → Found words pos (find_free pos words)
unfolding find_free
find_free_lem [] pos = all_full (λ i lt. absurd (omega arith))
find_free_lem (w ∷ ws) pos = elim (Bool-cases (w == 2 ^ 64 - 1)) [
  | inl full ↦ rw full (
      Found-cons w ws pos (find_free (suc pos) ws) (ground (arith, full))
        (find_free_lem ws (suc pos)))
  | inr room ↦
      rw room (first_free 0 pos (omega arith) (omega arith) room (λ j lt. absurd (omega arith)))
]

-- What the closure of `alloc` does: it fails exactly on a block with every bit set; otherwise it sets the
-- lowest free bit and no other, and the closure of `dealloc` at that bit undoes it.
pub data Allocated (words : List ℕ) : Option (ℕ × List ℕ) → Type 0 where
  exhausted : ((p : ℕ) → p < 64 * length words → marked words p ≡ 1) → Allocated words none
  taken :
      (p : ℕ) (words' : List ℕ)
      → p < 64 * length words
      → marked words p ≡ 0
      → marked words' p ≡ 1
      → ((j : ℕ) → j ≢ p → marked words' j ≡ marked words j)
      → ((j : ℕ) → j < p → marked words j ≡ 1)
      → dealloc_bit p words' ≡ returned words
      → Allocated words (some (p, words'))

bit-full : (k : ℕ) → k < 64 → bit (2 ^ 64 - 1) k ≡ 1
bit-full k lt = omega (arith, bit-complement 64 0 k (omega arith) lt, bit-zero k)

module _ (words : List ℕ) (i t : ℕ) (h : AreWords words) (lt : i < length words) (small : t < 64)
    (free : bit (get_or words i 0) t ≡ 0) where
  abbrev word : ℕ
  word = bit_or (get_or words i 0) (2 ^ t)

  quotient : (i * 64 + t) / 64 ≡ i
  quotient = omega arith

  remainder : (i * 64 + t) % 64 ≡ t
  remainder = omega arith

  self : get_or (set words i word) i 0 ≡ word
  self = get_or-set_self words i word 0 lt

  was-free : marked words (i * 64 + t) ≡ 0
  was-free = rw (quotient, remainder) free

  before-full :
      ((j : ℕ) → j < i → get_or words j 0 ≡ 2 ^ 64 - 1)
      → ((j : ℕ) → j < t → bit (get_or words i 0) j ≡ 1)
      → (j : ℕ) → j < i * 64 + t
      → marked words j ≡ 1
  before-full f ones j before = elim (Bool-cases (ltb (j / 64) i)) [
    | inl low ↦ rw (f (j / 64) (ltb→lt (j / 64) i low)) (bit-full (j % 64) (omega arith))
    | inr last ↦
        (let e : j / 64 ≡ i = ground (arith, last, before, small) in
          rw e (ones (j % 64) (omega (arith, e, before))))
  ]

  set-marked : marked (set words i word) (i * 64 + t) ≡ 1
  set-marked =
      rw (quotient, remainder, self)
        (ground (
          arith,
          bit-bit_or (get_or words i 0) (2 ^ t) t,
          bit-pow t t,
          bit-le (get_or words i 0) t,
        ))

  set-others : (j : ℕ) → j ≢ i * 64 + t → marked (set words i word) j ≡ marked words j
  set-others j other = elim (Bool-cases (i == j / 64)) [
    | inl same ↦
        (let e : j / 64 ≡ i = ground (arith, same) in
          rw (e, self)
            (ground (
              arith,
              other,
              e,
              bit-bit_or (get_or words i 0) (2 ^ t) (j % 64),
              bit-pow t (j % 64),
              bit-le (get_or words i 0) (j % 64),
            )))
    | inr apart ↦
        (let ne : i ≢ j / 64 = λ e. ground (arith, apart, e) in
          rw (get_or-set_ne words i (j / 64) word 0 ne) refl)
  ]

  set-undone : dealloc_bit (i * 64 + t) (set words i word) ≡ returned words
  unfolding dealloc_bit
  set-undone =
      let back : word - 2 ^ t ≡ get_or words i 0 =
        omega (arith, bit_or-pow t (get_or words i 0) free) in
      let held : ltb 0 (bit_and word (2 ^ t)) ≡ true = lt→ltb 0 (bit_and word (2 ^ t)) (
        ground (
          arith,
          bit_and-pow word t,
          bit-bit_or (get_or words i 0) (2 ^ t) t,
          bit-pow t t,
          bit-le (get_or words i 0) t,
          pow-pos t,
        )) in
      rw (dealloc_bit, quotient, remainder, self, held, back)
        (ap returned (set-set_back words i word 0 lt))

full-marked :
    (words : List ℕ) (i : ℕ)
    → ((j : ℕ) → j < i → get_or words j 0 ≡ 2 ^ 64 - 1)
    → (p : ℕ) → p < 64 * i
    → marked words p ≡ 1
full-marked words i h p lt = rw (h (p / 64) (omega arith)) (bit-full (p % 64) (omega arith))

Found-Allocated :
    (words : List ℕ)
    → AreWords words
    → (o : Option (ℕ × ℕ)) → Found words 0 o
    → Allocated words (elim o [
      | none ↦ none
      | some (i, t) ↦ some (i * 64 + t, set words i (bit_or (get_or words i 0) (2 ^ t)))
    ])
Found-Allocated words h o (all_full f) = exhausted (full-marked words (length words) f)
Found-Allocated words h o (first_free i p q lt room f) =
    let (small, free, ones) = trailing_ones_lem (get_or words i 0) (h i lt) room in
    let t = trailing_ones (get_or words i 0) in
    let e : p ≡ i = omega arith in
    rw e (
      taken (i * 64 + t) (set words i (bit_or (get_or words i 0) (2 ^ t)))
        (omega (arith, lt, small)) (was-free words i t h lt small free)
        (set-marked words i t h lt small free) (set-others words i t h lt small free)
        (before-full words i t h lt small free f ones) (set-undone words i t h lt small free))

-- A block of words is searched for its lowest free bit.
pub alloc_bit-Allocated : (words : List ℕ) → AreWords words → Allocated words (alloc_bit words)
unfolding alloc_bit
alloc_bit-Allocated words h = Found-Allocated words h (find_free 0 words) (find_free_lem words 0)
