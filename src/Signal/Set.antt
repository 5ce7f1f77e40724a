-- ===== src/Signal/Set.antt =====
-- signal-impl/src/lib.rs: `SignalSet`, a 64-bit word of which each bit stands for a signal.
use Prim.Native.Nat.{bit_and, bit_or}
use spec_to_rust_os.Prelude.{
  ℕ, ◌-◌, ◌^◌, ◌<◌, ◌≡◌, Bool, true, false, not, ◌&&◌, ◌||◌, Option, none, some, ltb, sym, ◌==◌,
  if◌then◌else◌, Bool-cases, inl, inr, arith,
}
use spec_to_rust_os.Prelude.Bits.{
  bit, bit-le, bit-bit_and, bit-bit_or, bit-pow, bit-complement, bit-beyond, trailing_zeros,
  trailing_zeros_lem, bit_and-pow, bit_and-le, bit_or-lt, pow-lt, pow-pos,
}

-- `!w` of a usize.
abbrev pub complement : ℕ → ℕ
complement w = 2 ^ 64 - 1 - w

unfoldable pub add_bit : ℕ → ℕ → ℕ
add_bit k s = if ltb k 64 then bit_or s (2 ^ k) else s

unfoldable pub remove_bit : ℕ → ℕ → ℕ
remove_bit k s = if ltb k 64 then bit_and s (complement (2 ^ k)) else s

unfoldable pub contain_bit : ℕ → ℕ → Bool
contain_bit s k = ltb k 64 && not (bit_and s (2 ^ k) == 0)

unfoldable pub union : ℕ → ℕ → ℕ
union s t = bit_or s t

unfoldable pub difference : ℕ → ℕ → ℕ
difference s t = bit_and s (complement t)

unfoldable pub find_first_one : ℕ → ℕ → Option ℕ
find_first_one s mask =
    let deliverable = difference s mask in
    if deliverable == 0 then none else some (trailing_zeros 64 deliverable)

abbrev pub IsWord : ℕ → Type 0
IsWord s = s < 2 ^ 64

-- Membership is the digit.
contain_bit-eq-bit : (s k : ℕ) → IsWord s → contain_bit s k ≡ (bit s k == 1)
unfolding contain_bit
contain_bit-eq-bit s k w =
    ground (arith, bit_and-pow s k, bit-beyond 64 s k w, bit-le s k, pow-pos k)

bit-and_complement :
    (s t j : ℕ)
    → IsWord s
    → IsWord t
    → (bit (bit_and s (complement t)) j == 1) ≡ (bit s j == 1 && not (bit t j == 1))
bit-and_complement s t j w v = elim (Bool-cases (ltb j 64)) [
  | inl lt ↦ ground (
    arith,
    bit-bit_and s (complement t) j,
    bit-complement 64 t j v (ground arith),
    bit-le s j,
    bit-le t j,
    bit-le (complement t) j,
  )
  | inr ge ↦ ground (
    arith,
    bit-bit_and s (complement t) j,
    bit-beyond 64 s j w (ground arith),
    bit-le (complement t) j,
  )
]

-- Every operation on a word gives a word.
pub add_bit-IsWord : (k s : ℕ) → IsWord s → IsWord (add_bit k s)
unfolding add_bit
add_bit-IsWord k s w = elim (Bool-cases (ltb k 64)) [
  | inl lt ↦ rw lt (bit_or-lt 64 s (2 ^ k) w (pow-lt k 64 (ground arith)))
  | inr ge ↦ rw ge w
]

pub remove_bit-IsWord : (k s : ℕ) → IsWord s → IsWord (remove_bit k s)
unfolding remove_bit
remove_bit-IsWord k s w = ground (arith, bit_and-le s (complement (2 ^ k)))

pub difference-IsWord : (s t : ℕ) → IsWord s → IsWord (difference s t)
unfolding difference
difference-IsWord s t w = omega (arith, bit_and-le s (complement t))

-- Adding a signal adds that signal and no other.
pub contain_bit-add_bit :
    (k s j : ℕ) → IsWord s → contain_bit (add_bit k s) j ≡ (contain_bit s j || (k == j && ltb k 64))
contain_bit-add_bit k s j w =
    rw (contain_bit-eq-bit (add_bit k s) j (add_bit-IsWord k s w), contain_bit-eq-bit s j w)
      (unfold add_bit in ground (arith, bit-bit_or s (2 ^ k) j, bit-pow k j, bit-le s j))

-- Removing a signal removes that signal and no other.
pub contain_bit-remove_bit :
    (k s j : ℕ) → IsWord s → contain_bit (remove_bit k s) j ≡ (contain_bit s j && not (k == j))
contain_bit-remove_bit k s j w =
    rw (contain_bit-eq-bit (remove_bit k s) j (remove_bit-IsWord k s w), contain_bit-eq-bit s j w)
      (unfold remove_bit in
        elim (Bool-cases (ltb k 64)) [
          | inl lt ↦
              rw (lt, bit-and_complement s (2 ^ k) j w (pow-lt k 64 (ground arith)))
                (ground (arith, bit-pow k j))
          | inr ge ↦ rw ge (ground (arith, bit-beyond 64 s j w))
        ])

-- The difference holds what is in the first set and not in the second.
pub contain_bit-difference :
    (s t j : ℕ)
    → IsWord s
    → IsWord t
    → contain_bit (difference s t) j ≡ (contain_bit s j && not (contain_bit t j))
contain_bit-difference s t j w v =
    rw
      (
        contain_bit-eq-bit (difference s t) j (difference-IsWord s t w),
        contain_bit-eq-bit s j w,
        contain_bit-eq-bit t j v,
      )
      (unfold difference in bit-and_complement s t j w v)

-- `find_first_one` gives the lowest signal that is in the set and not in the mask, and nothing exactly
-- if there is none.
pub data First (s mask : ℕ) : Option ℕ → Type 0 where
  nothing : ((j : ℕ) → (contain_bit s j && not (contain_bit mask j)) ≡ false) → First s mask none
  lowest :
      (k : ℕ)
      → k < 64
      → contain_bit s k ≡ true
      → contain_bit mask k ≡ false
      → ((j : ℕ) → j < k → (contain_bit s j && not (contain_bit mask j)) ≡ false)
      → First s mask (some k)

contain_bit-zero : (j : ℕ) → contain_bit 0 j ≡ false
unfolding contain_bit
contain_bit-zero j = ground (arith, bit_and-le 0 (2 ^ j))

nothing_left :
    (s mask j : ℕ)
    → IsWord s
    → IsWord mask
    → difference s mask ≡ 0
    → (contain_bit s j && not (contain_bit mask j)) ≡ false
nothing_left s mask j w v z = rw (sym (contain_bit-difference s mask j w v), z) (contain_bit-zero j)

pub find_first_one-First :
    (s mask : ℕ) → IsWord s → IsWord mask → First s mask (find_first_one s mask)
unfolding find_first_one
find_first_one-First s mask w v = elim (Bool-cases (difference s mask == 0)) [
  | inl e ↦
      (let z : difference s mask ≡ 0 = ground arith in
        rw e (nothing (λ j. nothing_left s mask j w v (ground arith))))
  | inr e ↦
      (let word = difference-IsWord s mask w in
        let (found, within, least) =
          trailing_zeros_lem 64 (difference s mask) word (λ z. ground arith) in
        let k = trailing_zeros 64 (difference s mask) in
        let held : (contain_bit s k && not (contain_bit mask k)) ≡ true = ground (
          arith,
          contain_bit-difference s mask k w v,
          contain_bit-eq-bit (difference s mask) k word,
        ) in
        rw e (
          lowest k within (ground (arith, held)) (ground (arith, held)) (λ j lt. ground (
            arith,
            contain_bit-difference s mask j w v,
            contain_bit-eq-bit (difference s mask) j word,
            least j lt,
          ))))
]
