-- ===== src/Prelude/Bits.antt =====
-- Binary digits of native numbers: the digit laws of `bit_and` and `bit_or`, of a complement within
-- a width, and of the lowest one.
use Prim.Native.Nat.{
  ℕ, zero, suc, ◌+◌, ◌-◌, ◌*◌, ◌/◌, ◌%◌, ◌^◌, ◌≤◌, ◌<◌, min, max, bit_and, bit_or, digits,
  bit_and-bitwise, bit_or-bitwise,
}
use mathlib.Core.Path.{◌≡◌, refl, ◌∙◌}
use mathlib.Core.Logic.{◌≢◌, inl, inr}
use native.Mathlib.Nat.{pow-suc, pow-zero}
use native.Mathlib.Omega.{arith}
use spec_to_rust_os.Prelude.Tests.{leb, leb→le, ◌==◌, if◌then◌else◌, Bool-cases}

-- The digit of `x` at position `k`, which is 0 or 1.
abbrev pub bit : ℕ → ℕ → ℕ
bit x zero = x % 2
bit x (suc k) = bit (x / 2) k

pub bit-le : (x k : ℕ) → bit x k ≤ 1
bit-le x zero = omega arith
bit-le x (suc k) = bit-le (x / 2) k

-- Both operations go through the digits of the first number with a bound on their count; a larger bound
-- changes nothing.
module _ (last : ℕ → ℕ) (op : ℕ → ℕ → ℕ) where
  one_more : (n x y : ℕ) → x ≤ n → digits last op (suc n) x y ≡ digits last op n x y
  one_more zero zero y le = refl
  one_more zero (suc x) y le = absurd (omega arith)
  one_more (suc n) zero y le = refl
  one_more (suc n) (suc x) y le = omega (arith, one_more n (suc x / 2) (y / 2) (omega arith))

  enough : (n x y : ℕ) → x ≤ n → digits last op n x y ≡ digits last op x x y
  enough zero zero y le = refl
  enough zero (suc x) y le = absurd (omega arith)
  enough (suc n) x y le = elim (Bool-cases (leb x n)) [
    | inl below ↦ one_more n x y (leb→le x n below) ∙ enough n x y (leb→le x n below)
    | inr top ↦ (let same : x ≡ suc n = ground arith in rw same refl)
  ]

  -- The lowest digits, and the operation on the rest.
  lowest_digit :
      (x y : ℕ)
      → digits last op (suc x) (suc x) y
        ≡ digits last op (suc x / 2) (suc x / 2) (y / 2) * 2 + op (suc x % 2) (y % 2)
  lowest_digit x y = omega (arith, enough x (suc x / 2) (y / 2) (omega arith))

pub bit_and_step : (a b : ℕ) → bit_and a b ≡ bit_and (a / 2) (b / 2) * 2 + min (a % 2) (b % 2)
bit_and_step zero b = omega (arith, bit_and-bitwise 0 b, bit_and-bitwise 0 (b / 2))
bit_and_step (suc x) b =
    let here = bit_and-bitwise (suc x) b in
    let there = bit_and-bitwise (suc x / 2) (b / 2) in
    omega (arith, here, there, lowest_digit (λ y. zero) min x b)

pub bit_or_step : (a b : ℕ) → bit_or a b ≡ bit_or (a / 2) (b / 2) * 2 + max (a % 2) (b % 2)
bit_or_step zero b = omega (arith, bit_or-bitwise 0 b, bit_or-bitwise 0 (b / 2))
bit_or_step (suc x) b =
    let here = bit_or-bitwise (suc x) b in
    let there = bit_or-bitwise (suc x / 2) (b / 2) in
    omega (arith, here, there, lowest_digit (λ y. y) max x b)

half-bit_and : (a b : ℕ) → bit_and a b / 2 ≡ bit_and (a / 2) (b / 2)
half-bit_and a b = omega (arith, bit_and_step a b)

half-bit_or : (a b : ℕ) → bit_or a b / 2 ≡ bit_or (a / 2) (b / 2)
half-bit_or a b = omega (arith, bit_or_step a b)

pub bit-bit_and : (a b k : ℕ) → bit (bit_and a b) k ≡ min (bit a k) (bit b k)
bit-bit_and a b zero = omega (arith, bit_and_step a b)
bit-bit_and a b (suc k) = rw half-bit_and (bit-bit_and (a / 2) (b / 2) k)

pub bit-bit_or : (a b k : ℕ) → bit (bit_or a b) k ≡ max (bit a k) (bit b k)
bit-bit_or a b zero = omega (arith, bit_or_step a b)
bit-bit_or a b (suc k) = rw half-bit_or (bit-bit_or (a / 2) (b / 2) k)

pub bit-zero : (k : ℕ) → bit 0 k ≡ 0
bit-zero zero = refl
bit-zero (suc k) = bit-zero k

-- 1 << k
pub bit-pow : (k j : ℕ) → bit (2 ^ k) j ≡ (if k == j then 1 else 0)
bit-pow zero zero = refl
bit-pow zero (suc j) = rw bit-zero (ground arith)
bit-pow (suc k) zero = ground (arith, pow-suc 2 k)
bit-pow (suc k) (suc j) =
    let h : 2 ^ suc k / 2 ≡ 2 ^ k = omega (arith, pow-suc 2 k) in rw h (ground (arith, bit-pow k j))

-- The complement of `y` in a word of `w` digits.
pub bit-complement : (w y k : ℕ) → y < 2 ^ w → k < w → bit (2 ^ w - 1 - y) k + bit y k ≡ 1
bit-complement zero y k h lt = absurd (omega arith)
bit-complement (suc w) y zero h lt = omega (arith, pow-suc 2 w)
bit-complement (suc w) y (suc k) h lt =
    let e : (2 ^ suc w - 1 - y) / 2 ≡ 2 ^ w - 1 - y / 2 = omega (arith, pow-suc 2 w) in
    rw e (bit-complement w (y / 2) k (omega (arith, pow-suc 2 w)) (omega arith))

-- A word has no digits beyond its width.
pub bit-beyond : (w x k : ℕ) → x < 2 ^ w → w ≤ k → bit x k ≡ 0
bit-beyond zero x k h le = let e : x ≡ 0 = omega (arith, pow-zero 2) in rw e (bit-zero k)
bit-beyond (suc w) x zero h le = absurd (omega arith)
bit-beyond (suc w) x (suc k) h le =
    bit-beyond w (x / 2) k (omega (arith, pow-suc 2 w)) (omega arith)

-- A number below `2 ^ w` all of whose digits are 0 is 0.
pub eq-zero_of_bits : (w x : ℕ) → x < 2 ^ w → ((k : ℕ) → k < w → bit x k ≡ 0) → x ≡ 0
eq-zero_of_bits zero x h z = omega (arith, pow-zero 2)
eq-zero_of_bits (suc w) x h z = omega (
  arith,
  z 0 (omega arith),
  eq-zero_of_bits w (x / 2) (omega (arith, pow-suc 2 w)) (λ k lt. z (suc k) (omega arith)),
)

-- usize::trailing_zeros of a word of `w` digits that is not 0.
unfoldable pub trailing_zeros : ℕ → ℕ → ℕ
trailing_zeros zero x = 0
trailing_zeros (suc w) x = if x % 2 == 1 then 0 else suc (trailing_zeros w (x / 2))

all_zero :
    (t x : ℕ)
    → x % 2 ≡ 0
    → ((j : ℕ) → j < t → bit (x / 2) j ≡ 0)
    → (j : ℕ) → j < suc t
    → bit x j ≡ 0
all_zero t x even h zero lt = even
all_zero t x even h (suc j) lt = h j (omega arith)

pub trailing_zeros_lem :
    (w x : ℕ)
    → x < 2 ^ w
    → x ≢ 0
    → (bit x (trailing_zeros w x) ≡ 1)
      × (trailing_zeros w x < w)
      × ((j : ℕ) → j < trailing_zeros w x → bit x j ≡ 0)
unfolding trailing_zeros
trailing_zeros_lem zero x h n = absurd (omega (arith, pow-zero 2))
trailing_zeros_lem (suc w) x h n = elim (Bool-cases (x % 2 == 1)) [
  | inl one ↦ rw one (ground arith, omega arith, λ j lt. absurd (omega arith))
  | inr more ↦
      (let (found, within, least) =
          trailing_zeros_lem w (x / 2) (omega (arith, pow-suc 2 w)) (λ e. ground arith) in
        rw more (found, omega arith, all_zero (trailing_zeros w (x / 2)) x (ground arith) least))
]

pub pow-pos : (k : ℕ) → 0 < 2 ^ k
pow-pos zero = omega (arith, pow-zero 2)
pow-pos (suc k) = omega (arith, pow-suc 2 k, pow-pos k)

-- A conjunction is at most either side.
bit_and-bounded : (w a b : ℕ) → a < 2 ^ w → (bit_and a b ≤ a) × (bit_and a b ≤ b)
bit_and-bounded zero a b h =
    let e : a ≡ 0 = omega (arith, pow-zero 2) in
    rw e (omega (arith, bit_and-bitwise 0 b), omega (arith, bit_and-bitwise 0 b))
bit_and-bounded (suc w) a b h =
    let (left, right) = bit_and-bounded w (a / 2) (b / 2) (omega (arith, pow-suc 2 w)) in
    (omega (arith, bit_and_step a b, left), omega (arith, bit_and_step a b, right))

pub below-pow : (a : ℕ) → a < 2 ^ a
below-pow zero = omega (arith, pow-zero 2)
below-pow (suc a) = omega (arith, pow-suc 2 a, below-pow a)

pub bit_and-le : (a b : ℕ) → bit_and a b ≤ a
bit_and-le a b = (bit_and-bounded a a b (below-pow a)).0

bit_and-zero : (a : ℕ) → bit_and a 0 ≡ 0
bit_and-zero a = omega (arith, (bit_and-bounded a a 0 (below-pow a)).1)

-- x & (1 << k)
pub bit_and-pow : (x k : ℕ) → bit_and x (2 ^ k) ≡ bit x k * 2 ^ k
bit_and-pow x zero = omega (arith, bit_and_step x 1, bit_and-zero (x / 2), pow-zero 2)
bit_and-pow x (suc k) =
    let half : 2 ^ k * 2 / 2 ≡ 2 ^ k = omega arith in
    let step : bit_and x (2 ^ k * 2) ≡ bit_and (x / 2) (2 ^ k) * 2 + min (x % 2) (2 ^ k * 2 % 2) =
      rw half at (bit_and_step x (2 ^ k * 2)) in
    rw pow-suc (omega (arith, step, bit_and-pow (x / 2) k))

pub bit_or-lt : (w a b : ℕ) → a < 2 ^ w → b < 2 ^ w → bit_or a b < 2 ^ w
bit_or-lt zero a b h k =
    let e : a ≡ 0 = omega (arith, pow-zero 2) in
    let f : b ≡ 0 = omega (arith, pow-zero 2) in rw (e, f) (omega (arith, pow-zero 2))
bit_or-lt (suc w) a b h k = omega (
  arith,
  bit_or_step a b,
  pow-suc 2 w,
  bit_or-lt w (a / 2) (b / 2) (omega (arith, pow-suc 2 w)) (omega (arith, pow-suc 2 w)),
)

pub pow-lt : (k w : ℕ) → k < w → 2 ^ k < 2 ^ w
pow-lt k zero h = elim h [ ]
pow-lt zero (suc w) h = omega (arith, pow-suc 2 w, pow-pos w, pow-zero 2)
pow-lt (suc k) (suc w) h = omega (arith, pow-suc 2 w, pow-suc 2 k, pow-lt k w (omega arith))
