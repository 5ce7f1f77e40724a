-- ===== src/EasyFs/Disk.antt =====
-- easy-fs/src/block_dev.rs and the typed views of a block that easy-fs/src/layout.rs uses. A disk gives
-- the bytes of a block; the closures of `BlockCache::read` and `modify` see them as words in
-- little-endian order.
use native.Mathlib.Nat.{pow-suc, pow-zero}
use spec_to_rust_os.Prelude.{
  ℕ, zero, suc, ◌+◌, ◌*◌, ◌/◌, ◌%◌, ◌^◌, ◌≤◌, ◌<◌, ◌≡◌, refl, ap, List, [], ◌∷◌, ◌++◌, ◌==◌,
  if◌then◌else◌, length, take, drop, arith,
}

abbrev pub block_sz : ℕ
block_sz = 512

abbrev pub Disk : Type 0
Disk = ℕ → List ℕ

unfoldable pub write_block : ℕ → List ℕ → Disk → Disk
write_block id bytes disk = λ j. if j == id then bytes else disk j

-- A word of `k` bytes.
abbrev pub word_bytes : ℕ → ℕ → List ℕ
word_bytes zero v = []
word_bytes (suc k) v = v % 256 ∷ word_bytes k (v / 256)

abbrev pub bytes_word : List ℕ → ℕ
bytes_word [] = 0
bytes_word (b ∷ bs) = b + 256 * bytes_word bs

-- `n` words of `k` bytes each.
abbrev pub as_words : ℕ → ℕ → List ℕ → List ℕ
as_words k zero bytes = []
as_words k (suc n) bytes = bytes_word (take k bytes) ∷ as_words k n (drop k bytes)

abbrev pub as_bytes : ℕ → List ℕ → List ℕ
as_bytes k [] = []
as_bytes k (w ∷ ws) = word_bytes k w ++ as_bytes k ws

abbrev pub AreWords : ℕ → List ℕ → Type 0
AreWords k [] = zero ≤ k
AreWords k (w ∷ ws) = (w < 256 ^ k) × AreWords k ws

pub bytes_word-word_bytes : (k v : ℕ) → v < 256 ^ k → bytes_word (word_bytes k v) ≡ v
bytes_word-word_bytes zero v h = omega (arith, pow-zero 256)
bytes_word-word_bytes (suc k) v h =
    omega (arith, bytes_word-word_bytes k (v / 256) (omega (arith, pow-suc 256 k)))

take-word_bytes : (k v : ℕ) (rest : List ℕ) → take k (word_bytes k v ++ rest) ≡ word_bytes k v
take-word_bytes zero v rest = refl
take-word_bytes (suc k) v rest = ap (λ l. v % 256 ∷ l) (take-word_bytes k (v / 256) rest)

drop-word_bytes : (k v : ℕ) (rest : List ℕ) → drop k (word_bytes k v ++ rest) ≡ rest
drop-word_bytes zero v rest = refl
drop-word_bytes (suc k) v rest = drop-word_bytes k (v / 256) rest

-- The words that a closure leaves in a block are the words that the next one finds.
pub as_words-as_bytes :
    (k : ℕ) (ws : List ℕ) → AreWords k ws → as_words k (length ws) (as_bytes k ws) ≡ ws
as_words-as_bytes k [] h = refl
as_words-as_bytes k (w ∷ ws) (lt, h) =
    rw
      (
        take-word_bytes k w (as_bytes k ws),
        drop-word_bytes k w (as_bytes k ws),
        bytes_word-word_bytes k w lt,
        as_words-as_bytes k ws h,
      )
      refl

append_assoc : (xs ys zs : List ℕ) → (xs ++ ys) ++ zs ≡ xs ++ (ys ++ zs)
append_assoc [] ys zs = refl
append_assoc (x ∷ xs) ys zs = ap (λ l. x ∷ l) (append_assoc xs ys zs)

-- The same where other bytes follow.
pub as_words-append :
    (k : ℕ) (ws rest : List ℕ) → AreWords k ws → as_words k (length ws) (as_bytes k ws ++ rest) ≡ ws
as_words-append k [] rest h = refl
as_words-append k (w ∷ ws) rest (lt, h) =
    let more = as_bytes k ws ++ rest in
    rw
      (
        append_assoc (word_bytes k w) (as_bytes k ws) rest,
        take-word_bytes k w more,
        drop-word_bytes k w more,
        bytes_word-word_bytes k w lt,
        as_words-append k ws rest h,
      )
      refl

pub length-as_words : (k n : ℕ) (bytes : List ℕ) → length (as_words k n bytes) ≡ n
length-as_words k zero bytes = refl
length-as_words k (suc n) bytes = ap suc (length-as_words k n (drop k bytes))
