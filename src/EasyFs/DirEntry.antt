-- ===== src/EasyFs/DirEntry.antt =====
-- easy-fs/src/layout.rs: `DirEntry`, a name of at most 27 bytes with its terminator, and an inode number.
-- A string is its bytes; which bytes are a string (`core::str::from_utf8`) is a parameter, `is_utf8`.
use spec_to_rust_os.Prelude.{
  ℕ, zero, suc, ◌+◌, ◌-◌, ◌≤◌, ◌<◌, ◌^◌, ◌≡◌, refl, sym, ap, ◌∙◌, Bool, true, false, Option, none,
  some, List, [], ◌∷◌, ◌++◌, leb, ◌==◌, if◌then◌else◌, length, take, drop, replicate, length-append,
  length-replicate, arith,
}
use spec_to_rust_os.Prelude.Panic.{Outcome, returned, panicked}
use spec_to_rust_os.EasyFs.Disk.{word_bytes, bytes_word, bytes_word-word_bytes}

abbrev pub name_length_limit : ℕ
name_length_limit = 27

abbrev pub dirent_sz : ℕ
dirent_sz = 32

pub record DirEntry : Type 0 where
  pub name_bytes : List ℕ
  pub inode_number : ℕ

unfoldable pub empty : DirEntry
empty = record { name_bytes = replicate 28 0; inode_number = 0 }

-- The name is copied over the first bytes of 28 zeros; a name that does not fit is a panic.
unfoldable pub new : List ℕ → ℕ → Outcome DirEntry
new name inode_number =
    if leb (length name) (name_length_limit + 1)
    then returned (record {
      name_bytes = name ++ replicate (28 - length name) 0;
      inode_number = inode_number;
    })
    else panicked

-- The position of the first zero.
unfoldable pub position : List ℕ → Option ℕ
position [] = none
position (c ∷ cs) =
    let rest = position cs in
    if c == 0 then some 0 else elim rest [ none ↦ none | some i ↦ some (suc i) ]

unfoldable pub name : (List ℕ → Bool) → DirEntry → Outcome (List ℕ)
name is_utf8 d =
    let len : ℕ = elim (position d.name_bytes) [ none ↦ name_length_limit | some i ↦ i ] in
    let s = take len d.name_bytes in if is_utf8 s then returned s else panicked

-- The record in memory: the name, then the number in four bytes.
unfoldable pub as_bytes : DirEntry → List ℕ
as_bytes d = d.name_bytes ++ word_bytes 4 d.inode_number

-- What the record is once its bytes are read into it through `as_bytes_mut`.
unfoldable pub as_bytes_mut : List ℕ → DirEntry
as_bytes_mut bytes = record {
  name_bytes = take 28 bytes;
  inode_number = bytes_word (drop 28 bytes);
}

-- Bytes none of which is the terminator.
abbrev pub IsPlain : List ℕ → Type 0
IsPlain [] = zero ≤ zero
IsPlain (c ∷ cs) = ((c == 0) ≡ false) × IsPlain cs

position-plain :
    (s : List ℕ) (n : ℕ) → IsPlain s → position (s ++ replicate (suc n) 0) ≡ some (length s)
unfolding position
position-plain [] n p = refl
position-plain (c ∷ s) n (plain, p) = rw (plain, position-plain s n p) refl

take-append : (s rest : List ℕ) → take (length s) (s ++ rest) ≡ s
take-append [] rest = refl
take-append (c ∷ s) rest = ap (λ l. c ∷ l) (take-append s rest)

drop-append : (s rest : List ℕ) → drop (length s) (s ++ rest) ≡ rest
drop-append [] rest = refl
drop-append (c ∷ s) rest = drop-append s rest

take-append_of : (n : ℕ) (s rest : List ℕ) → length s ≡ n → take n (s ++ rest) ≡ s
take-append_of n s rest e = rw (sym e) (take-append s rest)

drop-append_of : (n : ℕ) (s rest : List ℕ) → length s ≡ n → drop n (s ++ rest) ≡ rest
drop-append_of n s rest e = rw (sym e) (drop-append s rest)

length-as_bytes : (d : DirEntry) → length d.name_bytes ≡ 28 → length (as_bytes d) ≡ dirent_sz
unfolding as_bytes
length-as_bytes d full =
    omega (arith, full, length-append d.name_bytes (word_bytes 4 d.inode_number))

as_bytes_mut-as_bytes :
    (d : DirEntry)
    → length d.name_bytes ≡ 28
    → d.inode_number < 256 ^ 4
    → as_bytes_mut (as_bytes d) ≡ d
unfolding as_bytes_mut as_bytes
as_bytes_mut-as_bytes d full small =
    let left = take-append_of 28 d.name_bytes (word_bytes 4 d.inode_number) full in
    let right : bytes_word (drop 28 (d.name_bytes ++ word_bytes 4 d.inode_number))
        ≡ d.inode_number =
      ap bytes_word (drop-append_of 28 d.name_bytes (word_bytes 4 d.inode_number) full)
      ∙ bytes_word-word_bytes 4 d.inode_number small in
    rw (as_bytes_mut, as_bytes, left, right) refl

name-some :
    (is_utf8 : List ℕ → Bool) (d : DirEntry) (n : ℕ) (s : List ℕ)
    → position d.name_bytes ≡ some n
    → take n d.name_bytes ≡ s
    → is_utf8 s ≡ true
    → name is_utf8 d ≡ returned s
unfolding name
name-some is_utf8 d n s at e valid = rw (name, at, e, valid) refl

-- The entry for a name of at most 27 bytes without a zero gives the name and the number back, directly and
-- once its 32 bytes are written and read again.
pub name-new :
    (is_utf8 : List ℕ → Bool) (s : List ℕ) (i : ℕ)
    → length s ≤ name_length_limit
    → IsPlain s
    → is_utf8 s ≡ true
    → i < 256 ^ 4
    → (d : DirEntry) × (new s i ≡ returned d)
      × (name is_utf8 d ≡ returned s)
      × (d.inode_number ≡ i)
      × (length (as_bytes d) ≡ dirent_sz)
      × (as_bytes_mut (as_bytes d) ≡ d)
unfolding new
name-new is_utf8 s i fits plain valid small =
    let bytes = s ++ replicate (28 - length s) 0 in
    let full : length bytes ≡ 28 = omega (
      arith,
      length-append s (replicate (28 - length s) 0),
      length-replicate {A = ℕ} (28 - length s) 0,
    ) in
    let terminated : 28 - length s ≡ suc (27 - length s) = omega arith in
    let at : position bytes ≡ some (length s) =
      rw terminated (position-plain s (27 - length s) plain) in
    let d : DirEntry = record { name_bytes = bytes; inode_number = i } in
    (
      d,
      ground (arith, fits),
      name-some is_utf8 d (length s) s at (take-append s (replicate (28 - length s) 0)) valid,
      refl,
      length-as_bytes d full,
      as_bytes_mut-as_bytes d full small,
    )
