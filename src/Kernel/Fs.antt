-- ===== src/Kernel/Fs.antt =====
-- ch8/src/main.rs: the module `fs`, over the interface of the root directory of easy-fs, and the flags
-- of easy-fs/src/vfs.rs that it tests. A path is its bytes.
pub mod Reading
use spec_to_rust_os.Prelude.{
  ℕ, zero, suc, ◌+◌, ◌/◌, ◌%◌, ◌^◌, ◌≤◌, ◌<◌, ◌≡◌, refl, sym, ap, ◌∙◌, Bool, true, false, ◌||◌,
  Option, none, some, List, [], ◌∷◌, ◌++◌, ◌==◌, if◌then◌else◌, length, take, drop, Bool-cases, inl,
  inr, arith, length-append,
}
use Prim.Native.Nat.{bit_and}
use spec_to_rust_os.EasyFs.File
use spec_to_rust_os.EasyFs.File.{Inode, FileHandle, read_write}

-- What the kernel uses of the root inode.
pub record Directory (S : Type 0) : Type 0 where
  pub inode : Inode S
  pub find : S → List ℕ → Option (Inode S)
  pub create : S → List ℕ → Option (Inode S) × S

abbrev pub rdonly : ℕ
rdonly = 0

-- `OpenFlags::CREATE` is bit 9 and `OpenFlags::TRUNC` bit 10.
abbrev pub contains_create : ℕ → Bool
contains_create flags = (flags / 2 ^ 9) % 2 == 1

abbrev pub contains_trunc : ℕ → Bool
contains_trunc flags = (flags / 2 ^ 10) % 2 == 1

-- `OpenFlags::from_bits_truncate` keeps bits 0, 1, 9 and 10, which have a name.
abbrev pub from_bits_truncate : ℕ → ℕ
from_bits_truncate flags = bit_and flags 1539

-- `path == "/" || path == "." || path.is_empty()`
unfoldable pub is_root : List ℕ → Bool
is_root [] = true
is_root (c ∷ []) = (c == 47) || (c == 46)
is_root (c ∷ d ∷ rest) = false

module _ {S : Type 0} (root : Directory S) where
  -- The handle of an inode that is found, which is cleared if `trunc`.
  abbrev handle_on : Bool → Bool → Bool → Inode S → S → Option (FileHandle S) × S
  handle_on readable writable trunc inode s =
      (some (File.new readable writable inode), if trunc then inode.clear s else s)

  abbrev on_created : Bool → Bool → Option (Inode S) × S → Option (FileHandle S) × S
  on_created readable writable (none, s) = (none, s)
  on_created readable writable (some inode, s) = (some (File.new readable writable inode), s)

  unfoldable pub open_file : List ℕ → ℕ → S → Option (FileHandle S) × S
  open_file path flags s =
      let (readable, writable) = read_write flags in
      if is_root path
      then (some (File.new readable writable root.inode), s)
      else if contains_create flags
      then elim (root.find s path) [
        | some inode ↦ handle_on readable writable true inode s
        | none ↦ on_created readable writable (root.create s path)
      ]
      else elim (root.find s path) [
        | some inode ↦ handle_on readable writable (contains_trunc flags) inode s
        | none ↦ (none, s)
      ]

  unfoldable pub find : List ℕ → S → Option (Inode S)
  find path s = if is_root path then some root.inode else root.find s path

  unfoldable pub readdir : List ℕ → S → Option (List (List ℕ))
  readdir path s =
      if is_root path
      then some (root.inode.readdir s)
      else elim (root.find s path) [ none ↦ none | some inode ↦ some (inode.readdir s) ]

-- The loop of `read_all`, on fuel.
unfoldable pub read_chunks : {S : Type 0} → Inode S → S → ℕ → ℕ → List ℕ → Option (List ℕ)
read_chunks inode s zero offset content = none
read_chunks inode s (suc fuel) offset content =
    let chunk = inode.read_at s offset 512 in
    let later = read_chunks inode s fuel (offset + length chunk) (content ++ chunk) in
    if length chunk == 0 then some content else later

unfoldable pub read_all : {S : Type 0} → ℕ → S → FileHandle S → Option (List ℕ)
read_all fuel s file = elim file.inode [
  | none ↦ some []
  | some inode ↦ read_chunks inode s fuel 0 []
]
