-- ===== src/EasyFs/OnDisk.antt =====
-- easy-fs/src/vfs.rs: a `FileHandle` on an `Inode` of the disk.
use spec_to_rust_os.Prelude.{
  ℕ, zero, suc, ◌+◌, ◌<◌, ◌≡◌, refl, sym, ap, ◌∙◌, Bool, some, List, [], ◌∷◌, length, take, drop,
  get_or, length-take, length-drop, arith,
}
use spec_to_rust_os.Prelude.Panic.{Outcome, returned, panicked}
use spec_to_rust_os.EasyFs.Disk.{Disk}
use spec_to_rust_os.EasyFs.DiskInode.{DiskInode}
use spec_to_rust_os.EasyFs.DiskInode.Reading.{
  HasBlocks, byte, get_or-take, get_or-drop, read_at_lem,
}
use spec_to_rust_os.EasyFs.Efs.{EasyFileSystem}
use spec_to_rust_os.EasyFs.Vfs as Vfs
use spec_to_rust_os.EasyFs.Vfs.{read_disk_inode}
use spec_to_rust_os.EasyFs.File.{Inode, ReadLaw, FileHandle, buffer_len, read, AllSome, read_lem}

-- A panic, which ends the kernel, has no result; `a` stands for it.
abbrev or_else : {A : Type 0} → A → Outcome A → A
or_else a panicked = a
or_else a (returned b) = b

-- The operations that a handle uses, of an inode on the disk.
abbrev pub on_disk : (List ℕ → Bool) → EasyFileSystem → Vfs.Inode → Inode Disk
on_disk is_utf8 efs inode = record {
  read_at = λ disk offset n. or_else [] (Vfs.read_at inode offset n disk);
  write_at = λ disk offset buf. or_else (0, disk) (Vfs.write_at efs inode offset buf disk);
  clear = λ disk. or_else disk (Vfs.clear efs inode disk);
  readdir = λ disk. or_else [] (Vfs.readdir is_utf8 inode disk);
}

-- `n` values from `start` on.
abbrev values : (ℕ → ℕ) → ℕ → ℕ → List ℕ
values f start zero = []
values f start (suc n) = f start ∷ values f (suc start) n

-- The bytes of a file.
abbrev pub file_bytes : DiskInode → (ℕ → ℕ) → Disk → List ℕ
file_bytes d blocks disk = values (byte blocks disk) 0 d.size

length-values : (f : ℕ → ℕ) (start n : ℕ) → length (values f start n) ≡ n
length-values f start zero = refl
length-values f start (suc n) = ap suc (length-values f (suc start) n)

pub length-file_bytes :
    (d : DiskInode) (blocks : ℕ → ℕ) (disk : Disk) → length (file_bytes d blocks disk) ≡ d.size
length-file_bytes d blocks disk = length-values (byte blocks disk) 0 d.size

get_or-values : (f : ℕ → ℕ) (start n i : ℕ) → i < n → get_or (values f start n) i 0 ≡ f (start + i)
get_or-values f start zero i lt = absurd (omega arith)
get_or-values f start (suc n) zero lt = let e : start ≡ start + 0 = omega arith in ap f e
get_or-values f start (suc n) (suc i) lt =
    let e : suc start + i ≡ start + suc i = omega arith in
    get_or-values f (suc start) n i (omega arith) ∙ ap f e

list_ext :
    (xs ys : List ℕ)
    → length xs ≡ length ys
    → ((i : ℕ) → i < length xs → get_or xs i 0 ≡ get_or ys i 0)
    → xs ≡ ys
list_ext [] [] e h = refl
list_ext [] (y ∷ ys) e h = absurd (omega (arith, e))
list_ext (x ∷ xs) [] e h = absurd (omega (arith, e))
list_ext (x ∷ xs) (y ∷ ys) e h =
    ap (λ a. a ∷ xs) (h 0 (omega arith))
    ∙ ap (λ l. y ∷ l) (list_ext xs ys (omega (arith, e)) (λ i lt. h (suc i) (omega arith)))

module _ (inode : Vfs.Inode) (d : DiskInode) (disk : Disk) (blocks : ℕ → ℕ)
    (there : read_disk_inode inode disk ≡ returned d) (ok : HasBlocks d disk blocks) where
  pub read_at-file_bytes :
      (offset n : ℕ)
      → Vfs.read_at inode offset n disk ≡ returned (take n (drop offset (file_bytes d blocks disk)))
  unfolding Vfs.read_at
  read_at-file_bytes offset n =
      let (bytes, e, size, reads) = read_at_lem d disk blocks ok offset n in
      let all = file_bytes d blocks disk in
      let whole : length all ≡ d.size = length-file_bytes d blocks disk in
      let same : length bytes ≡ length (take n (drop offset all)) =
        omega (arith, size, whole, length-take n (drop offset all), length-drop offset all) in
      let from_0 : (i : ℕ) → 0 + (offset + i) ≡ offset + i = λ i. omega arith in
      let each : (i : ℕ)
          → i < length bytes
          → get_or bytes i 0 ≡ get_or (take n (drop offset all)) i 0 =
        λ i lt.
          reads i (omega (arith, size))
          ∙ sym (
              get_or-take n i (drop offset all) (omega (arith, size))
              ∙ get_or-drop offset i all
              ∙ get_or-values (byte blocks disk) 0 d.size (offset + i) (omega (arith, size))
              ∙ ap (byte blocks disk) (from_0 i)) in
      rw (Vfs.read_at, there, e) (ap returned (list_ext bytes (take n (drop offset all)) same each))

  abbrev pub on_disk-ReadLaw :
      (is_utf8 : List ℕ → Bool) (efs : EasyFileSystem) → ReadLaw (on_disk is_utf8 efs inode) disk
  on_disk-ReadLaw is_utf8 efs = record {
    contents = file_bytes d blocks disk;
    read_at-contents = λ offset n. ap (or_else []) (read_at-file_bytes offset n);
  }

  -- A read through a handle on a file of the disk, whose inode is there with its blocks, into slices that
  -- are not empty gives what there is of the bytes of the file from the offset on, as far as the slices
  -- reach, and moves the offset by that much; no read of the inode panics.
  pub read-on_disk :
      (is_utf8 : List ℕ → Bool) (efs : EasyFileSystem) (buffers : List ℕ) (h : FileHandle Disk)
      → AllSome buffers
      → h.inode ≡ some (on_disk is_utf8 efs inode)
      → let bytes = take (buffer_len buffers) (drop h.offset (file_bytes d blocks disk)) in
        (read disk buffers h ≡ (bytes, record h { offset = h.offset + length bytes }))
        × ((offset n : ℕ)
            → Vfs.read_at inode offset n disk
              ≡ returned (take n (drop offset (file_bytes d blocks disk))))
  read-on_disk is_utf8 efs buffers h some_room open_file = (
    read_lem (on_disk is_utf8 efs inode) disk (on_disk-ReadLaw is_utf8 efs) buffers h some_room
        open_file,
    read_at-file_bytes,
  )
