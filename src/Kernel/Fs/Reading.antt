-- ===== src/Kernel/Fs/Reading.antt =====
-- ch8/src/main.rs: `fs::read_all` gives the whole file.
use spec_to_rust_os.Prelude.{
  ℕ, zero, suc, ◌+◌, ◌<◌, ◌≡◌, refl, sym, ap, ◌∙◌, some, List, [], ◌∷◌, ◌++◌, ◌==◌, length, take,
  drop, Bool-cases, inl, inr, arith, length-append,
}
use mathlib.Core.List.{append_assoc, append-nil}
use spec_to_rust_os.EasyFs.Disk.{Disk}
use spec_to_rust_os.EasyFs.DiskInode.{DiskInode}
use spec_to_rust_os.EasyFs.Vfs as Vfs
use spec_to_rust_os.EasyFs.File.{Inode, ReadLaw, FileHandle, drop-add, empty_of_take}
use spec_to_rust_os.Kernel.Fs.{read_chunks, read_all}

take-drop : (n : ℕ) (l : List ℕ) → take n l ++ drop (length (take n l)) l ≡ l
take-drop zero l = refl
take-drop (suc n) [] = refl
take-drop (suc n) (x ∷ l) = ap (λ r. x ∷ r) (take-drop n l)

module _ {S : Type 0} (inode : Inode S) (s : S) (law : ReadLaw inode s) where
  read_chunks_lem :
      (fuel offset : ℕ) (content : List ℕ)
      → content ++ drop offset law.contents ≡ law.contents
      → length (drop offset law.contents) < fuel
      → read_chunks inode s fuel offset content ≡ some law.contents
  unfolding read_chunks
  read_chunks_lem zero offset content whole short = absurd (omega arith)
  read_chunks_lem (suc fuel) offset content whole short =
      let rest = drop offset law.contents in
      let chunk = take 512 rest in
      let law_here = law.read_at-contents offset 512 in
      elim (Bool-cases (length chunk == 0)) [
        | inl over ↦
            (let ended : rest ≡ [] = empty_of_take 512 rest (omega arith) (ground (arith, over)) in
              let all : content ≡ law.contents = sym (append-nil content) ∙ (rw ended at whole) in
              rw (read_chunks, law_here, over) (ap some all))
        | inr more ↦
            (let step : drop (offset + length chunk) law.contents ≡ drop (length chunk) rest =
                drop-add offset (length chunk) law.contents in
              let parts : length chunk + length (drop (length chunk) rest) ≡ length rest =
                sym (length-append chunk (drop (length chunk) rest))
                ∙ ap length (take-drop 512 rest) in
              let whole' : (content ++ chunk) ++ drop (offset + length chunk) law.contents
                  ≡ law.contents =
                rw step (
                  append_assoc content chunk (drop (length chunk) rest)
                  ∙ ap (λ r. content ++ r) (take-drop 512 rest)
                  ∙ whole) in
              rw (read_chunks, law_here, more)
                (read_chunks_lem fuel (offset + length chunk) (content ++ chunk) whole'
                  (rw step (ground arith))))
      ]

  -- On an inode that reads from a sequence of bytes, more steps than there are bytes are fuel enough for `read_all`, whose result is then the whole file.
  pub read_all_lem :
      (fuel : ℕ) (file : FileHandle S)
      → file.inode ≡ some inode
      → length law.contents < fuel
      → read_all fuel s file ≡ some law.contents
  unfolding read_all
  read_all_lem fuel file e enough = rw (read_all, e) (read_chunks_lem fuel 0 [] refl enough)
