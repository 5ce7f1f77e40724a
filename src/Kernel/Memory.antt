-- ===== src/Kernel/Memory.antt =====
-- ch8/src/main.rs: access to the memory of the user, `read_user_bytes`, `write_user_bytes` and
-- `read_user_cstr`.
use spec_to_rust_os.Prelude.{
  ℕ, zero, suc, ◌+◌, ◌%◌, ◌^◌, ◌<◌, ◌≡◌, ◌≢◌, refl, ◌∙◌, Bool, true, false, Option, none, some,
  List, [], ◌∷◌, ◌++◌, ◌==◌, if◌then◌else◌, length, arith,
}
use spec_to_rust_os.Kernel.Vm.{Vm, IsMemory, r, w}

abbrev pub user_cstr_max : ℕ
user_cstr_max = 4096

-- The address of byte `i`.
abbrev pub address : ℕ → ℕ → ℕ
address ptr i = (ptr + i) % 2 ^ 64

module _ {Sp Mem : Type 0} (vm : Vm Sp Mem) (space : Sp) (ptr : ℕ) where
  -- The loop from byte `i` on.
  unfoldable pub read_bytes : ℕ → ℕ → Mem → Option (List ℕ)
  read_bytes i zero mem = some []
  read_bytes i (suc n) mem =
      let rest = read_bytes (suc i) n mem in
      elim (vm.translate space (address ptr i) r) [
        | none ↦ none
        | some src ↦ elim rest [ none ↦ none | some bytes ↦ some (vm.load src mem ∷ bytes) ]
      ]

  unfoldable pub read_user_bytes : ℕ → Mem → Option (List ℕ)
  read_user_bytes n mem = read_bytes 0 n mem

  unfoldable pub write_bytes : ℕ → List ℕ → Mem → Bool × Mem
  write_bytes i [] mem = (true, mem)
  write_bytes i (byte ∷ content) mem = elim (vm.translate space (address ptr i) w) [
    | none ↦ (false, mem)
    | some dst ↦ write_bytes (suc i) content (vm.store dst byte mem)
  ]

  -- The bytes before the first page that cannot be written stay written.
  unfoldable pub write_user_bytes : List ℕ → Mem → Bool × Mem
  write_user_bytes content mem = write_bytes 0 content mem

  -- `is_utf8` is the test of `String::from_utf8`.
  unfoldable pub read_cstr : (List ℕ → Bool) → ℕ → ℕ → List ℕ → Mem → Option (List ℕ)
  read_cstr is_utf8 i zero buf mem = none
  read_cstr is_utf8 i (suc n) buf mem = elim (vm.translate space (address ptr i) r) [
    | none ↦ none
    | some src ↦
        (let b = vm.load src mem in
          let rest = read_cstr is_utf8 (suc i) n (buf ++ b ∷ []) mem in
          if b == 0 then (if is_utf8 buf then some buf else none) else rest)
  ]

  unfoldable pub read_user_cstr : (List ℕ → Bool) → Mem → Option (List ℕ)
  read_user_cstr is_utf8 mem = read_cstr is_utf8 0 user_cstr_max [] mem

  -- The page table maps the bytes from `i` on, `n` in number, for reading and for writing, each to a
  -- place of its own, which the function gives.
  pub record Mapped (n : ℕ) (place : ℕ → ℕ) : Type 0 where
    pub readable : (i : ℕ) → i < n → vm.translate space (address ptr i) r ≡ some (place i)
    pub writable : (i : ℕ) → i < n → vm.translate space (address ptr i) w ≡ some (place i)
    pub apart : (i j : ℕ) → i < n → j < n → place i ≡ place j → i ≡ j

  -- The memory after the write.
  written : (ℕ → ℕ) → ℕ → List ℕ → Mem → Mem
  written place i [] mem = mem
  written place i (byte ∷ content) mem = written place (suc i) content (vm.store (place i) byte mem)

  write_bytes_lem :
      (n : ℕ) (place : ℕ → ℕ) (i : ℕ) (content : List ℕ) (mem : Mem)
      → Mapped n place
      → i + length content ≡ n
      → write_bytes i content mem ≡ (true, written place i content mem)
  unfolding write_bytes written
  write_bytes_lem n place i [] mem ok len = refl
  write_bytes_lem n place i (byte ∷ content) mem ok len =
      rw (write_bytes, ok.writable i (omega arith))
        (write_bytes_lem n place (suc i) content (vm.store (place i) byte mem) ok (omega arith))

  -- A later write leaves the places before it alone.
  written_before :
      (law : IsMemory vm) (n : ℕ) (place : ℕ → ℕ) (i j : ℕ) (content : List ℕ) (mem : Mem)
      → Mapped n place
      → i + length content ≡ n
      → j < i
      → vm.load (place j) (written place i content mem) ≡ vm.load (place j) mem
  unfolding written
  written_before law n place i j [] mem ok len lt = refl
  written_before law n place i j (byte ∷ content) mem ok len lt =
      let other : place i ≢ place j =
        λ q. absurd (omega (arith, ok.apart i j (omega arith) (omega arith) q)) in
      written_before law n place (suc i) j content (vm.store (place i) byte mem) ok (omega arith)
        (omega arith)
      ∙ law.load-store (place i) (place j) byte mem
      ∙ ground arith

  read_written :
      (law : IsMemory vm) (n : ℕ) (place : ℕ → ℕ) (i : ℕ) (content : List ℕ) (mem : Mem)
      → Mapped n place
      → i + length content ≡ n
      → read_bytes i (length content) (written place i content mem) ≡ some content
  unfolding read_bytes written
  read_written law n place i [] mem ok len = refl
  read_written law n place i (byte ∷ content) mem ok len =
      let mem' = vm.store (place i) byte mem in
      let here : vm.load (place i) (written place (suc i) content mem') ≡ byte =
        written_before law n place (suc i) i content mem' ok (omega arith) (omega arith)
        ∙ law.load-store (place i) (place i) byte mem
        ∙ ground arith in
      rw
        (
          read_bytes,
          ok.readable i (omega arith),
          read_written law n place (suc i) content mem' ok (omega arith),
          here,
        )
        refl

  -- What is written to a part of the memory that the page table maps byte by byte is read back.
  pub read_user_bytes-write_user_bytes :
      (law : IsMemory vm) (content : List ℕ) (place : ℕ → ℕ) (mem : Mem)
      → Mapped (length content) place
      → ((write_user_bytes content mem).0 ≡ true)
        × (read_user_bytes (length content) (write_user_bytes content mem).1 ≡ some content)
  unfolding write_user_bytes read_user_bytes
  read_user_bytes-write_user_bytes law content place mem ok =
      let e = write_bytes_lem (length content) place 0 content mem ok (omega arith) in
      rw e (refl, read_written law (length content) place 0 content mem ok (omega arith))
