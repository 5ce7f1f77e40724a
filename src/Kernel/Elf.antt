-- ===== src/Kernel/Elf.antt =====
-- ch8/src/main.rs: `load_user_space_from_elf`, on a file that the ELF library has taken apart.
use spec_to_rust_os.Prelude.{
  ℕ, zero, suc, ◌+◌, ◌-◌, ◌*◌, ◌/◌, ◌%◌, ◌^◌, min, Bool, true, false, not, ◌&&◌, ◌||◌, Option, none,
  some, List, [], ◌∷◌, ◌==◌, ltb, leb, if◌then◌else◌, length, take, drop,
}
use spec_to_rust_os.Prelude.Map
use spec_to_rust_os.Prelude.Map.{Map, lookup}
use spec_to_rust_os.Prelude.Panic.{Outcome, returned, panicked, ◌>>=◌}
use spec_to_rust_os.Kernel.Vm.{Vm, VmFlags, w, vru, vrwu, vrxu, vrwxu}
use spec_to_rust_os.Kernel.Process.{portal_vpn}

abbrev pub page_size : ℕ
page_size = 4096

pub record Access : Type 0 where
  pub reads : Bool
  pub writes : Bool
  pub executes : Bool

-- What the program reads of an entry of the table; `loads` is none where the type is not known.
pub record ProgramHeader : Type 0 where
  pub loads : Option Bool
  pub virtual_addr : ℕ
  pub offset : ℕ
  pub file_size : ℕ
  pub mem_size : ℕ
  pub flags : Access

pub record ElfFile : Type 0 where
  pub executable : Bool
  pub risc_v : Bool
  pub entry_point : ℕ
  pub headers : List ProgramHeader

abbrev pub vpn_start : ProgramHeader → ℕ
vpn_start ph = ph.virtual_addr / 2 ^ 12

abbrev pub vpn_end : ProgramHeader → ℕ
vpn_end ph = ((ph.virtual_addr + ph.mem_size + (page_size - 1)) % 2 ^ 64) / 2 ^ 12

abbrev join_access : Access → Access → Access
join_access a b = record {
  reads = a.reads || b.reads;
  writes = a.writes || b.writes;
  executes = a.executes || b.executes;
}

abbrev no_access : Access
no_access = record { reads = false; writes = false; executes = false }

-- The first pass, which joins the flags of the segments that share a page.
unfoldable pub flag_pages : ℕ → ℕ → Access → Map Access → Map Access
flag_pages vpn zero flags pages = pages
flag_pages vpn (suc n) flags pages =
    flag_pages (suc vpn) n flags
      (Map.modify vpn (λ old. join_access old flags) (Map.or_insert vpn no_access pages))

unfoldable pub page_flags : List ProgramHeader → Map Access → Option (Map Access)
page_flags [] pages = some pages
page_flags (ph ∷ headers) pages =
    let skipped = page_flags headers pages in
    let flagged =
      page_flags headers (flag_pages (vpn_start ph) (vpn_end ph - vpn_start ph) ph.flags pages) in
    elim ph.loads [
      | none ↦ none
      | some loads ↦ if not loads || (ph.mem_size == 0) then skipped else flagged
    ]

-- Flags of a page; a page is readable in any case.
unfoldable pub vm_flags : Option Access → VmFlags
vm_flags none = vru
vm_flags (some a) =
    if a.executes then (if a.writes then vrwxu else vrxu) else (if a.writes then vrwu else vru)

-- `&elf_data[start..start + count]`, which panics out of bounds.
abbrev slice : List ℕ → ℕ → ℕ → Outcome (List ℕ)
slice content start count =
    if leb (start + count) (length content)
    then returned (take count (drop start content))
    else panicked

-- The address space so far, the memory, and the pages that are mapped.
pub record Loading (Sp Mem : Type 0) : Type 0 where
  pub space : Sp
  pub mem : Mem
  pub mapped : List ℕ

unfoldable pub is_mapped : ℕ → List ℕ → Bool
is_mapped vpn [] = false
is_mapped vpn (v ∷ vs) = (v == vpn) || is_mapped vpn vs

module _ {Sp Mem : Type 0} (vm : Vm Sp Mem) where
  -- `copy_nonoverlapping`
  unfoldable pub store_all : ℕ → List ℕ → Mem → Mem
  store_all dst [] mem = mem
  store_all dst (byte ∷ bytes) mem = store_all (suc dst) bytes (vm.store dst byte mem)

  -- The results of the loader: whether it goes on, and what it has made.
  abbrev Step : Type 0
  Step = Outcome (Bool × Loading Sp Mem)

  -- A page that an earlier segment mapped gets the bytes by a copy.
  abbrev copy_bytes : Option ℕ → Outcome (List ℕ) → Loading Sp Mem → Step
  copy_bytes none bytes l = returned (false, l)
  copy_bytes (some dst) bytes l = do
    bytes ← bytes
    returned (true, record l { mem = store_all dst bytes l.mem })

  abbrev map_page : ℕ → ℕ → VmFlags → Outcome (List ℕ) → Loading Sp Mem → Step
  map_page vpn page_offset flags bytes l = do
    bytes ← bytes
    let (space, mem) = vm.map vpn (vpn + 1) bytes page_offset flags l.space l.mem
    returned (true, record { space = space; mem = mem; mapped = vpn ∷ l.mapped })

  unfoldable pub load_page : List ℕ → Map Access → ProgramHeader → ℕ → Loading Sp Mem → Step
  load_page elf_data pages ph vpn l =
      let page_vaddr : ℕ = vpn * 2 ^ 12 in
      let page_offset : ℕ = ph.virtual_addr - page_vaddr in
      let data_start : ℕ = page_vaddr - ph.virtual_addr in
      let copy_len : ℕ = min (ph.file_size - data_start) (page_size - page_offset) in
      let bytes = slice elf_data (ph.offset + data_start) copy_len in
      if is_mapped vpn l.mapped
      then (if ltb data_start ph.file_size && ltb 0 copy_len
          then copy_bytes (vm.translate l.space (page_vaddr + page_offset) w) bytes l
          else returned (true, l))
      else map_page vpn page_offset (vm_flags (lookup vpn pages))
          (if ltb data_start ph.file_size then bytes else returned []) l

  -- The next step, unless one has stopped the loader.
  abbrev next : (Loading Sp Mem → Step) → Bool × Loading Sp Mem → Step
  next f (false, l) = returned (false, l)
  next f (true, l) = f l

  unfoldable pub load_pages : List ℕ → Map Access → ProgramHeader → ℕ → ℕ → Loading Sp Mem → Step
  load_pages elf_data pages ph vpn zero l = returned (true, l)
  load_pages elf_data pages ph vpn (suc n) l =
      load_page elf_data pages ph vpn l >>= next (load_pages elf_data pages ph (suc vpn) n)

  unfoldable pub load_segments : List ℕ → Map Access → List ProgramHeader → Loading Sp Mem → Step
  load_segments elf_data pages [] l = returned (true, l)
  load_segments elf_data pages (ph ∷ headers) l = elim ph.loads [
    | none ↦ returned (false, l)
    | some loads ↦
        (if not loads || (ph.mem_size == 0)
          then returned (true, l)
          else load_pages elf_data pages ph (vpn_start ph) (vpn_end ph - vpn_start ph) l)
        >>= next (load_segments elf_data pages headers)
  ]

  abbrev loaded : ElfFile → Sp → Bool × Loading Sp Mem → Option (Sp × ℕ) × Mem
  loaded elf kernel_space (ok, l) =
      if ok
      then (some (vm.copy_leaf_pte_from kernel_space portal_vpn l.space, elf.entry_point), l.mem)
      else (none, l.mem)

  abbrev load_into :
      ElfFile → List ℕ → Sp → Mem → Option (Map Access) → Sp × Mem → Outcome (Option (Sp × ℕ) × Mem)
  load_into elf elf_data kernel_space mem none (space, mem') = returned (none, mem')
  load_into elf elf_data kernel_space mem (some pages) (space, mem') = do
    l ← load_segments elf_data pages elf.headers (record { space = space; mem = mem'; mapped = [] })
    returned (loaded elf kernel_space l)

  -- `parse` is `ElfFile::new`.
  unfoldable pub load_user_space_from_elf :
      (List ℕ → Option ElfFile) → List ℕ → Sp → Mem → Outcome (Option (Sp × ℕ) × Mem)
  load_user_space_from_elf parse elf_data kernel_space mem = elim (parse elf_data) [
    | none ↦ returned (none, mem)
    | some elf ↦
        if not elf.executable || not elf.risc_v
        then returned (none, mem)
        else load_into elf elf_data kernel_space mem (page_flags elf.headers []) (vm.new mem)
  ]
