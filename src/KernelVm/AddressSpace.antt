-- ===== src/KernelVm/AddressSpace.antt =====
-- kernel-vm/src/lib.rs: `AddressSpace`. Its operations take the physical memory and give it back.
use spec_to_rust_os.Prelude.{
  ℕ, zero, suc, ◌+◌, ◌-◌, ◌*◌, ◌%◌, ◌^◌, Bool, false, ◌&&◌, ◌||◌, leb, ltb, ◌==◌, Option, none,
  some, List, [], ◌∷◌, ◌++◌, length, if◌then◌else◌,
}
use spec_to_rust_os.Prelude.Panic.{Outcome, returned, panicked, ◌>>=◌}
use spec_to_rust_os.KernelVm.Interface.{VmMeta, PageManager, Memory, PageTable}
use spec_to_rust_os.KernelVm.Visitors.{
  get_pte_visitor, translate_visitor, set_pte_decorator, map_extern_decorator,
}

-- An area is a range of page numbers.
pub record AddressSpace (M : Type 0) : Type 0 where
  pub areas : List (ℕ × ℕ)
  pub manager : M

-- `range.end.val() - range.start.val()`
abbrev pub page_count : ℕ × ℕ → ℕ
page_count (start, end) = (end + (2 ^ 64 - start)) % 2 ^ 64

module _ {S : Type 0} (memory : Memory S) where
  -- `core::ptr::write_bytes` of zeros, from `base` on.
  unfoldable pub write_zeros : ℕ → ℕ → S → S
  write_zeros base zero s = s
  write_zeros base (suc n) s = write_zeros (suc base) n (memory.store base 0 s)

  unfoldable pub write_data : ℕ → List ℕ → S → S
  write_data base [] s = s
  write_data base (b ∷ bs) s = write_data (suc base) bs (memory.store base b s)

  -- `core::ptr::copy_nonoverlapping` of `n` bytes.
  unfoldable pub copy_bytes : ℕ → ℕ → ℕ → S → S
  copy_bytes source base zero s = s
  copy_bytes source base (suc n) s =
      copy_bytes (suc source) (suc base) n (memory.store base (memory.load source s) s)

  -- The fill of new pages in `map`: zeros, the data, zeros.
  unfoldable pub fill : ℕ → ℕ → List ℕ → ℕ → S → S
  fill base offset bytes size s =
      let tail_start = offset + length bytes in
      write_zeros (base + tail_start) (size - tail_start)
        (write_data (base + offset) bytes (write_zeros base offset s))

module _ {M S : Type 0} (meta : VmMeta) (pm : PageManager M S) (memory : Memory S)
    (page_table : PageTable M S) where
  unfoldable pub new : S → AddressSpace M × S
  new s = let (m, s') = pm.new_root s in (record { areas = []; manager = m }, s')

  unfoldable pub root_ppn : AddressSpace M → ℕ
  root_ppn space = pm.root_ppn space.manager

  -- The loop of `map_extern`, `n` pages from `vpn` on.
  unfoldable pub map_pages : ℕ → ℕ → ℕ → ℕ → ℕ → M × S → Outcome (M × S)
  map_pages root vpn ppn flags zero s = returned s
  map_pages root vpn ppn flags (suc n) s =
      page_table.walk_mut (map_extern_decorator meta pm ppn flags) root vpn s
      >>= map_pages root (suc vpn) (suc ppn) flags n

  unfoldable pub map_extern : ℕ × ℕ → ℕ → ℕ → AddressSpace M × S → Outcome (AddressSpace M × S)
  map_extern (start, end) pbase flags (space, s) =
      if leb end start
      then panicked
      else (map_pages (pm.root_ptr space.manager) start pbase flags (end - start) (space.manager, s)
          >>= λ (m, s').
              returned (record { areas = space.areas ++ ((start, end) ∷ []); manager = m }, s'))

  abbrev with_manager : M → AddressSpace M → AddressSpace M
  with_manager m space = record { areas = space.areas; manager = m }

  unfoldable pub map : ℕ × ℕ → List ℕ → ℕ → ℕ → AddressSpace M × S → Outcome (AddressSpace M × S)
  map range bytes offset flags (space, s) =
      let count = page_count range in
      let size = count * 2 ^ meta.page_bits % 2 ^ 64 in
      if ltb size (length bytes + offset)
      then panicked
      else (let ((ptr, flags'), m, s') = pm.allocate count flags (space.manager, s) in
          map_extern range (pm.v_to_p m ptr) flags'
            (with_manager m space, fill memory ptr offset bytes size s'))

  abbrev set_leaf : ℕ → AddressSpace M × S → Option ℕ → Outcome (AddressSpace M × S)
  set_leaf vpn (space, s) none = returned (space, s)
  set_leaf vpn (space, s) (some pte) =
      page_table.walk_mut (set_pte_decorator meta pm vpn pte) (pm.root_ptr space.manager) vpn
        (space.manager, s)
      >>= λ (m, s'). returned (with_manager m space, s')

  unfoldable pub get_pte : AddressSpace M → ℕ → S → Option ℕ
  get_pte space vpn s =
      page_table.walk (get_pte_visitor meta pm vpn space.manager) (pm.root_ptr space.manager) vpn s
        none

  unfoldable pub copy_leaf_pte_from :
      AddressSpace M → ℕ → AddressSpace M × S → Outcome (AddressSpace M × S)
  copy_leaf_pte_from src vpn (space, s) = set_leaf vpn (space, s) (get_pte src vpn s)

  -- The page and the flags of a mapping.
  unfoldable pub get_mapping : AddressSpace M → ℕ → S → Option (ℕ × ℕ)
  get_mapping space vpn s =
      page_table.walk (translate_visitor meta pm vpn space.manager) (pm.root_ptr space.manager) vpn
        s none

  unfoldable pub translate : AddressSpace M → ℕ → ℕ → S → Option ℕ
  translate space addr flags s = elim (get_mapping space (meta.floor addr) s) [
    | none ↦ none
    | some (ppn, pte_flags) ↦
        (if meta.contains pte_flags flags
          then some (pm.p_to_v space.manager ppn + meta.offset addr)
          else none)
  ]

  abbrev is_skipped : Option ℕ → ℕ × ℕ → Bool
  is_skipped none range = false
  is_skipped (some skip) (start, end) = leb start skip && ltb skip end

  abbrev free_area : ℕ → Option ℕ → M × S → M × S
  free_area count none s = s
  free_area count (some pte) s = pm.deallocate pte count s

  unfoldable pub free_areas : Option ℕ → List (ℕ × ℕ) → M × S → M × S
  free_areas skip_vpn [] s = s
  free_areas skip_vpn (range ∷ ranges) (m, s) =
      if is_skipped skip_vpn range || (page_count range == 0)
      then free_areas skip_vpn ranges (m, s)
      else free_areas skip_vpn ranges (
          free_area (page_count range) (get_pte (record { areas = []; manager = m }) range.0 s)
            (m, s))

  unfoldable pub free_allocated_pages_and_root : Option ℕ → AddressSpace M × S → AddressSpace M × S
  free_allocated_pages_and_root skip_vpn (space, s) =
      let (m, s') = pm.drop_root (free_areas skip_vpn space.areas (space.manager, s)) in
      (record { areas = []; manager = m }, s')

  -- A copy of one area: new pages with the bytes of the old ones, and the flags of the first page.
  unfoldable pub clone_area : M → ℕ × ℕ → ℕ × ℕ → AddressSpace M × S → Outcome (AddressSpace M × S)
  clone_area own range (src_ppn, flags) (new_addrspace, s) =
      let count = page_count range in
      let size = count * 2 ^ meta.page_bits % 2 ^ 64 in
      let src_ptr = pm.p_to_v own src_ppn in
      let ((dst_ptr, _), m, s') = pm.allocate count flags (new_addrspace.manager, s) in
      map_extern range (pm.v_to_p m dst_ptr) flags
        (with_manager m new_addrspace, copy_bytes memory src_ptr dst_ptr size s')

  abbrev clone_if_mapped :
      M → ℕ × ℕ → Option (ℕ × ℕ) → AddressSpace M × S → Outcome (AddressSpace M × S)
  clone_if_mapped own range none t = returned t
  clone_if_mapped own range (some mapping) t = clone_area own range mapping t

  unfoldable pub clone_areas :
      AddressSpace M → List (ℕ × ℕ) → AddressSpace M × S → Outcome (AddressSpace M × S)
  clone_areas space [] t = returned t
  clone_areas space (range ∷ ranges) t =
      (if page_count range == 0
        then returned t
        else clone_if_mapped space.manager range (get_mapping space range.0 t.1) t)
      >>= clone_areas space ranges

  unfoldable pub cloneself : AddressSpace M → AddressSpace M × S → Outcome (AddressSpace M × S)
  cloneself space t = clone_areas space space.areas t
