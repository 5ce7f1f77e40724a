-- ===== src/KernelVm/Visitors.antt =====
-- kernel-vm/src/lib.rs: the visitors and decorators of the walks through a page table.
use spec_to_rust_os.Prelude.{ℕ, ◌&&◌, ◌==◌, Option, none, some, if◌then◌else◌}
use spec_to_rust_os.Prelude.Panic.{returned, panicked}
use spec_to_rust_os.KernelVm.Interface.{VmMeta, PageManager, Visitor, Decorator}

module _ {M S : Type 0} (meta : VmMeta) (pm : PageManager M S) where
  -- `meet` of the visitors and of `SetPteDecorator`: the table below an entry that the manager owns.
  abbrev pub next_table : M → ℕ → Option ℕ
  next_table m pte = if pm.check_owned m pte then some (pm.p_to_v m (meta.ppn pte)) else none

  unfoldable pub get_pte_visitor : ℕ → M → Visitor (Option ℕ)
  get_pte_visitor target m = record {
    arrive = λ pte vpn result. if (vpn == target) && meta.is_valid pte then some pte else result;
    meet = next_table m;
  }

  unfoldable pub translate_visitor : ℕ → M → Visitor (Option (ℕ × ℕ))
  translate_visitor target m = record {
    arrive = λ pte vpn result.
        if (vpn == target) && meta.is_valid pte
        then some (meta.ppn pte, meta.flags pte)
        else result;
    meet = next_table m;
  }

  -- `block` of the decorators: a page for a new table, with the entry for it.
  abbrev pub new_table : M × S → (ℕ × ℕ) × M × S
  new_table s =
      let ((ptr, _), m, s') = pm.allocate 1 meta.valid_flag s in
      let ppn = pm.v_to_p m ptr in ((meta.build_pte meta.valid_flag ppn, pm.p_to_v m ppn), m, s')

  unfoldable pub set_pte_decorator : ℕ → ℕ → Decorator M S
  set_pte_decorator target new_pte = record {
    arrive = λ pte vpn. returned (if vpn == target then new_pte else pte);
    meet = λ m pte. returned (next_table m pte);
    block = new_table;
  }

  -- An entry that is mapped, and a table that the manager does not own, are panics.
  unfoldable pub map_extern_decorator : ℕ → ℕ → Decorator M S
  map_extern_decorator ppn flags = record {
    arrive = λ pte vpn. if meta.is_valid pte then panicked else returned (meta.build_pte flags ppn);
    meet = λ m pte.
        if pm.check_owned m pte then returned (some (pm.p_to_v m (meta.ppn pte))) else panicked;
    block = new_table;
  }
