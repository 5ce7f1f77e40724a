-- ===== src/Kernel/Process.antt =====
-- ch8/src/main.rs: `Thread` and `Process` with their operations on descriptors, stacks and waiters.
-- `S` is the state of the file system, `Sp` the type of address spaces.
pub mod Descriptors
pub mod Slots
pub mod Stacks
pub mod Tables
use spec_to_rust_os.Prelude.{
  ℕ, zero, suc, ◌+◌, ◌-◌, ◌*◌, ◌%◌, ◌^◌, Bool, true, false, ◌&&◌, ◌||◌, Option, none, some, List,
  [], ◌∷◌, ◌++◌, map, ◌==◌, ltb, leb, if◌then◌else◌, length, get_elem?, set,
}
use spec_to_rust_os.Prelude.Map
use spec_to_rust_os.Prelude.Map.{Map, lookup, remove, modify, or_insert}
use spec_to_rust_os.KernelContext.{LocalContext}
use spec_to_rust_os.Signal.State.{SignalImpl}
use spec_to_rust_os.Sync.Semaphore.{Semaphore}
use spec_to_rust_os.Sync.Mutex.{MutexBlocking}
use spec_to_rust_os.Sync.Condvar.{Condvar}
use spec_to_rust_os.EasyFs.File
use spec_to_rust_os.EasyFs.File.{FileHandle}
use spec_to_rust_os.Kernel.Vm.{Vm, vrwu}

abbrev pub user_stack_pages : ℕ
user_stack_pages = 2

-- An `unfoldable`, so that it stays folded in goals.
unfoldable pub portal_vpn : ℕ
portal_vpn = 134217727

-- A `ForeignContext` is the context with the `satp` of its address space.
pub record ForeignContext : Type 0 where
  pub context : LocalContext
  pub satp : ℕ

pub record Thread : Type 0 where
  pub tid : ℕ
  pub pid : ℕ
  pub context : ForeignContext

-- No two entries of the table share a handle, so a handle lies in its entry.
pub record Process (S Sp : Type 0) : Type 0 where
  pub pid : ℕ
  pub space : Sp
  pub fd_table : List (Option (FileHandle S))
  pub signal : SignalImpl
  pub thread_stacks : Map ℕ
  pub waittid_waiters : Map (List ℕ)
  pub condvar_wait_mutex : Map ℕ
  pub semaphores : List Semaphore
  pub mutexes : List (Option MutexBlocking)
  pub condvars : List Condvar

-- Descriptors

unfoldable pub duplicate_file_handle : {S : Type 0} → FileHandle S → FileHandle S
duplicate_file_handle file = elim file.inode [
  | some inode ↦ (record (File.new file.readable file.writable inode) { offset = file.offset })
  | none ↦ (record (File.empty file.readable file.writable) { offset = file.offset })
]

unfoldable pub new_stdio_fd_table : {S : Type 0} → List (Option (FileHandle S))
new_stdio_fd_table =
    some (File.empty true false) ∷ some (File.empty false true) ∷ some (File.empty false true) ∷ []

abbrev duplicate_entry : {S : Type 0} → Option (FileHandle S) → Option (FileHandle S)
duplicate_entry none = none
duplicate_entry (some file) = some (duplicate_file_handle file)

unfoldable pub clone_fd_table :
    {S : Type 0} → List (Option (FileHandle S)) → List (Option (FileHandle S))
clone_fd_table src = map duplicate_entry src

abbrev is_none : {A : Type 0} → Option A → Bool
is_none none = true
is_none (some x) = false

-- The loop of `alloc_fd` over what is left of the table, whose first entry has the number `fd`.
unfoldable pub free_fd : {A : Type 0} → ℕ → List (Option A) → Option ℕ
free_fd fd [] = none
free_fd fd (entry ∷ rest) =
    let later = free_fd (suc fd) rest in if leb 3 fd && is_none entry then some fd else later

unfoldable pub alloc_fd : {S Sp : Type 0} → FileHandle S → Process S Sp → ℕ × Process S Sp
alloc_fd file p = elim (free_fd 0 p.fd_table) [
  | some fd ↦ (fd, record p { fd_table = set p.fd_table fd (some file) })
  | none ↦ (length p.fd_table, record p { fd_table = p.fd_table ++ some file ∷ [] })
]

abbrev join : {A : Type 0} → Option (Option A) → Option A
join none = none
join (some x) = x

unfoldable pub get_fd : {S Sp : Type 0} → ℕ → Process S Sp → Option (FileHandle S)
get_fd fd p = join (get_elem? p.fd_table fd)

-- The result is an `isize`; −1 is the pattern of all ones.
unfoldable pub close_fd : {S Sp : Type 0} → ℕ → Process S Sp → ℕ × Process S Sp
close_fd fd p = elim (get_elem? p.fd_table fd) [
  | none ↦ (2 ^ 64 - 1, p)
  | some none ↦ (2 ^ 64 - 1, p)
  | some (some _) ↦ (0, record p { fd_table = set p.fd_table fd none })
]

-- Stacks

-- The pages of the stack of a slot: the number of the first one.
unfoldable pub stack_vpn : ℕ → Option ℕ
unfolding portal_vpn
stack_vpn slot =
    let pages : ℕ = user_stack_pages * ((slot + 1) % 2 ^ 64) in
    if ltb pages (2 ^ 64) && leb pages portal_vpn then some (portal_vpn - pages) else none

unfoldable pub map_thread_stack : {Sp Mem : Type 0} → Vm Sp Mem → ℕ → Sp → Mem → Option ℕ × Sp × Mem
map_thread_stack vm slot space mem = elim (stack_vpn slot) [
  | none ↦ (none, space, mem)
  | some vpn ↦
      (let (space', mem') = vm.map vpn (vpn + user_stack_pages) [] 0 vrwu space mem in
        (
          some ((vm.vaddr ((vpn + user_stack_pages) * 2 ^ 12) + (2 ^ 64 - 16)) % 2 ^ 64),
          space',
          mem',
        ))
]

unfoldable pub slot_taken : Map ℕ → ℕ → Bool
slot_taken [] slot = false
slot_taken ((_, s) ∷ stacks) slot = (s == slot) || slot_taken stacks slot

-- The `while` of `alloc_thread_stack`, on fuel.
unfoldable pub first_slot : ℕ → Map ℕ → ℕ → Option ℕ
first_slot zero stacks slot = none
first_slot (suc fuel) stacks slot =
    let later = first_slot fuel stacks (suc slot) in
    if slot_taken stacks slot then later else some slot

-- What `alloc_thread_stack` does with the result of `map_thread_stack`.
unfoldable pub assign_stack :
    {S Sp Mem : Type 0} → ℕ → ℕ → Process S Sp → Option ℕ × Sp × Mem → Option ℕ × Process S Sp × Mem
assign_stack tid slot p (top, space, mem) = elim top [
  | none ↦ (none, record p { space = space }, mem)
  | some top ↦ (
    some top,
    record p { space = space; thread_stacks = Map.insert tid slot p.thread_stacks },
    mem,
  )
]

-- One more step than there are stacks is fuel enough.
unfoldable pub alloc_thread_stack :
    {S Sp Mem : Type 0}
    → Vm Sp Mem
    → ℕ
    → Process S Sp
    → Mem
    → Option (Option ℕ × Process S Sp × Mem)
alloc_thread_stack vm tid p mem =
    elim (first_slot (suc (length p.thread_stacks)) p.thread_stacks 0) [
      | none ↦ none
      | some slot ↦ some (assign_stack tid slot p (map_thread_stack vm slot p.space mem))
    ]

abbrev pub stack_slot_of : {S Sp : Type 0} → ℕ → Process S Sp → Option ℕ
stack_slot_of tid p = lookup tid p.thread_stacks

unfoldable pub remove_thread_stack : {S Sp : Type 0} → ℕ → Process S Sp → Process S Sp
remove_thread_stack tid p = record p {
  thread_stacks = remove tid p.thread_stacks;
  condvar_wait_mutex = remove tid p.condvar_wait_mutex;
  waittid_waiters = remove tid p.waittid_waiters;
}

unfoldable pub add_waittid_waiter : {S Sp : Type 0} → ℕ → ℕ → Process S Sp → Process S Sp
add_waittid_waiter target waiter p = record p {
  waittid_waiters = modify target (λ l. l ++ waiter ∷ []) (or_insert target [] p.waittid_waiters);
}

abbrev unwrap_or_default : Option (List ℕ) → List ℕ
unwrap_or_default none = []
unwrap_or_default (some l) = l

unfoldable pub take_waittid_waiters : {S Sp : Type 0} → ℕ → Process S Sp → List ℕ × Process S Sp
take_waittid_waiters target p = (
  unwrap_or_default (lookup target p.waittid_waiters),
  record p { waittid_waiters = remove target p.waittid_waiters },
)
