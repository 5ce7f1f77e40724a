-- ===== src/Kernel/Calls/Processes.antt =====
-- ch8/src/main.rs: the calls of the trait `Process`.
use spec_to_rust_os.Prelude.{
  ℕ, ◌+◌, ◌-◌, ◌%◌, ◌^◌, Bool, not, ◌&&◌, Option, none, some, List, [], ◌∷◌, ◌++◌, ◌==◌, ltb, leb,
  if◌then◌else◌,
}
use spec_to_rust_os.Prelude.Map
use spec_to_rust_os.Prelude.Panic.{Outcome, returned, panicked}
use spec_to_rust_os.EasyFs.Disk.{word_bytes}
use spec_to_rust_os.EasyFs.File.{FileHandle}
use spec_to_rust_os.KernelContext.{a_mut}
use spec_to_rust_os.TaskManage.PThreadManager.{wait}
use spec_to_rust_os.Kernel.Vm.{Vm}
use spec_to_rust_os.Kernel.Memory.{read_user_cstr, write_user_bytes}
use spec_to_rust_os.Kernel.Fs.{Directory, open_file, readdir, read_all, rdonly}
use spec_to_rust_os.Kernel.Elf.{ElfFile}
use spec_to_rust_os.Kernel.Process.{ForeignContext, Process, stack_slot_of}
use spec_to_rust_os.Kernel.Spawn.{alloc_pid_nonzero, fork_process, exec_process, satp_of}
use spec_to_rust_os.Kernel.State as State
use spec_to_rust_os.Kernel.State.{
  Kernel, Processor, minus_one, minus_two, usize_max, put_proc, put_task,
}
use spec_to_rust_os.Kernel.Calls.{
  Call, Exit, early, going, handler, ◌>>=◌, ◌>>◌, give, leave, some_or_fail, read_from, ask, change,
  processor, process, task, on_it, user_space, current_tid, current_pid,
}
use spec_to_rust_os.Kernel.Calls.Threads.{new_tid, or_minus_one}

abbrev or_zero : Option ℕ → ℕ
or_zero none = 0
or_zero (some n) = n

-- `pid < 0` of an `isize`.
abbrev is_negative : ℕ → Bool
is_negative n = leb (2 ^ 63) n

-- "Available applications:", then each name after a space, then the end of the line.
abbrev listing : List (List ℕ) → List ℕ
listing [] = 10 ∷ []
listing (app ∷ apps) = 32 ∷ app ++ listing apps

abbrev title : List ℕ
title =
    65 ∷ 118 ∷ 97 ∷ 105 ∷ 108 ∷ 97 ∷ 98 ∷ 108 ∷ 101 ∷ 32 ∷ 97 ∷ 112 ∷ 112 ∷ 108 ∷ 105 ∷ 99 ∷ 97
    ∷ 116 ∷ 105 ∷ 111 ∷ 110 ∷ 115 ∷ 58 ∷ []

-- `exit_code as isize` of an `i32`: the sign is extended.
unfoldable pub exit : ℕ → ℕ
exit exit_code = if ltb exit_code (2 ^ 31) then exit_code else exit_code + (2 ^ 64 - 2 ^ 32)

module _ {S Sp Mem : Type 0} where
  -- `parent_proc.fork(kernel_space)`, with the counter and the memory that it changes.
  abbrev forked : Vm Sp Mem → Sp → Process S Sp → Call (Kernel S Sp Mem) (Process S Sp)
  forked vm kernel_space parent = do
    n ← read_from (λ k. k.next_pid)
    mem ← read_from (λ k. k.mem)
    let (pid, n') = alloc_pid_nonzero n
    let (child, mem') = fork_process vm kernel_space pid parent mem
    change (λ k. returned (record k { next_pid = n'; mem = mem' }))
    give child

  unfoldable pub fork : Vm Sp Mem → Kernel S Sp Mem → Outcome (ℕ × Kernel S Sp Mem)
  fork vm = handler (do
    kernel_space ← read_from (λ k. k.kernel_space) >>= some_or_fail
    _ ← processor
    parent_pid ← current_pid
    parent_tid ← current_tid
    parent ← process parent_pid
    child ← forked vm kernel_space parent
    parent_thread ← task parent_tid
    child_ctx ← ask (λ k. a_mut 0 0 parent_thread.context.context)
    child_tid ← new_tid
    let slot = or_zero (stack_slot_of parent_tid parent)
    let child' = record child { thread_stacks = Map.insert child_tid slot child.thread_stacks }
    let context : ForeignContext = record { context = child_ctx; satp = satp_of vm child'.space }
    on_it (State.add_proc child.pid child' parent_pid)
    on_it (
        State.add child_tid (record { tid = child_tid; pid = child.pid; context = context })
          child.pid)
    give child.pid)

  unfoldable pub print_available_apps : Directory S → Kernel S Sp Mem → Kernel S Sp Mem
  print_available_apps root k = elim (readdir root (47 ∷ []) k.files) [
    | none ↦ k
    | some apps ↦ (record k { console = k.console ++ title ++ listing apps })
  ]

  abbrev opened : Directory S → Option (FileHandle S) → Call (Kernel S Sp Mem) (FileHandle S)
  opened root none = change (λ k. returned (print_available_apps root k)) >> leave minus_one
  opened root (some file) = give file

  -- `exec` up to `read_all`.
  unfoldable pub exec_file :
      Vm Sp Mem → Directory S → (List ℕ → Bool) → ℕ → Call (Kernel S Sp Mem) (FileHandle S)
  exec_file vm root is_utf8 path = do
    space ← user_space
    mem ← read_from (λ k. k.mem)
    path ← some_or_fail (read_user_cstr vm space path is_utf8 mem)
    files ← read_from (λ k. k.files)
    let (file, files') = open_file root path rdonly files
    change (λ k. returned (record k { files = files' }))
    opened root file

  -- `exec` from then on.
  unfoldable pub exec_image :
      Vm Sp Mem
      → (List ℕ → Option ElfFile)
      → List ℕ
      → Kernel S Sp Mem
      → Outcome (ℕ × Kernel S Sp Mem)
  exec_image vm parse elf_data = handler (do
    kernel_space ← read_from (λ k. k.kernel_space) >>= some_or_fail
    _ ← processor
    pid ← current_pid
    tid ← current_tid
    p ← process pid
    mem ← read_from (λ k. k.mem)
    (context, p', mem') ← ask (λ k. exec_process vm parse tid elf_data kernel_space p mem)
    on_it (λ s. returned (put_proc pid p' s))
    change (λ k. returned (record k { mem = mem' }))
    context ← some_or_fail context
    t ← task tid
    on_it (λ s. returned (put_task tid (record t { context = context }) s))
    give 0)

  abbrev run_image :
      ℕ
      → Vm Sp Mem
      → (List ℕ → Option ElfFile)
      → Outcome (Exit (FileHandle S) × Kernel S Sp Mem)
      → Option (Outcome (ℕ × Kernel S Sp Mem))
  run_image fuel vm parse panicked = some panicked
  run_image fuel vm parse (returned (early r, k)) = some (returned (r, k))
  run_image fuel vm parse (returned (going file, k)) = elim (read_all fuel k.files file) [
    | none ↦ none
    | some elf_data ↦ some (exec_image vm parse elf_data k)
  ]

  -- None stands for fuel that does not suffice for `read_all`.
  unfoldable pub exec :
      ℕ
      → Vm Sp Mem
      → Directory S
      → (List ℕ → Bool)
      → (List ℕ → Option ElfFile)
      → ℕ
      → Kernel S Sp Mem
      → Option (Outcome (ℕ × Kernel S Sp Mem))
  exec fuel vm root is_utf8 parse path k =
      run_image fuel vm parse (exec_file vm root is_utf8 path k)

  abbrev write_code : Vm Sp Mem → ℕ → ℕ → Call (Kernel S Sp Mem) (Unit {0})
  write_code vm ptr code = do
    space ← user_space
    mem ← read_from (λ k. k.mem)
    let (ok, mem') = write_user_bytes vm space ptr (word_bytes 4 (code % 2 ^ 32)) mem
    change (λ k. returned (record k { mem = mem' }))
    (if ok then give tt else leave minus_one)

  -- The answers of the manager: none; its sentinel for children that all run; a child and its code.
  abbrev answer : Vm Sp Mem → ℕ → Option (ℕ × ℕ) → Call (Kernel S Sp Mem) ℕ
  answer vm ptr none = give minus_one
  answer vm ptr (some (reaped_pid, code)) =
      if (code == minus_one) && (reaped_pid == usize_max - 1)
      then give minus_two
      else (if ptr == 0 then give tt else write_code vm ptr code) >> give reaped_pid

  abbrev reaped : ℕ → Call (Kernel S Sp Mem) (Option (ℕ × ℕ))
  reaped child_pid = do
    s ← processor
    on_it (λ s. returned (wait child_pid s).1)
    give (wait child_pid s).0

  -- −1 as an `isize` is the `usize` that stands for any child.
  unfoldable pub waitpid : Vm Sp Mem → ℕ → ℕ → Kernel S Sp Mem → Outcome (ℕ × Kernel S Sp Mem)
  waitpid vm pid exit_code_ptr = handler (do
    _ ← (if is_negative pid && not (pid == minus_one) then leave minus_one else give tt)
    found ← reaped pid
    answer vm exit_code_ptr found)

  unfoldable pub wait_call : Vm Sp Mem → ℕ → Kernel S Sp Mem → Outcome (ℕ × Kernel S Sp Mem)
  wait_call vm exit_code_ptr = waitpid vm minus_one exit_code_ptr

  abbrev pub getpid : Kernel S Sp Mem → ℕ
  getpid k = or_minus_one k.current_pid
