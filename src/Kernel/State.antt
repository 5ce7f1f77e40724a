-- ===== src/Kernel/State.antt =====
-- ch8/src/main.rs: the static variables of the kernel and the helpers that the system calls share. A
-- `&mut` to a thread or a process is read from its manager and written back to it.
use spec_to_rust_os.Prelude.{ℕ, ◌-◌, ◌^◌, Option, none, some, List}
use spec_to_rust_os.Prelude.Map.{Map, lookup, map_value}
use spec_to_rust_os.Prelude.Panic.{Outcome, returned}
use spec_to_rust_os.Sync.Cell.{IntrState}
use spec_to_rust_os.TaskManage.PThreadManager as Threads
use spec_to_rust_os.TaskManage.PThreadManager.{PThreadManager}
use spec_to_rust_os.Kernel.Managers.{ThreadManager, thread_manager, thread_schedule, proc_manager}
use spec_to_rust_os.Kernel.Process.{Thread, Process}

abbrev pub Processor : Type 0 → Type 0 → Type 0
Processor S Sp = PThreadManager (ThreadManager Thread) (Map (Process S Sp))

-- `current_space` names the process whose space `CURRENT_SPACE` points at. `next_pid` and `next_tid` are
-- the counters of the identifiers, `files` is the state of the file
-- system, `console` what is printed, and `input` the answers that `console_getchar` will give.
pub record Kernel (S Sp Mem : Type 0) : Type 0 where
  pub kernel_space : Option Sp
  pub processor : Option (Processor S Sp)
  pub current_space : Option ℕ
  pub current_pid : Option ℕ
  pub current_tid : Option ℕ
  pub next_pid : ℕ
  pub next_tid : ℕ
  pub intr : IntrState
  pub mem : Mem
  pub files : S
  pub console : List ℕ
  pub input : List ℕ

-- The patterns of negative results.
abbrev pub minus_one : ℕ
minus_one = 2 ^ 64 - 1

abbrev pub minus_two : ℕ
minus_two = 2 ^ 64 - 2

abbrev pub minus_three : ℕ
minus_three = 2 ^ 64 - 3

-- `isize::MIN`
abbrev pub blocked_return : ℕ
blocked_return = 2 ^ 63

abbrev pub usize_max : ℕ
usize_max = 2 ^ 64 - 1

-- Access to threads and processes

module _ {S Sp : Type 0} where
  abbrev pub get_task : ℕ → Processor S Sp → Outcome (Option Thread)
  get_task tid s =
      Threads.get_task (thread_manager Thread) (thread_schedule Thread)
        (proc_manager (Process S Sp)) tid s

  abbrev pub get_proc : ℕ → Processor S Sp → Outcome (Option (Process S Sp))
  get_proc pid s =
      Threads.get_proc (thread_manager Thread) (thread_schedule Thread)
        (proc_manager (Process S Sp)) pid s

  abbrev pub get_current_proc : Processor S Sp → Outcome (Option (Process S Sp))
  get_current_proc s =
      Threads.get_current_proc (thread_manager Thread) (thread_schedule Thread)
        (proc_manager (Process S Sp)) s

  abbrev pub re_enque : ℕ → Processor S Sp → Outcome (Processor S Sp)
  re_enque tid s =
      Threads.re_enque (thread_manager Thread) (thread_schedule Thread)
        (proc_manager (Process S Sp)) tid s

  abbrev pub add_proc : ℕ → Process S Sp → ℕ → Processor S Sp → Outcome (Processor S Sp)
  add_proc pid p parent s =
      Threads.add_proc (thread_manager Thread) (thread_schedule Thread)
        (proc_manager (Process S Sp)) pid p parent s

  abbrev pub add : ℕ → Thread → ℕ → Processor S Sp → Outcome (Processor S Sp)
  add tid t pid s =
      Threads.add (thread_manager Thread) (thread_schedule Thread) (proc_manager (Process S Sp)) tid
        t pid s

  abbrev pub make_current_exited : ℕ → Processor S Sp → Outcome (Processor S Sp)
  make_current_exited code s =
      Threads.make_current_exited (thread_manager Thread) (thread_schedule Thread)
        (proc_manager (Process S Sp)) code s

  abbrev pub make_current_suspend : Processor S Sp → Outcome (Processor S Sp)
  make_current_suspend s =
      Threads.make_current_suspend (thread_manager Thread) (thread_schedule Thread)
        (proc_manager (Process S Sp)) s

  abbrev pub make_current_blocked : Processor S Sp → Outcome (Processor S Sp)
  make_current_blocked s = returned (
      Threads.make_current_blocked (thread_manager Thread) (thread_schedule Thread)
        (proc_manager (Process S Sp)) s)

  abbrev pub find_next :
      ℕ → Processor S Sp → Outcome (Option (Option (ℕ × Thread) × Processor S Sp))
  find_next fuel s =
      Threads.find_next (thread_manager Thread) (thread_schedule Thread)
        (proc_manager (Process S Sp)) fuel s

  -- A change of the thread that `get_task` returned, and of the process that `get_proc` returned.
  unfoldable pub put_task : ℕ → Thread → Processor S Sp → Processor S Sp
  put_task tid t s = record s {
    thread_manager = map_value ((thread_manager Thread).write tid t) s.thread_manager;
  }

  unfoldable pub put_proc : ℕ → Process S Sp → Processor S Sp → Processor S Sp
  put_proc pid p s = record s {
    proc_manager = map_value ((proc_manager (Process S Sp)).write pid p) s.proc_manager;
  }

  abbrev pub put_owned : Option ℕ → Process S Sp → Processor S Sp → Processor S Sp
  put_owned none p s = s
  put_owned (some pid) p s = put_proc pid p s

  -- The process of the current thread, as `get_current_proc` finds it.
  unfoldable pub owner_pid : Processor S Sp → Option ℕ
  owner_pid s = elim s.current [ none ↦ none | some tid ↦ lookup tid s.tid2pid ]

  unfoldable pub put_current_proc : Process S Sp → Processor S Sp → Processor S Sp
  put_current_proc p s = put_owned (owner_pid s) p s

module _ {S Sp Mem : Type 0} where
  -- What `CURRENT_SPACE` points at.
  unfoldable pub current_space : Kernel S Sp Mem → Option Sp
  current_space k = elim k.current_space [
    | none ↦ none
    | some pid ↦ elim k.processor [
      | none ↦ none
      | some s ↦ elim s.proc_manager [
        | none ↦ none
        | some pm ↦ elim (lookup pid pm) [ none ↦ none | some p ↦ some p.space ]
      ]
    ]
  ]
