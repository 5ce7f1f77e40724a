-- ===== src/Kernel/Calls/Files.antt =====
-- ch8/src/main.rs: the calls of the trait `IO`.
use spec_to_rust_os.Prelude.{
  ℕ, ◌+◌, ◌%◌, ◌^◌, Bool, ◌||◌, Option, none, some, List, [], ◌∷◌, ◌++◌, ◌==◌, ltb, if◌then◌else◌,
  length, set,
}
use spec_to_rust_os.Prelude.Panic.{Outcome, returned, panicked}
use spec_to_rust_os.EasyFs.File.{FileHandle}
use spec_to_rust_os.Kernel.Vm.{Vm}
use spec_to_rust_os.Kernel.Memory.{read_user_bytes, read_user_cstr, write_user_bytes}
use spec_to_rust_os.Kernel.Fs.{Directory, open_file, from_bits_truncate}
use spec_to_rust_os.Kernel.Process.{alloc_fd, get_fd, close_fd, duplicate_file_handle}
use spec_to_rust_os.Kernel.State.{Kernel, minus_one, usize_max, current_space}
use spec_to_rust_os.Kernel.Calls.{
  Call, handler, ◌>>=◌, ◌>>◌, give, leave, some_or_fail, read_from, change, current_process,
  write_process, user_space,
}

abbrev pub stdin : ℕ
stdin = 0

abbrev pub stdout : ℕ
stdout = 1

abbrev pub stddebug : ℕ
stddebug = 2

-- The loop that fills the buffer of a read from the console, over the answers that come. None: it waits
-- for more of them.
unfoldable pub read_console : ℕ → List ℕ → List ℕ → Option (List ℕ × List ℕ)
read_console count in_buf [] = if ltb (length in_buf) count then none else some (in_buf, [])
read_console count in_buf (ch ∷ input) =
    let later = read_console count in_buf input in
    let longer = read_console count (in_buf ++ (ch % 256) ∷ []) input in
    if ltb (length in_buf) count
    then (if ch == usize_max
        then (if length in_buf == 0 then later else some (in_buf, input))
        else longer)
    else some (in_buf, ch ∷ input)

module _ {S Sp Mem : Type 0} where
  abbrev fail_unless : Bool → Call (Kernel S Sp Mem) (Unit {0})
  fail_unless b = if b then give tt else leave minus_one

  abbrev handle : ℕ → Call (Kernel S Sp Mem) (FileHandle S)
  handle fd = current_process >>= λ p. some_or_fail (get_fd fd p)

  -- A change of the handle under the descriptor, which is there.
  abbrev put_handle : ℕ → FileHandle S → Call (Kernel S Sp Mem) (Unit {0})
  put_handle fd file =
      current_process >>= λ p. write_process (record p { fd_table = set p.fd_table fd (some file) })

  abbrev user_bytes : Vm Sp Mem → Sp → ℕ → ℕ → Call (Kernel S Sp Mem) (List ℕ)
  user_bytes vm space buf count =
      read_from (λ k. k.mem) >>= λ mem. some_or_fail (read_user_bytes vm space buf count mem)

  abbrev to_user : Vm Sp Mem → Sp → ℕ → List ℕ → Call (Kernel S Sp Mem) (Unit {0})
  to_user vm space buf content = do
    mem ← read_from (λ k. k.mem)
    let (ok, mem') = write_user_bytes vm space buf content mem
    change (λ k. returned (record k { mem = mem' }))
    fail_unless ok

  abbrev write_console : Vm Sp Mem → ℕ → ℕ → ℕ → Sp → Call (Kernel S Sp Mem) ℕ
  write_console vm fd buf count space = do
    file ← handle fd
    fail_unless file.writable
    bytes ← user_bytes vm space buf count
    change (λ k. returned (record k { console = k.console ++ bytes }))
    give count

  abbrev write_file : Vm Sp Mem → ℕ → ℕ → ℕ → Sp → Call (Kernel S Sp Mem) ℕ
  write_file vm fd buf count space = do
    bytes ← user_bytes vm space buf count
    file ← handle fd
    fail_unless file.writable
    inode ← some_or_fail file.inode
    files ← read_from (λ k. k.files)
    let (written, files') = inode.write_at files file.offset bytes
    change (λ k. returned (record k { files = files' }))
    put_handle fd (record file { offset = (file.offset + written) % 2 ^ 64 })
    give written

  unfoldable pub write : Vm Sp Mem → ℕ → ℕ → ℕ → Kernel S Sp Mem → Outcome (ℕ × Kernel S Sp Mem)
  write vm fd buf count = handler (
      if count == 0
      then give 0
      else (user_space >>= λ space.
          if (fd == stdout) || (fd == stddebug)
          then write_console vm fd buf count space
          else write_file vm fd buf count space))

  -- The call that reads a file.
  unfoldable pub read_file :
      Vm Sp Mem → ℕ → ℕ → ℕ → Sp → Kernel S Sp Mem → Outcome (ℕ × Kernel S Sp Mem)
  read_file vm fd buf count space = handler (do
    file ← handle fd
    fail_unless file.readable
    inode ← some_or_fail file.inode
    files ← read_from (λ k. k.files)
    let out = inode.read_at files file.offset count
    put_handle fd (record file { offset = (file.offset + length out) % 2 ^ 64 })
    to_user vm space buf out
    give (length out))

  abbrev readable_handle : ℕ → Call (Kernel S Sp Mem) ℕ
  readable_handle fd = handle fd >>= λ file. fail_unless file.readable >> give 0

  abbrev deliver_input :
      Vm Sp Mem → ℕ → Sp → List ℕ × List ℕ → Kernel S Sp Mem → Outcome (ℕ × Kernel S Sp Mem)
  deliver_input vm buf space (in_buf, input) = handler (do
    change (λ k. returned (record k { input = input }))
    to_user vm space buf in_buf
    give (length in_buf))

  abbrev read_input :
      Vm Sp Mem
      → ℕ
      → ℕ
      → Sp
      → Outcome (ℕ × Kernel S Sp Mem)
      → Option (Outcome (ℕ × Kernel S Sp Mem))
  read_input vm buf count space panicked = some panicked
  read_input vm buf count space (returned (code, k)) =
      if code == minus_one
      then some (returned (code, k))
      else elim (read_console count [] k.input) [
        | none ↦ none
        | some got ↦ some (deliver_input vm buf space got k)
      ]

  -- None: the call waits for input from the console.
  unfoldable pub read :
      Vm Sp Mem → ℕ → ℕ → ℕ → Kernel S Sp Mem → Option (Outcome (ℕ × Kernel S Sp Mem))
  read vm fd buf count k = if count == 0 then some (returned (0, k)) else elim (current_space k) [
    | none ↦ some (returned (minus_one, k))
    | some space ↦
        if fd == stdin
        then read_input vm buf count space (handler (readable_handle fd) k)
        else some (read_file vm fd buf count space k)
  ]

  unfoldable pub open_call :
      Vm Sp Mem
      → Directory S
      → (List ℕ → Bool)
      → ℕ
      → ℕ
      → Kernel S Sp Mem
      → Outcome (ℕ × Kernel S Sp Mem)
  open_call vm root is_utf8 path flags = handler (do
    space ← user_space
    mem ← read_from (λ k. k.mem)
    path ← some_or_fail (read_user_cstr vm space path is_utf8 mem)
    files ← read_from (λ k. k.files)
    let (found, files') = open_file root path (from_bits_truncate flags) files
    change (λ k. returned (record k { files = files' }))
    file ← some_or_fail found
    p ← current_process
    let (fd, p') = alloc_fd (duplicate_file_handle file) p
    write_process p'
    give fd)

  unfoldable pub close : ℕ → Kernel S Sp Mem → Outcome (ℕ × Kernel S Sp Mem)
  close fd =
      handler (do p ← current_process; let (code, p') = close_fd fd p; write_process p'; give code)
