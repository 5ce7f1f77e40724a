-- ===== src/Syscall/Numbers.antt =====
-- syscall/src/syscalls.rs: the numbers of the calls.
use spec_to_rust_os.Prelude.{ℕ}

abbrev pub read_id : ℕ
read_id = 63

abbrev pub write_id : ℕ
write_id = 64

abbrev pub open_file_id : ℕ
open_file_id = 56

abbrev pub close_id : ℕ
close_id = 57

abbrev pub fork_id : ℕ
fork_id = 220

abbrev pub execve_id : ℕ
execve_id = 221

abbrev pub exit_id : ℕ
exit_id = 93

abbrev pub wait4_id : ℕ
wait4_id = 260

abbrev pub getpid_id : ℕ
getpid_id = 172

abbrev pub sched_yield_id : ℕ
sched_yield_id = 124

abbrev pub clock_gettime_id : ℕ
clock_gettime_id = 113

abbrev pub kill_id : ℕ
kill_id = 129

abbrev pub sigaction_id : ℕ
sigaction_id = 134

abbrev pub sigprocmask_id : ℕ
sigprocmask_id = 135

abbrev pub rt_sigreturn_id : ℕ
rt_sigreturn_id = 139

abbrev pub thread_create_id : ℕ
thread_create_id = 406

abbrev pub gettid_id : ℕ
gettid_id = 178

abbrev pub waittid_id : ℕ
waittid_id = 407

abbrev pub semop_id : ℕ
semop_id = 65

abbrev pub semget_id : ℕ
semget_id = 66

abbrev pub semctl_id : ℕ
semctl_id = 67

abbrev pub mutex_create_id : ℕ
mutex_create_id = 400

abbrev pub mutex_lock_id : ℕ
mutex_lock_id = 401

abbrev pub mutex_unlock_id : ℕ
mutex_unlock_id = 402

abbrev pub condvar_create_id : ℕ
condvar_create_id = 403

abbrev pub condvar_signal_id : ℕ
condvar_signal_id = 404

abbrev pub condvar_wait_id : ℕ
condvar_wait_id = 405
