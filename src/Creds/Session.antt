-- ===== src/Creds/Session.antt =====
-- Processes, groups of processes and sessions: getpid to setsid, and getsid, of
-- kernel/src/syscall/process/creds.rs. A `pid` argument is an `i32`.
use kontsnor_os.Prelude.{ℕ, zero, Option, none, some}
use kontsnor_os.Prelude.Word.{ℤ, pos, as_i64, as_u64}
use kontsnor_os.Errno.{SyscallResult, into, Errno}
use kontsnor_os.Tasks.{Kernel, get_task, put_task, read_current}

unfoldable pub sys_getpid : Kernel → SyscallResult
sys_getpid k = elim k.current [
  | none ↦ pos 0
  | some pid ↦ elim (get_task k pid) [ none ↦ as_i64 pid | some t ↦ as_i64 t.tgid ]
]

unfoldable pub sys_gettid : Kernel → SyscallResult
sys_gettid k = elim k.current [ none ↦ pos 0 | some pid ↦ as_i64 pid ]

unfoldable pub sys_getppid : Kernel → SyscallResult
sys_getppid k = read_current k (pos 0) (λ t. as_i64 t.parent_pid)

-- The task that a `pid` argument names: 0 is the caller.
abbrev pub target : Kernel → ℤ → Option ℕ
target k (pos zero) = k.current
target k pid = some (as_u64 pid)

-- The group that `setpgid` sets: 0 is the target's own.
abbrev pub new_group : ℤ → ℕ → ℕ
new_group (pos zero) target_pid = target_pid
new_group pgid target_pid = as_u64 pgid

unfoldable pub sys_setpgid : ℤ → ℤ → Kernel → SyscallResult × Kernel
sys_setpgid pid pgid k = elim (target k pid) [
  | none ↦ (into Errno.esrch, k)
  | some p ↦ elim (get_task k p) [
    | none ↦ (into Errno.esrch, k)
    | some t ↦ (pos 0, put_task k p (record t { pgid = new_group pgid p }))
  ]
]

unfoldable pub sys_getpgid : ℤ → Kernel → SyscallResult
sys_getpgid pid k = elim (target k pid) [
  | none ↦ into Errno.esrch
  | some p ↦ elim (get_task k p) [ none ↦ into Errno.esrch | some t ↦ as_i64 t.pgid ]
]

unfoldable pub sys_getpgrp : Kernel → SyscallResult
sys_getpgrp k = sys_getpgid (pos 0) k

unfoldable pub sys_setsid : Kernel → SyscallResult × Kernel
sys_setsid k = elim k.current [
  | none ↦ (into Errno.esrch, k)
  | some p ↦ elim (get_task k p) [
    | none ↦ (into Errno.esrch, k)
    | some t ↦ (as_i64 p, put_task k p (record t { pgid = p; sid = p }))
  ]
]

unfoldable pub sys_getsid : ℤ → Kernel → SyscallResult
sys_getsid pid k = elim (target k pid) [
  | none ↦ into Errno.esrch
  | some p ↦ elim (get_task k p) [ none ↦ into Errno.esrch | some t ↦ as_i64 t.sid ]
]
