-- ===== src/Tasks.antt =====
-- The part of a task that the credential calls read and write (`Task` of
-- kernel/src/process/task.rs), and the table of tasks (`current_pid` and `get_task_arc` of
-- kernel/src/process/scheduler.rs).
pub mod Table
use kontsnor_os.Prelude.{ℕ, List, Option, none, some, get_elem?, set}
use kontsnor_os.Prelude.Word.{ℤ, pos}
use kontsnor_os.Errno.{SyscallResult, into, Errno}

pub record Task : Type 0 where
  pub parent_pid : ℕ
  pub tgid : ℕ
  pub pgid : ℕ
  pub sid : ℕ
  pub uid : ℕ
  pub gid : ℕ
  pub euid : ℕ
  pub egid : ℕ
  pub suid : ℕ
  pub sgid : ℕ
  pub groups : List ℕ

-- `current` is the caller's pid, if the processor runs a task; `tasks` is indexed by pid.
pub record Kernel : Type 0 where
  pub current : Option ℕ
  pub tasks : List (Option Task)

unfoldable pub get_task : Kernel → ℕ → Option Task
get_task k pid = elim (get_elem? k.tasks pid) [ none ↦ none | some slot ↦ slot ]

-- A write through the lock of a task that `get_task` found.
unfoldable pub put_task : Kernel → ℕ → Task → Kernel
put_task k pid t = record k { tasks = set k.tasks pid (some t) }

-- A call on the caller's own task, which fails with ESRCH if there is none.
unfoldable pub on_current : Kernel → (Task → SyscallResult × Task) → SyscallResult × Kernel
on_current k call = elim k.current [
  | none ↦ (into Errno.esrch, k)
  | some pid ↦ elim (get_task k pid) [
    | none ↦ (into Errno.esrch, k)
    | some t ↦ let (r, t') = call t in (r, put_task k pid t')
  ]
]

-- A call that reads the caller's own task, and returns `other` if there is none.
unfoldable pub read_current : {A : Type 0} → Kernel → A → (Task → A) → A
read_current k other call = elim k.current [
  | none ↦ other
  | some pid ↦ elim (get_task k pid) [ none ↦ other | some t ↦ call t ]
]

-- The task of the caller.
abbrev pub caller : Kernel → Option Task
caller k = elim k.current [ none ↦ none | some pid ↦ get_task k pid ]
