-- ===== src/Creds/Calls.antt =====
-- The calls of kernel/src/syscall/process/creds.rs that change a task, and sequences of them made
-- by one running task.
use kontsnor_os.Prelude.{ℕ, List, [], ◌∷◌}
use kontsnor_os.Prelude.Word.{ℤ}
use kontsnor_os.Errno.{SyscallResult}
use kontsnor_os.UserPtr.{UserMemory}
use kontsnor_os.Tasks.{Kernel}
use kontsnor_os.Creds.Ids.{
  sys_setuid, sys_setgid, sys_setresuid, sys_setresgid, sys_setreuid, sys_setregid,
}
use kontsnor_os.Creds.Session.{sys_setpgid, sys_setsid}
use kontsnor_os.Creds.Groups.{sys_setgroups}

pub data Call : Type 0 where
  do_setuid do_setgid : ℕ → Call
  do_setresuid do_setresgid : ℕ → ℕ → ℕ → Call
  do_setreuid do_setregid : ℕ → ℕ → Call
  do_setgroups : UserMemory → ℕ → ℕ → Call
  do_setpgid : ℤ → ℤ → Call
  do_setsid : Call

unfoldable pub perform : Call → Kernel → SyscallResult × Kernel
perform (Call.do_setuid u) k = sys_setuid u k
perform (Call.do_setgid g) k = sys_setgid g k
perform (Call.do_setresuid r e s) k = sys_setresuid r e s k
perform (Call.do_setresgid r e s) k = sys_setresgid r e s k
perform (Call.do_setreuid r e) k = sys_setreuid r e k
perform (Call.do_setregid r e) k = sys_setregid r e k
perform (Call.do_setgroups m size list) k = sys_setgroups m size list k
perform (Call.do_setpgid pid pgid) k = sys_setpgid pid pgid k
perform Call.do_setsid k = sys_setsid k

unfoldable pub run : List Call → Kernel → Kernel
run [] k = k
run (c ∷ cs) k = run cs (perform c k).1
