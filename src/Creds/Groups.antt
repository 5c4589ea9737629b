-- ===== src/Creds/Groups.antt =====
-- The supplementary groups: getgroups and setgroups of kernel/src/syscall/process/creds.rs.
use kontsnor_os.Prelude.{
  ℕ, zero, suc, ◌+◌, ◌*◌, List, [], ◌∷◌, ltb, ◌==◌, not, if◌then◌else◌, length,
}
use kontsnor_os.Prelude.Word.{ℤ, pos, negsuc}
use kontsnor_os.Errno.{SyscallResult, into, Errno}
use kontsnor_os.UserPtr.{UserMemory, validate_user_ptr, validate_user_ptr_write}
use kontsnor_os.Tasks.{Task, Kernel, on_current, read_current}
use kontsnor_os.Creds.Ids.{Writes}

-- The words at `ptr` and behind it, four bytes each.
unfoldable pub write_words : ℕ → List ℕ → Writes
write_words ptr [] = []
write_words ptr (g ∷ gs) = (ptr, g) ∷ write_words (ptr + 4) gs

unfoldable pub read_words : UserMemory → ℕ → ℕ → List ℕ
read_words m ptr zero = []
read_words m ptr (suc n) = m.word ptr ∷ read_words m (ptr + 4) n

-- A task with no groups counts as being in its own one.
abbrev pub listed : Task → List ℕ
listed t = if length t.groups == 0 then t.gid ∷ [] else t.groups

-- `getgroups` on the caller's task, for a `size` that is not negative
unfoldable pub getgroups : UserMemory → ℕ → ℕ → Task → SyscallResult × Writes
getgroups m size list t =
    let count = length (listed t) in
    if size == 0
    then (pos count, [])
    else if ltb size count
    then (into Errno.einval, [])
    else if list == 0
    then (into Errno.efault, [])
    else if validate_user_ptr_write m list (count * 4)
    then (pos count, write_words list (listed t))
    else (into Errno.efault, [])

-- `size` is an `i32`.
unfoldable pub sys_getgroups : UserMemory → ℤ → ℕ → Kernel → SyscallResult × Writes
sys_getgroups m (pos size) list k = read_current k (into Errno.esrch, []) (getgroups m size list)
sys_getgroups m (negsuc n) list k = (into Errno.einval, [])

unfoldable pub setgroups : UserMemory → ℕ → ℕ → Task → SyscallResult × Task
setgroups m size list t =
    if not (t.euid == 0)
    then (into Errno.eperm, t)
    else if size == 0
    then (pos 0, record t { groups = [] })
    else if list == 0
    then (into Errno.efault, t)
    else if validate_user_ptr m list (size * 4)
    then (pos 0, record t { groups = read_words m list size })
    else (into Errno.efault, t)

unfoldable pub sys_setgroups : UserMemory → ℕ → ℕ → Kernel → SyscallResult × Kernel
sys_setgroups m size list k =
    if ltb 32 size then (into Errno.einval, k) else on_current k (setgroups m size list)
