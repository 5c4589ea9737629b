-- ===== src/Creds/Ids.antt =====
-- The user and group IDs: getuid to setregid, and `calculate_exec_creds`, of
-- kernel/src/syscall/process/creds.rs. An ID is a `u32`, and u32::MAX leaves an ID as it is.
use Prim.Native.Nat.{bit_and}
use kontsnor_os.Prelude.{ℕ, Bool, List, [], ◌∷◌, ◌==◌, ◌&&◌, ◌||◌, not, if◌then◌else◌}
use kontsnor_os.Prelude.Word.{pos, u32_max}
use kontsnor_os.Errno.{SyscallResult, into, Errno}
use kontsnor_os.UserPtr.{UserMemory, validate_user_ptr_write}
use kontsnor_os.Tasks.{Task, Kernel, on_current, read_current}

unfoldable pub sys_getuid : Kernel → SyscallResult
sys_getuid k = read_current k (pos 0) (λ t. pos t.uid)

unfoldable pub sys_getgid : Kernel → SyscallResult
sys_getgid k = read_current k (pos 0) (λ t. pos t.gid)

unfoldable pub sys_geteuid : Kernel → SyscallResult
sys_geteuid k = read_current k (pos 0) (λ t. pos t.euid)

unfoldable pub sys_getegid : Kernel → SyscallResult
sys_getegid k = read_current k (pos 0) (λ t. pos t.egid)

unfoldable pub calculate_exec_creds : (mode file_uid file_gid real_uid real_gid : ℕ) → ℕ × ℕ
calculate_exec_creds mode file_uid file_gid real_uid real_gid = (
  if not (bit_and mode 0o4000 == 0) then file_uid else real_uid,
  if not (bit_and mode 0o2000 == 0) then file_gid else real_gid,
)

-- `setuid` on the caller's task; so for each call below.
unfoldable pub setuid : ℕ → Task → SyscallResult × Task
setuid uid t =
    if t.euid == 0
    then (pos 0, record t { uid = uid; euid = uid })
    else if uid == t.uid
    then (pos 0, record t { euid = uid })
    else (into Errno.eperm, t)

unfoldable pub sys_setuid : ℕ → Kernel → SyscallResult × Kernel
sys_setuid uid k = on_current k (setuid uid)

unfoldable pub setgid : ℕ → Task → SyscallResult × Task
setgid gid t =
    if t.egid == 0
    then (pos 0, record t { gid = gid; egid = gid })
    else if gid == t.gid
    then (pos 0, record t { egid = gid })
    else (into Errno.eperm, t)

unfoldable pub sys_setgid : ℕ → Kernel → SyscallResult × Kernel
sys_setgid gid k = on_current k (setgid gid)

-- `id == u32::MAX || id == a || id == b`, the negation of the source's refusal.
abbrev pub allowed2 : (id a b : ℕ) → Bool
allowed2 id a b = id == u32_max || (id == a || id == b)

abbrev pub allowed3 : (id a b c : ℕ) → Bool
allowed3 id a b c = id == u32_max || (id == a || (id == b || id == c))

-- `if id != u32::MAX { field = id }`
abbrev pub choose : ℕ → ℕ → ℕ
choose id old = if id == u32_max then old else id

unfoldable pub setresuid : (ruid euid suid : ℕ) → Task → SyscallResult × Task
setresuid ruid euid suid t =
    let refused =
      not (t.euid == 0)
      && (not (allowed3 ruid t.uid t.euid t.suid)
          || (not (allowed3 euid t.uid t.euid t.suid)
              || not (allowed3 suid t.uid t.euid t.suid))) in
    if refused then (into Errno.eperm, t) else (
      pos 0,
      record t { uid = choose ruid t.uid; euid = choose euid t.euid; suid = choose suid t.suid },
    )

unfoldable pub sys_setresuid : (ruid euid suid : ℕ) → Kernel → SyscallResult × Kernel
sys_setresuid ruid euid suid k = on_current k (setresuid ruid euid suid)

unfoldable pub setresgid : (rgid egid sgid : ℕ) → Task → SyscallResult × Task
setresgid rgid egid sgid t =
    let refused =
      not (t.euid == 0)
      && (not (allowed3 rgid t.gid t.egid t.sgid)
          || (not (allowed3 egid t.gid t.egid t.sgid)
              || not (allowed3 sgid t.gid t.egid t.sgid))) in
    if refused then (into Errno.eperm, t) else (
      pos 0,
      record t { gid = choose rgid t.gid; egid = choose egid t.egid; sgid = choose sgid t.sgid },
    )

unfoldable pub sys_setresgid : (rgid egid sgid : ℕ) → Kernel → SyscallResult × Kernel
sys_setresgid rgid egid sgid k = on_current k (setresgid rgid egid sgid)

unfoldable pub setreuid : (ruid euid : ℕ) → Task → SyscallResult × Task
setreuid ruid euid t =
    let refused =
      not (t.euid == 0)
      && (not (allowed2 ruid t.uid t.euid) || not (allowed3 euid t.uid t.euid t.suid)) in
    if refused
    then (into Errno.eperm, t)
    else (pos 0, record t { uid = choose ruid t.uid; euid = choose euid t.euid })

unfoldable pub sys_setreuid : (ruid euid : ℕ) → Kernel → SyscallResult × Kernel
sys_setreuid ruid euid k = on_current k (setreuid ruid euid)

unfoldable pub setregid : (rgid egid : ℕ) → Task → SyscallResult × Task
setregid rgid egid t =
    let refused =
      not (t.euid == 0)
      && (not (allowed2 rgid t.gid t.egid) || not (allowed3 egid t.gid t.egid t.sgid)) in
    if refused
    then (into Errno.eperm, t)
    else (pos 0, record t { gid = choose rgid t.gid; egid = choose egid t.egid })

unfoldable pub sys_setregid : (rgid egid : ℕ) → Kernel → SyscallResult × Kernel
sys_setregid rgid egid k = on_current k (setregid rgid egid)

-- Words written to user memory, in order: the address and the value.
abbrev pub Writes : Type 0
Writes = List (ℕ × ℕ)

-- One optional result of `getresuid`: `rest` runs unless the pointer is bad.
abbrev pub put_id : UserMemory → ℕ → ℕ → SyscallResult × Writes → SyscallResult × Writes
put_id m ptr id rest =
    if ptr == 0
    then rest
    else if validate_user_ptr_write m ptr 4
    then (rest.0, (ptr, id) ∷ rest.1)
    else (into Errno.efault, [])

unfoldable pub getresuid : UserMemory → (ruid euid suid : ℕ) → Task → SyscallResult × Writes
getresuid m ruid euid suid t =
    put_id m ruid t.uid (put_id m euid t.euid (put_id m suid t.suid (pos 0, [])))

unfoldable pub getresgid : UserMemory → (rgid egid sgid : ℕ) → Task → SyscallResult × Writes
getresgid m rgid egid sgid t =
    put_id m rgid t.gid (put_id m egid t.egid (put_id m sgid t.sgid (pos 0, [])))

unfoldable pub sys_getresuid : UserMemory → (ruid euid suid : ℕ) → Kernel → SyscallResult × Writes
sys_getresuid m ruid euid suid k =
    read_current k (into Errno.esrch, []) (getresuid m ruid euid suid)

unfoldable pub sys_getresgid : UserMemory → (rgid egid sgid : ℕ) → Kernel → SyscallResult × Writes
sys_getresgid m rgid egid sgid k =
    read_current k (into Errno.esrch, []) (getresgid m rgid egid sgid)
