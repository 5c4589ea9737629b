-- ===== src/Creds/Caps.antt =====
-- Capabilities, and the file system IDs: capget to setfsgid of
-- kernel/src/syscall/process/creds.rs. A header is the words `version` and `pid`.
use kontsnor_os.Prelude.{ℕ, ◌+◌, ◌*◌, Bool, false, [], ◌∷◌, ◌++◌, ◌==◌, ◌||◌, not, if◌then◌else◌}
use kontsnor_os.Prelude.Word.{ℤ, pos, u32_max}
use kontsnor_os.Errno.{SyscallResult, into, Errno}
use kontsnor_os.UserPtr.{UserMemory, validate_user_ptr, validate_user_ptr_write}
use kontsnor_os.Tasks.{Kernel, read_current}
use kontsnor_os.Creds.Ids.{Writes, sys_getuid, sys_getgid}

pub record CapUserData : Type 0 where
  pub effective : ℕ
  pub permitted : ℕ
  pub inheritable : ℕ

abbrev pub linux_capability_version_1 : ℕ
linux_capability_version_1 = 0x19980330

abbrev pub linux_capability_version_2 : ℕ
linux_capability_version_2 = 0x20071026

abbrev pub linux_capability_version_3 : ℕ
linux_capability_version_3 = 0x20080522

abbrev pub known_version : ℕ → Bool
known_version v =
    v == linux_capability_version_1
    || (v == linux_capability_version_2 || v == linux_capability_version_3)

abbrev pub entries : ℕ → ℕ
entries v = if v == linux_capability_version_1 then 1 else 2

-- `geteuid() == 0`, and it is 0 as well where no task runs.
abbrev pub is_root : Kernel → Bool
is_root k = elim (read_current k (pos 0) (λ t. pos t.euid)) [ pos n ↦ n == 0 | ℤ.negsuc n ↦ false ]

-- The three words of an entry at `ptr`.
abbrev pub write_data : ℕ → CapUserData → Writes
write_data ptr d = (ptr, d.effective) ∷ (ptr + 4, d.permitted) ∷ (ptr + 8, d.inheritable) ∷ []

abbrev pub caps_of : Bool → CapUserData
caps_of root =
    let cap_val = if root then u32_max else 0 in
    record { effective = cap_val; permitted = cap_val; inheritable = 0 }

abbrev pub write_entries : ℕ → ℕ → CapUserData → Writes
write_entries n ptr d =
    if n == 1 then write_data ptr d else write_data ptr d ++ write_data (ptr + 12) d

unfoldable pub sys_capget : UserMemory → (hdrp datap : ℕ) → Kernel → SyscallResult × Writes
sys_capget m hdrp datap k =
    let version = m.word hdrp in
    if hdrp == 0
    then (into Errno.efault, [])
    else if not (validate_user_ptr_write m hdrp 8)
    then (into Errno.efault, [])
    else if not (known_version version)
    then (into Errno.einval, (hdrp, linux_capability_version_3) ∷ [])
    else if datap == 0
    then (pos 0, [])
    else if not (validate_user_ptr_write m datap (entries version * 12))
    then (into Errno.efault, [])
    else (pos 0, write_entries (entries version) datap (caps_of (is_root k)))

unfoldable pub sys_capset : UserMemory → (hdrp datap : ℕ) → Kernel → SyscallResult
sys_capset m hdrp datap k =
    let version = m.word hdrp in
    if hdrp == 0 || datap == 0
    then into Errno.efault
    else if not (validate_user_ptr m hdrp 8)
    then into Errno.efault
    else if not (known_version version)
    then into Errno.einval
    else if not (validate_user_ptr m datap (entries version * 12))
    then into Errno.efault
    else if not (is_root k)
    then into Errno.eperm
    else pos 0

unfoldable pub sys_setfsuid : ℕ → Kernel → SyscallResult
sys_setfsuid fsuid k = sys_getuid k

unfoldable pub sys_setfsgid : ℕ → Kernel → SyscallResult
sys_setfsgid fsgid k = sys_getgid k
