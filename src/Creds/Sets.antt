-- ===== src/Creds/Sets.antt =====
-- When the calls on IDs and groups of kernel/src/syscall/process/creds.rs succeed, and what they
-- then set.
use kontsnor_os.Prelude.{
  ℕ, zero, suc, ◌+◌, ◌*◌, ◌≤◌, ◌<◌, ◌≡◌, ◌≢◌, refl, ap, ◌⊎◌, true, [], arith, length, ◌==◌,
  if◌then◌else◌,
}
use kontsnor_os.Prelude.Word.{pos, u32_max}
use kontsnor_os.Errno.{into, Errno}
use kontsnor_os.UserPtr.{UserMemory, validate_user_ptr, validate_user_ptr_write}
use kontsnor_os.Tasks.{Task}
use kontsnor_os.Creds.Ids.{choose, setuid, setresuid}
use kontsnor_os.Creds.Groups.{setgroups, getgroups, write_words, read_words, listed}

-- The IDs that an unprivileged task may ask for: -1, which keeps the old one, and its own three.
abbrev pub MayTake : ℕ → Task → Type 0
MayTake id t = (id ≡ u32_max) ⊎ ((id ≡ t.uid) ⊎ ((id ≡ t.euid) ⊎ (id ≡ t.suid)))

-- `setresuid` returns 0 and sets the IDs that are not -1 if the effective user is 0 or the task
-- may take each of the three, and else returns EPERM and changes nothing.
pub setresuid_lem :
    (r e s : ℕ) (t : Task)
    → (((t.euid ≡ 0) ⊎ (MayTake r t × MayTake e t × MayTake s t))
        × (setresuid r e s t ≡ (
          pos 0,
          record t { uid = choose r t.uid; euid = choose e t.euid; suid = choose s t.suid },
        )))
      ⊎ ((¬ ((t.euid ≡ 0) ⊎ (MayTake r t × MayTake e t × MayTake s t)))
          × (setresuid r e s t ≡ (into Errno.eperm, t)))
unfolding setresuid
setresuid_lem r e s t = ground arith

-- `setuid` by a superuser sets the real and the effective ID; by another task it sets the
-- effective ID if the real ID is asked for, and else returns EPERM and changes nothing.
pub setuid_lem :
    (u : ℕ) (t : Task)
    → ((t.euid ≡ 0) × (setuid u t ≡ (pos 0, record t { uid = u; euid = u })))
      ⊎ (((t.euid ≢ 0) × (u ≡ t.uid) × (setuid u t ≡ (pos 0, record t { euid = t.uid })))
          ⊎ ((t.euid ≢ 0) × (u ≢ t.uid) × (setuid u t ≡ (into Errno.eperm, t))))
unfolding setuid
setuid_lem u t = ground arith

length-read_words : (m : UserMemory) (ptr n : ℕ) → length (read_words m ptr n) ≡ n
unfolding read_words
length-read_words m ptr zero = refl
length-read_words m ptr (suc n) = ap suc (length-read_words m (ptr + 4) n)

-- The groups that a superuser sets from a list in user memory are those that `getgroups` then
-- writes, in order, to a slice with room for them.
pub setgroups-getgroups :
    (m m' : UserMemory) (size list size' list' : ℕ) (t : Task)
    → t.euid ≡ 0
    → 0 < size
    → list ≢ 0
    → validate_user_ptr m list (size * 4) ≡ true
    → size ≤ size'
    → list' ≢ 0
    → validate_user_ptr_write m' list' (size * 4) ≡ true
    → let (r, t') = setgroups m size list t in
      (r ≡ pos 0)
      × (getgroups m' size' list' t' ≡ (pos size, write_words list' (read_words m list size)))
unfolding setgroups getgroups
setgroups-getgroups m m' size list size' list' t root some_groups ok_list ok room ok_list' ok' =
    ground (arith, length-read_words m list size)

-- A slice that is too short for the groups, of which there is always one, is refused, and a size
-- of 0 asks for their number; neither writes anything.
pub getgroups_short :
    (m : UserMemory) (size list : ℕ) (t : Task)
    → size < length (listed t)
    → (0 < length (listed t))
      × (getgroups m size list t
          ≡ (if size == 0 then pos (length (listed t)) else into Errno.einval, []))
unfolding getgroups
getgroups_short m size list t short = ground arith
