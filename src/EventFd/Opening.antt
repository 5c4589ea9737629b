-- ===== src/EventFd/Opening.antt =====
-- Opening an event counter: `sys_eventfd2` of kernel/src/fs/eventfd.rs on the descriptor table.
use kontsnor_os.Prelude.{ℕ, ◌≤◌, ◌≡◌, ap, ◌∙◌, inl, inr, ltb, if◌then◌else◌, Bool-cases}
use kontsnor_os.Prelude.Word.{pos}
use kontsnor_os.Errno.{emfile, into}
use kontsnor_os.FdTable.{Files}
use kontsnor_os.FdTable.Hint.{IsHint}
use kontsnor_os.FdTable.Lowest.{first_free}
use kontsnor_os.FdTable.Opening.{alloc_fd_lowest, alloc_fd_full}
use kontsnor_os.EventFd.{fd_result, eventfd_open_flags, sys_eventfd2}

-- Opening an event counter returns the lowest free descriptor number where that is below the limit,
-- and is else refused with EMFILE and leaves the descriptors as they were.
pub sys_eventfd2_lowest :
    (initval flags inode : ℕ) (f : Files)
    → IsHint f.table
    → ((sys_eventfd2 initval flags inode f).0 ≡ (
        if ltb (first_free f.table.entries) f.rlimit
        then pos (first_free f.table.entries)
        else into emfile))
      × (f.rlimit ≤ first_free f.table.entries → (sys_eventfd2 initval flags inode f).2 ≡ f)
unfolding sys_eventfd2
sys_eventfd2_lowest initval flags inode f hint =
    let open_flags = eventfd_open_flags flags in
    let number = alloc_fd_lowest inode open_flags f hint in
    (
      elim (Bool-cases (ltb (first_free f.table.entries) f.rlimit)) [
        | inl room ↦ rw room (ap fd_result number ∙ rw room)
        | inr low ↦ rw low (ap fd_result number ∙ rw low)
      ],
      (λ full. ap (λ r. r.1) (alloc_fd_full inode open_flags f hint full)),
    )
