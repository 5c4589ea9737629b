-- ===== src/FdTable/Opening.antt =====
-- Opening a file on the descriptor table: `current_task_alloc_fd_with_flags_and_path` of
-- kernel/src/process/fd.rs.
use Prim.Native.Nat.{bit_and}
use kontsnor_os.Prelude.{
  ℕ, ◌≤◌, ◌≡◌, inl, inr, none, some, ltb, ◌==◌, not, if◌then◌else◌, Bool-cases, length, arith,
}
use kontsnor_os.FdTable.{Files, alloc_fd, o_cloexec}
use kontsnor_os.FdTable.Hint.{IsHint}
use kontsnor_os.FdTable.Lowest.{
  first_free, first_free-length, alloc_slot-none, alloc_slot-place, alloc_slot-extend,
}

module _ (inode flags : ℕ) (f : Files) (hint : IsHint f.table) where
  pub alloc_fd_lowest : (alloc_fd inode flags f).0 ≡ (
      if ltb (first_free f.table.entries) f.rlimit then some (first_free f.table.entries) else none)
  unfolding alloc_fd IsHint
  alloc_fd_lowest =
      let es = f.table.entries in
      let d = length f.descs in
      let flag = not (bit_and flags o_cloexec == 0) in
      let le = first_free-length es in
      elim (Bool-cases (ltb (first_free es) f.rlimit)) [
        | inl room ↦ elim (Bool-cases (ltb (first_free es) (length es))) [
          | inl inside ↦ rw (
            room,
            alloc_slot-place f.table f.rlimit d flag hint (ground (arith, room))
                (ground (arith, inside)),
            alloc_fd,
          )
          | inr full ↦
              let f' : length es ≤ first_free es = ground (arith, full) in
              let same : length es ≡ first_free es = omega (arith, le, f') in
              rw (
                room,
                alloc_slot-extend f.table f.rlimit d flag hint (ground (arith, room)) f',
                alloc_fd,
                same,
              )
        ]
        | inr low ↦ rw (
          low,
          alloc_slot-none f.table f.rlimit d flag (ground (arith, low)) (omega (arith, hint, le)),
          alloc_fd,
        )
      ]

  pub alloc_fd_full : f.rlimit ≤ first_free f.table.entries → alloc_fd inode flags f ≡ (none, f)
  unfolding alloc_fd IsHint
  alloc_fd_full full =
      let le = first_free-length f.table.entries in
      let flag = not (bit_and flags o_cloexec == 0) in
      rw (
        alloc_slot-none f.table f.rlimit (length f.descs) flag full (omega (arith, hint, le)),
        alloc_fd,
      )
