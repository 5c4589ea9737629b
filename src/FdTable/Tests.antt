-- ===== src/FdTable/Tests.antt =====
-- The descriptor calls on a small table.
use kontsnor_os.Prelude.{◌≡◌, refl, true, false, List, [], ◌∷◌, none, some, get_or, set, arith}
use kontsnor_os.FdTable.{Files, new_desc, entry, alloc_slot, dup_fd, add_ref, exec_close_all}
use kontsnor_os.FdTable.Hint.{IsHint, IsLowest}
use kontsnor_os.FdTable.Calls.{alloc, close, dup, dup2, FdCall, run, run-IsLowest}
use kontsnor_os.FdTable.Exec.{exec_close_all_lem}
use kontsnor_os.FdTable.Sharing.{dup_fd_full}

-- Descriptors 0 and 2 are open, the second with the close-on-exec mark.
abbrev two_open : Files
two_open = record {
  table = record {
    entries = some 0 ∷ none ∷ some 1 ∷ [];
    cloexec = false ∷ false ∷ true ∷ [];
    next_free_fd = 1;
  };
  rlimit = 4;
  descs = new_desc 7 2 ∷ new_desc 8 2 ∷ [];
}

-- One descriptor is open and no more is allowed.
abbrev full : Files
full = record two_open {
  table = record { entries = some 0 ∷ []; cloexec = false ∷ []; next_free_fd = 1 };
  rlimit = 1;
}

abbrev calls : List FdCall
calls = alloc 9 2 ∷ close 0 ∷ dup 2 ∷ dup2 0 3 ∷ close 2 ∷ []

two_open-IsHint : IsHint two_open.table
unfolding IsHint
two_open-IsHint = omega arith

full-IsHint : IsHint full.table
unfolding IsHint
full-IsHint = omega arith

run-IsLowest_example :
    IsLowest (run calls two_open).table 4 9 (alloc_slot (run calls two_open).table 4 9 false)
run-IsLowest_example = run-IsLowest calls two_open 4 9 false two_open-IsHint

dup_fd_full_example :
    dup_fd 0 full ≡ (none, record full { descs = set full.descs 0 (add_ref (new_desc 7 2)) })
dup_fd_full_example = dup_fd_full full 0 0 (new_desc 7 2) full-IsHint (omega arith) refl refl

exec_close_all_lem_example :
    (entry (exec_close_all false two_open).table.entries 2 ≡ none)
    × (get_or (exec_close_all false two_open).table.cloexec 2 false ≡ false)
    × ((exec_close_all false two_open).table.next_free_fd ≡ 1)
exec_close_all_lem_example = exec_close_all_lem false two_open 2 (omega arith)
