-- ===== src/EventFd/Tests.antt =====
-- The event counter on small values.
use kontsnor_os.Prelude.{
  ℕ, ◌-◌, ◌≡◌, refl, true, false, List, [], ◌∷◌, ◌++◌, some, drop, replicate, arith,
}
use kontsnor_os.Prelude.Word.{u64_max}
use kontsnor_os.Errno.{eagain, into, ok, err}
use kontsnor_os.FdTable.{Files}
use kontsnor_os.FdTable.Hint.{IsHint}
use kontsnor_os.EventFd.{
  EventFd, WakeUp, wake_all, new_eventfd, to_bytes, read, write, poll, pollout,
}
use kontsnor_os.EventFd.Counter.{write_maximum, read_semaphore}
use kontsnor_os.EventFd.Bounds.{IsBounded, AllBounded}

abbrev three : List ℕ
three = 3 ∷ 0 ∷ 0 ∷ 0 ∷ 0 ∷ 0 ∷ 0 ∷ 0 ∷ []

abbrev space : List ℕ
space = replicate 9 1

abbrev five : EventFd
five = new_eventfd 5 false

abbrev near_full : EventFd
near_full = record (new_eventfd (u64_max - 4) false) { nonblocking = true }

abbrev emptied : WakeUp
emptied = record { counter_then = 0; nonblocking_then = false }

abbrev one_open : Files
one_open = record {
  table = record { entries = some 0 ∷ []; cloexec = false ∷ []; next_free_fd = 0 };
  rlimit = 4;
  descs = [];
}

five-IsBounded : IsBounded five
unfolding IsBounded
five-IsBounded = omega arith

emptied-AllBounded : AllBounded (emptied ∷ [])
unfolding AllBounded
emptied-AllBounded = (omega arith, tt)

one_open-IsHint : IsHint one_open.table
unfolding IsHint
one_open-IsHint = omega arith

read_semaphore_example :
    read [] (new_eventfd 5 true) space
    ≡ some
        (ok 8, to_bytes 8 1 ++ drop 8 space, wake_all (record (new_eventfd 5 true) { counter = 4 }))
read_semaphore_example =
    read_semaphore (new_eventfd 5 true) space (omega arith) (omega arith) [] refl

write_maximum_example :
    (write [] near_full three ≡ some (err (into eagain), near_full))
    × (poll pollout near_full ≡ pollout)
write_maximum_example = write_maximum [] near_full three (omega arith) refl refl (omega arith)
