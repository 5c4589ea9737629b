-- ===== src/Futex/Tests.antt =====
-- Concrete queues (kernel/src/syscall/process/futex.rs).
use kontsnor_os.Prelude.{Option, ℕ, ◌≡◌, refl, List, [], ◌∷◌, ◌++◌, none, some, if◌then◌else◌}
use kontsnor_os.Prelude.Word.{pos}
use kontsnor_os.Futex.Call.{Woken, futex_wake-Woken}
use kontsnor_os.Futex.{
  get_futex_key, keys_to_wake, wake_bitset, futex_wake, FutexKey, FutexWaiter, key_eq, FutexQueues,
  requeue, pids_of, take, drop, wait_enqueue, wait_cleanup,
}
use kontsnor_os.Futex.Wake.{queue_at}
use kontsnor_os.Futex.Requeue.{Moved, requeue-Moved, requeue_same}
use kontsnor_os.Futex.Stale.{requeue-cleanup}
use kontsnor_os.Futex.Between.{Turn, begins, ends, turns, wait_enqueue-cleanup}

abbrev key_a : FutexKey
key_a = record { space_id = 5; uaddr = 0x1000 }

abbrev key_b : FutexKey
key_b = record { space_id = 5; uaddr = 0x2000 }

abbrev waiter : (pid bitset : ℕ) → FutexWaiter
waiter pid bitset = record { pid = pid; bitset = bitset; deadline = none }

abbrev three_waiters : List FutexWaiter
three_waiters = waiter 10 1 ∷ waiter 11 2 ∷ waiter 12 1 ∷ []

abbrev queues : FutexQueues
queues k = if key_eq k key_a then some three_waiters else none

abbrev no_phys : ℕ → Option ℕ
no_phys a = none

futex_wake-Woken_example :
    Woken 2
      (wake_bitset 10 (pos 1))
      (get_futex_key 5 no_phys 0x1000 138)
      (keys_to_wake 5 no_phys 0x1000 138)
      queues
      (futex_wake 5 no_phys 10 0x1000 138 (pos 2) (pos 1) queues)
futex_wake-Woken_example = futex_wake-Woken 5 no_phys 10 0x1000 138 (pos 2) (pos 1) queues

requeue-Moved_example :
    let (pids, after) = requeue 1 1 key_a key_b queues in
    (pids ≡ pids_of (take 1 three_waiters))
    × Moved 1 key_a key_b (drop 1 three_waiters) queues after
requeue-Moved_example = requeue-Moved 1 1 key_a key_b three_waiters queues refl refl

requeue_same_example :
    let (pids, after) = requeue 1 1 key_a key_a queues in
    (pids ≡ pids_of (take 1 three_waiters)) × (after key_a ≡ some (drop 1 (drop 1 three_waiters)))
requeue_same_example = requeue_same 1 1 key_a three_waiters [] (waiter 12 1) queues refl refl

-- Another task waits at the key, and a third leaves it.
abbrev others : List Turn
others = begins key_a (waiter 14 1) ∷ ends 10 key_a ∷ []

wait_enqueue-cleanup_example :
    wait_cleanup 13 key_a (turns others (wait_enqueue key_a (waiter 13 1) queues)) key_a
    ≡ turns others queues key_a
wait_enqueue-cleanup_example =
    wait_enqueue-cleanup key_a (waiter 13 1) queues others (refl, (refl, (refl, tt))) refl
      (refl, (refl, tt)) key_a

requeue-cleanup_example :
    queue_at (wait_cleanup 11 key_a (requeue 1 1 key_a key_b queues).1) key_b
    ≡ queue_at queues key_b ++ take 1 (drop 1 three_waiters)
requeue-cleanup_example = requeue-cleanup 1 1 key_a key_b three_waiters queues 11 refl refl
