-- ===== src/Futex/Stale.antt =====
-- The waiters that a wait leaves behind, and those of a task that ends (kernel/src/syscall/process/futex.rs).
use kontsnor_os.Prelude.{
  ℕ, ◌≡◌, refl, sym, ◌∙◌, Bool, true, false, Bool-cases, inl, inr, List, [], ◌∷◌, ◌++◌, Option,
  none, some, ◌==◌, arith,
}
use mathlib.Core.Path.{subst}
use kontsnor_os.Futex.{
  FutexKey, FutexWaiter, key_eq, FutexQueues, unless_empty, requeue, take, drop, without_pid,
  wait_cleanup, futex_drain_pid,
}
use kontsnor_os.Futex.Wake.{queue_at, queue_unless_empty}
use kontsnor_os.Futex.Requeue.{requeue-Moved}

-- No waiter is one of the task.
abbrev pub OtherTasks : (pid : ℕ) → List FutexWaiter → Type 0
OtherTasks pid [] = Unit
OtherTasks pid (w ∷ q) = (w.pid == pid ≡ false) × OtherTasks pid q

abbrev pub is_some_empty : Option (List FutexWaiter) → Bool
is_some_empty none = false
is_some_empty (some []) = true
is_some_empty (some (w ∷ q)) = false

-- The waiters that a call has moved to another key are still queued there when their tasks have ended their
-- waits, which clean up the first key alone.
pub requeue-cleanup :
    (n m : ℕ) (key1 key2 : FutexKey) (q : List FutexWaiter) (queues : FutexQueues) (pid : ℕ)
    → key_eq key1 key2 ≡ false
    → queues key1 ≡ some q
    → queue_at (wait_cleanup pid key1 (requeue n m key1 key2 queues).1) key2
      ≡ queue_at queues key2 ++ take m (drop n q)
unfolding wait_cleanup
requeue-cleanup n m key1 key2 q queues pid apart e =
    of_queue (after key1) refl ∙ (requeue-Moved n m key1 key2 q queues apart e).1.1
  where
    after : FutexQueues
    after = (requeue n m key1 key2 queues).1

    of_queue :
        (o : Option (List FutexWaiter))
        → after key1 ≡ o
        → queue_at (wait_cleanup pid key1 after) key2 ≡ queue_at after key2
    of_queue none is = rw (is, wait_cleanup) refl
    of_queue (some l) is =
        let apart' : key_eq key2 key1 ≡ false = ground (arith, apart) in
        rw (is, wait_cleanup, apart') refl

-- When a task has been drained, no queue holds a waiter of it, and no queue is empty.
pub futex_drain_pid-OtherTasks :
    (pid : ℕ) (queues : FutexQueues) (k : FutexKey)
    → OtherTasks pid (queue_at (futex_drain_pid pid queues) k)
      × (is_some_empty (futex_drain_pid pid queues k) ≡ false)
unfolding futex_drain_pid without_pid
futex_drain_pid-OtherTasks pid queues k =
    let q = without_pid pid (queue_at queues k) in
    (
      subst (OtherTasks pid) (sym (queue_unless_empty q))
          (without_pid-OtherTasks (queue_at queues k)),
      full q,
    )
  where
    full : (q : List FutexWaiter) → is_some_empty (unless_empty q) ≡ false
    full [] = refl
    full (w ∷ q) = refl

    without_pid-OtherTasks : (q : List FutexWaiter) → OtherTasks pid (without_pid pid q)
    without_pid-OtherTasks [] = tt
    without_pid-OtherTasks (w ∷ q) = elim (Bool-cases (w.pid == pid)) [
      | inl d ↦ rw (d, without_pid) (without_pid-OtherTasks q)
      | inr d ↦ rw (d, without_pid) (d, without_pid-OtherTasks q)
    ]
