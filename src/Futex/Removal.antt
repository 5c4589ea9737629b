-- ===== src/Futex/Removal.antt =====
-- What putting a waiter in and taking a task's waiters out does to one queue
-- (kernel/src/syscall/process/futex.rs).
use kontsnor_os.Prelude.{
  ℕ, ◌≡◌, refl, ap, false, Bool-cases, inl, inr, List, [], ◌∷◌, ◌++◌, Option, none, some, ◌==◌,
}
use kontsnor_os.Futex.{
  FutexKey, FutexWaiter, key_eq, FutexQueues, queue_or_empty, unless_empty, without_pid,
  wait_enqueue, wait_cleanup,
}
use kontsnor_os.Futex.Wake.{queue_at, key_eq_refl}
use kontsnor_os.Futex.Stale.{OtherTasks}

pub without_pid-append :
    (pid : ℕ) (q r : List FutexWaiter)
    → without_pid pid (q ++ r) ≡ without_pid pid q ++ without_pid pid r
unfolding without_pid
without_pid-append pid [] r = refl
without_pid-append pid (x ∷ q) r = elim (Bool-cases (x.pid == pid)) [
  | inl d ↦ rw (d, without_pid) (without_pid-append pid q r)
  | inr d ↦ rw (d, without_pid) (ap (λ l. x ∷ l) (without_pid-append pid q r))
]

pub without_pid_comm :
    (a b : ℕ) (q : List FutexWaiter)
    → without_pid a (without_pid b q) ≡ without_pid b (without_pid a q)
unfolding without_pid
without_pid_comm a b [] = refl
without_pid_comm a b (x ∷ q) = elim (Bool-cases (x.pid == a)) [
  | inl d ↦ elim (Bool-cases (x.pid == b)) [
    | inl e ↦ rw (d, e, without_pid) (without_pid_comm a b q)
    | inr e ↦ rw (d, e, without_pid, d) (without_pid_comm a b q)
  ]
  | inr d ↦ elim (Bool-cases (x.pid == b)) [
    | inl e ↦ rw (d, e, without_pid) (without_pid_comm a b q)
    | inr e ↦ rw (d, e, without_pid, d) (ap (λ l. x ∷ l) (without_pid_comm a b q))
  ]
]

pub without_pid-OtherTasks :
    (pid : ℕ) (q : List FutexWaiter) → OtherTasks pid q → without_pid pid q ≡ q
unfolding without_pid
without_pid-OtherTasks pid [] others = refl
without_pid-OtherTasks pid (x ∷ q) (d, others) =
    rw d (ap (λ l. x ∷ l) (without_pid-OtherTasks pid q others))

module _ (key : FutexKey) (queues : FutexQueues) where
  module _ (w : FutexWaiter) where
    pub enqueue_same : wait_enqueue key w queues key ≡ some (queue_at queues key ++ (w ∷ []))
    unfolding wait_enqueue
    enqueue_same = rw (key_eq_refl key, wait_enqueue) refl

    pub enqueue_other :
        (k : FutexKey) → key_eq k key ≡ false → wait_enqueue key w queues k ≡ queues k
    unfolding wait_enqueue
    enqueue_other k d = rw (d, wait_enqueue) refl

  module _ (pid : ℕ) where
    pub cleanup_same :
        wait_cleanup pid key queues key ≡ unless_empty (without_pid pid (queue_at queues key))
    unfolding wait_cleanup without_pid
    cleanup_same = of_queue (queues key) refl
      where
        of_queue :
            (o : Option (List FutexWaiter))
            → queues key ≡ o
            → wait_cleanup pid key queues key ≡ unless_empty (without_pid pid (queue_or_empty o))
        of_queue none is = rw (is, wait_cleanup) is
        of_queue (some q) is = rw (is, wait_cleanup, key_eq_refl key) refl

    pub cleanup_other :
        (k : FutexKey) → key_eq k key ≡ false → wait_cleanup pid key queues k ≡ queues k
    unfolding wait_cleanup
    cleanup_other k d = of_queue (queues key) refl
      where
        of_queue :
            (o : Option (List FutexWaiter))
            → queues key ≡ o
            → wait_cleanup pid key queues k ≡ queues k
        of_queue none is = rw (is, wait_cleanup) refl
        of_queue (some q) is = rw (is, wait_cleanup, d) refl
