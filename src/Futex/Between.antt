-- ===== src/Futex/Between.antt =====
-- A wait and the waits of other tasks that begin and end before it does
-- (kernel/src/syscall/process/futex.rs).
use kontsnor_os.Prelude.{
  ℕ, ◌≡◌, refl, sym, ap, ◌∙◌, true, false, Bool-cases, inl, inr, List, [], ◌∷◌, ◌++◌, Option, none,
  some, ◌==◌, arith,
}
use mathlib.Core.Path.{subst}
use kontsnor_os.Futex.{
  FutexKey, FutexWaiter, key_eq, FutexQueues, queue_or_empty, unless_empty, without_pid,
  wait_enqueue, wait_cleanup,
}
use kontsnor_os.Futex.Requeue.{append_nil}
use kontsnor_os.Futex.Removal.{
  without_pid-append, without_pid_comm, without_pid-OtherTasks, enqueue_same, enqueue_other,
  cleanup_same, cleanup_other,
}
use kontsnor_os.Futex.Wake.{queue_at, queue_unless_empty, key_eq-≡}
use kontsnor_os.Futex.Stale.{OtherTasks, is_some_empty}

-- A wait of some task begins, or ends without having been woken.
pub data Turn : Type 0 where
  begins : FutexKey → FutexWaiter → Turn
  ends : (pid : ℕ) → FutexKey → Turn

abbrev pub turn : Turn → FutexQueues → FutexQueues
turn (begins key w) queues = wait_enqueue key w queues
turn (ends pid key) queues = wait_cleanup pid key queues

abbrev pub task : Turn → ℕ
task (begins key w) = w.pid
task (ends pid key) = pid

pub turns : List Turn → FutexQueues → FutexQueues
turns [] queues = queues
turns (t ∷ ts) queues = turns ts (turn t queues)

abbrev pub OfOthers : (pid : ℕ) → List Turn → Type 0
OfOthers pid [] = Unit
OfOthers pid (t ∷ ts) = (task t == pid ≡ false) × OfOthers pid ts

-- The queues `with` are `without` and, at the key, waiters of the task.
abbrev Added : (pid : ℕ) → FutexKey → (with without : FutexQueues) → Type 0
Added pid key with without =
    ((k : FutexKey) → key_eq k key ≡ false → with k ≡ without k)
    × (queue_at without key ≡ without_pid pid (queue_at with key))
    × (is_some_empty (with key) ≡ false)
    × (is_some_empty (without key) ≡ false)

unless_empty_full : (q : List FutexWaiter) → is_some_empty (unless_empty q) ≡ false
unless_empty_full [] = refl
unless_empty_full (w ∷ q) = refl

append_full :
    (q : List FutexWaiter) (w : FutexWaiter) → is_some_empty (some (q ++ (w ∷ []))) ≡ false
append_full [] w = refl
append_full (x ∷ q) w = refl

module _ (pid : ℕ) (key : FutexKey) (a b : FutexQueues) (h : Added pid key a b) where
  Added-cleanup : (k : FutexKey) → wait_cleanup pid key a k ≡ b k
  Added-cleanup k = elim (Bool-cases (key_eq k key)) [
    | inl d ↦
        let is : k ≡ key = key_eq-≡ k key d in
        rw is (cleanup_same key a pid ∙ ap unless_empty (sym h.1) ∙ of_option (b key) h.3)
    | inr d ↦ cleanup_other key a pid k d ∙ h.0 k d
  ]
    where
      of_option :
          (o : Option (List FutexWaiter))
          → is_some_empty o ≡ false
          → unless_empty (queue_or_empty o) ≡ o
      of_option none full = refl
      of_option (some []) full = absurd (cc)
      of_option (some (w ∷ q)) full = refl

-- An operation on the queue at one key that commutes with the removal of the task's waiters.
module _ (pid : ℕ) (place : FutexKey) (f : FutexQueues → FutexQueues)
    (g : List FutexWaiter → Option (List FutexWaiter))
    (same : (queues : FutexQueues) → f queues place ≡ g (queue_at queues place))
    (other : (queues : FutexQueues) (k : FutexKey) → key_eq k place ≡ false → f queues k ≡ queues k)
    (full : (q : List FutexWaiter) → is_some_empty (g q) ≡ false)
    (commutes : (q : List FutexWaiter)
      → queue_or_empty (g (without_pid pid q)) ≡ without_pid pid (queue_or_empty (g q)))
    (a b : FutexQueues) where
  Added-here : Added pid place a b → Added pid place (f a) (f b)
  Added-here h = (
    (λ k d. other a k d ∙ h.0 k d ∙ sym (other b k d)),
    ap queue_or_empty (same b)
        ∙ ap (λ q. queue_or_empty (g q)) h.1
        ∙ commutes (queue_at a place)
        ∙ ap (λ o. without_pid pid (queue_or_empty o)) (sym (same a)),
    ap is_some_empty (same a) ∙ full (queue_at a place),
    ap is_some_empty (same b) ∙ full (queue_at b place),
  )

  Added-there :
      (key : FutexKey) → key_eq key place ≡ false → Added pid key a b → Added pid key (f a) (f b)
  Added-there key apart h = (
    (λ k d. elim (Bool-cases (key_eq k place)) [
      | inl e ↦
          let is : k ≡ place = key_eq-≡ k place e in
          let equal : queue_at a place ≡ queue_at b place =
            ap queue_or_empty (ap a (sym is) ∙ h.0 k d ∙ ap b is) in
          ap (f a) is ∙ same a ∙ ap g equal ∙ sym (same b) ∙ ap (f b) (sym is)
      | inr e ↦ other a k e ∙ h.0 k d ∙ sym (other b k e)
    ]),
    ap queue_or_empty (other b key apart)
        ∙ h.1
        ∙ ap (λ o. without_pid pid (queue_or_empty o)) (sym (other a key apart)),
    ap is_some_empty (other a key apart) ∙ h.2,
    ap is_some_empty (other b key apart) ∙ h.3,
  )

  Added-kept : (key : FutexKey) → Added pid key a b → Added pid key (f a) (f b)
  Added-kept key h = elim (Bool-cases (key_eq key place)) [
    | inl d ↦
        let is : key ≡ place = key_eq-≡ key place d in
        subst (λ k. Added pid k (f a) (f b)) (sym is)
          (Added-here (subst (λ k. Added pid k a b) is h))
    | inr d ↦ Added-there key d h
  ]

Added-turn :
    (pid : ℕ) (key : FutexKey) (a b : FutexQueues) (t : Turn)
    → task t == pid ≡ false
    → Added pid key a b
    → Added pid key (turn t a) (turn t b)
unfolding without_pid
Added-turn pid key a b (begins place w) ne h =
    Added-kept pid place (λ z. wait_enqueue place w z) (λ q. some (q ++ (w ∷ [])))
      (λ z. enqueue_same place z w) (λ z. enqueue_other place z w) (λ q. append_full q w)
      (λ q. sym (without_pid-append pid q (w ∷ []) ∙ rw ne refl)) a b key h
Added-turn pid key a b (ends other place) ne h =
    Added-kept pid place (λ z. wait_cleanup other place z) (λ q. unless_empty (without_pid other q))
      (λ z. cleanup_same place z other) (λ z. cleanup_other place z other)
      (λ q. unless_empty_full (without_pid other q))
      (λ q.
        queue_unless_empty (without_pid other (without_pid pid q))
        ∙ without_pid_comm other pid q
        ∙ ap (without_pid pid) (sym (queue_unless_empty (without_pid other q))))
      a b key h

Added-turns :
    (pid : ℕ) (key : FutexKey) (ts : List Turn) (a b : FutexQueues)
    → OfOthers pid ts
    → Added pid key a b
    → Added pid key (turns ts a) (turns ts b)
unfolding turns
Added-turns pid key [] a b others h = h
Added-turns pid key (t ∷ ts) a b (ne, others) h =
    Added-turns pid key ts (turn t a) (turn t b) others (Added-turn pid key a b t ne h)

-- When a task begins a wait and cleans up after it, and in between other tasks have only begun waits and
-- cleaned up after theirs, at any keys, then each queue is what it would be without the task's wait. The
-- condition is that at the key the task had no waiter before, and the map no empty queue.
pub wait_enqueue-cleanup :
    (key : FutexKey) (w : FutexWaiter) (queues : FutexQueues) (ts : List Turn)
    → OtherTasks w.pid (queue_at queues key)
    → is_some_empty (queues key) ≡ false
    → OfOthers w.pid ts
    → (k : FutexKey)
    → wait_cleanup w.pid key (turns ts (wait_enqueue key w queues)) k ≡ turns ts queues k
unfolding without_pid
wait_enqueue-cleanup key w queues ts alone full others =
    Added-cleanup w.pid key (turns ts (wait_enqueue key w queues)) (turns ts queues)
      (Added-turns w.pid key ts (wait_enqueue key w queues) queues others begun)
  where
    own : w.pid == w.pid ≡ true
    own = ground arith

    begun : Added w.pid key (wait_enqueue key w queues) queues
    begun = (
      enqueue_other key queues w,
      sym (
          ap (λ o. without_pid w.pid (queue_or_empty o)) (enqueue_same key queues w)
          ∙ without_pid-append w.pid (queue_at queues key) (w ∷ [])
          ∙ rw own (append_nil (without_pid w.pid (queue_at queues key)))
          ∙ without_pid-OtherTasks w.pid (queue_at queues key) alone),
      ap is_some_empty (enqueue_same key queues w) ∙ append_full (queue_at queues key) w,
      full,
    )
