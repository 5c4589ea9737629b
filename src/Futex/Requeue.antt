-- ===== src/Futex/Requeue.antt =====
-- Moving waiters from one key to another (kernel/src/syscall/process/futex.rs).
use kontsnor_os.Prelude.{ℕ, ◌≡◌, refl, sym, ap, false, List, [], ◌∷◌, ◌++◌, none, some, arith}
use kontsnor_os.Futex.{
  FutexKey, FutexWaiter, key_eq, FutexQueues, set_queue, requeue_rest, requeue, pids_of, take, drop,
}
use kontsnor_os.Futex.Wake.{queue_at, key_eq_refl}

-- What the moving does to the queues, `l` being the waiters that are not woken.
abbrev pub Moved :
    (m : ℕ) (key1 key2 : FutexKey) → List FutexWaiter → (before after : FutexQueues) → Type 0
Moved m key1 key2 l before after =
    (queue_at after key1 ≡ drop m l)
    × (queue_at after key2 ≡ queue_at before key2 ++ take m l)
    × ((x : FutexKey) → key_eq x key1 ≡ false → key_eq x key2 ≡ false → after x ≡ before x)

pub append_nil : (q : List FutexWaiter) → q ++ [] ≡ q
append_nil [] = refl
append_nil (w ∷ q) = ap (λ l. w ∷ l) (append_nil q)

key_eq_sym : (a b : FutexKey) → key_eq a b ≡ false → key_eq b a ≡ false
key_eq_sym a b e = ground (arith, e)

requeue_rest-Moved :
    (m : ℕ) (key1 key2 : FutexKey) (l : List FutexWaiter) (queues : FutexQueues)
    → key_eq key1 key2 ≡ false
    → Moved m key1 key2 l queues (requeue_rest m key1 key2 l (set_queue key1 none queues))
unfolding requeue_rest
requeue_rest-Moved m key1 key2 [] queues apart =
    let apart' = key_eq_sym key1 key2 apart in
    (
      (rw (key_eq_refl key1) refl),
      (rw apart' (sym (append_nil (queue_at queues key2)))),
      λ x d1 d2. rw d1 refl,
    )
requeue_rest-Moved m key1 key2 (w ∷ q) queues apart = of_rest (drop m (w ∷ q)) refl
  where
    of_rest :
        (d : List FutexWaiter)
        → drop m (w ∷ q) ≡ d
        → Moved m key1 key2
            (w ∷ q)
            queues
            (requeue_rest m key1 key2 (w ∷ q) (set_queue key1 none queues))
    of_rest [] e =
        let apart' = key_eq_sym key1 key2 apart in
        (
          (rw (e, requeue_rest, apart, key_eq_refl key1) refl),
          (rw (e, requeue_rest, key_eq_refl key2, apart') refl),
          λ x d1 d2. rw (e, requeue_rest, d1, d2) refl,
        )
    of_rest (y ∷ r) e =
        let apart' = key_eq_sym key1 key2 apart in
        (
          (rw (e, requeue_rest, key_eq_refl key1) refl),
          (rw (e, requeue_rest, apart', key_eq_refl key2) refl),
          λ x d1 d2. rw (e, requeue_rest, d1, d2) refl,
        )

-- Moving waiters from a key to another one: the first `n` are woken, the next `m` come behind the waiters
-- of the second key, the others stay, all in order, and no other queue changes.
pub requeue-Moved :
    (n m : ℕ) (key1 key2 : FutexKey) (q : List FutexWaiter) (queues : FutexQueues)
    → key_eq key1 key2 ≡ false
    → queues key1 ≡ some q
    → let (pids, after) = requeue n m key1 key2 queues in
      (pids ≡ pids_of (take n q)) × Moved m key1 key2 (drop n q) queues after
unfolding requeue
requeue-Moved n m key1 key2 q queues apart e =
    rw (e, requeue) (refl, requeue_rest-Moved m key1 key2 (drop n q) queues apart)

-- Moving waiters from a key to itself: when some are left over, only those are in the queue afterwards, and
-- the moved ones are neither woken nor in it.
pub requeue_same :
    (n m : ℕ) (key : FutexKey) (q left : List FutexWaiter) (w : FutexWaiter) (queues : FutexQueues)
    → queues key ≡ some q
    → drop m (drop n q) ≡ w ∷ left
    → let (pids, after) = requeue n m key key queues in
      (pids ≡ pids_of (take n q)) × (after key ≡ some (drop m (drop n q)))
unfolding requeue requeue_rest
requeue_same n m key q left w queues e more = rw (e, requeue) (refl, of_rest (drop n q) more)
  where
    of_rest :
        (l : List FutexWaiter)
        → drop m l ≡ w ∷ left
        → requeue_rest m key key l (set_queue key none queues) key ≡ some (drop m l)
    of_rest [] more = absurd (cons_nil more)
      where
        cons_nil : [] ≡ w ∷ left → ⊥
        cons_nil e = cc
    of_rest (y ∷ l) more = rw (more, requeue_rest, key_eq_refl key) refl
