-- ===== src/Futex.antt =====
-- Waiting on words of user memory: kernel/src/syscall/process/futex.rs. The map of queues is a function,
-- `none` for a missing key. A wait is two steps, up to the call of the scheduler and from its return on;
-- what other tasks do between is other steps. The clock, the user memory, the translation of addresses and
-- the waking of a task by the scheduler are parameters. The check of deadlines by the timer, the waits on
-- several words and the wake-up at the exit of a thread are left out.
pub mod Wake
pub mod Call
pub mod Requeue
pub mod Stale
pub mod Removal
pub mod Between
pub mod Tests
use Prim.Native.Nat.{bit_and}
use kontsnor_os.Prelude.{
  ℕ, zero, suc, ◌+◌, ◌-◌, ◌*◌, ◌/◌, ◌%◌, ◌^◌, max, Bool, true, false, List, [], ◌∷◌, ◌++◌, Option,
  none, some, ltb, leb, ◌==◌, ◌&&◌, ◌||◌, not, if◌then◌else◌, length,
}
use kontsnor_os.Prelude.Word.{ℤ, pos, negsuc, is_neg, as_u64}
use kontsnor_os.Errno.{SyscallResult, Errno, into, einval, efault, eagain, etimedout, eintr}

-- `space_id` is 0 for a shared key.
pub record FutexKey : Type 0 where
  pub space_id : ℕ
  pub uaddr : ℕ

pub record FutexWaiter : Type 0 where
  pub pid : ℕ
  pub bitset : ℕ
  pub deadline : Option ℕ

abbrev pub key_eq : (a b : FutexKey) → Bool
key_eq a b = (a.space_id == b.space_id) && (a.uaddr == b.uaddr)

abbrev pub FutexQueues : Type 0
FutexQueues = FutexKey → Option (List FutexWaiter)

-- `get_mut` and its change, `remove` with `none`, `insert` with `some`
abbrev pub set_queue : FutexKey → Option (List FutexWaiter) → FutexQueues → FutexQueues
set_queue key q queues k = if key_eq k key then q else queues k

-- The queue of a key, an empty one for a missing key
abbrev pub queue_or_empty : Option (List FutexWaiter) → List FutexWaiter
queue_or_empty none = []
queue_or_empty (some q) = q

-- A queue that is empty is removed.
abbrev pub unless_empty : List FutexWaiter → Option (List FutexWaiter)
unless_empty [] = none
unless_empty (w ∷ q) = some (w ∷ q)

-- The key of a call: `tgid` is that of the caller, and `translate` finds physical addresses. `op` is the
-- bits of an `i32`.
abbrev pub get_futex_key : (tgid : ℕ) (translate : ℕ → Option ℕ) (uaddr op : ℕ) → FutexKey
get_futex_key tgid translate uaddr op =
    let shared : FutexKey = elim (translate uaddr) [
      | none ↦ record { space_id = 0; uaddr = uaddr }
      | some phys ↦ record { space_id = 0; uaddr = phys }
    ] in
    if not (bit_and op 128 == 0) then record { space_id = tgid; uaddr = uaddr } else shared

-- `val_to_wake` and the like: a negative number is no limit.
abbrev pub limit : ℤ → ℕ
limit (pos n) = n
limit (negsuc n) = 2 ^ 31 - 1

abbrev pub accepts : (bitset : ℕ) → FutexWaiter → Bool
accepts bitset w = not (bit_and w.bitset bitset == 0)

-- The loop over one queue: up to `n` waiters that take the bits leave it, the first ones.
pub wake_queue : (n bitset : ℕ) → List FutexWaiter → List ℕ × List FutexWaiter
wake_queue n bitset [] = ([], [])
wake_queue zero bitset (w ∷ q) = ([], w ∷ q)
wake_queue (suc n) bitset (w ∷ q) =
    let (pids, rest) = wake_queue n bitset q in
    let (pids', rest') = wake_queue (suc n) bitset q in
    if accepts bitset w then (w.pid ∷ pids, rest) else (pids', w ∷ rest')

-- The waking of one key
pub wake_key : (n bitset : ℕ) → FutexKey → FutexQueues → List ℕ × FutexQueues
wake_key n bitset k queues = elim (queues k) [
  | none ↦ ([], queues)
  | some q ↦
      let (pids, rest) = wake_queue n bitset q in (pids, set_queue k (unless_empty rest) queues)
]

-- The loop over the keys
pub wake_keys : (n bitset : ℕ) → List FutexKey → FutexQueues → List ℕ × FutexQueues
wake_keys n bitset [] queues = ([], queues)
wake_keys n bitset (k ∷ ks) queues =
    let (pids, after) = wake_key n bitset k queues in
    let (pids', queues') = wake_keys (n - length pids) bitset ks after in
    if n == 0 then ([], queues) else (pids ++ pids', queues')

abbrev pub has_key : FutexKey → List FutexKey → Bool
has_key k [] = false
has_key k (x ∷ xs) = key_eq x k || has_key k xs

-- `push` of a key that is not there yet
abbrev pub push_key : FutexKey → List FutexKey → List FutexKey
push_key k ks = if has_key k ks then ks else ks ++ (k ∷ [])

abbrev pub push_phys : Option ℕ → List FutexKey → List FutexKey
push_phys none ks = ks
push_phys (some phys) ks = push_key (record { space_id = 0; uaddr = phys }) ks

-- The keys of a wake-up: that of the call, and all others that the address can stand for
pub keys_to_wake : (tgid : ℕ) (translate : ℕ → Option ℕ) (uaddr op : ℕ) → List FutexKey
keys_to_wake tgid translate uaddr op =
    let key = get_futex_key tgid translate uaddr op in
    let own : FutexKey = record { space_id = tgid; uaddr = uaddr } in
    let virtual : FutexKey = record { space_id = 0; uaddr = uaddr } in
    if not (key.space_id == 0)
    then push_key virtual (push_phys (translate uaddr) (key ∷ []))
    else push_key virtual (push_phys (translate uaddr) (push_key own (key ∷ [])))

-- The waking of the tasks taken: how many the scheduler has woken. `S` is its state.
pub wake_tasks : {S : Type 0} → (wake_task : ℕ → S → Bool × S) → List ℕ → S → ℕ × S
wake_tasks wake_task [] s = (0, s)
wake_tasks wake_task (p ∷ ps) s =
    let (woken, s') = wake_task p s in
    let (rest, s'') = wake_tasks wake_task ps s' in (if woken then (1 + rest, s'') else (rest, s''))

-- The bits of a wake-up
abbrev pub wake_bitset : (cmd : ℕ) (val3 : ℤ) → ℕ
wake_bitset cmd val3 = if cmd == 10 then as_u64 val3 % 2 ^ 32 else 2 ^ 32 - 1

-- FUTEX_WAKE (1) and FUTEX_WAKE_BITSET (10): the tasks taken from the queues, or an error.
pub futex_wake :
    (tgid : ℕ) (translate : ℕ → Option ℕ) (cmd uaddr op : ℕ) (val val3 : ℤ)
    → FutexQueues
    → Option (List ℕ × FutexQueues)
futex_wake tgid translate cmd uaddr op val val3 queues =
    let bitset = wake_bitset cmd val3 in
    if bitset == 0
    then none
    else some (wake_keys (limit val) bitset (keys_to_wake tgid translate uaddr op) queues)

abbrev pub pids_of : List FutexWaiter → List ℕ
pids_of [] = []
pids_of (w ∷ q) = w.pid ∷ pids_of q

abbrev pub take : ℕ → List FutexWaiter → List FutexWaiter
take n [] = []
take zero (w ∷ q) = []
take (suc n) (w ∷ q) = w ∷ take n q

abbrev pub drop : ℕ → List FutexWaiter → List FutexWaiter
drop n [] = []
drop zero (w ∷ q) = w ∷ q
drop (suc n) (w ∷ q) = drop n q

-- The moving of up to `m` waiters behind those of the second key, and the rest put back
pub requeue_rest : (m : ℕ) (key1 key2 : FutexKey) → List FutexWaiter → FutexQueues → FutexQueues
requeue_rest m key1 key2 [] queues = queues
requeue_rest m key1 key2 (w ∷ q) queues =
    let moved = set_queue key2 (some (queue_or_empty (queues key2) ++ take m (w ∷ q))) queues in
    let back : FutexQueues = elim (drop m (w ∷ q)) [
      | [] ↦ moved
      | x ∷ r ↦ set_queue key1 (some (x ∷ r)) moved
    ] in
    back

-- FUTEX_REQUEUE (3) and FUTEX_CMP_REQUEUE (4) under the lock: the tasks to wake, and the queues
pub requeue : (n m : ℕ) (key1 key2 : FutexKey) → FutexQueues → List ℕ × FutexQueues
requeue n m key1 key2 queues = elim (queues key1) [
  | none ↦ ([], queues)
  | some q ↦ (pids_of (take n q), requeue_rest m key1 key2 (drop n q) (set_queue key1 none queues))
]

abbrev pub same_word : ℤ → ℤ → Bool
same_word (pos a) (pos b) = a == b
same_word (negsuc a) (negsuc b) = a == b
same_word _ _ = false

-- The two reads of the word that FUTEX_CMP_REQUEUE compares stand for themselves.
pub futex_requeue :
    (cmd : ℕ) (first second val val2 val3 : ℤ) (key1 key2 : FutexKey)
    → FutexQueues
    → Option (List ℕ × FutexQueues)
futex_requeue cmd first second val val2 val3 key1 key2 queues =
    if (cmd == 4) && not (same_word first val3)
    then none
    else if (cmd == 4) && not (same_word second val3)
    then none
    else some (requeue (limit val) (limit val2) key1 key2 queues)

-- A wait, up to the call of the scheduler
pub wait_enqueue : FutexKey → FutexWaiter → FutexQueues → FutexQueues
wait_enqueue key w queues = set_queue key (some (queue_or_empty (queues key) ++ (w ∷ []))) queues

-- `retain(|w| w.pid != pid)`
pub without_pid : (pid : ℕ) → List FutexWaiter → List FutexWaiter
without_pid pid [] = []
without_pid pid (w ∷ q) = let rest = without_pid pid q in if w.pid == pid then rest else w ∷ rest

pub wait_cleanup : (pid : ℕ) → FutexKey → FutexQueues → FutexQueues
wait_cleanup pid key queues = elim (queues key) [
  | none ↦ queues
  | some q ↦ set_queue key (unless_empty (without_pid pid q)) queues
]

-- The answer of a wait that has ended: `ticks` is the clock, and `signalled` tells of a signal that is not
-- blocked.
pub wait_result : (deadline : Option ℕ) (ticks : ℕ) (signalled : Bool) → SyscallResult
wait_result none ticks signalled = if signalled then into eintr else pos 0
wait_result (some dl) ticks signalled =
    if leb dl ticks then into etimedout else if signalled then into eintr else pos 0

-- `futex_drain_pid_locked`
pub futex_drain_pid : (pid : ℕ) → FutexQueues → FutexQueues
futex_drain_pid pid queues k = unless_empty (without_pid pid (queue_or_empty (queues k)))
