-- ===== src/EventFd.antt =====
-- The event counter of kernel/src/fs/eventfd.rs: `EventFd`, and its opening by `sys_eventfd2`.
-- What happened while a call slept is a list of wake-ups, as for the pipe.
pub mod Bytes
pub mod Counter
pub mod Bounds
pub mod Opening
mod Tests
use Prim.Native.Nat.{bit_and, bit_or}
use kontsnor_os.Prelude.{
  ℕ, zero, suc, ◌+◌, ◌-◌, ◌*◌, ◌/◌, ◌%◌, Bool, true, false, List, [], ◌∷◌, ◌++◌, Option, none, some,
  ltb, leb, ◌==◌, ◌&&◌, not, if◌then◌else◌, length, take, drop,
}
use kontsnor_os.Prelude.Word.{ℤ, pos, negsuc, u64_max, wrapping_add64}
use kontsnor_os.Errno.{Errno, emfile, einval, eagain, into, SyscallResult, Result, ok, err}
use kontsnor_os.FdTable.{Files, alloc_fd, o_cloexec}

-- `nonblocking` is the answer of `is_inode_nonblocking`, and `sequence` counts the
-- wake-ups of the wait queue.
pub record EventFd : Type 0 where
  pub counter : ℕ
  pub semaphore : Bool
  pub nonblocking : Bool
  pub sequence : ℕ

-- What a call finds when it has slept: other tasks may have moved the counter and the flag.
pub record WakeUp : Type 0 where
  pub counter_then : ℕ
  pub nonblocking_then : Bool

abbrev pub wake_up : WakeUp → EventFd → EventFd
wake_up w e = record e { counter = w.counter_then; nonblocking = w.nonblocking_then }

-- `wait_queue.wake_all()`
abbrev pub wake_all : EventFd → EventFd
wake_all e = record e { sequence = wrapping_add64 e.sequence 1 }

-- `to_ne_bytes` and `from_ne_bytes` of the least significant `n` bytes, which x86-64 puts first.
abbrev pub to_bytes : ℕ → ℕ → List ℕ
to_bytes zero v = []
to_bytes (suc n) v = v % 256 ∷ to_bytes n (v / 256)

abbrev pub from_bytes : List ℕ → ℕ
from_bytes [] = 0
from_bytes (b ∷ bs) = b + 256 * from_bytes bs

-- What the lock on the counter covers in `read`: the value taken, if there is one.
pub take_counter : EventFd → Option (ℕ × EventFd)
take_counter e =
    if ltb 0 e.counter
    then (if e.semaphore
        then some (1, record e { counter = e.counter - 1 })
        else some (e.counter, record e { counter = 0 }))
    else none

-- The loop of `read`: as many rounds as there are wake-ups, and one; `none` is a call that sleeps.
pub read_loop : List WakeUp → EventFd → List ℕ → Option (Result ℕ × List ℕ × EventFd)
read_loop [] e buf = elim (take_counter e) [
  | some (val, e') ↦ some (ok 8, to_bytes 8 val ++ drop 8 buf, wake_all e')
  | none ↦ if e.nonblocking then some (err (into eagain), buf, e) else none
]
read_loop (w ∷ ws) e buf = elim (take_counter e) [
  | some (val, e') ↦ some (ok 8, to_bytes 8 val ++ drop 8 buf, wake_all e')
  | none ↦
      if e.nonblocking then some (err (into eagain), buf, e) else read_loop ws (wake_up w e) buf
]

pub read : List WakeUp → EventFd → List ℕ → Option (Result ℕ × List ℕ × EventFd)
read ws e buf = if ltb (length buf) 8 then some (err (into einval), buf, e) else read_loop ws e buf

-- What the lock on the counter covers in `write`.
pub add_counter : ℕ → EventFd → Option EventFd
add_counter val e =
    if ltb e.counter (u64_max - 1 - val)
    then some (record e { counter = e.counter + val })
    else none

pub write_loop : List WakeUp → ℕ → EventFd → Option (Result ℕ × EventFd)
write_loop [] val e = elim (add_counter val e) [
  | some e' ↦ some (ok 8, wake_all e')
  | none ↦ if e.nonblocking then some (err (into eagain), e) else none
]
write_loop (w ∷ ws) val e = elim (add_counter val e) [
  | some e' ↦ some (ok 8, wake_all e')
  | none ↦ if e.nonblocking then some (err (into eagain), e) else write_loop ws val (wake_up w e)
]

pub write : List WakeUp → EventFd → List ℕ → Option (Result ℕ × EventFd)
write ws e data_in =
    let val = from_bytes (take 8 data_in) in
    if ltb (length data_in) 8
    then some (err (into einval), e)
    else if val == u64_max
    then some (err (into einval), e)
    else write_loop ws val e

abbrev pub pollin : ℕ
pollin = 1

abbrev pub pollout : ℕ
pollout = 4

pub poll : ℕ → EventFd → ℕ
poll events e =
    let readable = if not (bit_and events pollin == 0) && ltb 0 e.counter then pollin else 0 in
    if not (bit_and events pollout == 0) && ltb e.counter (u64_max - 1)
    then bit_or readable pollout
    else readable

-- `EventFd::new`; no descriptor names it yet.
abbrev pub new_eventfd : ℕ → Bool → EventFd
new_eventfd initval semaphore = record {
  counter = initval;
  semaphore = semaphore;
  nonblocking = false;
  sequence = 0;
}

-- `O_RDWR` and the flags that the caller asks for; `flags` is the bit pattern of the argument.
pub eventfd_open_flags : ℕ → ℕ
eventfd_open_flags flags =
    let with_nonblock = if not (bit_and flags 0x800 == 0) then bit_or 2 0x800 else 2 in
    if not (bit_and flags o_cloexec == 0) then bit_or with_nonblock o_cloexec else with_nonblock

abbrev pub fd_result : Option ℕ → SyscallResult
fd_result (some fd) = pos fd
fd_result none = into emfile

-- The new counter is the inode `inode`.
pub sys_eventfd2 : (initval flags inode : ℕ) → Files → SyscallResult × EventFd × Files
sys_eventfd2 initval flags inode f =
    let e = new_eventfd initval (not (bit_and flags 1 == 0)) in
    let opened = alloc_fd inode (eventfd_open_flags flags) f in (fd_result opened.0, e, opened.1)

abbrev pub sys_eventfd : (initval inode : ℕ) → Files → SyscallResult × EventFd × Files
sys_eventfd initval inode f = sys_eventfd2 initval 0 inode f
