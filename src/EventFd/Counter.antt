-- ===== src/EventFd/Counter.antt =====
-- The value of an event counter under `read` and `write` (kernel/src/fs/eventfd.rs).
use kontsnor_os.Prelude.{
  ℕ, ◌+◌, ◌-◌, ◌≤◌, ◌<◌, ◌≡◌, refl, true, false, List, [], ◌∷◌, ◌++◌, none, some, ltb, ◌==◌, length,
  take, drop, arith,
}
use kontsnor_os.Prelude.Word.{u64_max}
use kontsnor_os.Errno.{eagain, into, ok, err}
use kontsnor_os.EventFd.{
  EventFd, WakeUp, wake_all, to_bytes, from_bytes, take_counter, read_loop, read, add_counter,
  write_loop, write, poll, pollout,
}
use kontsnor_os.EventFd.Bytes.{from_bytes-to_bytes}

pub read_loop-taken :
    (ws : List WakeUp) (e : EventFd) (buf : List ℕ) (val : ℕ) (e' : EventFd)
    → take_counter e ≡ some (val, e')
    → read_loop ws e buf ≡ some (ok 8, to_bytes 8 val ++ drop 8 buf, wake_all e')
unfolding read_loop
read_loop-taken [] e buf val e' h = rw (h, read_loop)
read_loop-taken (w ∷ ws) e buf val e' h = rw (h, read_loop)

pub write_loop-added :
    (ws : List WakeUp) (val : ℕ) (e e' : EventFd)
    → add_counter val e ≡ some e'
    → write_loop ws val e ≡ some (ok 8, wake_all e')
unfolding write_loop
write_loop-added [] val e e' h = rw (h, write_loop)
write_loop-added (w ∷ ws) val e e' h = rw (h, write_loop)

module _ (e : EventFd) (data_in : List ℕ) (whole : 8 ≤ length data_in) where
  write_room :
      (ws : List WakeUp)
      → e.counter + from_bytes (take 8 data_in) < u64_max - 1
      → write ws e data_in
        ≡ some (ok 8, wake_all (record e { counter = e.counter + from_bytes (take 8 data_in) }))
  unfolding write add_counter
  write_room ws room =
      let val = from_bytes (take 8 data_in) in
      let len : ltb (length data_in) 8 ≡ false = ground (arith, whole) in
      let small : (val == u64_max) ≡ false = ground (arith, room) in
      let fits : ltb e.counter (u64_max - 1 - val) ≡ true = ground (arith, room) in
      rw (len, small) (write_loop-added ws val e _ (rw fits))

module _ (e : EventFd) (buf : List ℕ) (whole : 8 ≤ length buf) (more : 0 < e.counter) where
  read_counter :
      (ws : List WakeUp)
      → e.semaphore ≡ false
      → read ws e buf
        ≡ some (ok 8, to_bytes 8 e.counter ++ drop 8 buf, wake_all (record e { counter = 0 }))
  unfolding read take_counter
  read_counter ws mode =
      let len : ltb (length buf) 8 ≡ false = ground (arith, whole) in
      let some_left : ltb 0 e.counter ≡ true = ground (arith, more) in
      rw len (read_loop-taken ws e buf e.counter _ (rw (some_left, mode)))

  -- A read of a semaphore that is above 0 returns at once with the value 1, which it takes off the
  -- counter.
  pub read_semaphore :
      (ws : List WakeUp)
      → e.semaphore ≡ true
      → read ws e buf
        ≡ some (ok 8, to_bytes 8 1 ++ drop 8 buf, wake_all (record e { counter = e.counter - 1 }))
  unfolding read take_counter
  read_semaphore ws mode =
      let len : ltb (length buf) 8 ≡ false = ground (arith, whole) in
      let some_left : ltb 0 e.counter ≡ true = ground (arith, more) in
      rw len (read_loop-taken ws e buf 1 _ (rw (some_left, mode)))

-- A write of a value that leaves the sum below 2^64 - 2 returns 8; a read after it, from a counter
-- that is not a semaphore and where the sum is not 0, returns 8 with the bytes of the sum of the old
-- counter and the value, and leaves the counter at 0. Neither sleeps.
pub write-read :
    (ws ws' : List WakeUp) (e : EventFd) (data_in buf : List ℕ)
    → 8 ≤ length data_in
    → 8 ≤ length buf
    → e.semaphore ≡ false
    → let sum = e.counter + from_bytes (take 8 data_in) in
      0 < sum
      → sum < u64_max - 1
      → (e' : EventFd) × (e'' : EventFd) × (buf' : List ℕ) × (write ws e data_in ≡ some (ok 8, e'))
        × (read ws' e' buf ≡ some (ok 8, buf', e''))
        × (from_bytes (take 8 buf') ≡ sum)
        × (e''.counter ≡ 0)
write-read ws ws' e data_in buf whole whole' mode more room =
    let sum = e.counter + from_bytes (take 8 data_in) in
    let e' : EventFd = wake_all (record e { counter = sum }) in
    (
      e',
      wake_all (record e' { counter = 0 }),
      to_bytes 8 sum ++ drop 8 buf,
      write_room e data_in whole ws room,
      read_counter e' buf whole' more ws' mode,
      from_bytes-to_bytes 8 sum (omega (arith, room)),
      refl,
    )

-- A write that does not block and would bring the counter to 2^64 - 2 exactly fails with EAGAIN and
-- changes nothing; if its value is not 0, poll reports the counter as writable all the same.
pub write_maximum :
    (ws : List WakeUp) (e : EventFd) (data_in : List ℕ)
    → 8 ≤ length data_in
    → e.nonblocking ≡ true
    → e.counter + from_bytes (take 8 data_in) ≡ u64_max - 1
    → 0 < from_bytes (take 8 data_in)
    → (write ws e data_in ≡ some (err (into eagain), e)) × (poll pollout e ≡ pollout)
unfolding write poll
write_maximum ws e data_in whole mode sum more =
    let val = from_bytes (take 8 data_in) in
    let len : ltb (length data_in) 8 ≡ false = ground (arith, whole) in
    let small : (val == u64_max) ≡ false = ground (arith, sum) in
    let writable : ltb e.counter (u64_max - 1) ≡ true = ground (arith, sum, more) in
    (rw (len, small) (no_room ws), rw writable)
  where
    refused : add_counter (from_bytes (take 8 data_in)) e ≡ none
    refused =
        let fits : ltb e.counter (u64_max - 1 - from_bytes (take 8 data_in)) ≡ false =
          ground (arith, sum) in
        unfold add_counter in rw fits

    no_room :
        (ws : List WakeUp)
        → write_loop ws (from_bytes (take 8 data_in)) e ≡ some (err (into eagain), e)
    no_room [] = unfold write_loop in rw (refused, mode, write_loop)
    no_room (w ∷ ws) = unfold write_loop in rw (refused, mode, write_loop)
