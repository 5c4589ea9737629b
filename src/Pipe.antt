-- ===== src/Pipe.antt =====
-- The pipe of kernel/src/fs/pipe.rs: its circular buffer, its shared state, and the calls of its
-- two ends. What other tasks do while a call sleeps, or between two rounds of a write, is an
-- argument of the call: a list of wake-ups. A call for which the list ends first is still running.
pub mod Buffer
pub mod Reader
pub mod Writer
mod Tests
use Prim.Native.Nat.{bit_and, bit_or}
use kontsnor_os.Prelude.{
  ℕ, zero, suc, ◌+◌, ◌-◌, ◌^◌, min, Bool, true, false, List, [], ◌∷◌, Option, none, some, ltb, not,
  ◌==◌, ◌||◌, ◌&&◌, if◌then◌else◌, length, take, drop, replicate,
}
use kontsnor_os.Prelude.Word.{wrapping_sub64, wrapping_add64, negsuc}
use kontsnor_os.Circular.{copy_at, slice}
use kontsnor_os.Errno.{Result, ok, err}

abbrev pub pipe_buf_size : ℕ
pipe_buf_size = 65536

pub record PipeBuffer : Type 0 where
  pub bytes : List ℕ
  pub read_pos : ℕ
  pub write_pos : ℕ
  pub len : ℕ

-- `PipeBuffer::new`
pub new_buffer : PipeBuffer
new_buffer = record { bytes = replicate pipe_buf_size 0; read_pos = 0; write_pos = 0; len = 0 }

abbrev pub is_full : PipeBuffer → Bool
is_full b = b.len == pipe_buf_size

abbrev pub is_empty : PipeBuffer → Bool
is_empty b = b.len == 0

-- The bytes that `push_slice` leaves behind, for the first `to_write` bytes of `src`.
pub write_chunks : PipeBuffer → List ℕ → ℕ → List ℕ
write_chunks b src to_write =
    let first_chunk = min to_write (pipe_buf_size - b.write_pos) in
    let second_chunk = to_write - first_chunk in
    let once = copy_at b.bytes b.write_pos (take first_chunk src) in
    if ltb 0 second_chunk then copy_at once 0 (take second_chunk (drop first_chunk src)) else once

pub push_slice : PipeBuffer → List ℕ → ℕ × PipeBuffer
push_slice b src =
    let available = pipe_buf_size - b.len in
    let to_write = min (length src) available in
    if available == 0 || length src == 0 then (0, b) else (
      to_write,
      record b {
        bytes = write_chunks b src to_write;
        write_pos = bit_and (b.write_pos + to_write) (pipe_buf_size - 1);
        len = b.len + to_write;
      },
    )

-- `dst` after `pop_slice` has read `to_read` bytes into it.
pub read_chunks : PipeBuffer → List ℕ → ℕ → List ℕ
read_chunks b dst to_read =
    let first_chunk = min to_read (pipe_buf_size - b.read_pos) in
    let second_chunk = to_read - first_chunk in
    let once = copy_at dst 0 (slice b.bytes b.read_pos first_chunk) in
    if ltb 0 second_chunk then copy_at once first_chunk (slice b.bytes 0 second_chunk) else once

pub pop_slice : PipeBuffer → List ℕ → ℕ × List ℕ × PipeBuffer
pop_slice b dst =
    let to_read = min (length dst) b.len in
    if b.len == 0 || length dst == 0 then (0, dst, b) else (
      to_read,
      read_chunks b dst to_read,
      record b {
        read_pos = bit_and (b.read_pos + to_read) (pipe_buf_size - 1);
        len = b.len - to_read;
      },
    )

-- `sequence` counts the wake-ups of the wait queue.
pub record PipeState : Type 0 where
  pub buffer : PipeBuffer
  pub readers : ℕ
  pub writers : ℕ
  pub sequence : ℕ

-- `PipeState::new`
pub new_state : PipeState
unfolding new_buffer
new_state = record { buffer = new_buffer; readers = 1; writers = 1; sequence = 0 }

-- `wait_queue.wake_all()`
abbrev pub wake_all : PipeState → PipeState
wake_all s = record s { sequence = wrapping_add64 s.sequence 1 }

-- One end of a pipe, `PipeReader` or `PipeWriter`, with the state that it shares.
pub record PipeEnd : Type 0 where
  pub state : PipeState
  pub non_blocking : Bool

-- What the other tasks did to the pipe, and whether the caller then has an unblocked signal.
pub record WakeUp : Type 0 where
  pub interfere : PipeEnd → PipeEnd
  pub signalled : Bool

-- The result, `buf`, and the pipe.
abbrev pub ReadDone : Type 0
ReadDone = Result ℕ × List ℕ × PipeEnd

-- The check under the buffer lock: data, or end of file, or neither.
pub try_read : PipeEnd → List ℕ → Option ReadDone
try_read p dst =
    let (count, dst', b) = pop_slice p.state.buffer dst in
    if not (is_empty p.state.buffer)
    then some (ok count, dst', record p { state = wake_all (record p.state { buffer = b }) })
    else if p.state.writers == 0
    then some (ok 0, dst, p)
    else none

pub read_loop : List WakeUp → PipeEnd → List ℕ → Option ReadDone
read_loop [] p dst = elim (try_read p dst) [
  | some done ↦ some done
  | none ↦ if p.non_blocking then some (err (negsuc 10), dst, p) else none
]
read_loop (w ∷ ws) p dst = elim (try_read p dst) [
  | some done ↦ some done
  | none ↦
      let p' = w.interfere p in
      let rest = read_loop ws p' dst in
      if p.non_blocking
      then some (err (negsuc 10), dst, p)
      else if w.signalled
      then some (err (negsuc 3), dst, p')
      else rest
]

-- `PipeReader::read`
pub read : List WakeUp → PipeEnd → List ℕ → Option ReadDone
read ws p dst = if length dst == 0 then some (ok 0, dst, p) else read_loop ws p dst

-- The result, the signals sent to the caller, and the pipe.
abbrev pub WriteDone : Type 0
WriteDone = Result ℕ × List ℕ × PipeEnd

-- How one round of the loop of `PipeWriter::write` ends.
pub data Round : Type 0 where
  returned : WriteDone → Round
  advanced : ℕ → PipeEnd → Round
  sleeps : PipeEnd → Round

-- One round, with `rest` still to be written.
pub write_round : PipeEnd → List ℕ → ℕ → Round
write_round p rest written =
    let (n, b) = push_slice p.state.buffer rest in
    let p' = record p { state = wake_all (record p.state { buffer = b }) } in
    let bytes_pushed = if is_full p.state.buffer then 0 else n in
    if p.state.readers == 0
    then returned (err (negsuc 31), 13 ∷ [], p)
    else if bytes_pushed == 0
    then (if p.non_blocking
        then returned (if ltb 0 written then ok written else err (negsuc 10), [], p)
        else sleeps p)
    else advanced bytes_pushed p'

pub write_loop : List WakeUp → PipeEnd → List ℕ → ℕ → Option WriteDone
write_loop ws p [] written = some (ok written, [], p)
write_loop [] p (x ∷ xs) written = elim (write_round p (x ∷ xs) written) [
  | returned done ↦ some done
  | advanced n p' ↦ if length (x ∷ xs) == n then some (ok (written + n), [], p') else none
  | sleeps p' ↦ none
]
write_loop (w ∷ ws) p (x ∷ xs) written = elim (write_round p (x ∷ xs) written) [
  | returned done ↦ some done
  | advanced n p' ↦ write_loop ws (w.interfere p') (drop n (x ∷ xs)) (written + n)
  | sleeps p' ↦
      let rest = write_loop ws (w.interfere p') (x ∷ xs) written in
      if w.signalled then some (err (negsuc 3), [], w.interfere p') else rest
]

-- `PipeWriter::write`
pub write : List WakeUp → PipeEnd → List ℕ → Option WriteDone
write ws p src = write_loop ws p src 0

abbrev pub pollin : ℕ
pollin = 1

abbrev pub pollout : ℕ
pollout = 4

abbrev pub pollerr : ℕ
pollerr = 8

abbrev pub pollhup : ℕ
pollhup = 16

-- `PipeReader::poll`
pub poll_reader : PipeEnd → ℕ → ℕ
poll_reader p events =
    let has_data = not (is_empty p.state.buffer) in
    let no_writers = p.state.writers == 0 in
    let readable =
      if not (bit_and events pollin == 0) && (has_data || no_writers) then pollin else 0 in
    if no_writers && not has_data then bit_or readable pollhup else readable

-- `PipeWriter::poll`
pub poll_writer : PipeEnd → ℕ → ℕ
poll_writer p events =
    let writable =
      if not (bit_and events pollout == 0) && not (is_full p.state.buffer) then pollout else 0 in
    if p.state.readers == 0 then bit_or writable (bit_or pollerr pollhup) else writable

-- `drop` of a `PipeReader`, and of a `PipeWriter`
pub drop_reader : PipeState → PipeState
drop_reader s = wake_all (record s { readers = wrapping_sub64 s.readers 1 })

pub drop_writer : PipeState → PipeState
drop_writer s = wake_all (record s { writers = wrapping_sub64 s.writers 1 })
