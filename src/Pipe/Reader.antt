-- ===== src/Pipe/Reader.antt =====
-- `PipeReader` of kernel/src/fs/pipe.rs: what a read returns, and what `poll` promises of it.
use Prim.Native.Nat.{bit_and}
use kontsnor_os.Prelude.{
  ℕ, ◌<◌, min, ◌≡◌, ◌≢◌, ◌↔◌, refl, false, List, [], ◌∷◌, ◌++◌, Option, none, some, arith, ◌==◌,
  if◌then◌else◌, length, take, drop,
}
use kontsnor_os.Prelude.Word.{wrapping_add64, negsuc}
use kontsnor_os.Errno.{Result, ok, err}
use kontsnor_os.Pipe.{
  PipeEnd, WakeUp, ReadDone, pop_slice, wake_all, try_read, read_loop, read, poll_reader, pollin,
}
use kontsnor_os.Pipe.Buffer.{IsValid, contents, pop_slice_lem}

-- The pipe after `n` bytes have left it and the sleepers have been woken.
pub record HasRead (p : PipeEnd) (n : ℕ) (p' : PipeEnd) : Type 0 where
  pub valid : IsValid p'.state.buffer
  pub rest : contents p'.state.buffer ≡ drop n (contents p.state.buffer)
  pub readers : p'.state.readers ≡ p.state.readers
  pub writers : p'.state.writers ≡ p.state.writers
  pub woken : p'.state.sequence ≡ wrapping_add64 p.state.sequence 1
  pub mode : p'.non_blocking ≡ p.non_blocking

abbrev after_pop : PipeEnd → List ℕ → PipeEnd
after_pop p dst = record p {
  state = wake_all (record p.state { buffer = (pop_slice p.state.buffer dst).2 });
}

read_loop-some :
    (ws : List WakeUp) (p : PipeEnd) (dst : List ℕ) {done : ReadDone}
    → try_read p dst ≡ some done
    → read_loop ws p dst ≡ some done
unfolding read_loop
read_loop-some [] p dst e = rw (e, read_loop)
read_loop-some (w ∷ ws) p dst e = rw (e, read_loop)

-- A read with room for a byte from a pipe that holds one returns at once, whatever wake-ups would
-- follow, with as many of the oldest bytes as fit: they stand in order at the front of the
-- caller's slice, the rest of which is left alone; they are gone from the pipe, and the sleepers
-- on it have been woken.
pub read_data :
    (ws : List WakeUp) (p : PipeEnd) (dst : List ℕ)
    → IsValid p.state.buffer
    → 0 < length dst
    → 0 < p.state.buffer.len
    → let n = min (length dst) p.state.buffer.len in
      (p' : PipeEnd) × (read ws p dst
        ≡ some (ok n, take n (contents p.state.buffer) ++ drop n dst, p'))
      × HasRead p n p'
unfolding read
read_data ws p dst v room more =
    let (count, bytes, valid, rest) = pop_slice_lem p.state.buffer v dst in
    let p' : PipeEnd = after_pop p dst in
    let done : try_read p dst ≡ some (ok n, take n (contents p.state.buffer) ++ drop n dst, p') =
      rw (← count, ← bytes) (unfold try_read in ground arith) in
    (
      p',
      rw (ltb_empty, read_loop-some ws p dst done),
      record {
        valid = valid;
        rest = rw (← count) rest;
        readers = refl;
        writers = refl;
        woken = refl;
        mode = refl;
      },
    )
  where
    n : ℕ
    n = min (length dst) p.state.buffer.len

    ltb_empty : (length dst == 0) ≡ false
    ltb_empty = ground arith

-- A read with room for a byte from an empty pipe, while nothing happens: end of file if no writer
-- is left, else EAGAIN on a non-blocking end, else it sleeps; the pipe is unchanged.
pub read_empty :
    (p : PipeEnd) (dst : List ℕ)
    → 0 < length dst
    → p.state.buffer.len ≡ 0
    → read [] p dst ≡ (
        if p.state.writers == 0
        then some (ok 0, dst, p)
        else (if p.non_blocking then some (err (negsuc 10), dst, p) else none))
unfolding read read_loop try_read
read_empty p dst room e = ground arith

-- What must hold of a pipe for a read to report the end of the file.
abbrev pub AtEnd : Result ℕ → PipeEnd → Type 0
AtEnd (ok n) p = n ≡ 0 → (p.state.buffer.len ≡ 0) × (p.state.writers ≡ 0)
AtEnd (err e) p = Unit

abbrev pub EndIsReal : Option ReadDone → Type 0
EndIsReal none = Unit
EndIsReal (some (r, dst, p)) = AtEnd r p

try_read_eof : (p : PipeEnd) (dst : List ℕ) → 0 < length dst → EndIsReal (try_read p dst)
unfolding try_read pop_slice
try_read_eof p dst room = ground arith

read_loop_eof :
    (ws : List WakeUp) (p : PipeEnd) (dst : List ℕ)
    → 0 < length dst
    → EndIsReal (read_loop ws p dst)
unfolding read_loop
read_loop_eof [] p dst room = ground (arith, try_read_eof p dst room)
read_loop_eof (w ∷ ws) p dst room =
    ground (arith, try_read_eof p dst room, read_loop_eof ws (w.interfere p) dst room)

-- A read with room for a byte reports the end of the file only if the pipe is then empty and has
-- no writer, whatever happens while it sleeps.
pub read_eof :
    (ws : List WakeUp) (p : PipeEnd) (dst : List ℕ) → 0 < length dst → EndIsReal (read ws p dst)
unfolding read
read_eof ws p dst room = ground (arith, read_loop_eof ws p dst room)

-- Asked for POLLIN, `poll` reports it exactly when a read with this slice would return at once.
pub poll_reader-try_read :
    (p : PipeEnd) (dst : List ℕ) (events : ℕ)
    → bit_and events pollin ≢ 0
    → (bit_and (poll_reader p events) pollin ≢ 0) ↔ (try_read p dst ≢ none)
unfolding poll_reader try_read
poll_reader-try_read p dst events asked = ground arith
