-- ===== src/Pipe/Writer.antt =====
-- `PipeWriter` of kernel/src/fs/pipe.rs: what a write returns, when it finishes, and what it leaves
-- in the pipe.
use mathlib.Core.List.{append-nil}
use mathlib.Core.Path.{ap₂}
use kontsnor_os.Prelude.{
  ℕ, suc, ◌+◌, ◌-◌, ◌≤◌, ◌<◌, min, ◌≡◌, refl, sym, ap, ◌∙◌, true, List, [], ◌∷◌, ◌++◌, some, arith,
  if◌then◌else◌, length, take, drop, length-drop, take_all, ltb, lt→ltb,
}
use kontsnor_os.Prelude.Word.{negsuc}
use kontsnor_os.Errno.{ok, err}
use kontsnor_os.Pipe.{
  PipeBuffer, PipeEnd, WakeUp, WriteDone, returned, advanced, sleeps, pipe_buf_size, push_slice,
  wake_all, write_round, write_loop, write,
}
use kontsnor_os.Pipe.Buffer.{IsValid, contents, push_slice_lem}

abbrev after_push : PipeEnd → List ℕ → PipeEnd
after_push p src = record p {
  state = wake_all (record p.state { buffer = (push_slice p.state.buffer src).1 });
}

-- The pipe has a reader and its buffer is well formed.
pub record IsOpen (p : PipeEnd) : Type 0 where
  pub valid : IsValid p.state.buffer
  pub reader : 0 < p.state.readers

push_slice-len :
    (b : PipeBuffer) (src : List ℕ)
    → (push_slice b src).1.len ≡ b.len + min (length src) (pipe_buf_size - b.len)
unfolding push_slice
push_slice-len b src = ground arith

-- A round of the loop with room in the buffer moves as many bytes as fit.
round_room :
    (p : PipeEnd) (src : List ℕ) (written : ℕ)
    → IsOpen p
    → 0 < length src
    → p.state.buffer.len < pipe_buf_size
    → let n = min (length src) (pipe_buf_size - p.state.buffer.len) in
      (write_round p src written ≡ advanced n (after_push p src))
      × IsOpen (after_push p src)
      × (contents (after_push p src).state.buffer ≡ contents p.state.buffer ++ take n src)
      × ((after_push p src).state.buffer.len ≡ p.state.buffer.len + n)
unfolding write_round
round_room p src written o some_bytes room =
    let (count, valid, bytes) = push_slice_lem p.state.buffer o.valid src in
    (
      ground arith,
      record { valid = valid; reader = o.reader },
      rw (← count) bytes,
      push_slice-len p.state.buffer src,
    )

-- A round with no room ends the call on a non-blocking end, and sleeps on another.
round_full :
    (p : PipeEnd) (src : List ℕ) (written : ℕ)
    → 0 < p.state.readers
    → p.state.buffer.len ≡ pipe_buf_size
    → write_round p src written ≡ (
        if p.non_blocking
        then returned (if ltb 0 written then ok written else err (negsuc 10), [], p)
        else sleeps p)
unfolding write_round
round_full p src written reader full = ground arith

-- What the loop does after each kind of round.
module _ (p : PipeEnd) (written : ℕ) where
  write_loop-returned :
      (ws : List WakeUp) (src : List ℕ) {done : WriteDone}
      → 0 < length src
      → write_round p src written ≡ returned done
      → write_loop ws p src written ≡ some done
  unfolding write_loop
  write_loop-returned ws [] h e = absurd (omega arith)
  write_loop-returned [] (x ∷ xs) h e = rw (e, write_loop)
  write_loop-returned (w ∷ ws) (x ∷ xs) h e = rw (e, write_loop)

  write_loop-advanced :
      (w : WakeUp) (ws : List WakeUp) (src : List ℕ) {n : ℕ} {p' : PipeEnd}
      → 0 < length src
      → write_round p src written ≡ advanced n p'
      → write_loop (w ∷ ws) p src written
        ≡ write_loop ws (w.interfere p') (drop n src) (written + n)
  unfolding write_loop
  write_loop-advanced w ws [] h e = absurd (omega arith)
  write_loop-advanced w ws (x ∷ xs) h e = rw (e, write_loop)

-- A write of bytes that all fit, on a pipe with a reader, returns their number at once and
-- leaves them, in order, behind what the pipe held.
pub write_fits :
    (p : PipeEnd) (src : List ℕ)
    → IsOpen p
    → length src ≤ pipe_buf_size - p.state.buffer.len
    → (p' : PipeEnd) × (write [] p src ≡ some (ok (length src), [], p'))
      × (contents p'.state.buffer ≡ contents p.state.buffer ++ src)
unfolding write write_loop
write_fits p [] o fits = (p, refl, sym (append-nil (contents p.state.buffer)))
write_fits p (x ∷ xs) o fits =
    let (round, _, bytes, _) = round_room p (x ∷ xs) 0 o (omega arith) (omega arith) in
    let all : min (suc (length xs)) (pipe_buf_size - p.state.buffer.len) ≡ suc (length xs) =
      omega arith in
    (
      after_push p (x ∷ xs),
      rw (round, write_loop) (ground arith),
      bytes ∙ ap (λ t. contents p.state.buffer ++ t) (take_all _ (x ∷ xs) (omega arith)),
    )

-- A write to a pipe with no reader returns EPIPE, sends SIGPIPE and changes nothing.
pub write_broken :
    (ws : List WakeUp) (p : PipeEnd) (src : List ℕ)
    → 0 < length src
    → p.state.readers ≡ 0
    → write ws p src ≡ some (err (negsuc 31), 13 ∷ [], p)
unfolding write write_loop write_round
write_broken ws p [] some_bytes e = absurd (omega arith)
write_broken [] p (x ∷ xs) some_bytes e = ground arith
write_broken (w ∷ ws) p (x ∷ xs) some_bytes e = ground arith

-- Nothing happens between two rounds.
abbrev pub IsQuiet : WakeUp → Type 0
IsQuiet w = (p : PipeEnd) → w.interfere p ≡ p

module _ (p : PipeEnd) (src : List ℕ) (w : WakeUp) (o : IsOpen p) (quiet : IsQuiet w)
    (room : p.state.buffer.len < pipe_buf_size)
    (too_many : pipe_buf_size - p.state.buffer.len < length src) where
  first_round :
      (ws : List WakeUp)
      → let n = pipe_buf_size - p.state.buffer.len in
        let p' = after_push p src in
        (write_loop (w ∷ ws) p src 0 ≡ write_loop ws p' (drop n src) n)
        × (contents p'.state.buffer ≡ contents p.state.buffer ++ take n src)
        × (p'.state.buffer.len ≡ pipe_buf_size)
        × (0 < length (drop n src))
  first_round ws =
      let (round, _, bytes, len) = round_room p src 0 o (omega arith) room in
      let advance = write_loop-advanced p 0 w ws src (omega arith) round in
      (
        advance
            ∙ rw quiet
                (ap₂ (λ m t. write_loop ws (after_push p src) (drop m src) t) count (omega arith)),
        bytes ∙ ap (λ m. contents p.state.buffer ++ take m src) count,
        len ∙ omega (arith, o.valid),
        omega (arith, length-drop (pipe_buf_size - p.state.buffer.len) src),
      )
    where
      count :
          min (length src) (pipe_buf_size - p.state.buffer.len) ≡ pipe_buf_size - p.state.buffer.len
      count = omega arith

  -- A non-blocking write of more bytes than fit, on a pipe with a reader and room for a byte,
  -- while nothing else happens, moves as many as fit and returns their number.
  pub write_partial :
      p.non_blocking ≡ true
      → let n = pipe_buf_size - p.state.buffer.len in
        (p' : PipeEnd) × (write (w ∷ []) p src ≡ some (ok n, [], p'))
        × (contents p'.state.buffer ≡ contents p.state.buffer ++ take n src)
  unfolding write
  write_partial nb =
      let (step, bytes, full, more) = first_round [] in
      let n = pipe_buf_size - p.state.buffer.len in
      (
        p',
        step
            ∙ write_loop-returned p' n [] (drop n src) more
                (round_full p' (drop n src) n o.reader full ∙ rw (nb, lt→ltb 0 n (omega arith))),
        bytes,
      )
    where
      p' : PipeEnd
      p' = after_push p src

-- After what the others do there is a reader, and room for a byte.
abbrev pub IsRoomy : WakeUp → Type 0
IsRoomy w =
    (p : PipeEnd)
    → IsOpen p
    → IsOpen (w.interfere p) × ((w.interfere p).state.buffer.len < pipe_buf_size)

abbrev pub AllRoomy : List WakeUp → Type 0
AllRoomy [] = Unit
AllRoomy (w ∷ ws) = IsRoomy w × AllRoomy ws
