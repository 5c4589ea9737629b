-- ===== src/EventFd/Bounds.antt =====
-- The bound of an event counter (kernel/src/fs/eventfd.rs), and the end of a blocked write.
use kontsnor_os.Prelude.{
  ℕ, ◌+◌, ◌-◌, ◌<◌, ◌≡◌, inl, inr, List, [], ◌∷◌, ◌++◌, Option, none, some, ltb, ◌==◌, Bool-cases,
  Option-cases, lt→ltb, length, take, arith,
}
use kontsnor_os.Prelude.Word.{u64_max}
use kontsnor_os.Errno.{eagain, einval, into, Result, ok, err}
use kontsnor_os.EventFd.{
  EventFd, WakeUp, wake_up, wake_all, from_bytes, take_counter, read_loop, read, add_counter,
  write_loop, write,
}
use kontsnor_os.EventFd.Counter.{read_loop-taken, write_loop-added}

-- The counter is below 2^64 - 2.
unfoldable pub IsBounded : EventFd → Type 0
IsBounded e = e.counter < u64_max - 1

unfoldable pub AllBounded : List WakeUp → Type 0
AllBounded [] = Unit
AllBounded (w ∷ ws) = (w.counter_then < u64_max - 1) × AllBounded ws

-- A call that returned left a bounded counter.
unfoldable pub ReadBounded : Option (Result ℕ × List ℕ × EventFd) → Type 0
ReadBounded none = Unit
ReadBounded (some (r, buf, e)) = IsBounded e

unfoldable pub WriteBounded : Option (Result ℕ × EventFd) → Type 0
WriteBounded none = Unit
WriteBounded (some (r, e)) = IsBounded e

take_counter-IsBounded :
    (e : EventFd) (val : ℕ) (e' : EventFd)
    → IsBounded e
    → take_counter e ≡ some (val, e')
    → IsBounded (wake_all e')
unfolding IsBounded take_counter
take_counter-IsBounded e val e' h t = ground (arith, t, h)

add_counter-IsBounded :
    (e : EventFd) (val : ℕ) (e' : EventFd)
    → IsBounded e
    → add_counter val e ≡ some e'
    → IsBounded (wake_all e')
unfolding IsBounded add_counter
add_counter-IsBounded e val e' h t = ground (arith, t, h)

read_loop-IsBounded :
    (ws : List WakeUp) (e : EventFd) (buf : List ℕ)
    → IsBounded e
    → AllBounded ws
    → ReadBounded (read_loop ws e buf)
unfolding AllBounded ReadBounded IsBounded read_loop
read_loop-IsBounded [] e buf h hs = elim (Option-cases (take_counter e)) [
  | inl t ↦ elim (Bool-cases e.nonblocking) [
    | inl nb ↦ rw (t, nb, read_loop) h
    | inr nb ↦ rw (t, nb, read_loop) tt
  ]
  | inr ((val, e'), t) ↦
      rw (read_loop-taken [] e buf val e' t) (take_counter-IsBounded e val e' h t)
]
read_loop-IsBounded (w ∷ ws) e buf h hs = elim (Option-cases (take_counter e)) [
  | inl t ↦
      let next : IsBounded (wake_up w e) = hs.0 in
      let later = read_loop-IsBounded ws (wake_up w e) buf next hs.1 in
      elim (Bool-cases e.nonblocking) [
        | inl nb ↦ rw (t, nb, read_loop) h
        | inr nb ↦ rw (t, nb, read_loop) later
      ]
  | inr ((val, e'), t) ↦
      rw (read_loop-taken (w ∷ ws) e buf val e' t) (take_counter-IsBounded e val e' h t)
]

write_loop-IsBounded :
    (ws : List WakeUp) (val : ℕ) (e : EventFd)
    → IsBounded e
    → AllBounded ws
    → WriteBounded (write_loop ws val e)
unfolding AllBounded WriteBounded IsBounded write_loop
write_loop-IsBounded [] val e h hs = elim (Option-cases (add_counter val e)) [
  | inl t ↦ elim (Bool-cases e.nonblocking) [
    | inl nb ↦ rw (t, nb, write_loop) h
    | inr nb ↦ rw (t, nb, write_loop) tt
  ]
  | inr (e', t) ↦ rw (write_loop-added [] val e e' t) (add_counter-IsBounded e val e' h t)
]
write_loop-IsBounded (w ∷ ws) val e h hs = elim (Option-cases (add_counter val e)) [
  | inl t ↦
      let next : IsBounded (wake_up w e) = hs.0 in
      let later = write_loop-IsBounded ws val (wake_up w e) next hs.1 in
      elim (Bool-cases e.nonblocking) [
        | inl nb ↦ rw (t, nb, write_loop) h
        | inr nb ↦ rw (t, nb, write_loop) later
      ]
  | inr (e', t) ↦ rw (write_loop-added (w ∷ ws) val e e' t) (add_counter-IsBounded e val e' h t)
]

-- If the counter is below 2^64 - 2 and other tasks keep it so while the call sleeps, then a read and
-- a write that return leave it below 2^64 - 2, whatever the slices and the data.
pub calls-IsBounded :
    (ws : List WakeUp) (e : EventFd) (buf data_in : List ℕ)
    → IsBounded e
    → AllBounded ws
    → ReadBounded (read ws e buf) × WriteBounded (write ws e data_in)
unfolding ReadBounded WriteBounded read write
calls-IsBounded ws e buf data_in h hs =
    let val = from_bytes (take 8 data_in) in
    (
      elim (Bool-cases (ltb (length buf) 8)) [
        | inl short ↦ rw short h
        | inr whole ↦ rw whole (read_loop-IsBounded ws e buf h hs)
      ],
      elim (Bool-cases (ltb (length data_in) 8)) [
        | inl short ↦ rw short h
        | inr whole ↦ elim (Bool-cases (val == u64_max)) [
          | inl maximum ↦ rw (whole, maximum) h
          | inr less ↦ rw (whole, less) (write_loop-IsBounded ws val e h hs)
        ]
      ],
    )

write_loop_finishes :
    (ws : List WakeUp) (w : WakeUp) (val : ℕ) (e : EventFd)
    → w.counter_then < u64_max - 1 - val
    → (r : Result ℕ × EventFd) × (write_loop (ws ++ (w ∷ [])) val e ≡ some r)
unfolding write_loop
write_loop_finishes [] w val e room = elim (Option-cases (add_counter val e)) [
  | inl t ↦
      let fits : add_counter val (wake_up w e)
          ≡ some (record (wake_up w e) { counter = w.counter_then + val }) =
        unfold add_counter in rw (lt→ltb w.counter_then (u64_max - 1 - val) room) in
      elim (Bool-cases e.nonblocking) [
        | inl nb ↦ ((err (into eagain), e), rw (t, nb, write_loop))
        | inr nb ↦ (
          (ok 8, wake_all (record (wake_up w e) { counter = w.counter_then + val })),
          rw (t, nb, write_loop) (write_loop-added [] val (wake_up w e) _ fits),
        )
      ]
  | inr (e', t) ↦ (_, write_loop-added (w ∷ []) val e e' t)
]
write_loop_finishes (v ∷ ws) w val e room = elim (Option-cases (add_counter val e)) [
  | inl t ↦
      let (r, later) = write_loop_finishes ws w val (wake_up v e) room in
      elim (Bool-cases e.nonblocking) [
        | inl nb ↦ ((err (into eagain), e), rw (t, nb, write_loop))
        | inr nb ↦ (r, rw (t, nb, write_loop) later)
      ]
  | inr (e', t) ↦ (_, write_loop-added (v ∷ ws ++ (w ∷ [])) val e e' t)
]

-- Whatever happened while it slept, a write has returned by the time it is woken to a counter that
-- leaves the sum with its value below 2^64 - 2.
pub write_finishes :
    (ws : List WakeUp) (w : WakeUp) (e : EventFd) (data_in : List ℕ)
    → w.counter_then + from_bytes (take 8 data_in) < u64_max - 1
    → (r : Result ℕ × EventFd) × (write (ws ++ (w ∷ [])) e data_in ≡ some r)
unfolding write
write_finishes ws w e data_in room =
    let val = from_bytes (take 8 data_in) in
    let (r, done) = write_loop_finishes ws w val e (omega (arith, room)) in
    elim (Bool-cases (ltb (length data_in) 8)) [
      | inl short ↦ ((err (into einval), e), rw short)
      | inr whole ↦ elim (Bool-cases (val == u64_max)) [
        | inl maximum ↦ ((err (into einval), e), rw (whole, maximum))
        | inr less ↦ (r, rw (whole, less) done)
      ]
    ]
