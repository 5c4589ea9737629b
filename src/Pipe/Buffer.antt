-- ===== src/Pipe/Buffer.antt =====
-- `PipeBuffer` of kernel/src/fs/pipe.rs is a queue of at most 65536 bytes.
use Prim.Native.Nat.{bit_and}
use mathlib.Core.List.{append-nil}
use kontsnor_os.Prelude.{
  ℕ, ◌+◌, ◌-◌, ◌%◌, ◌≤◌, ◌<◌, min, ◌≡◌, refl, sym, ap, ◌∙◌, List, [], ◌++◌, arith, ◌==◌, ◌||◌,
  length, take, drop, length-take, length-replicate, Bool-cases, inl, inr,
}
use kontsnor_os.Prelude.Bits.{bit_and_mask}
use kontsnor_os.Circular.{window, write_each}
use kontsnor_os.Circular.Window.{
  length-window, window-write_each, length-write_each, window-take, window-drop, window-shift,
}
use kontsnor_os.Circular.Chunks.{guarded_copies, guarded_slices, write_each-shift}
use kontsnor_os.Pipe.{
  PipeBuffer, pipe_buf_size, new_buffer, push_slice, pop_slice, write_chunks, read_chunks,
}

pub record IsValid (b : PipeBuffer) : Type 0 where
  pub slots : length b.bytes ≡ pipe_buf_size
  pub read_in : b.read_pos < pipe_buf_size
  pub write_at : b.write_pos ≡ (b.read_pos + b.len) % pipe_buf_size
  pub bounded : b.len ≤ pipe_buf_size

-- The bytes from the oldest to the newest.
abbrev pub contents : PipeBuffer → List ℕ
contents b = window 0 pipe_buf_size b.bytes b.read_pos b.len

pub length-contents : (b : PipeBuffer) → length (contents b) ≡ b.len
length-contents b = length-window 0 pipe_buf_size b.bytes b.read_pos b.len

-- A fresh buffer is valid and empty.
pub new_buffer-IsValid : IsValid new_buffer × (contents new_buffer ≡ [])
unfolding new_buffer
new_buffer-IsValid = (
  record {
    slots = length-replicate {A = ℕ} pipe_buf_size 0;
    read_in = omega arith;
    write_at = refl;
    bounded = omega arith;
  },
  refl,
)

write_chunks-eq-write_each :
    (b : PipeBuffer) (src : List ℕ) (m : ℕ)
    → IsValid b
    → m ≤ pipe_buf_size
    → m ≤ length src
    → write_chunks b src m ≡ write_each pipe_buf_size b.bytes (b.read_pos + b.len) (take m src)
unfolding write_chunks
write_chunks-eq-write_each b src m v fits enough =
    guarded_copies pipe_buf_size m src b.bytes b.write_pos v.slots (omega (arith, v)) fits enough
    ∙ write_each-shift pipe_buf_size (take m src) b.bytes b.write_pos (b.read_pos + b.len)
        (omega (arith, v))

mask : (x : ℕ) → bit_and x (pipe_buf_size - 1) ≡ x % pipe_buf_size
mask x = bit_and_mask x 16

module _ (b : PipeBuffer) (v : IsValid b) where
  push_bytes :
      (src : List ℕ) (m : ℕ)
      → m ≤ length src
      → b.len + m ≤ pipe_buf_size
      → let b' = record b {
        bytes = write_chunks b src m;
        write_pos = (b.write_pos + m) % pipe_buf_size;
        len = b.len + m;
      } in
        IsValid b' × (contents b' ≡ contents b ++ take m src)
  push_bytes src m enough fits = rw (write_chunks-eq-write_each b src m v (omega arith) enough) (
    record {
      slots = length-write_each pipe_buf_size (take m src) b.bytes (b.read_pos + b.len) ∙ v.slots;
      read_in = v.read_in;
      write_at = omega (arith, v);
      bounded = fits;
    },
    ap (window 0 pipe_buf_size written b.read_pos) longer
        ∙ window-write_each 0 pipe_buf_size (take m src) b.bytes b.read_pos b.len v.slots
            (omega (arith, length-take m src)),
  )
    where
      written : List ℕ
      written = write_each pipe_buf_size b.bytes (b.read_pos + b.len) (take m src)

      longer : b.len + m ≡ b.len + length (take m src)
      longer = omega (arith, length-take m src)

  -- `push_slice` on a valid buffer appends as many bytes as there is room for, in order, returns
  -- their number, and leaves the buffer valid.
  pub push_slice_lem :
      (src : List ℕ)
      → let (n, b') = push_slice b src in
        (n ≡ min (length src) (pipe_buf_size - b.len))
        × IsValid b'
        × (contents b' ≡ contents b ++ take n src)
  unfolding push_slice
  push_slice_lem src = rw mask (elim (Bool-cases (pipe_buf_size - b.len == 0 || length src == 0)) [
    | inl nothing ↦ rw nothing (ground arith, v, sym (append-nil (contents b)))
    | inr some_bytes ↦
        let m = min (length src) (pipe_buf_size - b.len) in
        let (valid, bytes) = push_bytes src m (omega arith) (omega (arith, v)) in
        rw some_bytes (refl, valid, bytes)
  ])

  pop_bytes :
      (m : ℕ)
      → m ≤ b.len
      → let b' = record b { read_pos = (b.read_pos + m) % pipe_buf_size; len = b.len - m } in
        IsValid b' × (contents b' ≡ drop m (contents b))
  pop_bytes m enough = (
    record {
      slots = v.slots;
      read_in = omega arith;
      write_at = omega (arith, v);
      bounded = omega (arith, v);
    },
    window-shift 0 pipe_buf_size b.bytes ((b.read_pos + m) % pipe_buf_size) (b.read_pos + m)
          (b.len - m) (omega arith)
        ∙ window-drop 0 pipe_buf_size b.bytes b.read_pos b.len m enough,
  )

  read_chunks_lem :
      (dst : List ℕ) (m : ℕ)
      → m ≤ b.len
      → m ≤ length dst
      → read_chunks b dst m ≡ take m (contents b) ++ drop m dst
  unfolding read_chunks
  read_chunks_lem dst m enough room =
      guarded_slices 0 pipe_buf_size m b.bytes dst b.read_pos v.slots v.read_in (omega (arith, v))
        room
      ∙ ap (λ w. w ++ drop m dst) (window-take 0 pipe_buf_size b.bytes b.read_pos b.len m enough)

  -- `pop_slice` on a valid buffer moves its oldest bytes, as many as `dst` has room for, to the
  -- front of `dst`, leaves the rest of `dst` alone, returns their number, and leaves the buffer
  -- valid with the other bytes.
  pub pop_slice_lem :
      (dst : List ℕ)
      → let (n, dst', b') = pop_slice b dst in
        (n ≡ min (length dst) b.len)
        × (dst' ≡ take n (contents b) ++ drop n dst)
        × IsValid b'
        × (contents b' ≡ drop n (contents b))
  unfolding pop_slice
  pop_slice_lem dst = rw mask (elim (Bool-cases (b.len == 0 || length dst == 0)) [
    | inl nothing ↦ rw nothing (ground arith, refl, v, refl)
    | inr some_bytes ↦
        let m = min (length dst) b.len in
        let (valid, bytes) = pop_bytes m (omega arith) in
        rw some_bytes (refl, read_chunks_lem dst m (omega arith) (omega arith), valid, bytes)
  ])
