-- ===== src/RingBuffer.antt =====
-- The lock-free ring buffer of kernel/src/util/ring_buffer.rs, as its one producer and its one
-- consumer see it: each call is one step. A slot that was never written (`MaybeUninit`) is `none`.
-- `usize` arithmetic wraps at 64 bits, as in a build without overflow checks; the theorems of the
-- children hold where no counter has wrapped.
pub mod Queue
pub mod Slices
mod Tests
use Prim.Native.Nat.{bit_and}
use kontsnor_os.Prelude.{
  ℕ, zero, suc, ◌+◌, ◌-◌, ◌%◌, ◌^◌, min, Bool, List, [], ◌∷◌, Option, none, some, map, leb, ltb,
  ◌==◌, ◌||◌, if◌then◌else◌, length, get_or, set, take, drop, replicate,
}
use kontsnor_os.Prelude.Word.{wrapping_sub64, wrapping_add64}
use kontsnor_os.Circular.{copy_at, slice}

-- `RingBuffer<T, N>`; `N` is an argument of the operations.
pub record RingBuffer {ℓ} (T : Type ℓ) : Type ℓ where
  pub buffer : List (Option T)
  pub head : ℕ
  pub tail : ℕ

-- `is_empty` of a slice
abbrev pub is_empty_slice {ℓ} : {A : Type ℓ} → List A → Bool
is_empty_slice xs = length xs == 0

module _ {ℓ} {T : Type ℓ} (n : ℕ) where
  -- The source asserts that `n` is a power of two, at compile time.
  pub new : RingBuffer T
  new = record { buffer = replicate n none; head = 0; tail = 0 }

  -- `none` is `Ok(())`, and `some item` is `Err(item)`.
  pub push : RingBuffer T → T → Option T × RingBuffer T
  push r item = if leb n (wrapping_sub64 r.head r.tail) then (some item, r) else (
    none,
    record r {
      buffer = set r.buffer (bit_and r.head (n - 1)) (some item);
      head = wrapping_add64 r.head 1;
    },
  )

  -- The inner option is the slot that is read: `none` would be a read of uninitialised memory.
  pub pop : RingBuffer T → Option (Option T) × RingBuffer T
  pop r = if leb r.head r.tail then (none, r) else (
    some (get_or r.buffer (bit_and r.tail (n - 1)) none),
    record r { tail = wrapping_add64 r.tail 1 },
  )

  pub is_empty : RingBuffer T → Bool
  is_empty r = leb r.head r.tail

  pub len : RingBuffer T → ℕ
  len r = wrapping_sub64 r.head r.tail

  -- The slots that `push_slice` leaves behind, for `to_write` items.
  pub write_chunks : RingBuffer T → List T → ℕ → List (Option T)
  write_chunks r src to_write =
      let at = bit_and r.head (n - 1) in
      let first_chunk = min to_write (n - at) in
      let second_chunk = to_write - first_chunk in
      let items = map some src in
      let once = copy_at r.buffer at (take first_chunk items) in
      if ltb 0 second_chunk
      then copy_at once 0 (take second_chunk (drop first_chunk items))
      else once

  pub push_slice : RingBuffer T → List T → ℕ × RingBuffer T
  push_slice r src =
      let available = n - wrapping_sub64 r.head r.tail in
      let to_write = min (length src) available in
      if available == 0 || is_empty_slice src then (0, r) else (
        to_write,
        record r { buffer = write_chunks r src to_write; head = wrapping_add64 r.head to_write },
      )

  -- `dst` after `pop_slice` has read `to_read` items into it.
  pub read_chunks : RingBuffer T → List (Option T) → ℕ → List (Option T)
  read_chunks r dst to_read =
      let at = bit_and r.tail (n - 1) in
      let first_chunk = min to_read (n - at) in
      let second_chunk = to_read - first_chunk in
      let once = copy_at dst 0 (slice r.buffer at first_chunk) in
      if ltb 0 second_chunk then copy_at once first_chunk (slice r.buffer 0 second_chunk) else once

  -- The count, `dst` as it is left, and the ring.
  pub pop_slice : RingBuffer T → List (Option T) → ℕ × List (Option T) × RingBuffer T
  pop_slice r dst =
      let available = wrapping_sub64 r.head r.tail in
      let to_read = min (length dst) available in
      if available == 0 || is_empty_slice dst
      then (0, dst, r)
      else (to_read, read_chunks r dst to_read, record r { tail = wrapping_add64 r.tail to_read })
