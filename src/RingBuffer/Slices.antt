-- ===== src/RingBuffer/Slices.antt =====
-- `push_slice` and `pop_slice` of kernel/src/util/ring_buffer.rs against a bounded queue.
use native.Mathlib.Nat.{mod-lt, mod-mod}
use mathlib.Core.List.{map-append, append-nil}
use mathlib.Core.Path.{ap₂}
use kontsnor_os.Prelude.{
  ℕ, ◌+◌, ◌-◌, ◌%◌, ◌^◌, ◌≤◌, ◌<◌, min, ◌≡◌, refl, sym, ap, ◌∙◌, List, ◌++◌, Option, none, some,
  map, arith, ◌==◌, ◌||◌, length, take, drop, length-map, take-map, drop-map, length-take,
  Bool-cases, inl, inr,
}
use kontsnor_os.Prelude.Word.{wrapping_add64}
use kontsnor_os.Prelude.Bits.{bit_and_mask, pow_pos}
use kontsnor_os.Circular.{window, write_each}
use kontsnor_os.Circular.Window.{
  window-write_each, length-write_each, window-take, window-drop, window-shift,
}
use kontsnor_os.Circular.Chunks.{guarded_copies, guarded_slices, write_each-shift}
use kontsnor_os.RingBuffer.{
  RingBuffer, push_slice, pop_slice, write_chunks, read_chunks, is_empty_slice,
}
use kontsnor_os.RingBuffer.Queue.{IsValid, Holds, Holds-length, slots_len}

-- As many items of `src` as fit, and as many items as there is room for in the reader's slice.
module _ {ℓ} {T : Type ℓ} where
  unfoldable pub offer_all : ℕ → List T → List T → ℕ × List T
  offer_all cap q src = let n = min (length src) (cap - length q) in (n, q ++ take n src)

  unfoldable pub poll_many : List T → ℕ → List T × List T
  poll_many q n = (take n q, drop n q)

module _ {ℓ} {T : Type ℓ} (k : ℕ) where
  -- What the two copies write is what item by item writing would.
  write_chunks-eq-write_each :
      (r : RingBuffer T) (src : List T) (m : ℕ)
      → IsValid k r
      → m ≤ 2 ^ k
      → m ≤ length src
      → write_chunks (2 ^ k) r src m ≡ write_each (2 ^ k) r.buffer r.head (map some (take m src))
  unfolding write_chunks
  write_chunks-eq-write_each r src m v fits enough =
      rw bit_and_mask (
        guarded_copies (2 ^ k) m (map some src) r.buffer (r.head % 2 ^ k) v.slots
          (mod-lt r.head (pow_pos k)) fits (omega (arith, length-map {B = Option T} some src)))
      ∙ ap (write_each (2 ^ k) r.buffer (r.head % 2 ^ k)) (take-map some m src)
      ∙ write_each-shift (2 ^ k) (map some (take m src)) r.buffer (r.head % 2 ^ k) r.head
          (mod-mod r.head (2 ^ k))

  push_items-Holds :
      (r : RingBuffer T) (q src : List T) (m : ℕ)
      → Holds k r q
      → m ≤ length src
      → length q + m ≤ 2 ^ k
      → r.head + m < 2 ^ 64
      → Holds k
          (record r { buffer = write_chunks (2 ^ k) r src m; head = wrapping_add64 r.head m })
          (q ++ take m src)
  push_items-Holds r q src m h enough fits no_wrap =
      rw (write_chunks-eq-write_each r src m h.valid (omega arith) enough, next_head)
        record {
          valid = record {
            slots = length-write_each (2 ^ k) items r.buffer r.head ∙ h.valid.slots;
            ordered = omega (arith, h.valid);
            bounded = omega (arith, Holds-length k r q h);
            unwrapped = no_wrap;
          };
          items =
              ap₂ (λ t n. window none (2 ^ k) (write_each (2 ^ k) r.buffer t items) r.tail n)
                (omega (arith, h.valid)) (omega (arith, h.valid, count))
              ∙ window-write_each none (2 ^ k) items r.buffer r.tail (r.head - r.tail) h.valid.slots
                  (omega (arith, Holds-length k r q h, count))
              ∙ ap (λ w. w ++ items) h.items
              ∙ sym (map-append some q (take m src));
        }
    where
      items : List (Option T)
      items = map some (take m src)

      count : length items ≡ m
      count = omega (arith, length-map {B = Option T} some (take m src), length-take m src)

      next_head : wrapping_add64 r.head m ≡ r.head + m
      next_head = omega arith

  -- `push_slice` on a ring that holds a queue appends as many items as fit, in order, and returns
  -- their number, unless the counter would wrap.
  pub push_slice_refines :
      (r : RingBuffer T) (q src : List T)
      → Holds k r q
      → r.head + length src < 2 ^ 64
      → let (n, r') = push_slice (2 ^ k) r src in
        let (n', q') = offer_all (2 ^ k) q src in (n ≡ n') × Holds k r' q'
  unfolding push_slice offer_all
  push_slice_refines r q src h no_wrap =
      rw (slots_len k r h.valid, occupied)
        (elim (Bool-cases (2 ^ k - length q == 0 || is_empty_slice src)) [
          | inl nothing ↦
              let zero_items : min (length src) (2 ^ k - length q) ≡ 0 = ground arith in
              rw (nothing, zero_items) (refl, rw append-nil h)
          | inr items ↦ rw items (
            refl,
            push_items-Holds r q src (min (length src) (2 ^ k - length q)) h (omega arith)
                (omega (arith, Holds-length k r q h, h.valid)) (omega arith),
          )
        ])
    where
      occupied : r.head - r.tail ≡ length q
      occupied = omega (arith, Holds-length k r q h)

  pop_items-Holds :
      (r : RingBuffer T) (q : List T) (m : ℕ)
      → Holds k r q
      → m ≤ length q
      → Holds k (record r { tail = wrapping_add64 r.tail m }) (drop m q)
  pop_items-Holds r q m h enough = rw next_tail record {
    valid = record {
      slots = h.valid.slots;
      ordered = omega (arith, Holds-length k r q h);
      bounded = omega (arith, h.valid);
      unwrapped = h.valid.unwrapped;
    };
    items =
        ap (window none (2 ^ k) r.buffer (r.tail + m)) fewer
        ∙ window-drop none (2 ^ k) r.buffer r.tail (r.head - r.tail) m
            (omega (arith, Holds-length k r q h))
        ∙ ap (drop m) h.items
        ∙ drop-map some m q;
  }
    where
      fewer : r.head - (r.tail + m) ≡ r.head - r.tail - m
      fewer = omega arith

      next_tail : wrapping_add64 r.tail m ≡ r.tail + m
      next_tail = omega (arith, Holds-length k r q h, h.valid)

  read_chunks_lem :
      (r : RingBuffer T) (q : List T) (dst : List (Option T)) (m : ℕ)
      → Holds k r q
      → m ≤ length q
      → m ≤ length dst
      → read_chunks (2 ^ k) r dst m ≡ map some (take m q) ++ drop m dst
  unfolding read_chunks
  read_chunks_lem r q dst m h enough room =
      rw bit_and_mask (
        guarded_slices none (2 ^ k) m r.buffer dst (r.tail % 2 ^ k) h.valid.slots
          (mod-lt r.tail (pow_pos k)) (omega (arith, Holds-length k r q h, h.valid)) room)
      ∙ ap (λ w. w ++ drop m dst)
          (window-shift none (2 ^ k) r.buffer (r.tail % 2 ^ k) r.tail m (mod-mod r.tail (2 ^ k))
            ∙ window-take none (2 ^ k) r.buffer r.tail (r.head - r.tail) m
                (omega (arith, Holds-length k r q h))
            ∙ ap (take m) h.items
            ∙ take-map some m q)

  -- `pop_slice` on a ring that holds a queue moves its oldest items, as many as `dst` has room
  -- for, to the front of `dst`, leaves the rest of `dst` alone, and returns their number.
  pub pop_slice_refines :
      (r : RingBuffer T) (q : List T) (dst : List (Option T))
      → Holds k r q
      → let (n, dst', r') = pop_slice (2 ^ k) r dst in
        let (out, q') = poll_many q n in
        (n ≡ min (length dst) (length q)) × (dst' ≡ map some out ++ drop n dst) × Holds k r' q'
  unfolding pop_slice poll_many
  pop_slice_refines r q dst h =
      rw (slots_len k r h.valid, occupied)
        (elim (Bool-cases (length q == 0 || is_empty_slice dst)) [
          | inl nothing ↦
              let zero_items : min (length dst) (length q) ≡ 0 = ground arith in
              rw (nothing, zero_items) (refl, refl, h)
          | inr items ↦ rw items (
            refl,
            read_chunks_lem r q dst (min (length dst) (length q)) h (omega arith) (omega arith),
            pop_items-Holds r q (min (length dst) (length q)) h (omega arith),
          )
        ])
    where
      occupied : r.head - r.tail ≡ length q
      occupied = omega (arith, Holds-length k r q h)
