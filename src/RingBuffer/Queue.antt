-- ===== src/RingBuffer/Queue.antt =====
-- `push`, `pop`, `is_empty` and `len` of kernel/src/util/ring_buffer.rs against a bounded queue.
use Prim.Native.Nat.{bit_and}
use mathlib.Core.List.{map-append}
use mathlib.Core.Option
use mathlib.Core.Path.{ap₂}
use kontsnor_os.Prelude.{
  ℕ, suc, ◌+◌, ◌-◌, ◌%◌, ◌^◌, ◌≤◌, ◌<◌, ◌≡◌, refl, sym, ap, ◌∙◌, List, [], ◌∷◌, ◌++◌, Option, none,
  some, map, arith, leb, ◌==◌, if◌then◌else◌, length, get_or, set, length-set, length-replicate,
}
use kontsnor_os.Prelude.Word.{wrapping_sub64, wrapping_add64}
use kontsnor_os.Prelude.Bits.{bit_and_mask}
use kontsnor_os.Circular.{window}
use kontsnor_os.Circular.Window.{length-window, window-set}
use kontsnor_os.RingBuffer.{RingBuffer, new, push, pop, is_empty, len}

-- The capacity is a power of two, and no counter has wrapped.
pub record IsValid {ℓ} {T : Type ℓ} (k : ℕ) (r : RingBuffer T) : Type ℓ where
  pub slots : length r.buffer ≡ 2 ^ k
  pub ordered : r.tail ≤ r.head
  pub bounded : r.head ≤ r.tail + 2 ^ k
  pub unwrapped : r.head < 2 ^ 64

-- The slots from the oldest item to the newest.
abbrev pub contents {ℓ} : {T : Type ℓ} → ℕ → RingBuffer T → List (Option T)
contents k r = window none (2 ^ k) r.buffer r.tail (r.head - r.tail)

-- The ring is valid, every slot in use has been written, and the slots hold this queue.
pub record Holds {ℓ} {T : Type ℓ} (k : ℕ) (r : RingBuffer T) (q : List T) : Type ℓ where
  pub valid : IsValid k r
  pub items : contents k r ≡ map some q

-- The bounded queue that the ring implements: `some item` is an item given back.
module _ {ℓ} {T : Type ℓ} where
  unfoldable pub offer : ℕ → List T → T → Option T × List T
  offer cap q x = if leb cap (length q) then (some x, q) else (none, q ++ (x ∷ []))

  unfoldable pub poll : List T → Option T × List T
  poll [] = (none, [])
  poll (x ∷ q) = (some x, q)

module _ {ℓ} {T : Type ℓ} (k : ℕ) where
  pub length-map-some : (q : List T) → length (map {B = Option T} some q) ≡ length q
  length-map-some [] = refl
  length-map-some (x ∷ q) = ap suc (length-map-some q)

  pub Holds-length : (r : RingBuffer T) (q : List T) → Holds k r q → length q + r.tail ≡ r.head
  Holds-length r q h = omega (
    arith,
    length-map-some q,
    ap length h.items,
    length-window none (2 ^ k) r.buffer r.tail (r.head - r.tail),
    h.valid,
  )

  pub slots_len : (r : RingBuffer T) → IsValid k r → wrapping_sub64 r.head r.tail ≡ r.head - r.tail
  slots_len r v = omega (arith, v)

  -- A fresh ring is valid and holds the empty queue.
  pub new-Holds : Holds k (new {T = T} (2 ^ k)) []
  unfolding new
  new-Holds = record {
    valid = record {
      slots = length-replicate (2 ^ k) none;
      ordered = omega arith;
      bounded = omega arith;
      unwrapped = omega arith;
    };
    items = refl;
  }

  push_item-Holds :
      (r : RingBuffer T) (q : List T) (x : T)
      → Holds k r q
      → r.head + 1 < 2 ^ 64
      → length q < 2 ^ k
      → Holds k
          (record r {
            buffer = set r.buffer (bit_and r.head (2 ^ k - 1)) (some x);
            head = wrapping_add64 r.head 1;
          })
          (q ++ (x ∷ []))
  push_item-Holds r q x h no_wrap room =
      rw (bit_and_mask, next_head)
        record {
          valid = record {
            slots = length-set r.buffer (r.head % 2 ^ k) (some x) ∙ h.valid.slots;
            ordered = omega (arith, h.valid);
            bounded = omega (arith, Holds-length r q h);
            unwrapped = no_wrap;
          };
          items =
              ap₂ (λ i m. window none (2 ^ k) (set r.buffer (i % 2 ^ k) (some x)) r.tail m)
                (omega (arith, h.valid)) (omega (arith, h.valid))
              ∙ window-set none (2 ^ k) r.buffer r.tail (r.head - r.tail) (some x) h.valid.slots
                  (omega (arith, Holds-length r q h))
              ∙ ap (λ w. w ++ (some x ∷ [])) h.items
              ∙ sym (map-append some q (x ∷ []));
        }
    where
      next_head : wrapping_add64 r.head 1 ≡ r.head + 1
      next_head = omega arith

  -- `push` on a ring that holds a queue does what `offer` does, unless the counter would wrap: at
  -- a full ring it gives the item back and changes nothing, else the item is behind the others.
  pub push_refines :
      (r : RingBuffer T) (q : List T) (x : T)
      → Holds k r q
      → r.head + 1 < 2 ^ 64
      → let (rejected, r') = push (2 ^ k) r x in
        let (rejected', q') = offer (2 ^ k) q x in (rejected ≡ rejected') × Holds k r' q'
  unfolding push offer
  push_refines r q x h no_wrap =
      ground (arith, Holds-length r q h, slots_len r h.valid, push_item-Holds r q x h no_wrap)

  pop_item :
      (r : RingBuffer T) (x : T) (q : List T)
      → Holds k r (x ∷ q)
      → (get_or r.buffer (bit_and r.tail (2 ^ k - 1)) none ≡ some x)
        × Holds k (record r { tail = wrapping_add64 r.tail 1 }) q
  pop_item r x q h =
      rw (bit_and_mask, next_tail)
        (
          cc opened,
          record {
            valid = record {
              slots = h.valid.slots;
              ordered = omega (arith, Holds-length r (x ∷ q) h);
              bounded = omega (arith, h.valid);
              unwrapped = h.valid.unwrapped;
            };
            items = ap (window none (2 ^ k) r.buffer (r.tail + 1)) fewer ∙ cc opened;
          },
        )
    where
      next_tail : wrapping_add64 r.tail 1 ≡ r.tail + 1
      next_tail = omega (arith, Holds-length r (x ∷ q) h, h.valid)

      fewer : r.head - (r.tail + 1) ≡ length q
      fewer = omega (arith, Holds-length r (x ∷ q) h)

      count : suc (length q) ≡ r.head - r.tail
      count = omega (arith, Holds-length r (x ∷ q) h)

      opened : window none (2 ^ k) r.buffer r.tail (suc (length q)) ≡ some x ∷ map some q
      opened = ap (window none (2 ^ k) r.buffer r.tail) count ∙ h.items

  -- `pop` on a ring that holds a queue does what `poll` does: the oldest item, which has been
  -- written, and the rest; on an empty ring nothing, and no change.
  pub pop_refines :
      (r : RingBuffer T) (q : List T)
      → Holds k r q
      → let (out, r') = pop (2 ^ k) r in
        let (out', q') = poll q in (out ≡ Option.map some out') × Holds k r' q'
  unfolding pop poll
  pop_refines r [] h = ground (arith, Holds-length r [] h)
  pop_refines r (x ∷ q) h = ground (arith, Holds-length r (x ∷ q) h, pop_item r x q h)

  -- On a ring that holds a queue, `len` is the queue's length, and `is_empty` tells whether the
  -- queue is empty.
  pub len_refines :
      (r : RingBuffer T) (q : List T)
      → Holds k r q
      → (len (2 ^ k) r ≡ length q) × (is_empty (2 ^ k) r ≡ (length q == 0))
  unfolding len is_empty
  len_refines r q h = ground (arith, Holds-length r q h, h.valid)
