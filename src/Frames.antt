-- ===== src/Frames.antt =====
-- The allocator of physical frames: kernel/src/memory/physical.rs. The bitmap is a function from a
-- frame's index to its bit, `true` for a frame in use: bit `i % 8` of byte `i / 8`, which is bit
-- `i % 64` of the `i / 64`-th word of eight bytes, the machine being little-endian. The number of
-- those words, 65536 in the source, is a parameter, and `MAX_FRAMES` is 64 for each.
pub mod Word
pub mod Search
pub mod Contiguous
pub mod Memory
mod Tests
use kontsnor_os.Prelude.{
  ℕ, zero, suc, ◌+◌, ◌-◌, ◌*◌, ◌/◌, ◌%◌, min, Bool, true, false, List, [], ◌∷◌, Option, none, some,
  ltb, leb, ◌==◌, ◌&&◌, ◌||◌, not, if◌then◌else◌, length,
}
use kontsnor_os.Prelude.Word.{wrapping_sub64}

pub record FrameAllocator : Type 0 where
  pub bitmap : ℕ → Bool
  pub total_frames : ℕ
  pub allocated_frames : ℕ
  pub next_free_hint : ℕ
  pub initialized : Bool

abbrev pub page_size : ℕ
page_size = 4096

-- `FrameAllocator::new`
abbrev pub new_allocator : FrameAllocator
new_allocator = record {
  bitmap = λ i. true;
  total_frames = 0;
  allocated_frames = 0;
  next_free_hint = 0;
  initialized = false;
}

abbrev pub set_bit : (ℕ → Bool) → ℕ → Bool → ℕ → Bool
set_bit f i v j = if j == i then v else f j

-- The position of the first clear bit of `n` bits, from the `i`-th on: `trailing_zeros` of the
-- complement, or 64 if all are set.
pub first_clear : (ℕ → Bool) → (i n : ℕ) → ℕ
first_clear word i zero = i
first_clear word i (suc n) = let rest = first_clear word (i + 1) n in if word i then rest else i

-- The word of 64 bits that `index` falls into, with the bits before `index` taken as set.
abbrev pub masked_word : (ℕ → Bool) → ℕ → ℕ → Bool
masked_word bitmap index b = ltb b (index % 64) || bitmap (index / 64 * 64 + b)

-- How the search for a free frame ends; `out_of_rounds` is no case of the source.
pub data Searched : Type 0 where
  taken : ℕ × FrameAllocator → Searched
  all_used : Searched
  out_of_rounds : Searched

module _ (words : ℕ) where
  abbrev pub max_frames : ℕ
  max_frames = 64 * words

  pub mark_free : ℕ → FrameAllocator → FrameAllocator
  mark_free i a = if ltb i max_frames then record a { bitmap = set_bit a.bitmap i false } else a

  pub mark_used : ℕ → FrameAllocator → FrameAllocator
  mark_used i a = if ltb i max_frames then record a { bitmap = set_bit a.bitmap i true } else a

  pub is_free : ℕ → FrameAllocator → Bool
  is_free i a = if leb max_frames i then false else not (a.bitmap i)

  -- A found frame is taken.
  pub take_frame : ℕ → FrameAllocator → ℕ × FrameAllocator
  take_frame i a = (
    i * page_size,
    record (mark_used i a) {
      allocated_frames = a.allocated_frames + 1;
      next_free_hint = (i + 1) % max_frames;
    },
  )

  -- The loop of `allocate`; the test that a word lies within the bitmap holds of every index below
  -- `max_frames`. `fuel` counts the rounds.
  pub search : (fuel searched index : ℕ) → FrameAllocator → Searched
  search zero searched index a = out_of_rounds
  search (suc fuel) searched index a =
      let advance = 64 - index % 64 in
      let on = search fuel (searched + advance) ((index + advance) % max_frames) a in
      let one_on = search fuel (searched + 1) ((index + 1) % max_frames) a in
      let bit = first_clear (masked_word a.bitmap index) 0 64 in
      let frame = index / 64 * 64 + bit in
      if leb max_frames searched
      then all_used
      else if leb (index / 64 * 8 + 8) (8 * words)
      then (if bit == 64
          then on
          else if ltb frame max_frames
          then taken (take_frame frame a)
          else on)
      else if is_free index a
      then taken (take_frame index a)
      else one_on

  abbrev pub answer : Searched → Option (ℕ × FrameAllocator)
  answer (taken r) = some r
  answer all_used = none
  answer out_of_rounds = none

  -- Each round goes on by a frame at least, so `max_frames` rounds and one suffice.
  pub allocate : FrameAllocator → Option (ℕ × FrameAllocator)
  allocate a = if a.initialized then answer (search (max_frames + 1) 0 a.next_free_hint a) else none

  -- The first frame of `n` from `index + i` on that is past the end or in use.
  pub blocked_at : (index i n : ℕ) → FrameAllocator → Option ℕ
  blocked_at index i zero a = none
  blocked_at index i (suc n) a =
      let rest = blocked_at index (i + 1) n a in
      if leb max_frames (index + i) || not (is_free (index + i) a) then some i else rest

  pub mark_range : (index n : ℕ) → FrameAllocator → FrameAllocator
  mark_range index zero a = a
  mark_range index (suc n) a = mark_range (index + 1) n (mark_used index a)

  -- A found block is taken.
  pub take_block : (index count : ℕ) → FrameAllocator → ℕ × FrameAllocator
  take_block index count a =
      let marked = mark_range index count a in
      (
        index * page_size,
        record marked {
          allocated_frames = marked.allocated_frames + count;
          next_free_hint = (index + count) % max_frames;
        },
      )

  -- The loop of `allocate_contiguous`.
  pub search_block : (fuel searched index count : ℕ) → FrameAllocator → Option (ℕ × FrameAllocator)
  search_block zero searched index count a = none
  search_block (suc fuel) searched index count a =
      let on = λ (advance : ℕ).
        search_block fuel (searched + advance) ((index + advance) % max_frames) count a in
      let word_on = on (64 - index % 64) in
      let one_on = on 1 in
      let full =
        leb (index / 64 * 8 + 8) (8 * words)
        && (first_clear (masked_word a.bitmap index) 0 64 == 64) in
      let block : Option (ℕ × FrameAllocator) = elim (blocked_at index 1 (count - 1) a) [
        | some i ↦ on (i + 1)
        | none ↦ some (take_block index count a)
      ] in
      if leb max_frames searched
      then none
      else if full
      then word_on
      else if is_free index a
      then block
      else one_on

  pub allocate_contiguous : ℕ → FrameAllocator → Option (ℕ × FrameAllocator)
  allocate_contiguous count a =
      if not a.initialized || (count == 0)
      then none
      else if count == 1
      then allocate a
      else search_block (max_frames + 1) 0 a.next_free_hint (min count 32) a

  pub deallocate : (phys_addr : ℕ) → FrameAllocator → FrameAllocator
  deallocate phys_addr a =
      let i = phys_addr / 4096 in
      let freed = mark_free i a in
      if ltb i max_frames && not (is_free i a)
      then record freed {
        allocated_frames = wrapping_sub64 a.allocated_frames 1;
        next_free_hint = if ltb i a.next_free_hint then i else a.next_free_hint;
      }
      else a
