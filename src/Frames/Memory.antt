-- ===== src/Frames/Memory.antt =====
-- The frames that processors keep for themselves, and the counts of a frame's users
-- (kernel/src/memory/physical.rs). A cache is the list of its frames, the last one stored first; a
-- cache has 16 places.
pub mod Caches
pub mod Ownership
pub mod Taking
pub mod Returning
pub mod Calls
pub mod Misuse
pub mod Blocks
use kontsnor_os.Prelude.{
  ℕ, zero, suc, ◌+◌, ◌-◌, ◌/◌, ◌%◌, Bool, true, false, List, [], ◌∷◌, Option, none, some, ltb, leb,
  ◌==◌, ◌&&◌, if◌then◌else◌, length,
}
use kontsnor_os.Frames.{FrameAllocator, max_frames, allocate, allocate_contiguous, deallocate}

-- `FRAME_ALLOCATOR`, `CORE_CACHES` and `FRAME_REFS`
pub record Memory : Type 0 where
  pub global : FrameAllocator
  pub caches : ℕ → List ℕ
  pub refs : ℕ → ℕ

abbrev pub set_at {ℓ} : {A : Type ℓ} → (ℕ → A) → ℕ → A → ℕ → A
set_at f i v j = if j == i then v else f j

module _ (words : ℕ) where
  pub increment_ref : (phys_addr : ℕ) → Memory → Memory
  increment_ref phys_addr m =
      let i = phys_addr / 4096 in
      if ltb i (max_frames words)
      then record m { refs = set_at m.refs i ((m.refs i + 1) % 256) }
      else m

  -- The new count beside the state.
  pub decrement_ref : (phys_addr : ℕ) → Memory → ℕ × Memory
  decrement_ref phys_addr m =
      let i = phys_addr / 4096 in
      if ltb i (max_frames words)
      then (if m.refs i == 0
          then (0, m)
          else (m.refs i - 1, record m { refs = set_at m.refs i (m.refs i - 1) }))
      else (0, m)

  -- The rounds of the bulk allocation for an empty cache: the first frame, if there is one, the
  -- cache, and the allocator.
  pub refill :
      (rounds : ℕ)
      → (first : Option ℕ) → (cache : List ℕ) → FrameAllocator
      → Option ℕ × List ℕ × FrameAllocator
  refill zero first cache a = (first, cache, a)
  refill (suc n) first cache a = elim (allocate words a) [
    | none ↦ (first, cache, a)
    | some (f, a') ↦ elim first [
      | none ↦ refill n (some f) cache a'
      | some g ↦
          if ltb (length cache) 15
          then refill n (some g) (f ∷ cache) a'
          else refill n (some g) cache (deallocate words f a')
    ]
  ]

  -- The frame that `allocate_frame` has come by on processor `core`, its count not yet set.
  pub obtain_frame : (core : ℕ) → Memory → Option ℕ × Memory
  obtain_frame core m =
      let direct : Option ℕ × Memory = elim (allocate words m.global) [
        | none ↦ (none, m)
        | some (f, a) ↦ (some f, record m { global = a })
      ] in
      let (first, cache, a) = refill 8 none [] m.global in
      let filled : Option ℕ × Memory =
        (first, record m { global = a; caches = set_at m.caches core cache }) in
      if ltb core 32
      then elim (m.caches core) [
        | f ∷ rest ↦ (some f, record m { caches = set_at m.caches core rest })
        | [] ↦ filled
      ]
      else direct

  pub allocate_frame : (core : ℕ) → Memory → Option ℕ × Memory
  allocate_frame core m =
      let (frame, m') = obtain_frame core m in
      elim frame [
        | none ↦ (none, m')
        | some f ↦ (
          some f,
          if ltb (f / 4096) (max_frames words)
              then record m' { refs = set_at m'.refs (f / 4096) 1 }
              else m',
        )
      ]

  -- `n` frames go from the cache to the allocator.
  pub spill : ℕ → List ℕ → FrameAllocator → List ℕ × FrameAllocator
  spill zero cache a = (cache, a)
  spill (suc n) [] a = ([], a)
  spill (suc n) (f ∷ rest) a = spill n rest (deallocate words f a)

  -- A frame that nothing refers to any more goes to the cache of `core`.
  pub reclaim : (core phys_addr : ℕ) → Memory → Memory
  reclaim core phys_addr m =
      let (kept, a) = spill 8 (m.caches core) m.global in
      if ltb core 32
      then (if ltb (length (m.caches core)) 16
          then record m { caches = set_at m.caches core (phys_addr ∷ m.caches core) }
          else record m { global = a; caches = set_at m.caches core (phys_addr ∷ kept) })
      else record m { global = deallocate words phys_addr m.global }

  pub deallocate_frame : (core phys_addr : ℕ) → Memory → Memory
  deallocate_frame core phys_addr m =
      let i = phys_addr / 4096 in
      let dropped = record m { refs = set_at m.refs i (m.refs i - 1) } in
      if ltb i (max_frames words)
      then (if m.refs i == 0
          then m
          else if ltb 0 (m.refs i - 1)
          then dropped
          else reclaim core phys_addr dropped)
      else reclaim core phys_addr m

  pub drain_local_cache : (core : ℕ) → Memory → Memory
  drain_local_cache core m =
      let (kept, a) = spill (length (m.caches core)) (m.caches core) m.global in
      if ltb core 32 then record m { global = a; caches = set_at m.caches core kept } else m

  pub store_ref : ℕ → Memory → Memory
  store_ref i m = if ltb i (max_frames words) then record m { refs = set_at m.refs i 1 } else m

  -- `n` frames from the `i`-th on get one user.
  pub set_refs : (n i : ℕ) → Memory → Memory
  set_refs zero i m = m
  set_refs (suc n) i m = set_refs n (i + 1) (store_ref i m)

  pub allocate_contiguous_frames : (core count : ℕ) → Memory → Option ℕ × Memory
  allocate_contiguous_frames core count m =
      let block : Option ℕ × Memory = elim (allocate_contiguous words count m.global) [
        | none ↦ (none, m)
        | some (start, a) ↦ (some start, set_refs count (start / 4096) (record m { global = a }))
      ] in
      if count == 0 then (none, m) else if count == 1 then allocate_frame core m else block
