-- ===== src/Frames/Memory/Blocks.antt =====
-- Blocks of frames: `allocate_contiguous_frames` of kernel/src/memory/physical.rs.
use kontsnor_os.Prelude.{
  ℕ, zero, suc, ◌+◌, ◌*◌, ◌/◌, ◌≤◌, ◌<◌, ◌≡◌, refl, ap, ◌∙◌, true, false, Bool-cases, Option-cases,
  inl, inr, Option, none, some, ltb, leb, ◌==◌, ◌&&◌, ◌||◌, if◌then◌else◌, min, arith,
}
use mathlib.Core.Path.{subst}
use kontsnor_os.Frames.{FrameAllocator, allocate_contiguous}
use kontsnor_os.Frames.Contiguous.{BlockTaken, allocate_contiguous-BlockTaken}
use kontsnor_os.Frames.Memory.{Memory, store_ref, set_refs, allocate_contiguous_frames}

module _ (words : ℕ) where
  store_ref-refs :
      (i : ℕ) (m : Memory)
      → ((store_ref words i m).global ≡ m.global)
        × ((j : ℕ)
            → j < 64 * words
            → (store_ref words i m).refs j ≡ (if j == i then 1 else m.refs j))
  unfolding store_ref
  store_ref-refs i m = elim (Bool-cases (ltb i (64 * words))) [
    | inl e ↦ rw (e, store_ref) (refl, λ j low. refl)
    | inr e ↦ rw (e, store_ref) (refl, λ j low. ground (arith, e, low))
  ]

  -- The loop sets the counts of the frames of the managed range among its frames.
  set_refs-refs :
      (n i : ℕ) (m : Memory)
      → ((set_refs words n i m).global ≡ m.global)
        × ((j : ℕ)
            → j < 64 * words
            → (set_refs words n i m).refs j ≡ (if leb i j && ltb j (i + n) then 1 else m.refs j))
  unfolding set_refs
  set_refs-refs zero i m = (refl, λ j low. ground arith)
  set_refs-refs (suc n) i m =
      let (same, refs) = store_ref-refs i m in
      let (same', refs') = set_refs-refs n (i + 1) (store_ref words i m) in
      (same' ∙ same, λ j low. let one = refs j low in refs' j low ∙ (ground (arith, one)))

  -- What a call for `count` frames has done to `m`: nothing, or it returns a block.
  abbrev pub Reserved : (count : ℕ) (m : Memory) → Option ℕ × Memory → Type 0
  Reserved count m (none, m') = m' ≡ m
  Reserved count m (some addr, m') =
      (start : ℕ) × (addr ≡ start * 4096)
      × (start + min count 32 ≤ 64 * words)
      × ((j : ℕ) → start ≤ j → j < start + min count 32 → m.global.bitmap j ≡ false)
      × ((j : ℕ)
          → m'.global.bitmap j
            ≡ ((leb start j && ltb j (start + min count 32)) || m.global.bitmap j))
      × ((j : ℕ)
          → j < 64 * words
          → m'.refs j ≡ (if leb start j && ltb j (start + count) then 1 else m.refs j))

  block-Reserved :
      (count addr : ℕ) (a : FrameAllocator) (m : Memory)
      → BlockTaken words (min count 32) m.global (some (addr, a))
      → Reserved count m (some addr, set_refs words count (addr / 4096) (record m { global = a }))
  unfolding BlockTaken
  block-Reserved count addr a m (start, at, inside, free, marked, counted, hint) =
      let (same, refs) = set_refs-refs count (addr / 4096) (record m { global = a }) in
      let frame : addr / 4096 ≡ start = omega (arith, at) in
      (
        start,
        at,
        inside,
        free,
        (λ j. ap (λ (g : FrameAllocator). g.bitmap j) same ∙ marked j),
        (λ j low.
            refs j low ∙ ap (λ f. if leb f j && ltb j (f + count) then 1 else m.refs j) frame),
      )

-- When the allocator is initialized and its hint is a frame, a block that is returned for two frames
-- or more begins at a frame, and the first 32 of its frames, or all if they are fewer, lie within the
-- bitmap, were free and are marked, and no others are marked. A call that returns none changes nothing. But all `count` frames from its start on, in the
-- managed range, have their count of users set to one, those behind the first 32 too.
pub allocate_contiguous_frames-Reserved :
    (words core count : ℕ) (m : Memory)
    → m.global.initialized ≡ true
    → m.global.next_free_hint < 64 * words
    → 2 ≤ count
    → Reserved words count m (allocate_contiguous_frames words core count m)
unfolding allocate_contiguous_frames
allocate_contiguous_frames-Reserved words core count m ready hint more =
    let some_frames : (count == 0) ≡ false = ground (arith, more) in
    let not_one : (count == 1) ≡ false = ground (arith, more) in
    let taken = allocate_contiguous-BlockTaken words count m.global ready hint in
    elim (Option-cases (allocate_contiguous words count m.global)) [
      | inl e ↦ rw (some_frames, not_one, e, allocate_contiguous_frames) refl
      | inr ((addr, a), e) ↦
          rw (some_frames, not_one, e, allocate_contiguous_frames)
            (block-Reserved words count addr a m
              (subst (BlockTaken words (min count 32) m.global) e taken))
    ]
