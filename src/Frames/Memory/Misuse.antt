-- ===== src/Frames/Memory/Misuse.antt =====
-- What the calls of kernel/src/memory/physical.rs do outside the bounds of `Calls`.
use kontsnor_os.Prelude.{
  ℕ, zero, suc, ◌+◌, ◌*◌, ◌/◌, ◌%◌, ◌≤◌, ◌<◌, ◌≡◌, ap, ◌∙◌, true, false, List, ◌∷◌, some, ltb,
  length, arith,
}
use kontsnor_os.Frames.Memory.{
  Memory, set_at, increment_ref, obtain_frame, allocate_frame, reclaim, deallocate_frame,
}
use kontsnor_os.Frames.Memory.Ownership.{set_at_self}

-- A frame that gains `n` users.
pub shared_times : (words n f : ℕ) → Memory → Memory
shared_times words zero f m = m
shared_times words (suc n) f m = shared_times words n f (increment_ref words f m)

-- After `n` more users the count of a frame in the managed range is the remainder by 256 of what it
-- should be: 256 more users leave it as it was.
pub shared_times_refs :
    (words n f : ℕ) (m : Memory)
    → f / 4096 < 64 * words
    → m.refs (f / 4096) < 256
    → (shared_times words n f m).refs (f / 4096) ≡ (m.refs (f / 4096) + n) % 256
unfolding shared_times increment_ref
shared_times_refs words zero f m low byte = omega (arith, byte)
shared_times_refs words (suc n) f m low byte =
    let below : ltb (f / 4096) (64 * words) ≡ true = ground (arith, low) in
    let next : (increment_ref words f m).refs (f / 4096) ≡ (m.refs (f / 4096) + 1) % 256 =
      rw (below, increment_ref) (set_at_self m.refs (f / 4096) ((m.refs (f / 4096) + 1) % 256)) in
    let rest = shared_times_refs words n f (increment_ref words f m) low (omega (arith, next)) in
    omega (arith, rest, next)

allocate_frame_top :
    (words core f : ℕ) (rest : List ℕ) (m : Memory)
    → core < 32
    → m.caches core ≡ f ∷ rest
    → (allocate_frame words core m).0 ≡ some f
unfolding allocate_frame obtain_frame
allocate_frame_top words core f rest m early top =
    let first : ltb core 32 ≡ true = ground (arith, early) in
    rw (first, top, obtain_frame, allocate_frame)

-- An address past the managed range that is given back on one of the first 32 processors with space
-- in its cache is what that processor is handed next.
pub deallocate_frame_outside :
    (words core f : ℕ) (m : Memory)
    → 64 * words ≤ f / 4096
    → core < 32
    → length (m.caches core) < 16
    → (allocate_frame words core (deallocate_frame words core f m)).0 ≡ some f
unfolding deallocate_frame reclaim
deallocate_frame_outside words core f m far early space =
    let beyond : ltb (f / 4096) (64 * words) ≡ false = ground (arith, far) in
    let first : ltb core 32 ≡ true = ground (arith, early) in
    let fits : ltb (length (m.caches core)) 16 ≡ true = ground (arith, space) in
    let stored : deallocate_frame words core f m
        ≡ record m { caches = set_at m.caches core (f ∷ m.caches core) } =
      rw (beyond, first, fits) in
    allocate_frame_top words core f (m.caches core) (deallocate_frame words core f m) early
      (ap (λ z. z.caches core) stored ∙ set_at_self m.caches core (f ∷ m.caches core))
