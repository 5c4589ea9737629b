-- ===== src/Frames/Tests.antt =====
-- The allocator on one word of frames, 64 of them.
use kontsnor_os.Prelude.{◌+◌, ◌*◌, ◌%◌, ◌≡◌, refl, true, List, [], ◌∷◌, ltb, arith}
use kontsnor_os.Frames.{search, FrameAllocator, new_allocator, allocate}
use kontsnor_os.Frames.Search.{Ended, Allocated, allocate-Allocated}
use kontsnor_os.Frames.Memory.Blocks.{Reserved, allocate_contiguous_frames-Reserved}
use kontsnor_os.Frames.Memory.{Memory, allocate_frame, allocate_contiguous_frames}
use kontsnor_os.Frames.Memory.Ownership.{IsValid}
use kontsnor_os.Frames.Memory.Taking.{Handed}
use kontsnor_os.Frames.Memory.Calls.{Call, take, give, run, Allowed, run-Handed}
use kontsnor_os.Frames.Memory.Misuse.{shared_times, shared_times_refs}

-- Frames 0 to 9 are in use and the others free.
abbrev some_free : FrameAllocator
some_free = record new_allocator {
  bitmap = λ i. ltb i 10;
  initialized = true;
  total_frames = 54;
  next_free_hint = 3;
}

-- Nobody uses a frame, and the caches are empty.
abbrev fresh : Memory
fresh = record { global = some_free; caches = λ c. []; refs = λ i. 0 }

fresh-IsValid : IsValid 1 fresh
fresh-IsValid = record {
  ready = (refl, omega arith);
  owned = λ i low u. absurd (u refl);
  cached = record {
    kept = λ c f n. absurd n;
    distinct = λ c. tt;
    apart = λ c d f g ne n. absurd n;
  };
}

allocate-Allocated_example :
    Ended 1 some_free (search 1 (64 * 1 + 1) 0 some_free.next_free_hint some_free)
    × Allocated 1 some_free (allocate 1 some_free)
allocate-Allocated_example = allocate-Allocated 1 some_free refl (omega arith)

allocate_contiguous_frames-Reserved_example :
    Reserved 1 40 fresh (allocate_contiguous_frames 1 0 40 fresh)
allocate_contiguous_frames-Reserved_example =
    allocate_contiguous_frames-Reserved 1 0 40 fresh refl (omega arith) (omega arith)

abbrev calls : List Call
calls = take 0 ∷ give 0 0xa000 ∷ take 1 ∷ []

calls-Allowed : Allowed 1 calls fresh
unfolding Allowed
calls-Allowed = (omega arith, tt)

run-Handed_example : Handed 1 (run 1 calls fresh) (allocate_frame 1 0 (run 1 calls fresh))
run-Handed_example = run-Handed 1 0 calls fresh fresh-IsValid calls-Allowed

shared_times_refs_example : (shared_times 1 256 0xa000 fresh).refs 10 ≡ 256 % 256
shared_times_refs_example = shared_times_refs 1 256 0xa000 fresh (omega arith) (omega arith)
