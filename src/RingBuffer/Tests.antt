-- ===== src/RingBuffer/Tests.antt =====
-- Runs of kernel/src/util/ring_buffer.rs, and the theorems at concrete inputs.
use kontsnor_os.Prelude.{ℕ, ◌≡◌, refl, List, [], ◌∷◌, none, some, arith}
use kontsnor_os.Circular.{copy_at}
use kontsnor_os.RingBuffer.{RingBuffer, new, pop, push_slice, write_chunks}
use kontsnor_os.RingBuffer.Queue.{Holds, new-Holds}
use kontsnor_os.RingBuffer.Slices.{push_slice_refines, offer_all}

-- Four slots, two items, the second of them round the end.
abbrev ring : RingBuffer ℕ
ring = record { buffer = some 9 ∷ none ∷ none ∷ some 8 ∷ []; head = 5; tail = 3 }

abbrev queue : List ℕ
queue = 8 ∷ 9 ∷ []

ring-Holds : Holds 2 ring queue
ring-Holds = record {
  valid = record {
    slots = refl;
    ordered = omega arith;
    bounded = omega arith;
    unwrapped = omega arith;
  };
  items = refl;
}

pop_runs : (pop 4 ring).0 ≡ some (some 8)
unfolding pop
pop_runs = refl

push_slice_runs :
    (push_slice 4 ring (1 ∷ 2 ∷ 3 ∷ [])).1.buffer ≡ some 9 ∷ some 1 ∷ some 2 ∷ some 8 ∷ []
unfolding push_slice write_chunks copy_at
push_slice_runs = refl

new-Holds_example : Holds 2 (new {T = ℕ} 4) []
new-Holds_example = new-Holds 2

push_slice_refines_example :
    let (n, r') = push_slice 4 ring (1 ∷ 2 ∷ 3 ∷ []) in (n ≡ 2) × Holds 2 r' (8 ∷ 9 ∷ 1 ∷ 2 ∷ [])
unfolding offer_all
push_slice_refines_example =
    push_slice_refines 2 ring queue (1 ∷ 2 ∷ 3 ∷ []) ring-Holds (omega arith)
