-- ===== src/Frames/Memory/Calls.antt =====
-- Sequences of calls on any processors: frames handed out, shared and given back
-- (kernel/src/memory/physical.rs).
use kontsnor_os.Prelude.{
  ℕ, ◌+◌, ◌*◌, ◌/◌, ◌%◌, ◌<◌, ◌≡◌, ◌≢◌, sym, ap, ◌∙◌, inl, inr, true, List, [], ◌∷◌, Option, none,
  some, ltb, ◌==◌, Bool-cases, arith,
}
use kontsnor_os.Frames.Memory.{Memory, set_at, increment_ref, allocate_frame, deallocate_frame}
use kontsnor_os.Frames.Memory.Ownership.{IsValid, set_at_ne}
use kontsnor_os.Frames.Memory.Taking.{Handed, allocate_frame-Handed}
use kontsnor_os.Frames.Memory.Returning.{deallocate_frame-IsValid}

pub data Call : Type 0 where
  take : (core : ℕ) → Call
  share : (f : ℕ) → Call
  give : (core f : ℕ) → Call

module _ (words : ℕ) where
  pub perform : Call → Memory → Memory
  perform (take core) m = (allocate_frame words core m).1
  perform (share f) m = increment_ref words f m
  perform (give core f) m = deallocate_frame words core f m

  pub run : List Call → Memory → Memory
  run [] m = m
  run (c ∷ cs) m = run cs (perform c m)

  -- What the callers owe: an address lies in the managed range, and a frame that is shared has a
  -- user, and fewer than 255.
  unfoldable pub Allowed : List Call → Memory → Type 0
  Allowed [] m = Unit
  Allowed (take core ∷ cs) m = Allowed cs (perform (take core) m)
  Allowed (share f ∷ cs) m =
      (f / 4096 < 64 * words)
      × (m.refs (f / 4096) ≢ 0)
      × (m.refs (f / 4096) < 255)
      × Allowed cs (perform (share f) m)
  Allowed (give core f ∷ cs) m = (f / 4096 < 64 * words) × Allowed cs (perform (give core f) m)

  increment_ref-IsValid :
      (f : ℕ) (m : Memory)
      → IsValid words m
      → f / 4096 < 64 * words
      → m.refs (f / 4096) ≢ 0
      → m.refs (f / 4096) < 255
      → IsValid words (increment_ref words f m)
  unfolding increment_ref
  increment_ref-IsValid f m v low shared few =
      let below : ltb (f / 4096) (64 * words) ≡ true = ground (arith, low) in
      rw below (record {
        ready = v.ready;
        owned = owned';
        cached = record {
          kept = λ c g n.
              let (small, used, free) = v.cached.kept c g n in
              let ne : g / 4096 ≢ f / 4096 = λ s. shared (ap m.refs (sym s) ∙ free) in
              (
                small,
                used,
                set_at_ne m.refs (f / 4096) (g / 4096) ((m.refs (f / 4096) + 1) % 256) ne ∙ free,
              );
          distinct = v.cached.distinct;
          apart = v.cached.apart;
        };
      })
    where
      owned' :
          (i : ℕ)
          → i < 64 * words
          → set_at m.refs (f / 4096) ((m.refs (f / 4096) + 1) % 256) i ≢ 0
          → m.global.bitmap i ≡ true
      owned' i small u = elim (Bool-cases (i == f / 4096)) [
        | inl e ↦
            let same : i ≡ f / 4096 = ground (arith, e) in
            ap m.global.bitmap same ∙ v.owned (f / 4096) low shared
        | inr e ↦ v.owned i small (λ z.
            u (
              set_at_ne m.refs (f / 4096) i ((m.refs (f / 4096) + 1) % 256) (ground (arith, e))
              ∙ z))
      ]

  Handed-IsValid : (m : Memory) (r : Option ℕ × Memory) → Handed words m r → IsValid words r.1
  unfolding Handed
  Handed-IsValid m (none, m') h = h
  Handed-IsValid m (some f, m') h = h.0

  run-IsValid :
      (cs : List Call) (m : Memory) → IsValid words m → Allowed cs m → IsValid words (run cs m)
  unfolding run Allowed
  run-IsValid [] m v h = v
  run-IsValid (take core ∷ cs) m v h = run-IsValid cs (perform (take core) m) (step core) h
    where
      step : (core : ℕ) → IsValid words (perform (take core) m)
      step core =
          unfold perform in
          Handed-IsValid m (allocate_frame words core m) (allocate_frame-Handed words core m v)
  run-IsValid (share f ∷ cs) m v h = run-IsValid cs (perform (share f) m) step h.3
    where
      step : IsValid words (perform (share f) m)
      step = unfold perform in increment_ref-IsValid f m v h.0 h.1 h.2
  run-IsValid (give core f ∷ cs) m v h = run-IsValid cs (perform (give core f) m) step h.1
    where
      step : IsValid words (perform (give core f) m)
      step = unfold perform in (deallocate_frame-IsValid words core f m v h.0).0

-- After any sequence of frames handed out, shared and given back on any processors, of addresses in
-- the managed range and with frames shared only while they have users and fewer than 255, the next
-- frame handed out on any processor is one without a user, and the counts of the others stay.
pub run-Handed :
    (words core : ℕ) (cs : List Call) (m : Memory)
    → IsValid words m
    → Allowed words cs m
    → Handed words (run words cs m) (allocate_frame words core (run words cs m))
run-Handed words core cs m v h =
    allocate_frame-Handed words core (run words cs m) (run-IsValid words cs m v h)
