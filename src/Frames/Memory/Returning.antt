-- ===== src/Frames/Memory/Returning.antt =====
-- Giving a frame back (kernel/src/memory/physical.rs).
use kontsnor_os.Prelude.{
  ℕ, ◌-◌, ◌*◌, ◌/◌, ◌<◌, ◌≡◌, ◌≢◌, sym, ap, ◌∙◌, inl, inr, true, List, ◌∷◌, ltb, ◌==◌, Bool-cases,
  length, arith,
}
use kontsnor_os.Frames.{FrameAllocator, deallocate}
use kontsnor_os.Frames.Memory.{Memory, set_at, spill, reclaim, deallocate_frame}
use kontsnor_os.Frames.Memory.Caches.{In, deallocate_lem, Spilled, spill-Spilled}
use kontsnor_os.Frames.Memory.Ownership.{IsValid, set_at_self, set_at_ne, CachesValid-set, Loose}

module _ (words core f : ℕ) (m : Memory) (v : IsValid words m) (loose : Loose words m f) where
  kept-IsValid : IsValid words (record m { caches = set_at m.caches core (f ∷ m.caches core) })
  kept-IsValid =
      let (low, used, free, out) = loose in
      record {
        ready = v.ready;
        owned = v.owned;
        cached =
            CachesValid-set words m.global m.global m.caches m.refs core (f ∷ m.caches core)
              v.cached (λ g n. entries g n) ((λ g n. out core g n), v.cached.distinct core)
              (λ d g h ne n k. far d g h ne n k) (λ d g ne n. (v.cached.kept d g n).1);
      }
    where
      entries :
          (g : ℕ)
          → In g (f ∷ m.caches core)
          → (g / 4096 < 64 * words) × (m.global.bitmap (g / 4096) ≡ true) × (m.refs (g / 4096) ≡ 0)
      entries g (inl e) = rw e (loose.0, loose.1, loose.2)
      entries g (inr n) = v.cached.kept core g n

      far :
          (d g h : ℕ)
          → d ≢ core
          → In g (f ∷ m.caches core)
          → In h (m.caches d)
          → g / 4096 ≢ h / 4096
      far d g h ne (inl e) k = λ s. loose.3 d h k (ap (λ z. z / 4096) (sym e) ∙ s)
      far d g h ne (inr n) k = v.cached.apart core d g h (λ s. ne (sym s)) n k

  -- Half a full cache has gone to the allocator.
  Spilled-IsValid :
      (kept : List ℕ) (a : FrameAllocator)
      → Spilled words (m.caches core) m.global (kept, a)
      → IsValid words (record m { global = a; caches = set_at m.caches core (f ∷ kept) })
  Spilled-IsValid kept a (ready, sub, used, single, still) = record {
    ready = ready;
    owned = λ i low u. still i (v.owned i low u) (λ g n. unused i u g n);
    cached =
        CachesValid-set words m.global a m.caches m.refs core (f ∷ kept) v.cached entries
          ((λ g n. loose.3 core g (sub g n)), single) far
          (λ d g ne n.
            still (g / 4096) ((v.cached.kept d g n).1)
              (λ h k s. v.cached.apart core d h g (λ e. ne (sym e)) k n s));
  }
    where
      unused : (i : ℕ) → m.refs i ≢ 0 → (g : ℕ) → In g (m.caches core) → g / 4096 ≢ i
      unused i u g n s = u (ap m.refs (sym s) ∙ (v.cached.kept core g n).2)

      entries :
          (g : ℕ)
          → In g (f ∷ kept)
          → (g / 4096 < 64 * words) × (a.bitmap (g / 4096) ≡ true) × (m.refs (g / 4096) ≡ 0)
      entries g (inl e) =
          rw e (loose.0, still (f / 4096) loose.1 (λ h n s. loose.3 core h n (sym s)), loose.2)
      entries g (inr n) =
          let (low, was, free) = v.cached.kept core g (sub g n) in (low, used g n, free)

      far : (d g h : ℕ) → d ≢ core → In g (f ∷ kept) → In h (m.caches d) → g / 4096 ≢ h / 4096
      far d g h ne (inl e) k = λ s. loose.3 d h k (ap (λ z. z / 4096) (sym e) ∙ s)
      far d g h ne (inr n) k = v.cached.apart core d g h (λ s. ne (sym s)) (sub g n) k

  freed-IsValid : IsValid words (record m { global = deallocate words f m.global })
  freed-IsValid =
      let (ready, others) = deallocate_lem words f m.global v.ready in
      record {
        ready = ready;
        owned = λ i low u. others i (v.owned i low u) (λ s. u (ap m.refs (sym s) ∙ loose.2));
        cached = record {
          kept = λ c g n.
              let (low, used, free) = v.cached.kept c g n in
              (low, others (g / 4096) used (loose.3 c g n), free);
          distinct = v.cached.distinct;
          apart = v.cached.apart;
        };
      }

  reclaim-IsValid : IsValid words (reclaim words core f m)
  unfolding reclaim
  reclaim-IsValid = elim (Bool-cases (ltb core 32)) [
    | inl l ↦ elim (Bool-cases (ltb (length (m.caches core)) 16)) [
      | inl r ↦ rw (l, r) kept-IsValid
      | inr r ↦
          rw (l, r)
            (Spilled-IsValid (spill words 8 (m.caches core) m.global).0
              (spill words 8 (m.caches core) m.global).1
              (spill-Spilled words 8 (m.caches core) m.global v.ready
                (λ g n. (v.cached.kept core g n).1) (v.cached.distinct core)))
    ]
    | inr l ↦ rw l freed-IsValid
  ]

  reclaim-refs : (reclaim words core f m).refs ≡ m.refs
  unfolding reclaim
  reclaim-refs = elim (Bool-cases (ltb core 32)) [
    | inl l ↦ elim (Bool-cases (ltb (length (m.caches core)) 16)) [
      | inl r ↦ rw (l, r)
      | inr r ↦ rw (l, r)
    ]
    | inr l ↦ rw l
  ]

module _ (words f : ℕ) (m : Memory) (v : IsValid words m) (low : f / 4096 < 64 * words) where
  -- A user of a frame that has one goes.
  dropped-IsValid :
      m.refs (f / 4096) ≢ 0
      → IsValid words (record m { refs = set_at m.refs (f / 4096) (m.refs (f / 4096) - 1) })
  dropped-IsValid shared = record {
    ready = v.ready;
    owned = owned';
    cached = record {
      kept = λ c g n.
          let (below, used, free) = v.cached.kept c g n in
          (
            below,
            used,
            set_at_ne m.refs (f / 4096) (g / 4096) (m.refs (f / 4096) - 1) (apart c g n) ∙ free,
          );
      distinct = v.cached.distinct;
      apart = v.cached.apart;
    };
  }
    where
      apart : (c g : ℕ) → In g (m.caches c) → g / 4096 ≢ f / 4096
      apart c g n s = shared (ap m.refs (sym s) ∙ (v.cached.kept c g n).2)

      owned' :
          (i : ℕ)
          → i < 64 * words
          → set_at m.refs (f / 4096) (m.refs (f / 4096) - 1) i ≢ 0
          → m.global.bitmap i ≡ true
      owned' i below u = elim (Bool-cases (i == f / 4096)) [
        | inl e ↦
            let same : i ≡ f / 4096 = ground (arith, e) in
            ap m.global.bitmap same ∙ v.owned (f / 4096) low shared
        | inr e ↦
            v.owned i below (λ z.
              u (set_at_ne m.refs (f / 4096) i (m.refs (f / 4096) - 1) (ground (arith, e)) ∙ z))
      ]

  dropped-Loose :
      m.refs (f / 4096) ≡ 1
      → Loose words (record m { refs = set_at m.refs (f / 4096) (m.refs (f / 4096) - 1) }) f
  dropped-Loose last =
      let shared : m.refs (f / 4096) ≢ 0 = omega (arith, last) in
      (
        low,
        v.owned (f / 4096) low shared,
        set_at_self m.refs (f / 4096) (m.refs (f / 4096) - 1) ∙ omega (arith, last),
        (λ c g n s. shared (ap m.refs s ∙ (v.cached.kept c g n).2)),
      )

-- From a valid state, `deallocate_frame` of an address in the managed range leaves a valid state and
-- takes one user off the frame, if it has any, whichever processor calls it.
pub deallocate_frame-IsValid :
    (words core f : ℕ) (m : Memory)
    → IsValid words m
    → f / 4096 < 64 * words
    → IsValid words (deallocate_frame words core f m)
      × ((deallocate_frame words core f m).refs (f / 4096) ≡ m.refs (f / 4096) - 1)
unfolding deallocate_frame
deallocate_frame-IsValid words core f m v low =
    let below : ltb (f / 4096) (64 * words) ≡ true = ground (arith, low) in
    elim (Bool-cases (m.refs (f / 4096) == 0)) [
      | inl e ↦
          let unused : m.refs (f / 4096) ≡ 0 = ground (arith, e) in
          rw (below, e) (v, omega (arith, unused))
      | inr e ↦
          let shared : m.refs (f / 4096) ≢ 0 = ground (arith, e) in
          let valid = dropped-IsValid words f m v low shared in
          let self = set_at_self m.refs (f / 4096) (m.refs (f / 4096) - 1) in
          elim (Bool-cases (ltb 0 (m.refs (f / 4096) - 1))) [
            | inl more ↦ rw (below, e, more) (valid, self)
            | inr last ↦
                let loose = dropped-Loose words f m v low (ground (arith, e, last)) in
                let d = record m { refs = set_at m.refs (f / 4096) (m.refs (f / 4096) - 1) } in
                rw (below, e, last)
                  (
                    reclaim-IsValid words core f d valid loose,
                    ap (λ r. r (f / 4096)) (reclaim-refs words core f d valid loose) ∙ self,
                  )
          ]
    ]
