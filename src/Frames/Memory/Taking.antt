-- ===== src/Frames/Memory/Taking.antt =====
-- Handing out a frame (kernel/src/memory/physical.rs).
use kontsnor_os.Prelude.{
  ℕ, ◌*◌, ◌/◌, ◌<◌, ◌≡◌, ◌≢◌, refl, sym, ap, ◌∙◌, inl, inr, true, List, [], ◌∷◌, Option, none, some,
  ltb, ◌==◌, if◌then◌else◌, Bool-cases, Option-cases, arith,
}
use mathlib.Core.Path.{subst}
use kontsnor_os.Frames.{FrameAllocator, allocate}
use kontsnor_os.Frames.Memory.{Memory, set_at, refill, obtain_frame, allocate_frame}
use kontsnor_os.Frames.Memory.Caches.{In, Distinct, held, Refilled, refill-Refilled}
use kontsnor_os.Frames.Memory.Ownership.{
  IsValid, set_at_self, set_at_ne, CachesValid-set, Loose, Obtained, Fresh-loose, direct-Obtained,
}

module _ (words : ℕ) (m : Memory) (core : ℕ) (v : IsValid words m) where
  pop-Obtained :
      (f : ℕ) (rest : List ℕ)
      → m.caches core ≡ f ∷ rest
      → Obtained words m (some f, record m { caches = set_at m.caches core rest })
  pop-Obtained f rest e =
      let mine = λ (g : ℕ) (n : In g (f ∷ rest)). subst (λ l. In g l) (sym e) n in
      let single = subst Distinct e (v.cached.distinct core) in
      (
        record {
          ready = v.ready;
          owned = v.owned;
          cached =
              CachesValid-set words m.global m.global m.caches m.refs core rest v.cached
                (λ g n. v.cached.kept core g (mine g (inr n))) single.1
                (λ d g h ne n k. v.cached.apart core d g h (λ s. ne (sym s)) (mine g (inr n)) k)
                (λ d g ne n. (v.cached.kept d g n).1);
        },
        refl,
        (let (low, used, free) = v.cached.kept core f (mine f (inl refl)) in
            (low, used, free, (λ c g n. out c g n single.0))),
      )
    where
      out :
          (c g : ℕ)
          → In g (set_at m.caches core rest c)
          → ((h : ℕ) → In h rest → f / 4096 ≢ h / 4096)
          → f / 4096 ≢ g / 4096
      out c g n far = elim (Bool-cases (c == core)) [
        | inl x ↦ far g (subst (λ b. In g (if b then rest else m.caches c)) x n)
        | inr x ↦
            v.cached.apart core c f g (ground (arith, x)) (subst (λ l. In f l) (sym e) (inl refl))
              (subst (λ b. In g (if b then rest else m.caches c)) x n)
      ]

  module _ (empty : m.caches core ≡ []) where
    -- The frames of a bulk allocation go to the cache of `core`.
    filled-IsValid :
        (first : Option ℕ) (cache : List ℕ) (a : FrameAllocator)
        → Refilled words m.global (first, cache, a)
        → ((f : ℕ) → In f cache → In f (held words first cache))
        → Distinct cache
        → IsValid words (record m { global = a; caches = set_at m.caches core cache })
    filled-IsValid first cache a (ready, newer, fresh, single) sub own = record {
      ready = ready;
      owned = λ i low u. newer i (v.owned i low u);
      cached =
          CachesValid-set words m.global a m.caches m.refs core cache v.cached
            (λ f n.
              let (low, free, now) = fresh f (sub f n) in
              (low, now, (Fresh-loose words m a (held words first cache) v fresh f (sub f n)).0))
            own
            (λ d f g ne n k.
              (Fresh-loose words m a (held words first cache) v fresh f (sub f n)).1 d g k)
            (λ d f ne n. newer (f / 4096) ((v.cached.kept d f n).1));
    }

    filled-Obtained :
        (first : Option ℕ) (cache : List ℕ) (a : FrameAllocator)
        → Refilled words m.global (first, cache, a)
        → Obtained words m (first, record m { global = a; caches = set_at m.caches core cache })
    filled-Obtained none cache a r = (filled-IsValid none cache a r (λ f n. n) (r.3), refl)
    filled-Obtained (some g) cache a r =
        let (low, free, now) = r.2 g (inl refl) in
        let (unref, out) = Fresh-loose words m a (g ∷ cache) v r.2 g (inl refl) in
        (
          filled-IsValid (some g) cache a r (λ f n. inr n) (r.3.1),
          refl,
          (low, now, unref, (λ c h n. elsewhere c h n (r.3.0) out)),
        )
      where
        elsewhere :
            (c h : ℕ)
            → In h (set_at m.caches core cache c)
            → ((h : ℕ) → In h cache → g / 4096 ≢ h / 4096)
            → ((c h : ℕ) → In h (m.caches c) → g / 4096 ≢ h / 4096)
            → g / 4096 ≢ h / 4096
        elsewhere c h n far out = elim (Bool-cases (c == core)) [
          | inl x ↦ far h (subst (λ b. In h (if b then cache else m.caches c)) x n)
          | inr x ↦ out c h (subst (λ b. In h (if b then cache else m.caches c)) x n)
        ]

  obtain_frame-Obtained : Obtained words m (obtain_frame words core m)
  unfolding obtain_frame
  obtain_frame-Obtained = elim (Bool-cases (ltb core 32)) [
    | inl l ↦ by_cache l (m.caches core) refl
    | inr l ↦ elim (Option-cases (allocate words m.global)) [
      | inl e ↦ rw (l, e, obtain_frame) (v, refl)
      | inr ((f, a), e) ↦ rw (l, e, obtain_frame) (direct-Obtained words m v f a e)
    ]
  ]
    where
      by_cache :
          ltb core 32 ≡ true
          → (fs : List ℕ) → m.caches core ≡ fs
          → Obtained words m (obtain_frame words core m)
      by_cache l [] e =
          rw (l, e, obtain_frame)
            (filled-Obtained e (refill words 8 none [] m.global).0
              (refill words 8 none [] m.global).1 (refill words 8 none [] m.global).2
              (refill-Refilled words m.global 8 none [] m.global (omega arith)
                (v.ready, (λ j u. u), (λ f n. absurd n), tt)))
      by_cache l (f ∷ rest) e = rw (l, e, obtain_frame) (pop-Obtained f rest e)

-- What a call of `allocate_frame` may do.
module _ (words : ℕ) (m : Memory) where
  unfoldable pub Handed : Option ℕ × Memory → Type 0
  Handed (none, m') = IsValid words m'
  Handed (some f, m') =
      IsValid words m'
      × (f / 4096 < 64 * words)
      × (m.refs (f / 4096) ≡ 0)
      × (m'.refs (f / 4096) ≡ 1)
      × ((i : ℕ) → i ≢ f / 4096 → m'.refs i ≡ m.refs i)

  -- The count of a loose frame is set to 1.
  handed-IsValid :
      (m' : Memory) (f : ℕ)
      → IsValid words m'
      → Loose words m' f
      → IsValid words (record m' { refs = set_at m'.refs (f / 4096) 1 })
  handed-IsValid m' f v (low, used, free, out) = record {
    ready = v.ready;
    owned = λ i below u. owned' i below u;
    cached = record {
      kept = λ c g n.
          let (low', used', free') = v.cached.kept c g n in
          (low', used', set_at_ne m'.refs (f / 4096) (g / 4096) 1 (λ e. out c g n (sym e)) ∙ free');
      distinct = v.cached.distinct;
      apart = v.cached.apart;
    };
  }
    where
      owned' :
          (i : ℕ) → i < 64 * words → set_at m'.refs (f / 4096) 1 i ≢ 0 → m'.global.bitmap i ≡ true
      owned' i below u = elim (Bool-cases (i == f / 4096)) [
        | inl e ↦ let same : i ≡ f / 4096 = ground (arith, e) in ap m'.global.bitmap same ∙ used
        | inr e ↦
            v.owned i below (λ z. u (set_at_ne m'.refs (f / 4096) i 1 (ground (arith, e)) ∙ z))
      ]

-- Whoever calls `allocate_frame` on whichever processor, from a valid state, the frame handed out had
-- no user and has one now, the counts of all other frames are the same, and the state is valid.
pub allocate_frame-Handed :
    (words core : ℕ) (m : Memory) → IsValid words m → Handed words m (allocate_frame words core m)
unfolding allocate_frame Handed
allocate_frame-Handed words core m v =
    by_frame (obtain_frame words core m).0 refl (obtain_frame-Obtained words m core v)
  where
    by_frame :
        (o : Option ℕ)
        → (obtain_frame words core m).0 ≡ o
        → Obtained words m (obtain_frame words core m)
        → Handed words m (allocate_frame words core m)
    by_frame none e h =
        let (valid, same) = subst (λ z. Obtained words m (z, (obtain_frame words core m).1)) e h in
        rw (e, allocate_frame) valid
    by_frame (some f) e h =
        let (valid, same, loose) =
          subst (λ z. Obtained words m (z, (obtain_frame words core m).1)) e h in
        let m' = (obtain_frame words core m).1 in
        let below : ltb (f / 4096) (64 * words) ≡ true = let b = loose.0 in ground (arith, b) in
        rw (e, allocate_frame, below)
          (
            handed-IsValid words m m' f valid loose,
            loose.0,
            ap (λ r. r (f / 4096)) (sym same) ∙ loose.2,
            set_at_self m'.refs (f / 4096) 1,
            (λ i ne. set_at_ne m'.refs (f / 4096) i 1 ne ∙ ap (λ r. r i) same),
          )
