-- ===== src/Frames/Memory/Caches.antt =====
-- What the bulk moves between a processor's cache and the allocator do to the bitmap
-- (kernel/src/memory/physical.rs).
use native.Mathlib.Nat.{mod-lt}
use kontsnor_os.Prelude.{
  ℕ, zero, suc, ◌+◌, ◌*◌, ◌/◌, ◌%◌, ◌≤◌, ◌<◌, ◌≡◌, ◌≢◌, refl, sym, ap, ◌∙◌, inl, inr, ◌⊎◌, Bool,
  true, false, List, [], ◌∷◌, Option, none, some, ltb, ◌==◌, not, Bool-cases, Option-cases, length,
  arith,
}
use mathlib.Core.Path.{subst}
use kontsnor_os.Frames.{FrameAllocator, set_bit, mark_free, is_free, allocate, deallocate}
use kontsnor_os.Frames.Search.{Allocated, allocate-Allocated}
use kontsnor_os.Frames.Memory.{refill, spill}

abbrev pub In : ℕ → List ℕ → Type 0
In f [] = ⊥
In f (g ∷ gs) = (f ≡ g) ⊎ In f gs

-- No two addresses of the list lie in one frame.
abbrev pub Distinct : List ℕ → Type 0
Distinct [] = Unit
Distinct (f ∷ fs) = ((g : ℕ) → In g fs → f / 4096 ≢ g / 4096) × Distinct fs

-- The allocator is set up.
abbrev pub Ready : ℕ → FrameAllocator → Type 0
Ready words a = (a.initialized ≡ true) × (a.next_free_hint < 64 * words)

set_bit_self : (f : ℕ → Bool) (i : ℕ) (v : Bool) → set_bit f i v i ≡ v
set_bit_self f i v = let e : (i == i) ≡ true = ground arith in rw e

set_bit_ne : (f : ℕ → Bool) (i j : ℕ) (v : Bool) → j ≢ i → set_bit f i v j ≡ f j
set_bit_ne f i j v ne = let e : (j == i) ≡ false = ground (arith, ne) in rw e

module _ (words : ℕ) where
  -- A frame is taken from the allocator.
  pub allocate-some :
      (a : FrameAllocator) (f : ℕ) (a' : FrameAllocator)
      → Ready words a
      → allocate words a ≡ some (f, a')
      → Ready words a'
        × (f / 4096 < 64 * words)
        × (a.bitmap (f / 4096) ≡ false)
        × (a'.bitmap (f / 4096) ≡ true)
        × ((j : ℕ) → a.bitmap j ≡ true → a'.bitmap j ≡ true)
  unfolding Allocated
  allocate-some a f a' (ready, hint) e =
      let (i, at, below, free, after) =
        subst (Allocated words a) e (allocate-Allocated words a ready hint).1 in
      let index : f / 4096 ≡ i = omega (arith, at) in
      let small : (i + 1) % (64 * words) < 64 * words = mod-lt (i + 1) (omega (arith, below)) in
      (
        rw after (ready, small),
        omega (arith, index, below),
        ap a.bitmap index ∙ free,
        rw (after, index) (set_bit_self a.bitmap i true),
        (λ j used. rw after (elim (Bool-cases (j == i)) [ inl s ↦ rw s refl | inr s ↦ rw s used ])),
      )

  -- A frame goes back to the allocator.
  pub deallocate_lem :
      (f : ℕ) (a : FrameAllocator)
      → Ready words a
      → Ready words (deallocate words f a)
        × ((j : ℕ) → a.bitmap j ≡ true → f / 4096 ≢ j → (deallocate words f a).bitmap j ≡ true)
  unfolding deallocate mark_free
  deallocate_lem f a (ready, hint) = elim (Bool-cases (ltb (f / 4096) (64 * words))) [
    | inl l ↦ elim (Bool-cases (not (is_free words (f / 4096) a))) [
      | inl u ↦ (
        rw (l, u) (ready, ground (arith, hint, l)),
        (λ j used ne. rw (l, u) (set_bit_ne a.bitmap (f / 4096) j false (λ e. ne (sym e)) ∙ used)),
      )
      | inr u ↦ (rw (l, u) (ready, hint), (λ j used ne. rw (l, u) used))
    ]
    | inr l ↦ (rw l (ready, hint), (λ j used ne. rw l used))
  ]

  -- Frames that have come from the allocator since it was `a0`.
  abbrev pub Fresh : (a0 a : FrameAllocator) → List ℕ → Type 0
  Fresh a0 a fs =
      (f : ℕ)
      → In f fs
      → (f / 4096 < 64 * words) × (a0.bitmap (f / 4096) ≡ false) × (a.bitmap (f / 4096) ≡ true)

  abbrev pub held : Option ℕ → List ℕ → List ℕ
  held none cache = cache
  held (some g) cache = g ∷ cache

  abbrev pub Refilled : (a0 : FrameAllocator) → Option ℕ × List ℕ × FrameAllocator → Type 0
  Refilled a0 (first, cache, a) =
      Ready words a
      × ((j : ℕ) → a0.bitmap j ≡ true → a.bitmap j ≡ true)
      × Fresh a0 a (held first cache)
      × Distinct (held first cache)

  Fresh-cons :
      (a0 a a' : FrameAllocator) (f : ℕ) (fs : List ℕ)
      → ((j : ℕ) → a0.bitmap j ≡ true → a.bitmap j ≡ true)
      → ((j : ℕ) → a.bitmap j ≡ true → a'.bitmap j ≡ true)
      → (f / 4096 < 64 * words)
      → a.bitmap (f / 4096) ≡ false
      → a'.bitmap (f / 4096) ≡ true
      → Fresh a0 a fs
      → Fresh a0 a' (f ∷ fs)
  Fresh-cons a0 a a' f fs older newer below free taken fresh g (inr m) =
      let (small, was, now) = fresh g m in (small, was, newer (g / 4096) now)
  Fresh-cons a0 a a' f fs older newer below free taken fresh g (inl e) =
      rw e (below, not_before, taken)
    where
      not_before : a0.bitmap (f / 4096) ≡ false
      not_before = elim (Bool-cases (a0.bitmap (f / 4096))) [
        | inl t ↦ let u = older (f / 4096) t in absurd (ground (arith, u, free))
        | inr t ↦ t
      ]

  Fresh-apart :
      (a0 a : FrameAllocator) (f : ℕ) (fs : List ℕ)
      → a.bitmap (f / 4096) ≡ false
      → Fresh a0 a fs
      → (g : ℕ) → In g fs
      → f / 4096 ≢ g / 4096
  Fresh-apart a0 a f fs free fresh g m e =
      let (small, was, now) = fresh g m in
      let clash : true ≡ false = sym now ∙ ap a.bitmap (sym e) ∙ free in cc

  Refilled-first :
      (a0 : FrameAllocator) (cache : List ℕ) (a a' : FrameAllocator) (f : ℕ)
      → allocate words a ≡ some (f, a')
      → Refilled a0 (none, cache, a)
      → Refilled a0 (some f, cache, a')
  Refilled-first a0 cache a a' f e (ready, older, fresh, distinct) =
      let (ready', below, free, taken, newer) = allocate-some a f a' ready e in
      (
        ready',
        (λ j u. newer j (older j u)),
        Fresh-cons a0 a a' f cache older newer below free taken fresh,
        (Fresh-apart a0 a f cache free fresh, distinct),
      )

  Refilled-more :
      (a0 : FrameAllocator) (g : ℕ) (cache : List ℕ) (a a' : FrameAllocator) (f : ℕ)
      → allocate words a ≡ some (f, a')
      → Refilled a0 (some g, cache, a)
      → Refilled a0 (some g, f ∷ cache, a')
  Refilled-more a0 g cache a a' f e (ready, older, fresh, distinct) =
      let (ready', below, free, taken, newer) = allocate-some a f a' ready e in
      let all = Fresh-cons a0 a a' f (g ∷ cache) older newer below free taken fresh in
      let far = Fresh-apart a0 a f (g ∷ cache) free fresh in
      (
        ready',
        (λ j u. newer j (older j u)),
        (λ h m. all h (swapped h m)),
        ((λ h m. apart far h m), ((λ h m. far h (inr m)), distinct.1)),
      )
    where
      swapped : (h : ℕ) → In h (g ∷ f ∷ cache) → In h (f ∷ g ∷ cache)
      swapped h (inl x) = inr (inl x)
      swapped h (inr (inl x)) = inl x
      swapped h (inr (inr x)) = inr (inr x)

      apart :
          ((h : ℕ) → In h (g ∷ cache) → f / 4096 ≢ h / 4096)
          → (h : ℕ) → In h (f ∷ cache)
          → g / 4096 ≢ h / 4096
      apart far h (inl x) = λ y. far g (inl refl) (ap (λ k. k / 4096) (sym x) ∙ sym y)
      apart far h (inr x) = distinct.0 h x

  pub refill-Refilled :
      (a0 : FrameAllocator) (n : ℕ) (first : Option ℕ) (cache : List ℕ) (a : FrameAllocator)
      → length cache + n ≤ 15
      → Refilled a0 (first, cache, a)
      → Refilled a0 (refill words n first cache a)
  unfolding refill
  refill-Refilled a0 zero first cache a room h = h
  refill-Refilled a0 (suc n) none cache a room h = elim (Option-cases (allocate words a)) [
    | inl e ↦ rw (e, refill) h
    | inr ((f, a'), e) ↦
        rw (e, refill)
          (refill-Refilled a0 n (some f) cache a' (omega (arith, room))
            (Refilled-first a0 cache a a' f e h))
  ]
  refill-Refilled a0 (suc n) (some g) cache a room h = elim (Option-cases (allocate words a)) [
    | inl e ↦ rw (e, refill) h
    | inr ((f, a'), e) ↦
        let space : ltb (length cache) 15 ≡ true = ground (arith, room) in
        rw (e, refill, space)
          (refill-Refilled a0 n (some g) (f ∷ cache) a' (omega (arith, room))
            (Refilled-more a0 g cache a a' f e h))
  ]

  abbrev pub AllUsed : FrameAllocator → List ℕ → Type 0
  AllUsed a fs = (f : ℕ) → In f fs → a.bitmap (f / 4096) ≡ true

  abbrev pub Spilled : (cache : List ℕ) (a : FrameAllocator) → List ℕ × FrameAllocator → Type 0
  Spilled cache a (kept, a') =
      Ready words a'
      × ((f : ℕ) → In f kept → In f cache)
      × AllUsed a' kept
      × Distinct kept
      × ((j : ℕ) → a.bitmap j ≡ true → ((f : ℕ) → In f cache → f / 4096 ≢ j) → a'.bitmap j ≡ true)

  pub spill-Spilled :
      (n : ℕ) (cache : List ℕ) (a : FrameAllocator)
      → Ready words a
      → AllUsed a cache
      → Distinct cache
      → Spilled cache a (spill words n cache a)
  unfolding spill
  spill-Spilled zero cache a ready used distinct =
      (ready, (λ f m. m), used, distinct, (λ j u out. u))
  spill-Spilled (suc n) [] a ready used distinct =
      (ready, (λ f m. m), used, distinct, (λ j u out. u))
  spill-Spilled (suc n) (f ∷ rest) a ready used (apart, distinct) =
      let (ready', others) = deallocate_lem f a ready in
      let (ready'', sub, used'', distinct'', kept) =
        spill-Spilled n rest (deallocate words f a) ready'
          (λ g m. others (g / 4096) (used g (inr m)) (apart g m)) distinct in
      (
        ready'',
        (λ g m. inr (sub g m)),
        used'',
        distinct'',
        (λ j u out. kept j (others j u (out f (inl refl))) (λ g m. out g (inr m))),
      )
