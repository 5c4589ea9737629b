-- ===== src/Frames/Contiguous.antt =====
-- `allocate_contiguous` of kernel/src/memory/physical.rs: what a block that it returns is.
use kontsnor_os.Prelude.{
  ℕ, zero, suc, ◌+◌, ◌-◌, ◌*◌, ◌/◌, ◌%◌, ◌≤◌, ◌<◌, min, ◌≡◌, refl, sym, ap, ◌∙◌, inl, inr, true,
  false, Option, none, some, ltb, leb, ◌==◌, ◌&&◌, ◌||◌, Bool-cases, Option-cases, arith,
}
use mathlib.Core.Path.{subst}
use kontsnor_os.Frames.{
  FrameAllocator, page_size, set_bit, first_clear, masked_word, mark_used, is_free, allocate,
  blocked_at, mark_range, take_block, search_block, allocate_contiguous,
}
use kontsnor_os.Frames.Search.{Allocated, allocate-Allocated}

module _ (words : ℕ) where
  blocked_at-none :
      (index i n : ℕ) (a : FrameAllocator)
      → blocked_at words index i n a ≡ none
      → (j : ℕ) → i ≤ j
      → j < i + n
      → (index + j < 64 * words) × (a.bitmap (index + j) ≡ false)
  unfolding blocked_at is_free
  blocked_at-none index i zero a h j from to = absurd (omega (arith, from, to))
  blocked_at-none index i (suc n) a h j from to = elim (Bool-cases (i == j)) [
    | inl s ↦
        let same : i ≡ j = ground (arith, s) in
        let here : (index + i < 64 * words) × (a.bitmap (index + i) ≡ false) = ground (arith, h) in
        subst (λ k. (index + k < 64 * words) × (a.bitmap (index + k) ≡ false)) same here
    | inr s ↦
        blocked_at-none index (i + 1) n a (ground (arith, h)) j (ground (arith, s, from))
          (omega (arith, to))
  ]

  -- Marking a range within the bitmap sets its bits and no other, and nothing but the bitmap.
  mark_range_lem :
      (index n : ℕ) (a : FrameAllocator)
      → index + n ≤ 64 * words
      → ((j : ℕ)
          → (mark_range words index n a).bitmap j
            ≡ ((leb index j && ltb j (index + n)) || a.bitmap j))
        × ((mark_range words index n a).allocated_frames ≡ a.allocated_frames)
        × ((mark_range words index n a).initialized ≡ a.initialized)
  unfolding mark_range mark_used
  mark_range_lem index zero a h = ((λ j. ground arith), refl, refl)
  mark_range_lem index (suc n) a h =
      let (bits, count, ready) =
        mark_range_lem (index + 1) n (mark_used words index a) (omega (arith, h)) in
      let below : ltb index (64 * words) ≡ true = ground (arith, h) in
      let marked : mark_used words index a ≡ record a { bitmap = set_bit a.bitmap index true } =
        rw below in
      (
        (λ j. bits j ∙ (rw marked (ground arith))),
        count ∙ ap (λ z. z.allocated_frames) marked,
        ready ∙ ap (λ z. z.initialized) marked,
      )

  -- What a call of `allocate_contiguous` that finds `n` frames has done.
  unfoldable pub BlockTaken : (n : ℕ) (a : FrameAllocator) → Option (ℕ × FrameAllocator) → Type 0
  BlockTaken n a none = Unit
  BlockTaken n a (some (addr, a')) =
      (start : ℕ) × (addr ≡ start * page_size)
      × (start + n ≤ 64 * words)
      × ((j : ℕ) → start ≤ j → j < start + n → a.bitmap j ≡ false)
      × ((j : ℕ) → a'.bitmap j ≡ ((leb start j && ltb j (start + n)) || a.bitmap j))
      × (a'.allocated_frames ≡ a.allocated_frames + n)
      × (a'.next_free_hint ≡ (start + n) % (64 * words))

  take_block-BlockTaken :
      (index count : ℕ) (a : FrameAllocator)
      → 0 < count
      → is_free words index a ≡ true
      → blocked_at words index 1 (count - 1) a ≡ none
      → BlockTaken count a (some (take_block words index count a))
  unfolding BlockTaken take_block
  take_block-BlockTaken index count a pos free open_ =
      let first : (index < 64 * words) × (a.bitmap index ≡ false) =
        unfold is_free in ground (arith, free) in
      let rest = blocked_at-none index 1 (count - 1) a open_ in
      let fits : index + count ≤ 64 * words = last first.0 rest in
      let (bits, counted, ready) = mark_range_lem index count a fits in
      (
        index,
        refl,
        fits,
        (λ j from to. inside first.1 rest j from to),
        bits,
        ap (λ k. k + count) counted,
        refl,
      )
    where
      last :
          index < 64 * words
          → ((j : ℕ)
              → 1 ≤ j
              → j < 1 + (count - 1)
              → (index + j < 64 * words) × (a.bitmap (index + j) ≡ false))
          → index + count ≤ 64 * words
      last low rest = elim (Bool-cases (count == 1)) [
        | inl e ↦ ground (arith, e, low)
        | inr e ↦
            let end = rest (count - 1) (ground (arith, e, pos)) (omega (arith, pos)) in
            let at = end.0 in omega (arith, at, pos)
      ]

      inside :
          a.bitmap index ≡ false
          → ((j : ℕ)
              → 1 ≤ j
              → j < 1 + (count - 1)
              → (index + j < 64 * words) × (a.bitmap (index + j) ≡ false))
          → (j : ℕ) → index ≤ j
          → j < index + count
          → a.bitmap j ≡ false
      inside low rest j from to = elim (Bool-cases (j == index)) [
        | inl e ↦ let same : j ≡ index = ground (arith, e) in ap a.bitmap same ∙ low
        | inr e ↦
            let far : index < j = ground (arith, e, from) in
            let whole : index + (j - index) ≡ j = omega (arith, from) in
            ap a.bitmap (sym whole)
            ∙ (rest (j - index) (omega (arith, far)) (omega (arith, to, from))).1
      ]

  search_block-BlockTaken :
      (fuel searched index count : ℕ) (a : FrameAllocator)
      → 0 < count
      → BlockTaken count a (search_block words fuel searched index count a)
  unfolding BlockTaken search_block
  search_block-BlockTaken zero searched index count a pos = tt
  search_block-BlockTaken (suc fuel) searched index count a pos =
      let on = λ (d : ℕ).
        search_block-BlockTaken fuel (searched + d) ((index + d) % (64 * words)) count a pos in
      let word_on = on (64 - index % 64) in
      let one_on = on 1 in
      let full =
        leb (index / 64 * 8 + 8) (8 * words)
        && (first_clear (masked_word a.bitmap index) 0 64 == 64) in
      elim (Bool-cases (leb (64 * words) searched)) [
        | inl e ↦ rw e tt
        | inr e ↦ elim (Bool-cases full) [
          | inl w ↦ rw (e, w) word_on
          | inr w ↦ elim (Bool-cases (is_free words index a)) [
            | inr u ↦ rw (e, w, u) one_on
            | inl u ↦ elim (Option-cases (blocked_at words index 1 (count - 1) a)) [
              | inl b ↦ rw (e, w, u, b, search_block) (take_block-BlockTaken index count a pos u b)
              | inr (i, b) ↦ rw (e, w, u, b, search_block) (on (i + 1))
            ]
          ]
        ]
      ]

  Allocated-BlockTaken :
      (a : FrameAllocator) (r : Option (ℕ × FrameAllocator))
      → Allocated words a r
      → BlockTaken 1 a r
  unfolding Allocated BlockTaken
  Allocated-BlockTaken a none h = tt
  Allocated-BlockTaken a (some (addr, a')) (frame, at, below, free, after) = (
    frame,
    at,
    omega (arith, below),
    (λ j from to. let same : j ≡ frame = omega (arith, from, to) in ap a.bitmap same ∙ free),
    (λ j. ap (λ z. z.bitmap j) after ∙ ground arith),
    ap (λ z. z.allocated_frames) after,
    ap (λ z. z.next_free_hint) after,
  )

-- When the allocator is initialized and its hint is a frame, a block that `allocate_contiguous`
-- returns for `count` frames is one of `count` frames, but of 32 where more are asked for: they lie
-- within the bitmap and were free, they and no others are marked, and they are counted.
pub allocate_contiguous-BlockTaken :
    (words count : ℕ) (a : FrameAllocator)
    → a.initialized ≡ true
    → a.next_free_hint < 64 * words
    → BlockTaken words (min count 32) a (allocate_contiguous words count a)
unfolding allocate_contiguous BlockTaken
allocate_contiguous-BlockTaken words count a ready hint = elim (Bool-cases (count == 0)) [
  | inl z ↦ simp (ready, z) tt
  | inr z ↦ elim (Bool-cases (count == 1)) [
    | inl o ↦
        let one : min count 32 ≡ 1 = ground (arith, o) in
        simp (ready, z, o)
          (subst (λ n. BlockTaken words n a (allocate words a)) (sym one)
            (Allocated-BlockTaken words a (allocate words a)
              (allocate-Allocated words a ready hint).1))
    | inr o ↦
        simp (ready, z, o)
          (search_block-BlockTaken words (64 * words + 1) 0 a.next_free_hint (min count 32) a
            (ground (arith, z)))
  ]
]
