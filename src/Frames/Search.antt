-- ===== src/Frames/Search.antt =====
-- `allocate` of kernel/src/memory/physical.rs finds a free frame whenever there is one.
use native.Mathlib.Nat.{mod-eq_of_lt, mod_self}
use kontsnor_os.Prelude.{
  ℕ, zero, suc, ◌+◌, ◌-◌, ◌*◌, ◌/◌, ◌%◌, ◌≤◌, ◌<◌, ◌≡◌, refl, inl, inr, ◌⊎◌, Bool, true, false,
  Option, none, some, ltb, leb, ◌==◌, if◌then◌else◌, Bool-cases, arith,
}
use kontsnor_os.Frames.{
  FrameAllocator, page_size, set_bit, first_clear, masked_word, mark_used, take_frame, Searched,
  taken, all_used, out_of_rounds, answer, search, allocate,
}
use kontsnor_os.Frames.Word.{
  first_clear_bounds, first_clear-false, first_clear_below, masked_word-false, masked_word-true,
}

-- A frame index that has come round.
pub mod_round : (x m : ℕ) → x ≤ m → 0 < m → x % m ≡ (if x == m then 0 else x)
mod_round x m h pos = elim (Bool-cases (x == m)) [
  | inl e ↦ let same : x ≡ m = ground (arith, e) in rw (e, same) (mod_self m)
  | inr e ↦ rw e (mod-eq_of_lt (ground (arith, e, h)))
]

module _ (m : ℕ) (bitmap : ℕ → Bool) where
  abbrev pub Used : ℕ → ℕ → Type 0
  Used from to = (j : ℕ) → from ≤ j → j < to → bitmap j ≡ true

  -- What `searched` frames from `hint` on say: the search has not come round yet, or it has, or it
  -- has seen all there is.
  abbrev pub Seen : (hint searched index : ℕ) → Type 0
  Seen hint searched index =
      ((index ≡ hint + searched) × Used hint index)
      ⊎ (((index + m ≡ hint + searched) × Used hint m × Used 0 index) ⊎ Used 0 m)

  Used-join : (a b c : ℕ) → Used a b → Used b c → Used a c
  Used-join a b c low high j from to = elim (Bool-cases (ltb j b)) [
    | inl e ↦ low j from (ground (arith, e))
    | inr e ↦ high j (ground (arith, e)) to
  ]

  pub Seen-all :
      (hint searched index : ℕ)
      → hint < m
      → index < m
      → m ≤ searched
      → Seen hint searched index
      → Used 0 m
  Seen-all hint searched index h x done (inl (at, used)) = absurd (omega (arith, at, x, done))
  Seen-all hint searched index h x done (inr (inr all)) = all
  Seen-all hint searched index h x done (inr (inl (at, high, low))) =
      let back : hint ≤ index = omega (arith, at, done) in
      Used-join 0 index m low (λ j from to. high j (omega (arith, from, back)) to)

  Seen-advance :
      (hint searched index d : ℕ)
      → hint < m
      → index < m
      → index + d ≤ m
      → 0 < d
      → Used index (index + d)
      → Seen hint searched index
      → Seen hint (searched + d) ((index + d) % m)
  Seen-advance hint searched index d h x room pos new seen = elim (Bool-cases (index + d == m)) [
    | inl e ↦
        let full : index + d ≡ m = ground (arith, e) in
        rw (mod_round (index + d) m room (omega (arith, h)), e) (round seen full)
    | inr e ↦ rw (mod_round (index + d) m room (omega (arith, h)), e) (on seen)
  ]
    where
      round : Seen hint searched index → index + d ≡ m → Seen hint (searched + d) 0
      round (inl (at, used)) full = inr (
          inl (
            omega (arith, at, full),
            Used-join hint index m used (λ j from to. new j from (omega (arith, full, to))),
            (λ j from to. absurd (omega (arith, to))),
          ))
      round (inr (inl (at, high, low))) full =
          inr (inr (Used-join 0 index m low (λ j from to. new j from (omega (arith, full, to)))))
      round (inr (inr all)) full = inr (inr all)

      on : Seen hint searched index → Seen hint (searched + d) (index + d)
      on (inl (at, used)) = inl (omega (arith, at), Used-join hint index (index + d) used new)
      on (inr (inl (at, high, low))) =
          inr (inl (omega (arith, at), high, Used-join 0 index (index + d) low new))
      on (inr (inr all)) = inr (inr all)

-- What a call of `allocate` may return.
module _ (words : ℕ) (a : FrameAllocator) where
  unfoldable pub Allocated : Option (ℕ × FrameAllocator) → Type 0
  Allocated none = Used (64 * words) a.bitmap 0 (64 * words)
  Allocated (some (addr, a')) =
      (frame : ℕ) × (addr ≡ frame * page_size)
      × (frame < 64 * words)
      × (a.bitmap frame ≡ false)
      × (a' ≡ record a {
        bitmap = set_bit a.bitmap frame true;
        allocated_frames = a.allocated_frames + 1;
        next_free_hint = (frame + 1) % (64 * words);
      })

  -- How its search may end: not for want of rounds.
  abbrev pub Ended : Searched → Type 0
  Ended (taken r) = Allocated (some r)
  Ended all_used = Used (64 * words) a.bitmap 0 (64 * words)
  Ended out_of_rounds = ⊥

  take_frame-Allocated :
      (frame : ℕ)
      → frame < 64 * words
      → a.bitmap frame ≡ false
      → Allocated (some (take_frame words frame a))
  unfolding Allocated take_frame mark_used
  take_frame-Allocated frame below free =
      let guard : ltb frame (64 * words) ≡ true = ground (arith, below) in
      (frame, refl, below, free, rw guard)

  -- A word without a clear bit after `index`.
  full_word :
      (index : ℕ)
      → index < 64 * words
      → first_clear (masked_word a.bitmap index) 0 64 ≡ 64
      → Used (64 * words) a.bitmap index (index + (64 - index % 64))
  full_word index x full j from to = masked_word-true a.bitmap index j from (
      first_clear_below (masked_word a.bitmap index) 0 64 (j - index / 64 * 64) (omega arith)
        (omega (arith, full, from, to)))

  search-Ended :
      (fuel searched index : ℕ)
      → a.next_free_hint < 64 * words
      → index < 64 * words
      → 64 * words < searched + fuel
      → 0 < fuel
      → Seen (64 * words) a.bitmap a.next_free_hint searched index
      → Ended (search words fuel searched index a)
  unfolding Allocated search
  search-Ended zero searched index hint x enough some_fuel seen = absurd (omega (arith, some_fuel))
  search-Ended (suc fuel) searched index hint x enough some_fuel seen =
      let m = 64 * words in
      let bit = first_clear (masked_word a.bitmap index) 0 64 in
      let within : leb (index / 64 * 8 + 8) (8 * words) ≡ true =
        let le : index / 64 * 8 + 8 ≤ 8 * words = omega (arith, x) in ground (arith, le) in
      let bounds = first_clear_bounds (masked_word a.bitmap index) 0 64 in
      elim (Bool-cases (leb m searched)) [
        | inl done ↦
            rw done (
              Seen-all m a.bitmap a.next_free_hint searched index hint x (ground (arith, done))
                seen)
        | inr more ↦ elim (Bool-cases (bit == 64)) [
          | inl none_clear ↦
              let advance = 64 - index % 64 in
              let full : bit ≡ 64 = ground (arith, none_clear) in
              let seen' =
                Seen-advance m a.bitmap a.next_free_hint searched index advance hint x
                  (omega (arith, x)) (omega arith) (full_word index x full) seen in
              rw (more, within, none_clear)
                (search-Ended fuel (searched + advance) ((index + advance) % m) hint
                  (omega (arith, x)) (omega (arith, enough)) (ground (arith, enough, more)) seen')
          | inr some_clear ↦
              let small : bit < 64 = ground (arith, some_clear, bounds) in
              let below : index / 64 * 64 + bit < m = omega (arith, x, small) in
              let clear = first_clear-false (masked_word a.bitmap index) 0 64 small in
              let (free, after) = masked_word-false a.bitmap index bit clear in
              let inside : ltb (index / 64 * 64 + bit) m ≡ true = ground (arith, below) in
              rw (more, within, some_clear, inside)
                (take_frame-Allocated (index / 64 * 64 + bit) below free)
        ]
      ]

-- On an allocator that is initialized and whose hint is a frame, the search of `allocate` ends before its
-- rounds do, one for each frame and one, and `allocate` returns the address of a frame that was free, marks
-- this frame and no other, counts it, and leaves a hint that is a frame; it returns nothing only if every
-- frame is in use.
pub allocate-Allocated :
    (words : ℕ) (a : FrameAllocator)
    → a.initialized ≡ true
    → a.next_free_hint < 64 * words
    → Ended words a (search words (64 * words + 1) 0 a.next_free_hint a)
      × Allocated words a (allocate words a)
unfolding allocate Allocated
allocate-Allocated words a ready hint =
    let ended =
      search-Ended words a (64 * words + 1) 0 a.next_free_hint hint hint (omega arith) (omega arith)
        (inl (omega arith, (λ j from to. absurd (omega (arith, from, to))))) in
    (ended, simp ready (by_end (search words (64 * words + 1) 0 a.next_free_hint a) ended))
  where
    by_end : (s : Searched) → Ended words a s → Allocated words a (answer words s)
    by_end (taken r) h = h
    by_end all_used h = h
    by_end out_of_rounds h = elim h [ ]
