-- ===== src/Mmap/Place/First.antt =====
-- The loop over candidates ends with the first free range: `sys_mmap` of kernel/src/syscall/memory.rs.
use kontsnor_os.Prelude.{
  ℕ, zero, suc, ◌+◌, ◌*◌, ◌/◌, ◌%◌, ◌^◌, ◌≤◌, ◌<◌, ◌≡◌, refl, sym, ◌∙◌, true, false, Bool-cases,
  inl, inr, ltb, ◌==◌, not, if◌then◌else◌, arith,
}
use kontsnor_os.Prelude.Word.{wrapping_add64}
use kontsnor_os.Mmap.{AddressSpace, user_end}
use kontsnor_os.Mmap.Place.{
  Search, found, no_room, out_of_rounds, search_end, search_free, rounds, any_overlap, last_overlap,
}
use kontsnor_os.Mmap.Place.Free.{
  AllSound, ahead, ahead_mono, ahead-length, ahead-passed, last_overlap-below, last_overlap-none,
  last_overlap-low, last_overlap-above,
}

-- A range that may be taken.
abbrev pub Fits : (len : ℕ) → AddressSpace → (addr : ℕ) → Type 0
Fits len space addr =
    (space.brk ≤ addr)
    × (any_overlap addr (addr + len) space.mmap_regions ≡ false)
    × (addr + len ≤ search_end)

-- No page from `start` on and before `stop` begins such a range.
abbrev pub NoneFits : (start stop len : ℕ) → AddressSpace → Type 0
NoneFits start stop len space = (b : ℕ) → start ≤ b → b < stop → b % 4096 ≡ 0 → ¬ Fits len space b

-- The search ends, with the first page from `start` on that begins such a range, or without any.
abbrev pub IsFirst : (start len : ℕ) → AddressSpace → Search → Type 0
IsFirst start len space (found c) =
    (start ≤ c) × (c % 4096 ≡ 0) × Fits len space c × NoneFits start c len space
IsFirst start len space no_room = (b : ℕ) → start ≤ b → b % 4096 ≡ 0 → ¬ Fits len space b
IsFirst start len space out_of_rounds = ⊥

extend :
    (c d len : ℕ) (space : AddressSpace) (s : Search)
    → c ≤ d
    → NoneFits c d len space
    → IsFirst d len space s
    → IsFirst c len space s
extend c d len space (found x) le before (from, page, fits, first) = (
  omega (arith, le, from),
  page,
  fits,
  λ b from_c to_x page_b. elim (Bool-cases (ltb b d)) [
    | inl l ↦ before b from_c (ground (arith, l)) page_b
    | inr l ↦ first b (ground (arith, l)) to_x page_b
  ],
)
extend c d len space no_room le before first = λ b from_c page_b. elim (Bool-cases (ltb b d)) [
  | inl l ↦ before b from_c (ground (arith, l)) page_b
  | inr l ↦ first b (ground (arith, l)) page_b
]
extend c d len space out_of_rounds le before first = elim first [ ]

abbrev below_brk : ℕ → AddressSpace → ℕ
below_brk c space = if ltb c space.brk then 1 else 0

abbrev way : (c len : ℕ) → AddressSpace → ℕ
way c len space = if ltb c space.brk then space.brk else last_overlap c (c + len) space.mmap_regions

-- Between a candidate and what is in its way, nothing fits.
way-NoneFits :
    (c len : ℕ) (space : AddressSpace)
    → AllSound space.mmap_regions
    → NoneFits c (way c len space) len space
way-NoneFits c len space sound b from to page (above, free, low) =
    elim (Bool-cases (ltb c space.brk)) [
      | inl l ↦ let is : way c len space ≡ space.brk = rw l refl in omega (arith, is, to, above)
      | inr l ↦
          let is : way c len space ≡ last_overlap c (c + len) space.mmap_regions = rw l refl in
          true_false (
            sym (last_overlap-below c len b space.mmap_regions sound from (omega (arith, is, to)))
            ∙ free)
    ]
  where
    true_false : true ≡ false → ⊥
    true_false e = cc

-- The next candidate: behind what is in the way, and with less ahead of it.
way-next :
    (c d len : ℕ) (space : AddressSpace)
    → AllSound space.mmap_regions
    → 0 < way c len space
    → way c len space ≤ d
    → (c < way c len space)
      × (below_brk d space + ahead d space.mmap_regions
          < below_brk c space + ahead c space.mmap_regions)
way-next c d len space sound some_way to = elim (Bool-cases (ltb c space.brk)) [
  | inl l ↦
      let is : way c len space ≡ space.brk = rw l refl in
      let mono = ahead_mono c d space.mmap_regions (ground (arith, is, to, l)) in
      (ground (arith, is, l), ground (arith, is, to, l, mono))
  | inr l ↦
      let is : way c len space ≡ last_overlap c (c + len) space.mmap_regions = rw l refl in
      let above = last_overlap-above c (c + len) space.mmap_regions (omega (arith, is, some_way)) in
      let passed =
        ahead-passed c (c + len) d space.mmap_regions sound (omega (arith, is, above, to))
          (omega (arith, is, to)) (omega (arith, is, some_way)) in
      (omega (arith, is, above), ground (arith, is, above, to, l, passed))
]

way-low :
    (c len : ℕ) (space : AddressSpace)
    → AllSound space.mmap_regions
    → space.brk ≤ user_end
    → way c len space ≤ user_end
way-low c len space sound low = elim (Bool-cases (ltb c space.brk)) [
  | inl l ↦ rw l low
  | inr l ↦ rw l (last_overlap-low c (c + len) space.mmap_regions sound)
]

way-none :
    (c len : ℕ) (space : AddressSpace)
    → AllSound space.mmap_regions
    → way c len space ≡ 0
    → c + len ≤ search_end
    → Fits len space c
way-none c len space sound z room = elim (Bool-cases (ltb c space.brk)) [
  | inl l ↦ let is : way c len space ≡ space.brk = rw l refl in absurd (ground (arith, l, is, z))
  | inr l ↦
      let is : way c len space ≡ last_overlap c (c + len) space.mmap_regions = rw l refl in
      (ground (arith, l), last_overlap-none c (c + len) space.mmap_regions sound (sym is ∙ z), room)
]

search_free-IsFirst :
    (fuel c len : ℕ) (space : AddressSpace)
    → AllSound space.mmap_regions
    → space.brk ≤ user_end
    → c % 4096 ≡ 0
    → below_brk c space + ahead c space.mmap_regions < fuel
    → IsFirst c len space (search_free fuel c len space)
unfolding search_free
search_free-IsFirst zero c len space sound low page enough = absurd (omega (arith, enough))
search_free-IsFirst (suc fuel) c len space sound low page enough =
    elim (Bool-cases (not (ltb (c + len) (2 ^ 64)))) [
      | inl o ↦ rw o (λ b from page_b (above, free, room). ground (arith, o, from, room))
      | inr o ↦ elim (Bool-cases (ltb search_end (c + len))) [
        | inl p ↦ rw (o, p) (λ b from page_b (above, free, room). ground (arith, p, from, room))
        | inr p ↦ elim (Bool-cases (way c len space == 0)) [
          | inl z ↦
              rw (o, p, z)
                (
                  omega arith,
                  page,
                  way-none c len space sound (ground (arith, z)) (ground (arith, p)),
                  (λ b from to page_b fits. omega (arith, from, to)),
                )
          | inr z ↦
              let w = way c len space in
              let d = wrapping_add64 w 4095 / 4096 * 4096 in
              let w_low = way-low c len space sound low in
              let (above, less) =
                way-next c d len space sound (ground (arith, z)) (omega (arith, w_low)) in
              rw (o, p, z)
                (extend c d len space (search_free fuel d len space) (omega (arith, above, w_low))
                  (λ b from to page_b.
                    way-NoneFits c len space sound b from (omega (arith, to, page_b, w_low)) page_b)
                  (search_free-IsFirst fuel d len space sound low (omega arith)
                    (omega (arith, less, enough))))
        ]
      ]
    ]

-- The search of a space ends, and with the first free range behind the bump address.
-- In a space of sound regions, with a bump address that begins a page and a break within the user's
-- addresses, the search ends before its rounds do. What it finds begins a page at or behind the bump
-- address and the break, fits below the end of the search and meets no region, and no page before it does
-- so; when it finds no room, no page at all does so.
pub search-IsFirst :
    (len : ℕ) (space : AddressSpace)
    → AllSound space.mmap_regions
    → space.brk ≤ user_end
    → space.mmap_bump % 4096 ≡ 0
    → IsFirst space.mmap_bump len space (search_free (rounds space) space.mmap_bump len space)
search-IsFirst len space sound low page =
    let most = ahead-length space.mmap_bump space.mmap_regions in
    search_free-IsFirst (rounds space) space.mmap_bump len space sound low page
      (ground (arith, most))
