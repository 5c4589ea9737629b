-- ===== src/Mmap/Place/Modes.antt =====
-- The address that a mapping is given, in each of the three ways: `sys_mmap` of
-- kernel/src/syscall/memory.rs.
use kontsnor_os.Prelude.{
  ℕ, ◌+◌, ◌-◌, ◌%◌, ◌^◌, min, ◌≤◌, ◌<◌, ◌≡◌, refl, sym, ◌∙◌, Bool, true, false, Bool-cases, inl,
  inr, List, none, ltb, leb, ◌==◌, ◌&&◌, ◌||◌, not, if◌then◌else◌, arith,
}
use mathlib.Core.Path.{subst}
use Prim.Native.Nat.{bit_and}
use kontsnor_os.Prelude.Word.{is_neg}
use kontsnor_os.Errno.{into}
use kontsnor_os.Mmap.{MappedRegion, AddressSpace, user_end, unmap_range}
use kontsnor_os.Mmap.Regions.{view, ValidSpace}
use kontsnor_os.Mmap.Unmap.{in_range, unmap_regions-view, unmap_regions-Valid}
use kontsnor_os.Mmap.Place.{
  Search, found, no_room, out_of_rounds, search_free, rounds, any_overlap, Placed, placed_at,
  refused, raise_bump, fixed_ok, place_noreplace, place_fixed, hint_ok, place_found, place_free,
  place,
}
use kontsnor_os.Mmap.Place.Free.{Valid-sound, any_overlap-view}
use kontsnor_os.Mmap.Place.First.{IsFirst, search-IsFirst}

-- Only MAP_FIXED without MAP_FIXED_NOREPLACE may take an address from a mapping.
abbrev pub may_replace : (flags : ℕ) → Bool
may_replace flags = (bit_and flags 0x100000 == 0) && not (bit_and flags 0x10 == 0)

abbrev pub Cleared : (at end_addr : ℕ) (before after : List MappedRegion) → Type 0
Cleared at end_addr before after =
    (a : ℕ) → view a after ≡ (if in_range at end_addr a then none else view a before)

abbrev pub IsFree : (at end_addr : ℕ) → List MappedRegion → Type 0
IsFree at end_addr rs = (a : ℕ) → in_range at end_addr a ≡ true → view a rs ≡ none

-- A range of user pages that the new space holds nothing at, and the old one neither, if it may not be
-- replaced.
abbrev pub IsPlaced : (len : ℕ) (replace : Bool) → AddressSpace → Placed → Type 0
IsPlaced len replace space (refused e) = is_neg (into e) ≡ true
IsPlaced len replace space (placed_at at space') =
    (at % 4096 ≡ 0)
    × (at + len ≤ user_end)
    × (space'.brk ≡ space.brk)
    × ValidSpace space'
    × Cleared at (at + len) space.mmap_regions space'.mmap_regions
    × (replace ≡ false → IsFree at (at + len) space.mmap_regions)

free-Cleared :
    (at end_addr : ℕ) (rs : List MappedRegion) → IsFree at end_addr rs → Cleared at end_addr rs rs
free-Cleared at end_addr rs free a = elim (Bool-cases (in_range at end_addr a)) [
  | inl i ↦ free a i ∙ (rw i refl)
  | inr i ↦ rw i refl
]

-- A free range, with the bump address set to a page or not
free-IsPlaced :
    (len bump at : ℕ) (replace : Bool) (space : AddressSpace)
    → ValidSpace space
    → bump % 4096 ≡ 0
    → at % 4096 ≡ 0
    → at + len ≤ user_end
    → any_overlap at (at + len) space.mmap_regions ≡ false
    → IsPlaced len replace space (placed_at at (record space { mmap_bump = bump }))
free-IsPlaced len bump at replace space (valid, page, low) page_b page_a end free =
    let clear : IsFree at (at + len) space.mmap_regions =
      any_overlap-view at (at + len) space.mmap_regions (Valid-sound space.mmap_regions valid)
        free in
    (
      page_a,
      end,
      refl,
      (valid, page_b, low),
      free-Cleared at (at + len) space.mmap_regions clear,
      λ r. clear,
    )

raise_bump-page :
    (end_addr : ℕ) (space : AddressSpace)
    → space.mmap_bump % 4096 ≡ 0
    → end_addr % 4096 ≡ 0
    → (raise_bump end_addr space).mmap_bump % 4096 ≡ 0
raise_bump-page end_addr space page page_e = elim (Bool-cases (ltb space.mmap_bump end_addr)) [
  | inl l ↦ rw l page_e
  | inr l ↦ rw l page
]

raise_bump-set :
    (end_addr : ℕ) (space : AddressSpace)
    → raise_bump end_addr space ≡ record space { mmap_bump = (raise_bump end_addr space).mmap_bump }
raise_bump-set end_addr space = elim (Bool-cases (ltb space.mmap_bump end_addr)) [
  | inl l ↦ rw l refl
  | inr l ↦ rw l refl
]

module _ (len : ℕ) (some_len : 0 < len) (pages : len % 4096 ≡ 0) (space : AddressSpace)
    (valid : ValidSpace space) where
  place_noreplace-IsPlaced : (addr : ℕ) → IsPlaced len false space (place_noreplace addr len space)
  unfolding place_noreplace
  place_noreplace-IsPlaced addr = elim (Bool-cases (not (fixed_ok addr len))) [
    | inl o ↦ rw o refl
    | inr o ↦
        elim (Bool-cases (ltb addr space.brk || any_overlap addr (addr + len) space.mmap_regions)) [
          | inl p ↦ rw (o, p) refl
          | inr p ↦
              let page : addr % 4096 ≡ 0 = ground (arith, o) in
              let bump = (raise_bump (addr + len) space).mmap_bump in
              rw (o, p)
                (subst (λ s. IsPlaced len false space (placed_at addr s))
                  (sym (raise_bump-set (addr + len) space))
                  (free-IsPlaced len bump addr false space valid
                    (raise_bump-page (addr + len) space valid.1 (omega (arith, page, pages))) page
                    (ground (arith, o)) (ground (arith, p))))
        ]
  ]

  place_fixed-IsPlaced : (addr : ℕ) → IsPlaced len true space (place_fixed addr len space)
  unfolding place_fixed unmap_range
  place_fixed-IsPlaced addr = elim (Bool-cases (not (fixed_ok addr len))) [
    | inl o ↦ rw o refl
    | inr o ↦
        let page : addr % 4096 ≡ 0 = ground (arith, o) in
        let some_range : leb (addr + len) addr ≡ false = ground (arith, some_len) in
        let page_e : (addr + len) % 4096 ≡ 0 = omega (arith, page, pages) in
        rw (o, some_range, raise_bump-set (addr + len) space)
          (
            page,
            ground (arith, o),
            refl,
            (
              unmap_regions-Valid addr (addr + len) (omega (arith, some_len)) page page_e
                  space.mmap_regions valid.0,
              raise_bump-page (addr + len) space valid.1 page_e,
              valid.2,
            ),
            unmap_regions-view addr (addr + len) (omega (arith, some_len)) page page_e
                space.mmap_regions valid.0,
            λ r. absurd (true_false r),
          )
  ]
    where
      true_false : true ≡ false → ⊥
      true_false e = cc

  place_found-IsPlaced :
      (s : Search)
      → IsFirst space.mmap_bump len space s
      → IsPlaced len false space (place_found len space s)
  unfolding place_found
  place_found-IsPlaced (found c) (from, page, (above, free, room), first) =
      free-IsPlaced len (c + len) c false space valid (omega (arith, page, pages)) page
        (omega (arith, room)) free
  place_found-IsPlaced no_room first = refl
  place_found-IsPlaced out_of_rounds first = refl

  place_free-IsPlaced : (addr : ℕ) → IsPlaced len false space (place_free addr len space)
  unfolding place_free
  place_free-IsPlaced addr = elim (Bool-cases (hint_ok addr len space)) [
    | inl h ↦
        let whole : min (addr + len) (2 ^ 64 - 1) ≡ addr + len = ground (arith, h) in
        let free : any_overlap addr (min (addr + len) (2 ^ 64 - 1)) space.mmap_regions ≡ false =
          ground (arith, h) in
        rw h (
          free-IsPlaced len space.mmap_bump addr false space valid valid.1 (ground (arith, h))
            (ground (arith, h))
            (subst (λ e. any_overlap addr e space.mmap_regions ≡ false) whole free))
    | inr h ↦ rw h (
        place_found-IsPlaced (search_free (rounds space) space.mmap_bump len space)
          (search-IsFirst len space (Valid-sound space.mmap_regions valid.0) valid.2 valid.1))
  ]

  pub place-IsPlaced :
      (addr flags : ℕ) → IsPlaced len (may_replace flags) space (place addr len flags space)
  unfolding place
  place-IsPlaced addr flags = elim (Bool-cases (bit_and flags 0x100000 == 0)) [
    | inr n ↦ rw n (place_noreplace-IsPlaced addr)
    | inl n ↦ elim (Bool-cases (bit_and flags 0x10 == 0)) [
      | inr f ↦ rw (n, f) (place_fixed-IsPlaced addr)
      | inl f ↦ rw (n, f) (place_free-IsPlaced addr)
    ]
  ]
