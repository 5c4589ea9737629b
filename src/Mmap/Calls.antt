-- ===== src/Mmap/Calls.antt =====
-- What `sys_munmap` of kernel/src/syscall/memory.rs does to the pages of a space.
use kontsnor_os.Prelude.{
  ℕ, ◌+◌, ◌%◌, ◌^◌, ◌<◌, ◌≡◌, refl, sym, ap, ◌∙◌, Bool, true, false, Bool-cases, inl, inr, List, [],
  ◌∷◌, none, ltb, leb, ◌==◌, ◌&&◌, ◌||◌, not, if◌then◌else◌, arith,
}
use mathlib.Core.Path.{subst}
use kontsnor_os.Prelude.Word.{pos}
use kontsnor_os.Errno.{SyscallResult, into, einval}
use kontsnor_os.Mmap.{
  MappedRegion, AddressSpace, user_end, mmap_base, unmap_range, unmap_regions, highest_remaining,
  lower_bump, range_ok, sys_munmap,
}
use kontsnor_os.Mmap.Regions.{view, Valid, ValidSpace}
use kontsnor_os.Mmap.Unmap.{in_range, unmap_regions-view, unmap_regions-Valid}
use kontsnor_os.Mmap.Place.Map.{whole_pages}

-- Some pages of a user's addresses
abbrev pub allowed : (addr size : ℕ) → Bool
allowed addr size = ltb 0 size && ((addr % 4096 == 0) && leb (addr + whole_pages size) user_end)

highest_remaining-page : (rs : List MappedRegion) → Valid rs → highest_remaining rs % 4096 ≡ 0
unfolding highest_remaining
highest_remaining-page [] v = refl
highest_remaining-page (r ∷ rs) ((some_len, page, pages, low), alone, v) =
    let ih = highest_remaining-page rs v in
    elim (Bool-cases (leb mmap_base r.start && ltb r.start 0x0000700000000000)) [
      | inl m ↦ rw m (omega (arith, ih, page, pages, low))
      | inr m ↦ rw m ih
    ]

lower_bump-page :
    (addr unmap_end : ℕ) (space : AddressSpace)
    → Valid space.mmap_regions
    → space.mmap_bump % 4096 ≡ 0
    → (lower_bump addr unmap_end space).mmap_bump % 4096 ≡ 0
lower_bump-page addr unmap_end space v page =
    let high = highest_remaining-page space.mmap_regions v in
    elim (Bool-cases (leb space.mmap_bump unmap_end && ltb addr 0x0000700000000000)) [
      | inl l ↦ rw l (omega (arith, high))
      | inr l ↦ rw l page
    ]

-- The regions and the break of a space
abbrev pub Same : (before after : AddressSpace) → Type 0
Same before after = (after.brk ≡ before.brk) × (after.mmap_regions ≡ before.mmap_regions)

lower_bump-Same :
    (addr unmap_end : ℕ) (space : AddressSpace) → Same space (lower_bump addr unmap_end space)
lower_bump-Same addr unmap_end space =
    elim (Bool-cases (leb space.mmap_bump unmap_end && ltb addr 0x0000700000000000)) [
      | inl l ↦ rw l (refl, refl)
      | inr l ↦ rw l (refl, refl)
    ]

-- What `munmap` leaves of the pages.
abbrev pub Unmaps : (addr size : ℕ) → AddressSpace → SyscallResult → AddressSpace → Type 0
Unmaps addr size space result space' =
    (result ≡ (if allowed addr size then pos 0 else into einval))
    × (space'.brk ≡ space.brk)
    × ValidSpace space'
    × ((a : ℕ)
        → view a space'.mmap_regions ≡ (
            if allowed addr size && in_range addr (addr + whole_pages size) a
            then none
            else view a space.mmap_regions))

sys_munmap-allowed :
    (addr size : ℕ) (space : AddressSpace)
    → allowed addr size ≡ true
    → let e = addr + whole_pages size in
      sys_munmap addr size space ≡ (
        pos 0,
        lower_bump addr e (record space { mmap_regions = unmap_regions addr e space.mmap_regions }),
      )
unfolding sys_munmap unmap_range
sys_munmap-allowed addr size space ok =
    let z : (size == 0) || not (addr % 4096 == 0) ≡ false = ground (arith, ok) in
    let l : ltb (size + 4095) (2 ^ 64) ≡ true = ground (arith, ok) in
    let r : range_ok addr (whole_pages size) ≡ true = ground (arith, ok) in
    let some_range : leb (addr + whole_pages size) addr ≡ false = ground (arith, ok) in
    rw (z, l, r, some_range, sys_munmap) refl

sys_munmap-refused :
    (addr size : ℕ) (space : AddressSpace)
    → allowed addr size ≡ false
    → sys_munmap addr size space ≡ (into einval, space)
unfolding sys_munmap
sys_munmap-refused addr size space nay = elim (Bool-cases ((size == 0) || not (addr % 4096 == 0))) [
  | inl z ↦ rw z refl
  | inr z ↦ elim (Bool-cases (ltb (size + 4095) (2 ^ 64))) [
    | inr l ↦ rw (z, l, sys_munmap) refl
    | inl l ↦
        let r : range_ok addr (whole_pages size) ≡ false = ground (arith, nay, z) in
        rw (z, l, r, sys_munmap) refl
  ]
]

-- `sys_munmap` in a valid space answers 0 if the range is not empty, begins with a page and ends within
-- the user's addresses, and EINVAL otherwise. With 0, the addresses of the range show nothing and all
-- others what they showed; with EINVAL all do. The space stays valid and its break the same.
pub sys_munmap-Unmaps :
    (addr size : ℕ) (space : AddressSpace)
    → ValidSpace space
    → let (result, space') = sys_munmap addr size space in Unmaps addr size space result space'
sys_munmap-Unmaps addr size space (valid, page_b, low) = elim (Bool-cases (allowed addr size)) [
  | inr nay ↦
      subst (λ answer. Unmaps addr size space answer.0 answer.1)
        (sym (sys_munmap-refused addr size space nay))
        (rw nay (refl, refl, (valid, page_b, low), (λ a. refl)))
  | inl ok ↦
      let e = addr + whole_pages size in
      let lt : addr < e = ground (arith, ok) in
      let page : addr % 4096 ≡ 0 = ground (arith, ok) in
      let page_e : e % 4096 ≡ 0 = omega (arith, page) in
      let unmapped = record space { mmap_regions = unmap_regions addr e space.mmap_regions } in
      let valid' = unmap_regions-Valid addr e lt page page_e space.mmap_regions valid in
      let (same_brk, same) = lower_bump-Same addr e unmapped in
      subst (λ answer. Unmaps addr size space answer.0 answer.1)
        (sym (sys_munmap-allowed addr size space ok))
        (rw ok (
          refl,
          same_brk,
          (
            subst Valid (sym same) valid',
            lower_bump-page addr e unmapped valid' page_b,
            omega (arith, same_brk, low),
          ),
          (λ a.
              ap (view a) same
              ∙ unmap_regions-view addr e lt page page_e space.mmap_regions valid a),
        ))
]
