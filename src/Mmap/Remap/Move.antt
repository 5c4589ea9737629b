-- ===== src/Mmap/Remap/Move.antt =====
-- The growth of `sys_mremap` of kernel/src/syscall/memory.rs that moves a mapping.
use kontsnor_os.Prelude.{
  List, ◌++◌, ℕ, ◌+◌, ◌-◌, ◌%◌, ◌^◌, ◌≤◌, ◌<◌, ◌≡◌, refl, sym, ap, ◌∙◌, true, false, Bool-cases,
  inl, inr, [], ◌∷◌, none, some, ltb, ◌==◌, ◌&&◌, ◌||◌, not, if◌then◌else◌, arith,
}
use Prim.Native.Nat.{bit_and}
use mathlib.Core.Path.{subst}
use kontsnor_os.Prelude.Word.{pos, wrapping_add64}
use kontsnor_os.Errno.{SyscallResult}
use kontsnor_os.Mmap.{add_region, MappedRegion, AddressSpace, user_end, contains, sys_munmap}
use kontsnor_os.Mmap.Regions.{
  PageInfo, view, info, Valid, ValidSpace, add_region-ValidSpace, Valid-last,
}
use kontsnor_os.Mmap.Unmap.{in_range}
use kontsnor_os.Mmap.Place.Map.{whole_pages}
use kontsnor_os.Mmap.Place.Modes.{IsFree}
use kontsnor_os.Mmap.Calls.{allowed, sys_munmap-Unmaps}
use kontsnor_os.Mmap.Remap.{
  can_grow_inplace, covering, grow, sys_mremap, moved_region, move_to, move_mapping, move_to_bump,
}
use kontsnor_os.Mmap.Remap.Inplace.{covering-facts, sys_mremap-grow}

-- Page `a` of the range at `target` is what page `old + (a - target)` was; the old range is gone; nothing
-- else has changed.
abbrev pub Moves :
    (target old old_len new_len : ℕ)
    → MappedRegion
    → AddressSpace
    → SyscallResult
    → AddressSpace
    → Type 0
Moves target old old_len new_len r space result space' =
    (result ≡ pos target)
    × (space'.brk ≡ space.brk)
    × ValidSpace space'
    × ((a : ℕ)
        → view a space'.mmap_regions ≡ (
            if in_range target (target + new_len) a
            then some (info (old + (a - target)) r)
            else if in_range old (old + old_len) a
            then none
            else view a space.mmap_regions))

-- The length of whole pages
whole_pages-whole : (len : ℕ) → len % 4096 ≡ 0 → whole_pages len ≡ len
whole_pages-whole len pages = omega (arith, pages)

-- What the removal of the old range leaves.
unmap_old :
    (old old_len : ℕ) (space : AddressSpace)
    → 0 < old_len
    → old % 4096 ≡ 0
    → old_len % 4096 ≡ 0
    → old + old_len ≤ user_end
    → ValidSpace space
    → let space' = (sys_munmap old old_len space).1 in
      (space'.brk ≡ space.brk)
      × ValidSpace space'
      × ((a : ℕ)
          → view a space'.mmap_regions
            ≡ (if in_range old (old + old_len) a then none else view a space.mmap_regions))
unmap_old old old_len space some_old page pages low valid =
    let (result, same, valid', views) = sys_munmap-Unmaps old old_len space valid in
    let whole = whole_pages-whole old_len pages in
    let ok : allowed old old_len ≡ true = ground (arith, some_old, page, whole, low) in
    (
      same,
      valid',
      λ a.
          views a
          ∙ ap
              (λ n.
                if allowed old old_len && in_range old (old + n) a
                then none
                else view a space.mmap_regions)
              whole
          ∙ (rw ok refl),
    )

module _ (target old old_len new_len : ℕ) (some_old : 0 < old_len) (more : old_len < new_len)
    (page : old % 4096 ≡ 0) (low_old : old + old_len ≤ user_end) (pages_old : old_len % 4096 ≡ 0)
    (pages : new_len % 4096 ≡ 0) (page_t : target % 4096 ≡ 0) (low : target + new_len ≤ user_end)
    (space : AddressSpace) (r : MappedRegion) (valid : ValidSpace space)
    (c : covering old old_len space.mmap_regions ≡ some r) where
  pub move_to-Moves :
      IsFree target (target + new_len) space.mmap_regions
      → let (result, space') = move_to target old old_len new_len space in
        Moves target old old_len new_len r space result space'
  unfolding move_to
  move_to-Moves free =
      let (sound, covers) = covering-facts old old_len space.mmap_regions r valid.0 c in
      let from : r.start ≤ old = ground (arith, covers) in
      let m = moved_region target old new_len r in
      let (same, valid', views) =
        unmap_old old old_len space some_old page pages_old low_old valid in
      let holds : (a : ℕ) → contains a m ≡ in_range target (target + new_len) a =
        λ a. ground (arith, low) in
      let empty : (a : ℕ)
          → contains a m ≡ true
          → view a (sys_munmap old old_len space).1.mmap_regions ≡ none =
        λ a i. views a ∙ elim (Bool-cases (in_range old (old + old_len) a)) [
          | inl o ↦ rw o refl
          | inr o ↦ rw o (free a (sym (holds a) ∙ i))
        ] in
      let (valid'', views') =
        add_region-ValidSpace m (sys_munmap old old_len space).1
          (omega (arith, some_old, more), page_t, pages, low) valid' empty in
      let moved : (a : ℕ)
          → in_range target (target + new_len) a ≡ true
          → info a m ≡ info (old + (a - target)) r =
        λ a i.
          let offsets : wrapping_add64 (wrapping_add64 r.offset (old - r.start)) (a - target)
              ≡ wrapping_add64 r.offset (old + (a - target) - r.start) =
            omega (arith, from) in
          ap (λ o. record (info a m) { offset = o }) offsets in
      rw (c, move_to)
        (
          ground (arith, low),
          same,
          valid'',
          λ a. views' a ∙ elim (Bool-cases (in_range target (target + new_len) a)) [
            | inl i ↦ rw (holds a ∙ i, i) (ap some (moved a i))
            | inr i ↦ rw (holds a ∙ i, i) (views a)
          ],
        )

-- A call that may move a mapping, to an address of the kernel's choice, and cannot leave it where it is.
abbrev pub MustMove : (old old_len new_len flags : ℕ) → AddressSpace → Type 0
MustMove old old_len new_len flags space =
    (bit_and flags 1 == 0 ≡ false)
    × (bit_and flags 2 == 0 ≡ true)
    × (can_grow_inplace old old_len new_len space.mmap_regions ≡ false)

module _ (old old_size new_size flags new_address : ℕ) (space : AddressSpace) (r : MappedRegion)
    (valid : ValidSpace space) (page : old % 4096 ≡ 0) (some_old : 0 < old_size)
    (more : whole_pages old_size < whole_pages new_size)
    (low_old : old + whole_pages new_size ≤ user_end)
    (low : space.mmap_bump + whole_pages new_size ≤ user_end)
    (must : MustMove old (whole_pages old_size) (whole_pages new_size) flags space)
    (c : covering old (whole_pages old_size) space.mmap_regions ≡ some r) where
  bumped : AddressSpace
  bumped = record space { mmap_bump = space.mmap_bump + whole_pages new_size }

  sys_mremap-move_to :
      sys_mremap old old_size new_size flags new_address space
      ≡ move_to space.mmap_bump old (whole_pages old_size) (whole_pages new_size) bumped
  unfolding bumped grow move_mapping move_to_bump
  sys_mremap-move_to =
      let next = space.mmap_bump + whole_pages new_size in
      let room : not (ltb next (2 ^ 64)) || ltb user_end next ≡ false = ground (arith, low) in
      sys_mremap-grow old old_size new_size flags new_address space page some_old more
        (omega (arith, low_old))
      ∙ (rw (must.0, must.1, must.2, room, grow, move_mapping, move_to_bump) refl)

  pub sys_mremap-Moves :
      IsFree space.mmap_bump (space.mmap_bump + whole_pages new_size) space.mmap_regions
      → let (result, space') = sys_mremap old old_size new_size flags new_address space in
        Moves space.mmap_bump old
          (whole_pages old_size)
          (whole_pages new_size)
          r
          space
          result
          space'
  unfolding bumped
  sys_mremap-Moves free =
      let (regions, page_b, low_b) = valid in
      subst
        (λ answer.
          Moves space.mmap_bump old (whole_pages old_size) (whole_pages new_size) r space answer.0
            answer.1)
        (sym sys_mremap-move_to)
        (move_to-Moves space.mmap_bump old (whole_pages old_size) (whole_pages new_size)
          (omega (arith, some_old)) more page (omega (arith, low_old, more)) (omega arith)
          (omega arith) page_b low bumped r (regions, omega (arith, page_b), low_b) c free)

  -- `sys_mremap` in a valid space, of some bytes at a page to a larger number of pages that ends within the
  -- user's addresses there and at the bump address, with MREMAP_MAYMOVE and without MREMAP_FIXED, when the
  -- test for growth in place says no and a region holds the old range: if the bump address is mapped and is
  -- not in the old range, the call answers with the bump address, the last of the regions after it holds that
  -- address, and those before the last show there what was mapped; so the regions are not valid.
  pub sys_mremap-clash :
      (i : PageInfo)
      → view space.mmap_bump space.mmap_regions ≡ some i
      → in_range old (old + whole_pages old_size) space.mmap_bump ≡ false
      → let (result, space') = sys_mremap old old_size new_size flags new_address space in
        (result ≡ pos space.mmap_bump)
        × ((before : List MappedRegion) × (m : MappedRegion) × (space'.mmap_regions
              ≡ before ++ (m ∷ []))
            × (contains space.mmap_bump m ≡ true)
            × (view space.mmap_bump before ≡ some i))
        × ¬ Valid space'.mmap_regions
  unfolding bumped move_to
  sys_mremap-clash i taken apart =
      let (regions, page_b, low_b) = valid in
      let old_len = whole_pages old_size in
      let bump = space.mmap_bump in
      let m = moved_region bump old (whole_pages new_size) r in
      let left = (sys_munmap old old_len bumped).1.mmap_regions in
      let (same, valid', views) =
        unmap_old old old_len bumped (omega (arith, some_old)) page (omega arith)
          (omega (arith, low_old, more)) (regions, omega (arith, page_b), low_b) in
      let still : view bump left ≡ some i = views bump ∙ (rw apart taken) in
      let inside : contains bump m ≡ true = ground (arith, low, more) in
      let moved : move_to bump old old_len (whole_pages new_size) bumped
          ≡ (pos bump, add_region m (sys_munmap old old_len bumped).1) =
        rw (c, move_to)
          (ap (λ n. (n, add_region m (sys_munmap old old_len bumped).1)) (ground (arith, low))) in
      let answer = sys_mremap-move_to ∙ moved in
      let is : (sys_mremap old old_size new_size flags new_address space).1.mmap_regions
          ≡ left ++ (m ∷ []) =
        ap (λ x. x.1.mmap_regions) answer in
      (
        ap (λ x. x.0) answer,
        (left, m, is, inside, still),
        λ v. none_some (sym (Valid-last left m (subst Valid is v) bump inside) ∙ still),
      )
    where
      none_some : {x : PageInfo} → none ≡ some x → ⊥
      none_some e = cc
