-- ===== src/Mmap/Remap/Inplace.antt =====
-- The growth of `sys_mremap` of kernel/src/syscall/memory.rs that leaves a mapping where it is.
use kontsnor_os.Prelude.{
  ℕ, ◌+◌, ◌%◌, ◌^◌, ◌≤◌, ◌<◌, ◌≡◌, refl, sym, true, false, Bool-cases, inl, inr, List, [], ◌∷◌,
  none, some, ltb, ◌==◌, ◌&&◌, ◌||◌, not, if◌then◌else◌, arith,
}
use mathlib.Core.Path.{subst}
use kontsnor_os.Prelude.Word.{pos, as_i64}
use kontsnor_os.Errno.{SyscallResult}
use kontsnor_os.Mmap.{MappedRegion, AddressSpace, user_end, end_of}
use kontsnor_os.Mmap.Regions.{view, info, Sound, Valid, ValidSpace}
use kontsnor_os.Mmap.Unmap.{in_range}
use kontsnor_os.Mmap.Place.Map.{whole_pages}
use kontsnor_os.Mmap.Remap.{
  covers_old, can_grow_inplace, covering, grown, grow_inplace, grow, resize, sys_mremap,
}
use kontsnor_os.Mmap.Remap.Grow.{grown-IsGrown, grow_regions-Grows}

pub sys_mremap-grow :
    (old old_size new_size flags new_address : ℕ) (space : AddressSpace)
    → old % 4096 ≡ 0
    → 0 < old_size
    → whole_pages old_size < whole_pages new_size
    → old + whole_pages new_size < 2 ^ 64
    → sys_mremap old old_size new_size flags new_address space
      ≡ grow old (whole_pages old_size) (whole_pages new_size) flags new_address space
unfolding sys_mremap resize
sys_mremap-grow old old_size new_size flags new_address space page some_old more low =
    let p : not (old % 4096 == 0) ≡ false = ground (arith, page) in
    let l_old : ltb (old_size + 4095) (2 ^ 64) ≡ true = ground (arith, more, low) in
    let l_new : ltb (new_size + 4095) (2 ^ 64) ≡ true = ground (arith, low) in
    let z : (whole_pages old_size == 0) || (whole_pages new_size == 0) ≡ false =
      ground (arith, some_old, more) in
    let m : ltb (whole_pages new_size) (whole_pages old_size) ≡ false = ground (arith, more) in
    let n : ltb (whole_pages old_size) (whole_pages new_size) ≡ true = ground (arith, more) in
    rw (p, l_old, l_new, z, m, n, sys_mremap) refl

pub covering-facts :
    (old old_len : ℕ) (rs : List MappedRegion) (r : MappedRegion)
    → Valid rs
    → covering old old_len rs ≡ some r
    → Sound r × (covers_old old old_len r ≡ true)
covering-facts old old_len [] r v c = absurd (none_some c)
  where
    none_some : {x : MappedRegion} → none ≡ some x → ⊥
    none_some e = cc
covering-facts old old_len (q ∷ qs) r (sound, alone, v) c =
    elim (Bool-cases (covers_old old old_len q)) [
      | inl h ↦
          let is : some q ≡ some r = subst (λ x. x ≡ some r) (rw h refl) c in
          let same : q ≡ r = cc in
          subst (λ x. Sound x × (covers_old old old_len x ≡ true)) same (sound, h)
      | inr h ↦ covering-facts old old_len qs r v (subst (λ x. x ≡ some r) (rw h refl) c)
    ]

-- The call has taken the range at `old`: its pages are those of the region `r` that holds the old range.
abbrev pub Extends :
    (old len : ℕ) → MappedRegion → AddressSpace → SyscallResult → AddressSpace → Type 0
Extends old len r space result space' =
    (result ≡ pos old)
    × (space'.brk ≡ space.brk)
    × ValidSpace space'
    × ((a : ℕ)
        → view a space'.mmap_regions
          ≡ (if in_range old (old + len) a then some (info a r) else view a space.mmap_regions))

grow_inplace-Extends :
    (old old_len new_len : ℕ) (space : AddressSpace) (r : MappedRegion)
    → ValidSpace space
    → 0 < old_len
    → old_len < new_len
    → old % 4096 ≡ 0
    → new_len % 4096 ≡ 0
    → old + new_len ≤ user_end
    → can_grow_inplace old old_len new_len space.mmap_regions ≡ true
    → covering old old_len space.mmap_regions ≡ some r
    → Extends old new_len r space (as_i64 old) (grow_inplace old old_len new_len r space)
grow_inplace-Extends old old_len new_len space r (valid, page_b, low_b) some_old more page pages low
      g c =
    let (sound, covers) = covering-facts old old_len space.mmap_regions r valid c in
    let ((some_len, page_r, pages_r, low_r), inside, same) =
      grown-IsGrown old old_len new_len some_old more page pages low r sound covers in
    let (valid', views) =
      grow_regions-Grows old old_len new_len some_old more page pages low space.mmap_regions r valid
        g c in
    let r' = grown old new_len r in
    let bump_page : (if ltb (end_of r) (end_of r') && (end_of r == space.mmap_bump)
            then end_of r'
            else space.mmap_bump)
          % 4096
        ≡ 0 =
      elim (Bool-cases (ltb (end_of r) (end_of r') && (end_of r == space.mmap_bump))) [
        | inl b ↦ rw b (omega (arith, page_r, pages_r, low_r))
        | inr b ↦ rw b page_b
      ] in
    (ground (arith, low), refl, (valid', bump_page, low_b), views)

-- `sys_mremap` in a valid space, of some bytes at a page to a larger number of pages that ends within the
-- user's addresses, when the test for growth in place says yes and a region `r` holds the old range: with any
-- flags and any new address it answers with the old address, the new range shows the pages of `r`, all other
-- addresses show what they showed, the break is the same and the space stays valid.
pub sys_mremap-Extends :
    (old old_size new_size flags new_address : ℕ) (space : AddressSpace) (r : MappedRegion)
    → ValidSpace space
    → old % 4096 ≡ 0
    → 0 < old_size
    → whole_pages old_size < whole_pages new_size
    → old + whole_pages new_size ≤ user_end
    → can_grow_inplace old (whole_pages old_size) (whole_pages new_size) space.mmap_regions ≡ true
    → covering old (whole_pages old_size) space.mmap_regions ≡ some r
    → let (result, space') = sys_mremap old old_size new_size flags new_address space in
      Extends old (whole_pages new_size) r space result space'
unfolding grow
sys_mremap-Extends old old_size new_size flags new_address space r valid page some_old more low g
      c =
    subst (λ answer. Extends old (whole_pages new_size) r space answer.0 answer.1)
      (sym (
        sys_mremap-grow old old_size new_size flags new_address space page some_old more
          (omega (arith, low))))
      (rw (g, c, grow)
        (grow_inplace-Extends old (whole_pages old_size) (whole_pages new_size) space r valid
          (omega (arith, some_old)) more page (omega arith) low g c))
