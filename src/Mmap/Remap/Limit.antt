-- ===== src/Mmap/Remap/Limit.antt =====
-- The growth in place of `sys_mremap` of kernel/src/syscall/memory.rs knows no limit.
use kontsnor_os.Prelude.{
  ℕ, ◌+◌, ◌-◌, ◌%◌, ◌^◌, ◌≤◌, ◌<◌, ◌≡◌, refl, sym, ap, ◌∙◌, true, false, Bool-cases, inl, inr, List,
  [], ◌∷◌, none, some, ltb, arith,
}
use mathlib.Core.Path.{subst}
use kontsnor_os.Prelude.Word.{pos, wrapping_add64}
use kontsnor_os.Mmap.{MappedRegion, AddressSpace, user_end, end_of, contains}
use kontsnor_os.Mmap.Regions.{info, info_of, view, view-in, view-out, Sound, Valid, ValidSpace}
use kontsnor_os.Mmap.Place.Free.{AllSound, Valid-sound}
use kontsnor_os.Mmap.Place.Map.{whole_pages}
use kontsnor_os.Mmap.Remap.{
  covers_old, can_grow_inplace, covering, grown, grow_regions, grow, sys_mremap,
}
use kontsnor_os.Mmap.Remap.Inplace.{covering-facts, sys_mremap-grow}

-- The region found is grown, in whatever list it stands.
grow_regions-Sound :
    (old old_len new_len : ℕ) (rs : List MappedRegion) (r : MappedRegion)
    → covering old old_len rs ≡ some r
    → Valid (grow_regions old old_len new_len rs)
    → Sound (grown old new_len r)
grow_regions-Sound old old_len new_len [] r c v = absurd (none_some c)
  where
    none_some : {x : MappedRegion} → none ≡ some x → ⊥
    none_some e = cc
grow_regions-Sound old old_len new_len (q ∷ qs) r c v =
    elim (Bool-cases (covers_old old old_len q)) [
      | inl h ↦
          let is : some q ≡ some r = subst (λ x. x ≡ some r) (rw h refl) c in
          let same : q ≡ r = cc in
          let first : grow_regions old old_len new_len (q ∷ qs) ≡ grown old new_len q ∷ qs =
            rw h refl in
          let v' : Valid (grown old new_len q ∷ qs) = subst Valid first v in
          subst (λ x. Sound (grown old new_len x)) same v'.0
      | inr h ↦
          let later : grow_regions old old_len new_len (q ∷ qs)
              ≡ q ∷ grow_regions old old_len new_len qs =
            rw h refl in
          let v' : Valid (q ∷ grow_regions old old_len new_len qs) = subst Valid later v in
          grow_regions-Sound old old_len new_len qs r (subst (λ x. x ≡ some r) (rw h refl) c) v'.2
    ]

-- A growth that ends behind the user's addresses makes a region that does so.
grown_far :
    (old old_len new_len : ℕ) (r : MappedRegion)
    → Sound r
    → covers_old old old_len r ≡ true
    → old + new_len < 2 ^ 63
    → user_end < old + new_len
    → ¬ Sound (grown old new_len r)
grown_far old old_len new_len r (some_len, page, pages, low_r) c fits far sound' =
    let from : r.start ≤ old = ground (arith, c) in
    let l : ltb (end_of r) (wrapping_add64 r.start (wrapping_add64 (old - r.start) new_len))
        ≡ true =
      ground (arith, from, fits, far, low_r) in
    let is : grown old new_len r ≡ record r { len = wrapping_add64 (old - r.start) new_len } =
      rw l refl in
    let (some_len', page', pages', low') = subst Sound is sound' in
    omega (arith, low', far, from, fits)

-- After such a growth, the addresses from the end of the user's on show the pages of the region.
grow_regions-far :
    (old old_len new_len a : ℕ) (rs : List MappedRegion) (r : MappedRegion)
    → AllSound rs
    → covering old old_len rs ≡ some r
    → old + new_len < 2 ^ 63
    → user_end ≤ a
    → a < old + new_len
    → view a (grow_regions old old_len new_len rs) ≡ some (info a r)
grow_regions-far old old_len new_len a [] r v c fits from to = absurd (none_some c)
  where
    none_some : {x : MappedRegion} → none ≡ some x → ⊥
    none_some e = cc
grow_regions-far old old_len new_len a (q ∷ qs) r ((some_len, page, pages, low), v) c fits from to =
    elim (Bool-cases (covers_old old old_len q)) [
      | inl h ↦
          let same : some q ≡ some r = subst (λ x. x ≡ some r) (rw h refl) c in
          let start : q.start ≤ old = ground (arith, h) in
          let l : ltb (end_of q) (wrapping_add64 q.start (wrapping_add64 (old - q.start) new_len))
              ≡ true =
            ground (arith, start, fits, from, to, low) in
          let is : grown old new_len q ≡ record q { len = wrapping_add64 (old - q.start) new_len } =
            rw l refl in
          let inside : contains a (record q { len = wrapping_add64 (old - q.start) new_len })
              ≡ true =
            ground (arith, start, fits, from, to, low) in
          rw h (
            view-in a (grown old new_len q) qs (subst (λ x. contains a x ≡ true) (sym is) inside)
            ∙ ap (λ x. some (info a x)) is
            ∙ ap (info_of a) same)
      | inr h ↦
          let rest : covering old old_len qs ≡ some r = subst (λ x. x ≡ some r) (rw h refl) c in
          let out : contains a q ≡ false = ground (arith, from, low) in
          rw h (
            view-out a q (grow_regions old old_len new_len qs) out
            ∙ grow_regions-far old old_len new_len a qs r v rest fits from to)
    ]

-- `sys_mremap` in a valid space, of some bytes at a page to a larger number of pages that ends behind the
-- user's addresses but below 2^63, when the test for growth in place says yes and a region holds the old
-- range: it answers with the old address all the same, and every address from the end of the user's to the
-- end of the new range then shows a page of that region; so the regions are not valid.
pub sys_mremap_far :
    (old old_size new_size flags new_address : ℕ) (space : AddressSpace) (r : MappedRegion)
    → ValidSpace space
    → old % 4096 ≡ 0
    → 0 < old_size
    → whole_pages old_size < whole_pages new_size
    → old + whole_pages new_size < 2 ^ 63
    → user_end < old + whole_pages new_size
    → can_grow_inplace old (whole_pages old_size) (whole_pages new_size) space.mmap_regions ≡ true
    → covering old (whole_pages old_size) space.mmap_regions ≡ some r
    → let (result, space') = sys_mremap old old_size new_size flags new_address space in
      (result ≡ pos old)
      × ((a : ℕ)
          → user_end ≤ a
          → a < old + whole_pages new_size
          → view a space'.mmap_regions ≡ some (info a r))
      × ¬ Valid space'.mmap_regions
unfolding grow
sys_mremap_far old old_size new_size flags new_address space r valid page some_old more fits far g
      c =
    let old_len = whole_pages old_size in
    let new_len = whole_pages new_size in
    let (sound, covers) = covering-facts old old_len space.mmap_regions r valid.0 c in
    subst
      (λ answer.
        (answer.0 ≡ pos old)
        × ((a : ℕ)
            → user_end ≤ a
            → a < old + new_len
            → view a answer.1.mmap_regions ≡ some (info a r))
        × ¬ Valid answer.1.mmap_regions)
      (sym (
        sys_mremap-grow old old_size new_size flags new_address space page some_old more
          (omega (arith, fits))))
      (rw (g, c, grow)
        (
          ground (arith, fits),
          (λ a from to.
              grow_regions-far old old_len new_len a space.mmap_regions r
                (Valid-sound space.mmap_regions valid.0) c fits from to),
          λ v.
              grown_far old old_len new_len r sound covers fits far
                (grow_regions-Sound old old_len new_len space.mmap_regions r c v),
        ))
