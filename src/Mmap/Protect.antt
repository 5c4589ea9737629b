-- ===== src/Mmap/Protect.antt =====
-- Changing the protection of a range of addresses: `sys_mprotect` of kernel/src/syscall/memory.rs.
use kontsnor_os.Prelude.{
  ℕ, ◌+◌, ◌-◌, ◌%◌, max, ◌≤◌, ◌<◌, ◌≡◌, refl, sym, ap, ◌∙◌, true, false, Bool-cases, inl, inr, List,
  [], ◌∷◌, none, some, ltb, leb, ◌||◌, if◌then◌else◌, arith,
}
use mathlib.Core.Path.{subst}
use kontsnor_os.Prelude.Word.{wrapping_add64}
use kontsnor_os.Mmap.{
  MappedRegion, user_end, end_of, left_part, right_part, middle_part, protect_regions, contains,
  region_at, is_covered,
}
use kontsnor_os.Mmap.Regions.{
  PageInfo, info, view, Sound, Valid, bind, view-out, Agree, Agree-view, flat, Acts, flat-view,
  flat-Valid,
}
use kontsnor_os.Mmap.Unmap.{in_range}

-- The page with another protection, if its address lies in the range.
abbrev pub reprotect : (s e new_prot a : ℕ) → PageInfo → PageInfo
reprotect s e new_prot a i = if in_range s e a then record i { prot = new_prot } else i

-- The parts that one region is cut into.
abbrev pub protect_part : (s e new_prot : ℕ) → MappedRegion → List MappedRegion
protect_part s e new_prot r =
    let middle = middle_part r s e new_prot in
    let right = if ltb e (end_of r) then right_part r e ∷ [] else [] in
    if leb (end_of r) s || leb e r.start
    then r ∷ []
    else if ltb r.start s
    then left_part r s ∷ middle ∷ right
    else middle ∷ right

module _ (s e new_prot : ℕ) (lt : s < e) (page_s : s % 4096 ≡ 0) (page_e : e % 4096 ≡ 0) where
  left-Agree :
      (r : MappedRegion) (a : ℕ)
      → r.start < s
      → contains a (left_part r s) ≡ true
      → info a (left_part r s) ≡ reprotect s e new_prot a (info a r)
  left-Agree r a x c = let out : in_range s e a ≡ false = ground (arith, c, x) in rw out refl

  middle-Agree :
      (r : MappedRegion) (a : ℕ)
      → contains a (middle_part r s e new_prot) ≡ true
      → r.start + r.len ≤ user_end
      → info a (middle_part r s e new_prot) ≡ reprotect s e new_prot a (info a r)
  middle-Agree r a c low =
      let inside : in_range s e a ≡ true = ground (arith, c, low) in
      let from : max r.start s ≤ a = ground (arith, c) in
      let same : wrapping_add64 (wrapping_add64 r.offset (max r.start s - r.start))
            (a - max r.start s)
          ≡ wrapping_add64 r.offset (a - r.start) =
        omega (arith, from) in
      rw inside (ap (λ o. record (info a r) { offset = o; prot = new_prot }) same)

  right-Agree :
      (r : MappedRegion) (a : ℕ)
      → r.start ≤ e
      → contains a (right_part r e) ≡ true
      → info a (right_part r e) ≡ reprotect s e new_prot a (info a r)
  right-Agree r a x c =
      let out : in_range s e a ≡ false = ground (arith, c) in
      let from : e ≤ a = ground (arith, c) in
      let same : wrapping_add64 (wrapping_add64 r.offset (e - r.start)) (a - e)
          ≡ wrapping_add64 r.offset (a - r.start) =
        omega (arith, from, x) in
      rw out (ap (λ o. record (info a r) { offset = o }) same)

  Parts : MappedRegion → List MappedRegion → Type 0
  Parts r qs =
      Valid qs
      × Agree (λ a. reprotect s e new_prot a (info a r)) qs
      × ((a : ℕ) → is_covered a qs ≡ contains a r)

  protect_part-Parts : (r : MappedRegion) → Sound r → Parts r (protect_part s e new_prot r)
  unfolding Parts region_at
  protect_part-Parts r (some_len, page, pages, low) =
      elim (Bool-cases (leb (end_of r) s || leb e r.start)) [
        | inl out ↦ rw out (
          ((some_len, page, pages, low), (λ a c. refl), tt),
          (
            (λ a c. let far : in_range s e a ≡ false = ground (arith, c, out, low) in rw far refl),
            tt,
          ),
          (λ a. ground (arith, low, out, lt)),
        )
        | inr out ↦
            let x : s < r.start + r.len = ground (arith, out, low) in
            let y : r.start < e = ground (arith, out, low) in
            let middle = middle_part r s e new_prot in
            let middle_sound : Sound middle = (
              omega (arith, x, y, lt, low, some_len),
              omega (arith, page, page_s),
              omega (arith, page, pages, page_s, page_e, x, y, lt, low),
              omega (arith, x, y, lt, low),
            ) in
            let right_sound : e < r.start + r.len → Sound (right_part r e) = λ z. (
              omega (arith, z, low),
              page_e,
              omega (arith, z, y, page, pages, page_e, low),
              omega (arith, z, low),
            ) in
            let left_sound : r.start < s → Sound (left_part r s) = λ z.
              (omega (arith, z), page, omega (arith, page, page_s, z), omega (arith, x, z, low)) in
            let right_alone : (a : ℕ)
                → contains a middle ≡ true
                → view a (right_part r e ∷ []) ≡ none =
              λ a c. view-out a (right_part r e) [] (ground (arith, c)) in
            let middle_agrees : (a : ℕ)
                → contains a middle ≡ true
                → info a middle ≡ reprotect s e new_prot a (info a r) =
              λ a c. middle-Agree r a c low in
            let right_agrees : (a : ℕ)
                → contains a (right_part r e) ≡ true
                → info a (right_part r e) ≡ reprotect s e new_prot a (info a r) =
              λ a c. right-Agree r a (omega (arith, y)) c in
            elim (Bool-cases (ltb r.start s)) [
              | inl l ↦
                  let z : r.start < s = ground (arith, l) in
                  let left_alone : (a : ℕ)
                      → contains a (left_part r s) ≡ true
                      → contains a middle ≡ false =
                    λ a c. ground (arith, c) in
                  elim (Bool-cases (ltb e (end_of r))) [
                    | inl g ↦
                        let w : e < r.start + r.len = ground (arith, g, low) in
                        rw (out, l, g)
                          (
                            (
                              left_sound z,
                              (λ a c.
                                  view-out a middle (right_part r e ∷ []) (left_alone a c)
                                  ∙ view-out a (right_part r e) [] (ground (arith, c, lt))),
                              (middle_sound, right_alone, (right_sound w, (λ a c. refl), tt)),
                            ),
                            ((λ a c. left-Agree r a z c), (middle_agrees, (right_agrees, tt))),
                            (λ a. ground (arith, z, w, low, lt)),
                          )
                    | inr g ↦
                        let w : r.start + r.len ≤ e = ground (arith, g, low) in
                        rw (out, l, g)
                          (
                            (
                              left_sound z,
                              (λ a c. view-out a middle [] (left_alone a c)),
                              (middle_sound, (λ a c. refl), tt),
                            ),
                            ((λ a c. left-Agree r a z c), (middle_agrees, tt)),
                            (λ a. ground (arith, x, z, w, low, lt)),
                          )
                  ]
              | inr l ↦
                  let z : s ≤ r.start = ground (arith, l) in
                  elim (Bool-cases (ltb e (end_of r))) [
                    | inl g ↦
                        let w : e < r.start + r.len = ground (arith, g, low) in
                        rw (out, l, g)
                          (
                            (middle_sound, right_alone, (right_sound w, (λ a c. refl), tt)),
                            (middle_agrees, (right_agrees, tt)),
                            (λ a. ground (arith, y, z, w, low, lt)),
                          )
                    | inr g ↦
                        let w : r.start + r.len ≤ e = ground (arith, g, low) in
                        rw (out, l, g)
                          (
                            (middle_sound, (λ a c. refl), tt),
                            (middle_agrees, tt),
                            (λ a. ground (arith, y, z, w, low, lt)),
                          )
                  ]
            ]
      ]

  protect_part-Acts : Acts (protect_part s e new_prot) (λ a i. some (reprotect s e new_prot a i))
  unfolding Parts
  protect_part-Acts r sound =
      let (valid, agree, cover) = protect_part-Parts r sound in
      (
        valid,
        λ a.
            Agree-view (λ b. reprotect s e new_prot b (info b r)) (protect_part s e new_prot r) a
              agree
            ∙ ap (λ b. if b then some (reprotect s e new_prot a (info a r)) else none) (cover a),
      )

  protect_regions-flat :
      (rs : List MappedRegion)
      → protect_regions s e new_prot rs ≡ flat (protect_part s e new_prot) rs
  unfolding protect_regions
  protect_regions-flat [] = refl
  protect_regions-flat (r ∷ rs) =
      let ih = protect_regions-flat rs in
      elim (Bool-cases (leb (end_of r) s || leb e r.start)) [
        | inl out ↦ rw out (ap (λ l. r ∷ l) ih)
        | inr out ↦ elim (Bool-cases (ltb r.start s)) [
          | inl l ↦ elim (Bool-cases (ltb e (end_of r))) [
            | inl g ↦
                rw (out, l, g)
                  (ap (λ x. left_part r s ∷ middle_part r s e new_prot ∷ right_part r e ∷ x) ih)
            | inr g ↦ rw (out, l, g) (ap (λ x. left_part r s ∷ middle_part r s e new_prot ∷ x) ih)
          ]
          | inr l ↦ elim (Bool-cases (ltb e (end_of r))) [
            | inl g ↦ rw (out, l, g) (ap (λ x. middle_part r s e new_prot ∷ right_part r e ∷ x) ih)
            | inr g ↦ rw (out, l, g) (ap (λ x. middle_part r s e new_prot ∷ x) ih)
          ]
        ]
      ]

  pub protect_regions-Valid :
      (rs : List MappedRegion) → Valid rs → Valid (protect_regions s e new_prot rs)
  protect_regions-Valid rs v = subst Valid (sym (protect_regions-flat rs)) (
      flat-Valid (protect_part s e new_prot) (λ a i. some (reprotect s e new_prot a i))
        protect_part-Acts rs v)

  pub protect_regions-view :
      (rs : List MappedRegion)
      → Valid rs
      → (a : ℕ)
      → view a (protect_regions s e new_prot rs)
        ≡ bind (view a rs) (λ i. some (reprotect s e new_prot a i))
  protect_regions-view rs v a =
      ap (view a) (protect_regions-flat rs)
      ∙ flat-view (protect_part s e new_prot) (λ b i. some (reprotect s e new_prot b i))
          protect_part-Acts rs v a
