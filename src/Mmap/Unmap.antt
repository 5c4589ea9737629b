-- ===== src/Mmap/Unmap.antt =====
-- Taking a range of addresses out of an address space: `unmap_range` of kernel/src/process/task.rs.
use kontsnor_os.Prelude.{
  ℕ, ◌+◌, ◌-◌, ◌%◌, max, ◌≤◌, ◌<◌, ◌≡◌, refl, sym, ap, ◌∙◌, Bool, true, false, Bool-cases, inl, inr,
  List, [], ◌∷◌, Option, none, some, ltb, leb, ◌&&◌, ◌||◌, not, if◌then◌else◌, arith,
}
use mathlib.Core.Path.{subst}
use kontsnor_os.Prelude.Word.{wrapping_add64}
use kontsnor_os.Mmap.{
  MappedRegion, end_of, left_part, right_part, unmap_regions, contains, region_at, is_covered,
}
use kontsnor_os.Mmap.Regions.{
  PageInfo, info, view, Sound, Valid, bind, view-in, view-out, Agree, Agree-view, flat, Acts,
  flat-view, flat-Valid,
}

abbrev pub in_range : (s e a : ℕ) → Bool
in_range s e a = leb s a && ltb a e

-- The parts of one region that are left.
abbrev pub unmap_part : (s e : ℕ) → MappedRegion → List MappedRegion
unmap_part s e r =
    if leb (end_of r) s || leb e r.start
    then r ∷ []
    else if leb s r.start && leb (end_of r) e
    then []
    else if ltb r.start s && ltb e (end_of r)
    then left_part r s ∷ right_part r e ∷ []
    else if ltb r.start s
    then left_part r s ∷ []
    else right_part r e ∷ []

-- What is mapped in the range goes.
abbrev pub unmapped : (s e a : ℕ) → PageInfo → Option PageInfo
unmapped s e a i = if in_range s e a then none else some i

right_info : (r : MappedRegion) (e a : ℕ) → r.start ≤ e → e ≤ a → info a (right_part r e) ≡ info a r
right_info r e a from to =
    let same : wrapping_add64 (wrapping_add64 r.offset (e - r.start)) (a - e)
        ≡ wrapping_add64 r.offset (a - r.start) =
      omega (arith, from, to) in
    ap (λ o. record (info a r) { offset = o }) same

module _ (s e : ℕ) (lt : s < e) (page_s : s % 4096 ≡ 0) (page_e : e % 4096 ≡ 0) where
  -- The parts are sound, do not meet, and say of the addresses outside the range what the region says.
  Parts : MappedRegion → List MappedRegion → Type 0
  Parts r qs =
      Valid qs
      × Agree (λ a. info a r) qs
      × ((a : ℕ) → is_covered a qs ≡ (contains a r && not (in_range s e a)))

  unmap_part-Parts : (r : MappedRegion) → Sound r → Parts r (unmap_part s e r)
  unfolding Parts region_at
  unmap_part-Parts r (some_len, page, pages, low) =
      let left_agrees : (a : ℕ)
          → contains a (left_part r s) ≡ true
          → info a (left_part r s) ≡ info a r =
        λ a c. refl in
      let right_agrees : r.start ≤ e
          → (a : ℕ) → contains a (right_part r e) ≡ true
          → info a (right_part r e) ≡ info a r =
        λ le a c. right_info r e a le (ground (arith, c)) in
      let left_sound : r.start < s → s ≤ r.start + r.len → Sound (left_part r s) =
        λ x y. (omega (arith, x), page, omega (arith, page, page_s, x), omega (arith, x, y, low)) in
      let right_sound : e < r.start + r.len → r.start ≤ e → Sound (right_part r e) = λ x y. (
        omega (arith, x, low),
        page_e,
        omega (arith, x, y, page, pages, page_e, low),
        omega (arith, x, low),
      ) in
      elim (Bool-cases (leb (end_of r) s || leb e r.start)) [
        | inl out ↦ rw out (
          ((some_len, page, pages, low), (λ a c. refl), tt),
          ((λ a c. refl), tt),
          (λ a. ground (arith, low, out, lt)),
        )
        | inr out ↦ elim (Bool-cases (leb s r.start && leb (end_of r) e)) [
          | inl all ↦ rw (out, all) (tt, tt, (λ a. ground (arith, all, low)))
          | inr all ↦ elim (Bool-cases (ltb r.start s && ltb e (end_of r))) [
            | inl mid ↦
                let x : r.start < s = ground (arith, mid) in
                let y : e < r.start + r.len = ground (arith, mid, low) in
                rw (out, all, mid)
                  (
                    (
                      left_sound x (omega (arith, y, lt)),
                      (λ a c. view-out a (right_part r e) [] (ground (arith, c, lt))),
                      (right_sound y (omega (arith, x, lt)), (λ a c. refl), tt),
                    ),
                    (left_agrees, (right_agrees (omega (arith, x, lt)), tt)),
                    (λ a. ground (arith, x, y, low, lt)),
                  )
            | inr mid ↦ elim (Bool-cases (ltb r.start s)) [
              | inl l ↦
                  let x : r.start < s = ground (arith, l) in
                  let y : s < r.start + r.len = ground (arith, out, low) in
                  let z : r.start + r.len ≤ e = ground (arith, l, mid, low) in
                  rw (out, all, mid, l)
                    (
                      (left_sound x (omega (arith, y)), (λ a c. refl), tt),
                      (left_agrees, tt),
                      (λ a. ground (arith, x, y, z, low)),
                    )
              | inr l ↦
                  let x : s ≤ r.start = ground (arith, l) in
                  let y : e < r.start + r.len = ground (arith, all, x, low) in
                  let z : r.start < e = ground (arith, out, low) in
                  rw (out, all, mid, l)
                    (
                      (right_sound y (omega (arith, z)), (λ a c. refl), tt),
                      (right_agrees (omega (arith, z)), tt),
                      (λ a. ground (arith, x, y, z, low)),
                    )
            ]
          ]
        ]
      ]

  unmap_part-Acts : Acts (unmap_part s e) (unmapped s e)
  unfolding Parts
  unmap_part-Acts r sound =
      let (valid, agree, cover) = unmap_part-Parts r sound in
      (
        valid,
        λ a.
            Agree-view (λ b. info b r) (unmap_part s e r) a agree
            ∙ ap (λ b. if b then some (info a r) else none) (cover a)
            ∙ and_not (contains a r) (in_range s e a) (info a r),
      )
    where
      and_not :
          (b c : Bool) (i : PageInfo)
          → (if b && not c then some i else none)
            ≡ (if b then (if c then none else some i) else none)
      and_not true true i = refl
      and_not true false i = refl
      and_not false c i = refl

  -- Regions with nothing mapped in the range stay as they are.
  unmap_regions-clear :
      (rs : List MappedRegion)
      → Valid rs
      → ((a : ℕ) → in_range s e a ≡ true → view a rs ≡ none)
      → unmap_regions s e rs ≡ rs
  unfolding unmap_regions
  unmap_regions-clear [] v clear = refl
  unmap_regions-clear (r ∷ rs) ((some_len, page, pages, low), alone, v) clear =
      elim (Bool-cases (leb (end_of r) s || leb e r.start)) [
        | inl out ↦ rw out (
            ap (λ l. r ∷ l)
              (unmap_regions-clear rs v (λ a i. elim (Bool-cases (contains a r)) [
                | inl c ↦ alone a c
                | inr c ↦ sym (view-out a r rs c) ∙ clear a i
              ])))
        | inr out ↦
            let a = max r.start s in
            let c : contains a r ≡ true = ground (arith, out, low, some_len, lt) in
            let i : in_range s e a ≡ true = ground (arith, out, low, lt) in
            absurd (none_some (sym (clear a i) ∙ view-in a r rs c))
      ]
    where
      none_some : {i : PageInfo} → none ≡ some i → ⊥
      none_some x = cc

  -- On valid regions, which meet no other, the loop loses nothing by ending early.
  pub unmap_regions-flat :
      (rs : List MappedRegion) → Valid rs → unmap_regions s e rs ≡ flat (unmap_part s e) rs
  unfolding unmap_regions
  unmap_regions-flat [] v = refl
  unmap_regions-flat (r ∷ rs) ((some_len, page, pages, low), alone, v) =
      let ih = unmap_regions-flat rs v in
      elim (Bool-cases (leb (end_of r) s || leb e r.start)) [
        | inl out ↦ rw out (ap (λ l. r ∷ l) ih)
        | inr out ↦ elim (Bool-cases (leb s r.start && leb (end_of r) e)) [
          | inl all ↦ rw (out, all) ih
          | inr all ↦ elim (Bool-cases (ltb r.start s && ltb e (end_of r))) [
            | inl mid ↦
                let clear : (a : ℕ) → in_range s e a ≡ true → view a rs ≡ none =
                  λ a i. alone a (ground (arith, mid, i)) in
                rw (out, all, mid)
                  (ap (λ l. left_part r s ∷ right_part r e ∷ l)
                    (sym (unmap_regions-clear rs v clear) ∙ ih))
            | inr mid ↦ elim (Bool-cases (ltb r.start s)) [
              | inl l ↦ rw (out, all, mid, l) (ap (λ x. left_part r s ∷ x) ih)
              | inr l ↦ rw (out, all, mid, l) (ap (λ x. right_part r e ∷ x) ih)
            ]
          ]
        ]
      ]

  pub unmap_regions-Valid : (rs : List MappedRegion) → Valid rs → Valid (unmap_regions s e rs)
  unmap_regions-Valid rs v =
      subst Valid (sym (unmap_regions-flat rs v))
        (flat-Valid (unmap_part s e) (unmapped s e) unmap_part-Acts rs v)

  pub unmap_regions-view :
      (rs : List MappedRegion)
      → Valid rs
      → (a : ℕ) → view a (unmap_regions s e rs) ≡ (if in_range s e a then none else view a rs)
  unmap_regions-view rs v a =
      ap (view a) (unmap_regions-flat rs v)
      ∙ flat-view (unmap_part s e) (unmapped s e) unmap_part-Acts rs v a
      ∙ by_range (in_range s e a) (view a rs)
    where
      by_range :
          (b : Bool) (x : Option PageInfo)
          → bind x (λ i. if b then none else some i) ≡ (if b then none else x)
      by_range true none = refl
      by_range true (some i) = refl
      by_range false none = refl
      by_range false (some i) = refl
