-- ===== src/Mmap/Remap/Grow.antt =====
-- Growing a mapping in place: `sys_mremap` of kernel/src/syscall/memory.rs.
use kontsnor_os.Prelude.{
  ℕ, ◌+◌, ◌-◌, ◌%◌, ◌≤◌, ◌<◌, ◌≡◌, refl, sym, ap, ◌∙◌, Bool, true, false, Bool-cases, inl, inr,
  List, [], ◌∷◌, none, some, ltb, leb, ◌||◌, if◌then◌else◌, arith,
}
use mathlib.Core.Path.{subst}
use kontsnor_os.Prelude.Word.{wrapping_add64}
use kontsnor_os.Mmap.{MappedRegion, user_end, end_of, contains, region_at}
use kontsnor_os.Mmap.Regions.{PageInfo, info_of, view, info, Sound, Valid, view-in, view-out}
use kontsnor_os.Mmap.Unmap.{in_range}
use kontsnor_os.Mmap.Place.Free.{AllSound, Valid-sound}
use kontsnor_os.Mmap.Remap.{covers_old, can_grow_inplace, covering, grown, grow_regions}

module _ (old old_len new_len : ℕ) (some_old : 0 < old_len) (more : old_len < new_len)
    (page : old % 4096 ≡ 0) (pages : new_len % 4096 ≡ 0) (low : old + new_len ≤ user_end) where
  -- The test for a region that grows, without wrapping
  pub covers-bounds :
      (r : MappedRegion)
      → Sound r
      → covers_old old old_len r ≡ true
      → (r.start ≤ old) × (old + old_len ≤ r.start + r.len)
  covers-bounds r (some_len, page_r, pages_r, low_r) c =
      (ground (arith, c), ground (arith, c, low, low_r, more))

  -- The growth is free of the regions that do not hold the old range.
  can_grow-view :
      (rs : List MappedRegion)
      → AllSound rs
      → can_grow_inplace old old_len new_len rs ≡ true
      → covering old old_len rs ≡ none
      → (a : ℕ) → in_range (old + old_len) (old + new_len) a ≡ true
      → view a rs ≡ none
  unfolding region_at
  can_grow-view [] v g c a i = refl
  can_grow-view (r ∷ rs) ((some_len, page_r, pages_r, low_r), v) g c a i =
      elim (Bool-cases (covers_old old old_len r)) [
        | inl h ↦
            let found : covering old old_len (r ∷ rs) ≡ some r = rw h refl in
            absurd (none_some (sym c ∙ found))
        | inr h ↦
            let rest : covering old old_len (r ∷ rs) ≡ covering old old_len rs = rw h refl in
            let out : contains a r ≡ false = ground (arith, g, h, i, low, low_r, more) in
            view-out a r rs out ∙ can_grow-view rs v (ground (arith, g)) (sym rest ∙ c) a i
      ]
    where
      none_some : {x : MappedRegion} → none ≡ some x → ⊥
      none_some e = cc

  covering-none :
      (rs : List MappedRegion) → AllSound rs → view old rs ≡ none → covering old old_len rs ≡ none
  covering-none [] v e = refl
  covering-none (r ∷ rs) (sound, v) e = elim (Bool-cases (covers_old old old_len r)) [
    | inl h ↦
        let (from, to) = covers-bounds r sound h in
        let inside : contains old r ≡ true = ground (arith, from, to, some_old, sound.3) in
        absurd (none_some (sym e ∙ view-in old r rs inside))
    | inr h ↦ rw h (elim (Bool-cases (contains old r)) [
      | inl c ↦ absurd (none_some (sym e ∙ view-in old r rs c))
      | inr c ↦ covering-none rs v (sym (view-out old r rs c) ∙ e)
    ])
  ]
    where
      none_some : {x : PageInfo} → none ≡ some x → ⊥
      none_some e = cc

  -- A region after the growth: sound, with the same pages, and those of the growth.
  abbrev pub IsGrown : MappedRegion → MappedRegion → Type 0
  IsGrown r r' =
      Sound r'
      × ((a : ℕ) → contains a r' ≡ (contains a r || in_range old (old + new_len) a))
      × ((a : ℕ) → info a r' ≡ info a r)

  pub grown-IsGrown :
      (r : MappedRegion)
      → Sound r
      → covers_old old old_len r ≡ true
      → IsGrown r (grown old new_len r)
  grown-IsGrown r (some_len, page_r, pages_r, low_r) c =
      let (from, to) = covers-bounds r (some_len, page_r, pages_r, low_r) c in
      let len' : wrapping_add64 (old - r.start) new_len ≡ old + new_len - r.start =
        omega (arith, from, low) in
      elim (Bool-cases
        (ltb (end_of r) (wrapping_add64 r.start (wrapping_add64 (old - r.start) new_len)))) [
          | inl l ↦ rw l (
            (
              omega (arith, len', from, more),
              page_r,
              omega (arith, len', from, page, pages, page_r),
              omega (arith, len', from, low),
            ),
            (λ a. ground (arith, len', l, from, to, low, low_r)),
            (λ a. refl),
          )
          | inr l ↦ rw l (
            (some_len, page_r, pages_r, low_r),
            (λ a. ground (arith, len', l, from, to, low, low_r)),
            (λ a. refl),
          )
        ]

  -- The old range lies in the region found.
  pub covering-view :
      (rs : List MappedRegion) (r : MappedRegion)
      → Valid rs
      → covering old old_len rs ≡ some r
      → (a : ℕ) → in_range old (old + old_len) a ≡ true
      → view a rs ≡ some (info a r)
  covering-view [] r v c a i = absurd (none_some c)
    where
      none_some : {x : MappedRegion} → none ≡ some x → ⊥
      none_some e = cc
  covering-view (q ∷ qs) r (sound, alone, v) c a i = elim (Bool-cases (covers_old old old_len q)) [
    | inl h ↦
        let is : some q ≡ some r = subst (λ x. x ≡ some r) (rw h refl) c in
        let (from, to) = covers-bounds q sound h in
        view-in a q qs (ground (arith, from, to, i, sound.3)) ∙ ap (info_of a) is
    | inr h ↦
        let rest : covering old old_len qs ≡ some r = subst (λ x. x ≡ some r) (rw h refl) c in
        let later = covering-view qs r v rest a i in
        elim (Bool-cases (contains a q)) [
          | inl w ↦ absurd (none_some (sym (alone a w) ∙ later))
          | inr w ↦ view-out a q qs w ∙ later
        ]
  ]
    where
      none_some : {x : PageInfo} → none ≡ some x → ⊥
      none_some e = cc

  -- What the growth makes of a list of regions: the range of the growth is mapped as the old one, and
  -- elsewhere nothing changes.
  abbrev pub Grows : MappedRegion → (rs rs' : List MappedRegion) → Type 0
  Grows r rs rs' =
      Valid rs'
      × ((a : ℕ)
          → view a rs' ≡ (if in_range old (old + new_len) a then some (info a r) else view a rs))

  grow_here :
      (q : MappedRegion) (qs : List MappedRegion)
      → Valid (q ∷ qs)
      → can_grow_inplace old old_len new_len qs ≡ true
      → covers_old old old_len q ≡ true
      → Grows q (q ∷ qs) (grown old new_len q ∷ qs)
  grow_here q qs (sound, alone, v) g h =
      let q' = grown old new_len q in
      let (from, to) = covers-bounds q sound h in
      let (sound', inside, same) = grown-IsGrown q sound h in
      let no_other : covering old old_len qs ≡ none =
        covering-none qs (Valid-sound qs v)
          (alone old (ground (arith, from, to, some_old, sound.3))) in
      let within : (a : ℕ) → contains a q' ≡ true → view a qs ≡ none = λ a c.
        elim (Bool-cases (contains a q)) [
          | inl w ↦ alone a w
          | inr w ↦
              let i : in_range (old + old_len) (old + new_len) a ≡ true =
                grown_only a (contains a q') (contains a q) (inside a) c w
                  (λ j. ground (arith, w, from, to, sound.3)) in
              can_grow-view qs (Valid-sound qs v) g no_other a i
        ] in
      (
        (sound', within, v),
        λ a. elim (Bool-cases (in_range old (old + new_len) a)) [
          | inl i ↦
              let c : contains a q' ≡ true = inside a ∙ (rw i (or_true (contains a q))) in
              rw i (view-in a q' qs c ∙ ap some (same a))
          | inr i ↦
              let c : contains a q' ≡ contains a q = inside a ∙ (rw i (or_false (contains a q))) in
              rw i (elim (Bool-cases (contains a q)) [
                | inl w ↦ view-in a q' qs (c ∙ w) ∙ ap some (same a) ∙ sym (view-in a q qs w)
                | inr w ↦ view-out a q' qs (c ∙ w) ∙ sym (view-out a q qs w)
              ])
        ],
      )
    where
      or_true : (b : Bool) → (b || true) ≡ true
      or_true true = refl
      or_true false = refl

      or_false : (b : Bool) → (b || false) ≡ b
      or_false true = refl
      or_false false = refl

      grown_only :
          (a : ℕ) (c b : Bool)
          → c ≡ (b || in_range old (old + new_len) a)
          → c ≡ true
          → b ≡ false
          → (in_range old (old + new_len) a ≡ true → leb (old + old_len) a ≡ true)
          → in_range (old + old_len) (old + new_len) a ≡ true
      grown_only a c b e ct bf f =
          let i : in_range old (old + new_len) a ≡ true =
            sym (ap (λ x. x || in_range old (old + new_len) a) bf) ∙ sym e ∙ ct in
          let j = f i in ground (arith, i, j)

  pub grow_regions-Grows :
      (rs : List MappedRegion) (r : MappedRegion)
      → Valid rs
      → can_grow_inplace old old_len new_len rs ≡ true
      → covering old old_len rs ≡ some r
      → Grows r rs (grow_regions old old_len new_len rs)
  grow_regions-Grows [] r v g c = absurd (none_some c)
    where
      none_some : {x : MappedRegion} → none ≡ some x → ⊥
      none_some e = cc
  grow_regions-Grows (q ∷ qs) r (sound, alone, v) g c =
      elim (Bool-cases (covers_old old old_len q)) [
        | inl h ↦
            let is : some q ≡ some r = subst (λ x. x ≡ some r) (rw h refl) c in
            let here = grow_here q qs (sound, alone, v) (ground (arith, g)) h in
            rw h (
              here.0,
              λ a.
                  here.1 a
                  ∙ ap (λ x. if in_range old (old + new_len) a then x else view a (q ∷ qs))
                      (ap (info_of a) is),
            )
        | inr h ↦
            let rest : covering old old_len qs ≡ some r = subst (λ x. x ≡ some r) (rw h refl) c in
            let (valid, ih) = grow_regions-Grows qs r v (ground (arith, g)) rest in
            let apart : (a : ℕ) → in_range old (old + new_len) a ≡ true → contains a q ≡ false =
              λ a i. elim (Bool-cases (ltb a (old + old_len))) [
                | inr l ↦ ground (arith, g, h, i, l, low, sound.3, more)
                | inl l ↦ elim (Bool-cases (contains a q)) [
                  | inr w ↦ w
                  | inl w ↦ absurd (
                      none_some
                        (sym (alone a w) ∙ covering-view qs r v rest a (ground (arith, i, l))))
                ]
              ] in
            rw h (
              (
                sound,
                (λ a w. ih a ∙ elim (Bool-cases (in_range old (old + new_len) a)) [
                  | inl i ↦ absurd (true_false (sym w ∙ apart a i))
                  | inr i ↦ rw i (alone a w)
                ]),
                valid,
              ),
              λ a. elim (Bool-cases (contains a q)) [
                | inl w ↦ elim (Bool-cases (in_range old (old + new_len) a)) [
                  | inl i ↦ absurd (true_false (sym w ∙ apart a i))
                  | inr i ↦
                      rw i (
                        view-in a q (grow_regions old old_len new_len qs) w
                        ∙ sym (view-in a q qs w))
                ]
                | inr w ↦
                    view-out a q (grow_regions old old_len new_len qs) w
                    ∙ ih a
                    ∙ ap (λ x. if in_range old (old + new_len) a then some (info a r) else x)
                        (sym (view-out a q qs w))
              ],
            )
      ]
    where
      none_some : {x : PageInfo} → none ≡ some x → ⊥
      none_some e = cc

      true_false : true ≡ false → ⊥
      true_false e = cc
