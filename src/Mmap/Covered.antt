-- ===== src/Mmap/Covered.antt =====
-- The check of `mprotect` that a range has no gap (kernel/src/syscall/memory.rs).
use kontsnor_os.Prelude.{
  ℕ, zero, suc, ◌+◌, ◌*◌, ◌%◌, ◌≤◌, ◌<◌, ◌≡◌, refl, sym, ◌∙◌, true, false, Bool-cases, inl, inr,
  List, [], ◌∷◌, none, some, ltb, arith,
}
use kontsnor_os.Mmap.{MappedRegion, contains, region_at, is_covered, all_covered}
use kontsnor_os.Mmap.Regions.{PageInfo, view, view-in, view-out}
use kontsnor_os.Mmap.Unmap.{in_range}
use kontsnor_os.Mmap.Place.Free.{AllSound}

is_covered-view : (a : ℕ) (rs : List MappedRegion) → is_covered a rs ≡ true → ¬ view a rs ≡ none
is_covered-view a [] c e = cc
is_covered-view a (r ∷ rs) c e = elim (Bool-cases (contains a r)) [
  | inl h ↦ none_some (sym e ∙ view-in a r rs h)
  | inr h ↦ is_covered-view a rs (ground (arith, c, h)) (sym (view-out a r rs h) ∙ e)
]
  where
    none_some : {i : PageInfo} → none ≡ some i → ⊥
    none_some x = cc

uncovered-view : (a : ℕ) (rs : List MappedRegion) → is_covered a rs ≡ false → view a rs ≡ none
unfolding region_at
uncovered-view a [] c = refl
uncovered-view a (r ∷ rs) c =
    view-out a r rs (ground (arith, c)) ∙ uncovered-view a rs (ground (arith, c))

-- Regions hold whole pages.
is_covered-page :
    (p a : ℕ) (rs : List MappedRegion)
    → AllSound rs
    → p % 4096 ≡ 0
    → p ≤ a
    → a < p + 4096
    → is_covered p rs ≡ true
    → is_covered a rs ≡ true
is_covered-page p a [] v page from to c = c
is_covered-page p a (r ∷ rs) ((some_len, page_r, pages, low), v) page from to c =
    elim (Bool-cases (contains p r)) [
      | inl h ↦
          let below : p < r.start + r.len = ground (arith, h, low) in
          let inside : a < r.start + r.len = omega (arith, below, page, page_r, pages, to) in
          ground (arith, h, inside, low, from)
      | inr h ↦
          let rest = is_covered-page p a rs v page from to (ground (arith, c, h)) in
          ground (arith, rest)
    ]

pub all_covered-true :
    (n p : ℕ) (rs : List MappedRegion)
    → AllSound rs
    → p % 4096 ≡ 0
    → all_covered n p rs ≡ true
    → (a : ℕ) → in_range p (p + n * 4096) a ≡ true
    → ¬ view a rs ≡ none
unfolding all_covered
all_covered-true zero p rs v page c a i = absurd (ground (arith, i))
all_covered-true (suc n) p rs v page c a i = elim (Bool-cases (ltb a (p + 4096))) [
  | inl l ↦
      is_covered-view a rs
        (is_covered-page p a rs v page (ground (arith, i)) (ground (arith, l)) (ground (arith, c)))
  | inr l ↦
      all_covered-true n (p + 4096) rs v (omega (arith, page)) (ground (arith, c)) a
        (ground (arith, i, l))
]

pub all_covered-false :
    (n p : ℕ) (rs : List MappedRegion)
    → all_covered n p rs ≡ false
    → (a : ℕ) × (in_range p (p + n * 4096) a ≡ true) × (view a rs ≡ none)
unfolding all_covered
all_covered-false zero p rs c = absurd (true_false c)
  where
    true_false : true ≡ false → ⊥
    true_false e = cc
all_covered-false (suc n) p rs c = elim (Bool-cases (is_covered p rs)) [
  | inr h ↦ (p, ground arith, uncovered-view p rs h)
  | inl h ↦
      let (a, i, gap) = all_covered-false n (p + 4096) rs (ground (arith, c, h)) in
      (a, ground (arith, i), gap)
]
