-- ===== src/Mmap/Place/Free.antt =====
-- The search for a free range takes the first: `sys_mmap` of kernel/src/syscall/memory.rs.
use kontsnor_os.Prelude.{
  ℕ, ◌+◌, ◌-◌, ◌^◌, min, max, ◌≤◌, ◌<◌, ◌≡◌, refl, ◌∙◌, true, false, Bool-cases, inl, inr, List, [],
  ◌∷◌, none, ltb, if◌then◌else◌, length, arith,
}
use mathlib.Core.Path.{subst}
use kontsnor_os.Mmap.{MappedRegion, user_end, contains, region_at}
use kontsnor_os.Mmap.Regions.{view, Sound, Valid, view-out}
use kontsnor_os.Mmap.Unmap.{in_range}
use kontsnor_os.Mmap.Place.{overlaps, any_overlap, last_overlap}

-- Every region is sound.
abbrev pub AllSound : List MappedRegion → Type 0
AllSound [] = Unit
AllSound (r ∷ rs) = Sound r × AllSound rs

pub Valid-sound : (rs : List MappedRegion) → Valid rs → AllSound rs
Valid-sound [] v = tt
Valid-sound (r ∷ rs) (sound, alone, v) = (sound, Valid-sound rs v)

-- Where no region is in the way, nothing is mapped.
pub any_overlap-view :
    (s e : ℕ) (rs : List MappedRegion)
    → AllSound rs
    → any_overlap s e rs ≡ false
    → (a : ℕ) → in_range s e a ≡ true
    → view a rs ≡ none
unfolding region_at
any_overlap-view s e [] v h a i = refl
any_overlap-view s e (r ∷ rs) ((some_len, page, pages, low), v) h a i =
    let out : contains a r ≡ false = ground (arith, h, i, low) in
    let rest : any_overlap s e rs ≡ false = ground (arith, h) in
    view-out a r rs out ∙ any_overlap-view s e rs v rest a i

-- A page address below the largest end of what is in the way of a later range is in the way itself.
pub last_overlap-below :
    (c n b : ℕ) (rs : List MappedRegion)
    → AllSound rs
    → c ≤ b
    → b < last_overlap c (c + n) rs
    → any_overlap b (b + n) rs ≡ true
unfolding last_overlap
last_overlap-below c n b [] v from to = absurd (omega (arith, to))
last_overlap-below c n b (r ∷ rs) (sound, v) from to = elim (Bool-cases (overlaps c (c + n) r)) [
  | inl o ↦ elim (Bool-cases (overlaps b (b + n) r)) [
    | inl p ↦ rw p refl
    | inr p ↦
        let way : max (min (r.start + r.len) (2 ^ 64 - 1)) (last_overlap c (c + n) rs)
            ≡ last_overlap c (c + n) (r ∷ rs) =
          rw o refl in
        let rest : any_overlap b (b + n) rs ≡ true =
          last_overlap-below c n b rs v from (ground (arith, way, o, p, from, to)) in
        rw (p, rest) refl
  ]
  | inr o ↦
      let way : last_overlap c (c + n) rs ≡ last_overlap c (c + n) (r ∷ rs) = rw o refl in
      let rest : any_overlap b (b + n) rs ≡ true =
        last_overlap-below c n b rs v from (omega (arith, way, to)) in
      rw rest (ground arith)
]

-- With 0 for the largest end, none is in the way.
pub last_overlap-none :
    (c e : ℕ) (rs : List MappedRegion)
    → AllSound rs
    → last_overlap c e rs ≡ 0
    → any_overlap c e rs ≡ false
unfolding last_overlap
last_overlap-none c e [] v z = refl
last_overlap-none c e (r ∷ rs) ((some_len, page, pages, low), v) z =
    elim (Bool-cases (overlaps c e r)) [
      | inl o ↦
          let way : max (min (r.start + r.len) (2 ^ 64 - 1)) (last_overlap c e rs)
              ≡ last_overlap c e (r ∷ rs) =
            rw o refl in
          absurd (omega (arith, way, z, some_len, low))
      | inr o ↦
          let way : last_overlap c e rs ≡ last_overlap c e (r ∷ rs) = rw o refl in
          rw o (last_overlap-none c e rs v (way ∙ z))
    ]

pub last_overlap-low :
    (c e : ℕ) (rs : List MappedRegion) → AllSound rs → last_overlap c e rs ≤ user_end
unfolding last_overlap
last_overlap-low c e [] v = omega arith
last_overlap-low c e (r ∷ rs) ((some_len, page, pages, low), v) =
    let ih = last_overlap-low c e rs v in
    elim (Bool-cases (overlaps c e r)) [
      | inl o ↦
          let way : max (min (r.start + r.len) (2 ^ 64 - 1)) (last_overlap c e rs)
              ≡ last_overlap c e (r ∷ rs) =
            rw o refl in
          omega (arith, way, ih, low)
      | inr o ↦
          let way : last_overlap c e rs ≡ last_overlap c e (r ∷ rs) = rw o refl in
          omega (arith, way, ih)
    ]

-- The number of regions that end behind an address.
abbrev pub ahead : ℕ → List MappedRegion → ℕ
ahead c [] = 0
ahead c (r ∷ rs) = (if ltb c (r.start + r.len) then 1 else 0) + ahead c rs

pub ahead_mono : (c d : ℕ) (rs : List MappedRegion) → c ≤ d → ahead d rs ≤ ahead c rs
ahead_mono c d [] le = omega arith
ahead_mono c d (r ∷ rs) le = let ih = ahead_mono c d rs le in ground (arith, ih, le)

pub ahead-length : (c : ℕ) (rs : List MappedRegion) → ahead c rs ≤ length rs
ahead-length c [] = omega arith
ahead-length c (r ∷ rs) = let ih = ahead-length c rs in ground (arith, ih)

-- A region in the way is behind the next candidate for good.
pub ahead-passed :
    (c e d : ℕ) (rs : List MappedRegion)
    → AllSound rs
    → c ≤ d
    → last_overlap c e rs ≤ d
    → 0 < last_overlap c e rs
    → ahead d rs < ahead c rs
unfolding last_overlap
ahead-passed c e d [] v le to some_way = absurd (omega (arith, some_way))
ahead-passed c e d (r ∷ rs) ((some_len, page, pages, low), v) le to some_way =
    let mono = ahead_mono c d rs le in
    elim (Bool-cases (overlaps c e r)) [
      | inl o ↦
          let way : max (min (r.start + r.len) (2 ^ 64 - 1)) (last_overlap c e rs)
              ≡ last_overlap c e (r ∷ rs) =
            rw o refl in
          ground (arith, way, to, mono, o, low)
      | inr o ↦
          let way : last_overlap c e rs ≡ last_overlap c e (r ∷ rs) = rw o refl in
          let ih =
            ahead-passed c e d rs v le (omega (arith, way, to)) (omega (arith, way, some_way)) in
          ground (arith, ih, le)
    ]

pub last_overlap-above :
    (c e : ℕ) (rs : List MappedRegion) → 0 < last_overlap c e rs → c < last_overlap c e rs
unfolding last_overlap
last_overlap-above c e [] some_way = absurd (omega (arith, some_way))
last_overlap-above c e (r ∷ rs) some_way = elim (Bool-cases (overlaps c e r)) [
  | inl o ↦ rw o (ground (arith, o))
  | inr o ↦
      let way : last_overlap c e rs ≡ last_overlap c e (r ∷ rs) = rw o refl in
      subst (λ x. c < x) way (last_overlap-above c e rs (omega (arith, way, some_way)))
]
