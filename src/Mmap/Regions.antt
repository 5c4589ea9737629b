-- ===== src/Mmap/Regions.antt =====
-- What a list of mapped regions says of each address (kernel/src/process/task.rs), and lists in which
-- no two regions share an address.
use kontsnor_os.Prelude.{
  ℕ, ◌+◌, ◌-◌, ◌%◌, ◌≤◌, ◌<◌, ◌≡◌, refl, sym, ap, ◌∙◌, Bool, true, false, Bool-cases, inl, inr,
  List, [], ◌∷◌, ◌++◌, Option, none, some, if◌then◌else◌,
}
use kontsnor_os.Prelude.Word.{wrapping_add64}
use kontsnor_os.Mmap.{
  MappedRegion, AddressSpace, user_end, contains, region_at, is_covered, add_region,
}

-- What is mapped at one address.
pub record PageInfo : Type 0 where
  pub inode : Option ℕ
  pub offset : ℕ
  pub is_shared : Bool
  pub prot : ℕ
  pub pathname : Option (List ℕ)
  pub is_stack : Bool

abbrev pub info : (a : ℕ) → MappedRegion → PageInfo
info a r = record {
  inode = r.inode;
  offset = wrapping_add64 r.offset (a - r.start);
  is_shared = r.is_shared;
  prot = r.prot;
  pathname = r.pathname;
  is_stack = r.is_stack;
}

abbrev pub info_of : (a : ℕ) → Option MappedRegion → Option PageInfo
info_of a none = none
info_of a (some r) = some (info a r)

-- The view of an address: what the first region that holds it says.
abbrev pub view : (a : ℕ) → List MappedRegion → Option PageInfo
view a rs = info_of a (region_at a rs)

-- Whole pages of a user's addresses, one at least.
abbrev pub Sound : MappedRegion → Type 0
Sound r = (0 < r.len) × (r.start % 4096 ≡ 0) × (r.len % 4096 ≡ 0) × (r.start + r.len ≤ user_end)

-- Sound regions of which no two hold the same address.
abbrev pub Valid : List MappedRegion → Type 0
Valid [] = Unit
Valid (r ∷ rs) = Sound r × ((a : ℕ) → contains a r ≡ true → view a rs ≡ none) × Valid rs

-- A valid address space: its break is an address of a user, and the search begins with a page.
abbrev pub ValidSpace : AddressSpace → Type 0
ValidSpace space = Valid space.mmap_regions × (space.mmap_bump % 4096 ≡ 0) × (space.brk ≤ user_end)

abbrev pub or_else : {A : Type 0} → Option A → Option A → Option A
or_else none y = y
or_else (some x) y = some x

or_else-none : (x : Option PageInfo) → or_else x none ≡ x
or_else-none none = refl
or_else-none (some x) = refl

abbrev pub bind : {A B : Type 0} → Option A → (A → Option B) → Option B
bind none f = none
bind (some x) f = f x

pub view-in :
    (a : ℕ) (r : MappedRegion) (rs : List MappedRegion)
    → contains a r ≡ true
    → view a (r ∷ rs) ≡ some (info a r)
unfolding region_at
view-in a r rs e = rw e refl

pub view-out :
    (a : ℕ) (r : MappedRegion) (rs : List MappedRegion)
    → contains a r ≡ false
    → view a (r ∷ rs) ≡ view a rs
unfolding region_at
view-out a r rs e = rw e refl

pub view-append :
    (a : ℕ) (xs ys : List MappedRegion) → view a (xs ++ ys) ≡ or_else (view a xs) (view a ys)
unfolding region_at
view-append a [] ys = refl
view-append a (x ∷ xs) ys = elim (Bool-cases (contains a x)) [
  | inl e ↦ rw e refl
  | inr e ↦ rw e (view-append a xs ys)
]

-- The regions say `f` of the addresses that they hold.
abbrev pub Agree : (f : ℕ → PageInfo) → List MappedRegion → Type 0
Agree f [] = Unit
Agree f (q ∷ qs) = ((a : ℕ) → contains a q ≡ true → info a q ≡ f a) × Agree f qs

pub Agree-view :
    (f : ℕ → PageInfo) (qs : List MappedRegion) (a : ℕ)
    → Agree f qs
    → view a qs ≡ (if is_covered a qs then some (f a) else none)
unfolding region_at
Agree-view f [] a h = refl
Agree-view f (q ∷ qs) a (one, rest) = elim (Bool-cases (contains a q)) [
  | inl c ↦ rw c (ap some (one a c))
  | inr c ↦ rw c (Agree-view f qs a rest)
]

-- Two valid lists that hold no address in common
pub Valid-append :
    (xs ys : List MappedRegion)
    → Valid xs
    → Valid ys
    → ((a : ℕ) (i : PageInfo) → view a xs ≡ some i → view a ys ≡ none)
    → Valid (xs ++ ys)
Valid-append [] ys vx vy apart = vy
Valid-append (x ∷ xs) ys (sound, alone, vx) vy apart = (
  sound,
  (λ a c.
      view-append a xs ys
      ∙ ap (λ v. or_else v (view a ys)) (alone a c)
      ∙ apart a (info a x) (view-in a x xs c)),
  Valid-append xs ys vx vy (λ a i v. elim (Bool-cases (contains a x)) [
    | inl e ↦ apart a (info a x) (view-in a x xs e)
    | inr e ↦ apart a i (view-out a x xs e ∙ v)
  ]),
)

-- A sound region added where nothing is mapped
pub add_region-ValidSpace :
    (m : MappedRegion) (space : AddressSpace)
    → Sound m
    → ValidSpace space
    → ((a : ℕ) → contains a m ≡ true → view a space.mmap_regions ≡ none)
    → ValidSpace (add_region m space)
      × ((a : ℕ)
          → view a (space.mmap_regions ++ (m ∷ []))
            ≡ (if contains a m then some (info a m) else view a space.mmap_regions))
unfolding region_at
add_region-ValidSpace m space sound (valid, page, low) free = (
  (
    Valid-append space.mmap_regions (m ∷ []) valid (sound, (λ a c. refl), tt)
        (λ a i v. elim (Bool-cases (contains a m)) [
          | inl c ↦ absurd (none_some (sym (free a c) ∙ v))
          | inr c ↦ view-out a m [] c
        ]),
    page,
    low,
  ),
  λ a. view-append a space.mmap_regions (m ∷ []) ∙ elim (Bool-cases (contains a m)) [
    | inl c ↦ ap (λ v. or_else v (view a (m ∷ []))) (free a c) ∙ view-in a m [] c ∙ (rw c refl)
    | inr c ↦
        ap (or_else (view a space.mmap_regions)) (view-out a m [] c)
        ∙ or_else-none (view a space.mmap_regions)
        ∙ (rw c refl)
  ],
)
  where
    none_some : {i : PageInfo} → none ≡ some i → ⊥
    none_some e = cc

-- The last of valid regions holds no address of those before it.
pub Valid-last :
    (xs : List MappedRegion) (m : MappedRegion)
    → Valid (xs ++ (m ∷ []))
    → (a : ℕ) → contains a m ≡ true
    → view a xs ≡ none
unfolding region_at
Valid-last [] m v a c = refl
Valid-last (x ∷ xs) m (sound, alone, v) a c = elim (Bool-cases (contains a x)) [
  | inr h ↦ view-out a x xs h ∙ Valid-last xs m v a c
  | inl h ↦
      let empty : or_else (view a xs) (view a (m ∷ [])) ≡ none =
        sym (view-append a xs (m ∷ [])) ∙ alone a h in
      absurd (
        none_some (
          sym empty
          ∙ ap (λ x. or_else x (view a (m ∷ []))) (Valid-last xs m v a c)
          ∙ view-in a m [] c))
]
  where
    none_some : {i : PageInfo} → none ≡ some i → ⊥
    none_some e = cc

-- An operation that puts for each region the regions that are left of it.
abbrev pub flat : (MappedRegion → List MappedRegion) → List MappedRegion → List MappedRegion
flat p [] = []
flat p (r ∷ rs) = p r ++ flat p rs

-- What such an operation needs to do to one region, to change the view by `t`.
abbrev pub Acts : (MappedRegion → List MappedRegion) → (ℕ → PageInfo → Option PageInfo) → Type 0
Acts p t =
    (r : MappedRegion)
    → Sound r
    → Valid (p r) × ((a : ℕ) → view a (p r) ≡ (if contains a r then t a (info a r) else none))

module _ (p : MappedRegion → List MappedRegion) (t : ℕ → PageInfo → Option PageInfo)
    (acts : Acts p t) where
  pub flat-view :
      (rs : List MappedRegion) → Valid rs → (a : ℕ) → view a (flat p rs) ≡ bind (view a rs) (t a)
  unfolding region_at
  flat-view [] v a = refl
  flat-view (r ∷ rs) (sound, alone, v) a =
      let whole = view-append a (p r) (flat p rs) in
      let one = (acts r sound).1 a in
      let rest = flat-view rs v a in
      elim (Bool-cases (contains a r)) [
        | inr e ↦
            let gone : view a (p r) ≡ none = one ∙ (rw e refl) in
            whole
            ∙ ap (λ x. or_else x (view a (flat p rs))) gone
            ∙ rest
            ∙ ap (λ x. bind x (t a)) (sym (view-out a r rs e))
        | inl e ↦
            let here : view a (p r) ≡ t a (info a r) = one ∙ (rw e refl) in
            let empty : view a (flat p rs) ≡ none = rest ∙ ap (λ x. bind x (t a)) (alone a e) in
            whole
            ∙ ap (λ x. or_else x (view a (flat p rs))) here
            ∙ ap (or_else (t a (info a r))) empty
            ∙ or_else-none (t a (info a r))
            ∙ ap (λ x. bind x (t a)) (sym (view-in a r rs e))
      ]

  pub flat-Valid : (rs : List MappedRegion) → Valid rs → Valid (flat p rs)
  flat-Valid [] v = tt
  flat-Valid (r ∷ rs) (sound, alone, v) =
      Valid-append (p r) (flat p rs) (acts r sound).0 (flat-Valid rs v) (λ a i e.
        elim (Bool-cases (contains a r)) [
          | inr c ↦
              let gone : view a (p r) ≡ none = (acts r sound).1 a ∙ (rw c refl) in
              absurd (none_some (sym gone ∙ e))
          | inl c ↦ flat-view rs v a ∙ ap (λ x. bind x (t a)) (alone a c)
        ])
    where
      none_some : {i : PageInfo} → none ≡ some i → ⊥
      none_some e = cc
