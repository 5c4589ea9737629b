-- ===== src/FdTable/Hint.antt =====
-- The hint of the descriptor table, `next_free_fd`: the calls of kernel/src/process/fd.rs keep it at
-- or below the first free slot, so that descriptors are given out lowest first.
use kontsnor_os.Prelude.{
  ℕ, ◌+◌, ◌≤◌, ◌<◌, ◌≡◌, refl, sym, ap, ◌∙◌, inl, inr, ◌≢◌, Bool, true, false, List, [], ◌∷◌, ◌++◌,
  Option, none, some, ltb, ◌==◌, Bool-cases, Option-cases, length, get_elem?, set, arith,
  length-append, length-set, get_elem?-set_self, get_elem?-set_ne, get_elem?-append_left,
  get_elem?-append_right, get_elem?-beyond,
}
use mathlib.Core.Path.{subst}
use kontsnor_os.FdTable.{FdTable, slot_free, is_free, slot_desc, entry, place, extend, alloc_slot}
use kontsnor_os.FdTable.Lowest.{
  first_free, first_free-length, is_free-below, is_free-first_free, le-first_free, alloc_slot-none,
  alloc_slot-place, alloc_slot-extend,
}

-- No slot below the hint is free.
unfoldable pub IsHint : FdTable → Type 0
IsHint t = t.next_free_fd ≤ first_free t.entries

-- Descriptor `i`, which was free, now names `d`; the others name what they did.
unfoldable pub Takes : (i d : ℕ) → (t t' : FdTable) → Type 0
Takes i d t t' =
    (entry t.entries i ≡ none)
    × (entry t'.entries i ≡ some d)
    × ((j : ℕ) → j ≢ i → entry t'.entries j ≡ entry t.entries j)
    × IsHint t'

pub entry-set_self :
    (es : List (Option ℕ)) (i d : ℕ) → i < length es → entry (set es i (some d)) i ≡ some d
entry-set_self es i d h = ap slot_desc (get_elem?-set_self es i (some d) h)

pub entry-set_ne :
    (es : List (Option ℕ)) (i j : ℕ) (o : Option ℕ) → i ≢ j → entry (set es i o) j ≡ entry es j
entry-set_ne es i j o h = ap slot_desc (get_elem?-set_ne es i j o h)

-- Setting a slot at or above `k` to something else than free leaves the slots below `k` in use.
pub first_free-set :
    (es : List (Option ℕ)) (i k : ℕ) (o : Option ℕ)
    → k ≤ first_free es
    → k ≤ i
    → k ≤ first_free (set es i o)
first_free-set es i k o h below =
    let le = first_free-length es in
    le-first_free (set es i o) k (omega (arith, h, le, length-set es i o)) (λ j l.
      let e = get_elem?-set_ne es i j o (λ s. omega (arith, s, l, below)) in
      let u = is_free-below es j (omega (arith, l, h)) in
      let same : is_free (set es i o) j ≡ is_free es j = ap slot_free e in same ∙ u)

pub first_free-set-some :
    (es : List (Option ℕ)) (i k d : ℕ) → k ≤ first_free es → k ≤ first_free (set es i (some d))
first_free-set-some es i k d h =
    let le = first_free-length es in
    le-first_free (set es i (some d)) k (omega (arith, h, le, length-set es i (some d))) (λ j l.
      elim (Bool-cases (i == j)) [
        | inl e ↦
            let same : j ≡ i = ground (arith, e) in
            let here : is_free (set es i (some d)) i ≡ false =
              ap slot_free (get_elem?-set_self es i (some d) (omega (arith, same, l, h, le))) in
            ap (is_free (set es i (some d))) same ∙ here
        | inr e ↦
            let same : is_free (set es i (some d)) j ≡ is_free es j =
              ap slot_free (get_elem?-set_ne es i j (some d) (ground (arith, e))) in
            same ∙ is_free-below es j (omega (arith, l, h))
      ])

entry-free : (es : List (Option ℕ)) (i : ℕ) → is_free es i ≡ true → entry es i ≡ none
entry-free es i h = elim (Option-cases (get_elem? es i)) [
  | inl e ↦ ap slot_desc e
  | inr (slot, e) ↦ free_none slot e
]
  where
    free_none : (slot : Option ℕ) → get_elem? es i ≡ some slot → entry es i ≡ none
    free_none none e = ap slot_desc e
    free_none (some d) e = let u = ap slot_free e in ground (arith, h, u)

module _ (t : FdTable) (d : ℕ) (flag : Bool) where
  place-Takes :
      t.next_free_fd ≤ first_free t.entries
      → first_free t.entries < length t.entries
      → Takes (first_free t.entries) d t (place t (first_free t.entries) d flag)
  unfolding Takes IsHint place
  place-Takes hint inside =
      let i = first_free t.entries in
      (
        entry-free t.entries i (is_free-first_free t.entries inside),
        entry-set_self t.entries i d inside,
        (λ j ne. entry-set_ne t.entries i j (some d) (λ e. ne (sym e))),
        le-first_free (set t.entries i (some d)) (i + 1)
            (omega (arith, inside, length-set t.entries i (some d)))
            (λ j l. elim (Bool-cases (i == j)) [
              | inl e ↦
                  let same : j ≡ i = ground (arith, e) in
                  ap (is_free (set t.entries i (some d))) same
                  ∙ ap slot_free (get_elem?-set_self t.entries i (some d) inside)
              | inr e ↦
                  ap slot_free (get_elem?-set_ne t.entries i j (some d) (ground (arith, e)))
                  ∙ is_free-below t.entries j (ground (arith, l, e))
            ]),
      )

  get_elem?-last : get_elem? (t.entries ++ (some d ∷ [])) (length t.entries) ≡ some (some d)
  get_elem?-last =
      let here : length t.entries ≡ length t.entries + 0 = omega arith in
      ap (get_elem? (t.entries ++ (some d ∷ []))) here
      ∙ get_elem?-append_right t.entries (some d ∷ []) 0

  extend-Takes :
      length t.entries ≤ first_free t.entries → Takes (length t.entries) d t (extend t d flag)
  unfolding Takes IsHint extend
  extend-Takes full =
      let n = length t.entries in
      let longer = length-append t.entries (some d ∷ []) in
      (
        ap slot_desc (get_elem?-beyond t.entries n (omega arith)),
        ap slot_desc get_elem?-last,
        (λ j ne. elim (Bool-cases (ltb j n)) [
          | inl l ↦
              ap slot_desc (get_elem?-append_left t.entries (some d ∷ []) j (ground (arith, l)))
          | inr l ↦
              let far : n < j = ground (arith, l, ne) in
              ap slot_desc (
                get_elem?-beyond (t.entries ++ (some d ∷ [])) j (omega (arith, longer, far))
                ∙ sym (get_elem?-beyond t.entries j (omega (arith, far))))
        ]),
        le-first_free (t.entries ++ (some d ∷ [])) (n + 1) (omega (arith, longer)) (λ j l.
            elim (Bool-cases (ltb j n)) [
              | inl b ↦
                  ap slot_free (get_elem?-append_left t.entries (some d ∷ []) j (ground (arith, b)))
                  ∙ is_free-below t.entries j (ground (arith, b, full))
              | inr b ↦
                  let same : j ≡ n = ground (arith, l, b) in
                  ap (is_free (t.entries ++ (some d ∷ []))) same ∙ ap slot_free get_elem?-last
            ]),
      )

-- The search gives the lowest free number if that is below the limit, and fails otherwise.
unfoldable pub IsLowest : FdTable → (rlimit d : ℕ) → Option (ℕ × FdTable) → Type 0
IsLowest t rlimit d none = rlimit ≤ first_free t.entries
IsLowest t rlimit d (some (i, t')) = (i ≡ first_free t.entries) × (i < rlimit) × Takes i d t t'

-- The search for a slot gives out the lowest free number, which is below the limit, changes no
-- other descriptor and keeps the hint right; it fails only if no number below the limit is free.
pub alloc_slot-IsLowest :
    (t : FdTable) (rlimit d : ℕ) (flag : Bool)
    → IsHint t
    → IsLowest t rlimit d (alloc_slot t rlimit d flag)
unfolding IsLowest IsHint
alloc_slot-IsLowest t rlimit d flag hint =
    let le = first_free-length t.entries in
    let h : t.next_free_fd ≤ first_free t.entries = hint in
    elim (Bool-cases (ltb (first_free t.entries) rlimit)) [
      | inl room ↦ elim (Bool-cases (ltb (first_free t.entries) (length t.entries))) [
        | inl inside ↦
            let e =
              alloc_slot-place t rlimit d flag h (ground (arith, room)) (ground (arith, inside)) in
            subst (IsLowest t rlimit d) (sym e)
              (refl, ground (arith, room), place-Takes t d flag h (ground (arith, inside)))
        | inr full ↦
            let f : length t.entries ≤ first_free t.entries = ground (arith, full) in
            let e = alloc_slot-extend t rlimit d flag h (ground (arith, room)) f in
            subst (IsLowest t rlimit d) (sym e)
              (omega (arith, le, f), ground (arith, room, le, f), extend-Takes t d flag f)
      ]
      | inr low ↦
          let l : rlimit ≤ first_free t.entries = ground (arith, low) in
          let e = alloc_slot-none t rlimit d flag l (omega (arith, h, le)) in
          subst (IsLowest t rlimit d) (sym e) l
    ]
