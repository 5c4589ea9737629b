-- ===== src/FdTable/Lowest.antt =====
-- The search for a free descriptor (`current_task_alloc_fd_with_flags_and_path` and
-- `current_task_dup_fd` of kernel/src/process/fd.rs) against the rule of the lowest free number.
use kontsnor_os.Prelude.{
  ℕ, zero, suc, ◌+◌, ◌-◌, ◌≤◌, ◌<◌, min, ◌≡◌, refl, ap, ◌⊎◌, inl, inr, Bool, true, false, List, [],
  ◌∷◌, Option, none, some, ltb, leb, Bool-cases, length, arith,
}
use kontsnor_os.FdTable.{
  FdTable, is_free, found, limit, exhausted, scan, place, extend, alloc_end, alloc_fallback,
  alloc_slot,
}

-- The lowest number that is not in use.
abbrev pub first_free : List (Option ℕ) → ℕ
first_free [] = 0
first_free (none ∷ es) = 0
first_free (some d ∷ es) = suc (first_free es)

pub first_free-length : (es : List (Option ℕ)) → first_free es ≤ length es
first_free-length [] = omega arith
first_free-length (none ∷ es) = omega arith
first_free-length (some d ∷ es) = omega (arith, first_free-length es)

pub is_free-below : (es : List (Option ℕ)) (j : ℕ) → j < first_free es → is_free es j ≡ false
is_free-below [] j h = refl
is_free-below (none ∷ es) j h = absurd (omega arith)
is_free-below (some d ∷ es) zero h = refl
is_free-below (some d ∷ es) (suc j) h = is_free-below es j (omega arith)

pub is_free-first_free :
    (es : List (Option ℕ)) → first_free es < length es → is_free es (first_free es) ≡ true
is_free-first_free [] h = absurd (omega arith)
is_free-first_free (none ∷ es) h = refl
is_free-first_free (some d ∷ es) h = is_free-first_free es (omega arith)

pub le-first_free :
    (es : List (Option ℕ)) (k : ℕ)
    → k ≤ length es
    → ((j : ℕ) → j < k → is_free es j ≡ false)
    → k ≤ first_free es
le-first_free [] k h used = h
le-first_free (none ∷ es) zero h used = omega arith
le-first_free (none ∷ es) (suc k) h used = ground (arith, used 0)
le-first_free (some d ∷ es) zero h used = omega arith
le-first_free (some d ∷ es) (suc k) h used =
    let rest = le-first_free es k (omega arith) (λ j l. used (suc j) (omega arith)) in omega arith

module _ (es : List (Option ℕ)) (rlimit : ℕ) where
  -- From below the first free slot, the scan finds it.
  pub scan_first :
      (i n : ℕ)
      → i ≤ first_free es
      → first_free es < i + n
      → i + n ≤ length es
      → first_free es < rlimit
      → scan es rlimit i n ≡ found (first_free es)
  unfolding scan
  scan_first i zero h below all room = absurd (omega arith)
  scan_first i (suc n) h below all room = elim (Bool-cases (ltb i (first_free es))) [
    | inl l ↦ ground (arith, l, is_free-below es i, scan_first (i + 1) n)
    | inr l ↦
        let same : i ≡ first_free es = ground (arith, l, h) in
        let free = is_free-first_free es in ground (arith, ap (is_free es) same, free, same)
  ]

  -- Where there is no free slot within the limit, the scan finds none.
  pub scan_none :
      (i n : ℕ)
      → i + n ≤ length es
      → rlimit ≤ first_free es
      → (scan es rlimit i n ≡ limit) ⊎ (scan es rlimit i n ≡ exhausted)
  unfolding scan
  scan_none i zero all low = inr refl
  scan_none i (suc n) all low = elim (Bool-cases (leb rlimit i)) [
    | inl l ↦ inl (rw l)
    | inr l ↦
        let used = is_free-below es i (ground (arith, l, low)) in
        elim (scan_none (i + 1) n (omega (arith, all)) low) [
          | inl e ↦ inl (rw (l, used, e))
          | inr e ↦ inr (rw (l, used, e))
        ]
  ]

  -- Where all slots are in use and within the limit, it ends.
  pub scan_exhausted :
      (i n : ℕ) → i + n ≤ first_free es → i + n ≤ rlimit → scan es rlimit i n ≡ exhausted
  unfolding scan
  scan_exhausted i zero all room = refl
  scan_exhausted i (suc n) all room = ground (arith, is_free-below es i, scan_exhausted (i + 1) n)

module _ (t : FdTable) (rlimit d : ℕ) (flag : Bool) where
  module _ (low : rlimit ≤ first_free t.entries) where
    alloc_end-none : alloc_end t rlimit d flag ≡ none
    unfolding alloc_end
    alloc_end-none = ground (arith, first_free-length t.entries, low)

    alloc_fallback-none : alloc_fallback t rlimit d flag ≡ none
    unfolding alloc_fallback
    alloc_fallback-none =
        elim (scan_none t.entries rlimit 0 (min t.next_free_fd (length t.entries)) (omega arith)
          low) [ inl e ↦ ground (arith, e) | inr e ↦ ground (arith, e, alloc_end-none) ]

    pub alloc_slot-none : t.next_free_fd ≤ length t.entries → alloc_slot t rlimit d flag ≡ none
    unfolding alloc_slot
    alloc_slot-none hint =
        elim (scan_none t.entries rlimit t.next_free_fd (length t.entries - t.next_free_fd)
          (omega (arith, hint)) low) [
            | inl e ↦ ground (arith, e)
            | inr e ↦ elim (Bool-cases (ltb 0 t.next_free_fd)) [
              | inl b ↦ ground (arith, e, b, alloc_fallback-none)
              | inr b ↦ ground (arith, e, b, alloc_end-none)
            ]
          ]

  pub alloc_slot-place :
      t.next_free_fd ≤ first_free t.entries
      → first_free t.entries < rlimit
      → first_free t.entries < length t.entries
      → alloc_slot t rlimit d flag
        ≡ some (first_free t.entries, place t (first_free t.entries) d flag)
  unfolding alloc_slot
  alloc_slot-place hint room inside =
      let e =
        scan_first t.entries rlimit t.next_free_fd (length t.entries - t.next_free_fd) hint
          (omega (arith, hint, inside)) (omega (arith, hint, inside)) room in
      ground (arith, e)

  pub alloc_slot-extend :
      t.next_free_fd ≤ first_free t.entries
      → first_free t.entries < rlimit
      → length t.entries ≤ first_free t.entries
      → alloc_slot t rlimit d flag ≡ some (length t.entries, extend t d flag)
  unfolding alloc_slot alloc_fallback alloc_end
  alloc_slot-extend hint room full =
      let le = first_free-length t.entries in
      let e =
        scan_exhausted t.entries rlimit t.next_free_fd (length t.entries - t.next_free_fd)
          (omega (arith, hint, full, le)) (omega (arith, hint, room, le)) in
      let e' =
        scan_exhausted t.entries rlimit 0 (min t.next_free_fd (length t.entries))
          (omega (arith, hint, full, le)) (omega (arith, hint, room, le)) in
      let last : ltb (length t.entries) rlimit ≡ true = ground (arith, room, le, full) in
      elim (Bool-cases (ltb 0 t.next_free_fd)) [
        | inl b ↦ ground (arith, e, b, e', last)
        | inr b ↦ ground (arith, e, b, last)
      ]
