-- ===== src/FdTable/Calls.antt =====
-- Sequences of the descriptor calls of kernel/src/process/fd.rs: the lowest free number is given
-- out after any of them.
use kontsnor_os.Prelude.{
  ℕ, ◌+◌, ◌-◌, ◌≤◌, ◌≡◌, refl, sym, ap, ◌∙◌, inl, inr, Bool, false, List, [], ◌∷◌, ◌++◌, Option,
  none, some, ltb, leb, ◌==◌, not, Bool-cases, Option-cases, length, get_elem?, replicate, arith,
  length-append, get_elem?-append_left, take_all,
}
use Prim.Native.Nat.{bit_and}
use mathlib.Core.Path.{subst}
use kontsnor_os.FdTable.{
  FdTable, Files, resize, slot_free, entry, alloc_slot, alloc_fd, close_fd, dup_fd, install,
  replace_fd, dup2_fd, dup3_fd, update_desc, add_ref, drop_ref, drop_old, o_cloexec,
}
use kontsnor_os.FdTable.Lowest.{first_free, first_free-length, is_free-below, le-first_free}
use kontsnor_os.FdTable.Hint.{
  IsHint, Takes, IsLowest, alloc_slot-IsLowest, first_free-set, first_free-set-some,
}

pub resize-grow {ℓ} :
    {A : Type ℓ} (xs : List A) (n : ℕ) (v : A)
    → length xs ≤ n
    → resize xs n v ≡ xs ++ replicate (n - length xs) v
resize-grow xs n v h = ap (λ ys. ys ++ replicate (n - length xs) v) (take_all n xs h)

first_free-append :
    (es fs : List (Option ℕ)) (k : ℕ) → k ≤ first_free es → k ≤ first_free (es ++ fs)
first_free-append es fs k h =
    let le = first_free-length es in
    le-first_free (es ++ fs) k (omega (arith, h, le, length-append es fs)) (λ j l.
      ap slot_free (get_elem?-append_left es fs j (omega (arith, l, h, le)))
      ∙ is_free-below es j (omega (arith, l, h)))

install-IsHint :
    (t : FdTable) (newfd d : ℕ) (flag : Bool) → IsHint t → IsHint (install t newfd d flag)
unfolding IsHint install
install-IsHint t newfd d flag hint = elim (Bool-cases (leb (length t.entries) newfd)) [
  | inl long ↦
      let e = resize-grow t.entries (newfd + 1) none (ground (arith, long)) in
      let grown =
        first_free-append t.entries (replicate (newfd + 1 - length t.entries) none) t.next_free_fd
          hint in
      let kept = subst (λ es. t.next_free_fd ≤ first_free es) (sym e) grown in
      let done =
        first_free-set-some (resize t.entries (newfd + 1) none) newfd t.next_free_fd d kept in
      rw long (done)
  | inr short ↦
      let done = first_free-set-some t.entries newfd t.next_free_fd d hint in rw short (done)
]

-- The table is not touched by a change of a description.
pub update_desc-table : (change : _) (d : ℕ) (f : Files) → (update_desc change d f).table ≡ f.table
unfolding update_desc
update_desc-table change d f = elim (Option-cases (get_elem? f.descs d)) [
  | inl e ↦ ground (arith, e)
  | inr (x, e) ↦ ground (arith, e)
]

pub drop_old-table : (o : Option ℕ) (f : Files) → (drop_old o f).table ≡ f.table
drop_old-table none f = refl
drop_old-table (some d) f = update_desc-table drop_ref d f

-- The calls, by descriptor numbers that are not negative.
pub data FdCall : Type 0 where
  alloc : (inode flags : ℕ) → FdCall
  close dup : ℕ → FdCall
  dup2 : (oldfd newfd : ℕ) → FdCall
  dup3 : (oldfd newfd : ℕ) → Bool → FdCall

pub step : FdCall → Files → Files
step (alloc inode flags) f = (alloc_fd inode flags f).1
step (close fd) f = (close_fd fd f).1
step (dup fd) f = (dup_fd fd f).1
step (dup2 a b) f = (dup2_fd a b f).1
step (dup3 a b flag) f = (dup3_fd a b flag f).1

pub run : List FdCall → Files → Files
run [] f = f
run (c ∷ cs) f = run cs (step c f)

alloc_slot-IsHint :
    (t : FdTable) (rlimit d : ℕ) (flag : Bool) (i : ℕ) (t' : FdTable)
    → IsHint t
    → alloc_slot t rlimit d flag ≡ some (i, t')
    → IsHint t'
unfolding IsLowest Takes
alloc_slot-IsHint t rlimit d flag i t' hint e =
    let low = subst (IsLowest t rlimit d) e (alloc_slot-IsLowest t rlimit d flag hint) in low.2.3

alloc_fd-IsHint :
    (inode flags : ℕ) (f : Files) → IsHint f.table → IsHint (alloc_fd inode flags f).1.table
unfolding alloc_fd
alloc_fd-IsHint inode flags f hint =
    let flag = not (bit_and flags o_cloexec == 0) in
    elim (Option-cases (alloc_slot f.table f.rlimit (length f.descs) flag)) [
      | inl e ↦ rw (e, alloc_fd) hint
      | inr ((i, t'), e) ↦
          let h = alloc_slot-IsHint f.table f.rlimit (length f.descs) flag i t' hint e in
          rw (e, alloc_fd) h
    ]

dup_fd-IsHint : (fd : ℕ) (f : Files) → IsHint f.table → IsHint (dup_fd fd f).1.table
unfolding dup_fd
dup_fd-IsHint fd f hint = elim (Option-cases (entry f.table.entries fd)) [
  | inl e ↦ rw (e, dup_fd) hint
  | inr (d, e) ↦ elim (Option-cases (alloc_slot f.table f.rlimit d false)) [
    | inl a ↦ rw (e, a, dup_fd) (subst IsHint (sym (update_desc-table add_ref d f)) hint)
    | inr ((i, t'), a) ↦
        let h = alloc_slot-IsHint f.table f.rlimit d false i t' hint a in rw (e, a, dup_fd) (h)
  ]
]

close_fd-IsHint : (fd : ℕ) (f : Files) → IsHint f.table → IsHint (close_fd fd f).1.table
unfolding close_fd IsHint
close_fd-IsHint fd f hint = elim (Option-cases (entry f.table.entries fd)) [
  | inl e ↦ rw (e, close_fd) hint
  | inr (d, e) ↦
      rw (e, close_fd)
        (subst IsHint (sym (update_desc-table drop_ref d (record f { table = _ })))
          (elim (Bool-cases (ltb fd f.table.next_free_fd)) [
            | inl l ↦
                rw l (
                  first_free-set f.table.entries fd fd none (ground (arith, l, hint)) (omega arith))
            | inr l ↦ rw l (
                first_free-set f.table.entries fd f.table.next_free_fd none hint
                  (ground (arith, l)))
          ]))
]

module _ (a b : ℕ) (flag : Bool) (f : Files) where
  replace_fd-IsHint : IsHint f.table → IsHint (replace_fd a b flag f).1.table
  unfolding replace_fd
  replace_fd-IsHint hint = elim (Option-cases (entry f.table.entries a)) [
    | inl e ↦ rw (e, replace_fd) hint
    | inr (d, e) ↦
        rw (e, replace_fd)
          (subst IsHint
            (sym (
              drop_old-table (entry f.table.entries b)
                (record (update_desc add_ref d f) { table = install f.table b d flag })))
            (install-IsHint f.table b d flag hint))
  ]

  dup3_fd-IsHint : IsHint f.table → IsHint (dup3_fd a b flag f).1.table
  unfolding dup3_fd
  dup3_fd-IsHint hint = elim (Bool-cases (a == b)) [
    | inl e ↦ rw (e, dup3_fd) hint
    | inr e ↦ elim (Bool-cases (leb f.rlimit b)) [
      | inl l ↦ rw (e, l, dup3_fd) hint
      | inr l ↦ rw (e, l, dup3_fd) (replace_fd-IsHint hint)
    ]
  ]

dup2_fd-IsHint : (a b : ℕ) (f : Files) → IsHint f.table → IsHint (dup2_fd a b f).1.table
unfolding dup2_fd
dup2_fd-IsHint a b f hint = elim (Bool-cases (leb f.rlimit b)) [
  | inl l ↦ rw (l, dup2_fd) hint
  | inr l ↦ elim (Bool-cases (a == b)) [
    | inl e ↦ rw (l, e, dup2_fd) hint
    | inr e ↦ rw (l, e, dup2_fd) (replace_fd-IsHint a b false f hint)
  ]
]

step-IsHint : (c : FdCall) (f : Files) → IsHint f.table → IsHint (step c f).table
unfolding step
step-IsHint (alloc inode flags) f h = alloc_fd-IsHint inode flags f h
step-IsHint (close fd) f h = close_fd-IsHint fd f h
step-IsHint (dup fd) f h = dup_fd-IsHint fd f h
step-IsHint (dup2 a b) f h = dup2_fd-IsHint a b f h
step-IsHint (dup3 a b flag) f h = dup3_fd-IsHint a b flag f h

run-IsHint : (cs : List FdCall) (f : Files) → IsHint f.table → IsHint (run cs f).table
unfolding run
run-IsHint [] f h = h
run-IsHint (c ∷ cs) f h = run-IsHint cs (step c f) (step-IsHint c f h)

-- After any sequence of opening, closing and duplicating descriptors that starts with no free slot
-- below the hint, the search gives out the lowest free number, within the limit, changes no other
-- descriptor, and fails only if no number below the limit is free.
pub run-IsLowest :
    (cs : List FdCall) (f : Files) (rlimit d : ℕ) (flag : Bool)
    → IsHint f.table
    → IsLowest (run cs f).table rlimit d (alloc_slot (run cs f).table rlimit d flag)
run-IsLowest cs f rlimit d flag hint =
    alloc_slot-IsLowest (run cs f).table rlimit d flag (run-IsHint cs f hint)
