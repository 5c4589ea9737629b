-- ===== src/FdTable/Exec.antt =====
-- The closing of descriptors on execve (kernel/src/syscall/process/lifecycle.rs).
use kontsnor_os.Prelude.{
  true, false, ℕ, zero, suc, ◌+◌, ◌≤◌, ◌<◌, ◌≡◌, refl, ap, ◌∙◌, inl, inr, ◌≢◌, Bool, List, [], ◌∷◌,
  Option, none, ◌==◌, Bool-cases, if◌then◌else◌, length, get_or, set, arith, length-set,
}
use mathlib.Core.Path.{subst}
use kontsnor_os.FdTable.{Files, entry, exec_close_one, exec_close, exec_unshare, exec_close_all}
use kontsnor_os.FdTable.Calls.{drop_old-table}
use kontsnor_os.FdTable.Hint.{entry-set_ne}

pub entry-set-none : (es : List (Option ℕ)) (i : ℕ) → entry (set es i none) i ≡ none
entry-set-none [] i = refl
entry-set-none (x ∷ es) zero = refl
entry-set-none (x ∷ es) (suc i) = entry-set-none es i

get_or-set_self : (cs : List Bool) (i : ℕ) → get_or (set cs i false) i false ≡ false
get_or-set_self [] i = refl
get_or-set_self (c ∷ cs) zero = refl
get_or-set_self (c ∷ cs) (suc i) = get_or-set_self cs i

get_or-set_ne :
    (cs : List Bool) (i j : ℕ) → i ≢ j → get_or (set cs i false) j false ≡ get_or cs j false
get_or-set_ne [] i j h = refl
get_or-set_ne (c ∷ cs) zero zero h = absurd (h refl)
get_or-set_ne (c ∷ cs) zero (suc j) h = refl
get_or-set_ne (c ∷ cs) (suc i) zero h = refl
get_or-set_ne (c ∷ cs) (suc i) (suc j) h = get_or-set_ne cs i j (λ e. h (ap suc e))

-- What one round leaves of a descriptor and of its mark.
module _ (i : ℕ) (f : Files) where
  exec_close_one-table : (exec_close_one i f).table ≡ (
      if get_or f.table.cloexec i false
      then record f.table {
        entries = set f.table.entries i none;
        cloexec = set f.table.cloexec i false;
      }
      else f.table)
  unfolding exec_close_one
  exec_close_one-table = elim (Bool-cases (get_or f.table.cloexec i false)) [
    | inl e ↦
        rw (e, exec_close_one) (drop_old-table (entry f.table.entries i) (record f { table = _ }))
    | inr e ↦ rw (e, exec_close_one)
  ]

  one_self :
      entry (exec_close_one i f).table.entries i
      ≡ (if get_or f.table.cloexec i false then none else entry f.table.entries i)
  one_self = elim (Bool-cases (get_or f.table.cloexec i false)) [
    | inl e ↦ rw (exec_close_one-table, e) (entry-set-none f.table.entries i)
    | inr e ↦ rw (exec_close_one-table, e)
  ]

  one_marks_self : get_or (exec_close_one i f).table.cloexec i false ≡ false
  one_marks_self = elim (Bool-cases (get_or f.table.cloexec i false)) [
    | inl e ↦ rw (exec_close_one-table, e) (get_or-set_self f.table.cloexec i)
    | inr e ↦ rw (exec_close_one-table, e) e
  ]

  module _ (j : ℕ) (ne : i ≢ j) where
    one_ne : entry (exec_close_one i f).table.entries j ≡ entry f.table.entries j
    one_ne = elim (Bool-cases (get_or f.table.cloexec i false)) [
      | inl e ↦ rw (exec_close_one-table, e) (entry-set_ne f.table.entries i j none ne)
      | inr e ↦ rw (exec_close_one-table, e)
    ]

    one_marks_ne :
        get_or (exec_close_one i f).table.cloexec j false ≡ get_or f.table.cloexec j false
    one_marks_ne = elim (Bool-cases (get_or f.table.cloexec i false)) [
      | inl e ↦ rw (exec_close_one-table, e) (get_or-set_ne f.table.cloexec i j ne)
      | inr e ↦ rw (exec_close_one-table, e)
    ]

  one_length : length (exec_close_one i f).table.entries ≡ length f.table.entries
  one_length = elim (Bool-cases (get_or f.table.cloexec i false)) [
    | inl e ↦ rw (exec_close_one-table, e) (length-set f.table.entries i none)
    | inr e ↦ rw (exec_close_one-table, e)
  ]

  one_hint : (exec_close_one i f).table.next_free_fd ≡ f.table.next_free_fd
  one_hint = elim (Bool-cases (get_or f.table.cloexec i false)) [
    | inl e ↦ rw (exec_close_one-table, e)
    | inr e ↦ rw (exec_close_one-table, e)
  ]

-- The loop over `n` slots from `i` on.
exec_close-below :
    (j i n : ℕ) (f : Files)
    → j < i
    → (entry (exec_close i n f).table.entries j ≡ entry f.table.entries j)
      × (get_or (exec_close i n f).table.cloexec j false ≡ get_or f.table.cloexec j false)
unfolding exec_close
exec_close-below j i zero f below = (refl, refl)
exec_close-below j i (suc n) f below =
    let (entries, marks) =
      exec_close-below j (i + 1) n (exec_close_one i f) (omega (arith, below)) in
    let ne : i ≢ j = λ e. omega (arith, e, below) in
    (entries ∙ one_ne i f j ne, marks ∙ one_marks_ne i f j ne)

exec_close-inside :
    (j i n : ℕ) (f : Files)
    → i ≤ j
    → j < i + n
    → (entry (exec_close i n f).table.entries j
        ≡ (if get_or f.table.cloexec j false then none else entry f.table.entries j))
      × (get_or (exec_close i n f).table.cloexec j false ≡ false)
unfolding exec_close
exec_close-inside j i zero f from to = absurd (omega (arith, from, to))
exec_close-inside j i (suc n) f from to = elim (Bool-cases (i == j)) [
  | inl e ↦
      let same : i ≡ j = ground (arith, e) in
      subst
        (λ k.
          (entry (exec_close (i + 1) n (exec_close_one i f)).table.entries k
            ≡ (if get_or f.table.cloexec k false then none else entry f.table.entries k))
          × (get_or (exec_close (i + 1) n (exec_close_one i f)).table.cloexec k false ≡ false))
        same
        (let (entries, marks) = exec_close-below i (i + 1) n (exec_close_one i f) (omega arith) in
          (entries ∙ one_self i f, marks ∙ one_marks_self i f))
  | inr e ↦
      let ne : i ≢ j = ground (arith, e) in
      let (entries, marks) =
        exec_close-inside j (i + 1) n (exec_close_one i f) (ground (arith, e, from))
          (omega (arith, to)) in
      (
        entries
            ∙ ap (λ m. if m then none else entry (exec_close_one i f).table.entries j)
                (one_marks_ne i f j ne)
            ∙ ap (λ o. if get_or f.table.cloexec j false then none else o) (one_ne i f j ne),
        marks,
      )
]

exec_close-next_free_fd :
    (i n : ℕ) (f : Files) → (exec_close i n f).table.next_free_fd ≡ f.table.next_free_fd
unfolding exec_close
exec_close-next_free_fd i zero f = refl
exec_close-next_free_fd i (suc n) f =
    exec_close-next_free_fd (i + 1) n (exec_close_one i f) ∙ one_hint i f

exec_close-whole :
    (f : Files) (fd : ℕ)
    → fd < length f.table.entries
    → let g = exec_close 0 (length f.table.entries) f in
      (entry g.table.entries fd
        ≡ (if get_or f.table.cloexec fd false then none else entry f.table.entries fd))
      × (get_or g.table.cloexec fd false ≡ false)
      × (g.table.next_free_fd ≡ f.table.next_free_fd)
exec_close-whole f fd inside =
    let n = length f.table.entries in
    let (entries, marks) = exec_close-inside fd 0 n f (omega arith) (omega (arith, inside)) in
    (entries, marks, exec_close-next_free_fd 0 n f)

-- After execve, whether other tasks used the table or not, a descriptor with the close-on-exec mark names
-- nothing and another one what it named before; no descriptor of the table has the mark any longer. The
-- hint is 0 for a table that was shared. For one that was not it is what it was, even if a descriptor below
-- it was closed.
pub exec_close_all_lem :
    (shared : Bool) (f : Files) (fd : ℕ)
    → fd < length f.table.entries
    → let g = exec_close_all shared f in
      (entry g.table.entries fd
        ≡ (if get_or f.table.cloexec fd false then none else entry f.table.entries fd))
      × (get_or g.table.cloexec fd false ≡ false)
      × (g.table.next_free_fd ≡ (if shared then 0 else f.table.next_free_fd))
unfolding exec_close_all exec_unshare
exec_close_all_lem true f fd inside = exec_close-whole (exec_unshare true f) fd inside
exec_close_all_lem false f fd inside = exec_close-whole f fd inside
