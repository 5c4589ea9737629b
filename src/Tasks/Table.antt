-- ===== src/Tasks/Table.antt =====
-- Reading and writing the task table, and calls on the caller's task.
use kontsnor_os.Prelude.{
  ℕ, zero, suc, ◌≡◌, ◌≢◌, refl, ap, ◌∙◌, List, [], ◌∷◌, Option, some, arith, get_elem?, set,
  get_elem?-set_ne, Option-cases, inl, inr,
}
use kontsnor_os.Errno.{SyscallResult}
use kontsnor_os.Tasks.{Task, Kernel, get_task, put_task, on_current, caller}

set_slot :
    (ts : List (Option Task)) (p : ℕ) (t t' : Task)
    → get_elem? ts p ≡ some (some t)
    → get_elem? (set ts p (some t')) p ≡ some (some t')
set_slot [] p t t' h = cc
set_slot (x ∷ ts) zero t t' h = refl
set_slot (x ∷ ts) (suc p) t t' h = set_slot ts p t t' h

found_slot :
    (k : Kernel) (p : ℕ) (t : Task) → get_task k p ≡ some t → get_elem? k.tasks p ≡ some (some t)
unfolding get_task
found_slot k p t h = ground arith

pub get_task-put_task_self :
    (k : Kernel) (p : ℕ) (t t' : Task)
    → get_task k p ≡ some t
    → get_task (put_task k p t') p ≡ some t'
unfolding get_task put_task
get_task-put_task_self k p t t' h = rw (set_slot k.tasks p t t' (found_slot k p t h), get_task)

pub get_task-put_task_ne :
    (k : Kernel) (p q : ℕ) (t : Task) → p ≢ q → get_task (put_task k p t) q ≡ get_task k q
unfolding get_task put_task
get_task-put_task_ne k p q t ne = rw (get_elem?-set_ne k.tasks p q (some t) ne, get_task)

pub current-put : (k : Kernel) (p : ℕ) (t : Task) → (put_task k p t).current ≡ k.current
unfolding put_task
current-put k p t = refl

-- A call on the caller's task leaves the caller with what it makes of it.
pub caller-on_current :
    (k : Kernel) (call : Task → SyscallResult × Task) (t : Task)
    → caller k ≡ some t
    → ((on_current k call).0 ≡ (call t).0) × (caller (on_current k call).1 ≡ some (call t).1)
unfolding on_current
caller-on_current k call t h = elim (Option-cases k.current) [
  | inl idle ↦ ground arith
  | inr (pid, running) ↦
      ground (arith, get_task-put_task_self k pid t (call t).1, current-put k pid (call t).1)
]

-- It leaves the other tasks alone, and who runs.
pub on_current-others :
    (k : Kernel) (call : Task → SyscallResult × Task) (q : ℕ)
    → k.current ≢ some q
    → (get_task (on_current k call).1 q ≡ get_task k q)
      × ((on_current k call).1.current ≡ k.current)
unfolding on_current
on_current-others k call q h = elim (Option-cases k.current) [
  | inl idle ↦ ground arith
  | inr (pid, running) ↦
      let ne : pid ≢ q = λ e. h (running ∙ ap some e) in
      elim (Option-cases (get_task k pid)) [
        | inl gone ↦ ground arith
        | inr (t, found) ↦
            ground (arith, get_task-put_task_ne k pid q (call t).1 ne, current-put k pid (call t).1)
      ]
]
