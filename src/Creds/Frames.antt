-- ===== src/Creds/Frames.antt =====
-- Whom the calls of kernel/src/syscall/process/creds.rs leave alone, and what the session calls
-- read back.
use kontsnor_os.Prelude.{
  ℕ, zero, ◌≡◌, ◌≢◌, refl, sym, ap, ◌∙◌, List, [], ◌∷◌, some, arith, ltb, inl, inr, Bool-cases,
  Option-cases,
}
use kontsnor_os.Prelude.Word.{ℤ, pos, as_i64}
use kontsnor_os.Tasks.{Task, Kernel, get_task, put_task}
use kontsnor_os.Tasks.Table.{
  on_current-others, current-put, get_task-put_task_self, get_task-put_task_ne,
}
use kontsnor_os.Creds.Ids.{
  setuid, setgid, setresuid, setresgid, setreuid, setregid, sys_setuid, sys_setgid, sys_setresuid,
  sys_setresgid, sys_setreuid, sys_setregid,
}
use kontsnor_os.Creds.Session.{
  sys_setpgid, sys_getpgid, sys_setsid, sys_getsid, sys_getpgrp, target, new_group,
}
use kontsnor_os.Creds.Groups.{setgroups, sys_setgroups}
use kontsnor_os.Creds.Calls.{Call, perform, run}

-- The calls that take no pid.
abbrev pub IsOwn : Call → Type 0
IsOwn (Call.do_setpgid pid pgid) = ⊥
IsOwn _ = Unit

abbrev pub AllOwn : List Call → Type 0
AllOwn [] = Unit
AllOwn (c ∷ cs) = IsOwn c × AllOwn cs

-- The task in a slot, and who runs, as they were.
abbrev Untouched : ℕ → Kernel → Kernel → Type 0
Untouched q k k' = (get_task k' q ≡ get_task k q) × (k'.current ≡ k.current)

setsid-others : (k : Kernel) (q : ℕ) → k.current ≢ some q → Untouched q k (sys_setsid k).1
unfolding sys_setsid
setsid-others k q h = elim (Option-cases k.current) [
  | inl idle ↦ ground arith
  | inr (p, e) ↦
      let ne : p ≢ q = λ same. h (e ∙ ap some same) in
      elim (Option-cases (get_task k p)) [
        | inl gone ↦ ground arith
        | inr (t, found) ↦
            let t' : Task = record t { pgid = p; sid = p } in
            ground (arith, get_task-put_task_ne k p q t' ne, current-put k p t')
      ]
]

perform-others :
    (c : Call) (k : Kernel) (q : ℕ) → IsOwn c → k.current ≢ some q → Untouched q k (perform c k).1
unfolding perform sys_setuid sys_setgid sys_setresuid sys_setresgid sys_setreuid sys_setregid
    sys_setgroups
perform-others (Call.do_setuid u) k q own h = on_current-others k (setuid u) q h
perform-others (Call.do_setgid g) k q own h = on_current-others k (setgid g) q h
perform-others (Call.do_setresuid r e s) k q own h = on_current-others k (setresuid r e s) q h
perform-others (Call.do_setresgid r e s) k q own h = on_current-others k (setresgid r e s) q h
perform-others (Call.do_setreuid r e) k q own h = on_current-others k (setreuid r e) q h
perform-others (Call.do_setregid r e) k q own h = on_current-others k (setregid r e) q h
perform-others (Call.do_setgroups m size list) k q own h = elim (Bool-cases (ltb 32 size)) [
  | inl many ↦ rw (many, sys_setgroups) (refl, refl)
  | inr few ↦ rw (few, sys_setgroups) (on_current-others k (setgroups m size list) q h)
]
perform-others (Call.do_setpgid pid pgid) k q own h = absurd own
perform-others Call.do_setsid k q own h = setsid-others k q h

-- No sequence of the calls that take no pid changes any task but the caller's.
pub run-others :
    (cs : List Call) (k : Kernel) (q : ℕ)
    → AllOwn cs
    → k.current ≢ some q
    → get_task (run cs k) q ≡ get_task k q
unfolding run
run-others [] k q own h = refl
run-others (c ∷ cs) k q own h =
    let (kept, same) = perform-others c k q own.0 h in
    run-others cs (perform c k).1 q own.1 (λ e. h (sym same ∙ e)) ∙ kept

target-put : (k : Kernel) (p : ℕ) (t : Task) (pid : ℤ) → target (put_task k p t) pid ≡ target k pid
target-put k p t (pos zero) = current-put k p t
target-put k p t pid = refl

-- `getpgid` reads back the group that a successful `setpgid` has set: the target's own pid where
-- 0 was asked for.
pub setpgid-getpgid :
    (pid pgid : ℤ) (k : Kernel) (p : ℕ)
    → target k pid ≡ some p
    → (sys_setpgid pid pgid k).0 ≡ pos 0
    → sys_getpgid pid (sys_setpgid pid pgid k).1 ≡ as_i64 (new_group pgid p)
unfolding sys_setpgid sys_getpgid
setpgid-getpgid pid pgid k p named done = elim (Option-cases (get_task k p)) [
  | inl gone ↦ ground arith
  | inr (t, found) ↦
      let t' : Task = record t { pgid = new_group pgid p } in
      let set_it : (sys_setpgid pid pgid k).1 ≡ put_task k p t' = ground arith in
      let named' : target (put_task k p t') pid ≡ some p = target-put k p t' pid ∙ named in
      let read = get_task-put_task_self k p t t' found in
      rw set_it (rw (named', sys_getpgid) (rw read))
]

-- After `setsid` the caller leads a session and a group of its own.
pub setsid-getsid :
    (k : Kernel) (p : ℕ) (t : Task)
    → k.current ≡ some p
    → get_task k p ≡ some t
    → let (r, k') = sys_setsid k in
      (r ≡ as_i64 p) × (sys_getsid (pos 0) k' ≡ as_i64 p) × (sys_getpgrp k' ≡ as_i64 p)
unfolding sys_setsid sys_getsid sys_getpgrp sys_getpgid
setsid-getsid k p t running found =
    let t' : Task = record t { pgid = p; sid = p } in
    let done : sys_setsid k ≡ (as_i64 p, put_task k p t') = ground arith in
    let running' : (put_task k p t').current ≡ some p = current-put k p t' ∙ running in
    let read = get_task-put_task_self k p t t' found in rw done (refl, ground arith, ground arith)
