-- ===== src/Creds/Privilege.antt =====
-- What a sequence of credential calls can do to the user IDs of the task that makes them, and what
-- `setuid` leaves undone: kernel/src/syscall/process/creds.rs.
use mathlib.Core.Path.{subst}
use native.Mathlib.Decide.{ℕ_discrete}
use kontsnor_os.Prelude.{
  ℕ, ◌≡◌, ◌≢◌, refl, sym, ap, ◌∙◌, List, [], ◌∷◌, some, arith, true, false, ◌==◌, ==_iff,
  Bool-cases, Option-cases, ltb, ◌⊎◌, inl, inr,
}
use kontsnor_os.Prelude.Word.{ℤ, pos, u32_max}
use kontsnor_os.Errno.{SyscallResult, into, Errno}
use kontsnor_os.UserPtr.{UserMemory}
use kontsnor_os.Tasks.{Task, Kernel, get_task, put_task, on_current, caller}
use kontsnor_os.Tasks.Table.{
  caller-on_current, current-put, get_task-put_task_self, get_task-put_task_ne,
}
use kontsnor_os.Creds.Ids.{
  allowed2, allowed3, choose, setuid, setgid, setresuid, setresgid, setreuid, setregid, sys_setuid,
  sys_setgid, sys_setresuid, sys_setresgid, sys_setreuid, sys_setregid,
}
use kontsnor_os.Creds.Session.{sys_setpgid, sys_setsid, target, new_group}
use kontsnor_os.Creds.Groups.{setgroups, sys_setgroups}
use kontsnor_os.Creds.Calls.{Call, perform, run}

-- Every user ID of the task satisfies `P`.
pub record AllIds (P : ℕ → Type 0) (t : Task) : Type 0 where
  pub real : P t.uid
  pub effective : P t.euid
  pub saved : P t.suid

choose-among :
    (id a b c old : ℕ)
    → allowed3 id a b c ≡ true
    → (choose id old ≡ old) ⊎ ((choose id old ≡ a) ⊎ ((choose id old ≡ b) ⊎ (choose id old ≡ c)))
choose-among id a b c old h = ground arith

module _ (P : ℕ → Type 0) (not_root : ¬ (P 0)) where
  choose-keeps :
      (id old : ℕ) (t : Task)
      → AllIds P t
      → P old
      → allowed3 id t.uid t.euid t.suid ≡ true
      → P (choose id old)
  choose-keeps id old t h p ok = elim (choose-among id t.uid t.euid t.suid old ok) [
    | inl e ↦ subst P (sym e) p
    | inr (inl e) ↦ subst P (sym e) h.real
    | inr (inr (inl e)) ↦ subst P (sym e) h.effective
    | inr (inr (inr e)) ↦ subst P (sym e) h.saved
  ]

  not_effective_root : (t : Task) → AllIds P t → (t.euid == 0) ≡ false
  not_effective_root t h = elim (Bool-cases (t.euid == 0)) [
    | inl e ↦ absurd (not_root (subst P ((==_iff t.euid 0).0 e) h.effective))
    | inr e ↦ e
  ]

  setuid-AllIds : (u : ℕ) (t : Task) → AllIds P t → AllIds P (setuid u t).1
  unfolding setuid
  setuid-AllIds u t h = rw (not_effective_root t h) (elim (Bool-cases (u == t.uid)) [
    | inl e ↦ rw e record {
      real = h.real;
      effective = subst P (sym ((==_iff u t.uid).0 e)) h.real;
      saved = h.saved;
    }
    | inr e ↦ rw e h
  ])

  setresuid-AllIds : (r e s : ℕ) (t : Task) → AllIds P t → AllIds P (setresuid r e s t).1
  unfolding setresuid
  setresuid-AllIds r e s t h =
      rw (not_effective_root t h) (elim (Bool-cases (allowed3 r t.uid t.euid t.suid)) [
        | inr no_real ↦ rw no_real h
        | inl real ↦ rw real (elim (Bool-cases (allowed3 e t.uid t.euid t.suid)) [
          | inr no_effective ↦ rw no_effective h
          | inl effective ↦ rw effective (elim (Bool-cases (allowed3 s t.uid t.euid t.suid)) [
            | inr no_saved ↦ rw no_saved h
            | inl saved ↦ rw saved record {
              real = choose-keeps r t.uid t h h.real real;
              effective = choose-keeps e t.euid t h h.effective effective;
              saved = choose-keeps s t.suid t h h.saved saved;
            }
          ])
        ])
      ])

  setreuid-AllIds : (r e : ℕ) (t : Task) → AllIds P t → AllIds P (setreuid r e t).1
  unfolding setreuid
  setreuid-AllIds r e t h =
      rw (not_effective_root t h) (elim (Bool-cases (allowed2 r t.uid t.euid)) [
        | inr no_real ↦ rw no_real h
        | inl real ↦ rw real (elim (Bool-cases (allowed3 e t.uid t.euid t.suid)) [
          | inr no_effective ↦ rw no_effective h
          | inl effective ↦ rw effective record {
            real = choose-keeps r t.uid t h h.real (ground arith);
            effective = choose-keeps e t.euid t h h.effective effective;
            saved = h.saved;
          }
        ])
      ])

-- Two tasks with the same user IDs.
record SameIds (t t' : Task) : Type 0 where
  real : t'.uid ≡ t.uid
  effective : t'.euid ≡ t.euid
  saved : t'.suid ≡ t.suid

SameIds-AllIds : (P : ℕ → Type 0) (t t' : Task) → SameIds t t' → AllIds P t → AllIds P t'
SameIds-AllIds P t t' s h = record {
  real = subst P (sym s.real) h.real;
  effective = subst P (sym s.effective) h.effective;
  saved = subst P (sym s.saved) h.saved;
}

-- The group calls and the session calls do not touch the user IDs.
setgid-SameIds : (g : ℕ) (t : Task) → SameIds t (setgid g t).1
unfolding setgid
setgid-SameIds g t = ground arith

setresgid-SameIds : (r e s : ℕ) (t : Task) → SameIds t (setresgid r e s t).1
unfolding setresgid
setresgid-SameIds r e s t = ground arith

setregid-SameIds : (r e : ℕ) (t : Task) → SameIds t (setregid r e t).1
unfolding setregid
setregid-SameIds r e t = ground arith

setgroups-SameIds :
    (m : UserMemory) (size list : ℕ) (t : Task) → SameIds t (setgroups m size list t).1
unfolding setgroups
setgroups-SameIds m size list t = ground arith

-- What a call leaves the caller with.
abbrev Leaves : (Task → Type 0) → Kernel → Type 0
Leaves Q k = (t : Task) × (caller k ≡ some t) × Q t

on_current-Leaves :
    (Q : Task → Type 0) (k : Kernel) (call : Task → SyscallResult × Task) (t : Task)
    → caller k ≡ some t
    → Q (call t).1
    → Leaves Q (on_current k call).1
on_current-Leaves Q k call t running q = ((call t).1, (caller-on_current k call t running).1, q)

caller-running : (k : Kernel) (pid : ℕ) → k.current ≡ some pid → caller k ≡ get_task k pid
caller-running k pid e = ground arith

put_task-SameIds :
    (k : Kernel) (p : ℕ) (old new t : Task)
    → caller k ≡ some t
    → get_task k p ≡ some old
    → SameIds old new
    → Leaves (SameIds t) (put_task k p new)
put_task-SameIds k p old new t running found same = elim (Option-cases k.current) [
  | inl idle ↦ ground arith
  | inr (pid, e) ↦
      let kept : (put_task k p new).current ≡ some pid = current-put k p new ∙ e in
      let asked = caller-running (put_task k p new) pid kept in
      elim (ℕ_discrete p pid) [
        | yes own ↦
            let mine : some t ≡ some old =
              sym running ∙ caller-running k pid e ∙ ap (get_task k) (sym own) ∙ found in
            let read =
              ap (get_task (put_task k p new)) (sym own)
              ∙ get_task-put_task_self k p old new found in
            (new, asked ∙ read, ground arith)
        | no other ↦ (
          t,
          asked ∙ get_task-put_task_ne k p pid new other ∙ sym (caller-running k pid e) ∙ running,
          record { real = refl; effective = refl; saved = refl },
        )
      ]
]

setpgid-SameIds :
    (pid pgid : ℤ) (k : Kernel) (t : Task)
    → caller k ≡ some t
    → Leaves (SameIds t) (sys_setpgid pid pgid k).1
unfolding sys_setpgid
setpgid-SameIds pid pgid k t running = elim (Option-cases (target k pid)) [
  | inl none_named ↦ rw (none_named, sys_setpgid) (t, running, unchanged)
  | inr (p, named) ↦
      rw (named, sys_setpgid)
        (elim (Option-cases (get_task k p)) [
          | inl gone ↦ rw gone (t, running, unchanged)
          | inr (old, found) ↦ rw found (
              put_task-SameIds k p old (record old { pgid = new_group pgid p }) t running found
                (record { real = refl; effective = refl; saved = refl }))
        ])
]
  where
    unchanged : SameIds t t
    unchanged = record { real = refl; effective = refl; saved = refl }

setsid-SameIds : (k : Kernel) (t : Task) → caller k ≡ some t → Leaves (SameIds t) (sys_setsid k).1
unfolding sys_setsid
setsid-SameIds k t running = elim (Option-cases k.current) [
  | inl idle ↦ ground arith
  | inr (p, e) ↦
      let found : get_task k p ≡ some t = sym (caller-running k p e) ∙ running in
      let done : (sys_setsid k).1 ≡ put_task k p (record t { pgid = p; sid = p }) = ground arith in
      rw done (
        put_task-SameIds k p t (record t { pgid = p; sid = p }) t running found
          (record { real = refl; effective = refl; saved = refl }))
]

module _ (P : ℕ → Type 0) (not_root : ¬ (P 0)) where
  perform-AllIds :
      (c : Call) (k : Kernel) (t : Task)
      → caller k ≡ some t
      → AllIds P t
      → Leaves (AllIds P) (perform c k).1
  unfolding perform sys_setuid sys_setgid sys_setresuid sys_setresgid sys_setreuid sys_setregid
      sys_setgroups
  perform-AllIds (Call.do_setuid u) k t running h =
      on_current-Leaves (AllIds P) k (setuid u) t running (setuid-AllIds P not_root u t h)
  perform-AllIds (Call.do_setgid g) k t running h =
      on_current-Leaves (AllIds P) k (setgid g) t running
        (SameIds-AllIds P t _ (setgid-SameIds g t) h)
  perform-AllIds (Call.do_setresuid r e s) k t running h =
      on_current-Leaves (AllIds P) k (setresuid r e s) t running
        (setresuid-AllIds P not_root r e s t h)
  perform-AllIds (Call.do_setresgid r e s) k t running h =
      on_current-Leaves (AllIds P) k (setresgid r e s) t running
        (SameIds-AllIds P t _ (setresgid-SameIds r e s t) h)
  perform-AllIds (Call.do_setreuid r e) k t running h =
      on_current-Leaves (AllIds P) k (setreuid r e) t running (setreuid-AllIds P not_root r e t h)
  perform-AllIds (Call.do_setregid r e) k t running h =
      on_current-Leaves (AllIds P) k (setregid r e) t running
        (SameIds-AllIds P t _ (setregid-SameIds r e t) h)
  perform-AllIds (Call.do_setgroups m size list) k t running h = elim (Bool-cases (ltb 32 size)) [
    | inl many ↦ rw (many, sys_setgroups) (t, running, h)
    | inr few ↦
        rw (few, sys_setgroups)
          (on_current-Leaves (AllIds P) k (setgroups m size list) t running
            (SameIds-AllIds P t _ (setgroups-SameIds m size list t) h))
  ]
  perform-AllIds (Call.do_setpgid pid pgid) k t running h =
      let (t', running', same) = setpgid-SameIds pid pgid k t running in
      (t', running', SameIds-AllIds P t t' same h)
  perform-AllIds Call.do_setsid k t running h =
      let (t', running', same) = setsid-SameIds k t running in
      (t', running', SameIds-AllIds P t t' same h)

  -- Whatever sequence of these calls a task makes, a property of its three user IDs that user 0
  -- does not have is kept: with `P i = i ≢ 0`, a task without a user ID 0 cannot get one.
  pub run-AllIds :
      (cs : List Call) (k : Kernel) (t : Task)
      → caller k ≡ some t
      → AllIds P t
      → (t' : Task) × (caller (run cs k) ≡ some t') × AllIds P t'
  unfolding run
  run-AllIds [] k t running h = (t, running, h)
  run-AllIds (c ∷ cs) k t running h =
      let (t', running', h') = perform-AllIds c k t running h in
      run-AllIds cs (perform c k).1 t' running' h'

-- A superuser that has left its saved ID at 0, as `setuid` does, gets back from `setuid` to any
-- user by one `setresuid`, for which it has the permission of its saved ID.
pub setuid_reversible :
    (u : ℕ) (t : Task)
    → t.euid ≡ 0
    → t.suid ≡ 0
    → let dropped = (setuid u t).1 in
      let (r, back) = setresuid u32_max 0 u32_max dropped in
      (dropped.euid ≡ u) × (dropped.suid ≡ 0) × (r ≡ pos 0) × (back.euid ≡ 0)
unfolding setuid setresuid
setuid_reversible u t e s = ground arith

-- The group calls differ in whom they take for privileged: a task with the effective group 0 sets
-- any group by `setgid`, although its effective user is not 0 and `setregid` and `setresgid`
-- refuse it a group that is none of its own.
pub setgid_privilege :
    (g : ℕ) (t : Task)
    → t.egid ≡ 0
    → t.euid ≢ 0
    → g ≢ u32_max
    → g ≢ t.gid
    → g ≢ 0
    → g ≢ t.sgid
    → ((setgid g t).1.gid ≡ g)
      × ((setgid g t).1.egid ≡ g)
      × (setregid g g t ≡ (into Errno.eperm, t))
      × (setresgid g g g t ≡ (into Errno.eperm, t))
unfolding setgid setregid setresgid
setgid_privilege g t e u a b c d = ground arith
