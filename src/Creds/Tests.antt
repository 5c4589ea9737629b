-- ===== src/Creds/Tests.antt =====
-- The theorems on kernel/src/syscall/process/creds.rs at concrete inputs.
use kontsnor_os.Prelude.{◌≡◌, ◌≢◌, refl, List, [], ◌∷◌, none, some, arith, ◌==◌}
use kontsnor_os.Prelude.Word.{pos, u32_max}
use kontsnor_os.Errno.{into, Errno}
use kontsnor_os.UserPtr.{UserMemory}
use kontsnor_os.Tasks.{Task, Kernel, get_task, caller}
use kontsnor_os.Creds.Ids.{setuid, setgid, setresuid, setresgid, setregid}
use kontsnor_os.Creds.Calls.{Call, run}
use kontsnor_os.Creds.Privilege.{AllIds, run-AllIds, setuid_reversible, setgid_privilege}

abbrev superuser : Task
superuser = record {
  parent_pid = 1;
  tgid = 2;
  pgid = 2;
  sid = 2;
  uid = 0;
  gid = 0;
  euid = 0;
  egid = 0;
  suid = 0;
  sgid = 0;
  groups = [];
}

abbrev user : Task
user = record superuser { uid = 1000; gid = 100; euid = 1000; egid = 100; suid = 1001; sgid = 100 }

-- Task 1 is the superuser's, and task 2, which runs, is the user's.
abbrev kernel : Kernel
kernel = record { current = some 2; tasks = none ∷ some superuser ∷ some user ∷ [] }

abbrev memory : UserMemory
memory = record { mapped = λ p. p == 4096; word = λ a. a }

abbrev attempts : List Call
attempts =
    Call.do_setuid 0
    ∷ Call.do_setresuid u32_max 1001 0
    ∷ Call.do_setreuid 1001 1000
    ∷ Call.do_setsid
    ∷ Call.do_setgroups memory 1 4096
    ∷ []

run-AllIds_example : (t' : Task) × (caller (run attempts kernel) ≡ some t') × AllIds (λ i. i ≢ 0) t'
unfolding get_task
run-AllIds_example =
    run-AllIds (λ i. i ≢ 0) (λ h. h refl) attempts kernel user refl
      (record { real = omega arith; effective = omega arith; saved = omega arith })

setuid_reversible_example :
    let dropped = (setuid 1000 superuser).1 in
    let (r, back) = setresuid u32_max 0 u32_max dropped in
    (dropped.euid ≡ 1000) × (dropped.suid ≡ 0) × (r ≡ pos 0) × (back.euid ≡ 0)
setuid_reversible_example = setuid_reversible 1000 superuser refl refl

abbrev root_group : Task
root_group = record user { egid = 0 }

setgid_privilege_example :
    ((setgid 5 root_group).1.gid ≡ 5)
    × ((setgid 5 root_group).1.egid ≡ 5)
    × (setregid 5 5 root_group ≡ (into Errno.eperm, root_group))
    × (setresgid 5 5 5 root_group ≡ (into Errno.eperm, root_group))
setgid_privilege_example =
    setgid_privilege 5 root_group refl (omega arith) (omega arith) (omega arith) (omega arith)
      (omega arith)
