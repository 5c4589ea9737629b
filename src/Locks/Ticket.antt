-- ===== src/Locks/Ticket.antt =====
-- The ticket lock of kernel/src/sync/spinlock.rs: `lock`, `try_lock` and the drop of the guard, each
-- cut at its accesses to the shared words. A processor that holds the guard may call `lock` and
-- `try_lock` again. `force_unlock`, which is unsafe, has no step.
pub mod Exclusion
mod Tests
use kontsnor_os.Prelude.{ℕ, zero, suc, ◌+◌, ◌%◌, ◌^◌, ◌≡◌, ◌≢◌, Option, none, some}
use kontsnor_os.Locks.Cores.{update}

-- Where a processor stands. `checked` has passed the assertion of `lock`, `spinning` waits with its
-- ticket, `served` has seen it called, `inside` holds the guard, `leaving` has cleared `holding_cpu`.
-- `tried` has found the lock free in `try_lock`, and `loaded` has read `now_serving` there. In a call
-- of a processor that holds the guard, `reentered` has failed the assertion, and `missed` has read a
-- `holding_cpu` that lets the call go on; a processor takes no step from either, nor when `panicked`.
pub data Pc : Type 0 where
  idle checked tried panicked : Pc
  spinning served inside leaving loaded reentered missed : ℕ → Pc

-- `holding_cpu` is `none` at 0xFFFFFFFF.
pub record TicketLock : Type 0 where
  pub next_ticket : ℕ
  pub now_serving : ℕ
  pub holding_cpu : Option ℕ
  pub pc : ℕ → Pc

-- `TicketLock::new`, with no processor in a call.
abbrev pub new : TicketLock
new = record { next_ticket = 0; now_serving = 0; holding_cpu = none; pc = λ c. idle }

abbrev pub goto : ℕ → Pc → TicketLock → TicketLock
goto c p l = record l { pc = update l.pc c p }

-- One step of processor `c`.
pub data Step (c : ℕ) : TicketLock → TicketLock → Type 0 where
  -- `lock`
  assert_fails :
      (l : TicketLock) → l.pc c ≡ idle → l.holding_cpu ≡ some c → Step c l (goto c panicked l)
  assert_holds :
      (l : TicketLock) → l.pc c ≡ idle → l.holding_cpu ≢ some c → Step c l (goto c checked l)
  take_ticket :
      (l : TicketLock)
      → l.pc c ≡ checked
      → Step c l (record (goto c (spinning l.next_ticket) l) {
        next_ticket = (l.next_ticket + 1) % 2 ^ 64;
      })
  wait : (l : TicketLock) (t : ℕ) → l.pc c ≡ spinning t → l.now_serving ≢ t → Step c l l
  called :
      (l : TicketLock) (t : ℕ)
      → l.pc c ≡ spinning t
      → l.now_serving ≡ t
      → Step c l (goto c (served t) l)
  hold :
      (l : TicketLock) (t : ℕ)
      → l.pc c ≡ served t
      → Step c l (record (goto c (inside t) l) { holding_cpu = some c })
  -- `try_lock`
  try_held : (l : TicketLock) (d : ℕ) → l.pc c ≡ idle → l.holding_cpu ≡ some d → Step c l l
  try_free : (l : TicketLock) → l.pc c ≡ idle → l.holding_cpu ≡ none → Step c l (goto c tried l)
  try_load : (l : TicketLock) → l.pc c ≡ tried → Step c l (goto c (loaded l.now_serving) l)
  try_succeeds :
      (l : TicketLock) (t : ℕ)
      → l.pc c ≡ loaded t
      → l.next_ticket ≡ t
      → Step c l (record (goto c (served t) l) { next_ticket = (t + 1) % 2 ^ 64 })
  try_fails :
      (l : TicketLock) (t : ℕ) → l.pc c ≡ loaded t → l.next_ticket ≢ t → Step c l (goto c idle l)
  -- `lock` and `try_lock` while the processor holds the guard
  reenter_fails :
      (l : TicketLock) (t : ℕ)
      → l.pc c ≡ inside t
      → l.holding_cpu ≡ some c
      → Step c l (goto c (reentered t) l)
  reenter_missed :
      (l : TicketLock) (t : ℕ)
      → l.pc c ≡ inside t
      → l.holding_cpu ≢ some c
      → Step c l (goto c (missed t) l)
  retry_held : (l : TicketLock) (t d : ℕ) → l.pc c ≡ inside t → l.holding_cpu ≡ some d → Step c l l
  retry_missed :
      (l : TicketLock) (t : ℕ)
      → l.pc c ≡ inside t
      → l.holding_cpu ≡ none
      → Step c l (goto c (missed t) l)
  -- `drop` of the guard
  release :
      (l : TicketLock) (t : ℕ)
      → l.pc c ≡ inside t
      → Step c l (record (goto c (leaving t) l) { holding_cpu = none })
  call_next :
      (l : TicketLock) (t : ℕ)
      → l.pc c ≡ leaving t
      → Step c l (record (goto c idle l) { now_serving = (l.now_serving + 1) % 2 ^ 64 })

-- Any interleaving of the processors, of so many steps.
pub data Reach : ℕ → TicketLock → Type 0 where
  start : Reach zero new
  next : {k : ℕ} {l l' : TicketLock} (c : ℕ) → Reach k l → Step c l l' → Reach (suc k) l'
