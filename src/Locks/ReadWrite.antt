-- ===== src/Locks/ReadWrite.antt =====
-- The reader-writer lock of kernel/src/sync/rwlock.rs: `read`, `write` and the drops of their guards,
-- each cut at its accesses to `state` and `writer_pending`. A weak exchange may fail at any time. The
-- lock knows no processors: the steps are those of callers, each of which has one call under way or one
-- guard at a time. A processor that holds a guard and calls `read` or `write` again, also before it
-- drops the first guard, is one more caller.
pub mod Exclusion
pub mod Priority
mod Tests
use kontsnor_os.Prelude.{ℕ, zero, suc, ◌+◌, ◌<◌, ◌≡◌, ◌≢◌, Bool, true, false}
use kontsnor_os.Prelude.Word.{ℤ, pos, negsuc}
use kontsnor_os.Locks.Cores.{update}

-- In `read`: `reading` is at the top of the loop, `unblocked` has seen no writer pending, `sampled`
-- has loaded the state. In `write`: `writing` waits, `vacant` has seen the state 0. `clearing` has
-- stored the state and not yet the flag in the drop of a writer.
pub data Pc : Type 0 where
  idle reading unblocked reader writing vacant writer clearing : Pc
  sampled : ℕ → Pc

pub record RwLock : Type 0 where
  pub state : ℤ
  pub writer_pending : Bool
  pub pc : ℕ → Pc

-- `KRwLock::new`
abbrev pub new : RwLock
new = record { state = pos 0; writer_pending = false; pc = λ c. idle }

abbrev pub goto : ℕ → Pc → RwLock → RwLock
goto c p l = record l { pc = update l.pc c p }

-- `fetch_sub(1)`
abbrev pub pred : ℤ → ℤ
pred (pos zero) = negsuc 0
pred (pos (suc n)) = pos n
pred (negsuc n) = negsuc (suc n)

-- One step of caller `c`.
pub data Step (c : ℕ) : RwLock → RwLock → Type 0 where
  -- `read`
  start_read : (l : RwLock) → l.pc c ≡ idle → Step c l (goto c reading l)
  see_pending : (l : RwLock) → l.pc c ≡ reading → l.writer_pending ≡ true → Step c l l
  see_none :
      (l : RwLock) → l.pc c ≡ reading → l.writer_pending ≡ false → Step c l (goto c unblocked l)
  sample_writer :
      (l : RwLock) (n : ℕ) → l.pc c ≡ unblocked → l.state ≡ negsuc n → Step c l (goto c reading l)
  sample :
      (l : RwLock) (n : ℕ) → l.pc c ≡ unblocked → l.state ≡ pos n → Step c l (goto c (sampled n) l)
  read_succeeds :
      (l : RwLock) (n : ℕ)
      → l.pc c ≡ sampled n
      → l.state ≡ pos n
      → Step c l (record (goto c reader l) { state = pos (n + 1) })
  read_fails : (l : RwLock) (n : ℕ) → l.pc c ≡ sampled n → Step c l (goto c reading l)
  release_read :
      (l : RwLock) → l.pc c ≡ reader → Step c l (record (goto c idle l) { state = pred l.state })
  -- `write`
  start_write :
      (l : RwLock) → l.pc c ≡ idle → Step c l (record (goto c writing l) { writer_pending = true })
  wait : (l : RwLock) → l.pc c ≡ writing → l.state ≢ pos 0 → Step c l l
  see_free : (l : RwLock) → l.pc c ≡ writing → l.state ≡ pos 0 → Step c l (goto c vacant l)
  write_succeeds :
      (l : RwLock)
      → l.pc c ≡ vacant
      → l.state ≡ pos 0
      → Step c l (record (goto c writer l) { state = negsuc 0 })
  write_fails : (l : RwLock) → l.pc c ≡ vacant → Step c l (goto c writing l)
  release_write :
      (l : RwLock) → l.pc c ≡ writer → Step c l (record (goto c clearing l) { state = pos 0 })
  clear_pending :
      (l : RwLock)
      → l.pc c ≡ clearing
      → Step c l (record (goto c idle l) { writer_pending = false })

-- Any interleaving of the steps of `n` callers, from a given lock on.
pub data Reach (n : ℕ) (from : RwLock) : RwLock → Type 0 where
  here : Reach n from from
  next : {l l' : RwLock} (c : ℕ) → c < n → Reach n from l → Step c l l' → Reach n from l'
