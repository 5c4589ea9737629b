-- ===== src/Locks/Ticket/Tests.antt =====
-- One processor takes the ticket lock, and calls `lock` again.
use kontsnor_os.Prelude.{arith, ℕ, ◌≤◌, ◌<◌, ◌≡◌, refl, true, false, some}
use kontsnor_os.Locks.Ticket.{
  TicketLock, new, goto, spinning, served, inside, checked, Reach, start, next, assert_holds,
  take_ticket, called, hold, reentered, reenter_fails,
}
use kontsnor_os.Locks.Ticket.Exclusion.{ticket, is_inside, is_misled, mutual_exclusion}

abbrev waiting : TicketLock
waiting = record (goto 3 (spinning 0) (goto 3 checked new)) { next_ticket = 1 }

abbrev taken : TicketLock
taken = record (goto 3 (inside 0) (goto 3 (served 0) waiting)) { holding_cpu = some 3 }

-- The second call fails its assertion.
abbrev again : TicketLock
again = goto 3 (reentered 0) taken

again-Reach : Reach 5 again
again-Reach =
    next 3
      (next 3
        (next 3
          (next 3 (next 3 start (assert_holds new refl (λ e. cc)))
            (take_ticket (goto 3 checked new) refl))
          (called waiting 0 refl refl))
        (hold (goto 3 (served 0) waiting) 0 refl))
      (reenter_fails taken 0 refl refl)

mutual_exclusion_example :
    ((c d : ℕ) → is_inside (again.pc c) ≡ true → is_inside (again.pc d) ≡ true → c ≡ d)
    × ((c t : ℕ) → ticket (again.pc c) ≡ some t → (0 ≤ t) × (t < 1))
    × ((c d t : ℕ) → ticket (again.pc c) ≡ some t → ticket (again.pc d) ≡ some t → c ≡ d)
    × ((c : ℕ) → again.holding_cpu ≡ some c → is_inside (again.pc c) ≡ true)
    × ((c : ℕ) → is_inside (again.pc c) ≡ true → again.holding_cpu ≡ some c)
    × ((c : ℕ) → is_misled (again.pc c) ≡ false)
mutual_exclusion_example = mutual_exclusion again-Reach (omega arith)
