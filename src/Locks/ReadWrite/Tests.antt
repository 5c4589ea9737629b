-- ===== src/Locks/ReadWrite/Tests.antt =====
-- Three callers at the reader-writer lock.
use kontsnor_os.Prelude.{◌≡◌, refl, ◌⊎◌, true, ◌==◌, if◌then◌else◌, arith}
use kontsnor_os.Prelude.Word.{pos, negsuc}
use kontsnor_os.Locks.Cores.{count}
use kontsnor_os.Locks.ReadWrite.{
  idle, reader, writing, vacant, writer, clearing, RwLock, new, goto, Reach, here, next,
  start_write, see_free, write_succeeds,
}
use kontsnor_os.Locks.ReadWrite.Exclusion.{is_reader, is_writer, rw_exclusion}
use kontsnor_os.Locks.ReadWrite.Priority.{writer_overtaken}

abbrev asked : RwLock
asked = record (goto 1 writing new) { writer_pending = true }

abbrev written : RwLock
written = record (goto 1 writer (goto 1 vacant asked)) { state = negsuc 0 }

written-Reach : Reach 2 new written
written-Reach =
    next 1 (omega arith)
      (next 1 (omega arith) (next 1 (omega arith) here (start_write new refl))
        (see_free asked refl refl))
      (write_succeeds (goto 1 vacant asked) refl refl)

-- Caller 0 leaves as a writer, 1 waits as one, and 2 is in no call.
abbrev leaving : RwLock
leaving = record {
  state = pos 0;
  writer_pending = true;
  pc = λ c. if c == 0 then clearing else if c == 1 then writing else idle;
}

rw_exclusion_example :
    ((count is_writer 2 written.pc ≡ 0) × (written.state ≡ pos (count is_reader 2 written.pc)))
    ⊎ ((count is_writer 2 written.pc ≡ 1)
        × (count is_reader 2 written.pc ≡ 0)
        × (written.state ≡ negsuc 0))
rw_exclusion_example = rw_exclusion 2 written-Reach

writer_overtaken_example :
    (l' : RwLock) × Reach 3 leaving l' × (l'.pc 1 ≡ writing) × (l'.pc 2 ≡ reader)
writer_overtaken_example =
    writer_overtaken 3 leaving 0 1 2 (omega arith) (omega arith) (λ e. omega (arith, e))
      (λ e. omega (arith, e)) (λ e. omega (arith, e)) refl refl refl refl
