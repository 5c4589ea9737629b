-- ===== src/Locks/ReadWrite/Priority.antt =====
-- The flag by which a waiting writer holds off new readers (kernel/src/sync/rwlock.rs), and how the
-- drop of another writer takes it away.
use kontsnor_os.Prelude.{ℕ, ◌<◌, ◌≡◌, ◌≢◌, refl, sym, ◌∙◌, false}
use kontsnor_os.Prelude.Word.{pos}
use kontsnor_os.Locks.Cores.{update_self, update_ne}
use kontsnor_os.Locks.ReadWrite.{
  idle, reading, unblocked, reader, writing, clearing, sampled, RwLock, goto, Step, start_read,
  see_none, sample, read_succeeds, clear_pending, Reach, here, next,
}

-- When a writer is about to clear the flag while another waits, then a third caller can go on to
-- hold a reader's guard while that writer still waits: the flag does not hold the reader off.
pub writer_overtaken :
    (n : ℕ) (l : RwLock) (c w r : ℕ)
    → c < n
    → r < n
    → c ≢ r
    → c ≢ w
    → r ≢ w
    → l.pc c ≡ clearing
    → l.pc w ≡ writing
    → l.pc r ≡ idle
    → l.state ≡ pos 0
    → (l' : RwLock) × Reach n l l' × (l'.pc w ≡ writing) × (l'.pc r ≡ reader)
writer_overtaken n l c w r cn rn cr cw rw' leaving waits free state = (
  l5,
  next r rn (next r rn (next r rn (next r rn (next c cn here s1) s2) s3) s4) s5,
  waiting,
  update_self l4.pc r reader,
)
  where
    l1 : RwLock
    l1 = record (goto c idle l) { writer_pending = false }

    l2 : RwLock
    l2 = goto r reading l1

    l3 : RwLock
    l3 = goto r unblocked l2

    l4 : RwLock
    l4 = goto r (sampled 0) l3

    l5 : RwLock
    l5 = record (goto r reader l4) { state = pos 1 }

    s1 : Step c l l1
    s1 = clear_pending l leaving

    s2 : Step r l1 l2
    s2 = start_read l1 (update_ne l.pc c idle r (λ e. cr (sym e)) ∙ free)

    s3 : Step r l2 l3
    s3 = see_none l2 (update_self l1.pc r reading) refl

    s4 : Step r l3 l4
    s4 = sample l3 0 (update_self l2.pc r unblocked) state

    s5 : Step r l4 l5
    s5 = read_succeeds l4 0 (update_self l3.pc r (sampled 0)) state

    far : w ≢ r
    far e = rw' (sym e)

    waiting : l5.pc w ≡ writing
    waiting =
        update_ne l4.pc r reader w far
        ∙ update_ne l3.pc r (sampled 0) w far
        ∙ update_ne l2.pc r unblocked w far
        ∙ update_ne l1.pc r reading w far
        ∙ update_ne l.pc c idle w (λ e. cw (sym e))
        ∙ waits
