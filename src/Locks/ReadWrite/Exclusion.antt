-- ===== src/Locks/ReadWrite/Exclusion.antt =====
-- Readers and writers exclude one another (kernel/src/sync/rwlock.rs).
use kontsnor_os.Prelude.{
  ℕ, zero, suc, ◌+◌, ◌<◌, ◌≡◌, refl, sym, ap, ◌∙◌, ◌⊎◌, inl, inr, Bool, true, false, arith,
}
use mathlib.Core.Path.{subst}
use kontsnor_os.Prelude.Word.{ℤ, pos, negsuc}
use kontsnor_os.Locks.Cores.{update, weight, count, count-update, count-none}
use kontsnor_os.Locks.ReadWrite.{
  Pc, idle, reading, unblocked, reader, writing, vacant, writer, clearing, sampled, RwLock, new,
  goto, pred, Step, start_read, see_pending, see_none, sample_writer, sample, read_succeeds,
  read_fails, release_read, start_write, wait, see_free, write_succeeds, write_fails, release_write,
  clear_pending, Reach, here, next,
}

abbrev pub is_reader : Pc → Bool
is_reader reader = true
is_reader _ = false

abbrev pub is_writer : Pc → Bool
is_writer writer = true
is_writer _ = false

-- The state word tells how many guards of each kind are held.
abbrev pub Counted : ℤ → (readers writers : ℕ) → Type 0
Counted (pos k) r w = (r ≡ k) × (w ≡ 0)
Counted (negsuc k) r w = (k ≡ 0) × (r ≡ 0) × (w ≡ 1)

abbrev pub Inv : ℕ → RwLock → Type 0
Inv n l = Counted l.state (count is_reader n l.pc) (count is_writer n l.pc)

module _ (n : ℕ) (l : RwLock) (c : ℕ) (below : c < n) (p q : Pc) (at : l.pc c ≡ p) where
  readers_then :
      count is_reader n (update l.pc c q) + weight (is_reader p)
      ≡ count is_reader n l.pc + weight (is_reader q)
  readers_then = rw (← at) (count-update is_reader n c l.pc q below)

  writers_then :
      count is_writer n (update l.pc c q) + weight (is_writer p)
      ≡ count is_writer n l.pc + weight (is_writer q)
  writers_then = rw (← at) (count-update is_writer n c l.pc q below)

Counted-same : (s : ℤ) (r w r' w' : ℕ) → Counted s r w → r' ≡ r → w' ≡ w → Counted s r' w'
Counted-same (pos k) r w r' w' h e f = (omega (arith, h, e), omega (arith, h, f))
Counted-same (negsuc k) r w r' w' h e f = (h.0, omega (arith, h, e), omega (arith, h, f))

Counted-pred :
    (s : ℤ) (r w r' w' : ℕ) → Counted s r w → r' + 1 ≡ r → w' ≡ w → Counted (pred s) r' w'
Counted-pred (pos zero) r w r' w' h e f = absurd (omega (arith, h, e))
Counted-pred (pos (suc k)) r w r' w' h e f = (omega (arith, h, e), omega (arith, h, f))
Counted-pred (negsuc k) r w r' w' h e f = absurd (omega (arith, h, e))

-- The last writer goes.
Counted-free : (s : ℤ) (r w r' w' : ℕ) → Counted s r w → r' ≡ r → w' + 1 ≡ w → Counted (pos 0) r' w'
Counted-free (pos k) r w r' w' h e f = absurd (omega (arith, h, f))
Counted-free (negsuc k) r w r' w' h e f = (omega (arith, h, e), omega (arith, h, f))

module _ (n : ℕ) where
  -- A step that neither takes nor drops a guard.
  Inv-goto :
      (l : RwLock) (c : ℕ) (p q : Pc)
      → c < n
      → l.pc c ≡ p
      → is_reader p ≡ is_reader q
      → is_writer p ≡ is_writer q
      → Inv n l
      → Inv n (goto c q l)
  Inv-goto l c p q below at r w h =
      let readers = readers_then n l c below p q at in
      let writers = writers_then n l c below p q at in
      let r' : weight (is_reader p) ≡ weight (is_reader q) = ap weight r in
      let w' : weight (is_writer p) ≡ weight (is_writer q) = ap weight w in
      Counted-same l.state (count is_reader n l.pc) (count is_writer n l.pc)
        (count is_reader n (update l.pc c q)) (count is_writer n (update l.pc c q)) h
        (omega (arith, readers, r')) (omega (arith, writers, w'))

  Step-Inv : {c : ℕ} {l l' : RwLock} → c < n → Step c l l' → Inv n l → Inv n l'
  Step-Inv {c} b (start_read l e) h = Inv-goto l c idle reading b e refl refl h
  Step-Inv {c} b (see_pending l e p) h = h
  Step-Inv {c} b (see_none l e p) h = Inv-goto l c reading unblocked b e refl refl h
  Step-Inv {c} b (sample_writer l k e s) h = Inv-goto l c unblocked reading b e refl refl h
  Step-Inv {c} b (sample l k e s) h = Inv-goto l c unblocked (sampled k) b e refl refl h
  Step-Inv {c} b (read_succeeds l k e s) h =
      let (r, w) = subst (λ z. Counted z (count is_reader n l.pc) (count is_writer n l.pc)) s h in
      let readers = readers_then n l c b (sampled k) reader e in
      let writers = writers_then n l c b (sampled k) reader e in
      (omega (arith, r, readers), omega (arith, w, writers))
  Step-Inv {c} b (read_fails l k e) h = Inv-goto l c (sampled k) reading b e refl refl h
  Step-Inv {c} b (release_read l e) h =
      let readers = readers_then n l c b reader idle e in
      let writers = writers_then n l c b reader idle e in
      Counted-pred l.state (count is_reader n l.pc) (count is_writer n l.pc)
        (count is_reader n (update l.pc c idle)) (count is_writer n (update l.pc c idle)) h
        (omega (arith, readers)) (omega (arith, writers))
  Step-Inv {c} b (start_write l e) h = Inv-goto l c idle writing b e refl refl h
  Step-Inv {c} b (wait l e s) h = h
  Step-Inv {c} b (see_free l e s) h = Inv-goto l c writing vacant b e refl refl h
  Step-Inv {c} b (write_succeeds l e s) h =
      let (r, w) = subst (λ z. Counted z (count is_reader n l.pc) (count is_writer n l.pc)) s h in
      let readers = readers_then n l c b vacant writer e in
      let writers = writers_then n l c b vacant writer e in
      (refl, omega (arith, r, readers), omega (arith, w, writers))
  Step-Inv {c} b (write_fails l e) h = Inv-goto l c vacant writing b e refl refl h
  Step-Inv {c} b (release_write l e) h =
      let readers = readers_then n l c b writer clearing e in
      let writers = writers_then n l c b writer clearing e in
      Counted-free l.state (count is_reader n l.pc) (count is_writer n l.pc)
        (count is_reader n (update l.pc c clearing)) (count is_writer n (update l.pc c clearing)) h
        (omega (arith, readers)) (omega (arith, writers))
  Step-Inv {c} b (clear_pending l e) h = Inv-goto l c clearing idle b e refl refl h

  Reach-Inv : {from l : RwLock} → Inv n from → Reach n from l → Inv n l
  Reach-Inv h here = h
  Reach-Inv h (next c b r st) = Step-Inv b st (Reach-Inv h r)

-- In every interleaving of the steps of `n` callers that starts with the lock free, where a processor
-- with several calls or guards is as many callers, there is one of two cases: no writer's guard is held
-- and the state word is the number of readers' guards held, or one writer's guard and no reader's is
-- held and the state word is -1.
pub rw_exclusion :
    (n : ℕ) {l : RwLock}
    → Reach n new l
    → ((count is_writer n l.pc ≡ 0) × (l.state ≡ pos (count is_reader n l.pc)))
      ⊎ ((count is_writer n l.pc ≡ 1) × (count is_reader n l.pc ≡ 0) × (l.state ≡ negsuc 0))
rw_exclusion n {l} r = by_state l.state refl (Reach-Inv n start_free r)
  where
    start_free : Inv n new
    start_free = (count-none is_reader n idle refl, count-none is_writer n idle refl)

    by_state :
        (s : ℤ)
        → l.state ≡ s
        → Counted s (count is_reader n l.pc) (count is_writer n l.pc)
        → ((count is_writer n l.pc ≡ 0) × (l.state ≡ pos (count is_reader n l.pc)))
          ⊎ ((count is_writer n l.pc ≡ 1) × (count is_reader n l.pc ≡ 0) × (l.state ≡ negsuc 0))
    by_state (pos k) e h = inl (h.1, e ∙ ap pos (sym h.0))
    by_state (negsuc k) e h = inr (h.2, h.1, e ∙ ap negsuc h.0)
