-- ===== src/Locks/Ticket/Exclusion.antt =====
-- Mutual exclusion of the ticket lock (kernel/src/sync/spinlock.rs).
use kontsnor_os.Prelude.{
  ℕ, ◌+◌, ◌%◌, ◌^◌, ◌≤◌, ◌<◌, ◌≡◌, ◌≢◌, refl, sym, ap, ◌∙◌, Bool, true, false, Option, none, some,
  arith,
}
use mathlib.Core.Path.{subst}
use kontsnor_os.Locks.Cores.{update, update_self, update_others, update_all, update_pairs}
use kontsnor_os.Locks.Ticket.{
  Pc, idle, checked, tried, panicked, spinning, served, inside, leaving, loaded, reentered, missed,
  TicketLock, new, goto, Step, assert_fails, assert_holds, take_ticket, wait, called, hold,
  try_held, try_free, try_load, try_succeeds, try_fails, reenter_fails, reenter_missed, retry_held,
  retry_missed, release, call_next, Reach, start, next,
}

-- The ticket that a processor has, the ticket that it has seen called, and the value it has loaded.
abbrev pub ticket : Pc → Option ℕ
ticket (spinning t) = some t
ticket (served t) = some t
ticket (inside t) = some t
ticket (leaving t) = some t
ticket (reentered t) = some t
ticket (missed t) = some t
ticket _ = none

abbrev pub turn : Pc → Option ℕ
turn (served t) = some t
turn (inside t) = some t
turn (leaving t) = some t
turn (reentered t) = some t
turn (missed t) = some t
turn _ = none

abbrev pub seen : Pc → Option ℕ
seen (loaded t) = some t
seen _ = none

-- The processor holds the guard.
abbrev pub is_inside : Pc → Bool
is_inside (inside t) = true
is_inside (reentered t) = true
is_inside (missed t) = true
is_inside _ = false

-- The assertion of `lock` has failed though the processor does not hold the guard, or `lock` or
-- `try_lock` has gone on though it does.
abbrev pub is_misled : Pc → Bool
is_misled panicked = true
is_misled (missed t) = true
is_misled _ = false

turn-ticket : (p : Pc) (t : ℕ) → turn p ≡ some t → ticket p ≡ some t
turn-ticket (served s) t e = e
turn-ticket (inside s) t e = e
turn-ticket (leaving s) t e = e
turn-ticket (reentered s) t e = e
turn-ticket (missed s) t e = e
turn-ticket idle t e = cc
turn-ticket checked t e = cc
turn-ticket tried t e = cc
turn-ticket panicked t e = cc
turn-ticket (spinning s) t e = cc
turn-ticket (loaded s) t e = cc

-- What holds of a processor, and of two.
abbrev pub Fits : (issued now : ℕ) → Pc → Type 0
Fits issued now p =
    ((t : ℕ) → ticket p ≡ some t → (now ≤ t) × (t < issued))
    × ((t : ℕ) → turn p ≡ some t → t ≡ now)
    × ((t : ℕ) → seen p ≡ some t → t ≤ now)
    × (is_misled p ≡ false)

abbrev pub Apart : ℕ → Pc → ℕ → Pc → Type 0
Apart d p e q = (t : ℕ) → ticket p ≡ some t → ticket q ≡ some t → d ≡ e

pub record Inv (l : TicketLock) : Type 0 where
  pub order : l.now_serving ≤ l.next_ticket
  pub fits : (c : ℕ) → Fits l.next_ticket l.now_serving (l.pc c)
  pub apart : (c d : ℕ) → Apart c (l.pc c) d (l.pc d)
  pub owner : (c : ℕ) → l.holding_cpu ≡ some c → is_inside (l.pc c) ≡ true
  pub marked : (c : ℕ) → is_inside (l.pc c) ≡ true → l.holding_cpu ≡ some c

Inv-new : Inv new
Inv-new = record {
  order = omega arith;
  fits = λ c. ((λ t e. cc), (λ t e. cc), (λ t e. cc), refl);
  apart = λ c d t e. cc;
  owner = λ c e. cc;
  marked = λ c e. cc;
}

-- A step of `c` that does not call the next ticket.
module _ (l : TicketLock) (v : Inv l) (c : ℕ) (p : Pc) (next' : ℕ) (holding' : Option ℕ) where
  Inv-step :
      l.next_ticket ≤ next'
      → Fits next' l.now_serving p
      → ((d : ℕ) → d ≢ c → Apart d (l.pc d) c p)
      → ((d : ℕ) → holding' ≡ some d → is_inside (update l.pc c p d) ≡ true)
      → ((d : ℕ) → is_inside (update l.pc c p d) ≡ true → holding' ≡ some d)
      → Inv (record (goto c p l) { next_ticket = next'; holding_cpu = holding' })
  Inv-step more own fresh owned marks = record {
    order = omega (arith, v.order, more);
    fits =
        update_all l.pc c p (λ d q. Fits next' l.now_serving q)
          (λ d.
            let (range, turns, loads, calm) = v.fits d in
            ((λ t e. let (a, b) = range t e in (a, omega (arith, b, more))), turns, loads, calm))
          own;
    apart =
        update_pairs l.pc c p Apart v.apart fresh (λ e ne t a b. sym (fresh e ne t b a))
          (λ t a b. refl);
    owner = owned;
    marked = marks;
  }

module _ (l : TicketLock) (v : Inv l) (c : ℕ) where
  -- What `c` kept of its place serves its new one.
  Apart-kept :
      (p q : Pc) → l.pc c ≡ p → ticket p ≡ ticket q → (d : ℕ) → d ≢ c → Apart d (l.pc d) c q
  Apart-kept p q e same d ne t a b = v.apart d c t a (ap ticket e ∙ same ∙ b)

  Apart-none : (q : Pc) → ticket q ≡ none → (d : ℕ) → d ≢ c → Apart d (l.pc d) c q
  Apart-none q empty d ne t a b = cc

  owner_kept :
      (p q : Pc)
      → l.pc c ≡ p
      → is_inside p ≡ false
      → (d : ℕ) → l.holding_cpu ≡ some d
      → is_inside (update l.pc c q d) ≡ true
  owner_kept p q e out =
      update_all l.pc c q (λ d r. l.holding_cpu ≡ some d → is_inside r ≡ true) v.owner
        (λ h. let was = v.owner c h in let now = ap is_inside e ∙ out in cc)

  marked_kept :
      (q : Pc)
      → is_inside q ≡ false
      → (d : ℕ) → is_inside (update l.pc c q d) ≡ true
      → l.holding_cpu ≡ some d
  marked_kept q out =
      update_all l.pc c q (λ d r. is_inside r ≡ true → l.holding_cpu ≡ some d) v.marked (λ i. cc)

  -- A step that only moves the processor, to a place without a ticket.
  Inv-goto :
      (p q : Pc)
      → l.pc c ≡ p
      → is_inside p ≡ false
      → is_inside q ≡ false
      → ticket q ≡ none
      → Fits l.next_ticket l.now_serving q
      → Inv (goto c q l)
  Inv-goto p q e out out' empty own =
      Inv-step l v c q l.next_ticket l.holding_cpu (omega arith) own (Apart-none q empty)
        (owner_kept p q e out) (marked_kept q out')

  fits_kept : (t : ℕ) → ticket (l.pc c) ≡ some t → (l.now_serving ≤ t) × (t < l.next_ticket)
  fits_kept t e = (v.fits c).0 t e

  some_eq : (a b : ℕ) → some a ≡ some b → a ≡ b
  some_eq a b e = ground (arith, e)

inside-turn : (p : Pc) → is_inside p ≡ true → (t : ℕ) × (turn p ≡ some t)
inside-turn (inside t) e = (t, refl)
inside-turn (served t) e = (t, refl)
inside-turn (leaving t) e = (t, refl)
inside-turn (reentered t) e = (t, refl)
inside-turn (missed t) e = (t, refl)
inside-turn idle e = absurd (cc)
inside-turn checked e = absurd (cc)
inside-turn tried e = absurd (cc)
inside-turn panicked e = absurd (cc)
inside-turn (spinning s) e = absurd (cc)
inside-turn (loaded s) e = absurd (cc)

-- No other processor holds the guard while the ticket of `c` is served.
inside_one :
    (l : TicketLock)
    → Inv l
    → (c t : ℕ) → turn (l.pc c) ≡ some t
    → (d : ℕ) → d ≢ c
    → is_inside (l.pc d) ≡ true
    → ⊥
inside_one l v c t e d ne i =
    let (u, p) = inside-turn (l.pc d) i in
    let same = (v.fits d).1 u p ∙ sym ((v.fits c).1 t e) in
    ne (v.apart d c u (turn-ticket (l.pc d) u p) (turn-ticket (l.pc c) t e ∙ ap some (sym same)))

small_mod : (a : ℕ) → a < 2 ^ 64 → a % 2 ^ 64 ≡ a
small_mod a h = omega (arith, h)

-- Every step keeps the invariant, while the tickets do not wrap.
Step-Inv : {c : ℕ} {l l' : TicketLock} → Step c l l' → l.next_ticket + 1 < 2 ^ 64 → Inv l → Inv l'
Step-Inv {c} (assert_fails l e h) b v =
    let no = v.owner c h in let out = ap is_inside e in absurd (cc)
Step-Inv {c} (assert_holds l e h) b v =
    Inv-goto l v c idle checked e refl refl refl ((λ t e. cc), (λ t e. cc), (λ t e. cc), refl)
Step-Inv {c} (take_ticket l e) b v =
    let small = small_mod (l.next_ticket + 1) b in
    Inv-step l v c (spinning l.next_ticket) ((l.next_ticket + 1) % 2 ^ 64) l.holding_cpu
      (omega (arith, small))
      (
        (λ t e.
            let same : l.next_ticket ≡ t = ground (arith, e) in
            omega (arith, same, v.order, small)),
        (λ t e. cc),
        (λ t e. cc),
        refl,
      )
      (λ d ne t a b.
        let (low, high) = (v.fits d).0 t a in
        let same : l.next_ticket ≡ t = ground (arith, b) in absurd (omega (arith, high, same)))
      (owner_kept l v c checked (spinning l.next_ticket) e refl)
      (marked_kept l v c (spinning l.next_ticket) refl)
Step-Inv {c} (wait l t e h) b v = v
Step-Inv {c} (called l t e h) b v =
    Inv-step l v c (served t) l.next_ticket l.holding_cpu (omega arith)
      (
        (λ t' a. fits_kept l v c t' (ap ticket e ∙ a)),
        (λ t' a. let same : t ≡ t' = ground (arith, a) in omega (arith, same, h)),
        (λ t e. cc),
        refl,
      )
      (Apart-kept l v c (spinning t) (served t) e refl)
      (owner_kept l v c (spinning t) (served t) e refl) (marked_kept l v c (served t) refl)
Step-Inv {c} (hold l t e) b v =
    Inv-step l v c (inside t) l.next_ticket (some c) (omega arith)
      (
        (λ t' a. fits_kept l v c t' (ap ticket e ∙ a)),
        (λ t' a. (v.fits c).1 t' (ap turn e ∙ a)),
        (λ t e. cc),
        refl,
      )
      (Apart-kept l v c (served t) (inside t) e refl)
      (λ d h.
        let same : c ≡ d = ground (arith, h) in
        rw (← same) (ap is_inside (update_self l.pc c (inside t))))
      (update_others l.pc c (inside t) (λ d r. is_inside r ≡ true → some c ≡ some d)
        (λ d ne i. absurd (inside_one l v c t (ap turn e) d ne i)) (λ i. refl))
Step-Inv {c} (try_held l d e h) b v = v
Step-Inv {c} (try_free l e h) b v =
    Inv-goto l v c idle tried e refl refl refl ((λ t e. cc), (λ t e. cc), (λ t e. cc), refl)
Step-Inv {c} (try_load l e) b v = Inv-goto l v c tried (loaded l.now_serving) e refl refl refl (
  (λ t e. cc),
  (λ t e. cc),
  (λ t a. let same : l.now_serving ≡ t = ground (arith, a) in omega (arith, same)),
  refl,
)
Step-Inv {c} (try_succeeds l t e h) b v =
    let past = (v.fits c).2 t (ap seen e) in
    let small = small_mod (t + 1) (omega (arith, b, h)) in
    Inv-step l v c (served t) ((t + 1) % 2 ^ 64) l.holding_cpu (omega (arith, h, small))
      (
        (λ t' a.
            let same : t ≡ t' = ground (arith, a) in omega (arith, same, past, h, v.order, small)),
        (λ t' a.
            let same : t ≡ t' = ground (arith, a) in omega (arith, same, past, h, v.order, small)),
        (λ t e. cc),
        refl,
      )
      (λ d ne t' a b.
        let (low, high) = (v.fits d).0 t' a in
        let same : t ≡ t' = ground (arith, b) in absurd (omega (arith, high, same, h)))
      (owner_kept l v c (loaded t) (served t) e refl) (marked_kept l v c (served t) refl)
Step-Inv {c} (reenter_fails l t e h) b v =
    Inv-step l v c (reentered t) l.next_ticket l.holding_cpu (omega arith)
      (
        (λ t' a. fits_kept l v c t' (ap ticket e ∙ a)),
        (λ t' a. (v.fits c).1 t' (ap turn e ∙ a)),
        (λ t e. cc),
        refl,
      )
      (Apart-kept l v c (inside t) (reentered t) e refl)
      (update_all l.pc c (reentered t) (λ d r. l.holding_cpu ≡ some d → is_inside r ≡ true) v.owner
        (λ i. refl))
      (update_all l.pc c (reentered t) (λ d r. is_inside r ≡ true → l.holding_cpu ≡ some d) v.marked
        (λ i. h))
Step-Inv {c} (reenter_missed l t e h) b v = absurd (h (v.marked c (ap is_inside e)))
Step-Inv {c} (retry_held l t d e h) b v = v
Step-Inv {c} (retry_missed l t e h) b v = let is = v.marked c (ap is_inside e) in absurd (cc)
Step-Inv {c} (try_fails l t e h) b v =
    Inv-goto l v c (loaded t) idle e refl refl refl ((λ t e. cc), (λ t e. cc), (λ t e. cc), refl)
Step-Inv {c} (release l t e) b v =
    Inv-step l v c (leaving t) l.next_ticket none (omega arith)
      (
        (λ t' a. fits_kept l v c t' (ap ticket e ∙ a)),
        (λ t' a. (v.fits c).1 t' (ap turn e ∙ a)),
        (λ t e. cc),
        refl,
      )
      (Apart-kept l v c (inside t) (leaving t) e refl) (λ d h. cc)
      (update_others l.pc c (leaving t) (λ d r. is_inside r ≡ true → none ≡ some d)
        (λ d ne i. absurd (inside_one l v c t (ap turn e) d ne i)) (λ i. cc))
Step-Inv {c} (call_next l t e) b v =
    let mine = (v.fits c).1 t (ap turn e) in
    let range = fits_kept l v c t (ap ticket e) in
    let small = small_mod (l.now_serving + 1) (omega (arith, b, mine, range.1)) in
    subst (λ z. Inv (record (goto c idle l) { now_serving = z })) (sym small)
      (record {
        order = omega (arith, mine, range.1);
        fits =
            update_others l.pc c idle (λ d q. Fits l.next_ticket (l.now_serving + 1) q)
              (λ d ne.
                let (ranges, turns, loads, calm) = v.fits d in
                let other : (t' : ℕ) → ticket (l.pc d) ≡ some t' → t' ≢ t =
                  λ t' a same. ne (v.apart d c t' a (ap ticket e ∙ ap some (sym same))) in
                (
                  (λ t' a.
                      let (low, high) = ranges t' a in
                      let far = other t' a in (omega (arith, low, far, mine), high)),
                  (λ t' a. absurd (other t' (turn-ticket (l.pc d) t' a) (turns t' a ∙ sym mine))),
                  (λ t' a. omega (arith, loads t' a)),
                  calm,
                ))
              ((λ t e. cc), (λ t e. cc), (λ t e. cc), refl);
        apart =
            update_pairs l.pc c idle Apart v.apart (Apart-none l v c idle refl) (λ e ne t a b. cc)
              (λ t a b. cc);
        owner = owner_kept l v c (leaving t) idle e refl;
        marked = marked_kept l v c idle refl;
      })

-- A step gives out one ticket at most.
Step-tickets : {c : ℕ} {l l' : TicketLock} → Step c l l' → l'.next_ticket ≤ l.next_ticket + 1
Step-tickets (take_ticket l e) = omega arith
Step-tickets (try_succeeds l t e h) = omega (arith, h)
Step-tickets (assert_fails l e h) = omega arith
Step-tickets (assert_holds l e h) = omega arith
Step-tickets (wait l t e h) = omega arith
Step-tickets (called l t e h) = omega arith
Step-tickets (hold l t e) = omega arith
Step-tickets (try_held l d e h) = omega arith
Step-tickets (try_free l e h) = omega arith
Step-tickets (try_load l e) = omega arith
Step-tickets (try_fails l t e h) = omega arith
Step-tickets (reenter_fails l t e h) = omega arith
Step-tickets (reenter_missed l t e h) = omega arith
Step-tickets (retry_held l t d e h) = omega arith
Step-tickets (retry_missed l t e h) = omega arith
Step-tickets (release l t e) = omega arith
Step-tickets (call_next l t e) = omega arith

Reach-Inv : {k : ℕ} {l : TicketLock} → Reach k l → k < 2 ^ 64 → Inv l × (l.next_ticket ≤ k)
Reach-Inv start few = (Inv-new, omega arith)
Reach-Inv (next c r st) few =
    let (v, low) = Reach-Inv r (omega (arith, few)) in
    (Step-Inv st (omega (arith, few, low)) v, omega (arith, low, Step-tickets st))

-- In every interleaving of calls of `lock` and `try_lock`, made with or without the guard, and of drops
-- of guards, of fewer than 2^64 steps, the following holds of the ticket lock: two processors that hold
-- the guard are one; a processor that waits has a ticket that has not been passed over, and no other
-- has the same; `holding_cpu` names a processor exactly when it holds the guard; and the check of
-- `holding_cpu` misleads no call: the assertion in `lock` has failed only on a processor that holds the
-- guard, and neither `lock` nor `try_lock` has gone on past it on one that does.
pub mutual_exclusion :
    {k : ℕ} {l : TicketLock}
    → Reach k l
    → k < 2 ^ 64
    → ((c d : ℕ) → is_inside (l.pc c) ≡ true → is_inside (l.pc d) ≡ true → c ≡ d)
      × ((c t : ℕ) → ticket (l.pc c) ≡ some t → (l.now_serving ≤ t) × (t < l.next_ticket))
      × ((c d t : ℕ) → ticket (l.pc c) ≡ some t → ticket (l.pc d) ≡ some t → c ≡ d)
      × ((c : ℕ) → l.holding_cpu ≡ some c → is_inside (l.pc c) ≡ true)
      × ((c : ℕ) → is_inside (l.pc c) ≡ true → l.holding_cpu ≡ some c)
      × ((c : ℕ) → is_misled (l.pc c) ≡ false)
mutual_exclusion r few =
    let v = (Reach-Inv r few).0 in
    (
      (λ c d a b. ap_some (sym (v.marked c a) ∙ v.marked d b)),
      (λ c t a. (v.fits c).0 t a),
      (λ c d t a b. v.apart c d t a b),
      v.owner,
      v.marked,
      (λ c. (v.fits c).3),
    )
  where
    ap_some : {c d : ℕ} → some c ≡ some d → c ≡ d
    ap_some e = ground (arith, e)
