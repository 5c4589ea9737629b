-- ===== src/Futex/Wake.antt =====
-- Which waiters a wake-up takes (kernel/src/syscall/process/futex.rs).
use kontsnor_os.Prelude.{
  ◌++◌, true, false, Bool, ◌-◌, ◌∙◌, zero, ℕ, suc, ◌≡◌, refl, sym, ap, Bool-cases, inl, inr, List,
  [], ◌∷◌, Option, none, some, ◌==◌, if◌then◌else◌, length, arith,
}
use kontsnor_os.Futex.{
  FutexKey, FutexWaiter, key_eq, FutexQueues, set_queue, queue_or_empty, unless_empty, accepts,
  wake_queue, wake_key, wake_keys, has_key, pids_of, take, drop,
}

-- The waiters that take the bits, and those that do not.
abbrev pub accepting : (bitset : ℕ) → List FutexWaiter → List FutexWaiter
accepting bitset [] = []
accepting bitset (w ∷ q) = if accepts bitset w then w ∷ accepting bitset q else accepting bitset q

abbrev pub refusing : (bitset : ℕ) → List FutexWaiter → List FutexWaiter
refusing bitset [] = []
refusing bitset (w ∷ q) = if accepts bitset w then refusing bitset q else w ∷ refusing bitset q

-- The first `n` waiters that take the bits are woken, in order; the others stay, in order.
abbrev pub TakesFirst :
    (n bitset : ℕ) (q : List FutexWaiter) (pids : List ℕ) (rest : List FutexWaiter) → Type 0
TakesFirst n bitset q pids rest =
    (pids ≡ pids_of (take n (accepting bitset q)))
    × (accepting bitset rest ≡ drop n (accepting bitset q))
    × (refusing bitset rest ≡ refusing bitset q)

take_zero : (q : List FutexWaiter) → take 0 q ≡ []
take_zero [] = refl
take_zero (w ∷ q) = refl

drop_zero : (q : List FutexWaiter) → drop 0 q ≡ q
drop_zero [] = refl
drop_zero (w ∷ q) = refl

pub wake_queue-TakesFirst :
    (n bitset : ℕ) (q : List FutexWaiter)
    → let (pids, rest) = wake_queue n bitset q in TakesFirst n bitset q pids rest
unfolding wake_queue
wake_queue-TakesFirst n bitset [] = (refl, refl, refl)
wake_queue-TakesFirst zero bitset (w ∷ q) = (
  ap pids_of (sym (take_zero (accepting bitset (w ∷ q)))),
  sym (drop_zero (accepting bitset (w ∷ q))),
  refl,
)
wake_queue-TakesFirst (suc n) bitset (w ∷ q) = elim (Bool-cases (accepts bitset w)) [
  | inl a ↦
      let (woken, left, others) = wake_queue-TakesFirst n bitset q in
      rw a (ap (λ l. w.pid ∷ l) woken, left, others)
  | inr a ↦
      let (woken, left, others) = wake_queue-TakesFirst (suc n) bitset q in
      rw a (woken, (rw a left), (rw a (ap (λ l. w ∷ l) others)))
]

pub length_pids : (q : List FutexWaiter) → length (pids_of q) ≡ length q
length_pids [] = refl
length_pids (w ∷ q) = let ih = length_pids q in omega (arith, ih)

pub key_eq-≡ : (a b : FutexKey) → key_eq a b ≡ true → a ≡ b
key_eq-≡ a b e =
    let s : a.space_id ≡ b.space_id = ground (arith, e) in
    let u : a.uaddr ≡ b.uaddr = ground (arith, e) in
    ap (λ x. record a { space_id = x }) s ∙ ap (λ x. record b { uaddr = x }) u

pub queue_unless_empty : (q : List FutexWaiter) → queue_or_empty (unless_empty q) ≡ q
queue_unless_empty [] = refl
queue_unless_empty (w ∷ q) = refl

-- The waiters of a key, and what a wake-up leaves there.
abbrev pub queue_at : FutexQueues → FutexKey → List FutexWaiter
queue_at queues k = queue_or_empty (queues k)

abbrev KeyTakes : (n bitset : ℕ) → FutexKey → FutexQueues → List ℕ → FutexQueues → Type 0
KeyTakes n bitset k before pids after =
    (pids ≡ pids_of (take n (accepting bitset (queue_at before k))))
    × (accepting bitset (queue_at after k) ≡ drop n (accepting bitset (queue_at before k)))
    × ((x : FutexKey) → key_eq x k ≡ false → after x ≡ before x)
    × ((x : FutexKey) → refusing bitset (queue_at after x) ≡ refusing bitset (queue_at before x))

pub key_eq_refl : (k : FutexKey) → key_eq k k ≡ true
key_eq_refl k = ground arith

wake_key-KeyTakes :
    (n bitset : ℕ) (k : FutexKey) (queues : FutexQueues)
    → let (pids, after) = wake_key n bitset k queues in KeyTakes n bitset k queues pids after
unfolding wake_key
wake_key-KeyTakes n bitset k queues = of_queue (queues k) refl
  where
    of_queue :
        (o : Option (List FutexWaiter))
        → queues k ≡ o
        → let (pids, after) = wake_key n bitset k queues in KeyTakes n bitset k queues pids after
    of_queue none e =
        rw (e, wake_key)
          ((ap pids_of (sym (take_none n))), (rw e (sym (drop_none n))), (λ x d. refl), (λ x. refl))
      where
        take_none : (n : ℕ) → take n [] ≡ []
        take_none n = refl

        drop_none : (n : ℕ) → drop n [] ≡ []
        drop_none n = refl
    of_queue (some q) e =
        let (woken, left, others) = wake_queue-TakesFirst n bitset q in
        let rest = (wake_queue n bitset q).1 in
        let here : queue_or_empty (set_queue k (unless_empty rest) queues k) ≡ rest =
          rw (key_eq_refl k) (queue_unless_empty rest) in
        rw (e, wake_key)
          (
            woken,
            ap (accepting bitset) here ∙ left,
            (λ x d. rw d refl),
            (λ x. elim (Bool-cases (key_eq x k)) [
              | inr d ↦ rw d refl
              | inl d ↦
                  let was : queue_at queues x ≡ q =
                    ap (queue_at queues) (key_eq-≡ x k d) ∙ ap queue_or_empty e in
                  rw d (
                    ap (refusing bitset) (queue_unless_empty rest)
                    ∙ others
                    ∙ ap (refusing bitset) (sym was))
            ]),
          )

-- The waiters at some keys that take the bits, in the order of the keys.
abbrev pub waiting : (bitset : ℕ) → List FutexKey → FutexQueues → List FutexWaiter
waiting bitset [] queues = []
waiting bitset (k ∷ ks) queues = accepting bitset (queue_at queues k) ++ waiting bitset ks queues

-- No key comes twice.
abbrev pub Distinct : List FutexKey → Type 0
Distinct [] = Unit
Distinct (k ∷ ks) = (has_key k ks ≡ false) × Distinct ks

-- A wake-up takes the first `n` waiters at its keys that take the bits, in order, and reports these; the
-- others of them stay, and so do the queues of other keys and the waiters that do not take the bits.
abbrev pub Wakes : (n bitset : ℕ) → List FutexKey → FutexQueues → List ℕ → FutexQueues → Type 0
Wakes n bitset ks before pids after =
    (pids ≡ pids_of (take n (waiting bitset ks before)))
    × (waiting bitset ks after ≡ drop n (waiting bitset ks before))
    × ((x : FutexKey) → has_key x ks ≡ false → after x ≡ before x)
    × ((x : FutexKey) → refusing bitset (queue_at after x) ≡ refusing bitset (queue_at before x))

take-append :
    (n : ℕ) (p q : List FutexWaiter) → take n (p ++ q) ≡ take n p ++ take (n - length (take n p)) q
take-append zero [] q = ap (λ k. take k q) (omega arith)
take-append (suc n) [] q = ap (λ k. take k q) (omega arith)
take-append zero (w ∷ p) q = sym (ap (λ k. take k q) (omega arith) ∙ take_zero q)
take-append (suc n) (w ∷ p) q =
    let less : suc n - length (w ∷ take n p) ≡ n - length (take n p) = omega arith in
    ap (λ l. w ∷ l) (take-append n p q ∙ ap (λ k. take n p ++ take k q) (sym less))

drop-append :
    (n : ℕ) (p q : List FutexWaiter) → drop n (p ++ q) ≡ drop n p ++ drop (n - length (take n p)) q
drop-append zero [] q = ap (λ k. drop k q) (omega arith)
drop-append (suc n) [] q = ap (λ k. drop k q) (omega arith)
drop-append zero (w ∷ p) q =
    ap (λ l. w ∷ p ++ l) (sym (ap (λ k. drop k q) (omega arith) ∙ drop_zero q))
drop-append (suc n) (w ∷ p) q =
    let less : suc n - length (w ∷ take n p) ≡ n - length (take n p) = omega arith in
    drop-append n p q ∙ ap (λ k. drop n p ++ drop k q) (sym less)

pids_of-append : (p q : List FutexWaiter) → pids_of (p ++ q) ≡ pids_of p ++ pids_of q
pids_of-append [] q = refl
pids_of-append (w ∷ p) q = ap (λ l. w.pid ∷ l) (pids_of-append p q)

key_eq_sym : (a b : FutexKey) (v : Bool) → key_eq a b ≡ v → key_eq b a ≡ v
key_eq_sym a b true e = ground (arith, e)
key_eq_sym a b false e = ground (arith, e)

-- A change at a key that is none of these
waiting_other :
    (bitset : ℕ) (k : FutexKey) (ks : List FutexKey) (before after : FutexQueues)
    → has_key k ks ≡ false
    → ((x : FutexKey) → key_eq x k ≡ false → after x ≡ before x)
    → waiting bitset ks after ≡ waiting bitset ks before
waiting_other bitset k [] before after other same = refl
waiting_other bitset k (x ∷ ks) before after other same =
    let apart : key_eq x k ≡ false = ground (arith, other) in
    let rest : has_key k ks ≡ false = ground (arith, other) in
    let here = ap (λ q. accepting bitset (queue_or_empty q)) (same x apart) in
    let others = waiting_other bitset k ks before after rest same in
    ap (λ l. l ++ waiting bitset ks after) here
    ∙ ap (λ l. accepting bitset (queue_at before x) ++ l) others

pub wake_keys-Wakes :
    (n bitset : ℕ) (ks : List FutexKey) (queues : FutexQueues)
    → Distinct ks
    → let (pids, after) = wake_keys n bitset ks queues in Wakes n bitset ks queues pids after
unfolding wake_keys
wake_keys-Wakes n bitset [] queues d = (refl, refl, (λ x h. refl), (λ x. refl))
wake_keys-Wakes n bitset (k ∷ ks) queues (alone, distinct) = elim (Bool-cases (n == 0)) [
  | inl z ↦
      let none_asked : n ≡ 0 = ground (arith, z) in
      let all = waiting bitset (k ∷ ks) queues in
      rw z (
        sym (ap (λ m. pids_of (take m all)) none_asked ∙ ap pids_of (take_zero all)),
        sym (ap (λ m. drop m all) none_asked ∙ drop_zero all),
        (λ x d. refl),
        (λ x. refl),
      )
  | inr z ↦
      let (woken, left, same, kept) = wake_key-KeyTakes n bitset k queues in
      let pids = (wake_key n bitset k queues).0 in
      let after = (wake_key n bitset k queues).1 in
      let (woken', left', same', kept') =
        wake_keys-Wakes (n - length pids) bitset ks after distinct in
      let here = accepting bitset (queue_at queues k) in
      let rest = waiting bitset ks queues in
      let number : length pids ≡ length (take n here) =
        ap length woken ∙ length_pids (take n here) in
      let others : waiting bitset ks after ≡ rest =
        waiting_other bitset k ks queues after alone same in
      let final = (wake_keys (n - length pids) bitset ks after).1 in
      rw z (
        ap (λ l. l ++ (wake_keys (n - length pids) bitset ks after).0) woken
            ∙ ap (λ l. pids_of (take n here) ++ l)
                (woken'
                  ∙ ap (λ l. pids_of (take (n - length pids) l)) others
                  ∙ ap (λ m. pids_of (take (n - m) rest)) number)
            ∙ sym (pids_of-append (take n here) (take (n - length (take n here)) rest))
            ∙ ap pids_of (sym (take-append n here rest)),
        ap (λ q. accepting bitset (queue_or_empty q) ++ waiting bitset ks final) (same' k alone)
            ∙ ap (λ l. l ++ waiting bitset ks final) left
            ∙ ap (λ l. drop n here ++ l)
                (left' ∙ ap (drop (n - length pids)) others ∙ ap (λ m. drop (n - m) rest) number)
            ∙ sym (drop-append n here rest),
        (λ x d. same' x (ground (arith, d)) ∙ same x (key_eq_sym k x false (ground (arith, d)))),
        (λ x. kept' x ∙ kept x),
      )
]
