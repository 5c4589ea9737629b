-- ===== src/Futex/Call.antt =====
-- The whole of a wake-up (kernel/src/syscall/process/futex.rs).
use kontsnor_os.Prelude.{
  ◌++◌, false, ℕ, ◌≤◌, ◌≡◌, refl, Bool, true, Bool-cases, inl, inr, List, [], ◌∷◌, Option, none,
  some, ◌==◌, not, length, arith,
}
use kontsnor_os.Prelude.Word.{ℤ}
use kontsnor_os.Futex.{
  FutexKey, key_eq, FutexQueues, get_futex_key, limit, has_key, push_key, push_phys, keys_to_wake,
  wake_bitset, futex_wake, wake_tasks,
}
use kontsnor_os.Futex.Wake.{Distinct, Wakes, wake_keys-Wakes, key_eq_refl}

has_key-append :
    (k : FutexKey) (ks ls : List FutexKey) → has_key k ks ≡ true → has_key k (ks ++ ls) ≡ true
has_key-append k [] ls h = cc
has_key-append k (x ∷ ks) ls h = elim (Bool-cases (key_eq x k)) [
  | inl e ↦ rw e refl
  | inr e ↦ let rest = has_key-append k ks ls (ground (arith, h, e)) in rw (e, rest) refl
]

push_key-has_key :
    (k x : FutexKey) (ks : List FutexKey) → has_key k ks ≡ true → has_key k (push_key x ks) ≡ true
push_key-has_key k x ks h = elim (Bool-cases (has_key x ks)) [
  | inl e ↦ rw e h
  | inr e ↦ rw e (has_key-append k ks (x ∷ []) h)
]

push_phys-has_key :
    (k : FutexKey) (phys : Option ℕ) (ks : List FutexKey)
    → has_key k ks ≡ true
    → has_key k (push_phys phys ks) ≡ true
push_phys-has_key k none ks h = h
push_phys-has_key k (some phys) ks h =
    push_key-has_key k (record { space_id = 0; uaddr = phys }) ks h

-- The key that a wait with the same arguments uses is among those of the wake-up.
keys_to_wake-own :
    (tgid : ℕ) (translate : ℕ → Option ℕ) (uaddr op : ℕ)
    → has_key (get_futex_key tgid translate uaddr op) (keys_to_wake tgid translate uaddr op) ≡ true
unfolding keys_to_wake
keys_to_wake-own tgid translate uaddr op =
    let key = get_futex_key tgid translate uaddr op in
    let own : FutexKey = record { space_id = tgid; uaddr = uaddr } in
    let virtual : FutexKey = record { space_id = 0; uaddr = uaddr } in
    let here : has_key key (key ∷ []) ≡ true = rw (key_eq_refl key) refl in
    elim (Bool-cases (not (key.space_id == 0))) [
      | inl p ↦ rw p (
          push_key-has_key key virtual (push_phys (translate uaddr) (key ∷ []))
            (push_phys-has_key key (translate uaddr) (key ∷ []) here))
      | inr p ↦ rw p (
          push_key-has_key key virtual (push_phys (translate uaddr) (push_key own (key ∷ []))) (
            push_phys-has_key key (translate uaddr) (push_key own (key ∷ []))
              (push_key-has_key key own (key ∷ []) here)))
    ]

Distinct-append :
    (k : FutexKey) (ks : List FutexKey)
    → Distinct ks
    → has_key k ks ≡ false
    → Distinct (ks ++ (k ∷ []))
Distinct-append k [] d h = (refl, tt)
Distinct-append k (x ∷ ks) (alone, d) h =
    (has_key-snoc x k ks alone (ground (arith, h)), Distinct-append k ks d (ground (arith, h)))
  where
    has_key-snoc :
        (x k : FutexKey) (ks : List FutexKey)
        → has_key x ks ≡ false
        → key_eq x k ≡ false
        → has_key x (ks ++ (k ∷ [])) ≡ false
    has_key-snoc x k [] alone apart = ground (arith, apart)
    has_key-snoc x k (y ∷ ks) alone apart =
        let rest = has_key-snoc x k ks (ground (arith, alone)) apart in
        let first : key_eq y x ≡ false = ground (arith, alone) in rw (first, rest) refl

push_key-Distinct : (k : FutexKey) (ks : List FutexKey) → Distinct ks → Distinct (push_key k ks)
push_key-Distinct k ks d = elim (Bool-cases (has_key k ks)) [
  | inl e ↦ rw e d
  | inr e ↦ rw e (Distinct-append k ks d e)
]

push_phys-Distinct :
    (phys : Option ℕ) (ks : List FutexKey) → Distinct ks → Distinct (push_phys phys ks)
push_phys-Distinct none ks d = d
push_phys-Distinct (some phys) ks d = push_key-Distinct (record { space_id = 0; uaddr = phys }) ks d

keys_to_wake-Distinct :
    (tgid : ℕ) (translate : ℕ → Option ℕ) (uaddr op : ℕ)
    → Distinct (keys_to_wake tgid translate uaddr op)
unfolding keys_to_wake
keys_to_wake-Distinct tgid translate uaddr op =
    let key = get_futex_key tgid translate uaddr op in
    let own : FutexKey = record { space_id = tgid; uaddr = uaddr } in
    let virtual : FutexKey = record { space_id = 0; uaddr = uaddr } in
    elim (Bool-cases (not (key.space_id == 0))) [
      | inl p ↦ rw p (
          push_key-Distinct virtual (push_phys (translate uaddr) (key ∷ []))
            (push_phys-Distinct (translate uaddr) (key ∷ []) (refl, tt)))
      | inr p ↦ rw p (
          push_key-Distinct virtual (push_phys (translate uaddr) (push_key own (key ∷ []))) (
            push_phys-Distinct (translate uaddr) (push_key own (key ∷ []))
              (push_key-Distinct own (key ∷ []) (refl, tt))))
    ]

-- What a wake-up does: it fails only when it names no bits; else it takes waiters from the queues of some
-- keys, that of a wait with the same arguments among them.
abbrev pub Woken :
    (n bitset : ℕ) → FutexKey → List FutexKey → FutexQueues → Option (List ℕ × FutexQueues) → Type 0
Woken n bitset key ks before none = bitset ≡ 0
Woken n bitset key ks before (some (pids, after)) =
    (has_key key ks ≡ true) × Distinct ks × Wakes n bitset ks before pids after

-- FUTEX_WAKE and FUTEX_WAKE_BITSET fail only when they name no bits. Else they have a list of keys, without
-- repetition, among which is the one that a wait with the same arguments uses. Of the waiters at these keys
-- that take the bits, in the order of the keys and of their queues, the first ones, as many as asked for,
-- are taken out and are just those reported, in order, and the others stay, in order. The queues of all
-- other keys and the waiters that do not take the bits stay as they are.
pub futex_wake-Woken :
    (tgid : ℕ) (translate : ℕ → Option ℕ) (cmd uaddr op : ℕ) (val val3 : ℤ) (queues : FutexQueues)
    → Woken
        (limit val)
        (wake_bitset cmd val3)
        (get_futex_key tgid translate uaddr op)
        (keys_to_wake tgid translate uaddr op)
        queues
        (futex_wake tgid translate cmd uaddr op val val3 queues)
unfolding futex_wake
futex_wake-Woken tgid translate cmd uaddr op val val3 queues =
    elim (Bool-cases (wake_bitset cmd val3 == 0)) [
      | inl z ↦ rw (z, futex_wake) (ground (arith, z))
      | inr z ↦
          rw (z, futex_wake)
            (
              keys_to_wake-own tgid translate uaddr op,
              keys_to_wake-Distinct tgid translate uaddr op,
              wake_keys-Wakes (limit val) (wake_bitset cmd val3)
                  (keys_to_wake tgid translate uaddr op) queues
                  (keys_to_wake-Distinct tgid translate uaddr op),
            )
    ]

-- The number of tasks woken is at most that of the tasks taken.
pub wake_tasks_most :
    {S : Type 0} (wake_task : ℕ → S → Bool × S) (pids : List ℕ) (s : S)
    → (wake_tasks wake_task pids s).0 ≤ length pids
unfolding wake_tasks
wake_tasks_most wake_task [] s = omega arith
wake_tasks_most wake_task (p ∷ ps) s =
    let (woken, s') = wake_task p s in
    let ih = wake_tasks_most wake_task ps s' in
    elim (Bool-cases woken) [ inl w ↦ rw w (omega (arith, ih)) | inr w ↦ rw w (omega (arith, ih)) ]
