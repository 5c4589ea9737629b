-- ===== src/Tcp/Queue.antt =====
-- The queue of segments that came ahead of their turn (kernel/src/net/tcp.rs, `tcp_ooo_queue`): its
-- entries stay stretches of the stream, and removing one makes it shorter.
use kontsnor_os.Prelude.{
  ℕ, suc, ◌≤◌, ◌≡◌, refl, sym, ap, ◌∙◌, true, false, Bool-cases, ◌⊎◌, inl, inr, List, [], ◌∷◌,
  Option, none, some, ltb, ◌==◌, ◌||◌, length, arith,
}
use mathlib.Core.Path.{subst}
use mathlib.Core.Bool.{false≢true}
use kontsnor_os.Prelude.Word.{wrapping_add32}
use kontsnor_os.Tcp.{OooQueue, before, is_match, find_match, remove, or_insert, prune}
use kontsnor_os.Tcp.Sequence.{seq_at}
use kontsnor_os.Tcp.Stream.{Sits}

-- The first entry is found if it is a match, and else the search goes on.
find_match-match :
    (cur k j : ℕ) (v w : List ℕ) (q : OooQueue)
    → is_match cur j w ≡ true
    → find_match cur ((j, w) ∷ q) ≡ some (k, v)
    → ◌≡◌ {A = ℕ × List ℕ} (j, w) (k, v)
unfolding find_match
find_match-match cur k j v w q m e =
    let same : ◌≡◌ {A = Option (ℕ × List ℕ)} (some (j, w)) (some (k, v)) = sym (rw m refl) ∙ e in cc

find_match-hit :
    (cur j : ℕ) (w : List ℕ) (q : OooQueue)
    → is_match cur j w ≡ true
    → find_match cur ((j, w) ∷ q) ≡ some (j, w)
unfolding find_match
find_match-hit cur j w q m = rw m refl

find_match-skip :
    (cur j : ℕ) (w : List ℕ) (q : OooQueue)
    → is_match cur j w ≡ false
    → find_match cur ((j, w) ∷ q) ≡ find_match cur q
unfolding find_match
find_match-skip cur j w q m = rw m refl

module _ (i : ℕ) (stream : List ℕ) where
  -- An entry is a stretch of the stream, under the number of its first byte.
  abbrev pub Placed : ℕ → List ℕ → Type 0
  Placed k v = (p : ℕ) × (k ≡ seq_at i p) × Sits stream p v

  pub Queued : OooQueue → Type 0
  Queued [] = Unit
  Queued ((k, v) ∷ q) = Placed k v × Queued q

  pub Queued-empty : (q : OooQueue) → q ≡ [] → Queued q
  unfolding Queued
  Queued-empty q e = subst Queued (sym e) tt

  pub Queued-find :
      (cur k : ℕ) (v : List ℕ) (q : OooQueue)
      → find_match cur q ≡ some (k, v)
      → Queued q
      → Placed k v
  unfolding Queued find_match
  Queued-find cur k v [] e h = absurd (cc)
  Queued-find cur k v ((j, w) ∷ q) e (a, h) = elim (Bool-cases (is_match cur j w)) [
    | inl m ↦ subst (λ (z : ℕ × List ℕ). Placed z.0 z.1) (find_match-match cur k j v w q m e) a
    | inr m ↦ Queued-find cur k v q (sym (find_match-skip cur j w q m) ∙ e) h
  ]

  pub Queued-remove : (k : ℕ) (q : OooQueue) → Queued q → Queued (remove k q)
  unfolding Queued remove
  Queued-remove k [] h = tt
  Queued-remove k ((j, w) ∷ q) (a, h) = elim (Bool-cases (k == j)) [
    | inl e ↦ rw e h
    | inr e ↦ rw e (a, Queued-remove k q h)
  ]

  pub Queued-insert :
      (k : ℕ) (v : List ℕ) (q : OooQueue) → Placed k v → Queued q → Queued (or_insert k v q)
  unfolding Queued or_insert
  Queued-insert k v [] new h = (new, tt)
  Queued-insert k v ((j, w) ∷ q) new (a, h) = elim (Bool-cases (k == j)) [
    | inl e ↦ rw e (a, h)
    | inr e ↦ elim (Bool-cases (ltb k j)) [
      | inl l ↦ rw (e, l) (new, (a, h))
      | inr l ↦ rw (e, l) (a, Queued-insert k v q new h)
    ]
  ]

  pub Queued-prune : (cur : ℕ) (q : OooQueue) → Queued q → Queued (prune cur q)
  unfolding Queued prune
  Queued-prune cur [] h = tt
  Queued-prune cur ((k, v) ∷ q) (a, h) =
      let ooo_end = wrapping_add32 k (length v) in
      elim (Bool-cases (before ooo_end cur || (ooo_end == cur))) [
        | inl e ↦ rw e (Queued-prune cur q h)
        | inr e ↦ rw e (a, Queued-prune cur q h)
      ]

pub find_match-test :
    (cur k : ℕ) (v : List ℕ) (q : OooQueue)
    → find_match cur q ≡ some (k, v)
    → is_match cur k v ≡ true
unfolding find_match
find_match-test cur k v [] e = absurd (cc)
find_match-test cur k v ((j, w) ∷ q) e = elim (Bool-cases (is_match cur j w)) [
  | inl m ↦
      subst (λ (z : ℕ × List ℕ). is_match cur z.0 z.1 ≡ true) (find_match-match cur k j v w q m e) m
  | inr m ↦ find_match-test cur k v q (sym (find_match-skip cur j w q m) ∙ e)
]

-- The entry that was found is there to be removed.
pub length-remove :
    (cur k : ℕ) (v : List ℕ) (q : OooQueue)
    → find_match cur q ≡ some (k, v)
    → suc (length (remove k q)) ≤ length q
unfolding find_match remove
length-remove cur k v [] e = absurd (cc)
length-remove cur k v ((j, w) ∷ q) e = elim (Bool-cases (k == j)) [
  | inl same ↦ rw same (omega arith)
  | inr same ↦ elim (Bool-cases (is_match cur j w)) [
    | inl m ↦
        let key : j ≡ k = ap (λ (z : ℕ × List ℕ). z.0) (find_match-match cur k j v w q m e) in
        absurd (ground (arith, key, same))
    | inr m ↦
        let shorter = length-remove cur k v q (sym (find_match-skip cur j w q m) ∙ e) in
        rw same (omega (arith, shorter))
  ]
]

pub find_match-prune :
    (cur : ℕ) (q : OooQueue) → find_match cur q ≡ none → find_match cur (prune cur q) ≡ none
unfolding find_match prune
find_match-prune cur [] e = refl
find_match-prune cur ((k, v) ∷ q) e = elim (Bool-cases (is_match cur k v)) [
  | inl m ↦ let hit = find_match-hit cur k v q m in absurd (cc)
  | inr m ↦
      let rest = find_match-prune cur q (sym (find_match-skip cur k v q m) ∙ e) in
      let ooo_end = wrapping_add32 k (length v) in
      elim (Bool-cases (before ooo_end cur || (ooo_end == cur))) [
        | inl s ↦ rw s rest
        | inr s ↦ rw s (find_match-skip cur k v (prune cur q) m ∙ rest)
      ]
]

pub is_match-cases :
    (cur k : ℕ) (v : List ℕ)
    → is_match cur k v ≡ true
    → ((k == cur) ≡ true) ⊎ (((k == cur) ≡ false) × (before k cur ≡ true))
unfolding is_match
is_match-cases cur k v m = elim (Bool-cases (k == cur)) [
  | inl e ↦ inl e
  | inr e ↦ elim (Bool-cases (before k cur)) [
    | inl b ↦ inr (e, b)
    | inr b ↦ absurd (false≢true (sym (rw (e, b) refl) ∙ m))
  ]
]
