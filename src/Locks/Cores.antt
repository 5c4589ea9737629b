-- ===== src/Locks/Cores.antt =====
-- What each processor or call is about to do, by its number.
use kontsnor_os.Prelude.{
  zero, suc, ◌+◌, ◌≤◌, ◌<◌, ℕ, ◌≡◌, ◌≢◌, refl, inl, inr, Bool, true, false, ◌==◌, if◌then◌else◌,
  Bool-cases, arith,
}

abbrev pub update {ℓ} : {A : Type ℓ} → (ℕ → A) → ℕ → A → ℕ → A
update f c a d = if d == c then a else f d

module _ {A : Type 0} (f : ℕ → A) (c : ℕ) (a : A) where
  pub update_self : update f c a c ≡ a
  update_self = let e : (c == c) ≡ true = ground arith in rw e

  -- What holds of each of them holds after a step of `c`, if it holds of `c` then.
  pub update_others :
      (P : ℕ → A → Type 0) → ((d : ℕ) → d ≢ c → P d (f d)) → P c a → (d : ℕ) → P d (update f c a d)
  update_others P others own d = elim (Bool-cases (d == c)) [
    | inl e ↦ let same : d ≡ c = ground (arith, e) in rw (e, same) own
    | inr e ↦ rw e (others d (ground (arith, e)))
  ]

  pub update_all :
      (P : ℕ → A → Type 0) → ((d : ℕ) → P d (f d)) → P c a → (d : ℕ) → P d (update f c a d)
  update_all P others own = update_others P (λ d ne. others d) own

  -- The same for two of them.
  pub update_pairs :
      (P : ℕ → A → ℕ → A → Type 0)
      → ((d e : ℕ) → P d (f d) e (f e))
      → ((d : ℕ) → d ≢ c → P d (f d) c a)
      → ((e : ℕ) → e ≢ c → P c a e (f e))
      → P c a c a
      → (d e : ℕ) → P d (update f c a d) e (update f c a e)
  update_pairs P others left right own d e = elim (Bool-cases (d == c)) [
    | inl x ↦
        let d' : d ≡ c = ground (arith, x) in
        elim (Bool-cases (e == c)) [
          | inl y ↦ let e' : e ≡ c = ground (arith, y) in rw (x, y, d', e') own
          | inr y ↦ rw (x, y, d') (right e (ground (arith, y)))
        ]
    | inr x ↦ elim (Bool-cases (e == c)) [
      | inl y ↦ let e' : e ≡ c = ground (arith, y) in rw (x, y, e') (left d (ground (arith, x)))
      | inr y ↦ rw (x, y) (others d e)
    ]
  ]

  pub update_ne : (d : ℕ) → d ≢ c → update f c a d ≡ f d
  update_ne d ne = let e : (d == c) ≡ false = ground (arith, ne) in rw e

abbrev pub weight : Bool → ℕ
weight true = 1
weight false = 0

-- How many of the first `n` stand at such a place.
module _ {A : Type 0} (q : A → Bool) where
  pub count : ℕ → (ℕ → A) → ℕ
  count zero f = 0
  count (suc n) f = count n f + weight (q (f n))

  count-update_beyond : (n c : ℕ) (f : ℕ → A) (a : A) → n ≤ c → count n (update f c a) ≡ count n f
  unfolding count
  count-update_beyond zero c f a h = refl
  count-update_beyond (suc n) c f a h =
      let same : update f c a n ≡ f n = update_ne f c a n (λ e. omega (arith, e, h)) in
      rw (same, count-update_beyond n c f a (omega (arith, h)))

  pub count-update :
      (n c : ℕ) (f : ℕ → A) (a : A)
      → c < n
      → count n (update f c a) + weight (q (f c)) ≡ count n f + weight (q a)
  unfolding count
  count-update zero c f a h = absurd (omega arith)
  count-update (suc n) c f a h = elim (Bool-cases (c == n)) [
    | inl e ↦
        let last : n ≡ c = ground (arith, e) in
        let below = count-update_beyond n c f a (omega (arith, last)) in
        let here : update f c a n ≡ a = rw last (update_self f c a) in
        rw (here, below, last) (omega arith)
    | inr e ↦
        let ne : n ≢ c = ground (arith, e) in
        let same : update f c a n ≡ f n = update_ne f c a n ne in
        let below = count-update n c f a (ground (arith, e, h)) in rw same (omega (arith, below))
  ]

  pub count-none : (n : ℕ) (a : A) → q a ≡ false → count n (λ c. a) ≡ 0
  unfolding count
  count-none zero a e = refl
  count-none (suc n) a e = rw (e, count-none n a e)
