-- ===== src/Frames/Word.antt =====
-- The first clear bit of a word of the bitmap (kernel/src/memory/physical.rs).
use kontsnor_os.Prelude.{
  ℕ, zero, suc, ◌+◌, ◌-◌, ◌*◌, ◌/◌, ◌%◌, ◌≤◌, ◌<◌, ◌≡◌, sym, ap, ◌∙◌, inl, inr, Bool, true, false,
  ltb, ◌==◌, Bool-cases, arith,
}
use kontsnor_os.Frames.{first_clear, masked_word}

pub first_clear_bounds :
    (word : ℕ → Bool) (i n : ℕ) → (i ≤ first_clear word i n) × (first_clear word i n ≤ i + n)
unfolding first_clear
first_clear_bounds word i zero = omega arith
first_clear_bounds word i (suc n) = ground (arith, first_clear_bounds word (i + 1) n)

pub first_clear-false :
    (word : ℕ → Bool) (i n : ℕ) → first_clear word i n < i + n → word (first_clear word i n) ≡ false
unfolding first_clear
first_clear-false word i zero h = absurd (omega arith)
first_clear-false word i (suc n) h = elim (Bool-cases (word i)) [
  | inl e ↦ rw e (first_clear-false word (i + 1) n (ground (arith, e, h)))
  | inr e ↦ rw e e
]

pub first_clear_below :
    (word : ℕ → Bool) (i n b : ℕ) → i ≤ b → b < first_clear word i n → word b ≡ true
unfolding first_clear
first_clear_below word i zero b from to = absurd (omega arith)
first_clear_below word i (suc n) b from to = elim (Bool-cases (word i)) [
  | inl e ↦ elim (Bool-cases (i == b)) [
    | inl s ↦ let same : i ≡ b = ground (arith, s) in ap word (sym same) ∙ e
    | inr s ↦ first_clear_below word (i + 1) n b (ground (arith, s, from)) (ground (arith, e, to))
  ]
  | inr e ↦ absurd (ground (arith, e, from, to))
]

module _ (bitmap : ℕ → Bool) (index : ℕ) where
  -- A clear bit of the masked word is a clear bit of the bitmap at or after `index`.
  pub masked_word-false :
      (b : ℕ)
      → masked_word bitmap index b ≡ false
      → (bitmap (index / 64 * 64 + b) ≡ false) × (index % 64 ≤ b)
  masked_word-false b h = elim (Bool-cases (ltb b (index % 64))) [
    | inl e ↦ absurd (ground (arith, e, h))
    | inr e ↦ (ground (arith, e, h), ground (arith, e))
  ]

  -- If the masked word has no clear bit below `b`, the frames from `index` on to there are in use.
  pub masked_word-true :
      (j : ℕ) → index ≤ j → masked_word bitmap index (j - index / 64 * 64) ≡ true → bitmap j ≡ true
  masked_word-true j from h =
      let whole : index / 64 * 64 + (j - index / 64 * 64) ≡ j = omega (arith, from) in
      let past : ltb (j - index / 64 * 64) (index % 64) ≡ false =
        let far : index % 64 ≤ j - index / 64 * 64 = omega (arith, from) in ground (arith, far) in
      ap bitmap (sym whole) ∙ ground (arith, past, h)
