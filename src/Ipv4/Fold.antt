-- ===== src/Ipv4/Fold.antt =====
-- The folding of a 32-bit sum to 16 bits in kernel/src/net/ipv4.rs: it keeps the remainder by 65535.
use kontsnor_os.Prelude.{
  ℕ, suc, ◌+◌, ◌*◌, ◌/◌, ◌%◌, ◌^◌, ◌<◌, ◌≤◌, ◌≡◌, Bool-cases, inl, inr, ◌==◌, arith,
}
use kontsnor_os.Ipv4.{fold, complement}

-- `r` is the end of the folding of `s`: 16 bits, the same remainder, and zero only for zero.
abbrev pub Folded : (s r : ℕ) → Type 0
Folded s r = (r < 65536) × ((k : ℕ) × (s ≡ r + 65535 * k)) × (0 < s → 0 < r)

fold-small : (fuel s : ℕ) → s < 65536 → fold (suc fuel) s ≡ s
unfolding fold
fold-small fuel s h = ground (arith, h)

fold-round : (fuel s : ℕ) → 65536 ≤ s → fold (suc fuel) s ≡ fold fuel (s % 65536 + s / 65536)
unfolding fold
fold-round fuel s h = ground (arith, h)

round-Folded : (s r : ℕ) → 65536 ≤ s → Folded (s % 65536 + s / 65536) r → Folded s r
round-Folded s r h (low, (k, e), pos) =
    (low, (s / 65536 + k, omega (arith, e)), λ z. pos (omega (arith, h)))

-- One, two and three rounds, by the size of the sum.
fold_once : (fuel s : ℕ) → s < 65536 → Folded s (fold (suc fuel) s)
fold_once fuel s h = rw (fold-small fuel s h) (h, (0, omega arith), λ z. z)

fold_twice : (fuel s : ℕ) → s < 131071 → Folded s (fold (suc (suc fuel)) s)
fold_twice fuel s h = elim (Bool-cases (s / 65536 == 0)) [
  | inl e ↦ let low : s < 65536 = ground (arith, e) in fold_once (suc fuel) s low
  | inr e ↦
      let high : 65536 ≤ s = ground (arith, e) in
      rw (fold-round (suc fuel) s high)
        (round-Folded s _ high (fold_once fuel (s % 65536 + s / 65536) (omega (arith, h, high))))
]

pub fold-Folded : (s : ℕ) → s < 2 ^ 32 → Folded s (fold 3 s)
fold-Folded s h = elim (Bool-cases (s / 65536 == 0)) [
  | inl e ↦ let low : s < 65536 = ground (arith, e) in fold_once 2 s low
  | inr e ↦
      let high : 65536 ≤ s = ground (arith, e) in
      rw (fold-round 2 s high)
        (round-Folded s _ high (fold_twice 0 (s % 65536 + s / 65536) (omega (arith, h, high))))
]

-- Two sums with the same remainder by 65535 that are not zero fold to the same.
pub complement-zero : (s k : ℕ) → s < 2 ^ 32 → 0 < s → s ≡ 65535 * k → complement s ≡ 0
complement-zero s k h pos e =
    let (low, (j, eq), keeps) = fold-Folded s h in
    let some_left = keeps pos in omega (arith, low, eq, some_left, e)
