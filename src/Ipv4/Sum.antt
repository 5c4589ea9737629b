-- ===== src/Ipv4/Sum.antt =====
-- The sum of the words of a list of bytes, as RFC 1071 has it, and the unrolled loop of
-- kernel/src/net/ipv4.rs that computes it.
use kontsnor_os.Prelude.{
  ℕ, zero, suc, ◌+◌, ◌*◌, ◌%◌, ◌^◌, ◌<◌, ◌≤◌, ◌≡◌, refl, sym, ap, ◌∙◌, Bool-cases, inl, inr, List,
  [], ◌∷◌, leb, length, length-drop, get_or, drop, arith,
}
use kontsnor_os.Ipv4.{be16, word_at, block_sum, sum_words, sum_blocks}

unfoldable pub plain_sum : List ℕ → ℕ
plain_sum [] = 0
plain_sum (a ∷ []) = a * 256
plain_sum (a ∷ b ∷ rest) = be16 a b + plain_sum rest

-- The numbers below 256.
abbrev pub AllBytes : List ℕ → Type 0
AllBytes [] = Unit
AllBytes (a ∷ rest) = (a < 256) × AllBytes rest

-- A word of two bytes is below 65536.
pub plain_sum-le :
    (bytes : List ℕ) → AllBytes bytes → plain_sum bytes * 2 ≤ 65536 * (length bytes + 1)
unfolding plain_sum
plain_sum-le [] h = omega arith
plain_sum-le (a ∷ []) h = let l = h.0 in omega (arith, l)
plain_sum-le (a ∷ b ∷ rest) (la, (lb, h)) =
    let ih = plain_sum-le rest h in omega (arith, la, lb, ih)

pub sum_words-plain :
    (sum : ℕ) (bytes : List ℕ)
    → sum + plain_sum bytes < 2 ^ 32
    → sum_words sum bytes ≡ sum + plain_sum bytes
unfolding sum_words plain_sum
sum_words-plain sum [] low = omega arith
sum_words-plain sum (a ∷ []) low = omega (arith, low)
sum_words-plain sum (a ∷ b ∷ rest) low =
    let small : (sum + be16 a b) % 2 ^ 32 ≡ sum + be16 a b = omega (arith, low) in
    ap (λ s. sum_words s rest) small
    ∙ sum_words-plain (sum + be16 a b) rest (omega (arith, low))
    ∙ omega arith

-- One step of the plain sum, at the position `i`.
next_word :
    (i : ℕ) (bytes : List ℕ)
    → i + 2 ≤ length bytes
    → plain_sum (drop i bytes) ≡ word_at bytes i + plain_sum (drop (i + 2) bytes)
unfolding plain_sum
next_word i [] h = absurd (omega (arith, h))
next_word zero (a ∷ []) h = absurd (omega (arith, h))
next_word zero (a ∷ b ∷ rest) h = refl
next_word (suc i) (x ∷ xs) h =
    let one : suc i + 1 ≡ suc (i + 1) = omega arith in
    let two : suc i + 2 ≡ suc (i + 2) = omega arith in
    next_word i xs (omega (arith, h))
    ∙ ap (λ k. be16 (get_or xs i 0) (get_or (x ∷ xs) k 0) + plain_sum (drop (i + 2) xs)) (sym one)
    ∙ ap (λ k. word_at (x ∷ xs) (suc i) + plain_sum (drop k (x ∷ xs))) (sym two)

words_from : List ℕ → (i n : ℕ) → ℕ
words_from bytes i zero = 0
words_from bytes i (suc n) = word_at bytes i + words_from bytes (i + 2) n

plain_sum-words_from :
    (n i : ℕ) (bytes : List ℕ)
    → i + 2 * n ≤ length bytes
    → plain_sum (drop i bytes) ≡ words_from bytes i n + plain_sum (drop (i + 2 * n) bytes)
unfolding words_from
plain_sum-words_from zero i bytes h =
    let same : i ≡ i + 2 * 0 = omega arith in
    let moved = ap (λ k. plain_sum (drop k bytes)) same in omega (arith, moved)
plain_sum-words_from (suc n) i bytes h =
    let here = next_word i bytes (omega (arith, h)) in
    let there = plain_sum-words_from n (i + 2) bytes (omega (arith, h)) in
    let shift : i + 2 + 2 * n ≡ i + 2 * suc n = omega arith in
    let moved = ap (λ k. plain_sum (drop k bytes)) shift in omega (arith, here, there, moved)

-- A block of 32 bytes is 16 steps of the plain sum.
plain_sum-block :
    (bytes : List ℕ)
    → 32 ≤ length bytes
    → plain_sum bytes ≡ block_sum bytes + plain_sum (drop 32 bytes)
unfolding block_sum words_from
plain_sum-block bytes h =
    let steps = plain_sum-words_from 16 0 bytes (omega (arith, h)) in omega (arith, steps)

-- The unrolled loop computes the plain sum, as long as it stays below 2^32.
pub sum_blocks-plain :
    (fuel sum : ℕ) (bytes : List ℕ)
    → sum + plain_sum bytes < 2 ^ 32
    → length bytes ≤ fuel
    → sum_blocks fuel sum bytes ≡ sum + plain_sum bytes
unfolding sum_blocks
sum_blocks-plain zero sum bytes low h = sum_words-plain sum bytes low
sum_blocks-plain (suc fuel) sum bytes low h = elim (Bool-cases (leb 32 (length bytes))) [
  | inr e ↦ rw e (sum_words-plain sum bytes low)
  | inl e ↦
      let long : 32 ≤ length bytes = ground (arith, e) in
      let split = plain_sum-block bytes long in
      let len = length-drop 32 bytes in
      let small : (sum + block_sum bytes) % 2 ^ 32 ≡ sum + block_sum bytes =
        omega (arith, low, split) in
      let ih =
        sum_blocks-plain fuel (sum + block_sum bytes) (drop 32 bytes) (omega (arith, low, split))
          (omega (arith, len, h, long)) in
      rw e (ap (λ s. sum_blocks fuel s (drop 32 bytes)) small ∙ ih ∙ (omega (arith, split)))
]
