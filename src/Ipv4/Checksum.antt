-- ===== src/Ipv4/Checksum.antt =====
-- What the two checksums of kernel/src/net/ipv4.rs are: they bring the sum of the words to a multiple
-- of 65535.
use kontsnor_os.Prelude.{
  ℕ, suc, ◌+◌, ◌-◌, ◌*◌, ◌^◌, ◌<◌, sym, ap, refl, [], ◌∷◌, ltb, if◌then◌else◌, ◌≤◌, ◌≡◌, ◌∙◌,
  Bool-cases, inl, inr, List, ◌==◌, length, arith,
}
use kontsnor_os.Ipv4.{
  be16, word_at, sum_blocks, fold, complement, internet_checksum, pseudo_sum,
  compute_transport_checksum,
}
use kontsnor_os.Ipv4.Sum.{plain_sum, AllBytes, plain_sum-le, sum_blocks-plain}
use kontsnor_os.Ipv4.Fold.{fold-Folded, complement-zero}

complement-Folded :
    (s : ℕ)
    → s < 2 ^ 32
    → (complement s ≤ 65535)
      × ((k : ℕ) × (s + complement s ≡ 65535 * k))
      × (0 < s → complement s < 65535)
complement-Folded s h =
    let (low, (j, e), keeps) = fold-Folded s h in
    (
      omega (arith, low),
      (suc j, omega (arith, low, e)),
      λ z. let r = keeps z in omega (arith, r, low),
    )

-- The checksum of at most 131070 bytes has 16 bits, and its sum with the words of the bytes is a
-- multiple of 65535, as RFC 1071 asks; the unrolled loop and the wrap at 2^32 leave no other trace.
pub internet_checksum_lem :
    (bytes : List ℕ)
    → AllBytes bytes
    → length bytes ≤ 131070
    → (internet_checksum bytes ≤ 65535)
      × ((k : ℕ) × (plain_sum bytes + internet_checksum bytes ≡ 65535 * k))
unfolding internet_checksum
internet_checksum_lem bytes all short =
    let top = plain_sum-le bytes all in
    let low : 0 + plain_sum bytes < 2 ^ 32 = omega (arith, top, short) in
    let plain : sum_blocks (length bytes) 0 bytes ≡ plain_sum bytes =
      sum_blocks-plain (length bytes) 0 bytes low (omega arith) ∙ omega arith in
    let (le, sum, full) = complement-Folded (plain_sum bytes) (omega (arith, low)) in
    rw plain (le, sum)

-- The sum of RFC 1071: 16-bit words, each carry added at the low end.
abbrev pub ones_add : ℕ → ℕ → ℕ
ones_add a b = if ltb 65535 (a + b) then a + b - 65535 else a + b

abbrev pub ones_sum : List ℕ → ℕ
ones_sum [] = 0
ones_sum (a ∷ []) = a * 256
ones_sum (a ∷ b ∷ rest) = ones_add (be16 a b) (ones_sum rest)

ones_add_plain :
    (a b : ℕ)
    → a ≤ 65535
    → b ≤ 65535
    → (ones_add a b ≤ 65535)
      × ((j : ℕ) × (a + b ≡ ones_add a b + 65535 * j))
      × (0 < a + b → 0 < ones_add a b)
ones_add_plain a b la lb = elim (Bool-cases (ltb 65535 (a + b))) [
  | inl c ↦ rw c (omega (arith, la, lb), (1, ground (arith, c)), λ z. ground (arith, c))
  | inr c ↦ rw c (ground (arith, c), (0, omega arith), λ z. z)
]

ones_sum-plain_sum :
    (bytes : List ℕ)
    → AllBytes bytes
    → (ones_sum bytes ≤ 65535)
      × ((j : ℕ) × (plain_sum bytes ≡ ones_sum bytes + 65535 * j))
      × (0 < plain_sum bytes → 0 < ones_sum bytes)
unfolding plain_sum
ones_sum-plain_sum [] h = (omega arith, (0, refl), λ z. z)
ones_sum-plain_sum (a ∷ []) h = let l = h.0 in (omega (arith, l), (0, omega arith), λ z. z)
ones_sum-plain_sum (a ∷ b ∷ rest) (la, (lb, h)) =
    let (low, (j, e), some_rest) = ones_sum-plain_sum rest h in
    let word : be16 a b ≤ 65535 = omega (arith, la, lb) in
    let (low', (j', e'), some_all) = ones_add_plain (be16 a b) (ones_sum rest) word low in
    (
      low',
      (j + j', omega (arith, e, e')),
      λ z. some_all (elim (Bool-cases (ltb 0 (plain_sum rest))) [
        | inl p ↦ let q = some_rest (ground (arith, p)) in omega (arith, q)
        | inr p ↦ let q : plain_sum rest ≡ 0 = ground (arith, p) in omega (arith, q, z)
      ]),
    )

-- The checksum of at most 131070 bytes is that of RFC 1071: the complement, in 16 bits, of the sum of their
-- words with each carry added at the low end, an odd last byte standing high in a word of its own.
pub internet_checksum-ones_sum :
    (bytes : List ℕ)
    → AllBytes bytes
    → length bytes ≤ 131070
    → internet_checksum bytes ≡ 65535 - ones_sum bytes
unfolding internet_checksum fold
internet_checksum-ones_sum bytes all short =
    let top = plain_sum-le bytes all in
    let low : 0 + plain_sum bytes < 2 ^ 32 = omega (arith, top, short) in
    let plain : sum_blocks (length bytes) 0 bytes ≡ plain_sum bytes =
      sum_blocks-plain (length bytes) 0 bytes low (omega arith) ∙ omega arith in
    let (le, (k, sum), full) = complement-Folded (plain_sum bytes) (omega (arith, low)) in
    let (small, (j, e), some_sum) = ones_sum-plain_sum bytes all in
    ap complement plain ∙ elim (Bool-cases (plain_sum bytes == 0)) [
      | inl z ↦
          let nothing : plain_sum bytes ≡ 0 = ground (arith, z) in
          let empty : ones_sum bytes ≡ 0 = omega (arith, e, nothing) in
          ap complement nothing ∙ ap (λ s. 65535 - s) (sym empty)
      | inr z ↦
          let pos : 0 < plain_sum bytes = ground (arith, z) in
          let under = full pos in
          let some_ones = some_sum pos in omega (arith, sum, e, under, some_ones, small)
    ]

-- Bytes that hold their own checksum.
pub internet_checksum-multiple :
    (bytes : List ℕ) (k : ℕ)
    → AllBytes bytes
    → length bytes ≤ 131070
    → 0 < plain_sum bytes
    → plain_sum bytes ≡ 65535 * k
    → internet_checksum bytes ≡ 0
unfolding internet_checksum
internet_checksum-multiple bytes k all short pos e =
    let top = plain_sum-le bytes all in
    let low : 0 + plain_sum bytes < 2 ^ 32 = omega (arith, top, short) in
    let plain : sum_blocks (length bytes) 0 bytes ≡ plain_sum bytes =
      sum_blocks-plain (length bytes) 0 bytes low (omega arith) ∙ omega arith in
    rw plain (complement-zero (plain_sum bytes) k (omega (arith, low)) pos e)

-- The checksum of a segment of at most 65535 bytes with its pseudo-header, the addresses being bytes,
-- has 16 bits and is not 0, which would stand for no checksum, and its sum with the words of the
-- segment and of the pseudo-header is a multiple of 65535.
pub compute_transport_checksum_lem :
    (src_ip dst_ip : List ℕ) (protocol : ℕ) (segment : List ℕ)
    → word_at src_ip 0 < 65536
    → word_at src_ip 2 < 65536
    → word_at dst_ip 0 < 65536
    → word_at dst_ip 2 < 65536
    → protocol < 256
    → AllBytes segment
    → length segment ≤ 65535
    → (0 < compute_transport_checksum src_ip dst_ip protocol segment)
      × (compute_transport_checksum src_ip dst_ip protocol segment ≤ 65535)
      × ((k : ℕ) × (word_at src_ip 0
              + word_at src_ip 2
              + word_at dst_ip 0
              + word_at dst_ip 2
              + protocol
              + length segment
              + plain_sum segment
              + compute_transport_checksum src_ip dst_ip protocol segment
            ≡ 65535 * k))
unfolding compute_transport_checksum
compute_transport_checksum_lem src_ip dst_ip protocol segment s0 s1 d0 d1 p all short =
    let top = plain_sum-le segment all in
    let pseudo = pseudo_sum src_ip dst_ip protocol (length segment) in
    let exact : pseudo
        ≡ word_at src_ip 0
          + word_at src_ip 2
          + word_at dst_ip 0
          + word_at dst_ip 2
          + protocol
          + length segment =
      omega (arith, s0, s1, d0, d1, p, short) in
    let low : pseudo + plain_sum segment < 2 ^ 32 =
      omega (arith, top, short, exact, s0, s1, d0, d1, p) in
    let plain = sum_blocks-plain (length segment) pseudo segment low (omega arith) in
    let (le, (k, sum), full) = complement-Folded (pseudo + plain_sum segment) low in
    elim (Bool-cases (complement (pseudo + plain_sum segment) == 0)) [
      | inl e ↦
          let none_left : complement (pseudo + plain_sum segment) ≡ 0 = ground (arith, e) in
          rw (plain, e, compute_transport_checksum)
            (omega arith, omega arith, (suc k, omega (arith, sum, none_left, exact)))
      | inr e ↦
          rw (plain, e, compute_transport_checksum)
            (ground (arith, e), le, (k, omega (arith, sum, exact)))
    ]
