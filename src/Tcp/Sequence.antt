-- ===== src/Tcp/Sequence.antt =====
-- Sequence numbers of kernel/src/net/tcp.rs: they count the bytes of a stream from a first number on,
-- modulo 2^32. Positions below 2^31 are compared as numbers are.
use kontsnor_os.Prelude.{ℕ, ◌+◌, ◌-◌, ◌%◌, ◌^◌, ◌<◌, ◌≤◌, ◌≡◌, ltb, ◌==◌, arith}
use kontsnor_os.Prelude.Word.{wrapping_add32, wrapping_sub32}
use kontsnor_os.Tcp.{before}

-- The number of the byte at position `p` of a stream that starts at `i`.
abbrev pub seq_at : (i p : ℕ) → ℕ
seq_at i p = (i + p) % 2 ^ 32

pub seq_at-add : (i p n : ℕ) → wrapping_add32 (seq_at i p) n ≡ seq_at i (p + n)
seq_at-add i p n = omega arith

pub seq_at-sub : (i p q : ℕ) → p ≤ q → q < 2 ^ 31 → wrapping_sub32 (seq_at i q) (seq_at i p) ≡ q - p
seq_at-sub i p q le low = omega (arith, le, low)

pub seq_at-sub_negative :
    (i p q : ℕ) → p < q → q < 2 ^ 31 → wrapping_sub32 (seq_at i p) (seq_at i q) ≡ 2 ^ 32 - (q - p)
seq_at-sub_negative i p q lt low = omega (arith, lt, low)

pub seq_at-injective : (i p q : ℕ) → p < 2 ^ 31 → q < 2 ^ 31 → seq_at i p ≡ seq_at i q → p ≡ q
seq_at-injective i p q lp lq e = omega (arith, lp, lq, e)

pub before-seq_at :
    (i p q : ℕ) → p < 2 ^ 31 → q < 2 ^ 31 → before (seq_at i p) (seq_at i q) ≡ ltb p q
before-seq_at i p q lp lq = ground (arith, lp, lq)

pub ==-seq_at : (i p q : ℕ) → p < 2 ^ 31 → q < 2 ^ 31 → (seq_at i p == seq_at i q) ≡ (p == q)
==-seq_at i p q lp lq = ground (arith, lp, lq)
