-- ===== src/Prelude/Bits.antt =====
-- The bit operations at variables: a mask of `k` ones takes a remainder, so that the source's
-- `x & (n - 1)`, at a power of two `n`, is `x % n`.
use Prim.Native.Nat.{digits, bit_and, bit_and-bitwise}
use native.Mathlib.Nat.{pow-suc, div-add-mod, mod-eq_of_lt, mod-lt, add-mul-mod_self_left}
use kontsnor_os.Prelude.{
  ℕ, zero, suc, ◌+◌, ◌-◌, ◌*◌, ◌/◌, ◌%◌, ◌^◌, ◌≤◌, ◌<◌, min, ◌≡◌, sym, ◌∙◌, ap, arith,
}

-- The lowest digit of a remainder by an even number is that of the number.
mod_even : (a m : ℕ) → 0 < m → a / 2 % m * 2 + a % 2 ≡ a % (m * 2)
mod_even a m h = sym (ap (λ t. t % (m * 2)) whole ∙ drop_multiple ∙ small)
  where
    low : ℕ
    low = a / 2 % m * 2 + a % 2

    whole : a ≡ low + m * 2 * (a / 2 / m)
    whole = omega (arith, div-add-mod (a / 2) m)

    drop_multiple : (low + m * 2 * (a / 2 / m)) % (m * 2) ≡ low % (m * 2)
    drop_multiple = add-mul-mod_self_left low (m * 2) (a / 2 / m)

    small : low % (m * 2) ≡ low
    small = mod-eq_of_lt (omega (arith, mod-lt (a / 2) h))

pub pow_pos : (k : ℕ) → 0 < 2 ^ k
pow_pos zero = omega arith
pow_pos (suc k) = omega (arith, pow-suc 2 k, pow_pos k)

digits_mask : (n a k : ℕ) → a ≤ n → digits (λ b. zero) min n a (2 ^ k - 1) ≡ a % 2 ^ k
digits_mask zero zero k h = grind (arith, pow_pos k)
digits_mask (suc n) zero k h = grind (arith, pow_pos k)
digits_mask zero (suc a) k h = absurd (omega arith)
digits_mask (suc n) (suc a) zero h = omega (arith, digits_mask n (suc a / 2) 0 (omega arith))
digits_mask (suc n) (suc a) (suc k) h = omega (
  arith,
  pow-suc 2 k,
  pow_pos k,
  ap (digits (λ b. zero) min n (suc a / 2)) shorter,
  digits_mask n (suc a / 2) k (omega arith),
  mod_even (suc a) (2 ^ k) (pow_pos k),
  ap (λ t. suc a % t) (pow-suc 2 k),
)
  where
    shorter : (2 ^ suc k - 1) / 2 ≡ 2 ^ k - 1
    shorter = omega (arith, pow-suc 2 k, pow_pos k)

pub bit_and_mask : (a k : ℕ) → bit_and a (2 ^ k - 1) ≡ a % 2 ^ k
bit_and_mask a k = bit_and-bitwise a (2 ^ k - 1) ∙ digits_mask a a k (omega arith)
