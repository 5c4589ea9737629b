-- ===== src/EventFd/Bytes.antt =====
-- The bytes of a `u64`: `to_ne_bytes` and `from_ne_bytes` as kernel/src/fs/eventfd.rs uses them.
use native.Mathlib.Nat.{pow-suc}
use kontsnor_os.Prelude.{ℕ, zero, suc, ◌/◌, ◌^◌, ◌<◌, ◌≡◌, refl, length, arith}
use kontsnor_os.EventFd.{to_bytes, from_bytes}

pub length-to_bytes : (n v : ℕ) → length (to_bytes n v) ≡ n
length-to_bytes zero v = refl
length-to_bytes (suc n) v = omega (arith, length-to_bytes n (v / 256))

pub from_bytes-to_bytes : (n v : ℕ) → v < 256 ^ n → from_bytes (to_bytes n v) ≡ v
from_bytes-to_bytes zero v h = omega arith
from_bytes-to_bytes (suc n) v h =
    let smaller : v / 256 < 256 ^ n = omega (arith, h, pow-suc 256 n) in
    omega (arith, from_bytes-to_bytes n (v / 256) smaller)
