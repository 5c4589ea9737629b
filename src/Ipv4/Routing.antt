-- ===== src/Ipv4/Routing.antt =====
-- The routing table of kernel/src/net/ipv4.rs. An address is the number of its four octets; a table
-- is the list of its routes.
pub mod Longest
use Prim.Native.Nat.{bit_and}
use kontsnor_os.Prelude.{
  ℕ, zero, suc, ◌+◌, ◌/◌, ◌%◌, Bool, true, false, List, [], ◌∷◌, ◌++◌, Option, none, some, leb,
  ◌==◌, if◌then◌else◌,
}

pub record RouteEntry : Type 0 where
  pub destination : ℕ
  pub netmask : ℕ
  pub gateway : ℕ
  pub interface_idx : ℕ
  pub metric : ℕ

-- The number of ones among the lowest `bits` bits
pub ones_of : (bits w : ℕ) → ℕ
ones_of zero w = 0
ones_of (suc bits) w = w % 2 + ones_of bits (w / 2)

-- `count_ones` of the netmask
abbrev pub specificity : RouteEntry → ℕ
specificity r = ones_of 32 r.netmask

-- `sort_by`, which is stable: a route goes behind those that are at least as specific.
pub insert : RouteEntry → List RouteEntry → List RouteEntry
insert r [] = r ∷ []
insert r (x ∷ xs) =
    let rest = x ∷ insert r xs in if leb (specificity r) (specificity x) then rest else r ∷ x ∷ xs

pub sort_onto : (sorted routes : List RouteEntry) → List RouteEntry
sort_onto sorted [] = sorted
sort_onto sorted (r ∷ rs) = sort_onto (insert r sorted) rs

pub add_route : RouteEntry → List RouteEntry → List RouteEntry
add_route route routes = sort_onto [] (routes ++ (route ∷ []))

-- The test in the loop of `lookup`
abbrev pub covers : RouteEntry → (dst : ℕ) → Bool
covers r dst = bit_and dst r.netmask == bit_and r.destination r.netmask

pub lookup : (dst : ℕ) → List RouteEntry → Option RouteEntry
lookup dst [] = none
lookup dst (r ∷ rs) = let rest = lookup dst rs in if covers r dst then some r else rest
