-- ===== src/Ipv4/Tests.antt =====
-- A packet, a segment and the routes of `init_routing`.
use kontsnor_os.Prelude.{
  ℕ, zero, suc, ◌-◌, ◌%◌, ◌<◌, ◌≤◌, ◌≡◌, refl, true, List, [], ◌∷◌, some, inl, inr, length, get_or,
  take, drop, replicate, arith,
}
use kontsnor_os.Ipv4.{word_at, internet_checksum, parse, verify_checksum, build_ipv4_packet}
use kontsnor_os.Ipv4.Sum.{AllBytes}
use kontsnor_os.Ipv4.Checksum.{ones_sum, internet_checksum-ones_sum}
use kontsnor_os.Ipv4.Packet.{address, build_ipv4_packet-parse}
use kontsnor_os.Ipv4.Routing.{RouteEntry, specificity, covers, lookup}
use kontsnor_os.Ipv4.Routing.Longest.{In, add_all, lookup_longest}

-- 35 bytes: a block, a word and a trailing byte.
abbrev bytes : List ℕ
bytes = replicate 35 171

AllBytes-replicate : (n a : ℕ) → a < 256 → AllBytes (replicate n a)
AllBytes-replicate zero a h = tt
AllBytes-replicate (suc n) a h = (h, AllBytes-replicate n a h)

bytes-AllBytes : AllBytes bytes
bytes-AllBytes = AllBytes-replicate 35 171 (omega arith)

internet_checksum-ones_sum_example : internet_checksum bytes ≡ 65535 - ones_sum bytes
internet_checksum-ones_sum_example = internet_checksum-ones_sum bytes bytes-AllBytes (omega arith)

abbrev loopback : List ℕ
loopback = address 127 0 0 1

build_ipv4_packet-parse_example :
    (packet : List ℕ) × (build_ipv4_packet 2048 loopback (address 10 0 2 15) 17 bytes 1
      ≡ (some packet, 2 % 65536))
    × (parse packet ≡ some (packet, bytes))
    × (verify_checksum packet ≡ true)
    × (word_at packet 2 ≡ length packet)
    × (get_or packet 9 0 ≡ 17)
    × (take 4 (drop 12 packet) ≡ loopback)
    × (take 4 (drop 16 packet) ≡ address 10 0 2 15)
build_ipv4_packet-parse_example =
    build_ipv4_packet-parse 2048 1 17 127 0 0 1 10 0 2 15 bytes (omega arith) (omega arith)
      (omega arith)
      (
        omega arith,
        (
          omega arith,
          (
            omega arith,
            (omega arith, (omega arith, (omega arith, (omega arith, (omega arith, tt))))),
          ),
        ),
      )

-- 127.0.0.0/8, 10.0.2.0/24 and the gateway 10.0.2.2
abbrev local : RouteEntry
local = record {
  destination = 0x7f000000;
  netmask = 0xff000000;
  gateway = 0;
  interface_idx = 0;
  metric = 0;
}

abbrev subnet : RouteEntry
subnet = record {
  destination = 0x0a000200;
  netmask = 0xffffff00;
  gateway = 0;
  interface_idx = 1;
  metric = 0;
}

abbrev default_route : RouteEntry
default_route = record {
  destination = 0;
  netmask = 0;
  gateway = 0x0a000202;
  interface_idx = 1;
  metric = 10;
}

abbrev routes : List RouteEntry
routes = local ∷ default_route ∷ subnet ∷ []

lookup_longest_example :
    (r : RouteEntry) × (lookup 0x0a00020f (add_all routes []) ≡ some r)
    × In r routes
    × (covers r 0x0a00020f ≡ true)
    × (specificity subnet ≤ specificity r)
lookup_longest_example = lookup_longest routes 0x0a00020f subnet (inr (inr (inl refl))) refl
