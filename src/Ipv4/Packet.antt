-- ===== src/Ipv4/Packet.antt =====
-- A packet that `build_ipv4_packet` makes and `parse` and `verify_checksum` take apart
-- (kernel/src/net/ipv4.rs).
use kontsnor_os.Prelude.{
  ℕ, ◌+◌, ◌%◌, ◌<◌, ◌≤◌, ◌≡◌, refl, sym, ap, ◌∙◌, true, false, List, [], ◌∷◌, ◌++◌, Option, some,
  ltb, ◌||◌, length, take, drop, take_all, get_or, arith,
}
use kontsnor_os.Ipv4.{
  word_at, internet_checksum, parse, verify_checksum, header_bytes, build_ipv4_packet,
}
use kontsnor_os.Ipv4.Sum.{plain_sum, AllBytes}
use kontsnor_os.Ipv4.Checksum.{internet_checksum_lem, internet_checksum-multiple}

-- `Ipv4Addr::new`
abbrev pub address : (a b c d : ℕ) → List ℕ
address a b c d = a ∷ b ∷ c ∷ d ∷ []

module _ (total ident protocol a b c d e f g h : ℕ) where
  abbrev header : ℕ → List ℕ
  header checksum = header_bytes total ident protocol checksum (address a b c d) (address e f g h)

  -- The checksum adds itself to the sum of the words.
  plain_sum-header :
      (checksum : ℕ)
      → checksum ≤ 65535
      → plain_sum (header checksum) ≡ plain_sum (header 0) + checksum
  unfolding plain_sum
  plain_sum-header checksum le = omega (arith, le)

  module _ (p : protocol < 256) (octets : AllBytes (address a b c d ++ address e f g h)) where
    header-AllBytes : (checksum : ℕ) → AllBytes (header checksum)
    header-AllBytes checksum = (
      omega arith,
      (
        omega arith,
        (
          omega arith,
          (
            omega arith,
            (
              omega arith,
              (
                omega arith,
                (
                  omega arith,
                  (omega arith, (omega arith, (p, (omega arith, (omega arith, octets))))),
                ),
              ),
            ),
          ),
        ),
      ),
    )

    plain_sum-positive : (checksum : ℕ) → 0 < plain_sum (header checksum)
    unfolding plain_sum
    plain_sum-positive checksum = omega arith

    header_verifies : internet_checksum (header (internet_checksum (header 0))) ≡ 0
    header_verifies =
        let own = internet_checksum (header 0) in
        let (le, (k, sum)) = internet_checksum_lem (header 0) (header-AllBytes 0) (omega arith) in
        internet_checksum-multiple (header own) k (header-AllBytes own) (omega arith)
          (plain_sum-positive own) (plain_sum-header own le ∙ sum)

-- What `build_ipv4_packet` writes into a buffer that is long enough, for a payload and a header of at
-- most 65535 bytes together, parses to the payload, its header bears a checksum that verifies, its
-- addresses and its protocol are those that were given, and its length is that of the header's field.
pub build_ipv4_packet-parse :
    (buf_len ident protocol a b c d e f g h : ℕ) (payload : List ℕ)
    → 20 + length payload ≤ buf_len
    → 20 + length payload ≤ 65535
    → protocol < 256
    → AllBytes (address a b c d ++ address e f g h)
    → (packet : List ℕ) × (build_ipv4_packet buf_len
          (address a b c d)
          (address e f g h)
          protocol
          payload
          ident
        ≡ (some packet, (ident + 1) % 65536))
      × (parse packet ≡ some (packet, payload))
      × (verify_checksum packet ≡ true)
      × (word_at packet 2 ≡ length packet)
      × (get_or packet 9 0 ≡ protocol)
      × (take 4 (drop 12 packet) ≡ address a b c d)
      × (take 4 (drop 16 packet) ≡ address e f g h)
unfolding build_ipv4_packet parse verify_checksum
build_ipv4_packet-parse buf_len ident protocol a b c d e f g h payload room short p octets =
    let total = 20 + length payload in
    let own = internet_checksum (header total ident protocol a b c d e f g h 0) in
    let packet = header total ident protocol a b c d e f g h own ++ payload in
    let fits : (ltb buf_len total || ltb 65535 total) ≡ false = ground (arith, room, short) in
    let len : length packet ≡ total = omega arith in
    let field : word_at packet 2 ≡ total = omega (arith, short) in
    let long : ltb (length packet) 20 ≡ false = ground (arith, len) in
    let whole : (ltb (word_at packet 2) 20 || ltb (length packet) (word_at packet 2)) ≡ false =
      ground (arith, field, len) in
    let all : take (word_at packet 2) packet ≡ packet =
      take_all (word_at packet 2) packet (omega (arith, len, field)) in
    let built : ◌≡◌ {A = Option (List ℕ) × ℕ}
        (build_ipv4_packet buf_len (address a b c d) (address e f g h) protocol payload ident)
        (some packet, (ident + 1) % 65536) =
      rw (fits, build_ipv4_packet) refl in
    let parsed : ◌≡◌ {A = Option (List ℕ × List ℕ)} (parse packet) (some (packet, payload)) =
      rw (long, whole, parse) (ap (λ l. some (packet, drop 20 l)) all) in
    (
      packet,
      built,
      parsed,
      rw (header_verifies total ident protocol a b c d e f g h p octets) refl,
      field ∙ sym len,
      refl,
      refl,
      refl,
    )
