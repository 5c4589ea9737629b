-- ===== src/Udp/Datagram.antt =====
-- A datagram that `build_datagram` makes and `handle_packet` takes in (kernel/src/net/udp.rs).
use kontsnor_os.Prelude.{
  ℕ, ◌+◌, ◌*◌, ◌<◌, ◌≤◌, ◌≡◌, refl, ap, true, false, List, [], ◌∷◌, ◌++◌, Option, some, ltb, ◌||◌,
  length, take, drop, take_all, arith,
}
use kontsnor_os.Ipv4.{word_at, compute_transport_checksum}
use kontsnor_os.Ipv4.Sum.{plain_sum, AllBytes}
use kontsnor_os.Ipv4.Checksum.{compute_transport_checksum_lem}
use kontsnor_os.Ipv4.Packet.{address}
use kontsnor_os.Udp.{
  proto_udp, parse_header, udp_header, build_datagram, UdpDatagram, handle_packet,
}

-- The checksum adds itself to the sum of the words.
plain_sum-udp_header :
    (src_port dst_port total checksum : ℕ) (payload : List ℕ)
    → checksum ≤ 65535
    → plain_sum (udp_header src_port dst_port total checksum ++ payload)
      ≡ plain_sum (udp_header src_port dst_port total 0 ++ payload) + checksum
unfolding plain_sum
plain_sum-udp_header src_port dst_port total checksum payload le = omega (arith, le)

parse_header-whole :
    (src_port dst_port checksum : ℕ) (payload : List ℕ)
    → 8 + length payload ≤ 65535
    → let segment = udp_header src_port dst_port (8 + length payload) checksum ++ payload in
      ◌≡◌ {A = Option (List ℕ × List ℕ)} (parse_header segment) (some (segment, payload))
unfolding parse_header
parse_header-whole src_port dst_port checksum payload short =
    let segment = udp_header src_port dst_port (8 + length payload) checksum ++ payload in
    let len : length segment ≡ 8 + length payload = omega arith in
    let field : word_at segment 4 ≡ 8 + length payload = omega (arith, short) in
    let long : ltb (length segment) 8 ≡ false = ground (arith, len) in
    let whole : (ltb (word_at segment 4) 8 || ltb (length segment) (word_at segment 4)) ≡ false =
      ground (arith, field, len) in
    let all : take (word_at segment 4) segment ≡ segment =
      take_all (word_at segment 4) segment (omega (arith, len, field)) in
    rw (long, whole, parse_header) (ap (λ l. some (segment, drop 8 l)) all)

-- What `build_datagram` writes into a buffer that is long enough, for octets, ports of 16 bits and a
-- payload of bytes of at most 65527 bytes, has the destination's port in its place, and
-- `handle_packet` puts it at the end of a queue of fewer than 128 with the source's port and the
-- payload that were given; its checksum field is not 0, and with it the words of the datagram and of
-- the pseudo-header add up to a multiple of 65535.
pub build_datagram-handle_packet :
    (buf_len src_port dst_port a b c d e f g h : ℕ) (payload : List ℕ) (queue : List UdpDatagram)
    → 8 + length payload ≤ buf_len
    → 8 + length payload ≤ 65535
    → src_port < 65536
    → dst_port < 65536
    → AllBytes (address a b c d ++ address e f g h)
    → AllBytes payload
    → length queue < 128
    → let src_ip = address a b c d in
      let dst_ip = address e f g h in
      (segment : List ℕ) × (build_datagram buf_len src_ip dst_ip src_port dst_port payload
        ≡ some segment)
      × (handle_packet src_ip segment queue
          ≡ queue ++ (record { src_addr = src_ip; src_port = src_port; payload = payload } ∷ []))
      × (word_at segment 2 ≡ dst_port)
      × (0 < word_at segment 6)
      × ((k : ℕ) × (word_at src_ip 0
              + word_at src_ip 2
              + word_at dst_ip 0
              + word_at dst_ip 2
              + 17
              + length segment
              + plain_sum segment
            ≡ 65535 * k))
unfolding build_datagram handle_packet
build_datagram-handle_packet buf_len src_port dst_port a b c d e f g h payload queue room short ps
      pd octets bytes few =
    let src_ip = address a b c d in
    let dst_ip = address e f g h in
    let (la, (lb, (lc, (ld, (le, (lf, (lg, (lh, _)))))))) = octets in
    let total = 8 + length payload in
    let blank = udp_header src_port dst_port total 0 ++ payload in
    let own = compute_transport_checksum src_ip dst_ip proto_udp blank in
    let segment = udp_header src_port dst_port total own ++ payload in
    let blank_bytes : AllBytes blank = (
      omega arith,
      (
        omega arith,
        (
          omega arith,
          (omega arith, (omega arith, (omega arith, (omega arith, (omega arith, bytes))))),
        ),
      ),
    ) in
    let (pos, low, (k, sum)) =
      compute_transport_checksum_lem src_ip dst_ip proto_udp blank (omega (arith, la, lb))
        (omega (arith, lc, ld)) (omega (arith, le, lf)) (omega (arith, lg, lh)) (omega arith)
        blank_bytes (omega (arith, short)) in
    let fits : (ltb buf_len total || ltb 65535 total) ≡ false = ground (arith, room, short) in
    let space : ltb (length queue) 128 ≡ true = ground (arith, few) in
    let port : word_at segment 0 ≡ src_port = omega (arith, ps) in
    let added = plain_sum-udp_header src_port dst_port total own payload low in
    let parsed = parse_header-whole src_port dst_port own payload short in
    (
      segment,
      rw (fits, build_datagram) refl,
      rw (parsed, space, handle_packet)
          (ap (λ q. queue ++ (record { src_addr = src_ip; src_port = q; payload = payload } ∷ []))
            port),
      omega (arith, pd),
      omega (arith, pos, low),
      (k, omega (arith, sum, added)),
    )
