-- ===== src/Tcp/Header/RoundTrip.antt =====
-- A segment that `build_tcp_packet` makes and `TcpHeader` takes apart (kernel/src/net/tcp.rs).
use kontsnor_os.Prelude.{
  ℕ, ◌+◌, ◌*◌, ◌/◌, ◌%◌, ◌^◌, ◌<◌, ◌≤◌, ◌≡◌, refl, false, List, ◌++◌, Option, some, ltb, length,
  arith,
}
use kontsnor_os.Ipv4.{word_at, compute_transport_checksum}
use kontsnor_os.Ipv4.Sum.{plain_sum, AllBytes}
use kontsnor_os.Ipv4.Checksum.{compute_transport_checksum_lem}
use kontsnor_os.Ipv4.Packet.{address}
use kontsnor_os.Tcp.Header.{
  proto_tcp, parse_segment, src_port_host, dst_port_host, seq_num_host, ack_num_host, flags_of,
  tcp_header, build_tcp_packet,
}

-- The checksum adds itself to the sum of the words.
plain_sum-tcp_header :
    (src_port dst_port seq ack flags window checksum : ℕ) (payload : List ℕ)
    → checksum ≤ 65535
    → plain_sum (tcp_header src_port dst_port seq ack flags window checksum ++ payload)
      ≡ plain_sum (tcp_header src_port dst_port seq ack flags window 0 ++ payload) + checksum
unfolding plain_sum
plain_sum-tcp_header src_port dst_port seq ack flags window checksum payload le = omega (arith, le)

tcp_header-AllBytes :
    (src_port dst_port seq ack flags window checksum : ℕ) (payload : List ℕ)
    → AllBytes payload
    → AllBytes (tcp_header src_port dst_port seq ack flags window checksum ++ payload)
tcp_header-AllBytes src_port dst_port seq ack flags window checksum payload bytes = (
  omega arith,
  (
    omega arith,
    (
      omega arith,
      (
        omega arith,
        (
          omega arith,
          (
            omega arith,
            (
              omega arith,
              (
                omega arith,
                (
                  omega arith,
                  (
                    omega arith,
                    (
                      omega arith,
                      (
                        omega arith,
                        (
                          omega arith,
                          (
                            omega arith,
                            (
                              omega arith,
                              (
                                omega arith,
                                (omega arith, (omega arith, (omega arith, (omega arith, bytes)))),
                              ),
                            ),
                          ),
                        ),
                      ),
                    ),
                  ),
                ),
              ),
            ),
          ),
        ),
      ),
    ),
  ),
)

parse_segment-whole :
    (src_port dst_port seq ack flags window checksum : ℕ) (payload : List ℕ)
    → let segment = tcp_header src_port dst_port seq ack flags window checksum ++ payload in
      ◌≡◌ {A = Option (List ℕ × List ℕ)} (parse_segment segment) (some (segment, payload))
unfolding parse_segment
parse_segment-whole src_port dst_port seq ack flags window checksum payload =
    let segment = tcp_header src_port dst_port seq ack flags window checksum ++ payload in
    let len : length segment ≡ 20 + length payload = omega arith in
    let offset : word_at segment 12 / 4096 % 16 * 4 ≡ 20 = omega arith in
    let long : ltb (length segment) 20 ≡ false = ground (arith, len) in
    rw (offset, long, parse_segment) refl

-- What `build_tcp_packet` writes into a buffer that is long enough, for octets, numbers of 16 and 32
-- bits, flags of 9 bits and a payload of bytes of at most 65515 bytes, parses to the payload and to
-- the ports, the sequence number, the acknowledgement and the flags that were given; its checksum
-- field is not 0, and with it the words of the segment and of the pseudo-header add up to a multiple
-- of 65535.
pub build_tcp_packet-parse_segment :
    (buf_len src_port dst_port seq ack flags window a b c d e f g h : ℕ) (payload : List ℕ)
    → 20 + length payload ≤ buf_len
    → 20 + length payload ≤ 65535
    → src_port < 65536
    → dst_port < 65536
    → seq < 2 ^ 32
    → ack < 2 ^ 32
    → flags < 512
    → AllBytes (address a b c d ++ address e f g h)
    → AllBytes payload
    → let src_ip = address a b c d in
      let dst_ip = address e f g h in
      (segment : List ℕ) × (build_tcp_packet buf_len src_ip dst_ip src_port dst_port seq ack flags
          window payload
        ≡ some segment)
      × (parse_segment segment ≡ some (segment, payload))
      × (src_port_host segment ≡ src_port)
      × (dst_port_host segment ≡ dst_port)
      × (seq_num_host segment ≡ seq)
      × (ack_num_host segment ≡ ack)
      × (flags_of segment ≡ flags)
      × (0 < word_at segment 16)
      × ((k : ℕ) × (word_at src_ip 0
              + word_at src_ip 2
              + word_at dst_ip 0
              + word_at dst_ip 2
              + 6
              + length segment
              + plain_sum segment
            ≡ 65535 * k))
unfolding build_tcp_packet
build_tcp_packet-parse_segment buf_len src_port dst_port seq ack flags window a b c d e f g h
      payload room short ps pd sq ak fl octets bytes =
    let src_ip = address a b c d in
    let dst_ip = address e f g h in
    let (la, (lb, (lc, (ld, (le, (lf, (lg, (lh, _)))))))) = octets in
    let blank = tcp_header src_port dst_port seq ack flags window 0 ++ payload in
    let own = compute_transport_checksum src_ip dst_ip proto_tcp blank in
    let segment = tcp_header src_port dst_port seq ack flags window own ++ payload in
    let (pos, low, (k, sum)) =
      compute_transport_checksum_lem src_ip dst_ip proto_tcp blank (omega (arith, la, lb))
        (omega (arith, lc, ld)) (omega (arith, le, lf)) (omega (arith, lg, lh)) (omega arith)
        (tcp_header-AllBytes src_port dst_port seq ack flags window 0 payload bytes)
        (omega (arith, short)) in
    let fits : ltb buf_len (20 + length payload) ≡ false = ground (arith, room) in
    let added = plain_sum-tcp_header src_port dst_port seq ack flags window own payload low in
    (
      segment,
      rw (fits, build_tcp_packet) refl,
      parse_segment-whole src_port dst_port seq ack flags window own payload,
      omega (arith, ps),
      omega (arith, pd),
      omega (arith, sq),
      omega (arith, ak),
      omega (arith, fl),
      omega (arith, pos, low),
      (k, omega (arith, sum, added)),
    )
