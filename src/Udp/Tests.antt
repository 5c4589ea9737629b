-- ===== src/Udp/Tests.antt =====
-- A datagram from port 4000 of 10.0.2.15 to port 53 of 10.0.2.3.
use kontsnor_os.Prelude.{ℕ, ◌+◌, ◌*◌, ◌<◌, ◌≡◌, List, [], ◌∷◌, some, length, arith}
use kontsnor_os.Ipv4.{word_at}
use kontsnor_os.Ipv4.Sum.{plain_sum}
use kontsnor_os.Ipv4.Packet.{address}
use kontsnor_os.Udp.{build_datagram, handle_packet}
use kontsnor_os.Udp.Datagram.{build_datagram-handle_packet}

abbrev sender : List ℕ
sender = address 10 0 2 15

abbrev server : List ℕ
server = address 10 0 2 3

abbrev query : List ℕ
query = 18 ∷ 52 ∷ 1 ∷ []

build_datagram-handle_packet_example :
    (segment : List ℕ) × (build_datagram 512 sender server 4000 53 query ≡ some segment)
    × (handle_packet sender segment []
        ≡ record { src_addr = sender; src_port = 4000; payload = query } ∷ [])
    × (word_at segment 2 ≡ 53)
    × (0 < word_at segment 6)
    × ((k : ℕ) × (word_at sender 0
            + word_at sender 2
            + word_at server 0
            + word_at server 2
            + 17
            + length segment
            + plain_sum segment
          ≡ 65535 * k))
build_datagram-handle_packet_example =
    build_datagram-handle_packet 512 4000 53 10 0 2 15 10 0 2 3 query [] (omega arith) (omega arith)
      (omega arith) (omega arith)
      (
        omega arith,
        (
          omega arith,
          (
            omega arith,
            (omega arith, (omega arith, (omega arith, (omega arith, (omega arith, tt))))),
          ),
        ),
      )
      (omega arith, (omega arith, (omega arith, tt))) (omega arith)
