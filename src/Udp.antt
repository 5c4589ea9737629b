-- ===== src/Udp.antt =====
-- Datagrams of kernel/src/net/udp.rs: their building and parsing, and the queue of those that came.
-- As in `Ipv4`, a header is the bytes that the data starts with.
pub mod Datagram
mod Tests
use kontsnor_os.Prelude.{
  ℕ, ◌+◌, ◌/◌, ◌%◌, Bool, true, false, List, [], ◌∷◌, ◌++◌, Option, none, some, ltb, leb, ◌||◌,
  if◌then◌else◌, length, take, drop,
}
use kontsnor_os.Ipv4.{word_at, compute_transport_checksum}

abbrev pub proto_udp : ℕ
proto_udp = 17

-- `UdpHeader::parse`
pub parse_header : List ℕ → Option (List ℕ × List ℕ)
parse_header segment =
    let len = word_at segment 4 in
    if ltb (length segment) 8
    then none
    else if ltb len 8 || ltb (length segment) len
    then none
    else some (segment, drop 8 (take len segment))

-- The bytes of the header with a given checksum.
abbrev pub udp_header : (src_port dst_port total_len checksum : ℕ) → List ℕ
udp_header src_port dst_port total_len checksum =
    src_port / 256 % 256
    ∷ src_port % 256
    ∷ dst_port / 256 % 256
    ∷ dst_port % 256
    ∷ total_len / 256 % 256
    ∷ total_len % 256
    ∷ checksum / 256 % 256
    ∷ checksum % 256
    ∷ []

-- The datagram that the call writes to the start of a buffer of `buf_len` bytes; its length is the
-- call's result.
pub build_datagram :
    (buf_len : ℕ) (src_ip dst_ip : List ℕ) (src_port dst_port : ℕ) (payload : List ℕ)
    → Option (List ℕ)
build_datagram buf_len src_ip dst_ip src_port dst_port payload =
    let total_len = 8 + length payload in
    let checksum =
      compute_transport_checksum src_ip dst_ip proto_udp
        (udp_header src_port dst_port total_len 0 ++ payload) in
    if ltb buf_len total_len || ltb 65535 total_len
    then none
    else some (udp_header src_port dst_port total_len checksum ++ payload)

pub record UdpDatagram : Type 0 where
  pub src_addr : List ℕ
  pub src_port : ℕ
  pub payload : List ℕ

-- What `handle_packet` does to the queue of the socket that it finds.
pub handle_packet : (src_ip segment : List ℕ) (udp_recv_queue : List UdpDatagram) → List UdpDatagram
handle_packet src_ip segment queue = elim (parse_header segment) [
  | none ↦ queue
  | some (header, payload) ↦
      if ltb (length queue) 128
      then queue
        ++ (record { src_addr = src_ip; src_port = word_at header 0; payload = payload } ∷ [])
      else queue
]
