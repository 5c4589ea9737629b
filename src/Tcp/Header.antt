-- ===== src/Tcp/Header.antt =====
-- TCP headers of kernel/src/net/tcp.rs: `TcpHeader` and `build_tcp_packet`. A header is the bytes that
-- a segment starts with.
pub mod RoundTrip
use kontsnor_os.Prelude.{
  ℕ, ◌+◌, ◌*◌, ◌/◌, ◌%◌, ◌^◌, Bool, true, false, List, [], ◌∷◌, ◌++◌, Option, none, some, ltb, ◌||◌,
  if◌then◌else◌, length, drop,
}
use kontsnor_os.Ipv4.{word_at, compute_transport_checksum}

abbrev pub proto_tcp : ℕ
proto_tcp = 6

-- `u32::from_be` of the field at `i`
abbrev pub long_at : List ℕ → ℕ → ℕ
long_at bytes i = word_at bytes i * 65536 + word_at bytes (i + 2)

-- `TcpHeader::parse`
pub parse_segment : List ℕ → Option (List ℕ × List ℕ)
parse_segment segment =
    let data_offset = word_at segment 12 / 4096 % 16 * 4 in
    if ltb (length segment) 20
    then none
    else if ltb data_offset 20 || ltb (length segment) data_offset
    then none
    else some (segment, drop data_offset segment)

abbrev pub src_port_host : List ℕ → ℕ
src_port_host header = word_at header 0

abbrev pub dst_port_host : List ℕ → ℕ
dst_port_host header = word_at header 2

abbrev pub seq_num_host : List ℕ → ℕ
seq_num_host header = long_at header 4

abbrev pub ack_num_host : List ℕ → ℕ
ack_num_host header = long_at header 8

abbrev pub flags_of : List ℕ → ℕ
flags_of header = word_at header 12 % 512

-- The bytes of the header with a given checksum; the data offset and the flags share no bit.
abbrev pub tcp_header : (src_port dst_port seq ack flags window checksum : ℕ) → List ℕ
tcp_header src_port dst_port seq ack flags window checksum =
    let data_offset_flags = 5 * 2 ^ 12 + flags % 512 in
    src_port / 256 % 256
    ∷ src_port % 256
    ∷ dst_port / 256 % 256
    ∷ dst_port % 256
    ∷ seq / 16777216 % 256
    ∷ seq / 65536 % 256
    ∷ seq / 256 % 256
    ∷ seq % 256
    ∷ ack / 16777216 % 256
    ∷ ack / 65536 % 256
    ∷ ack / 256 % 256
    ∷ ack % 256
    ∷ data_offset_flags / 256 % 256
    ∷ data_offset_flags % 256
    ∷ window / 256 % 256
    ∷ window % 256
    ∷ checksum / 256 % 256
    ∷ checksum % 256
    ∷ 0
    ∷ 0
    ∷ []

-- The segment that the call writes to the start of a buffer of `buf_len` bytes; its length is the
-- call's result.
pub build_tcp_packet :
    (buf_len : ℕ) (src_ip dst_ip : List ℕ) (src_port dst_port seq ack flags window : ℕ)
    (payload : List ℕ)
    → Option (List ℕ)
build_tcp_packet buf_len src_ip dst_ip src_port dst_port seq ack flags window payload =
    let total_len = 20 + length payload in
    let checksum =
      compute_transport_checksum src_ip dst_ip proto_tcp
        (tcp_header src_port dst_port seq ack flags window 0 ++ payload) in
    if ltb buf_len total_len
    then none
    else some (tcp_header src_port dst_port seq ack flags window checksum ++ payload)
