-- ===== src/Ipv4.antt =====
-- Packets of kernel/src/net/ipv4.rs: the Internet checksum, headers, and the building and parsing of
-- packets. A byte is a number below 256, and an address is the list of its four octets; a header is
-- the bytes that a packet starts with, since `parse` returns a pointer into the packet.
pub mod Sum
pub mod Fold
pub mod Checksum
pub mod Packet
pub mod Routing
mod Tests
use kontsnor_os.Prelude.{
  ℕ, zero, suc, ◌+◌, ◌-◌, ◌*◌, ◌/◌, ◌%◌, ◌^◌, Bool, true, false, List, [], ◌∷◌, ◌++◌, Option, none,
  some, ltb, leb, ◌==◌, ◌||◌, not, if◌then◌else◌, length, get_or, take, drop,
}

-- `u16::from_be_bytes` and `to_be_bytes`
abbrev pub be16 : (high low : ℕ) → ℕ
be16 high low = high * 256 + low

abbrev pub be_bytes16 : ℕ → List ℕ
be_bytes16 w = w / 256 % 256 ∷ w % 256 ∷ []

abbrev pub word_at : List ℕ → ℕ → ℕ
word_at bytes i = be16 (get_or bytes i 0) (get_or bytes (i + 1) 0)

-- The 16 words of a block of 32 bytes
pub block_sum : List ℕ → ℕ
block_sum bytes =
    word_at bytes 0
    + word_at bytes 2
    + word_at bytes 4
    + word_at bytes 6
    + word_at bytes 8
    + word_at bytes 10
    + word_at bytes 12
    + word_at bytes 14
    + word_at bytes 16
    + word_at bytes 18
    + word_at bytes 20
    + word_at bytes 22
    + word_at bytes 24
    + word_at bytes 26
    + word_at bytes 28
    + word_at bytes 30

-- The loop over the remaining words, and the odd trailing byte
pub sum_words : (sum : ℕ) → List ℕ → ℕ
sum_words sum [] = sum
sum_words sum (a ∷ []) = (sum + a * 256) % 2 ^ 32
sum_words sum (a ∷ b ∷ rest) = sum_words ((sum + be16 a b) % 2 ^ 32) rest

-- The loop over the blocks, and what follows it. Each round takes 32 bytes, so as many rounds as
-- there are bytes suffice.
pub sum_blocks : (fuel sum : ℕ) → List ℕ → ℕ
sum_blocks zero sum bytes = sum_words sum bytes
sum_blocks (suc fuel) sum bytes =
    let on = sum_blocks fuel ((sum + block_sum bytes) % 2 ^ 32) (drop 32 bytes) in
    if leb 32 (length bytes) then on else sum_words sum bytes

-- The loop that folds a sum of 32 bits; three rounds suffice.
pub fold : (fuel sum : ℕ) → ℕ
fold zero sum = sum
fold (suc fuel) sum =
    let on = fold fuel (sum % 65536 + sum / 65536) in if sum / 65536 == 0 then sum else on

-- `!(sum as u16)`, for the folded sum
abbrev pub complement : ℕ → ℕ
complement sum = 65535 - fold 3 sum % 65536

pub internet_checksum : List ℕ → ℕ
internet_checksum bytes = complement (sum_blocks (length bytes) 0 bytes)

-- The sum of the pseudo-header
abbrev pub pseudo_sum : (src_ip dst_ip : List ℕ) (protocol len : ℕ) → ℕ
pseudo_sum src_ip dst_ip protocol len =
    (word_at src_ip 0 + word_at src_ip 2 + word_at dst_ip 0 + word_at dst_ip 2 + protocol + len)
    % 2 ^ 32

pub compute_transport_checksum : (src_ip dst_ip : List ℕ) (protocol : ℕ) (segment : List ℕ) → ℕ
compute_transport_checksum src_ip dst_ip protocol segment =
    let csum =
      complement (
        sum_blocks (length segment) (pseudo_sum src_ip dst_ip protocol (length segment)) segment) in
    if csum == 0 then 65535 else csum

-- `header_length` of a header
abbrev pub header_length : List ℕ → ℕ
header_length header = get_or header 0 0 % 16 * 4

-- The packet as a header, and the payload.
pub parse : List ℕ → Option (List ℕ × List ℕ)
parse packet =
    let ihl = header_length packet in
    let total_len = word_at packet 2 in
    if ltb (length packet) 20
    then none
    else if not (get_or packet 0 0 / 16 == 4)
    then none
    else if ltb ihl 20 || ltb (length packet) ihl
    then none
    else if ltb total_len ihl || ltb (length packet) total_len
    then none
    else some (packet, drop ihl (take total_len packet))

pub verify_checksum : List ℕ → Bool
verify_checksum header = internet_checksum (take (header_length header) header) == 0

-- The bytes of the header that `build_ipv4_packet` makes, with a given checksum.
abbrev pub header_bytes : (total_len ident protocol checksum : ℕ) (src_ip dst_ip : List ℕ) → List ℕ
header_bytes total_len ident protocol checksum src_ip dst_ip =
    0x45
    ∷ 0
    ∷ total_len / 256 % 256
    ∷ total_len % 256
    ∷ ident / 256 % 256
    ∷ ident % 256
    ∷ 0
    ∷ 0
    ∷ 64
    ∷ protocol
    ∷ checksum / 256 % 256
    ∷ checksum % 256
    ∷ (src_ip ++ dst_ip)

-- The packet that the call writes to the start of a buffer of `buf_len` bytes, and the next
-- identification; its length is the call's result.
pub build_ipv4_packet :
    (buf_len : ℕ) (src_ip dst_ip : List ℕ) (protocol : ℕ) (payload : List ℕ) (ip_ident : ℕ)
    → Option (List ℕ) × ℕ
build_ipv4_packet buf_len src_ip dst_ip protocol payload ip_ident =
    let total_len = 20 + length payload in
    let checksum = internet_checksum (header_bytes total_len ip_ident protocol 0 src_ip dst_ip) in
    if ltb buf_len total_len || ltb 65535 total_len then (none, ip_ident) else (
      some (header_bytes total_len ip_ident protocol checksum src_ip dst_ip ++ payload),
      (ip_ident + 1) % 65536,
    )
