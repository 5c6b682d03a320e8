-- ===== src/Recovered/Net/Ip.antt =====
-- recovered/net/src/ip.c: net_rx_ipv4, and the IP header that net_tcp_send_packet and net_udp_send_packet of
-- recovered/net/src put before a segment.
pub mod Wire
pub mod Tests
use spirit_fox_os.Prelude.{
  ℕ, zero, suc, ◌+◌, ◌-◌, ◌*◌, ◌/◌, ◌%◌, ◌^◌, Bool, true, false, ltb, leb, ◌==◌, not, ◌&&◌, ◌||◌,
  if◌then◌else◌, List, [], ◌∷◌, ◌++◌, length, get_or, take, Option, none, some,
}
use spirit_fox_os.Recovered.Net.Socket.{Sockets}
use spirit_fox_os.Recovered.Net.Rings.{u32}
use spirit_fox_os.Recovered.Net.Tcp.{Env}
use spirit_fox_os.Recovered.Net.Segments.{
  Packet, bytes16, bytes32, read16, read32, sum_words, fold_carry, u64,
}
use spirit_fox_os.Recovered.Net.Tcp.Receive.{memory_from}
use spirit_fox_os.Recovered.Net.Tcp.Deliver.{net_tcp_rx}
use spirit_fox_os.Recovered.Net.Udp.{net_udp_rx}
use spirit_fox_os.Recovered.Net.Calls.Open.{ip_proto_tcp, ip_proto_udp}

abbrev pub ip_proto_icmp : ℕ
ip_proto_icmp = 1

abbrev pub ip_header_size : ℕ
ip_header_size = 20

-- The sum has at most 30 words, so 4 rounds are enough. The length of the header is in its first byte.
unfoldable pub compute_ip_checksum : List ℕ → Option ℕ
compute_ip_checksum header =
    elim (fold_carry 4 (u32 (sum_words (take (get_or header 0 0 % 2 ^ 4 * 4) header)))) [
      | none ↦ none
      | some sum ↦ some (2 ^ 16 - 1 - sum % 2 ^ 16)
    ]

abbrev pub ip_header : ℕ → ℕ → ℕ → ℕ → ℕ → List ℕ → List ℕ
ip_header identification protocol src_ip dst_ip len checksum =
    69 ∷ 0 ∷ bytes16 (ip_header_size + len)
    ++ bytes16 identification
    ++ (64 ∷ 0 ∷ 64 ∷ protocol ∷ [])
    ++ checksum
    ++ bytes32 src_ip
    ++ bytes32 dst_ip

-- The bytes given to net_send_eth, for the low 16 bits of a random number.
unfoldable pub ip_packet : ℕ → ℕ → Packet → List ℕ
ip_packet identification protocol p =
    let header = ip_header identification protocol p.src_ip p.dst_ip (length p.segment) in
    let checksum : ℕ = elim (compute_ip_checksum (header (0 ∷ 0 ∷ []))) [
      | none ↦ 0
      | some sum ↦ sum
    ] in
    header (checksum % 2 ^ 8 ∷ checksum / 2 ^ 8 ∷ []) ++ p.segment

-- What becomes of a packet: the sockets and the answers, or the payload and sender for net_icmp_rx.
pub data Delivery : Type 0 where
  dropped : Delivery
  handled : Sockets × List Packet → Delivery
  to_icmp : List ℕ → ℕ → Delivery

unfoldable pub deliver : (ℕ → Option ℕ) → Env → ℕ → ℕ → ℕ → List ℕ → Sockets → Delivery
deliver vfs_get_socket env protocol src_ip dst_ip payload n =
    if protocol == ip_proto_tcp
    then Delivery.handled (net_tcp_rx vfs_get_socket env src_ip dst_ip payload n)
    else (if protocol == ip_proto_udp
        then Delivery.handled (net_udp_rx env src_ip dst_ip payload n, [])
        else (if protocol == ip_proto_icmp
            then Delivery.to_icmp payload src_ip
            else Delivery.dropped))

-- The header may be longer than the packet says it is: the length of the payload then wraps around.
unfoldable pub net_rx_ipv4 : (ℕ → Option ℕ) → Env → List ℕ → Sockets → Delivery
net_rx_ipv4 vfs_get_socket env bytes n =
    let total_length = read16 bytes 2 in
    let ihl = get_or bytes 0 0 % 2 ^ 4 * 4 in
    let payload_len = u64 (total_length + 2 ^ 64 - ihl) in
    if ltb (length bytes) ip_header_size
    then Delivery.dropped
    else (if not (get_or bytes 0 0 / 2 ^ 4 == 4)
        then Delivery.dropped
        else (if ltb (length bytes) total_length
            then Delivery.dropped
            else (if ltb ihl ip_header_size
                then Delivery.dropped
                else deliver vfs_get_socket env (get_or bytes 9 0) (read32 bytes 12)
                    (read32 bytes 16) (memory_from env bytes ihl payload_len) n)))
