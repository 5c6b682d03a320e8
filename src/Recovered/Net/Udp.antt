-- ===== src/Recovered/Net/Udp.antt =====
-- recovered/net/src/udp.c, and net_sendto and net_recvfrom of recovered/net/src/socket.c for datagrams.
pub mod Datagrams
use spirit_fox_os.Prelude.{
  ℕ, zero, suc, ◌+◌, ◌-◌, ◌*◌, ◌/◌, ◌%◌, ◌^◌, Bool, true, false, ltb, leb, ◌==◌, not, ◌&&◌, ◌||◌,
  if◌then◌else◌, List, [], ◌∷◌, ◌++◌, length, get_or, Option, none, some,
}
use spirit_fox_os.Recovered.Net.Socket.{
  Socket, Sockets, socket_at, modify_socket, net_find_udp_socket, net_alloc_port, sock_stream,
  af_inet,
}
use spirit_fox_os.Recovered.Net.Rings.{
  Ring, u32, net_buf_size, net_rx_buffer_write, net_rx_buffer_read,
}
use spirit_fox_os.Recovered.Net.Tcp.{Env}
use spirit_fox_os.Recovered.Net.Segments.{
  Packet, bytes16, read16, htons, sum_words, fold_carry, u16, u64, inaddr_loopback,
}
use spirit_fox_os.Recovered.Net.Tcp.Receive.{memory_from}
use spirit_fox_os.Recovered.Net.Calls.{Address, Errno, Result, local_port_chosen}

unfoldable pub udp_sum : ℕ → ℕ → List ℕ → ℕ
udp_sum src_ip dst_ip udp_seg = u32 (
    src_ip / 2 ^ 16 % 2 ^ 16
    + src_ip % 2 ^ 16
    + dst_ip / 2 ^ 16 % 2 ^ 16
    + dst_ip % 2 ^ 16
    + htons 17
    + htons (u16 (length udp_seg))
    + sum_words udp_seg)

unfoldable pub compute_udp_checksum : ℕ → ℕ → List ℕ → Option ℕ
compute_udp_checksum src_ip dst_ip udp_seg = elim (fold_carry 4 (udp_sum src_ip dst_ip udp_seg)) [
  | none ↦ none
  | some sum ↦ some (2 ^ 16 - 1 - sum % 2 ^ 16)
]

abbrev pub udp_header_size : ℕ
udp_header_size = 8

abbrev pub udp_header : ℕ → ℕ → ℕ → List ℕ → List ℕ
udp_header src_port dst_port len checksum =
    bytes16 src_port ++ bytes16 dst_port ++ bytes16 (udp_header_size + len) ++ checksum

unfoldable pub net_udp_send_packet : ℕ → ℕ → ℕ → ℕ → List ℕ → Packet
net_udp_send_packet src_ip_ho src_port dst_ip dst_port payload =
    let src_ip = if src_ip_ho == 0 then inaddr_loopback else src_ip_ho in
    let zeroed = udp_header src_port dst_port (length payload) (0 ∷ 0 ∷ []) ++ payload in
    let checksum : ℕ = elim (compute_udp_checksum src_ip dst_ip zeroed) [
      | none ↦ 0
      | some sum ↦ sum
    ] in
    record {
      src_ip = src_ip;
      dst_ip = dst_ip;
      segment =
          udp_header src_port dst_port (length payload) (checksum % 2 ^ 8 ∷ checksum / 2 ^ 8 ∷ [])
          ++ payload;
    }

-- The sender's address in front of a datagram in the ring, as the processor stores it, the low byte first.
abbrev pub meta_bytes : ℕ → ℕ → List ℕ
meta_bytes src_ip src_port =
    src_ip % 2 ^ 8
    ∷ src_ip / 2 ^ 8 % 2 ^ 8
    ∷ src_ip / 2 ^ 16 % 2 ^ 8
    ∷ src_ip / 2 ^ 24 % 2 ^ 8
    ∷ src_port % 2 ^ 8
    ∷ src_port / 2 ^ 8 % 2 ^ 8
    ∷ []

abbrev pub meta_ip : List ℕ → ℕ
meta_ip meta =
    get_or meta 0 0 + get_or meta 1 0 * 2 ^ 8 + get_or meta 2 0 * 2 ^ 16 + get_or meta 3 0 * 2 ^ 24

abbrev pub meta_port : List ℕ → ℕ
meta_port meta = get_or meta 4 0 + get_or meta 5 0 * 2 ^ 8

unfoldable pub store_datagram : List ℕ → List ℕ → Ring → Ring
store_datagram meta payload r = (net_rx_buffer_write (net_rx_buffer_write r meta).0 payload).0

-- The length in the header is believed; it is a 16-bit number of which the header is taken off in 64 bits.
-- The ring takes at most its size, so no more of the payload is read.
unfoldable pub udp_payload : Env → List ℕ → List ℕ
udp_payload env udp_data =
    let payload_len = u64 (read16 udp_data 4 + 2 ^ 64 - udp_header_size) in
    memory_from env udp_data udp_header_size
      (if ltb payload_len net_buf_size then payload_len else net_buf_size)

unfoldable pub net_udp_rx : Env → ℕ → ℕ → List ℕ → Sockets → Sockets
net_udp_rx env src_ip dst_ip udp_data n =
    if ltb (length udp_data) udp_header_size
    then n
    else elim (net_find_udp_socket n (read16 udp_data 2) dst_ip) [
      | none ↦ n
      | some i ↦
          modify_socket i
            (λ s. record s {
              rx =
                  store_datagram (meta_bytes src_ip (read16 udp_data 0)) (udp_payload env udp_data)
                    s.rx;
            })
            n
    ]

-- net_sendto for a datagram socket.
unfoldable pub net_sendto : ℕ → List ℕ → Option Address → Sockets → (Sockets × Result) × List Packet
net_sendto i bytes none n = ((n, Result.error Errno.eafnosupport), [])
net_sendto i bytes (some addr) n =
    let n1 = local_port_chosen i n in
    let s = socket_at n1 i in
    if not (addr.family == af_inet) then ((n, Result.error Errno.eafnosupport), []) else (
      (n1, Result.done (length bytes)),
      net_udp_send_packet s.local_ip s.local_port addr.ip addr.port bytes ∷ [],
    )

-- What net_recvfrom returns for a datagram socket: the bytes and the sender, or an error.
pub record Datagram : Type 0 where
  pub bytes : List ℕ
  pub src_ip : ℕ
  pub src_port : ℕ

unfoldable pub net_recvfrom : ℕ → Ring → Option Datagram × Ring
net_recvfrom len r =
    let (meta, r1) = net_rx_buffer_read r 6 in
    let to_read = if ltb len r1.count then len else r1.count in
    let (bytes, r2) = net_rx_buffer_read r1 to_read in
    if ltb r.count 6
    then (none, r)
    else (some (record { bytes = bytes; src_ip = meta_ip meta; src_port = meta_port meta }), r2)
