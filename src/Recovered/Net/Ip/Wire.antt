-- ===== src/Recovered/Net/Ip/Wire.antt =====
-- A packet that recovered/net/src sends, as net_rx_ipv4 of recovered/net/src/ip.c takes it.
use spirit_fox_os.Prelude.{
  ℕ, ◌+◌, ◌-◌, ◌*◌, ◌/◌, ◌%◌, ◌^◌, ◌<◌, ◌≡◌, refl, ap, ◌∙◌, false, ltb, ◌==◌, List, length, get_or,
  take, arith, Option, not,
}
use spirit_fox_os.Recovered.Net.Socket.{Sockets}
use spirit_fox_os.Recovered.Net.Tcp.{Env}
use spirit_fox_os.Recovered.Net.Segments.{Packet, read16, read32, u64}
use spirit_fox_os.Recovered.Net.Tcp.Bytes.{memory_from-whole, memory_from-header}
use spirit_fox_os.Recovered.Net.Tcp.Receive.{memory_from}
use spirit_fox_os.Recovered.Net.Ip.{ip_packet, ip_header_size, deliver, net_rx_ipv4}

-- The addresses fit, and the packet is not too long for its length field.
pub record Sendable (p : Packet) : Type 0 where
  pub src_lem : p.src_ip < 2 ^ 32
  pub dst_lem : p.dst_ip < 2 ^ 32
  pub short : length p.segment + ip_header_size < 2 ^ 16

payload_lem :
    (env : Env) (identification protocol : ℕ) (p : Packet)
    → memory_from env (ip_packet identification protocol p) 20 (length p.segment) ≡ p.segment
unfolding ip_packet
payload_lem env identification protocol p =
    memory_from-header env (take 20 (ip_packet identification protocol p)) p.segment
      (length p.segment)
    ∙ memory_from-whole env p.segment

-- A packet that passes the checks is delivered.
net_rx_ipv4-deliver :
    (vfs_get_socket : ℕ → Option ℕ) (env : Env) (bytes : List ℕ) (n : Sockets)
    → ltb (length bytes) ip_header_size ≡ false
    → not (get_or bytes 0 0 / 2 ^ 4 == 4) ≡ false
    → ltb (length bytes) (read16 bytes 2) ≡ false
    → ltb (get_or bytes 0 0 % 2 ^ 4 * 4) ip_header_size ≡ false
    → net_rx_ipv4 vfs_get_socket env bytes n
      ≡ deliver vfs_get_socket env
          (get_or bytes 9 0)
          (read32 bytes 12)
          (read32 bytes 16)
          (memory_from env bytes
            (get_or bytes 0 0 % 2 ^ 4 * 4)
            (u64 (read16 bytes 2 + 2 ^ 64 - get_or bytes 0 0 % 2 ^ 4 * 4)))
          n
unfolding net_rx_ipv4
net_rx_ipv4-deliver vfs_get_socket env bytes n long version whole header =
    rw (long, version, whole, header, net_rx_ipv4) refl

-- For addresses and a length that fit their fields: net_rx_ipv4 takes a packet that was sent to the protocol
-- that it names, with the addresses and just the segment that it was built of.
pub net_rx_ipv4-ip_packet :
    (vfs_get_socket : ℕ → Option ℕ) (env : Env) (identification protocol : ℕ) (p : Packet)
    (n : Sockets)
    → Sendable p
    → net_rx_ipv4 vfs_get_socket env (ip_packet identification protocol p) n
      ≡ deliver vfs_get_socket env protocol p.src_ip p.dst_ip p.segment n
unfolding ip_packet read16 read32
net_rx_ipv4-ip_packet vfs_get_socket env identification protocol p n s =
    let bytes : List ℕ = ip_packet identification protocol p in
    let total : read16 bytes 2 ≡ 20 + length p.segment = omega (arith, s.short) in
    let whole : ltb (length bytes) (read16 bytes 2) ≡ false = rw total (ground arith) in
    let src : read32 bytes 12 ≡ p.src_ip = omega (arith, s.src_lem) in
    let dst : read32 bytes 16 ≡ p.dst_ip = omega (arith, s.dst_lem) in
    let len : u64 (read16 bytes 2 + 2 ^ 64 - 20) ≡ length p.segment =
      rw total (omega (arith, s.short)) in
    let content : memory_from env bytes 20 (u64 (read16 bytes 2 + 2 ^ 64 - 20)) ≡ p.segment =
      ap (memory_from env bytes 20) len ∙ payload_lem env identification protocol p in
    net_rx_ipv4-deliver vfs_get_socket env bytes n (ground arith) refl whole refl
    ∙ ap
        (λ a.
          deliver vfs_get_socket env protocol a (read32 bytes 16)
            (memory_from env bytes 20 (u64 (read16 bytes 2 + 2 ^ 64 - 20))) n)
        src
    ∙ ap
        (λ a.
          deliver vfs_get_socket env protocol p.src_ip a
            (memory_from env bytes 20 (u64 (read16 bytes 2 + 2 ^ 64 - 20))) n)
        dst
    ∙ ap (λ xs. deliver vfs_get_socket env protocol p.src_ip p.dst_ip xs n) content
