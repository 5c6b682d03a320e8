-- ===== src/Recovered/Net/Segments.antt =====
-- recovered/net/src/tcp.c: the bytes of a segment and its checksum.
use spirit_fox_os.Prelude.{
  ℕ, zero, suc, ◌+◌, ◌-◌, ◌*◌, ◌/◌, ◌%◌, ◌^◌, Bool, ltb, ◌==◌, if◌then◌else◌, List, [], ◌∷◌, ◌++◌,
  length, get_or, Option, none, some,
}
use spirit_fox_os.Recovered.Net.Socket.{Socket}
use spirit_fox_os.Recovered.Net.Rings.{u32, sub32}

abbrev pub tcp_header_size : ℕ
tcp_header_size = 20

abbrev pub inaddr_loopback : ℕ
inaddr_loopback = 0x7F000001

abbrev pub flag_fin : ℕ
flag_fin = 0x01

abbrev pub flag_syn : ℕ
flag_syn = 0x02

abbrev pub flag_rst : ℕ
flag_rst = 0x04

abbrev pub flag_psh : ℕ
flag_psh = 0x08

abbrev pub flag_ack : ℕ
flag_ack = 0x10

-- flags & flag, for a flag that is one bit
abbrev pub has : ℕ → ℕ → Bool
has flags flag = flags / flag % 2 == 1

abbrev pub u16 : ℕ → ℕ
u16 n = n % 2 ^ 16

abbrev pub u64 : ℕ → ℕ
u64 n = n % 2 ^ 64

-- What net_send_eth is given: the addresses of the IP header and the bytes of the TCP segment.
pub record Packet : Type 0 where
  pub src_ip : ℕ
  pub dst_ip : ℕ
  pub segment : List ℕ

-- Big-endian numbers.
abbrev pub bytes16 : ℕ → List ℕ
bytes16 n = n / 2 ^ 8 % 2 ^ 8 ∷ n % 2 ^ 8 ∷ []

abbrev pub bytes32 : ℕ → List ℕ
bytes32 n = n / 2 ^ 24 % 2 ^ 8 ∷ n / 2 ^ 16 % 2 ^ 8 ∷ n / 2 ^ 8 % 2 ^ 8 ∷ n % 2 ^ 8 ∷ []

unfoldable pub read16 : List ℕ → ℕ → ℕ
read16 bytes i = get_or bytes i 0 * 2 ^ 8 + get_or bytes (i + 1) 0

unfoldable pub read32 : List ℕ → ℕ → ℕ
read32 bytes i = read16 bytes i * 2 ^ 16 + read16 bytes (i + 2)

-- `avail` is below 2 ^ 32 by the subtraction.
unfoldable pub tcp_advertised_window : Socket → ℕ
tcp_advertised_window s =
    let avail = sub32 s.rx.size s.rx.count in u16 (if ltb 65535 avail then 65535 else avail)

abbrev pub htons : ℕ → ℕ
htons n = n % 2 ^ 8 * 2 ^ 8 + n / 2 ^ 8 % 2 ^ 8

-- The words are read as the processor reads them, the low byte first; an odd last byte is shifted by 8.
unfoldable pub sum_words : List ℕ → ℕ
sum_words [] = 0
sum_words (b ∷ []) = b * 2 ^ 8
sum_words (b ∷ c ∷ rest) = b + c * 2 ^ 8 + sum_words rest

-- while (sum >> 16), on fuel
unfoldable pub fold_carry : ℕ → ℕ → Option ℕ
fold_carry zero sum = none
fold_carry (suc fuel) sum =
    let rest = fold_carry fuel (u32 (sum % 2 ^ 16 + sum / 2 ^ 16)) in
    if sum / 2 ^ 16 == 0 then some sum else rest

unfoldable pub tcp_sum : ℕ → ℕ → List ℕ → ℕ
tcp_sum src_ip dst_ip tcp_seg = u32 (
    src_ip / 2 ^ 16 % 2 ^ 16
    + src_ip % 2 ^ 16
    + dst_ip / 2 ^ 16 % 2 ^ 16
    + dst_ip % 2 ^ 16
    + htons 6
    + htons (u16 (length tcp_seg))
    + sum_words tcp_seg)

-- 4 rounds are enough.
unfoldable pub compute_tcp_checksum : ℕ → ℕ → List ℕ → Option ℕ
compute_tcp_checksum src_ip dst_ip tcp_seg = elim (fold_carry 4 (tcp_sum src_ip dst_ip tcp_seg)) [
  | none ↦ none
  | some sum ↦ some (2 ^ 16 - 1 - sum % 2 ^ 16)
]

-- The header without its checksum, around two bytes for it. The checksum is stored low byte first.
abbrev pub tcp_header : Socket → ℕ → ℕ → List ℕ → List ℕ
tcp_header s seq flags checksum =
    bytes16 s.local_port
    ++ bytes16 s.remote_port
    ++ bytes32 seq
    ++ bytes32 s.ack_num
    ++ (80 ∷ flags % 2 ^ 8 ∷ [])
    ++ bytes16 (tcp_advertised_window s)
    ++ checksum
    ++ bytes16 0

unfoldable pub tcp_packet : Socket → ℕ → ℕ → List ℕ → Packet
tcp_packet s seq flags payload =
    let src_ip = if s.local_ip == 0 then inaddr_loopback else s.local_ip in
    let zeroed = tcp_header s seq flags (0 ∷ 0 ∷ []) ++ payload in
    let checksum : ℕ = elim (compute_tcp_checksum src_ip s.remote_ip zeroed) [
      | none ↦ 0
      | some sum ↦ sum
    ] in
    record {
      src_ip = src_ip;
      dst_ip = s.remote_ip;
      segment = tcp_header s seq flags (checksum % 2 ^ 8 ∷ checksum / 2 ^ 8 ∷ []) ++ payload;
    }
