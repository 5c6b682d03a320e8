-- ===== src/Recovered/Net/Tcp.antt =====
-- recovered/net/src/tcp.c: the list of segments that have not been acknowledged, the round-trip estimate, and
-- sending.
pub mod Acks
pub mod Receive
pub mod Deliver
pub mod Tick
pub mod Checksum
pub mod Bytes
pub mod Sound
pub mod Moves
pub mod Kept
pub mod Timeouts
pub mod Established
use spirit_fox_os.Recovered.Net.Segments.{
  tcp_header_size, inaddr_loopback, flag_fin, flag_syn, flag_rst, flag_psh, flag_ack, has, u16, u64,
  Packet, bytes16, bytes32, read16, read32, tcp_advertised_window, htons, sum_words, fold_carry,
  tcp_sum, compute_tcp_checksum, tcp_header, tcp_packet,
}
use spirit_fox_os.Prelude.{
  ℕ, zero, suc, ◌+◌, ◌-◌, ◌*◌, ◌/◌, ◌%◌, ◌^◌, Bool, true, false, ltb, leb, ◌==◌, not, ◌&&◌, ◌||◌,
  if◌then◌else◌, List, [], ◌∷◌, ◌++◌, length, get_or, take, drop, bit_and, Option, none, some,
}
use spirit_fox_os.Recovered.Net.Socket.{Socket, Segment, net_tcp_mss, net_tcp_window}
use spirit_fox_os.Recovered.Net.Rings.{Ring, u32, sub32, net_buf_size}

abbrev pub rto_min : ℕ
rto_min = 200

abbrev pub rto_max : ℕ
rto_max = 60000

abbrev pub rto_init : ℕ
rto_init = 1000

abbrev pub timewait_ms : ℕ
timewait_ms = 60000

abbrev pub max_retries : ℕ
max_retries = 5

-- What an event meets: the time in milliseconds, the number that net_random returns for a first sequence
-- number, which of its allocations succeed, and the bytes that stand in memory behind the packet.
pub record Env : Type 0 where
  pub now : ℕ
  pub random : ℕ
  pub kmalloc : ℕ → Bool
  pub behind : ℕ → ℕ

-- A socket and the packets that were sent for it, in order.
pub record Sent : Type 0 where
  pub socket : Socket
  pub packets : List Packet

abbrev pub update : (Socket → Socket) → Sent → Sent
update f o = record o { socket = f o.socket }

-- The allocations of the segment and of its bytes are those of the event at `alloc` and behind it.
unfoldable pub tcp_unacked_add : Env → ℕ → ℕ → List ℕ → Socket → Socket
tcp_unacked_add env alloc seq payload s =
    if env.kmalloc alloc && env.kmalloc (alloc + 1)
    then record s {
      unacked =
          s.unacked ++ record { seq = seq; bytes = payload; send_time = env.now; retries = 0 } ∷ [];
    }
    else s

unfoldable pub acknowledge : ℕ → List Segment → List Segment
acknowledge ack [] = []
acknowledge ack (seg ∷ segs) =
    if leb (u32 (seg.seq + length seg.bytes)) ack then acknowledge ack segs else seg ∷ segs

unfoldable pub tcp_unacked_ack : ℕ → Socket → Socket
tcp_unacked_ack ack s = record s { unacked = acknowledge ack s.unacked }

unfoldable pub tcp_unacked_free : Socket → Socket
tcp_unacked_free s = record s { unacked = [] }

-- diff < 0 ? -diff : diff, for the difference of two 32-bit numbers
abbrev pub abs_diff : ℕ → ℕ → ℕ
abs_diff a b = let diff = sub32 a b in if ltb diff (2 ^ 31) then diff else sub32 0 diff

abbrev pub clamp_rto : ℕ → ℕ
clamp_rto rto =
    let at_least = if ltb rto rto_min then rto_min else rto in
    if ltb rto_max at_least then rto_max else at_least

unfoldable pub tcp_update_rtt : ℕ → Socket → Socket
tcp_update_rtt rtt s =
    let first = s.srtt == 0 in
    let rttvar' = if first then rtt / 2 else u32 (3 * s.rttvar + abs_diff s.srtt rtt) / 4 in
    let srtt' = if first then rtt else u32 (7 * s.srtt + rtt) / 8 in
    record s { srtt = srtt'; rttvar = rttvar'; rto = clamp_rto (u32 (srtt' + 4 * rttvar')) }

unfoldable pub total_bytes : List Segment → ℕ
total_bytes [] = 0
total_bytes (seg ∷ segs) = length seg.bytes + total_bytes segs

unfoldable pub tcp_recalc_in_flight : Socket → Socket
tcp_recalc_in_flight s = record s { bytes_in_flight = u32 (total_bytes s.unacked) }

abbrev pub is_empty : List Segment → Bool
is_empty [] = true
is_empty (x ∷ xs) = false

-- Track data segments for retransmission
unfoldable pub track : Env → ℕ → ℕ → List ℕ → Socket → Socket
track env alloc flags payload s =
    let stored = tcp_unacked_add env alloc s.seq_num payload s in
    if ltb 0 (length payload) && has flags flag_ack
    then record stored { bytes_in_flight = u32 (s.bytes_in_flight + length payload) }
    else s

unfoldable pub start_timer : Env → Socket → Socket
start_timer env s =
    if not (is_empty s.unacked) && (s.retransmit_timer == 0)
    then record s { retransmit_timer = u64 (env.now + s.rto) }
    else s

-- The packet is built first. Then the segment is stored, the timer started and the sequence number moved
-- behind what was sent: SYN and FIN take a number each.
unfoldable pub net_tcp_send_packet : Env → ℕ → ℕ → List ℕ → Sent → Sent
net_tcp_send_packet env alloc flags payload o =
    let s = o.socket in
    let consumed = (if has flags flag_syn then 1 else 0) + (if has flags flag_fin then 1 else 0) in
    record {
      socket = record (start_timer env (track env alloc flags payload s)) {
        seq_num = u32 (s.seq_num + consumed + length payload);
        last_ack_sent = s.ack_num;
      };
      packets = o.packets ++ tcp_packet s s.seq_num flags payload ∷ [];
    }
