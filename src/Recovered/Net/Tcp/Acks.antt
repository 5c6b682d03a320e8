-- ===== src/Recovered/Net/Tcp/Acks.antt =====
-- recovered/net/src/tcp.c: what an acknowledgment does to an established connection.
use spirit_fox_os.Prelude.{
  ℕ, ◌+◌, ◌-◌, ◌*◌, ◌/◌, ◌^◌, Bool, true, false, ltb, leb, ◌==◌, ◌||◌, if◌then◌else◌, List, [], ◌∷◌,
  length,
}
use spirit_fox_os.Recovered.Net.Socket.{Congestion, Socket, Segment, net_tcp_mss}
use spirit_fox_os.Recovered.Net.Rings.{u32, sub32}
use spirit_fox_os.Recovered.Net.Tcp.{
  Env, Sent, update, tcp_unacked_ack, tcp_update_rtt, tcp_recalc_in_flight, is_empty,
  net_tcp_send_packet,
}
use spirit_fox_os.Recovered.Net.Segments.{u64, flag_psh, flag_ack}

-- The congestion control of a new acknowledgment.
unfoldable pub grow_window : ℕ → ℕ → Congestion → Socket → Socket
grow_window ack acked Congestion.slow_start s =
    let cwnd' = u32 (s.cwnd + acked) in
    record s {
      cwnd = cwnd';
      congestion = if leb s.ssthresh cwnd' then Congestion.congestion_avoid else s.congestion;
    }
grow_window ack acked Congestion.congestion_avoid s =
    if ltb 0 s.cwnd
    then record s { cwnd = u32 (s.cwnd + net_tcp_mss * net_tcp_mss / s.cwnd) }
    else s
grow_window ack acked Congestion.fast_recovery s =
    if s.bytes_in_flight == 0 || leb s.ssthresh ack
    then record s { cwnd = s.ssthresh; congestion = Congestion.congestion_avoid }
    else record s { cwnd = u32 (s.cwnd + acked) }

-- A round trip is measured when the first segment is acknowledged.
unfoldable pub measure_rtt : Env → ℕ → List Segment → Socket → Socket
measure_rtt env ack [] s = s
measure_rtt env ack (seg ∷ segs) s =
    if leb (u32 (seg.seq + length seg.bytes)) ack
    then tcp_update_rtt (u32 (u64 (env.now + 2 ^ 64 - seg.send_time))) s
    else s

unfoldable pub new_ack : Env → ℕ → Socket → Socket
new_ack env ack s =
    let s1 = tcp_recalc_in_flight (tcp_unacked_ack ack (measure_rtt env ack s.unacked s)) in
    let acked = sub32 s.bytes_in_flight s1.bytes_in_flight in
    let s2 = grow_window ack acked s1.congestion s1 in
    record s2 {
      dup_ack_count = 0;
      retransmit_timer = if is_empty s2.unacked then 0 else u64 (env.now + s2.rto);
    }

abbrev pub half_window : ℕ → ℕ
half_window cwnd = if ltb (2 * net_tcp_mss) (cwnd / 2) then cwnd / 2 else 2 * net_tcp_mss

abbrev pub is_recovering : Congestion → Bool
is_recovering Congestion.fast_recovery = true
is_recovering _ = false

-- The first segment is sent again; net_tcp_send_packet stores it a second time.
unfoldable pub resend_first : Env → List Segment → Sent → Sent
resend_first env [] o = o
resend_first env (seg ∷ segs) o =
    let again =
      net_tcp_send_packet env 0 (flag_psh + flag_ack) seg.bytes
        (update (λ s. record s { seq_num = seg.seq }) o) in
    update (λ s. record s { seq_num = o.socket.seq_num }) again

unfoldable pub duplicate_ack : Env → Sent → Sent
duplicate_ack env o =
    let counted = update (λ s. record s { dup_ack_count = u32 (s.dup_ack_count + 1) }) o in
    let half = half_window o.socket.cwnd in
    if is_recovering o.socket.congestion
    then update (λ s. record s { cwnd = u32 (s.cwnd + net_tcp_mss) }) counted
    else (if leb 3 counted.socket.dup_ack_count
        then resend_first env o.socket.unacked (
            update
              (λ s. record s {
                ssthresh = half;
                cwnd = u32 (half + 3 * net_tcp_mss);
                congestion = Congestion.fast_recovery;
              })
              counted)
        else counted)

-- s->unacked_list && ack > s->unacked_list->seq
abbrev pub behind_first : ℕ → List Segment → Bool
behind_first ack [] = false
behind_first ack (seg ∷ segs) = ltb seg.seq ack

unfoldable pub process_ack : Env → ℕ → Sent → Sent
process_ack env ack o =
    if ltb o.socket.last_ack_sent ack || behind_first ack o.socket.unacked
    then update (new_ack env ack) o
    else (if ack == o.socket.last_ack_sent then duplicate_ack env o else o)
