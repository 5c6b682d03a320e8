-- ===== src/Recovered/Net/Tcp/Receive.antt =====
-- recovered/net/src/tcp.c: net_tcp_rx.
use spirit_fox_os.Recovered.Net.Tcp.Acks.{process_ack}
use spirit_fox_os.Prelude.{
  ℕ, zero, suc, ◌+◌, ◌-◌, ◌*◌, ◌/◌, ◌^◌, ltb, ◌==◌, ◌&&◌, if◌then◌else◌, List, [], ◌∷◌, length,
  get_or,
}
use spirit_fox_os.Recovered.Net.Socket.{TcpState, Congestion, net_tcp_mss, net_tcp_window}
use spirit_fox_os.Recovered.Net.Rings.{u32, net_buf_size, net_rx_buffer_write}
use spirit_fox_os.Recovered.Net.Tcp.{
  Env, Sent, update, rto_init, timewait_ms, tcp_unacked_free, net_tcp_send_packet,
}
use spirit_fox_os.Recovered.Net.Segments.{u64, has, flag_fin, flag_syn, flag_rst, flag_ack, read32}

-- The segment as net_tcp_rx reads it. `payload` has at most as many bytes as a ring takes; what its
-- length says beyond the packet stands behind the packet in memory.
pub record Input : Type 0 where
  pub seq : ℕ
  pub ack : ℕ
  pub flags : ℕ
  pub payload_len : ℕ
  pub payload : List ℕ

-- The bytes that stand behind the first `i` bytes of the packet, `n` of them.
unfoldable pub memory_from : Env → List ℕ → ℕ → ℕ → List ℕ
memory_from env tcp_data i zero = []
memory_from env tcp_data i (suc n) =
    (if ltb i (length tcp_data) then get_or tcp_data i 0 else env.behind (i - length tcp_data))
    ∷ memory_from env tcp_data (suc i) n

unfoldable pub read_segment : Env → List ℕ → Input
read_segment env tcp_data =
    let header_len = get_or tcp_data 12 0 / 2 ^ 4 * 4 in
    let payload_len' = u64 (length tcp_data + 2 ^ 64 - header_len) in
    record {
      seq = read32 tcp_data 4;
      ack = read32 tcp_data 8;
      flags = get_or tcp_data 13 0;
      payload_len = payload_len';
      payload =
          memory_from env tcp_data header_len
            (if ltb payload_len' net_buf_size then payload_len' else net_buf_size);
    }

abbrev pub move_to : TcpState → Sent → Sent
move_to st = update (λ s. record s { state = st })

-- Sends without data store no segment, so their allocations are of no matter.
abbrev pub send_flags : Env → ℕ → Sent → Sent
send_flags env flags o = net_tcp_send_packet env 0 flags [] o

abbrev pub expect : ℕ → Sent → Sent
expect n = update (λ s. record s { ack_num = u32 n; remote_seq = u32 n })

abbrev pub enter_time_wait : Env → Sent → Sent
enter_time_wait env =
    update
      (λ s. record s { state = TcpState.time_wait; time_wait_expire = u64 (env.now + timewait_ms) })

unfoldable pub rx_syn_sent : Env → Input → Sent → Sent
rx_syn_sent env p o =
    if has p.flags flag_syn && has p.flags flag_ack
    then update
        (λ s. record s {
          state = TcpState.established;
          cwnd = net_tcp_mss;
          ssthresh = net_tcp_window;
          rto = rto_init;
          srtt = 0;
          rttvar = 0;
          congestion = Congestion.slow_start;
        })
        (send_flags env flag_ack (expect (p.seq + 1) o))
    else (if has p.flags flag_rst then move_to TcpState.closed o else o)

unfoldable pub rx_syn_received : Input → Sent → Sent
rx_syn_received p o =
    if has p.flags flag_ack
    then move_to TcpState.established o
    else (if has p.flags flag_rst then move_to TcpState.closed o else o)

abbrev pub store_payload : Input → Sent → Sent
store_payload p = update (λ s. record s { rx = (net_rx_buffer_write s.rx p.payload).0 })

unfoldable pub process_data : Env → Input → Sent → Sent
process_data env p o =
    if ltb 0 p.payload_len
    then (if p.seq == o.socket.remote_seq
        then send_flags env flag_ack (expect (p.seq + p.payload_len) (store_payload p o))
        else (if ltb o.socket.remote_seq p.seq then send_flags env flag_ack o else o))
    else o

unfoldable pub process_fin : Env → Input → Sent → Sent
process_fin env p o =
    if has p.flags flag_fin
    then move_to TcpState.close_wait (send_flags env flag_ack (expect (p.seq + 1) o))
    else o

unfoldable pub rx_established : Env → Input → Sent → Sent
rx_established env p o =
    if has p.flags flag_rst
    then update (λ s. tcp_unacked_free (record s { state = TcpState.closed })) o
    else (let acked = if has p.flags flag_ack then process_ack env p.ack o else o in
        process_fin env p (process_data env p acked))

abbrev pub acknowledge_fin : Env → Input → Sent → Sent
acknowledge_fin env p o =
    send_flags env flag_ack (update (λ s. record s { ack_num = u32 (p.seq + 1) }) o)

unfoldable pub rx_fin_wait_1 : Env → Input → Sent → Sent
rx_fin_wait_1 env p o =
    if has p.flags flag_ack
    then (if has p.flags flag_fin
        then enter_time_wait env (acknowledge_fin env p o)
        else move_to TcpState.fin_wait_2 o)
    else (if has p.flags flag_fin then move_to TcpState.closing (acknowledge_fin env p o) else o)

unfoldable pub rx_fin_wait_2 : Env → Input → Sent → Sent
rx_fin_wait_2 env p o =
    let o1 = if has p.flags flag_fin then enter_time_wait env (acknowledge_fin env p o) else o in
    if ltb 0 p.payload_len
    then send_flags env flag_ack (expect (p.seq + p.payload_len) (store_payload p o1))
    else o1

unfoldable pub rx_closing : Env → Input → Sent → Sent
rx_closing env p o =
    let o1 = if has p.flags flag_ack then move_to TcpState.time_wait o else o in
    update (λ s. record s { time_wait_expire = u64 (env.now + timewait_ms) }) o1

abbrev pub rx_late_fin : Env → Input → Sent → Sent
rx_late_fin env p o = if has p.flags flag_fin then send_flags env flag_ack o else o

unfoldable pub rx_last_ack : Input → Sent → Sent
rx_last_ack p o =
    if has p.flags flag_ack
    then update (λ s. tcp_unacked_free (record s { state = TcpState.closed })) o
    else o

-- The switch over the state of the socket that the segment is for.
unfoldable pub rx_matched : Env → Input → TcpState → Sent → Sent
rx_matched env p TcpState.syn_sent o = rx_syn_sent env p o
rx_matched env p TcpState.syn_received o = rx_syn_received p o
rx_matched env p TcpState.established o = rx_established env p o
rx_matched env p TcpState.fin_wait_1 o = rx_fin_wait_1 env p o
rx_matched env p TcpState.fin_wait_2 o = rx_fin_wait_2 env p o
rx_matched env p TcpState.closing o = rx_closing env p o
rx_matched env p TcpState.close_wait o = rx_late_fin env p o
rx_matched env p TcpState.last_ack o = rx_last_ack p o
rx_matched env p TcpState.time_wait o = rx_late_fin env p o
rx_matched env p TcpState.closed o = o
rx_matched env p TcpState.listen o = o
