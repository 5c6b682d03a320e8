-- ===== src/Recovered/Net/Tcp/Tick.antt =====
-- recovered/net/src/tcp.c: net_tcp_tick, the timers.
use spirit_fox_os.Prelude.{
  ℕ, zero, suc, ◌+◌, ◌*◌, Bool, true, false, ltb, leb, ◌==◌, ◌&&◌, if◌then◌else◌, List, [], ◌∷◌,
  ◌++◌, length, Option, none, some,
}
use spirit_fox_os.Recovered.Net.Socket.{
  TcpState, Congestion, Socket, Segment, Sockets, socket_at, modify_socket, net_tcp_mss,
  net_max_sockets, sock_stream, net_get_socket,
}
use spirit_fox_os.Recovered.Net.Rings.{u32}
use spirit_fox_os.Recovered.Net.Tcp.{Env, Sent, update, rto_max, max_retries, tcp_unacked_free}
use spirit_fox_os.Recovered.Net.Segments.{Packet, u64, flag_psh, flag_ack, tcp_packet}
use spirit_fox_os.Recovered.Net.Tcp.Acks.{half_window}

-- Max retransmissions reached, closing connection
unfoldable pub give_up : Sent → Sent
give_up = update (λ s. tcp_unacked_free (record s {
  retransmit_count = u32 (s.retransmit_count + 1);
  state = TcpState.closed;
  retransmit_timer = 0;
}))

-- The packet is built by hand here, so that the segment is not stored again; it has the sequence number of
-- the segment, and the socket keeps its own.
unfoldable pub retransmit : Env → Segment → Sent → Sent
retransmit env seg o =
    let s = o.socket in
    let doubled = u32 (s.rto * 2) in
    let rto' = if ltb rto_max doubled then rto_max else doubled in
    let flags = if length seg.bytes == 0 then flag_ack else flag_psh + flag_ack in
    let s1 = record s {
      retransmit_count = u32 (s.retransmit_count + 1);
      rto = rto';
      ssthresh = half_window s.cwnd;
      cwnd = net_tcp_mss;
      congestion = Congestion.slow_start;
    } in
    record {
      socket = record s1 { retransmit_timer = u64 (env.now + rto') };
      packets = o.packets ++ tcp_packet s1 seg.seq flags seg.bytes ∷ [];
    }

-- On a timeout the first segment goes out once more, unless it did so too often: then the connection is
-- closed. The second component tells whether the loop goes on with the socket.
unfoldable pub on_timeout : Env → List Segment → Sent → Sent × Bool
on_timeout env [] o = (update (λ s. record s { retransmit_timer = 0 }) o, true)
on_timeout env (seg ∷ segs) o =
    if ltb max_retries (u32 (o.socket.retransmit_count + 1))
    then (give_up o, false)
    else (retransmit env seg o, true)

abbrev pub is_time_wait : TcpState → Bool
is_time_wait TcpState.time_wait = true
is_time_wait _ = false

unfoldable pub expire_time_wait : Env → Socket → Socket
expire_time_wait env s =
    if is_time_wait s.state && (ltb 0 s.time_wait_expire && leb s.time_wait_expire env.now)
    then tcp_unacked_free (record s { state = TcpState.closed; time_wait_expire = 0 })
    else s

-- The rest of the loop's body, unless it was left.
unfoldable pub after_timeout : Env → Sent × Bool → Sent
after_timeout env (o, true) = update (expire_time_wait env) o
after_timeout env (o, false) = o

-- The body of the loop for a stream socket.
unfoldable pub tick_socket : Env → Sent → Sent
tick_socket env o =
    let s = o.socket in
    if ltb 0 s.retransmit_timer && leb s.retransmit_timer env.now
    then after_timeout env (on_timeout env s.unacked o)
    else update (expire_time_wait env) o

-- The loop: `rounds` are left, from `i` on. A socket of the current process is met as a descriptor too.
unfoldable pub tick_from : (ℕ → Option ℕ) → Env → ℕ → ℕ → Sockets → Sockets × List Packet
tick_from vfs_get_socket env zero i n = (n, [])
tick_from vfs_get_socket env (suc rounds) i n = elim (net_get_socket vfs_get_socket n i) [
  | none ↦ tick_from vfs_get_socket env rounds (i + 1) n
  | some j ↦
      let o = tick_socket env (record { socket = socket_at n j; packets = [] }) in
      let stream = (socket_at n j).kind == sock_stream in
      let n' = if stream then modify_socket j (λ s. o.socket) n else n in
      let (last, packets) = tick_from vfs_get_socket env rounds (i + 1) n' in
      (last, (if stream then o.packets else []) ++ packets)
]

unfoldable pub net_tcp_tick : (ℕ → Option ℕ) → Env → Sockets → Sockets × List Packet
net_tcp_tick vfs_get_socket env n = tick_from vfs_get_socket env net_max_sockets 0 n
