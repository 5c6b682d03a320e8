-- ===== src/Recovered/Net/Tcp/Deliver.antt =====
-- recovered/net/src/tcp.c: net_tcp_rx, from the bytes to the socket that they are for.
use spirit_fox_os.Recovered.Net.Tcp.Receive.{Input, read_segment, send_flags, rx_matched}
use spirit_fox_os.Prelude.{
  ℕ, ◌+◌, ltb, leb, ◌&&◌, if◌then◌else◌, List, [], ◌∷◌, ◌++◌, length, Option, none, some,
}
use spirit_fox_os.Recovered.Net.Socket.{
  TcpState, Congestion, Socket, Sockets, no_socket, socket_at, modify_socket, net_tcp_mss,
  net_tcp_window, net_tcp_backlog, sock_stream, net_find_tcp_socket, net_find_listening_socket,
  net_alloc_socket_slot, net_free_socket_slot, net_get_socket, af_inet,
}
use spirit_fox_os.Recovered.Net.Rings.{u32, new_ring}
use spirit_fox_os.Recovered.Net.Tcp.{Env, rto_init}
use spirit_fox_os.Recovered.Net.Segments.{
  Packet, has, flag_syn, flag_rst, flag_ack, read16, tcp_header_size,
}

-- The answer to a segment for no socket.
unfoldable pub send_reset : ℕ → ℕ → List ℕ → Input → Env → List Packet
send_reset src_ip dst_ip tcp_data p env =
    (send_flags env (flag_rst + flag_ack) (record {
      socket = record no_socket {
        local_ip = dst_ip;
        local_port = read16 tcp_data 2;
        remote_ip = src_ip;
        remote_port = read16 tcp_data 0;
        ack_num = p.ack;
      };
      packets = [];
    })).packets

-- The socket of a connection that a listening one is asked for. kmalloc does not clear the rings; their
-- bytes are written before they are read.
unfoldable pub new_child : Env → ℕ → ℕ → List ℕ → Input → ℕ → ℕ → ℕ → Socket → Socket
new_child env src_ip dst_ip tcp_data p initial_seq parent fd slot = record slot {
  fd = fd;
  domain = af_inet;
  kind = sock_stream;
  state = TcpState.syn_received;
  local_ip = dst_ip;
  local_port = read16 tcp_data 2;
  remote_ip = src_ip;
  remote_port = read16 tcp_data 0;
  seq_num = u32 (initial_seq + env.random);
  ack_num = u32 (p.seq + 1);
  remote_seq = u32 (p.seq + 1);
  cwnd = net_tcp_mss;
  ssthresh = net_tcp_window;
  rto = rto_init;
  srtt = 0;
  rttvar = 0;
  retransmit_timer = 0;
  dup_ack_count = 0;
  bytes_in_flight = 0;
  last_ack_sent = u32 (p.seq + 1);
  congestion = Congestion.slow_start;
  time_wait_expire = 0;
  retransmit_count = 0;
  unacked = [];
  rx = new_ring;
  tx = new_ring;
  listen_parent = some parent;
}

-- A SYN for the listening socket in the slot `parent`.
unfoldable pub accept_syn :
    (ℕ → Option ℕ) → Env → ℕ → ℕ → List ℕ → Input → ℕ → Sockets → Sockets × List Packet
accept_syn vfs_get_socket env src_ip dst_ip tcp_data p parent n =
    if leb net_tcp_backlog (length (socket_at n parent).pending_conns)
    then (n, [])
    else elim (net_alloc_socket_slot n) [
      | none ↦ (n, [])
      | some (fd, n1) ↦ elim (net_get_socket vfs_get_socket n1 fd) [
        | none ↦ (n1, [])
        | some i ↦
            let child =
              new_child env src_ip dst_ip tcp_data p n.initial_seq parent fd (socket_at n1 i) in
            let n2 = modify_socket i (λ s. child) n1 in
            if env.kmalloc 0 && env.kmalloc 1
            then (let n3 =
                  modify_socket parent (λ s. record s { pending_conns = s.pending_conns ++ i ∷ [] })
                    n2 in
                let o =
                  send_flags env (flag_syn + flag_ack)
                    (record { socket = socket_at n3 i; packets = [] }) in
                (modify_socket i (λ s. o.socket) n3, o.packets))
            else (net_free_socket_slot n2 fd, [])
      ]
    ]

unfoldable pub net_tcp_rx : (ℕ → Option ℕ) → Env → ℕ → ℕ → List ℕ → Sockets → Sockets × List Packet
net_tcp_rx vfs_get_socket env src_ip dst_ip tcp_data n =
    let p = read_segment env tcp_data in
    let src_port = read16 tcp_data 0 in
    let dst_port = read16 tcp_data 2 in
    if ltb (length tcp_data) tcp_header_size
    then (n, [])
    else elim (net_find_tcp_socket n dst_ip dst_port src_ip src_port) [
      | some i ↦
          let o =
            rx_matched env p (socket_at n i).state
              (record { socket = socket_at n i; packets = [] }) in
          (modify_socket i (λ s. o.socket) n, o.packets)
      | none ↦ elim (net_find_listening_socket n dst_port) [
        | none ↦ (n, send_reset src_ip dst_ip tcp_data p env)
        | some parent ↦
            if has p.flags flag_syn
            then accept_syn vfs_get_socket env src_ip dst_ip tcp_data p parent n
            else (n, [])
      ]
    ]
