-- ===== src/Recovered/Net/Calls/Open.antt =====
-- net_socket of recovered/net/src/socket.c.
use spirit_fox_os.Prelude.{
  ℕ, ◌+◌, Bool, ◌==◌, not, ◌&&◌, ◌||◌, if◌then◌else◌, [], Option, none, some,
}
use spirit_fox_os.Recovered.Net.Socket.{
  TcpState, Congestion, Socket, Sockets, modify_socket, net_tcp_mss, net_tcp_window, sock_stream,
  sock_dgram, af_inet, net_alloc_socket_slot, net_free_socket_slot,
}
use spirit_fox_os.Recovered.Net.Rings.{u32, new_ring}
use spirit_fox_os.Recovered.Net.Tcp.{Env}

abbrev pub ip_proto_tcp : ℕ
ip_proto_tcp = 6

abbrev pub ip_proto_udp : ℕ
ip_proto_udp = 17

-- The socket that net_socket puts into the slot `i`. The fields that it leaves as they are come from `slot`.
unfoldable pub new_socket : Env → ℕ → ℕ → ℕ → ℕ → Socket → Socket
new_socket env initial_seq i domain kind slot = record slot {
  fd = i;
  domain = domain;
  kind = kind;
  state = TcpState.closed;
  local_ip = 0;
  local_port = 0;
  remote_ip = 0;
  remote_port = 0;
  seq_num = u32 (initial_seq + env.random);
  ack_num = 0;
  remote_seq = 0;
  cwnd = net_tcp_mss;
  ssthresh = net_tcp_window;
  rto = 1000;
  srtt = 0;
  rttvar = 0;
  retransmit_timer = 0;
  dup_ack_count = 0;
  bytes_in_flight = 0;
  last_ack_sent = 0;
  congestion = Congestion.slow_start;
  time_wait_expire = 0;
  retransmit_count = 0;
  unacked = [];
  rx = new_ring;
  tx = new_ring;
  listen_parent = none;
  pending_conns = [];
}

-- A slot, filled and registered as a descriptor; without memory or without a descriptor it is given back.
-- `vfs_register_socket` is what that call returns for the slot: the descriptor, or none for an error.
unfoldable pub open_slot : (ℕ → Option ℕ) → Env → ℕ → ℕ → Sockets → Sockets × Option ℕ
open_slot vfs_register_socket env domain kind n = elim (net_alloc_socket_slot n) [
  | none ↦ (n, none)
  | some (i, n1) ↦
      let n2 = modify_socket i (new_socket env n.initial_seq i domain kind) n1 in
      let opened : Sockets × Option ℕ = elim (vfs_register_socket i) [
        | none ↦ (net_free_socket_slot n2 i, none)
        | some fd ↦ (n2, some fd)
      ] in
      if env.kmalloc 0 && env.kmalloc 1 then opened else (net_free_socket_slot n2 i, none)
]

-- What net_socket rejects.
unfoldable pub is_supported : ℕ → ℕ → ℕ → Bool
is_supported domain kind protocol =
    domain == af_inet
    && ((kind == sock_stream || (kind == sock_dgram))
        && ((protocol == 0 || (protocol == ip_proto_tcp || (protocol == ip_proto_udp)))
            && (not (kind == sock_stream && (not (protocol == 0) && not (protocol == ip_proto_tcp)))
                && not (
                    kind == sock_dgram
                    && (not (protocol == 0) && not (protocol == ip_proto_udp))))))

-- What net_socket returns: the descriptor, or none for a negative result. A socket of AF_UNIX is made by the
-- code of that family.
unfoldable pub net_socket : (ℕ → Option ℕ) → Env → ℕ → ℕ → ℕ → Sockets → Sockets × Option ℕ
net_socket vfs_register_socket env domain kind protocol n =
    if is_supported domain kind protocol
    then open_slot vfs_register_socket env domain kind n
    else (n, none)
