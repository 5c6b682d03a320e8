-- ===== src/Recovered/Net/Calls.antt =====
-- recovered/net/src/socket.c: the calls on a socket, which net_get_socket has found. A call on a socket of
-- the family AF_UNIX goes to the code of that family, which is not modelled.
pub mod Open
use spirit_fox_os.Prelude.{
  ℕ, zero, suc, ◌+◌, ◌-◌, ◌*◌, ◌/◌, ◌%◌, ◌^◌, Bool, true, false, ltb, leb, ◌==◌, not, ◌&&◌, ◌||◌,
  if◌then◌else◌, List, [], ◌∷◌, ◌++◌, length, set, take, drop, Option, none, some, find_index?,
}
use spirit_fox_os.Recovered.Net.Socket.{
  TcpState, Congestion, Socket, Segment, Sockets, socket_at, modify_socket, net_tcp_mss,
  net_tcp_window, sock_stream, is_listen, net_alloc_port, net_find_socket_by_port, remove_first,
  af_inet, net_free_socket_slot,
}
use spirit_fox_os.Recovered.Net.Rings.{Ring, u32, sub32, net_rx_buffer_read, write_bytes}
use spirit_fox_os.Recovered.Net.Tcp.{Env, Sent, update, net_tcp_send_packet}
use spirit_fox_os.Recovered.Net.Segments.{
  Packet, flag_fin, flag_syn, flag_psh, flag_ack, inaddr_loopback,
}
use spirit_fox_os.Recovered.Net.Tcp.Receive.{move_to, send_flags, rx_established}

-- A negative result.
pub data Errno : Type 0 where
  eagain einval eafnosupport eopnotsupp enotconn eaddrinuse : Errno

-- What a call returns: a number, an error, or what the code of AF_UNIX returns.
pub data Result : Type 0 where
  done : ℕ → Result
  error : Errno → Result
  to_unix : Result

pub record Address : Type 0 where
  pub family : ℕ
  pub ip : ℕ
  pub port : ℕ

abbrev pub af_unix : ℕ
af_unix = 1

abbrev pub is_unix : Socket → Bool
is_unix s = s.domain == af_unix

abbrev pub is_stream : Socket → Bool
is_stream s = s.kind == sock_stream

abbrev pub is_established : TcpState → Bool
is_established TcpState.established = true
is_established _ = false

abbrev pub is_close_wait : TcpState → Bool
is_close_wait TcpState.close_wait = true
is_close_wait _ = false

-- The address is none for a null pointer. `i` is the slot of the socket and `fd` the descriptor.
unfoldable pub net_bind : ℕ → ℕ → Option Address → Sockets → Sockets × Result
net_bind i fd none n = (n, Result.error Errno.einval)
net_bind i fd (some addr) n =
    let taken : Bool = elim (net_find_socket_by_port n addr.port addr.ip) [
      | none ↦ false
      | some j ↦ not ((socket_at n j).fd == fd)
    ] in
    let chosen = if addr.port == 0 then net_alloc_port n else (addr.port, n) in
    if is_unix (socket_at n i)
    then (n, Result.to_unix)
    else (if not (addr.family == af_inet)
        then (n, Result.error Errno.eafnosupport)
        else (if not (addr.port == 0) && taken then (n, Result.error Errno.eaddrinuse) else (
          modify_socket i (λ s. record s { local_ip = addr.ip; local_port = chosen.0 }) chosen.1,
          Result.done 0,
        )))

unfoldable pub net_listen : ℕ → Sockets → Sockets × Result
net_listen i n =
    let s = socket_at n i in
    if is_unix s
    then (n, Result.to_unix)
    else (if not (is_stream s)
        then (n, Result.error Errno.eopnotsupp)
        else (if s.local_port == 0 then (n, Result.error Errno.einval) else (
          modify_socket i (λ s. record s { state = TcpState.listen; pending_conns = [] }) n,
          Result.done 0,
        )))

-- The first established connection that waits.
unfoldable pub first_ready : Sockets → List ℕ → Option ℕ
first_ready n [] = none
first_ready n (j ∷ js) =
    let rest = first_ready n js in if is_established (socket_at n j).state then some j else rest

-- It leaves the list; two entries for one slot are equal, so the first of them is the one that is found.
unfoldable pub net_accept : ℕ → Sockets → Sockets × Result
net_accept i n =
    let s = socket_at n i in
    if is_unix s
    then (n, Result.to_unix)
    else (if not (is_stream s)
        then (n, Result.error Errno.eopnotsupp)
        else (if not (is_listen s.state)
            then (n, Result.error Errno.einval)
            else elim (first_ready n s.pending_conns) [
              | none ↦ (n, Result.error Errno.eagain)
              | some j ↦ (
                modify_socket j (λ s. record s { listen_parent = none })
                    (modify_socket i
                      (λ s. record s { pending_conns = remove_first j s.pending_conns }) n),
                Result.done (socket_at n j).fd,
              )
            ]))

-- What net_connect makes of the socket before it sends.
unfoldable pub connecting : Env → ℕ → Address → Socket → Socket
connecting env initial_seq addr s = record s {
  remote_ip = addr.ip;
  remote_port = addr.port;
  seq_num = u32 (initial_seq + env.random);
  ack_num = 0;
  cwnd = net_tcp_mss;
  ssthresh = net_tcp_window;
  rto = 1000;
  srtt = 0;
  rttvar = 0;
  retransmit_timer = 0;
  dup_ack_count = 0;
  bytes_in_flight = 0;
  last_ack_sent = 0;
  congestion = Congestion.slow_start;
  unacked = [];
  state = TcpState.syn_sent;
}

abbrev pub local_port_chosen : ℕ → Sockets → Sockets
local_port_chosen i n =
    let (port, n') = net_alloc_port n in
    if (socket_at n i).local_port == 0
    then modify_socket i (λ s. record s { local_port = port; local_ip = inaddr_loopback }) n'
    else n

unfoldable pub connect_to : Env → ℕ → Address → Sockets → Sockets × List Packet
connect_to env i addr n =
    let n1 = local_port_chosen i n in
    let o =
      send_flags env flag_syn
        (record { socket = connecting env n.initial_seq addr (socket_at n1 i); packets = [] }) in
    (modify_socket i (λ s. o.socket) n1, o.packets)

unfoldable pub net_connect : Env → ℕ → Option Address → Sockets → (Sockets × Result) × List Packet
net_connect env i none n =
    let s = socket_at n i in
    if is_unix s
    then ((n, Result.to_unix), [])
    else (if not (is_stream s)
        then ((n, Result.error Errno.eopnotsupp), [])
        else ((n, Result.error Errno.eafnosupport), []))
net_connect env i (some addr) n =
    let s = socket_at n i in
    let (n', packets) = connect_to env i addr n in
    if is_unix s
    then ((n, Result.to_unix), [])
    else (if not (is_stream s)
        then ((n, Result.error Errno.eopnotsupp), [])
        else (if not (addr.family == af_inet)
            then ((n, Result.error Errno.eafnosupport), [])
            else ((n', Result.done 0), packets)))
