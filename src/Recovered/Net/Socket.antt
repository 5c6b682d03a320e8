-- ===== src/Recovered/Net/Socket.antt =====
-- recovered/net/include/net.h, recovered/net/src/socket.c: the socket table, its searches, the ring of
-- received bytes and the ports. A pointer to a socket is its index in the table.
pub mod Ports
use spirit_fox_os.Recovered.Net.Rings.{
  net_buf_size, u32, sub32, Ring, no_ring, new_ring, write_bytes, net_rx_buffer_write, read_bytes,
  net_rx_buffer_read,
}
use spirit_fox_os.Prelude.{
  ℕ, zero, suc, ◌+◌, ◌-◌, ◌*◌, ◌/◌, ◌%◌, ◌^◌, Bool, true, false, ltb, leb, ◌==◌, not, ◌&&◌, ◌||◌,
  if◌then◌else◌, List, [], ◌∷◌, length, get_or, set, modify, keep_if, find_index?, any, Option,
  none, some, take, replicate,
}

pub data TcpState : Type 0 where
  closed listen syn_sent syn_received established fin_wait_1 : TcpState
  fin_wait_2 closing time_wait close_wait last_ack : TcpState

-- `congestion_state`
pub data Congestion : Type 0 where
  slow_start congestion_avoid fast_recovery : Congestion

abbrev pub af_inet : ℕ
af_inet = 2

abbrev pub sock_stream : ℕ
sock_stream = 1

abbrev pub sock_dgram : ℕ
sock_dgram = 2

abbrev pub net_max_sockets : ℕ
net_max_sockets = 256

abbrev pub net_tcp_window : ℕ
net_tcp_window = 65535

abbrev pub net_tcp_mss : ℕ
net_tcp_mss = 1460

abbrev pub net_tcp_backlog : ℕ
net_tcp_backlog = 16

-- An entry of the list of segments that have not been acknowledged; the list is the order of `next`.
pub record Segment : Type 0 where
  pub seq : ℕ
  pub bytes : List ℕ
  pub send_time : ℕ
  pub retries : ℕ

pub record Socket : Type 0 where
  pub fd : ℕ
  pub domain : ℕ
  pub kind : ℕ
  pub state : TcpState
  pub local_ip : ℕ
  pub local_port : ℕ
  pub remote_ip : ℕ
  pub remote_port : ℕ
  pub seq_num : ℕ
  pub ack_num : ℕ
  pub remote_seq : ℕ
  pub cwnd : ℕ
  pub ssthresh : ℕ
  pub rto : ℕ
  pub srtt : ℕ
  pub rttvar : ℕ
  pub retransmit_timer : ℕ
  pub dup_ack_count : ℕ
  pub bytes_in_flight : ℕ
  pub last_ack_sent : ℕ
  pub congestion : Congestion
  pub time_wait_expire : ℕ
  pub retransmit_count : ℕ
  pub unacked : List Segment
  pub rx : Ring
  pub tx : Ring
  pub listen_parent : Option ℕ
  pub pending_conns : List ℕ

-- memset(s, 0, sizeof(net_socket_t))
abbrev pub no_socket : Socket
no_socket = record {
  fd = 0;
  domain = 0;
  kind = 0;
  state = TcpState.closed;
  local_ip = 0;
  local_port = 0;
  remote_ip = 0;
  remote_port = 0;
  seq_num = 0;
  ack_num = 0;
  remote_seq = 0;
  cwnd = 0;
  ssthresh = 0;
  rto = 0;
  srtt = 0;
  rttvar = 0;
  retransmit_timer = 0;
  dup_ack_count = 0;
  bytes_in_flight = 0;
  last_ack_sent = 0;
  congestion = Congestion.slow_start;
  time_wait_expire = 0;
  retransmit_count = 0;
  unacked = [];
  rx = no_ring;
  tx = no_ring;
  listen_parent = none;
  pending_conns = [];
}

-- `sockets`, `socket_used` (1 for a used slot), `next_ephemeral_port` and `tcp_initial_seq`
pub record Sockets : Type 0 where
  pub sockets : List Socket
  pub used : List ℕ
  pub next_port : ℕ
  pub initial_seq : ℕ

abbrev pub socket_at : Sockets → ℕ → Socket
socket_at n i = get_or n.sockets i no_socket

abbrev pub is_used : Sockets → ℕ → Bool
is_used n i = not (get_or n.used i 0 == 0)

abbrev pub modify_socket : ℕ → (Socket → Socket) → Sockets → Sockets
modify_socket i f n = record n { sockets = modify i f n.sockets }

abbrev pub is_listen : TcpState → Bool
is_listen TcpState.listen = true
is_listen _ = false

-- The search loops: `rounds` slots are left, from `i` on.
unfoldable pub find_socket : (Socket → Bool) → Sockets → ℕ → ℕ → Option ℕ
find_socket p n zero i = none
find_socket p n (suc rounds) i =
    let rest = find_socket p n rounds (i + 1) in
    if is_used n i && p (socket_at n i) then some i else rest

abbrev pub local_matches : ℕ → ℕ → Socket → Bool
local_matches port ip s = s.local_port == port && (s.local_ip == 0 || (s.local_ip == ip))

unfoldable pub net_find_socket_by_port : Sockets → ℕ → ℕ → Option ℕ
net_find_socket_by_port n port ip = find_socket (local_matches port ip) n net_max_sockets 0

unfoldable pub net_find_listening_socket : Sockets → ℕ → Option ℕ
net_find_listening_socket n port =
    find_socket (λ s. s.kind == sock_stream && (is_listen s.state && (s.local_port == port))) n
      net_max_sockets 0

unfoldable pub net_find_tcp_socket : Sockets → ℕ → ℕ → ℕ → ℕ → Option ℕ
net_find_tcp_socket n local_ip local_port remote_ip remote_port =
    find_socket
      (λ s.
        s.kind == sock_stream
        && (local_matches local_port local_ip s
            && (s.remote_port == remote_port && (s.remote_ip == remote_ip))))
      n net_max_sockets 0

unfoldable pub net_find_udp_socket : Sockets → ℕ → ℕ → Option ℕ
net_find_udp_socket n port ip =
    find_socket (λ s. s.kind == sock_dgram && local_matches port ip s) n net_max_sockets 0

-- net_get_socket: the descriptor table first, then the slots.
unfoldable pub net_get_socket : (ℕ → Option ℕ) → Sockets → ℕ → Option ℕ
net_get_socket vfs_get_socket n fd = elim (vfs_get_socket fd) [
  | some i ↦ some i
  | none ↦ if leb net_max_sockets fd then none else (if is_used n fd then some fd else none)
]

unfoldable pub net_alloc_socket_slot : Sockets → Option (ℕ × Sockets)
net_alloc_socket_slot n = elim (find_index? (λ u. u == 0) n.used) [
  | none ↦ none
  | some i ↦ some (i, record n { used = set n.used i 1 })
]

-- The child leaves the list of its parent; only its first entry there is removed.
unfoldable pub remove_first : ℕ → List ℕ → List ℕ
remove_first i [] = []
remove_first i (x ∷ xs) = let rest = remove_first i xs in if x == i then xs else x ∷ rest

unfoldable pub net_free_socket_slot : Sockets → ℕ → Sockets
net_free_socket_slot n i =
    let n' : Sockets = elim (socket_at n i).listen_parent [
      | none ↦ n
      | some parent ↦
          modify_socket parent (λ s. record s { pending_conns = remove_first i s.pending_conns }) n
    ] in
    if leb net_max_sockets i
    then n
    else record n' { sockets = set n'.sockets i no_socket; used = set n'.used i 0 }

abbrev pub port_in_use : Sockets → ℕ → Option ℕ
port_in_use n port = find_socket (λ s. s.local_port == port) n net_max_sockets 0

-- port_t has 16 bits, so the counter is never above 65535 and the test after it never holds.
abbrev pub following_port : ℕ → ℕ
following_port port = let next = (port + 1) % 2 ^ 16 in if ltb 65535 next then 49152 else next

-- The loop of net_alloc_port: `attempts` are left.
unfoldable pub try_ports : ℕ → Sockets → ℕ × Sockets
try_ports zero n = (0, n)
try_ports (suc attempts) n =
    let candidate = n.next_port in
    let n' = record n { next_port = following_port candidate } in
    let rest = try_ports attempts n' in
    elim (port_in_use n candidate) [ none ↦ (candidate, n') | some i ↦ rest ]

unfoldable pub net_alloc_port : Sockets → ℕ × Sockets
net_alloc_port n = try_ports 16384 n
