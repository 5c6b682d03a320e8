-- ===== src/Recovered/Net/Tests.antt =====
-- Runs of the network's definitions, and the theorems on them at concrete sockets.
use spirit_fox_os.Recovered.Net.Udp.{meta_bytes, net_recvfrom}
use spirit_fox_os.Recovered.Net.Udp.Datagrams.{IsTaken, net_recvfrom-IsTaken}
use spirit_fox_os.Prelude.{
  ℕ, zero, suc, ◌+◌, ◌%◌, ◌^◌, ◌<◌, ◌≡◌, refl, true, List, [], ◌∷◌, ◌++◌, get_or, replicate, arith,
  some, none,
}
use spirit_fox_os.Recovered.Net.Socket.{
  TcpState, Socket, Sockets, no_socket, sock_stream, af_inet, socket_at, is_used, net_alloc_port,
}
use spirit_fox_os.Recovered.Net.Rings.{Ring, new_ring, net_rx_buffer_write}
use spirit_fox_os.Recovered.Net.Rings.Buffer.{RingOk, waiting, bytes_from}
use spirit_fox_os.Recovered.Net.Socket.Ports.{IsFree, net_alloc_port-IsFree}
use spirit_fox_os.Recovered.Net.Rings.Queue.{IsWrite, net_rx_buffer_write-IsWrite}
use spirit_fox_os.Recovered.Net.Tcp.{Env, Sent}
use spirit_fox_os.Recovered.Net.Segments.{
  flag_psh, tcp_sum, compute_tcp_checksum, tcp_packet, flag_ack,
}
use spirit_fox_os.Recovered.Net.Tcp.Receive.{Input, rx_established, read_segment}
use spirit_fox_os.Recovered.Net.Tcp.Sound.{IsSound}
use spirit_fox_os.Recovered.Net.Tcp.Timeouts.{IsDue, AllDue, ticks, Waits, IsOver, ticks-IsOver}
use spirit_fox_os.Recovered.Net.Tcp.Tick.{
  tick_socket, on_timeout, after_timeout, retransmit, expire_time_wait,
}
use spirit_fox_os.Recovered.Net.Tcp.Established.{IsData, IsStored, rx_established-IsStored}
use spirit_fox_os.Recovered.Net.Tcp.Checksum.{compute_tcp_checksum-Valid}
use spirit_fox_os.Recovered.Net.Tcp.Bytes.{Fits, read_segment-tcp_packet, IsReadBack}
use spirit_fox_os.Recovered.Net.Calls.{Result}
use spirit_fox_os.Recovered.Net.Stream.{net_send}
use spirit_fox_os.Recovered.Net.Stream.Sending.{IsReady, IsSend, net_send-IsSend}
use spirit_fox_os.Recovered.Net.Invariant.{TableOk}
use spirit_fox_os.Recovered.Net.Runs.{Event, AllMeet, run, run-TableOk}

abbrev env : Env
env = record { now = 1000; random = 7; kmalloc = λ i. true; behind = λ i. 0 }

new_ring-Ok : RingOk new_ring
new_ring-Ok = record {
  full_size = refl;
  array = refl;
  inside = omega arith;
  behind = refl;
  bounded = omega arith;
}

-- A ring in which the bytes 5 and 6 wait across the end of the array.
abbrev ring : Ring
ring = record {
  buffer = 6 ∷ replicate 4094 0 ++ 5 ∷ [];
  read_pos = 4095;
  write_pos = 1;
  count = 2;
  size = 4096;
}

ring-Ok : RingOk ring
ring-Ok = record {
  full_size = refl;
  array = refl;
  inside = omega arith;
  behind = refl;
  bounded = omega arith;
}

net_rx_buffer_write-IsWrite_example :
    IsWrite ring (7 ∷ 8 ∷ []) (net_rx_buffer_write ring (7 ∷ 8 ∷ []))
net_rx_buffer_write-IsWrite_example = net_rx_buffer_write-IsWrite ring (7 ∷ 8 ∷ []) ring-Ok

abbrev server : Socket
server = record no_socket {
  kind = sock_stream;
  domain = af_inet;
  state = TcpState.listen;
  local_port = 80;
  rto = 1000;
  rx = new_ring;
}

-- One listening socket.
abbrev table : Sockets
table = record {
  sockets = server ∷ replicate 255 no_socket;
  used = 1 ∷ replicate 255 0;
  next_port = 65535;
  initial_seq = 5000;
}

get_or-zeros : (n i : ℕ) → ◌≡◌ {A = ℕ} (get_or (replicate n 0) i 0) 0
get_or-zeros zero i = refl
get_or-zeros (suc n) zero = refl
get_or-zeros (suc n) (suc i) = get_or-zeros n i

table-each :
    (i : ℕ) → is_used table i ≡ true → IsSound (socket_at table i).state (socket_at table i)
table-each zero u = (refl, omega arith, omega arith, new_ring-Ok)
table-each (suc i) u = absurd (cc (rw (get_or-zeros 255 i) at u))

table-Ok : TableOk table
table-Ok = record { sockets_len = refl; used_len = refl; each = table-each }

net_alloc_port-IsFree_example : IsFree table (net_alloc_port table)
net_alloc_port-IsFree_example = net_alloc_port-IsFree table

-- A SYN for port 80.
abbrev syn_bytes : List ℕ
syn_bytes = 4 ∷ 210 ∷ 0 ∷ 80 ∷ 0 ∷ 0 ∷ 0 ∷ 9 ∷ 0 ∷ 0 ∷ 0 ∷ 0 ∷ 80 ∷ 2 ∷ 16 ∷ 0 ∷ 0 ∷ 0 ∷ 0 ∷ 0 ∷ []

-- A connection is asked for, the timers run, it is taken, it is shut down, the listening socket is bound to
-- another port and closed, and a datagram is asked for.
abbrev events : List Event
events =
    Event.segment (λ fd. none) env 167772161 167772162 syn_bytes
    ∷ Event.tick (λ fd. none) env
    ∷ Event.accepts 0
    ∷ Event.shuts env 1 2
    ∷ Event.binds 0 0 none
    ∷ Event.closes env 0 (some 0)
    ∷ Event.receives_from 2 100
    ∷ []

events-Meet : AllMeet events table
events-Meet = ((λ i n1 e. refl), (tt, (tt, (tt, (tt, (tt, (tt, tt)))))))

run-TableOk_example : TableOk (run events table)
run-TableOk_example = run-TableOk events table events-Meet table-Ok

-- An established connection with a byte that waits for its acknowledgment.
abbrev client : Socket
client = record server {
  state = TcpState.established;
  local_port = 5000;
  remote_port = 80;
  seq_num = 11;
  ack_num = 31;
  remote_seq = 31;
  cwnd = 1460;
  retransmit_timer = 900;
  retransmit_count = 4;
  unacked = record { seq = 10; bytes = 65 ∷ []; send_time = 0; retries = 0 } ∷ [];
}

abbrev connection : Sent
connection = record { socket = client; packets = [] }

abbrev data_segment : Input
data_segment = record {
  seq = 31;
  ack = 12;
  flags = flag_psh + flag_ack;
  payload_len = 2;
  payload = 72 ∷ 73 ∷ [];
}

data_segment-IsData : IsData data_segment connection
data_segment-IsData = record {
  no_rst = refl;
  no_fin = refl;
  some_data = omega arith;
  in_order = refl;
}

rx_established-IsStored_example :
    IsStored data_segment connection (rx_established env data_segment connection)
rx_established-IsStored_example =
    rx_established-IsStored env data_segment connection new_ring-Ok data_segment-IsData

connection-Waits : Waits 4 connection
connection-Waits = record {
  first = record { seq = 10; bytes = 65 ∷ []; send_time = 0; retries = 0 };
  others = [];
  unacked_lem = refl;
  count_lem = refl;
  running = refl;
}

abbrev late_env : Env
late_env = record env { now = 3000 }

late-AllDue : AllDue (env ∷ late_env ∷ []) connection
unfolding AllDue IsDue tick_socket on_timeout after_timeout retransmit expire_time_wait
late-AllDue = ((omega arith, omega arith), ((omega arith, omega arith), tt))

ticks-IsOver_example : IsOver (ticks (env ∷ late_env ∷ []) connection)
ticks-IsOver_example =
    ticks-IsOver (env ∷ late_env ∷ []) connection 4 connection-Waits late-AllDue refl (omega arith)

compute_tcp_checksum-Valid_example :
    (c : ℕ) × (compute_tcp_checksum 167772161 167772162 syn_bytes ≡ some c)
    × (c < 2 ^ 16)
    × ((tcp_sum 167772161 167772162 syn_bytes + c) % 65535 ≡ 0)
compute_tcp_checksum-Valid_example = compute_tcp_checksum-Valid 167772161 167772162 syn_bytes

client-Fits : Fits client
client-Fits = record { local_lem = omega arith; remote_lem = omega arith; ack_lem = omega arith }

client-IsReady : IsReady (1 ∷ 2 ∷ []) client
client-IsReady = record {
  inet = refl;
  stream = refl;
  running = refl;
  some_bytes = omega arith;
  seq_small = omega arith;
}

net_send-IsSend_example :
    (o' : Sent) × (count : ℕ) × (net_send env (1 ∷ 2 ∷ []) client ≡ some (o', Result.done count))
    × IsSend (1 ∷ 2 ∷ []) client o' count
net_send-IsSend_example = net_send-IsSend env (1 ∷ 2 ∷ []) client client-IsReady

read_segment-tcp_packet_example :
    IsReadBack client 11 24
      (1 ∷ 2 ∷ [])
      (tcp_packet client 11 24 (1 ∷ 2 ∷ [])).segment
      (read_segment env (tcp_packet client 11 24 (1 ∷ 2 ∷ [])).segment)
read_segment-tcp_packet_example =
    read_segment-tcp_packet env client 11 24 (1 ∷ 2 ∷ []) client-Fits (omega arith) (omega arith)
      (omega arith)

-- A ring with the sender 10.0.0.1:5000, the byte 9, and a second datagram behind it.
abbrev datagrams : Ring
datagrams = record {
  buffer = meta_bytes 167772161 5000 ++ 9 ∷ meta_bytes 167772162 6000 ++ 8 ∷ replicate 4082 0;
  read_pos = 0;
  write_pos = 14;
  count = 14;
  size = 4096;
}

datagrams-Ok : RingOk datagrams
datagrams-Ok = record {
  full_size = refl;
  array = refl;
  inside = omega arith;
  behind = refl;
  bounded = omega arith;
}

datagrams-waiting :
    waiting datagrams ≡ meta_bytes 167772161 5000 ++ (9 ∷ meta_bytes 167772162 6000 ++ 8 ∷ [])
unfolding waiting bytes_from
datagrams-waiting = refl

net_recvfrom-IsTaken_example :
    IsTaken 167772161 5000
      (9 ∷ meta_bytes 167772162 6000 ++ 8 ∷ [])
      100
      (net_recvfrom 100 datagrams)
net_recvfrom-IsTaken_example =
    net_recvfrom-IsTaken datagrams 167772161 5000 (9 ∷ meta_bytes 167772162 6000 ++ 8 ∷ []) 100
      datagrams-Ok datagrams-waiting (omega arith) (omega arith)
