-- ===== src/Recovered/Net/Runs.antt =====
-- What happens to the sockets of recovered/net/src, as events in any order, and what stays true.
use spirit_fox_os.Prelude.{ℕ, Option, some, none, List, [], ◌∷◌, Option-cases, inl, inr}
use spirit_fox_os.Recovered.Net.Socket.{Socket, Sockets, socket_at, modify_socket}
use spirit_fox_os.Recovered.Net.Tcp.{Env}
use spirit_fox_os.Recovered.Net.Tcp.Sound.{IsSound}
use spirit_fox_os.Recovered.Net.Tcp.Deliver.{net_tcp_rx}
use spirit_fox_os.Recovered.Net.Tcp.Tick.{net_tcp_tick}
use spirit_fox_os.Recovered.Net.Udp.{net_udp_rx, net_sendto, net_recvfrom}
use spirit_fox_os.Recovered.Net.Calls.{Address, net_listen, net_accept, net_connect, net_bind}
use spirit_fox_os.Recovered.Net.Calls.Open.{net_socket}
use spirit_fox_os.Recovered.Net.Stream.{net_send, net_recv, net_close, net_shutdown}
use spirit_fox_os.Recovered.Net.Invariant.{TableOk, modify_socket-TableOk}
use spirit_fox_os.Recovered.Net.Preserved.{net_socket-TableOk, net_tcp_tick-TableOk, as_it_is}
use spirit_fox_os.Recovered.Net.Received.{net_tcp_rx-TableOk, SlotIsFree}
use spirit_fox_os.Recovered.Net.Called.{net_listen-TableOk, net_accept-TableOk, net_udp_rx-TableOk}
use spirit_fox_os.Recovered.Net.Connected.{
  net_connect-TableOk, net_bind-TableOk, net_sendto-TableOk,
}
use spirit_fox_os.Recovered.Net.Streamed.{
  IsSentOk, net_send-IsSentOk, net_recv-IsSound, net_close-TableOk, net_shutdown-IsSound,
  net_recvfrom-RingOk,
}

-- A segment or datagram from another machine, the timers, or a call with its socket's slot. The functions
-- are the descriptors of the process that runs.
pub data Event : Type 0 where
  segment : (ℕ → Option ℕ) → Env → ℕ → ℕ → List ℕ → Event
  datagram : Env → ℕ → ℕ → List ℕ → Event
  tick : (ℕ → Option ℕ) → Env → Event
  opens : (ℕ → Option ℕ) → Env → ℕ → ℕ → ℕ → Event
  listens : ℕ → Event
  accepts : ℕ → Event
  connects : Env → ℕ → Address → Event
  sends : Env → ℕ → List ℕ → Event
  receives : ℕ → ℕ → Event
  closes : Env → ℕ → Option ℕ → Event
  binds : ℕ → ℕ → Option Address → Event
  shuts : Env → ℕ → ℕ → Event
  sends_to : ℕ → List ℕ → Option Address → Event
  receives_from : ℕ → ℕ → Event

-- The socket after a call of net_send.
unfoldable pub sent_by : Env → List ℕ → Socket → Socket
sent_by env bytes s = elim (net_send env bytes s) [ none ↦ s | some (o, r) ↦ o.socket ]

unfoldable pub step : Event → Sockets → Sockets
step (Event.segment fds env src_ip dst_ip bytes) n = (net_tcp_rx fds env src_ip dst_ip bytes n).0
step (Event.datagram env src_ip dst_ip bytes) n = net_udp_rx env src_ip dst_ip bytes n
step (Event.tick fds env) n = (net_tcp_tick fds env n).0
step (Event.opens register env domain kind protocol) n =
    (net_socket register env domain kind protocol n).0
step (Event.listens i) n = (net_listen i n).0
step (Event.accepts i) n = (net_accept i n).0
step (Event.connects env i addr) n = (net_connect env i (some addr) n).0.0
step (Event.sends env i bytes) n = modify_socket i (sent_by env bytes) n
step (Event.receives i len) n = modify_socket i (λ s. (net_recv len s).1) n
step (Event.closes env i held) n = (net_close env i held n).0
step (Event.binds i fd addr) n = (net_bind i fd addr n).0
step (Event.shuts env i how) n = modify_socket i (λ s. (net_shutdown env how s).0.socket) n
step (Event.sends_to i bytes addr) n = (net_sendto i bytes addr n).0.0
step (Event.receives_from i len) n =
    modify_socket i (λ s. record s { rx = (net_recvfrom len s.rx).1 }) n

unfoldable pub run : List Event → Sockets → Sockets
run [] n = n
run (e ∷ events) n = run events (step e n)

sent_by-IsSound :
    (env : Env) (bytes : List ℕ) (s : Socket)
    → IsSound s.state s
    → IsSound (sent_by env bytes s).state (sent_by env bytes s)
unfolding sent_by IsSentOk
sent_by-IsSound env bytes s h = elim (Option-cases (net_send env bytes s)) [
  | inl spent ↦ rw (spent, sent_by) h
  | inr (q, e) ↦
      rw (e, sent_by) (as_it_is s.state q.0.socket (rw e at (net_send-IsSentOk env bytes s h)))
]

-- A segment meets a process whose descriptors name no socket under the number of the slot that is free
-- next; nothing is asked of the other events.
abbrev pub Meets : Event → Sockets → Type 0
Meets (Event.segment fds env src_ip dst_ip bytes) n = SlotIsFree fds n
Meets (Event.datagram env src_ip dst_ip bytes) n = Unit
Meets (Event.tick fds env) n = Unit
Meets (Event.opens register env domain kind protocol) n = Unit
Meets (Event.listens i) n = Unit
Meets (Event.accepts i) n = Unit
Meets (Event.connects env i addr) n = Unit
Meets (Event.sends env i bytes) n = Unit
Meets (Event.receives i len) n = Unit
Meets (Event.closes env i held) n = Unit
Meets (Event.binds i fd addr) n = Unit
Meets (Event.shuts env i how) n = Unit
Meets (Event.sends_to i bytes addr) n = Unit
Meets (Event.receives_from i len) n = Unit

abbrev pub AllMeet : List Event → Sockets → Type 0
AllMeet [] n = Unit
AllMeet (e ∷ events) n = Meets e n × AllMeet events (step e n)

step-TableOk : (e : Event) (n : Sockets) → Meets e n → TableOk n → TableOk (step e n)
unfolding step
step-TableOk (Event.segment fds env src_ip dst_ip bytes) n meets ok =
    net_tcp_rx-TableOk fds env src_ip dst_ip bytes n meets ok
step-TableOk (Event.datagram env src_ip dst_ip bytes) n meets ok =
    net_udp_rx-TableOk env src_ip dst_ip bytes n ok
step-TableOk (Event.tick fds env) n meets ok = net_tcp_tick-TableOk fds env n ok
step-TableOk (Event.opens register env domain kind protocol) n meets ok =
    net_socket-TableOk register env domain kind protocol n ok
step-TableOk (Event.listens i) n meets ok = net_listen-TableOk i n ok
step-TableOk (Event.accepts i) n meets ok = net_accept-TableOk i n ok
step-TableOk (Event.connects env i addr) n meets ok = net_connect-TableOk env i addr n ok
step-TableOk (Event.sends env i bytes) n meets ok =
    modify_socket-TableOk i (sent_by env bytes) n ok
      (λ u. sent_by-IsSound env bytes (socket_at n i) (ok.each i u))
step-TableOk (Event.receives i len) n meets ok =
    modify_socket-TableOk i (λ s. (net_recv len s).1) n ok
      (λ u.
        as_it_is (socket_at n i).state (net_recv len (socket_at n i)).1
          (net_recv-IsSound len (socket_at n i) (ok.each i u)))
step-TableOk (Event.closes env i held) n meets ok = net_close-TableOk env i held n ok
step-TableOk (Event.binds i fd addr) n meets ok = net_bind-TableOk i fd addr n ok
step-TableOk (Event.shuts env i how) n meets ok =
    modify_socket-TableOk i (λ s. (net_shutdown env how s).0.socket) n ok
      (λ u. net_shutdown-IsSound env how (socket_at n i) (ok.each i u))
step-TableOk (Event.sends_to i bytes addr) n meets ok = net_sendto-TableOk i bytes addr n ok
step-TableOk (Event.receives_from i len) n meets ok =
    modify_socket-TableOk i (λ s. record s { rx = (net_recvfrom len s.rx).1 }) n ok
      (λ u.
        let (e, low, high, ring) = ok.each i u in
        (e, low, high, net_recvfrom-RingOk len (socket_at n i).rx ring))

-- In a table in which each used socket has its timeout between 200 ms and 60 s and its receive ring in
-- order, this holds after any sequence of segments, datagrams, ticks and the calls socket, bind, listen,
-- accept, connect, send, sendto and recvfrom on a datagram socket, recv, shutdown and close; if each
-- segment meets a process whose descriptors name no socket under the number of the slot that is free next.
pub run-TableOk :
    (events : List Event) (n : Sockets) → AllMeet events n → TableOk n → TableOk (run events n)
unfolding run
run-TableOk [] n meets ok = ok
run-TableOk (e ∷ events) n (meets, rest) ok =
    run-TableOk events (step e n) rest (step-TableOk e n meets ok)
