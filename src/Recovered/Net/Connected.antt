-- ===== src/Recovered/Net/Connected.antt =====
-- net_bind, net_connect and net_sendto of recovered/net/src/socket.c keep the table of sockets in order.
use spirit_fox_os.Prelude.{
  ℕ, zero, suc, refl, ◌==◌, [], List, Option, some, none, not, if◌then◌else◌, Option-cases,
  Bool-cases, inl, inr, if-both, arith,
}
use spirit_fox_os.Recovered.Net.Socket.{
  TcpState, af_inet, Socket, Sockets, socket_at, port_in_use, try_ports, net_alloc_port,
  following_port,
}
use spirit_fox_os.Recovered.Net.Tcp.{Env}
use spirit_fox_os.Recovered.Net.Segments.{flag_syn, inaddr_loopback}
use spirit_fox_os.Recovered.Net.Tcp.Sound.{IsSound}
use spirit_fox_os.Recovered.Net.Calls.{
  Address, connecting, connect_to, local_port_chosen, net_connect, net_bind, Result, is_unix,
  is_stream,
}
use spirit_fox_os.Recovered.Net.Udp.{net_sendto}
use spirit_fox_os.Recovered.Net.Received.{send_flags-kept}
use spirit_fox_os.Recovered.Net.Invariant.{TableOk, modify_socket-TableOk}

try_ports-TableOk : (attempts : ℕ) (n : Sockets) → TableOk n → TableOk (try_ports attempts n).1
unfolding try_ports
try_ports-TableOk zero n ok = ok
try_ports-TableOk (suc attempts) n ok =
    let n' : Sockets = record n { next_port = following_port n.next_port } in
    let ok' : TableOk n' = record {
      sockets_len = ok.sockets_len;
      used_len = ok.used_len;
      each = ok.each;
    } in
    elim (Option-cases (port_in_use n n.next_port)) [
      | inl free ↦ rw (free, try_ports) ok'
      | inr (i, taken) ↦ rw (taken, try_ports) (try_ports-TableOk attempts n' ok')
    ]

pub local_port_chosen-TableOk : (i : ℕ) (n : Sockets) → TableOk n → TableOk (local_port_chosen i n)
unfolding net_alloc_port
local_port_chosen-TableOk i n ok =
    let ported : TableOk (net_alloc_port n).1 = try_ports-TableOk 16384 n ok in
    if-both TableOk ((socket_at n i).local_port == 0) _ _
      (modify_socket-TableOk i
        (λ s. record s { local_port = (net_alloc_port n).0; local_ip = inaddr_loopback }) _ ported
        (ported.each i))
      ok

connecting-IsSound :
    (env : Env) (initial_seq : ℕ) (addr : Address) (s : Socket)
    → IsSound s.state s
    → IsSound TcpState.syn_sent (connecting env initial_seq addr s)
unfolding connecting
connecting-IsSound env initial_seq addr s (e, low, high, ring) =
    (refl, omega arith, omega arith, ring)

connect_to-TableOk :
    (env : Env) (i : ℕ) (addr : Address) (n : Sockets)
    → TableOk n
    → TableOk (connect_to env i addr n).0
unfolding connect_to
connect_to-TableOk env i addr n ok =
    let n1 : Sockets = local_port_chosen i n in
    let chosen : TableOk n1 = local_port_chosen-TableOk i n ok in
    modify_socket-TableOk i _ n1 chosen (λ u.
      send_flags-kept TcpState.syn_sent env flag_syn
        (record { socket = connecting env n.initial_seq addr (socket_at n1 i); packets = [] })
        (connecting-IsSound env n.initial_seq addr (socket_at n1 i) (chosen.each i u)))

-- net_connect, whatever it returns, leaves a table in order in order.
pub net_connect-TableOk :
    (env : Env) (i : ℕ) (addr : Address) (n : Sockets)
    → TableOk n
    → TableOk (net_connect env i (some addr) n).0.0
unfolding net_connect
net_connect-TableOk env i addr n ok = elim (Bool-cases (is_unix (socket_at n i))) [
  | inl unix ↦ rw (unix, net_connect) ok
  | inr inet ↦ elim (Bool-cases (is_stream (socket_at n i))) [
    | inr other ↦ rw (inet, other, net_connect) ok
    | inl stream ↦ elim (Bool-cases (addr.family == af_inet)) [
      | inr family ↦ rw (inet, stream, family, net_connect) ok
      | inl family ↦ rw (inet, stream, family, net_connect) (connect_to-TableOk env i addr n ok)
    ]
  ]
]

-- A call, with what it returns, as a name that stays shut.
IsCallFine : Sockets × Result → Type 0
IsCallFine r = TableOk r.0

call_fine : (r : Sockets × Result) → TableOk r.0 → IsCallFine r
unfolding IsCallFine
call_fine r h = h

of_call_fine : (r : Sockets × Result) → IsCallFine r → TableOk r.0
unfolding IsCallFine
of_call_fine r h = h

ported-TableOk :
    (port : ℕ) (n : Sockets)
    → TableOk n
    → TableOk (if port == 0 then net_alloc_port n else (port, n)).1
unfolding net_alloc_port
ported-TableOk port n ok =
    if-both (λ (r : ℕ × Sockets). TableOk r.1) (port == 0) _ _ (try_ports-TableOk 16384 n ok) ok

-- net_bind, whatever it returns, leaves a table in order in order.
pub net_bind-TableOk :
    (i fd : ℕ) (addr : Option Address) (n : Sockets) → TableOk n → TableOk (net_bind i fd addr n).0
unfolding net_bind
net_bind-TableOk i fd none n ok = ok
net_bind-TableOk i fd (some addr) n ok =
    let chosen : ℕ × Sockets = if addr.port == 0 then net_alloc_port n else (addr.port, n) in
    let ported : TableOk chosen.1 = ported-TableOk addr.port n ok in
    of_call_fine _ (
      if-both IsCallFine (is_unix (socket_at n i)) _ _ (call_fine _ ok) (
        if-both IsCallFine (not (addr.family == af_inet)) _ _ (call_fine _ ok) (
          if-both IsCallFine _ _ _ (call_fine _ ok) (
            call_fine _ (
              modify_socket-TableOk i (λ s. record s { local_ip = addr.ip; local_port = chosen.0 })
                chosen.1 ported (ported.each i))))))

-- net_sendto for a datagram socket.
pub net_sendto-TableOk :
    (i : ℕ) (bytes : List ℕ) (addr : Option Address) (n : Sockets)
    → TableOk n
    → TableOk (net_sendto i bytes addr n).0.0
unfolding net_sendto
net_sendto-TableOk i bytes none n ok = ok
net_sendto-TableOk i bytes (some addr) n ok = elim (Bool-cases (addr.family == af_inet)) [
  | inl family ↦ rw (family, net_sendto) (local_port_chosen-TableOk i n ok)
  | inr other ↦ rw (other, net_sendto) ok
]
