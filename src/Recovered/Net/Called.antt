-- ===== src/Recovered/Net/Called.antt =====
-- The calls of recovered/net/src/socket.c that change one socket keep the table of sockets in order.
use spirit_fox_os.Prelude.{
  ℕ, refl, ltb, ◌==◌, not, List, [], none, Option-cases, Bool-cases, inl, inr, if-both, length,
  length,
}
use spirit_fox_os.Recovered.Net.Socket.{
  TcpState, Socket, Sockets, socket_at, modify_socket, remove_first, net_find_udp_socket, is_listen,
}
use spirit_fox_os.Recovered.Net.Rings.Queue.{net_rx_buffer_write-IsWrite}
use spirit_fox_os.Recovered.Net.Rings.{net_rx_buffer_write}
use spirit_fox_os.Recovered.Net.Tcp.{Env}
use spirit_fox_os.Recovered.Net.Tcp.Sound.{IsSound}
use spirit_fox_os.Recovered.Net.Segments.{read16}
use spirit_fox_os.Recovered.Net.Udp.{
  net_udp_rx, store_datagram, udp_payload, udp_header_size, meta_bytes,
}
use spirit_fox_os.Recovered.Net.Calls.{
  Result, net_listen, net_accept, first_ready, is_unix, is_stream,
}
use spirit_fox_os.Recovered.Net.Invariant.{TableOk, modify_socket-TableOk}

-- The same with what the call returns, as a name that stays shut.
IsCallOk : Sockets × Result → Type 0
IsCallOk r = TableOk r.0

call_ok : (r : Sockets × Result) → TableOk r.0 → IsCallOk r
unfolding IsCallOk
call_ok r h = h

of_call : (r : Sockets × Result) → IsCallOk r → TableOk r.0
unfolding IsCallOk
of_call r h = h

reset_state :
    (st : TcpState) (s : Socket)
    → IsSound s.state s
    → IsSound st (record s { state = st; pending_conns = [] })
reset_state st s (e, low, high, ring) = (refl, low, high, ring)

pub net_listen-TableOk : (i : ℕ) (n : Sockets) → TableOk n → TableOk (net_listen i n).0
unfolding net_listen
net_listen-TableOk i n ok = of_call (net_listen i n) (
    if-both IsCallOk (is_unix (socket_at n i)) _ _ (call_ok _ ok) (
      if-both IsCallOk (not (is_stream (socket_at n i))) _ _ (call_ok _ ok) (
        if-both IsCallOk ((socket_at n i).local_port == 0) _ _ (call_ok _ ok) (
          call_ok _ (
            modify_socket-TableOk i (λ s. record s { state = TcpState.listen; pending_conns = [] })
              n ok (λ u. reset_state TcpState.listen (socket_at n i) (ok.each i u)))))))

store_datagram-RingOk :
    (meta payload : List ℕ) (s : Socket)
    → IsSound s.state s
    → IsSound s.state (record s { rx = store_datagram meta payload s.rx })
unfolding store_datagram
store_datagram-RingOk meta payload s (e, low, high, ring) = (
  e,
  low,
  high,
  (net_rx_buffer_write-IsWrite (net_rx_buffer_write s.rx meta).0 payload
      (net_rx_buffer_write-IsWrite s.rx meta ring).ok).ok,
)

-- A datagram, for whichever socket, leaves a table in order in order.
pub net_udp_rx-TableOk :
    (env : Env) (src_ip dst_ip : ℕ) (udp_data : List ℕ) (n : Sockets)
    → TableOk n
    → TableOk (net_udp_rx env src_ip dst_ip udp_data n)
unfolding net_udp_rx
net_udp_rx-TableOk env src_ip dst_ip udp_data n ok =
    elim (Bool-cases (ltb (length udp_data) udp_header_size)) [
      | inl short ↦ rw (short, net_udp_rx) ok
      | inr whole ↦ elim (Option-cases (net_find_udp_socket n (read16 udp_data 2) dst_ip)) [
        | inl absent ↦ rw (whole, absent, net_udp_rx) ok
        | inr (i, e) ↦
            rw (whole, e, net_udp_rx)
              (modify_socket-TableOk i _ n ok (λ u.
                store_datagram-RingOk (meta_bytes src_ip (read16 udp_data 0))
                  (udp_payload env udp_data) (socket_at n i) (ok.each i u)))
      ]
    ]

pub net_accept-TableOk : (i : ℕ) (n : Sockets) → TableOk n → TableOk (net_accept i n).0
unfolding net_accept
net_accept-TableOk i n ok = elim (Option-cases (first_ready n (socket_at n i).pending_conns)) [
  | inl none_ready ↦
      rw (none_ready, net_accept)
        (of_call _ (
          if-both IsCallOk (is_unix (socket_at n i)) _ _ (call_ok _ ok) (
            if-both IsCallOk (not (is_stream (socket_at n i))) _ _ (call_ok _ ok) (
              if-both IsCallOk (not (is_listen (socket_at n i).state)) _ _ (call_ok _ ok)
                (call_ok _ ok)))))
  | inr (j, e) ↦
      let shorter : TableOk
          (modify_socket i (λ s. record s { pending_conns = remove_first j s.pending_conns }) n) =
        modify_socket-TableOk i (λ s. record s { pending_conns = remove_first j s.pending_conns }) n
          ok (ok.each i) in
      rw (e, net_accept)
        (of_call _ (
          if-both IsCallOk (is_unix (socket_at n i)) _ _ (call_ok _ ok) (
            if-both IsCallOk (not (is_stream (socket_at n i))) _ _ (call_ok _ ok) (
              if-both IsCallOk (not (is_listen (socket_at n i).state)) _ _ (call_ok _ ok) (
                call_ok _ (
                  modify_socket-TableOk j (λ s. record s { listen_parent = none }) _ shorter
                    (shorter.each j)))))))
]
