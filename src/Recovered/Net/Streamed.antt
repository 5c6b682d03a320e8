-- ===== src/Recovered/Net/Streamed.antt =====
-- The calls of recovered/net/src/socket.c on a connection keep its socket in order.
use spirit_fox_os.Recovered.Net.Tcp.Receive.{send_flags}
use spirit_fox_os.Prelude.{
  ℕ, zero, suc, ◌+◌, ◌-◌, ◌≡◌, refl, ltb, ◌==◌, ◌&&◌, ◌||◌, if◌then◌else◌, List, [], Option, some,
  none, Option-cases, Bool-cases, inl, inr, if-both, length, drop, take, subst,
}
use spirit_fox_os.Recovered.Net.Socket.{
  TcpState, Socket, Sockets, socket_at, modify_socket, net_free_socket_slot,
}
use spirit_fox_os.Recovered.Net.Rings.{Ring, net_rx_buffer_read}
use spirit_fox_os.Recovered.Net.Rings.Buffer.{RingOk}
use spirit_fox_os.Recovered.Net.Udp.{net_recvfrom}
use spirit_fox_os.Recovered.Net.Rings.Queue.{net_rx_buffer_read-IsRead}
use spirit_fox_os.Recovered.Net.Tcp.{Env, Sent, net_tcp_send_packet}
use spirit_fox_os.Recovered.Net.Tcp.Sound.{
  IsSound, IsSentSound, sent, sound, send_flags-IsSound, net_tcp_send_packet-IsSound,
}
use spirit_fox_os.Recovered.Net.Segments.{flag_fin, flag_psh, flag_ack}
use spirit_fox_os.Recovered.Net.Calls.{is_unix, is_stream, Result}
use spirit_fox_os.Recovered.Net.Stream.{
  chunk_size, send_chunks, queue_bytes, net_recv, can_receive, send_fin, net_close, net_shutdown,
  net_send, can_send, send_window,
}
use spirit_fox_os.Recovered.Net.Preserved.{as_it_is}
use spirit_fox_os.Recovered.Net.Invariant.{
  TableOk, modify_socket-TableOk, net_free_socket_slot-TableOk,
}

-- A socket in order, as a name that stays shut.
pub IsFine : Sent → Type 0
IsFine o = IsSound o.socket.state o.socket

fine : (o : Sent) → IsSound o.socket.state o.socket → IsFine o
unfolding IsFine
fine o h = h

of_fine : (o : Sent) → IsFine o → IsSound o.socket.state o.socket
unfolding IsFine
of_fine o h = h

fin-IsFine :
    (st st' : TcpState) (env : Env) (o : Sent)
    → IsSound st o.socket
    → IsSound st' (record (send_flags env (flag_fin + flag_ack) o).socket { state = st' })
fin-IsFine st st' env o h =
    let (e, low, high, ring) =
      sound st _ (send_flags-IsSound st env (flag_fin + flag_ack) o (sent st o h)) in
    (refl, low, high, ring)

send_fin-IsFine :
    (env : Env) (st : TcpState) (o : Sent) → IsSound st o.socket → IsFine (send_fin env st o)
unfolding send_fin
send_fin-IsFine env TcpState.established o h =
    fine _ (fin-IsFine TcpState.established TcpState.fin_wait_1 env o h)
send_fin-IsFine env TcpState.close_wait o h =
    fine _ (fin-IsFine TcpState.close_wait TcpState.last_ack env o h)
send_fin-IsFine env TcpState.closed o h = fine o (as_it_is TcpState.closed o.socket h)
send_fin-IsFine env TcpState.listen o h = fine o (as_it_is TcpState.listen o.socket h)
send_fin-IsFine env TcpState.syn_sent o h = fine o (as_it_is TcpState.syn_sent o.socket h)
send_fin-IsFine env TcpState.syn_received o h = fine o (as_it_is TcpState.syn_received o.socket h)
send_fin-IsFine env TcpState.fin_wait_1 o h = fine o (as_it_is TcpState.fin_wait_1 o.socket h)
send_fin-IsFine env TcpState.fin_wait_2 o h = fine o (as_it_is TcpState.fin_wait_2 o.socket h)
send_fin-IsFine env TcpState.closing o h = fine o (as_it_is TcpState.closing o.socket h)
send_fin-IsFine env TcpState.time_wait o h = fine o (as_it_is TcpState.time_wait o.socket h)
send_fin-IsFine env TcpState.last_ack o h = fine o (as_it_is TcpState.last_ack o.socket h)

-- net_shutdown leaves a socket in order.
pub net_shutdown-IsSound :
    (env : Env) (how : ℕ) (s : Socket)
    → IsSound s.state s
    → IsSound (net_shutdown env how s).0.socket.state (net_shutdown env how s).0.socket
unfolding net_shutdown
net_shutdown-IsSound env how s h =
    let o : Sent = record { socket = s; packets = [] } in
    elim (Bool-cases (is_stream s)) [
      | inr other ↦ rw (other, net_shutdown) h
      | inl stream ↦ elim (Bool-cases (how == 1 || (how == 2))) [
        | inl ends ↦
            rw (stream, ends, net_shutdown)
              (of_fine (send_fin env s.state o) (send_fin-IsFine env s.state o h))
        | inr more ↦ rw (stream, more, net_shutdown) h
      ]
    ]

-- net_recvfrom leaves a ring in order, whatever waits in it.
pub net_recvfrom-RingOk : (len : ℕ) (r : Ring) → RingOk r → RingOk (net_recvfrom len r).1
unfolding net_recvfrom
net_recvfrom-RingOk len r ok =
    let r1 : Ring = (net_rx_buffer_read r 6).1 in
    let ok1 : RingOk r1 = (net_rx_buffer_read-IsRead r 6 ok).ok in
    elim (Bool-cases (ltb r.count 6)) [
      | inl short ↦ rw (short, net_recvfrom) ok
      | inr whole ↦
          rw (whole, net_recvfrom)
            (net_rx_buffer_read-IsRead r1 (if ltb len r1.count then len else r1.count) ok1).ok
    ]

freed :
    (held : Option ℕ) (n : Sockets)
    → TableOk n
    → TableOk (elim held as (λ x. Sockets) [ none ↦ n | some slot ↦ net_free_socket_slot n slot ])
freed none n ok = ok
freed (some slot) n ok = net_free_socket_slot-TableOk n slot ok

-- net_close leaves a table in order in order, whichever slot the descriptor names.
pub net_close-TableOk :
    (env : Env) (i : ℕ) (held : Option ℕ) (n : Sockets)
    → TableOk n
    → TableOk (net_close env i held n).0
unfolding net_close
net_close-TableOk env i held n ok =
    let o : Sent = record { socket = socket_at n i; packets = [] } in
    let o1 : Sent = if is_stream (socket_at n i) then send_fin env (socket_at n i).state o else o in
    let after : TableOk (modify_socket i (λ s. o1.socket) n) =
      modify_socket-TableOk i (λ s. o1.socket) n ok
        (λ u. of_fine o1 (
          if-both IsFine (is_stream (socket_at n i)) _ _
            (send_fin-IsFine env (socket_at n i).state o (ok.each i u)) (fine o (ok.each i u)))) in
    elim (Bool-cases (is_unix (socket_at n i))) [
      | inl unix ↦ rw (unix, net_close) ok
      | inr inet ↦ rw (inet, net_close) (freed held (modify_socket i (λ s. o1.socket) n) after)
    ]

-- net_recv takes bytes of the ring only.
pub net_recv-IsSound :
    (len : ℕ) (s : Socket) → IsSound s.state s → IsSound s.state (net_recv len s).1
unfolding net_recv
net_recv-IsSound len s (e, low, high, ring) =
    let after : IsSound s.state (record s { rx = (net_rx_buffer_read s.rx len).1 }) =
      (e, low, high, (net_rx_buffer_read-IsRead s.rx len ring).ok) in
    elim (Bool-cases (is_unix s)) [
      | inl unix ↦ rw (unix, net_recv) (e, low, high, ring)
      | inr inet ↦ elim (Bool-cases (is_stream s)) [
        | inr other ↦ rw (inet, other, net_recv) (e, low, high, ring)
        | inl stream ↦ elim (Bool-cases (can_receive s.state)) [
          | inr ended ↦ rw (inet, stream, ended, net_recv) (e, low, high, ring)
          | inl runs ↦ elim (Bool-cases (s.rx.count == 0)) [
            | inl empty ↦ rw (inet, stream, runs, empty, net_recv) (e, low, high, ring)
            | inr some_bytes ↦ rw (inet, stream, runs, some_bytes, net_recv) after
          ]
        ]
      ]
    ]

send_chunks-IsSentSound :
    (st : TcpState) (fuel : ℕ) (env : Env) (alloc : ℕ) (bytes : List ℕ) (window : ℕ) (o : Sent)
    (r : List ℕ × Sent)
    → IsSentSound st o
    → send_chunks fuel env alloc bytes window o ≡ some r
    → IsSentSound st r.1
unfolding send_chunks
send_chunks-IsSentSound st zero env alloc bytes window o r h e = absurd (cc e)
send_chunks-IsSentSound st (suc fuel) env alloc bytes window o r h e =
    elim (Bool-cases (ltb 0 (length bytes) && ltb 0 window)) [
      | inl more ↦
          send_chunks-IsSentSound st fuel env (alloc + 2)
            (drop (chunk_size (length bytes) window) bytes)
            (window - chunk_size (length bytes) window)
            (net_tcp_send_packet env alloc (flag_psh + flag_ack)
              (take (chunk_size (length bytes) window) bytes) o)
            r
            (net_tcp_send_packet-IsSound st env alloc (flag_psh + flag_ack)
              (take (chunk_size (length bytes) window) bytes) o h)
            (rw more at e)
      | inr stop ↦
          let same : (bytes, o) ≡ r = cc (rw stop at e) in
          subst (λ (q : List ℕ × Sent). IsSentSound st q.1) same h
    ]

queue_bytes-IsSound :
    (st : TcpState) (bytes : List ℕ) (s : Socket)
    → IsSound st s
    → IsSound st (queue_bytes bytes s).0
unfolding queue_bytes
queue_bytes-IsSound st bytes s (e, low, high, ring) =
    elim (Bool-cases (ltb 0 (length bytes) && ltb 0 (length s.tx.buffer))) [
      | inl queued ↦ rw (queued, queue_bytes) (e, low, high, ring)
      | inr nothing ↦ rw (nothing, queue_bytes) (e, low, high, ring)
    ]

-- What net_send leaves, if the socket was in order.
unfoldable pub IsSentOk : TcpState → Option (Sent × Result) → Type 0
IsSentOk st none = Unit
IsSentOk st (some (o, r)) = IsSound st o.socket

pub net_send-IsSentOk :
    (env : Env) (bytes : List ℕ) (s : Socket)
    → IsSound s.state s
    → IsSentOk s.state (net_send env bytes s)
unfolding net_send IsSentOk
net_send-IsSentOk env bytes s h =
    let o : Sent = record { socket = s; packets = [] } in
    elim (Bool-cases (is_unix s)) [
      | inl unix ↦ rw (unix, net_send) h
      | inr inet ↦ elim (Bool-cases (is_stream s)) [
        | inr other ↦ rw (inet, other, net_send) h
        | inl stream ↦ elim (Bool-cases (can_send s.state)) [
          | inr ended ↦ rw (inet, stream, ended, net_send) h
          | inl runs ↦ elim (Bool-cases (length bytes == 0)) [
            | inl empty ↦ rw (inet, stream, runs, empty, net_send) h
            | inr nonempty ↦
                elim (Option-cases
                  (send_chunks (suc (length bytes)) env 0 bytes (send_window s) o)) [
                    | inl spent ↦ rw (inet, stream, runs, nonempty, net_send, spent) tt
                    | inr (q, e) ↦
                        rw (inet, stream, runs, nonempty, net_send, e)
                          (queue_bytes-IsSound s.state q.0 q.1.socket (
                            sound s.state q.1 (
                              send_chunks-IsSentSound s.state (suc (length bytes)) env 0 bytes
                                (send_window s) o q (sent s.state o h) e)))
                  ]
          ]
        ]
      ]
    ]
