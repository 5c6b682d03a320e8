-- ===== src/Recovered/Net/Received.antt =====
-- net_tcp_rx of recovered/net/src/tcp.c keeps the table of sockets in order.
use spirit_fox_os.Recovered.Net.Preserved.{alloc-lem, as_it_is, new_ring-RingOk}
use spirit_fox_os.Prelude.{
  ℕ, Option, ◌+◌, ◌<◌, ◌≡◌, refl, false, ltb, leb, ◌&&◌, List, [], ◌∷◌, ◌++◌, length, get_or, set,
  arith, Bool-cases, Option-cases, inl, inr, some, none, get_or-set_self,
}
use spirit_fox_os.Recovered.Net.Socket.{
  TcpState, Socket, Sockets, socket_at, modify_socket, net_max_sockets, net_get_socket,
  net_find_tcp_socket, net_find_listening_socket, net_tcp_backlog, net_alloc_socket_slot,
}
use spirit_fox_os.Recovered.Net.Preserved.{as_it_is, new_ring-RingOk, alloc-lem}
use spirit_fox_os.Recovered.Net.Tcp.{Env, Sent}
use spirit_fox_os.Recovered.Net.Segments.{has, flag_syn, flag_ack, tcp_header_size, read16}
use spirit_fox_os.Recovered.Net.Tcp.Sound.{IsSound, sent, sound, send_flags-IsSound}
use spirit_fox_os.Recovered.Net.Tcp.Receive.{Input, read_segment, rx_matched, send_flags}
use spirit_fox_os.Recovered.Net.Tcp.Deliver.{new_child, accept_syn, net_tcp_rx}
use spirit_fox_os.Recovered.Net.Tcp.Moves.{IsMoved, rx_matched-IsMoved}
use spirit_fox_os.Recovered.Net.Invariant.{
  TableOk, modify_socket-TableOk, take_slot-TableOk, net_free_socket_slot-TableOk,
}

IsMoved-IsSound :
    (p : Input) (st : TcpState) (o : Sent) → IsMoved p st o → IsSound o.socket.state o.socket
unfolding IsMoved
IsMoved-IsSound p st o (st', m, h) = as_it_is st' o.socket h

rx_matched-IsSound :
    (env : Env) (p : Input) (s : Socket)
    → IsSound s.state s
    → IsSound
        (rx_matched env p s.state (record { socket = s; packets = [] })).socket.state
        (rx_matched env p s.state (record { socket = s; packets = [] })).socket
rx_matched-IsSound env p s h = IsMoved-IsSound p s.state _ (
    rx_matched-IsMoved env p s.state (record { socket = s; packets = [] })
      (sent s.state (record { socket = s; packets = [] }) h))

new_child-IsSound :
    (env : Env) (src_ip dst_ip : ℕ) (tcp_data : List ℕ) (p : Input) (initial_seq parent fd : ℕ)
    (s : Socket)
    → IsSound TcpState.syn_received (new_child env src_ip dst_ip tcp_data p initial_seq parent fd s)
unfolding new_child
new_child-IsSound env src_ip dst_ip tcp_data p initial_seq parent fd s =
    (refl, omega arith, omega arith, new_ring-RingOk)

-- A descriptor that names no socket is taken for the slot of its number.
get_slot :
    (fds : ℕ → Option ℕ) (n : Sockets) (i : ℕ)
    → fds i ≡ none
    → TableOk n
    → i < net_max_sockets
    → net_get_socket fds (record n { used = set n.used i 1 }) i ≡ some i
unfolding net_get_socket
get_slot fds n i free ok lt =
    let near : leb net_max_sockets i ≡ false = ground (arith, lt) in
    let taken : get_or (set n.used i 1) i 0 ≡ 1 =
      get_or-set_self n.used i 1 0 (rw ok.used_len lt) in
    rw (free, near, taken, net_get_socket) refl

-- Under the number of the slot that is free next, the descriptors name no socket.
abbrev pub SlotIsFree : (ℕ → Option ℕ) → Sockets → Type 0
SlotIsFree fds n = (i : ℕ) (n1 : Sockets) → net_alloc_socket_slot n ≡ some (i, n1) → fds i ≡ none

pub send_flags-kept :
    (st : TcpState) (env : Env) (flags : ℕ) (o : Sent)
    → IsSound st o.socket
    → IsSound (send_flags env flags o).socket.state (send_flags env flags o).socket
send_flags-kept st env flags o h =
    as_it_is st (send_flags env flags o).socket
      (sound st _ (send_flags-IsSound st env flags o (sent st o h)))

accept_syn-TableOk :
    (fds : ℕ → Option ℕ) (env : Env) (src_ip dst_ip : ℕ) (tcp_data : List ℕ) (p : Input)
    (parent : ℕ) (n : Sockets)
    → SlotIsFree fds n
    → TableOk n
    → TableOk (accept_syn fds env src_ip dst_ip tcp_data p parent n).0
unfolding accept_syn new_child
accept_syn-TableOk fds env src_ip dst_ip tcp_data p parent n free ok =
    elim (Bool-cases (leb net_tcp_backlog (length (socket_at n parent).pending_conns))) [
      | inl full ↦ rw (full, accept_syn) ok
      | inr room ↦ elim (alloc-lem n ok) [
        | inl no_slot ↦ rw (room, no_slot, accept_syn) ok
        | inr (i, lt, e) ↦
            let n1 : Sockets = record n { used = set n.used i 1 } in
            let child : Socket =
              new_child env src_ip dst_ip tcp_data p n.initial_seq parent i (socket_at n1 i) in
            let n2 : Sockets = modify_socket i (λ s. child) n1 in
            let filled : TableOk n2 =
              take_slot-TableOk i (λ s. child) n ok lt
                (λ s.
                  new_child-IsSound env src_ip dst_ip tcp_data p n.initial_seq parent i
                    (socket_at n1 i)) in
            let n3 : Sockets =
              modify_socket parent (λ s. record s { pending_conns = s.pending_conns ++ i ∷ [] })
                n2 in
            let listed : TableOk n3 =
              modify_socket-TableOk parent
                (λ s. record s { pending_conns = s.pending_conns ++ i ∷ [] }) n2 filled
                (filled.each parent) in
            elim (Bool-cases (env.kmalloc 0 && env.kmalloc 1)) [
              | inr no_memory ↦
                  rw
                    (
                      room,
                      e,
                      get_slot fds n i (free i (record n { used = set n.used i 1 }) e) ok lt,
                      no_memory,
                      accept_syn,
                    )
                    (net_free_socket_slot-TableOk n2 i filled)
              | inl memory ↦
                  rw
                    (
                      room,
                      e,
                      get_slot fds n i (free i (record n { used = set n.used i 1 }) e) ok lt,
                      memory,
                      accept_syn,
                    )
                    (modify_socket-TableOk i _ n3 listed (λ u.
                      send_flags-kept (socket_at n3 i).state env (flag_syn + flag_ack)
                        (record { socket = socket_at n3 i; packets = [] }) (listed.each i u)))
            ]
      ]
    ]

-- A segment, for whichever socket, leaves a table in order in order, if the descriptors of the process that
-- runs name no socket under the number of the slot that is free next.
pub net_tcp_rx-TableOk :
    (fds : ℕ → Option ℕ) (env : Env) (src_ip dst_ip : ℕ) (tcp_data : List ℕ) (n : Sockets)
    → SlotIsFree fds n
    → TableOk n
    → TableOk (net_tcp_rx fds env src_ip dst_ip tcp_data n).0
unfolding net_tcp_rx
net_tcp_rx-TableOk fds env src_ip dst_ip tcp_data n free ok =
    elim (Bool-cases (ltb (length tcp_data) tcp_header_size)) [
      | inl short ↦ rw (short, net_tcp_rx) ok
      | inr whole ↦
          elim (Option-cases
            (net_find_tcp_socket n dst_ip (read16 tcp_data 2) src_ip (read16 tcp_data 0))) [
              | inr (i, e) ↦
                  rw (whole, e, net_tcp_rx)
                    (modify_socket-TableOk i _ n ok (λ u.
                      rx_matched-IsSound env (read_segment env tcp_data) (socket_at n i)
                        (ok.each i u)))
              | inl absent ↦ elim (Option-cases (net_find_listening_socket n (read16 tcp_data 2))) [
                | inl closed_port ↦ rw (whole, absent, closed_port, net_tcp_rx) ok
                | inr (parent, e) ↦
                    elim (Bool-cases (has (read_segment env tcp_data).flags flag_syn)) [
                      | inl syn ↦
                          rw (whole, absent, e, syn, net_tcp_rx)
                            (accept_syn-TableOk fds env src_ip dst_ip tcp_data
                              (read_segment env tcp_data) parent n free ok)
                      | inr other ↦ rw (whole, absent, e, other, net_tcp_rx) ok
                    ]
              ]
            ]
    ]
