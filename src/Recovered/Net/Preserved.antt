-- ===== src/Recovered/Net/Preserved.antt =====
-- net_socket and net_tcp_tick keep the table of sockets in order.
use spirit_fox_os.Prelude.{
  ℕ, zero, suc, ◌+◌, ◌<◌, ◌≡◌, refl, ◌==◌, ◌&&◌, [], set, arith, Bool-cases, Option-cases, inl, inr,
  ◌⊎◌, Option, some, none, find_index?, find_index?-get_or, if-both,
}
use spirit_fox_os.Recovered.Net.Socket.{
  TcpState, Socket, Sockets, socket_at, modify_socket, net_max_sockets, net_get_socket,
  net_alloc_socket_slot, net_free_socket_slot, sock_stream,
}
use spirit_fox_os.Recovered.Net.Rings.{new_ring}
use spirit_fox_os.Recovered.Net.Rings.Buffer.{RingOk}
use spirit_fox_os.Recovered.Net.Tcp.{Env, Sent}
use spirit_fox_os.Recovered.Net.Tcp.Sound.{IsSound, sent}
use spirit_fox_os.Recovered.Net.Tcp.Tick.{tick_socket, tick_from, net_tcp_tick}
use spirit_fox_os.Recovered.Net.Tcp.Timeouts.{IsTicked, tick_socket-IsTicked}
use spirit_fox_os.Recovered.Net.Calls.Open.{new_socket, open_slot, is_supported, net_socket}
use spirit_fox_os.Recovered.Net.Invariant.{
  TableOk, modify_socket-TableOk, take_slot-TableOk, net_free_socket_slot-TableOk,
}

pub new_ring-RingOk : RingOk new_ring
new_ring-RingOk = record {
  full_size = refl;
  array = refl;
  inside = omega arith;
  behind = refl;
  bounded = omega arith;
}

-- A slot that is found is in range.
pub alloc-lem :
    (n : Sockets)
    → TableOk n
    → (net_alloc_socket_slot n ≡ none)
      ⊎ ((i : ℕ) × (i < net_max_sockets)
          × (net_alloc_socket_slot n ≡ some (i, record n { used = set n.used i 1 })))
unfolding net_alloc_socket_slot
alloc-lem n ok = elim (Option-cases (find_index? (λ u. u == 0) n.used)) [
  | inl full ↦ inl (rw (full, net_alloc_socket_slot) refl)
  | inr (i, e) ↦
      let (lt, free) = find_index?-get_or (λ u. u == 0) i n.used 0 e in
      inr (i, rw ok.used_len at lt, rw (e, net_alloc_socket_slot) refl)
]

new_socket-IsSound :
    (env : Env) (initial_seq i domain kind : ℕ) (s : Socket)
    → IsSound TcpState.closed (new_socket env initial_seq i domain kind s)
unfolding new_socket
new_socket-IsSound env initial_seq i domain kind s =
    (refl, omega arith, omega arith, new_ring-RingOk)

open_slot-TableOk :
    (vfs_register_socket : ℕ → Option ℕ) (env : Env) (domain kind : ℕ) (n : Sockets)
    → TableOk n
    → TableOk (open_slot vfs_register_socket env domain kind n).0
unfolding open_slot new_socket
open_slot-TableOk vfs_register_socket env domain kind n ok = elim (alloc-lem n ok) [
  | inl full ↦ rw (full, open_slot) ok
  | inr (i, lt, e) ↦
      let n2 : Sockets =
        modify_socket i (new_socket env n.initial_seq i domain kind)
          (record n { used = set n.used i 1 }) in
      let filled : TableOk n2 =
        take_slot-TableOk i (new_socket env n.initial_seq i domain kind) n ok lt
          (new_socket-IsSound env n.initial_seq i domain kind) in
      let freed : TableOk (net_free_socket_slot n2 i) = net_free_socket_slot-TableOk n2 i filled in
      elim (Bool-cases (env.kmalloc 0 && env.kmalloc 1)) [
        | inr no_memory ↦ rw (e, no_memory, open_slot) freed
        | inl memory ↦ elim (Option-cases (vfs_register_socket i)) [
          | inl no_fd ↦ rw (e, memory, no_fd, open_slot) freed
          | inr (fd, has_fd) ↦ rw (e, memory, has_fd, open_slot) filled
        ]
      ]
]

-- net_socket, whatever it returns, leaves a table in order in order.
pub net_socket-TableOk :
    (vfs_register_socket : ℕ → Option ℕ) (env : Env) (domain kind protocol : ℕ) (n : Sockets)
    → TableOk n
    → TableOk (net_socket vfs_register_socket env domain kind protocol n).0
unfolding net_socket
net_socket-TableOk vfs_register_socket env domain kind protocol n ok =
    if-both (λ (r : Sockets × Option ℕ). TableOk r.0) (is_supported domain kind protocol) _ _
      (open_slot-TableOk vfs_register_socket env domain kind n ok) ok

pub as_it_is : (st : TcpState) (s : Socket) → IsSound st s → IsSound s.state s
as_it_is st s (e, low, high, ring) = (refl, low, high, ring)

IsTicked-IsSound : (st : TcpState) (o : Sent) → IsTicked st o → IsSound o.socket.state o.socket
unfolding IsTicked
IsTicked-IsSound st o (inl h) = as_it_is st o.socket h
IsTicked-IsSound st o (inr h) = as_it_is TcpState.closed o.socket h

tick_socket-IsSound :
    (env : Env) (s : Socket)
    → IsSound s.state s
    → IsSound
        (tick_socket env (record { socket = s; packets = [] })).socket.state
        (tick_socket env (record { socket = s; packets = [] })).socket
tick_socket-IsSound env s h = IsTicked-IsSound s.state _ (
    tick_socket-IsTicked s.state env (record { socket = s; packets = [] })
      (sent s.state (record { socket = s; packets = [] }) h))

tick_from-TableOk :
    (vfs_get_socket : ℕ → Option ℕ) (env : Env) (rounds i : ℕ) (n : Sockets)
    → TableOk n
    → TableOk (tick_from vfs_get_socket env rounds i n).0
unfolding tick_from
tick_from-TableOk vfs_get_socket env zero i n ok = ok
tick_from-TableOk vfs_get_socket env (suc rounds) i n ok =
    elim (Option-cases (net_get_socket vfs_get_socket n i)) [
      | inl absent ↦
          rw (absent, tick_from) (tick_from-TableOk vfs_get_socket env rounds (i + 1) n ok)
      | inr (j, e) ↦
          let o : Sent = tick_socket env (record { socket = socket_at n j; packets = [] }) in
          let moved : TableOk (modify_socket j (λ s. o.socket) n) =
            modify_socket-TableOk j (λ s. o.socket) n ok
              (λ u. tick_socket-IsSound env (socket_at n j) (ok.each j u)) in
          rw (e, tick_from)
            (tick_from-TableOk vfs_get_socket env rounds (i + 1) _
              (if-both TableOk ((socket_at n j).kind == sock_stream) _ _ moved ok))
    ]

-- A round of the timers leaves a table in order in order, whatever the descriptors of the process are.
pub net_tcp_tick-TableOk :
    (vfs_get_socket : ℕ → Option ℕ) (env : Env) (n : Sockets)
    → TableOk n
    → TableOk (net_tcp_tick vfs_get_socket env n).0
unfolding net_tcp_tick
net_tcp_tick-TableOk vfs_get_socket env n ok =
    tick_from-TableOk vfs_get_socket env net_max_sockets 0 n ok
