-- ===== src/Recovered/Net/Stream.antt =====
-- recovered/net/src/socket.c: sending, receiving and ending on a connection.
pub mod Sending
use spirit_fox_os.Recovered.Net.Calls.{
  Result, is_established, is_stream, is_close_wait, Errno, is_unix,
}
use spirit_fox_os.Prelude.{
  ℕ, zero, suc, ◌+◌, ◌-◌, ◌*◌, ◌/◌, ◌%◌, ◌^◌, Bool, true, false, ltb, leb, ◌==◌, not, ◌&&◌, ◌||◌,
  if◌then◌else◌, List, [], ◌∷◌, ◌++◌, length, set, take, drop, Option, none, some, find_index?,
}
use spirit_fox_os.Recovered.Net.Socket.{
  TcpState, Congestion, Socket, Segment, Sockets, socket_at, modify_socket, net_tcp_mss,
  net_tcp_window, sock_stream, is_listen, net_alloc_port, net_find_socket_by_port, remove_first,
  af_inet, net_free_socket_slot,
}
use spirit_fox_os.Recovered.Net.Rings.{Ring, u32, sub32, net_rx_buffer_read, write_bytes}
use spirit_fox_os.Recovered.Net.Tcp.{Env, Sent, update, net_tcp_send_packet}
use spirit_fox_os.Recovered.Net.Segments.{
  Packet, flag_fin, flag_syn, flag_psh, flag_ack, inaddr_loopback,
}
use spirit_fox_os.Recovered.Net.Tcp.Receive.{move_to, send_flags, rx_established}

abbrev pub send_window : Socket → ℕ
send_window s =
    let window = if ltb net_tcp_window s.cwnd then net_tcp_window else s.cwnd in
    window - s.bytes_in_flight

abbrev pub chunk_size : ℕ → ℕ → ℕ
chunk_size remaining window =
    let chunk = if ltb net_tcp_mss remaining then net_tcp_mss else remaining in
    if ltb window chunk then window else chunk

-- The loop of net_send, on fuel: the bytes that are left, the window that is left, and the socket.
-- A chunk has two allocations.
unfoldable pub send_chunks : ℕ → Env → ℕ → List ℕ → ℕ → Sent → Option (List ℕ × Sent)
send_chunks zero env alloc bytes window o = none
send_chunks (suc fuel) env alloc bytes window o =
    let chunk = chunk_size (length bytes) window in
    let rest =
      send_chunks fuel env (alloc + 2) (drop chunk bytes) (window - chunk)
        (net_tcp_send_packet env alloc (flag_psh + flag_ack) (take chunk bytes) o) in
    if ltb 0 (length bytes) && ltb 0 window then rest else some (bytes, o)

-- What the window does not take is put into the ring `tx`, as far as it fits.
unfoldable pub queue_bytes : List ℕ → Socket → Socket × ℕ
queue_bytes bytes s =
    let avail = sub32 s.tx.size s.tx.count in
    let to_queue = if ltb (length bytes) avail then length bytes else avail in
    let tx' = write_bytes (take to_queue bytes) s.tx in
    if ltb 0 (length bytes) && ltb 0 (length s.tx.buffer)
    then (record s { tx = record tx' { count = u32 (s.tx.count + to_queue) } }, to_queue)
    else (s, 0)

abbrev pub can_send : TcpState → Bool
can_send st = is_established st || is_close_wait st

-- The loop sends a byte at least each round.
unfoldable pub net_send : Env → List ℕ → Socket → Option (Sent × Result)
net_send env bytes s =
    let o : Sent = record { socket = s; packets = [] } in
    if is_unix s
    then some (o, Result.to_unix)
    else (if not (is_stream s)
        then some (o, Result.error Errno.eopnotsupp)
        else (if not (can_send s.state)
            then some (o, Result.error Errno.enotconn)
            else (if length bytes == 0
                then some (o, Result.done 0)
                else elim (send_chunks (suc (length bytes)) env 0 bytes (send_window s) o) [
                  | none ↦ none
                  | some (left, o1) ↦
                      let (s2, queued) = queue_bytes left o1.socket in
                      some (
                        record o1 { socket = s2 },
                        Result.done (length bytes - length left + queued),
                      )
                ])))

abbrev pub can_receive : TcpState → Bool
can_receive TcpState.established = true
can_receive TcpState.fin_wait_1 = true
can_receive TcpState.fin_wait_2 = true
can_receive TcpState.close_wait = true
can_receive _ = false

abbrev pub has_ended : TcpState → Bool
has_ended TcpState.closed = true
has_ended TcpState.time_wait = true
has_ended _ = false

-- The bytes, the socket after the call, and the result.
unfoldable pub net_recv : ℕ → Socket → List ℕ × Socket × Result
net_recv len s =
    let (bytes, rx') = net_rx_buffer_read s.rx len in
    if is_unix s
    then ([], s, Result.to_unix)
    else (if not (is_stream s)
        then ([], s, Result.error Errno.eopnotsupp)
        else (if not (can_receive s.state)
            then ([], s, if has_ended s.state then Result.done 0 else Result.error Errno.enotconn)
            else (if s.rx.count == 0
                then ([], s, Result.error Errno.eagain)
                else (bytes, record s { rx = rx' }, Result.done (length bytes)))))

-- The FIN of net_shutdown and net_close.
unfoldable pub send_fin : Env → TcpState → Sent → Sent
send_fin env TcpState.established o =
    move_to TcpState.fin_wait_1 (send_flags env (flag_fin + flag_ack) o)
send_fin env TcpState.close_wait o =
    move_to TcpState.last_ack (send_flags env (flag_fin + flag_ack) o)
send_fin env st o = o

unfoldable pub net_shutdown : Env → ℕ → Socket → Sent × Result
net_shutdown env how s =
    let o : Sent = record { socket = s; packets = [] } in
    if not (is_stream s)
    then (o, Result.error Errno.eopnotsupp)
    else (if how == 1 || (how == 2)
        then (send_fin env s.state o, Result.done 0)
        else (o, Result.done 0))

-- `held` is the slot that the descriptor's inode names.
unfoldable pub net_close : Env → ℕ → Option ℕ → Sockets → Sockets × List Packet
net_close env i held n =
    let s = socket_at n i in
    let o : Sent = record { socket = s; packets = [] } in
    let o1 = if is_stream s then send_fin env s.state o else o in
    let n1 = modify_socket i (λ s. o1.socket) n in
    let freed : Sockets = elim held [ none ↦ n1 | some slot ↦ net_free_socket_slot n1 slot ] in
    if is_unix s then (n, []) else (freed, o1.packets)
