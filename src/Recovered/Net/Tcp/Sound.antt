-- ===== src/Recovered/Net/Tcp/Sound.antt =====
-- What each segment and each tick of recovered/net/src/tcp.c leaves true of a socket.
use spirit_fox_os.Prelude.{
  ℕ, ◌+◌, ◌≤◌, ◌≡◌, ltb, leb, ◌==◌, ◌||◌, List, [], ◌∷◌, arith, Bool-cases, inl, inr, if-both,
}
use spirit_fox_os.Recovered.Net.Socket.{TcpState, Congestion, Socket, Segment}
use spirit_fox_os.Recovered.Net.Rings.{u32}
use spirit_fox_os.Recovered.Net.Rings.Buffer.{RingOk}
use spirit_fox_os.Recovered.Net.Rings.Queue.{net_rx_buffer_write-IsWrite}
use spirit_fox_os.Recovered.Net.Tcp.{
  Env, Sent, update, rto_min, rto_max, tcp_unacked_add, tcp_update_rtt, tcp_unacked_ack,
  tcp_recalc_in_flight, net_tcp_send_packet, start_timer, track,
}
use spirit_fox_os.Recovered.Net.Segments.{flag_ack, flag_psh}
use spirit_fox_os.Recovered.Net.Tcp.Receive.{
  Input, expect, send_flags, acknowledge_fin, store_payload, process_data,
}
use spirit_fox_os.Recovered.Net.Tcp.Acks.{
  grow_window, measure_rtt, new_ack, resend_first, duplicate_ack, process_ack, is_recovering,
  behind_first,
}

-- Of a socket in the state `st`: the retransmission timeout is within its bounds, and the receive ring is in
-- order. What follows keeps all of this, the state included.
module _ (st : TcpState) where
  abbrev pub IsSound : Socket → Type 0
  IsSound s = (s.state ≡ st) × (rto_min ≤ s.rto) × (s.rto ≤ rto_max) × RingOk s.rx

  pub tcp_unacked_add-IsSound :
      (env : Env) (alloc seq : ℕ) (payload : List ℕ) (s : Socket)
      → IsSound s
      → IsSound (tcp_unacked_add env alloc seq payload s)
  unfolding tcp_unacked_add
  tcp_unacked_add-IsSound env alloc seq payload s h = if-both IsSound _ _ _ h h

  pub track-IsSound :
      (env : Env) (alloc flags : ℕ) (payload : List ℕ) (s : Socket)
      → IsSound s
      → IsSound (track env alloc flags payload s)
  unfolding track
  track-IsSound env alloc flags payload s h =
      if-both IsSound _ _ _ (tcp_unacked_add-IsSound env alloc s.seq_num payload s h) h

  pub start_timer-IsSound : (env : Env) (s : Socket) → IsSound s → IsSound (start_timer env s)
  unfolding start_timer
  start_timer-IsSound env s h = if-both IsSound _ _ _ h h

  -- The same for a state with its packets, as a name that stays shut.
  pub IsSentSound : Sent → Type 0
  IsSentSound o = IsSound o.socket

  pub sent : (o : Sent) → IsSound o.socket → IsSentSound o
  unfolding IsSentSound
  sent o h = h

  pub sound : (o : Sent) → IsSentSound o → IsSound o.socket
  unfolding IsSentSound
  sound o h = h

  pub net_tcp_send_packet-IsSound :
      (env : Env) (alloc flags : ℕ) (payload : List ℕ) (o : Sent)
      → IsSentSound o
      → IsSentSound (net_tcp_send_packet env alloc flags payload o)
  unfolding net_tcp_send_packet
  net_tcp_send_packet-IsSound env alloc flags payload o h = sent _ (
      start_timer-IsSound env (track env alloc flags payload o.socket)
        (track-IsSound env alloc flags payload o.socket (sound _ h)))

  pub tcp_update_rtt-IsSound : (rtt : ℕ) (s : Socket) → IsSound s → IsSound (tcp_update_rtt rtt s)
  unfolding tcp_update_rtt
  tcp_update_rtt-IsSound rtt s (e, low, high, ring) = (e, ground arith, ground arith, ring)

  pub measure_rtt-IsSound :
      (env : Env) (ack : ℕ) (segs : List Segment) (s : Socket)
      → IsSound s
      → IsSound (measure_rtt env ack segs s)
  unfolding measure_rtt
  measure_rtt-IsSound env ack [] s h = h
  measure_rtt-IsSound env ack (seg ∷ segs) s h =
      if-both IsSound _ _ _ (tcp_update_rtt-IsSound _ s h) h

  pub grow_window-IsSound :
      (ack acked : ℕ) (c : Congestion) (s : Socket)
      → IsSound s
      → IsSound (grow_window ack acked c s)
  unfolding grow_window
  grow_window-IsSound ack acked Congestion.slow_start s h = h
  grow_window-IsSound ack acked Congestion.congestion_avoid s h = if-both IsSound _ _ _ h h
  grow_window-IsSound ack acked Congestion.fast_recovery s h = if-both IsSound _ _ _ h h

  pub new_ack-IsSound : (env : Env) (ack : ℕ) (s : Socket) → IsSound s → IsSound (new_ack env ack s)
  unfolding new_ack tcp_recalc_in_flight tcp_unacked_ack
  new_ack-IsSound env ack s h =
      grow_window-IsSound ack _ _ _ (measure_rtt-IsSound env ack s.unacked s h)

  pub resend_first-IsSound :
      (env : Env) (segs : List Segment) (o : Sent)
      → IsSentSound o
      → IsSentSound (resend_first env segs o)
  unfolding resend_first
  resend_first-IsSound env [] o h = h
  resend_first-IsSound env (seg ∷ segs) o h = sent _ (
      sound _ (
        net_tcp_send_packet-IsSound env 0 (flag_psh + flag_ack) seg.bytes
          (update (λ s. record s { seq_num = seg.seq }) o) (sent _ (sound _ h))))

  pub duplicate_ack-IsSound :
      (env : Env) (o : Sent) → IsSentSound o → IsSentSound (duplicate_ack env o)
  unfolding duplicate_ack
  duplicate_ack-IsSound env o h = elim (Bool-cases (is_recovering o.socket.congestion)) [
    | inl again ↦ rw (again, duplicate_ack) (sent _ (sound _ h))
    | inr first ↦ elim (Bool-cases (leb 3 (u32 (o.socket.dup_ack_count + 1)))) [
      | inl third ↦
          rw (first, third, duplicate_ack)
            (resend_first-IsSound env o.socket.unacked _ (sent _ (sound _ h)))
      | inr less ↦ rw (first, less, duplicate_ack) (sent _ (sound _ h))
    ]
  ]

  pub process_ack-IsSound :
      (env : Env) (ack : ℕ) (o : Sent) → IsSentSound o → IsSentSound (process_ack env ack o)
  unfolding process_ack
  process_ack-IsSound env ack o h =
      if-both IsSentSound (ltb o.socket.last_ack_sent ack || behind_first ack o.socket.unacked) _ _
        (sent _ (new_ack-IsSound env ack o.socket (sound _ h)))
        (if-both IsSentSound (ack == o.socket.last_ack_sent) _ _ (duplicate_ack-IsSound env o h) h)

  pub send_flags-IsSound :
      (env : Env) (flags : ℕ) (o : Sent) → IsSentSound o → IsSentSound (send_flags env flags o)
  send_flags-IsSound env flags o h = net_tcp_send_packet-IsSound env 0 flags [] o h

  pub store_payload-IsSound :
      (p : Input) (o : Sent) → IsSentSound o → IsSentSound (store_payload p o)
  store_payload-IsSound p o h =
      let (e, low, high, ring) = sound _ h in
      sent _ (e, low, high, (net_rx_buffer_write-IsWrite o.socket.rx p.payload ring).ok)

  pub process_data-IsSound :
      (env : Env) (p : Input) (o : Sent) → IsSentSound o → IsSentSound (process_data env p o)
  unfolding process_data
  process_data-IsSound env p o h =
      if-both IsSentSound (ltb 0 p.payload_len) _ _
        (if-both IsSentSound (p.seq == o.socket.remote_seq) _ _
          (send_flags-IsSound env _ (expect (p.seq + p.payload_len) (store_payload p o))
            (sent _ (sound _ (store_payload-IsSound p o h))))
          (if-both IsSentSound (ltb o.socket.remote_seq p.seq) _ _ (send_flags-IsSound env _ o h)
            h))
        h

  pub acknowledge_fin-IsSound :
      (env : Env) (p : Input) (o : Sent) → IsSentSound o → IsSentSound (acknowledge_fin env p o)
  acknowledge_fin-IsSound env p o h =
      send_flags-IsSound env _ (update (λ s. record s { ack_num = u32 (p.seq + 1) }) o)
        (sent _ (sound _ h))
