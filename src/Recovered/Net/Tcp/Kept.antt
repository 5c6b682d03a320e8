-- ===== src/Recovered/Net/Tcp/Kept.antt =====
-- recovered/net/src/tcp.c: what an acknowledgment does not touch.
use spirit_fox_os.Prelude.{
  ℕ, ◌+◌, ◌≡◌, ltb, leb, ◌==◌, ◌||◌, List, [], ◌∷◌, Bool-cases, inl, inr, if-both,
}
use spirit_fox_os.Recovered.Net.Socket.{Congestion, Socket, Segment}
use spirit_fox_os.Recovered.Net.Rings.{u32}
use spirit_fox_os.Recovered.Net.Tcp.{
  Env, Sent, update, tcp_unacked_add, tcp_update_rtt, tcp_unacked_ack, tcp_recalc_in_flight,
  net_tcp_send_packet, start_timer, track,
}
use spirit_fox_os.Recovered.Net.Segments.{flag_ack, flag_psh}
use spirit_fox_os.Recovered.Net.Tcp.Acks.{
  grow_window, measure_rtt, new_ack, resend_first, duplicate_ack, process_ack, is_recovering,
  behind_first,
}

-- The receive ring and the number expected next are those of `s0`.
module _ (s0 : Socket) where
  abbrev IsKept : Socket → Type 0
  IsKept s = (s.rx ≡ s0.rx) × (s.remote_seq ≡ s0.remote_seq)

  -- The same for a socket with its packets, as a name that stays shut.
  pub IsSentKept : Sent → Type 0
  IsSentKept o = IsKept o.socket

  pub sent_kept : (o : Sent) → IsKept o.socket → IsSentKept o
  unfolding IsSentKept
  sent_kept o h = h

  pub IsKept-of : (o : Sent) → IsSentKept o → IsKept o.socket
  unfolding IsSentKept
  IsKept-of o h = h

  start_timer-IsKept : (env : Env) (s : Socket) → IsKept s → IsKept (start_timer env s)
  unfolding start_timer
  start_timer-IsKept env s h = if-both IsKept _ _ _ h h

  tcp_unacked_add-IsKept :
      (env : Env) (alloc seq : ℕ) (payload : List ℕ) (s : Socket)
      → IsKept s
      → IsKept (tcp_unacked_add env alloc seq payload s)
  unfolding tcp_unacked_add
  tcp_unacked_add-IsKept env alloc seq payload s h = if-both IsKept _ _ _ h h

  track-IsKept :
      (env : Env) (alloc flags : ℕ) (payload : List ℕ) (s : Socket)
      → IsKept s
      → IsKept (track env alloc flags payload s)
  unfolding track
  track-IsKept env alloc flags payload s h =
      if-both IsKept _ _ _ (tcp_unacked_add-IsKept env alloc s.seq_num payload s h) h

  tcp_update_rtt-IsKept : (rtt : ℕ) (s : Socket) → IsKept s → IsKept (tcp_update_rtt rtt s)
  unfolding tcp_update_rtt
  tcp_update_rtt-IsKept rtt s h = h

  net_tcp_send_packet-IsKept :
      (env : Env) (alloc flags : ℕ) (payload : List ℕ) (o : Sent)
      → IsSentKept o
      → IsSentKept (net_tcp_send_packet env alloc flags payload o)
  unfolding net_tcp_send_packet
  net_tcp_send_packet-IsKept env alloc flags payload o h = sent_kept _ (
      start_timer-IsKept env (track env alloc flags payload o.socket)
        (track-IsKept env alloc flags payload o.socket (IsKept-of _ h)))

  measure_rtt-IsKept :
      (env : Env) (ack : ℕ) (segs : List Segment) (s : Socket)
      → IsKept s
      → IsKept (measure_rtt env ack segs s)
  unfolding measure_rtt
  measure_rtt-IsKept env ack [] s h = h
  measure_rtt-IsKept env ack (seg ∷ segs) s h = if-both IsKept _ _ _ (tcp_update_rtt-IsKept _ s h) h

  grow_window-IsKept :
      (ack acked : ℕ) (c : Congestion) (s : Socket) → IsKept s → IsKept (grow_window ack acked c s)
  unfolding grow_window
  grow_window-IsKept ack acked Congestion.slow_start s h = h
  grow_window-IsKept ack acked Congestion.congestion_avoid s h = if-both IsKept _ _ _ h h
  grow_window-IsKept ack acked Congestion.fast_recovery s h = if-both IsKept _ _ _ h h

  new_ack-IsKept : (env : Env) (ack : ℕ) (s : Socket) → IsKept s → IsKept (new_ack env ack s)
  unfolding new_ack tcp_recalc_in_flight tcp_unacked_ack
  new_ack-IsKept env ack s h =
      grow_window-IsKept ack _ _ _ (measure_rtt-IsKept env ack s.unacked s h)

  resend_first-IsKept :
      (env : Env) (segs : List Segment) (o : Sent)
      → IsSentKept o
      → IsSentKept (resend_first env segs o)
  unfolding resend_first
  resend_first-IsKept env [] o h = h
  resend_first-IsKept env (seg ∷ segs) o h = sent_kept _ (
      IsKept-of _ (
        net_tcp_send_packet-IsKept env 0 (flag_psh + flag_ack) seg.bytes
          (update (λ s. record s { seq_num = seg.seq }) o) (sent_kept _ (IsKept-of _ h))))

  duplicate_ack-IsKept : (env : Env) (o : Sent) → IsSentKept o → IsSentKept (duplicate_ack env o)
  unfolding duplicate_ack
  duplicate_ack-IsKept env o h = elim (Bool-cases (is_recovering o.socket.congestion)) [
    | inl again ↦ rw (again, duplicate_ack) (sent_kept _ (IsKept-of _ h))
    | inr first ↦ elim (Bool-cases (leb 3 (u32 (o.socket.dup_ack_count + 1)))) [
      | inl third ↦
          rw (first, third, duplicate_ack)
            (resend_first-IsKept env o.socket.unacked _ (sent_kept _ (IsKept-of _ h)))
      | inr less ↦ rw (first, less, duplicate_ack) (sent_kept _ (IsKept-of _ h))
    ]
  ]

  pub process_ack-IsKept :
      (env : Env) (ack : ℕ) (o : Sent) → IsSentKept o → IsSentKept (process_ack env ack o)
  unfolding process_ack
  process_ack-IsKept env ack o h =
      if-both IsSentKept (ltb o.socket.last_ack_sent ack || behind_first ack o.socket.unacked) _ _
        (sent_kept _ (new_ack-IsKept env ack o.socket (IsKept-of _ h)))
        (if-both IsSentKept (ack == o.socket.last_ack_sent) _ _ (duplicate_ack-IsKept env o h) h)
