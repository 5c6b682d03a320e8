-- ===== src/Recovered/Net/Tcp/Established.antt =====
-- Data that arrives in order, in the state ESTABLISHED of recovered/net/src/tcp.c.
use spirit_fox_os.Prelude.{
  ℕ, ◌+◌, ◌-◌, ◌<◌, ◌≡◌, refl, true, false, ltb, ◌==◌, ◌++◌, length, take, arith, min, if-both, not,
  ◌&&◌, if◌then◌else◌, subst, sym, ◌∙◌,
}
use spirit_fox_os.Recovered.Net.Socket.{Socket}
use spirit_fox_os.Recovered.Net.Rings.{u32, net_buf_size, net_rx_buffer_write}
use spirit_fox_os.Recovered.Net.Rings.Buffer.{RingOk, waiting}
use spirit_fox_os.Recovered.Net.Rings.Queue.{IsWrite, net_rx_buffer_write-IsWrite}
use spirit_fox_os.Recovered.Net.Tcp.{Env, Sent, track, start_timer, net_tcp_send_packet, is_empty}
use spirit_fox_os.Recovered.Net.Segments.{has, flag_fin, flag_rst, flag_ack}
use spirit_fox_os.Recovered.Net.Tcp.Acks.{process_ack}
use spirit_fox_os.Recovered.Net.Tcp.Kept.{IsSentKept, sent_kept, IsKept-of, process_ack-IsKept}
use spirit_fox_os.Recovered.Net.Tcp.Receive.{
  Input, expect, send_flags, process_data, process_fin, store_payload, rx_established,
}

-- A segment with data in order and neither RST nor FIN; it may acknowledge or not.
pub record IsData (p : Input) (o : Sent) : Type 0 where
  pub no_rst : has p.flags flag_rst ≡ false
  pub no_fin : has p.flags flag_fin ≡ false
  pub some_data : 0 < p.payload_len
  pub in_order : p.seq ≡ o.socket.remote_seq

-- What is left: as much of the data as fits waits to be read; all of it is acknowledged.
pub record IsStored (p : Input) (o o' : Sent) : Type 0 where
  pub stored :
      waiting o'.socket.rx
      ≡ waiting o.socket.rx
        ++ take (min (length p.payload) (net_buf_size - o.socket.rx.count)) p.payload
  pub acknowledged : o'.socket.ack_num ≡ u32 (p.seq + p.payload_len)
  pub expected : o'.socket.remote_seq ≡ u32 (p.seq + p.payload_len)

-- Sending does not touch what a segment has stored.
IsSame : Socket → Socket → Type 0
IsSame s s' = (s'.rx ≡ s.rx) × (s'.ack_num ≡ s.ack_num) × (s'.remote_seq ≡ s.remote_seq)

start_timer-IsSame : (env : Env) (s : Socket) → IsSame s (start_timer env s)
unfolding start_timer IsSame
start_timer-IsSame env s =
    if-both (IsSame s) (not (is_empty s.unacked) && (s.retransmit_timer == 0)) _ _
      (refl, refl, refl) (refl, refl, refl)

send_flags-IsSame :
    (env : Env) (flags : ℕ) (o : Sent) → IsSame o.socket (send_flags env flags o).socket
unfolding net_tcp_send_packet track IsSame
send_flags-IsSame env flags o = start_timer-IsSame env o.socket

-- The data is stored, after the acknowledgment in the segment.
process_data-IsStored :
    (env : Env) (p : Input) (o : Sent)
    → RingOk o.socket.rx
    → 0 < p.payload_len
    → p.seq ≡ o.socket.remote_seq
    → IsStored p o (process_data env p o)
unfolding process_data IsSame
process_data-IsStored env p o ring some_data in_order =
    let w : IsWrite o.socket.rx p.payload (net_rx_buffer_write o.socket.rx p.payload) =
      net_rx_buffer_write-IsWrite o.socket.rx p.payload ring in
    let long : ltb 0 p.payload_len ≡ true = ground (arith, some_data) in
    let same : (p.seq == o.socket.remote_seq) ≡ true = ground (arith, in_order) in
    let (rx_lem, ack_lem, remote_lem) =
      send_flags-IsSame env flag_ack (expect (p.seq + p.payload_len) (store_payload p o)) in
    let content : waiting (net_rx_buffer_write o.socket.rx p.payload).0
        ≡ waiting o.socket.rx
          ++ take (min (length p.payload) (net_buf_size - o.socket.rx.count)) p.payload =
      rw w.count_lem at w.content in
    rw (long, same, process_data)
      (record { stored = rw rx_lem content; acknowledged = ack_lem; expected = remote_lem })

-- What is stored does not depend on the rest of the socket.
IsStored-same :
    (p : Input) (o o' o'' : Sent)
    → o'.socket.rx ≡ o.socket.rx
    → IsStored p o' o''
    → IsStored p o o''
IsStored-same p o o' o'' e h = record {
  stored =
      subst
        (λ r.
          waiting o''.socket.rx
          ≡ waiting r ++ take (min (length p.payload) (net_buf_size - r.count)) p.payload)
        e h.stored;
  acknowledged = h.acknowledged;
  expected = h.expected;
}

-- Of a segment with data in order and neither RST nor FIN, whether it acknowledges or not: as much as
-- the ring has room for is added behind the bytes that wait; the acknowledgment and the number expected
-- next cover all of it, also what found no room.
pub rx_established-IsStored :
    (env : Env) (p : Input) (o : Sent)
    → RingOk o.socket.rx
    → IsData p o
    → IsStored p o (rx_established env p o)
unfolding rx_established process_fin
rx_established-IsStored env p o ring d =
    let acked : Sent = if has p.flags flag_ack then process_ack env p.ack o else o in
    let (rx_lem, remote_lem) = IsKept-of o.socket acked (
      if-both (IsSentKept o.socket) (has p.flags flag_ack) _ _
        (process_ack-IsKept o.socket env p.ack o (sent_kept o.socket o (refl, refl)))
        (sent_kept o.socket o (refl, refl))) in
    rw (d.no_rst, d.no_fin, rx_established, process_fin)
      (IsStored-same p o acked (process_data env p acked) rx_lem (
        process_data-IsStored env p acked (subst RingOk (sym rx_lem) ring) d.some_data
          (d.in_order ∙ sym remote_lem)))
