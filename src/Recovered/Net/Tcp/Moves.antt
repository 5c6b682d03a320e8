-- ===== src/Recovered/Net/Tcp/Moves.antt =====
-- The states of a connection in recovered/net/src/tcp.c: what a segment and a tick make of them.
use spirit_fox_os.Prelude.{
  ◌+◌, ◌≡◌, refl, ltb, ◌&&◌, if◌then◌else◌, arith, if-both, if-cases, Bool-cases, inl, inr, ℕ,
  false, true,
}
use spirit_fox_os.Recovered.Net.Socket.{TcpState}
use spirit_fox_os.Recovered.Net.Tcp.{Env, Sent, tcp_unacked_free}
use spirit_fox_os.Recovered.Net.Segments.{has, flag_fin, flag_syn, flag_rst, flag_ack}
use spirit_fox_os.Recovered.Net.Tcp.Receive.{
  Input, expect, send_flags, acknowledge_fin, enter_time_wait, rx_syn_sent, rx_syn_received,
  process_fin, rx_established, rx_fin_wait_1, rx_fin_wait_2, rx_closing, rx_late_fin, rx_last_ack,
  rx_matched, store_payload,
}
use spirit_fox_os.Recovered.Net.Tcp.Sound.{
  IsSound, IsSentSound, sent, sound, send_flags-IsSound, acknowledge_fin-IsSound,
  process_ack-IsSound, process_data-IsSound, store_payload-IsSound,
}

-- The flags of a segment that are set, and those that are not.
abbrev pub Set : Input → ℕ → Type 0
Set p flag = has p.flags flag ≡ true

abbrev pub Unset : Input → ℕ → Type 0
Unset p flag = has p.flags flag ≡ false

-- A segment that asks for no move in this state.
abbrev pub IsQuiet : Input → TcpState → Type 0
IsQuiet p TcpState.syn_sent =
    (has p.flags flag_syn && has p.flags flag_ack) ≡ false × Unset p flag_rst
IsQuiet p TcpState.syn_received = Unset p flag_ack × Unset p flag_rst
IsQuiet p TcpState.established = Unset p flag_rst × Unset p flag_fin
IsQuiet p TcpState.fin_wait_1 = Unset p flag_ack × Unset p flag_fin
IsQuiet p TcpState.fin_wait_2 = Unset p flag_fin
IsQuiet p TcpState.closing = Unset p flag_ack
IsQuiet p TcpState.last_ack = Unset p flag_ack
IsQuiet p TcpState.close_wait = Unit
IsQuiet p TcpState.time_wait = Unit
IsQuiet p TcpState.closed = Unit
IsQuiet p TcpState.listen = Unit

-- The moves between states that the segment causes: those of the protocol's diagram, each under the
-- flags that call for it, and none when no flag does.
pub data Moves (p : Input) : TcpState → TcpState → Type 0 where
  stays : {st : TcpState} → IsQuiet p st → Moves p st st
  opened : Set p flag_syn → Set p flag_ack → Moves p TcpState.syn_sent TcpState.established
  refused :
      (has p.flags flag_syn && has p.flags flag_ack) ≡ false
      → Set p flag_rst
      → Moves p TcpState.syn_sent TcpState.closed
  accepted : Set p flag_ack → Moves p TcpState.syn_received TcpState.established
  aborted : Unset p flag_ack → Set p flag_rst → Moves p TcpState.syn_received TcpState.closed
  reset : Set p flag_rst → Moves p TcpState.established TcpState.closed
  peer_closed : Unset p flag_rst → Set p flag_fin → Moves p TcpState.established TcpState.close_wait
  fin_acked : Set p flag_ack → Unset p flag_fin → Moves p TcpState.fin_wait_1 TcpState.fin_wait_2
  fin_both : Set p flag_ack → Set p flag_fin → Moves p TcpState.fin_wait_1 TcpState.time_wait
  fin_crossed : Unset p flag_ack → Set p flag_fin → Moves p TcpState.fin_wait_1 TcpState.closing
  peer_finished : Set p flag_fin → Moves p TcpState.fin_wait_2 TcpState.time_wait
  crossed_acked : Set p flag_ack → Moves p TcpState.closing TcpState.time_wait
  last_acked : Set p flag_ack → Moves p TcpState.last_ack TcpState.closed

-- The segment has moved the socket from `st`, its timeout is within bounds and its ring in order.
unfoldable pub IsMoved : Input → TcpState → Sent → Type 0
IsMoved p st o = (st' : TcpState) × Moves p st st' × IsSound st' o.socket

moved :
    (p : Input) (st st' : TcpState) (o : Sent)
    → Moves p st st'
    → IsSound st' o.socket
    → IsMoved p st o
unfolding IsMoved
moved p st st' o m h = (st', m, h)

kept : (p : Input) (st : TcpState) (o : Sent) → IsQuiet p st → IsSentSound st o → IsMoved p st o
kept p st o q h = moved p st st o (Moves.stays q) (sound st o h)

-- The state is set on the way.
becomes :
    (p : Input) (st st' : TcpState) (o o' : Sent)
    → Moves p st st'
    → IsSentSound st o
    → o'.socket.state ≡ st'
    → o'.socket.rto ≡ o.socket.rto
    → o'.socket.rx ≡ o.socket.rx
    → IsMoved p st o'
becomes p st st' o o' m h e same_rto same_rx =
    let (was, low, high, ring) = sound st o h in
    moved p st st' o' m (e, rw same_rto low, rw same_rto high, rw same_rx ring)

rx_syn_sent-IsMoved :
    (env : Env) (p : Input) (o : Sent)
    → IsSentSound TcpState.syn_sent o
    → IsMoved p TcpState.syn_sent (rx_syn_sent env p o)
unfolding rx_syn_sent
rx_syn_sent-IsMoved env p o h =
    if-cases (IsMoved p TcpState.syn_sent) (has p.flags flag_syn && has p.flags flag_ack) _ _
      (λ both.
        let (e, low, high, ring) = sound TcpState.syn_sent _ (
          send_flags-IsSound TcpState.syn_sent env flag_ack (expect (p.seq + 1) o)
            (sent TcpState.syn_sent _ (sound TcpState.syn_sent o h))) in
        moved p TcpState.syn_sent TcpState.established _
          (Moves.opened (ground (arith, both)) (ground (arith, both)))
          (refl, omega arith, omega arith, ring))
      (λ not_both.
        if-cases (IsMoved p TcpState.syn_sent) (has p.flags flag_rst) _ _
          (λ rst.
            becomes p TcpState.syn_sent TcpState.closed o _ (Moves.refused not_both rst) h refl refl
              refl)
          (λ no_rst. kept p TcpState.syn_sent o (not_both, no_rst) h))

rx_syn_received-IsMoved :
    (p : Input) (o : Sent)
    → IsSentSound TcpState.syn_received o
    → IsMoved p TcpState.syn_received (rx_syn_received p o)
unfolding rx_syn_received
rx_syn_received-IsMoved p o h =
    if-cases (IsMoved p TcpState.syn_received) (has p.flags flag_ack) _ _
      (λ ack.
        becomes p TcpState.syn_received TcpState.established o _ (Moves.accepted ack) h refl refl
          refl)
      (λ no_ack.
        if-cases (IsMoved p TcpState.syn_received) (has p.flags flag_rst) _ _
          (λ rst.
            becomes p TcpState.syn_received TcpState.closed o _ (Moves.aborted no_ack rst) h refl
              refl refl)
          (λ no_rst. kept p TcpState.syn_received o (no_ack, no_rst) h))

process_fin-IsMoved :
    (env : Env) (p : Input) (o : Sent)
    → Unset p flag_rst
    → IsSentSound TcpState.established o
    → IsMoved p TcpState.established (process_fin env p o)
unfolding process_fin
process_fin-IsMoved env p o no_rst h =
    if-cases (IsMoved p TcpState.established) (has p.flags flag_fin) _ _
      (λ fin.
        becomes p TcpState.established TcpState.close_wait _ _ (Moves.peer_closed no_rst fin)
          (send_flags-IsSound TcpState.established env flag_ack (expect (p.seq + 1) o)
            (sent TcpState.established _ (sound TcpState.established o h)))
          refl refl refl)
      (λ no_fin. kept p TcpState.established o (no_rst, no_fin) h)

rx_established-IsMoved :
    (env : Env) (p : Input) (o : Sent)
    → IsSentSound TcpState.established o
    → IsMoved p TcpState.established (rx_established env p o)
unfolding rx_established tcp_unacked_free
rx_established-IsMoved env p o h =
    if-cases (IsMoved p TcpState.established) (has p.flags flag_rst) _ _
      (λ rst. becomes p TcpState.established TcpState.closed o _ (Moves.reset rst) h refl refl refl)
      (λ no_rst. process_fin-IsMoved env p _ no_rst (
        process_data-IsSound TcpState.established env p _ (
          if-both (IsSentSound TcpState.established) (has p.flags flag_ack) _ _
            (process_ack-IsSound TcpState.established env p.ack o h) h)))

rx_fin_wait_1-IsMoved :
    (env : Env) (p : Input) (o : Sent)
    → IsSentSound TcpState.fin_wait_1 o
    → IsMoved p TcpState.fin_wait_1 (rx_fin_wait_1 env p o)
unfolding rx_fin_wait_1
rx_fin_wait_1-IsMoved env p o h =
    let acked : IsSentSound TcpState.fin_wait_1 (acknowledge_fin env p o) =
      acknowledge_fin-IsSound TcpState.fin_wait_1 env p o h in
    if-cases (IsMoved p TcpState.fin_wait_1) (has p.flags flag_ack) _ _
      (λ ack.
        if-cases (IsMoved p TcpState.fin_wait_1) (has p.flags flag_fin) _ _
          (λ fin.
            becomes p TcpState.fin_wait_1 TcpState.time_wait _ _ (Moves.fin_both ack fin) acked refl
              refl refl)
          (λ no_fin.
            becomes p TcpState.fin_wait_1 TcpState.fin_wait_2 o _ (Moves.fin_acked ack no_fin) h
              refl refl refl))
      (λ no_ack.
        if-cases (IsMoved p TcpState.fin_wait_1) (has p.flags flag_fin) _ _
          (λ fin.
            becomes p TcpState.fin_wait_1 TcpState.closing _ _ (Moves.fin_crossed no_ack fin) acked
              refl refl refl)
          (λ no_fin. kept p TcpState.fin_wait_1 o (no_ack, no_fin) h))

-- Data after the FIN is stored and acknowledged as well.
late_data :
    (env : Env) (p : Input) (st st' : TcpState) (o : Sent)
    → Moves p st st'
    → IsSentSound st' o
    → IsMoved p st (
        if ltb 0 p.payload_len
        then send_flags env flag_ack (expect (p.seq + p.payload_len) (store_payload p o))
        else o)
late_data env p st st' o m h =
    if-both (IsMoved p st) (ltb 0 p.payload_len) _ _
      (moved p st st' _ m (
        sound st' _ (
          send_flags-IsSound st' env flag_ack (expect (p.seq + p.payload_len) (store_payload p o))
            (sent st' _ (sound st' _ (store_payload-IsSound st' p o h))))))
      (moved p st st' o m (sound st' o h))

rx_fin_wait_2-IsMoved :
    (env : Env) (p : Input) (o : Sent)
    → IsSentSound TcpState.fin_wait_2 o
    → IsMoved p TcpState.fin_wait_2 (rx_fin_wait_2 env p o)
unfolding rx_fin_wait_2
rx_fin_wait_2-IsMoved env p o h =
    let (e, low, high, ring) =
      sound TcpState.fin_wait_2 _ (acknowledge_fin-IsSound TcpState.fin_wait_2 env p o h) in
    elim (Bool-cases (has p.flags flag_fin)) [
      | inl fin ↦
          rw (fin, rx_fin_wait_2)
            (late_data env p TcpState.fin_wait_2 TcpState.time_wait _ (Moves.peer_finished fin) (
              sent TcpState.time_wait (enter_time_wait env (acknowledge_fin env p o))
                (refl, low, high, ring)))
      | inr more ↦
          rw (more, rx_fin_wait_2)
            (late_data env p TcpState.fin_wait_2 TcpState.fin_wait_2 o (Moves.stays more) h)
    ]

rx_closing-IsMoved :
    (env : Env) (p : Input) (o : Sent)
    → IsSentSound TcpState.closing o
    → IsMoved p TcpState.closing (rx_closing env p o)
unfolding rx_closing
rx_closing-IsMoved env p o h =
    let (e, low, high, ring) = sound TcpState.closing o h in
    elim (Bool-cases (has p.flags flag_ack)) [
      | inl acked ↦
          rw (acked, rx_closing)
            (moved p TcpState.closing TcpState.time_wait _ (Moves.crossed_acked acked)
              (refl, low, high, ring))
      | inr other ↦
          rw (other, rx_closing)
            (moved p TcpState.closing TcpState.closing _ (Moves.stays other) (e, low, high, ring))
    ]

rx_last_ack-IsMoved :
    (p : Input) (o : Sent)
    → IsSentSound TcpState.last_ack o
    → IsMoved p TcpState.last_ack (rx_last_ack p o)
unfolding rx_last_ack tcp_unacked_free
rx_last_ack-IsMoved p o h =
    if-cases (IsMoved p TcpState.last_ack) (has p.flags flag_ack) _ _
      (λ ack.
        becomes p TcpState.last_ack TcpState.closed o _ (Moves.last_acked ack) h refl refl refl)
      (λ no_ack. kept p TcpState.last_ack o no_ack h)

rx_late_fin-IsMoved :
    (st : TcpState) (env : Env) (p : Input) (o : Sent)
    → IsQuiet p st
    → IsSentSound st o
    → IsMoved p st (rx_late_fin env p o)
rx_late_fin-IsMoved st env p o q h =
    if-both (IsMoved p st) (has p.flags flag_fin) _ _
      (kept p st _ q (send_flags-IsSound st env flag_ack o h)) (kept p st o q h)

pub rx_matched-IsMoved :
    (env : Env) (p : Input) (st : TcpState) (o : Sent)
    → IsSentSound st o
    → IsMoved p st (rx_matched env p st o)
unfolding rx_matched
rx_matched-IsMoved env p TcpState.syn_sent o h = rx_syn_sent-IsMoved env p o h
rx_matched-IsMoved env p TcpState.syn_received o h = rx_syn_received-IsMoved p o h
rx_matched-IsMoved env p TcpState.established o h = rx_established-IsMoved env p o h
rx_matched-IsMoved env p TcpState.fin_wait_1 o h = rx_fin_wait_1-IsMoved env p o h
rx_matched-IsMoved env p TcpState.fin_wait_2 o h = rx_fin_wait_2-IsMoved env p o h
rx_matched-IsMoved env p TcpState.closing o h = rx_closing-IsMoved env p o h
rx_matched-IsMoved env p TcpState.close_wait o h =
    rx_late_fin-IsMoved TcpState.close_wait env p o tt h
rx_matched-IsMoved env p TcpState.last_ack o h = rx_last_ack-IsMoved p o h
rx_matched-IsMoved env p TcpState.time_wait o h =
    rx_late_fin-IsMoved TcpState.time_wait env p o tt h
rx_matched-IsMoved env p TcpState.closed o h = kept p TcpState.closed o tt h
rx_matched-IsMoved env p TcpState.listen o h = kept p TcpState.listen o tt h
