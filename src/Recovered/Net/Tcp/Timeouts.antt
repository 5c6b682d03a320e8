-- ===== src/Recovered/Net/Tcp/Timeouts.antt =====
-- The retransmission timeouts of recovered/net/src/tcp.c.
use spirit_fox_os.Prelude.{
  ℕ, ◌+◌, ◌<◌, ◌≤◌, ◌≡◌, refl, true, false, ltb, leb, ◌&&◌, List, [], ◌∷◌, length, arith, if-both,
  Bool-cases, inl, inr, ◌⊎◌, ap, subst, sym, ◌∙◌,
}
use spirit_fox_os.Recovered.Net.Socket.{TcpState, Socket, Segment}
use spirit_fox_os.Recovered.Net.Rings.{u32}
use spirit_fox_os.Recovered.Net.Tcp.{Env, Sent, update, max_retries, tcp_unacked_free}
use spirit_fox_os.Recovered.Net.Tcp.Tick.{
  on_timeout, give_up, retransmit, is_time_wait, expire_time_wait, after_timeout, tick_socket,
}
use spirit_fox_os.Recovered.Net.Tcp.Sound.{IsSound, IsSentSound, sound}

-- The state and the soundness after a tick.
unfoldable pub IsTicked : TcpState → Sent → Type 0
IsTicked st o = IsSound st o.socket ⊎ IsSound TcpState.closed o.socket

expire_time_wait-IsTicked :
    (st : TcpState) (env : Env) (o : Sent)
    → IsSound st o.socket
    → IsTicked st (update (expire_time_wait env) o)
unfolding IsTicked expire_time_wait tcp_unacked_free
expire_time_wait-IsTicked st env o (e, low, high, ring) =
    elim (Bool-cases (
      is_time_wait o.socket.state
      && (ltb 0 o.socket.time_wait_expire && leb o.socket.time_wait_expire env.now))) [
        | inl over ↦ rw (over, expire_time_wait) (inr (refl, low, high, ring))
        | inr waits ↦ rw (waits, expire_time_wait) (inl (e, low, high, ring))
      ]

-- The two ends of a timeout.
timeout-give_up :
    (env : Env) (seg : Segment) (segs : List Segment) (o : Sent)
    → ltb max_retries (u32 (o.socket.retransmit_count + 1)) ≡ true
    → after_timeout env (on_timeout env (seg ∷ segs) o) ≡ give_up o
unfolding after_timeout on_timeout
timeout-give_up env seg segs o e =
    let stop : on_timeout env (seg ∷ segs) o ≡ (give_up o, false) = rw (on_timeout, e) refl in
    ap (after_timeout env) stop

timeout-retransmit :
    (env : Env) (seg : Segment) (segs : List Segment) (o : Sent)
    → ltb max_retries (u32 (o.socket.retransmit_count + 1)) ≡ false
    → after_timeout env (on_timeout env (seg ∷ segs) o)
      ≡ update (expire_time_wait env) (retransmit env seg o)
unfolding after_timeout on_timeout
timeout-retransmit env seg segs o e =
    let again : on_timeout env (seg ∷ segs) o ≡ (retransmit env seg o, true) =
      rw (on_timeout, e) refl in
    ap (after_timeout env) again

after_timeout-IsTicked :
    (st : TcpState) (env : Env) (segs : List Segment) (o : Sent)
    → IsSentSound st o
    → IsTicked st (after_timeout env (on_timeout env segs o))
unfolding on_timeout after_timeout give_up retransmit tcp_unacked_free IsTicked
after_timeout-IsTicked st env [] o h =
    expire_time_wait-IsTicked st env (update (λ s. record s { retransmit_timer = 0 }) o)
      (sound st o h)
after_timeout-IsTicked st env (seg ∷ segs) o h =
    let (e, low, high, ring) = sound st o h in
    elim (Bool-cases (ltb max_retries (u32 (o.socket.retransmit_count + 1)))) [
      | inl e' ↦
          subst (IsTicked st) (sym (timeout-give_up env seg segs o e'))
            (inr (refl, low, high, ring))
      | inr e' ↦ subst (IsTicked st) (sym (timeout-retransmit env seg segs o e')) (
          expire_time_wait-IsTicked st env (retransmit env seg o)
            (e, ground arith, ground arith, ring))
    ]

-- A tick leaves the state as it is or closes the socket; the timeout, also when it was doubled, is between
-- 200 ms and 60 s, and the ring in order.
pub tick_socket-IsTicked :
    (st : TcpState) (env : Env) (o : Sent) → IsSentSound st o → IsTicked st (tick_socket env o)
unfolding tick_socket
tick_socket-IsTicked st env o h =
    if-both (IsTicked st) (ltb 0 o.socket.retransmit_timer && leb o.socket.retransmit_timer env.now)
      _ _ (after_timeout-IsTicked st env o.socket.unacked o h)
      (expire_time_wait-IsTicked st env o (sound st o h))

-- The timer has run out.
unfoldable pub IsDue : Env → Socket → Type 0
IsDue env s = (0 < s.retransmit_timer) × (s.retransmit_timer ≤ env.now)

-- Ticks without a segment between them.
unfoldable pub ticks : List Env → Sent → Sent
ticks [] o = o
ticks (env ∷ envs) o = ticks envs (tick_socket env o)

unfoldable pub AllDue : List Env → Sent → Type 0
AllDue [] o = Unit
AllDue (env ∷ envs) o = IsDue env o.socket × AllDue envs (tick_socket env o)

-- A connection with a segment that waits for its acknowledgment.
pub record Waits (count : ℕ) (o : Sent) : Type 0 where
  pub first : Segment
  pub others : List Segment
  pub unacked_lem : o.socket.unacked ≡ first ∷ others
  pub count_lem : o.socket.retransmit_count ≡ count
  pub running : is_time_wait o.socket.state ≡ false

tick_socket-due :
    (env : Env) (o : Sent) (count : ℕ)
    → IsDue env o.socket
    → (w : Waits count o)
    → tick_socket env o ≡ after_timeout env (on_timeout env (w.first ∷ w.others) o)
unfolding tick_socket IsDue
tick_socket-due env o count (positive, passed) w =
    let due : (ltb 0 o.socket.retransmit_timer && leb o.socket.retransmit_timer env.now) ≡ true =
      ground (arith, positive, passed) in
    rw (tick_socket, due) (ap (λ xs. after_timeout env (on_timeout env xs o)) w.unacked_lem)

-- Below the limit the first segment goes out again and the count grows.
timeout-Waits :
    (env : Env) (o : Sent) (count : ℕ)
    → (w : Waits count o) → count < max_retries
    → Waits (count + 1) (after_timeout env (on_timeout env (w.first ∷ w.others) o))
unfolding retransmit expire_time_wait
timeout-Waits env o count w lt =
    let again : ltb max_retries (u32 (o.socket.retransmit_count + 1)) ≡ false =
      rw w.count_lem (ground (arith, lt)) in
    let runs : (is_time_wait o.socket.state
          && (ltb 0 o.socket.time_wait_expire && leb o.socket.time_wait_expire env.now))
        ≡ false =
      rw w.running refl in
    subst (Waits (count + 1)) (sym (timeout-retransmit env w.first w.others o again)) (
      rw (runs, expire_time_wait)
        (record {
          first = w.first;
          others = w.others;
          unacked_lem = w.unacked_lem;
          count_lem = rw w.count_lem (omega (arith, lt));
          running = w.running;
        }))

tick_socket-Waits :
    (env : Env) (o : Sent) (count : ℕ)
    → IsDue env o.socket
    → Waits count o
    → count < max_retries
    → Waits (count + 1) (tick_socket env o)
tick_socket-Waits env o count due w lt =
    subst (Waits (count + 1)) (sym (tick_socket-due env o count due w))
      (timeout-Waits env o count w lt)

-- The socket is closed, and no segment is kept.
pub IsOver : Sent → Type 0
IsOver o = (o.socket.state ≡ TcpState.closed) × (o.socket.unacked ≡ [])

-- At the limit the connection is given up.
tick_socket-IsOver :
    (env : Env) (o : Sent) → IsDue env o.socket → Waits max_retries o → IsOver (tick_socket env o)
unfolding give_up tcp_unacked_free IsOver
tick_socket-IsOver env o due w =
    let given_up : ltb max_retries (u32 (o.socket.retransmit_count + 1)) ≡ true =
      rw w.count_lem (ground arith) in
    subst IsOver
      (sym
        (tick_socket-due env o max_retries due w ∙ timeout-give_up env w.first w.others o given_up))
      (refl, refl)

-- A connection whose peer is silent is closed: with `count` timeouts behind it, the next `6 - count` end it,
-- and no segment is kept.
pub ticks-IsOver :
    (envs : List Env) (o : Sent) (count : ℕ)
    → Waits count o
    → AllDue envs o
    → count + length envs ≡ max_retries + 1
    → count ≤ max_retries
    → IsOver (ticks envs o)
unfolding ticks AllDue
ticks-IsOver [] o count w due e le = absurd (omega arith)
ticks-IsOver (env ∷ []) o count w (due, rest) e le =
    let last : count ≡ max_retries = omega arith in
    tick_socket-IsOver env o due (subst (λ n. Waits n o) last w)
ticks-IsOver (env ∷ env' ∷ envs) o count w (due, rest) e le =
    ticks-IsOver (env' ∷ envs) (tick_socket env o) (count + 1)
      (tick_socket-Waits env o count due w (omega arith)) rest (omega arith) (omega arith)
