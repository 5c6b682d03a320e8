-- ===== src/Recovered/Net/Stream/Sending.antt =====
-- net_send of recovered/net/src/socket.c: its loop ends, and what it sends.
use spirit_fox_os.Prelude.{
  ℕ, zero, suc, ◌+◌, ◌-◌, ◌^◌, ◌<◌, ◌≤◌, ◌≡◌, refl, ap, ◌∙◌, true, false, ltb, ◌==◌, List, [], ◌∷◌,
  length, take, drop, arith, Bool-cases, inl, inr, min, some, ◌&&◌,
}
use spirit_fox_os.Recovered.Net.Socket.{Socket}
use spirit_fox_os.Recovered.Net.Rings.{u32}
use spirit_fox_os.Recovered.Net.Tcp.{Env, Sent, net_tcp_send_packet}
use spirit_fox_os.Recovered.Net.Segments.{flag_psh, flag_ack}
use spirit_fox_os.Recovered.Net.Calls.{Result, is_unix, is_stream}
use spirit_fox_os.Recovered.Net.Stream.{
  can_send, send_window, chunk_size, send_chunks, queue_bytes, net_send,
}

length-drop : (n : ℕ) (xs : List ℕ) → length (drop n xs) ≡ length xs - n
length-drop zero xs = omega arith
length-drop (suc n) [] = omega arith
length-drop (suc n) (x ∷ xs) = length-drop n xs ∙ omega arith

length-take : (n : ℕ) (xs : List ℕ) → n ≤ length xs → length (take n xs) ≡ n
length-take zero xs le = refl
length-take (suc n) [] le = absurd (omega arith)
length-take (suc n) (x ∷ xs) le = ap suc (length-take n xs (omega arith))

-- What the loop leaves of `bytes`, and where the sequence number stands.
record IsChunked (bytes : List ℕ) (window : ℕ) (o : Sent) (r : List ℕ × Sent) : Type 0 where
  left : length r.0 ≡ length bytes - min (length bytes) window
  seq_lem : r.1.socket.seq_num ≡ u32 (o.socket.seq_num + min (length bytes) window)

small_seq : (n : ℕ) → n < 2 ^ 32 → n ≡ u32 (n + 0)
small_seq n lt = omega (arith, lt)

wrap : (s c m : ℕ) → u32 (u32 (s + 0 + c) + m) ≡ u32 (s + (c + m))
wrap s c m = omega arith

next_seq :
    (s c l w : ℕ) → c ≤ l → c ≤ w → u32 (u32 (s + 0 + c) + min (l - c) (w - c)) ≡ u32 (s + min l w)
next_seq s c l w le le' =
    let rest : min l w ≡ c + min (l - c) (w - c) = ground (arith, le, le') in
    rw rest (wrap s c (min (l - c) (w - c)))

send_chunks-IsChunked :
    (fuel : ℕ) (env : Env) (alloc : ℕ) (bytes : List ℕ) (window : ℕ) (o : Sent)
    → length bytes < fuel
    → o.socket.seq_num < 2 ^ 32
    → (r : List ℕ × Sent) × (send_chunks fuel env alloc bytes window o ≡ some r)
      × IsChunked bytes window o r
unfolding send_chunks net_tcp_send_packet
send_chunks-IsChunked zero env alloc bytes window o lt small = absurd (omega arith)
send_chunks-IsChunked (suc fuel) env alloc bytes window o lt small =
    elim (Bool-cases (ltb 0 (length bytes) && ltb 0 window)) [
      | inr stop ↦
          let nothing : min (length bytes) window ≡ 0 = ground (arith, stop) in
          rw (stop, send_chunks)
            (
              (bytes, o),
              refl,
              record {
                left = rw nothing (omega arith);
                seq_lem = rw nothing (small_seq o.socket.seq_num small);
              },
            )
      | inl more ↦
          let chunk : ℕ = chunk_size (length bytes) window in
          let positive : 0 < chunk = ground (arith, more) in
          let le : chunk ≤ length bytes = ground arith in
          let le' : chunk ≤ window = ground arith in
          let o' : Sent =
            net_tcp_send_packet env alloc (flag_psh + flag_ack) (take chunk bytes) o in
          let len : length (drop chunk bytes) ≡ length bytes - chunk = length-drop chunk bytes in
          let len' : length (take chunk bytes) ≡ chunk = length-take chunk bytes le in
          let (r, e, c) =
            send_chunks-IsChunked fuel env (alloc + 2) (drop chunk bytes) (window - chunk) o'
              (rw len (omega (arith, positive, le, lt))) (omega arith) in
          rw (more, send_chunks)
            (
              r,
              e,
              record {
                left = c.left ∙ rw len (ground (arith, le, le'));
                seq_lem =
                    c.seq_lem
                    ∙ rw (len, len') (next_seq o.socket.seq_num chunk (length bytes) window le le');
              },
            )
    ]

-- A socket that can send, with something to send.
pub record IsReady (bytes : List ℕ) (s : Socket) : Type 0 where
  pub inet : is_unix s ≡ false
  pub stream : is_stream s ≡ true
  pub running : can_send s.state ≡ true
  pub some_bytes : 0 < length bytes
  pub seq_small : s.seq_num < 2 ^ 32

-- The call reports at least what the window took and at most all the bytes; the sequence number counts what
-- the window took.
pub record IsSend (bytes : List ℕ) (s : Socket) (o' : Sent) (count : ℕ) : Type 0 where
  pub all : count ≤ length bytes
  pub window : min (length bytes) (send_window s) ≤ count
  pub seq_lem : o'.socket.seq_num ≡ u32 (s.seq_num + min (length bytes) (send_window s))

queue_bytes-le :
    (bytes : List ℕ) (s : Socket)
    → ((queue_bytes bytes s).1 ≤ length bytes) × ((queue_bytes bytes s).0.seq_num ≡ s.seq_num)
unfolding queue_bytes
queue_bytes-le bytes s = elim (Bool-cases (ltb 0 (length bytes) && ltb 0 (length s.tx.buffer))) [
  | inl queued ↦ rw (queued, queue_bytes) (ground arith, refl)
  | inr none_left ↦ rw (none_left, queue_bytes) (omega arith, refl)
]

-- net_send ends for each socket that can send and something to send: it reports at least what the window
-- takes and at most all the bytes, and the sequence number moves by just what the window takes.
pub net_send-IsSend :
    (env : Env) (bytes : List ℕ) (s : Socket)
    → IsReady bytes s
    → (o' : Sent) × (count : ℕ) × (net_send env bytes s ≡ some (o', Result.done count))
      × IsSend bytes s o' count
unfolding net_send
net_send-IsSend env bytes s ready =
    let o : Sent = record { socket = s; packets = [] } in
    let (r, e, c) =
      send_chunks-IsChunked (suc (length bytes)) env 0 bytes (send_window s) o (omega arith)
        ready.seq_small in
    let (le, same) = queue_bytes-le r.0 r.1.socket in
    let nonempty : (length bytes == 0) ≡ false = ground (arith, ready.some_bytes) in
    let kept : length r.0 ≤ length bytes = rw c.left (omega arith) in
    rw (ready.inet, ready.stream, ready.running, nonempty, net_send, e)
      (
        record r.1 { socket = (queue_bytes r.0 r.1.socket).0 },
        length bytes - length r.0 + (queue_bytes r.0 r.1.socket).1,
        refl,
        record {
          all = omega (arith, le, kept);
          window = rw c.left (ground (arith));
          seq_lem = same ∙ c.seq_lem;
        },
      )
