-- ===== src/Recovered/Net/Tcp/Bytes.antt =====
-- The bytes of a segment, written by net_tcp_send_packet of recovered/net/src/tcp.c and read by net_tcp_rx.
use spirit_fox_os.Prelude.{
  ℕ, zero, suc, ◌-◌, ◌^◌, ◌<◌, ◌≤◌, ◌≡◌, refl, ap, ◌∙◌, true, List, [], ◌∷◌, ◌++◌, length, get_or,
  take, arith, if◌then◌else◌, ltb,
}
use spirit_fox_os.Recovered.Net.Socket.{Socket}
use spirit_fox_os.Recovered.Net.Rings.{net_buf_size}
use spirit_fox_os.Recovered.Net.Tcp.{Env}
use spirit_fox_os.Recovered.Net.Segments.{tcp_packet, read16, read32}
use spirit_fox_os.Recovered.Net.Tcp.Receive.{Input, read_segment, memory_from}

-- The fields of a socket that a header holds fit.
pub record Fits (s : Socket) : Type 0 where
  pub local_lem : s.local_port < 2 ^ 16
  pub remote_lem : s.remote_port < 2 ^ 16
  pub ack_lem : s.ack_num < 2 ^ 32

memory_from-shift :
    (env : Env) (x : ℕ) (xs : List ℕ) (i n : ℕ)
    → memory_from env (x ∷ xs) (suc i) n ≡ memory_from env xs i n
unfolding memory_from
memory_from-shift env x xs i zero = refl
memory_from-shift env x xs i (suc n) =
    let less : ltb (suc i) (suc (length xs)) ≡ ltb i (length xs) = ground arith in
    let far : suc i - suc (length xs) ≡ i - length xs = omega arith in
    rw (less, far)
      (ap (◌∷◌ (if ltb i (length xs) then get_or xs i 0 else env.behind (i - length xs)))
        (memory_from-shift env x xs (suc i) n))

pub memory_from-whole :
    (env : Env) (bytes : List ℕ) → memory_from env bytes 0 (length bytes) ≡ bytes
unfolding memory_from
memory_from-whole env [] = refl
memory_from-whole env (b ∷ bytes) =
    let first : ltb 0 (suc (length bytes)) ≡ true = ground arith in
    rw first
      (ap (◌∷◌ b) (memory_from-shift env b bytes 0 (length bytes) ∙ memory_from-whole env bytes))

-- The bytes behind the header.
pub memory_from-header :
    (env : Env) (header bytes : List ℕ) (n : ℕ)
    → memory_from env (header ++ bytes) (length header) n ≡ memory_from env bytes 0 n
memory_from-header env [] bytes n = refl
memory_from-header env (x ∷ header) bytes n =
    memory_from-shift env x (header ++ bytes) (length header) n
    ∙ memory_from-header env header bytes n

-- What was read is what the packet was built of.
pub record IsReadBack (s : Socket) (seq flags : ℕ) (payload : List ℕ) (segment : List ℕ) (p : Input)
    : Type 0 where
  pub src_port : read16 segment 0 ≡ s.local_port
  pub dst_port : read16 segment 2 ≡ s.remote_port
  pub seq_lem : p.seq ≡ seq
  pub ack_lem : p.ack ≡ s.ack_num
  pub flags_lem : p.flags ≡ flags
  pub len_lem : p.payload_len ≡ length payload
  pub payload_lem : p.payload ≡ payload

-- For a socket whose ports and acknowledgment number fit their fields and at most 4096 bytes: net_tcp_rx
-- reads in the segment that net_tcp_send_packet builds the same ports, numbers, flags and bytes.
pub read_segment-tcp_packet :
    (env : Env) (s : Socket) (seq flags : ℕ) (payload : List ℕ)
    → Fits s
    → seq < 2 ^ 32
    → flags < 2 ^ 8
    → length payload ≤ net_buf_size
    → IsReadBack s seq flags payload
        (tcp_packet s seq flags payload).segment
        (read_segment env (tcp_packet s seq flags payload).segment)
unfolding read_segment tcp_packet read16 read32
read_segment-tcp_packet env s seq flags payload fits lt flt le = record {
  src_port = omega (arith, fits.local_lem);
  dst_port = omega (arith, fits.remote_lem);
  seq_lem = omega (arith, lt);
  ack_lem = omega (arith, fits.ack_lem);
  flags_lem = omega (arith, flt);
  len_lem = omega (arith, le);
  payload_lem =
      ap (memory_from env (tcp_packet s seq flags payload).segment 20) (ground (arith, le))
      ∙ memory_from-header env (take 20 (tcp_packet s seq flags payload).segment) payload
          (length payload)
      ∙ memory_from-whole env payload;
}
