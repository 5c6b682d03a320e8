-- ===== src/Recovered/Net/Udp/Datagrams.antt =====
-- The datagrams of recovered/net/src/udp.c in the ring of their socket, and what net_recvfrom makes of them.
use mathlib.Core.List.{append_assoc}
use spirit_fox_os.Prelude.{
  ℕ, zero, suc, ◌+◌, ◌^◌, ◌<◌, ◌≤◌, ◌≡◌, refl, ap, sym, ◌∙◌, false, ltb, if◌then◌else◌, List, [],
  ◌∷◌, ◌++◌, length, take, drop, arith, min, Option, some,
}
use spirit_fox_os.Recovered.Net.Rings.{Ring, net_buf_size, net_rx_buffer_write, net_rx_buffer_read}
use spirit_fox_os.Recovered.Net.Rings.Buffer.{RingOk, waiting, bytes_from}
use spirit_fox_os.Recovered.Net.Rings.Queue.{
  IsWrite, net_rx_buffer_write-IsWrite, IsRead, net_rx_buffer_read-IsRead, length-waiting,
}
use spirit_fox_os.Recovered.Net.Udp.{
  Datagram, meta_bytes, meta_ip, meta_port, store_datagram, net_recvfrom,
}

take-length : (xs : List ℕ) → take (length xs) xs ≡ xs
take-length [] = refl
take-length (x ∷ xs) = ap (◌∷◌ x) (take-length xs)

-- The first `n` bytes of a queue are those that were read of it.
take-front : (n : ℕ) (xs ys : List ℕ) → length xs ≡ n → take n (xs ++ ys) ≡ xs
take-front zero [] ys e = refl
take-front zero (x ∷ xs) ys e = absurd (omega (arith, e))
take-front (suc n) [] ys e = absurd (omega (arith, e))
take-front (suc n) (x ∷ xs) ys e = ap (◌∷◌ x) (take-front n xs ys (omega (arith, e)))

drop-front : (n : ℕ) (xs ys : List ℕ) → length xs ≡ n → drop n (xs ++ ys) ≡ ys
drop-front zero [] ys e = refl
drop-front zero (x ∷ xs) ys e = absurd (omega (arith, e))
drop-front (suc n) [] ys e = absurd (omega (arith, e))
drop-front (suc n) (x ∷ xs) ys e = drop-front n xs ys (omega (arith, e))

length-append : (xs ys : List ℕ) → length (xs ++ ys) ≡ length xs + length ys
length-append [] ys = omega arith
length-append (x ∷ xs) ys = ap suc (length-append xs ys) ∙ omega arith

-- A read of a queue, in terms of what waited.
read-take :
    (r : Ring) (len : ℕ) (h : RingOk r)
    → ((net_rx_buffer_read r len).0 ≡ take (min len r.count) (waiting r))
      × (waiting (net_rx_buffer_read r len).1 ≡ drop (min len r.count) (waiting r))
read-take r len h =
    let q : IsRead r len (net_rx_buffer_read r len) = net_rx_buffer_read-IsRead r len h in
    rw q.content (
      sym (
          take-front (min len r.count) (net_rx_buffer_read r len).0
            (waiting (net_rx_buffer_read r len).1) q.count_lem),
      sym (
          drop-front (min len r.count) (net_rx_buffer_read r len).0
            (waiting (net_rx_buffer_read r len).1) q.count_lem),
    )

take-min : (n : ℕ) (xs : List ℕ) → take (min n (length xs)) xs ≡ take n xs
take-min zero xs = let e : min 0 (length xs) ≡ 0 = ground arith in rw e refl
take-min (suc n) [] = let e : min (suc n) 0 ≡ 0 = ground arith in rw e refl
take-min (suc n) (x ∷ xs) =
    let e : min (suc n) (suc (length xs)) ≡ suc (min n (length xs)) = ground arith in
    rw e (ap (◌∷◌ x) (take-min n xs))

drop-min : (n : ℕ) (xs : List ℕ) → drop (min n (length xs)) xs ≡ drop n xs
drop-min zero xs = let e : min 0 (length xs) ≡ 0 = ground arith in rw e refl
drop-min (suc n) [] = let e : min (suc n) 0 ≡ 0 = ground arith in rw e refl
drop-min (suc n) (x ∷ xs) =
    let e : min (suc n) (suc (length xs)) ≡ suc (min n (length xs)) = ground arith in
    rw e (drop-min n xs)

take-all : (n : ℕ) (xs : List ℕ) → length xs ≤ n → take n xs ≡ xs
take-all zero [] le = refl
take-all zero (x ∷ xs) le = absurd (omega arith)
take-all (suc n) [] le = refl
take-all (suc n) (x ∷ xs) le = ap (◌∷◌ x) (take-all n xs (omega arith))

-- A write that fits.
write-all :
    (r : Ring) (bytes : List ℕ)
    → RingOk r
    → r.count + length bytes ≤ net_buf_size
    → RingOk (net_rx_buffer_write r bytes).0
      × (waiting (net_rx_buffer_write r bytes).0 ≡ waiting r ++ bytes)
      × ((net_rx_buffer_write r bytes).0.count ≡ r.count + length bytes)
write-all r bytes h room =
    let w : IsWrite r bytes (net_rx_buffer_write r bytes) = net_rx_buffer_write-IsWrite r bytes h in
    let n : (net_rx_buffer_write r bytes).1 ≡ length bytes = w.count_lem ∙ ground (arith, room) in
    let all : waiting (net_rx_buffer_write r bytes).0 ≡ waiting r ++ bytes =
      rw (n, take-length bytes) at w.content in
    (
      w.ok,
      all,
      sym (length-waiting (net_rx_buffer_write r bytes).0)
          ∙ ap length all
          ∙ length-append (waiting r) bytes
          ∙ ap (λ c. c + length bytes) (length-waiting r),
    )

-- A datagram for which there is room waits behind the others, its sender in front of it.
pub store_datagram-waiting :
    (r : Ring) (meta payload : List ℕ)
    → RingOk r
    → r.count + length meta + length payload ≤ net_buf_size
    → RingOk (store_datagram meta payload r)
      × (waiting (store_datagram meta payload r) ≡ waiting r ++ (meta ++ payload))
unfolding store_datagram
store_datagram-waiting r meta payload h room =
    let (ok, e, count_lem) = write-all r meta h (omega (arith, room)) in
    let (ok', e', count_lem') =
      write-all (net_rx_buffer_write r meta).0 payload ok (rw count_lem room) in
    (ok', e' ∙ ap (λ xs. xs ++ payload) e ∙ append_assoc (waiting r) meta payload)

meta_ip_lem :
    (src_ip src_port : ℕ) → src_ip < 2 ^ 32 → meta_ip (meta_bytes src_ip src_port) ≡ src_ip
meta_ip_lem src_ip src_port lt = omega (arith, lt)

meta_port_lem :
    (src_ip src_port : ℕ) → src_port < 2 ^ 16 → meta_port (meta_bytes src_ip src_port) ≡ src_port
meta_port_lem src_ip src_port lt = omega (arith, lt)

-- What net_recvfrom leaves when the sender and `rest` wait.
pub record IsTaken (src_ip src_port : ℕ) (rest : List ℕ) (len : ℕ) (res : Option Datagram × Ring)
    : Type 0 where
  pub ok : RingOk res.1
  pub datagram :
      res.0 ≡ some (record { bytes = take len rest; src_ip = src_ip; src_port = src_port })
  pub left : waiting res.1 ≡ drop len rest

-- net_recvfrom returns the sender that waits in front and, of all bytes behind it, as many as are asked for:
-- it does not know where the datagram ends, so with a large buffer those of later datagrams come too, their
-- senders among them; with a small one the next call takes the rest of this datagram for a sender.
pub net_recvfrom-IsTaken :
    (r : Ring) (src_ip src_port : ℕ) (rest : List ℕ) (len : ℕ)
    → RingOk r
    → waiting r ≡ meta_bytes src_ip src_port ++ rest
    → src_ip < 2 ^ 32
    → src_port < 2 ^ 16
    → IsTaken src_ip src_port rest len (net_recvfrom len r)
unfolding net_recvfrom
net_recvfrom-IsTaken r src_ip src_port rest len h e ip_lt port_lt =
    let count_lem : r.count ≡ 6 + length rest =
      sym (length-waiting r) ∙ ap length e ∙ omega arith in
    let enough : ltb r.count 6 ≡ false = rw count_lem (ground arith) in
    let six : min 6 r.count ≡ 6 = rw count_lem (ground arith) in
    let (front, behind) = read-take r 6 h in
    let meta_lem : (net_rx_buffer_read r 6).0 ≡ meta_bytes src_ip src_port =
      front ∙ rw (six, e) refl in
    let r1 : Ring = (net_rx_buffer_read r 6).1 in
    let rest_lem : waiting r1 ≡ rest = behind ∙ rw (six, e) refl in
    let ok1 : RingOk r1 = (net_rx_buffer_read-IsRead r 6 h).ok in
    let count1 : r1.count ≡ length rest = sym (length-waiting r1) ∙ ap length rest_lem in
    let to_read : ℕ = if ltb len r1.count then len else r1.count in
    let all : min to_read r1.count ≡ min len (length rest) = rw count1 (ground arith) in
    let (bytes_lem, left_lem) = read-take r1 to_read ok1 in
    let ip_lem : meta_ip (net_rx_buffer_read r 6).0 ≡ src_ip =
      ap meta_ip meta_lem ∙ meta_ip_lem src_ip src_port ip_lt in
    let port_lem : meta_port (net_rx_buffer_read r 6).0 ≡ src_port =
      ap meta_port meta_lem ∙ meta_port_lem src_ip src_port port_lt in
    let first : (net_rx_buffer_read r1 to_read).0 ≡ take len rest =
      bytes_lem ∙ rw (all, rest_lem) (take-min len rest) in
    rw (net_recvfrom, enough)
      (record {
        ok = (net_rx_buffer_read-IsRead r1 to_read ok1).ok;
        datagram = λ i. some (record { bytes = first i; src_ip = ip_lem i; src_port = port_lem i });
        left = left_lem ∙ rw (all, rest_lem) (drop-min len rest);
      })

-- A datagram that finds the ring empty and fits, and is asked for whole, is returned as it was sent.
pub net_recvfrom-store_datagram :
    (r : Ring) (src_ip src_port : ℕ) (payload : List ℕ) (len : ℕ)
    → RingOk r
    → r.count ≡ 0
    → length payload + 6 ≤ net_buf_size
    → length payload ≤ len
    → src_ip < 2 ^ 32
    → src_port < 2 ^ 16
    → (net_recvfrom len (store_datagram (meta_bytes src_ip src_port) payload r)).0
      ≡ some (record { bytes = payload; src_ip = src_ip; src_port = src_port })
unfolding waiting bytes_from
net_recvfrom-store_datagram r src_ip src_port payload len h none_wait room le ip_lt port_lt =
    let empty : waiting r ≡ [] = rw none_wait refl in
    let (ok, e) =
      store_datagram-waiting r (meta_bytes src_ip src_port) payload h
        (rw none_wait (omega (arith, room))) in
    let t =
      net_recvfrom-IsTaken (store_datagram (meta_bytes src_ip src_port) payload r) src_ip src_port
        payload len ok (rw empty at e) ip_lt port_lt in
    t.datagram
    ∙ ap (λ bytes. some (record { bytes = bytes; src_ip = src_ip; src_port = src_port }))
        (take-all len payload le)
