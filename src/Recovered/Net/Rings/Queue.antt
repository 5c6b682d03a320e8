-- ===== src/Recovered/Net/Rings/Queue.antt =====
-- The receive ring of recovered/net/src/socket.c is a queue: bytes are added behind and taken in front.
use mathlib.Core.List.{append-nil}
use spirit_fox_os.Prelude.{
  ℕ, zero, suc, ◌+◌, ◌-◌, ◌%◌, ◌<◌, ◌≤◌, ◌≡◌, refl, sym, ap, ◌∙◌, true, false, ltb, ◌==◌, ◌||◌,
  if◌then◌else◌, List, [], ◌∷◌, ◌++◌, length, get_or, take, arith, Bool-cases, inl, inr, min,
}
use spirit_fox_os.Recovered.Net.Rings.{
  Ring, net_buf_size, write_bytes, read_bytes, net_rx_buffer_write, net_rx_buffer_read, sub32, u32,
}
use spirit_fox_os.Recovered.Net.Rings.Buffer.{
  RingOk, bytes_from, waiting, write_bytes-Written, Written, read_bytes-0,
}

length-take_le : (n : ℕ) (xs : List ℕ) → n ≤ length xs → length (take n xs) ≡ n
length-take_le zero xs le = refl
length-take_le (suc n) [] le = absurd (omega arith)
length-take_le (suc n) (x ∷ xs) le = ap suc (length-take_le n xs (omega arith))

-- What a write leaves: the ring is in order, the call returns what fitted, and just that many of the
-- bytes wait behind the others.
pub record IsWrite (r : Ring) (bytes : List ℕ) (res : Ring × ℕ) : Type 0 where
  pub ok : RingOk res.0
  pub count_lem : res.1 ≡ min (length bytes) (net_buf_size - r.count)
  pub content : waiting res.0 ≡ waiting r ++ take res.1 bytes

abbrev fit : ℕ → ℕ → ℕ
fit len avail = if ltb len avail then len else avail

fit-min :
    (r : Ring) (len : ℕ)
    → RingOk r
    → fit len (sub32 r.size r.count) ≡ min len (net_buf_size - r.count)
fit-min r len ok = rw ok.full_size (ground (arith, ok.bounded))

unwritten : (r : Ring) → RingOk r → IsWrite r [] (r, 0)
unfolding waiting
unwritten r ok = record {
  ok = ok;
  count_lem = ground arith;
  content = sym (append-nil (bytes_from r.buffer r.read_pos r.count));
}

written :
    (r : Ring) (bytes : List ℕ) (n : ℕ)
    → RingOk r
    → n ≡ min (length bytes) (net_buf_size - r.count)
    → IsWrite r bytes (record (write_bytes (take n bytes) r) { count = u32 (r.count + n) }, n)
unfolding waiting
written r bytes n ok e =
    let le : n ≤ length bytes = ground (arith, e) in
    let le' : r.count + n ≤ net_buf_size = ground (arith, e, ok.bounded) in
    let len : length (take n bytes) ≡ n = length-take_le n bytes le in
    let room : r.count + length (take n bytes) ≤ net_buf_size = rw len le' in
    let w : Written r r.count (take n bytes) (write_bytes (take n bytes) r) =
      write_bytes-Written (take n bytes) r r.count ok.full_size ok.array ok.inside ok.behind room in
    let small : u32 (r.count + n) ≡ r.count + n = omega (arith, le') in
    record {
      ok = record {
        full_size = w.same_size ∙ ok.full_size;
        array = w.array;
        inside = rw w.same_read ok.inside;
        behind = rw (small, w.same_read) (rw len at w.behind);
        bounded = rw small le';
      };
      count_lem = e;
      content = rw (small, w.same_read) (rw len at w.content);
    }

-- net_rx_buffer_write on a ring in order returns how many of the bytes fit; just these are added behind
-- the bytes that wait, and the ring is in order.
pub net_rx_buffer_write-IsWrite :
    (r : Ring) (bytes : List ℕ) → RingOk r → IsWrite r bytes (net_rx_buffer_write r bytes)
unfolding net_rx_buffer_write waiting
net_rx_buffer_write-IsWrite r [] ok = elim (Bool-cases (length r.buffer == 0)) [
  | inl e ↦ rw (e, net_rx_buffer_write) (unwritten r ok)
  | inr e ↦ rw (e, net_rx_buffer_write) (unwritten r ok)
]
net_rx_buffer_write-IsWrite r (b ∷ bytes) ok =
    let runs : (length r.buffer == 0 || (length (b ∷ bytes) == 0)) ≡ false =
      ground (arith, ok.array) in
    rw (runs, net_rx_buffer_write)
      (written r (b ∷ bytes) (fit (suc (length bytes)) (sub32 r.size r.count)) ok
        (fit-min r (suc (length bytes)) ok))

bytes_from-add :
    (buffer : List ℕ) (p a b : ℕ)
    → p < net_buf_size
    → bytes_from buffer p (a + b)
      ≡ bytes_from buffer p a ++ bytes_from buffer ((p + a) % net_buf_size) b
unfolding bytes_from
bytes_from-add buffer p zero b lt =
    let e : (p + 0) % net_buf_size ≡ p = omega arith in
    let e' : 0 + b ≡ b = omega arith in rw (e, e') refl
bytes_from-add buffer p (suc a) b lt =
    let e : suc a + b ≡ suc (a + b) = omega arith in
    let e' : ((p + 1) % net_buf_size + a) % net_buf_size ≡ (p + suc a) % net_buf_size =
      omega arith in
    rw e (
      ap (◌∷◌ (get_or buffer p 0))
        (rw e' at (bytes_from-add buffer ((p + 1) % net_buf_size) a b (omega arith))))

length-bytes_from : (buffer : List ℕ) (p n : ℕ) → length (bytes_from buffer p n) ≡ n
unfolding bytes_from
length-bytes_from buffer p zero = refl
length-bytes_from buffer p (suc n) = ap suc (length-bytes_from buffer ((p + 1) % net_buf_size) n)

-- The count is the number of bytes that wait.
pub length-waiting : (r : Ring) → length (waiting r) ≡ r.count
unfolding waiting
length-waiting r = length-bytes_from r.buffer r.read_pos r.count

read_bytes-1 :
    (n : ℕ) (r : Ring)
    → r.size ≡ net_buf_size
    → r.read_pos < net_buf_size
    → (read_bytes n r).1 ≡ record r { read_pos = (r.read_pos + n) % net_buf_size }
unfolding read_bytes
read_bytes-1 zero r size lt =
    let e : r.read_pos ≡ (r.read_pos + 0) % net_buf_size = omega arith in
    λ i. record r { read_pos = e i }
read_bytes-1 (suc n) r size lt =
    let lt' : (r.read_pos + 1) % r.size < net_buf_size = rw size (omega arith) in
    let e : ((r.read_pos + 1) % r.size + n) % net_buf_size ≡ (r.read_pos + suc n) % net_buf_size =
      rw size (omega arith) in
    read_bytes-1 n (record r { read_pos = (r.read_pos + 1) % r.size }) size lt'
    ∙ (λ i. record r { read_pos = e i })

-- What a read leaves.
pub record IsRead (r : Ring) (len : ℕ) (res : List ℕ × Ring) : Type 0 where
  pub ok : RingOk res.1
  pub count_lem : length res.0 ≡ min len r.count
  pub content : waiting r ≡ res.0 ++ waiting res.1

none_wait : (r : Ring) → RingOk r → (length r.buffer == 0 || (r.count == 0)) ≡ true → r.count ≡ 0
none_wait r ok e = ground (arith, rw ok.array at e)

no_read : (r : Ring) (len : ℕ) → RingOk r → r.count ≡ 0 → IsRead r len ([], r)
no_read r len ok e = record { ok = ok; count_lem = ground (arith, e); content = refl }

taken :
    (r : Ring) (len n : ℕ)
    → RingOk r
    → n ≡ min len r.count
    → IsRead r len ((read_bytes n r).0, record ((read_bytes n r).1) { count = r.count - n })
unfolding waiting
taken r len n ok e =
    let le : n ≤ r.count = ground (arith, e) in
    let bytes : (read_bytes n r).0 ≡ bytes_from r.buffer r.read_pos n =
      read_bytes-0 n r ok.full_size in
    let after : (read_bytes n r).1 ≡ record r { read_pos = (r.read_pos + n) % net_buf_size } =
      read_bytes-1 n r ok.full_size ok.inside in
    let split : n + (r.count - n) ≡ r.count = omega (arith, le) in
    rw (bytes, after)
      (record {
        ok = record {
          full_size = ok.full_size;
          array = ok.array;
          inside = omega arith;
          behind = ok.behind ∙ omega (arith, le);
          bounded = omega (arith, ok.bounded);
        };
        count_lem = length-bytes_from r.buffer r.read_pos n ∙ e;
        content = rw split at (bytes_from-add r.buffer r.read_pos n (r.count - n) ok.inside);
      })

-- net_rx_buffer_read on a ring in order returns as many bytes as there are, at most `len`; they are the
-- oldest, the others stay, and the ring is in order.
pub net_rx_buffer_read-IsRead :
    (r : Ring) (len : ℕ) → RingOk r → IsRead r len (net_rx_buffer_read r len)
unfolding net_rx_buffer_read waiting
net_rx_buffer_read-IsRead r len ok = elim (Bool-cases (length r.buffer == 0 || (r.count == 0))) [
  | inl e ↦ rw (e, net_rx_buffer_read) (no_read r len ok (none_wait r ok e))
  | inr e ↦
      rw (e, net_rx_buffer_read)
        (taken r len (if ltb len r.count then len else r.count) ok (ground arith))
]
