-- ===== src/Recovered/Net/Rings.antt =====
-- recovered/net/src/socket.c: the ring of the bytes that a socket has received, with the 32-bit arithmetic of
-- the network code.
pub mod Buffer
pub mod Queue
use spirit_fox_os.Prelude.{
  ℕ, zero, suc, ◌+◌, ◌-◌, ◌*◌, ◌/◌, ◌%◌, ◌^◌, Bool, true, false, ltb, leb, ◌==◌, not, ◌&&◌, ◌||◌,
  if◌then◌else◌, List, [], ◌∷◌, length, get_or, set, modify, keep_if, find_index?, any, Option,
  none, some, take, replicate,
}

abbrev pub net_buf_size : ℕ
net_buf_size = 4096

-- uint32_t arithmetic
abbrev pub u32 : ℕ → ℕ
u32 n = n % 2 ^ 32

abbrev pub sub32 : ℕ → ℕ → ℕ
sub32 a b = (a + 2 ^ 32 - b) % 2 ^ 32

-- The receive ring. `buffer` is empty for a null pointer.
pub record Ring : Type 0 where
  pub buffer : List ℕ
  pub read_pos : ℕ
  pub write_pos : ℕ
  pub count : ℕ
  pub size : ℕ

abbrev pub no_ring : Ring
no_ring = record { buffer = []; read_pos = 0; write_pos = 0; count = 0; size = 0 }

-- What kmalloc and the code behind it make of a ring.
abbrev pub new_ring : Ring
new_ring = record {
  buffer = replicate net_buf_size 0;
  read_pos = 0;
  write_pos = 0;
  count = 0;
  size = net_buf_size;
}

-- The loop of net_rx_buffer_write, over the bytes that fit.
unfoldable pub write_bytes : List ℕ → Ring → Ring
write_bytes [] r = r
write_bytes (b ∷ bytes) r =
    write_bytes bytes
      (record r { buffer = set r.buffer r.write_pos b; write_pos = (r.write_pos + 1) % r.size })

-- The ring after the call, and the number of bytes written.
unfoldable pub net_rx_buffer_write : Ring → List ℕ → Ring × ℕ
net_rx_buffer_write r bytes =
    if length r.buffer == 0 || (length bytes == 0)
    then (r, 0)
    else (let avail = sub32 r.size r.count in
        let fits = if ltb (length bytes) avail then length bytes else avail in
        let r' = write_bytes (take fits bytes) r in
        (record r' { count = u32 (r.count + fits) }, fits))

-- The loop of net_rx_buffer_read.
unfoldable pub read_bytes : ℕ → Ring → List ℕ × Ring
read_bytes zero r = ([], r)
read_bytes (suc n) r =
    let (bytes, r') = read_bytes n (record r { read_pos = (r.read_pos + 1) % r.size }) in
    (get_or r.buffer r.read_pos 0 ∷ bytes, r')

unfoldable pub net_rx_buffer_read : Ring → ℕ → List ℕ × Ring
net_rx_buffer_read r len =
    if length r.buffer == 0 || (r.count == 0)
    then ([], r)
    else (let to_read = if ltb len r.count then len else r.count in
        let (bytes, r') = read_bytes to_read r in (bytes, record r' { count = r.count - to_read }))
