-- ===== src/Recovered/Net/Rings/Buffer.antt =====
-- The receive ring of recovered/net/src/socket.c as the queue of bytes that it stands for.
use mathlib.Core.Path.{ap₂}
use mathlib.Core.List.{append_assoc, append-nil}
use spirit_fox_os.Prelude.{
  ℕ, zero, suc, ◌+◌, ◌%◌, ◌<◌, ◌≤◌, ◌≡◌, refl, sym, ap, ◌∙◌, List, [], ◌∷◌, ◌++◌, length, get_or,
  set, arith, length-set, get_or-set_ne, get_or-set_self,
}
use spirit_fox_os.Recovered.Net.Rings.{Ring, net_buf_size, write_bytes, read_bytes}

pub record RingOk (r : Ring) : Type 0 where
  pub full_size : r.size ≡ net_buf_size
  pub array : length r.buffer ≡ net_buf_size
  pub inside : r.read_pos < net_buf_size
  pub behind : r.write_pos ≡ (r.read_pos + r.count) % net_buf_size
  pub bounded : r.count ≤ net_buf_size

-- `n` bytes from the position `p` on.
unfoldable pub bytes_from : List ℕ → ℕ → ℕ → List ℕ
bytes_from buffer p zero = []
bytes_from buffer p (suc n) = get_or buffer p 0 ∷ bytes_from buffer ((p + 1) % net_buf_size) n

-- The bytes that wait, oldest first.
unfoldable pub waiting : Ring → List ℕ
waiting r = bytes_from r.buffer r.read_pos r.count

bytes_from-snoc :
    (buffer : List ℕ) (p n : ℕ)
    → p < net_buf_size
    → bytes_from buffer p (suc n)
      ≡ bytes_from buffer p n ++ get_or buffer ((p + n) % net_buf_size) 0 ∷ []
unfolding bytes_from
bytes_from-snoc buffer p zero lt = let e : (p + 0) % net_buf_size ≡ p = omega arith in rw e refl
bytes_from-snoc buffer p (suc n) lt =
    let e : ((p + 1) % net_buf_size + n) % net_buf_size ≡ (p + suc n) % net_buf_size =
      omega arith in
    ap (◌∷◌ (get_or buffer p 0))
      (rw e at (bytes_from-snoc buffer ((p + 1) % net_buf_size) n (omega arith)))

-- A write behind the bytes is not seen.
bytes_from-set :
    (buffer : List ℕ) (p n k b : ℕ)
    → p < net_buf_size
    → n ≤ k
    → k < net_buf_size
    → bytes_from (set buffer ((p + k) % net_buf_size) b) p n ≡ bytes_from buffer p n
unfolding bytes_from
bytes_from-set buffer p zero k b lt le kl = refl
bytes_from-set buffer p (suc n) zero b lt le kl = absurd (omega arith)
bytes_from-set buffer p (suc n) (suc k) b lt le kl =
    let e : ((p + 1) % net_buf_size + k) % net_buf_size ≡ (p + suc k) % net_buf_size =
      omega arith in
    let first = get_or-set_ne buffer ((p + suc k) % net_buf_size) p b 0 (omega arith) in
    rw first (
      ap (◌∷◌ (get_or buffer p 0)) (
        rw e at (
          bytes_from-set buffer ((p + 1) % net_buf_size) n k b (omega arith) (omega arith)
            (omega arith))))

bytes_from-write :
    (buffer : List ℕ) (p k b : ℕ)
    → p < net_buf_size
    → k < net_buf_size
    → length buffer ≡ net_buf_size
    → bytes_from (set buffer ((p + k) % net_buf_size) b) p (k + 1) ≡ bytes_from buffer p k ++ b ∷ []
bytes_from-write buffer p k b lt kl array =
    let one : k + 1 ≡ suc k = omega arith in
    let at_end : get_or (set buffer ((p + k) % net_buf_size) b) ((p + k) % net_buf_size) 0 ≡ b =
      get_or-set_self buffer ((p + k) % net_buf_size) b 0 (omega (arith, array)) in
    rw one (
      bytes_from-snoc (set buffer ((p + k) % net_buf_size) b) p k lt
      ∙ ap₂ (λ (xs : List ℕ) (x : ℕ). xs ++ x ∷ [])
          (bytes_from-set buffer p k k b lt (omega arith) kl) at_end)

-- What the writing loop leaves, for a ring that held `k` bytes.
pub record Written (r : Ring) (k : ℕ) (bytes : List ℕ) (r' : Ring) : Type 0 where
  pub same_size : r'.size ≡ r.size
  pub same_read : r'.read_pos ≡ r.read_pos
  pub array : length r'.buffer ≡ net_buf_size
  pub behind : r'.write_pos ≡ (r.read_pos + (k + length bytes)) % net_buf_size
  pub content :
      bytes_from r'.buffer r.read_pos (k + length bytes) ≡ bytes_from r.buffer r.read_pos k ++ bytes

pub write_bytes-Written :
    (bytes : List ℕ) (r : Ring) (k : ℕ)
    → r.size ≡ net_buf_size
    → length r.buffer ≡ net_buf_size
    → r.read_pos < net_buf_size
    → r.write_pos ≡ (r.read_pos + k) % net_buf_size
    → k + length bytes ≤ net_buf_size
    → Written r k bytes (write_bytes bytes r)
unfolding write_bytes
write_bytes-Written [] r k size array inside behind room =
    let e : k + 0 ≡ k = omega arith in
    record {
      same_size = refl;
      same_read = refl;
      array = array;
      behind = rw e behind;
      content = rw e (sym (append-nil (bytes_from r.buffer r.read_pos k)));
    }
write_bytes-Written (b ∷ bytes) r k size array inside behind room =
    let r1 : Ring = record r {
      buffer = set r.buffer r.write_pos b;
      write_pos = (r.write_pos + 1) % r.size;
    } in
    let array1 : length r1.buffer ≡ net_buf_size = length-set r.buffer r.write_pos b ∙ array in
    let next : r1.write_pos ≡ (r.read_pos + (k + 1)) % net_buf_size =
      rw size (omega (arith, behind)) in
    let rest = write_bytes-Written bytes r1 (k + 1) size array1 inside next (omega (arith, room)) in
    let e : k + 1 + length bytes ≡ k + suc (length bytes) = omega arith in
    let first : bytes_from r1.buffer r.read_pos (k + 1)
        ≡ bytes_from r.buffer r.read_pos k ++ b ∷ [] =
      rw behind (bytes_from-write r.buffer r.read_pos k b inside (omega (arith, room)) array) in
    record {
      same_size = rest.same_size;
      same_read = rest.same_read;
      array = rest.array;
      behind = rw e at rest.behind;
      content =
          rw e at rest.content
          ∙ ap (λ (xs : List ℕ). xs ++ bytes) first
          ∙ append_assoc (bytes_from r.buffer r.read_pos k) (b ∷ []) bytes;
    }

pub read_bytes-0 :
    (n : ℕ) (r : Ring)
    → r.size ≡ net_buf_size
    → (read_bytes n r).0 ≡ bytes_from r.buffer r.read_pos n
unfolding read_bytes bytes_from
read_bytes-0 zero r size = refl
read_bytes-0 (suc n) r size = ap (◌∷◌ (get_or r.buffer r.read_pos 0)) (
    read_bytes-0 n (record r { read_pos = (r.read_pos + 1) % r.size }) size
    ∙ ap (λ m. bytes_from r.buffer ((r.read_pos + 1) % m) n) size)
