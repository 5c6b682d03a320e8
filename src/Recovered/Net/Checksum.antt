-- ===== src/Recovered/Net/Checksum.antt =====
-- compute_udp_checksum of recovered/net/src/udp.c and compute_ip_checksum of recovered/net/src/ip.c end.
use spirit_fox_os.Prelude.{
  ℕ, ◌+◌, ◌-◌, ◌*◌, ◌%◌, ◌^◌, ◌<◌, ◌≡◌, refl, List, some, arith, take, get_or,
}
use spirit_fox_os.Recovered.Net.Rings.{u32}
use spirit_fox_os.Recovered.Net.Segments.{sum_words}
use spirit_fox_os.Recovered.Net.Tcp.Checksum.{fold_carry-Folded}
use spirit_fox_os.Recovered.Net.Udp.{udp_sum, compute_udp_checksum}
use spirit_fox_os.Recovered.Net.Ip.{compute_ip_checksum}

udp_sum-lt : (src_ip dst_ip : ℕ) (udp_seg : List ℕ) → udp_sum src_ip dst_ip udp_seg < 2 ^ 32
unfolding udp_sum
udp_sum-lt src_ip dst_ip udp_seg = omega arith

-- There is a checksum of each datagram, and the sum with it is divisible by 2 ^ 16 - 1.
pub compute_udp_checksum-Valid :
    (src_ip dst_ip : ℕ) (udp_seg : List ℕ)
    → (c : ℕ) × (compute_udp_checksum src_ip dst_ip udp_seg ≡ some c)
      × (c < 2 ^ 16)
      × ((udp_sum src_ip dst_ip udp_seg + c) % 65535 ≡ 0)
unfolding compute_udp_checksum
compute_udp_checksum-Valid src_ip dst_ip udp_seg =
    let (r, e, f) =
      fold_carry-Folded (udp_sum src_ip dst_ip udp_seg) (udp_sum-lt src_ip dst_ip udp_seg) in
    rw (compute_udp_checksum, e)
      (2 ^ 16 - 1 - r % 2 ^ 16, refl, omega (arith, f.small), omega (arith, f.small, f.same))

-- There is a checksum of each header.
pub compute_ip_checksum-some :
    (header : List ℕ) → (c : ℕ) × (compute_ip_checksum header ≡ some c) × (c < 2 ^ 16)
unfolding compute_ip_checksum
compute_ip_checksum-some header =
    let (r, e, f) =
      fold_carry-Folded (u32 (sum_words (take (get_or header 0 0 % 2 ^ 4 * 4) header)))
        (omega arith) in
    rw (compute_ip_checksum, e) (2 ^ 16 - 1 - r % 2 ^ 16, refl, omega (arith, f.small))
