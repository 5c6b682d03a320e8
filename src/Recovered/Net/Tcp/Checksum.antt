-- ===== src/Recovered/Net/Tcp/Checksum.antt =====
-- compute_tcp_checksum of recovered/net/src/tcp.c: the folding loop ends, and the sum with the checksum is a
-- multiple of 2 ^ 16 - 1.
use spirit_fox_os.Prelude.{
  ℕ, suc, ◌+◌, ◌-◌, ◌/◌, ◌%◌, ◌^◌, ◌<◌, ◌≡◌, refl, true, ◌==◌, List, some, arith, Bool-cases, inl,
  inr, ◌∙◌,
}
use spirit_fox_os.Recovered.Net.Rings.{u32}
use spirit_fox_os.Recovered.Net.Segments.{fold_carry, tcp_sum, compute_tcp_checksum}

-- A folded sum has 16 bits and is the sum modulo 2 ^ 16 - 1.
pub record Folded (sum r : ℕ) : Type 0 where
  pub small : r < 2 ^ 16
  pub same : r % 65535 ≡ sum % 65535

abbrev fold : ℕ → ℕ
fold sum = u32 (sum % 2 ^ 16 + sum / 2 ^ 16)

fold-same : (sum : ℕ) → sum < 2 ^ 32 → fold sum % 65535 ≡ sum % 65535
fold-same sum lt = omega (arith, lt)

done : (fuel sum : ℕ) → sum < 2 ^ 16 → (r : ℕ) × (fold_carry (suc fuel) sum ≡ some r) × Folded sum r
unfolding fold_carry
done fuel sum lt =
    let stop : (sum / 2 ^ 16 == 0) ≡ true = ground (arith, lt) in
    rw stop (sum, refl, record { small = lt; same = refl })

-- A sum with a carry is folded once more.
folds :
    (bound fuel sum : ℕ)
    → sum < 2 ^ 32
    → fold sum < bound
    → ((s : ℕ) → s < bound → (r : ℕ) × (fold_carry (suc fuel) s ≡ some r) × Folded s r)
    → (r : ℕ) × (fold_carry (suc (suc fuel)) sum ≡ some r) × Folded sum r
unfolding fold_carry
folds bound fuel sum lt below next = elim (Bool-cases (sum / 2 ^ 16 == 0)) [
  | inl stop ↦ rw stop (sum, refl, record { small = ground (arith, stop); same = refl })
  | inr more ↦
      let (r, e, f) = next (fold sum) below in
      rw more (r, e, record { small = f.small; same = f.same ∙ fold-same sum lt })
]

-- Enough fuel for every sum of 32 bits.
pub fold_carry-Folded :
    (sum : ℕ) → sum < 2 ^ 32 → (r : ℕ) × (fold_carry 4 sum ≡ some r) × Folded sum r
fold_carry-Folded sum lt = folds (2 ^ 17) 2 sum lt (omega (arith, lt)) (λ s l.
    folds (2 ^ 16 + 1) 1 s (omega (arith, l)) (omega (arith, l))
      (λ s' l'. folds (2 ^ 16) 0 s' (omega (arith, l')) (omega (arith, l')) (done 0)))

below : (src_ip dst_ip : ℕ) (tcp_seg : List ℕ) → tcp_sum src_ip dst_ip tcp_seg < 2 ^ 32
unfolding tcp_sum
below src_ip dst_ip tcp_seg = omega arith

-- The loop ends for all bytes and addresses: there is a checksum; it has 16 bits, and the sum over the
-- addresses and the segment with the checksum in it is divisible by 2 ^ 16 - 1.
pub compute_tcp_checksum-Valid :
    (src_ip dst_ip : ℕ) (tcp_seg : List ℕ)
    → (c : ℕ) × (compute_tcp_checksum src_ip dst_ip tcp_seg ≡ some c)
      × (c < 2 ^ 16)
      × ((tcp_sum src_ip dst_ip tcp_seg + c) % 65535 ≡ 0)
unfolding compute_tcp_checksum
compute_tcp_checksum-Valid src_ip dst_ip tcp_seg =
    let lt : tcp_sum src_ip dst_ip tcp_seg < 2 ^ 32 = below src_ip dst_ip tcp_seg in
    let (r, e, f) = fold_carry-Folded (tcp_sum src_ip dst_ip tcp_seg) lt in
    rw (compute_tcp_checksum, e)
      (2 ^ 16 - 1 - r % 2 ^ 16, refl, omega (arith, f.small), omega (arith, f.small, f.same))
