-- ===== src/Services/Txn/Writing.antt =====
-- services/txn.c: what the writes of sf_txn_commit leave on a device, whichever of them fails.
pub mod Snapshots
use spirit_fox_os.Prelude.{
  ℕ, zero, suc, ◌+◌, ◌*◌, ◌<◌, ◌≤◌, ◌≡◌, ◌≢◌, refl, sym, ◌∙◌, ap, subst, ◌⊎◌, inl, inr, Bool, true,
  false, not, if◌then◌else◌, sf_ok, ℤ, pos, negsuc, List, [], ◌∷◌, length, arith, Bool-cases, zeros,
}
use spirit_fox_os.Services.Txn.Bank.{sector_bytes, bank_sectors}
use spirit_fox_os.Services.Txn.Device.{Device, IsDisk, Medium, IsSettled}
use spirit_fox_os.Services.Txn.Mount.{is_ok, record_sector, bank_sector}
use spirit_fox_os.Services.Txn.Commit.{write_flush, write_sectors, write_bank, write_snapshot}
use spirit_fox_os.Services.Txn.Slots.{Holds}

pub is_ok→≡ : (r : ℤ) → is_ok r ≡ true → r ≡ sf_ok
is_ok→≡ (pos zero) h = refl
is_ok→≡ (pos (suc n)) h = absurd (ground (arith, h))
is_ok→≡ (negsuc n) h = absurd (ground (arith, h))

-- A sector that is not one of the n from sector i.
unfoldable pub Outside : ℕ → ℕ → ℕ → Type 0
Outside i n k = (k < i) ⊎ (i + n ≤ k)

Outside-ne : (i n k j : ℕ) → Outside i n k → i ≤ j → j < i + n → k ≢ j
unfolding Outside
Outside-ne i n k j (inl h) l u e = absurd (omega (arith, h, e))
Outside-ne i n k j (inr h) l u e = absurd (omega (arith, h, e))

pub Holds-same :
    (m m' : Medium) (i : ℕ) (ss : List (List ℕ))
    → ((k : ℕ) → i ≤ k → k < i + length ss → m k ≡ m' k)
    → Holds m' i ss
    → Holds m i ss
Holds-same m m' i [] same h = tt
Holds-same m m' i (s ∷ ss) same h = (
  same i (omega arith) (omega arith) ∙ h.0,
  Holds-same m m' (suc i) ss (λ k l u. same k (omega arith) (omega arith)) h.1,
)

module _ (dev : Device) (disk : IsDisk dev) where
  -- Sectors outside a range are as they were.
  abbrev pub Kept : ℕ → ℕ → Medium → dev.State → Type 0
  Kept i n v d = (m : Medium) → dev.After d m → (k : ℕ) → Outside i n k → m k ≡ v k

  write-Kept :
      (i n : ℕ) (v : Medium) (d : dev.State) (j : ℕ) (s : List ℕ)
      → i ≤ j
      → j < i + n
      → Kept i n v d
      → Kept i n v (dev.write d j s).1
  write-Kept i n v d j s l u h m after k out =
      let w = disk.write_after d j s m after in w.2 k (Outside-ne i n k j out l u) ∙ h w.0 w.1 k out

  pub flush-Kept :
      (i n : ℕ) (v : Medium) (d : dev.State) → Kept i n v d → Kept i n v (dev.flush d).1
  flush-Kept i n v d h m after k out = h m (disk.flush_after d m after) k out

  pub write_sectors-Kept :
      (i n : ℕ) (v : Medium) (ss : List (List ℕ)) (d : dev.State) (j : ℕ)
      → i ≤ j
      → j + length ss ≤ i + n
      → Kept i n v d
      → Kept i n v (write_sectors dev d j ss).1
  unfolding write_sectors
  write_sectors-Kept i n v [] d j l u h = h
  write_sectors-Kept i n v (s ∷ ss) d j l u h =
      let w : Kept i n v (dev.write d j s).1 = write-Kept i n v d j s l (omega (arith, u)) h in
      elim (Bool-cases (is_ok (dev.write d j s).0)) [
        | inl e ↦ rw e (
            write_sectors-Kept i n v ss (dev.write d j s).1 (suc j) (omega (arith, l))
              (omega (arith, u)) w)
        | inr e ↦ rw e w
      ]

  -- A loop that succeeds: the device stores the sectors, and what it stored elsewhere.
  pub write_sectors-other :
      (ss : List (List ℕ)) (d : dev.State) (j k : ℕ)
      → Outside j (length ss) k
      → (write_sectors dev d j ss).0 ≡ true
      → dev.stored (write_sectors dev d j ss).1 k ≡ dev.stored d k
  unfolding write_sectors Outside
  write_sectors-other [] d j k out h = refl
  write_sectors-other (s ∷ ss) d j k out h = elim (Bool-cases (is_ok (dev.write d j s).0)) [
    | inl e ↦
        let rest : (write_sectors dev (dev.write d j s).1 (suc j) ss).0 ≡ true = rw e at h in
        let out' : Outside (suc j) (length ss) k = elim out [
          | inl o ↦ inl (omega (arith, o))
          | inr o ↦ inr (omega (arith, o))
        ] in
        rw e (
          write_sectors-other ss (dev.write d j s).1 (suc j) k out' rest
          ∙ disk.write_other d j k s
              (Outside-ne j (suc (length ss)) k j out (omega arith) (omega arith)))
    | inr e ↦ let bad : false ≡ true = rw e at h in absurd (ground (arith, bad))
  ]

  pub write_sectors-Holds :
      (ss : List (List ℕ)) (d : dev.State) (j : ℕ)
      → (write_sectors dev d j ss).0 ≡ true
      → Holds (dev.stored (write_sectors dev d j ss).1) j ss
  unfolding write_sectors Outside
  write_sectors-Holds [] d j h = tt
  write_sectors-Holds (s ∷ ss) d j h = elim (Bool-cases (is_ok (dev.write d j s).0)) [
    | inl e ↦
        let rest : (write_sectors dev (dev.write d j s).1 (suc j) ss).0 ≡ true = rw e at h in
        let step : write_sectors dev (dev.write d j s).1 (suc j) ss
            ≡ write_sectors dev d j (s ∷ ss) =
          rw e refl in
        subst (λ w. Holds (dev.stored w.1) j (s ∷ ss)) step
          (
            write_sectors-other ss (dev.write d j s).1 (suc j) j (inl (omega arith)) rest
                ∙ disk.write_self d j s (is_ok→≡ (dev.write d j s).0 e),
            write_sectors-Holds ss (dev.write d j s).1 (suc j) rest,
          )
    | inr e ↦ let bad : false ≡ true = rw e at h in absurd (ground (arith, bad))
  ]

  -- What one write and a flush leave.
  pub record FlushedOk (d : dev.State) (i : ℕ) (s : List ℕ) (d' : dev.State) : Type 0 where
    pub settled : IsSettled dev d'
    pub self : dev.stored d' i ≡ s
    pub other : (k : ℕ) → k ≢ i → dev.stored d' k ≡ dev.stored d k

  -- What a loss of power leaves of one write, with or without the flush.
  pub record OneWritten (d : dev.State) (i : ℕ) (s : List ℕ) (m : Medium) : Type 0 where
    pub other : (k : ℕ) → k ≢ i → m k ≡ dev.stored d k
    pub self : (m i ≡ dev.stored d i) ⊎ ((m i ≡ s) ⊎ dev.Torn (dev.stored d i) s (m i))

  write-OneWritten :
      (d : dev.State) (i : ℕ) (s : List ℕ) (m : Medium)
      → IsSettled dev d
      → dev.After (dev.write d i s).1 m
      → OneWritten d i s m
  write-OneWritten d i s m settled after =
      let w = disk.write_after d i s m after in
      record {
        other = λ k ne. w.2 k ne ∙ settled w.0 w.1 k;
        self = elim w.3 [
          | inl e ↦ inl (e ∙ settled w.0 w.1 i)
          | inr (inl e) ↦ inr (inl e)
          | inr (inr e) ↦ inr (inr (subst (λ x. dev.Torn x s (m i)) (settled w.0 w.1 i) e))
        ];
      }

  pub write_flush-OneWritten :
      (d : dev.State) (i : ℕ) (s : List ℕ) (m : Medium)
      → IsSettled dev d
      → dev.After (write_flush dev d i s).1 m
      → OneWritten d i s m
  unfolding write_flush
  write_flush-OneWritten d i s m settled after = elim (Bool-cases (is_ok (dev.write d i s).0)) [
    | inl e ↦
        write-OneWritten d i s m settled (disk.flush_after (dev.write d i s).1 m (rw e at after))
    | inr e ↦ write-OneWritten d i s m settled (rw e at after)
  ]

  pub write_flush-FlushedOk :
      (d : dev.State) (i : ℕ) (s : List ℕ)
      → (write_flush dev d i s).0 ≡ true
      → FlushedOk d i s (write_flush dev d i s).1
  unfolding write_flush
  write_flush-FlushedOk d i s h = elim (Bool-cases (is_ok (dev.write d i s).0)) [
    | inl e ↦
        let f : is_ok (dev.flush (dev.write d i s).1).0 ≡ true = rw e at h in
        rw e (record {
          settled = λ m after k.
              disk.flush_settles (dev.write d i s).1 m k
                (is_ok→≡ (dev.flush (dev.write d i s).1).0 f) after;
          self =
              disk.flush_stored (dev.write d i s).1 i
              ∙ disk.write_self d i s (is_ok→≡ (dev.write d i s).0 e);
          other = λ k ne. disk.flush_stored (dev.write d i s).1 k ∙ disk.write_other d i k s ne;
        })
    | inr e ↦ let bad : false ≡ true = rw e at h in absurd (ground (arith, bad))
  ]
