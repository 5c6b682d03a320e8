-- ===== src/Services/Txn/Recovery.antt =====
-- services/txn.c: what sf_txn_mount finds after sf_txn_commit, wherever the commit is cut off.
use spirit_fox_os.Services.Txn.Decoding.Tables.{CheckedOk, check_slot-CheckedOk}
use spirit_fox_os.Prelude.{
  ℕ, zero, suc, ◌+◌, ◌^◌, ◌<◌, ◌≤◌, ◌≡◌, ◌≢◌, refl, sym, ◌∙◌, ap, subst, ◌⊎◌, inl, inr, true, false,
  List, length, arith, Bool-cases, zeros, sf_ok, slice, sf_bad_format, drop, length-slice,
}
use spirit_fox_os.Services.Txn.Bank.{TxnFile, encode_bank, sector_bytes, bank_sectors}
use spirit_fox_os.Services.Txn.Device.{Device, IsDisk, Medium, DetectsTears}
use spirit_fox_os.Services.Txn.Mount.{
  Txn, is_ok, record_sector, bank_sector, header_sector, header_ok, check_slot, choose, mount,
  found, Checked,
}
use spirit_fox_os.Services.Txn.Commit.{
  other_bank, advanced, sectors, snapshot_record, record_body, commit_record,
}
use spirit_fox_os.Services.Txn.Table.{IsTable}
use spirit_fox_os.Services.Txn.Slots.{
  reading, check_slot-same, check_slot-IsOff, FoundOk, check_slot-FoundOk, IsOff, torn_record-IsOff,
}
use spirit_fox_os.Services.Txn.Slots.Records.{check_slot-commit_record, length-body}
use spirit_fox_os.Services.Txn.Slots.Choice.{choose-skipped, choose-next, choose-ChosenOk}
use spirit_fox_os.Services.Txn.Writing.{Outside}
use spirit_fox_os.Services.Txn.Writing.Snapshots.{Left, untouched, erased, written, Written}

length-sectors : (n : ℕ) (b : List ℕ) → length (sectors n b) ≡ n
unfolding sectors
length-sectors zero b = refl
length-sectors (suc n) b = ap suc (length-sectors n (drop sector_bytes b))

-- The sectors of one slot are not those of the other.
other_record : (b : ℕ) → b < 2 → record_sector b ≢ record_sector (other_bank b)
other_record b h e = ground (arith, h, e)

record-before : (b : ℕ) → b < 2 → record_sector b < bank_sector (other_bank b)
record-before b h = ground (arith, h)

bank-after : (k b : ℕ) → b < 2 → bank_sector b ≤ k → k ≢ record_sector (other_bank b)
bank-after k b h l e = ground (arith, h, l, e)

other-Outside :
    (b : ℕ)
    → b < 2
    → (k : ℕ) → bank_sector b ≤ k
    → k < bank_sector b + bank_sectors
    → Outside (bank_sector (other_bank b)) bank_sectors k
unfolding Outside
other-Outside zero h k l u = inl (omega (arith, u))
other-Outside (suc zero) h k l u = inr (omega (arith, l))
other-Outside (suc (suc b)) h k l u = absurd (omega (arith, h))

abbrev pub blank : Txn → List ℕ → Txn
blank t volume = record t { ready = false; generation = 0; volume = volume }

module _ (hash : List ℕ → List ℕ) where
  -- A mount that succeeds has read a header, and chosen between the slots.
  pub record MountedOk (t0 : Txn) (m : Medium) (t : Txn) : Type 0 where
    pub header : header_ok hash (m header_sector) ≡ true
    pub chosen :
        choose
          (blank t0 (slice 16 16 (m header_sector)))
          (check_slot hash (reading m) (slice 16 16 (m header_sector)) 0)
          (check_slot hash (reading m) (slice 16 16 (m header_sector)) 1)
        ≡ (sf_ok, t)

  mount-MountedOk :
      (t0 : Txn) (m : Medium) (t : Txn) → mount hash t0 (reading m) ≡ (sf_ok, t) → MountedOk t0 m t
  unfolding mount
  mount-MountedOk t0 m t e = elim (Bool-cases (header_ok hash (m header_sector))) [
    | inr h ↦
        let e' : (sf_bad_format, record t0 { ready = false; generation = 0 }) ≡ (sf_ok, t) =
          rw h at e in
        absurd (ground (arith, ap (λ p. is_ok p.0) e'))
    | inl h ↦ record { header = h; chosen = rw h at e }
  ]

  MountedOk-mount :
      (t0 : Txn) (m : Medium) (t : Txn) → MountedOk t0 m t → mount hash t0 (reading m) ≡ (sf_ok, t)
  unfolding mount
  MountedOk-mount t0 m t h = rw h.header h.chosen

  abbrev volume_at : Medium → List ℕ
  volume_at m = slice 16 16 (m header_sector)

  abbrev slot_at : Medium → ℕ → Checked
  slot_at m slot = check_slot hash (reading m) (volume_at m) slot

  -- A table of files, in one of the two banks, under the volume that the header names; the bank's record
  -- is sealed and has the hash of the bank.
  pub record SnapshotOk (m : Medium) (t : Txn) : Type 0 where
    pub table : IsTable t.files
    pub bank_lt : t.bank < 2
    pub ready_lem : t.ready ≡ true
    pub volume_lem : t.volume ≡ volume_at m
    pub found_lem : FoundOk hash m t.bank

  -- Whatever a medium holds: a mount of it that succeeds gives at most five files, with paths that are
  -- allowed, that differ, and with at most 16384 bytes each; and the state is ready, its bank is 0 or
  -- 1, its volume is that of the header, and the record of the bank is sealed with the hash of its bytes
  -- and holds the hash of the bank.
  pub mount-SnapshotOk :
      (t0 : Txn) (m : Medium) (t : Txn) → mount hash t0 (reading m) ≡ (sf_ok, t) → SnapshotOk m t
  mount-SnapshotOk t0 m t e =
      let h =
        choose-ChosenOk (blank t0 (volume_at m)) refl (slot_at m) t
          (mount-MountedOk t0 m t e).chosen in
      record {
        table =
            subst (CheckedOk hash) h.slot_lem
              (check_slot-CheckedOk hash (reading m) (volume_at m) t.bank);
        bank_lt = h.bank_lt;
        ready_lem = h.ready_lem;
        volume_lem = h.volume_lem;
        found_lem = check_slot-FoundOk hash m (volume_at m) t.bank t.generation t.files h.slot_lem;
      }

  mount-choice :
      (t0 : Txn) (v m : Medium) (t : Txn)
      → header_ok hash (v header_sector) ≡ true
      → m header_sector ≡ v header_sector
      → choose
          (blank t0 (volume_at v))
          (check_slot hash (reading m) (volume_at v) 0)
          (check_slot hash (reading m) (volume_at v) 1)
        ≡ (sf_ok, t)
      → mount hash t0 (reading m) ≡ (sf_ok, t)
  mount-choice t0 v m t header same chosen = MountedOk-mount t0 m t (record {
    header = subst (λ x. header_ok hash x ≡ true) (sym same) header;
    chosen =
        subst
          (λ x.
            choose (blank t0 (slice 16 16 x)) (check_slot hash (reading m) (slice 16 16 x) 0)
              (check_slot hash (reading m) (slice 16 16 x) 1)
            ≡ (sf_ok, t))
          (sym same) chosen;
  })

  module _ (hash_length : (b : List ℕ) → length (hash b) ≡ 32) (dev : Device) (disk : IsDisk dev)
      (t0 : Txn) (d : dev.State) (t : Txn)
      (header_length : length (dev.stored d header_sector) ≡ sector_bytes)
      (mounted : mount hash t0 (reading (dev.stored d)) ≡ (sf_ok, t))
      (small : t.generation + 1 < 2 ^ 64) where
    abbrev start : Medium
    start = dev.stored d

    pub snapshot : SnapshotOk start t
    snapshot = mount-SnapshotOk t0 start t mounted

    chosen_lem : MountedOk t0 start t
    chosen_lem = mount-MountedOk t0 start t mounted

    pub other_lt : other_bank t.bank < 2
    other_lt = ground arith

    volume_length : length t.volume ≡ 16
    volume_length =
        ap length snapshot.volume_lem
        ∙ length-slice 16 16 (start header_sector) (omega (arith, header_length))

    -- The record of the next snapshot, torn while it is written over zeros.
    pub torn_next :
        (next : List TxnFile)
        → DetectsTears hash dev
        → (x : List ℕ) → dev.Torn (zeros sector_bytes) (snapshot_record dev hash t next) x
        → (x ≡ snapshot_record dev hash t next) ⊎ IsOff hash x
    unfolding commit_record
    torn_next next tears x torn =
        torn_record-IsOff hash dev tears
          (record_body (t.generation + 1) (other_bank t.bank) t.volume (hash bank)) x
          (length-body hash hash_length (t.generation + 1) (other_bank t.bank) t.volume (hash bank)
            small (omega arith) other_lt volume_length (hash_length bank))
          torn
      where
        bank : List ℕ
        bank = encode_bank hash (t.generation + 1) next

    module _ (next : List TxnFile) (m : Medium) (table : IsTable next) where
      abbrev buffer : List ℕ
      buffer = encode_bank hash (t.generation + 1) next

      abbrev ss : List (List ℕ)
      ss = sectors bank_sectors buffer

      -- The sectors that are neither the record nor the bank of the next snapshot.
      abbrev OthersKept : Type 0
      OthersKept =
          (k : ℕ)
          → k ≢ record_sector (other_bank t.bank)
          → Outside (bank_sector (other_bank t.bank)) (length ss) k
          → m k ≡ start k

      pub header-same : OthersKept → m header_sector ≡ start header_sector
      unfolding Outside
      header-same h =
          h header_sector (λ e. absurd (omega (arith, e, record_above)))
            (inl (omega (arith, bank_above)))
        where
          record_above : header_sector < record_sector (other_bank t.bank)
          record_above = omega arith

          bank_above : header_sector < bank_sector (other_bank t.bank)
          bank_above = omega arith

      slot-same :
          OthersKept → check_slot hash (reading m) (volume_at start) t.bank ≡ slot_at start t.bank
      unfolding Outside
      slot-same h =
          check_slot-same hash m start (volume_at start) t.bank
            (h (record_sector t.bank) (λ e. other_record t.bank snapshot.bank_lt e)
              (inl (record-before t.bank snapshot.bank_lt)))
            (λ k l u.
              h k (λ e. bank-after k t.bank snapshot.bank_lt l e)
                (subst (λ n. Outside (bank_sector (other_bank t.bank)) n k)
                  (sym (length-sectors bank_sectors buffer))
                  (other-Outside t.bank snapshot.bank_lt k l u)))

      mount-erased :
          IsOff hash (m (record_sector (other_bank t.bank)))
          → OthersKept
          → mount hash t0 (reading m) ≡ (sf_ok, t)
      mount-erased e h = mount-choice t0 start m t chosen_lem.header (header-same h) (
          choose-skipped (blank t0 (volume_at start)) refl (slot_at start)
            (check_slot hash (reading m) (volume_at start)) t chosen_lem.chosen (slot-same h)
            (check_slot-IsOff hash m (volume_at start) (other_bank t.bank) e))

      pub mount-Written :
          Written dev disk (other_bank t.bank) ss d (snapshot_record dev hash t next) m
          → mount hash t0 (reading m) ≡ (sf_ok, advanced t next)
      mount-Written w =
          mount-choice t0 start m (advanced t next) chosen_lem.header (header-same w.other) (
            choose-next (blank t0 (volume_at start)) refl (slot_at start)
              (check_slot hash (reading m) (volume_at start)) t next chosen_lem.chosen
              (slot-same w.other)
              (subst
                (λ v.
                  check_slot hash (reading m) v (other_bank t.bank) ≡ found (t.generation + 1) next)
                snapshot.volume_lem
                (check_slot-commit_record hash hash_length m t next (other_bank t.bank) small
                  other_lt volume_length table w.rec w.holds)))

      -- A medium that the writes of a commit leave holds the old snapshot, or the next one.
      pub mount-Left :
          Left dev disk (other_bank t.bank) ss (IsOff hash) d (snapshot_record dev hash t next) m
          → (mount hash t0 (reading m) ≡ (sf_ok, t))
            ⊎ (mount hash t0 (reading m) ≡ (sf_ok, advanced t next))
      mount-Left (untouched same) =
          inl (subst (λ v. mount hash t0 (reading v) ≡ (sf_ok, t)) (λ i k. sym (same k) i) mounted)
      mount-Left (erased e h) = inl (mount-erased e h)
      mount-Left (written w) = inr (mount-Written w)
