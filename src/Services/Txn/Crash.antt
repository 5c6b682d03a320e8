-- ===== src/Services/Txn/Crash.antt =====
-- services/txn.c: commits are atomic and durable, wherever a device call fails or power is lost.
use spirit_fox_os.Prelude.{
  ℕ, ◌+◌, ◌-◌, ◌^◌, ◌<◌, ◌≡◌, refl, sym, ◌∙◌, ap, subst, ◌⊎◌, inl, inr, Bool, true, false, not,
  if◌then◌else◌, List, [], length, arith, Bool-cases, Option-cases, ◌∷◌, ◌++◌, sf_ok, ltb, ◌==◌,
  ◌||◌, ℤ,
}
use spirit_fox_os.Services.Txn.Bank.{
  TxnFile, encode_bank, sector_bytes, bank_sectors, txn_files, any_path, file_bytes,
}
use spirit_fox_os.Services.Txn.Paths.{path_ok}
use spirit_fox_os.Services.Txn.Device.{Device, IsDisk, Medium, IsSettled, DetectsTears}
use spirit_fox_os.Services.Txn.Mount.{
  Txn, is_ok, header_sector, mount, sf_device_gone, record_sector,
}
use spirit_fox_os.Services.Txn.Commit.{
  commit, write_next, write_snapshot, apply_changes, other_bank, advanced, sectors, snapshot_record,
  sf_commit_uncertain, commit_ready, is_uncertain, place,
}
use spirit_fox_os.Services.Txn.Table.{IsTable, apply_changes-IsTable}
use spirit_fox_os.Services.Txn.Slots.{reading, IsOff, zeros-IsOff, torn_erase-IsOff}
use spirit_fox_os.Services.Txn.Recovery.{
  SnapshotOk, mount-SnapshotOk, other_lt, header-same, mount-Written, mount-Left, torn_next,
}
use spirit_fox_os.Services.Txn.Writing.Snapshots.{write_snapshot-Left, write_snapshot-Written}

-- Nothing is pending on the device, and mounting what it stores gives this state.
pub record IsHome (hash : List ℕ → List ℕ) (dev : Device) (t0 : Txn) (d : dev.State) (t : Txn)
    : Type 0 where
  pub settled : IsSettled dev d
  pub header_length : length (dev.stored d header_sector) ≡ sector_bytes
  pub mounted : mount hash t0 (reading (dev.stored d)) ≡ (sf_ok, t)
  pub generation_lt : t.generation < 2 ^ 64

-- A change that is refused leaves no doubt.
apply_changes-certain :
    (changes : List TxnFile) (files : List TxnFile) (seen : List (List ℕ))
    → is_uncertain (apply_changes files seen changes).0 ≡ false
unfolding apply_changes
apply_changes-certain [] files seen = refl
apply_changes-certain (c ∷ cs) files seen =
    elim (Bool-cases
      (not (path_ok c.path) || (ltb file_bytes (length c.content) || any_path c.path seen))) [
        | inl e ↦ rw e refl
        | inr e ↦ elim (Option-cases (place txn_files files c)) [
          | inl n ↦ rw (e, n) refl
          | inr r ↦ rw (e, r.1) (apply_changes-certain cs r.0 (seen ++ (c.path ∷ [])))
        ]
      ]

module _ (hash : List ℕ → List ℕ) (hash_length : (b : List ℕ) → length (hash b) ≡ 32) (dev : Device)
    (disk : IsDisk dev) (t0 : Txn) where
  abbrev pub next_files : Txn → List TxnFile → List TxnFile
  next_files t changes = (apply_changes t.files [] changes).1

  -- A medium that mounts to one of two states.
  abbrev pub OldOrNew : Txn → Txn → Medium → Type 0
  OldOrNew t t' m =
      (mount hash t0 (reading m) ≡ (sf_ok, t)) ⊎ (mount hash t0 (reading m) ≡ (sf_ok, t'))

  abbrev pub Mounts : Txn → Txn → dev.State → Type 0
  Mounts t t' d = (m : Medium) → dev.After d m → OldOrNew t t' m

  module _ (d : dev.State) (t : Txn) (home : IsHome hash dev t0 d t) where
    pub Mounts-home : (t' : Txn) → Mounts t t' d
    Mounts-home t' m after = inl (
        subst (λ v. mount hash t0 (reading v) ≡ (sf_ok, t)) (λ i k. sym (home.settled m after k) i)
          home.mounted)

    pub here : SnapshotOk hash (dev.stored d) t
    here = mount-SnapshotOk hash t0 (dev.stored d) t home.mounted

    -- How a call of sf_txn_commit ends: refused, with nothing changed; or after the writes.
    pub data Ended (changes : List TxnFile) (r : ℤ × (Txn × dev.State)) : Type 0 where
      refused :
          is_ok r.0 ≡ false → is_uncertain r.0 ≡ false → r.1.0 ≡ t → r.1.1 ≡ d → Ended changes r
      attempted :
          t.generation + 1 < 2 ^ 64
          → is_ok (apply_changes t.files [] changes).0 ≡ true
          → r ≡ write_next dev hash t d (next_files t changes)
          → Ended changes r

    commit_ready-Ended :
        (changes : List TxnFile) → Ended changes (commit_ready dev hash t d changes)
    unfolding commit_ready
    commit_ready-Ended changes = elim (Bool-cases tests) [
      | inl e ↦ rw e (refused refl refl refl refl)
      | inr e ↦ elim (Bool-cases (is_ok (apply_changes t.files [] changes).0)) [
        | inr h ↦ rw (e, h) (refused h (apply_changes-certain changes t.files []) refl refl)
        | inl h ↦
            let lt : t.generation + 1 < 2 ^ 64 = ground (arith, e, home.generation_lt) in
            rw (e, h) (attempted lt h refl)
      ]
    ]
      where
        tests : Bool
        tests =
            length changes == 0 || (ltb txn_files (length changes) || (t.generation == 2 ^ 64 - 1))

    pub commit-Ended : (changes : List TxnFile) → Ended changes (commit dev hash t d changes)
    unfolding commit
    commit-Ended changes =
        subst
          (λ b.
            Ended changes
              (if not b then (sf_device_gone, (t, d)) else commit_ready dev hash t d changes))
          (sym here.ready_lem) (commit_ready-Ended changes)

    module _ (changes : List TxnFile) (lt : t.generation + 1 < 2 ^ 64) where
      abbrev files' : List TxnFile
      files' = next_files t changes

      abbrev buffer : List (List ℕ)
      buffer = sectors bank_sectors (encode_bank hash (t.generation + 1) files')

      table : IsTable files'
      table = apply_changes-IsTable changes t.files [] here.table

      abbrev writes : Bool × dev.State
      writes = write_snapshot dev d (other_bank t.bank) buffer (snapshot_record dev hash t files')

      writes-Mounts : DetectsTears hash dev → Mounts t (advanced t files') writes.1
      writes-Mounts tears m after =
          mount-Left hash hash_length dev disk t0 d t home.header_length home.mounted lt files' m
            table
            (write_snapshot-Left dev disk (other_bank t.bank) buffer
              (other_lt hash hash_length dev disk t0 d t home.header_length home.mounted lt) d
              (snapshot_record dev hash t files') home.settled (IsOff hash) (zeros-IsOff hash)
              (torn_erase-IsOff hash dev tears (dev.stored d (record_sector (other_bank t.bank))))
              (torn_next hash hash_length dev disk t0 d t home.header_length home.mounted lt files'
                tears)
              m after)

      writes-IsHome : writes.0 ≡ true → IsHome hash dev t0 writes.1 (advanced t files')
      writes-IsHome h =
          let w =
            write_snapshot-Written dev disk (other_bank t.bank) buffer
              (other_lt hash hash_length dev disk t0 d t home.header_length home.mounted lt) d
              (snapshot_record dev hash t files') home.settled h in
          record {
            settled = w.0;
            header_length =
                ap length (
                  header-same hash hash_length dev disk t0 d t home.header_length home.mounted lt
                    files' (dev.stored writes.1) table w.1.other)
                ∙ home.header_length;
            mounted =
                mount-Written hash hash_length dev disk t0 d t home.header_length home.mounted lt
                  files' (dev.stored writes.1) table w.1;
            generation_lt = lt;
          }

      pub write_next-Mounts :
          DetectsTears hash dev → Mounts t (advanced t files') (write_next dev hash t d files').1.1
      unfolding write_next
      write_next-Mounts tears = elim (Bool-cases writes.0) [
        | inl e ↦ rw e (writes-Mounts tears)
        | inr e ↦ rw e (writes-Mounts tears)
      ]

      pub write_next-IsHome :
          (write_next dev hash t d files').0 ≡ sf_ok
          → ((write_next dev hash t d files').1.0 ≡ advanced t files')
            × IsHome hash dev t0
                (write_next dev hash t d files').1.1
                (write_next dev hash t d files').1.0
      unfolding write_next
      write_next-IsHome h = elim (Bool-cases writes.0) [
        | inl e ↦ rw e (refl, writes-IsHome e)
        | inr e ↦
            let bad : sf_commit_uncertain ≡ sf_ok = ap (λ x. x) (rw e at h) in
            absurd (ground (arith, ap (λ x. is_ok x) bad))
      ]

    pub commit-Mounts :
        DetectsTears hash dev
        → (changes : List TxnFile)
        → Mounts t (advanced t (next_files t changes)) (commit dev hash t d changes).1.1
    commit-Mounts tears changes = elim (commit-Ended changes) [
      | refused e certain et ed ↦
          subst (Mounts t (advanced t (next_files t changes))) (sym ed)
            (Mounts-home (advanced t (next_files t changes)))
      | attempted lt applied e ↦
          subst (λ r. Mounts t (advanced t (next_files t changes)) r.1.1) (sym e)
            (write_next-Mounts changes lt tears)
    ]

    -- From a state that mounting the settled device gives, with a hash that detects the torn records
    -- of the device: whatever a commit's calls of the device return, wherever power is lost in it, and
    -- however that leaves the sectors it was writing, old, new or torn, the next mount finds the state
    -- from before the commit, or the next generation with all of its changes.
    pub commit-OldOrNew :
        DetectsTears hash dev
        → (changes : List TxnFile) (m : Medium) → dev.After (commit dev hash t d changes).1.1 m
        → OldOrNew t (advanced t (next_files t changes)) m
    commit-OldOrNew tears changes m after = commit-Mounts tears changes m after

    -- From a state that mounting the settled device gives, on a device whose sectors may be torn: a
    -- commit that returns SF_OK is durable. It returns the state with its changes, in the other bank
    -- and under the next generation; nothing is pending, and a mount finds this state.
    pub commit-IsHome :
        (changes : List TxnFile)
        → (commit dev hash t d changes).0 ≡ sf_ok
        → ((commit dev hash t d changes).1.0 ≡ advanced t (next_files t changes))
          × IsHome hash dev t0 (commit dev hash t d changes).1.1 (commit dev hash t d changes).1.0
    commit-IsHome changes h = elim (commit-Ended changes) [
      | refused e certain et ed ↦ absurd (ground (arith, e, ap (λ x. is_ok x) h))
      | attempted lt applied e ↦
          subst (λ r. (r.1.0 ≡ advanced t (next_files t changes)) × IsHome hash dev t0 r.1.1 r.1.0)
            (sym e) (write_next-IsHome changes lt (sym (ap (λ r. r.0) e) ∙ h))
    ]
