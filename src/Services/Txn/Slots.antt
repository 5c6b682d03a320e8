-- ===== src/Services/Txn/Slots.antt =====
-- services/txn.c: what a slot of the device is worth to sf_txn_mount, and which slot it picks.
pub mod Records
pub mod Choice
use mathlib.Core.List.{append-nil}
use spirit_fox_os.Prelude.{
  ℕ, zero, suc, ◌+◌, ◌*◌, ◌^◌, ◌<◌, ◌≤◌, ◌≡◌, refl, sym, ◌∙◌, ap, subst, inl, inr, Bool, true,
  false, not, ◌&&◌, ◌||◌, ◌==◌, ltb, if◌then◌else◌, ℤ, sf_ok, sf_bad_format, List, [], ◌∷◌, ◌++◌,
  length, arith, Option, none, some, slice, zeros, le_bytes, le_value, same_bytes, same_bytes_refl,
  is_zero, is_zero-zeros, length-zeros, length-le_bytes, le_value-le_bytes, slice-between,
  slice-end, slice-front, length-append, and-true, take, drop, take-append-drop, length-drop,
  slice-zeros, zeros-suc, and-false, ◌⊎◌, same_bytes→≡, Bool-cases,
}
use spirit_fox_os.Services.Txn.Bank.{
  TxnFile, encode_bank, decode_bank, txn_files, data_start, bank_bytes, bank_sectors, sector_bytes,
}
use spirit_fox_os.Services.Txn.Mount.{
  Txn, Checked, failed, skipped, found, Reader, is_ok, consider_slot, choose, sealed, record_ok,
  read_sectors, check_bank, check_slot, decode_either, mount, commit_magic, record_sector,
  bank_sector, header_sector, header_ok,
}
use spirit_fox_os.Services.Txn.Commit.{commit_record, record_body, other_bank, sectors, advanced}
use spirit_fox_os.Services.Txn.Device.{Device, LooksSealed, DetectsTears}
use spirit_fox_os.Services.Txn.Table.{IsTable}
use spirit_fox_os.Services.Txn.Decoding.Encoded.{decode_bank-encode_bank}

-- The sectors from sector i are those of the list.
abbrev pub Holds : (ℕ → List ℕ) → ℕ → List (List ℕ) → Type 0
Holds m i [] = Unit
Holds m i (s ∷ ss) = (m i ≡ s) × Holds m (suc i) ss

-- Reading a medium, which never fails.
abbrev pub reading : (ℕ → List ℕ) → Reader
reading m i = (sf_ok, m i)

read_sectors-Holds :
    (m : ℕ → List ℕ) (n i : ℕ) (b : List ℕ)
    → length b ≡ n * sector_bytes
    → Holds m i (sectors n b)
    → read_sectors (reading m) n i ≡ (sf_ok, b)
unfolding read_sectors sectors
read_sectors-Holds m zero i [] l h = refl
read_sectors-Holds m zero i (x ∷ b) l h = absurd (omega (arith, l))
read_sectors-Holds m (suc n) i b l h =
    let rest : length (drop sector_bytes b) ≡ n * sector_bytes =
      omega (arith, length-drop sector_bytes b, l) in
    rw (h.0, read_sectors-Holds m n (suc i) (drop sector_bytes b) rest h.1)
      (ap (λ x. (sf_ok, x)) (take-append-drop sector_bytes b))

-- Media that agree on a slot's sectors are read alike.
read_sectors-same :
    (m m' : ℕ → List ℕ) (n i : ℕ)
    → ((k : ℕ) → i ≤ k → k < i + n → m k ≡ m' k)
    → read_sectors (reading m) n i ≡ read_sectors (reading m') n i
unfolding read_sectors
read_sectors-same m m' zero i same = refl
read_sectors-same m m' (suc n) i same =
    rw
      (
        same i (omega arith) (omega arith),
        read_sectors-same m m' n (suc i) (λ k l u. same k (omega arith) (omega arith)),
      )
      refl

module _ (hash : List ℕ → List ℕ) where
  pub check_slot-same :
      (m m' : ℕ → List ℕ) (volume : List ℕ) (slot : ℕ)
      → m (record_sector slot) ≡ m' (record_sector slot)
      → ((k : ℕ) → bank_sector slot ≤ k → k < bank_sector slot + bank_sectors → m k ≡ m' k)
      → check_slot hash (reading m) volume slot ≡ check_slot hash (reading m') volume slot
  unfolding check_slot
  check_slot-same m m' volume slot rec same =
      rw (rec, read_sectors-same m m' bank_sectors (bank_sector slot) same) refl

  -- A record that no volume and no slot accept.
  abbrev pub IsOff : List ℕ → Type 0
  IsOff x = (volume : List ℕ) (slot : ℕ) → record_ok hash x volume slot ≡ false

  pub zeros-IsOff : IsOff (zeros sector_bytes)
  unfolding record_ok
  zeros-IsOff volume slot = and-false _ _ (ap (λ x. same_bytes x commit_magic) magic)
    where
      magic : slice 0 8 (zeros sector_bytes) ≡ 0 ∷ zeros 7
      magic =
          ap (λ x. slice 0 8 x) (sym (append-nil (zeros sector_bytes)))
          ∙ slice-zeros [] [] 0 8 0 sector_bytes (omega arith) (omega arith)
          ∙ zeros-suc 7

  -- What mount may accept looks sealed.
  IsOff-cases : (x : List ℕ) → LooksSealed hash x ⊎ IsOff x
  unfolding record_ok sealed
  IsOff-cases x = elim (Bool-cases (same_bytes (slice 0 8 x) commit_magic)) [
    | inr e ↦ inr (λ volume slot. and-false _ _ e)
    | inl e ↦ elim (Bool-cases (same_bytes (hash (slice 0 480 x)) (slice 480 32 x))) [
      | inr s ↦ inr (λ volume slot. rw (e, s) refl)
      | inl s ↦ inl (
        same_bytes→≡ (slice 0 8 x) commit_magic e,
        same_bytes→≡ (hash (slice 0 480 x)) (slice 480 32 x) s,
      )
    ]
  ]

  -- A record that is torn is accepted only when it is whole.
  pub torn_erase-IsOff :
      (dev : Device)
      → DetectsTears hash dev
      → (old x : List ℕ) → dev.Torn old (zeros sector_bytes) x
      → (x ≡ old) ⊎ IsOff x
  torn_erase-IsOff dev tears old x torn = elim (IsOff-cases x) [
    | inl looks ↦ inl (tears.erase_lem old x torn looks)
    | inr off ↦ inr off
  ]

  pub torn_record-IsOff :
      (dev : Device)
      → DetectsTears hash dev
      → (body x : List ℕ) → length body ≡ 480
      → dev.Torn (zeros sector_bytes) (body ++ hash body) x
      → (x ≡ body ++ hash body) ⊎ IsOff x
  torn_record-IsOff dev tears body x l torn = elim (IsOff-cases x) [
    | inl looks ↦ inl (tears.record_lem body x l torn looks)
    | inr off ↦ inr off
  ]

  -- Such a record leaves the slot out.
  pub check_slot-IsOff :
      (m : ℕ → List ℕ) (volume : List ℕ) (slot : ℕ)
      → IsOff (m (record_sector slot))
      → check_slot hash (reading m) volume slot ≡ skipped
  unfolding check_slot
  check_slot-IsOff m volume slot off = rw (off volume slot) refl

  -- The bytes of a slot's bank.
  abbrev pub bank_at : (ℕ → List ℕ) → ℕ → List ℕ
  bank_at m slot = (read_sectors (reading m) bank_sectors (bank_sector slot)).1

  -- A slot that holds a snapshot has a sealed record, with the hash of its bank.
  pub record FoundOk (m : ℕ → List ℕ) (slot : ℕ) : Type 0 where
    pub looks_lem : LooksSealed hash (m (record_sector slot))
    pub digest_lem : hash (bank_at m slot) ≡ slice 40 32 (m (record_sector slot))

  pub check_slot-FoundOk :
      (m : ℕ → List ℕ) (volume : List ℕ) (slot generation : ℕ) (files : List TxnFile)
      → check_slot hash (reading m) volume slot ≡ found generation files
      → FoundOk m slot
  unfolding check_slot check_bank
  check_slot-FoundOk m volume slot generation files e = record {
    looks_lem = elim (IsOff-cases (m (record_sector slot))) [
      | inl looks ↦ looks
      | inr off ↦ absurd (cc (sym (check_slot-IsOff m volume slot off) ∙ e))
    ];
    digest_lem = elim (Bool-cases digest) [
      | inl same ↦ same_bytes→≡ (hash (bank_at m slot)) (slice 40 32 (m (record_sector slot))) same
      | inr differs ↦ elim (Bool-cases (record_ok hash (m (record_sector slot)) volume slot)) [
        | inr off ↦ let bad : skipped ≡ found generation files = rw off at e in absurd (cc bad)
        | inl accepted ↦ elim (Bool-cases (is_ok bank.0)) [
          | inr error ↦
              let bad : failed bank.0 ≡ found generation files = rw (accepted, error) at e in
              absurd (cc bad)
          | inl read ↦
              let bad : skipped ≡ found generation files = rw (accepted, read, differs) at e in
              absurd (cc bad)
        ]
      ]
    ];
  }
    where
      bank : ℤ × List ℕ
      bank = read_sectors (reading m) bank_sectors (bank_sector slot)

      digest : Bool
      digest = same_bytes (hash (bank_at m slot)) (slice 40 32 (m (record_sector slot)))
