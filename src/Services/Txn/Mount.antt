-- ===== src/Services/Txn/Mount.antt =====
-- services/txn.c, sf_txn_mount and sf_txn_get: the snapshot that a device holds.
use spirit_fox_os.Prelude.{
  ℕ, zero, suc, ◌+◌, ◌*◌, Bool, true, false, not, ◌&&◌, ◌==◌, ltb, if◌then◌else◌, ℤ, sf_ok,
  sf_bad_format, sf_not_found, sf_no_space, pos, negsuc, List, [], ◌∷◌, ◌++◌, length, Option, none,
  some, slice, le_value, is_zero, same_bytes,
}
use spirit_fox_os.Services.Txn.Bank.{TxnFile, decode_bank, txn_files, data_start, bank_sectors}

abbrev pub sf_device_gone : ℤ
sf_device_gone = negsuc 9

abbrev pub is_ok : ℤ → Bool
is_ok (pos zero) = true
is_ok (pos (suc n)) = false
is_ok (negsuc n) = false

-- SF_TXN_HEADER, and the records of the two slots after it
abbrev pub header_sector : ℕ
header_sector = 2048

abbrev pub record_sector : ℕ → ℕ
record_sector bank = 2049 + bank

-- SF_TXN_BANK+slot*SF_TXN_BANK_SECTORS
abbrev pub bank_sector : ℕ → ℕ
bank_sector bank = 2051 + bank * bank_sectors

-- "SFTXN1\0\0" and "SFCMT1\0\0"
abbrev pub header_magic : List ℕ
header_magic = 83 ∷ 70 ∷ 84 ∷ 88 ∷ 78 ∷ 49 ∷ 0 ∷ 0 ∷ []

abbrev pub commit_magic : List ℕ
commit_magic = 83 ∷ 70 ∷ 67 ∷ 77 ∷ 84 ∷ 49 ∷ 0 ∷ 0 ∷ []

-- The fields of SfTxn that outlive a call: `next` and `buffer` are scratch.
pub record Txn : Type 0 where
  pub generation : ℕ
  pub bank : ℕ
  pub ready : Bool
  pub volume : List ℕ
  pub files : List TxnFile

-- What a turn of the loop of sf_txn_mount makes of its slot: an error, `continue`, or a snapshot.
pub data Checked : Type 0 where
  failed : ℤ → Checked
  skipped : Checked
  found : ℕ → List TxnFile → Checked

-- The callback with its context: a code, and the sector.
abbrev pub Reader : Type 0
Reader = ℕ → ℤ × List ℕ

-- The loop that reads n sectors from sector i.
unfoldable pub read_sectors : Reader → ℕ → ℕ → ℤ × List ℕ
read_sectors read zero i = (sf_ok, [])
read_sectors read (suc n) i =
    let s = read i in
    let rest = read_sectors read n (suc i) in if is_ok s.0 then (rest.0, s.1 ++ rest.1) else s

-- t->generation, t->bank and t->files after a slot that is not skipped.
unfoldable pub consider_slot : Txn → ℕ → Checked → ℤ × Txn
consider_slot t slot (failed r) = (r, t)
consider_slot t slot skipped = (sf_ok, t)
consider_slot t slot (found generation files) =
    if generation == t.generation
    then (sf_bad_format, t)
    else (if ltb t.generation generation
        then (sf_ok, record t { generation = generation; bank = slot; files = files })
        else (sf_ok, t))

-- The two turns of the loop, and what follows it.
unfoldable pub choose : Txn → Checked → Checked → ℤ × Txn
choose t first second =
    let a = consider_slot t 0 first in
    if not (is_ok a.0)
    then a
    else (let b = consider_slot a.1 1 second in
        if not (is_ok b.0)
        then b
        else (if b.1.generation == 0
            then (sf_bad_format, b.1)
            else (sf_ok, record b.1 { ready = true })))

module _ (hash : List ℕ → List ℕ) where
  unfoldable pub sealed : List ℕ → Bool
  sealed s = same_bytes (hash (slice 0 480 s)) (slice 480 32 s)

  unfoldable pub header_ok : List ℕ → Bool
  header_ok s =
      same_bytes (slice 0 8 s) header_magic
      && (le_value (slice 8 4 s) == 1
          && (le_value (slice 12 4 s) == 4096 && (is_zero (slice 32 448 s) && sealed s)))

  unfoldable pub record_ok : List ℕ → List ℕ → ℕ → Bool
  record_ok s volume slot =
      same_bytes (slice 0 8 s) commit_magic
      && (sealed s
          && (not (le_value (slice 8 8 s) == 0)
              && (le_value (slice 16 4 s) == slot
                  && (le_value (slice 20 4 s) == 0
                      && (same_bytes (slice 24 16 s) volume && is_zero (slice 72 408 s))))))

  -- Five files with their data at 1152, or the four files at 1024 of the first banks.
  unfoldable pub decode_either : List ℕ → ℕ → Option (List TxnFile)
  decode_either b generation = elim (decode_bank hash b generation txn_files data_start) [
    | some files ↦ some files
    | none ↦ decode_bank hash b generation 4 1024
  ]

  -- A slot whose record s is in order, with the bytes of its bank.
  unfoldable pub check_bank : List ℕ → ℤ × List ℕ → Checked
  check_bank s b =
      if not (is_ok b.0)
      then failed b.0
      else (if not (same_bytes (hash b.1) (slice 40 32 s))
          then skipped
          else (elim (decode_either b.1 (le_value (slice 8 8 s))) [
            | none ↦ skipped
            | some files ↦ found (le_value (slice 8 8 s)) files
          ]))

  unfoldable pub check_slot : Reader → List ℕ → ℕ → Checked
  check_slot read volume slot =
      let s = read (record_sector slot) in
      if not (is_ok s.0)
      then failed s.0
      else (if not (record_ok s.1 volume slot)
          then skipped
          else check_bank s.1 (read_sectors read bank_sectors (bank_sector slot)))

  unfoldable pub mount : Txn → Reader → ℤ × Txn
  mount t read =
      let t0 : Txn = record t { ready = false; generation = 0 } in
      let s = read header_sector in
      if not (is_ok s.0)
      then (s.0, t0)
      else (if not (header_ok s.1)
          then (sf_bad_format, t0)
          else choose (record t0 { volume = slice 16 16 s.1 }) (check_slot read (slice 16 16 s.1) 0)
              (check_slot read (slice 16 16 s.1) 1))

-- The loop of sf_txn_get: an entry that is not in use has the empty path and no bytes.
unfoldable pub find_file : ℕ → List TxnFile → List ℕ → Option (List ℕ)
find_file zero files path = none
find_file (suc room) [] path = if same_bytes [] path then some [] else none
find_file (suc room) (f ∷ fs) path =
    if same_bytes f.path path then some f.content else find_file room fs path

-- The code, or the count of the bytes that are copied out.
unfoldable pub get : Txn → List ℕ → ℕ → ℤ × List ℕ
get t path capacity =
    if not t.ready then (sf_device_gone, []) else (elim (find_file txn_files t.files path) [
      | none ↦ (sf_not_found, [])
      | some content ↦
          if ltb capacity (length content)
          then (sf_no_space, [])
          else (pos (length content), content)
    ])
