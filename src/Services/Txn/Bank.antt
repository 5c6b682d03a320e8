-- ===== src/Services/Txn/Bank.antt =====
-- services/txn.c: a bank of 256 sectors as one buffer, and the files that it encodes. An SfTxnFile is
-- its path and the first `bytes` bytes of its data, the rest of both arrays being zero; a table is
-- the list of the entries in use, which come first.
use spirit_fox_os.Prelude.{
  ℕ, zero, suc, ◌+◌, ◌-◌, ◌*◌, Bool, true, false, ◌&&◌, ◌||◌, ◌==◌, leb, if◌then◌else◌, List, [],
  ◌∷◌, ◌++◌, length, Option, none, some, slice, zeros, le_bytes, le_value, is_zero, same_bytes,
}
use spirit_fox_os.Services.Txn.Paths.{cstring, path_ok}

abbrev pub sector_bytes : ℕ
sector_bytes = 512

abbrev pub bank_sectors : ℕ
bank_sectors = 256

abbrev pub bank_bytes : ℕ
bank_bytes = 131072

abbrev pub txn_files : ℕ
txn_files = 5

-- SF_TXN_DATA
abbrev pub data_start : ℕ
data_start = 1152

abbrev pub file_bytes : ℕ
file_bytes = 16384

-- "SFBANK1", with its zero
abbrev pub bank_magic : List ℕ
bank_magic = 83 ∷ 70 ∷ 66 ∷ 65 ∷ 78 ∷ 75 ∷ 49 ∷ 0 ∷ []

pub record TxnFile : Type 0 where
  pub path : List ℕ
  pub content : List ℕ

-- !strcmp of a path with one of the earlier paths
unfoldable pub any_path : List ℕ → List (List ℕ) → Bool
any_path p [] = false
any_path p (q ∷ qs) = same_bytes q p || any_path p qs

-- The data of the files in their slots of 16384 bytes.
unfoldable pub file_data : List TxnFile → List ℕ
file_data [] = []
file_data (f ∷ fs) = f.content ++ (zeros (file_bytes - length f.content) ++ file_data fs)

-- The first test of decode.
unfoldable pub heading_ok : List ℕ → ℕ → ℕ → Bool
heading_ok b generation slots =
    same_bytes (slice 0 8 b) bank_magic
    && (le_value (slice 8 8 b) == generation
        && (leb (le_value (slice 16 4 b)) slots && is_zero (slice 20 492 b)))

module _ (hash : List ℕ → List ℕ) where
  -- One turn of decode's loop for an entry in use: e is its record, d its data.
  unfoldable pub decode_file : List ℕ → List ℕ → Option TxnFile
  decode_file e d =
      let path = cstring (slice 0 64 e) in
      let n = le_value (slice 64 4 e) in
      if path_ok path
        && (leb n file_bytes
            && (is_zero (slice (length path + 1) (63 - length path) e)
                && (is_zero (slice 68 28 e) && is_zero (slice n (file_bytes - n) d))))
      then (if same_bytes (hash (slice 0 n d)) (slice 96 32 e)
          then some (record { path = path; content = slice 0 n d })
          else none)
      else none

  -- The loop over the entries in use, from entry i: `paths` are those of the entries before it.
  unfoldable pub decode_used : List ℕ → ℕ → ℕ → ℕ → List (List ℕ) → Option (List TxnFile)
  decode_used b start zero i paths = some []
  decode_used b start (suc n) i paths =
      elim (decode_file (slice (sector_bytes + i * 128) 128 b)
        (slice (start + i * file_bytes) file_bytes b)) [
          | none ↦ none
          | some f ↦
              if any_path f.path paths
              then none
              else (elim (decode_used b start n (suc i) (paths ++ (f.path ∷ []))) [
                | none ↦ none
                | some fs ↦ some (f ∷ fs)
              ])
        ]

  -- The loop over the entries that are not in use.
  unfoldable pub decode_unused : List ℕ → ℕ → ℕ → ℕ → Bool
  decode_unused b start zero i = true
  decode_unused b start (suc n) i =
      is_zero (slice (sector_bytes + i * 128) 128 b)
      && (is_zero (slice (start + i * file_bytes) file_bytes b) && decode_unused b start n (suc i))

  -- t->next, or none for SF_BAD_FORMAT.
  unfoldable pub decode_bank : List ℕ → ℕ → ℕ → ℕ → Option (List TxnFile)
  decode_bank b generation slots start =
      if heading_ok b generation slots
      then (elim (decode_used b start (le_value (slice 16 4 b)) 0 []) [
        | none ↦ none
        | some fs ↦
            if decode_unused b start (slots - le_value (slice 16 4 b)) (le_value (slice 16 4 b))
              && is_zero
                  (slice (start + slots * file_bytes) (bank_bytes - start - slots * file_bytes) b)
            then some fs
            else none
      ])
      else none

  abbrev pub file_record : TxnFile → List ℕ
  file_record f =
      f.path
      ++ (zeros (64 - length f.path)
          ++ (le_bytes 4 (length f.content) ++ (zeros 28 ++ hash f.content)))

  unfoldable pub file_records : List TxnFile → List ℕ
  file_records [] = []
  file_records (f ∷ fs) = file_record f ++ file_records fs

  -- The buffer that sf_txn_commit builds over zeros.
  unfoldable pub encode_bank : ℕ → List TxnFile → List ℕ
  encode_bank generation files =
      bank_magic
      ++ (le_bytes 8 generation
          ++ (le_bytes 4 (length files)
              ++ (zeros 492
                  ++ (file_records files
                      ++ (zeros (640 - length files * 128)
                          ++ (file_data files
                              ++ zeros (bank_bytes - data_start - length files * file_bytes)))))))
