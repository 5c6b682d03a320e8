-- ===== src/Services/Txn/Commit.antt =====
-- services/txn.c, sf_txn_commit and sf_txn_resize: writing the next snapshot.
use spirit_fox_os.Prelude.{
  ℕ, zero, suc, ◌+◌, ◌-◌, ◌^◌, Bool, true, false, not, ◌||◌, ◌==◌, ltb, if◌then◌else◌, ℤ, sf_ok,
  sf_invalid, sf_no_space, pos, negsuc, List, [], ◌∷◌, ◌++◌, length, take, Option, none, some,
  zeros, le_bytes, same_bytes, drop,
}
use spirit_fox_os.Services.Txn.Paths.{path_ok}
use spirit_fox_os.Services.Txn.Bank.{
  TxnFile, any_path, encode_bank, txn_files, file_bytes, bank_sectors, sector_bytes,
}
use spirit_fox_os.Services.Txn.Device.{Device}
use spirit_fox_os.Services.Txn.Mount.{
  Txn, is_ok, commit_magic, record_sector, bank_sector, sf_device_gone, find_file,
}

abbrev pub sf_commit_uncertain : ℤ
sf_commit_uncertain = negsuc 19

abbrev pub is_uncertain : ℤ → Bool
is_uncertain (pos n) = false
is_uncertain (negsuc n) = n == 19

-- The entry of the path, or the first that is not in use, among those that are left.
unfoldable pub place : ℕ → List TxnFile → TxnFile → Option (List TxnFile)
place zero files c = none
place (suc room) [] c = some (c ∷ [])
place (suc room) (f ∷ fs) c =
    if same_bytes f.path c.path
    then some (c ∷ fs)
    else (elim (place room fs c) [ none ↦ none | some fs' ↦ some (f ∷ fs') ])

-- The loop over the changes: `seen` are the paths of those before. A change is a path with its bytes.
unfoldable pub apply_changes : List TxnFile → List (List ℕ) → List TxnFile → ℤ × List TxnFile
apply_changes files seen [] = (sf_ok, files)
apply_changes files seen (c ∷ cs) =
    if not (path_ok c.path) || (ltb file_bytes (length c.content) || any_path c.path seen)
    then (sf_invalid, files)
    else (elim (place txn_files files c) [
      | none ↦ (sf_no_space, files)
      | some files' ↦ apply_changes files' (seen ++ (c.path ∷ [])) cs
    ])

-- t->bank^1, for a bank that is 0 or 1
abbrev pub other_bank : ℕ → ℕ
other_bank bank = if bank == 0 then 1 else 0

-- The sectors of a buffer.
unfoldable pub sectors : ℕ → List ℕ → List (List ℕ)
sectors zero b = []
sectors (suc n) b = take sector_bytes b ∷ sectors n (drop sector_bytes b)

abbrev pub record_body : ℕ → ℕ → List ℕ → List ℕ → List ℕ
record_body generation bank volume bank_hash =
    commit_magic
    ++ (le_bytes 8 generation
        ++ (le_bytes 4 bank ++ (zeros 4 ++ (volume ++ (bank_hash ++ zeros 408)))))

module _ (hash : List ℕ → List ℕ) where
  -- seal: the last 32 bytes are the hash of the others.
  unfoldable pub commit_record : ℕ → ℕ → List ℕ → List ℕ → List ℕ
  commit_record generation bank volume bank_hash =
      record_body generation bank volume bank_hash
      ++ hash (record_body generation bank volume bank_hash)

abbrev pub advanced : Txn → List TxnFile → Txn
advanced t next = record t { files = next; generation = t.generation + 1; bank = other_bank t.bank }

-- The bytes of the file at the new length: those it had, or zeros after them.
abbrev pub resized : List ℕ → ℕ → List ℕ
resized content bytes = take bytes content ++ zeros (bytes - length content)

abbrev pub old_content : Txn → List ℕ → List ℕ
old_content t path = elim (find_file txn_files t.files path) [ none ↦ [] | some content ↦ content ]

module _ (dev : Device) where
  -- write(i, s)||flush(): whether both succeeded.
  unfoldable pub write_flush : dev.State → ℕ → List ℕ → Bool × dev.State
  write_flush d i s =
      let w = dev.write d i s in
      if not (is_ok w.0) then (false, w.1) else (is_ok (dev.flush w.1).0, (dev.flush w.1).1)

  -- The loop that writes the sectors of a buffer from sector i.
  unfoldable pub write_sectors : dev.State → ℕ → List (List ℕ) → Bool × dev.State
  write_sectors d i [] = (true, d)
  write_sectors d i (s ∷ ss) =
      let w = dev.write d i s in
      let rest = write_sectors w.1 (suc i) ss in if not (is_ok w.0) then (false, w.1) else rest

  unfoldable pub write_bank : dev.State → ℕ → List (List ℕ) → Bool × dev.State
  write_bank d bank ss =
      let w = write_sectors d (bank_sector bank) ss in
      if not w.0 then w else (is_ok (dev.flush w.1).0, (dev.flush w.1).1)

  -- The old record of the bank is erased before its sectors are written, the new one follows them.
  unfoldable pub write_snapshot : dev.State → ℕ → List (List ℕ) → List ℕ → Bool × dev.State
  write_snapshot d bank ss s =
      let erased = write_flush d (record_sector bank) (zeros sector_bytes) in
      if not erased.0
      then erased
      else (let filled = write_bank erased.1 bank ss in
          if not filled.0 then filled else write_flush filled.1 (record_sector bank) s)

  module _ (hash : List ℕ → List ℕ) where
    abbrev pub snapshot_record : Txn → List TxnFile → List ℕ
    snapshot_record t next =
        commit_record hash (t.generation + 1) (other_bank t.bank) t.volume
          (hash (encode_bank hash (t.generation + 1) next))

    unfoldable pub write_next : Txn → dev.State → List TxnFile → ℤ × (Txn × dev.State)
    write_next t d next =
        let w =
          write_snapshot d (other_bank t.bank)
            (sectors bank_sectors (encode_bank hash (t.generation + 1) next))
            (snapshot_record t next) in
        if w.0
        then (sf_ok, (advanced t next, w.1))
        else (sf_commit_uncertain, (record t { ready = false }, w.1))

    -- sf_txn_commit after the test of t->ready.
    unfoldable pub commit_ready : Txn → dev.State → List TxnFile → ℤ × (Txn × dev.State)
    commit_ready t d changes =
        if length changes == 0 || (ltb txn_files (length changes) || (t.generation == 2 ^ 64 - 1))
        then (sf_invalid, (t, d))
        else (let next = apply_changes t.files [] changes in
            if not (is_ok next.0) then (next.0, (t, d)) else write_next t d next.1)

    unfoldable pub commit : Txn → dev.State → List TxnFile → ℤ × (Txn × dev.State)
    commit t d changes = if not t.ready then (sf_device_gone, (t, d)) else commit_ready t d changes

    unfoldable pub resize : Txn → dev.State → List ℕ → ℕ → ℤ × (Txn × dev.State)
    resize t d path bytes =
        if not t.ready
        then (sf_device_gone, (t, d))
        else (if not (path_ok path)
            then (sf_invalid, (t, d))
            else (if ltb file_bytes bytes
                then (sf_no_space, (t, d))
                else (if bytes == length (old_content t path)
                    then (sf_ok, (t, d))
                    else commit t d (
                        record { path = path; content = resized (old_content t path) bytes }
                        ∷ []))))
