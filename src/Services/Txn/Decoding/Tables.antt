-- ===== src/Services/Txn/Decoding/Tables.antt =====
-- services/txn.c: decode, and with it sf_txn_mount, accepts only tables of files.
use spirit_fox_os.Prelude.{
  ℕ, zero, suc, ◌+◌, ◌-◌, ◌*◌, ◌≤◌, ◌≡◌, refl, ap, subst, inl, inr, Bool, true, ◌&&◌, List, [], ◌∷◌,
  ◌++◌, length, arith, Option, none, some, same_bytes, leb, slice, le_value, is_zero,
  length-slice_le, Bool-cases, Option-cases, ℤ,
}
use spirit_fox_os.Services.Txn.Paths.{path_ok, cstring}
use spirit_fox_os.Services.Txn.Bank.{
  TxnFile, any_path, txn_files, file_bytes, decode_file, decode_used, decode_unused, decode_bank,
  heading_ok, data_start, bank_bytes, sector_bytes, bank_sectors,
}
use spirit_fox_os.Services.Txn.Table.{Entries, IsTable}
use spirit_fox_os.Services.Txn.Mount.{
  Checked, found, failed, skipped, decode_either, check_bank, check_slot, Reader, is_ok, record_ok,
  record_sector, bank_sector, read_sectors,
}

some-injective {ℓ} : {A : Type ℓ} {a b : A} → some a ≡ some b → a ≡ b
some-injective {a} e = ap (λ o. elim o [ none ↦ a | some x ↦ x ]) e

-- A file that is decoded has a path that is allowed, and fits its slot.
record FileOk (f : TxnFile) : Type 0 where
  allowed : path_ok f.path ≡ true
  fits : length f.content ≤ file_bytes

abbrev DecodedOk : Option TxnFile → Type 0
DecodedOk none = Unit
DecodedOk (some f) = FileOk f

module _ (hash : List ℕ → List ℕ) where
  decode_file-DecodedOk : (e d : List ℕ) → DecodedOk (decode_file hash e d)
  unfolding decode_file
  decode_file-DecodedOk e d = elim (Bool-cases tests) [
    | inr h ↦ rw h tt
    | inl h ↦ elim (Bool-cases (same_bytes (hash (slice 0 n d)) (slice 96 32 e))) [
      | inr h' ↦ rw (h, h') tt
      | inl h' ↦
          let fits : n ≤ file_bytes = ground (arith, h) in
          rw (h, h')
            (record {
              allowed = ground (arith, h);
              fits = omega (arith, length-slice_le 0 n d, fits);
            })
    ]
  ]
    where
      n : ℕ
      n = le_value (slice 64 4 e)

      path : List ℕ
      path = cstring (slice 0 64 e)

      tests : Bool
      tests =
          path_ok path
          && (leb n file_bytes
              && (is_zero (slice (length path + 1) (63 - length path) e)
                  && (is_zero (slice 68 28 e) && is_zero (slice n (file_bytes - n) d))))

  abbrev UsedOk : ℕ → List (List ℕ) → Option (List TxnFile) → Type 0
  UsedOk n paths none = Unit
  UsedOk n paths (some fs) = Entries paths fs × (length fs ≡ n)

  decode_used-UsedOk :
      (n : ℕ) (b : List ℕ) (start i : ℕ) (paths : List (List ℕ))
      → UsedOk n paths (decode_used hash b start n i paths)
  unfolding decode_used Entries
  decode_used-UsedOk zero b start i paths = (tt, refl)
  decode_used-UsedOk (suc n) b start i paths =
      let file =
        decode_file hash (slice (sector_bytes + i * 128) 128 b)
          (slice (start + i * file_bytes) file_bytes b) in
      elim (Option-cases file) [
        | inl e ↦ rw (e, decode_used) tt
        | inr s ↦
            let f : FileOk s.0 = subst DecodedOk s.1 (
              decode_file-DecodedOk (slice (sector_bytes + i * 128) 128 b)
                (slice (start + i * file_bytes) file_bytes b)) in
            elim (Bool-cases (any_path s.0.path paths)) [
              | inl h ↦ rw (s.1, h, decode_used) tt
              | inr h ↦
                  elim (Option-cases
                    (decode_used hash b start n (suc i) (paths ++ (s.0.path ∷ [])))) [
                      | inl e ↦ rw (s.1, h, e, decode_used) tt
                      | inr r ↦
                          let rest : UsedOk n (paths ++ (s.0.path ∷ [])) (some r.0) =
                            subst (UsedOk n (paths ++ (s.0.path ∷ []))) r.1
                              (decode_used-UsedOk n b start (suc i) (paths ++ (s.0.path ∷ []))) in
                          rw (s.1, h, r.1, decode_used)
                            (
                              (record { allowed = f.allowed; fits = f.fits; fresh = h }, rest.0),
                              ap suc rest.1,
                            )
                    ]
            ]
      ]

  abbrev TableOk : Option (List TxnFile) → Type 0
  TableOk none = Unit
  TableOk (some fs) = IsTable fs

  decode_bank-TableOk :
      (b : List ℕ) (generation slots start : ℕ)
      → slots ≤ txn_files
      → TableOk (decode_bank hash b generation slots start)
  unfolding decode_bank heading_ok
  decode_bank-TableOk b generation slots start few =
      elim (Bool-cases (heading_ok b generation slots)) [
        | inr h ↦ rw h tt
        | inl h ↦
            let count_le : count ≤ slots = ground (arith, h) in
            elim (Option-cases (decode_used hash b start count 0 [])) [
              | inl e ↦ rw (h, e) tt
              | inr s ↦
                  let used : UsedOk count [] (some s.0) =
                    subst (UsedOk count []) s.1 (decode_used-UsedOk count b start 0 []) in
                  elim (Bool-cases rest) [
                    | inr h' ↦ rw (h, s.1, h') tt
                    | inl h' ↦
                        rw (h, s.1, h')
                          (record {
                            entries = used.0;
                            count_le = omega (arith, used.1, count_le, few);
                          })
                  ]
            ]
      ]
    where
      count : ℕ
      count = le_value (slice 16 4 b)

      rest : Bool
      rest =
          decode_unused hash b start (slots - count) count
          && is_zero
              (slice (start + slots * file_bytes) (bank_bytes - start - slots * file_bytes) b)

  TableOk-or :
      (o o' : Option (List TxnFile))
      → TableOk o
      → TableOk o'
      → TableOk (elim o [ some files ↦ some files | none ↦ o' ])
  TableOk-or none o' h h' = h'
  TableOk-or (some fs) o' h h' = h

  decode_either-TableOk : (b : List ℕ) (generation : ℕ) → TableOk (decode_either hash b generation)
  unfolding decode_either
  decode_either-TableOk b generation =
      TableOk-or (decode_bank hash b generation txn_files data_start)
        (decode_bank hash b generation 4 1024)
        (decode_bank-TableOk b generation txn_files data_start (omega arith))
        (decode_bank-TableOk b generation 4 1024 (omega arith))

  abbrev pub CheckedOk : Checked → Type 0
  CheckedOk (failed r) = Unit
  CheckedOk skipped = Unit
  CheckedOk (found g fs) = IsTable fs

  check_bank-CheckedOk : (s : List ℕ) (b : ℤ × List ℕ) → CheckedOk (check_bank hash s b)
  unfolding check_bank
  check_bank-CheckedOk s b = elim (Bool-cases (is_ok b.0)) [
    | inr e ↦ rw e tt
    | inl e ↦ elim (Bool-cases (same_bytes (hash b.1) (slice 40 32 s))) [
      | inr h ↦ rw (e, h) tt
      | inl h ↦ elim (Option-cases (decode_either hash b.1 (le_value (slice 8 8 s)))) [
        | inl n ↦ rw (e, h, n) tt
        | inr r ↦
            rw (e, h, r.1) (subst TableOk r.1 (decode_either-TableOk b.1 (le_value (slice 8 8 s))))
      ]
    ]
  ]

  -- The files of a slot are a table.
  pub check_slot-CheckedOk :
      (read : Reader) (volume : List ℕ) (slot : ℕ) → CheckedOk (check_slot hash read volume slot)
  unfolding check_slot
  check_slot-CheckedOk read volume slot = elim (Bool-cases (is_ok (read (record_sector slot)).0)) [
    | inr e ↦ rw e tt
    | inl e ↦ elim (Bool-cases (record_ok hash (read (record_sector slot)).1 volume slot)) [
      | inr h ↦ rw (e, h) tt
      | inl h ↦
          rw (e, h)
            (check_bank-CheckedOk (read (record_sector slot)).1
              (read_sectors read bank_sectors (bank_sector slot)))
    ]
  ]
