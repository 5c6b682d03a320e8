-- ===== src/Services/Txn/Slots/Records.antt =====
-- services/txn.c: sf_txn_mount accepts the record that sf_txn_commit seals, and finds its snapshot.
use mathlib.Core.List.{append_assoc}
use spirit_fox_os.Prelude.{
  ℕ, ◌+◌, ◌^◌, ◌<◌, ◌≡◌, refl, ◌∙◌, ap, true, not, ◌==◌, List, ◌++◌, length, arith, slice, zeros,
  le_bytes, le_value, same_bytes, same_bytes_refl, is_zero, is_zero-zeros, length-zeros,
  length-le_bytes, le_value-le_bytes, slice-between, slice-end, slice-front, length-append,
  and-true, slice-skip, le_value-zeros,
}
use spirit_fox_os.Services.Txn.Bank.{TxnFile, encode_bank, bank_sectors}
use spirit_fox_os.Services.Txn.Mount.{
  Txn, found, sealed, record_ok, check_bank, check_slot, decode_either, commit_magic, record_sector,
  bank_sector,
}
use spirit_fox_os.Services.Txn.Commit.{commit_record, record_body, sectors}
use spirit_fox_os.Services.Txn.Table.{IsTable}
use spirit_fox_os.Services.Txn.Decoding.Encoded.{decode_bank-encode_bank, length-encode_bank}
use spirit_fox_os.Services.Txn.Slots.{Holds, reading, read_sectors-Holds}

append_assoc_seven :
    (a b c d e f g z : List ℕ)
    → (a ++ (b ++ (c ++ (d ++ (e ++ (f ++ g)))))) ++ z
      ≡ a ++ (b ++ (c ++ (d ++ (e ++ (f ++ (g ++ z))))))
append_assoc_seven a b c d e f g z = simp append_assoc refl

module _ (hash : List ℕ → List ℕ) (hash_length : (b : List ℕ) → length (hash b) ≡ 32) where
  module _ (generation slot : ℕ) (volume : List ℕ) (bank_hash : List ℕ)
      (small : generation < 2 ^ 64) (positive : 0 < generation) (a_slot : slot < 2)
      (volume_length : length volume ≡ 16) (bank_hash_length : length bank_hash ≡ 32) where
    abbrev body : List ℕ
    body = record_body generation slot volume bank_hash

    abbrev sealed_record : List ℕ
    sealed_record = commit_record hash generation slot volume bank_hash

    abbrev stamp : List ℕ
    stamp = le_bytes 8 generation

    abbrev number : List ℕ
    number = le_bytes 4 slot

    abbrev fields_5 : List ℕ
    fields_5 = bank_hash ++ (zeros 408 ++ hash body)

    abbrev fields_4 : List ℕ
    fields_4 = volume ++ fields_5

    abbrev fields_3 : List ℕ
    fields_3 = zeros 4 ++ fields_4

    abbrev fields_2 : List ℕ
    fields_2 = number ++ fields_3

    abbrev fields_1 : List ℕ
    fields_1 = stamp ++ fields_2

    pub length-body : length body ≡ 480
    length-body = omega (
      arith,
      length-append stamp (number ++ (zeros 4 ++ (volume ++ (bank_hash ++ zeros 408)))),
      length-append number (zeros 4 ++ (volume ++ (bank_hash ++ zeros 408))),
      length-append (zeros 4) (volume ++ (bank_hash ++ zeros 408)),
      length-append volume (bank_hash ++ zeros 408),
      length-append bank_hash (zeros 408),
      length-le_bytes 8 generation,
      length-le_bytes 4 slot,
      length-zeros 4,
      length-zeros 408,
      volume_length,
      bank_hash_length,
    )

    record-fields : sealed_record ≡ commit_magic ++ fields_1
    unfolding commit_record
    record-fields =
        append_assoc_seven commit_magic stamp number (zeros 4) volume bank_hash (zeros 408)
          (hash body)

    sealed_lem : sealed hash sealed_record ≡ true
    unfolding sealed commit_record
    sealed_lem =
        ap (λ x. same_bytes (hash x) (slice 480 32 (body ++ hash body)))
          (slice-front body (hash body) 480 length-body)
        ∙ ap (λ x. same_bytes (hash body) x)
            (slice-end body (hash body) 480 32 length-body (hash_length body))
        ∙ same_bytes_refl (hash body)

    magic_slice : slice 0 8 sealed_record ≡ commit_magic
    magic_slice = ap (slice 0 8) record-fields ∙ slice-front commit_magic fields_1 8 refl

    stamp-slice : slice 8 8 sealed_record ≡ stamp
    stamp-slice =
        ap (slice 8 8) record-fields
        ∙ slice-between commit_magic stamp fields_2 8 8 refl (length-le_bytes 8 generation)

    from_stamp : (o n : ℕ) → slice (16 + o) n sealed_record ≡ slice o n fields_2
    from_stamp o n =
        ap (slice (16 + o) n) record-fields
        ∙ slice-skip commit_magic fields_1 (16 + o) n (8 + o) (omega arith)
        ∙ slice-skip stamp fields_2 (8 + o) n o (omega (arith, length-le_bytes 8 generation))

    from_number : (o n : ℕ) → slice (20 + o) n sealed_record ≡ slice o n fields_3
    from_number o n =
        ap (λ k. slice k n sealed_record) (omega arith)
        ∙ from_stamp (4 + o) n
        ∙ slice-skip number fields_3 (4 + o) n o (omega (arith, length-le_bytes 4 slot))

    from_zeros : (o n : ℕ) → slice (24 + o) n sealed_record ≡ slice o n fields_4
    from_zeros o n =
        ap (λ k. slice k n sealed_record) (omega arith)
        ∙ from_number (4 + o) n
        ∙ slice-skip (zeros 4) fields_4 (4 + o) n o (omega (arith, length-zeros 4))

    from_volume : (o n : ℕ) → slice (40 + o) n sealed_record ≡ slice o n fields_5
    from_volume o n =
        ap (λ k. slice k n sealed_record) (omega arith)
        ∙ from_zeros (16 + o) n
        ∙ slice-skip volume fields_5 (16 + o) n o (omega (arith, volume_length))

    stamp_value : le_value (slice 8 8 sealed_record) ≡ generation
    stamp_value = ap le_value stamp-slice ∙ le_value-le_bytes 8 generation (omega (arith, small))

    hash-slice : slice 40 32 sealed_record ≡ bank_hash
    hash-slice =
        from_volume 0 32 ∙ slice-front bank_hash (zeros 408 ++ hash body) 32 bank_hash_length

    record_ok-commit_record : record_ok hash sealed_record volume slot ≡ true
    unfolding record_ok
    record_ok-commit_record =
        and-true _ _
          (ap (λ x. same_bytes x commit_magic) magic_slice ∙ same_bytes_refl commit_magic)
          (and-true _ _ sealed_lem (
            and-true _ _ nonzero (
              and-true _ _ same_slot (
                and-true _ _ no_flags (
                  and-true _ _ (ap (λ x. same_bytes x volume) same_volume ∙ same_bytes_refl volume)
                    (ap (λ x. is_zero x) padding ∙ is_zero-zeros 408))))))
      where
        nonzero : not (le_value (slice 8 8 sealed_record) == 0) ≡ true
        nonzero = ground (arith, stamp_value, positive)

        slot_value : le_value (slice 16 4 sealed_record) ≡ slot
        slot_value =
            ap le_value (from_stamp 0 4 ∙ slice-front number fields_3 4 (length-le_bytes 4 slot))
            ∙ le_value-le_bytes 4 slot (omega (arith, a_slot))

        same_slot : (le_value (slice 16 4 sealed_record) == slot) ≡ true
        same_slot = ground (arith, slot_value)

        flags_value : le_value (slice 20 4 sealed_record) ≡ 0
        flags_value =
            ap le_value (from_number 0 4 ∙ slice-front (zeros 4) fields_4 4 (length-zeros 4))
            ∙ le_value-zeros 4

        no_flags : (le_value (slice 20 4 sealed_record) == 0) ≡ true
        no_flags = ground (arith, flags_value)

        same_volume : slice 24 16 sealed_record ≡ volume
        same_volume = from_zeros 0 16 ∙ slice-front volume fields_5 16 volume_length

        padding : slice 72 408 sealed_record ≡ zeros 408
        padding =
            from_volume 32 408
            ∙ slice-between bank_hash (zeros 408) (hash body) 32 408 bank_hash_length
                (length-zeros 408)

  -- The slot of a snapshot that was written in full.
  pub check_slot-commit_record :
      (m : ℕ → List ℕ) (t : Txn) (files : List TxnFile) (slot : ℕ)
      → t.generation + 1 < 2 ^ 64
      → slot < 2
      → length t.volume ≡ 16
      → IsTable files
      → m (record_sector slot)
        ≡ commit_record hash
            (t.generation + 1)
            slot
            t.volume
            (hash (encode_bank hash (t.generation + 1) files))
      → Holds m
          (bank_sector slot)
          (sectors bank_sectors (encode_bank hash (t.generation + 1) files))
      → check_slot hash (reading m) t.volume slot ≡ found (t.generation + 1) files
  unfolding check_slot check_bank decode_either
  check_slot-commit_record m t files slot small a_slot vol table rec holds =
      rw
        (
          rec,
          record_ok-commit_record generation slot t.volume (hash bank) small positive a_slot vol
              (hash_length bank),
          read_sectors-Holds m bank_sectors (bank_sector slot) bank
              (length-encode_bank hash hash_length generation files table small) holds,
          hash-slice generation slot t.volume (hash bank) small positive a_slot vol
              (hash_length bank),
          same_bytes_refl (hash bank),
          stamp_value generation slot t.volume (hash bank) small positive a_slot vol
              (hash_length bank),
          decode_bank-encode_bank hash hash_length generation files table small,
          rec,
          stamp_value generation slot t.volume (hash bank) small positive a_slot vol
              (hash_length bank),
        )
        refl
    where
      generation : ℕ
      generation = t.generation + 1

      bank : List ℕ
      bank = encode_bank hash (t.generation + 1) files

      positive : 0 < t.generation + 1
      positive = omega arith
