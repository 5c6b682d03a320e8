-- ===== src/Services/Txn/Decoding/Encoded.antt =====
-- services/txn.c: the bank that sf_txn_commit builds is read back by decode.
use mathlib.Core.List.{append_assoc, append-nil}
use spirit_fox_os.Prelude.{
  ℕ, ◌+◌, ◌-◌, ◌*◌, ◌^◌, ◌<◌, ◌≡◌, refl, sym, ◌∙◌, ap, true, ◌==◌, ◌&&◌, List, [], ◌∷◌, ◌++◌,
  length, arith, some, same_bytes, same_bytes_refl, leb, slice, zeros, le_bytes, le_value,
  length-le_bytes, le_value-le_bytes, length-zeros, is_zero-zeros, slice-between, slice-front,
  slice-zeros, is_zero, length-append, and-true,
}
use spirit_fox_os.Services.Txn.Bank.{
  TxnFile, txn_files, file_bytes, decode_used, decode_unused, decode_bank, file_record,
  file_records, file_data, encode_bank, bank_magic, data_start, bank_bytes, heading_ok,
}
use spirit_fox_os.Services.Txn.Table.{Entries, IsTable}
use spirit_fox_os.Services.Txn.Decoding.{length-file_record, data_slot}
use spirit_fox_os.Services.Txn.Decoding.Banks.{
  length-data_slot, decode_used-encoded, decode_unused-zeros,
}

module _ (hash : List ℕ → List ℕ) (hash_length : (b : List ℕ) → length (hash b) ≡ 32) where
  module _ (generation : ℕ) (files : List TxnFile) (h : IsTable files)
      (small : generation < 2 ^ 64) where
    length-file_records :
        (fs : List TxnFile) (paths : List (List ℕ))
        → Entries paths fs
        → length (file_records hash fs) ≡ length fs * 128
    unfolding file_records Entries
    length-file_records [] paths hs = refl
    length-file_records (f ∷ fs) paths hs = omega (
      arith,
      length-append (file_record hash f) (file_records hash fs),
      length-file_record hash hash_length f hs.0,
      length-file_records fs (paths ++ (f.path ∷ [])) hs.1,
    )

    length-file_data :
        (fs : List TxnFile) (paths : List (List ℕ))
        → Entries paths fs
        → length (file_data fs) ≡ length fs * file_bytes
    unfolding file_data Entries
    length-file_data [] paths hs = refl
    length-file_data (f ∷ fs) paths hs = omega (
      arith,
      ap length (append_assoc f.content (zeros (file_bytes - length f.content)) (file_data fs)),
      length-append (data_slot f) (file_data fs),
      length-data_slot f hs.0.fits,
      length-file_data fs (paths ++ (f.path ∷ [])) hs.1,
    )

    abbrev gap : ℕ
    gap = 640 - length files * 128

    abbrev tail : ℕ
    tail = bank_bytes - data_start - length files * file_bytes

    abbrev contents : List ℕ
    contents = zeros gap ++ (file_data files ++ zeros tail)

    abbrev entries : List ℕ
    entries = file_records hash files ++ contents

    abbrev count : List ℕ
    count = le_bytes 4 (length files)

    abbrev stamp : List ℕ
    stamp = le_bytes 8 generation

    abbrev bank : List ℕ
    bank = encode_bank hash generation files

    abbrev heading : List ℕ
    heading = bank_magic ++ (stamp ++ (count ++ zeros 492))

    length-heading : length heading ≡ 512
    length-heading = omega (
      arith,
      length-append stamp (count ++ zeros 492),
      length-append count (zeros 492),
      length-le_bytes 8 generation,
      length-le_bytes 4 (length files),
      length-zeros 492,
    )

    bank-heading : bank ≡ heading ++ entries
    unfolding encode_bank
    bank-heading =
        ap (λ x. bank_magic ++ (stamp ++ x)) (sym (append_assoc count (zeros 492) entries))
        ∙ ap (λ x. bank_magic ++ x) (sym (append_assoc stamp (count ++ zeros 492) entries))

    bank-records : bank ≡ heading ++ (file_records hash files ++ contents)
    bank-records = bank-heading

    abbrev upto_records : List ℕ
    upto_records = heading ++ file_records hash files

    length-upto_records : length upto_records ≡ 512 + length files * 128
    length-upto_records = omega (
      arith,
      length-append heading (file_records hash files),
      length-heading,
      length-file_records files [] h.entries,
    )

    bank-gap : bank ≡ upto_records ++ (zeros gap ++ (file_data files ++ zeros tail))
    bank-gap = bank-records ∙ sym (append_assoc heading (file_records hash files) contents)

    abbrev upto_gap : List ℕ
    upto_gap = upto_records ++ zeros gap

    length-upto_gap : length upto_gap ≡ data_start
    length-upto_gap = omega (
      arith,
      length-append upto_records (zeros gap),
      length-upto_records,
      length-zeros gap,
      h.count_le,
    )

    bank-data : bank ≡ upto_gap ++ (file_data files ++ zeros tail)
    bank-data =
        bank-gap ∙ sym (append_assoc upto_records (zeros gap) (file_data files ++ zeros tail))

    abbrev upto_data : List ℕ
    upto_data = upto_gap ++ file_data files

    length-upto_data : length upto_data ≡ data_start + length files * file_bytes
    length-upto_data = omega (
      arith,
      length-append upto_gap (file_data files),
      length-upto_gap,
      length-file_data files [] h.entries,
    )

    bank-tail : bank ≡ upto_data ++ (zeros tail ++ [])
    bank-tail =
        bank-data
        ∙ sym (append_assoc upto_gap (file_data files) (zeros tail))
        ∙ ap (λ x. upto_data ++ x) (sym (append-nil (zeros tail)))

    pub length-encode_bank : length bank ≡ bank_bytes
    length-encode_bank = omega (
      arith,
      ap length bank-tail,
      length-append upto_data (zeros tail ++ []),
      length-upto_data,
      length-append (zeros tail) [],
      length-zeros tail,
      h.count_le,
    )

    magic_slice : slice 0 8 bank ≡ bank_magic
    unfolding encode_bank
    magic_slice = slice-front bank_magic (stamp ++ (count ++ (zeros 492 ++ entries))) 8 refl

    stamp-slice : slice 8 8 bank ≡ stamp
    unfolding encode_bank
    stamp-slice =
        slice-between bank_magic stamp (count ++ (zeros 492 ++ entries)) 8 8 refl
          (length-le_bytes 8 generation)

    upto_stamp : length (bank_magic ++ stamp) ≡ 16
    upto_stamp = omega (arith, length-append bank_magic stamp, length-le_bytes 8 generation)

    count_slice : slice 16 4 bank ≡ count
    unfolding encode_bank
    count_slice = rw (sym (append_assoc bank_magic stamp (count ++ (zeros 492 ++ entries)))) (
        slice-between (bank_magic ++ stamp) count (zeros 492 ++ entries) 16 4 upto_stamp
          (length-le_bytes 4 (length files)))

    reserved_slice : slice 20 492 bank ≡ zeros 492
    unfolding encode_bank
    reserved_slice =
        rw
          (
            sym (append_assoc bank_magic stamp (count ++ (zeros 492 ++ entries))),
            sym (append_assoc (bank_magic ++ stamp) count (zeros 492 ++ entries)),
          )
          (slice-between ((bank_magic ++ stamp) ++ count) (zeros 492) entries 20 492
            (omega (
              arith,
              length-append (bank_magic ++ stamp) count,
              upto_stamp,
              length-le_bytes 4 (length files),
            ))
            (length-zeros 492))

    last_slice :
        slice
          (data_start + txn_files * file_bytes)
          (bank_bytes - data_start - txn_files * file_bytes)
          bank
        ≡ zeros (bank_bytes - data_start - txn_files * file_bytes)
    last_slice = rw bank-tail (
        slice-zeros upto_data [] (data_start + txn_files * file_bytes)
          (bank_bytes - data_start - txn_files * file_bytes)
          (txn_files * file_bytes - length files * file_bytes) tail
          (omega (arith, length-upto_data, h.count_le)) (omega (arith, h.count_le)))

    unused_zeros :
        decode_unused hash bank data_start (txn_files - length files) (length files) ≡ true
    unused_zeros =
        decode_unused-zeros hash hash_length (txn_files - length files) (length files) bank
          upto_records (file_data files ++ zeros tail) upto_data gap tail bank-gap bank-tail
          (omega (arith, length-upto_records)) (omega (arith, length-upto_records, h.count_le))
          (omega (arith, length-upto_data)) (omega (arith, length-upto_data, h.count_le))

    used_files : decode_used hash bank data_start (length files) 0 [] ≡ some files
    used_files =
        decode_used-encoded hash hash_length files [] 0 bank heading contents upto_gap (zeros tail)
          h.entries bank-records length-heading bank-data length-upto_gap

    count_value : le_value (slice 16 4 bank) ≡ length files
    count_value =
        ap le_value count_slice ∙ le_value-le_bytes 4 (length files) (omega (arith, h.count_le))

    heading_ok-encode_bank : heading_ok bank generation txn_files ≡ true
    unfolding heading_ok
    heading_ok-encode_bank =
        and-true _ _ (ap (λ x. same_bytes x bank_magic) magic_slice ∙ same_bytes_refl bank_magic) (
          and-true _ _ same_generation
            (and-true _ _ few (ap (λ x. is_zero x) reserved_slice ∙ is_zero-zeros 492)))
      where
        same_generation : (le_value (slice 8 8 bank) == generation) ≡ true
        same_generation =
            ground (
              arith,
              ap le_value stamp-slice,
              le_value-le_bytes 8 generation (omega (arith, small)),
            )

        few : leb (le_value (slice 16 4 bank)) txn_files ≡ true
        few = ground (arith, count_value, h.count_le)

    last_zeros :
        (decode_unused hash bank data_start (txn_files - length files) (length files)
          && is_zero (
              slice
                (data_start + txn_files * file_bytes)
                (bank_bytes - data_start - txn_files * file_bytes)
                bank))
        ≡ true
    last_zeros = and-true _ _ unused_zeros (
        ap (λ x. is_zero x) last_slice
        ∙ is_zero-zeros (bank_bytes - data_start - txn_files * file_bytes))

    -- The bank that is built of a table of files and a generation below 2 ^ 64, with a hash of 32
    -- bytes, decodes under this generation to these files.
    pub decode_bank-encode_bank :
        decode_bank hash (encode_bank hash generation files) generation txn_files data_start
        ≡ some files
    unfolding decode_bank
    decode_bank-encode_bank =
        rw (heading_ok-encode_bank, count_value, used_files, count_value, last_zeros) refl
