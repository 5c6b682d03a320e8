-- ===== src/Services/Txn/Decoding/Banks.antt =====
-- services/txn.c: decode's loops over the entries of a bank, used and not.
use mathlib.Core.List.{append_assoc}
use spirit_fox_os.Prelude.{
  ℕ, zero, suc, ◌+◌, ◌-◌, ◌*◌, ◌≤◌, ◌≡◌, refl, sym, ◌∙◌, ap, true, List, [], ◌∷◌, ◌++◌, length,
  arith, some, slice, zeros, length-zeros, is_zero-zeros, slice-between, slice-zeros, length-append,
}
use spirit_fox_os.Services.Txn.Bank.{
  TxnFile, file_bytes, decode_file, decode_used, decode_unused, file_record, file_records,
  file_data, data_start, sector_bytes,
}
use spirit_fox_os.Services.Txn.Table.{Entries}
use spirit_fox_os.Services.Txn.Decoding.{length-file_record, data_slot, decode_file-file_record}

pub length-data_slot :
    (f : TxnFile) → length f.content ≤ file_bytes → length (data_slot f) ≡ file_bytes
length-data_slot f h = omega (
  arith,
  length-append f.content (zeros (file_bytes - length f.content)),
  length-zeros (file_bytes - length f.content),
)

module _ (hash : List ℕ → List ℕ) (hash_length : (b : List ℕ) → length (hash b) ≡ 32) where
  file_records-cons :
      (f : TxnFile) (fs : List TxnFile) (z : List ℕ)
      → file_records hash (f ∷ fs) ++ z ≡ file_record hash f ++ (file_records hash fs ++ z)
  unfolding file_records
  file_records-cons f fs z = append_assoc (file_record hash f) (file_records hash fs) z

  file_data-cons :
      (f : TxnFile) (fs : List TxnFile) (z : List ℕ)
      → file_data (f ∷ fs) ++ z ≡ data_slot f ++ (file_data fs ++ z)
  unfolding file_data
  file_data-cons f fs z =
      ap (λ d. d ++ z)
        (sym (append_assoc f.content (zeros (file_bytes - length f.content)) (file_data fs)))
      ∙ append_assoc (data_slot f) (file_data fs) z

  pub decode_used-encoded :
      (files : List TxnFile) (paths : List (List ℕ)) (i : ℕ) (b : List ℕ)
      (front back front' back' : List ℕ)
      → Entries paths files
      → b ≡ front ++ (file_records hash files ++ back)
      → length front ≡ sector_bytes + i * 128
      → b ≡ front' ++ (file_data files ++ back')
      → length front' ≡ data_start + i * file_bytes
      → decode_used hash b data_start (length files) i paths ≡ some files
  unfolding decode_used Entries
  decode_used-encoded [] paths i b front back front' back' h e l e' l' = refl
  decode_used-encoded (f ∷ fs) paths i b front back front' back' h e l e' l' =
      let rest : decode_used hash b data_start (length fs) (suc i) (paths ++ (f.path ∷ []))
          ≡ some fs =
        decode_used-encoded fs (paths ++ (f.path ∷ [])) (suc i) b (front ++ file_record hash f) back
          (front' ++ data_slot f) back' h.1
          (e1 ∙ sym (append_assoc front (file_record hash f) (file_records hash fs ++ back)))
          (omega (arith, length-append front (file_record hash f), l, size))
          (e2 ∙ sym (append_assoc front' (data_slot f) (file_data fs ++ back')))
          (omega (arith, length-append front' (data_slot f), l', length-data_slot f h.0.fits)) in
      rw (one, h.0.fresh, rest, decode_used) refl
    where
      size : length (file_record hash f) ≡ 128
      size = length-file_record hash hash_length f h.0

      e1 : b ≡ front ++ (file_record hash f ++ (file_records hash fs ++ back))
      e1 = e ∙ ap (λ x. front ++ x) (file_records-cons f fs back)

      e2 : b ≡ front' ++ (data_slot f ++ (file_data fs ++ back'))
      e2 = e' ∙ ap (λ x. front' ++ x) (file_data-cons f fs back')

      record_slice : slice (sector_bytes + i * 128) 128 b ≡ file_record hash f
      record_slice = rw e1 (
          slice-between front (file_record hash f) (file_records hash fs ++ back)
            (sector_bytes + i * 128) 128 l size)

      slot_slice : slice (data_start + i * file_bytes) file_bytes b ≡ data_slot f
      slot_slice = rw e2 (
          slice-between front' (data_slot f) (file_data fs ++ back') (data_start + i * file_bytes)
            file_bytes l' (length-data_slot f h.0.fits))

      one :
          decode_file hash
            (slice (sector_bytes + i * 128) 128 b)
            (slice (data_start + i * file_bytes) file_bytes b)
          ≡ some f
      one = rw (record_slice, slot_slice) (decode_file-file_record hash hash_length f h.0)

  pub decode_unused-zeros :
      (n i : ℕ) (b : List ℕ) (front back front' : List ℕ) (k k' : ℕ)
      → b ≡ front ++ (zeros k ++ back)
      → b ≡ front' ++ (zeros k' ++ [])
      → length front ≤ sector_bytes + i * 128
      → sector_bytes + (i + n) * 128 ≤ length front + k
      → length front' ≤ data_start + i * file_bytes
      → data_start + (i + n) * file_bytes ≤ length front' + k'
      → decode_unused hash b data_start n i ≡ true
  unfolding decode_unused
  decode_unused-zeros zero i b front back front' k k' e e' l m l' m' = refl
  decode_unused-zeros (suc n) i b front back front' k k' e e' l m l' m' =
      rw (a1, a2, is_zero-zeros 128, is_zero-zeros file_bytes)
        (decode_unused-zeros n (suc i) b front back front' k k' e e' (omega arith) (omega arith)
          (omega arith) (omega arith))
    where
      a1 : slice (sector_bytes + i * 128) 128 b ≡ zeros 128
      a1 = rw e (
          slice-zeros front back (sector_bytes + i * 128) 128
            (sector_bytes + i * 128 - length front) k (omega arith) (omega arith))

      a2 : slice (data_start + i * file_bytes) file_bytes b ≡ zeros file_bytes
      a2 = rw e' (
          slice-zeros front' [] (data_start + i * file_bytes) file_bytes
            (data_start + i * file_bytes - length front') k' (omega arith) (omega arith))
