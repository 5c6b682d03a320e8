-- ===== src/Services/Txn/Decoding.antt =====
-- services/txn.c: one entry that sf_txn_commit builds, as decode reads it.
pub mod Banks
pub mod Encoded
pub mod Tables
use mathlib.Core.List.{append_assoc, append-nil}
use spirit_fox_os.Prelude.{
  ℕ, zero, suc, ◌+◌, ◌-◌, ◌*◌, ◌^◌, ◌<◌, ◌≤◌, ◌≡◌, refl, sym, ◌∙◌, ap, subst, inl, inr, Bool, true,
  false, ◌==◌, not, ◌||◌, ◌&&◌, if◌then◌else◌, List, [], ◌∷◌, ◌++◌, length, arith, Option, none,
  some, same_bytes, same_bytes_refl, ltb, leb, slice, zeros, le_bytes, le_value, length-le_bytes,
  le_value-le_bytes, length-zeros, is_zero-zeros, slice-between, slice-end, slice-front,
  slice-zeros, is_zero, length-append, zeros-suc,
}
use spirit_fox_os.Services.Txn.Paths.{path_ok, cstring, characters_ok}
use spirit_fox_os.Services.Txn.Bank.{
  TxnFile, any_path, txn_files, file_bytes, decode_file, decode_used, decode_unused, decode_bank,
  file_record, file_records, file_data, encode_bank, bank_magic, data_start, bank_bytes,
  sector_bytes,
}
use spirit_fox_os.Services.Txn.Table.{EntryOk, Entries, IsTable}

-- A string in front of zeros is what its array holds.
characters-cstring : (s z : List ℕ) (c : ℕ) → characters_ok c s ≡ true → cstring (s ++ (0 ∷ z)) ≡ s
characters-cstring [] z c h = refl
characters-cstring (x ∷ s) z c h =
    let x_ok : (x == 0) ≡ false = ground (arith, h) in
    let rest : characters_ok x s ≡ true = ground (arith, h) in
    rw x_ok (ap (◌∷◌ x) (characters-cstring s z x rest))

path_ok-cstring : (p z : List ℕ) → path_ok p ≡ true → cstring (p ++ (0 ∷ z)) ≡ p
unfolding path_ok
path_ok-cstring [] z h = absurd (ground (arith, h))
path_ok-cstring (c ∷ s) z h =
    let first : (c == 0) ≡ false = ground (arith, h) in
    let rest : characters_ok c s ≡ true = ground (arith, h) in
    rw first (ap (◌∷◌ c) (characters-cstring s z c rest))

path_ok-length : (p : List ℕ) → path_ok p ≡ true → length p < 64
unfolding path_ok
path_ok-length [] h = omega arith
path_ok-length (c ∷ s) h = ground (arith, h)

path_ok-padded : (p : List ℕ) → path_ok p ≡ true → cstring (p ++ zeros (64 - length p)) ≡ p
path_ok-padded p h =
    let room : 64 - length p ≡ suc (63 - length p) = omega (arith, path_ok-length p h) in
    rw (room, zeros-suc (63 - length p)) (path_ok-cstring p (zeros (63 - length p)) h)

abbrev pub data_slot : TxnFile → List ℕ
data_slot f = f.content ++ zeros (file_bytes - length f.content)

module _ (hash : List ℕ → List ℕ) (hash_length : (b : List ℕ) → length (hash b) ≡ 32) where
  module _ (f : TxnFile) {paths : List (List ℕ)} (ok : EntryOk paths f) where
    path_lt : length f.path < 64
    path_lt = path_ok-length f.path ok.allowed

    pub length-file_record : length (file_record hash f) ≡ 128
    length-file_record = omega (
      arith,
      length-append f.path (
          zeros (64 - length f.path)
          ++ (le_bytes 4 (length f.content) ++ (zeros 28 ++ hash f.content))),
      length-append (zeros (64 - length f.path))
          (le_bytes 4 (length f.content) ++ (zeros 28 ++ hash f.content)),
      length-append (le_bytes 4 (length f.content)) (zeros 28 ++ hash f.content),
      length-append (zeros 28) (hash f.content),
      length-zeros (64 - length f.path),
      length-zeros 28,
      length-le_bytes 4 (length f.content),
      hash_length f.content,
      path_lt,
    )

    abbrev record_tail : List ℕ
    record_tail = le_bytes 4 (length f.content) ++ (zeros 28 ++ hash f.content)

    abbrev path_field : List ℕ
    path_field = f.path ++ zeros (64 - length f.path)

    length-path_field : length path_field ≡ 64
    length-path_field = omega (
      arith,
      length-append f.path (zeros (64 - length f.path)),
      length-zeros (64 - length f.path),
      path_lt,
    )

    record-path_field : file_record hash f ≡ path_field ++ record_tail
    record-path_field = sym (append_assoc f.path (zeros (64 - length f.path)) record_tail)

    path_slice : slice 0 64 (file_record hash f) ≡ path_field
    path_slice = rw record-path_field (slice-front path_field record_tail 64 length-path_field)

    size_slice : slice 64 4 (file_record hash f) ≡ le_bytes 4 (length f.content)
    size_slice = rw record-path_field (
        slice-between path_field (le_bytes 4 (length f.content)) (zeros 28 ++ hash f.content) 64 4
          length-path_field (length-le_bytes 4 (length f.content)))

    abbrev size_front : List ℕ
    size_front = path_field ++ le_bytes 4 (length f.content)

    length-size_front : length size_front ≡ 68
    length-size_front = omega (
      arith,
      length-append path_field (le_bytes 4 (length f.content)),
      length-path_field,
      length-le_bytes 4 (length f.content),
    )

    record-size_front : file_record hash f ≡ size_front ++ (zeros 28 ++ hash f.content)
    record-size_front =
        record-path_field
        ∙ sym (append_assoc path_field (le_bytes 4 (length f.content)) (zeros 28 ++ hash f.content))

    reserved_slice : slice 68 28 (file_record hash f) ≡ zeros 28
    reserved_slice = rw record-size_front (
        slice-between size_front (zeros 28) (hash f.content) 68 28 length-size_front
          (length-zeros 28))

    hash-slice : slice 96 32 (file_record hash f) ≡ hash f.content
    hash-slice =
        rw (record-size_front, sym (append_assoc size_front (zeros 28) (hash f.content)))
          (slice-end (size_front ++ zeros 28) (hash f.content) 96 32
            (omega (arith, length-append size_front (zeros 28), length-size_front, length-zeros 28))
            (hash_length f.content))

    padding_slice :
        slice (length f.path + 1) (63 - length f.path) (file_record hash f)
        ≡ zeros (63 - length f.path)
    padding_slice =
        slice-zeros f.path record_tail (length f.path + 1) (63 - length f.path) 1
          (64 - length f.path) (omega arith) (omega (arith, path_lt))

    content_slice : slice 0 (length f.content) (data_slot f) ≡ f.content
    content_slice =
        slice-front f.content (zeros (file_bytes - length f.content)) (length f.content) refl

    rest_slice :
        slice (length f.content) (file_bytes - length f.content) (data_slot f)
        ≡ zeros (file_bytes - length f.content)
    rest_slice =
        slice-end f.content (zeros (file_bytes - length f.content)) (length f.content)
          (file_bytes - length f.content) refl (length-zeros (file_bytes - length f.content))

    size_value : le_value (le_bytes 4 (length f.content)) ≡ length f.content
    size_value = le_value-le_bytes 4 (length f.content) (omega (arith, ok.fits))

    pub decode_file-file_record : decode_file hash (file_record hash f) (data_slot f) ≡ some f
    unfolding decode_file
    decode_file-file_record =
        rw
          (
            path_slice,
            size_slice,
            size_value,
            path_ok-padded f.path ok.allowed,
            padding_slice,
            reserved_slice,
            content_slice,
            rest_slice,
            hash-slice,
            ok.allowed,
            is_zero-zeros (63 - length f.path),
            is_zero-zeros 28,
            is_zero-zeros (file_bytes - length f.content),
            same_bytes_refl (hash f.content),
            small,
          )
          refl
      where
        small : leb (length f.content) file_bytes ≡ true
        small = ground (arith, ok.fits)
