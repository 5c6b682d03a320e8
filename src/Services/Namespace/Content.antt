-- ===== src/Services/Namespace/Content.antt =====
-- services/namespace.c: what is written to a file is read back from its position.
use spirit_fox_os.Prelude.{
  ℕ, ◌+◌, ◌-◌, ◌<◌, ◌≤◌, ◌≡◌, refl, sym, ◌∙◌, ap, min, true, false, ◌==◌, ltb, leb, if◌then◌else◌,
  pos, List, [], ◌++◌, length, take, drop, arith, slice, slice-between, zeros, length-zeros,
  length-append, length-take, length-drop, if-both,
}
use spirit_fox_os.Services.Namespace.Table.{Node, Description, node_file, node_bytes}
use spirit_fox_os.Services.Namespace.Open.{mode_reads, mode_writes}
use spirit_fox_os.Services.Namespace.Data.{
  Backend, Reply, overwrite, write_reply, write_file, pread_reply,
}

length-overwrite :
    (o : ℕ) (new bytes : List ℕ)
    → o + length new ≤ length bytes
    → length (overwrite o new bytes) ≡ length bytes
length-overwrite o new bytes h = omega (
  arith,
  length-append (take o bytes) (new ++ drop (o + length new) bytes),
  length-append new (drop (o + length new) bytes),
  length-take o bytes,
  length-drop (o + length new) bytes,
)

slice-overwrite :
    (o : ℕ) (new bytes : List ℕ)
    → o ≤ length bytes
    → slice o (length new) (overwrite o new bytes) ≡ new
slice-overwrite o new bytes h =
    slice-between (take o bytes) new (drop (o + length new) bytes) o (length new)
      (omega (arith, length-take o bytes)) refl

-- A write of n bytes at the offset, and a read of these bytes at the same position.
pub record ReadBack (be : Backend) (data' : List ℕ) (x : Node) (d : Description) (n : ℕ)
    : Type 0 where
  pub written : (write_reply be data' x d).code ≡ pos n
  pub moved_offset : (write_reply be data' x d).description.offset ≡ d.offset + n
  pub again_code :
      (pread_reply be n d.offset
        (write_reply be data' x d).node
        (write_reply be data' x d).description).code
      ≡ pos n
  pub again_out :
      (pread_reply be n d.offset
        (write_reply be data' x d).node
        (write_reply be data' x d).description).out
      ≡ take n data'

module _ (be : Backend) (data' : List ℕ) (x : Node) (d : Description) (file : x.kind ≡ node_file)
    (writable : x.readonly ≡ false) (can_read : mode_reads d.mode ≡ true)
    (can_write : mode_writes d.mode ≡ true) (full : length x.bytes ≡ node_bytes)
    (size_le : x.size ≤ node_bytes) (room : d.offset < node_bytes)
    (some_data : 0 < length data') where
  abbrev n : ℕ
  n = min (length data') (node_bytes - d.offset)

  write-file : write_reply be data' x d ≡ write_file data' x d
  unfolding write_reply
  write-file =
      let a : (x.kind == 1) ≡ false = ground (arith, file) in
      let b : (x.kind == 4) ≡ false = ground (arith, file) in
      let c : (x.kind == 5) ≡ false = ground (arith, file) in
      let p : (x.kind == 3) ≡ false = ground (arith, file) in
      let e : (length data' == 0) ≡ false = ground (arith, some_data) in
      let l : ltb node_bytes d.offset ≡ false = ground (arith, room) in
      let s : ltb node_bytes x.size ≡ false = ground (arith, size_le) in
      rw (can_write, writable, a, e, b, c, l, s, p) refl

  abbrev cleared : List ℕ
  cleared =
      if ltb x.size d.offset then overwrite x.size (zeros (d.offset - x.size)) x.bytes else x.bytes

  length-cleared : length cleared ≡ node_bytes
  length-cleared =
      if-both (λ (b : List ℕ). length b ≡ node_bytes) (ltb x.size d.offset) _ _
        (length-overwrite x.size (zeros (d.offset - x.size)) x.bytes
            (omega (arith, length-zeros (d.offset - x.size), full, room, size_le))
          ∙ full)
        full

  abbrev new_size : ℕ
  new_size = if ltb x.size (d.offset + n) then d.offset + n else x.size

  new_size_le : d.offset + n ≤ new_size
  new_size_le = ground arith

  n_pos : 0 < n
  n_pos = ground (arith, room, some_data)

  n_nonzero : (n == 0) ≡ false
  n_nonzero = ground (arith, n_pos)

  abbrev new_node : Node
  new_node = record x { bytes = overwrite d.offset (take n data') cleared; size = new_size }

  abbrev stored : Reply
  stored = record {
    code = pos n;
    out = [];
    node = new_node;
    description = record d { offset = d.offset + n };
  }

  write_file-stored : write_file data' x d ≡ stored
  unfolding write_file
  write_file-stored = rw n_nonzero refl

  length-new : length (take n data') ≡ n
  length-new = ground (arith, length-take n data')

  read_back : slice d.offset n (overwrite d.offset (take n data') cleared) ≡ take n data'
  read_back =
      ap (λ k. slice d.offset k (overwrite d.offset (take n data') cleared)) (sym length-new)
      ∙ slice-overwrite d.offset (take n data') cleared (omega (arith, length-cleared, room))

  abbrev again : Reply
  again = record {
    code = pos n;
    out = slice d.offset n (overwrite d.offset (take n data') cleared);
    node = new_node;
    description = record d { offset = d.offset + n };
  }

  pread-again : pread_reply be n d.offset new_node (record d { offset = d.offset + n }) ≡ again
  unfolding pread_reply
  pread-again =
      let a : (x.kind == 1) ≡ false = ground (arith, file) in
      let b : (x.kind == 4) ≡ false = ground (arith, file) in
      let c : (x.kind == 5) ≡ false = ground (arith, file) in
      let p : (x.kind == 3) ≡ false = ground (arith, file) in
      let l : leb new_size d.offset ≡ false = ground (arith, new_size_le, n_pos) in
      let m : min n (new_size - d.offset) ≡ n = ground (arith, new_size_le) in
      rw (can_read, a, p, b, n_nonzero, c, l, m) refl

  -- Bytes that are written to a file which is open for both, at an offset inside its 1024 bytes, are
  -- stored as far as there is room: sf_ns_write reports how many, moves the offset behind them, and
  -- sf_ns_pread of that many bytes at the old offset returns them.
  pub write_reply-ReadBack : ReadBack be data' x d n
  write_reply-ReadBack =
      let e : write_reply be data' x d ≡ stored = write-file ∙ write_file-stored in
      record {
        written = ap (λ r. r.code) e;
        moved_offset = ap (λ r. r.description.offset) e;
        again_code =
            ap (λ (r : Reply). (pread_reply be n d.offset r.node r.description).code) e
            ∙ ap (λ r. r.code) pread-again;
        again_out =
            ap (λ (r : Reply). (pread_reply be n d.offset r.node r.description).out) e
            ∙ ap (λ r. r.out) pread-again
            ∙ read_back;
      }
