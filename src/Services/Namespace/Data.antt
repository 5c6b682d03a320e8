-- ===== src/Services/Namespace/Data.antt =====
-- services/namespace.c: reading and writing through a handle. Each call works on the node and the
-- description that the handle names, and stores them back; the callbacks of the storage give a code.
use spirit_fox_os.Prelude.{
  ℕ, zero, suc, ◌+◌, ◌-◌, ◌%◌, ◌^◌, min, not, ◌&&◌, ◌||◌, ◌==◌, ltb, leb, if◌then◌else◌, ℤ, pos,
  negsuc, sf_ok, sf_invalid, sf_denied, sf_bad_format, sf_would_block, sf_no_space, sf_stale_handle,
  List, [], ◌∷◌, ◌++◌, length, get_or, set, take, drop, zeros, slice, Option, none, some,
}
use spirit_fox_os.Services.Txn.Mount.{sf_device_gone}
use spirit_fox_os.Services.Namespace.Table.{
  Namespace, Node, Description, node_at, description_at, description_of, node_dir, node_file,
  node_pipe, node_console, node_disk, node_bytes, sf_read_only,
}
use spirit_fox_os.Services.Namespace.Open.{mode_reads, mode_writes}

abbrev pub sf_not_seekable : ℤ
sf_not_seekable = negsuc 10

-- External reads give a code and the bytes; writes, truncations and the console a code.
pub record Backend : Type 0 where
  pub console : Option (List ℕ → ℤ)
  pub external_read : Option (ℕ → ℕ → ℕ → ℤ × List ℕ)
  pub external_write : Option (ℕ → ℕ → List ℕ → ℤ)
  pub external_truncate : Option (ℕ → ℕ → ℤ)

-- The result, the bytes that are copied out, and the node and the description after the call.
pub record Reply : Type 0 where
  pub code : ℤ
  pub out : List ℕ
  pub node : Node
  pub description : Description

abbrev pub refuse : Node → Description → ℤ → Reply
refuse x d r = record { code = r; out = []; node = x; description = d }

-- The bytes of a ring of 1024 bytes, from its head.
abbrev pub ring_bytes : List ℕ → ℕ → ℕ → List ℕ
ring_bytes bytes head zero = []
ring_bytes bytes head (suc n) = get_or bytes (head % node_bytes) 0 ∷ ring_bytes bytes (suc head) n

abbrev pub ring_store : List ℕ → ℕ → List ℕ → List ℕ
ring_store bytes tail [] = bytes
ring_store bytes tail (b ∷ bs) = ring_store (set bytes (tail % node_bytes) b) (suc tail) bs

-- memcpy(bytes+offset,data,length)
abbrev pub overwrite : ℕ → List ℕ → List ℕ → List ℕ
overwrite offset data' bytes = take offset bytes ++ (data' ++ drop (offset + length data') bytes)

-- A count that the backend reports: it may be an error, or too large.
abbrev pub read_reported : ℕ → ℕ → Node → Description → ℤ × List ℕ → Reply
read_reported count limit x d (pos k, out) =
    if ltb count k || ltb limit k then refuse x d sf_bad_format else record {
      code = pos k;
      out = take k out;
      node = x;
      description = record d { offset = d.offset + k };
    }
read_reported count limit x d (negsuc r, out) = refuse x d (negsuc r)

unfoldable pub read_pipe : ℕ → Node → Description → Reply
read_pipe count x d =
    if x.size == 0
    then refuse x d (if x.writers == 0 then sf_ok else sf_would_block)
    else (let n = min count x.size in
        record {
          code = pos n;
          out = ring_bytes x.bytes x.head n;
          node = record x { head = (x.head + n) % node_bytes; size = x.size - n };
          description = d;
        })

unfoldable pub read_file : ℕ → Node → Description → Reply
read_file count x d =
    if leb x.size d.offset
    then refuse x d sf_ok
    else (let n = min count (x.size - d.offset) in
        record {
          code = pos n;
          out = slice d.offset n x.bytes;
          node = x;
          description = record d { offset = d.offset + n };
        })

unfoldable pub read_reply : Backend → ℕ → Node → Description → Reply
read_reply be count x d =
    if not (mode_reads d.mode)
    then refuse x d sf_denied
    else (if x.kind == node_dir
        then refuse x d sf_invalid
        else (if count == 0
            then refuse x d sf_ok
            else (if x.kind == node_console
                then refuse x d sf_would_block
                else (if x.kind == node_disk
                    then (elim be.external_read [
                      | none ↦ refuse x d sf_device_gone
                      | some f ↦
                          read_reported count (2 ^ 32 - 1 - d.offset) x d
                            (f x.external d.offset count)
                    ])
                    else (if x.kind == node_pipe
                        then read_pipe count x d
                        else read_file count x d)))))

-- A read at a position leaves the offset of the description alone.
unfoldable pub pread_reply : Backend → ℕ → ℕ → Node → Description → Reply
pread_reply be count offset x d =
    if not (mode_reads d.mode)
    then refuse x d sf_denied
    else (if x.kind == node_dir
        then refuse x d sf_invalid
        else (if x.kind == node_pipe || (x.kind == node_console)
            then refuse x d sf_not_seekable
            else (if count == 0
                then refuse x d sf_ok
                else (if x.kind == node_disk
                    then (elim be.external_read [
                      | none ↦ refuse x d sf_device_gone
                      | some f ↦
                          record (read_reported count (2 ^ 64 - 1 - offset) x d
                            (f x.external offset count)) { description = d }
                    ])
                    else (if leb x.size offset
                        then refuse x d sf_ok
                        else (let n = min count (x.size - offset) in
                            record {
                              code = pos n;
                              out = slice offset n x.bytes;
                              node = x;
                              description = d;
                            }))))))

unfoldable pub write_pipe : List ℕ → Node → Description → Reply
write_pipe data' x d =
    let n = min (length data') (node_bytes - x.size) in
    if n == 0 then refuse x d sf_would_block else record {
      code = pos n;
      out = [];
      node = record x {
        bytes = ring_store x.bytes (x.head + x.size) (take n data');
        size = x.size + n;
      };
      description = d;
    }

-- The bytes between the end and the offset are cleared first.
unfoldable pub write_file : List ℕ → Node → Description → Reply
write_file data' x d =
    let n = min (length data') (node_bytes - d.offset) in
    let cleared =
      if ltb x.size d.offset
      then overwrite x.size (zeros (d.offset - x.size)) x.bytes
      else x.bytes in
    if n == 0 then refuse x d sf_no_space else record {
      code = pos n;
      out = [];
      node = record x {
        bytes = overwrite d.offset (take n data') cleared;
        size = if ltb x.size (d.offset + n) then d.offset + n else x.size;
      };
      description = record d { offset = d.offset + n };
    }

-- The size of a disk node follows the writes.
abbrev pub grown : Reply → Reply
grown r = record r {
  node = record r.node {
    size = if ltb r.node.size r.description.offset then r.description.offset else r.node.size;
  };
}

abbrev pub write_reported : ℕ → ℕ → Node → Description → ℤ → Reply
write_reported count limit x d (pos k) =
    if ltb count k || ltb limit k
    then refuse x d sf_bad_format
    else grown (record {
      code = pos k;
      out = [];
      node = x;
      description = record d { offset = d.offset + k };
    })
write_reported count limit x d (negsuc r) = refuse x d (negsuc r)

unfoldable pub write_reply : Backend → List ℕ → Node → Description → Reply
write_reply be data' x d =
    if not (mode_writes d.mode)
    then refuse x d sf_denied
    else (if x.readonly
        then refuse x d sf_read_only
        else (if x.kind == node_dir
            then refuse x d sf_invalid
            else (if length data' == 0
                then refuse x d sf_ok
                else (if x.kind == node_console
                    then refuse x d (elim be.console [ none ↦ sf_device_gone | some f ↦ f data' ])
                    else (if x.kind == node_disk
                        then (elim be.external_write [
                          | none ↦ refuse x d sf_read_only
                          | some f ↦
                              write_reported (length data') (2 ^ 32 - 1 - d.offset) x d
                                (f x.external d.offset data')
                        ])
                        else (if ltb node_bytes d.offset || ltb node_bytes x.size
                            then refuse x d sf_invalid
                            else (if x.kind == node_pipe
                                then write_pipe data' x d
                                else write_file data' x d)))))))

unfoldable pub seek_reply : ℕ → Node → Description → Reply
seek_reply offset x d =
    if x.kind == node_pipe || (x.kind == node_console)
    then refuse x d sf_not_seekable
    else (if (not (x.kind == node_file) && not (x.kind == node_disk))
          || ltb (if x.kind == node_disk then x.size else node_bytes) offset
        then refuse x d sf_invalid
        else record {
          code = pos offset;
          out = [];
          node = x;
          description = record d { offset = offset };
        })

-- The call on the node and the description of a handle.
unfoldable pub with_handle :
    Namespace → ℕ → ℕ → (Node → Description → Reply) → (ℤ × List ℕ) × Namespace
with_handle n owner h call = elim (description_of n owner h) [
  | none ↦ ((sf_stale_handle, []), n)
  | some k ↦
      let d = description_at n k in
      let r = call (node_at n d.node) d in
      (
        (r.code, r.out),
        record n {
          nodes = set n.nodes d.node r.node;
          descriptions = set n.descriptions k r.description;
        },
      )
]

abbrev pub ns_read : Backend → Namespace → ℕ → ℕ → ℕ → (ℤ × List ℕ) × Namespace
ns_read be n owner h count = with_handle n owner h (read_reply be count)

abbrev pub ns_pread : Backend → Namespace → ℕ → ℕ → ℕ → ℕ → (ℤ × List ℕ) × Namespace
ns_pread be n owner h count offset = with_handle n owner h (pread_reply be count offset)

abbrev pub ns_write : Backend → Namespace → ℕ → ℕ → List ℕ → (ℤ × List ℕ) × Namespace
ns_write be n owner h data' = with_handle n owner h (write_reply be data')

abbrev pub ns_seek : Namespace → ℕ → ℕ → ℕ → (ℤ × List ℕ) × Namespace
ns_seek n owner h offset = with_handle n owner h (seek_reply offset)
