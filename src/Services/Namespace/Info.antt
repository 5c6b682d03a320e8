-- ===== src/Services/Namespace/Info.antt =====
-- services/namespace.c: truncating, polling, the metadata of a handle, and the names in a directory.
use spirit_fox_os.Prelude.{
  ℕ, zero, suc, ◌+◌, ◌-◌, ◌^◌, min, Bool, not, ◌&&◌, ◌||◌, ◌==◌, ltb, leb, if◌then◌else◌, ℤ, pos,
  negsuc, sf_ok, sf_invalid, sf_denied, sf_bad_format, sf_no_space, sf_stale_handle, List, [], ◌∷◌,
  ◌++◌, length, get_or, take, drop, zeros, Option, none, some, same_bytes, any,
}
use spirit_fox_os.Services.Namespace.Paths.{root_path}
use spirit_fox_os.Services.Namespace.Table.{
  Namespace, Node, Description, node_at, description_at, description_of, node_dir, node_file,
  node_pipe, node_console, node_disk, node_bytes, sf_read_only,
}
use spirit_fox_os.Services.Namespace.Open.{mode_reads, mode_writes}
use spirit_fox_os.Services.Namespace.Data.{Backend, Reply, refuse, with_handle}

abbrev pub resized_node : ℕ → Node → Node
resized_node bytes x = record x { size = bytes }

abbrev pub truncated : Node → Description → Node → Reply
truncated x d x' = record { code = sf_ok; out = []; node = x'; description = d }

-- r>0?SF_BAD_FORMAT:r, when r is not zero
abbrev pub truncate_disk : ℕ → Node → Description → ℤ → Reply
truncate_disk bytes x d (pos zero) = truncated x d (resized_node bytes x)
truncate_disk bytes x d (pos (suc r)) = refuse x d sf_bad_format
truncate_disk bytes x d (negsuc r) = refuse x d (negsuc r)

-- The bytes from the new or the old end on are cleared.
abbrev pub cut_bytes : ℕ → Node → List ℕ
cut_bytes bytes x = take (min bytes x.size) x.bytes ++ zeros (node_bytes - min bytes x.size)

unfoldable pub truncate_reply : Backend → ℕ → Node → Description → Reply
truncate_reply be bytes x d =
    if not (mode_writes d.mode)
    then refuse x d sf_denied
    else (if x.readonly
        then refuse x d sf_read_only
        else (if not (x.kind == node_file) && not (x.kind == node_disk)
            then refuse x d sf_invalid
            else (if ltb (2 ^ 32 - 1) bytes
                then refuse x d sf_no_space
                else (if x.kind == node_disk
                    then (elim be.external_truncate [
                      | none ↦ refuse x d sf_read_only
                      | some f ↦ truncate_disk bytes x d (f x.external bytes)
                    ])
                    else (if ltb node_bytes bytes
                        then refuse x d sf_no_space
                        else truncated x d
                            (record x { bytes = cut_bytes bytes x; size = bytes }))))))

abbrev pub ns_truncate : Backend → Namespace → ℕ → ℕ → ℕ → (ℤ × List ℕ) × Namespace
ns_truncate be n owner h bytes = with_handle n owner h (truncate_reply be bytes)

abbrev pub flag : Bool → ℕ → ℕ
flag b value = if b then value else 0

unfoldable pub poll_mask : Node → Description → ℕ
poll_mask x d =
    if x.kind == node_pipe
    then flag (mode_reads d.mode && (not (x.size == 0) || x.writers == 0)) 1
      + (flag (mode_writes d.mode && ltb x.size node_bytes) 2 + flag (x.writers == 0) 4)
    else flag (mode_reads d.mode) 1 + flag (mode_writes d.mode && not x.readonly) 2

unfoldable pub ns_poll : Namespace → ℕ → ℕ → ℤ
ns_poll n owner h = elim (description_of n owner h) [
  | none ↦ sf_stale_handle
  | some k ↦ pos (poll_mask (node_at n (description_at n k).node) (description_at n k))
]

-- SfFileStat, less its own size
pub record FileStat : Type 0 where
  pub kind : ℕ
  pub mode : ℕ
  pub flags : ℕ
  pub size : ℕ
  pub offset : ℕ

unfoldable pub file_stat : Node → Description → FileStat
file_stat x d = record {
  kind = x.kind;
  mode = d.mode;
  flags =
      flag x.readonly 1
      + (flag (not (x.mount_tag == 0)) 2 + flag (x.kind == node_file || (x.kind == node_disk)) 4);
  size = if x.kind == node_dir || (x.kind == node_console) then 0 else x.size;
  offset = d.offset;
}

-- None for SF_STALE_HANDLE; `out` is not null.
unfoldable pub ns_stat : Namespace → ℕ → ℕ → Option FileStat
ns_stat n owner h = elim (description_of n owner h) [
  | none ↦ none
  | some k ↦ some (file_stat (node_at n (description_at n k).node) (description_at n k))
]

-- The name of s in the directory p, when s is a child of p.
unfoldable pub child_name : List ℕ → List ℕ → Option (List ℕ)
child_name p s =
    if same_bytes p s || leb (length s) (length p)
    then none
    else (let name = if same_bytes p root_path then drop 1 s else drop (length p + 1) s in
        if not (same_bytes p root_path)
          && (not (same_bytes (take (length p) s) p) || not (get_or s (length p) 0 == 47))
        then none
        else (if any (λ c. c == 47) name then none else some name))

-- The loop over the nodes, with the names so far, a line feed after each.
unfoldable pub enumerate_from : List ℕ → ℕ → List ℕ → List Node → ℤ × List ℕ
enumerate_from p size used [] = (pos (length used), used)
enumerate_from p size used (x ∷ xs) =
    let skipped = enumerate_from p size used xs in
    if x.kind == 0 then skipped else (elim (child_name p x.path) [
      | none ↦ skipped
      | some name ↦
          let rest = enumerate_from p size (used ++ (name ++ (10 ∷ []))) xs in
          if ltb (size - length used) (length name + 1)
          then (if length used == 0 then (sf_no_space, []) else (pos (length used), used))
          else rest
    ])

unfoldable pub ns_enumerate : Namespace → ℕ → ℕ → ℕ → ℤ × List ℕ
ns_enumerate n owner h size = elim (description_of n owner h) [
  | none ↦ (sf_stale_handle, [])
  | some k ↦
      let x = node_at n (description_at n k).node in
      if not (mode_reads (description_at n k).mode)
      then (sf_denied, [])
      else (if not (x.kind == node_dir)
          then (sf_invalid, [])
          else enumerate_from x.path size [] n.nodes)
]
