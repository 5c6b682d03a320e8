-- ===== src/Services/Namespace/Open.antt =====
-- services/namespace.c: opening, closing and removing.
use spirit_fox_os.Prelude.{
  ℕ, zero, suc, ◌+◌, ◌-◌, ◌/◌, ◌%◌, ◌^◌, Bool, false, not, ◌&&◌, ◌||◌, ◌==◌, ltb, if◌then◌else◌, ℤ,
  sf_ok, sf_invalid, sf_busy, sf_not_found, sf_no_space, sf_stale_handle, sf_denied, List, [], ◌∷◌,
  ◌++◌, length, set, map, modify, any, take, drop, find_index?, Option, none, some, same_bytes,
}
use spirit_fox_os.Services.Namespace.Paths.{
  ns_path_ok, root_path, beneath, relative_path, relative_ok,
}
use spirit_fox_os.Services.Namespace.Table.{
  Namespace, Node, Description, no_node, node_at, description_at, handle_at, node_find, node_dir,
  node_file, node_pipe, sf_read_only, is_zero_code, handle_of, max_generation, description_of,
  handle_new,
}

-- Bit k of a mode: OPEN_READ 0, OPEN_WRITE 1, OPEN_NONBLOCK 2, OPEN_DIRECTORY 3.
abbrev pub mode_bit : ℕ → ℕ → Bool
mode_bit k mode = (mode / 2 ^ k) % 2 == 1

abbrev pub mode_reads : ℕ → Bool
mode_reads mode = mode_bit 0 mode

abbrev pub mode_writes : ℕ → Bool
mode_writes mode = mode_bit 1 mode

-- !(mode&3)||(mode&~15)
abbrev pub bad_mode : ℕ → Bool
bad_mode mode = mode % 4 == 0 || not (ltb mode 16)

-- mount_open, for the tag of a node that is mounted: a code, or none without the callback.
abbrev pub MountOpen : Type 0
MountOpen = Option (ℕ → ℤ)

abbrev pub mount_code : MountOpen → ℕ → ℤ
mount_code none tag = sf_ok
mount_code (some f) tag = if tag == 0 then sf_ok else f tag

-- The new description d of node i, and its handle; without one the description stays free.
unfoldable pub open_at : Namespace → ℕ → ℕ → ℕ → ℕ → ℤ × Namespace
open_at n owner i mode d =
    let described : Namespace = record n {
      descriptions = set n.descriptions d (record { node = i; offset = 0; mode = mode; refs = 0 });
    } in
    elim (find_index? (λ h. h.description == 0 && ltb h.generation max_generation)
      described.handles) [
        | none ↦ (sf_no_space, described)
        | some k ↦
            let opened = handle_new described owner d in
            if (node_at n i).kind == node_pipe && mode_writes mode
            then (
              opened.0,
              record opened.1 {
                nodes = modify i (λ x. record x { writers = x.writers + 1 }) opened.1.nodes;
              },
            )
            else opened
      ]

-- The tests of sf_ns_open on its arguments and on the root.
unfoldable pub open_code : Namespace → ℕ → List ℕ → List ℕ → ℕ → ℤ
open_code n owner root path mode =
    if owner == 0 || (not (ns_path_ok root) || (not (ns_path_ok path) || bad_mode mode))
    then sf_invalid
    else (if not (same_bytes root root_path) && not (beneath root path)
        then sf_denied
        else (elim (node_find n root) [
          | none ↦ sf_not_found
          | some base ↦ if not ((node_at n base).kind == node_dir) then sf_invalid else sf_ok
        ]))

-- The tests on the node that is opened.
unfoldable pub node_code : Node → ℕ → ℤ
node_code x mode =
    if mode_bit 3 mode && not (x.kind == node_dir)
    then sf_invalid
    else (if x.readonly && mode_writes mode then sf_read_only else sf_ok)

unfoldable pub ns_open : MountOpen → Namespace → ℕ → List ℕ → List ℕ → ℕ → ℤ × Namespace
ns_open mount_open n owner root path mode =
    if not (is_zero_code (open_code n owner root path mode))
    then (open_code n owner root path mode, n)
    else (elim (node_find n path) [
      | none ↦ (sf_not_found, n)
      | some i ↦
          if not (is_zero_code (node_code (node_at n i) mode))
          then (node_code (node_at n i) mode, n)
          else (elim (find_index? (λ d. d.refs == 0) n.descriptions) [
            | none ↦ (sf_no_space, n)
            | some d ↦
                if not (is_zero_code (mount_code mount_open (node_at n i).mount_tag))
                then (mount_code mount_open (node_at n i).mount_tag, n)
                else open_at n owner i mode d
          ])
    ])

-- (mode&3)&~allowed
abbrev pub widens : ℕ → ℕ → Bool
widens mode allowed =
    (mode_reads mode && not (mode_reads allowed)) || (mode_writes mode && not (mode_writes allowed))

unfoldable pub ns_openat : MountOpen → Namespace → ℕ → ℕ → List ℕ → ℕ → ℤ × Namespace
ns_openat mount_open n owner directory relative mode = elim (description_of n owner directory) [
  | none ↦ (sf_stale_handle, n)
  | some d ↦
      let dir = description_at n d in
      let base = node_at n dir.node in
      if not (base.kind == node_dir) || bad_mode mode
      then (sf_invalid, n)
      else (if widens mode dir.mode
          then (sf_denied, n)
          else (if not (relative_ok base.path relative)
              then (sf_invalid, n)
              else ns_open mount_open n owner base.path (relative_path base.path relative) mode))
]

-- The loop over the parents: `read` is the path up to a slash of what is left.
unfoldable pub parents_code : Namespace → List ℕ → List ℕ → ℤ
parents_code n read [] = sf_ok
parents_code n read (c ∷ s) =
    let rest = parents_code n (read ++ (c ∷ [])) s in
    if c == 47
    then (elim (node_find n read) [
      | none ↦ sf_not_found
      | some i ↦
          if not ((node_at n i).kind == node_dir)
          then sf_not_found
          else (if (node_at n i).readonly || not ((node_at n i).mount_tag == 0)
              then sf_read_only
              else rest)
    ])
    else rest

-- The target: not mounted or read-only, of the right kind, not open, and without nodes beneath it.
unfoldable pub target_code : Namespace → ℕ → List ℕ → ℕ → ℤ
target_code n target path kind =
    let x = node_at n target in
    if x.readonly || not (x.mount_tag == 0)
    then sf_read_only
    else (if not (x.kind == kind)
        then sf_invalid
        else (if any (λ d. not (d.refs == 0) && d.node == target) n.descriptions
              || (kind == node_dir
                  && any
                      (λ y.
                        not (y.kind == 0)
                        && (ltb (length path) (length y.path) && beneath path y.path))
                      n.nodes)
            then sf_busy
            else sf_ok))

unfoldable pub remove_path : Namespace → Node → List ℕ → ℕ → ℤ × Namespace
remove_path n base path kind =
    let parents = parents_code n (take (length base.path) path) (drop (length base.path) path) in
    if base.readonly || not (base.mount_tag == 0)
    then (sf_read_only, n)
    else (if not (is_zero_code parents) then (parents, n) else (elim (node_find n path) [
      | none ↦ (sf_not_found, n)
      | some target ↦
          if not (is_zero_code (target_code n target path kind))
          then (target_code n target path kind, n)
          else (sf_ok, record n { nodes = set n.nodes target no_node })
    ]))

unfoldable pub remove_node : Namespace → ℕ → ℕ → List ℕ → ℕ → ℤ × Namespace
remove_node n owner directory relative kind = elim (description_of n owner directory) [
  | none ↦ (sf_stale_handle, n)
  | some d ↦
      let dir = description_at n d in
      let base = node_at n dir.node in
      if not (base.kind == node_dir)
      then (sf_invalid, n)
      else (if not (mode_writes dir.mode)
          then (sf_denied, n)
          else (if not (relative_ok base.path relative)
              then (sf_invalid, n)
              else remove_path n base (relative_path base.path relative) kind))
]

abbrev pub ns_unlink : Namespace → ℕ → ℕ → List ℕ → ℤ × Namespace
ns_unlink n owner directory relative = remove_node n owner directory relative node_file

abbrev pub ns_rmdir : Namespace → ℕ → ℕ → List ℕ → ℤ × Namespace
ns_rmdir n owner directory relative = remove_node n owner directory relative node_dir

-- The last reference to a pipe that is written leaves it with a writer less.
unfoldable pub left_nodes : Namespace → Description → List Node
left_nodes n d =
    if d.refs - 1 == 0 && ((node_at n d.node).kind == node_pipe && mode_writes d.mode)
    then modify d.node (λ x. record x { writers = x.writers - 1 }) n.nodes
    else n.nodes

unfoldable pub ns_close : Namespace → ℕ → ℕ → ℤ × Namespace
ns_close n owner h = elim (description_of n owner h) [
  | none ↦ (sf_stale_handle, n)
  | some d ↦ (
    sf_ok,
    record {
      nodes = left_nodes n (description_at n d);
      descriptions = modify d (λ x. record x { refs = x.refs - 1 }) n.descriptions;
      handles = modify (h % 256 - 1) (λ x. record x { description = 0 }) n.handles;
    },
  )
]

-- The loop over the handles from i.
unfoldable pub reap_from : ℕ → ℕ → Namespace → ℕ → Namespace
reap_from zero i n owner = n
reap_from (suc k) i n owner =
    let x = handle_at n i in
    reap_from k (suc i)
      (if not (x.description == 0) && x.owner == owner
        then (ns_close n owner (handle_of x.generation i)).1
        else n)
      owner

abbrev pub ns_reap : Namespace → ℕ → Namespace
ns_reap n owner = reap_from 64 0 n owner

-- "/disk"
abbrev pub disk_path : List ℕ
disk_path = 47 ∷ 100 ∷ 105 ∷ 115 ∷ 107 ∷ []

abbrev pub unmounted : ℕ → Node → Node
unmounted tag x =
    if x.mount_tag == tag
    then (if same_bytes x.path disk_path
        then record x { mount_tag = 0; readonly = false }
        else no_node)
    else x

unfoldable pub ns_unmount : Namespace → ℕ → ℤ × Namespace
ns_unmount n tag =
    if tag == 0
    then (sf_invalid, n)
    else (if any (λ d. not (d.refs == 0) && (node_at n d.node).mount_tag == tag) n.descriptions
        then (sf_busy, n)
        else (sf_ok, record n { nodes = map (unmounted tag) n.nodes }))
