-- ===== src/Services/Namespace/Table.antt =====
-- services/namespace.c: the three tables, sf_ns_create, and the handles.
use spirit_fox_os.Prelude.{
  ℕ, zero, suc, ◌+◌, ◌-◌, ◌*◌, ◌/◌, ◌%◌, Bool, true, false, not, ◌&&◌, ◌||◌, ◌==◌, ltb,
  if◌then◌else◌, ℤ, pos, negsuc, sf_ok, sf_invalid, sf_busy, sf_not_found, sf_no_space,
  sf_stale_handle, List, [], get_or, set, replicate, modify, find_index?, Option, none, some,
  same_bytes,
}
use spirit_fox_os.Services.Namespace.Paths.{ns_path_ok, root_path, parent_path}

abbrev pub sf_read_only : ℤ
sf_read_only = negsuc 16

abbrev pub node_dir : ℕ
node_dir = 1

abbrev pub node_file : ℕ
node_file = 2

abbrev pub node_pipe : ℕ
node_pipe = 3

abbrev pub node_console : ℕ
node_console = 4

abbrev pub node_disk : ℕ
node_disk = 5

abbrev pub node_bytes : ℕ
node_bytes = 1024

pub record Node : Type 0 where
  pub path : List ℕ
  pub kind : ℕ
  pub readonly : Bool
  pub writers : ℕ
  pub size : ℕ
  pub head : ℕ
  pub external : ℕ
  pub mount_tag : ℕ
  pub bytes : List ℕ

pub record Description : Type 0 where
  pub node : ℕ
  pub offset : ℕ
  pub mode : ℕ
  pub refs : ℕ

-- `description` is the index of the description plus one, or 0.
pub record FileHandle : Type 0 where
  pub owner : ℕ
  pub generation : ℕ
  pub description : ℕ

pub record Namespace : Type 0 where
  pub nodes : List Node
  pub descriptions : List Description
  pub handles : List FileHandle

abbrev pub no_node : Node
no_node = record {
  path = [];
  kind = 0;
  readonly = false;
  writers = 0;
  size = 0;
  head = 0;
  external = 0;
  mount_tag = 0;
  bytes = replicate 1024 0;
}

abbrev pub no_description : Description
no_description = record { node = 0; offset = 0; mode = 0; refs = 0 }

abbrev pub no_handle : FileHandle
no_handle = record { owner = 0; generation = 0; description = 0 }

abbrev pub node_at : Namespace → ℕ → Node
node_at n i = get_or n.nodes i no_node

abbrev pub description_at : Namespace → ℕ → Description
description_at n d = get_or n.descriptions d no_description

abbrev pub handle_at : Namespace → ℕ → FileHandle
handle_at n i = get_or n.handles i no_handle

unfoldable pub node_find : Namespace → List ℕ → Option ℕ
node_find n path = find_index? (λ x. not (x.kind == 0) && same_bytes x.path path) n.nodes

-- The tests of sf_ns_create on the parent directory.
unfoldable pub parent_code : Namespace → List ℕ → ℤ
parent_code n p = if same_bytes p root_path then sf_ok else (elim (node_find n (parent_path p)) [
  | none ↦ sf_not_found
  | some i ↦
      if not ((node_at n i).kind == node_dir)
      then sf_not_found
      else (if (node_at n i).readonly then sf_read_only else sf_ok)
])

abbrev pub is_zero_code : ℤ → Bool
is_zero_code (pos zero) = true
is_zero_code (pos (suc n)) = false
is_zero_code (negsuc n) = false

unfoldable pub ns_create : Namespace → List ℕ → ℕ → Bool → ℤ × Namespace
ns_create n p kind readonly =
    if not (ns_path_ok p) || (ltb kind 1 || ltb 5 kind)
    then (sf_invalid, n)
    else (elim (node_find n p) [
      | some i ↦ (sf_busy, n)
      | none ↦
          if not (is_zero_code (parent_code n p))
          then (parent_code n p, n)
          else (elim (find_index? (λ x. x.kind == 0) n.nodes) [
            | none ↦ (sf_no_space, n)
            | some i ↦ (
              sf_ok,
              record n {
                nodes =
                    set n.nodes i (record no_node { path = p; kind = kind; readonly = readonly });
              },
            )
          ])
    ])

abbrev pub empty : Namespace
empty = record {
  nodes = replicate 32 no_node;
  descriptions = replicate 32 no_description;
  handles = replicate 64 no_handle;
}

unfoldable pub ns_init : Namespace
ns_init = (ns_create empty root_path node_dir false).1

-- (generation<<8)|(i+1), for an index below 64
abbrev pub handle_of : ℕ → ℕ → ℕ
handle_of generation i = generation * 256 + (i + 1)

abbrev pub max_generation : ℕ
max_generation = 8388607

-- The index of the description that a handle names.
unfoldable pub description_of : Namespace → ℕ → ℕ → Option ℕ
description_of n owner h =
    let i = h % 256 in
    if i == 0 || ltb 64 i
    then none
    else (let x = handle_at n (i - 1) in
        if not (x.owner == owner) || (not (x.generation == h / 256) || (x.description == 0))
        then none
        else some (x.description - 1))

-- The first handle that is free and has generations left.
unfoldable pub handle_new : Namespace → ℕ → ℕ → ℤ × Namespace
handle_new n owner d =
    elim (find_index? (λ h. h.description == 0 && ltb h.generation max_generation) n.handles) [
      | none ↦ (sf_no_space, n)
      | some i ↦
          let generation = (handle_at n i).generation + 1 in
          (
            pos (handle_of generation i),
            record n {
              handles =
                  set n.handles i
                    (record { owner = owner; generation = generation; description = d + 1 });
              descriptions = modify d (λ x. record x { refs = x.refs + 1 }) n.descriptions;
            },
          )
    ]

unfoldable pub ns_dup : Namespace → ℕ → ℕ → ℤ × Namespace
ns_dup n owner h = elim (description_of n owner h) [
  | none ↦ (sf_stale_handle, n)
  | some d ↦ handle_new n owner d
]
