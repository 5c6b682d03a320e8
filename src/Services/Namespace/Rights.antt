-- ===== src/Services/Namespace/Rights.antt =====
-- services/namespace.c: the description and the handle that sf_ns_open makes.
pub mod Openat
use spirit_fox_os.Services.Namespace.Paths.{
  ns_path_ok, relative_path, root_path, beneath, relative_ok,
}
use spirit_fox_os.Prelude.{
  ℕ, ◌+◌, ◌-◌, ◌/◌, ◌%◌, ◌<◌, ◌≤◌, ◌≡◌, refl, sym, ◌∙◌, ap, subst, inl, inr, Bool, true, false, not,
  ◌==◌, ◌&&◌, ◌||◌, if◌then◌else◌, ltb, List, length, arith, Bool-cases, Option-cases, ℤ, pos,
  get_or, set, modify, none, some, get_or-set_self, get_or-modify_self, get_or-modify, find_index?,
  find_index?-get_or, same_bytes, same_bytes→≡, sf_no_space, length-set, if-both, negsuc, ◌≢◌,
  sf_invalid, sf_denied,
}
use spirit_fox_os.Services.Namespace.Table.{
  Namespace, FileHandle, Node, Description, no_handle, no_description, no_node, handle_at, node_at,
  description_at, handle_new, description_of, handle_of, max_generation, node_find, node_pipe,
  is_zero_code, node_dir,
}
use spirit_fox_os.Services.Namespace.Open.{
  open_at, ns_open, ns_openat, mode_writes, MountOpen, mount_code, node_code, open_code, mode_bit,
  widens, bad_mode,
}

-- The handle h of the owner names a new description of the node at this path, with this mode.
pub record GrantOk (n : Namespace) (owner h mode : ℕ) (path : List ℕ) : Type 0 where
  pub index : ℕ
  pub named : description_of n owner h ≡ some index
  pub mode_lem : (description_at n index).mode ≡ mode
  pub path_lem : (node_at n (description_at n index).node).path ≡ path

abbrev pub free_handle : FileHandle → Bool
free_handle x = x.description == 0 && ltb x.generation max_generation

abbrev used_again : Namespace → ℕ → ℕ → ℕ → List FileHandle
used_again n owner d i =
    set n.handles i
      (record { owner = owner; generation = (handle_at n i).generation + 1; description = d + 1 })

-- The handle of a slot that is used again.
description_of-again :
    (n : Namespace) (owner d i : ℕ) (n' : Namespace)
    → i < length n.handles
    → length n.handles ≤ 64
    → n'.handles ≡ used_again n owner d i
    → description_of n' owner (handle_of ((handle_at n i).generation + 1) i) ≡ some d
unfolding description_of
description_of-again n owner d i n' lt le e =
    rw
      (
        low,
        high,
        back,
        e,
        get_or-set_self n.handles i new no_handle lt,
        first,
        same_owner,
        same_generation,
        used,
        back',
      )
      refl
  where
    g : ℕ
    g = (handle_at n i).generation + 1

    new : FileHandle
    new = record { owner = owner; generation = (handle_at n i).generation + 1; description = d + 1 }

    low : handle_of ((handle_at n i).generation + 1) i % 256 ≡ i + 1
    low = omega (arith, lt, le)

    high : handle_of ((handle_at n i).generation + 1) i / 256 ≡ (handle_at n i).generation + 1
    high = omega (arith, lt, le)

    back : i + 1 - 1 ≡ i
    back = omega arith

    first : (i + 1 == 0 || ltb 64 (i + 1)) ≡ false
    first = ground (arith, lt, le)

    same_owner : (owner == owner) ≡ true
    same_owner = ground arith

    same_generation : ((handle_at n i).generation + 1 == (handle_at n i).generation + 1) ≡ true
    same_generation = ground arith

    used : (d + 1 == 0) ≡ false
    used = ground arith

    back' : d + 1 - 1 ≡ d
    back' = omega arith

-- The tables after the description d of node i and its handle k were made.
pub granted :
    (n n' : Namespace) (owner i mode d k : ℕ) (path : List ℕ)
    → k < length n.handles
    → length n.handles ≤ 64
    → d < length n.descriptions
    → n'.handles ≡ used_again n owner d k
    → n'.descriptions
      ≡ modify d
          (λ x. record x { refs = x.refs + 1 })
          (set n.descriptions d (record { node = i; offset = 0; mode = mode; refs = 0 }))
    → (node_at n' i).path ≡ path
    → GrantOk n' owner (handle_of ((handle_at n k).generation + 1) k) mode path
granted n n' owner i mode d k path lt le dlt eh ed ep = record {
  index = d;
  named = description_of-again n owner d k n' lt le eh;
  mode_lem = ap (λ x. x.mode) at_d;
  path_lem = ap (λ (x : Description). (node_at n' x.node).path) at_d ∙ ep;
}
  where
    new : Description
    new = record { node = i; offset = 0; mode = mode; refs = 0 }

    counted : Description
    counted = record { node = i; offset = 0; mode = mode; refs = 1 }

    at_d : description_at n' d ≡ record { node = i; offset = 0; mode = mode; refs = 1 }
    at_d =
        ap (λ ds. get_or ds d no_description) ed
        ∙ get_or-modify_self d (λ x. record x { refs = x.refs + 1 })
            (set n.descriptions d (record { node = i; offset = 0; mode = mode; refs = 0 }))
            no_description
            (omega (
              arith,
              dlt,
              length-set n.descriptions d (record { node = i; offset = 0; mode = mode; refs = 0 }),
            ))
        ∙ ap (λ (x : Description). record x { refs = x.refs + 1 })
            (get_or-set_self n.descriptions d
              (record { node = i; offset = 0; mode = mode; refs = 0 }) no_description dlt)

pub pos-injective : {a b : ℕ} → pos a ≡ pos b → a ≡ b
pos-injective {a} e = ap (λ r. elim r [ pos n ↦ n | negsuc n ↦ a ]) e

-- A code that refuses is no handle.
unfoldable pub NoHandle : ℤ → Type 0
NoHandle r = is_zero_code r ≡ false → (k : ℕ) → r ≢ pos k

pub handle_new-used :
    (n : Namespace) (owner d k : ℕ)
    → find_index? free_handle n.handles ≡ some k
    → handle_new n owner d ≡ (
      pos (handle_of ((handle_at n k).generation + 1) k),
      record n {
        handles = used_again n owner d k;
        descriptions = modify d (λ x. record x { refs = x.refs + 1 }) n.descriptions;
      },
    )
unfolding handle_new
handle_new-used n owner d k e = rw (e, handle_new) refl

abbrev pub described : Namespace → ℕ → ℕ → ℕ → Namespace
described n i mode d = record n {
  descriptions = set n.descriptions d (record { node = i; offset = 0; mode = mode; refs = 0 });
}

abbrev pub made : Namespace → ℕ → ℕ → ℕ → ℕ → ℕ → Namespace
made n owner i mode d k = record (described n i mode d) {
  handles = used_again n owner d k;
  descriptions = modify d (λ x. record x { refs = x.refs + 1 }) (described n i mode d).descriptions;
}

abbrev pub with_writer : ℕ → ℤ × Namespace → ℤ × Namespace
with_writer i r =
    (r.0, record r.1 { nodes = modify i (λ x. record x { writers = x.writers + 1 }) r.1.nodes })

pub open_at-used :
    (n : Namespace) (owner i mode d k : ℕ)
    → find_index? free_handle n.handles ≡ some k
    → open_at n owner i mode d ≡ (
        if (node_at n i).kind == node_pipe && mode_writes mode
        then with_writer i (handle_new (described n i mode d) owner d)
        else handle_new (described n i mode d) owner d)
unfolding open_at
open_at-used n owner i mode d k e = rw (e, open_at) refl

pub open_at-full :
    (n : Namespace) (owner i mode d : ℕ)
    → find_index? free_handle n.handles ≡ none
    → (open_at n owner i mode d).0 ≡ sf_no_space
unfolding open_at
open_at-full n owner i mode d e = rw (e, open_at) refl
