-- ===== src/Services/Namespace/Stale.antt =====
-- services/namespace.c: a slot of the handles that is past a generation stays so.
pub mod Forever
use spirit_fox_os.Services.Namespace.Data.{with_handle, Reply}
use spirit_fox_os.Services.Namespace.Paths.{ns_path_ok, relative_ok, relative_path}
use spirit_fox_os.Prelude.{
  ℕ, zero, suc, ◌+◌, ◌-◌, ◌*◌, ◌/◌, ◌%◌, ◌<◌, ◌≤◌, ◌≡◌, ◌≢◌, refl, sym, ◌∙◌, ap, subst, ◌⊎◌, inl,
  inr, Bool, true, false, ◌==◌, ltb, ◌&&◌, not, ◌||◌, if◌then◌else◌, List, [], ◌∷◌, arith,
  Bool-cases, Option-cases, ℤ, if-both, get_or, set, modify, Option, none, some, get_or-set_self,
  get_or-set_ne, get_or-modify, find_index?, find_index?-get_or, sf_ok, sf_stale_handle,
  sf_no_space, length, any, take, drop,
}
use spirit_fox_os.Services.Namespace.Table.{
  Namespace, FileHandle, Node, Description, no_handle, handle_at, node_at, description_at,
  handle_new, ns_create, ns_dup, description_of, handle_of, node_pipe, node_dir, node_find,
  is_zero_code, parent_code, node_file,
}
use spirit_fox_os.Services.Namespace.Open.{
  MountOpen, ns_open, ns_openat, ns_close, ns_unmount, remove_node, open_at, ns_reap, reap_from,
  remove_path, mode_writes, target_code, open_code, bad_mode, node_code, widens, mount_code,
  ns_unlink, ns_rmdir, parents_code,
}

-- Slot i is past generation g, or is at it and free.
unfoldable pub IsSpent : ℕ → ℕ → List FileHandle → Type 0
IsSpent i g hs =
    (g < (get_or hs i no_handle).generation)
    ⊎ ((g ≤ (get_or hs i no_handle).generation) × ((get_or hs i no_handle).description ≡ 0))

module _ (i g : ℕ) where
  abbrev Spent : ℤ × Namespace → Type 0
  Spent r = IsSpent i g r.1.handles

  abbrev SpentTable : Namespace → Type 0
  SpentTable n = IsSpent i g n.handles

  generation-le : (hs : List FileHandle) → IsSpent i g hs → g ≤ (get_or hs i no_handle).generation
  unfolding IsSpent
  generation-le hs (inl h) = omega (arith, h)
  generation-le hs (inr h) = h.0

  -- A slot that is used again is past its generation.
  reused-IsSpent :
      (hs : List FileHandle) (k owner d : ℕ)
      → k < length hs
      → IsSpent i g hs
      → IsSpent i g (
          set hs k (record {
            owner = owner;
            generation = (get_or hs k no_handle).generation + 1;
            description = d;
          }))
  unfolding IsSpent
  reused-IsSpent hs k owner d lt h = elim (Bool-cases (k == i)) [
    | inl e ↦
        let same : k ≡ i = ground (arith, e) in
        let le : g ≤ (get_or hs k no_handle).generation =
          subst (λ j. g ≤ (get_or hs j no_handle).generation) (sym same) (generation-le hs h) in
        let new : FileHandle = record {
          owner = owner;
          generation = (get_or hs k no_handle).generation + 1;
          description = d;
        } in
        subst (λ j. IsSpent i g (set hs k new)) same
          (inl (
            subst (λ x. g < x.generation)
              (sym (
                subst (λ j. get_or (set hs k new) j no_handle ≡ new) same
                  (get_or-set_self hs k new no_handle lt)))
              (omega (arith, le))))
    | inr e ↦
        let differs : k ≢ i = λ q. absurd (ground (arith, e, q)) in
        rw (get_or-set_ne hs k i _ no_handle differs) h
  ]

  closed-IsSpent :
      (hs : List FileHandle) (k : ℕ)
      → IsSpent i g hs
      → IsSpent i g (modify k (λ x. record x { description = 0 }) hs)
  unfolding IsSpent
  closed-IsSpent hs k h =
      elim (get_or-modify k i (λ x. record x { description = 0 }) hs no_handle) [
        | inl e ↦ rw e h
        | inr r ↦ rw r.1 (inr (generation-le hs h, refl))
      ]

  handle_new-Spent :
      (n : Namespace) (owner d : ℕ) → IsSpent i g n.handles → Spent (handle_new n owner d)
  unfolding handle_new
  handle_new-Spent n owner d h =
      elim (Option-cases
        (find_index? (λ x. x.description == 0 && ltb x.generation 8388607) n.handles)) [
          | inl e ↦ rw (e, handle_new) h
          | inr s ↦
              let hit =
                find_index?-get_or (λ x. x.description == 0 && ltb x.generation 8388607) s.0
                  n.handles no_handle s.1 in
              rw (s.1, handle_new) (reused-IsSpent n.handles s.0 owner (d + 1) hit.0 h)
        ]

  open_at-Spent :
      (n : Namespace) (owner node mode d : ℕ)
      → IsSpent i g n.handles
      → Spent (open_at n owner node mode d)
  unfolding open_at
  open_at-Spent n owner node mode d h =
      let described : Namespace = record n {
        descriptions =
            set n.descriptions d (record { node = node; offset = 0; mode = mode; refs = 0 });
      } in
      let new : Spent (handle_new described owner d) = handle_new-Spent described owner d h in
      elim (Option-cases
        (find_index? (λ x. x.description == 0 && ltb x.generation 8388607) n.handles)) [
          | inl e ↦ rw (e, open_at) h
          | inr s ↦
              rw (s.1, open_at)
                (if-both Spent ((node_at n node).kind == node_pipe && mode_writes mode) _ _ new new)
        ]

  pub ns_open-Spent :
      (f : MountOpen) (n : Namespace) (owner : ℕ) (root path : List ℕ) (mode : ℕ)
      → IsSpent i g n.handles
      → Spent (ns_open f n owner root path mode)
  unfolding ns_open
  ns_open-Spent f n owner root path mode h =
      if-both Spent (not (is_zero_code (open_code n owner root path mode))) _ _ h
        (elim (Option-cases (node_find n path)) [
          | inl e ↦ rw e h
          | inr s ↦ rw s.1 (
              if-both Spent (not (is_zero_code (node_code (node_at n s.0) mode))) _ _ h
                (elim (Option-cases (find_index? (λ d. d.refs == 0) n.descriptions)) [
                  | inl e ↦ rw e h
                  | inr t ↦ rw t.1 (
                      if-both Spent (not (is_zero_code (mount_code f (node_at n s.0).mount_tag))) _
                        _ h (open_at-Spent n owner s.0 mode t.0 h))
                ]))
        ])

  pub ns_openat-Spent :
      (f : MountOpen) (n : Namespace) (owner directory : ℕ) (relative : List ℕ) (mode : ℕ)
      → IsSpent i g n.handles
      → Spent (ns_openat f n owner directory relative mode)
  unfolding ns_openat
  ns_openat-Spent f n owner directory relative mode h =
      elim (Option-cases (description_of n owner directory)) [
        | inl e ↦ rw (e, ns_openat) h
        | inr s ↦
            rw (s.1, ns_openat)
              (if-both Spent
                (not ((node_at n (description_at n s.0).node).kind == node_dir) || bad_mode mode) _
                _ h
                (if-both Spent (widens mode (description_at n s.0).mode) _ _ h (
                  if-both Spent
                    (not (relative_ok (node_at n (description_at n s.0).node).path relative)) _ _ h
                    (ns_open-Spent f n owner (node_at n (description_at n s.0).node).path
                      (relative_path (node_at n (description_at n s.0).node).path relative) mode
                      h))))
      ]

  pub ns_dup-Spent :
      (n : Namespace) (owner x : ℕ) → IsSpent i g n.handles → Spent (ns_dup n owner x)
  unfolding ns_dup
  ns_dup-Spent n owner x h = elim (Option-cases (description_of n owner x)) [
    | inl e ↦ rw (e, ns_dup) h
    | inr s ↦ rw (s.1, ns_dup) (handle_new-Spent n owner s.0 h)
  ]

  pub ns_close-Spent :
      (n : Namespace) (owner x : ℕ) → IsSpent i g n.handles → Spent (ns_close n owner x)
  unfolding ns_close
  ns_close-Spent n owner x h = elim (Option-cases (description_of n owner x)) [
    | inl e ↦ rw (e, ns_close) h
    | inr s ↦ rw (s.1, ns_close) (closed-IsSpent n.handles (x % 256 - 1) h)
  ]

  pub reap_from-Spent :
      (k j : ℕ) (n : Namespace) (owner : ℕ)
      → IsSpent i g n.handles
      → IsSpent i g (reap_from k j n owner).handles
  unfolding reap_from
  reap_from-Spent zero j n owner h = h
  reap_from-Spent (suc k) j n owner h =
      let x = handle_at n j in
      reap_from-Spent k (suc j) _ owner (
        if-both SpentTable (not (x.description == 0) && x.owner == owner) _ _
          (ns_close-Spent n owner (handle_of x.generation j) h) h)

  pub ns_create-Spent :
      (n : Namespace) (p : List ℕ) (kind : ℕ) (ro : Bool)
      → IsSpent i g n.handles
      → Spent (ns_create n p kind ro)
  unfolding ns_create
  ns_create-Spent n p kind ro h =
      if-both Spent (not (ns_path_ok p) || (ltb kind 1 || ltb 5 kind)) _ _ h
        (elim (Option-cases (node_find n p)) [
          | inr s ↦ rw s.1 h
          | inl e ↦ rw e (
              if-both Spent (not (is_zero_code (parent_code n p))) _ _ h
                (elim (Option-cases (find_index? (λ x. x.kind == 0) n.nodes)) [
                  | inl e' ↦ rw e' h
                  | inr s ↦ rw s.1 h
                ]))
        ])

  remove_path-Spent :
      (n : Namespace) (base : Node) (path : List ℕ) (kind : ℕ)
      → IsSpent i g n.handles
      → Spent (remove_path n base path kind)
  unfolding remove_path
  remove_path-Spent n base path kind h =
      if-both Spent (base.readonly || not (base.mount_tag == 0)) _ _ h (
        if-both Spent
          (not (
            is_zero_code
              (parents_code n (take (length base.path) path) (drop (length base.path) path))))
          _ _ h
          (elim (Option-cases (node_find n path)) [
            | inl e ↦ rw e h
            | inr s ↦
                rw s.1 (if-both Spent (not (is_zero_code (target_code n s.0 path kind))) _ _ h h)
          ]))

  pub remove_node-Spent :
      (n : Namespace) (owner directory : ℕ) (relative : List ℕ) (kind : ℕ)
      → IsSpent i g n.handles
      → Spent (remove_node n owner directory relative kind)
  unfolding remove_node
  remove_node-Spent n owner directory relative kind h =
      elim (Option-cases (description_of n owner directory)) [
        | inl e ↦ rw (e, remove_node) h
        | inr s ↦
            let base = node_at n (description_at n s.0).node in
            rw (s.1, remove_node)
              (if-both Spent (not (base.kind == node_dir)) _ _ h (
                if-both Spent (not (mode_writes (description_at n s.0).mode)) _ _ h (
                  if-both Spent (not (relative_ok base.path relative)) _ _ h
                    (remove_path-Spent n base (relative_path base.path relative) kind h))))
      ]

  pub ns_unmount-Spent :
      (n : Namespace) (tag : ℕ) → IsSpent i g n.handles → Spent (ns_unmount n tag)
  unfolding ns_unmount
  ns_unmount-Spent n tag h = if-both Spent (tag == 0) _ _ h (
      if-both Spent
        (any (λ d. not (d.refs == 0) && (node_at n d.node).mount_tag == tag) n.descriptions) _ _ h
        h)

  pub with_handle-Spent :
      (n : Namespace) (owner x : ℕ) (call : Node → Description → Reply)
      → IsSpent i g n.handles
      → IsSpent i g (with_handle n owner x call).1.handles
  unfolding with_handle
  with_handle-Spent n owner x call h = elim (Option-cases (description_of n owner x)) [
    | inl e ↦ rw (e, with_handle) h
    | inr s ↦ rw (s.1, with_handle) h
  ]

  -- A spent slot does not answer to the handle of its generation.
  pub IsSpent-none :
      (n : Namespace) (owner : ℕ)
      → i < 64
      → IsSpent i g n.handles
      → description_of n owner (handle_of g i) ≡ none
  unfolding IsSpent description_of
  IsSpent-none n owner lt h =
      rw (low, high, back)
        (if-both (λ (o : Option ℕ). o ≡ none) (i + 1 == 0 || ltb 64 (i + 1)) none _ refl
          (rw (refused h) refl))
    where
      low : handle_of g i % 256 ≡ i + 1
      low = omega (arith, lt)

      high : handle_of g i / 256 ≡ g
      high = omega (arith, lt)

      back : i + 1 - 1 ≡ i
      back = omega arith

      x : FileHandle
      x = handle_at n i

      refused :
          (g < x.generation) ⊎ ((g ≤ x.generation) × (x.description ≡ 0))
          → (not (x.owner == owner) || (not (x.generation == g) || x.description == 0)) ≡ true
      refused (inl l) = ground (arith, l)
      refused (inr z) = ground (arith, z.1)
