-- ===== src/Services/Namespace/Rights/Openat.antt =====
-- services/namespace.c: what sf_ns_openat grants of what its directory holds.
use spirit_fox_os.Services.Namespace.Paths.{
  ns_path_ok, relative_path, root_path, beneath, relative_ok,
}
use spirit_fox_os.Prelude.{
  ℕ, ◌+◌, ◌<◌, ◌≤◌, ◌≡◌, refl, sym, ◌∙◌, ap, subst, inl, inr, false, not, ◌==◌, ◌&&◌, ◌||◌, List,
  length, arith, Bool-cases, Option-cases, ℤ, pos, get_or, modify, some, get_or-modify, find_index?,
  find_index?-get_or, same_bytes, same_bytes→≡, if-both, sf_invalid, sf_denied,
}
use spirit_fox_os.Services.Namespace.Table.{
  Namespace, Node, no_handle, no_description, no_node, node_at, description_at, handle_new,
  description_of, node_find, node_pipe, is_zero_code, node_dir,
}
use spirit_fox_os.Services.Namespace.Open.{
  open_at, ns_open, ns_openat, mode_writes, MountOpen, mount_code, node_code, open_code, mode_bit,
  widens, bad_mode,
}
use spirit_fox_os.Services.Namespace.Rights.{
  GrantOk, free_handle, granted, pos-injective, NoHandle, handle_new-used, described, made,
  with_writer, open_at-used, open_at-full,
}

module _ (n : Namespace) (owner h mode : ℕ) (handles_le : length n.handles ≤ 64) where
  -- A result that is a handle is a grant.
  abbrev Grants : List ℕ → ℤ × Namespace → Type 0
  Grants path r = r.0 ≡ pos h → GrantOk r.1 owner h mode path

  module _ (i d : ℕ) (dlt : d < length n.descriptions) where
    abbrev path : List ℕ
    path = (node_at n i).path

    handle-Grants :
        (k : ℕ)
        → find_index? free_handle n.handles ≡ some k
        → Grants path (handle_new (described n i mode d) owner d)
    handle-Grants k s =
        let hit = find_index?-get_or free_handle k n.handles no_handle s in
        subst (Grants path) (sym (handle_new-used (described n i mode d) owner d k s)) (λ e.
          subst (λ x. GrantOk (made n owner i mode d k) owner x mode path) (pos-injective e)
            (granted n (made n owner i mode d k) owner i mode d k path hit.0 handles_le dlt refl
              refl refl))

    writer-Grants :
        (k : ℕ)
        → find_index? free_handle n.handles ≡ some k
        → Grants path (with_writer i (handle_new (described n i mode d) owner d))
    writer-Grants k s =
        let hit = find_index?-get_or free_handle k n.handles no_handle s in
        subst (λ r. Grants path (with_writer i r))
          (sym (handle_new-used (described n i mode d) owner d k s))
          (λ e.
            subst
              (λ x. GrantOk (with_writer i (pos 0, made n owner i mode d k)).1 owner x mode path)
              (pos-injective e)
              (granted n (with_writer i (pos 0, made n owner i mode d k)).1 owner i mode d k path
                hit.0 handles_le dlt refl refl same_path))
      where
        same_path :
            (get_or (modify i (λ x. record x { writers = x.writers + 1 }) n.nodes) i no_node).path
            ≡ (node_at n i).path
        same_path =
            elim (get_or-modify i i (λ x. record x { writers = x.writers + 1 }) n.nodes no_node) [
              | inl q ↦ ap (λ x. x.path) q
              | inr q ↦ ap (λ x. x.path) q.1
            ]

    open_at-Grants : Grants path (open_at n owner i mode d)
    open_at-Grants = elim (Option-cases (find_index? free_handle n.handles)) [
      | inl e ↦ λ bad. absurd (cc (sym (open_at-full n owner i mode d e) ∙ bad))
      | inr s ↦ subst (Grants path) (sym (open_at-used n owner i mode d s.0 s.1)) (
          if-both (Grants path) ((node_at n i).kind == node_pipe && mode_writes mode) _ _
            (writer-Grants s.0 s.1) (handle-Grants s.0 s.1))
    ]

  open_code-NoHandle : (root path : List ℕ) → NoHandle (open_code n owner root path mode)
  unfolding open_code NoHandle
  open_code-NoHandle root path =
      if-both NoHandle
        (owner == 0 || (not (ns_path_ok root) || (not (ns_path_ok path) || bad_mode mode))) _ _
        (λ z k e. cc e)
        (if-both NoHandle (not (same_bytes root root_path) && not (beneath root path)) _ _
          (λ z k e. cc e)
          (elim (Option-cases (node_find n root)) [
            | inl e ↦ rw e (λ z k e. cc e)
            | inr s ↦ rw s.1 (
                if-both NoHandle (not ((node_at n s.0).kind == node_dir)) _ _ (λ z k e. cc e)
                  (λ z. absurd (cc z)))
          ]))

  node_code-NoHandle : (x : Node) → NoHandle (node_code x mode)
  unfolding node_code NoHandle
  node_code-NoHandle x =
      if-both NoHandle (mode_bit 3 mode && not (x.kind == node_dir)) _ _ (λ z k e. cc e)
        (if-both NoHandle (x.readonly && mode_writes mode) _ _ (λ z k e. cc e) (λ z. absurd (cc z)))

  module _ (f : MountOpen) (mount_codes : (tag : ℕ) → NoHandle (mount_code f tag)) where
    ns_open-Grants : (root path : List ℕ) → Grants path (ns_open f n owner root path mode)
    unfolding ns_open node_find NoHandle
    ns_open-Grants root path = elim (Bool-cases (is_zero_code (open_code n owner root path mode))) [
      | inr z ↦ rw z (λ e. absurd (open_code-NoHandle root path z h e))
      | inl z ↦ elim (Option-cases (node_find n path)) [
        | inl none_there ↦ rw (z, none_there) (λ e. absurd (cc e))
        | inr s ↦
            let hit =
              find_index?-get_or (λ x. not (x.kind == 0) && same_bytes x.path path) s.0 n.nodes
                no_node s.1 in
            let same : (node_at n s.0).path ≡ path =
              same_bytes→≡ (node_at n s.0).path path (ground (arith, hit.1)) in
            elim (Bool-cases (is_zero_code (node_code (node_at n s.0) mode))) [
              | inr y ↦ rw (z, s.1, y) (λ e. absurd (node_code-NoHandle (node_at n s.0) y h e))
              | inl y ↦ elim (Option-cases (find_index? (λ d. d.refs == 0) n.descriptions)) [
                | inl full ↦ rw (z, s.1, y, full) (λ e. absurd (cc e))
                | inr t ↦
                    elim (Bool-cases (is_zero_code (mount_code f (node_at n s.0).mount_tag))) [
                      | inr w ↦
                          rw (z, s.1, y, t.1, w)
                            (λ e. absurd (mount_codes (node_at n s.0).mount_tag w h e))
                      | inl w ↦
                          let free =
                            find_index?-get_or (λ d. d.refs == 0) t.0 n.descriptions no_description
                              t.1 in
                          rw (z, s.1, y, t.1, w)
                            (subst (λ q. Grants q (open_at n owner s.0 mode t.0)) same
                              (open_at-Grants s.0 t.0 free.0))
                    ]
              ]
            ]
      ]
    ]

    -- With callbacks whose errors are negative: when sf_ns_openat returns a handle, the mode asks for
    -- no right that its directory's description lacks, and the handle names a new description with
    -- this mode, of the node at the directory's path followed by the relative path.
    pub ns_openat-GrantOk :
        (directory k : ℕ) (relative : List ℕ)
        → description_of n owner directory ≡ some k
        → (ns_openat f n owner directory relative mode).0 ≡ pos h
        → (widens mode (description_at n k).mode ≡ false)
          × GrantOk
              (ns_openat f n owner directory relative mode).1
              owner
              h
              mode
              (relative_path (node_at n (description_at n k).node).path relative)
    unfolding ns_openat
    ns_openat-GrantOk directory k relative named e =
        elim (Bool-cases
          (not ((node_at n (description_at n k).node).kind == node_dir) || bad_mode mode)) [
            | inl a ↦
                let bad : sf_invalid ≡ pos h = rw (named, a, ns_openat) at e in absurd (cc bad)
            | inr a ↦ elim (Bool-cases (widens mode (description_at n k).mode)) [
              | inl b ↦
                  let bad : sf_denied ≡ pos h = rw (named, a, b, ns_openat) at e in absurd (cc bad)
              | inr b ↦
                  elim (Bool-cases
                    (relative_ok (node_at n (description_at n k).node).path relative)) [
                      | inr c ↦
                          let bad : sf_invalid ≡ pos h = rw (named, a, b, c, ns_openat) at e in
                          absurd (cc bad)
                      | inl c ↦
                          let base = (node_at n (description_at n k).node).path in
                          let e' : (ns_open f n owner base (relative_path base relative) mode).0
                              ≡ pos h =
                            rw (named, a, b, c, ns_openat) at e in
                          rw (named, a, b, c, ns_openat)
                            (refl, ns_open-Grants base (relative_path base relative) e')
                    ]
            ]
          ]
