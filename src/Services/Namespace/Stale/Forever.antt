-- ===== src/Services/Namespace/Stale/Forever.antt =====
-- services/namespace.c: a handle that was closed never names anything again.
use spirit_fox_os.Services.Namespace.Info.{ns_truncate, truncate_reply}
use spirit_fox_os.Services.Namespace.Data.{
  Backend, ns_read, ns_pread, read_reply, pread_reply, ns_write, write_reply, ns_seek, seek_reply,
}
use spirit_fox_os.Prelude.{
  ℕ, zero, suc, ◌-◌, ◌/◌, ◌%◌, ◌<◌, ◌≡◌, refl, sym, ap, subst, inl, inr, Bool, ◌==◌, ltb, not, ◌||◌,
  List, [], ◌∷◌, arith, Bool-cases, Option-cases, get_or, modify, none, some, sf_ok,
  sf_stale_handle,
}
use spirit_fox_os.Services.Namespace.Table.{
  Namespace, FileHandle, no_handle, handle_at, ns_create, ns_dup, description_of, handle_of,
  node_dir, is_zero_code, node_file,
}
use spirit_fox_os.Services.Namespace.Open.{
  MountOpen, ns_open, ns_openat, ns_close, ns_unmount, ns_reap, ns_unlink, ns_rmdir,
}
use spirit_fox_os.Services.Namespace.Stale.{
  IsSpent, ns_open-Spent, ns_openat-Spent, ns_dup-Spent, ns_close-Spent, reap_from-Spent,
  ns_create-Spent, remove_node-Spent, ns_unmount-Spent, IsSpent-none, with_handle-Spent,
}

-- The calls of the service.
pub data Call : Type 0 where
  create : List ℕ → ℕ → Bool → Call
  open_call : ℕ → List ℕ → List ℕ → ℕ → Call
  openat : ℕ → ℕ → List ℕ → ℕ → Call
  dup : ℕ → ℕ → Call
  close : ℕ → ℕ → Call
  unlink : ℕ → ℕ → List ℕ → Call
  rmdir : ℕ → ℕ → List ℕ → Call
  reap : ℕ → Call
  unmount : ℕ → Call
  read : ℕ → ℕ → ℕ → Call
  pread : ℕ → ℕ → ℕ → ℕ → Call
  write : ℕ → ℕ → List ℕ → Call
  seek : ℕ → ℕ → ℕ → Call
  truncate : ℕ → ℕ → ℕ → Call

abbrev pub perform : Backend → MountOpen → Namespace → Call → Namespace
perform be f n (create p kind ro) = (ns_create n p kind ro).1
perform be f n (open_call owner root path mode) = (ns_open f n owner root path mode).1
perform be f n (openat owner directory relative mode) =
    (ns_openat f n owner directory relative mode).1
perform be f n (dup owner h) = (ns_dup n owner h).1
perform be f n (close owner h) = (ns_close n owner h).1
perform be f n (unlink owner directory relative) = (ns_unlink n owner directory relative).1
perform be f n (rmdir owner directory relative) = (ns_rmdir n owner directory relative).1
perform be f n (reap owner) = ns_reap n owner
perform be f n (unmount tag) = (ns_unmount n tag).1
perform be f n (read owner h count) = (ns_read be n owner h count).1
perform be f n (pread owner h count offset) = (ns_pread be n owner h count offset).1
perform be f n (write owner h data') = (ns_write be n owner h data').1
perform be f n (seek owner h offset) = (ns_seek n owner h offset).1
perform be f n (truncate owner h bytes) = (ns_truncate be n owner h bytes).1

unfoldable pub perform_all : Backend → MountOpen → Namespace → List Call → Namespace
perform_all be f n [] = n
perform_all be f n (c ∷ cs) = perform_all be f (perform be f n c) cs

perform-IsSpent :
    (i g : ℕ) (be : Backend) (f : MountOpen) (n : Namespace) (c : Call)
    → IsSpent i g n.handles
    → IsSpent i g (perform be f n c).handles
perform-IsSpent i g be f n (create p kind ro) h = ns_create-Spent i g n p kind ro h
perform-IsSpent i g be f n (open_call owner root path mode) h =
    ns_open-Spent i g f n owner root path mode h
perform-IsSpent i g be f n (openat owner directory relative mode) h =
    ns_openat-Spent i g f n owner directory relative mode h
perform-IsSpent i g be f n (dup owner x) h = ns_dup-Spent i g n owner x h
perform-IsSpent i g be f n (close owner x) h = ns_close-Spent i g n owner x h
perform-IsSpent i g be f n (unlink owner directory relative) h =
    remove_node-Spent i g n owner directory relative node_file h
perform-IsSpent i g be f n (rmdir owner directory relative) h =
    remove_node-Spent i g n owner directory relative node_dir h
perform-IsSpent i g be f n (reap owner) h = reap_from-Spent i g 64 0 n owner h
perform-IsSpent i g be f n (unmount tag) h = ns_unmount-Spent i g n tag h
perform-IsSpent i g be f n (read owner x count) h =
    with_handle-Spent i g n owner x (read_reply be count) h
perform-IsSpent i g be f n (pread owner x count offset) h =
    with_handle-Spent i g n owner x (pread_reply be count offset) h
perform-IsSpent i g be f n (write owner x data') h =
    with_handle-Spent i g n owner x (write_reply be data') h
perform-IsSpent i g be f n (seek owner x offset) h =
    with_handle-Spent i g n owner x (seek_reply offset) h
perform-IsSpent i g be f n (truncate owner x bytes) h =
    with_handle-Spent i g n owner x (truncate_reply be bytes) h

perform_all-IsSpent :
    (i g : ℕ) (be : Backend) (f : MountOpen) (cs : List Call) (n : Namespace)
    → IsSpent i g n.handles
    → IsSpent i g (perform_all be f n cs).handles
unfolding perform_all
perform_all-IsSpent i g be f [] n h = h
perform_all-IsSpent i g be f (c ∷ cs) n h =
    perform_all-IsSpent i g be f cs (perform be f n c) (perform-IsSpent i g be f n c h)

-- What a handle that is valid says about its slot.
record NamedOk (n : Namespace) (owner h : ℕ) : Type 0 where
  slot_lt : h % 256 - 1 < 64
  handle_lem : h ≡ handle_of (h / 256) (h % 256 - 1)
  generation_lem : (handle_at n (h % 256 - 1)).generation ≡ h / 256

description_of-NamedOk :
    (n : Namespace) (owner h d : ℕ) → description_of n owner h ≡ some d → NamedOk n owner h
unfolding description_of
description_of-NamedOk n owner h d e = elim (Bool-cases (h % 256 == 0 || ltb 64 (h % 256))) [
  | inl a ↦ let bad : none ≡ some d = rw a at e in absurd (cc bad)
  | inr a ↦ elim (Bool-cases tests) [
    | inl b ↦ let bad : none ≡ some d = rw (a, b) at e in absurd (cc bad)
    | inr b ↦ record {
      slot_lt = ground (arith, a);
      handle_lem = ground (arith, a);
      generation_lem = ground (arith, b);
    }
  ]
]
  where
    x : FileHandle
    x = handle_at n (h % 256 - 1)

    tests : Bool
    tests = not (x.owner == owner) || (not (x.generation == h / 256) || (x.description == 0))

freed_description :
    (k : ℕ) (hs : List FileHandle)
    → (get_or (modify k (λ x. record x { description = 0 }) hs) k no_handle).description ≡ 0
freed_description k [] = refl
freed_description zero (x ∷ hs) = refl
freed_description (suc k) (x ∷ hs) = freed_description k hs

freed_generation :
    (k : ℕ) (hs : List FileHandle)
    → (get_or (modify k (λ x. record x { description = 0 }) hs) k no_handle).generation
      ≡ (get_or hs k no_handle).generation
freed_generation k [] = refl
freed_generation zero (x ∷ hs) = refl
freed_generation (suc k) (x ∷ hs) = freed_generation k hs

ns_close-IsSpent :
    (n : Namespace) (owner h : ℕ)
    → (ns_close n owner h).0 ≡ sf_ok
    → NamedOk n owner h × IsSpent (h % 256 - 1) (h / 256) (ns_close n owner h).1.handles
unfolding ns_close IsSpent
ns_close-IsSpent n owner h e = elim (Option-cases (description_of n owner h)) [
  | inl z ↦
      let bad : sf_stale_handle ≡ sf_ok = rw (z, ns_close) at e in
      absurd (ground (arith, ap (λ r. is_zero_code r) bad))
  | inr s ↦
      let named = description_of-NamedOk n owner h s.0 s.1 in
      rw (s.1, ns_close)
        (
          named,
          inr (
            omega (arith, freed_generation (h % 256 - 1) n.handles, named.generation_lem),
            freed_description (h % 256 - 1) n.handles,
          ),
        )
]

-- After sf_ns_close returns 0 for a handle, this handle names no description for any owner, whatever
-- calls of these follow: creating, opening, duplicating, closing, removing, reaping, unmounting,
-- reading, writing, seeking, truncating.
pub ns_close-forever :
    (be : Backend) (f : MountOpen) (n : Namespace) (owner h : ℕ)
    → (ns_close n owner h).0 ≡ sf_ok
    → (cs : List Call) (other : ℕ)
    → description_of (perform_all be f (ns_close n owner h).1 cs) other h ≡ none
ns_close-forever be f n owner h e cs other =
    let closed = ns_close-IsSpent n owner h e in
    subst (λ x. description_of (perform_all be f (ns_close n owner h).1 cs) other x ≡ none)
      (sym closed.0.handle_lem)
      (IsSpent-none (h % 256 - 1) (h / 256) (perform_all be f (ns_close n owner h).1 cs) other
        closed.0.slot_lt
        (perform_all-IsSpent (h % 256 - 1) (h / 256) be f cs (ns_close n owner h).1 closed.1))
