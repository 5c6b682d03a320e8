-- ===== src/Kernel/Ipc/Mapped.antt =====
-- A task that waits in SYS_RECV of kernel/ipc.c waits on a buffer that can be written: so the copy
-- in SYS_SEND does not fail.
use spirit_fox_os.Prelude.{
  ℕ, zero, suc, ◌+◌, ◌-◌, ◌≡◌, refl, ◌∙◌, true, List, [], ◌∷◌, get_or, modify, map, arith,
  get_or-modify, Bool-cases, Option-cases, inl, inr, any,
}
use spirit_fox_os.Kernel.State.{
  Task, is_blocked, Message, UserMemory, Kernel, no_task, message_size,
}
use spirit_fox_os.Kernel.Ipc.{
  task_at, modify_task, invalidate, invalidate_task, revoke_wait, close_cap, cap_at, set_caps,
  references, install, cap_slot, expire, ipc_deadlines,
}

-- The task wakes up, or goes on waiting on the same buffer.
abbrev pub Wakes : Task → Task → Type 0
Wakes t t' =
    is_blocked t'.state ≡ true → (is_blocked t.state ≡ true) × (t'.recv_buffer ≡ t.recv_buffer)

map-Wakes :
    (g : Task → Task)
    → ((t : Task) → Wakes t (g t))
    → (xs : List Task) (j : ℕ) → Wakes (get_or xs j no_task) (get_or (map g xs) j no_task)
map-Wakes g h [] j b = (b, refl)
map-Wakes g h (x ∷ xs) zero b = h x b
map-Wakes g h (x ∷ xs) (suc j) b = map-Wakes g h xs j b

invalidate_task-Wakes : (ticks i : ℕ) (t : Task) → Wakes t (invalidate_task ticks i t)
unfolding invalidate_task revoke_wait
invalidate_task-Wakes ticks i t b = ground arith

expire-Wakes : (ticks : ℕ) (t : Task) → Wakes t (expire ticks t)
unfolding expire
expire-Wakes ticks t b = ground arith

module _ {U : UserMemory} where
  abbrev pub AreMapped : Kernel U → Type 0
  AreMapped k =
      (i : ℕ)
      → is_blocked (task_at k i).state ≡ true
      → U.user_range k.memory i (task_at k i).recv_buffer message_size true ≡ true

  -- The tables change, and no task begins to wait.
  Wakes-AreMapped :
      (k k' : Kernel U)
      → k'.memory ≡ k.memory
      → ((i : ℕ) → Wakes (task_at k i) (task_at k' i))
      → AreMapped k
      → AreMapped k'
  Wakes-AreMapped k k' e h m i b = let (was, same) = h i b in rw (e, same) (m i was)

  pub modify_task-AreMapped :
      (i : ℕ) (f : Task → Task) (k : Kernel U)
      → Wakes (task_at k i) (f (task_at k i))
      → AreMapped k
      → AreMapped (modify_task i f k)
  modify_task-AreMapped i f k w m = Wakes-AreMapped k (modify_task i f k) refl wakes m
    where
      wakes : (j : ℕ) → Wakes (task_at k j) (get_or (modify i f k.tasks) j no_task)
      wakes j = elim (get_or-modify i j f k.tasks no_task) [
        | inl e ↦ rw e (λ b. (b, refl))
        | inr (same, e, _) ↦ rw e (rw same at w)
      ]

  pub invalidate-AreMapped : (i : ℕ) (k : Kernel U) → AreMapped k → AreMapped (invalidate i k)
  unfolding invalidate
  invalidate-AreMapped i k m =
      Wakes-AreMapped k (invalidate i k) refl
        (map-Wakes (invalidate_task k.ticks i) (invalidate_task-Wakes k.ticks i) k.tasks) m

  pub ipc_deadlines-AreMapped : (k : Kernel U) → AreMapped k → AreMapped (ipc_deadlines k)
  unfolding ipc_deadlines
  ipc_deadlines-AreMapped k m =
      Wakes-AreMapped k (ipc_deadlines k) refl
        (map-Wakes (expire k.ticks) (expire-Wakes k.ticks) k.tasks) m

  pub close_cap-AreMapped :
      (ti slot : ℕ) (k : Kernel U) → AreMapped k → AreMapped (close_cap ti slot k)
  unfolding close_cap
  close_cap-AreMapped ti slot k m = elim (Bool-cases (any (references (ep + 1)) k'.tasks)) [
    | inl shared ↦ rw shared dropped
    | inr last ↦ rw last (invalidate-AreMapped ep k' dropped)
  ]
    where
      ep : ℕ
      ep = (cap_at (task_at k ti) slot).endpoint - 1

      k' : Kernel U
      k' = modify_task ti (set_caps (modify slot (λ c. record c { endpoint = 0 }))) k

      dropped : AreMapped k'
      dropped = modify_task-AreMapped ti _ k (λ b. (b, refl)) m

  pub install-AreMapped :
      (k : Kernel U) (ti ep rights : ℕ) → AreMapped k → AreMapped (install k ti ep rights).0
  unfolding install
  install-AreMapped k ti ep rights m = elim (Option-cases (cap_slot (task_at k ti))) [
    | inl full ↦ rw (full, install) m
    | inr (slot, e) ↦ rw (e, install) (modify_task-AreMapped ti _ k (λ b. (b, refl)) m)
  ]

  -- A message that is stored changes no mapping.
  pub store-AreMapped :
      (k : Kernel U) (j address : ℕ) (m : Message)
      → U.user_range k.memory j address message_size true ≡ true
      → AreMapped k
      → AreMapped (record k { memory = U.store k.memory j address m })
  store-AreMapped k j address m ok h i b =
      U.user_range-store k.memory j address m i _ message_size true ok ∙ h i b

  -- A task may begin to wait on a buffer that can be written.
  pub modify_task-AreMapped_wait :
      (i : ℕ) (f : Task → Task) (k : Kernel U)
      → U.user_range k.memory i (f (task_at k i)).recv_buffer message_size true ≡ true
      → AreMapped k
      → AreMapped (modify_task i f k)
  modify_task-AreMapped_wait i f k open_buffer m j = elim (get_or-modify i j f k.tasks no_task) [
    | inl e ↦ rw e (m j)
    | inr (same, e, _) ↦ rw (e, ← same) (λ _. open_buffer)
  ]
