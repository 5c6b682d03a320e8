-- ===== src/Kernel/Ipc/Stale.antt =====
-- Handles of kernel/ipc.c are not reused: the generation of a slot only grows, so a handle that was
-- closed or revoked names nothing ever after.
use spirit_fox_os.Prelude.{
  ℕ, zero, suc, ◌+◌, ◌-◌, ◌<◌, ◌≡◌, refl, true, false, List, [], ◌∷◌, get_or, modify, map, none,
  some, arith, Bool-cases, Option-cases, inl, inr, ◌⊎◌, get_or-modify, any, ◌==◌, ◌||◌, not, leb,
  ◌&&◌, find_index?,
}
use spirit_fox_os.Kernel.State.{
  Cap, Task, Endpoint, UserMemory, Kernel, Message, no_cap, no_task, message_size, right_delegate,
  right_send, right_recv, now_ns,
}
use spirit_fox_os.Kernel.Ipc.{
  copied, cap, cap_at, cap_slot, install, ipc_grant, invalidate, invalidate_task, revoke_wait,
  clear_cap, close_cap, task_at, endpoint_at, has_rights, modify_task, set_caps, references, expire,
}
use spirit_fox_os.Kernel.Ipc.Calls.{
  waiting, stamped, Outcome, Call, ipc_syscall, ep_create, cap_close, cap_derive, cap_revoke,
  send_cancel, deliver, send, take, recv, opened, current_task, target, waits_on, well_formed,
}

-- The slot has a later generation, or the same one and no other endpoint than before.
abbrev pub Ages : Cap → Cap → Type 0
Ages c c' =
    (c.generation < c'.generation)
    ⊎ ((c'.generation ≡ c.generation) × ((c'.endpoint ≡ 0) ⊎ (c'.endpoint ≡ c.endpoint)))

pub Ages-trans : (a b c : Cap) → Ages a b → Ages b c → Ages a c
Ages-trans a b c p q = grind arith

abbrev pub TaskAges : Task → Task → Type 0
TaskAges t t' = (s : ℕ) → Ages (cap_at t s) (cap_at t' s)

pub TaskAges-refl : (t : Task) → TaskAges t t
TaskAges-refl t s = inr (refl, inr refl)

pub modify-TaskAges :
    (slot : ℕ) (f : Cap → Cap) (t : Task)
    → ((c : Cap) → Ages c (f c))
    → TaskAges t (set_caps (modify slot f) t)
modify-TaskAges slot f t h s = elim (get_or-modify slot s f t.caps no_cap) [
  | inl e ↦ rw e (inr (refl, inr refl))
  | inr (_, e, _) ↦ rw e (h (cap_at t s))
]

pub map-Ages :
    (f : Cap → Cap)
    → ((c : Cap) → Ages c (f c))
    → (xs : List Cap) (s : ℕ) → Ages (get_or xs s no_cap) (get_or (map f xs) s no_cap)
map-Ages f h [] s = inr (refl, inr refl)
map-Ages f h (x ∷ xs) zero = h x
map-Ages f h (x ∷ xs) (suc s) = map-Ages f h xs s

clear_cap-Ages : (i : ℕ) (c : Cap) → Ages c (clear_cap i c)
unfolding clear_cap
clear_cap-Ages i c = elim (Bool-cases (c.endpoint == i + 1)) [
  | inl hit ↦ rw hit (inr (refl, inl refl))
  | inr miss ↦ rw miss (inr (refl, inr refl))
]

revoke_wait-caps : (ticks i : ℕ) (t : Task) → (revoke_wait ticks i t).caps ≡ t.caps
unfolding revoke_wait
revoke_wait-caps ticks i t = ground arith

pub invalidate_task-TaskAges : (ticks i : ℕ) (t : Task) → TaskAges t (invalidate_task ticks i t)
unfolding invalidate_task
invalidate_task-TaskAges ticks i t s =
    rw (revoke_wait-caps ticks i t) (map-Ages (clear_cap i) (clear_cap-Ages i) t.caps s)

pub expire-TaskAges : (ticks : ℕ) (t : Task) → TaskAges t (expire ticks t)
unfolding expire
expire-TaskAges ticks t s =
    let e : (expire ticks t).caps ≡ t.caps = ground arith in rw e (inr (refl, inr refl))

pub map-TaskAges :
    (g : Task → Task)
    → ((t : Task) → TaskAges t (g t))
    → (xs : List Task) (i : ℕ) → TaskAges (get_or xs i no_task) (get_or (map g xs) i no_task)
map-TaskAges g h [] i = TaskAges-refl no_task
map-TaskAges g h (x ∷ xs) zero = h x
map-TaskAges g h (x ∷ xs) (suc i) = map-TaskAges g h xs i

module _ {U : UserMemory} where
  -- Every slot of every task ages.
  abbrev pub KernelAges : Kernel U → Kernel U → Type 0
  KernelAges k k' = (i : ℕ) → TaskAges (task_at k i) (task_at k' i)

  pub KernelAges-trans : (a b c : Kernel U) → KernelAges a b → KernelAges b c → KernelAges a c
  KernelAges-trans a b c p q i s =
      Ages-trans (cap_at (task_at a i) s) (cap_at (task_at b i) s) (cap_at (task_at c i) s) (p i s)
        (q i s)

  pub modify_task-KernelAges :
      (i : ℕ) (f : Task → Task) (k : Kernel U)
      → ((t : Task) → TaskAges t (f t))
      → KernelAges k (modify_task i f k)
  modify_task-KernelAges i f k h j = elim (get_or-modify i j f k.tasks no_task) [
    | inl e ↦ rw e (TaskAges-refl (task_at k j))
    | inr (_, e, _) ↦ rw e (h (task_at k j))
  ]

  pub invalidate-KernelAges : (i : ℕ) (k : Kernel U) → KernelAges k (invalidate i k)
  unfolding invalidate
  invalidate-KernelAges i k =
      map-TaskAges (invalidate_task k.ticks i) (invalidate_task-TaskAges k.ticks i) k.tasks

  pub install-KernelAges :
      (k : Kernel U) (ti ep rights : ℕ) → KernelAges k (install k ti ep rights).0
  unfolding install
  install-KernelAges k ti ep rights = elim (Option-cases (cap_slot (task_at k ti))) [
    | inl full ↦ rw (full, install) (λ i. TaskAges-refl (task_at k i))
    | inr (slot, e) ↦
        rw (e, install)
          (modify_task-KernelAges ti _ k (λ t. modify-TaskAges slot _ t (λ c. inl (omega arith))))
  ]

  pub KernelAges-refl : (k : Kernel U) → KernelAges k k
  KernelAges-refl k i = TaskAges-refl (task_at k i)

  -- The first step of `close_cap`.
  abbrev pub dropped : ℕ → ℕ → Kernel U → Kernel U
  dropped ti slot k = modify_task ti (set_caps (modify slot (λ c. record c { endpoint = 0 }))) k

  pub dropped-close_cap :
      (ti slot : ℕ) (k : Kernel U) → KernelAges (dropped ti slot k) (close_cap ti slot k)
  unfolding close_cap
  dropped-close_cap ti slot k = elim (Bool-cases (any (references (ep + 1)) k'.tasks)) [
    | inl shared ↦ rw shared (KernelAges-refl k')
    | inr last ↦ rw last (invalidate-KernelAges ep k')
  ]
    where
      ep : ℕ
      ep = (cap_at (task_at k ti) slot).endpoint - 1

      k' : Kernel U
      k' = dropped ti slot k

  pub close_cap-KernelAges : (ti slot : ℕ) (k : Kernel U) → KernelAges k (close_cap ti slot k)
  close_cap-KernelAges ti slot k =
      KernelAges-trans k (dropped ti slot k) (close_cap ti slot k)
        (modify_task-KernelAges ti _ k (λ t. modify-TaskAges slot _ t (λ c. inr (refl, inl refl))))
        (dropped-close_cap ti slot k)

  ep_create-KernelAges : (k : Kernel U) → KernelAges k (ep_create k).0
  unfolding ep_create opened
  ep_create-KernelAges k = elim (Option-cases (cap_slot (current_task k))) [
    | inl full ↦ rw (full, ep_create) (KernelAges-refl k)
    | inr (s, e) ↦ elim (Option-cases (find_index? (λ (x : Endpoint). x.owner == 0) k.endpoints)) [
      | inl none_free ↦ rw (e, ep_create, none_free) (KernelAges-refl k)
      | inr (i, f) ↦
          rw (e, ep_create, f) (install-KernelAges (opened (current_task k).pid i k) k.current i 7)
    ]
  ]

  cap_close-KernelAges : (k : Kernel U) (a : ℕ) → KernelAges k (cap_close k a).0
  unfolding cap_close
  cap_close-KernelAges k a = elim (Option-cases (cap k (current_task k) a 0)) [
    | inl stale ↦ rw (stale, cap_close) (KernelAges-refl k)
    | inr (s, e) ↦ rw (e, cap_close) (close_cap-KernelAges k.current s k)
  ]

  cap_derive-KernelAges : (k : Kernel U) (a b : ℕ) → KernelAges k (cap_derive k a b).0
  unfolding cap_derive
  cap_derive-KernelAges k a b = elim (Option-cases (cap k (current_task k) a right_delegate)) [
    | inl stale ↦ rw (stale, cap_derive) (KernelAges-refl k)
    | inr (s, e) ↦
        elim (Bool-cases (leb 8 b || not (has_rights (cap_at (current_task k) s).rights b))) [
          | inl refused ↦ rw (e, cap_derive, refused) (KernelAges-refl k)
          | inr granted ↦
              rw (e, cap_derive, granted) (install-KernelAges k k.current (target k s - 1) b)
        ]
  ]

  cap_revoke-KernelAges : (k : Kernel U) (a : ℕ) → KernelAges k (cap_revoke k a).0
  unfolding cap_revoke
  cap_revoke-KernelAges k a = elim (Option-cases (cap k (current_task k) a right_delegate)) [
    | inl stale ↦ rw (stale, cap_revoke) (KernelAges-refl k)
    | inr (s, e) ↦
        elim (Bool-cases ((endpoint_at k (target k s - 1)).owner == (current_task k).pid)) [
          | inl own ↦ rw (e, cap_revoke, own) (invalidate-KernelAges (target k s - 1) k)
          | inr other ↦ rw (e, cap_revoke, other) (KernelAges-refl k)
        ]
  ]

  pub ipc_grant-KernelAges :
      (k : Kernel U) (from to handle rights : ℕ)
      → KernelAges k (ipc_grant k from to handle rights).0
  unfolding ipc_grant
  ipc_grant-KernelAges k from to handle rights =
      elim (Option-cases (cap k (task_at k from) handle right_delegate)) [
        | inl stale ↦ rw (stale, ipc_grant) (KernelAges-refl k)
        | inr (s, e) ↦ elim (Bool-cases (has_rights (cap_at (task_at k from) s).rights rights)) [
          | inl held ↦
              rw (e, ipc_grant, held)
                (install-KernelAges k to ((cap_at (task_at k from) s).endpoint - 1) rights)
          | inr missing ↦ rw (e, ipc_grant, missing) (KernelAges-refl k)
        ]
      ]

  send_cancel-tasks : (k : Kernel U) (a b c : ℕ) → (send_cancel k a b c).0.tasks ≡ k.tasks
  unfolding send_cancel
  send_cancel-tasks k a b c = ground arith

  -- A call of SYS_SEND or SYS_RECV changes the state of one task at most, and no capability.
  abbrev pub AgesOutcome : Kernel U → Outcome U → Type 0
  AgesOutcome k none = Unit
  AgesOutcome k (some (k', r)) = KernelAges k k'

  deliver-AgesOutcome :
      (k : Kernel U) (endpoint : ℕ) (m : Message) → AgesOutcome k (deliver k endpoint m)
  unfolding deliver
  deliver-AgesOutcome k endpoint m = elim (Option-cases (find_index? (waits_on endpoint) k.tasks)) [
    | inl nobody ↦ elim (Bool-cases ((endpoint_at k (endpoint - 1)).count == 8)) [
      | inl full ↦ rw (nobody, deliver, full) (KernelAges-refl k)
      | inr room ↦ rw (nobody, deliver, room) (KernelAges-refl k)
    ]
    | inr (j, f) ↦
        elim (Bool-cases (U.user_range k.memory j (task_at k j).recv_buffer message_size true)) [
          | inl mapped ↦
              rw (f, deliver, mapped) (modify_task-KernelAges j _ k (λ t s. inr (refl, inr refl)))
          | inr unmapped ↦ rw (f, deliver, unmapped) tt
        ]
  ]

  send-AgesOutcome : (k : Kernel U) (a b : ℕ) → AgesOutcome k (send k a b)
  unfolding send
  send-AgesOutcome k a b = elim (Option-cases (cap k (current_task k) a right_send)) [
    | inl stale ↦ rw (stale, send) (KernelAges-refl k)
    | inr (s, e) ↦ elim (Bool-cases (U.user_range k.memory k.current b message_size false)) [
      | inr unmapped ↦ rw (e, send, unmapped) (KernelAges-refl k)
      | inl readable ↦ elim (Bool-cases (well_formed (U.load k.memory k.current b))) [
        | inr bad ↦ rw (e, send, readable, bad) (KernelAges-refl k)
        | inl good ↦
            let deadline = (U.load k.memory k.current b).h.deadline_ns in
            elim (Bool-cases (not (deadline == 0) && leb deadline (now_ns k.ticks))) [
              | inl late ↦ rw (e, send, readable, good, late) (KernelAges-refl k)
              | inr timely ↦
                  rw (e, send, readable, good, timely)
                    (deliver-AgesOutcome
                      (record k { send_bytes = copied k.send_bytes message_size }) (target k s)
                      (stamped (current_task k).pid (U.load k.memory k.current b)))
            ]
      ]
    ]
  ]

  same-KernelAges : (k k' : Kernel U) → k'.tasks ≡ k.tasks → KernelAges k k'
  same-KernelAges k k' e i = rw e (TaskAges-refl (task_at k i))

  recv-tasks :
      (k : Kernel U) (a b c : ℕ)
      → ((recv k a b c).0.tasks ≡ k.tasks)
        ⊎ ((endpoint : ℕ) × ((recv k a b c).0.tasks
              ≡ modify k.current (waiting endpoint b c) k.tasks))
  unfolding recv take
  recv-tasks k a b c = elim (Option-cases (cap k (current_task k) a right_recv)) [
    | inl stale ↦ rw (stale, recv) (inl refl)
    | inr (s, e) ↦ rw (e, recv) (grind arith)
  ]

  recv-KernelAges : (k : Kernel U) (a b c : ℕ) → KernelAges k (recv k a b c).0
  recv-KernelAges k a b c = elim (recv-tasks k a b c) [
    | inl e ↦ same-KernelAges k (recv k a b c).0 e
    | inr (endpoint, e) ↦ λ i.
        rw e (
          modify_task-KernelAges k.current (waiting endpoint b c) k (λ t s. inr (refl, inr refl)) i)
  ]

  pub ipc_syscall-AgesOutcome :
      (k : Kernel U) (call : Call) (a b c : ℕ) → AgesOutcome k (ipc_syscall k call a b c)
  unfolding ipc_syscall
  ipc_syscall-AgesOutcome k Call.ep_create_call a b c = ep_create-KernelAges k
  ipc_syscall-AgesOutcome k Call.cap_close_call a b c = cap_close-KernelAges k a
  ipc_syscall-AgesOutcome k Call.cap_derive_call a b c = cap_derive-KernelAges k a b
  ipc_syscall-AgesOutcome k Call.cap_revoke_call a b c = cap_revoke-KernelAges k a
  ipc_syscall-AgesOutcome k Call.send_cancel_call a b c =
      same-KernelAges k (send_cancel k a b c).0 (send_cancel-tasks k a b c)
  ipc_syscall-AgesOutcome k Call.send_call a b c = send-AgesOutcome k a b
  ipc_syscall-AgesOutcome k Call.recv_call a b c = recv-KernelAges k a b c
  ipc_syscall-AgesOutcome k Call.other_call a b c = KernelAges-refl k
